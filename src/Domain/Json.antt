-- ===== src/Domain/Json.antt =====
-- The JSON that internal/domain/transition.go writes as payloads and reads back: encoding/json's
-- values, and how it fills a Go struct's field. Keys match exactly, and the last of two equal keys
-- counts.
use riquet.Prelude.{
  Bool, Option, String, arith, false, if◌then◌else◌, ltb, none, number_eq, some, string_eq, ℕ, ◌==◌,
  ◌^◌, ◌≡◌,
}

-- A number that fits in int64 is `int` of its pattern, one from 2 ^ 63 to 2 ^ 64 - 1 is `big`; any
-- other number is `other_number` of its text.
mutual
  pub data Json : Type 0 where
    null : Json
    bool : Bool → Json
    int : ℕ → Json
    big : ℕ → Json
    other_number : String → Json
    text : String → Json
    array : Items → Json
    object : Fields → Json

  pub data Items : Type 0 where
    no_items : Items
    an_item : Json → Items → Items

  pub data Fields : Type 0 where
    no_fields : Fields
    a_field : String → Json → Fields → Fields

infixl 5 ◌>>=◌
abbrev pub ◌>>=◌ {ℓ κ} : {A : Type ℓ} {B : Type κ} → Option A → (A → Option B) → Option B
none >>= f = none
some a >>= f = f a

-- The value under a key.
unfoldable pub find : String → Fields → Option Json
find k no_fields = none
find k (a_field j v rest) = elim (find k rest) [
  | some w ↦ some w
  | none ↦ if j == k then some v else none
]

-- A field of type string, bool, int64 or uint64. An absent key and null leave the zero value.
unfoldable pub read_text : Option Json → Option String
read_text none = some ""
read_text (some null) = some ""
read_text (some (text s)) = some s
read_text (some _) = none

unfoldable pub read_bool : Option Json → Option Bool
read_bool none = some false
read_bool (some null) = some false
read_bool (some (bool b)) = some b
read_bool (some _) = none

unfoldable pub read_int64 : Option Json → Option ℕ
read_int64 none = some 0
read_int64 (some null) = some 0
read_int64 (some (int n)) = some n
read_int64 (some _) = none

unfoldable pub read_uint64 : Option Json → Option ℕ
read_uint64 none = some 0
read_uint64 (some null) = some 0
read_uint64 (some (int n)) = if ltb n (2 ^ 63) then some n else none
read_uint64 (some (big n)) = some n
read_uint64 (some _) = none

-- A field of struct type: its own fields.
unfoldable pub read_object : Option Json → Option Fields
read_object none = some no_fields
read_object (some null) = some no_fields
read_object (some (object fields)) = some fields
read_object (some _) = none

-- A field of slice type.
unfoldable pub read_array : Option Json → Option Items
read_array none = some no_items
read_array (some null) = some no_items
read_array (some (array items)) = some items
read_array (some _) = none

unfoldable pub uint64 : ℕ → Json
uint64 n = if ltb n (2 ^ 63) then int n else big n

-- The tag omitempty.
unfoldable pub omit_text : String → String → Fields → Fields
omit_text key s rest = if s == "" then rest else a_field key (text s) rest

unfoldable pub omit_int64 : String → ℕ → Fields → Fields
omit_int64 key n rest = if n == 0 then rest else a_field key (int n) rest

unfoldable pub omit_uint64 : String → ℕ → Fields → Fields
unfolding uint64
omit_uint64 key n rest = if n == 0 then rest else a_field key (uint64 n) rest

pub read_uint64-uint64 : (n : ℕ) → read_uint64 (some (uint64 n)) ≡ some n
unfolding read_uint64 uint64
read_uint64-uint64 n = ground arith
