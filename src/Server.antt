-- ===== src/Server.antt =====
-- internal/transport/confluent/server.go: the HTTP adapter around the machine. net/http and the
-- engines are arguments, and the messages of the error answers are left out. A handler runs alone.
pub mod Requests
pub mod Reads
pub mod Writes
pub mod Routes
pub mod Refinement
pub mod Methods
pub mod Errors
pub mod Again
pub mod Retry
pub mod Registered
pub mod Tests
use Prim.Native.Char.{Char, code}
use riquet.Domain.Errors.{
  Error, conflict, corrupt, incompatible, invalid, not_found, read_only, storage,
}
use riquet.Domain.Json.{Json}
use riquet.Domain.Queries.{or_default, versions}
use riquet.Domain.Snapshot.{State}
use riquet.Domain.Transition.{RawMessage}
use riquet.Domain.Types.{SchemaId, Version}
use riquet.Map.{Map, get}
use riquet.Prelude.{
  Bool, List, Option, String, [], contains, if◌then◌else◌, leb, ltb, none, not, number_eq, some,
  string_eq, ℕ, ◌%◌, ◌&&◌, ◌*◌, ◌+◌, ◌-◌, ◌==◌, ◌^◌, ◌||◌, ◌∷◌,
}
use riquet.Prelude.Words.{slt}

-- What a handler reads of its request: the cleaned path in segments, the first value of each query
-- parameter, the header X-Request-ID, and the body with its size.
pub record Call : Type 0 where
  pub method : String
  pub path : List String
  pub query : Map String String
  pub request_id : String
  pub body_size : ℕ
  pub body : RawMessage

-- What surrounds a call: 16 random bytes in hexadecimal, or none; the peer's address; the time in
-- milliseconds.
pub record Arrival : Type 0 where
  pub random : Option String
  pub remote_address : String
  pub now : ℕ

pub data Body : Type 0 where
  json : Json → Body
  plain_text : String → Body
  api_error : ℕ → Body

pub record Reply : Type 0 where
  pub status : ℕ
  pub body : Body

-- writeJSON with status 200, and writeAPIError.
abbrev pub json_reply : Json → Reply
json_reply j = record { status = 200; body = json j }

abbrev pub error_reply : ℕ → ℕ → Reply
error_reply status error_code = record { status = status; body = api_error error_code }

-- writeDomainError
unfoldable pub domain_reply : Error → Reply
domain_reply e = elim e.category [
  | invalid ↦ error_reply 422 42201
  | not_found ↦
      error_reply 404
        (if e.resource == "version" || e.resource == "reference" then 40402 else 40401)
  | conflict ↦ error_reply 409 409
  | incompatible ↦ error_reply 409 409
  | read_only ↦ error_reply 422 42205
  | storage ↦ error_reply 500 50001
  | corrupt ↦ error_reply 500 50001
]

-- A helper that has either written its error answer or returns a value.
pub data Checked {ℓ} (A : Type ℓ) : Type ℓ where
  rejected : Reply → Checked A
  accepted : A → Checked A

infixl 5 ◌>>=◌
abbrev pub ◌>>=◌ {ℓ κ} :
    {A : Type ℓ} {B : Type κ} (call : Checked A) (next : A → Checked B) → Checked B
rejected reply >>= next = rejected reply
accepted a >>= next = next a

-- if bad { write the answer; return }
abbrev pub require {ℓ} : {A : Type ℓ} → Reply → Option A → Checked A
require reply none = rejected reply
require reply (some a) = accepted a

abbrev pub answer : Checked Reply → Reply
answer (rejected reply) = reply
answer (accepted reply) = reply

-- strconv.ParseInt(value, 10, 64), as a bit pattern.
is_digit : Char → Bool
is_digit c = leb b'0' (code c) && leb (code c) b'9'

unfoldable pub decimal : ℕ → String → Option ℕ
unfolding is_digit
decimal n String.[] = some n
decimal n (String.◌∷◌ c s) =
    let rest = decimal (n * 10 + (code c - b'0')) s in if is_digit c then rest else none

unfoldable pub magnitude : String → Option ℕ
unfolding decimal
magnitude String.[] = none
magnitude (String.◌∷◌ c s) = decimal 0 (String.◌∷◌ c s)

abbrev pub non_negative : Option ℕ → Option ℕ
non_negative none = none
non_negative (some n) = if ltb n (2 ^ 63) then some n else none

abbrev pub negative : Option ℕ → Option ℕ
negative none = none
negative (some n) = if leb n (2 ^ 63) then some ((2 ^ 64 - n) % 2 ^ 64) else none

unfoldable pub parse_int : String → Option ℕ
unfolding magnitude
parse_int String.[] = none
parse_int (String.◌∷◌ c s) =
    if code c == b'-'
    then negative (magnitude s)
    else if code c == b'+'
    then non_negative (magnitude s)
    else non_negative (magnitude (String.◌∷◌ c s))

-- queryBool, whose strconv.ParseBool gives false with its error.
unfoldable pub query_bool : Call → String → Bool
query_bool c key =
    contains ("1" ∷ "t" ∷ "T" ∷ "TRUE" ∷ "true" ∷ "True" ∷ []) (or_default "" (get c.query key))

-- parseVersionPath and parseID
unfoldable pub last_version : List Version → Checked Version
last_version [] = rejected (error_reply 404 40401)
last_version (v ∷ []) = accepted v
last_version (v ∷ w ∷ rest) = last_version (w ∷ rest)

abbrev pub at_least_one : Reply → ℕ → Checked ℕ
at_least_one reply n = if slt n 1 then rejected reply else accepted n

unfoldable pub parse_version_path : State → String → String → Bool → Checked Version
unfolding last_version parse_int
parse_version_path s subject value include_deleted =
    if value == "latest" then last_version (versions s subject include_deleted) else (do
      n ← require (error_reply 422 42202) (parse_int value)
      at_least_one (error_reply 422 42202) n)

unfoldable pub parse_id : String → Checked SchemaId
unfolding parse_int
parse_id value = do
  n ← require (error_reply 404 40403) (parse_int value)
  at_least_one (error_reply 404 40403) n

-- operationID; strings.ReplaceAll(address, ":", "-").
unfoldable pub without_colons : String → String
without_colons String.[] = ""
without_colons (String.◌∷◌ c s) = String.◌∷◌ (if code c == b':' then "-" else c) (without_colons s)

unfoldable pub operation_id : Arrival → Call → String
unfolding without_colons
operation_id around c =
    if not (c.request_id == "")
    then c.request_id
    else or_default (without_colons around.remote_address) around.random
