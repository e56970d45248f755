-- ===== src/Storage/Kafka/Layout.antt =====
-- internal/storage/kafka/layout.go: the keys of the state topic.
use Prim.Native.Char.{Char, code, len_utf8}
use Prim.Native.String.{◌++◌ as append}
use riquet.Domain.Types.{Sequence}
use riquet.Prelude.{
  Option, String, if◌then◌else◌, leb, ltb, none, not, number_eq, some, string_eq, suc, zero, ℕ, ◌%◌,
  ◌&&◌, ◌*◌, ◌+◌, ◌-◌, ◌/◌, ◌==◌, ◌^◌,
}
use riquet.Prelude.Texts.{after_prefix}

abbrev pub transition_prefix : String
transition_prefix = "v1/transition/"

abbrev pub snapshot_record_key : String
snapshot_record_key = "v1/snapshot"

abbrev pub primary_record_key : String
primary_record_key = "v1/coordination/primary"

abbrev pub restore_record_key : String
restore_record_key = "v1/restore/checkpoint"

abbrev pub digit : ℕ → Char
digit d =
    if d == 0
    then "0"
    else if d == 1
    then "1"
    else if d == 2
    then "2"
    else if d == 3
    then "3"
    else if d == 4
    then "4"
    else if d == 5
    then "5"
    else if d == 6
    then "6"
    else if d == 7
    then "7"
    else if d == 8
    then "8"
    else "9"

-- The last `k` decimal digits of a number, before a text: fmt's %020d for `k` = 20, since a uint64
-- has no more digits.
unfoldable pub write_digits : ℕ → ℕ → String → String
write_digits zero n rest = rest
write_digits (suc k) n rest = write_digits k (n / 10) (String.◌∷◌ (digit (n % 10)) rest)

unfoldable pub transition_key : Sequence → String
unfolding write_digits
transition_key sequence = append transition_prefix (write_digits 20 sequence "")

-- strconv.ParseUint on a text of decimal digits, with what comes before it.
unfoldable pub read_digits : ℕ → String → Option ℕ
read_digits n String.[] = some n
read_digits n (String.◌∷◌ c s) =
    let rest = read_digits (n * 10 + (code c - b'0')) s in
    if leb b'0' (code c) && leb (code c) b'9' then rest else none

unfoldable pub count_bytes : String → ℕ
count_bytes String.[] = 0
count_bytes (String.◌∷◌ c s) = len_utf8 c + count_bytes s

-- parseTransitionKey; a number of twenty digits may not fit in a uint64.
abbrev pub in_range : Option ℕ → Option Sequence
in_range none = none
in_range (some n) = if ltb n (2 ^ 64) && ltb 0 n then some n else none

unfoldable pub parse_transition_key : String → Option Sequence
unfolding read_digits count_bytes after_prefix
parse_transition_key key = elim (after_prefix transition_prefix key) [
  | none ↦ none
  | some raw ↦ if not (count_bytes raw == 20) then none else in_range (read_digits 0 raw)
]
