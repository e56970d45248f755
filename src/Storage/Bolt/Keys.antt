-- ===== src/Storage/Bolt/Keys.antt =====
-- The eight-byte keys and sequences.
use riquet.Prelude.{arith, number_eq, some, string_eq, ℕ, ◌<◌, ◌^◌, ◌≡◌}
use riquet.Storage.Bolt.{read_sequence, uint64_key}

-- Reading the eight bytes that a uint64 is written as gives the number back.
pub read_sequence-uint64_key : (v : ℕ) → v < 2 ^ 64 → read_sequence (some (uint64_key v)) ≡ v
unfolding read_sequence uint64_key
read_sequence-uint64_key v h = ground arith
