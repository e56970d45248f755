-- ===== src/Prelude/Words.antt =====
-- Go's int64 and uint64, held as bit patterns: numbers below 2 ^ 64.
use Prim.Native.Nat.{ℕ, ◌+◌, ◌%◌, ◌^◌, ◌<◌}
use mathlib.Core.Path.{◌≡◌}
use mathlib.Core.Bool.{Bool, false}
use native.Mathlib.Omega.{arith}
use riquet.Prelude.Tests.{ltb}

-- x + 1, wrapping around.
abbrev pub inc : ℕ → ℕ
inc x = (x + 1) % 2 ^ 64

-- a < b on int64: the patterns from 2 ^ 63 on stand for the negative numbers.
abbrev pub slt : ℕ → ℕ → Bool
slt a b = ltb ((a + 2 ^ 63) % 2 ^ 64) ((b + 2 ^ 63) % 2 ^ 64)

-- A positive int64 is one that `x < 1` rejects.
pub positive_bounds : (x : ℕ) → x < 2 ^ 64 → slt x 1 ≡ false → (0 < x) × (x < 2 ^ 63)
positive_bounds x h p = ground arith

pub positive_slt : (x : ℕ) → 0 < x → x < 2 ^ 63 → slt x 1 ≡ false
positive_slt x h p = ground arith
