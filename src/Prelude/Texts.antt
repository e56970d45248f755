-- ===== src/Prelude/Texts.antt =====
-- Go's strings package, as far as the program uses it.
use Prim.Native.Char.{code}
use Prim.Native.String.append
use Prim.Native.String.{String, ◌++◌ as text_append}
use mathlib.Core.Path.{◌≡◌, ap, ◌∙◌}
use native.Mathlib.Omega.{arith}
use mathlib.Core.Bool.{Bool, true, false}
use mathlib.Core.Option.{Option, none, some}
use riquet.Prelude.Tests.{nat_eq_iff, number_eq, if◌then◌else◌, ◌==◌}

-- strings.HasPrefix, and what strings.TrimPrefix leaves.
unfoldable pub after_prefix : String → String → Option String
after_prefix String.[] s = some s
after_prefix (String.◌∷◌ c p) String.[] = none
after_prefix (String.◌∷◌ c p) (String.◌∷◌ d s) =
    let rest = after_prefix p s in if code c == code d then rest else none

abbrev pub has_prefix : String → String → Bool
has_prefix s p = elim (after_prefix p s) [ none ↦ false | some rest ↦ true ]

pub after_prefix-append : (p s : String) → after_prefix p (text_append p s) ≡ some s
unfolding after_prefix
after_prefix-append String.[] s = ap some (append.nil s)
after_prefix-append (String.◌∷◌ c p) s =
    ap (after_prefix (String.◌∷◌ c p)) (append.cons c p s)
    ∙ ground (arith, nat_eq_iff (code c) (code c), after_prefix-append p s)
