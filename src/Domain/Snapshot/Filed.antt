-- ===== src/Domain/Snapshot/Filed.antt =====
-- The versions of a subject in a consistent state.
use mathlib.Core.Path.{subst}
use riquet.Domain.Snapshot.{State, versions_of}
use riquet.Domain.Snapshot.Consistent.{AreFiled, IsConsistent}
use riquet.Map.{get}
use riquet.Prelude.{Option-cases, String, [], arith, inl, inr, number_eq, string_eq, ◌≡◌}

-- They are filed under the subject, each once; a subject that is missing has none.
pub AreFiled-versions_of :
    (s : State) (subject : String)
    → IsConsistent s
    → AreFiled s.schemas subject (versions_of s subject)
AreFiled-versions_of s subject ok' = elim (Option-cases (get s.subjects subject)) [
  | inl e ↦
      subst (AreFiled s.schemas subject)
        (let h : [] ≡ versions_of s subject = ground (arith, e) in h) (tt, tt)
  | inr (items, e) ↦
      subst (AreFiled s.schemas subject)
        (let h : items ≡ versions_of s subject = ground (arith, e) in h) (ok'.filed subject items e)
]
