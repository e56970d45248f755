-- ===== src/Domain/State/Covering.antt =====
-- What markDeleted leaves to see of a subject whose visible versions are all marked.
use mathlib.Core.Path.{subst}
use riquet.Domain.Errors.{ok, ok_inj}
use riquet.Domain.Queries.{is_visible, versions}
use riquet.Domain.Snapshot.{State, versions_of}
use riquet.Domain.Snapshot.Consistent.{Fresh}
use riquet.Domain.State.{mark_all, mark_deleted, mark_versions}
use riquet.Domain.State.Marking.{Marked, mark_versions-Marked, marks, skips}
use riquet.Domain.Types.{SubjectVersion, Version}
use riquet.Map.{get-put_self, put}
use riquet.Prelude.{
  All, Bool, Bool-cases, List, Option-cases, String, [], arith, contains, inl, inr, insert_sorted,
  keep, map, nat_eq_iff, not, number_eq, refl, sort, string_eq, true, ◌||◌, ◌∷◌, ◌≡◌,
}
use riquet.Prelude.Words.{slt}

-- Every visible version is one of the list.
abbrev pub Covers : Bool → List Version → List SubjectVersion → Type 0
Covers include_deleted vs items =
    All (λ item. (not (is_visible include_deleted item) || contains vs item.version) ≡ true) items

Fresh-Marked :
    {version : Version} {permanent : Bool} (seen : List Version)
    {items marked : List SubjectVersion}
    → Fresh seen items
    → Marked version permanent items marked
    → Fresh seen marked
Fresh-Marked seen fresh (marks x rest at kept) = fresh
Fresh-Marked seen fresh (skips x miss others) =
    (fresh.0, Fresh-Marked (x.version ∷ seen) fresh.1 others)

Covers-seen :
    (b : Bool) (version : Version) (vs seen : List Version) (items : List SubjectVersion)
    → contains seen version ≡ true
    → Fresh seen items
    → Covers b (version ∷ vs) items
    → Covers b vs items
Covers-seen b version vs seen [] h fresh covers = tt
Covers-seen b version vs seen (x ∷ rest) h fresh covers = (
  ground (arith, h, fresh.0, covers.0, nat_eq_iff version x.version),
  Covers-seen b version vs (x.version ∷ seen) rest (ground (arith, h)) fresh.1 covers.1,
)

-- After marking a version, the others cover what is left to see.
Covers-Marked :
    {version : Version} {permanent : Bool} (vs seen : List Version)
    {items marked : List SubjectVersion}
    → Fresh seen items
    → Covers permanent (version ∷ vs) items
    → Marked version permanent items marked
    → Covers permanent vs marked
Covers-Marked {version} {permanent} vs seen fresh covers (marks x rest at kept) = (
  ground arith,
  Covers-seen permanent version vs (x.version ∷ seen) rest
      (ground (arith, at, nat_eq_iff x.version version)) fresh.1 covers.1,
)
Covers-Marked {version} {permanent} vs seen fresh covers (skips x miss others) = (
  ground (arith, miss, covers.0, nat_eq_iff x.version version, nat_eq_iff version x.version),
  Covers-Marked vs (x.version ∷ seen) fresh.1 covers.1 others,
)

Covers-none :
    (b : Bool) (items : List SubjectVersion) → Covers b [] items → keep (is_visible b) items ≡ []
Covers-none b [] covers = refl
Covers-none b (x ∷ rest) covers = ground (arith, covers.0, Covers-none b rest covers.1)

-- Marking all that the list covers leaves nothing to see.
pub mark_all-none_visible :
    (s : State) (subject : String) (vs : List Version) (permanent : Bool) {u : State}
    → Fresh [] (versions_of s subject)
    → Covers permanent vs (versions_of s subject)
    → mark_all s subject vs permanent ≡ ok u
    → keep (is_visible permanent) (versions_of u subject) ≡ []
unfolding mark_all mark_deleted
mark_all-none_visible s subject [] permanent {u} fresh covers h =
    subst (λ (x : State). keep (is_visible permanent) (versions_of x subject) ≡ []) (ok_inj h)
      (Covers-none permanent (versions_of s subject) covers)
mark_all-none_visible s subject (v ∷ vs) permanent {u} fresh covers h =
    elim (Option-cases (mark_versions v permanent (versions_of s subject))) [
      | inl e ↦ absurd (ground (arith, e))
      | inr (marked, e) ↦
          let next : State = record s { subjects = put s.subjects subject marked } in
          let made = mark_versions-Marked v permanent (versions_of s subject) e in
          let items : marked ≡ versions_of next subject =
            ground (arith, get-put_self s.subjects subject marked) in
          mark_all-none_visible next subject vs permanent {u = u}
            (subst (Fresh []) items (Fresh-Marked [] fresh made))
            (subst (Covers permanent vs) items (Covers-Marked vs [] fresh covers made))
            (ground (arith, e))
    ]

contains-insert_sorted :
    (less : Version → Version → Bool) (x y : Version) (xs : List Version)
    → contains (insert_sorted less x xs) y ≡ contains (x ∷ xs) y
contains-insert_sorted less x y [] = refl
contains-insert_sorted less x y (z ∷ xs) = ground (arith, contains-insert_sorted less x y xs)

contains-sort :
    (less : Version → Version → Bool) (y : Version) (xs : List Version)
    → contains (sort less xs) y ≡ contains xs y
contains-sort less y [] = refl
contains-sort less y (x ∷ xs) =
    ground (arith, contains-insert_sorted less x y (sort less xs), contains-sort less y xs)

Covers-more :
    (b : Bool) (vs ws : List Version) (items : List SubjectVersion)
    → ((v : Version) → contains vs v ≡ true → contains ws v ≡ true)
    → Covers b vs items
    → Covers b ws items
Covers-more b vs ws [] more covers = tt
Covers-more b vs ws (x ∷ rest) more covers =
    (ground (arith, more x.version, covers.0), Covers-more b vs ws rest more covers.1)

Covers-visible :
    (b : Bool) (items : List SubjectVersion)
    → Covers b (map (λ item. item.version) (keep (is_visible b) items)) items
Covers-visible b [] = tt
Covers-visible b (x ∷ rest) =
    let old = map (λ item. item.version) (keep (is_visible b) rest) in
    let all = map (λ item. item.version) (keep (is_visible b) (x ∷ rest)) in
    elim (Bool-cases (is_visible b x)) [
      | inl shown ↦
          subst (λ vs. Covers b vs (x ∷ rest))
            (let e : (x.version ∷ old) ≡ all = ground (arith, shown) in e)
            (
              ground (arith, nat_eq_iff x.version x.version),
              Covers-more b old (x.version ∷ old) rest (λ v h. ground (arith, h))
                  (Covers-visible b rest),
            )
      | inr hidden ↦
          subst (λ vs. Covers b vs (x ∷ rest)) (let e : old ≡ all = ground (arith, hidden) in e)
            (ground (arith, hidden), Covers-visible b rest)
    ]

-- The list that Versions gives covers what can be seen.
pub Covers-versions :
    (s : State) (subject : String) (include_deleted : Bool)
    → Covers include_deleted (versions s subject include_deleted) (versions_of s subject)
unfolding versions
Covers-versions s subject include_deleted =
    Covers-more include_deleted
      (map (λ item. item.version) (keep (is_visible include_deleted) (versions_of s subject))) _
      (versions_of s subject) (λ v h. rw (contains-sort slt v) h)
      (Covers-visible include_deleted (versions_of s subject))

-- With nothing to see, Versions is empty.
pub versions-none_visible :
    (s : State) (subject : String) (include_deleted : Bool)
    → keep (is_visible include_deleted) (versions_of s subject) ≡ []
    → versions s subject include_deleted ≡ []
unfolding versions
versions-none_visible s subject include_deleted h = rw h refl
