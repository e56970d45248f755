-- ===== src/Domain/State/Marking.antt =====
-- What markDeleted does to the versions that can be read.
use mathlib.Core.Path.{subst}
use riquet.Domain.Queries.{lookup_in}
use riquet.Domain.Snapshot.Consistent.{Fresh, IsFiled}
use riquet.Domain.State.{mark_versions}
use riquet.Domain.Types.{Schema, SchemaId, SubjectVersion, Version}
use riquet.Map.{Map}
use riquet.Prelude.{
  All, Bool, Bool-cases, List, Option-cases, String, [], arith, contains, false, inl, inr,
  nat_eq_iff, not, number_eq, refl, some, string_eq, true, ◌&&◌, ◌==◌, ◌∷◌, ◌≡◌,
}

-- A version seen before is not found among the others.
lookup_in-seen :
    (schemas : Map SchemaId Schema) (version : Version) (include_deleted : Bool)
    (seen : List Version) (items : List SubjectVersion)
    → contains seen version ≡ true
    → Fresh seen items
    → (lookup_in schemas version include_deleted items).2 ≡ false
unfolding lookup_in
lookup_in-seen schemas version include_deleted seen [] h fresh = refl
lookup_in-seen schemas version include_deleted seen (x ∷ rest) h fresh = ground (
  arith,
  h,
  fresh.0,
  nat_eq_iff x.version version,
  nat_eq_iff version x.version,
  lookup_in-seen schemas version include_deleted (x.version ∷ seen) rest (ground (arith, h))
      fresh.1,
)

-- One version marked as deleted.
abbrev pub as_deleted : SubjectVersion → Bool → SubjectVersion
as_deleted x permanent = record x { deleted = true; permanent = permanent }

-- The versions before and after markDeleted, which finds the first with the number that is not
-- permanently deleted.
pub data Marked (version : Version) (permanent : Bool)
    : List SubjectVersion → List SubjectVersion → Type 0 where
  marks :
      (x : SubjectVersion) (rest : List SubjectVersion)
      → x.version ≡ version
      → x.permanent ≡ false
      → Marked version permanent (x ∷ rest) (as_deleted x permanent ∷ rest)
  skips :
      (x : SubjectVersion) {rest marked : List SubjectVersion}
      → (x.version == version && not x.permanent) ≡ false
      → Marked version permanent rest marked
      → Marked version permanent (x ∷ rest) (x ∷ marked)

pub mark_versions-Marked :
    (version : Version) (permanent : Bool) (items : List SubjectVersion)
    {marked : List SubjectVersion}
    → mark_versions version permanent items ≡ some marked
    → Marked version permanent items marked
unfolding mark_versions
mark_versions-Marked version permanent [] h = absurd (cc)
mark_versions-Marked version permanent (x ∷ rest) {marked} h =
    elim (Bool-cases (x.version == version && not x.permanent)) [
      | inl hit ↦
          subst (Marked version permanent (x ∷ rest))
            (let e : (as_deleted x permanent ∷ rest) ≡ marked = ground (arith, hit) in e)
            (marks x rest (ground (arith, hit, nat_eq_iff x.version version)) (ground (arith, hit)))
      | inr miss ↦ elim (Option-cases (mark_versions version permanent rest)) [
        | inl none' ↦ absurd (ground (arith, miss, none'))
        | inr (others, found) ↦
            subst (Marked version permanent (x ∷ rest))
              (let e : (x ∷ others) ≡ marked = ground (arith, miss, found) in e)
              (skips x miss (mark_versions-Marked version permanent rest found))
      ]
    ]

module _ (schemas : Map SchemaId Schema) {version : Version} {permanent : Bool} where
  -- A marked version is not active, and a search that includes deleted ones finds it unless it is
  -- permanently deleted.
  pub lookup_in-Marked :
      (include_deleted : Bool) (subject : String) (seen : List Version)
      {items marked : List SubjectVersion}
      → Fresh seen items
      → All (IsFiled schemas subject) items
      → Marked version permanent items marked
      → (lookup_in schemas version include_deleted marked).2 ≡ (include_deleted && not permanent)
  unfolding lookup_in
  lookup_in-Marked include_deleted subject seen fresh filed (marks x rest at kept) =
      let (schema, stored) = filed.0.stored in
      let none' =
        lookup_in-seen schemas version include_deleted (x.version ∷ seen) rest
          (ground (arith, at, nat_eq_iff x.version version)) fresh.1 in
      ground (arith, at, kept, stored, none', nat_eq_iff x.version version)
  lookup_in-Marked include_deleted subject seen fresh filed (skips x miss others) =
      let ih = lookup_in-Marked include_deleted subject (x.version ∷ seen) fresh.1 filed.1 others in
      ground (arith, miss, ih)

  -- The other versions are found as before.
  pub lookup_in-Marked_other :
      (other : Version) (include_deleted : Bool) {items marked : List SubjectVersion}
      → (version == other) ≡ false
      → Marked version permanent items marked
      → lookup_in schemas other include_deleted marked
        ≡ lookup_in schemas other include_deleted items
  unfolding lookup_in
  lookup_in-Marked_other other include_deleted different (marks x rest at kept) =
      ground (arith, at, different)
  lookup_in-Marked_other other include_deleted different (skips x miss others) =
      ground (arith, lookup_in-Marked_other other include_deleted different others)
