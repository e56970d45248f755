-- ===== src/Domain/Register/Items.antt =====
-- Searching a subject's versions.
use mathlib.Core.Path.{subst}
use riquet.Domain.Queries.{is_found, lookup_in, schema_or_zero}
use riquet.Domain.Register.{active_with}
use riquet.Domain.Snapshot.Consistent.{Fresh}
use riquet.Domain.Types.{Schema, SchemaId, SubjectVersion, Version}
use riquet.Map.{Map, get}
use riquet.Prelude.{
  Bool-cases, List, [], any, arith, contains, false, inl, inr, nat_eq_iff, not, number_eq, some,
  string_eq, ◌&&◌, ◌++◌, ◌==◌, ◌∷◌, ◌≡◌,
}

-- A version that the search finds was not seen before.
Fresh-active_with :
    (seen : List Version) (items : List SubjectVersion) (id : SchemaId) (item : SubjectVersion)
    → Fresh seen items
    → active_with id items ≡ some item
    → contains seen item.version ≡ false
unfolding active_with
Fresh-active_with seen [] id item fresh h = absurd (cc)
Fresh-active_with seen (x ∷ rest) id item fresh h =
    ground (arith, fresh.0, Fresh-active_with (x.version ∷ seen) rest id item fresh.1)

-- Where no version stands twice, Lookup finds the active version that planRegister finds.
pub lookup_in-active_with :
    (schemas : Map SchemaId Schema) (seen : List Version) (items : List SubjectVersion)
    (id : SchemaId) (item : SubjectVersion)
    → Fresh seen items
    → active_with id items ≡ some item
    → (lookup_in schemas item.version false items ≡ (
      item,
      schema_or_zero (get schemas item.schema_id),
      is_found (get schemas item.schema_id),
    ))
      × (item.schema_id ≡ id)
unfolding active_with lookup_in
lookup_in-active_with schemas seen [] id item fresh h = absurd (cc)
lookup_in-active_with schemas seen (x ∷ rest) id item fresh h =
    elim (Bool-cases (x.schema_id == id && not x.deleted && not x.permanent)) [
      | inl hit ↦
          subst
            (λ (y : SubjectVersion).
              (lookup_in schemas y.version false (x ∷ rest)
                ≡ (y, schema_or_zero (get schemas y.schema_id), is_found (get schemas y.schema_id)))
              × (y.schema_id ≡ id))
            (let same : x ≡ item = ground (arith, hit) in same)
            (ground (arith, hit, nat_eq_iff x.version x.version), ground (arith, hit))
      | inr miss ↦
          let found : active_with id rest ≡ some item = ground (arith, miss) in
          let other = Fresh-active_with (x.version ∷ seen) rest id item fresh.1 found in
          let ih = lookup_in-active_with schemas (x.version ∷ seen) rest id item fresh.1 found in
          (ground (arith, other, ih.0), ih.1)
    ]

-- A version that no entry has is found at the end, where it is appended.
pub lookup_in-append :
    (schemas : Map SchemaId Schema) (items : List SubjectVersion) (item : SubjectVersion)
    → any (λ x. x.version == item.version) items ≡ false
    → item.deleted ≡ false
    → item.permanent ≡ false
    → lookup_in schemas item.version false (items ++ (item ∷ []))
      ≡ (item, schema_or_zero (get schemas item.schema_id), is_found (get schemas item.schema_id))
unfolding lookup_in
lookup_in-append schemas [] item new active lasting =
    ground (arith, nat_eq_iff item.version item.version)
lookup_in-append schemas (x ∷ rest) item new active lasting =
    ground (arith, lookup_in-append schemas rest item)
