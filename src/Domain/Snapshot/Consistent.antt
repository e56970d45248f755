-- ===== src/Domain/Snapshot/Consistent.antt =====
-- What State.validate establishes.
use mathlib.Core.Path.{subst}
use riquet.Domain.Errors.{>>-eq-ok, guarded, ok, ◌>>◌}
use riquet.Domain.Snapshot.{
  Snapshot, State, check_identities, check_subjects, check_versions, restore, validate,
}
use riquet.Domain.Types.{Schema, SchemaId, SubjectVersion, Version, valid_level, valid_mode}
use riquet.Map.{All-get, DistinctKeys, Map, get, get-All}
use riquet.Prelude.{
  All, List, Option-cases, String, [], arith, contains, eq_iff, false, inl, inr, not, number_eq,
  refl, some, string_eq, sym, true, ◌==◌, ◌↔◌, ◌∷◌, ◌≡◌,
}
use riquet.Prelude.Words.{slt}

-- A schema is stored under the ID.
abbrev pub HasSchema : Map SchemaId Schema → SchemaId → Type 0
HasSchema schemas id = (schema : Schema) × (get schemas id ≡ some schema)

-- One version of a subject: filed under its own subject, positive, of a stored schema.
pub record IsFiled (schemas : Map SchemaId Schema) (subject : String) (item : SubjectVersion)
    : Type 0 where
  pub own_subject : item.subject ≡ subject
  pub positive : slt item.version 1 ≡ false
  pub stored : HasSchema schemas item.schema_id

-- No version number stands twice, nor among those seen before.
abbrev pub Fresh : List Version → List SubjectVersion → Type 0
Fresh seen [] = Unit {0}
Fresh seen (item ∷ rest) = (contains seen item.version ≡ false) × Fresh (item.version ∷ seen) rest

pub record IsConsistent (s : State) : Type 0 where
  pub next_positive : slt s.next_schema_id 1 ≡ false
  pub level_valid : valid_level s.global_compatibility ≡ true
  pub mode_valid : valid_mode s.global_mode ≡ true
  pub identities :
      (identity : String) (id : SchemaId)
      → get s.identity_to_id identity ≡ some id
      → (schema : Schema) × (get s.schemas id ≡ some schema) × (schema.identity ≡ identity)
  pub filed :
      (subject : String) (items : List SubjectVersion)
      → get s.subjects subject ≡ some items
      → All (IsFiled s.schemas subject) items × Fresh [] items

-- An identity leads to a schema that has it.
abbrev pub IsIndexed : Map SchemaId Schema → String → SchemaId → Type 0
IsIndexed schemas identity id =
    (schema : Schema) × (get schemas id ≡ some schema) × (schema.identity ≡ identity)

-- The versions of a subject are filed under it, each once.
abbrev pub AreFiled : Map SchemaId Schema → String → List SubjectVersion → Type 0
AreFiled schemas subject items = All (IsFiled schemas subject) items × Fresh [] items

check_identities_sound :
    (schemas : Map SchemaId Schema) (m : Map String SchemaId)
    → check_identities schemas m ≡ ok tt
    → All (λ entry. IsIndexed schemas entry.0 entry.1) m
unfolding check_identities
check_identities_sound schemas [] h = tt
check_identities_sound schemas ((j, v) ∷ rest) h = elim (Option-cases (get schemas v)) [
  | inl missing ↦ absurd (ground (arith, missing))
  | inr (schema, found) ↦ (
    (schema, found, ground (arith, found, eq_iff schema.identity j)),
    check_identities_sound schemas rest (ground (arith, found)),
  )
]

check_versions_sound :
    (schemas : Map SchemaId Schema) (subject : String) (seen : List Version)
    (items : List SubjectVersion)
    → check_versions schemas subject seen items ≡ ok tt
    → All (IsFiled schemas subject) items × Fresh seen items
unfolding check_versions
check_versions_sound schemas subject seen [] h = (tt, tt)
check_versions_sound schemas subject seen (item ∷ rest) h =
    elim (Option-cases (get schemas item.schema_id)) [
      | inl missing ↦ absurd (ground (arith, missing))
      | inr (schema, found) ↦
          let later =
            check_versions_sound schemas subject (item.version ∷ seen) rest
              (ground (arith, found)) in
          (
            (
              record {
                own_subject = ground (arith, found, eq_iff item.subject subject);
                positive = ground (arith, found);
                stored = (schema, found);
              },
              later.0,
            ),
            (ground (arith, found), later.1),
          )
    ]

check_subjects_sound :
    (schemas : Map SchemaId Schema) (m : Map String (List SubjectVersion))
    → check_subjects schemas m ≡ ok tt
    → All (λ entry. AreFiled schemas entry.0 entry.1) m
unfolding check_subjects
check_subjects_sound schemas [] h = tt
check_subjects_sound schemas ((subject, items) ∷ rest) h = (
  check_versions_sound schemas subject [] items (ground arith),
  check_subjects_sound schemas rest (ground arith),
)

-- validate accepts only consistent snapshots.
pub validate-IsConsistent : (s : State) → validate s ≡ ok tt → IsConsistent s
unfolding validate
validate-IsConsistent s h = record {
  next_positive = ground arith;
  level_valid = ground arith;
  mode_valid = ground arith;
  identities = λ identity id found.
      All-get (IsIndexed s.schemas) s.identity_to_id identity id
        (check_identities_sound s.schemas s.identity_to_id (ground arith)) found;
  filed = λ subject items found.
      All-get (AreFiled s.schemas) s.subjects subject items
        (check_subjects_sound s.schemas s.subjects (ground arith)) found;
}

check_identities_complete :
    (schemas : Map SchemaId Schema) (m : Map String SchemaId)
    → All (λ entry. IsIndexed schemas entry.0 entry.1) m
    → check_identities schemas m ≡ ok tt
unfolding check_identities
check_identities_complete schemas [] h = refl
check_identities_complete schemas ((j, v) ∷ rest) h =
    let (schema, found, same) = h.0 in
    ground (arith, found, eq_iff schema.identity j, check_identities_complete schemas rest h.1)

check_versions_complete :
    (schemas : Map SchemaId Schema) (subject : String) (seen : List Version)
    (items : List SubjectVersion)
    → All (IsFiled schemas subject) items
    → Fresh seen items
    → check_versions schemas subject seen items ≡ ok tt
unfolding check_versions
check_versions_complete schemas subject seen [] h fresh = refl
check_versions_complete schemas subject seen (item ∷ rest) h fresh =
    let (schema, found) = h.0.stored in
    ground (
      arith,
      found,
      fresh.0,
      h.0.own_subject,
      h.0.positive,
      eq_iff item.subject subject,
      check_versions_complete schemas subject (item.version ∷ seen) rest h.1 fresh.1,
    )

check_subjects_complete :
    (schemas : Map SchemaId Schema) (m : Map String (List SubjectVersion))
    → All (λ entry. AreFiled schemas entry.0 entry.1) m
    → check_subjects schemas m ≡ ok tt
unfolding check_subjects
check_subjects_complete schemas [] h = refl
check_subjects_complete schemas ((subject, items) ∷ rest) h = ground (
  arith,
  check_versions_complete schemas subject [] items h.0.0 h.0.1,
  check_subjects_complete schemas rest h.1,
)

-- Where the keys of its identity and subject maps are distinct, as those of Go maps are, a snapshot
-- passes validate exactly when it is consistent.
pub validate_iff :
    (s : State)
    → DistinctKeys s.identity_to_id
    → DistinctKeys s.subjects
    → (validate s ≡ ok tt) ↔ IsConsistent s
unfolding validate
validate_iff s d d' = (validate-IsConsistent s, complete)
  where
    complete : IsConsistent s → validate s ≡ ok tt
    complete c = ground (
      arith,
      c.next_positive,
      c.level_valid,
      c.mode_valid,
      check_identities_complete s.schemas s.identity_to_id
          (get-All (IsIndexed s.schemas) s.identity_to_id d c.identities),
      check_subjects_complete s.schemas s.subjects
          (get-All (AreFiled s.schemas) s.subjects d' c.filed),
    )

-- If Restore accepts a snapshot, then its state is the snapshot, of format version 1, and
-- consistent.
pub restore-IsConsistent :
    (s : Snapshot) (t : State)
    → restore s ≡ ok t
    → (t ≡ s) × (s.format_version ≡ 1) × IsConsistent t
unfolding restore
restore-IsConsistent s t h =
    let (version, checked) = guarded (not (s.format_version == 1)) _ (validate s >> ok s) h in
    let (valid, same) = >>-eq-ok (validate s) (ok s) checked in
    let e : t ≡ s = cc in
    (e, ground arith, subst IsConsistent (sym e) (validate-IsConsistent s valid))
