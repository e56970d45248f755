-- ===== src/Domain/Queries.antt =====
-- The read methods of State in internal/domain/state.go. Where the source ranges over a map, the
-- entries come in the list's order.
use riquet.Domain.Snapshot.{State, versions_of}
use riquet.Domain.Types.{
  CompatibilityLevel, Mode, Reference, Result, Schema, SchemaId, SubjectVersion, Version, no_schema,
  no_version,
}
use riquet.Map.{Map, get}
use riquet.Prelude.{
  Bool, List, Option, String, [], any, false, if◌then◌else◌, keep, ltb, map, none, not, number_eq,
  some, sort, string_eq, text_lt, true, ◌&&◌, ◌++◌, ◌==◌, ◌||◌, ◌∷◌,
}
use riquet.Prelude.Words.{slt}

abbrev pub is_active : SubjectVersion → Bool
is_active item = not item.deleted && not item.permanent

abbrev pub is_visible : Bool → SubjectVersion → Bool
is_visible include_deleted item = not (item.permanent || (not include_deleted && item.deleted))

-- s.snapshot.Schemas[id], Schema{} if missing, and whether it is there.
abbrev pub schema_or_zero : Option Schema → Schema
schema_or_zero none = no_schema
schema_or_zero (some schema) = schema

abbrev pub is_found {ℓ} : {A : Type ℓ} → Option A → Bool
is_found none = false
is_found (some a) = true

-- ResultFor, SchemaByID
unfoldable pub result_for : State → String → Option Result
result_for s operation_id = get s.operations operation_id

unfoldable pub schema_by_id : State → SchemaId → Option Schema
schema_by_id s id = get s.schemas id

-- The items of a range over all subjects.
abbrev pub all_versions : Map String (List SubjectVersion) → List SubjectVersion
all_versions [] = []
all_versions ((owner, versions) ∷ rest) = versions ++ all_versions rest

abbrev newer : SubjectVersion → SubjectVersion → Bool
newer a b =
    if not (a.sequence == b.sequence)
    then ltb b.sequence a.sequence
    else if a.subject == b.subject
    then slt b.version a.version
    else text_lt b.subject a.subject

-- VersionsForID
unfoldable pub versions_for_id : State → SchemaId → List SubjectVersion
versions_for_id s id =
    sort newer (keep (λ item. item.schema_id == id && is_active item) (all_versions s.subjects))

-- The loops of LatestForID.
unfoldable pub latest_in :
    SchemaId → List SubjectVersion → SubjectVersion × Bool → SubjectVersion × Bool
latest_in id [] best = best
latest_in id (item ∷ rest) best = latest_in id rest (
    if not (item.schema_id == id) || item.deleted || item.permanent
    then best
    else if not best.1 || ltb best.0.sequence item.sequence
    then (item, true)
    else best)

unfoldable pub latest_over :
    SchemaId
    → String
    → Map String (List SubjectVersion)
    → SubjectVersion × Bool
    → SubjectVersion × Bool
latest_over id subject [] best = best
latest_over id subject ((owner, versions) ∷ rest) best =
    latest_over id subject rest
      (if not (subject == "") && not (owner == subject) then best else latest_in id versions best)

-- LatestForID
unfoldable pub latest_for_id : State → SchemaId → String → SubjectVersion × Bool
unfolding latest_in latest_over
latest_for_id s id subject = latest_over id subject s.subjects (no_version, false)

-- Subjects
unfoldable pub listed_subjects : Bool → Map String (List SubjectVersion) → List String
listed_subjects include_deleted [] = []
listed_subjects include_deleted ((subject, versions) ∷ rest) =
    let others = listed_subjects include_deleted rest in
    if any (is_visible include_deleted) versions then subject ∷ others else others

unfoldable pub subjects : State → Bool → List String
unfolding listed_subjects
subjects s include_deleted = sort text_lt (listed_subjects include_deleted s.subjects)

-- Versions
unfoldable pub versions : State → String → Bool → List Version
versions s subject include_deleted =
    sort slt
      (map (λ item. item.version) (keep (is_visible include_deleted) (versions_of s subject)))

-- Lookup
unfoldable pub lookup_in :
    Map SchemaId Schema → Version → Bool → List SubjectVersion → SubjectVersion × Schema × Bool
lookup_in schemas version include_deleted [] = (no_version, no_schema, false)
lookup_in schemas version include_deleted (item ∷ rest) =
    let others = lookup_in schemas version include_deleted rest in
    let schema = get schemas item.schema_id in
    if not (item.version == version) || item.permanent || (not include_deleted && item.deleted)
    then others
    else (item, schema_or_zero schema, is_found schema)

unfoldable pub lookup : State → String → Version → Bool → SubjectVersion × Schema × Bool
unfolding lookup_in
lookup s subject version include_deleted =
    lookup_in s.schemas version include_deleted (versions_of s subject)

-- FindSubjectSchema
unfoldable pub find_in :
    Map SchemaId Schema → String → List SubjectVersion → SubjectVersion × Schema × Bool
find_in schemas identity [] = (no_version, no_schema, false)
find_in schemas identity (item ∷ rest) =
    let others = find_in schemas identity rest in
    if item.deleted || item.permanent then others else elim (get schemas item.schema_id) [
      | none ↦ others
      | some schema ↦ if schema.identity == identity then (item, schema, true) else others
    ]

unfoldable pub find_subject_schema : State → String → String → SubjectVersion × Schema × Bool
unfolding find_in
find_subject_schema s subject identity = find_in s.schemas identity (versions_of s subject)

abbrev pub or_default {ℓ} : {A : Type ℓ} → A → Option A → A
or_default d none = d
or_default d (some a) = a

-- EffectiveCompatibility, SubjectCompatibility, EffectiveMode, SubjectMode
unfoldable pub effective_compatibility : State → String → CompatibilityLevel
effective_compatibility s subject =
    or_default s.global_compatibility (get s.subject_compatibility subject)

unfoldable pub subject_compatibility : State → String → Option CompatibilityLevel
subject_compatibility s subject = get s.subject_compatibility subject

unfoldable pub effective_mode : State → String → Mode
effective_mode s subject = or_default s.global_mode (get s.subject_modes subject)

unfoldable pub subject_mode : State → String → Option Mode
subject_mode s subject = get s.subject_modes subject

-- ReferencedBy
abbrev pub refers_to : String → Version → Reference → Bool
refers_to subject version r = r.subject == subject && r.version == version

unfoldable pub referring_versions :
    Map SchemaId Schema → String → Version → String → List SubjectVersion → List SubjectVersion
referring_versions schemas subject version owner [] = []
referring_versions schemas subject version owner (item ∷ rest) =
    let others = referring_versions schemas subject version owner rest in
    if item.deleted || item.permanent
    then others
    else if any (refers_to subject version) (schema_or_zero (get schemas item.schema_id)).references
    then record item { subject = owner } ∷ others
    else others

unfoldable pub referring :
    Map SchemaId Schema → String → Version → Map String (List SubjectVersion) → List SubjectVersion
unfolding referring_versions
referring schemas subject version [] = []
referring schemas subject version ((owner, items) ∷ rest) =
    referring_versions schemas subject version owner items ++ referring schemas subject version rest

abbrev earlier : SubjectVersion → SubjectVersion → Bool
earlier a b =
    if a.subject == b.subject then slt a.version b.version else text_lt a.subject b.subject

unfoldable pub referenced_by : State → String → Version → List SubjectVersion
unfolding referring
referenced_by s subject version = sort earlier (referring s.schemas subject version s.subjects)
