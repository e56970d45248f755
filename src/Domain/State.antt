-- ===== src/Domain/State.antt =====
-- State.Apply of internal/domain/state.go: one transition on the materialized view.
pub mod Steps
pub mod Advance
pub mod Growth
pub mod Allocation
pub mod Effects
pub mod Marking
pub mod Covering
use riquet.Domain.Errors.{Error, Outcome, corrupt, domain_error, err, ok, reject_if, ◌>>=◌, ◌>>◌}
use riquet.Domain.Json.{Json}
use riquet.Domain.Payload.{
  CompatibilityTransition, ModeTransition, RegistrationTransition, read_compatibility,
  read_delete_subject, read_delete_version, read_mode, read_registration,
}
use riquet.Domain.Queries.{subject_compatibility, subjects, versions}
use riquet.Domain.Snapshot.{State, validate, versions_of}
use riquet.Domain.Transition.{
  Digest, Envelope, RawMessage, TransitionKind, compatibility_deleted, compatibility_set, encoded,
  mode_deleted, mode_set, other_kind, schema_registered, subject_deleted, validate_envelope,
  version_deleted,
}
use riquet.Domain.Types.{SchemaId, SubjectVersion, Version}
use riquet.Map.{delete, get, put}
use riquet.Prelude.{
  Bool, List, Option, String, [], if◌then◌else◌, none, not, number_eq, some, string_eq, true, ◌&&◌,
  ◌++◌, ◌==◌, ◌∷◌,
}
use riquet.Prelude.Words.{inc, slt}

-- if id >= NextSchemaID { NextSchemaID = id + 1 }
abbrev pub next_id : SchemaId → SchemaId → SchemaId
next_id next id = if slt id next then next else inc id

unfoldable pub insert_registration : State → RegistrationTransition → State
insert_registration s t = record s {
  schemas = put s.schemas t.schema.id t.schema;
  identity_to_id = put s.identity_to_id t.schema.identity t.schema.id;
  subjects = put s.subjects t.version.subject (versions_of s t.version.subject ++ (t.version ∷ []));
  next_schema_id = next_id s.next_schema_id t.schema.id;
}

-- The case TransitionSchemaRegistered.
unfoldable pub apply_registration : State → RegistrationTransition → Outcome State
apply_registration s t = elim (get s.schemas t.schema.id) [
  | none ↦ ok (insert_registration s t)
  | some existing ↦
      if existing.identity == t.schema.identity
      then ok (insert_registration s t)
      else err (domain_error corrupt "schema" "ID %d identity conflict")
]

-- The loop of markDeleted over a subject's versions.
unfoldable pub mark_versions : Version → Bool → List SubjectVersion → Option (List SubjectVersion)
mark_versions version permanent [] = none
mark_versions version permanent (v ∷ rest) =
    let others = mark_versions version permanent rest in
    if v.version == version && not v.permanent
    then some (record v { deleted = true; permanent = permanent } ∷ rest)
    else elim others [ none ↦ none | some marked ↦ some (v ∷ marked) ]

-- markDeleted; none is its false.
unfoldable pub mark_deleted : State → String → Version → Bool → Option State
mark_deleted s subject version permanent =
    elim (mark_versions version permanent (versions_of s subject)) [
      | none ↦ none
      | some marked ↦ some (record s { subjects = put s.subjects subject marked })
    ]

abbrev missing_version : Error
missing_version = domain_error corrupt "version" "missing %s/%d"

-- The cases TransitionVersionDeleted and TransitionSubjectDeleted.
unfoldable pub mark_all : State → String → List Version → Bool → Outcome State
mark_all s subject [] permanent = ok s
mark_all s subject (version ∷ rest) permanent = elim (mark_deleted s subject version permanent) [
  | none ↦ err missing_version
  | some marked ↦ mark_all marked subject rest permanent
]

unfoldable pub apply_compatibility : State → TransitionKind → CompatibilityTransition → State
apply_compatibility s compatibility_deleted t = record s {
  subject_compatibility = delete s.subject_compatibility t.scope.subject;
}
apply_compatibility s _ t =
    if t.scope.subject == ""
    then record s { global_compatibility = t.level }
    else record s { subject_compatibility = put s.subject_compatibility t.scope.subject t.level }

unfoldable pub apply_mode : State → TransitionKind → ModeTransition → State
apply_mode s mode_deleted t = record s { subject_modes = delete s.subject_modes t.scope.subject }
apply_mode s _ t =
    if t.scope.subject == ""
    then record s { global_mode = t.mode }
    else record s { subject_modes = put s.subject_modes t.scope.subject t.mode }

-- json.Unmarshal of the payload, and corruptPayload.
unfoldable pub unmarshal {ℓ} : {A : Type ℓ} → (Json → Option A) → RawMessage → Outcome A
unmarshal read (encoded j) = elim (read j) [
  | none ↦ err (domain_error corrupt "transition payload" "invalid JSON: %v")
  | some a ↦ ok a
]
unmarshal read _ = err (domain_error corrupt "transition payload" "invalid JSON: %v")

-- applyPayload, whose switch is on the kind.
unfoldable pub apply_payload : State → TransitionKind → RawMessage → Outcome State
apply_payload s schema_registered payload = do
  t ← unmarshal read_registration payload
  apply_registration s t
apply_payload s version_deleted payload = do
  t ← unmarshal read_delete_version payload
  mark_all s t.subject (t.version ∷ []) t.permanent
apply_payload s subject_deleted payload = do
  t ← unmarshal read_delete_subject payload
  mark_all s t.subject t.versions t.permanent
apply_payload s compatibility_set payload = do
  t ← unmarshal read_compatibility payload
  ok (apply_compatibility s compatibility_set t)
apply_payload s compatibility_deleted payload = do
  t ← unmarshal read_compatibility payload
  ok (apply_compatibility s compatibility_deleted t)
apply_payload s mode_set payload = do t ← unmarshal read_mode payload; ok (apply_mode s mode_set t)
apply_payload s mode_deleted payload = do
  t ← unmarshal read_mode payload
  ok (apply_mode s mode_deleted t)
apply_payload s (other_kind name) payload =
    err (domain_error corrupt "transition" "unknown kind %q")

-- next.Sequence, and next.Operations if there is an operation ID.
unfoldable pub record_operation : State → Envelope → State
record_operation s e = record s {
  sequence = e.sequence;
  operations =
      if e.operation_id == "" then s.operations else put s.operations e.operation_id e.result;
}

-- State.Apply
unfoldable pub apply : Digest → State → Envelope → Outcome State
apply digest s e = do
  validate_envelope digest e
  reject_if (not (e.sequence == inc s.sequence))
      (domain_error corrupt "transition" "sequence %d does not follow %d")
  next ← apply_payload s e.kind e.payload
  let state = record_operation next e
  validate state
  ok state
