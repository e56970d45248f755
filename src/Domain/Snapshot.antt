-- ===== src/Domain/Snapshot.antt =====
-- The registry's materialized view of internal/domain/state.go and its validation. A Go State holds
-- one Snapshot, and a copy of a snapshot is the same value here.
pub mod Consistent
pub mod Filed
use riquet.Domain.Errors.{Outcome, corrupt, domain_error, err, ok, reject_if, ◌>>=◌, ◌>>◌}
use riquet.Domain.Types.{
  CompatibilityLevel, Mode, Result, Schema, SchemaId, Sequence, SubjectVersion, Version,
  compatibility_backward, mode_read_write, valid_level, valid_mode,
}
use riquet.Map.{Map, get}
use riquet.Prelude.{
  Bool, List, String, [], contains, if◌then◌else◌, none, not, number_eq, some, string_eq, ℕ, ◌==◌,
  ◌||◌, ◌∷◌,
}
use riquet.Prelude.Words.{slt}

pub record Snapshot : Type 0 where
  pub format_version : ℕ
  pub sequence : Sequence
  pub next_schema_id : SchemaId
  pub schemas : Map SchemaId Schema
  pub identity_to_id : Map String SchemaId
  pub subjects : Map String (List SubjectVersion)
  pub global_compatibility : CompatibilityLevel
  pub subject_compatibility : Map String CompatibilityLevel
  pub global_mode : Mode
  pub subject_modes : Map String Mode
  pub operations : Map String Result

abbrev pub State : Type 0
State = Snapshot

-- snapshot.Subjects[subject], nil if missing.
abbrev pub versions_of : State → String → List SubjectVersion
versions_of s subject = elim (get s.subjects subject) [ none ↦ [] | some versions ↦ versions ]

-- NewState
abbrev pub new_state : State
new_state = record {
  format_version = 1;
  sequence = 0;
  next_schema_id = 1;
  schemas = [];
  identity_to_id = [];
  subjects = [];
  global_compatibility = compatibility_backward;
  subject_compatibility = [];
  global_mode = mode_read_write;
  subject_modes = [];
  operations = [];
}

-- The loop over IdentityToID in validate.
unfoldable pub check_identities : Map SchemaId Schema → Map String SchemaId → Outcome (Unit {0})
check_identities schemas [] = ok tt
check_identities schemas ((identity, id) ∷ rest) =
    let others = check_identities schemas rest in
    let mismatch : Outcome (Unit {0}) =
      err (domain_error corrupt "snapshot" "identity index mismatch") in
    elim (get schemas id) [
      | none ↦ mismatch
      | some schema ↦ if schema.identity == identity then others else mismatch
    ]

-- The inner loop over a subject's versions, with the versions seen so far.
unfoldable pub check_versions :
    Map SchemaId Schema → String → List Version → List SubjectVersion → Outcome (Unit {0})
check_versions schemas subject seen [] = ok tt
check_versions schemas subject seen (item ∷ rest) =
    let others = check_versions schemas subject (item.version ∷ seen) rest in
    if not (item.subject == subject) || slt item.version 1 || contains seen item.version
    then err (domain_error corrupt "snapshot" "invalid subject version index")
    else elim (get schemas item.schema_id) [
      | none ↦ err (domain_error corrupt "snapshot" "version references missing schema")
      | some _ ↦ others
    ]

-- The loop over Subjects in validate.
unfoldable pub check_subjects :
    Map SchemaId Schema → Map String (List SubjectVersion) → Outcome (Unit {0})
check_subjects schemas [] = ok tt
check_subjects schemas ((subject, versions) ∷ rest) =
    let others = check_subjects schemas rest in
    do check_versions schemas subject [] versions; others

abbrev pub invalid_defaults : State → Bool
invalid_defaults s =
    slt s.next_schema_id 1
    || not (valid_level s.global_compatibility)
    || not (valid_mode s.global_mode)

-- State.validate
unfoldable pub validate : State → Outcome (Unit {0})
validate s = do
  reject_if (invalid_defaults s) (domain_error corrupt "snapshot" "invalid defaults")
  check_identities s.schemas s.identity_to_id
  check_subjects s.schemas s.subjects

-- Restore
unfoldable pub restore : Snapshot → Outcome State
restore snapshot = do
  reject_if (not (snapshot.format_version == 1))
      (domain_error corrupt "snapshot" "unsupported format version %d")
  validate snapshot
  ok snapshot
