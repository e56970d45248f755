-- ===== src/Domain/Payload/RoundTrip.antt =====
-- What json.Unmarshal reads from the payloads that json.Marshal writes.
use riquet.Domain.Payload.{
  CompatibilityTransition, DeleteSubjectTransition, DeleteVersionTransition, ModeTransition,
  RegistrationTransition, read_compatibility, read_delete_subject, read_delete_version, read_mode,
  read_references, read_registration, read_schema, read_scope, read_subject_version, read_versions,
  write_compatibility, write_delete_subject, write_delete_version, write_mode, write_references,
  write_registration, write_schema, write_scope, write_subject_version, write_versions,
}
use riquet.Domain.Types.{Reference, Schema, Scope, SubjectVersion, Version}
use riquet.Prelude.{List, [], arith, eq_iff, number_eq, refl, some, string_eq, ◌∷◌, ◌≡◌}

read_references-write_references :
    (rs : List Reference) → read_references (write_references rs) ≡ some rs
unfolding read_references write_references
read_references-write_references [] = refl
read_references-write_references (r ∷ rest) = rw (read_references-write_references rest)

read_versions-write_versions : (vs : List Version) → read_versions (write_versions vs) ≡ some vs
unfolding read_versions write_versions
read_versions-write_versions [] = refl
read_versions-write_versions (v ∷ rest) = rw (read_versions-write_versions rest)

read_scope-write_scope : (s : Scope) → read_scope (some (write_scope s)) ≡ some s
unfolding read_scope write_scope
read_scope-write_scope s = ground (arith, eq_iff s.subject "")

pub read_compatibility-write_compatibility :
    (t : CompatibilityTransition) → read_compatibility (write_compatibility t) ≡ some t
unfolding read_compatibility write_compatibility
read_compatibility-write_compatibility t =
    ground (arith, eq_iff t.scope.subject "", eq_iff t.level "")

pub read_mode-write_mode : (t : ModeTransition) → read_mode (write_mode t) ≡ some t
unfolding read_mode write_mode
read_mode-write_mode t = ground (arith, eq_iff t.scope.subject "", eq_iff t.mode "")

pub read_delete_version-write_delete_version :
    (t : DeleteVersionTransition) → read_delete_version (write_delete_version t) ≡ some t
unfolding read_delete_version write_delete_version
read_delete_version-write_delete_version t = refl

pub read_delete_subject-write_delete_subject :
    (t : DeleteSubjectTransition) → read_delete_subject (write_delete_subject t) ≡ some t
unfolding read_delete_subject write_delete_subject
read_delete_subject-write_delete_subject t = rw (read_versions-write_versions t.versions)

abbrev with_references : Schema → List Reference → Schema
with_references s rs = record s { references = rs }

read_schema_lem :
    (s : Schema) (rs : List Reference)
    → read_schema (some (write_schema (with_references s rs))) ≡ some (with_references s rs)
unfolding read_schema write_schema
read_schema_lem s [] = ground (arith, eq_iff s.guid "")
read_schema_lem s (r ∷ rest) =
    ground (arith, eq_iff s.guid "", read_references-write_references rest)

pub read_schema-write_schema : (s : Schema) → read_schema (some (write_schema s)) ≡ some s
read_schema-write_schema s = read_schema_lem s s.references

read_subject_version-write_subject_version :
    (v : SubjectVersion) → read_subject_version (some (write_subject_version v)) ≡ some v
unfolding read_subject_version write_subject_version
read_subject_version-write_subject_version v = ground (arith)

pub read_registration-write_registration :
    (t : RegistrationTransition) → read_registration (write_registration t) ≡ some t
unfolding read_registration write_registration
read_registration-write_registration t =
    rw (read_schema-write_schema t.schema, read_subject_version-write_subject_version t.version)
