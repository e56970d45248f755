-- ===== src/Domain/Payload.antt =====
-- The payload structs of internal/domain/transition.go, as json.Marshal writes them and
-- json.Unmarshal reads them back.
pub mod RoundTrip
use riquet.Domain.Errors.{◌>>◌}
use riquet.Domain.Json.{
  Fields, Items, Json, a_field, an_item, array, bool, find, int, no_fields, no_items, object,
  omit_int64, omit_text, omit_uint64, read_array, read_bool, read_int64, read_object, read_text,
  read_uint64, text, ◌>>=◌,
}
use riquet.Domain.Types.{
  CompatibilityLevel, Mode, Reference, Schema, Scope, SubjectVersion, Version,
}
use riquet.Prelude.{Bool, List, Option, String, [], number_eq, some, string_eq, ◌∷◌}

pub record RegistrationTransition : Type 0 where
  pub schema : Schema
  pub version : SubjectVersion

pub record DeleteVersionTransition : Type 0 where
  pub subject : String
  pub version : Version
  pub permanent : Bool

pub record DeleteSubjectTransition : Type 0 where
  pub subject : String
  pub versions : List Version
  pub permanent : Bool

pub record CompatibilityTransition : Type 0 where
  pub scope : Scope
  pub level : CompatibilityLevel

pub record ModeTransition : Type 0 where
  pub scope : Scope
  pub mode : Mode

-- json.Marshal
abbrev write_reference : Reference → Json
write_reference r = object (
    a_field "name" (text r.name)
      (a_field "subject" (text r.subject) (a_field "version" (int r.version) no_fields)))

unfoldable pub write_references : List Reference → Items
write_references [] = no_items
write_references (r ∷ rest) = an_item (write_reference r) (write_references rest)

unfoldable pub write_versions : List Version → Items
write_versions [] = no_items
write_versions (v ∷ rest) = an_item (int v) (write_versions rest)

-- The tag omitempty of a slice.
omit_references : List Reference → Fields
unfolding write_references
omit_references [] = no_fields
omit_references (r ∷ rest) = a_field "references" (array (write_references (r ∷ rest))) no_fields

unfoldable pub write_schema : Schema → Json
unfolding omit_references omit_text
write_schema s = object (
    a_field "id" (int s.id) (
      omit_text "guid" s.guid (
        a_field "identity" (text s.identity) (
          a_field "schemaType" (text s.schema_type)
            (a_field "schema" (text s.definition) (omit_references s.references))))))

unfoldable pub write_subject_version : SubjectVersion → Json
unfolding omit_int64 omit_uint64
write_subject_version v = object (
    a_field "subject" (text v.subject) (
      a_field "version" (int v.version) (
        a_field "id" (int v.schema_id) (
          omit_int64 "ts" v.timestamp (
            omit_uint64 "sequence" v.sequence (
              a_field "deleted" (bool v.deleted)
                (a_field "permanent" (bool v.permanent) no_fields)))))))

unfoldable pub write_registration : RegistrationTransition → Json
write_registration t = object (
    a_field "schema" (write_schema t.schema)
      (a_field "subjectVersion" (write_subject_version t.version) no_fields))

unfoldable pub write_delete_version : DeleteVersionTransition → Json
write_delete_version t = object (
    a_field "subject" (text t.subject)
      (a_field "version" (int t.version) (a_field "permanent" (bool t.permanent) no_fields)))

unfoldable pub write_delete_subject : DeleteSubjectTransition → Json
unfolding write_versions
write_delete_subject t = object (
    a_field "subject" (text t.subject) (
      a_field "versions" (array (write_versions t.versions))
        (a_field "permanent" (bool t.permanent) no_fields)))

unfoldable pub write_scope : Scope → Json
unfolding omit_text
write_scope s = object (omit_text "subject" s.subject no_fields)

unfoldable pub write_compatibility : CompatibilityTransition → Json
unfolding write_scope omit_text
write_compatibility t =
    object (a_field "scope" (write_scope t.scope) (omit_text "level" t.level no_fields))

unfoldable pub write_mode : ModeTransition → Json
unfolding write_scope omit_text
write_mode t = object (a_field "scope" (write_scope t.scope) (omit_text "mode" t.mode no_fields))

-- json.Unmarshal
unfoldable pub read_reference : Json → Option Reference
unfolding find read_text read_int64 read_object
read_reference j = do
  fields ← read_object (some j)
  name ← read_text (find "name" fields)
  subject ← read_text (find "subject" fields)
  version ← read_int64 (find "version" fields)
  some (record { name = name; subject = subject; version = version })

unfoldable pub read_references : Items → Option (List Reference)
unfolding read_reference
read_references no_items = some []
read_references (an_item j rest) = do
  r ← read_reference j
  others ← read_references rest
  some (r ∷ others)

unfoldable pub read_versions : Items → Option (List Version)
unfolding read_int64
read_versions no_items = some []
read_versions (an_item j rest) = do
  v ← read_int64 (some j)
  others ← read_versions rest
  some (v ∷ others)

unfoldable pub read_schema : Option Json → Option Schema
unfolding find read_text read_int64 read_object read_array read_references
read_schema j = do
  fields ← read_object j
  id ← read_int64 (find "id" fields)
  guid ← read_text (find "guid" fields)
  identity ← read_text (find "identity" fields)
  schema_type ← read_text (find "schemaType" fields)
  definition ← read_text (find "schema" fields)
  items ← read_array (find "references" fields)
  references ← read_references items
  some (record {
    id = id;
    guid = guid;
    identity = identity;
    schema_type = schema_type;
    definition = definition;
    references = references;
  })

unfoldable pub read_subject_version : Option Json → Option SubjectVersion
unfolding find read_text read_int64 read_uint64 read_bool read_object
read_subject_version j = do
  fields ← read_object j
  subject ← read_text (find "subject" fields)
  version ← read_int64 (find "version" fields)
  id ← read_int64 (find "id" fields)
  timestamp ← read_int64 (find "ts" fields)
  sequence ← read_uint64 (find "sequence" fields)
  deleted ← read_bool (find "deleted" fields)
  permanent ← read_bool (find "permanent" fields)
  some (record {
    subject = subject;
    version = version;
    schema_id = id;
    timestamp = timestamp;
    sequence = sequence;
    deleted = deleted;
    permanent = permanent;
  })

unfoldable pub read_registration : Json → Option RegistrationTransition
unfolding find read_object
read_registration j = do
  fields ← read_object (some j)
  schema ← read_schema (find "schema" fields)
  version ← read_subject_version (find "subjectVersion" fields)
  some (record { schema = schema; version = version })

unfoldable pub read_delete_version : Json → Option DeleteVersionTransition
unfolding find read_text read_int64 read_bool read_object
read_delete_version j = do
  fields ← read_object (some j)
  subject ← read_text (find "subject" fields)
  version ← read_int64 (find "version" fields)
  permanent ← read_bool (find "permanent" fields)
  some (record { subject = subject; version = version; permanent = permanent })

unfoldable pub read_delete_subject : Json → Option DeleteSubjectTransition
unfolding find read_text read_bool read_object read_array read_versions
read_delete_subject j = do
  fields ← read_object (some j)
  subject ← read_text (find "subject" fields)
  items ← read_array (find "versions" fields)
  versions ← read_versions items
  permanent ← read_bool (find "permanent" fields)
  some (record { subject = subject; versions = versions; permanent = permanent })

unfoldable pub read_scope : Option Json → Option Scope
unfolding find read_text read_object
read_scope j = do
  fields ← read_object j
  subject ← read_text (find "subject" fields)
  some (record { subject = subject })

unfoldable pub read_compatibility : Json → Option CompatibilityTransition
unfolding find read_text read_object read_scope
read_compatibility j = do
  fields ← read_object (some j)
  scope ← read_scope (find "scope" fields)
  level ← read_text (find "level" fields)
  some (record { scope = scope; level = level })

unfoldable pub read_mode : Json → Option ModeTransition
unfolding find read_text read_object read_scope
read_mode j = do
  fields ← read_object (some j)
  scope ← read_scope (find "scope" fields)
  mode ← read_text (find "mode" fields)
  some (record { scope = scope; mode = mode })
