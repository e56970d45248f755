-- ===== src/Domain/Types.antt =====
-- internal/domain/types.go: schemas, versions, settings and commands. IDs, versions and times are
-- int64, sequences uint64, as bit patterns.
use riquet.Prelude.{Bool, List, String, [], false, number_eq, string_eq, ℕ, ◌==◌, ◌||◌}

-- SchemaID, Version and Sequence of the source.
abbrev pub SchemaId : Type 0
SchemaId = ℕ

abbrev pub Version : Type 0
Version = ℕ

abbrev pub Sequence : Type 0
Sequence = ℕ

-- Go strings, of which the source names these. Any other string is a value of the type too.
abbrev pub SchemaType : Type 0
SchemaType = String

abbrev pub avro : SchemaType
avro = "AVRO"

abbrev pub protobuf : SchemaType
protobuf = "PROTOBUF"

abbrev pub json_schema : SchemaType
json_schema = "JSON"

-- Points to an exact subject version.
pub record Reference : Type 0 where
  pub name : String
  pub subject : String
  pub version : Version

pub record Schema : Type 0 where
  pub id : SchemaId
  pub guid : String
  pub identity : String
  pub schema_type : SchemaType
  pub definition : String
  pub references : List Reference

pub record SubjectVersion : Type 0 where
  pub subject : String
  pub version : Version
  pub schema_id : SchemaId
  pub timestamp : ℕ
  pub sequence : Sequence
  pub deleted : Bool
  pub permanent : Bool

-- Schema{} and SubjectVersion{}
abbrev pub no_schema : Schema
no_schema = record {
  id = 0;
  guid = "";
  identity = "";
  schema_type = "";
  definition = "";
  references = [];
}

abbrev pub no_version : SubjectVersion
no_version = record {
  subject = "";
  version = 0;
  schema_id = 0;
  timestamp = 0;
  sequence = 0;
  deleted = false;
  permanent = false;
}

abbrev pub CompatibilityLevel : Type 0
CompatibilityLevel = String

abbrev pub compatibility_none : CompatibilityLevel
compatibility_none = "NONE"

abbrev pub compatibility_backward : CompatibilityLevel
compatibility_backward = "BACKWARD"

-- CompatibilityLevel.Transitive
unfoldable pub transitive : CompatibilityLevel → Bool
transitive level =
    level == "BACKWARD_TRANSITIVE" || level == "FORWARD_TRANSITIVE" || level == "FULL_TRANSITIVE"

-- CompatibilityLevel.Valid
unfoldable pub valid_level : CompatibilityLevel → Bool
unfolding transitive
valid_level level =
    level == compatibility_none
    || level == compatibility_backward
    || level == "FORWARD"
    || level == "FULL"
    || transitive level

abbrev pub Mode : Type 0
Mode = String

abbrev pub mode_read_write : Mode
mode_read_write = "READWRITE"

abbrev pub mode_read_only : Mode
mode_read_only = "READONLY"

abbrev pub mode_import : Mode
mode_import = "IMPORT"

-- Mode.Valid
unfoldable pub valid_mode : Mode → Bool
valid_mode mode = mode == mode_read_write || mode == mode_read_only || mode == mode_import

-- The stable outcome that is retained for operation retries.
pub record Result : Type 0 where
  pub schema_id : SchemaId
  pub guid : String
  pub version : Version
  pub versions : List Version

-- Result{}
abbrev pub no_result : Result
no_result = record { schema_id = 0; guid = ""; version = 0; versions = [] }

pub record RegisterCommand : Type 0 where
  pub operation_id : String
  pub subject : String
  pub identity : String
  pub schema_type : SchemaType
  pub definition : String
  pub references : List Reference
  pub requested_id : SchemaId
  pub requested_version : Version
  pub timestamp : ℕ

pub record DeleteVersionCommand : Type 0 where
  pub operation_id : String
  pub subject : String
  pub version : Version
  pub permanent : Bool

pub record DeleteSubjectCommand : Type 0 where
  pub operation_id : String
  pub subject : String
  pub permanent : Bool

-- The empty subject stands for the global setting.
pub record Scope : Type 0 where
  pub subject : String
