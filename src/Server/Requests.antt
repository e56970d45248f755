-- ===== src/Server/Requests.antt =====
-- The bodies that internal/transport/confluent/server.go reads and writes.
use riquet.Domain.Json.{
  Fields, Items, Json, a_field, an_item, array, bool, find, int, no_fields, no_items, null, object,
  omit_int64, omit_text, read_array, read_int64, read_object, read_text, text, ◌>>=◌,
}
use riquet.Domain.Payload.{read_references, write_references}
use riquet.Domain.Transition.{encoded, malformed, no_bytes}
use riquet.Domain.Types.{Reference, Schema, SchemaId, SchemaType, SubjectVersion, Version}
use riquet.Prelude.{
  Bool, List, Option, String, [], contains, false, if◌then◌else◌, ltb, none, number_eq, some,
  string_eq, true, ℕ, ◌&&◌, ◌^◌, ◌∷◌,
}
use riquet.Server.{Call}

-- http.MaxBytesReader: a longer body fails to be read to its end.
abbrev pub max_request_bytes : ℕ
max_request_bytes = 2 ^ 21

-- decodeJSON: one JSON value, and nothing else.
unfoldable pub decode_json : Call → Option Json
decode_json c =
    if ltb max_request_bytes c.body_size
    then none
    else elim c.body [ encoded j ↦ some j | no_bytes ↦ none | malformed ↦ none ]

-- DisallowUnknownFields
unfoldable pub knows : List String → Fields → Bool
knows keys no_fields = true
knows keys (a_field k j rest) = contains keys k && knows keys rest

abbrev pub is_reference : Json → Bool
is_reference (object fields) = knows ("name" ∷ "subject" ∷ "version" ∷ []) fields
is_reference _ = true

unfoldable pub are_references : Items → Bool
unfolding knows
are_references no_items = true
are_references (an_item j rest) = is_reference j && are_references rest

-- schemaRequest
pub record SchemaRequest : Type 0 where
  pub schema : String
  pub schema_type : SchemaType
  pub references : List Reference
  pub id : SchemaId
  pub version : Version
  pub metadata : Option Json
  pub rule_set : Option Json

abbrev pub guard : Bool → Option (Unit {0})
guard true = some tt
guard false = none

unfoldable pub read_schema_request : Json → Option SchemaRequest
unfolding knows are_references
read_schema_request j = do
  fields ← read_object (some j)
  _ ← guard (
      knows
        ("schema" ∷ "schemaType" ∷ "references" ∷ "id" ∷ "version" ∷ "metadata" ∷ "ruleSet" ∷ [])
        fields)
  schema ← read_text (find "schema" fields)
  schema_type ← read_text (find "schemaType" fields)
  items ← read_array (find "references" fields)
  _ ← guard (are_references items)
  references ← read_references items
  id ← read_int64 (find "id" fields)
  version ← read_int64 (find "version" fields)
  some (record {
    schema = schema;
    schema_type = schema_type;
    references = references;
    id = id;
    version = version;
    metadata = find "metadata" fields;
    rule_set = find "ruleSet" fields;
  })

-- The bodies of putConfig and putMode, with their one field.
unfoldable pub read_setting : String → Json → Option String
unfolding knows
read_setting key j = do
  fields ← read_object (some j)
  _ ← guard (knows (key ∷ []) fields)
  read_text (find key fields)

-- emptyAdvancedField: absent, null or {}.
abbrev pub empty_advanced_field : Option Json → Bool
empty_advanced_field none = true
empty_advanced_field (some null) = true
empty_advanced_field (some (object no_fields)) = true
empty_advanced_field (some _) = false

-- schemaResponse, and responseFor, responseForLookup and responseForRegistration.
pub record SchemaResponse : Type 0 where
  pub subject : String
  pub version : Version
  pub id : SchemaId
  pub guid : String
  pub schema_type : SchemaType
  pub references : List Reference
  pub schema : String
  pub timestamp : ℕ
  pub deleted : Option Bool

unfoldable pub response_for : SubjectVersion → Schema → SchemaResponse
response_for item schema = record {
  subject = item.subject;
  version = item.version;
  id = item.schema_id;
  guid = schema.guid;
  schema_type = schema.schema_type;
  references = schema.references;
  schema = schema.definition;
  timestamp = item.timestamp;
  deleted = some item.deleted;
}

unfoldable pub response_for_lookup : SubjectVersion → Schema → SchemaResponse
unfolding response_for
response_for_lookup item schema = record (response_for item schema) {
  timestamp = 0;
  deleted = none;
}

unfoldable pub response_for_registration : SubjectVersion → Schema → SchemaResponse
unfolding response_for_lookup
response_for_registration item schema = record (response_for_lookup item schema) { subject = "" }

-- Its JSON; the tags omitempty of a slice and of a pointer.
abbrev pub omit_references : List Reference → Fields → Fields
omit_references [] rest = rest
omit_references (r ∷ more) rest = a_field "references" (array (write_references (r ∷ more))) rest

abbrev pub omit_bool : Option Bool → Fields → Fields
omit_bool none rest = rest
omit_bool (some b) rest = a_field "deleted" (bool b) rest

unfoldable pub write_response : SchemaResponse → Json
unfolding omit_text omit_int64 write_references
write_response r = object (
    omit_text "subject" r.subject (
      omit_int64 "version" r.version (
        omit_int64 "id" r.id (
          omit_text "guid" r.guid (
            omit_text "schemaType" r.schema_type (
              omit_references r.references (
                a_field "schema" (text r.schema)
                  (omit_int64 "ts" r.timestamp (omit_bool r.deleted no_fields)))))))))

-- Lists of strings, of numbers, and of versions under their subjects.
unfoldable pub write_texts : List String → Items
write_texts [] = no_items
write_texts (s ∷ rest) = an_item (text s) (write_texts rest)

unfoldable pub write_positions : List SubjectVersion → Items
write_positions [] = no_items
write_positions (item ∷ rest) =
    an_item
      (object
        (a_field "subject" (text item.subject) (a_field "version" (int item.version) no_fields)))
      (write_positions rest)

abbrev pub one_field : String → Json → Json
one_field key j = object (a_field key j no_fields)
