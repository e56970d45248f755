-- ===== src/Server/Writes.antt =====
-- The handlers of internal/transport/confluent/server.go that change the registry.
use riquet.Domain.Commands.{
  delete_compatibility, delete_mode, delete_subject, delete_version, set_compatibility, set_mode,
}
use riquet.Domain.Errors.{Outcome, err, ok}
use riquet.Domain.Json.{Json, array, int, null, text}
use riquet.Domain.Machine.{Hashes, Machine}
use riquet.Domain.Payload.{write_versions}
use riquet.Domain.Queries.{lookup, subject_compatibility, subject_mode}
use riquet.Domain.Register.{register}
use riquet.Domain.Snapshot.{State}
use riquet.Domain.Types.{
  RegisterCommand, Result, SchemaType, Scope, Version, valid_level, valid_mode,
}
use riquet.Formats.{Engine, Parsed}
use riquet.Map.{Map}
use riquet.Prelude.{
  Bool, List, Option, String, [], if◌then◌else◌, none, not, number_eq, some, string_eq, true, ◌∷◌,
}
use riquet.Server.{
  Call, Reply, Arrival, accepted, domain_reply, error_reply, json_reply, parse_version_path,
  query_bool, rejected,
}
use riquet.Server.Reads.{parse_request}
use riquet.Server.Requests.{
  SchemaRequest, decode_json, one_field, read_setting, response_for_registration, write_response,
}

-- The command that register sends to the machine.
unfoldable pub register_command :
    {N : Type 0} → Arrival → String → String → SchemaRequest → Parsed N → RegisterCommand
register_command around operation subject input parsed = record {
  operation_id = operation;
  subject = subject;
  identity = parsed.identity;
  schema_type = parsed.schema_type;
  definition = parsed.definition;
  references = parsed.references;
  requested_id = input.id;
  requested_version = input.version;
  timestamp = around.now;
}

-- What register answers, from the state after the command.
unfoldable pub registered_reply : State → String → Outcome Result → Reply
unfolding domain_reply response_for_registration write_response
registered_reply s subject (err x) = domain_reply x
registered_reply s subject (ok r) =
    let (item, schema, found) = lookup s subject r.version true in
    if not found
    then error_reply 500 50001
    else json_reply (write_response (response_for_registration item schema))

-- A slice that is nil, or a list of versions.
abbrev pub versions_or_null : List Version → Json
versions_or_null [] = null
versions_or_null (v ∷ rest) = array (write_versions (v ∷ rest))

unfoldable pub deleted_reply : (Result → Json) → Outcome Result → Reply
unfolding domain_reply
deleted_reply show (err x) = domain_reply x
deleted_reply show (ok r) = json_reply (show r)

unfoldable pub setting_reply : String → String → Outcome (Unit {0}) → Reply
unfolding domain_reply
setting_reply key value (err x) = domain_reply x
setting_reply key value (ok _) = json_reply (one_field key (text value))

-- The body of putConfig or putMode, if it is a valid setting.
unfoldable pub setting_of : String → (String → Bool) → Call → Option String
unfolding decode_json read_setting
setting_of key valid c = elim (decode_json c) [
  | none ↦ none
  | some j ↦ elim (read_setting key j) [
    | none ↦ none
    | some value ↦ if not (valid value) then none else some value
  ]
]

-- The subject of a path, none for the global setting, as a Scope.
abbrev pub scope_of : Option String → Scope
scope_of none = record { subject = "" }
scope_of (some subject) = record { subject = subject }

module _ {L N : Type 0} (hashes : Hashes) (engines : Map SchemaType (Engine N)) (around : Arrival)
    (operation : String) (m : Machine L) (c : Call) where
  -- register
  unfoldable pub post_schema : String → Reply × Machine L
  unfolding parse_request register_command registered_reply
  post_schema subject = elim (parse_request engines m c) [
    | rejected reply ↦ (reply, m)
    | accepted (input, parsed) ↦
        let (outcome, m') =
          register hashes m (register_command around operation subject input parsed) in
        (registered_reply m'.state subject outcome, m')
  ]

module _ {L : Type 0} (hashes : Hashes) (operation : String) (m : Machine L) (c : Call) where
  -- deleteVersion
  unfoldable pub remove_version : String → String → Reply × Machine L
  unfolding parse_version_path deleted_reply query_bool
  remove_version subject value = elim (parse_version_path m.state subject value true) [
    | rejected reply ↦ (reply, m)
    | accepted version ↦
        let (outcome, m') = delete_version hashes m (record {
          operation_id = operation;
          subject = subject;
          version = version;
          permanent = query_bool c "permanent";
        }) in
        (deleted_reply (λ r. int r.version) outcome, m')
  ]

  -- deleteSubject
  unfoldable pub remove_subject : String → Reply × Machine L
  unfolding deleted_reply query_bool
  remove_subject subject =
      let (outcome, m') = delete_subject hashes m (record {
        operation_id = operation;
        subject = subject;
        permanent = query_bool c "permanent";
      }) in
      (deleted_reply (λ r. versions_or_null r.versions) outcome, m')

  -- putConfig, for putGlobalConfig and putSubjectConfig.
  unfoldable pub put_config : Option String → Reply × Machine L
  unfolding setting_of setting_reply
  put_config subject = elim (setting_of "compatibility" valid_level c) [
    | none ↦ (error_reply 422 42203, m)
    | some level ↦
        let (outcome, m') = set_compatibility hashes m operation (scope_of subject) level in
        (setting_reply "compatibility" level outcome, m')
  ]

  -- putMode, for putGlobalMode and putSubjectMode.
  unfoldable pub put_mode : Option String → Reply × Machine L
  unfolding setting_of setting_reply
  put_mode subject = elim (setting_of "mode" valid_mode c) [
    | none ↦ (error_reply 422 42204, m)
    | some mode ↦
        let (outcome, m') = set_mode hashes m operation (scope_of subject) mode in
        (setting_reply "mode" mode outcome, m')
  ]

  -- deleteSubjectConfig and deleteSubjectMode
  unfoldable pub remove_config : String → Reply × Machine L
  unfolding setting_reply
  remove_config subject = elim (subject_compatibility m.state subject) [
    | none ↦ (error_reply 404 40408, m)
    | some level ↦
        let (outcome, m') = delete_compatibility hashes m operation subject in
        (setting_reply "compatibilityLevel" level outcome, m')
  ]

  unfoldable pub remove_mode : String → Reply × Machine L
  unfolding setting_reply
  remove_mode subject = elim (subject_mode m.state subject) [
    | none ↦ (error_reply 404 40409, m)
    | some mode ↦
        let (outcome, m') = delete_mode hashes m operation subject in
        (setting_reply "mode" mode outcome, m')
  ]
