-- ===== src/Server/Reads.antt =====
-- The handlers of internal/transport/confluent/server.go that read.
use riquet.Domain.Json.{array, bool, text}
use riquet.Domain.Machine.{Machine}
use riquet.Domain.Payload.{write_versions}
use riquet.Domain.Queries.{
  effective_compatibility, find_subject_schema, latest_for_id, lookup, or_default, referenced_by,
  schema_by_id, subject_compatibility, subject_mode, subjects, versions, versions_for_id,
}
use riquet.Domain.Register.{candidate}
use riquet.Domain.Snapshot.{State}
use riquet.Domain.Types.{Schema, SchemaId, SchemaType, SubjectVersion, avro, json_schema, protobuf}
use riquet.Formats.{Engine, Parsed, default_limits, resolve}
use riquet.Map.{Map, get}
use riquet.Prelude.{
  Bool, String, [], false, if◌then◌else◌, is_empty, map, none, not, number_eq, some, string_eq,
  true, ◌&&◌, ◌==◌, ◌∷◌,
}
use riquet.Server.{
  Call, Checked, Reply, accepted, answer, error_reply, json, json_reply, parse_id,
  parse_version_path, plain_text, query_bool, rejected, require, ◌>>=◌,
}
use riquet.Server.Requests.{
  SchemaRequest, SchemaResponse, decode_json, empty_advanced_field, guard, one_field,
  read_schema_request, response_for, response_for_lookup, write_positions, write_response,
  write_texts,
}

module _ {L N : Type 0} (engines : Map SchemaType (Engine N)) (m : Machine L) (c : Call) where
  -- parseRequest: the body, and what its engine makes of it.
  unfoldable pub parse_request : Checked (SchemaRequest × Parsed N)
  unfolding decode_json read_schema_request query_bool resolve
  parse_request = do
    read ← require (error_reply 422 42201) (decode_json c)
    body ← require (error_reply 422 42201) (read_schema_request read)
    let schema_type = if body.schema_type == "" then avro else body.schema_type
    let input = record body { schema_type = schema_type }
    _ ←
        require (error_reply 422 42201)
          (guard (empty_advanced_field input.metadata && empty_advanced_field input.rule_set))
    engine ← require (error_reply 422 42201) (get engines schema_type)
    parsed ← require (error_reply 422 42201) (
        engine.parse
          (record {
            definition = input.schema;
            references = input.references;
            normalize = query_bool c "normalize";
            limits = default_limits;
          })
          (resolve m.state))
    accepted (input, parsed)

  -- lookupSchema
  unfoldable pub lookup_schema : String → Reply
  unfolding response_for_lookup write_response
  lookup_schema subject = answer (do
    (input, parsed) ← parse_request
    let (item, schema, found) = find_subject_schema m.state subject parsed.identity
    accepted (
        if not found
        then error_reply 404 40403
        else json_reply (write_response (response_for_lookup item schema))))

  -- The answer of compatibility, after its own checks. A nil engine panics, and net/http then closes
  -- the connection with no answer, status 0 here.
  unfoldable pub compare_with : Parsed N → String → Schema → Reply
  unfolding resolve query_bool
  compare_with candidate subject previous_schema = elim (get engines candidate.schema_type) [
    | none ↦ record { status = 0; body = plain_text "" }
    | some engine ↦ answer (do
      previous ← require (error_reply 500 50001) (
          engine.parse
            (record {
              definition = previous_schema.definition;
              references = previous_schema.references;
              normalize = false;
              limits = default_limits;
            })
            (resolve m.state))
      compatible ←
          require (error_reply 500 50001)
            (engine.compatible (effective_compatibility m.state subject) candidate (previous ∷ []))
      accepted (json_reply (one_field "is_compatible" (bool compatible))))
  ]

  -- compatibility, without the messages of a verbose request.
  unfoldable pub compatibility : String → String → Reply
  unfolding parse_version_path
  compatibility subject value = answer (do
    (input, candidate) ← parse_request
    version ← parse_version_path m.state subject value false
    let (item, previous, found) = lookup m.state subject version false
    accepted (if not found then error_reply 404 40402 else compare_with candidate subject previous))

module _ (s : State) (c : Call) where
  -- lookupVersion
  unfoldable pub lookup_version : String → String → Bool → Checked (SubjectVersion × Schema)
  unfolding parse_version_path
  lookup_version subject value include_deleted = do
    version ← parse_version_path s subject value include_deleted
    let (item, schema, found) = lookup s subject version include_deleted
    if not found then rejected (error_reply 404 40402) else accepted (item, schema)

  -- version
  unfoldable pub get_version : String → String → Reply
  unfolding response_for write_response query_bool
  get_version subject value = answer (do
    (item, schema) ← lookup_version subject value (query_bool c "deleted")
    accepted (json_reply (write_response (response_for item schema))))

  -- referencedBy
  unfoldable pub get_referrers : String → String → Reply
  unfolding write_versions
  get_referrers subject value = answer (do
    (item, schema) ← lookup_version subject value true
    let ids = map (λ r. r.schema_id) (referenced_by s item.subject item.version)
    accepted (json_reply (array (write_versions ids))))

  -- The schema under an ID, for schemaByID, schemaTextByID and versionsByID.
  unfoldable pub identified : String → Checked (SchemaId × Schema)
  unfolding parse_id schema_by_id
  identified value = do
    id ← parse_id value
    schema ← require (error_reply 404 40403) (schema_by_id s id)
    accepted (id, schema)

  -- schemaByID
  unfoldable pub get_schema : String → Reply
  unfolding identified write_response
  get_schema value = answer (do
    (id, schema) ← identified value
    let (item, found) = latest_for_id s id (or_default "" (get c.query "subject"))
    let response : SchemaResponse = record {
      subject = if found then item.subject else "";
      version = if found then item.version else 0;
      id = 0;
      guid = schema.guid;
      schema_type = schema.schema_type;
      references = schema.references;
      schema = schema.definition;
      timestamp = if found then item.timestamp else 0;
      deleted = if found then some item.deleted else none;
    }
    accepted (json_reply (write_response response)))

  -- schemaTextByID
  unfoldable pub get_schema_text : String → Reply
  unfolding identified
  get_schema_text value = answer (do
    (id, schema) ← identified value
    accepted (record { status = 200; body = plain_text schema.definition }))

  -- versionsByID
  unfoldable pub get_schema_versions : String → Reply
  unfolding identified write_positions
  get_schema_versions value = answer (do
    (id, schema) ← identified value
    accepted (json_reply (array (write_positions (versions_for_id s id)))))

  -- subjects and versions
  unfoldable pub list_subjects : Reply
  unfolding write_texts query_bool
  list_subjects = json_reply (array (write_texts (subjects s (query_bool c "deleted"))))

  unfoldable pub list_versions : String → Reply
  unfolding write_versions query_bool
  list_versions subject =
      let found = versions s subject (query_bool c "deleted") in
      if is_empty found then error_reply 404 40401 else json_reply (array (write_versions found))

  -- getGlobalConfig, getSubjectConfig, getGlobalMode and getSubjectMode
  unfoldable pub get_global_config : Reply
  get_global_config = json_reply (one_field "compatibilityLevel" (text s.global_compatibility))

  unfoldable pub get_subject_config : String → Reply
  unfolding query_bool
  get_subject_config subject = elim (subject_compatibility s subject) [
    | some level ↦ json_reply (one_field "compatibilityLevel" (text level))
    | none ↦
        if not (query_bool c "defaultToGlobal")
        then error_reply 404 40408
        else json_reply (one_field "compatibilityLevel" (text s.global_compatibility))
  ]

  unfoldable pub get_global_mode : Reply
  get_global_mode = json_reply (one_field "mode" (text s.global_mode))

  unfoldable pub get_subject_mode : String → Reply
  get_subject_mode subject = elim (subject_mode s subject) [
    | some mode ↦ json_reply (one_field "mode" (text mode))
    | none ↦ error_reply 404 40409
  ]

-- schemaTypes, healthLive and healthReady
unfoldable pub schema_types : Reply
unfolding write_texts
schema_types = json_reply (array (write_texts (json_schema ∷ protobuf ∷ avro ∷ [])))

unfoldable pub health_live : Reply
health_live = json_reply (one_field "status" (text "live"))

unfoldable pub health_ready : Bool → Reply
health_ready ready =
    if not ready
    then record { status = 503; body = json (one_field "status" (text "not_ready")) }
    else json_reply (one_field "status" (text "ready"))
