-- ===== src/Server/Tests.antt =====
-- The HTTP adapter on small inputs, and its theorems at concrete inputs.
use riquet.Domain.Commands.{
  delete_compatibility, delete_version, plan_delete_version, set_compatibility,
}
use riquet.Domain.Errors.{ok}
use riquet.Domain.Execute.{Command, run}
use riquet.Domain.Guid.{fingerprint_guid}
use riquet.Domain.Json.{a_field, no_fields, object, text}
use riquet.Domain.Machine.{Machine, carry_out, commit_apply, replayed, valid_schema_type}
use riquet.Domain.Payload.{
  read_compatibility, read_delete_version, read_registration, read_schema, read_subject_version,
  write_compatibility, write_delete_version, write_registration, write_schema,
  write_subject_version,
}
use riquet.Domain.Queries.{
  effective_compatibility, effective_mode, lookup, result_for, subject_compatibility, versions,
}
use riquet.Domain.Register.{
  candidate, check_references, choose_id, choose_version, compatibility_schemas, identity_id,
  known_registration, last_only, looked_up, max_version, must_check, next_version, plan_new,
  plan_register, register,
}
use riquet.Domain.Snapshot.{check_identities, check_subjects, check_versions, validate}
use riquet.Domain.State.{
  apply, apply_compatibility, apply_payload, apply_registration, insert_registration, mark_all,
  mark_deleted, mark_versions, record_operation, unmarshal,
}
use riquet.Domain.Tests.{next_result, user_machine, user_state, weak_hashes}
use riquet.Domain.Transition.{
  Envelope, RawMessage, encoded, new_envelope, no_bytes, validate_envelope,
}
use riquet.Domain.Types.{valid_level, valid_mode}
use riquet.Formats.{Engine, Parsed}
use riquet.Map.{get, put}
use riquet.Prelude.{
  List, String, [], arith, length, none, number_eq, refl, some, string_eq, true, ℕ, ◌-◌, ◌^◌, ◌∷◌,
  ◌≡◌, ◌≢◌, ◌≤◌,
}
use riquet.Server.{Arrival, Call, accepted, error_reply, operation_id, parse_int}
use riquet.Server.Reads.{get_version, lookup_version, parse_request}
use riquet.Server.Refinement.{Served, serve-Served, serve_all-run}
use riquet.Server.Requests.{SchemaRequest}
use riquet.Server.Retry.{remove_config-again, serve_retry}
use riquet.Server.Routes.{Server, drop_version, patterns, route, serve, serve_all}
use riquet.Server.Writes.{post_schema, put_config, register_command, remove_config, remove_version}

-- An engine that takes every text as it stands, for Avro alone.
abbrev text_engine : Engine (Unit {0})
text_engine = record {
  engine_type = "AVRO";
  parse = λ r resolver. some (record {
    schema_type = "AVRO";
    definition = r.definition;
    canonical = r.definition;
    identity = r.definition;
    references = r.references;
    native = tt;
  });
  compatible = λ level candidate previous. some true;
}

abbrev test_server : Server (Unit {0})
test_server = record { engines = ("AVRO", text_engine) ∷ []; is_ready = true }

abbrev noon : Arrival
noon = record { random = some "random"; remote_address = "[::1]:80"; now = 12 }

abbrev later : Arrival
later = record noon { now = 13 }

abbrev ask : String → List String → RawMessage → Call
ask method path body = record {
  method = method;
  path = path;
  query = [];
  request_id = "request-1";
  body_size = 30;
  body = body;
}

abbrev post_next : Call
post_next =
    ask "POST" ("subjects" ∷ "user" ∷ "versions" ∷ [])
      (encoded (object (a_field "schema" (text "next") no_fields)))

abbrev put_full : Call
put_full =
    ask "PUT" ("config" ∷ "user" ∷ [])
      (encoded (object (a_field "compatibility" (text "FULL") no_fields)))

abbrev drop_user : Call
drop_user = ask "DELETE" ("subjects" ∷ "user" ∷ "versions" ∷ "1" ∷ []) no_bytes

abbrev get_user : Call
get_user = ask "GET" ("subjects" ∷ "user" ∷ "versions" ∷ "latest" ∷ []) no_bytes

abbrev levelled_machine : Machine (List Envelope)
levelled_machine = record user_machine {
  state = record user_state { subject_compatibility = ("user", "FULL") ∷ [] };
}

abbrev status_of : Machine (List Envelope) → Call → ℕ
status_of m c = (serve weak_hashes test_server noon m c).0.1.status

abbrev next_request : SchemaRequest
next_request = record {
  schema = "next";
  schema_type = "AVRO";
  references = [];
  id = 0;
  version = 0;
  metadata = none;
  rule_set = none;
}

abbrev next_parsed : Parsed (Unit {0})
next_parsed = record {
  schema_type = "AVRO";
  definition = "next";
  canonical = "next";
  identity = "next";
  references = [];
  native = tt;
}

computed :
    (status_of user_machine post_next ≡ 200)
    × (status_of user_machine put_full ≡ 200)
    × (status_of user_machine drop_user ≡ 200)
    × (status_of user_machine get_user ≡ 200)
    × (status_of user_machine (record get_user { method = "POST" }) ≡ 405)
    × (status_of user_machine (record get_user { path = "subject" ∷ [] }) ≡ 404)
    × (status_of user_machine (record put_full { body = no_bytes }) ≡ 422)
    × (parse_request test_server.engines user_machine post_next
        ≡ accepted (next_request, next_parsed))
    × ((remove_config weak_hashes "request-1" levelled_machine drop_user "user").0.status ≡ 200)
    × ((register weak_hashes user_machine
          (register_command noon "request-1" "user" next_request next_parsed)).0
        ≡ ok next_result)
    × (parse_int "-1" ≡ some (2 ^ 64 - 1))
    × (parse_int "9223372036854775808" ≡ none)
unfolding get put valid_level valid_mode fingerprint_guid write_schema write_subject_version
    write_registration write_delete_version write_compatibility read_schema read_subject_version
    read_registration read_delete_version read_compatibility new_envelope validate_envelope
    check_identities check_versions check_subjects validate versions lookup effective_compatibility
    subject_compatibility effective_mode insert_registration apply_registration mark_versions
    mark_deleted mark_all apply_compatibility unmarshal apply_payload record_operation apply
    replayed valid_schema_type commit_apply carry_out max_version next_version check_references
    known_registration identity_id choose_id choose_version candidate last_only looked_up
    compatibility_schemas must_check plan_new plan_register register plan_delete_version
    delete_version set_compatibility delete_compatibility lookup_version get_version post_schema
    remove_version put_config remove_config serve_all
computed = (refl, refl, refl, refl, refl, refl, refl, refl, refl, refl, refl, refl)

levelled_fresh : replayed levelled_machine.state "request-1" ≡ none
unfolding replayed get result_for
levelled_fresh = refl

request_named : ◌≢◌ {A = String} "request-1" ""
request_named e = cc

drop_user_route : route drop_user.method drop_user.path ≡ accepted (drop_version "user" "1")
unfolding route patterns get
drop_user_route = refl

serve-Served_example : Served weak_hashes "request-1" user_machine (
  (serve weak_hashes test_server noon user_machine post_next).0.1,
  (serve weak_hashes test_server noon user_machine post_next).1,
)
unfolding operation_id
serve-Served_example = serve-Served weak_hashes test_server noon user_machine post_next

serve_all-run_example :
    (cs : List Command) × (serve_all weak_hashes test_server user_machine
        ((noon, post_next) ∷ (later, put_full) ∷ [])
      ≡ run weak_hashes user_machine cs)
    × (length cs ≤ 2)
serve_all-run_example =
    serve_all-run weak_hashes test_server user_machine ((noon, post_next) ∷ (later, put_full) ∷ [])

serve_retry_example :
    serve weak_hashes test_server later
      (serve weak_hashes test_server noon user_machine drop_user).1
      drop_user
    ≡ serve weak_hashes test_server noon user_machine drop_user
serve_retry_example =
    serve_retry weak_hashes test_server noon later user_machine drop_user (drop_version "user" "1")
      request_named (omega arith) drop_user_route refl computed.2

remove_config-again_example :
    remove_config weak_hashes "request-1"
      (remove_config weak_hashes "request-1" levelled_machine drop_user "user").1
      drop_user
      "user"
    ≡ (
      error_reply 404 40408,
      (remove_config weak_hashes "request-1" levelled_machine drop_user "user").1,
    )
remove_config-again_example =
    remove_config-again weak_hashes "request-1" "request-1" levelled_machine drop_user drop_user
      "user" levelled_fresh computed.8
