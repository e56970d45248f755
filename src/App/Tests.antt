-- ===== src/App/Tests.antt =====
-- The restart at a concrete input, and the compatibility check on small schemas.
use riquet.App.{compatibility_checker, recover_state, start_machine}
use riquet.App.Restart.{recover_state-IsStored}
use riquet.Backup.RoundTrip.{bolt_operations}
use riquet.Domain.Errors.{ok}
use riquet.Domain.Execute.Durable.{replay}
use riquet.Domain.Machine.{Machine}
use riquet.Domain.Payload.{
  read_registration, read_schema, read_subject_version, write_registration, write_schema,
  write_subject_version,
}
use riquet.Domain.Snapshot.{
  check_identities, check_subjects, check_versions, new_state, restore, validate,
}
use riquet.Domain.State.{
  apply, apply_payload, apply_registration, insert_registration, record_operation, unmarshal,
}
use riquet.Domain.Tests.{user_envelope, user_state, weak_hashes}
use riquet.Domain.Transition.{validate_envelope}
use riquet.Domain.Types.{Schema, no_schema, valid_level, valid_mode}
use riquet.Formats.{Engine}
use riquet.Map.{get, put}
use riquet.Prelude.{
  Bool, List, String, [], arith, false, if◌then◌else◌, none, number_eq, refl, some, string_eq, sym,
  true, ◌==◌, ◌∷◌, ◌≡◌,
}
use riquet.Storage.{done}
use riquet.Storage.Bolt.{Store, read_sequence, record_error, uint64_key, update}
use riquet.Storage.Bolt.Keys.{read_sequence-uint64_key}
use riquet.Storage.Bolt.Persisted.{Backend, IsStored, bolt_committer, calm}
use riquet.Storage.Bolt.Restored.{fresh_store}
use riquet.Storage.Bolt.Snapshots.{save_snapshot}

-- A machine over a bolt store with one transition.
abbrev one_transition : Store
one_transition = record fresh_store {
  db = record fresh_store.db {
    last_sequence = some (uint64_key 1);
    transitions = (1, some user_envelope) ∷ [];
  };
}

abbrev running : Machine Backend
running = record {
  state = user_state;
  log = record { store = one_transition; ahead = [] };
  commit = bolt_committer weak_hashes.digest;
  check = λ _ _ _ _. true;
}

abbrev restarted_store : Store
restarted_store = record one_transition {
  db = record one_transition.db { snapshot = some (some user_state) };
}

-- An engine that takes every text but the empty one, and finds equal texts compatible.
abbrev equal_engine : Engine (Unit {0})
equal_engine = record {
  engine_type = "AVRO";
  parse = λ r resolver.
      if r.definition == ""
      then none
      else some (record {
        schema_type = "AVRO";
        definition = r.definition;
        canonical = r.definition;
        identity = r.definition;
        references = r.references;
        native = tt;
      });
  compatible = λ level candidate previous.
      some (elim previous [ [] ↦ true | ◌∷◌ p _ ↦ p.definition == candidate.definition ]);
}

abbrev avro_of : String → Schema
avro_of definition = record no_schema { schema_type = "AVRO"; definition = definition }

abbrev checked : Schema → List Schema → Bool
checked = compatibility_checker (("AVRO", equal_engine) ∷ []) new_state "BACKWARD"

computed :
    (replay weak_hashes.digest new_state (user_envelope ∷ []) ≡ ok user_state)
    × (restore user_state ≡ ok user_state)
    × (validate_envelope weak_hashes.digest user_envelope ≡ ok tt)
    × ((save_snapshot one_transition calm user_state).1.db ≡ restarted_store.db)
    × (checked (avro_of "a") (avro_of "a" ∷ []) ≡ true)
    × (checked (avro_of "a") (avro_of "b" ∷ []) ≡ false)
    × (checked (avro_of "a") (avro_of "" ∷ []) ≡ false)
    × (checked (record (avro_of "a") { schema_type = "JSON" }) [] ≡ false)
unfolding get put valid_level valid_mode write_schema write_subject_version write_registration
    read_schema read_subject_version read_registration validate_envelope check_identities
    check_versions check_subjects validate restore insert_registration apply_registration unmarshal
    apply_payload record_operation apply replay uint64_key read_sequence update record_error
    save_snapshot compatibility_checker
computed = (refl, refl, refl, refl, refl, refl, refl, refl)

running-IsStored : IsStored weak_hashes new_state running
running-IsStored = record {
  commits_to = refl;
  well_formed = record {
    bounded = omega (arith, read_sequence-uint64_key 1 (omega arith));
    chain = (
      refl,
      (user_envelope, refl, refl, computed.2),
      sym (read_sequence-uint64_key 1 (omega arith)),
    );
  };
  at_sequence = read_sequence-uint64_key 1 (omega arith);
  replays = computed.0;
}

recover_state-IsStored_example :
    ((save_snapshot one_transition calm user_state).0 ≡ done tt)
    × (recover_state (bolt_operations weak_hashes.digest calm) weak_hashes.digest restarted_store
        ≡ (done user_state, restarted_store))
    × IsStored weak_hashes new_state (
        start_machine weak_hashes.digest
          (("AVRO", equal_engine) ∷ [])
          user_state
          (record { store = restarted_store; ahead = [] }))
recover_state-IsStored_example =
    recover_state-IsStored weak_hashes (("AVRO", equal_engine) ∷ []) new_state running
      restarted_store running-IsStored refl computed.1 (omega arith) refl (sym computed.3)
