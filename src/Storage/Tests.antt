-- ===== src/Storage/Tests.antt =====
-- The theorems on internal/storage/bolt at concrete inputs.
use riquet.Domain.Errors.{ok}
use riquet.Domain.Execute.{execute, registering, run}
use riquet.Domain.Execute.Durable.{replay}
use riquet.Domain.Guid.{fingerprint_guid}
use riquet.Domain.Machine.{Machine, carry_out, commit_apply, replayed, valid_schema_type}
use riquet.Domain.Payload.{
  read_registration, read_schema, read_subject_version, write_registration, write_schema,
  write_subject_version,
}
use riquet.Domain.Queries.{effective_compatibility, effective_mode, versions}
use riquet.Domain.Register.{
  candidate, check_references, choose_id, choose_version, compatibility_schemas, identity_id,
  known_registration, last_only, looked_up, max_version, must_check, next_version, plan_new,
  plan_register, register,
}
use riquet.Domain.Snapshot.{
  check_identities, check_subjects, check_versions, new_state, restore, validate,
}
use riquet.Domain.State.{
  apply, apply_payload, apply_registration, insert_registration, record_operation, unmarshal,
}
use riquet.Domain.Tests.{register_user, user_envelope, user_state, weak_hashes}
use riquet.Domain.Transition.{new_envelope, validate_envelope}
use riquet.Domain.Types.{valid_level, valid_mode}
use riquet.Map.{get, put}
use riquet.Prelude.{[], arith, false, number_eq, refl, some, string_eq, true, ◌∷◌, ◌≡◌}
use riquet.Storage.{done}
use riquet.Storage.Bolt.{
  Store, bucket_put, commit, read_sequence, record_error, replay_after, uint64_key, update,
}
use riquet.Storage.Bolt.Commit.{IsWellFormed}
use riquet.Storage.Bolt.Keys.{read_sequence-uint64_key}
use riquet.Storage.Bolt.Persisted.{Backend, IsStored, apply_to, bolt_committer, calm, run-IsStored}
use riquet.Storage.Bolt.Recovery.{replay_after-IsStored}
use riquet.Storage.Bolt.Restored.{
  fresh_store, fresh_store-IsWellFormed, restore_snapshot-load_snapshot,
}
use riquet.Storage.Bolt.Retry.{commit-retry}
use riquet.Storage.Bolt.Snapshots.{load_snapshot, restore_snapshot}

-- A machine over a new store, and the store after its first registration.
abbrev bolt_machine : Machine Backend
bolt_machine = record {
  state = new_state;
  log = record { store = fresh_store; ahead = [] };
  commit = bolt_committer weak_hashes.digest;
  check = λ _ _ _ _. true;
}

abbrev bolt_after : Machine Backend
bolt_after = run weak_hashes bolt_machine (registering register_user ∷ [])

abbrev store_after : Store
store_after = record fresh_store {
  db = record fresh_store.db {
    last_sequence = some (uint64_key 1);
    transitions = (1, some user_envelope) ∷ [];
  };
}

bolt_machine-IsStored : IsStored weak_hashes new_state bolt_machine
unfolding replay
bolt_machine-IsStored = record {
  commits_to = refl;
  well_formed = fresh_store-IsWellFormed weak_hashes.digest;
  at_sequence = read_sequence-uint64_key 0 (omega arith);
  replays = refl;
}

bolt_runs :
    (bolt_after.log.store ≡ store_after)
    × (bolt_after.log.store.is_closed ≡ false)
    × (commit weak_hashes.digest fresh_store calm user_envelope ≡ (done tt, store_after))
    × ((restore_snapshot fresh_store calm user_state).0 ≡ done tt)
unfolding get put valid_level valid_mode fingerprint_guid write_schema write_subject_version
    write_registration read_schema read_subject_version read_registration new_envelope
    validate_envelope check_identities check_versions check_subjects validate restore versions
    effective_compatibility effective_mode insert_registration apply_registration unmarshal
    apply_payload record_operation apply replayed valid_schema_type commit_apply carry_out
    max_version next_version check_references known_registration identity_id choose_id
    choose_version candidate last_only looked_up compatibility_schemas must_check plan_new
    plan_register register execute run uint64_key read_sequence bucket_put update record_error
    commit restore_snapshot bolt_committer
bolt_runs = (refl, refl, refl, refl)

no_transitions_replay : replay weak_hashes.digest new_state [] ≡ ok new_state
unfolding replay
no_transitions_replay = refl

run-IsStored_example : IsStored weak_hashes new_state bolt_after
run-IsStored_example =
    run-IsStored weak_hashes new_state bolt_machine (registering register_user ∷ [])
      bolt_machine-IsStored

bolt_after-IsStored : IsStored weak_hashes new_state bolt_after
bolt_after-IsStored =
    run-IsStored weak_hashes new_state bolt_machine (registering register_user ∷ [])
      bolt_machine-IsStored

replay_after-IsStored_example :
    replay_after weak_hashes.digest bolt_after.log.store calm 0
      (apply_to weak_hashes.digest)
      new_state
    ≡ (done bolt_after.state, bolt_after.log.store)
replay_after-IsStored_example =
    replay_after-IsStored weak_hashes new_state bolt_after bolt_after.log.store []
      bolt_after.log.store.db.transitions 0 new_state bolt_after-IsStored bolt_runs.1 refl refl refl
      (omega arith) no_transitions_replay

commit-retry_example :
    commit weak_hashes.digest store_after calm user_envelope ≡ (done tt, store_after)
commit-retry_example =
    commit-retry weak_hashes.digest fresh_store store_after calm user_envelope refl bolt_runs.2

restored :
    restore_snapshot fresh_store calm user_state
    ≡ (done tt, (restore_snapshot fresh_store calm user_state).1)
restored = λ i. (bolt_runs.3 i, (restore_snapshot fresh_store calm user_state).1)

restore_snapshot-load_snapshot_example :
    IsWellFormed weak_hashes.digest 1 (restore_snapshot fresh_store calm user_state).1.db
    × ((restore_snapshot fresh_store calm user_state).1.db.transitions ≡ [])
    × (load_snapshot (restore_snapshot fresh_store calm user_state).1 calm
        ≡ (done (some user_state), (restore_snapshot fresh_store calm user_state).1))
restore_snapshot-load_snapshot_example =
    restore_snapshot-load_snapshot weak_hashes.digest fresh_store
      (restore_snapshot fresh_store calm user_state).1 calm user_state (omega arith) restored
