-- ===== src/Backup/Tests.antt =====
-- The theorems on internal/backup at concrete inputs.
use riquet.Backup.{Archive, SnapshotDigest, capture, export, restore_archive}
use riquet.Backup.RoundTrip.{bolt_operations, capture-IsStored, capture-restore_archive}
use riquet.Domain.Errors.{ok}
use riquet.Domain.Execute.{execute, registering, run}
use riquet.Domain.Execute.Durable.{replay}
use riquet.Domain.Guid.{fingerprint_guid}
use riquet.Domain.Machine.{Machine, carry_out, commit_apply, replayed, valid_schema_type}
use riquet.Domain.Payload.{
  read_registration, read_schema, read_subject_version, write_registration, write_schema,
  write_subject_version,
}
use riquet.Domain.Queries.{effective_compatibility, effective_mode, versions}
use riquet.Domain.Register.{
  candidate, check_references, choose_id, choose_version, compatibility_schemas, identity_id,
  known_registration, last_only, looked_up, max_version, must_check, next_version, plan_new,
  plan_register, register,
}
use riquet.Domain.Snapshot.{
  check_identities, check_subjects, check_versions, new_state, restore, validate,
}
use riquet.Domain.State.{
  apply, apply_payload, apply_registration, insert_registration, record_operation, unmarshal,
}
use riquet.Domain.Tests.{register_user, user_state, weak_hashes}
use riquet.Domain.Transition.{new_envelope, validate_envelope}
use riquet.Domain.Types.{valid_level, valid_mode}
use riquet.Map.{get, put}
use riquet.Prelude.{[], arith, false, none, number_eq, refl, string_eq, true, ◌∷◌, ◌≡◌}
use riquet.Storage.{done}
use riquet.Storage.Bolt.{Store, commit, read_sequence, record_error, uint64_key, update}
use riquet.Storage.Bolt.Keys.{read_sequence-uint64_key}
use riquet.Storage.Bolt.Persisted.{Backend, IsStored, bolt_committer, calm, run-IsStored}
use riquet.Storage.Bolt.Restored.{fresh_store, fresh_store-IsWellFormed}
use riquet.Storage.Bolt.Snapshots.{restore_snapshot}

abbrev weak_digest : SnapshotDigest
weak_digest snapshot = "digest"

abbrev user_archive : Archive
user_archive = export weak_digest user_state "test" 5

abbrev restored_store : Store
restored_store =
    (restore_archive (bolt_operations weak_hashes.digest calm) weak_digest fresh_store
      user_archive).1

abbrev backed_up : Machine Backend
backed_up = record {
  state = new_state;
  log = record { store = fresh_store; ahead = [] };
  commit = bolt_committer weak_hashes.digest;
  check = λ _ _ _ _. true;
}

backup_runs :
    (restore user_state ≡ ok user_state)
    × ((restore_archive
          (bolt_operations weak_hashes.digest calm)
          weak_digest
          fresh_store
          user_archive).0
        ≡ done tt)
    × ((run weak_hashes backed_up (registering register_user ∷ [])).log.store.is_closed ≡ false)
    × ((run weak_hashes backed_up (registering register_user ∷ [])).log.store.db.snapshot ≡ none)
    × (user_archive.snapshot ≡ user_state)
unfolding get put valid_level valid_mode fingerprint_guid write_schema write_subject_version
    write_registration read_schema read_subject_version read_registration new_envelope
    validate_envelope check_identities check_versions check_subjects validate restore versions
    effective_compatibility effective_mode insert_registration apply_registration unmarshal
    apply_payload record_operation apply replayed valid_schema_type commit_apply carry_out
    max_version next_version check_references known_registration identity_id choose_id
    choose_version candidate last_only looked_up compatibility_schemas must_check plan_new
    plan_register register execute run uint64_key read_sequence update record_error commit
    restore_snapshot bolt_committer capture restore_archive
backup_runs = (refl, refl, refl, refl, refl)

backed_up-IsStored : IsStored weak_hashes new_state backed_up
unfolding replay
backed_up-IsStored = record {
  commits_to = refl;
  well_formed = fresh_store-IsWellFormed weak_hashes.digest;
  at_sequence = read_sequence-uint64_key 0 (omega arith);
  replays = refl;
}

capture-restore_archive_example :
    capture
      (bolt_operations weak_hashes.digest calm)
      weak_hashes.digest
      weak_digest
      restored_store
      "again"
      6
    ≡ (done (export weak_digest user_archive.snapshot "again" 6), restored_store)
unfolding export
capture-restore_archive_example =
    capture-restore_archive weak_hashes.digest weak_digest calm user_archive restored_store "again"
      6 (omega arith) (λ i. (backup_runs.1 i, restored_store))

capture-IsStored_example :
    capture
      (bolt_operations weak_hashes.digest calm)
      weak_hashes.digest
      weak_digest
      (run weak_hashes backed_up (registering register_user ∷ [])).log.store
      "test"
      5
    ≡ (
      done (
          export weak_digest
            (run weak_hashes backed_up (registering register_user ∷ [])).state
            "test"
            5),
      (run weak_hashes backed_up (registering register_user ∷ [])).log.store,
    )
capture-IsStored_example =
    capture-IsStored weak_hashes weak_digest
      (run weak_hashes backed_up (registering register_user ∷ []))
      (run weak_hashes backed_up (registering register_user ∷ [])).log.store "test" 5
      (run-IsStored weak_hashes new_state backed_up (registering register_user ∷ [])
        backed_up-IsStored)
      backup_runs.2 refl backup_runs.3
