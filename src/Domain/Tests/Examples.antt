-- ===== src/Domain/Tests/Examples.antt =====
-- The theorems on internal/domain at concrete inputs.
use riquet.Domain.Commands.{delete_subject, delete_version}
use riquet.Domain.Errors.{domain_error, ok, read_only}
use riquet.Domain.Execute.{deleting_version, execute, registering, run}
use riquet.Domain.Execute.Deletion.{IsDeleted, delete_subject-versions, delete_version-IsDeleted}
use riquet.Domain.Execute.Durable.{IsReplay, replay, run-IsReplay}
use riquet.Domain.Execute.Failure.{execute_error}
use riquet.Domain.Execute.Follower.{follow, follow_catches_up}
use riquet.Domain.Execute.History.{run-IsAllocated, run-IsConsistent, run-schema}
use riquet.Domain.Execute.ReadOnly.{execute_read_only}
use riquet.Domain.Execute.Retry.{execute_retry}
use riquet.Domain.Queries.{versions}
use riquet.Domain.Register.{register}
use riquet.Domain.Register.Numbering.{register-known_id, register-version}
use riquet.Domain.Snapshot.{new_state, validate, versions_of}
use riquet.Domain.Snapshot.Consistent.{IsConsistent, validate_iff}
use riquet.Domain.State.Allocation.{IsAllocated}
use riquet.Domain.Tests.{
  after_user, delete_all, delete_user, empty_machine, frozen_machine, next_result, register_next,
  register_shared, register_user, shared_result, user_envelope, user_machine, user_result,
  user_schema, user_state, weak_hashes,
}
use riquet.Domain.Tests.Runs.{
  delete_all_done, delete_user_done, frozen_mode, frozen_refused, new_state-IsConsistent,
  next_operation, next_unknown, register_next_done, register_shared_done, register_user_done,
  shared_identity, user_identity_keys, user_replay, user_replayed, user_state-IsAllocated,
  user_state-IsConsistent, user_subject_keys,
}
use riquet.Domain.Types.{Schema, no_result}
use riquet.Map.{get}
use riquet.Prelude.{
  All, [], arith, eq_iff, false, inl, number_eq, refl, some, string_eq, true, ◌↔◌, ◌∷◌, ◌≡◌,
}
use riquet.Prelude.Words.{slt}

run-IsReplay_example :
    IsReplay weak_hashes new_state (run weak_hashes empty_machine (registering register_user ∷ []))
unfolding replay
run-IsReplay_example =
    run-IsReplay weak_hashes new_state empty_machine (registering register_user ∷ [])
      (record { appends = λ e log. inl refl; replays = refl })

execute_retry_example :
    execute weak_hashes after_user (registering register_user) ≡ (ok user_result, after_user)
unfolding execute
execute_retry_example =
    execute_retry weak_hashes empty_machine after_user (registering register_user) user_result
      (λ e. ground (arith, (eq_iff "op-1" "").1 e)) (omega arith) register_user_done

run-IsConsistent_example :
    IsConsistent (run weak_hashes empty_machine (registering register_user ∷ [])).state
run-IsConsistent_example =
    run-IsConsistent weak_hashes empty_machine (registering register_user ∷ [])
      new_state-IsConsistent

run-schema_example :
    (new : Schema) × (get
        (run weak_hashes user_machine (deleting_version delete_user ∷ [])).state.schemas
        1
      ≡ some new)
    × (new.identity ≡ "avro:user")
unfolding get
run-schema_example =
    run-schema weak_hashes user_machine (deleting_version delete_user ∷ []) 1 user_schema refl

run-IsAllocated_example :
    IsAllocated (run weak_hashes user_machine (registering register_next ∷ [])).state
run-IsAllocated_example =
    run-IsAllocated weak_hashes user_machine (registering register_next ∷ []) user_state-IsAllocated

register-version_example : All (λ item. slt item.version 2 ≡ true) (versions_of user_state "user")
register-version_example =
    register-version weak_hashes user_machine (register weak_hashes user_machine register_next).1
      register_next next_result (next_operation "op-2" refl) next_unknown refl register_next_done

register-known_id_example : shared_result.schema_id ≡ 1
register-known_id_example =
    register-known_id weak_hashes user_machine (register weak_hashes user_machine register_shared).1
      register_shared shared_result 1 (next_operation "op-3" refl) shared_identity
      (λ e. ground (arith, e)) register_shared_done

delete_version-IsDeleted_example :
    IsDeleted user_state
      (delete_version weak_hashes user_machine delete_user).1.state
      "user"
      1
      false
delete_version-IsDeleted_example =
    delete_version-IsDeleted weak_hashes user_machine
      (delete_version weak_hashes user_machine delete_user).1 (record no_result { version = 1 })
      delete_user user_state-IsConsistent (next_operation "op-4" refl) delete_user_done

delete_subject-versions_example :
    (versions (delete_subject weak_hashes user_machine delete_all).1.state "user" false ≡ [])
    × (1 ∷ [] ≡ versions user_state "user" false)
delete_subject-versions_example =
    delete_subject-versions weak_hashes user_machine
      (delete_subject weak_hashes user_machine delete_all).1
      (record no_result { versions = 1 ∷ [] }) delete_all user_state-IsConsistent
      (next_operation "op-5" refl) delete_all_done

execute_read_only_example :
    (execute weak_hashes frozen_machine (registering register_user)).1 ≡ frozen_machine
execute_read_only_example =
    execute_read_only weak_hashes frozen_machine (registering register_user) "user" refl frozen_mode

execute_error_example :
    (execute weak_hashes frozen_machine (registering register_next)).1.state ≡ frozen_machine.state
execute_error_example =
    execute_error weak_hashes frozen_machine (registering register_next)
      (domain_error read_only "user" "schema registration is disabled") frozen_refused

follow_catches_up_example :
    follow weak_hashes user_machine (user_envelope ∷ []) ≡ (ok tt, user_machine)
follow_catches_up_example =
    follow_catches_up weak_hashes new_state user_machine (user_envelope ∷ []) [] user_state
      (omega arith) user_replay user_replayed

validate_iff_example : (validate user_state ≡ ok tt) ↔ IsConsistent user_state
validate_iff_example = validate_iff user_state user_identity_keys user_subject_keys
