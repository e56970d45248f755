-- ===== src/Domain/Tests/Runs.antt =====
-- Commands of internal/domain/machine.go on the test machines.
use riquet.Domain.Commands.{
  delete_compatibility, delete_mode, delete_subject, delete_version, plan_delete_subject,
  plan_delete_version, set_compatibility, set_mode,
}
use riquet.Domain.Errors.{Outcome, domain_error, err, ok, read_only}
use riquet.Domain.Execute.{execute, registering}
use riquet.Domain.Execute.Durable.{replay}
use riquet.Domain.Guid.{fingerprint_guid}
use riquet.Domain.Machine.{Machine, carry_out, commit_apply, replayed, valid_schema_type}
use riquet.Domain.Payload.{
  read_compatibility, read_delete_subject, read_delete_version, read_mode, read_registration,
  read_schema, read_subject_version, write_compatibility, write_delete_subject,
  write_delete_version, write_mode, write_registration, write_schema, write_subject_version,
}
use riquet.Domain.Queries.{effective_compatibility, effective_mode, lookup, result_for, versions}
use riquet.Domain.Register.{
  active_with, candidate, check_references, choose_id, choose_version, compatibility_schemas,
  identity_id, known_registration, last_only, looked_up, max_version, must_check, next_version,
  plan_new, plan_register, register,
}
use riquet.Domain.Snapshot.{
  check_identities, check_subjects, check_versions, new_state, restore, validate,
}
use riquet.Domain.Snapshot.Consistent.{IsConsistent, validate-IsConsistent}
use riquet.Domain.State.{
  apply, apply_compatibility, apply_mode, apply_payload, apply_registration, insert_registration,
  mark_all, mark_deleted, mark_versions, record_operation, unmarshal,
}
use riquet.Domain.State.Allocation.{IsAllocated}
use riquet.Domain.Tests.{
  after_user, delete_all, delete_user, empty_machine, frozen_machine, next_result, register_next,
  register_shared, register_user, shared_result, user_envelope, user_machine, user_result,
  user_state, weak_hashes,
}
use riquet.Domain.Transition.{new_envelope, validate_envelope}
use riquet.Domain.Types.{mode_read_only, no_result, valid_level, valid_mode}
use riquet.Map.{DistinctKeys, get, put}
use riquet.Prelude.{
  String, [], arith, false, nat_eq_iff, none, number_eq, refl, some, string_eq, ◌==◌, ◌∷◌, ◌≡◌,
}

-- The runs, computed.
computed :
    (after_user.state ≡ user_state)
    × (after_user.log ≡ user_envelope ∷ [])
    × ((register weak_hashes empty_machine register_user).0 ≡ ok user_result)
    × ((register weak_hashes user_machine register_next).0 ≡ ok next_result)
    × ((register weak_hashes user_machine register_shared).0 ≡ ok shared_result)
    × ((delete_version weak_hashes user_machine delete_user).0
        ≡ ok (record no_result { version = 1 }))
    × ((delete_subject weak_hashes user_machine delete_all).0
        ≡ ok (record no_result { versions = 1 ∷ [] }))
    × (validate user_state ≡ ok tt)
    × ((execute weak_hashes frozen_machine (registering register_next)).0
        ≡ err (domain_error read_only "user" "schema registration is disabled"))
    × (apply weak_hashes.digest new_state user_envelope ≡ ok user_state)
    × (restore user_state ≡ ok user_state)
    × (set_mode weak_hashes user_machine "op-6" (record { subject = "user" }) "IMPORT" ≡ (
      ok tt,
      (set_mode weak_hashes user_machine "op-6" (record { subject = "user" }) "IMPORT").1,
    ))
    × (set_compatibility weak_hashes user_machine "op-7" (record { subject = "" }) "FULL" ≡ (
      ok tt,
      (set_compatibility weak_hashes user_machine "op-7" (record { subject = "" }) "FULL").1,
    ))
    × (delete_mode weak_hashes user_machine "op-8" "user"
        ≡ (ok tt, (delete_mode weak_hashes user_machine "op-8" "user").1))
    × (delete_compatibility weak_hashes user_machine "op-9" "user"
        ≡ (ok tt, (delete_compatibility weak_hashes user_machine "op-9" "user").1))
unfolding get put valid_level valid_mode fingerprint_guid write_schema write_subject_version
    write_registration write_delete_version write_delete_subject write_compatibility write_mode
    read_schema read_subject_version read_registration read_delete_version read_delete_subject
    read_compatibility read_mode new_envelope validate_envelope check_identities check_versions
    check_subjects validate restore versions lookup effective_compatibility effective_mode
    insert_registration apply_registration mark_versions mark_deleted mark_all apply_compatibility
    apply_mode unmarshal apply_payload record_operation apply replayed valid_schema_type
    commit_apply carry_out max_version next_version check_references active_with known_registration
    identity_id choose_id choose_version candidate last_only looked_up compatibility_schemas
    must_check plan_new plan_register register plan_delete_version plan_delete_subject
    delete_version delete_subject set_compatibility delete_compatibility set_mode delete_mode
    execute
computed =
    (refl, refl, refl, refl, refl, refl, refl, refl, refl, refl, refl, refl, refl, refl, refl)

register_user_state : after_user.state ≡ user_state
register_user_state = computed.0

register_user_log : after_user.log ≡ user_envelope ∷ []
register_user_log = computed.1

register_user_answer : (register weak_hashes empty_machine register_user).0 ≡ ok user_result
register_user_answer = computed.2

register_next_answer : (register weak_hashes user_machine register_next).0 ≡ ok next_result
register_next_answer = computed.3

register_shared_answer : (register weak_hashes user_machine register_shared).0 ≡ ok shared_result
register_shared_answer = computed.4

delete_user_answer :
    (delete_version weak_hashes user_machine delete_user).0 ≡ ok (record no_result { version = 1 })
delete_user_answer = computed.5

delete_all_answer :
    (delete_subject weak_hashes user_machine delete_all).0
    ≡ ok (record no_result { versions = 1 ∷ [] })
delete_all_answer = computed.6

-- An outcome and what is left are a pair.
pub answers :
    {L : Type 0} {A : Type 0} (o : Outcome A × Machine L) {a : A} → o.0 ≡ ok a → o ≡ (ok a, o.1)
answers o h = λ i. (h i, o.1)

pub register_user_done :
    register weak_hashes empty_machine register_user ≡ (ok user_result, after_user)
register_user_done = answers (register weak_hashes empty_machine register_user) register_user_answer

pub register_next_done :
    register weak_hashes user_machine register_next
    ≡ (ok next_result, (register weak_hashes user_machine register_next).1)
register_next_done = answers (register weak_hashes user_machine register_next) register_next_answer

pub register_shared_done :
    register weak_hashes user_machine register_shared
    ≡ (ok shared_result, (register weak_hashes user_machine register_shared).1)
register_shared_done =
    answers (register weak_hashes user_machine register_shared) register_shared_answer

pub delete_user_done : delete_version weak_hashes user_machine delete_user ≡ (
  ok (record no_result { version = 1 }),
  (delete_version weak_hashes user_machine delete_user).1,
)
delete_user_done = answers (delete_version weak_hashes user_machine delete_user) delete_user_answer

pub delete_all_done : delete_subject weak_hashes user_machine delete_all ≡ (
  ok (record no_result { versions = 1 ∷ [] }),
  (delete_subject weak_hashes user_machine delete_all).1,
)
delete_all_done = answers (delete_subject weak_hashes user_machine delete_all) delete_all_answer

pub new_state-IsConsistent : IsConsistent new_state
unfolding validate valid_level valid_mode check_identities check_subjects
new_state-IsConsistent = validate-IsConsistent new_state refl

pub user_state-valid : validate user_state ≡ ok tt
user_state-valid = computed.7

pub user_state-IsConsistent : IsConsistent user_state
user_state-IsConsistent = validate-IsConsistent user_state user_state-valid

pub new_state-IsAllocated : IsAllocated new_state
unfolding get
new_state-IsAllocated = record {
  below = λ id schema found. absurd (cc);
  own_key = λ id schema found. absurd (cc);
}

pub user_state-IsAllocated : IsAllocated user_state
unfolding get
user_state-IsAllocated = record {
  below = λ id schema found. ground arith;
  own_key = λ id schema found. ground (arith, nat_eq_iff 1 id);
}

pub first_operation : (operation_id : String) → replayed new_state operation_id ≡ none
unfolding replayed get result_for
first_operation operation_id = ground arith

pub next_operation :
    (operation_id : String)
    → ("op-1" == operation_id) ≡ false
    → replayed user_state operation_id ≡ none
unfolding replayed get result_for
next_operation operation_id h = ground (arith, h)

pub next_identity : get user_state.identity_to_id "avro:next" ≡ none
unfolding get
next_identity = refl

pub next_unknown : known_registration user_state register_next ≡ none
unfolding get known_registration
next_unknown = refl

pub shared_identity : get user_state.identity_to_id "avro:user" ≡ some 1
unfolding get
shared_identity = refl

pub frozen_mode : effective_mode frozen_machine.state "user" ≡ mode_read_only
unfolding get effective_mode
frozen_mode = refl

pub frozen_refused :
    (execute weak_hashes frozen_machine (registering register_next)).0
    ≡ err (domain_error read_only "user" "schema registration is disabled")
frozen_refused = computed.8

pub user_applied : apply weak_hashes.digest new_state user_envelope ≡ ok user_state
user_applied = computed.9

pub user_replay : replay weak_hashes.digest new_state (user_envelope ∷ []) ≡ ok user_state
unfolding replay
user_replay = rw (user_applied, replay) refl

pub user_replayed : replay weak_hashes.digest user_state [] ≡ ok user_state
unfolding replay
user_replayed = refl

pub user_identity_keys : DistinctKeys user_state.identity_to_id
unfolding get
user_identity_keys = (refl, tt)

pub user_subject_keys : DistinctKeys user_state.subjects
unfolding get
user_subject_keys = (refl, tt)
