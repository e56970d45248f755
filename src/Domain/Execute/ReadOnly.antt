-- ===== src/Domain/Execute/ReadOnly.antt =====
-- READONLY mode: a subject in it is neither registered in nor deleted from.
use riquet.Domain.Commands.{delete_subject, delete_version}
use riquet.Domain.Commands.Planned.{
  plan_delete_subject-IsSubjectDeletion, plan_delete_version-IsVersionDeletion,
}
use riquet.Domain.Errors.{Outcome, ok}
use riquet.Domain.Execute.{
  Command, deleting_compatibility, deleting_mode, deleting_subject, deleting_version, execute,
  registering, setting_compatibility, setting_mode,
}
use riquet.Domain.Machine.{Hashes, Machine, Plan, carry_out, commits}
use riquet.Domain.Machine.Cases.{carry_out_cases}
use riquet.Domain.Queries.{effective_mode}
use riquet.Domain.Register.{register}
use riquet.Domain.Register.Planned.{plan_register-IsPlanned}
use riquet.Domain.Transition.{Envelope}
use riquet.Domain.Types.{Result, mode_read_only}
use riquet.Prelude.{
  Option, String, arith, eq_refl, false, none, number_eq, refl, some, string_eq, ◌==◌, ◌≡◌,
}

-- The subject whose schemas a command registers or deletes.
abbrev pub writes_to : Command → Option String
writes_to (registering c) = some c.subject
writes_to (deleting_version c) = some c.subject
writes_to (deleting_subject c) = some c.subject
writes_to (setting_compatibility operation_id scope level) = none
writes_to (deleting_compatibility operation_id subject) = none
writes_to (setting_mode operation_id scope mode) = none
writes_to (deleting_mode operation_id subject) = none

module _ {L : Type 0} (hashes : Hashes) (m : Machine L) where
  -- A command without an envelope to commit leaves the machine as it is.
  carry_out-same :
      (operation_id : String) (plan : Outcome Plan)
      → ((e : Envelope) (result : Result) → plan ≡ ok (commits e result) → ⊥)
      → (carry_out hashes m operation_id plan).1 ≡ m
  carry_out-same operation_id plan never =
      carry_out_cases hashes m (λ o. o.1 ≡ m) operation_id plan (λ _ _. refl) (λ _ _. refl)
        (λ _ _. refl) (λ e result _ planned. absurd (never e result planned))

  writable-not_read_only :
      (owner subject : String)
      → some owner ≡ some subject
      → effective_mode m.state subject ≡ mode_read_only
      → (effective_mode m.state owner == mode_read_only) ≡ false
      → ⊥
  writable-not_read_only owner subject to mode writable =
      let same : owner ≡ subject = cc in
      let mode' : effective_mode m.state owner ≡ mode_read_only = rw same mode in
      ground (arith, mode', writable, eq_refl (effective_mode m.state owner))

  -- A registration in a subject whose effective mode is READONLY, or a deletion from it, leaves the
  -- machine as it is.
  pub execute_read_only :
      (c : Command) (subject : String)
      → writes_to c ≡ some subject
      → effective_mode m.state subject ≡ mode_read_only
      → (execute hashes m c).1 ≡ m
  unfolding execute register delete_version delete_subject
  execute_read_only (registering c) subject to mode =
      carry_out-same c.operation_id _ (λ e result planned.
        writable-not_read_only c.subject subject to mode
          (plan_register-IsPlanned hashes m c planned).writable)
  execute_read_only (deleting_version c) subject to mode =
      carry_out-same c.operation_id _ (λ e result planned.
        writable-not_read_only c.subject subject to mode
          (plan_delete_version-IsVersionDeletion hashes m.state c planned).writable)
  execute_read_only (deleting_subject c) subject to mode =
      carry_out-same c.operation_id _ (λ e result planned.
        writable-not_read_only c.subject subject to mode
          (plan_delete_subject-IsSubjectDeletion hashes m.state c planned).writable)
  execute_read_only (setting_compatibility operation_id scope level) subject to mode = absurd (cc)
  execute_read_only (deleting_compatibility operation_id other) subject to mode = absurd (cc)
  execute_read_only (setting_mode operation_id scope new) subject to mode = absurd (cc)
  execute_read_only (deleting_mode operation_id other) subject to mode = absurd (cc)
