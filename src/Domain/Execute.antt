-- ===== src/Domain/Execute.antt =====
-- The command methods of internal/domain/machine.go behind one type, and sequences of them.
pub mod Durable
pub mod Follower
pub mod Retry
pub mod History
pub mod ReadOnly
pub mod Settings
pub mod Failure
pub mod Deletion
use riquet.Domain.Commands.{
  delete_compatibility, delete_mode, delete_subject, delete_version, set_compatibility, set_mode,
  simple_mutation,
}
use riquet.Domain.Errors.{Error, Outcome, err, ok, ◌>>=◌}
use riquet.Domain.Json.{Json}
use riquet.Domain.Machine.{Hashes, Machine, Plan, carry_out, commit_apply}
use riquet.Domain.Machine.Cases.{carry_out_cases}
use riquet.Domain.Register.{register}
use riquet.Domain.Transition.{Envelope, TransitionKind}
use riquet.Domain.Types.{
  CompatibilityLevel, DeleteSubjectCommand, DeleteVersionCommand, Mode, RegisterCommand, Result,
  Scope, no_result,
}
use riquet.Prelude.{Bool, List, String, [], false, if◌then◌else◌, number_eq, string_eq, true, ◌∷◌}

pub data Command : Type 0 where
  registering : RegisterCommand → Command
  deleting_version : DeleteVersionCommand → Command
  deleting_subject : DeleteSubjectCommand → Command
  setting_compatibility : String → Scope → CompatibilityLevel → Command
  deleting_compatibility : String → String → Command
  setting_mode : String → Scope → Mode → Command
  deleting_mode : String → String → Command

-- The operation ID that a command carries.
abbrev pub operation_of : Command → String
operation_of (registering c) = c.operation_id
operation_of (deleting_version c) = c.operation_id
operation_of (deleting_subject c) = c.operation_id
operation_of (setting_compatibility operation_id scope level) = operation_id
operation_of (deleting_compatibility operation_id subject) = operation_id
operation_of (setting_mode operation_id scope mode) = operation_id
operation_of (deleting_mode operation_id subject) = operation_id

-- The settings methods return an error only; here they return Result{} beside it.
abbrev pub plain : {L : Type 0} → Outcome (Unit {0}) × Machine L → Outcome Result × Machine L
plain o = (o.0 >>= λ _. ok no_result, o.1)

module _ {L : Type 0} (hashes : Hashes) where
  -- The method that a command calls.
  unfoldable pub execute : Machine L → Command → Outcome Result × Machine L
  execute m (registering c) = register hashes m c
  execute m (deleting_version c) = delete_version hashes m c
  execute m (deleting_subject c) = delete_subject hashes m c
  execute m (setting_compatibility operation_id scope level) =
      plain (set_compatibility hashes m operation_id scope level)
  execute m (deleting_compatibility operation_id subject) =
      plain (delete_compatibility hashes m operation_id subject)
  execute m (setting_mode operation_id scope mode) =
      plain (set_mode hashes m operation_id scope mode)
  execute m (deleting_mode operation_id subject) = plain (delete_mode hashes m operation_id subject)

  -- The machine after commands, whether they succeeded or not.
  unfoldable pub run : Machine L → List Command → Machine L
  run m [] = m
  run m (c ∷ rest) = run (execute m c).1 rest

  -- A command changes the machine by at most one commit_apply.
  module _ {ℓ} (Q : Machine L → Type ℓ) (m : Machine L) (same : Q m)
      (committing : (e : Envelope) (result : Result) → Q (commit_apply hashes m e result).1) where
    carry_out-keeps :
        (operation_id : String) (plan : Outcome Plan) → Q (carry_out hashes m operation_id plan).1
    carry_out-keeps operation_id plan =
        carry_out_cases hashes m (λ r. Q r.1) operation_id plan (λ _ _. same) (λ _ _. same)
          (λ _ _. same) (λ e result _ _. committing e result)

    simple-keeps :
        (bad : Bool) (x : Error) (operation_id : String) (kind : TransitionKind) (payload : Json)
        → Q (if bad then (err x, m) else simple_mutation hashes m operation_id kind payload).1
    unfolding simple_mutation
    simple-keeps true x operation_id kind payload = same
    simple-keeps false x operation_id kind payload = carry_out-keeps operation_id _

    pub execute_cases : (c : Command) → Q (execute m c).1
    unfolding execute register delete_version delete_subject set_compatibility delete_compatibility
        set_mode delete_mode
    execute_cases (registering c) = carry_out-keeps c.operation_id _
    execute_cases (deleting_version c) = carry_out-keeps c.operation_id _
    execute_cases (deleting_subject c) = carry_out-keeps c.operation_id _
    execute_cases (setting_compatibility operation_id scope level) =
        simple-keeps _ _ operation_id _ _
    execute_cases (deleting_compatibility operation_id subject) = simple-keeps _ _ operation_id _ _
    execute_cases (setting_mode operation_id scope mode) = simple-keeps _ _ operation_id _ _
    execute_cases (deleting_mode operation_id subject) = simple-keeps _ _ operation_id _ _
