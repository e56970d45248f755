-- ===== src/Domain/Execute/Failure.antt =====
-- Commands that fail.
use riquet.Domain.Commands.{
  delete_compatibility, delete_mode, delete_subject, delete_version, error_only, set_compatibility,
  set_mode, simple_mutation,
}
use riquet.Domain.Errors.{Error, Outcome, err, ok}
use riquet.Domain.Execute.{
  Command, deleting_compatibility, deleting_mode, deleting_subject, deleting_version, execute,
  plain, registering, setting_compatibility, setting_mode,
}
use riquet.Domain.Json.{Json}
use riquet.Domain.Machine.{Hashes, Machine, Plan, carry_out, commits}
use riquet.Domain.Machine.Cases.{carry_out_cases, commit_apply_cases}
use riquet.Domain.Register.{register}
use riquet.Domain.Transition.{TransitionKind, new_envelope}
use riquet.Domain.Types.{Result, no_result}
use riquet.Prelude.{Bool, String, false, if◌then◌else◌, number_eq, refl, string_eq, true, ◌≡◌}
use riquet.Prelude.Words.{inc}

module _ {L : Type 0} (hashes : Hashes) (m : Machine L) where
  abbrev Unchanged : {A : Type 0} → Outcome A × Machine L → Type 0
  Unchanged o = (x : Error) → o.0 ≡ err x → o.1.state ≡ m.state

  carry_out-Unchanged :
      (operation_id : String) (plan : Outcome Plan)
      → Unchanged (carry_out hashes m operation_id plan)
  carry_out-Unchanged operation_id plan =
      carry_out_cases hashes m Unchanged operation_id plan (λ _ _ _ _. refl) (λ _ _ _ _. refl)
        (λ _ _ _ _. refl)
        (λ e result _ _.
          commit_apply_cases hashes m Unchanged e result (λ _ _ _ _. refl)
            (λ next log applied committed x bad. absurd (cc)) (λ _ _ _ _. refl))

  plain-Unchanged : (o : Outcome (Unit {0}) × Machine L) → Unchanged o → Unchanged (plain o)
  plain-Unchanged (ok a, x) h y bad = absurd (cc)
  plain-Unchanged (err e, x) h y bad = h e refl

  simple-Unchanged :
      (refused : Bool) (x : Error) (operation_id : String) (kind : TransitionKind) (payload : Json)
      → Unchanged (
          plain
            (if refused then (err x, m) else simple_mutation hashes m operation_id kind payload))
  unfolding simple_mutation
  simple-Unchanged true x operation_id kind payload = λ y bad. refl
  simple-Unchanged false x operation_id kind payload =
      let plan : Outcome Plan = ok (
        commits
          (new_envelope hashes.digest (inc m.state.sequence) operation_id kind payload no_result)
          no_result) in
      let done = carry_out hashes m operation_id plan in
      plain-Unchanged (error_only done.0, done.1)
        (error-Unchanged done (carry_out-Unchanged operation_id plan))
    where
      error-Unchanged :
          (o : Outcome Result × Machine L) → Unchanged o → Unchanged (error_only o.0, o.1)
      error-Unchanged (ok a, left) h y bad = absurd (cc)
      error-Unchanged (err e, left) h y bad = h e refl

  -- A command that returns an error, because it is refused or because its commit fails, leaves the
  -- published state as it was.
  pub execute_error :
      (c : Command) (x : Error)
      → (execute hashes m c).0 ≡ err x
      → (execute hashes m c).1.state ≡ m.state
  unfolding execute register delete_version delete_subject set_compatibility delete_compatibility
      set_mode delete_mode
  execute_error (registering c) = carry_out-Unchanged c.operation_id _
  execute_error (deleting_version c) = carry_out-Unchanged c.operation_id _
  execute_error (deleting_subject c) = carry_out-Unchanged c.operation_id _
  execute_error (setting_compatibility operation_id scope level) =
      simple-Unchanged _ _ operation_id _ _
  execute_error (deleting_compatibility operation_id subject) =
      simple-Unchanged _ _ operation_id _ _
  execute_error (setting_mode operation_id scope mode) = simple-Unchanged _ _ operation_id _ _
  execute_error (deleting_mode operation_id subject) = simple-Unchanged _ _ operation_id _ _
