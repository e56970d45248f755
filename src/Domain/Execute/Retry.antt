-- ===== src/Domain/Execute/Retry.antt =====
-- Retries of a command under its operation ID.
use mathlib.Core.Path.{subst}
use riquet.Domain.Commands.{
  delete_compatibility, delete_mode, delete_subject, delete_version, error_only,
  plan_delete_subject, plan_delete_version, set_compatibility, set_mode, simple_mutation,
}
use riquet.Domain.Commands.Planned.{
  plan_delete_subject-IsSubjectDeletion, plan_delete_version-IsVersionDeletion,
}
use riquet.Domain.Errors.{Error, Outcome, err, ok, ok_inj}
use riquet.Domain.Execute.{
  Command, deleting_compatibility, deleting_mode, deleting_subject, deleting_version, execute,
  operation_of, plain, registering, setting_compatibility, setting_mode,
}
use riquet.Domain.Json.{Json}
use riquet.Domain.Machine.{Hashes, Machine, Plan, carry_out, commit_apply, commits, replayed}
use riquet.Domain.Machine.Cases.{carry_out_cases, commit_apply_cases}
use riquet.Domain.Register.{plan_register, register}
use riquet.Domain.Register.Planned.{commits_inj, plan_register-IsPlanned}
use riquet.Domain.Snapshot.{State}
use riquet.Domain.State.{apply}
use riquet.Domain.State.Advance.{apply-advances}
use riquet.Domain.Transition.{Digest, Envelope, TransitionKind, new_envelope}
use riquet.Domain.Types.{Result, Sequence, no_result}
use riquet.Prelude.{
  Bool, String, ap, arith, eq_iff, eq_refl, false, if◌then◌else◌, inl, inr, none, number_eq, some,
  string_eq, sym, true, ◌<◌, ◌^◌, ◌∙◌, ◌≡◌, ◌≢◌, ◌⊎◌,
}
use riquet.Prelude.Words.{inc}

-- The operations that a state records, for every non-empty ID.
apply-replayed :
    (digest : Digest) (s t : State) (e : Envelope) (operation : String) (r : Result)
    → s.sequence < 2 ^ 64
    → apply digest s e ≡ ok t
    → e.operation_id ≢ operation
    → replayed s operation ≡ some r
    → replayed t operation ≡ some r
unfolding replayed
apply-replayed digest s t e operation r range h other seen = ground (
  arith,
  (apply-advances digest s t e range h).1 operation,
  eq_iff e.operation_id operation,
  other,
  seen,
)

-- An operation that is committed is recorded with its result.
commit-replayed :
    (digest : Digest) (s t : State) (e : Envelope)
    → s.sequence < 2 ^ 64
    → apply digest s e ≡ ok t
    → e.operation_id ≢ ""
    → replayed t e.operation_id ≡ some e.result
unfolding replayed
commit-replayed digest s t e range h named = ground (
  arith,
  (apply-advances digest s t e range h).1 e.operation_id,
  eq_iff e.operation_id "",
  eq_refl e.operation_id,
  named,
)

-- Every envelope of a plan carries the operation ID and the result.
abbrev Carries : String → Outcome Plan → Type 0
Carries operation_id plan =
    (e : Envelope) (q : Result)
    → plan ≡ ok (commits e q)
    → (e.operation_id ≡ operation_id) × (e.result ≡ q)

new_envelope-carries :
    (digest : Digest) (n : Sequence) {operation_id : String} (kind : TransitionKind)
    (payload : Json) {q : Result} {e : Envelope}
    → e ≡ new_envelope digest n operation_id kind payload q
    → (e.operation_id ≡ operation_id) × (e.result ≡ q)
unfolding new_envelope
new_envelope-carries _ _ _ _ same =
    (ap (λ (x : Envelope). x.operation_id) same, ap (λ (x : Envelope). x.result) same)

module _ {L : Type 0} (hashes : Hashes) where
  -- An operation that is recorded is answered from the record.
  carry_out-replayed :
      (m : Machine L) (operation_id : String) (plan : Outcome Plan) (r : Result)
      → replayed m.state operation_id ≡ some r
      → carry_out hashes m operation_id plan ≡ (ok r, m)
  unfolding carry_out
  carry_out-replayed m operation_id plan r seen = rw (seen, carry_out)

  -- A command that succeeded left the machine alone or recorded its result.
  carry_out_recorded :
      (m m' : Machine L) (operation_id : String) (plan : Outcome Plan) (r : Result)
      → operation_id ≢ ""
      → m.state.sequence < 2 ^ 64
      → Carries operation_id plan
      → carry_out hashes m operation_id plan ≡ (ok r, m')
      → (m' ≡ m) ⊎ (replayed m'.state operation_id ≡ some r)
  carry_out_recorded m m' operation_id plan r named range carries =
      carry_out_cases hashes m Ends operation_id plan (λ q seen. unmoved (ok q))
        (λ x bad. unmoved (err x)) (λ q found. unmoved (ok q)) committing
    where
      Ends : Outcome Result × Machine L → Type 0
      Ends o = o ≡ (ok r, m') → (m' ≡ m) ⊎ (replayed m'.state operation_id ≡ some r)

      unmoved : (o : Outcome Result) → Ends (o, m)
      unmoved o same = inl (sym (ap (λ (x : Outcome Result × Machine L). x.1) same))

      recorded :
          (e : Envelope) (q : Result)
          → plan ≡ ok (commits e q)
          → (next : State) (log : L) → apply hashes.digest m.state e ≡ ok next
          → m.commit e m.log ≡ (true, log)
          → Ends (ok q, record m { state = next; log = log })
      recorded e q planned next log applied committed same =
          let (own, result) = carries e q planned in
          let kept =
            commit-replayed hashes.digest m.state next e range applied
              (λ bad. named (sym own ∙ bad)) in
          let answer = ok_inj (ap (λ (x : Outcome Result × Machine L). x.0) same) in
          let here : replayed next operation_id ≡ some r = cc in
          inr (
            subst (λ (x : Machine L). replayed x.state operation_id ≡ some r)
              (ap (λ (x : Outcome Result × Machine L). x.1) same) here)

      committing :
          (e : Envelope) (q : Result)
          → replayed m.state operation_id ≡ none
          → plan ≡ ok (commits e q)
          → Ends (commit_apply hashes m e q)
      committing e q fresh planned =
          commit_apply_cases hashes m Ends e q (λ x bad. unmoved (err x)) (recorded e q planned)
            (λ log failed same. absurd (cc (ap (λ (x : Outcome Result × Machine L). x.0) same)))

  -- A plan's command, retried under its operation ID on the machine that it left.
  carry_out_retry :
      (m m' : Machine L) (operation_id : String) (plan : Machine L → Outcome Plan) (r : Result)
      → operation_id ≢ ""
      → m.state.sequence < 2 ^ 64
      → Carries operation_id (plan m)
      → carry_out hashes m operation_id (plan m) ≡ (ok r, m')
      → carry_out hashes m' operation_id (plan m') ≡ (ok r, m')
  carry_out_retry m m' operation_id plan r named range carries h =
      elim (carry_out_recorded m m' operation_id (plan m) r named range carries h) [
        | inl same ↦
            subst (λ (x : Machine L). carry_out hashes x operation_id (plan x) ≡ (ok r, m'))
              (sym same) h
        | inr seen ↦ carry_out-replayed m' operation_id (plan m') r seen
      ]

  abbrev setting_plan : Machine L → String → TransitionKind → Json → Outcome Plan
  setting_plan m operation_id kind payload = ok (
      commits
        (new_envelope hashes.digest (inc m.state.sequence) operation_id kind payload no_result)
        no_result)

  setting_plan-Carries :
      (m : Machine L) (operation_id : String) (kind : TransitionKind) (payload : Json)
      → Carries operation_id (setting_plan m operation_id kind payload)
  setting_plan-Carries m operation_id kind payload e q p =
      let (same_envelope, same_result) = commits_inj _ e no_result q p in
      let (own, result) = new_envelope-carries _ _ _ _ same_envelope in
      (own, result ∙ sym same_result)

  -- The answer of a settings method, and the outcome that it comes from.
  answered :
      {m' : Machine L} {r : Result} (o : Outcome Result × Machine L)
      → plain (error_only o.0, o.1) ≡ (ok r, m')
      → (q : Result) × (o ≡ (ok q, m')) × (no_result ≡ r)
  answered (ok q, x) h =
      (q, (λ i. (ok q, (h i).1)), ok_inj (ap (λ (y : Outcome Result × Machine L). y.0) h))
  answered (err e, x) h = absurd (cc (ap (λ (y : Outcome Result × Machine L). y.0) h))

  simple_retry :
      (m m' : Machine L) (bad : Bool) (x : Error) (operation_id : String) (kind : TransitionKind)
      (payload : Json) (r : Result)
      → operation_id ≢ ""
      → m.state.sequence < 2 ^ 64
      → plain (if bad then (err x, m) else simple_mutation hashes m operation_id kind payload)
        ≡ (ok r, m')
      → plain (if bad then (err x, m') else simple_mutation hashes m' operation_id kind payload)
        ≡ (ok r, m')
  unfolding simple_mutation
  simple_retry m m' true x operation_id kind payload r named range h =
      absurd (cc (ap (λ (y : Outcome Result × Machine L). y.0) h))
  simple_retry m m' false x operation_id kind payload r named range h =
      let plan = λ (y : Machine L). setting_plan y operation_id kind payload in
      let (q, first, same) = answered (carry_out hashes m operation_id (plan m)) h in
      let again =
        carry_out_retry m m' operation_id plan q named range
          (setting_plan-Carries m operation_id kind payload) first in
      ap (λ (o : Outcome Result × Machine L). plain (error_only o.0, o.1)) again
      ∙ (λ i. (ok (same i), m'))

  -- A command that succeeded, retried under its non-empty operation ID on the machine that it left,
  -- gives the same result and leaves the machine unchanged, so that nothing is committed twice. The
  -- sequence before it is a uint64.
  pub execute_retry :
      (m m' : Machine L) (c : Command) (r : Result)
      → operation_of c ≢ ""
      → m.state.sequence < 2 ^ 64
      → execute hashes m c ≡ (ok r, m')
      → execute hashes m' c ≡ (ok r, m')
  unfolding execute register delete_version delete_subject set_compatibility delete_compatibility
      set_mode delete_mode
  execute_retry m m' (registering c) r named range =
      carry_out_retry m m' c.operation_id (λ x. plan_register hashes x c) r named range
        (λ e q p. new_envelope-carries _ _ _ _ (plan_register-IsPlanned hashes m c p).envelope)
  execute_retry m m' (deleting_version c) r named range =
      carry_out_retry m m' c.operation_id (λ x. plan_delete_version hashes x.state c) r named range
        (λ e q p.
          new_envelope-carries _ _ _ _
            (plan_delete_version-IsVersionDeletion hashes m.state c p).envelope)
  execute_retry m m' (deleting_subject c) r named range =
      carry_out_retry m m' c.operation_id (λ x. plan_delete_subject hashes x.state c) r named range
        (λ e q p.
          new_envelope-carries _ _ _ _
            (plan_delete_subject-IsSubjectDeletion hashes m.state c p).envelope)
  execute_retry m m' (setting_compatibility operation_id scope level) r named range =
      simple_retry m m' _ _ operation_id _ _ r named range
  execute_retry m m' (deleting_compatibility operation_id subject) r named range =
      simple_retry m m' _ _ operation_id _ _ r named range
  execute_retry m m' (setting_mode operation_id scope mode) r named range =
      simple_retry m m' _ _ operation_id _ _ r named range
  execute_retry m m' (deleting_mode operation_id subject) r named range =
      simple_retry m m' _ _ operation_id _ _ r named range
