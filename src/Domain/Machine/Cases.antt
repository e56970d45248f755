-- ===== src/Domain/Machine/Cases.antt =====
-- The ways in which a command method of Machine can end.
use mathlib.Core.Path.{subst}
use riquet.Domain.Errors.{Error, Outcome, Outcome-cases, err, ok, ok_inj}
use riquet.Domain.Machine.{
  Hashes, Machine, Plan, carry_out, commit_apply, commits, known, replayed, storage_failure,
}
use riquet.Domain.Snapshot.{State}
use riquet.Domain.State.{apply}
use riquet.Domain.Transition.{Envelope}
use riquet.Domain.Types.{Result}
use riquet.Prelude.{
  Bool-cases, Option-cases, String, ap, false, inl, inr, none, number_eq, refl, some, string_eq,
  sym, true, ◌≡◌,
}

module _ {ℓ} {L : Type 0} (hashes : Hashes) (m : Machine L)
    (P : Outcome Result × Machine L → Type ℓ) where
  -- The transition is refused; it is committed and published; the commit fails.
  pub commit_apply_cases :
      (e : Envelope) (result : Result)
      → ((x : Error) → apply hashes.digest m.state e ≡ err x → P (err x, m))
      → ((next : State) (log : L)
          → apply hashes.digest m.state e ≡ ok next
          → m.commit e m.log ≡ (true, log)
          → P (ok result, record m { state = next; log = log }))
      → ((log : L)
          → m.commit e m.log ≡ (false, log)
          → P (err storage_failure, record m { log = log }))
      → P (commit_apply hashes m e result)
  unfolding commit_apply
  commit_apply_cases e result refused done failed =
      elim (Outcome-cases (apply hashes.digest m.state e)) [
        | inr (x, bad) ↦ rw (bad, commit_apply) (refused x bad)
        | inl (next, good) ↦ elim (Bool-cases (m.commit e m.log).0) [
          | inl accepted ↦
              rw (good, commit_apply, accepted)
                (done next (m.commit e m.log).1 good (λ i. (accepted i, (m.commit e m.log).1)))
          | inr rejected ↦
              rw (good, commit_apply, rejected)
                (failed (m.commit e m.log).1 (λ i. (rejected i, (m.commit e m.log).1)))
        ]
      ]

  -- A command ends with the machine as it was, or as commit_apply leaves it.
  pub carry_out_cases :
      (operation_id : String) (plan : Outcome Plan)
      → ((result : Result) → replayed m.state operation_id ≡ some result → P (ok result, m))
      → ((x : Error) → plan ≡ err x → P (err x, m))
      → ((result : Result) → plan ≡ ok (known result) → P (ok result, m))
      → ((e : Envelope) (result : Result)
          → replayed m.state operation_id ≡ none
          → plan ≡ ok (commits e result)
          → P (commit_apply hashes m e result))
      → P (carry_out hashes m operation_id plan)
  unfolding carry_out
  carry_out_cases operation_id (err x) retried refused found new =
      elim (Option-cases (replayed m.state operation_id)) [
        | inr (result, seen) ↦ rw (seen, carry_out) (retried result seen)
        | inl fresh ↦ rw (fresh, carry_out) (refused x refl)
      ]
  carry_out_cases operation_id (ok (known r)) retried refused found new =
      elim (Option-cases (replayed m.state operation_id)) [
        | inr (result, seen) ↦ rw (seen, carry_out) (retried result seen)
        | inl fresh ↦ rw (fresh, carry_out) (found r refl)
      ]
  carry_out_cases operation_id (ok (commits e r)) retried refused found new =
      elim (Option-cases (replayed m.state operation_id)) [
        | inr (result, seen) ↦ rw (seen, carry_out) (retried result seen)
        | inl fresh ↦ rw (fresh, carry_out) (new e r fresh refl)
      ]

-- How a command that was not recorded before has succeeded.
pub data Done {L : Type 0} (hashes : Hashes) (m : Machine L) (plan : Outcome Plan) (r : Result)
    (m' : Machine L) : Type 0 where
  answered : plan ≡ ok (known r) → m' ≡ m → Done hashes m plan r m'
  committed :
      (e : Envelope) (next : State) (log : L)
      → plan ≡ ok (commits e r)
      → apply hashes.digest m.state e ≡ ok next
      → m' ≡ record m { state = next; log = log }
      → Done hashes m plan r m'

module _ {L : Type 0} (hashes : Hashes) (m m' : Machine L) (operation_id : String)
    (plan : Outcome Plan) (r : Result) where
  pub carry_out-Done :
      replayed m.state operation_id ≡ none
      → carry_out hashes m operation_id plan ≡ (ok r, m')
      → Done hashes m plan r m'
  carry_out-Done fresh =
      carry_out_cases hashes m Ends operation_id plan (λ q seen. absurd (cc))
        (λ x bad same. absurd (cc (answer same)))
        (λ q found same.
          answered (subst (λ (y : Result). plan ≡ ok (known y)) (ok_inj (answer same)) found)
            (sym (left same)))
        (λ e q _ planned.
          commit_apply_cases hashes m Ends e q (λ x bad same. absurd (cc (answer same)))
            (λ next log applied _ same.
              committed e next log
                (subst (λ (y : Result). plan ≡ ok (commits e y)) (ok_inj (answer same)) planned)
                applied (sym (left same)))
            (λ log failed same. absurd (cc (answer same))))
    where
      Ends : Outcome Result × Machine L → Type 0
      Ends o = o ≡ (ok r, m') → Done hashes m plan r m'

      answer : {o p : Outcome Result × Machine L} → o ≡ p → o.0 ≡ p.0
      answer = ap (λ (x : Outcome Result × Machine L). x.0)

      left : {o p : Outcome Result × Machine L} → o ≡ p → o.1 ≡ p.1
      left = ap (λ (x : Outcome Result × Machine L). x.1)
