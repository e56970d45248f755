-- ===== src/Domain/Execute/Durable.antt =====
-- Durability: a machine over a committer that keeps a log is always the replay of that log, and a
-- follower that applies the log catches up with it.
use riquet.Domain.Errors.{Outcome, Outcome-cases, err, ok}
use riquet.Domain.Execute.{Command, execute, execute_cases, run}
use riquet.Domain.Machine.{Committer, Hashes, Machine, commit_apply}
use riquet.Domain.Machine.Cases.{commit_apply_cases}
use riquet.Domain.Snapshot.{State}
use riquet.Domain.State.{apply}
use riquet.Domain.Transition.{Digest, Envelope}
use riquet.Domain.Types.{Result}
use riquet.Prelude.{
  Bool, List, [], ap, arith, false, inl, inr, number_eq, string_eq, sym, true, ◌++◌, ◌∙◌, ◌∷◌, ◌≡◌,
  ◌⊎◌,
}

-- The durable transitions, oldest first; replaying them fails at the first that does not apply.
unfoldable pub replay : Digest → State → List Envelope → Outcome State
replay digest s [] = ok s
replay digest s (e ∷ rest) = elim (apply digest s e) [
  | err x ↦ err x
  | ok next ↦ replay digest next rest
]

pub replay-append :
    (digest : Digest) (s : State) (log : List Envelope) (e : Envelope) {t : State}
    → replay digest s log ≡ ok t
    → replay digest s (log ++ (e ∷ [])) ≡ apply digest t e
unfolding replay
replay-append digest s [] e h = ground arith
replay-append digest s (x ∷ log) e {t} h = elim (Outcome-cases (apply digest s x)) [
  | inl (next, applied) ↦
      rw (applied, replay) (replay-append digest next log e (ground (arith, applied)))
  | inr (bad, failed) ↦ absurd (ground (arith, failed))
]

-- A committer that appends what it commits, and keeps its log where it does not.
abbrev pub IsLog : Committer (List Envelope) → Type 0
IsLog commit =
    (e : Envelope) (log : List Envelope)
    → commit e log ≡ (true, log ++ (e ∷ [])) ⊎ commit e log ≡ (false, log)

-- The published state is the replay of the log from `start`.
pub record IsReplay (hashes : Hashes) (start : State) (m : Machine (List Envelope)) : Type 0 where
  pub appends : IsLog m.commit
  pub replays : replay hashes.digest start m.log ≡ ok m.state

-- What a log holds after a commit that succeeded, and after one that failed.
IsLog-committed :
    (commit : Committer (List Envelope)) (e : Envelope) (log log' : List Envelope)
    → IsLog commit
    → commit e log ≡ (true, log')
    → log' ≡ log ++ (e ∷ [])
IsLog-committed commit e log log' appends h = elim (appends e log) [
  | inl added ↦ ap (λ (r : Bool × List Envelope). r.1) (sym h ∙ added)
  | inr kept ↦ absurd (cc)
]

IsLog-failed :
    (commit : Committer (List Envelope)) (e : Envelope) (log log' : List Envelope)
    → IsLog commit
    → commit e log ≡ (false, log')
    → log' ≡ log
IsLog-failed commit e log log' appends h = elim (appends e log) [
  | inl added ↦ absurd (cc)
  | inr kept ↦ ap (λ (r : Bool × List Envelope). r.1) (sym h ∙ kept)
]

commit_apply-IsReplay :
    (hashes : Hashes) (start : State) (m : Machine (List Envelope))
    → IsReplay hashes start m
    → (e : Envelope) (result : Result) → IsReplay hashes start (commit_apply hashes m e result).1
commit_apply-IsReplay hashes start m r e result =
    commit_apply_cases hashes m (λ o. IsReplay hashes start o.1) e result (λ _ _. r)
      (λ next log applied committed. record {
        appends = r.appends;
        replays =
            rw (IsLog-committed m.commit e m.log log r.appends committed)
              (replay-append hashes.digest start m.log e r.replays ∙ applied);
      })
      (λ log failed. record {
        appends = r.appends;
        replays = rw (IsLog-failed m.commit e m.log log r.appends failed) r.replays;
      })

-- Over a committer that appends the envelopes that it accepts and keeps its log otherwise: if the
-- log replays from `start` to the published state, then it still does after any commands, whether
-- they succeed, are refused, or fail to commit.
pub run-IsReplay :
    (hashes : Hashes) (start : State) (m : Machine (List Envelope)) (cs : List Command)
    → IsReplay hashes start m
    → IsReplay hashes start (run hashes m cs)
unfolding run
run-IsReplay hashes start m [] r = r
run-IsReplay hashes start m (c ∷ cs) r =
    run-IsReplay hashes start (execute hashes m c).1 cs
      (execute_cases hashes (IsReplay hashes start) m r (commit_apply-IsReplay hashes start m r) c)
