-- ===== src/Domain/Execute/Follower.antt =====
-- A follower's machine, fed with the durable log by ApplyCommitted.
use riquet.Domain.Errors.{Outcome, Outcome-cases, err, ok, ok_inj}
use riquet.Domain.Execute.Durable.{replay}
use riquet.Domain.Machine.{Hashes, Machine, apply_committed}
use riquet.Domain.Snapshot.{State}
use riquet.Domain.State.{apply, record_operation}
use riquet.Domain.State.Advance.{apply-advances}
use riquet.Domain.State.Steps.{apply-Applied}
use riquet.Domain.Transition.{Digest, Envelope}
use riquet.Prelude.{
  All, List, [], ap, arith, inl, inr, number_eq, refl, string_eq, sym, ◌++◌, ◌+◌, ◌<◌, ◌^◌, ◌∙◌,
  ◌∷◌, ◌≡◌, ◌≤◌,
}

-- Deliver envelopes in order, up to the first that is refused.
unfoldable pub follow :
    {L : Type 0} → Hashes → Machine L → List Envelope → Outcome (Unit {0}) × Machine L
follow hashes m [] = (ok tt, m)
follow hashes m (e ∷ rest) = elim (apply_committed hashes m e).0 [
  | err x ↦ (err x, (apply_committed hashes m e).1)
  | ok _ ↦ follow hashes (apply_committed hashes m e).1 rest
]

-- An applied envelope carries the sequence of the state that it gives, one more than before.
pub apply-sequence :
    (digest : Digest) (s t : State) (e : Envelope)
    → s.sequence < 2 ^ 64
    → apply digest s e ≡ ok t
    → (t.sequence ≡ s.sequence + 1) × (e.sequence ≡ t.sequence) × (t.sequence < 2 ^ 64)
unfolding record_operation
apply-sequence digest s t e range h =
    let a = apply-Applied digest s e h in
    let same = ap (λ (x : State). x.sequence) a.recorded in
    ((apply-advances digest s t e range h).0, sym same, ground (arith, same, a.in_sequence))

-- What a log has brought a state to is at least as far as each of its envelopes.
replay-sequence :
    (digest : Digest) (s t : State) (log : List Envelope)
    → s.sequence < 2 ^ 64
    → replay digest s log ≡ ok t
    → (s.sequence ≤ t.sequence) × (t.sequence < 2 ^ 64) × All (λ e. e.sequence ≤ t.sequence) log
unfolding replay
replay-sequence digest s t [] range h =
    let same = ap (λ (x : State). x.sequence) (ok_inj h) in (omega arith, omega arith, tt)
replay-sequence digest s t (e ∷ log) range h = elim (Outcome-cases (apply digest s e)) [
  | inr (x, failed) ↦ absurd (ground (arith, failed))
  | inl (u, applied) ↦
      let (next, own, bound) = apply-sequence digest s u e range applied in
      let (grows, fits, below) = replay-sequence digest u t log bound (ground (arith, applied)) in
      (omega arith, fits, (omega arith, below))
]

module _ {L : Type 0} (hashes : Hashes) (m : Machine L) where
  -- Envelopes that the machine has already seen change nothing.
  follow_stale :
      (prior rest : List Envelope)
      → All (λ e. e.sequence ≤ m.state.sequence) prior
      → follow hashes m (prior ++ rest) ≡ follow hashes m rest
  unfolding follow apply_committed
  follow_stale [] rest h = refl
  follow_stale (e ∷ prior) rest h = ground (arith, h.0, follow_stale prior rest h.1)

follow_fresh :
    {L : Type 0} (hashes : Hashes) (m : Machine L) (t : State) (rest : List Envelope)
    → m.state.sequence < 2 ^ 64
    → replay hashes.digest m.state rest ≡ ok t
    → follow hashes m rest ≡ (ok tt, record m { state = t })
unfolding follow apply_committed replay
follow_fresh hashes m t [] range h = λ i. (ok tt, record m { state = ok_inj h i })
follow_fresh hashes m t (e ∷ rest) range h = elim (Outcome-cases (apply hashes.digest m.state e)) [
  | inr (x, failed) ↦ absurd (ground (arith, failed))
  | inl (u, applied) ↦
      let (next, own, bound) = apply-sequence hashes.digest m.state u e range applied in
      ground (
        arith,
        applied,
        next,
        own,
        follow_fresh hashes (record m { state = u }) t rest bound (ground (arith, applied)),
      )
]

-- A follower that has applied a prefix of the log from a state with a uint64 sequence, and is sent
-- the whole log again, ends without an error in the state that the log replays to: an envelope that
-- is delivered twice is ignored.
pub follow_catches_up :
    {L : Type 0} (hashes : Hashes) (start : State) (m : Machine L) (prior rest : List Envelope)
    (t : State)
    → start.sequence < 2 ^ 64
    → replay hashes.digest start prior ≡ ok m.state
    → replay hashes.digest m.state rest ≡ ok t
    → follow hashes m (prior ++ rest) ≡ (ok tt, record m { state = t })
follow_catches_up hashes start m prior rest t range before after =
    let (grows, fits, below) = replay-sequence hashes.digest start m.state prior range before in
    follow_stale hashes m prior rest below ∙ follow_fresh hashes m t rest fits after
