-- ===== src/Storage/Kafka/Replayed.antt =====
-- What Replay of internal/storage/kafka/store.go visits.
use mathlib.Core.Path.{subst}
use riquet.Domain.Errors.{Outcome-cases, ok, ok_inj}
use riquet.Domain.Execute.Durable.{replay}
use riquet.Domain.Execute.Follower.{apply-sequence}
use riquet.Domain.Machine.{Hashes, Machine, apply_committed}
use riquet.Domain.Snapshot.{State}
use riquet.Domain.State.{apply}
use riquet.Domain.Transition.{Digest, Envelope}
use riquet.Domain.Types.{Sequence}
use riquet.Map.{Map, get}
use riquet.Prelude.{
  All, List, [], ap, arith, false, inl, inr, leb, length, ltb, map, number_eq, refl, some,
  string_eq, sym, ℕ, ◌%◌, ◌+◌, ◌-◌, ◌<◌, ◌^◌, ◌∙◌, ◌∷◌, ◌≡◌, ◌≤◌,
}
use riquet.Prelude.Words.{inc}
use riquet.Storage.{done}
use riquet.Storage.Kafka.Consumed.{IsRun, last_over-le}
use riquet.Storage.Kafka.Replay.{
  Callback, committing, copied, following, replay_copied, replay_topic,
}
use riquet.Storage.Kafka.Store.{Encoding, TopicStore}
use riquet.Storage.Kafka.Topic.{Value, last_sequence}

abbrev pub hashes_of : Encoding → (List ℕ → List ℕ) → Hashes
hashes_of encoding md5 = record { digest = encoding.digest; md5 = md5 }

module _ (encoding : Encoding)
    (reads : (e : Envelope) → (encoding.marshal_envelope e).as_envelope ≡ some e) where
  pub copied-run :
      (log : List Envelope) (first : ℕ) (items : Map Sequence Value)
      → first + length log < 2 ^ 64
      → IsRun encoding.digest first log
      → All (λ e. get items e.sequence ≡ some (encoding.marshal_envelope e)) log
      → copied items (inc first) (length log) ≡ map (λ e. some (encoding.marshal_envelope e)) log
  unfolding copied
  copied-run [] first items range line holds = refl
  copied-run (e ∷ rest) first items range line holds =
      let next : inc first ≡ first + 1 = omega (arith, range) in
      let head : get items (inc first) ≡ some (encoding.marshal_envelope e) =
        ap (get items) (next ∙ sym line.0) ∙ holds.0 in
      let tail : copied items (inc (inc first)) (length rest)
          ≡ map (λ e. some (encoding.marshal_envelope e)) rest =
        ap (λ k. copied items (inc k) (length rest)) next
        ∙ copied-run rest (first + 1) items (omega (arith, range)) line.2 holds.1 in
      λ i. head i ∷ tail i

  module _ {L : Type 0} (md5 : List ℕ → List ℕ) where
    -- One transition, through Follow's callback and ApplyCommitted.
    pub following-next :
        (m : Machine L) (last : Sequence) (e : Envelope) (next : State)
        → m.state.sequence < e.sequence
        → apply encoding.digest m.state e ≡ ok next
        → following (committing (hashes_of encoding md5)) e (last, m)
          ≡ (done tt, (e.sequence, record m { state = next }))
    unfolding following committing apply_committed
    following-next m last e next new applied = ground (arith, new, applied)

    pub replay_copied-run :
        (log : List Envelope) (m : Machine L) (t : State)
        → m.state.sequence + length log < 2 ^ 64
        → IsRun encoding.digest m.state.sequence log
        → replay encoding.digest m.state log ≡ ok t
        → replay_copied encoding.digest false
            (following (committing (hashes_of encoding md5)))
            (map (λ e. some (encoding.marshal_envelope e)) log)
            (m.state.sequence, m)
          ≡ (done tt, (t.sequence, record m { state = t }))
    unfolding replay_copied replay
    replay_copied-run [] m t range line h =
        let same = ok_inj h in λ i. (done tt, ((same i).sequence, record m { state = same i }))
    replay_copied-run (e ∷ rest) m t range line h =
        elim (Outcome-cases (apply encoding.digest m.state e)) [
          | inr (x, bad) ↦ absurd (ground (arith, bad))
          | inl (next, good) ↦
              let moved = record m { state = next } in
              let ends =
                apply-sequence encoding.digest m.state next e (omega (arith, range)) good in
              let step =
                following-next m m.state.sequence e next (omega (arith, line.0)) good
                ∙ (λ i. (done tt, (ends.1 i, moved))) in
              let ih =
                replay_copied-run rest moved t (omega (arith, range, ends.0))
                  (subst (λ n. IsRun encoding.digest n rest) (sym ends.0) line.2)
                  (ground (arith, good)) in
              ground (arith, reads e, line.1, step, ih)
        ]

-- Replay where there is nothing new, and where the transitions of a run are.
pub replay_topic-nothing :
    {S : Type 0} (digest : Digest) (s : TopicStore) (f : Callback S) (x : S) (after : Sequence)
    → last_sequence s.view ≡ after
    → after + 1 < 2 ^ 64
    → replay_topic digest false s after f x ≡ some (done tt, x)
unfolding replay_topic replay_copied copied
replay_topic-nothing digest s f x after at range =
    let below : ltb after s.view.base ≡ false =
      ground (arith, last_over-le s.view.items s.view.base, at) in
    let room : leb (2 ^ 63) ((last_sequence s.view + 2 ^ 64 - after) % 2 ^ 64) ≡ false =
      ground (arith, at, range) in
    let no_rounds : last_sequence s.view + 1 - inc after ≡ 0 = omega (arith, at, range) in
    rw (replay_topic, below, room, no_rounds) refl

pub replay_topic-all :
    {S : Type 0} (digest : Digest) (s : TopicStore) (f : Callback S) (x : S) (after n : ℕ)
    → s.view.base ≤ after
    → last_sequence s.view ≡ after + n
    → n < 2 ^ 63
    → after + 1 < 2 ^ 64
    → replay_topic digest false s after f x
      ≡ some (replay_copied digest false f (copied s.view.items (inc after) n) x)
unfolding replay_topic
replay_topic-all digest s f x after n under at fits range =
    let below : ltb after s.view.base ≡ false = ground (arith, under) in
    let room : leb (2 ^ 63) ((last_sequence s.view + 2 ^ 64 - after) % 2 ^ 64) ≡ false =
      ground (arith, at, fits, range) in
    let some_rounds : last_sequence s.view + 1 - inc after ≡ n = omega (arith, at, range) in
    rw (replay_topic, below, room, some_rounds) refl
