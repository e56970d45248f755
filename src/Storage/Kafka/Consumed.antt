-- ===== src/Storage/Kafka/Consumed.antt =====
-- The records of transitions, one after the other, as the consumer takes them in.
use mathlib.Core.Path.{subst}
use riquet.Domain.Errors.{Outcome-cases, ok}
use riquet.Domain.Execute.Durable.{replay}
use riquet.Domain.Execute.Follower.{apply-sequence}
use riquet.Domain.Snapshot.{State}
use riquet.Domain.State.{apply}
use riquet.Domain.State.Steps.{apply-Applied}
use riquet.Domain.Transition.{Digest, Envelope, validate_envelope}
use riquet.Domain.Types.{Sequence}
use riquet.Map.{Map, get, get-put, get-put_self, put, same_refl}
use riquet.Prelude.{
  All, Bool-cases, List, Option, [], ap, arith, false, if◌then◌else◌, inl, inr, length, ltb, none,
  number_eq, refl, some, string_eq, sym, ℕ, ◌+◌, ◌<◌, ◌==◌, ◌^◌, ◌∙◌, ◌∷◌, ◌≡◌, ◌≤◌,
}
use riquet.Storage.{Failure, done}
use riquet.Storage.Kafka.Compaction.Loop.{records-done}
use riquet.Storage.Kafka.Compaction.Restored.{record_at}
use riquet.Storage.Kafka.Keys.{parse_transition_key-transition_key}
use riquet.Storage.Kafka.Layout.{parse_transition_key, transition_key}
use riquet.Storage.Kafka.Store.{Encoding}
use riquet.Storage.Kafka.Topic.{
  KafkaRecord, Sha256, Value, View, advance, apply_record, apply_records, apply_transition,
  last_over, last_sequence,
}

-- Envelopes one after the other, each intact.
abbrev pub IsRun : Digest → ℕ → List Envelope → Type 0
IsRun digest first [] = Unit {0}
IsRun digest first (e ∷ rest) =
    (e.sequence ≡ first + 1) × (validate_envelope digest e ≡ ok tt) × IsRun digest (first + 1) rest

-- What replays is a run.
pub replay-IsRun :
    (digest : Digest) (s t : State) (log : List Envelope)
    → s.sequence + length log < 2 ^ 64
    → replay digest s log ≡ ok t
    → IsRun digest s.sequence log
unfolding replay
replay-IsRun digest s t [] range h = tt
replay-IsRun digest s t (e ∷ rest) range h = elim (Outcome-cases (apply digest s e)) [
  | inr (x, bad) ↦ absurd (ground (arith, bad))
  | inl (next, good) ↦
      let a = apply-Applied digest s e good in
      let step : e.sequence ≡ s.sequence + 1 = ground (arith, a.in_sequence) in
      let reached : next.sequence ≡ s.sequence + 1 =
        (apply-sequence digest s next e (omega (arith, range)) good).0 in
      (
        step,
        a.intact,
        subst (λ n. IsRun digest n rest) reached
            (replay-IsRun digest next t rest (omega (arith, reached)) (ground (arith, good))),
      )
]

-- The last sequence is at least every key.
pub last_over-le : (m : Map Sequence Value) (last : Sequence) → last ≤ last_over last m
unfolding last_over
last_over-le [] last = omega arith
last_over-le ((j, v) ∷ m) last = ground (arith, last_over-le m (if ltb last j then j else last))

pub get-above : (m : Map Sequence Value) (last k : Sequence) → last_over last m < k → get m k ≡ none
unfolding last_over get
get-above [] last k h = refl
get-above ((j, v) ∷ m) last k h = ground (
  arith,
  last_over-le m (if ltb last j then j else last),
  get-above m (if ltb last j then j else last) k,
)

pub last_over-put :
    (m : Map Sequence Value) (last k : Sequence) (v : Value)
    → last_over last m < k
    → last_over last (put m k v) ≡ k
unfolding last_over put
last_over-put [] last k v h = ground arith
last_over-put ((j, w) ∷ m) last k v h = ground (
  arith,
  last_over-le m (if ltb last j then j else last),
  last_over-put m (if ltb last j then j else last) k v,
)

apply_record-entry :
    (digest : Digest) (sha256 : Sha256) (r : KafkaRecord) (w : View) (k : Sequence)
    → parse_transition_key r.key ≡ some k
    → apply_record digest sha256 r w ≡ apply_transition digest k r.value w
unfolding apply_record
apply_record-entry digest sha256 r w k parsed = rw (parsed, apply_record) refl

apply_transition-new :
    (digest : Digest) (e : Envelope) (v : Value) (w : View)
    → v.as_envelope ≡ some e
    → validate_envelope digest e ≡ ok tt
    → get w.items e.sequence ≡ none
    → apply_transition digest e.sequence (some v) w
      ≡ done (record w { items = put w.items e.sequence v })
unfolding apply_transition
apply_transition-new digest e v w is intact absent =
    ground (arith, is, intact, absent, same_refl e.sequence)

pub advance-frame :
    (n : ℕ) (w : View) → ((advance n w).items ≡ w.items) × ((advance n w).base ≡ w.base)
advance-frame n w = elim (Bool-cases (ltb w.position n)) [
  | inl e ↦ rw e (refl, refl)
  | inr e ↦ rw e (refl, refl)
]

module _ (encoding : Encoding)
    (reads : (e : Envelope) → (encoding.marshal_envelope e).as_envelope ≡ some e) where
  -- The records of transitions that were committed, from an offset on.
  abbrev pub records_of : ℕ → List Envelope → List KafkaRecord
  records_of offset [] = []
  records_of offset (e ∷ rest) =
      record_at offset (transition_key e.sequence) (encoding.marshal_envelope e)
      ∷ records_of (offset + 1) rest

  pub apply_next :
      (w : View) (e : Envelope) (offset : ℕ)
      → last_sequence w < e.sequence
      → e.sequence < 2 ^ 64
      → validate_envelope encoding.digest e ≡ ok tt
      → apply_record encoding.digest encoding.sha256
          (record_at offset (transition_key e.sequence) (encoding.marshal_envelope e))
          w
        ≡ done (record w { items = put w.items e.sequence (encoding.marshal_envelope e) })
  apply_next w e offset above range intact =
      apply_record-entry encoding.digest encoding.sha256
        (record_at offset (transition_key e.sequence) (encoding.marshal_envelope e)) w e.sequence
        (parse_transition_key-transition_key e.sequence (omega (arith, above)) range)
      ∙ apply_transition-new encoding.digest e (encoding.marshal_envelope e) w (reads e) intact
          (get-above w.items w.base e.sequence above)

  -- What a view holds after the records of a run.
  pub record Consumed (first : ℕ) (w : View) (log : List Envelope) (o : Option Failure × View)
      : Type 0 where
    pub succeeds : o.0 ≡ none
    pub base_kept : o.1.base ≡ w.base
    pub reached : last_sequence o.1 ≡ first + length log
    pub older : (k : Sequence) → k ≤ first → get o.1.items k ≡ get w.items k
    pub holds : All (λ e. get o.1.items e.sequence ≡ some (encoding.marshal_envelope e)) log

  pub consume-run :
      (log : List Envelope) (offset first : ℕ) (w : View)
      → last_sequence w ≡ first
      → first + length log < 2 ^ 64
      → IsRun encoding.digest first log
      → Consumed first w log
          (apply_records encoding.digest encoding.sha256 (records_of offset log) w)
  consume-run [] offset first w at range line =
      unfold apply_records in
      (record {
        succeeds = refl;
        base_kept = refl;
        reached = omega (arith, at);
        older = λ k h. refl;
        holds = tt;
      })
  consume-run (e ∷ rest) offset first w at range line =
      let v = encoding.marshal_envelope e in
      let w' = record w { items = put w.items e.sequence v } in
      let n = offset + 1 in
      let new : last_sequence w < e.sequence = omega (arith, at, line.0) in
      let step =
        records-done encoding.digest encoding.sha256
          (record_at offset (transition_key e.sequence) v) (records_of n rest) w w' refl
          (apply_next w e offset new (omega (arith, range, line.0)) line.1) in
      let (items, base) = advance-frame n w' in
      let ih =
        consume-run rest n (first + 1) (advance n w')
          ((λ i. last_over (base i) (items i))
            ∙ (last_over-put w.items w.base e.sequence v new ∙ line.0))
          (omega (arith, range)) line.2 in
      let kept : (k : Sequence) → get (advance n w').items k ≡ get (put w.items e.sequence v) k =
        λ k. ap (λ m. get m k) items in
      let Whole = λ (o : Option Failure × View). Consumed first w (e ∷ rest) o in
      subst Whole (sym step) (record {
        succeeds = ih.succeeds;
        base_kept = ih.base_kept ∙ base;
        reached = omega (arith, ih.reached);
        older = λ k h.
            ih.older k (omega (arith, h))
            ∙ (kept k
                ∙ (get-put w.items e.sequence v k
                    ∙ (let other : (e.sequence == k) ≡ false = ground (arith, line.0, h) in
                        rw other refl)));
        holds = (
          ih.older e.sequence (omega (arith, line.0))
              ∙ (kept e.sequence ∙ get-put_self w.items e.sequence v),
          ih.holds,
        );
      })
