-- ===== src/Storage/Kafka/Opened.antt =====
-- Open of internal/storage/kafka/store.go on the records of transitions.
use mathlib.Core.Path.{subst}
use riquet.Domain.Errors.{Outcome-cases, ok, ok_inj}
use riquet.Domain.Execute.Durable.{replay}
use riquet.Domain.Snapshot.{State}
use riquet.Domain.State.{apply}
use riquet.Domain.Transition.{Digest, Envelope}
use riquet.Domain.Types.{Sequence}
use riquet.Map.{Map, get, put}
use riquet.Prelude.{
  All, Bool-cases, List, Option, [], ap, arith, eq_iff, false, inl, inr, is_empty, leb, length, ltb,
  map, none, number_eq, refl, some, string_eq, sym, true, ℕ, ◌+◌, ◌<◌, ◌==◌, ◌^◌, ◌∙◌, ◌∷◌, ◌≡◌,
  ◌≢◌, ◌≤◌,
}
use riquet.Prelude.Words.{inc}
use riquet.Storage.{Failure, done, failed, no_lease}
use riquet.Storage.Kafka.Compaction.Loop.{records-done}
use riquet.Storage.Kafka.Compaction.Restored.{record_at}
use riquet.Storage.Kafka.Consumed.{IsRun, advance-frame, apply_next, last_over-put, records_of}
use riquet.Storage.Kafka.Layout.{transition_key}
use riquet.Storage.Kafka.Replay.{applying, replay_copied}
use riquet.Storage.Kafka.Store.{Encoding, TopicStore, open_topic}
use riquet.Storage.Kafka.Topic.{
  Fetch, Poll, Sha256, Value, View, advance, apply_fetch, apply_records, check_items,
  consume_through, empty_view, fetched, last_over, last_sequence, poll_error, validate_replay,
}

advance-position :
    (n : ℕ) (w : View) → (n ≤ (advance n w).position) × (w.position ≤ (advance n w).position)
advance-position n w = elim (Bool-cases (ltb w.position n)) [
  | inl e ↦ rw e (omega arith, ground (arith, e))
  | inr e ↦ rw e (ground (arith, e), omega arith)
]

pub apply_fetch-position :
    (digest : Digest) (sha256 : Sha256) (f : Fetch) (w : View)
    → w.committed_end ≡ f.last_stable
    → (apply_records digest sha256 f.records w).1.position
      ≤ (apply_fetch digest sha256 f w).1.position
unfolding apply_fetch
apply_fetch-position digest sha256 f w ended =
    let same : ltb w.committed_end f.last_stable ≡ false = ground (arith, ended) in
    elim (Bool-cases (is_empty f.records)) [
      | inl e ↦
          rw (apply_fetch, same, e)
            (advance-position f.last_stable (apply_records digest sha256 f.records w).1).1
      | inr e ↦ rw (apply_fetch, same, e) (omega arith)
    ]

pub consume_through-reached :
    (digest : Digest) (sha256 : Sha256) (target : ℕ) (polls : List Poll) (w : View)
    → leb target w.position ≡ true
    → consume_through digest sha256 target polls w ≡ (none, w)
unfolding consume_through
consume_through-reached digest sha256 target [] w there = rw there refl
consume_through-reached digest sha256 target (fetched f ∷ rest) w there =
    rw (consume_through, there) refl
consume_through-reached digest sha256 target (poll_error x ∷ rest) w there =
    rw (consume_through, there) refl

pub consume_through-fetched :
    (digest : Digest) (sha256 : Sha256) (target : ℕ) (f : Fetch) (polls : List Poll) (w : View)
    → leb target w.position ≡ false
    → (apply_fetch digest sha256 f w).0 ≡ none
    → leb target (apply_fetch digest sha256 f w).1.position ≡ true
    → consume_through digest sha256 target (fetched f ∷ polls) w
      ≡ (none, (apply_fetch digest sha256 f w).1)
unfolding consume_through
consume_through-fetched digest sha256 target f polls w short fine there =
    rw (consume_through, short, fine)
      (consume_through-reached digest sha256 target polls (apply_fetch digest sha256 f w).1 there)

abbrev pub opened_with : View → TopicStore
opened_with left = record {
  is_closed = false;
  is_ready = true;
  last_error = none;
  fatal_error = none;
  view = left;
  lease = no_lease;
}

pub open_topic-opened :
    (encoding : Encoding) (target : ℕ) (polls : List Poll) (left : View)
    → consume_through encoding.digest encoding.sha256 target polls
        (record empty_view { committed_end = target })
      ≡ (none, left)
    → validate_replay left ≡ done tt
    → open_topic encoding (done target) polls ≡ done (opened_with left)
unfolding open_topic
open_topic-opened encoding target polls left consumed valid =
    let fine = ap (λ (o : Option Failure × View). o.0) consumed in
    let same = ap (λ (o : Option Failure × View). o.1) consumed in
    let Opens = λ (w : View).
      (elim (validate_replay w) [ failed x ↦ failed x | done _ ↦ done (opened_with w) ])
      ≡ done (opened_with left) in
    rw (open_topic, fine) (subst Opens (sym same) (rw valid refl))

module _ (encoding : Encoding)
    (reads : (e : Envelope) → (encoding.marshal_envelope e).as_envelope ≡ some e)
    (written : (e : Envelope) → (encoding.marshal_envelope e).raw ≢ "") where
  pub records-position :
      (log : List Envelope) (offset first : ℕ) (w : View)
      → offset ≤ w.position
      → last_sequence w ≡ first
      → first + length log < 2 ^ 64
      → IsRun encoding.digest first log
      → offset + length log
        ≤ (apply_records encoding.digest encoding.sha256
            (records_of encoding reads offset log)
            w).1.position
  unfolding apply_records
  records-position [] offset first w behind at range line = omega (arith, behind)
  records-position (e ∷ rest) offset first w behind at range line =
      let v = encoding.marshal_envelope e in
      let w' = record w { items = put w.items e.sequence v } in
      let n = offset + 1 in
      let new : last_sequence w < e.sequence = omega (arith, at, line.0) in
      let step =
        records-done encoding.digest encoding.sha256
          (record_at offset (transition_key e.sequence) v) (records_of encoding reads n rest) w w'
          refl (apply_next encoding reads w e offset new (omega (arith, range, line.0)) line.1) in
      let (items, base) = advance-frame n w' in
      let ih =
        records-position rest n (first + 1) (advance n w') (advance-position n w').0
          ((λ i. last_over (base i) (items i))
            ∙ (last_over-put w.items w.base e.sequence v new ∙ line.0))
          (omega (arith, range)) line.2 in
      subst (λ (o : Option Failure × View). offset + length (e ∷ rest) ≤ o.1.position) (sym step)
        (omega (arith, ih))

  pub check_items-holds :
      (log : List Envelope) (first : ℕ) (items : Map Sequence Value)
      → first + length log < 2 ^ 64
      → IsRun encoding.digest first log
      → All (λ e. get items e.sequence ≡ some (encoding.marshal_envelope e)) log
      → check_items items (inc first) (length log) ≡ done tt
  unfolding check_items
  check_items-holds [] first items range line holds = refl
  check_items-holds (e ∷ rest) first items range line holds =
      let next : inc first ≡ first + 1 = omega (arith, range) in
      let there : get items (inc first) ≡ some (encoding.marshal_envelope e) =
        ap (get items) (next ∙ sym line.0) ∙ holds.0 in
      let tail : check_items items (inc (inc first)) (length rest) ≡ done tt =
        ap (λ k. check_items items (inc k) (length rest)) next
        ∙ check_items-holds rest (first + 1) items (omega (arith, range)) line.2 holds.1 in
      let nonempty : ((encoding.marshal_envelope e).raw == "") ≡ false =
        elim (Bool-cases ((encoding.marshal_envelope e).raw == "")) [
          | inl bare ↦ absurd (written e ((eq_iff _ _).0 bare))
          | inr full ↦ full
        ] in
      rw (check_items, there, nonempty) tail

  pub replay_copied-applying :
      (log : List Envelope) (first : ℕ) (s t : State)
      → IsRun encoding.digest first log
      → replay encoding.digest s log ≡ ok t
      → replay_copied encoding.digest false
          (applying encoding.digest)
          (map (λ e. some (encoding.marshal_envelope e)) log)
          s
        ≡ (done tt, t)
  unfolding replay_copied replay applying
  replay_copied-applying [] first s t line h = λ i. (done tt, ok_inj h i)
  replay_copied-applying (e ∷ rest) first s t line h =
      elim (Outcome-cases (apply encoding.digest s e)) [
        | inr (x, bad) ↦ absurd (ground (arith, bad))
        | inl (next, good) ↦
            let ih = replay_copied-applying rest (first + 1) next t line.2 (ground (arith, good)) in
            ground (arith, reads e, line.1, good, ih)
      ]
