-- ===== src/Storage/Kafka/Kept.antt =====
-- What the consumer never takes back, and what Commit therefore acknowledges for good.
use mathlib.Core.Path.{subst}
use riquet.Domain.Transition.{Digest}
use riquet.Domain.Types.{Sequence}
use riquet.Map.{Map, get, get-put, put}
use riquet.Prelude.{
  Bool-cases, List, Option, Option-cases, String, [], ap, arith, eq_iff, false, inl, inr,
  nat_eq_iff, none, not, number_eq, refl, some, string_eq, sym, ◌+◌, ◌==◌, ◌||◌, ◌∙◌, ◌∷◌, ◌≡◌,
}
use riquet.Storage.{
  Failure, backend, cancelled, closed_store, done, failed, message, not_primary, refused,
}
use riquet.Storage.Kafka.{state_format_version}
use riquet.Storage.Kafka.Compaction.{
  Answer-cases, apply_primary-done, apply_snapshot-done, apply_transition-done,
}
use riquet.Storage.Kafka.Compaction.Loop.{records-control, records-done, records-failed}
use riquet.Storage.Kafka.Consumed.{advance-frame}
use riquet.Storage.Kafka.Followed.{apply_fetch-frame}
use riquet.Storage.Kafka.Layout.{
  parse_transition_key, primary_record_key, restore_record_key, snapshot_record_key,
}
use riquet.Storage.Kafka.Store.{
  Encoding, TopicStore, consume, consume_loop, record_error, record_fatal_error,
}
use riquet.Storage.Kafka.Topic.{
  Fetch, KafkaRecord, Poll, Sha256, Value, View, advance, apply_checkpoint, apply_fetch,
  apply_primary, apply_record, apply_records, apply_snapshot, apply_transition, checkpoint_of,
  conflicts, fetched, no_announcement, poll_error, raw_of,
}

-- A record either leaves the entries as they are or sets one that does not conflict.
pub data Sets (before after : Map Sequence Value) : Type 0 where
  sets_nothing : after ≡ before → Sets before after
  sets_one :
      (k : Sequence) (v : Value)
      → conflicts (get before k) v ≡ false
      → after ≡ put before k v
      → Sets before after

apply_primary-items :
    (value : Option Value) (w w' : View) → apply_primary value w ≡ done w' → w'.items ≡ w.items
unfolding apply_primary
apply_primary-items none w w' h =
    let made : record w { primary = no_announcement } ≡ w' = cc in
    ap (λ (a : View). a.items) (sym made)
apply_primary-items (some v) w w' h =
    let (q, made, above, again) = apply_primary-done v w w' h in ap (λ (a : View). a.items) made

apply_checkpoint-items :
    (sha256 : Sha256) (value : Option Value) (w w' : View)
    → apply_checkpoint sha256 value w ≡ done w'
    → w'.items ≡ w.items
unfolding apply_checkpoint
apply_checkpoint-items sha256 value w w' h = elim (Option-cases (checkpoint_of value)) [
  | inl bad ↦ absurd (ground (arith, bad))
  | inr (c, good) ↦
      elim (Bool-cases (
        not (c.format_version == state_format_version)
        || c.sequence == 0
        || not (c.checksum == sha256 (raw_of w.snapshot)))) [
          | inl unfit ↦ absurd (ground (arith, good, unfit))
          | inr fine ↦
              let made : record w { base = c.sequence } ≡ w' = ground (arith, good, fine) in
              ap (λ (a : View). a.items) (sym made)
        ]
]

apply_record-Sets :
    (digest : Digest) (sha256 : Sha256) (r : KafkaRecord) (w w' : View)
    → apply_record digest sha256 r w ≡ done w'
    → Sets w.items w'.items
unfolding apply_record
apply_record-Sets digest sha256 r w w' h = elim (Option-cases (parse_transition_key r.key)) [
  | inr (k, parsed) ↦
      let acts : apply_record digest sha256 r w ≡ apply_transition digest k r.value w =
        rw (parsed, apply_record) refl in
      let (v, valued, free, made, again) =
        apply_transition-done digest k r.value w w' (sym acts ∙ h) in
      sets_one k v free (ap (λ (a : View). a.items) made)
  | inl unparsed ↦ elim (Bool-cases (r.key == snapshot_record_key)) [
    | inl yes' ↦
        let acts : apply_record digest sha256 r w ≡ apply_snapshot r.value w =
          rw (unparsed, apply_record, yes') refl in
        let (s, made, again) = apply_snapshot-done r.value w w' (sym acts ∙ h) in
        sets_nothing (ap (λ (a : View). a.items) made)
    | inr no_snapshot ↦ elim (Bool-cases (r.key == primary_record_key)) [
      | inl yes' ↦
          let acts : apply_record digest sha256 r w ≡ apply_primary r.value w =
            rw (unparsed, apply_record, no_snapshot, yes') refl in
          sets_nothing (apply_primary-items r.value w w' (sym acts ∙ h))
      | inr no_primary ↦ elim (Bool-cases (r.key == restore_record_key)) [
        | inl yes' ↦
            let acts : apply_record digest sha256 r w ≡ apply_checkpoint sha256 r.value w =
              rw (unparsed, apply_record, no_snapshot, no_primary, yes') refl in
            sets_nothing (apply_checkpoint-items sha256 r.value w w' (sym acts ∙ h))
        | inr unknown ↦ absurd (
            let bad : apply_record digest sha256 r w
                ≡ failed (message "unsupported Kafka state record key %q") =
              rw (unparsed, apply_record, no_snapshot, no_primary, unknown) refl in
            cc)
      ]
    ]
  ]
]

-- The bytes that a store holds under a sequence.
abbrev pub Holds : Map Sequence Value → Sequence → String → Type 0
Holds items k raw = (u : Value) × (get items k ≡ some u) × (u.raw ≡ raw)

abbrev pub Keeps : Map Sequence Value → Map Sequence Value → Type 0
Keeps before after = (k : Sequence) (raw : String) → Holds before k raw → Holds after k raw

Sets-Keeps : (before after : Map Sequence Value) → Sets before after → Keeps before after
Sets-Keeps before after (sets_nothing same) k raw (u, there, is) =
    (u, ap (λ m. get m k) same ∙ there, is)
Sets-Keeps before after (sets_one j v free same) k raw (u, there, is) =
    let now = ap (λ m. get m k) same ∙ get-put before j v k in
    elim (Bool-cases (j == k)) [
      | inr other ↦ (u, now ∙ ground (arith, other, there), is)
      | inl own ↦
          let at : get before j ≡ some u = ground (arith, nat_eq_iff j k, own, there) in
          (v, now ∙ ground (arith, own), ground (arith, eq_iff u.raw v.raw, free, at, is))
    ]

error-view :
    (x : Failure) (s : TopicStore)
    → ((record_error x s).view ≡ s.view) × ((record_fatal_error x s).view ≡ s.view)
unfolding record_error record_fatal_error
error-view (refused e) s = (refl, refl)
error-view cancelled s = (refl, refl)
error-view closed_store s = (refl, refl)
error-view backend s = (refl, refl)
error-view not_primary s = (refl, refl)
error-view (message t) s = (refl, refl)

module _ (encoding : Encoding) where
  apply_records-Keeps :
      (log : List KafkaRecord) (w : View)
      → Keeps w.items (apply_records encoding.digest encoding.sha256 log w).1.items
  unfolding apply_records
  apply_records-Keeps [] w k raw h = h
  apply_records-Keeps (r ∷ rest) w k raw h =
      let n = r.offset + 1 in
      elim (Bool-cases r.is_control) [
        | inl control ↦
            subst (λ (o : Option Failure × View). Holds o.1.items k raw)
              (sym (records-control encoding.digest encoding.sha256 r rest w control))
              (apply_records-Keeps rest (advance n w) k raw
                (subst (λ m. Holds m k raw) (sym (advance-frame n w).0) h))
        | inr counted ↦ elim (Answer-cases (apply_record encoding.digest encoding.sha256 r w)) [
          | inr (x, bad) ↦
              subst (λ (o : Option Failure × View). Holds o.1.items k raw)
                (sym (records-failed encoding.digest encoding.sha256 r rest w x counted bad)) h
          | inl (w', good) ↦
              subst (λ (o : Option Failure × View). Holds o.1.items k raw)
                (sym (records-done encoding.digest encoding.sha256 r rest w w' counted good))
                (apply_records-Keeps rest (advance n w') k raw (
                  subst (λ m. Holds m k raw) (sym (advance-frame n w').0)
                    (Sets-Keeps w.items w'.items
                      (apply_record-Sets encoding.digest encoding.sha256 r w w' good) k raw h)))
        ]
      ]

  consume-items :
      (f : Fetch) (s : TopicStore)
      → (consume encoding (fetched f) s).1.view.items
        ≡ (apply_fetch encoding.digest encoding.sha256 f s.view).1.items
  unfolding consume
  consume-items f s =
      let left = (apply_fetch encoding.digest encoding.sha256 f s.view).1 in
      elim (Option-cases (apply_fetch encoding.digest encoding.sha256 f s.view).0) [
        | inl fine ↦ rw (consume, fine) refl
        | inr (x, bad) ↦
            rw (consume, bad)
              (ap (λ (w : View). w.items) (error-view x (record s { view = left })).1)
      ]

  pub consume-Keeps :
      (p : Poll) (s : TopicStore) → Keeps s.view.items (consume encoding p s).1.view.items
  unfolding consume
  consume-Keeps (poll_error x) s k raw h =
      subst (λ m. Holds m k raw) (ap (λ (w : View). w.items) (sym (error-view x s).0)) h
  consume-Keeps (fetched f) s k raw h =
      let (started, items, base, failure, items', base') =
        apply_fetch-frame encoding.digest encoding.sha256 f s.view in
      let kept =
        subst (λ m. Holds m k raw) (sym items')
          (apply_records-Keeps f.records started k raw
            (subst (λ m. Holds m k raw) (sym items) h)) in
      subst (λ m. Holds m k raw) (sym (consume-items f s)) kept

  pub consume_loop-Keeps :
      (polls : List Poll) (s : TopicStore)
      → Keeps s.view.items (consume_loop encoding polls s).view.items
  unfolding consume_loop
  consume_loop-Keeps [] s k raw h = h
  consume_loop-Keeps (p ∷ rest) s k raw h =
      let next = (consume encoding p s).1 in
      let kept = consume-Keeps p s k raw h in
      elim (Bool-cases (consume encoding p s).0) [
        | inl on' ↦ rw (consume_loop, on') (consume_loop-Keeps rest next k raw kept)
        | inr stops ↦ rw (consume_loop, stops) kept
      ]
