-- ===== src/Storage/Kafka/Committed.antt =====
-- What Commit of internal/storage/kafka/store.go acknowledges.
use mathlib.Core.Path.{subst}
use riquet.Domain.Errors.{Outcome-cases}
use riquet.Domain.Transition.{Envelope, validate_envelope}
use riquet.Domain.Types.{Sequence}
use riquet.Map.{get}
use riquet.Prelude.{
  Bool-cases, List, Option, Option-cases, [], ap, arith, eq_iff, false, inl, inr, none, number_eq,
  some, string_eq, true, ◌∷◌, ◌≡◌, ◌≢◌,
}
use riquet.Storage.{Answer, Failure, done, failed}
use riquet.Storage.Bolt.{can_encode}
use riquet.Storage.Kafka.Compaction.{Answer-cases}
use riquet.Storage.Kafka.Kept.{Holds, consume_loop-Keeps}
use riquet.Storage.Kafka.Store.{
  Encoding, Options, TopicStore, check_leadership, check_sequence, commit_transition, consume,
  consume_loop, observed, settle, wait_for_transition, wait_until,
}
use riquet.Storage.Kafka.Topic.{Poll, Value, same_value}

module _ (encoding : Encoding) where
  observed-Holds :
      (k : Sequence) (v : Value) (s : TopicStore)
      → observed k v s ≡ some (done tt)
      → Holds s.view.items k v.raw
  unfolding observed
  observed-Holds k v s h = elim (Option-cases (get s.view.items k)) [
    | inl absent ↦ absurd (ground (arith, absent))
    | inr (u, there) ↦ (u, there, ground (arith, eq_iff u.raw v.raw, there))
  ]

  wait_for_transition-Holds :
      (k : Sequence) (v : Value) (polls : List Poll) (s : TopicStore)
      → (wait_for_transition encoding k v polls s).0 ≡ done tt
      → Holds (wait_for_transition encoding k v polls s).1.view.items k v.raw
  unfolding wait_until
  wait_for_transition-Holds k v [] s h = elim (Option-cases (observed k v s)) [
    | inl waits ↦ absurd (ground (arith, waits))
    | inr (a, seen) ↦ observed-Holds k v s (ground (arith, seen))
  ]
  wait_for_transition-Holds k v (p ∷ rest) s h =
      let next = (consume encoding p s).1 in
      elim (Option-cases (observed k v s)) [
        | inr (a, seen) ↦ rw (wait_until, seen) (observed-Holds k v s (ground (arith, seen)))
        | inl waits ↦ elim (Bool-cases (consume encoding p s).0) [
          | inl on' ↦
              rw (wait_until, waits, on')
                (wait_for_transition-Holds k v rest next (ground (arith, waits, on')))
          | inr stops ↦
              rw (wait_until, waits, stops)
                (elim (Option-cases (observed k v next)) [
                  | inl silent ↦ absurd (ground (arith, waits, stops, silent))
                  | inr (a, seen) ↦ observed-Holds k v next (ground (arith, waits, stops, seen))
                ])
        ]
      ]

  check_sequence-Holds :
      (k : Sequence) (v : Value) (s : TopicStore)
      → v.raw ≢ ""
      → check_sequence s k v ≡ done true
      → Holds s.view.items k v.raw
  unfolding check_sequence
  check_sequence-Holds k v s nonempty h = elim (Bool-cases (same_value (get s.view.items k) v)) [
    | inr other ↦ absurd (ground (arith, other))
    | inl same ↦ elim (Option-cases (get s.view.items k)) [
      | inl absent ↦ absurd (nonempty (ground (arith, eq_iff v.raw "", absent, same)))
      | inr (u, there) ↦ (u, there, ground (arith, eq_iff u.raw v.raw, there, same))
    ]
  ]

  settle-done :
      (reported : Option Failure) (waited : Answer (Unit {0}) × TopicStore) (s' : TopicStore)
      → settle reported waited ≡ (done tt, s')
      → waited ≡ (done tt, s')
  unfolding settle
  settle-done reported (done u, s) s' h = h
  settle-done none (failed x, s) s' h = absurd (cc)
  settle-done (some x) (failed y, s) s' h = absurd (cc)

  commit_transition-Holds :
      (options : Options) (reported : Option Failure) (polls : List Poll) (s s' : TopicStore)
      (e : Envelope)
      → (encoding.marshal_envelope e).raw ≢ ""
      → commit_transition options encoding reported polls s e ≡ (done tt, s')
      → Holds s'.view.items e.sequence (encoding.marshal_envelope e).raw
  unfolding commit_transition
  commit_transition-Holds options reported polls s s' e nonempty h =
      let v = encoding.marshal_envelope e in
      elim (Outcome-cases (validate_envelope encoding.digest e)) [
        | inr (x, broken) ↦ absurd (ground (arith, broken))
        | inl (u, intact) ↦ elim (Bool-cases (can_encode e.payload)) [
          | inr opaque ↦ absurd (ground (arith, intact, opaque))
          | inl fits ↦ elim (Answer-cases (check_leadership options s)) [
            | inr (x, other) ↦ absurd (ground (arith, intact, fits, other))
            | inl (lead, leads) ↦ elim (Answer-cases (check_sequence s e.sequence v)) [
              | inr (x, clash) ↦ absurd (ground (arith, intact, fits, leads, clash))
              | inl (true, there) ↦
                  let same : s ≡ s' = ground (arith, intact, fits, leads, there) in
                  subst (λ (t : TopicStore). Holds t.view.items e.sequence v.raw) same
                    (check_sequence-Holds e.sequence v s nonempty there)
              | inl (false, new) ↦
                  let waited : wait_for_transition encoding e.sequence v polls s ≡ (done tt, s') =
                    settle-done reported _ s' (ground (arith, intact, fits, leads, new)) in
                  subst
                    (λ (o : Answer (Unit {0}) × TopicStore). Holds o.1.view.items e.sequence v.raw)
                    waited
                    (wait_for_transition-Holds e.sequence v polls s
                      (ap (λ (o : Answer (Unit {0}) × TopicStore). o.0) waited))
            ]
          ]
        ]
      ]

  -- A transition that Commit acknowledged, whether the transaction was reported as committed or
  -- not, is held under its sequence with the bytes that were committed, and so it is after whatever
  -- the consumer polls later. The encoding of the envelope is not empty.
  pub commit_transition-kept :
      (options : Options) (reported : Option Failure) (polls polled : List Poll) (s s' : TopicStore)
      (e : Envelope)
      → (encoding.marshal_envelope e).raw ≢ ""
      → commit_transition options encoding reported polls s e ≡ (done tt, s')
      → Holds
          (consume_loop encoding polled s').view.items
          e.sequence
          (encoding.marshal_envelope e).raw
  commit_transition-kept options reported polls polled s s' e nonempty h =
      consume_loop-Keeps encoding polled s' e.sequence (encoding.marshal_envelope e).raw
        (commit_transition-Holds options reported polls s s' e nonempty h)
