-- ===== src/Storage/Kafka/Replay.antt =====
-- Replay and Follow over the state topic: internal/storage/kafka/store.go, and the callback that
-- internal/app/app.go hands to Follow.
-- The items that Replay copies, for the rounds that are left.
use riquet.Domain.Errors.{err, ok}
use riquet.Domain.Machine.{Hashes, Machine, apply_committed}
use riquet.Domain.Snapshot.{State}
use riquet.Domain.State.{apply}
use riquet.Domain.Transition.{Digest, Envelope, validate_envelope}
use riquet.Domain.Types.{Sequence}
use riquet.Map.{Map, get}
use riquet.Prelude.{
  Bool, List, Option, [], false, if◌then◌else◌, leb, ltb, none, number_eq, some, string_eq, suc,
  true, zero, ℕ, ◌%◌, ◌+◌, ◌-◌, ◌^◌, ◌∷◌,
}
use riquet.Prelude.Words.{inc}
use riquet.Storage.{Answer, cancelled, closed_store, done, failed, message, refused}
use riquet.Storage.Kafka.Store.{Encoding, TopicStore, consume}
use riquet.Storage.Kafka.Topic.{Poll, Value, last_sequence}

unfoldable pub copied : Map Sequence Value → Sequence → ℕ → List (Option Value)
copied items sequence zero = []
copied items sequence (suc n) = get items sequence ∷ copied items (inc sequence) n

abbrev pub envelope_of : Option Value → Option Envelope
envelope_of none = none
envelope_of (some v) = v.as_envelope

-- The callback, with what it keeps.
abbrev pub Callback : Type 0 → Type 0
Callback S = Envelope → S → Answer (Unit {0}) × S

unfoldable pub replay_copied :
    {S : Type 0} → Digest → Bool → Callback S → List (Option Value) → S → Answer (Unit {0}) × S
replay_copied digest is_cancelled f [] s = (done tt, s)
replay_copied digest is_cancelled f (v ∷ rest) s =
    if is_cancelled then (failed cancelled, s) else elim (envelope_of v) [
      | none ↦ (failed (message "decode Kafka transition: %w"), s)
      | some e ↦ elim (validate_envelope digest e) [
        | err x ↦ (failed (refused x), s)
        | ok _ ↦
            let (answer, next) = f e s in
            elim answer [
              | failed x ↦ (failed x, next)
              | done _ ↦ replay_copied digest is_cancelled f rest next
            ]
      ]
    ]

-- Replay; none where make panics, as its capacity is negative as an int. The memory for a capacity
-- is there, and the last sequence is not the largest uint64.
unfoldable pub replay_topic :
    {S : Type 0}
    → Digest
    → Bool
    → TopicStore
    → Sequence
    → Callback S
    → S
    → Option (Answer (Unit {0}) × S)
unfolding copied replay_copied
replay_topic digest is_cancelled s after f start =
    let last = last_sequence s.view in
    if ltb after s.view.base
    then some (
      failed
          (message "replay sequence %d predates restored checkpoint %d; load the snapshot first"),
      start,
    )
    else if leb (2 ^ 63) ((last + 2 ^ 64 - after) % 2 ^ 64)
    then none
    else some (
        replay_copied digest is_cancelled f (copied s.view.items (inc after) (last + 1 - inc after))
          start)

-- The callback that Follow hands to Replay: it keeps the last sequence that was applied.
unfoldable pub following : {S : Type 0} → Callback S → Callback (Sequence × S)
following f e (last, state) =
    let (answer, next) = f e state in
    elim answer [ failed x ↦ (failed x, (last, next)) | done _ ↦ (done tt, (e.sequence, next)) ]

-- Follow: it replays what is new, and waits for what is polled until the context ends.
unfoldable pub follow_last :
    {S : Type 0}
    → Encoding
    → Callback S
    → TopicStore
    → Sequence
    → S
    → Option (Answer (Unit {0}) × Sequence × S)
unfolding replay_topic following
follow_last encoding f s after state =
    if s.is_closed
    then some (failed closed_store, after, state)
    else elim (replay_topic encoding.digest false s after (following f) (after, state)) [
      | none ↦ none
      | some (failed x, (last, next)) ↦ some (failed x, last, next)
      | some (done _, (last, next)) ↦ some (failed cancelled, last, next)
    ]

unfoldable pub follow_topic :
    {S : Type 0}
    → Encoding
    → Callback S
    → List Poll
    → TopicStore
    → Sequence
    → S
    → Option (Answer (Unit {0}) × Sequence × S)
unfolding follow_last consume
follow_topic encoding f [] s after state = follow_last encoding f s after state
follow_topic encoding f (p ∷ rest) s after state =
    if s.is_closed
    then some (failed closed_store, after, state)
    else elim (replay_topic encoding.digest false s after (following f) (after, state)) [
      | none ↦ none
      | some (failed x, (last, next)) ↦ some (failed x, last, next)
      | some (done _, (last, next)) ↦
          let (goes_on, seen) = consume encoding p s in
          elim goes_on [
            | true ↦ follow_topic encoding f rest seen last next
            | false ↦ follow_last encoding f seen last next
          ]
    ]

-- Machine.ApplyCommitted as the callback of Follow, as internal/app/app.go wires it.
unfoldable pub committing : {L : Type 0} → Hashes → Callback (Machine L)
committing hashes e m =
    let (outcome, next) = apply_committed hashes m e in
    (elim outcome [ ok _ ↦ done tt | err x ↦ failed (refused x) ], next)

-- The callback that recoverState of internal/app/app.go hands to Replay. A state that Apply refuses is
-- left aside.
unfoldable pub applying : Digest → Callback State
applying digest e s = elim (apply digest s e) [
  | ok next ↦ (done tt, next)
  | err x ↦ (failed (refused x), s)
]
