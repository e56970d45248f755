-- ===== src/Storage/Kafka/Store.antt =====
-- The store over the state topic: internal/storage/kafka/store.go. The transactional producer is
-- Kafka's: whether a transaction is reported as committed is an argument, and what the consumer
-- fetches while a call waits is another. One call sees a cancelled context from its start to its end.
use riquet.Domain.Errors.{err, ok}
use riquet.Domain.Queries.{or_default}
use riquet.Domain.Snapshot.{Snapshot}
use riquet.Domain.Transition.{Digest, Envelope, validate_envelope}
use riquet.Domain.Types.{Sequence}
use riquet.Map.{get}
use riquet.Prelude.{
  Bool, List, Option, [], false, if◌then◌else◌, leb, none, not, number_eq, some, string_eq, true, ℕ,
  ◌==◌, ◌||◌, ◌∷◌,
}
use riquet.Prelude.Words.{inc}
use riquet.Storage.{
  Answer, Failure, Lease, cancelled, closed_store, done, failed, message, no_lease, not_primary,
  refused,
}
use riquet.Storage.Bolt.{can_encode}
use riquet.Storage.Kafka.Topic.{
  Poll, RestoreCheckpoint, Sha256, Value, View, apply_fetch, consume_through, empty_view, fetched,
  last_sequence, poll_error, same_value, validate_replay,
}

-- Store, without its clients and locks.
pub record TopicStore : Type 0 where
  pub is_closed : Bool
  pub is_ready : Bool
  pub last_error : Option Failure
  pub fatal_error : Option Failure
  pub view : View
  pub lease : Lease

-- What the store calls of encoding/json and crypto/sha256.
pub record Encoding : Type 0 where
  pub digest : Digest
  pub sha256 : Sha256
  pub marshal_envelope : Envelope → Value
  pub marshal_snapshot : Snapshot → Value
  pub marshal_checkpoint : RestoreCheckpoint → Value

-- Options, of which these matter here.
pub record Options : Type 0 where
  pub require_leadership : Bool
  pub max_ready_lag : ℕ

-- recordError and recordFatalError
unfoldable pub record_error : Failure → TopicStore → TopicStore
record_error cancelled s = s
record_error x s = record s { last_error = some x; is_ready = false }

unfoldable pub record_fatal_error : Failure → TopicStore → TopicStore
record_fatal_error cancelled s = s
record_fatal_error x s = record s { fatal_error = some x; last_error = some x; is_ready = false }

-- One round of consumeLoop: whether the loop goes on, and the store.
unfoldable pub consume : Encoding → Poll → TopicStore → Bool × TopicStore
unfolding record_error record_fatal_error
consume encoding (poll_error x) s = (true, record_error x s)
consume encoding (fetched f) s =
    let (failure, left) = apply_fetch encoding.digest encoding.sha256 f s.view in
    elim failure [
      | some x ↦ (false, record_fatal_error x (record s { view = left }))
      | none ↦ (true, record s { view = left; last_error = none; is_ready = true })
    ]

-- consumeLoop, for what is polled.
unfoldable pub consume_loop : Encoding → List Poll → TopicStore → TopicStore
unfolding consume
consume_loop encoding [] s = s
consume_loop encoding (p ∷ rest) s =
    let (goes_on, next) = consume encoding p s in
    elim goes_on [ true ↦ consume_loop encoding rest next | false ↦ next ]

-- Open, after the clients are made: the committed end, and what is polled.
unfoldable pub open_topic : Encoding → Answer ℕ → List Poll → Answer TopicStore
unfolding consume_through validate_replay
open_topic encoding (failed x) polls = failed x
open_topic encoding (done target) polls =
    let (failure, left) =
      consume_through encoding.digest encoding.sha256 target polls
        (record empty_view { committed_end = target }) in
    elim failure [
      | some x ↦ failed x
      | none ↦ elim (validate_replay left) [
        | failed x ↦ failed x
        | done _ ↦ done (record {
          is_closed = false;
          is_ready = true;
          last_error = none;
          fatal_error = none;
          view = left;
          lease = no_lease;
        })
      ]
    ]

-- checkLeadership
unfoldable pub check_leadership : Options → TopicStore → Answer (Unit {0})
check_leadership options s =
    if not options.require_leadership
    then done tt
    else if s.lease.holder == ""
        || s.lease.epoch == 0
        || not (s.view.primary.holder == s.lease.holder)
        || not (s.view.primary.epoch == s.lease.epoch)
    then failed not_primary
    else done tt

-- checkSequence: whether the transition is there already.
unfoldable pub check_sequence : TopicStore → Sequence → Value → Answer Bool
check_sequence s sequence v =
    let last = last_sequence s.view in
    if s.is_closed
    then failed closed_store
    else if leb sequence last
    then (if same_value (get s.view.items sequence) v
        then done true
        else failed (message "sequence %d conflicts with an existing transition"))
    else if not (sequence == inc last)
    then failed (message "sequence %d does not follow_topic %d")
    else done false

-- What a wait sees of the store: its answer, or none to wait on.
unfoldable pub observed : Sequence → Value → TopicStore → Option (Answer (Unit {0}))
observed sequence v s = elim (get s.view.items sequence) [
  | some stored ↦ some (
      if stored.raw == v.raw
      then done tt
      else failed (message "sequence %d conflicts with observed Kafka transition"))
  | none ↦ if s.is_closed then some (failed closed_store) else none
]

-- A wait for an answer, while the consumer goes on with what is polled, until the consumer stops or
-- the context ends.
unfoldable pub wait_until :
    (TopicStore → Option (Answer (Unit {0})))
    → Encoding
    → List Poll
    → TopicStore
    → Answer (Unit {0}) × TopicStore
unfolding consume
wait_until seen encoding [] s = (or_default (failed cancelled) (seen s), s)
wait_until seen encoding (p ∷ rest) s = elim (seen s) [
  | some answer ↦ (answer, s)
  | none ↦
      let (goes_on, next) = consume encoding p s in
      elim goes_on [
        | true ↦ wait_until seen encoding rest next
        | false ↦ (or_default (failed cancelled) (seen next), next)
      ]
]

-- waitForTransition
abbrev pub wait_for_transition :
    Encoding → Sequence → Value → List Poll → TopicStore → Answer (Unit {0}) × TopicStore
wait_for_transition encoding sequence v = wait_until (observed sequence v) encoding

-- An error that a call records.
abbrev pub fail_with {ℓ} : {A : Type ℓ} → Failure → TopicStore → Answer A × TopicStore
fail_with x s = (failed x, record_error x s)

-- The end of Commit, from what the producer reports of the transaction and from the wait.
unfoldable pub settle :
    Option Failure → Answer (Unit {0}) × TopicStore → Answer (Unit {0}) × TopicStore
unfolding record_error
settle reported (done _, s) = (done tt, s)
settle none (failed x, s) = fail_with x s
settle (some x) (failed y, s) = fail_with x s

-- Commit
unfoldable pub commit_transition :
    Options
    → Encoding
    → Option Failure
    → List Poll
    → TopicStore
    → Envelope
    → Answer (Unit {0}) × TopicStore
unfolding check_leadership check_sequence observed wait_until settle
commit_transition options encoding reported polls s e = elim (validate_envelope encoding.digest e) [
  | err x ↦ (failed (refused x), s)
  | ok _ ↦
      if not (can_encode e.payload)
      then (failed (message "json: error calling MarshalJSON"), s)
      else elim (check_leadership options s) [
        | failed x ↦ (failed x, s)
        | done _ ↦ elim (check_sequence s e.sequence (encoding.marshal_envelope e)) [
          | failed x ↦ (failed x, s)
          | done true ↦ (done tt, s)
          | done false ↦
              settle reported
                (wait_for_transition encoding e.sequence (encoding.marshal_envelope e) polls s)
        ]
      ]
]
