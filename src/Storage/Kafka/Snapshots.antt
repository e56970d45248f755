-- ===== src/Storage/Kafka/Snapshots.antt =====
-- The snapshots, backups and reports of internal/storage/kafka/store.go, and Close.
use riquet.Domain.Errors.{err, ok}
use riquet.Domain.Snapshot.{Snapshot, restore}
use riquet.Domain.Types.{Sequence}
use riquet.Prelude.{
  Bool, List, Option, String, false, if◌then◌else◌, leb, ltb, map, none, not, number_eq, some, sort,
  string_eq, true, ℕ, ◌&&◌, ◌-◌, ◌==◌,
}
use riquet.Prelude.Words.{slt}
use riquet.Storage.{
  Answer, Failure, Health, cancelled, closed_store, done, failed, message, no_lease, refused,
  same_lease,
}
use riquet.Storage.Kafka.{state_format_version}
use riquet.Storage.Kafka.Store.{Encoding, Options, TopicStore, fail_with, record_error, wait_until}
use riquet.Storage.Kafka.Topic.{
  Poll, RestoreCheckpoint, Value, View, last_sequence, raw_of, same_value,
}

-- What waitForSnapshot and the wait of RestoreSnapshot see of the store.
abbrev pub saved : Value → TopicStore → Option (Answer (Unit {0}))
saved v s =
    if same_value s.view.snapshot v
    then some (done tt)
    else if s.is_closed
    then some (failed closed_store)
    else none

abbrev pub restored : Sequence → Value → TopicStore → Option (Answer (Unit {0}))
restored sequence v s =
    if s.view.base == sequence && same_value s.view.snapshot v then some (done tt) else none

-- SaveSnapshot, for what the producer reports of its transaction. A transaction that is reported as
-- failed is not waited for.
unfoldable pub save_snapshot :
    Encoding → Option Failure → List Poll → TopicStore → Snapshot → Answer (Unit {0}) × TopicStore
unfolding record_error wait_until
save_snapshot encoding reported polls s snapshot = elim (restore snapshot) [
  | err x ↦ (failed (refused x), s)
  | ok _ ↦
      if ltb (last_sequence s.view) snapshot.sequence
      then (failed (message "snapshot sequence %d exceeds committed sequence %d"), s)
      else elim reported [
        | some x ↦ fail_with x s
        | none ↦ wait_until (saved (encoding.marshal_snapshot snapshot)) encoding polls s
      ]
]

-- The records of RestoreSnapshot's transaction, without their offsets.
unfoldable pub checkpoint_for : Encoding → Snapshot → RestoreCheckpoint
checkpoint_for encoding snapshot = record {
  format_version = state_format_version;
  sequence = snapshot.sequence;
  checksum = encoding.sha256 (encoding.marshal_snapshot snapshot).raw;
}

abbrev pub is_empty_topic : TopicStore → Bool
is_empty_topic s = last_sequence s.view == 0 && raw_of s.view.snapshot == ""

-- RestoreSnapshot, which does not look at a closed store while it waits.
unfoldable pub restore_topic :
    Encoding → Option Failure → List Poll → TopicStore → Snapshot → Answer (Unit {0}) × TopicStore
unfolding wait_until
restore_topic encoding reported polls s snapshot = elim (restore snapshot) [
  | err x ↦ (failed (refused x), s)
  | ok _ ↦
      if not (is_empty_topic s)
      then (failed (message "restore target is not empty"), s)
      else elim reported [
        | some x ↦ (failed x, s)
        | none ↦
            wait_until (restored snapshot.sequence (encoding.marshal_snapshot snapshot)) encoding
              polls s
      ]
]

-- LoadSnapshot: a snapshot, or nil.
unfoldable pub load_snapshot_topic : Bool → TopicStore → Answer (Option Snapshot)
load_snapshot_topic is_cancelled s =
    if is_cancelled
    then failed cancelled
    else if raw_of s.view.snapshot == ""
    then done none
    else elim s.view.snapshot [
      | none ↦ done none
      | some v ↦ elim v.as_snapshot [
        | none ↦ failed (message "decode Kafka snapshot: %w")
        | some snapshot ↦ elim (restore snapshot) [
          | err x ↦ failed (refused x)
          | ok _ ↦ done (some snapshot)
        ]
      ]
    ]

-- logicalBackup
pub record LogicalBackup : Type 0 where
  pub format_version : ℕ
  pub topic : String
  pub snapshot : Option Value
  pub transitions : List Value

abbrev by_sequence : Sequence × Value → Sequence × Value → Bool
by_sequence a b = slt a.0 b.0

-- Backup, up to the writing.
unfoldable pub backup_topic : Bool → String → TopicStore → Answer LogicalBackup
backup_topic is_cancelled topic s =
    if is_cancelled
    then failed cancelled
    else done (record {
      format_version = state_format_version;
      topic = topic;
      snapshot = s.view.snapshot;
      transitions = map (λ item. item.1) (sort by_sequence s.view.items);
    })

-- s.end - s.position, at least zero.
abbrev pub lag : View → ℕ
lag w = w.committed_end - w.position

-- Health, for the committed end that Kafka answers with, or its error.
unfoldable pub probe : Answer ℕ → TopicStore → TopicStore
unfolding record_error
probe (failed x) s = record_error x s
probe (done end) s =
    let ended =
      if ltb s.view.committed_end end then record s.view { committed_end = end } else s.view in
    elim s.fatal_error [
      | some _ ↦ record s { view = ended }
      | none ↦ record s {
        view = ended;
        last_error = none;
        is_ready = if leb ended.committed_end ended.position then true else s.is_ready;
      }
    ]

abbrev is_none {ℓ} : {A : Type ℓ} → Option A → Bool
is_none none = true
is_none (some a) = false

unfoldable pub health_topic : Options → Bool → Answer ℕ → TopicStore → Health × TopicStore
unfolding probe
health_topic options is_cancelled answer s =
    let left = probe answer s in
    let healthy =
      not left.is_closed
      && left.is_ready
      && is_none left.last_error
      && not is_cancelled
      && leb (lag left.view) options.max_ready_lag in
    (
      record {
        healthy = healthy;
        writable = healthy;
        last_sequence = last_sequence left.view;
        detail =
            if left.is_closed
            then some closed_store
            else if is_cancelled
            then some cancelled
            else elim left.last_error [
              | some x ↦ some x
              | none ↦
                  if not left.is_ready
                  then some (message "replaying")
                  else if ltb options.max_ready_lag (lag left.view)
                  then some (message "Kafka replay lag %d exceeds ready limit %d")
                  else none
            ];
      },
      left,
    )

-- Status
pub record Status : Type 0 where
  pub ready : Bool
  pub role : String
  pub epoch : ℕ
  pub applied_position : ℕ
  pub committed_position : ℕ
  pub replay_lag : ℕ
  pub backend_healthy : Bool

unfoldable pub status : Options → TopicStore → Status
status options s =
    let backend_healthy = not s.is_closed && is_none s.last_error in
    record {
      ready = backend_healthy && s.is_ready && leb (lag s.view) options.max_ready_lag;
      role =
          if not s.is_ready
          then "replaying"
          else if not (same_lease s.lease no_lease)
              && s.view.primary.holder == s.lease.holder
              && s.view.primary.epoch == s.lease.epoch
          then "primary"
          else "follower";
      epoch = s.view.primary.epoch;
      applied_position = s.view.position;
      committed_position = s.view.committed_end;
      replay_lag = lag s.view;
      backend_healthy = backend_healthy;
    }

-- Close, without its clients.
unfoldable pub close_topic : TopicStore → TopicStore
close_topic s = if s.is_closed then s else record s { is_closed = true; is_ready = false }
