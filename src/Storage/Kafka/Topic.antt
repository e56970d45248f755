-- ===== src/Storage/Kafka/Topic.antt =====
-- The records of the state topic and what a replica keeps of them: internal/storage/kafka/store.go.
-- Kafka's client is an argument: the fetches that it delivers are lists of records.
use riquet.Domain.Errors.{err, ok}
use riquet.Domain.Snapshot.{Snapshot, restore}
use riquet.Domain.Transition.{Digest, Envelope, validate_envelope}
use riquet.Domain.Types.{Sequence}
use riquet.Map.{Map, get, put}
use riquet.Prelude.{
  Bool, List, Option, String, [], false, if◌then◌else◌, is_empty, leb, ltb, none, not, number_eq,
  some, string_eq, suc, zero, ℕ, ◌+◌, ◌-◌, ◌==◌, ◌||◌, ◌∷◌,
}
use riquet.Prelude.Words.{inc}
use riquet.Storage.{Answer, Failure, cancelled, done, failed, message, refused}
use riquet.Storage.Kafka.{PrimaryAnnouncement, state_format_version, validate_announcement}
use riquet.Storage.Kafka.Layout.{
  parse_transition_key, primary_record_key, restore_record_key, snapshot_record_key,
}

-- restoreCheckpoint
pub record RestoreCheckpoint : Type 0 where
  pub format_version : ℕ
  pub sequence : Sequence
  pub checksum : String

-- The bytes of a record's value, and what encoding/json reads from them into each type.
pub record Value : Type 0 where
  pub raw : String
  pub as_envelope : Option Envelope
  pub as_snapshot : Option Snapshot
  pub as_announcement : Option PrimaryAnnouncement
  pub as_checkpoint : Option RestoreCheckpoint

-- bytes.Equal
abbrev pub same_value : Option Value → Value → Bool
same_value none b = b.raw == ""
same_value (some a) b = a.raw == b.raw

-- kgo.Record
pub record KafkaRecord : Type 0 where
  pub offset : ℕ
  pub is_control : Bool
  pub key : String
  pub value : Option Value

-- The fields of Store that the consumer fills. Offsets do not reach 2 ^ 63.
pub record View : Type 0 where
  pub position : ℕ
  pub committed_end : ℕ
  pub items : Map Sequence Value
  pub snapshot : Option Value
  pub primary : PrimaryAnnouncement
  pub base : Sequence

abbrev pub no_announcement : PrimaryAnnouncement
no_announcement = record { announcement_version = 0; holder = ""; epoch = 0; address = "" }

abbrev pub empty_view : View
empty_view = record {
  position = 0;
  committed_end = 0;
  items = [];
  snapshot = none;
  primary = no_announcement;
  base = 0;
}

-- SHA-256 in hexadecimal, and snapshotChecksum.
abbrev pub Sha256 : Type 0
Sha256 = String → String

abbrev pub raw_of : Option Value → String
raw_of none = ""
raw_of (some v) = v.raw

-- lastSequenceLocked
unfoldable pub last_over : Sequence → Map Sequence Value → Sequence
last_over last [] = last
last_over last ((sequence, v) ∷ rest) =
    last_over (if ltb last sequence then sequence else last) rest

abbrev pub last_sequence : View → Sequence
last_sequence w = last_over w.base w.items

abbrev pub conflicts : Option Value → Value → Bool
conflicts none v = false
conflicts (some previous) v = not (previous.raw == v.raw)

-- applyRecordLocked, by the kind of key.
unfoldable pub apply_transition : Digest → Sequence → Option Value → View → Answer View
apply_transition digest sequence none w = failed (message "transition %d was compacted or deleted")
apply_transition digest sequence (some v) w = elim v.as_envelope [
  | none ↦ failed (message "decode transition %d: %w")
  | some e ↦
      if not (e.sequence == sequence)
      then failed (message "transition key sequence %d contains sequence %d")
      else elim (validate_envelope digest e) [
        | err x ↦ failed (refused x)
        | ok _ ↦
            if conflicts (get w.items sequence) v
            then failed (message "conflicting Kafka records for transition sequence %d")
            else done (record w { items = put w.items sequence v })
      ]
]

unfoldable pub apply_snapshot : Option Value → View → Answer View
apply_snapshot none w = done (record w { snapshot = none })
apply_snapshot (some v) w = elim v.as_snapshot [
  | none ↦ failed (message "decode Kafka snapshot: %w")
  | some snapshot ↦ elim (restore snapshot) [
    | err x ↦ failed (refused x)
    | ok _ ↦ done (record w { snapshot = some v })
  ]
]

unfoldable pub apply_primary : Option Value → View → Answer View
unfolding validate_announcement
apply_primary none w = done (record w { primary = no_announcement })
apply_primary (some v) w = elim v.as_announcement [
  | none ↦ failed (message "decode Kafka primary announcement: %w")
  | some primary ↦ elim (validate_announcement primary) [
    | failed x ↦ failed x
    | done _ ↦
        if ltb primary.epoch w.primary.epoch
        then failed (message "kafka primary epoch regressed from %d to %d")
        else done (record w { primary = primary })
  ]
]

abbrev pub checkpoint_of : Option Value → Option RestoreCheckpoint
checkpoint_of none = none
checkpoint_of (some v) = v.as_checkpoint

unfoldable pub apply_checkpoint : Sha256 → Option Value → View → Answer View
apply_checkpoint sha256 value w = elim (checkpoint_of value) [
  | none ↦ failed (message "decode Kafka restore checkpoint: %w")
  | some c ↦
      if not (c.format_version == state_format_version)
        || c.sequence == 0
        || not (c.checksum == sha256 (raw_of w.snapshot))
      then failed (message "invalid Kafka restore checkpoint")
      else done (record w { base = c.sequence })
]

unfoldable pub apply_record : Digest → Sha256 → KafkaRecord → View → Answer View
unfolding parse_transition_key apply_transition apply_snapshot apply_primary apply_checkpoint
apply_record digest sha256 r w = elim (parse_transition_key r.key) [
  | some sequence ↦ apply_transition digest sequence r.value w
  | none ↦
      if r.key == snapshot_record_key
      then apply_snapshot r.value w
      else if r.key == primary_record_key
      then apply_primary r.value w
      else if r.key == restore_record_key
      then apply_checkpoint sha256 r.value w
      else failed (message "unsupported Kafka state record key %q")
]

-- if record.Offset+1 > s.position { s.position = record.Offset + 1 }
abbrev pub advance : ℕ → View → View
advance position w = if ltb w.position position then record w { position = position } else w

-- The loop over a partition's records, with what is left after an error.
unfoldable pub apply_records : Digest → Sha256 → List KafkaRecord → View → Option Failure × View
apply_records digest sha256 [] w = (none, w)
apply_records digest sha256 (r ∷ rest) w =
    if r.is_control
    then apply_records digest sha256 rest (advance (r.offset + 1) w)
    else elim (apply_record digest sha256 r w) [
      | failed x ↦ (some x, w)
      | done next ↦ apply_records digest sha256 rest (advance (r.offset + 1) next)
    ]

-- One fetch of the state partition: its records, and the last stable offset.
pub record Fetch : Type 0 where
  pub last_stable : ℕ
  pub records : List KafkaRecord

-- applyFetches. An empty fetch can pass over aborted records.
unfoldable pub apply_fetch : Digest → Sha256 → Fetch → View → Option Failure × View
unfolding apply_records
apply_fetch digest sha256 f w =
    let ended =
      if ltb w.committed_end f.last_stable then record w { committed_end = f.last_stable } else w in
    let (failure, applied) = apply_records digest sha256 f.records ended in
    (failure, if is_empty f.records then advance f.last_stable applied else applied)

-- PollFetches: a fetch, or its first error.
pub data Poll : Type 0 where
  fetched : Fetch → Poll
  poll_error : Failure → Poll

-- consumeThrough, for what the client delivers until its context ends.
unfoldable pub consume_through : Digest → Sha256 → ℕ → List Poll → View → Option Failure × View
consume_through digest sha256 target [] w =
    if leb target w.position then (none, w) else (some cancelled, w)
consume_through digest sha256 target (poll_error x ∷ rest) w =
    if leb target w.position then (none, w) else (some x, w)
consume_through digest sha256 target (fetched f ∷ rest) w =
    if leb target w.position
    then (none, w)
    else (let (failure, left) = apply_fetch digest sha256 f w in
        elim failure [
          | some x ↦ (some x, left)
          | none ↦ consume_through digest sha256 target rest left
        ])

-- The loop of validateReplay, for the rounds that are left. An empty value reads as no envelope.
unfoldable pub check_items : Map Sequence Value → Sequence → ℕ → Answer (Unit {0})
check_items items sequence zero = done tt
check_items items sequence (suc n) =
    let rest = check_items items (inc sequence) n in
    if raw_of (get items sequence) == ""
    then failed (message "kafka transition sequence %d is missing")
    else rest

-- validateReplay
unfoldable pub validate_replay : View → Answer (Unit {0})
unfolding check_items last_over
validate_replay w = check_items w.items (inc w.base) (last_sequence w - w.base)
