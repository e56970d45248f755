-- ===== src/Backup.antt =====
-- internal/backup/logical.go: the portable snapshot of a registry. The checksum is the hexadecimal
-- SHA-256 of the snapshot's JSON; the hash is an argument, `snapshot_digest`. What json.Decoder reads
-- from a source is an envelope, or nothing.
pub mod RoundTrip
pub mod Tests
use riquet.Domain.Errors.{err, ok}
use riquet.Domain.Snapshot.{Snapshot, State, new_state, restore}
use riquet.Domain.Transition.{Digest, Envelope}
use riquet.Domain.Types.{Sequence}
use riquet.Prelude.{
  Option, String, if◌then◌else◌, none, not, number_eq, some, string_eq, ℕ, ◌==◌, ◌||◌,
}
use riquet.Storage.{Answer, done, failed, message, refused}
use riquet.Storage.Bolt.Persisted.{apply_to}

abbrev pub SnapshotDigest : Type 0
SnapshotDigest = Snapshot → String

-- Times are int64 nanoseconds; zero is time.Time{}.
pub record Archive : Type 0 where
  pub archive_version : ℕ
  pub created_at : ℕ
  pub source : String
  pub snapshot : Snapshot
  pub snapshot_checksum : String

-- FormatVersion
abbrev pub backup_version : ℕ
backup_version = 1

-- Export: what is encoded to the destination.
unfoldable pub export : SnapshotDigest → State → String → ℕ → Archive
export snapshot_digest state source now = record {
  archive_version = backup_version;
  created_at = now;
  source = if source == "" then "riquet" else source;
  snapshot = state;
  snapshot_checksum = snapshot_digest state;
}

-- The operations of storage.Store and storage.SnapshotRestorer that backups use. `T` is a store.
pub record StoreOperations (T : Type 0) : Type 1 where
  pub load : T → Answer (Option Snapshot) × T
  pub replay_from : {S : Type 0} → T → Sequence → (Envelope → S → Answer S) → S → Answer S × T
  pub restore_to : Option (T → Snapshot → Answer (Unit {0}) × T)

-- The state that a stored snapshot starts from.
unfoldable pub starting_state : Answer (Option Snapshot) → Answer State
starting_state (failed x) = failed x
starting_state (done none) = done new_state
starting_state (done (some snapshot)) = elim (restore snapshot) [
  | err x ↦ failed (refused x)
  | ok state ↦ done state
]

-- Capture
unfoldable pub capture :
    {T : Type 0} → StoreOperations T → Digest → SnapshotDigest → T → String → ℕ → Answer Archive × T
unfolding starting_state export
capture operations digest snapshot_digest store source now =
    let (loaded, store') = operations.load store in
    elim (starting_state loaded) [
      | failed x ↦ (failed x, store')
      | done state ↦
          let (replayed', left) =
            operations.replay_from store' state.sequence (apply_to digest) state in
          elim replayed' [
            | failed x ↦ (failed x, left)
            | done final ↦ (done (export snapshot_digest final source now), left)
          ]
    ]

-- Decode
unfoldable pub decode : SnapshotDigest → Option Archive → Answer Archive
decode snapshot_digest none = failed (message "decode logical backup: %w")
decode snapshot_digest (some a) =
    if not (a.archive_version == backup_version) || a.created_at == 0 || a.source == ""
    then failed (message "logical backup metadata is invalid")
    else elim (restore a.snapshot) [
      | err x ↦ failed (refused x)
      | ok _ ↦
          if a.snapshot_checksum == snapshot_digest a.snapshot
          then done a
          else failed (message "logical backup checksum mismatch")
    ]

-- Restore
unfoldable pub restore_archive :
    {T : Type 0} → StoreOperations T → SnapshotDigest → T → Archive → Answer (Unit {0}) × T
restore_archive operations snapshot_digest target a =
    if not (a.archive_version == backup_version)
      || not (a.snapshot_checksum == snapshot_digest a.snapshot)
    then (failed (message "logical backup is invalid"), target)
    else elim operations.restore_to [
      | none ↦ (failed (message "storage backend does not support logical restore"), target)
      | some restore_to ↦ restore_to target a.snapshot
    ]
