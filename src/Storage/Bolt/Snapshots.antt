-- ===== src/Storage/Bolt/Snapshots.antt =====
-- The snapshots, Backup, Health and Close of internal/storage/bolt/store.go.
use riquet.Domain.Errors.{err, ok}
use riquet.Domain.Snapshot.{Snapshot, restore}
use riquet.Domain.Types.{Sequence}
use riquet.Prelude.{
  Bool, Option, false, if◌then◌else◌, is_empty, ltb, none, not, number_eq, some, string_eq, true,
  ◌&&◌, ◌==◌, ◌||◌,
}
use riquet.Storage.{
  Answer, Failure, Health, Surroundings, cancelled, closed_store, done, failed, message, refused,
}
use riquet.Storage.Bolt.{
  Database, Store, read_sequence, record_error, recorded, uint64_key, update, view,
}

-- The transaction of LoadSnapshot.
unfoldable pub read_snapshot : Database → Answer (Option Snapshot)
read_snapshot db = elim db.snapshot [
  | none ↦ done none
  | some none ↦ failed (message "decode snapshot: %w")
  | some (some decoded) ↦ elim (restore decoded) [
    | err x ↦ failed (refused x)
    | ok _ ↦ done (some decoded)
  ]
]

-- LoadSnapshot
unfoldable pub load_snapshot : Store → Surroundings → Answer (Option Snapshot) × Store
unfolding read_snapshot
load_snapshot s around =
    if around.is_cancelled
    then (failed cancelled, s)
    else (view s around read_snapshot, record_error (view s around read_snapshot) s)

-- The transactions of SaveSnapshot and RestoreSnapshot.
unfoldable pub write_snapshot : Snapshot → Database → Answer Database
write_snapshot snapshot db =
    if ltb (read_sequence db.last_sequence) snapshot.sequence
    then failed (message "snapshot sequence %d exceeds committed sequence %d")
    else done (record db { snapshot = some (some snapshot) })

abbrev is_absent : Option (Option Snapshot) → Bool
is_absent none = true
is_absent (some _) = false

unfoldable pub fill : Snapshot → Database → Answer Database
fill snapshot db =
    if not (read_sequence db.last_sequence == 0)
      || not (is_empty db.transitions)
      || not (is_absent db.snapshot)
    then failed (message "restore target is not empty")
    else done (record db {
      snapshot = some (some snapshot);
      last_sequence = some (uint64_key snapshot.sequence);
    })

-- What SaveSnapshot and RestoreSnapshot do around their transactions.
unfoldable pub store_snapshot :
    Store → Surroundings → Snapshot → (Database → Answer Database) → Answer (Unit {0}) × Store
store_snapshot s around snapshot f =
    if around.is_cancelled then (failed cancelled, s) else elim (restore snapshot) [
      | err x ↦ (failed (refused x), s)
      | ok _ ↦ recorded (update s around f)
    ]

unfoldable pub save_snapshot : Store → Surroundings → Snapshot → Answer (Unit {0}) × Store
unfolding store_snapshot write_snapshot
save_snapshot s around snapshot = store_snapshot s around snapshot (write_snapshot snapshot)

unfoldable pub restore_snapshot : Store → Surroundings → Snapshot → Answer (Unit {0}) × Store
unfolding store_snapshot fill
restore_snapshot s around snapshot = store_snapshot s around snapshot (fill snapshot)

-- Backup: the image of the database.
unfoldable pub backup : Store → Surroundings → Answer Database × Store
backup s around =
    let answer = view s around (λ db. if around.is_cancelled then failed cancelled else done db) in
    (answer, record_error answer s)

abbrev first_failure : Answer Sequence → Option Failure → Option Failure
first_failure (failed x) last = some x
first_failure (done n) last = last

abbrev read_last : Answer Sequence → Sequence
read_last (done n) = n
read_last (failed x) = 0

abbrev is_none {ℓ} : {A : Type ℓ} → Option A → Bool
is_none none = true
is_none (some _) = false

-- Health
unfoldable pub health : Store → Surroundings → Health
health s around =
    let answer = view s around (λ db.
      if around.is_cancelled then failed cancelled else done (read_sequence db.last_sequence)) in
    let failure = first_failure answer s.last_error in
    record {
      healthy = not s.is_closed && is_none failure;
      writable = not s.is_closed;
      last_sequence = read_last answer;
      detail = if s.is_closed then some closed_store else failure;
    }

-- Close
unfoldable pub close : Store → Store
close s = record s { is_closed = true }
