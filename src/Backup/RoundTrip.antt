-- ===== src/Backup/RoundTrip.antt =====
-- Backups of a bolt store: what Capture writes, and what it writes of a restored backup.
use riquet.Backup.{
  Archive, SnapshotDigest, StoreOperations, backup_version, capture, decode, export,
  restore_archive, starting_state,
}
use riquet.Domain.Errors.{ok}
use riquet.Domain.Execute.Durable.{replay}
use riquet.Domain.Machine.{Hashes, Machine}
use riquet.Domain.Snapshot.{Snapshot, State, new_state, restore}
use riquet.Domain.Transition.{Digest}
use riquet.Map.{same_refl}
use riquet.Prelude.{
  Bool-cases, Option, String, [], ap, arith, false, if◌then◌else◌, inl, inr, none, not, number_eq,
  refl, some, string_eq, ℕ, ◌<◌, ◌==◌, ◌^◌, ◌||◌, ◌≡◌,
}
use riquet.Prelude.Words.{inc}
use riquet.Storage.{Answer, Surroundings, done}
use riquet.Storage.Bolt.{Bucket, Store, record_error, replay_after, replay_entries, seek, view}
use riquet.Storage.Bolt.Persisted.{Backend, IsStored, apply_to, calm}
use riquet.Storage.Bolt.Recovery.{replay_after-IsStored}
use riquet.Storage.Bolt.Restored.{
  fresh_store, restore_snapshot-filled, restore_snapshot-load_snapshot,
}
use riquet.Storage.Bolt.Snapshots.{load_snapshot, read_snapshot, restore_snapshot}

-- The bolt store as the store of a backup.
abbrev pub bolt_operations : Digest → Surroundings → StoreOperations Store
bolt_operations digest around = record {
  load = λ s. load_snapshot s around;
  replay_from = λ s after f start. replay_after digest s around after f start;
  restore_to = some (λ s snapshot. restore_snapshot s around snapshot);
}

named_source : (source : String) → ((if source == "" then "riquet" else source) == "") ≡ false
named_source source = elim (Bool-cases (source == "")) [
  | inl unnamed ↦ rw unnamed refl
  | inr named ↦ rw named named
]

-- An exported state that Restore accepts is decoded as it was exported, at any time but the zero
-- time.
pub decode-export :
    (snapshot_digest : SnapshotDigest) (state : State) (source : String) (now : ℕ)
    → restore state ≡ ok state
    → (now == 0) ≡ false
    → decode snapshot_digest (some (export snapshot_digest state source now))
      ≡ done (export snapshot_digest state source now)
unfolding decode export
decode-export snapshot_digest state source now good late =
    ground (arith, named_source source, good, late, same_refl (snapshot_digest state))

-- Capture of a store from which a starting state is loaded and replayed.
capture-replayed :
    (digest : Digest) (snapshot_digest : SnapshotDigest) (opened : Store) (loaded : Option Snapshot)
    (s t : State) (source : String) (now : ℕ)
    → load_snapshot opened calm ≡ (done loaded, opened)
    → starting_state (done loaded) ≡ done s
    → replay_after digest opened calm s.sequence (apply_to digest) s ≡ (done t, opened)
    → capture (bolt_operations digest calm) digest snapshot_digest opened source now
      ≡ (done (export snapshot_digest t source now), opened)
unfolding capture
capture-replayed digest snapshot_digest opened loaded s t source now h g r = ground (arith, h, g, r)

-- Nothing is replayed where there are no transitions.
replay_after-bare :
    (digest : Digest) (s : Store) (after : ℕ) (start : State)
    → s.is_closed ≡ false
    → s.db.transitions ≡ []
    → replay_after digest s calm after (apply_to digest) start ≡ (done start, s)
unfolding replay_after view seek replay_entries record_error
replay_after-bare digest s after start is_open bare = ground (
  arith,
  is_open,
  ap
      (λ (b : Bucket).
        replay_entries digest calm (apply_to digest) (inc after) (seek (inc after) b) start)
      bare,
)

restored_by :
    (digest : Digest) (snapshot_digest : SnapshotDigest) (around : Surroundings) (a : Archive)
    (left : Store)
    → restore_archive (bolt_operations digest around) snapshot_digest fresh_store a
      ≡ (done tt, left)
    → restore_snapshot fresh_store around a.snapshot ≡ (done tt, left)
unfolding restore_archive
restored_by digest snapshot_digest around a left h =
    elim (Bool-cases (
      not (a.archive_version == backup_version)
      || not (a.snapshot_checksum == snapshot_digest a.snapshot))) [
        | inl bad ↦ absurd (ground (arith, bad, ap (λ (o : Answer (Unit {0}) × Store). o.0) h))
        | inr fine ↦ ground (arith, fine, h)
      ]

-- An archive with a uint64 sequence that was restored into a new bolt store, and is captured from
-- it again with nothing failing, gives an archive of the same snapshot and leaves the store.
pub capture-restore_archive :
    (digest : Digest) (snapshot_digest : SnapshotDigest) (around : Surroundings) (a : Archive)
    (left : Store) (source : String) (now : ℕ)
    → a.snapshot.sequence < 2 ^ 64
    → restore_archive (bolt_operations digest around) snapshot_digest fresh_store a
      ≡ (done tt, left)
    → capture (bolt_operations digest calm) digest snapshot_digest left source now
      ≡ (done (export snapshot_digest a.snapshot source now), left)
unfolding restore_archive starting_state
capture-restore_archive digest snapshot_digest around a left source now range h =
    let restored : restore_snapshot fresh_store around a.snapshot ≡ (done tt, left) =
      restored_by digest snapshot_digest around a left h in
    let (good, _, _, made) = restore_snapshot-filled fresh_store left around a.snapshot restored in
    let (_, bare, load) =
      restore_snapshot-load_snapshot digest fresh_store left around a.snapshot range restored in
    let is_open : left.is_closed ≡ false = ap (λ (x : Store). x.is_closed) made in
    capture-replayed digest snapshot_digest left (some a.snapshot) a.snapshot a.snapshot source now
      load (ground (arith, good))
      (replay_after-bare digest left a.snapshot.sequence a.snapshot is_open bare)

-- A machine whose published state its bolt store makes from an empty state, and whose store has no
-- snapshot, is captured in its published state from any open store with the same database, nothing
-- failing.
pub capture-IsStored :
    (hashes : Hashes) (snapshot_digest : SnapshotDigest) (m : Machine Backend) (opened : Store)
    (source : String) (now : ℕ)
    → IsStored hashes new_state m
    → opened.is_closed ≡ false
    → opened.db ≡ m.log.store.db
    → opened.db.snapshot ≡ none
    → capture (bolt_operations hashes.digest calm) hashes.digest snapshot_digest opened source now
      ≡ (done (export snapshot_digest m.state source now), opened)
unfolding load_snapshot view read_snapshot record_error starting_state replay
capture-IsStored hashes snapshot_digest m opened source now p is_open same bare =
    capture-replayed hashes.digest snapshot_digest opened none new_state m.state source now
      (ground (arith, is_open, bare)) refl
      (replay_after-IsStored hashes new_state m opened [] m.log.store.db.transitions 0 new_state p
        is_open same refl refl (omega arith) refl)
