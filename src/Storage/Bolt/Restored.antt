-- ===== src/Storage/Bolt/Restored.antt =====
-- New and restored stores.
use mathlib.Core.Path.{subst}
use riquet.Domain.Errors.{Outcome-cases, ok}
use riquet.Domain.Snapshot.{Snapshot, restore}
use riquet.Domain.Snapshot.Consistent.{restore-IsConsistent}
use riquet.Domain.Transition.{Digest}
use riquet.Prelude.{
  Bool-cases, String, [], ap, arith, false, inl, inr, is_empty, none, number_eq, refl, some,
  string_eq, sym, true, ◌<◌, ◌==◌, ◌^◌, ◌∙◌, ◌∷◌, ◌≡◌,
}
use riquet.Storage.{Answer, Surroundings, done}
use riquet.Storage.Bolt.{
  Bucket, Database, Store, initialize, open_store, read_sequence, record_error, uint64_key, update,
  view,
}
use riquet.Storage.Bolt.Chain.{IsChain}
use riquet.Storage.Bolt.Commit.{IsWellFormed}
use riquet.Storage.Bolt.Keys.{read_sequence-uint64_key}
use riquet.Storage.Bolt.Persisted.{calm}
use riquet.Storage.Bolt.Snapshots.{
  fill, load_snapshot, read_snapshot, restore_snapshot, store_snapshot,
}

abbrev pub empty_database : Database
empty_database = record { format = none; last_sequence = none; snapshot = none; transitions = [] }

abbrev pub fresh_store : Store
fresh_store = record {
  db = record empty_database { format = some (uint64_key 1); last_sequence = some (uint64_key 0) };
  is_closed = false;
  last_error = none;
}

-- With a path and nothing failing, Open makes an empty file a store without transitions, and opens
-- that store again as it is.
pub open_store-fresh :
    (path : String)
    → (path == "") ≡ false
    → (open_store path calm empty_database ≡ done fresh_store)
      × (open_store path calm fresh_store.db ≡ done fresh_store)
unfolding open_store initialize uint64_key
open_store-fresh path h = (ground (arith, h), ground (arith, h))

pub fresh_store-IsWellFormed : (digest : Digest) → IsWellFormed digest 0 fresh_store.db
unfolding read_sequence uint64_key
fresh_store-IsWellFormed digest = record { bounded = ground arith; chain = refl }

abbrev pub filled : Store → Snapshot → Store
filled s snapshot = record s {
  db = record s.db {
    snapshot = some (some snapshot);
    last_sequence = some (uint64_key snapshot.sequence);
  };
}

is_empty-eq : (m : Bucket) → is_empty m ≡ true → m ≡ []
is_empty-eq [] h = refl
is_empty-eq (x ∷ m) h = absurd (cc)

-- What RestoreSnapshot has done when it succeeds.
pub restore_snapshot-filled :
    (s left : Store) (around : Surroundings) (snapshot : Snapshot)
    → restore_snapshot s around snapshot ≡ (done tt, left)
    → (restore snapshot ≡ ok snapshot)
      × (s.db.transitions ≡ [])
      × (s.is_closed ≡ false)
      × (left ≡ filled s snapshot)
unfolding restore_snapshot store_snapshot update fill record_error
restore_snapshot-filled s left around snapshot h =
    let answer : (restore_snapshot s around snapshot).0 ≡ done tt =
      ap (λ (o : Answer (Unit {0}) × Store). o.0) h in
    let after : (restore_snapshot s around snapshot).1 ≡ left =
      ap (λ (o : Answer (Unit {0}) × Store). o.1) h in
    elim (Bool-cases around.is_cancelled) [
      | inl gone ↦ absurd (ground (arith, gone, answer))
      | inr here ↦ elim (Outcome-cases (restore snapshot)) [
        | inr (x, bad) ↦ absurd (ground (arith, here, bad, answer))
        | inl (t, good) ↦
            let same : restore snapshot ≡ ok snapshot =
              good ∙ ap ok (restore-IsConsistent snapshot t good).0 in
            elim (Bool-cases s.is_closed) [
              | inl shut ↦ absurd (ground (arith, here, good, shut, answer))
              | inr is_open ↦ elim (Bool-cases (is_empty s.db.transitions)) [
                | inr used ↦ absurd (ground (arith, here, good, is_open, used, answer))
                | inl bare ↦ (
                  same,
                  is_empty-eq s.db.transitions bare,
                  is_open,
                  ground (arith, here, good, is_open, bare, answer, after),
                )
              ]
            ]
      ]
    ]

-- A RestoreSnapshot that succeeds, of a snapshot with a uint64 sequence, leaves a store whose
-- transitions go on from that sequence, with none so far, and from which LoadSnapshot, with nothing
-- failing, gives the snapshot back.
pub restore_snapshot-load_snapshot :
    (digest : Digest) (s left : Store) (around : Surroundings) (snapshot : Snapshot)
    → snapshot.sequence < 2 ^ 64
    → restore_snapshot s around snapshot ≡ (done tt, left)
    → IsWellFormed digest snapshot.sequence left.db
      × (left.db.transitions ≡ [])
      × (load_snapshot left calm ≡ (done (some snapshot), left))
unfolding load_snapshot view read_snapshot record_error
restore_snapshot-load_snapshot digest s left around snapshot range h =
    let (good, bare, is_open, made) = restore_snapshot-filled s left around snapshot h in
    let written = read_sequence-uint64_key snapshot.sequence range in
    subst
      (λ (x : Store).
        IsWellFormed digest snapshot.sequence x.db
        × (x.db.transitions ≡ [])
        × (load_snapshot x calm ≡ (done (some snapshot), x)))
      (sym made)
      (
        record {
          bounded = subst (λ n. n < 2 ^ 64) (sym written) range;
          chain =
              subst
                (λ (b : Bucket).
                  IsChain digest snapshot.sequence b
                    (read_sequence (some (uint64_key snapshot.sequence))))
                (sym bare) (sym written);
        },
        bare,
        ground (arith, good, is_open),
      )
