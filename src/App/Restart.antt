-- ===== src/App/Restart.antt =====
-- A registry that is stopped and started again over its bolt store.
use mathlib.Core.List.{append-nil}
use mathlib.Core.Path.{subst}
use riquet.App.{recover_state, start_machine}
use riquet.Backup.{starting_state}
use riquet.Backup.RoundTrip.{bolt_operations}
use riquet.Domain.Errors.{ok}
use riquet.Domain.Machine.{Hashes, Machine}
use riquet.Domain.Snapshot.{State, restore}
use riquet.Domain.Transition.{Digest}
use riquet.Domain.Types.{SchemaType}
use riquet.Formats.{Engine}
use riquet.Map.{Map}
use riquet.Prelude.{
  [], ap, arith, false, number_eq, refl, some, string_eq, sym, ℕ, ◌+◌, ◌<◌, ◌^◌, ◌∙◌, ◌≡◌,
}
use riquet.Storage.{Answer, done}
use riquet.Storage.Bolt.{
  Database, Store, read_sequence, record_error, recorded, replay_after, update, view,
}
use riquet.Storage.Bolt.Chain.{IsChain}
use riquet.Storage.Bolt.Persisted.{Backend, IsStored, apply_to, calm}
use riquet.Storage.Bolt.Recovery.{replay_after-IsStored}
use riquet.Storage.Bolt.Snapshots.{
  load_snapshot, read_snapshot, save_snapshot, store_snapshot, write_snapshot,
}
use riquet.Storage.Kafka.Snapshots.{saved}

-- SaveSnapshot of the published state, with nothing failing.
update-write_snapshot :
    (s : Store) (t : State)
    → s.is_closed ≡ false
    → read_sequence s.db.last_sequence ≡ t.sequence
    → update s calm (write_snapshot t)
      ≡ (done tt, record s { db = record s.db { snapshot = some (some t) } })
unfolding update write_snapshot
update-write_snapshot s t is_open at = ground (arith, is_open, at)

save_snapshot-whole :
    (s : Store) (t : State)
    → s.is_closed ≡ false
    → restore t ≡ ok t
    → read_sequence s.db.last_sequence ≡ t.sequence
    → ((save_snapshot s calm t).0 ≡ done tt)
      × ((save_snapshot s calm t).1.db ≡ record s.db { snapshot = some (some t) })
unfolding save_snapshot store_snapshot record_error
save_snapshot-whole s t is_open valid at =
    let written : save_snapshot s calm t
        ≡ recorded (done tt, record s { db = record s.db { snapshot = some (some t) } }) =
      rw (valid, save_snapshot) (ap recorded (update-write_snapshot s t is_open at)) in
    (
      ap (λ (o : Answer (Unit {0}) × Store). o.0) written,
      ap (λ (o : Answer (Unit {0}) × Store). o.1.db) written,
    )

load_snapshot-saved :
    (s : Store) (t : State)
    → s.is_closed ≡ false
    → s.db.snapshot ≡ some (some t)
    → restore t ≡ ok t
    → load_snapshot s calm ≡ (done (some t), s)
unfolding load_snapshot view read_snapshot record_error
load_snapshot-saved s t is_open saved valid = ground (arith, is_open, saved, valid)

recover_state-replayed :
    (digest : Digest) (s : Store) (t u : State)
    → load_snapshot s calm ≡ (done (some t), s)
    → restore t ≡ ok t
    → replay_after digest s calm t.sequence (apply_to digest) t ≡ (done u, s)
    → recover_state (bolt_operations digest calm) digest s ≡ (done u, s)
unfolding recover_state starting_state
recover_state-replayed digest s t u load valid rest = ground (arith, load, valid, rest)

module _ {N : Type 0} (hashes : Hashes) (engines : Map SchemaType (Engine N)) (start : State) where
  -- The store of a machine with another snapshot and another engine map makes the same state.
  IsStored-restarted :
      (m : Machine Backend) (opened : Store)
      → IsStored hashes start m
      → opened.db ≡ record m.log.store.db { snapshot = some (some m.state) }
      → IsStored hashes start
          (start_machine hashes.digest engines m.state (record { store = opened; ahead = [] }))
  unfolding start_machine
  IsStored-restarted m opened p same =
      let db = record m.log.store.db { snapshot = some (some m.state) } in
      subst
        (λ (d : Database). IsStored hashes start (
          start_machine hashes.digest engines m.state
            (record { store = record opened { db = d }; ahead = [] })))
        (sym same)
        (record {
          commits_to = refl;
          well_formed = record { bounded = p.well_formed.bounded; chain = p.well_formed.chain };
          at_sequence = p.at_sequence;
          replays = p.replays;
        })

  -- For a machine whose published state its bolt store makes from `start`, is one that Restore
  -- accepts as it is, and has a sequence below the largest uint64: the snapshot that Run saves at
  -- shutdown to the open store, with nothing failing, is saved, and from any open store with the
  -- database that it leaves recoverState gives the published state and leaves the store. The
  -- machine that Run then starts has its state made by its store as before.
  pub recover_state-IsStored :
      (m : Machine Backend) (opened : Store)
      → IsStored hashes start m
      → m.log.store.is_closed ≡ false
      → restore m.state ≡ ok m.state
      → m.state.sequence + 1 < 2 ^ 64
      → opened.is_closed ≡ false
      → opened.db ≡ (save_snapshot m.log.store calm m.state).1.db
      → ((save_snapshot m.log.store calm m.state).0 ≡ done tt)
        × (recover_state (bolt_operations hashes.digest calm) hashes.digest opened
            ≡ (done m.state, opened))
        × IsStored hashes start
            (start_machine hashes.digest engines m.state (record { store = opened; ahead = [] }))
  unfolding start_machine
  recover_state-IsStored m opened p was_open valid range is_open same =
      let saving = save_snapshot-whole m.log.store m.state was_open valid p.at_sequence in
      let saved : opened.db ≡ record m.log.store.db { snapshot = some (some m.state) } =
        same ∙ saving.1 in
      let restarted = IsStored-restarted m opened p saved in
      let db = opened.db in
      let chain : IsChain hashes.digest start.sequence db.transitions m.state.sequence =
        subst (λ (n : ℕ). IsChain hashes.digest start.sequence db.transitions n)
          restarted.at_sequence restarted.well_formed.chain in
      (
        saving.0,
        recover_state-replayed hashes.digest opened m.state m.state
            (load_snapshot-saved opened m.state is_open (ap (λ (d : Database). d.snapshot) saved)
              valid)
            valid
            (replay_after-IsStored hashes start
              (start_machine hashes.digest engines m.state (record { store = opened; ahead = [] }))
              opened db.transitions [] m.state.sequence m.state restarted is_open refl
              (sym (append-nil db.transitions)) chain range restarted.replays),
        restarted,
      )
