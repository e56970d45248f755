-- ===== src/Storage/Bolt/Commit.antt =====
-- What Commit leaves of a store.
use mathlib.Core.Path.{subst}
use riquet.Domain.Errors.{Outcome-cases, ok}
use riquet.Domain.Transition.{Digest, Envelope, validate_envelope}
use riquet.Map.{get}
use riquet.Prelude.{
  Bool, Bool-cases, arith, false, if◌then◌else◌, inl, inr, leb, nat_eq_iff, number_eq, refl, some,
  string_eq, true, ℕ, ◌<◌, ◌==◌, ◌^◌, ◌≡◌,
}
use riquet.Prelude.Words.{inc}
use riquet.Storage.{
  Answer, Failure, Surroundings, backend, cancelled, closed_store, done, failed, message,
  not_primary, refused,
}
use riquet.Storage.Bolt.{
  Database, Store, append_transition, bucket_put, can_encode, commit, is_stored, read_sequence,
  record_error, recorded, uint64_key, update,
}
use riquet.Storage.Bolt.Chain.{IsChain}

-- The last sequence is a uint64, and the transitions lead to it from `first`.
pub record IsWellFormed (digest : Digest) (first : ℕ) (db : Database) : Type 0 where
  pub bounded : read_sequence db.last_sequence < 2 ^ 64
  pub chain : IsChain digest first db.transitions (read_sequence db.last_sequence)

abbrev with_transition : Database → Envelope → Database
with_transition db e = record db {
  transitions = bucket_put db.transitions e.sequence (some e);
  last_sequence = some (uint64_key e.sequence);
}

-- The ways in which Commit ends: the transition is refused or not kept, it was there already, or it
-- is appended.
pub data Committed (digest : Digest) (s : Store) (e : Envelope)
    : Answer (Unit {0}) × Store → Type 0 where
  rejected : (x : Failure) (left : Store) → left.db ≡ s.db → Committed digest s e (failed x, left)
  was_there :
      leb e.sequence (read_sequence s.db.last_sequence) ≡ true
      → is_stored e (get s.db.transitions e.sequence) ≡ true
      → Committed digest s e (done tt, s)
  appended :
      leb e.sequence (read_sequence s.db.last_sequence) ≡ false
      → e.sequence ≡ inc (read_sequence s.db.last_sequence)
      → validate_envelope digest e ≡ ok tt
      → Committed digest s e (done tt, record s { db = with_transition s.db e })

record_error-db : {A : Type 0} (o : Answer A) (s : Store) → (record_error o s).db ≡ s.db
unfolding record_error
record_error-db (done a) s = refl
record_error-db (failed cancelled) s = refl
record_error-db (failed closed_store) s = refl
record_error-db (failed backend) s = refl
record_error-db (failed not_primary) s = refl
record_error-db (failed (refused x)) s = refl
record_error-db (failed (message x)) s = refl

failing :
    (digest : Digest) (s : Store) (e : Envelope) (x : Failure)
    → Committed digest s e (recorded (failed x, s))
failing digest s e x = rejected x (record_error (failed x) s) (record_error-db (failed x) s)

-- The outcomes of the transaction.
data Appending (e : Envelope) (db : Database) : Answer Database → Type 0 where
  conflicting : (x : Failure) → Appending e db (failed x)
  present :
      leb e.sequence (read_sequence db.last_sequence) ≡ true
      → is_stored e (get db.transitions e.sequence) ≡ true
      → Appending e db (done db)
  next :
      leb e.sequence (read_sequence db.last_sequence) ≡ false
      → e.sequence ≡ inc (read_sequence db.last_sequence)
      → Appending e db (done (with_transition db e))

append_transition-Appending :
    (e : Envelope) (db : Database) → Appending e db (append_transition e db)
unfolding append_transition
append_transition-Appending e db =
    let last = read_sequence db.last_sequence in
    elim (Bool-cases (leb e.sequence last)) [
      | inl old ↦ elim (Bool-cases (is_stored e (get db.transitions e.sequence))) [
        | inl there ↦
            subst (Appending e db)
              (let h : done db ≡ append_transition e db = ground (arith, old, there) in h)
              (present old there)
        | inr differs ↦
            subst (Appending e db)
              (let h : failed (message "sequence %d conflicts with an existing transition")
                    ≡ append_transition e db =
                  ground (arith, old, differs) in
                h)
              (conflicting _)
      ]
      | inr new ↦ elim (Bool-cases (e.sequence == inc last)) [
        | inl follows ↦
            subst (Appending e db)
              (let h : done (with_transition db e) ≡ append_transition e db =
                  ground (arith, new, follows) in
                h)
              (next new ((nat_eq_iff e.sequence (inc last)).0 follows))
        | inr gap ↦
            subst (Appending e db)
              (let h : failed (message "sequence %d does not follow %d") ≡ append_transition e db =
                  ground (arith, new, gap) in
                h)
              (conflicting _)
      ]
    ]

-- The transaction in the store.
finished : Store → Bool → Bool → Answer Database → Answer (Unit {0}) × Store
finished s closed down (failed x) = if closed then (failed closed_store, s) else (failed x, s)
finished s closed down (done db) =
    if closed
    then (failed closed_store, s)
    else if down
    then (failed backend, s)
    else (done tt, record s { db = db })

module _ (digest : Digest) (s : Store) (e : Envelope)
    (intact : validate_envelope digest e ≡ ok tt) where
  finished-Committed :
      (closed down : Bool) {o : Answer Database}
      → Appending e s.db o
      → Committed digest s e (recorded (finished s closed down o))
  unfolding finished record_error
  finished-Committed true down (conflicting x) = failing digest s e closed_store
  finished-Committed true down (present old there) = failing digest s e closed_store
  finished-Committed true down (next new follows) = failing digest s e closed_store
  finished-Committed false down (conflicting x) = failing digest s e x
  finished-Committed false true (present old there) = failing digest s e backend
  finished-Committed false true (next new follows) = failing digest s e backend
  finished-Committed false false (present old there) = was_there old there
  finished-Committed false false (next new follows) = appended new follows intact

  update-finished :
      (around : Surroundings) (f : Database → Answer Database)
      → update s around f ≡ finished s s.is_closed around.is_down (f s.db)
  unfolding update finished
  update-finished around f =
      elim (f s.db)
        as (λ o.
          (if s.is_closed then (failed closed_store, s) else elim o [
            | failed x ↦ (failed x, s)
            | done db ↦
                if around.is_down then (failed backend, s) else (done tt, record s { db = db })
          ])
          ≡ finished s s.is_closed around.is_down o) [ failed x ↦ refl | done db ↦ refl ]

-- Commit ends in one of these ways.
pub commit-Committed :
    (digest : Digest) (s : Store) (around : Surroundings) (e : Envelope)
    → Committed digest s e (commit digest s around e)
unfolding commit
commit-Committed digest s around e = elim (Bool-cases around.is_cancelled) [
  | inl gone ↦ rw (gone, commit) (rejected cancelled s refl)
  | inr here ↦ elim (Outcome-cases (validate_envelope digest e)) [
    | inr (x, bad) ↦ rw (here, commit, bad) (rejected (refused x) s refl)
    | inl (_, intact) ↦ elim (Bool-cases (can_encode e.payload)) [
      | inr bad ↦ rw (here, commit, intact, bad) (rejected _ s refl)
      | inl good ↦
          rw (here, commit, intact, good, update-finished)
            (finished-Committed digest s e intact s.is_closed around.is_down
              (append_transition-Appending e s.db))
    ]
  ]
]
