-- ===== src/Storage/Bolt.antt =====
-- internal/storage/bolt/store.go. bbolt itself is its documented behaviour: a bucket is a list of
-- entries in the order of their keys, and a transaction is kept as a whole or not at all. A key of
-- the transitions bucket is the number whose eight big-endian bytes it is. A stored JSON value is
-- what encoding/json reads from it, or none if it reads nothing of the type.
pub mod Snapshots
pub mod Keys
pub mod Chain
pub mod Commit
pub mod Persisted
pub mod Recovery
pub mod Retry
pub mod Restored
use riquet.Domain.Equal.{same_envelope}
use riquet.Domain.Errors.{err, ok}
use riquet.Domain.Snapshot.{Snapshot}
use riquet.Domain.Transition.{
  Digest, Envelope, RawMessage, encoded, malformed, no_bytes, validate_envelope,
}
use riquet.Domain.Types.{Sequence}
use riquet.Map.{Map, get}
use riquet.Prelude.{
  Bool, List, Option, String, [], false, if◌then◌else◌, leb, length, ltb, none, not, number_eq,
  some, string_eq, true, ℕ, ◌%◌, ◌*◌, ◌+◌, ◌/◌, ◌==◌, ◌^◌, ◌∷◌,
}
use riquet.Prelude.Words.{inc}
use riquet.Storage.{
  Answer, Capabilities, Failure, Surroundings, backend, cancelled, closed_store, done, failed,
  message, refused,
}

-- binary.BigEndian.PutUint64 and Uint64: uint64Key, readSequence
unfoldable pub uint64_key : ℕ → List ℕ
uint64_key v =
    (v / 2 ^ 56 % 256)
    ∷ (v / 2 ^ 48 % 256)
    ∷ (v / 2 ^ 40 % 256)
    ∷ (v / 2 ^ 32 % 256)
    ∷ (v / 2 ^ 24 % 256)
    ∷ (v / 2 ^ 16 % 256)
    ∷ (v / 2 ^ 8 % 256)
    ∷ (v % 256)
    ∷ []

abbrev pub big_endian_number : ℕ → List ℕ → ℕ
big_endian_number n [] = n
big_endian_number n (b ∷ rest) = big_endian_number (n * 256 + b) rest

unfoldable pub read_sequence : Option (List ℕ) → Sequence
read_sequence none = 0
read_sequence (some value) = if length value == 8 then big_endian_number 0 value else 0

abbrev pub Bucket : Type 0
Bucket = Map ℕ (Option Envelope)

-- Bucket.Put
unfoldable pub bucket_put : Bucket → ℕ → Option Envelope → Bucket
bucket_put [] k v = (k, v) ∷ []
bucket_put ((j, w) ∷ m) k v =
    let rest = bucket_put m k v in
    if j == k then (k, v) ∷ m else if ltb k j then (k, v) ∷ (j, w) ∷ m else (j, w) ∷ rest

-- Cursor.Seek: the entries from a key on.
unfoldable pub seek : ℕ → Bucket → Bucket
seek k [] = []
seek k ((j, w) ∷ m) = let rest = seek k m in if ltb j k then rest else (j, w) ∷ m

-- The keys of the meta bucket, and the transitions bucket.
pub record Database : Type 0 where
  pub format : Option (List ℕ)
  pub last_sequence : Option (List ℕ)
  pub snapshot : Option (Option Snapshot)
  pub transitions : Bucket

pub record Store : Type 0 where
  pub db : Database
  pub is_closed : Bool
  pub last_error : Option Failure

abbrev pub format_version : ℕ
format_version = 1

-- The transaction of Open.
unfoldable pub initialize : Database → Answer Database
unfolding read_sequence
initialize db = elim db.format [
  | none ↦
      done (record db {
        format = some (uint64_key format_version);
        last_sequence = some (uint64_key 0);
      })
  | some stored ↦
      if not (length stored == 8)
      then failed (message "invalid bbolt format version encoding")
      else if not (big_endian_number 0 stored == format_version)
      then failed (message "unsupported bbolt format version %d")
      else done db
]

-- Open, of a file that holds `db`.
unfoldable pub open_store : String → Surroundings → Database → Answer Store
unfolding initialize
open_store path around db =
    if path == ""
    then failed (message "bbolt path is required")
    else if around.is_down
    then failed backend
    else elim (initialize db) [
      | failed x ↦ failed x
      | done db' ↦ done (record { db = db'; is_closed = false; last_error = none })
    ]

-- Capabilities
abbrev pub capabilities : Capabilities
capabilities = record {
  writable = true;
  replays = true;
  snapshots = true;
  backup = true;
  multi_replica = false;
  leadership = false;
  consistent_sequence = true;
}

-- update and view: the transaction runs on an open store.
unfoldable pub update :
    Store → Surroundings → (Database → Answer Database) → Answer (Unit {0}) × Store
update s around f = if s.is_closed then (failed closed_store, s) else elim (f s.db) [
  | failed x ↦ (failed x, s)
  | done db ↦ if around.is_down then (failed backend, s) else (done tt, record s { db = db })
]

unfoldable pub view {ℓ} : {A : Type ℓ} → Store → Surroundings → (Database → Answer A) → Answer A
view s around f =
    if s.is_closed then failed closed_store else if around.is_down then failed backend else f s.db

-- recordError
unfoldable pub record_error {ℓ} : {A : Type ℓ} → Answer A → Store → Store
record_error (done a) s = s
record_error (failed cancelled) s = s
record_error (failed x) s = record s { last_error = some x }

-- json.Marshal fails on a payload that is no JSON.
abbrev pub can_encode : RawMessage → Bool
can_encode (encoded j) = true
can_encode no_bytes = true
can_encode malformed = false

abbrev pub is_stored : Envelope → Option (Option Envelope) → Bool
is_stored e (some (some stored)) = same_envelope stored e
is_stored e _ = false

-- The transaction of Commit.
unfoldable pub append_transition : Envelope → Database → Answer Database
append_transition e db =
    let last = read_sequence db.last_sequence in
    if leb e.sequence last
    then (if is_stored e (get db.transitions e.sequence)
        then done db
        else failed (message "sequence %d conflicts with an existing transition"))
    else if not (e.sequence == inc last)
    then failed (message "sequence %d does not follow %d")
    else done (record db {
      transitions = bucket_put db.transitions e.sequence (some e);
      last_sequence = some (uint64_key e.sequence);
    })

abbrev pub recorded : Answer (Unit {0}) × Store → Answer (Unit {0}) × Store
recorded o = (o.0, record_error o.0 o.1)

-- Commit
unfoldable pub commit : Digest → Store → Surroundings → Envelope → Answer (Unit {0}) × Store
unfolding append_transition
commit digest s around e =
    if around.is_cancelled then (failed cancelled, s) else elim (validate_envelope digest e) [
      | err x ↦ (failed (refused x), s)
      | ok _ ↦
          if not (can_encode e.payload)
          then (failed (message "json: error calling MarshalJSON"), s)
          else recorded (update s around (append_transition e))
    ]

-- The loop of Replay over the cursor, with what the callback keeps.
unfoldable pub replay_entries :
    {S : Type 0}
    → Digest
    → Surroundings
    → (Envelope → S → Answer S)
    → Sequence
    → Bucket
    → S
    → Answer S
replay_entries digest around f expected [] s = done s
replay_entries digest around f expected ((k, stored) ∷ rest) s =
    if around.is_cancelled then failed cancelled else elim stored [
      | none ↦ failed (message "decode transition at sequence %d: %w")
      | some e ↦
          if not (e.sequence == expected)
          then failed (message "transition sequence %d does not follow %d")
          else elim (validate_envelope digest e) [
            | err x ↦ failed (refused x)
            | ok _ ↦ elim (f e s) [
              | failed x ↦ failed x
              | done next ↦ replay_entries digest around f (inc expected) rest next
            ]
          ]
    ]

-- Replay
unfoldable pub replay_after :
    {S : Type 0}
    → Digest
    → Store
    → Surroundings
    → Sequence
    → (Envelope → S → Answer S)
    → S
    → Answer S × Store
unfolding replay_entries
replay_after digest s around after f start =
    let answer =
      view s around (λ db.
        replay_entries digest around f (inc after) (seek (inc after) db.transitions) start) in
    (answer, record_error answer s)
