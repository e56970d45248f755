-- ===== src/Storage/Kafka.antt =====
-- The leadership of internal/storage/kafka/coordinator.go, seen from one replica. The consumer
-- group, the topic and the transactional producer are Kafka's: what they do is an argument or an
-- event.
pub mod Election
pub mod Layout
pub mod Keys
pub mod Topic
pub mod Store
pub mod Replay
pub mod Snapshots
pub mod Compaction
pub mod Consumed
pub mod Replayed
pub mod Followed
pub mod Opened
pub mod Recovered
pub mod Kept
pub mod Committed
pub mod Acknowledged
pub mod Tests
use riquet.Prelude.{
  Bool, List, Option, String, [], if◌then◌else◌, ltb, none, not, number_eq, some, string_eq, true,
  ℕ, ◌&&◌, ◌==◌, ◌||◌, ◌∷◌,
}
use riquet.Prelude.Words.{inc}
use riquet.Storage.{
  Answer, Lease, cancelled, done, failed, message, no_lease, not_primary, same_lease,
}
use riquet.Storage.Bolt.Persisted.{later}

-- primaryAnnouncement
pub record PrimaryAnnouncement : Type 0 where
  pub announcement_version : ℕ
  pub holder : String
  pub epoch : ℕ
  pub address : String

abbrev pub same_announcement : PrimaryAnnouncement → PrimaryAnnouncement → Bool
same_announcement a b =
    a.announcement_version == b.announcement_version
    && (a.holder == b.holder && (a.epoch == b.epoch && a.address == b.address))

abbrev pub state_format_version : ℕ
state_format_version = 1

-- primaryAnnouncement.validate
unfoldable pub validate_announcement : PrimaryAnnouncement → Answer (Unit {0})
validate_announcement p =
    if not (p.announcement_version == state_format_version)
    then failed (message "unsupported Kafka coordination record version %d")
    else if p.holder == "" || p.epoch == 0 || p.address == ""
    then failed (message "kafka coordination record is missing holder, epoch, or address")
    else done tt

-- The fields of Coordinator and of its Store that the leadership uses: the group's assignment, the
-- coordinator's lease, the store's lease, and the last announcement that the store has read.
pub record Replica : Type 0 where
  pub assigned : Bool
  pub released : Bool
  pub lease : Lease
  pub store_lease : Lease
  pub observed : PrimaryAnnouncement

-- deactivatePrimary, ownsLease and Store.Primary
unfoldable pub deactivate_primary : Lease → Replica → Replica
deactivate_primary lease r =
    if same_lease r.store_lease lease then record r { store_lease = no_lease } else r

unfoldable pub owns_lease : Replica → Lease → Bool
owns_lease r lease =
    same_lease r.store_lease lease
    && (r.observed.holder == lease.holder && r.observed.epoch == lease.epoch)

unfoldable pub primary : Replica → Option (Lease × String)
primary r =
    if r.observed.holder == "" || r.observed.epoch == 0
    then none
    else some (record { holder = r.observed.holder; epoch = r.observed.epoch }, r.observed.address)

-- setAssigned
unfoldable pub set_assigned : Bool → Replica → Replica
unfolding deactivate_primary
set_assigned value r =
    let marked = record r { assigned = value; lease = if value then r.lease else no_lease } in
    if not value && not (same_lease r.lease no_lease)
    then deactivate_primary r.lease marked
    else marked

-- Renew
unfoldable pub renew : Bool → Replica → Lease → Answer (Unit {0})
unfolding owns_lease
renew is_cancelled r lease =
    if is_cancelled
    then failed cancelled
    else if not (not r.released && r.assigned && same_lease r.lease lease)
        || not (owns_lease r lease)
    then failed not_primary
    else done tt

-- Release, without closing the client.
unfoldable pub release : Lease → Replica → Answer (Unit {0}) × Replica
unfolding deactivate_primary
release lease r =
    if r.released
    then (done tt, r)
    else if not (same_lease r.lease no_lease) && not (same_lease r.lease lease)
    then (failed not_primary, r)
    else (done tt, deactivate_primary lease (record r { released = true }))

-- LocalLease
unfoldable pub local_lease : Replica → Option Lease
local_lease r =
    if r.released || not r.assigned || same_lease r.lease no_lease then none else some r.lease

-- waitForPrimary, for the announcements that the store observes one after the other until the
-- context ends, with the last of them that it looked at.
unfoldable pub wait_for_primary :
    PrimaryAnnouncement
    → PrimaryAnnouncement
    → List PrimaryAnnouncement
    → Answer (Unit {0}) × PrimaryAnnouncement
wait_for_primary wanted current [] = (failed cancelled, current)
wait_for_primary wanted current (seen ∷ rest) =
    let later = wait_for_primary wanted seen rest in
    if same_announcement seen wanted
    then (done tt, seen)
    else if ltb wanted.epoch seen.epoch
    then (failed not_primary, seen)
    else later

-- The announcement of a new epoch, after the store has caught up.
abbrev pub announcement : String → String → Replica → PrimaryAnnouncement
announcement holder address r = record {
  announcement_version = state_format_version;
  holder = holder;
  epoch = inc r.observed.epoch;
  address = address;
}

-- activatePrimary on a replica that has caught up: whether the transaction is committed, and what is
-- observed while waiting for it.
unfoldable pub activate_primary :
    String → String → Bool → List PrimaryAnnouncement → Replica → Answer Lease × Replica
unfolding wait_for_primary
activate_primary holder address committed observations r =
    let wanted = announcement holder address r in
    if not committed
    then (failed (message "publish fenced Kafka primary epoch: %w"), r)
    else (let (outcome, seen) = wait_for_primary wanted r.observed observations in
        elim outcome [
          | failed x ↦ (failed x, record r { observed = seen })
          | done _ ↦
              let lease : Lease = record { holder = holder; epoch = wanted.epoch } in
              (done lease, record r { store_lease = lease; observed = seen })
        ])

-- What Acquire does after the activation: none where it goes round its loop again.
unfoldable pub finish_acquire : Lease → Replica → Option Lease × Replica
unfolding deactivate_primary
finish_acquire lease r =
    if not r.assigned || r.released
    then (none, deactivate_primary lease r)
    else (some lease, record r { lease = lease })
