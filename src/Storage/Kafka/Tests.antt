-- ===== src/Storage/Kafka/Tests.antt =====
-- The theorems on the Kafka leadership at concrete inputs.
mod Log
use riquet.Prelude.{[], false, none, number_eq, refl, some, string_eq, true, ◌∷◌, ◌≡◌}
use riquet.Prelude.Words.{inc}
use riquet.Storage.{Lease, done, failed, no_lease, not_primary}
use riquet.Storage.Kafka.{
  PrimaryAnnouncement, Replica, activate_primary, finish_acquire, local_lease, release, renew,
  set_assigned, wait_for_primary,
}
use riquet.Storage.Kafka.Topic.{no_announcement}
use riquet.Storage.Kafka.Election.{
  acquire-renew, here, rebalanced, release-final, set_assigned-revokes, then,
}

abbrev member : Replica
member = record {
  assigned = true;
  released = false;
  lease = no_lease;
  store_lease = no_lease;
  observed = no_announcement;
}

abbrev first_lease : Lease
first_lease = record { holder = "riquet-0"; epoch = 1 }

abbrev first_announcement : PrimaryAnnouncement
first_announcement = record {
  announcement_version = 1;
  holder = "riquet-0";
  epoch = 1;
  address = "http://riquet-0";
}

abbrev elected : Replica
elected = record member { store_lease = first_lease; observed = first_announcement }

member_activates :
    activate_primary "riquet-0" "http://riquet-0" true
      (no_announcement ∷ first_announcement ∷ [])
      member
    ≡ (done first_lease, elected)
unfolding activate_primary wait_for_primary
member_activates = refl

elected_finishes : (finish_acquire first_lease elected).0 ≡ some first_lease
unfolding finish_acquire
elected_finishes = refl

acquire-renew_example :
    (first_lease ≡ record { holder = "riquet-0"; epoch = inc member.observed.epoch })
    × (local_lease (finish_acquire first_lease elected).1 ≡ some first_lease)
    × (renew false (finish_acquire first_lease elected).1 first_lease ≡ done tt)
acquire-renew_example =
    acquire-renew "riquet-0" "http://riquet-0" true (no_announcement ∷ first_announcement ∷ [])
      member elected first_lease refl member_activates elected_finishes

elected_releases : (release first_lease elected).0 ≡ done tt
unfolding release
elected_releases = refl

release-final_example :
    (local_lease (set_assigned true (release first_lease elected).1) ≡ none)
    × ((other : Lease)
        → renew false (set_assigned true (release first_lease elected).1) other
          ≡ failed not_primary)
release-final_example =
    release-final elected (set_assigned true (release first_lease elected).1) first_lease
      elected_releases (then here (rebalanced true (release first_lease elected).1))
