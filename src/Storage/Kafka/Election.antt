-- ===== src/Storage/Kafka/Election.antt =====
-- What a replica may still do with a lease.
use mathlib.Core.Path.{subst, subst₂}
use riquet.Map.{same_refl}
use riquet.Prelude.{
  Bool, Bool-cases, List, String, [], ap, arith, false, inl, inr, ltb, none, not, number_eq, refl,
  some, string_eq, sym, true, ◌&&◌, ◌==◌, ◌||◌, ◌∙◌, ◌∷◌, ◌≡◌, ◌⊎◌,
}
use riquet.Prelude.Words.{inc}
use riquet.Storage.{Answer, Failure, Lease, done, failed, no_lease, not_primary, same_lease}
use riquet.Storage.Kafka.{
  PrimaryAnnouncement, Replica, activate_primary, announcement, deactivate_primary, finish_acquire,
  local_lease, owns_lease, release, renew, same_announcement, set_assigned, validate_announcement,
  wait_for_primary,
}

-- One step of a replica: a rebalancing of the group, a call, or a record that the store reads.
pub data Step : Replica → Replica → Type 0 where
  rebalanced : (value : Bool) (r : Replica) → Step r (set_assigned value r)
  releasing : (lease : Lease) (r : Replica) → Step r (release lease r).1
  reading :
      (p : PrimaryAnnouncement) (r : Replica)
      → validate_announcement p ≡ done tt
      → Step r (record r { observed = p })
  activating :
      (holder address : String) (committed : Bool) (observations : List PrimaryAnnouncement)
      (r : Replica)
      → Step r (activate_primary holder address committed observations r).1
  finishing : (lease : Lease) (r : Replica) → Step r (finish_acquire lease r).1

pub data Steps (r : Replica) : Replica → Type 0 where
  here : Steps r r
  then : {s t : Replica} → Steps r s → Step s t → Steps r t

deactivate-released :
    (lease : Lease) (r : Replica) → (deactivate_primary lease r).released ≡ r.released
unfolding deactivate_primary
deactivate-released lease r = ground arith

Step-released : {r s : Replica} → Step r s → r.released ≡ true → s.released ≡ true
unfolding set_assigned release activate_primary finish_acquire deactivate_primary
Step-released (rebalanced value r) h = ground (arith, h)
Step-released (releasing lease r) h = ground (arith, h)
Step-released (reading p r valid) h = h
Step-released (activating holder address committed observations r) h = ground (arith, h)
Step-released (finishing lease r) h = ground (arith, h)

Steps-released : {r s : Replica} → Steps r s → r.released ≡ true → s.released ≡ true
Steps-released here h = h
Steps-released (then steps step) h = Step-released step (Steps-released steps h)

-- After a Release that succeeds the replica never has a local lease again and renews none, whatever
-- it does, reads, and is assigned afterwards.
pub release-final :
    (r s : Replica) (lease : Lease)
    → (release lease r).0 ≡ done tt
    → Steps (release lease r).1 s
    → (local_lease s ≡ none) × ((other : Lease) → renew false s other ≡ failed not_primary)
unfolding release local_lease renew
release-final r s lease h steps =
    let gone : (release lease r).1.released ≡ true =
      ground (arith, h, deactivate-released lease (record r { released = true })) in
    let still = Steps-released steps gone in (ground (arith, still), λ other. ground (arith, still))

-- A replica that loses the partition has no local lease and renews none.
pub set_assigned-revokes :
    (r : Replica)
    → (local_lease (set_assigned false r) ≡ none)
      × ((lease : Lease) → renew false (set_assigned false r) lease ≡ failed not_primary)
unfolding set_assigned local_lease renew deactivate_primary
set_assigned-revokes r = (ground arith, λ lease. ground arith)

same_announcement-epoch :
    (a b : PrimaryAnnouncement)
    → same_announcement a b ≡ true
    → (a.holder == b.holder && a.epoch == b.epoch) ≡ true
same_announcement-epoch a b h = ground (arith, h)

wait_for_primary-observed :
    (wanted current : PrimaryAnnouncement) (observations : List PrimaryAnnouncement)
    → (wait_for_primary wanted current observations).0 ≡ done tt
    → same_announcement (wait_for_primary wanted current observations).1 wanted ≡ true
unfolding wait_for_primary
wait_for_primary-observed wanted current [] h = absurd (cc)
wait_for_primary-observed wanted current (seen ∷ rest) h =
    elim (Bool-cases (same_announcement seen wanted)) [
      | inl same ↦ ground (arith, same)
      | inr other ↦ elim (Bool-cases (ltb wanted.epoch seen.epoch)) [
        | inl past ↦ absurd (ground (arith, other, past, h))
        | inr before ↦ ground (
          arith,
          other,
          before,
          wait_for_primary-observed wanted seen rest (ground (arith, other, before, h)),
        )
      ]
    ]

same_lease-holder : (l : Lease) → (l.holder == "") ≡ false → same_lease l no_lease ≡ false
same_lease-holder l h = ground (arith, h)

Answer-cases : (o : Answer (Unit {0})) → (o ≡ done tt) ⊎ ((x : Failure) × (o ≡ failed x))
Answer-cases (done tt) = inl refl
Answer-cases (failed x) = inr (x, refl)

module _ (holder address : String) (observations : List PrimaryAnnouncement) (r : Replica) where
  abbrev new_lease : Lease
  new_lease = record { holder = holder; epoch = inc r.observed.epoch }

  abbrev waited : Answer (Unit {0}) × PrimaryAnnouncement
  waited = wait_for_primary (announcement holder address r) r.observed observations

  activated :
      waited.0 ≡ done tt
      → activate_primary holder address true observations r
        ≡ (done new_lease, record r { store_lease = new_lease; observed = waited.1 })
  unfolding activate_primary
  activated h = ground (arith, h)

  -- An activation that succeeds has a new epoch, and its lease is the store's.
  activated-owns :
      (committed : Bool) {lease : Lease} {r' : Replica}
      → activate_primary holder address committed observations r ≡ (done lease, r')
      → (new_lease ≡ lease) × (owns_lease r' lease ≡ true)
  unfolding activate_primary owns_lease
  activated-owns false h = absurd (cc (ap (λ (o : Answer Lease × Replica). o.0) h))
  activated-owns true {lease} {r'} h = elim (Answer-cases waited.0) [
    | inr (x, bad) ↦
        absurd (let o = ap (λ (o : Answer Lease × Replica). o.0) h in ground (arith, bad, o))
    | inl good ↦
        let same = sym (activated good) ∙ h in
        let lease' : new_lease ≡ lease =
          answered-eq (ap (λ (o : Answer Lease × Replica). o.0) same) in
        let left = ap (λ (o : Answer Lease × Replica). o.1) same in
        let seen = same_announcement-epoch waited.1 (announcement holder address r) (
          wait_for_primary-observed (announcement holder address r) r.observed observations good) in
        (
          lease',
          subst₂ (λ (x : Replica) (l : Lease). owns_lease x l ≡ true) left lease'
              (ground (arith, seen, same_refl holder, same_refl (inc r.observed.epoch))),
        )
  ]
    where
      answered-eq : {a b : Lease} → done a ≡ done b → a ≡ b
      answered-eq e = cc

-- If the activation of a holder with a name succeeds and Acquire finishes with its lease, then the
-- lease has the epoch after the one that the replica had caught up to, it is the replica's local
-- lease, and Renew accepts it as long as the context is not cancelled.
pub acquire-renew :
    (holder address : String) (committed : Bool) (observations : List PrimaryAnnouncement)
    (r r' : Replica) (lease : Lease)
    → (holder == "") ≡ false
    → activate_primary holder address committed observations r ≡ (done lease, r')
    → (finish_acquire lease r').0 ≡ some lease
    → (lease ≡ record { holder = holder; epoch = inc r.observed.epoch })
      × (local_lease (finish_acquire lease r').1 ≡ some lease)
      × (renew false (finish_acquire lease r').1 lease ≡ done tt)
unfolding finish_acquire local_lease renew owns_lease
acquire-renew holder address committed observations r r' lease named h got =
    let (made, owned) = activated-owns holder address observations r committed h in
    let real : same_lease lease no_lease ≡ false =
      subst (λ (l : Lease). same_lease l no_lease ≡ false) made (same_lease-holder _ named) in
    elim (Bool-cases (not r'.assigned || r'.released)) [
      | inl lost ↦ absurd (ground (arith, lost, got))
      | inr kept ↦ (
        sym made,
        ground (arith, kept, real),
        ground (arith, kept, owned, same_refl lease.holder, same_refl lease.epoch),
      )
    ]
