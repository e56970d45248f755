-- ===== src/Storage/Kafka/Compaction.antt =====
-- Log compaction: Kafka drops a record that a later one with its key follows.
pub mod Taken
pub mod Records
pub mod Loop
pub mod Dropped
pub mod Restored
use mathlib.Core.Path.{subst}
use riquet.Domain.Errors.{Outcome-cases}
use riquet.Domain.Snapshot.{restore}
use riquet.Domain.Transition.{Digest, validate_envelope}
use riquet.Domain.Types.{Sequence}
use riquet.Map.{get, put}
use riquet.Prelude.{
  Bool, Bool-cases, Option, Option-cases, String, arith, false, if◌then◌else◌, inl, inr, ltb, none,
  number_eq, refl, some, string_eq, true, ◌==◌, ◌≡◌, ◌≤◌, ◌⊎◌,
}
use riquet.Storage.{Answer, Failure, done, failed}
use riquet.Storage.Kafka.{PrimaryAnnouncement, primary, validate_announcement}
use riquet.Storage.Kafka.Election.{then}
use riquet.Storage.Kafka.Layout.{parse_transition_key, primary_record_key, snapshot_record_key}
use riquet.Storage.Kafka.Topic.{
  Value, View, apply_primary, apply_snapshot, apply_transition, conflicts,
}

-- What the later record is awaited for: the part of the view that the dropped one would have set.
pub data Pending : Type 0 where
  settled : Pending
  an_entry : Sequence → Pending
  a_snapshot a_primary : Pending

abbrev pub at_entry : Pending → Sequence → Bool
at_entry (an_entry j) k = j == k
at_entry _ k = false

abbrev pub at_snapshot : Pending → Bool
at_snapshot a_snapshot = true
at_snapshot _ = false

abbrev pub at_primary : Pending → Bool
at_primary a_primary = true
at_primary _ = false

-- The part of the view that a key sets.
abbrev other_part : String → Pending
other_part key =
    if key == snapshot_record_key
    then a_snapshot
    else if key == primary_record_key
    then a_primary
    else settled

abbrev pub part : String → Pending
part key = elim (parse_transition_key key) [ some k ↦ an_entry k | none ↦ other_part key ]

-- A view and the one that has not seen the dropped record. Their positions are left aside.
pub record Behind (p : Pending) (a b : View) : Type 0 where
  pub entries : (k : Sequence) → at_entry p k ≡ false → get a.items k ≡ get b.items k
  pub admits :
      (k : Sequence) (v : Value)
      → conflicts (get a.items k) v ≡ false
      → conflicts (get b.items k) v ≡ false
  pub snapshots : at_snapshot p ≡ false → a.snapshot ≡ b.snapshot
  pub primaries : at_primary p ≡ false → a.primary ≡ b.primary
  pub epochs : b.primary.epoch ≤ a.primary.epoch
  pub bases : a.base ≡ b.base

-- What is still awaited after a record that sets a part.
abbrev pub after_entry : Pending → Sequence → Pending
after_entry (an_entry j) k = if j == k then settled else an_entry j
after_entry p k = p

abbrev pub after_snapshot : Pending → Pending
after_snapshot a_snapshot = settled
after_snapshot p = p

abbrev pub after_primary : Pending → Pending
after_primary a_primary = settled
after_primary p = p

-- A transition that is applied.
pub apply_transition-done :
    (digest : Digest) (k : Sequence) (value : Option Value) (w w' : View)
    → apply_transition digest k value w ≡ done w'
    → (v : Value) × (value ≡ some v)
      × (conflicts (get w.items k) v ≡ false)
      × (w' ≡ record w { items = put w.items k v })
      × ((b : View)
          → conflicts (get b.items k) v ≡ false
          → apply_transition digest k value b ≡ done (record b { items = put b.items k v }))
unfolding apply_transition
apply_transition-done digest k none w w' h = absurd (cc)
apply_transition-done digest k (some v) w w' h = elim (Option-cases v.as_envelope) [
  | inl bad ↦ absurd (ground (arith, bad))
  | inr (e, good) ↦ elim (Bool-cases (e.sequence == k)) [
    | inr other ↦ absurd (ground (arith, good, other))
    | inl own ↦ elim (Outcome-cases (validate_envelope digest e)) [
      | inr (x, broken) ↦ absurd (ground (arith, good, own, broken))
      | inl (u, valid) ↦ elim (Bool-cases (conflicts (get w.items k) v)) [
        | inl clash ↦ absurd (ground (arith, good, own, valid, clash))
        | inr free ↦ (
          v,
          refl,
          free,
          ground (arith, good, own, valid, free),
          λ b fits. ground (arith, good, own, valid, fits),
        )
      ]
    ]
  ]
]

pub apply_snapshot-done :
    (value : Option Value) (w w' : View)
    → apply_snapshot value w ≡ done w'
    → (s : Option Value) × (w' ≡ record w { snapshot = s })
      × ((b : View) → apply_snapshot value b ≡ done (record b { snapshot = s }))
unfolding apply_snapshot
apply_snapshot-done none w w' h = (none, cc, λ b. refl)
apply_snapshot-done (some v) w w' h = elim (Option-cases v.as_snapshot) [
  | inl bad ↦ absurd (ground (arith, bad))
  | inr (s, good) ↦ elim (Outcome-cases (restore s)) [
    | inr (x, broken) ↦ absurd (ground (arith, good, broken))
    | inl (t, valid) ↦ (some v, ground (arith, good, valid), λ b. ground (arith, good, valid))
  ]
]

pub Answer-cases {ℓ} :
    {A : Type ℓ} (o : Answer A) → ((a : A) × (o ≡ done a)) ⊎ ((x : Failure) × (o ≡ failed x))
Answer-cases (done a) = inl (a, refl)
Answer-cases (failed x) = inr (x, refl)

pub apply_primary-done :
    (v : Value) (w w' : View)
    → apply_primary (some v) w ≡ done w'
    → (q : PrimaryAnnouncement) × (w' ≡ record w { primary = q })
      × (w.primary.epoch ≤ q.epoch)
      × ((b : View)
          → b.primary.epoch ≤ q.epoch
          → apply_primary (some v) b ≡ done (record b { primary = q }))
unfolding apply_primary
apply_primary-done v w w' h = elim (Option-cases v.as_announcement) [
  | inl bad ↦ absurd (ground (arith, bad))
  | inr (q, good) ↦ elim (Answer-cases (validate_announcement q)) [
    | inr (x, broken) ↦ absurd (ground (arith, good, broken))
    | inl (u, valid) ↦ elim (Bool-cases (ltb q.epoch w.primary.epoch)) [
      | inl less ↦ absurd (ground (arith, good, valid, less))
      | inr more ↦ (
        q,
        ground (arith, good, valid, more),
        ground (arith, more),
        λ b above. ground (arith, good, valid, above),
      )
    ]
  ]
]
