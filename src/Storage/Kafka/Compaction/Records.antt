-- ===== src/Storage/Kafka/Compaction/Records.antt =====
-- A log and its compaction, read record by record.
use riquet.Domain.Execute.{plain}
use riquet.Domain.Transition.{Digest}
use riquet.Domain.Types.{Sequence}
use riquet.Map.{same_refl}
use riquet.Prelude.{
  All, Bool, Bool-cases, List, Option, Option-cases, String, [], any, ap, arith, eq_iff, false,
  if◌then◌else◌, inl, inr, ltb, not, number_eq, refl, some, string_eq, sym, true, ℕ, ◌&&◌, ◌==◌,
  ◌∙◌, ◌∷◌, ◌≡◌, ◌≢◌, ◌⊎◌,
}
use riquet.Storage.{done, failed}
use riquet.Storage.Kafka.Compaction.{
  Behind, Pending, a_primary, a_snapshot, after_entry, after_primary, after_snapshot, an_entry,
  part, settled,
}
use riquet.Storage.Kafka.Compaction.Taken.{step_entry, step_primary, step_snapshot}
use riquet.Storage.Kafka.Layout.{
  parse_transition_key, primary_record_key, restore_record_key, snapshot_record_key,
}
use riquet.Storage.Kafka.Topic.{
  KafkaRecord, Sha256, Value, View, advance, apply_primary, apply_record, apply_snapshot,
  apply_transition,
}

-- What is still awaited after a record that sets a part.
abbrev pub after_part : Pending → Pending → Pending
after_part p settled = p
after_part p (an_entry k) = after_entry p k
after_part p a_snapshot = after_snapshot p
after_part p a_primary = after_primary p

-- Which part a record sets.
pub data Kind (digest : Digest) (sha256 : Sha256) (r : KafkaRecord) : Type 0 where
  entry_kind :
      (k : Sequence)
      → part r.key ≡ an_entry k
      → ((w : View) → apply_record digest sha256 r w ≡ apply_transition digest k r.value w)
      → Kind digest sha256 r
  snapshot_kind :
      part r.key ≡ a_snapshot
      → ((w : View) → apply_record digest sha256 r w ≡ apply_snapshot r.value w)
      → Kind digest sha256 r
  primary_kind :
      part r.key ≡ a_primary
      → ((w : View) → apply_record digest sha256 r w ≡ apply_primary r.value w)
      → Kind digest sha256 r
  no_kind : ((w w' : View) → apply_record digest sha256 r w ≢ done w') → Kind digest sha256 r

-- A record that RestoreSnapshot did not write.
abbrev pub IsNoCheckpoint : KafkaRecord → Type 0
IsNoCheckpoint r = (r.key == restore_record_key) ≡ false

-- A record with a value, as the store and its coordinator write them.
abbrev pub HasValue : KafkaRecord → Type 0
HasValue r = (v : Value) × (r.value ≡ some v)

pub record-Kind :
    (digest : Digest) (sha256 : Sha256) (r : KafkaRecord) → IsNoCheckpoint r → Kind digest sha256 r
unfolding apply_record
record-Kind digest sha256 r plain = elim (Option-cases (parse_transition_key r.key)) [
  | inr (k, parsed) ↦ entry_kind k (rw parsed refl) (λ w. rw (parsed, apply_record) refl)
  | inl unparsed ↦ elim (Bool-cases (r.key == snapshot_record_key)) [
    | inl yes' ↦
        snapshot_kind (rw (unparsed, yes') refl) (λ w. rw (unparsed, apply_record, yes') refl)
    | inr not_snapshot ↦ elim (Bool-cases (r.key == primary_record_key)) [
      | inl yes' ↦
          primary_kind (rw (unparsed, not_snapshot, yes') refl)
            (λ w. rw (unparsed, apply_record, not_snapshot, yes') refl)
      | inr other_key ↦ no_kind (λ w w' bad.
          let e : failed _ ≡ done w' =
            rw (unparsed, apply_record, not_snapshot, other_key, plain) at bad in
          cc)
    ]
  ]
]

module _ (digest : Digest) (sha256 : Sha256) where
  pub step_record :
      (p : Pending) (a a' b : View) (r : KafkaRecord)
      → Behind p a b
      → IsNoCheckpoint r
      → HasValue r
      → apply_record digest sha256 r a ≡ done a'
      → (b' : View) × (apply_record digest sha256 r b ≡ done b')
        × Behind (after_part p (part r.key)) a' b'
  step_record p a a' b r h plain (v, valued) applied = elim (record-Kind digest sha256 r plain) [
    | entry_kind k is acts ↦
        let (b', again, behind) = step_entry digest p a a' b h k r.value (sym (acts a) ∙ applied) in
        (b', acts b ∙ again, rw is behind)
    | snapshot_kind is acts ↦
        let (b', again, behind) =
          step_snapshot digest p a a' b h r.value (sym (acts a) ∙ applied) in
        (b', acts b ∙ again, rw is behind)
    | primary_kind is acts ↦
        let (b', again, behind) =
          step_primary digest p a a' b h v (
            ap (λ (o : Option Value). apply_primary o a) (sym valued) ∙ (sym (acts a) ∙ applied)) in
        (b', acts b ∙ (ap (λ (o : Option Value). apply_primary o b) valued ∙ again), rw is behind)
    | no_kind never ↦ absurd (never a a' applied)
  ]

-- A part that is set is awaited no longer, and one that is not awaited stays so.
after_part_self : (p : Pending) → after_part p p ≡ settled
after_part_self settled = refl
after_part_self (an_entry k) = rw (same_refl k) refl
after_part_self a_snapshot = refl
after_part_self a_primary = refl

after_part-settled : (p : Pending) → after_part settled p ≡ settled
after_part-settled settled = refl
after_part-settled (an_entry k) = refl
after_part-settled a_snapshot = refl
after_part-settled a_primary = refl

-- A record waits on, or it sets the part that is awaited.
after_part-cases : (p q : Pending) → (after_part p q ≡ settled) ⊎ (after_part p q ≡ p)
after_part-cases p settled = inr refl
after_part-cases settled (an_entry k) = inl refl
after_part-cases (an_entry j) (an_entry k) = elim (Bool-cases (j == k)) [
  | inl same ↦ inl (rw same refl)
  | inr other ↦ inr (rw other refl)
]
after_part-cases a_snapshot (an_entry k) = inr refl
after_part-cases a_primary (an_entry k) = inr refl
after_part-cases settled a_snapshot = inl refl
after_part-cases (an_entry j) a_snapshot = inr refl
after_part-cases a_snapshot a_snapshot = inl refl
after_part-cases a_primary a_snapshot = inr refl
after_part-cases settled a_primary = inl refl
after_part-cases (an_entry j) a_primary = inr refl
after_part-cases a_snapshot a_primary = inr refl
after_part-cases a_primary a_primary = inl refl

-- A record with a key among the records that are no control markers.
abbrev pub has_key : String → List KafkaRecord → Bool
has_key key log = any (λ r. not r.is_control && r.key == key) log

abbrev pub ArePlain : List KafkaRecord → Type 0
ArePlain log = All (λ r. IsNoCheckpoint r × HasValue r) log

pub advance-Behind :
    (p : Pending) (a b : View) (n m : ℕ) → Behind p a b → Behind p (advance n a) (advance m b)
advance-Behind p a b n m h = elim (Bool-cases (ltb a.position n)) [
  | inl e ↦ elim (Bool-cases (ltb b.position m)) [
    | inl f ↦ rw (e, f) (again _ _)
    | inr f ↦ rw (e, f) (again _ _)
  ]
  | inr e ↦ elim (Bool-cases (ltb b.position m)) [
    | inl f ↦ rw (e, f) (again _ _)
    | inr f ↦ rw (e, f) h
  ]
]
  where
    again : (i j : ℕ) → Behind p (record a { position = i }) (record b { position = j })
    again i j = record {
      entries = h.entries;
      admits = h.admits;
      snapshots = h.snapshots;
      primaries = h.primaries;
      epochs = h.epochs;
      bases = h.bases;
    }

-- What is still awaited after a log.
abbrev pub after_log : Pending → List KafkaRecord → Pending
after_log p [] = p
after_log p (r ∷ rest) = after_log (if r.is_control then p else after_part p (part r.key)) rest

after_log-settled : (log : List KafkaRecord) → after_log settled log ≡ settled
after_log-settled [] = refl
after_log-settled (r ∷ rest) = elim (Bool-cases r.is_control) [
  | inl control ↦ rw control (after_log-settled rest)
  | inr other ↦ rw (other, after_part-settled (part r.key)) (after_log-settled rest)
]

pub after_log-has_key :
    (key : String) (log : List KafkaRecord)
    → has_key key log ≡ true
    → after_log (part key) log ≡ settled
after_log-has_key key [] h = absurd (cc)
after_log-has_key key (r ∷ rest) h = elim (Bool-cases r.is_control) [
  | inl control ↦ rw control (after_log-has_key key rest (ground (arith, control)))
  | inr other ↦ elim (after_part-cases (part key) (part r.key)) [
    | inl set ↦ rw (other, set) (after_log-settled rest)
    | inr same ↦ elim (Bool-cases (r.key == key)) [
      | inl own ↦
          let e = (eq_iff r.key key).0 own in
          let set : after_part (part key) (part r.key) ≡ settled =
            ap (λ k. after_part (part key) (part k)) e ∙ after_part_self (part key) in
          rw (other, set) (after_log-settled rest)
      | inr apart ↦ rw (other, same) (after_log-has_key key rest (ground (arith, other, apart)))
    ]
  ]
]
