-- ===== src/Storage/Kafka/Compaction/Dropped.antt =====
-- What compaction may drop from the state topic, and what it may not.
use mathlib.Core.Path.{subst, subst₂}
use riquet.Domain.Execute.{plain}
use riquet.Domain.Transition.{Digest}
use riquet.Domain.Types.{Sequence}
use riquet.Map.{get, get-put}
use riquet.Prelude.{
  Bool-cases, List, Option, [], ap, arith, eq_iff, false, inl, inr, nat_eq_iff, none, number_eq,
  refl, some, string_eq, sym, true, ◌++◌, ◌+◌, ◌∙◌, ◌∷◌, ◌≡◌,
}
use riquet.Storage.{Failure, done}
use riquet.Storage.Kafka.Compaction.{
  Answer-cases, Behind, Pending, apply_primary-done, apply_snapshot-done, apply_transition-done,
  part, settled,
}
use riquet.Storage.Kafka.Compaction.Loop.{
  records-Behind, records-control, records-done, records-failed, run_records,
}
use riquet.Storage.Kafka.Compaction.Records.{
  ArePlain, HasValue, IsNoCheckpoint, advance-Behind, after_log-has_key, entry_kind, has_key,
  no_kind, primary_kind, record-Kind, snapshot_kind,
}
use riquet.Storage.Kafka.Topic.{
  KafkaRecord, Sha256, Value, View, advance, apply_primary, apply_record, apply_records, conflicts,
}

conflicts_trans :
    (o : Option Value) (v x : Value)
    → conflicts o v ≡ false
    → conflicts (some v) x ≡ false
    → conflicts o x ≡ false
conflicts_trans none v x h k = refl
conflicts_trans (some u) v x h k =
    ground (arith, eq_iff u.raw v.raw, eq_iff v.raw x.raw, eq_iff u.raw x.raw, h, k)

-- The view without a record is behind the one with it.
record-Behind :
    (digest : Digest) (sha256 : Sha256) (a a' : View) (r : KafkaRecord)
    → IsNoCheckpoint r
    → HasValue r
    → apply_record digest sha256 r a ≡ done a'
    → Behind (part r.key) a' a
record-Behind digest sha256 a a' r plain (v, valued) applied =
    elim (record-Kind digest sha256 r plain) [
      | entry_kind k is acts ↦
          let (x, there, free, made, again) =
            apply_transition-done digest k r.value a a' (sym (acts a) ∙ applied) in
          subst₂ (λ (p : Pending) (w : View). Behind p w a) (sym is) (sym made)
            (record {
              entries = λ j clear. ground (arith, get-put a.items k x j, clear);
              admits = λ j y fits. ground (
                arith,
                get-put a.items k x j,
                conflicts_trans (get a.items k) x y free,
                fits,
                nat_eq_iff k j,
              );
              snapshots = λ clear. refl;
              primaries = λ clear. refl;
              epochs = omega arith;
              bases = refl;
            })
      | snapshot_kind is acts ↦
          let (s, made, again) = apply_snapshot-done r.value a a' (sym (acts a) ∙ applied) in
          subst₂ (λ (p : Pending) (w : View). Behind p w a) (sym is) (sym made)
            (record {
              entries = λ j clear. refl;
              admits = λ j y fits. fits;
              snapshots = λ clear. absurd (cc);
              primaries = λ clear. refl;
              epochs = omega arith;
              bases = refl;
            })
      | primary_kind is acts ↦
          let (q, made, above, again) = apply_primary-done v a a' (
            ap (λ (o : Option Value). apply_primary o a) (sym valued) ∙ (sym (acts a) ∙ applied)) in
          subst₂ (λ (p : Pending) (w : View). Behind p w a) (sym is) (sym made)
            (record {
              entries = λ j clear. refl;
              admits = λ j y fits. fits;
              snapshots = λ clear. refl;
              primaries = λ clear. absurd (cc);
              epochs = above;
              bases = refl;
            })
      | no_kind never ↦ absurd (never a a' applied)
    ]

-- Two views that differ in their positions only; maps by what they give for each key.
pub record Agrees (a b : View) : Type 0 where
  pub entries : (k : Sequence) → get a.items k ≡ get b.items k
  pub snapshots : a.snapshot ≡ b.snapshot
  pub primaries : a.primary ≡ b.primary
  pub bases : a.base ≡ b.base

Behind-Agrees : (a b : View) → Behind settled a b → Agrees a b
Behind-Agrees a b h = record {
  entries = λ k. h.entries k refl;
  snapshots = h.snapshots refl;
  primaries = h.primaries refl;
  bases = h.bases;
}

module _ (digest : Digest) (sha256 : Sha256) (r : KafkaRecord) (rest : List KafkaRecord)
    (superseded : has_key r.key rest ≡ true) (counted : r.is_control ≡ false)
    (plain : ArePlain (r ∷ rest)) where
  dropped_first :
      (w : View)
      → (run_records digest sha256 (r ∷ rest) w).0 ≡ none
      → ((run_records digest sha256 rest w).0 ≡ none)
        × Agrees (run_records digest sha256 (r ∷ rest) w).1 (run_records digest sha256 rest w).1
  dropped_first w succeeds = elim (Answer-cases (apply_record digest sha256 r w)) [
    | inr (x, bad) ↦ absurd (
        let e : some x ≡ none =
          ap (λ (o : Option Failure × View). o.0)
            (sym (records-failed digest sha256 r rest w x counted bad))
          ∙ succeeds in
        cc)
    | inl (w', good) ↦
        let n = r.offset + 1 in
        let whole = records-done digest sha256 r rest w w' counted good in
        let unmoved : advance 0 w ≡ w = ground arith in
        let behind = subst (Behind (part r.key) (advance n w')) unmoved (
          advance-Behind (part r.key) w' w n 0
            (record-Behind digest sha256 w w' r plain.0.0 plain.0.1 good)) in
        let (fine, ends) =
          records-Behind digest sha256 rest (part r.key) (advance n w') w behind plain.1
            (ap (λ (o : Option Failure × View). o.0) (sym whole) ∙ succeeds) in
        (
          fine,
          subst (λ (o : Option Failure × View). Agrees o.1 (run_records digest sha256 rest w).1)
              (sym whole)
              (Behind-Agrees _ _ (
                subst
                  (λ (p : Pending).
                    Behind p (run_records digest sha256 rest (advance n w')).1
                      (run_records digest sha256 rest w).1)
                  (after_log-has_key r.key rest superseded) ends)),
        )
  ]

  -- In a log without restore checkpoints whose records have values, let a data record be followed
  -- by one with its key. If the whole log is applied without an error, then so is the log without
  -- that record, and the views agree on each transition, the snapshot, the primary and the base.
  pub apply_records-compacted :
      (prior : List KafkaRecord) (w : View)
      → (apply_records digest sha256 (prior ++ (r ∷ rest)) w).0 ≡ none
      → ((apply_records digest sha256 (prior ++ rest) w).0 ≡ none)
        × Agrees
            (apply_records digest sha256 (prior ++ (r ∷ rest)) w).1
            (apply_records digest sha256 (prior ++ rest) w).1
  apply_records-compacted [] w succeeds = dropped_first w succeeds
  apply_records-compacted (x ∷ prior) w succeeds = elim (Bool-cases x.is_control) [
    | inl control ↦
        let a = records-control digest sha256 x (prior ++ (r ∷ rest)) w control in
        let b = records-control digest sha256 x (prior ++ rest) w control in
        rw (a, b)
          (apply_records-compacted prior (advance (x.offset + 1) w)
            (ap (λ (o : Option Failure × View). o.0) (sym a) ∙ succeeds))
    | inr other ↦ elim (Answer-cases (apply_record digest sha256 x w)) [
      | inr (y, bad) ↦ absurd (
          let e : some y ≡ none =
            ap (λ (o : Option Failure × View). o.0)
              (sym (records-failed digest sha256 x (prior ++ (r ∷ rest)) w y other bad))
            ∙ succeeds in
          cc)
      | inl (w', good) ↦
          let a = records-done digest sha256 x (prior ++ (r ∷ rest)) w w' other good in
          let b = records-done digest sha256 x (prior ++ rest) w w' other good in
          rw (a, b)
            (apply_records-compacted prior (advance (x.offset + 1) w')
              (ap (λ (o : Option Failure × View). o.0) (sym a) ∙ succeeds))
    ]
  ]
