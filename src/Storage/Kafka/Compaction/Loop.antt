-- ===== src/Storage/Kafka/Compaction/Loop.antt =====
-- The loop over the records, with and without the dropped one.
use mathlib.Core.Path.{subst, subst₂}
use riquet.Domain.Execute.{plain}
use riquet.Domain.Transition.{Digest}
use riquet.Prelude.{
  Bool, Bool-cases, List, Option, [], ap, arith, false, if◌then◌else◌, inl, inr, none, number_eq,
  refl, some, string_eq, sym, true, ◌+◌, ◌∙◌, ◌∷◌, ◌≡◌,
}
use riquet.Storage.{Failure, done, failed}
use riquet.Storage.Kafka.Compaction.{Answer-cases, Behind, Pending, part}
use riquet.Storage.Kafka.Compaction.Records.{
  ArePlain, advance-Behind, after_log, after_part, step_record,
}
use riquet.Storage.Kafka.Topic.{KafkaRecord, Sha256, View, advance, apply_record, apply_records}

-- The loop over the records, one record at a time.
module _ (digest : Digest) (sha256 : Sha256) (r : KafkaRecord) (rest : List KafkaRecord)
    (w : View) where
  pub records-control :
      r.is_control ≡ true
      → apply_records digest sha256 (r ∷ rest) w
        ≡ apply_records digest sha256 rest (advance (r.offset + 1) w)
  unfolding apply_records
  records-control control = ground (arith, control)

  pub records-done :
      (w' : View)
      → r.is_control ≡ false
      → apply_record digest sha256 r w ≡ done w'
      → apply_records digest sha256 (r ∷ rest) w
        ≡ apply_records digest sha256 rest (advance (r.offset + 1) w')
  unfolding apply_records
  records-done w' other good = ground (arith, other, good)

  pub records-failed :
      (x : Failure)
      → r.is_control ≡ false
      → apply_record digest sha256 r w ≡ failed x
      → apply_records digest sha256 (r ∷ rest) w ≡ (some x, w)
  unfolding apply_records
  records-failed x other bad = ground (arith, other, bad)

module _ (digest : Digest) (sha256 : Sha256) where
  abbrev pub run_records : List KafkaRecord → View → Option Failure × View
  run_records = apply_records digest sha256

  -- What the whole log says of two views, from what its rest says of the next ones.
  records-after :
      (r : KafkaRecord) (rest : List KafkaRecord) (p q : Pending) (a b c d : View)
      → run_records (r ∷ rest) a ≡ run_records rest c
      → run_records (r ∷ rest) b ≡ run_records rest d
      → after_log p (r ∷ rest) ≡ after_log q rest
      → ((run_records rest d).0 ≡ none)
        × Behind (after_log q rest) (run_records rest c).1 (run_records rest d).1
      → ((run_records (r ∷ rest) b).0 ≡ none)
        × Behind (after_log p (r ∷ rest)) (run_records (r ∷ rest) a).1 (run_records (r ∷ rest) b).1
  records-after r rest p q a b c d ea eb ep h = (
    ap (λ (o : Option Failure × View). o.0) eb ∙ h.0,
    subst₂ (λ (u v : Option Failure × View). Behind (after_log p (r ∷ rest)) u.1 v.1) (sym ea)
        (sym eb)
        (subst (λ (x : Pending). Behind x (run_records rest c).1 (run_records rest d).1) (sym ep)
          h.1),
  )

  pub records-Behind :
      (log : List KafkaRecord) (p : Pending) (a b : View)
      → Behind p a b
      → ArePlain log
      → (run_records log a).0 ≡ none
      → ((run_records log b).0 ≡ none)
        × Behind (after_log p log) (run_records log a).1 (run_records log b).1
  records-Behind [] p a b h plain succeeds = unfold apply_records in (refl, h)
  records-Behind (r ∷ rest) p a b h plain succeeds = elim (Bool-cases r.is_control) [
    | inl control ↦
        let n = r.offset + 1 in
        let ea = records-control digest sha256 r rest a control in
        records-after r rest p p a b (advance n a) (advance n b) ea
          (records-control digest sha256 r rest b control)
          (ap (λ (c : Bool). after_log (if c then p else after_part p (part r.key)) rest) control)
          (records-Behind rest p (advance n a) (advance n b) (advance-Behind p a b n n h) plain.1
            (ap (λ (o : Option Failure × View). o.0) (sym ea) ∙ succeeds))
    | inr other ↦ elim (Answer-cases (apply_record digest sha256 r a)) [
      | inr (x, bad) ↦ absurd (
          let e : some x ≡ none =
            ap (λ (o : Option Failure × View). o.0)
              (sym (records-failed digest sha256 r rest a x other bad))
            ∙ succeeds in
          cc)
      | inl (a', good) ↦
          let n = r.offset + 1 in
          let (b', again, behind) =
            step_record digest sha256 p a a' b r h plain.0.0 plain.0.1 good in
          let ea = records-done digest sha256 r rest a a' other good in
          records-after r rest p (after_part p (part r.key)) a b (advance n a') (advance n b') ea
            (records-done digest sha256 r rest b b' other again)
            (ap (λ (c : Bool). after_log (if c then p else after_part p (part r.key)) rest) other)
            (records-Behind rest (after_part p (part r.key)) (advance n a') (advance n b')
              (advance-Behind _ a' b' n n behind) plain.1
              (ap (λ (o : Option Failure × View). o.0) (sym ea) ∙ succeeds))
    ]
  ]
