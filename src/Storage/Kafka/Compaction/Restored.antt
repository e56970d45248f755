-- ===== src/Storage/Kafka/Compaction/Restored.antt =====
-- A restored topic, whose checkpoint needs the snapshot that it was restored from.
use riquet.Domain.Errors.{ok}
use riquet.Domain.Snapshot.{Snapshot, restore}
use riquet.Prelude.{
  Bool-cases, List, Option, String, [], ap, arith, drop, eq_iff, false, if◌then◌else◌, inl, inr,
  none, not, number_eq, refl, some, string_eq, sym, true, ℕ, ◌==◌, ◌||◌, ◌∙◌, ◌∷◌, ◌≡◌, ◌≢◌,
}
use riquet.Storage.{Failure, done, failed, message}
use riquet.Storage.Kafka.Compaction.Loop.{records-done, records-failed}
use riquet.Storage.Kafka.Layout.{restore_record_key, snapshot_record_key}
use riquet.Storage.Kafka.Snapshots.{checkpoint_for}
use riquet.Storage.Kafka.Store.{Encoding}
use riquet.Storage.Kafka.Topic.{
  KafkaRecord, RestoreCheckpoint, Value, View, advance, apply_record, apply_records, empty_view,
  raw_of,
}

abbrev pub record_at : ℕ → String → Value → KafkaRecord
record_at offset key v = record { offset = offset; is_control = false; key = key; value = some v }

-- What RestoreSnapshot writes, and a snapshot that SaveSnapshot writes later.
abbrev pub restored_log : Encoding → Snapshot → Snapshot → List KafkaRecord
restored_log encoding first second =
    record_at 0 snapshot_record_key (encoding.marshal_snapshot first)
    ∷ record_at 1 restore_record_key (encoding.marshal_checkpoint (checkpoint_for encoding first))
    ∷ record_at 2 snapshot_record_key (encoding.marshal_snapshot second)
    ∷ []

-- encoding/json reads back what it has written.
pub record ReadsBack (encoding : Encoding) : Type 0 where
  pub snapshots : (s : Snapshot) → (encoding.marshal_snapshot s).as_snapshot ≡ some s
  pub checkpoints : (c : RestoreCheckpoint) → (encoding.marshal_checkpoint c).as_checkpoint ≡ some c

module _ (encoding : Encoding) (reads : ReadsBack encoding) (first second : Snapshot)
    (valid_first : restore first ≡ ok first) (valid_second : restore second ≡ ok second) where
  apply_first :
      (offset : ℕ) (w : View) (s : Snapshot)
      → restore s ≡ ok s
      → apply_record encoding.digest encoding.sha256
          (record_at offset snapshot_record_key (encoding.marshal_snapshot s))
          w
        ≡ done (record w { snapshot = some (encoding.marshal_snapshot s) })
  unfolding apply_record
  apply_first offset w s valid = ground (arith, reads.snapshots s, valid)

  apply_restore :
      (w : View)
      → apply_record encoding.digest encoding.sha256
          (record_at 1 restore_record_key
            (encoding.marshal_checkpoint (checkpoint_for encoding first)))
          w
        ≡ (if first.sequence == 0
              || not (
                  encoding.sha256 (encoding.marshal_snapshot first).raw
                  == encoding.sha256 (raw_of w.snapshot))
            then failed (message "invalid Kafka restore checkpoint")
            else done (record w { base = first.sequence }))
  unfolding apply_record checkpoint_for
  apply_restore w = ground (arith, reads.checkpoints (checkpoint_for encoding first))

  -- The checkpoint on a view with the snapshot, and on one without.
  checkpoint-done :
      (w : View)
      → first.sequence ≢ 0
      → w.snapshot ≡ some (encoding.marshal_snapshot first)
      → apply_record encoding.digest encoding.sha256
          (record_at 1 restore_record_key
            (encoding.marshal_checkpoint (checkpoint_for encoding first)))
          w
        ≡ done (record w { base = first.sequence })
  checkpoint-done w nonzero there =
      let zero' : (first.sequence == 0) ≡ false = ground (arith, nonzero) in
      let same : (encoding.sha256 (encoding.marshal_snapshot first).raw
            == encoding.sha256 (raw_of w.snapshot))
          ≡ true =
        (eq_iff _ _).1 (ap (λ o. encoding.sha256 (raw_of o)) (sym there)) in
      apply_restore w ∙ ground (arith, zero', same)

  checkpoint-failed :
      (w : View)
      → w.snapshot ≡ none
      → encoding.sha256 (encoding.marshal_snapshot first).raw ≢ encoding.sha256 ""
      → apply_record encoding.digest encoding.sha256
          (record_at 1 restore_record_key
            (encoding.marshal_checkpoint (checkpoint_for encoding first)))
          w
        ≡ failed (message "invalid Kafka restore checkpoint")
  checkpoint-failed w there apart =
      elim (Bool-cases (
        encoding.sha256 (encoding.marshal_snapshot first).raw
        == encoding.sha256 (raw_of w.snapshot))) [
          | inl same ↦
              absurd (apart ((eq_iff _ _).0 same ∙ ap (λ o. encoding.sha256 (raw_of o)) there))
          | inr other ↦ apply_restore w ∙ ground (arith, other)
        ]

  -- Take the records of a RestoreSnapshot, of a valid snapshot with a sequence other than zero, and
  -- of a later SaveSnapshot, in an encoding that reads back what it writes and where the first
  -- snapshot's checksum is not that of no bytes. A new replica applies them without an error; but
  -- once compaction has dropped the first snapshot, which the second supersedes, it stops with an
  -- invalid restore checkpoint.
  pub compacted-invalid :
      first.sequence ≢ 0
      → encoding.sha256 (encoding.marshal_snapshot first).raw ≢ encoding.sha256 ""
      → ((apply_records encoding.digest encoding.sha256
            (restored_log encoding first second)
            empty_view).0
          ≡ none)
        × ((apply_records encoding.digest encoding.sha256
              (drop 1 (restored_log encoding first second))
              empty_view).0
            ≡ some (message "invalid Kafka restore checkpoint"))
  compacted-invalid nonzero apart =
      let result = λ (o : Option Failure × View). o.0 in
      let one = record empty_view { snapshot = some (encoding.marshal_snapshot first) } in
      let two = record (advance 1 one) { base = first.sequence } in
      let three = record (advance 2 two) { snapshot = some (encoding.marshal_snapshot second) } in
      (
        ap result (
              records-done encoding.digest encoding.sha256 _ _ empty_view one refl
                (apply_first 0 empty_view first valid_first)
              ∙ (records-done encoding.digest encoding.sha256 _ _ (advance 1 one) two refl
                    (checkpoint-done (advance 1 one) nonzero refl)
                  ∙ records-done encoding.digest encoding.sha256 _ [] (advance 2 two) three refl
                      (apply_first 2 (advance 2 two) second valid_second)))
            ∙ (unfold apply_records in refl),
        ap result (
            records-failed encoding.digest encoding.sha256 _ _ empty_view _ refl
              (checkpoint-failed empty_view refl apart)),
      )
