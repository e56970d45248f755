-- ===== src/Storage/Kafka/Followed.antt =====
-- What Follow hands on of the transitions that were written.
use riquet.Domain.Machine.{Machine}
use riquet.Domain.Transition.{Digest}
use riquet.Map.{Map}
use riquet.Prelude.{
  Bool-cases, if◌then◌else◌, inl, inr, is_empty, ltb, none, number_eq, refl, string_eq, true, ◌≡◌,
}
use riquet.Storage.Kafka.Consumed.{advance-frame}
use riquet.Storage.Kafka.Store.{Encoding, TopicStore, consume}
use riquet.Storage.Kafka.Topic.{Fetch, Sha256, View, apply_fetch, apply_records, fetched}

-- A fetch sets the items and the base that its records set.
pub apply_fetch-frame :
    (digest : Digest) (sha256 : Sha256) (f : Fetch) (w : View)
    → (started : View) × (started.items ≡ w.items)
      × (started.base ≡ w.base)
      × ((apply_fetch digest sha256 f w).0 ≡ (apply_records digest sha256 f.records started).0)
      × ((apply_fetch digest sha256 f w).1.items
          ≡ (apply_records digest sha256 f.records started).1.items)
      × ((apply_fetch digest sha256 f w).1.base
          ≡ (apply_records digest sha256 f.records started).1.base)
unfolding apply_fetch
apply_fetch-frame digest sha256 f w =
    let started : View =
      if ltb w.committed_end f.last_stable then record w { committed_end = f.last_stable } else w in
    let applied = (apply_records digest sha256 f.records started).1 in
    let frame = advance-frame f.last_stable applied in
    let same : (started.items ≡ w.items) × (started.base ≡ w.base) =
      elim (Bool-cases (ltb w.committed_end f.last_stable)) [
        | inl e ↦ rw e (refl, refl)
        | inr e ↦ rw e (refl, refl)
      ] in
    (
      started,
      same.0,
      same.1,
      refl,
      elim (Bool-cases (is_empty f.records)) [ inl e ↦ rw e frame.0 | inr e ↦ rw e refl ],
      elim (Bool-cases (is_empty f.records)) [ inl e ↦ rw e frame.1 | inr e ↦ rw e refl ],
    )

pub consume-done :
    (encoding : Encoding) (f : Fetch) (s : TopicStore)
    → (apply_fetch encoding.digest encoding.sha256 f s.view).0 ≡ none
    → consume encoding (fetched f) s ≡ (
      true,
      record s {
        view = (apply_fetch encoding.digest encoding.sha256 f s.view).1;
        last_error = none;
        is_ready = true;
      },
    )
unfolding consume
consume-done encoding f s fine = rw (consume, fine) refl
