-- ===== src/Storage/Kafka/Compaction/Taken.antt =====
-- A record on a view, and on one that has not seen the dropped record.
use mathlib.Core.Path.{subst}
use riquet.Domain.Transition.{Digest}
use riquet.Domain.Types.{Sequence}
use riquet.Map.{get-put, put}
use riquet.Prelude.{Option, arith, false, number_eq, refl, some, string_eq, sym, ◌==◌, ◌∙◌, ◌≡◌}
use riquet.Storage.{done}
use riquet.Storage.Kafka.Compaction.{
  Behind, Pending, a_primary, a_snapshot, after_entry, after_primary, after_snapshot, an_entry,
  apply_primary-done, apply_snapshot-done, apply_transition-done, at_entry, at_primary, at_snapshot,
  settled,
}
use riquet.Storage.Kafka.Topic.{Value, View, apply_primary, apply_snapshot, apply_transition}

-- What is still awaited was awaited.
after_entry-entry :
    (p : Pending) (k j : Sequence)
    → at_entry (after_entry p k) j ≡ false
    → (k == j) ≡ false
    → at_entry p j ≡ false
after_entry-entry settled k j h other = refl
after_entry-entry (an_entry i) k j h other = ground arith
after_entry-entry a_snapshot k j h other = refl
after_entry-entry a_primary k j h other = refl

after_entry-others :
    (p : Pending) (k : Sequence)
    → (at_snapshot (after_entry p k) ≡ at_snapshot p)
      × (at_primary (after_entry p k) ≡ at_primary p)
after_entry-others settled k = (refl, refl)
after_entry-others (an_entry i) k = ground arith
after_entry-others a_snapshot k = (refl, refl)
after_entry-others a_primary k = (refl, refl)

after_snapshot-others :
    (p : Pending)
    → ((j : Sequence) → at_entry (after_snapshot p) j ≡ at_entry p j)
      × (at_primary (after_snapshot p) ≡ at_primary p)
after_snapshot-others settled = (λ j. refl, refl)
after_snapshot-others (an_entry i) = (λ j. refl, refl)
after_snapshot-others a_snapshot = (λ j. refl, refl)
after_snapshot-others a_primary = (λ j. refl, refl)

after_primary-others :
    (p : Pending)
    → ((j : Sequence) → at_entry (after_primary p) j ≡ at_entry p j)
      × (at_snapshot (after_primary p) ≡ at_snapshot p)
after_primary-others settled = (λ j. refl, refl)
after_primary-others (an_entry i) = (λ j. refl, refl)
after_primary-others a_snapshot = (λ j. refl, refl)
after_primary-others a_primary = (λ j. refl, refl)

module _ (digest : Digest) (p : Pending) (a a' b : View) (h : Behind p a b) where
  pub step_entry :
      (k : Sequence) (value : Option Value)
      → apply_transition digest k value a ≡ done a'
      → (b' : View) × (apply_transition digest k value b ≡ done b') × Behind (after_entry p k) a' b'
  step_entry k value applied =
      let (v, there, free, made, again) = apply_transition-done digest k value a a' applied in
      (
        record b { items = put b.items k v },
        again b (h.admits k v free),
        subst (λ (x : View). Behind (after_entry p k) x (record b { items = put b.items k v }))
            (sym made)
            (record {
              entries = λ j clear. ground (
                arith,
                get-put a.items k v j,
                get-put b.items k v j,
                after_entry-entry p k j clear,
                h.entries j,
              );
              admits = λ j x fits.
                  ground (arith, get-put a.items k v j, get-put b.items k v j, h.admits j x, fits);
              snapshots = λ clear. h.snapshots (sym (after_entry-others p k).0 ∙ clear);
              primaries = λ clear. h.primaries (sym (after_entry-others p k).1 ∙ clear);
              epochs = h.epochs;
              bases = h.bases;
            }),
      )

  pub step_snapshot :
      (value : Option Value)
      → apply_snapshot value a ≡ done a'
      → (b' : View) × (apply_snapshot value b ≡ done b') × Behind (after_snapshot p) a' b'
  step_snapshot value applied =
      let (s, made, again) = apply_snapshot-done value a a' applied in
      (
        record b { snapshot = s },
        again b,
        subst (λ (x : View). Behind (after_snapshot p) x (record b { snapshot = s })) (sym made)
            (record {
              entries = λ j clear. h.entries j (sym ((after_snapshot-others p).0 j) ∙ clear);
              admits = h.admits;
              snapshots = λ clear. refl;
              primaries = λ clear. h.primaries (sym (after_snapshot-others p).1 ∙ clear);
              epochs = h.epochs;
              bases = h.bases;
            }),
      )

  pub step_primary :
      (v : Value)
      → apply_primary (some v) a ≡ done a'
      → (b' : View) × (apply_primary (some v) b ≡ done b') × Behind (after_primary p) a' b'
  step_primary v applied =
      let (q, made, above, again) = apply_primary-done v a a' applied in
      (
        record b { primary = q },
        again b (omega (arith, above, h.epochs)),
        subst (λ (x : View). Behind (after_primary p) x (record b { primary = q })) (sym made)
            (record {
              entries = λ j clear. h.entries j (sym ((after_primary-others p).0 j) ∙ clear);
              admits = h.admits;
              snapshots = λ clear. h.snapshots (sym (after_primary-others p).1 ∙ clear);
              primaries = λ clear. refl;
              epochs = omega arith;
              bases = h.bases;
            }),
      )
