-- ===== src/Domain/Register/Planned.antt =====
-- What planRegister has checked when it gives an envelope to commit.
use riquet.Domain.Errors.{>>-eq-ok, >>=-eq-ok, Outcome, guarded, ok}
use riquet.Domain.Machine.{Hashes, Machine, Plan, commits, known}
use riquet.Domain.Payload.{write_registration}
use riquet.Domain.Queries.{effective_compatibility, effective_mode}
use riquet.Domain.Register.{
  candidate, check_references, choose_id, choose_version, compatibility_schemas, known_or_new,
  known_registration, must_check, plan_new, plan_register, registered, registration,
}
use riquet.Domain.Transition.{Envelope, new_envelope, schema_registered}
use riquet.Domain.Types.{RegisterCommand, Result, SchemaId, Version, mode_import, mode_read_only}
use riquet.Prelude.{
  Option, arith, false, none, not, number_eq, refl, some, string_eq, ◌&&◌, ◌==◌, ◌≡◌,
}
use riquet.Prelude.Words.{inc}

known_or_new-commits :
    (o : Option Result) (plan : Outcome Plan) {e : Envelope} {result : Result}
    → known_or_new o plan ≡ ok (commits e result)
    → (o ≡ none) × (plan ≡ ok (commits e result))
known_or_new-commits none plan h = (refl, h)
known_or_new-commits (some r) plan h = absurd (cc)

-- Equal plans commit the same.
pub commits_inj :
    (a b : Envelope) (r q : Result)
    → ◌≡◌ {A = Outcome Plan} (ok (commits a r)) (ok (commits b q))
    → (b ≡ a) × (q ≡ r)
commits_inj a b r q h = (cc, cc)

-- A plan to commit is not an answer.
pub commits-not_known :
    {e : Envelope} {result answer : Result}
    → ◌≡◌ {A = Outcome Plan} (ok (commits e result)) (ok (known answer))
    → ⊥
commits-not_known h = absurd (cc)

module _ {L : Type 0} (hashes : Hashes) (m : Machine L) (c : RegisterCommand) where
  -- Everything that a new registration has passed, with the ID and the version that it gets.
  pub record IsPlanned (e : Envelope) (result : Result) : Type 0 where
    pub id : SchemaId
    pub version : Version
    pub writable : (effective_mode m.state c.subject == mode_read_only) ≡ false
    pub explicit :
        (not (c.requested_id == 0 && c.requested_version == 0)
          && not (effective_mode m.state c.subject == mode_import))
        ≡ false
    pub referenced : check_references m.state c.references ≡ ok tt
    pub unknown : known_registration m.state c ≡ none
    pub chosen_id : choose_id m.state c ≡ ok id
    pub chosen_version : choose_version m.state c ≡ ok version
    pub compatible :
        (must_check m.state c
          && not (
              m.check m.state
                (effective_compatibility m.state c.subject)
                (candidate hashes.md5 m.state c id)
                (compatibility_schemas m.state c.subject)))
        ≡ false
    pub outcome : result ≡ registered hashes.md5 m.state c id version
    pub envelope :
        e
        ≡ new_envelope hashes.digest
            (inc m.state.sequence)
            c.operation_id
            schema_registered
            (write_registration (registration hashes.md5 m.state c id version))
            result

  plan_register-IsPlanned_lem :
      {e : Envelope} {result : Result}
      → (effective_mode m.state c.subject == mode_read_only) ≡ false
      → (not (c.requested_id == 0 && c.requested_version == 0)
          && not (effective_mode m.state c.subject == mode_import))
        ≡ false
      → check_references m.state c.references ≡ ok tt
      → known_registration m.state c ≡ none
      → plan_new hashes m c ≡ ok (commits e result)
      → IsPlanned e result
  unfolding plan_new
  plan_register-IsPlanned_lem {e} {result} writable explicit referenced unknown h =
      let (id, chosen_id, h₁) = >>=-eq-ok (choose_id m.state c) _ h in
      let (version, chosen_version, h₂) = >>=-eq-ok (choose_version m.state c) _ h₁ in
      let (compatible, h₃) = guarded _ _ _ h₂ in
      let r = registered hashes.md5 m.state c id version in
      let (same_envelope, same_result) = commits_inj _ e r result h₃ in
      record {
        id = id;
        version = version;
        writable = writable;
        explicit = explicit;
        referenced = referenced;
        unknown = unknown;
        chosen_id = chosen_id;
        chosen_version = chosen_version;
        compatible = compatible;
        outcome = same_result;
        envelope = rw same_result same_envelope;
      }

  -- The checks that every plan has passed.
  plan_register-passed :
      (p : Plan)
      → plan_register hashes m c ≡ ok p
      → ((effective_mode m.state c.subject == mode_read_only) ≡ false)
        × ((not (c.requested_id == 0 && c.requested_version == 0)
              && not (effective_mode m.state c.subject == mode_import))
            ≡ false)
        × (check_references m.state c.references ≡ ok tt)
        × (known_or_new (known_registration m.state c) (plan_new hashes m c) ≡ ok p)
  unfolding plan_register
  plan_register-passed p h =
      let (valid, h₁) = guarded _ _ _ h in
      let (writable, h₂) = guarded _ _ _ h₁ in
      let (explicit, h₃) = guarded _ _ _ h₂ in
      let (referenced, h₄) = >>-eq-ok (check_references m.state c.references) _ h₃ in
      (writable, explicit, referenced, h₄)

  pub plan_register-IsPlanned :
      {e : Envelope} {result : Result}
      → plan_register hashes m c ≡ ok (commits e result)
      → IsPlanned e result
  plan_register-IsPlanned {e} {result} h =
      let (writable, explicit, referenced, h') = plan_register-passed (commits e result) h in
      let (unknown, new) = known_or_new-commits (known_registration m.state c) _ h' in
      plan_register-IsPlanned_lem writable explicit referenced unknown new

  -- plan_new commits.
  plan_new-not_known : (result : Result) → plan_new hashes m c ≡ ok (known result) → ⊥
  unfolding plan_new
  plan_new-not_known result h =
      let (id, chosen_id, h₁) = >>=-eq-ok (choose_id m.state c) _ h in
      let (version, chosen_version, h₂) = >>=-eq-ok (choose_version m.state c) _ h₁ in
      let (third, h₃) = guarded _ _ _ h₂ in commits-not_known h₃

  known_or_new-known :
      (o : Option Result) (result : Result)
      → known_or_new o (plan_new hashes m c) ≡ ok (known result)
      → o ≡ some result
  known_or_new-known none result h = absurd (plan_new-not_known result h)
  known_or_new-known (some r) result h = ground arith

  -- A plan without an envelope is the answer of an earlier registration.
  pub plan_register-known :
      (result : Result)
      → plan_register hashes m c ≡ ok (known result)
      → known_registration m.state c ≡ some result
  plan_register-known result h =
      let (_, _, _, h') = plan_register-passed (known result) h in
      known_or_new-known (known_registration m.state c) result h'
