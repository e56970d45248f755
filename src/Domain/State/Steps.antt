-- ===== src/Domain/State/Steps.antt =====
-- The parts of a successful State.Apply.
use mathlib.Core.Path.{subst}
use riquet.Domain.Errors.{>>-eq-ok, >>=-eq-ok, guarded, ok}
use riquet.Domain.Payload.{
  CompatibilityTransition, ModeTransition, RegistrationTransition, read_compatibility,
  read_delete_subject, read_delete_version, read_mode, read_registration,
}
use riquet.Domain.Snapshot.{State, validate, versions_of}
use riquet.Domain.State.{
  apply, apply_compatibility, apply_mode, apply_payload, apply_registration, insert_registration,
  mark_all, mark_deleted, mark_versions, record_operation, unmarshal,
}
use riquet.Domain.Transition.{
  Digest, Envelope, RawMessage, TransitionKind, compatibility_deleted, compatibility_set,
  mode_deleted, mode_set, other_kind, schema_registered, subject_deleted, validate_envelope,
  version_deleted,
}
use riquet.Domain.Types.{Schema, Version}
use riquet.Map.{get, put}
use riquet.Prelude.{
  Bool, List, Option-cases, String, [], arith, eq_iff, inl, inr, not, number_eq, refl, some,
  string_eq, ◌==◌, ◌∷◌, ◌≡◌,
}
use riquet.Prelude.Words.{inc}

-- What Apply did when it succeeded: the envelope was intact and next in sequence, its payload gave
-- `applied`, and the new state is consistent.
pub record Applied (digest : Digest) (s : State) (e : Envelope) (t : State) : Type 0 where
  pub intact : validate_envelope digest e ≡ ok tt
  pub in_sequence : e.sequence ≡ inc s.sequence
  pub applied : State
  pub payload : apply_payload s e.kind e.payload ≡ ok applied
  pub recorded : t ≡ record_operation applied e
  pub valid : validate t ≡ ok tt

pub apply-Applied :
    (digest : Digest) (s : State) (e : Envelope) {t : State}
    → apply digest s e ≡ ok t
    → Applied digest s e t
unfolding apply
apply-Applied digest s e {t} h =
    let (intact, h₁) = >>-eq-ok (validate_envelope digest e) _ h in
    let (follows, h₂) = guarded (not (e.sequence == inc s.sequence)) _ _ h₁ in
    let (next, payload, h₃) = >>=-eq-ok (apply_payload s e.kind e.payload) _ h₂ in
    let (valid, same) = >>-eq-ok (validate (record_operation next e)) _ h₃ in
    let recorded : t ≡ record_operation next e = cc in
    record {
      intact = intact;
      in_sequence = ground arith;
      applied = next;
      payload = payload;
      recorded = recorded;
      valid = rw recorded valid;
    }

-- Apply succeeds where each part does.
pub Applied-apply :
    (digest : Digest) (s : State) (e : Envelope) (t : State)
    → Applied digest s e t
    → apply digest s e ≡ ok t
unfolding apply
Applied-apply digest s e t a =
    ground (arith, a.intact, a.in_sequence, a.payload, a.recorded, a.valid)

-- A registration succeeds only if the ID is free or has the same identity.
pub apply_registration-inserts :
    (s : State) (t : RegistrationTransition) {u : State}
    → apply_registration s t ≡ ok u
    → (u ≡ insert_registration s t)
      × ((old : Schema) → get s.schemas t.schema.id ≡ some old → old.identity ≡ t.schema.identity)
unfolding apply_registration
apply_registration-inserts s t {u} h = elim (Option-cases (get s.schemas t.schema.id)) [
  | inl free ↦ (ground (arith, free), λ old found. cc)
  | inr (existing, taken) ↦ (
    ground (arith, taken),
    λ old found. ground (arith, eq_iff existing.identity t.schema.identity, taken, found),
  )
]

-- Marking versions as deleted changes only the versions of that subject.
pub mark_all-frame :
    (s : State) (subject : String) (vs : List Version) (permanent : Bool) {u : State}
    → mark_all s subject vs permanent ≡ ok u
    → u ≡ record s { subjects = u.subjects }
unfolding mark_all mark_deleted
mark_all-frame s subject [] permanent h = ground arith
mark_all-frame s subject (v ∷ vs) permanent {u} h =
    elim (Option-cases (mark_versions v permanent (versions_of s subject))) [
      | inl e ↦ absurd (ground (arith, e))
      | inr (marked, e) ↦
          mark_all-frame (record s { subjects = put s.subjects subject marked }) subject vs
            permanent (ground (arith, e))
    ]

-- A setting changes only the settings.
pub apply_compatibility-frame :
    (s : State) (kind : TransitionKind) (t : CompatibilityTransition)
    → apply_compatibility s kind t ≡ record s {
      global_compatibility = (apply_compatibility s kind t).global_compatibility;
      subject_compatibility = (apply_compatibility s kind t).subject_compatibility;
    }
unfolding apply_compatibility
apply_compatibility-frame s compatibility_deleted t = refl
apply_compatibility-frame s _ t = ground arith

pub apply_mode-frame :
    (s : State) (kind : TransitionKind) (t : ModeTransition)
    → apply_mode s kind t ≡ record s {
      global_mode = (apply_mode s kind t).global_mode;
      subject_modes = (apply_mode s kind t).subject_modes;
    }
unfolding apply_mode
apply_mode-frame s mode_deleted t = refl
apply_mode-frame s _ t = ground arith

ok_subst {ℓ} : (P : State → Type ℓ) {s u : State} → ok s ≡ ok u → P s → P u
ok_subst P e p = subst P (cc) p

-- The transitions that a payload can be.
module _ {ℓ} (P : State → Type ℓ) (s : State)
    (registers : (t : RegistrationTransition) (u : State) → apply_registration s t ≡ ok u → P u)
    (deletes : (subject : String) (vs : List Version) (permanent : Bool) (u : State)
      → mark_all s subject vs permanent ≡ ok u
      → P u)
    (configures : (kind : TransitionKind) (t : CompatibilityTransition)
      → P (apply_compatibility s kind t))
    (switches : (kind : TransitionKind) (t : ModeTransition) → P (apply_mode s kind t)) where
  pub apply_payload_cases :
      (kind : TransitionKind) (payload : RawMessage) (u : State)
      → apply_payload s kind payload ≡ ok u
      → P u
  unfolding apply_payload
  apply_payload_cases schema_registered payload u h =
      let (t, _, h') = >>=-eq-ok (unmarshal read_registration payload) _ h in registers t u h'
  apply_payload_cases version_deleted payload u h =
      let (t, _, h') = >>=-eq-ok (unmarshal read_delete_version payload) _ h in
      deletes t.subject (t.version ∷ []) t.permanent u h'
  apply_payload_cases subject_deleted payload u h =
      let (t, _, h') = >>=-eq-ok (unmarshal read_delete_subject payload) _ h in
      deletes t.subject t.versions t.permanent u h'
  apply_payload_cases compatibility_set payload u h =
      let (t, _, h') = >>=-eq-ok (unmarshal read_compatibility payload) _ h in
      ok_subst P h' (configures compatibility_set t)
  apply_payload_cases compatibility_deleted payload u h =
      let (t, _, h') = >>=-eq-ok (unmarshal read_compatibility payload) _ h in
      ok_subst P h' (configures compatibility_deleted t)
  apply_payload_cases mode_set payload u h =
      let (t, _, h') = >>=-eq-ok (unmarshal read_mode payload) _ h in
      ok_subst P h' (switches mode_set t)
  apply_payload_cases mode_deleted payload u h =
      let (t, _, h') = >>=-eq-ok (unmarshal read_mode payload) _ h in
      ok_subst P h' (switches mode_deleted t)
  apply_payload_cases (other_kind name) payload u h = absurd (cc)
