-- ===== src/Domain/State/Effects.antt =====
-- What State.Apply makes of the envelopes that the machine plans.
use mathlib.Core.Path.{subst₂}
use riquet.Domain.Errors.{ok, ok_inj}
use riquet.Domain.Json.{Json}
use riquet.Domain.Payload.{
  CompatibilityTransition, DeleteSubjectTransition, DeleteVersionTransition, ModeTransition,
  RegistrationTransition, read_compatibility, read_delete_subject, read_delete_version, read_mode,
  read_registration, write_compatibility, write_delete_subject, write_delete_version, write_mode,
  write_registration,
}
use riquet.Domain.Payload.RoundTrip.{
  read_compatibility-write_compatibility, read_delete_subject-write_delete_subject,
  read_delete_version-write_delete_version, read_mode-write_mode,
  read_registration-write_registration,
}
use riquet.Domain.Snapshot.{State}
use riquet.Domain.State.{
  apply, apply_compatibility, apply_mode, apply_payload, apply_registration, insert_registration,
  mark_all, record_operation, unmarshal,
}
use riquet.Domain.State.Steps.{apply-Applied, apply_registration-inserts}
use riquet.Domain.Transition.{
  Digest, Envelope, TransitionKind, compatibility_deleted, compatibility_set, encoded, mode_deleted,
  mode_set, new_envelope, schema_registered, subject_deleted, version_deleted,
}
use riquet.Domain.Types.{Result, Sequence}
use riquet.Prelude.{
  Option, String, [], ap, arith, number_eq, refl, some, string_eq, sym, ◌∙◌, ◌∷◌, ◌≡◌,
}

unmarshal-some {ℓ} :
    {A : Type ℓ} (read : Json → Option A) (j : Json) (a : A)
    → read j ≡ some a
    → unmarshal read (encoded j) ≡ ok a
unfolding unmarshal
unmarshal-some read j a h = ground (arith, h)

-- The payload that Apply reads is the one that the envelope was made with.
made_payload :
    (digest : Digest) (s : State) (n : Sequence) (operation_id : String) (kind : TransitionKind)
    (j : Json) (q : Result) {e : Envelope} {u : State}
    → e ≡ new_envelope digest n operation_id kind j q
    → apply_payload s e.kind e.payload ≡ ok u
    → apply_payload s kind (encoded j) ≡ ok u
unfolding new_envelope
made_payload digest s n operation_id kind j q {u = u} made =
    subst₂ (λ k p. apply_payload s k p ≡ ok u) (ap (λ (x : Envelope). x.kind) made)
      (ap (λ (x : Envelope). x.payload) made)

module _ (digest : Digest) (s : State) (n : Sequence) (operation_id : String) (q : Result)
    {t : State} {e : Envelope} where
  -- A planned registration becomes the insertion of its payload.
  pub apply-registration :
      (r : RegistrationTransition)
      → e ≡ new_envelope digest n operation_id schema_registered (write_registration r) q
      → apply digest s e ≡ ok t
      → t ≡ record_operation (insert_registration s r) e
  unfolding apply_payload
  apply-registration r made h =
      let a = apply-Applied digest s e h in
      let payload =
        made_payload digest s n operation_id schema_registered (write_registration r) q made
          a.payload in
      let got =
        unmarshal-some read_registration (write_registration r) r
          (read_registration-write_registration r) in
      let read : apply_registration s r ≡ ok a.applied = rw got at payload in
      a.recorded ∙ ap (λ (x : State). record_operation x e) (apply_registration-inserts s r read).0

  -- A planned deletion becomes the marking of its versions.
  pub apply-version_deletion :
      (r : DeleteVersionTransition)
      → e ≡ new_envelope digest n operation_id version_deleted (write_delete_version r) q
      → apply digest s e ≡ ok t
      → (u : State) × (mark_all s r.subject (r.version ∷ []) r.permanent ≡ ok u)
        × (t ≡ record_operation u e)
  unfolding apply_payload
  apply-version_deletion r made h =
      let a = apply-Applied digest s e h in
      let payload =
        made_payload digest s n operation_id version_deleted (write_delete_version r) q made
          a.payload in
      let got =
        unmarshal-some read_delete_version (write_delete_version r) r
          (read_delete_version-write_delete_version r) in
      (a.applied, rw got at payload, a.recorded)

  pub apply-subject_deletion :
      (r : DeleteSubjectTransition)
      → e ≡ new_envelope digest n operation_id subject_deleted (write_delete_subject r) q
      → apply digest s e ≡ ok t
      → (u : State) × (mark_all s r.subject r.versions r.permanent ≡ ok u)
        × (t ≡ record_operation u e)
  unfolding apply_payload
  apply-subject_deletion r made h =
      let a = apply-Applied digest s e h in
      let payload =
        made_payload digest s n operation_id subject_deleted (write_delete_subject r) q made
          a.payload in
      let got =
        unmarshal-some read_delete_subject (write_delete_subject r) r
          (read_delete_subject-write_delete_subject r) in
      (a.applied, rw got at payload, a.recorded)

  -- An envelope made for a payload that applies to give `u`.
  pub apply-made :
      (kind : TransitionKind) (j : Json) (u : State)
      → e ≡ new_envelope digest n operation_id kind j q
      → apply_payload s kind (encoded j) ≡ ok u
      → apply digest s e ≡ ok t
      → t ≡ record_operation u e
  apply-made kind j u made gives h =
      let a = apply-Applied digest s e h in
      let payload = made_payload digest s n operation_id kind j q made a.payload in
      a.recorded ∙ ap (λ (x : State). record_operation x e) (ok_inj (sym payload ∙ gives))

module _ (s : State) where
  -- The payloads of the settings commands.
  pub apply_payload-compatibility_set :
      (t : CompatibilityTransition)
      → apply_payload s compatibility_set (encoded (write_compatibility t))
        ≡ ok (apply_compatibility s compatibility_set t)
  unfolding apply_payload
  apply_payload-compatibility_set t =
      rw
        (unmarshal-some read_compatibility (write_compatibility t) t
          (read_compatibility-write_compatibility t))
        refl

  pub apply_payload-compatibility_deleted :
      (t : CompatibilityTransition)
      → apply_payload s compatibility_deleted (encoded (write_compatibility t))
        ≡ ok (apply_compatibility s compatibility_deleted t)
  unfolding apply_payload
  apply_payload-compatibility_deleted t =
      rw
        (unmarshal-some read_compatibility (write_compatibility t) t
          (read_compatibility-write_compatibility t))
        refl

  pub apply_payload-mode_set :
      (t : ModeTransition)
      → apply_payload s mode_set (encoded (write_mode t)) ≡ ok (apply_mode s mode_set t)
  unfolding apply_payload
  apply_payload-mode_set t =
      rw (unmarshal-some read_mode (write_mode t) t (read_mode-write_mode t)) refl

  pub apply_payload-mode_deleted :
      (t : ModeTransition)
      → apply_payload s mode_deleted (encoded (write_mode t)) ≡ ok (apply_mode s mode_deleted t)
  unfolding apply_payload
  apply_payload-mode_deleted t =
      rw (unmarshal-some read_mode (write_mode t) t (read_mode-write_mode t)) refl
