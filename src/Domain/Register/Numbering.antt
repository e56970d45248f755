-- ===== src/Domain/Register/Numbering.antt =====
-- The IDs and the versions that Register gives out.
use mathlib.Core.Path.{subst}
use riquet.Domain.Errors.{ok}
use riquet.Domain.Machine.{Hashes, Machine, replayed}
use riquet.Domain.Machine.Cases.{answered, carry_out-Done, committed}
use riquet.Domain.Payload.{RegistrationTransition}
use riquet.Domain.Register.{
  active_with, known_registration, max_version, next_version, plan_register, register, registration,
}
use riquet.Domain.Register.Chosen.{choose_id-known, choose_version-next}
use riquet.Domain.Register.Planned.{IsPlanned, plan_register-IsPlanned, plan_register-known}
use riquet.Domain.Snapshot.{State, versions_of}
use riquet.Domain.Snapshot.Consistent.{IsConsistent, validate-IsConsistent}
use riquet.Domain.State.{apply, insert_registration, record_operation}
use riquet.Domain.State.Effects.{apply-registration}
use riquet.Domain.State.Steps.{apply-Applied}
use riquet.Domain.Transition.{Envelope}
use riquet.Domain.Types.{RegisterCommand, Result, SchemaId, SubjectVersion, Version}
use riquet.Map.{get, get-put_self}
use riquet.Prelude.{
  All, List, Option-cases, [], ap, arith, false, if◌then◌else◌, inl, inr, none, number_eq, some,
  string_eq, true, ℕ, ◌++◌, ◌∙◌, ◌∷◌, ◌≡◌, ◌≢◌,
}
use riquet.Prelude.Words.{inc, slt}

-- The number is not above the maximum, nor are the versions.
max_version-bounds :
    (maximum : Version) (items : List SubjectVersion)
    → (slt (max_version maximum items) maximum ≡ false)
      × All (λ item. slt (max_version maximum items) item.version ≡ false) items
unfolding max_version
max_version-bounds maximum [] = (ground arith, tt)
max_version-bounds maximum (item ∷ rest) =
    let (above, all) =
      max_version-bounds (if slt maximum item.version then item.version else maximum) rest in
    (ground (arith, above), (ground (arith, above), all))

-- A next version that did not wrap around to a negative number is above the maximum.
inc_above :
    (maximum v : ℕ)
    → slt (inc maximum) 1 ≡ false
    → slt maximum v ≡ false
    → slt v (inc maximum) ≡ true
inc_above maximum v positive h = ground arith

All-map {ℓ} :
    {A : Type ℓ} {P Q : A → Type 0} → ((a : A) → P a → Q a) → (xs : List A) → All P xs → All Q xs
All-map f [] h = tt
All-map f (x ∷ xs) h = (f x h.0, All-map f xs h.1)

All-append {ℓ} : {A : Type ℓ} (P : A → Type 0) (xs : List A) (x : A) → All P (xs ++ (x ∷ [])) → P x
All-append P [] x h = h.0
All-append P (y ∷ xs) x h = All-append P xs x h.1

next_version-above :
    (items : List SubjectVersion)
    → slt (next_version items) 1 ≡ false
    → All (λ item. slt item.version (next_version items) ≡ true) items
unfolding next_version
next_version-above items positive =
    All-map (λ item h. inc_above (max_version 0 items) item.version positive h) items
      (max_version-bounds 0 items).1

-- The last of a subject's versions is positive in a consistent state.
inserted-positive :
    (s : State) (r : RegistrationTransition) (e : Envelope)
    → IsConsistent (record_operation (insert_registration s r) e)
    → slt r.version.version 1 ≡ false
unfolding record_operation insert_registration
inserted-positive s r e ok' =
    (All-append _ (versions_of s r.version.subject) r.version
      (ok'.filed r.version.subject _ (get-put_self s.subjects r.version.subject _)).0).positive

module _ {L : Type 0} (hashes : Hashes) (m m' : Machine L) (c : RegisterCommand) (r : Result) where
  -- How a registration has been committed, if its schema was not known.
  register-IsPlanned :
      replayed m.state c.operation_id ≡ none
      → known_registration m.state c ≡ none
      → register hashes m c ≡ (ok r, m')
      → (e : Envelope) × (next : State) × (IsPlanned hashes m c e r)
        × (apply hashes.digest m.state e ≡ ok next)
  unfolding register
  register-IsPlanned fresh unknown h =
      elim (carry_out-Done hashes m m' c.operation_id (plan_register hashes m c) r fresh h) [
        | answered found same ↦ absurd (let k = plan_register-known hashes m c r found in cc)
        | committed e next log planned applied same ↦
            (e, next, plan_register-IsPlanned hashes m c planned, applied)
      ]

  -- A Register that succeeds for an operation not recorded before and a schema not known in the
  -- subject, and that requests no version, gets a version above all that the subject has had,
  -- deleted ones included, as int64 numbers.
  pub register-version :
      replayed m.state c.operation_id ≡ none
      → known_registration m.state c ≡ none
      → c.requested_version ≡ 0
      → register hashes m c ≡ (ok r, m')
      → All (λ item. slt item.version r.version ≡ true) (versions_of m.state c.subject)
  register-version fresh unknown free h =
      let (e, next, p, applied) = register-IsPlanned fresh unknown h in
      let made =
        apply-registration hashes.digest m.state (inc m.state.sequence) c.operation_id r
          (registration hashes.md5 m.state c p.id p.version) p.envelope applied in
      let ok' =
        subst IsConsistent made
          (validate-IsConsistent next (apply-Applied hashes.digest m.state e applied).valid) in
      let positive =
        inserted-positive m.state (registration hashes.md5 m.state c p.id p.version) e ok' in
      let chosen : p.version ≡ next_version (versions_of m.state c.subject) =
        choose_version-next m.state c p.version free p.chosen_version in
      let version : r.version ≡ next_version (versions_of m.state c.subject) =
        ap (λ (x : Result). x.version) p.outcome ∙ chosen in
      rw version (next_version-above (versions_of m.state c.subject) (rw (← chosen) positive))

  known_registration-id :
      (id : SchemaId)
      → get m.state.identity_to_id c.identity ≡ some id
      → known_registration m.state c ≡ some r
      → r.schema_id ≡ id
  unfolding known_registration
  known_registration-id id at h =
      elim (Option-cases (active_with id (versions_of m.state c.subject))) [
        | inl e ↦ absurd (ground (arith, at, e))
        | inr (item, e) ↦ ground (arith, at, e)
      ]

  -- An identity with an ID other than zero is answered with that ID, in whatever subject it is
  -- registered, if Register succeeds for an operation not recorded before.
  pub register-known_id :
      (id : SchemaId)
      → replayed m.state c.operation_id ≡ none
      → get m.state.identity_to_id c.identity ≡ some id
      → id ≢ 0
      → register hashes m c ≡ (ok r, m')
      → r.schema_id ≡ id
  unfolding register
  register-known_id id fresh at positive h =
      elim (carry_out-Done hashes m m' c.operation_id (plan_register hashes m c) r fresh h) [
        | answered found same ↦ known_registration-id id at (plan_register-known hashes m c r found)
        | committed e next log planned applied same ↦
            let p = plan_register-IsPlanned hashes m c planned in
            ap (λ (x : Result). x.schema_id) p.outcome
            ∙ choose_id-known m.state c id p.id at positive p.chosen_id
      ]
