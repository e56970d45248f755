-- ===== src/Domain/State/Growth.antt =====
-- Schemas are never dropped, and an ID never changes its identity.
use riquet.Domain.Errors.{ok}
use riquet.Domain.Payload.{RegistrationTransition}
use riquet.Domain.Snapshot.{State}
use riquet.Domain.State.{
  apply, apply_compatibility, apply_mode, insert_registration, record_operation,
}
use riquet.Domain.State.Steps.{
  apply-Applied, apply_compatibility-frame, apply_mode-frame, apply_payload_cases,
  apply_registration-inserts, mark_all-frame,
}
use riquet.Domain.Transition.{Digest, Envelope}
use riquet.Domain.Types.{Schema, SchemaId}
use riquet.Map.{get, get-put}
use riquet.Prelude.{Bool-cases, ap, arith, inl, inr, number_eq, refl, some, string_eq, ◌==◌, ◌≡◌}

-- Every stored schema is still there, under its ID and with its identity.
abbrev pub Keeps : State → State → Type 0
Keeps s t =
    (id : SchemaId) (old : Schema)
    → get s.schemas id ≡ some old
    → (new : Schema) × (get t.schemas id ≡ some new) × (new.identity ≡ old.identity)

-- Where the schemas are the same, nothing is lost.
same-Keeps : (s t : State) → t.schemas ≡ s.schemas → Keeps s t
same-Keeps s t e id old found = (old, rw e found, refl)

insert_registration-Keeps :
    (s : State) (t : RegistrationTransition)
    → ((old : Schema) → get s.schemas t.schema.id ≡ some old → old.identity ≡ t.schema.identity)
    → Keeps s (insert_registration s t)
unfolding insert_registration
insert_registration-Keeps s t agrees id old found = elim (Bool-cases (t.schema.id == id)) [
  | inl same ↦ (t.schema, rw (get-put, same), ground (arith, agrees old, found, same))
  | inr other ↦ (old, rw (get-put, other) found, refl)
]

-- Applying a transition keeps every schema ID and its identity.
pub apply-Keeps :
    (digest : Digest) (s t : State) (e : Envelope) → apply digest s e ≡ ok t → Keeps s t
unfolding record_operation
apply-Keeps digest s t e h =
    let a = apply-Applied digest s e h in
    rw a.recorded (
      apply_payload_cases (λ u. Keeps s u) s
        (λ r u h'.
          let (made, agrees) = apply_registration-inserts s r h' in
          rw made (insert_registration-Keeps s r agrees))
        (λ subject vs permanent u h'.
          same-Keeps s u (ap (λ (x : State). x.schemas) (mark_all-frame s subject vs permanent h')))
        (λ kind r.
          same-Keeps s (apply_compatibility s kind r)
            (ap (λ (x : State). x.schemas) (apply_compatibility-frame s kind r)))
        (λ kind r.
          same-Keeps s (apply_mode s kind r)
            (ap (λ (x : State). x.schemas) (apply_mode-frame s kind r)))
        e.kind e.payload a.applied a.payload)
