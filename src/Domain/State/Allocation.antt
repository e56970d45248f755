-- ===== src/Domain/State/Allocation.antt =====
-- Schema IDs are given out in order: the next one is above all that are stored.
use mathlib.Core.Path.{subst}
use riquet.Domain.Errors.{ok}
use riquet.Domain.Payload.{RegistrationTransition}
use riquet.Domain.Snapshot.{State}
use riquet.Domain.Snapshot.Consistent.{validate-IsConsistent}
use riquet.Domain.State.{
  apply, apply_compatibility, apply_mode, insert_registration, next_id, record_operation,
}
use riquet.Domain.State.Steps.{
  apply-Applied, apply_compatibility-frame, apply_mode-frame, apply_payload_cases,
  apply_registration-inserts, mark_all-frame,
}
use riquet.Domain.Transition.{Digest, Envelope}
use riquet.Domain.Types.{Schema, SchemaId}
use riquet.Map.{Map, get, get-put}
use riquet.Prelude.{
  Bool-cases, ap, arith, false, inl, inr, nat_eq_iff, number_eq, refl, some, string_eq, sym, true,
  ◌==◌, ◌≡◌,
}
use riquet.Prelude.Words.{slt}

-- Each schema is stored under its own ID, which is below NextSchemaID, as int64 numbers.
pub record IsAllocated (s : State) : Type 0 where
  pub below :
      (id : SchemaId) (schema : Schema)
      → get s.schemas id ≡ some schema
      → slt id s.next_schema_id ≡ true
  pub own_key : (id : SchemaId) (schema : Schema) → get s.schemas id ≡ some schema → schema.id ≡ id

-- Where NextSchemaID is still positive afterwards, it has passed the new ID and none of the others.
next_id_above :
    (next id : SchemaId) → slt (next_id next id) 1 ≡ false → slt id (next_id next id) ≡ true
next_id_above next id positive = ground arith

next_id_grows :
    (next id old : SchemaId)
    → slt (next_id next id) 1 ≡ false
    → slt old next ≡ true
    → slt old (next_id next id) ≡ true
next_id_grows next id old positive h = ground arith

insert_registration-IsAllocated :
    (s : State) (t : RegistrationTransition)
    → slt (insert_registration s t).next_schema_id 1 ≡ false
    → IsAllocated s
    → IsAllocated (insert_registration s t)
unfolding insert_registration
insert_registration-IsAllocated s t positive b = record {
  below = λ id schema found. elim (Bool-cases (t.schema.id == id)) [
    | inl same ↦
        subst (λ k. slt k (next_id s.next_schema_id t.schema.id) ≡ true)
          ((nat_eq_iff t.schema.id id).0 same) (next_id_above s.next_schema_id t.schema.id positive)
    | inr other ↦ next_id_grows s.next_schema_id t.schema.id id positive (
        b.below id schema (ground (arith, found, other, get-put s.schemas t.schema.id t.schema id)))
  ];
  own_key = λ id schema found. elim (Bool-cases (t.schema.id == id)) [
    | inl same ↦
        ground
          (arith, found, same, get-put s.schemas t.schema.id t.schema id, nat_eq_iff t.schema.id id)
    | inr other ↦
        b.own_key id schema
          (ground (arith, found, other, get-put s.schemas t.schema.id t.schema id))
  ];
}

-- The schemas and the next ID of a state.
abbrev ids : State → Map SchemaId Schema × SchemaId
ids s = (s.schemas, s.next_schema_id)

same-IsAllocated : (s u : State) → ids u ≡ ids s → IsAllocated s → IsAllocated u
same-IsAllocated s u same b = record {
  below = λ id schema found.
      subst (λ (x : Map SchemaId Schema × SchemaId). get x.0 id ≡ some schema → slt id x.1 ≡ true)
        (sym same) (b.below id schema) found;
  own_key = λ id schema found. b.own_key id schema (
      let e : u.schemas ≡ s.schemas = ap (λ (x : Map SchemaId Schema × SchemaId). x.0) same in
      rw (← e) found);
}

registration-IsAllocated :
    (s u : State) (t : RegistrationTransition)
    → u ≡ insert_registration s t
    → slt u.next_schema_id 1 ≡ false
    → IsAllocated s
    → IsAllocated u
registration-IsAllocated s u t made positive b = subst IsAllocated (sym made) (
    insert_registration-IsAllocated s t
      (subst (λ (x : State). slt x.next_schema_id 1 ≡ false) made positive) b)

-- Applying a transition keeps all stored IDs below the next one: at the largest int64 the next ID
-- would wrap around to a negative number, and validate refuses the state.
pub apply-IsAllocated :
    (digest : Digest) (s t : State) (e : Envelope)
    → apply digest s e ≡ ok t
    → IsAllocated s
    → IsAllocated t
unfolding record_operation
apply-IsAllocated digest s t e h b =
    let a = apply-Applied digest s e h in
    let positive : slt a.applied.next_schema_id 1 ≡ false =
      subst (λ (x : State). slt x.next_schema_id 1 ≡ false) a.recorded
        (validate-IsConsistent t a.valid).next_positive in
    let applied =
      apply_payload_cases (λ u. slt u.next_schema_id 1 ≡ false → IsAllocated u) s
        (λ r u h' p. registration-IsAllocated s u r (apply_registration-inserts s r h').0 p b)
        (λ subject vs permanent u h' _.
          same-IsAllocated s u (ap ids (mark_all-frame s subject vs permanent h')) b)
        (λ kind r _.
          same-IsAllocated s (apply_compatibility s kind r)
            (ap ids (apply_compatibility-frame s kind r)) b)
        (λ kind r _.
          same-IsAllocated s (apply_mode s kind r) (ap ids (apply_mode-frame s kind r)) b)
        e.kind e.payload a.applied a.payload positive in
    subst IsAllocated (sym a.recorded)
      (same-IsAllocated a.applied (record_operation a.applied e) refl applied)
