-- ===== src/Domain/Register/Chosen.antt =====
-- What planRegister's choice of an ID and of a version guarantees.
use mathlib.Core.Path.{subst}
use riquet.Domain.Errors.{>>=-eq-ok, guarded, ok, ok_inj}
use riquet.Domain.Register.{
  belongs_elsewhere, candidate, choose_id, choose_version, identity_id, next_version,
}
use riquet.Domain.Snapshot.{State, versions_of}
use riquet.Domain.State.Allocation.{IsAllocated}
use riquet.Domain.Types.{RegisterCommand, SchemaId, SubjectVersion, Version}
use riquet.Map.{get}
use riquet.Prelude.{
  List, Option-cases, any, arith, eq_iff, false, if◌then◌else◌, inl, inr, nat_eq_iff, none,
  number_eq, refl, some, string_eq, ℕ, ◌==◌, ◌≡◌, ◌≢◌,
}

-- An ID of one's own identity, or one that no schema has.
pub choose_id-owner :
    (s : State) (c : RegisterCommand) (id : SchemaId)
    → choose_id s c ≡ ok id
    → belongs_elsewhere c.identity (get s.schemas id) ≡ false
unfolding choose_id
choose_id-owner s c id h =
    let (first, _, h₁) = >>=-eq-ok (identity_id c (get s.identity_to_id c.identity)) _ h in
    let (free, h₂) = guarded _ _ _ h₁ in
    let e : (if first == 0 then s.next_schema_id else first) ≡ id = ok_inj h₂ in
    subst (λ k. belongs_elsewhere c.identity (get s.schemas k) ≡ false) e free

-- An ID that is neither requested nor known is the next one.
pub choose_id-next :
    (s : State) (c : RegisterCommand) (id : SchemaId)
    → get s.identity_to_id c.identity ≡ none
    → c.requested_id ≡ 0
    → choose_id s c ≡ ok id
    → id ≡ s.next_schema_id
unfolding choose_id identity_id
choose_id-next s c id unknown free h = ground (arith, unknown)

-- The stored schema, or the new one, has the ID and the identity.
pub candidate-own :
    (md5 : List ℕ → List ℕ) (s : State) (c : RegisterCommand) (id : SchemaId)
    → IsAllocated s
    → choose_id s c ≡ ok id
    → ((candidate md5 s c id).id ≡ id) × ((candidate md5 s c id).identity ≡ c.identity)
unfolding candidate
candidate-own md5 s c id b h = elim (Option-cases (get s.schemas id)) [
  | inl free ↦ rw (free, candidate) (refl, refl)
  | inr (old, stored) ↦
      let owner = choose_id-owner s c id h in
      rw (stored, candidate)
        (b.own_key id old stored, ground (arith, owner, stored, eq_iff old.identity c.identity))
]

-- No version of the subject has the chosen number, not even a deleted one.
pub choose_version-new :
    (s : State) (c : RegisterCommand) (version : Version)
    → choose_version s c ≡ ok version
    → any (λ item. item.version == version) (versions_of s c.subject) ≡ false
unfolding choose_version
choose_version-new s c version h =
    let (new, h₁) = guarded _ _ _ h in
    let e : (if c.requested_version == 0
          then next_version (versions_of s c.subject)
          else c.requested_version)
        ≡ version =
      ok_inj h₁ in
    subst
      (λ (v : Version).
        any (λ (item : SubjectVersion). item.version == v) (versions_of s c.subject) ≡ false)
      e new

-- Without a version of its own the command gets the next one.
pub choose_version-next :
    (s : State) (c : RegisterCommand) (version : Version)
    → c.requested_version ≡ 0
    → choose_version s c ≡ ok version
    → version ≡ next_version (versions_of s c.subject)
unfolding choose_version
choose_version-next s c version free h = ground (arith, free)

-- A known identity keeps its ID.
pub choose_id-known :
    (s : State) (c : RegisterCommand) (own id : SchemaId)
    → get s.identity_to_id c.identity ≡ some own
    → own ≢ 0
    → choose_id s c ≡ ok id
    → id ≡ own
unfolding choose_id identity_id
choose_id-known s c own id at positive h = ground (arith, at, nat_eq_iff own 0)
