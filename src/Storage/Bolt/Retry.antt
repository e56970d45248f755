-- ===== src/Storage/Bolt/Retry.antt =====
-- Exact retries of Commit.
use mathlib.Core.Path.{subst}
use riquet.Domain.Equal.{same_envelope-eq, same_envelope_refl}
use riquet.Domain.Errors.{Outcome-cases, ok}
use riquet.Domain.Transition.{Digest, Envelope, validate_envelope}
use riquet.Map.{get, same_refl}
use riquet.Prelude.{
  Bool-cases, Option, [], ap, arith, false, inl, inr, leb, none, number_eq, some, string_eq, true,
  ℕ, ◌<◌, ◌^◌, ◌∷◌, ◌≡◌,
}
use riquet.Storage.{Answer, Surroundings, done}
use riquet.Storage.Bolt.{
  Bucket, Store, append_transition, bucket_put, can_encode, commit, is_stored, read_sequence,
  record_error, update,
}
use riquet.Storage.Bolt.Commit.{Committed, appended, commit-Committed, rejected, was_there}
use riquet.Storage.Bolt.Keys.{read_sequence-uint64_key}
use riquet.Storage.Bolt.Persisted.{calm}

get-bucket_put : (m : Bucket) (k : ℕ) (v : Option Envelope) → get (bucket_put m k v) k ≡ some v
unfolding get bucket_put
get-bucket_put [] k v = ground (arith, same_refl k)
get-bucket_put ((j, w) ∷ m) k v = ground (arith, same_refl k, get-bucket_put m k v)

stored-eq : (e : Envelope) (o : Option (Option Envelope)) → is_stored e o ≡ true → o ≡ some (some e)
stored-eq e none h = absurd (cc)
stored-eq e (some none) h = absurd (cc)
stored-eq e (some (some x)) h = ap (λ y. some (some y)) (same_envelope-eq x e h)

-- A Commit that succeeds leaves exactly its envelope stored under its sequence.
pub commit-get :
    (digest : Digest) (s left : Store) (around : Surroundings) (e : Envelope)
    → commit digest s around e ≡ (done tt, left)
    → get left.db.transitions e.sequence ≡ some (some e)
commit-get digest s left around e h = stored (commit-Committed digest s around e) h
  where
    stored :
        {o : Answer (Unit {0}) × Store}
        → Committed digest s e o
        → o ≡ (done tt, left)
        → get left.db.transitions e.sequence ≡ some (some e)
    stored (rejected x after same) eq = absurd (cc (ap (λ (o : Answer (Unit {0}) × Store). o.0) eq))
    stored (was_there old there) eq =
        subst (λ (x : Store). get x.db.transitions e.sequence ≡ some (some e))
          (ap (λ (o : Answer (Unit {0}) × Store). o.1) eq) (stored-eq e _ there)
    stored (appended new follows intact) eq =
        subst (λ (x : Store). get x.db.transitions e.sequence ≡ some (some e))
          (ap (λ (o : Answer (Unit {0}) × Store). o.1) eq)
          (get-bucket_put s.db.transitions e.sequence (some e))

-- A Commit that succeeds leaves a last sequence that is not below the envelope's.
commit-last :
    (digest : Digest) (s left : Store) (around : Surroundings) (e : Envelope)
    → commit digest s around e ≡ (done tt, left)
    → leb e.sequence (read_sequence left.db.last_sequence) ≡ true
commit-last digest s left around e h = bounded (commit-Committed digest s around e) h
  where
    bounded :
        {o : Answer (Unit {0}) × Store}
        → Committed digest s e o
        → o ≡ (done tt, left)
        → leb e.sequence (read_sequence left.db.last_sequence) ≡ true
    bounded (rejected x after same) eq =
        absurd (cc (ap (λ (o : Answer (Unit {0}) × Store). o.0) eq))
    bounded (was_there old there) eq =
        subst (λ (x : Store). leb e.sequence (read_sequence x.db.last_sequence) ≡ true)
          (ap (λ (o : Answer (Unit {0}) × Store). o.1) eq) old
    bounded (appended new follows intact) eq =
        let fits : e.sequence < 2 ^ 64 = ground (arith, follows) in
        subst (λ (x : Store). leb e.sequence (read_sequence x.db.last_sequence) ≡ true)
          (ap (λ (o : Answer (Unit {0}) × Store). o.1) eq)
          (ground (arith, read_sequence-uint64_key e.sequence fits))

-- Commit succeeds only on what Validate accepts and json.Marshal encodes.
commit-intact :
    (digest : Digest) (s left : Store) (around : Surroundings) (e : Envelope)
    → commit digest s around e ≡ (done tt, left)
    → (validate_envelope digest e ≡ ok tt) × (can_encode e.payload ≡ true)
unfolding commit
commit-intact digest s left around e h =
    let answer : (commit digest s around e).0 ≡ done tt =
      ap (λ (o : Answer (Unit {0}) × Store). o.0) h in
    elim (Bool-cases around.is_cancelled) [
      | inl gone ↦ absurd (ground (arith, gone, answer))
      | inr here ↦ elim (Outcome-cases (validate_envelope digest e)) [
        | inr (x, bad) ↦ absurd (ground (arith, here, bad, answer))
        | inl (_, intact) ↦ elim (Bool-cases (can_encode e.payload)) [
          | inl good ↦ (intact, good)
          | inr bad ↦ absurd (ground (arith, here, intact, bad, answer))
        ]
      ]
    ]

-- A Commit that succeeded, called again with the same envelope on the open store that it left, with
-- nothing failing around it, succeeds and leaves that store.
pub commit-retry :
    (digest : Digest) (s left : Store) (around : Surroundings) (e : Envelope)
    → left.is_closed ≡ false
    → commit digest s around e ≡ (done tt, left)
    → commit digest left calm e ≡ (done tt, left)
unfolding commit update append_transition record_error
commit-retry digest s left around e is_open h =
    let (intact, encodes) = commit-intact digest s left around e h in
    ground (
      arith,
      intact,
      encodes,
      is_open,
      commit-last digest s left around e h,
      commit-get digest s left around e h,
      same_envelope_refl e,
    )
