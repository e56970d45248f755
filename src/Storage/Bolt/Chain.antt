-- ===== src/Storage/Bolt/Chain.antt =====
-- The transitions that a store keeps: each under its sequence, one after the other.
use mathlib.Core.Path.{subst}
use riquet.Domain.Errors.{ok}
use riquet.Domain.Transition.{Digest, Envelope, validate_envelope}
use riquet.Prelude.{
  List, Option, [], ap, arith, nat_eq_iff, none, number_eq, refl, some, string_eq, ℕ, ◌++◌, ◌+◌,
  ◌<◌, ◌∷◌, ◌≡◌, ◌≤◌,
}
use riquet.Storage.Bolt.{Bucket, bucket_put, seek}

-- The envelopes of the entries that hold one.
abbrev pub envelopes : Bucket → List Envelope
envelopes [] = []
envelopes ((k, none) ∷ rest) = envelopes rest
envelopes ((k, some e) ∷ rest) = e ∷ envelopes rest

-- An entry with an intact envelope under its own sequence.
abbrev pub IsEntry : Digest → ℕ → Option Envelope → Type 0
IsEntry digest k stored =
    (e : Envelope) × (stored ≡ some e) × (e.sequence ≡ k) × (validate_envelope digest e ≡ ok tt)

-- Entries from `first` + 1 to `last`, without a gap.
abbrev pub IsChain : Digest → ℕ → Bucket → ℕ → Type 0
IsChain digest first [] last = first ≡ last
IsChain digest first ((k, stored) ∷ rest) last =
    (k ≡ first + 1) × IsEntry digest k stored × IsChain digest (first + 1) rest last

pub IsChain-le :
    (digest : Digest) (first : ℕ) (m : Bucket) (last : ℕ)
    → IsChain digest first m last
    → first ≤ last
IsChain-le digest first [] last c = omega (arith, c)
IsChain-le digest first ((k, stored) ∷ rest) last c =
    omega (arith, IsChain-le digest (first + 1) rest last c.2)

-- The next transition goes to the end.
pub bucket_put-append :
    (digest : Digest) (first : ℕ) (m : Bucket) (last k : ℕ) (v : Option Envelope)
    → IsChain digest first m last
    → last < k
    → bucket_put m k v ≡ m ++ ((k, v) ∷ [])
unfolding bucket_put
bucket_put-append digest first [] last k v c h = refl
bucket_put-append digest first ((j, w) ∷ rest) last k v c h =
    let bound = IsChain-le digest (first + 1) rest last c.2 in
    ground
      (arith, c.0, bound, nat_eq_iff j k, bucket_put-append digest (first + 1) rest last k v c.2 h)

pub IsChain-append :
    (digest : Digest) (first : ℕ) (m : Bucket) (last : ℕ) (e : Envelope)
    → IsChain digest first m last
    → e.sequence ≡ last + 1
    → validate_envelope digest e ≡ ok tt
    → IsChain digest first (m ++ ((e.sequence, some e) ∷ [])) (last + 1)
IsChain-append digest first [] last e c next intact =
    (omega (arith, c, next), (e, refl, refl, intact), omega (arith, c))
IsChain-append digest first ((j, w) ∷ rest) last e c next intact =
    (c.0, c.1, IsChain-append digest (first + 1) rest last e c.2 next intact)

pub envelopes-append :
    (m : Bucket) (k : ℕ) (e : Envelope)
    → envelopes (m ++ ((k, some e) ∷ [])) ≡ envelopes m ++ (e ∷ [])
envelopes-append [] k e = refl
envelopes-append ((j, none) ∷ rest) k e = envelopes-append rest k e
envelopes-append ((j, some x) ∷ rest) k e = ap (λ es. x ∷ es) (envelopes-append rest k e)

-- What follows a part of a chain is a chain, and Seek finds it.
pub IsChain-rest :
    (digest : Digest) (first : ℕ) (prior rest : Bucket) (middle last : ℕ)
    → IsChain digest first prior middle
    → IsChain digest first (prior ++ rest) last
    → IsChain digest middle rest last
IsChain-rest digest first [] rest middle last c d = subst (λ n. IsChain digest n rest last) c d
IsChain-rest digest first ((j, w) ∷ prior) rest middle last c d =
    IsChain-rest digest (first + 1) prior rest middle last c.2 d.2

pub seek-chain :
    (digest : Digest) (first : ℕ) (prior rest : Bucket) (middle last : ℕ)
    → IsChain digest first prior middle
    → IsChain digest middle rest last
    → seek (middle + 1) (prior ++ rest) ≡ rest
unfolding seek
seek-chain digest first [] [] middle last c d = refl
seek-chain digest first [] ((k, w) ∷ rest) middle last c d = ground (arith, d.0)
seek-chain digest first ((j, w) ∷ prior) rest middle last c d =
    let bound = IsChain-le digest (first + 1) prior middle c.2 in
    ground (arith, c.0, bound, seek-chain digest (first + 1) prior rest middle last c.2 d)
