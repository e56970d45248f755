-- ===== src/Map.antt =====
-- Go's built-in maps as association lists. The list order is one order in which `range` may visit
-- the entries.
use mathlib.Core.Path.{subst₂}
use riquet.Prelude.{
  All, Bool-cases, Eq, List, Option, [], arith, if◌then◌else◌, inl, inr, none, number_eq, refl,
  some, string_eq, true, ◌==◌, ◌∷◌, ◌≡◌,
}

abbrev pub Map {ℓ κ} : Type ℓ → Type κ → Type (ℓ ⊔ κ)
Map K V = List (K × V)

pub same_refl {ℓ} : {K : Type ℓ} ⦃e : Eq K⦄ (k : K) → (k == k) ≡ true
same_refl ⦃e⦄ k = (e.same_iff k k).1 refl

module _ {ℓ κ} {K : Type ℓ} {V : Type κ} ⦃e : Eq K⦄ where
  -- v, ok := m[k]
  unfoldable pub get : Map K V → K → Option V
  get [] k = none
  get ((j, v) ∷ m) k = if j == k then some v else get m k

  -- m[k] = v
  unfoldable pub put : Map K V → K → V → Map K V
  put [] k v = (k, v) ∷ []
  put ((j, w) ∷ m) k v = let rest = put m k v in if j == k then (j, v) ∷ m else (j, w) ∷ rest

  -- delete(m, k)
  unfoldable pub delete : Map K V → K → Map K V
  delete [] k = []
  delete ((j, w) ∷ m) k = let rest = delete m k in if j == k then rest else (j, w) ∷ rest

  pub get-put :
      (m : Map K V) (k : K) (v : V) (j : K)
      → get (put m k v) j ≡ (if k == j then some v else get m j)
  unfolding get put
  get-put [] k v j = refl
  get-put ((i, w) ∷ m) k v j =
      ground (arith, get-put m k v j, e.same_iff i k, e.same_iff i j, e.same_iff k j)

  pub get-delete : (m : Map K V) (k j : K) → get (delete m k) j ≡ (if k == j then none else get m j)
  unfolding get delete
  get-delete [] k j = ground arith
  get-delete ((i, w) ∷ m) k j =
      ground (arith, get-delete m k j, e.same_iff i k, e.same_iff i j, e.same_iff k j)

  pub get-put_self : (m : Map K V) (k : K) (v : V) → get (put m k v) k ≡ some v
  get-put_self m k v = rw (get-put, same_refl k)

  -- No key stands in two entries.
  abbrev pub DistinctKeys : Map K V → Type κ
  DistinctKeys [] = Unit
  DistinctKeys ((j, w) ∷ m) = (get m j ≡ none) × DistinctKeys m

module _ {ℓ κ μ} {K : Type ℓ} {V : Type κ} ⦃e : Eq K⦄ (P : K → V → Type μ) where
  -- What holds of every entry holds of what a key finds.
  pub All-get :
      (m : Map K V) (k : K) (v : V) → All (λ entry. P entry.0 entry.1) m → get m k ≡ some v → P k v
  unfolding get
  All-get [] k v all found = absurd (cc)
  All-get ((j, w) ∷ m) k v all found = elim (Bool-cases (j == k)) [
    | inl same ↦ subst₂ P ((e.same_iff j k).0 same) (ground (arith, same)) all.0
    | inr other ↦ All-get m k v all.1 (ground (arith, other))
  ]

  -- The keys of a Go map are distinct; then what holds of every find holds of every entry.
  pub get-All :
      (m : Map K V)
      → DistinctKeys m
      → ((k : K) (v : V) → get m k ≡ some v → P k v)
      → All (λ entry. P entry.0 entry.1) m
  unfolding get
  get-All [] d h = tt
  get-All ((j, w) ∷ m) d h = (h j w (rw same_refl), get-All m d.1 later)
    where
      later : (k : K) (v : V) → get m k ≡ some v → P k v
      later k v found = elim (Bool-cases (j == k)) [
        | inl same ↦ absurd (ground (arith, e.same_iff j k, same, d.0, found))
        | inr other ↦ h k v (rw other found)
      ]
