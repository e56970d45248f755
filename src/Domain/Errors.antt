-- ===== src/Domain/Errors.antt =====
-- internal/domain/errors.go
use riquet.Prelude.{Bool, String, false, inl, inr, number_eq, refl, string_eq, true, ◌≡◌, ◌⊎◌}

-- Stable across HTTP and storage adapters.
pub data ErrorCategory : Type 0 where
  invalid not_found conflict incompatible read_only storage corrupt : ErrorCategory

-- `detail` is the format of the message; its arguments are not rendered.
pub record Error : Type 0 where
  pub category : ErrorCategory
  pub resource : String
  pub detail : String

abbrev pub domain_error : ErrorCategory → String → String → Error
domain_error category resource detail = record {
  category = category;
  resource = resource;
  detail = detail;
}

-- A Go result with an error.
pub data Outcome {ℓ} (A : Type ℓ) : Type ℓ where
  ok : A → Outcome A
  err : Error → Outcome A

-- The early returns on an error: `if err != nil { return err }`.
infixl 5 ◌>>=◌ ◌>>◌
abbrev pub ◌>>=◌ {ℓ κ} :
    {A : Type ℓ} {B : Type κ} (call : Outcome A) (next : A → Outcome B) → Outcome B
ok value >>= next = next value
err failure >>= next = err failure

abbrev pub ◌>>◌ {ℓ} : {B : Type ℓ} (check : Outcome (Unit {0})) (rest : Outcome B) → Outcome B
check >> rest = check >>= λ _. rest

-- if bad { return e }
abbrev pub reject_if : Bool → Error → Outcome (Unit {0})
reject_if true e = err e
reject_if false e = ok tt

-- A chain of calls succeeds only if each does.
pub >>=-eq-ok {ℓ κ} :
    {A : Type ℓ} {B : Type κ} (call : Outcome A) (next : A → Outcome B) {result : B}
    → (call >>= next) ≡ ok result
    → (value : A) × (call ≡ ok value) × (next value ≡ ok result)
>>=-eq-ok (ok value) next h = (value, refl, h)
>>=-eq-ok (err failure) next h = cc

pub >>-eq-ok {ℓ} :
    {B : Type ℓ} (check : Outcome (Unit {0})) (rest : Outcome B) {result : B}
    → (check >> rest) ≡ ok result
    → (check ≡ ok tt) × (rest ≡ ok result)
>>-eq-ok (ok tt) rest h = (refl, h)
>>-eq-ok (err failure) rest h = cc

pub reject_if-eq-ok : (bad : Bool) (e : Error) → reject_if bad e ≡ ok tt → bad ≡ false
reject_if-eq-ok true e h = cc
reject_if-eq-ok false e h = refl

-- A guarded chain: the test fails, and the rest succeeds.
pub guarded {ℓ} :
    {B : Type ℓ} (bad : Bool) (e : Error) (k : Outcome B) {b : B}
    → (reject_if bad e >> k) ≡ ok b
    → (bad ≡ false) × (k ≡ ok b)
guarded true e k h = cc
guarded false e k h = (refl, h)

pub Outcome-cases {ℓ} :
    {A : Type ℓ} (m : Outcome A) → ((a : A) × (m ≡ ok a)) ⊎ ((e : Error) × (m ≡ err e))
Outcome-cases (ok a) = inl (a, refl)
Outcome-cases (err e) = inr (e, refl)

pub ok_inj {ℓ} : {A : Type ℓ} {a b : A} → ok a ≡ ok b → a ≡ b
ok_inj h = cc
