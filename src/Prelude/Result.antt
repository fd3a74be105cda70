-- ===== src/Prelude/Result.antt =====
-- Python exceptions as values: `relay.domain.errors`, the exceptions of `relay.repositories` and
-- `relay.services` that the code tells apart, and those of the standard library that it meets.
use Prim.Native.Nat.{ℕ}
use Prim.Native.String.{String}
use mathlib.Core.Bool.{Bool, true, false}
use mathlib.Core.Path.{◌≡◌, refl}
use mathlib.Core.Logic.{◌⊎◌, inl, inr}

-- `not_found` is `NotFoundError`; `conflict`, `idempotency_key_conflict`,
-- `differing_body_conflict` and `delivery_not_dead` are `ConflictError` and its subclasses;
-- `validation` and `cursor_decode` are `ValidationError` and its subclass.
-- A rate is kept as the fraction of the token bucket: seconds as `needed / rate`.
pub data Error : Type 0 where
  not_found conflict idempotency_key_conflict differing_body_conflict delivery_not_dead : Error
  validation cursor_decode : Error
  rate_limit_exceeded : ℕ → ℕ → Error
  payload_too_large : ℕ → ℕ → Error
  sandbox_quota_exceeded : String → ℕ → Error
  ssrf_blocked domain_error : Error
  http_exception : ℕ → Error
  value_error type_error runtime_error assertion_error os_error other_error : Error

pub data Result {ℓ} (A : Type ℓ) : Type ℓ where
  ok : (value : A) → Result A
  err : (raised : Error) → Result A

module _ {A B : Type 0} where
  infixl 10 ◌>>=◌
  -- what follows a call that may raise
  abbrev pub ◌>>=◌ : Result A → (A → Result B) → Result B
  ok value >>= rest = rest value
  err raised >>= rest = err raised

infixl 10 ◌>>◌
abbrev pub ◌>>◌ : {B : Type 0} → Result (Unit {0}) → Result B → Result B
check >> rest = check >>= λ nothing. rest

-- `if test: raise e`
abbrev pub raise_if : Bool → Error → Result (Unit {0})
raise_if true e = err e
raise_if false e = ok tt

-- A split on a computed check that keeps the equation.
pub check-cases : (r : Result (Unit {0})) → (r ≡ ok tt) ⊎ ((e : Error) × (r ≡ err e))
check-cases (ok tt) = inl refl
check-cases (err e) = inr (e, refl)

pub Result-cases {ℓ} :
    {A : Type ℓ} (r : Result A) → ((a : A) × (r ≡ ok a)) ⊎ ((e : Error) × (r ≡ err e))
Result-cases (ok a) = inl (a, refl)
Result-cases (err e) = inr (e, refl)

pub ok-injective {ℓ} : {A : Type ℓ} {a b : A} → ok a ≡ ok b → a ≡ b
ok-injective h = cc
