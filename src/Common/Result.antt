-- ===== src/Common/Result.antt =====
-- Failures of a request handler: `throw new AppError(status, code, …)` of
-- src/shared/errors/app-error.ts. The message and the details of the error are left out.
use Prim.Native.Nat.{ℕ}
use Prim.Native.String.{String}
use mathlib.Core.Path.{◌≡◌, refl}
use mathlib.Core.Logic.{◌⊎◌, inl, inr}
use mathlib.Core.Bool.{Bool, true, false}
use mathlib.Core.Option.{Option, none, some}

pub record AppError : Type 0 where
  pub status : ℕ
  pub code : String

abbrev pub app_error : ℕ → String → AppError
app_error status code = record { status = status; code = code }

-- What a handler returns, or the error that it throws.
pub data Result {ℓ} (A : Type ℓ) : Type ℓ where
  err : AppError → Result A
  ok : A → Result A

abbrev pub is_ok {ℓ} : {A : Type ℓ} → Result A → Bool
is_ok (ok _) = true
is_ok (err _) = false

-- `if (c) throw e;`
abbrev pub throw_if : Bool → AppError → Result (Unit {0})
throw_if false thrown = ok tt
throw_if true thrown = err thrown

-- `if (!o) throw e;` on a value that is used afterwards
abbrev pub or_throw {ℓ} : {A : Type ℓ} → Option A → AppError → Result A
or_throw (some found) thrown = ok found
or_throw none thrown = err thrown

infixl 5 ◌>>=◌ ◌>>◌
-- `await` on a step that returns nothing, and on one whose value the rest uses.
abbrev pub ◌>>◌ {κ} : {R : Type κ} → Result (Unit {0}) → Result R → Result R
err thrown >> rest = err thrown
ok done >> rest = rest

abbrev pub ◌>>=◌ {ι κ} : {S : Type ι} {R : Type κ} → Result S → (S → Result R) → Result R
err thrown >>= rest = err thrown
ok value >>= rest = rest value

-- A chain that returns a value has a first step that does.
pub first_step-eq-ok {ι κ} :
    {S : Type ι} {R : Type κ} (step : Result S) (rest : S → Result R) {value : R}
    → (step >>= rest) ≡ ok value
    → (first : S) × (step ≡ ok first) × (rest first ≡ ok value)
first_step-eq-ok (err thrown) rest returned = cc
first_step-eq-ok (ok first) rest returned = (first, refl, returned)

pub after_check-eq-ok {κ} :
    {R : Type κ} (check : Result (Unit {0})) (rest : Result R) {value : R}
    → (check >> rest) ≡ ok value
    → rest ≡ ok value
after_check-eq-ok (err thrown) rest returned = cc
after_check-eq-ok (ok done) rest returned = returned

pub check-eq-ok {κ} :
    {R : Type κ} (check : Result (Unit {0})) (rest : Result R) {value : R}
    → (check >> rest) ≡ ok value
    → check ≡ ok tt
check-eq-ok (err thrown) rest returned = cc
check-eq-ok (ok tt) rest returned = refl

pub throw_if-eq-ok : (test : Bool) (thrown : AppError) → throw_if test thrown ≡ ok tt → test ≡ false
throw_if-eq-ok true thrown passed = cc
throw_if-eq-ok false thrown passed = refl

pub or_throw-eq-ok {ℓ} :
    {A : Type ℓ} (o : Option A) (thrown : AppError) {value : A}
    → or_throw o thrown ≡ ok value
    → o ≡ some value
or_throw-eq-ok (some a) thrown returned = cc
or_throw-eq-ok none thrown returned = cc

pub Result-cases {ℓ} :
    {A : Type ℓ} (r : Result A)
    → ((thrown : AppError) × (r ≡ err thrown)) ⊎ ((value : A) × (r ≡ ok value))
Result-cases (err thrown) = inl (thrown, refl)
Result-cases (ok value) = inr (value, refl)
