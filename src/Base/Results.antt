-- ===== src/Base/Results.antt =====
-- `Result<A, E>` and the `?` operator.
use mathlib.Core.Path.{◌≡◌, refl}
use mathlib.Core.Bool.{Bool, true, false}
use mathlib.Core.Option.{Option, none, some}
use mathlib.Core.Logic.{◌⊎◌, inl, inr}
use native.Mathlib.Omega.{arith}

pub data Result {ℓ κ} (Failure : Type ℓ) (Value : Type κ) : Type (ℓ ⊔ κ) where
  err : Failure → Result Failure Value
  ok : Value → Result Failure Value

-- `?`: the rest of a function runs on the value, or the failure is returned.
infixl 5 ◌>>=◌ ◌>>◌
abbrev pub ◌>>=◌ {ℓ κ μ} :
    {Failure : Type ℓ} {Value : Type κ} {Next : Type μ}
    → Result Failure Value
    → (Value → Result Failure Next)
    → Result Failure Next
err failure >>= rest = err failure
ok value >>= rest = rest value

-- `?` on a check, which has no value.
abbrev pub ◌>>◌ {ℓ κ} :
    {Failure : Type ℓ} {Next : Type κ}
    → Result Failure (Unit {0})
    → Result Failure Next
    → Result Failure Next
check >> rest = check >>= λ _. rest

-- `if test { return Err(failure) }`
abbrev pub reject_if {ℓ} : {Failure : Type ℓ} → Bool → Failure → Result Failure (Unit {0})
reject_if false failure = ok tt
reject_if true failure = err failure

-- `.map_err(f)`
abbrev pub map_err {ℓ κ μ} :
    {E : Type ℓ} {F : Type κ} {A : Type μ} → (E → F) → Result E A → Result F A
map_err f (err failure) = err (f failure)
map_err f (ok value) = ok value

-- `.ok_or(failure)`
abbrev pub ok_or {ℓ κ} : {E : Type ℓ} {A : Type κ} → Option A → E → Result E A
ok_or (some value) failure = ok value
ok_or none failure = err failure

module _ {ℓ κ} {E : Type ℓ} {A : Type κ} where
  pub Result-cases :
      (outcome : Result E A)
      → ((value : A) × (outcome ≡ ok value)) ⊎ ((failure : E) × (outcome ≡ err failure))
  Result-cases (err failure) = inr (failure, refl)
  Result-cases (ok value) = inl (value, refl)

  pub ok-injective : {a b : A} → ◌≡◌ {A = Result E A} (ok a) (ok b) → a ≡ b
  ok-injective h = ground arith

  -- Where a chain of `?` returns a value, each of its parts did.
  pub >>=-eq-ok {μ} :
      {B : Type μ} (first : Result E A) (rest : A → Result E B) {last : B}
      → (first >>= rest) ≡ ok last
      → (value : A) × (first ≡ ok value) × (rest value ≡ ok last)
  >>=-eq-ok (err failure) rest returned = cc
  >>=-eq-ok (ok value) rest returned = (value, refl, returned)

  pub map_err-eq-ok {μ} :
      {F : Type μ} (f : E → F) (outcome : Result E A) {value : A}
      → map_err f outcome ≡ ok value
      → outcome ≡ ok value
  map_err-eq-ok f (err failure) returned = ground arith
  map_err-eq-ok f (ok value) returned = ground arith

pub >>-eq-ok {ℓ κ} :
    {E : Type ℓ} {B : Type κ} (check : Result E (Unit {0})) (rest : Result E B) {last : B}
    → (check >> rest) ≡ ok last
    → (check ≡ ok tt) × (rest ≡ ok last)
>>-eq-ok (err failure) rest returned = cc
>>-eq-ok (ok tt) rest returned = (refl, returned)

pub reject_if-false {ℓ} :
    {E : Type ℓ} (test : Bool) (failure : E)
    → ◌≡◌ {A = Result E (Unit {0})} (reject_if test failure) (ok tt)
    → test ≡ false
reject_if-false false failure h = refl
reject_if-false true failure h = ground arith
