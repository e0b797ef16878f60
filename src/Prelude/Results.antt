-- ===== src/Prelude/Results.antt =====
-- `Result<A, E>` with its `?` as a bind.
use mathlib.Core.Path.{◌≡◌, refl}
use mathlib.Core.Option.{Option, none, some}
use mathlib.Core.Logic.{◌⊎◌, inl, inr}

pub data Result {ℓ κ} (E : Type ℓ) (A : Type κ) : Type (ℓ ⊔ κ) where
  err : (failure : E) → Result E A
  ok : (value : A) → Result E A

module _ {ℓ} {E : Type ℓ} where
  -- `?`: an error returns at once
  infixl 5 ◌>>=◌ ◌>>◌
  abbrev pub ◌>>=◌ {κ μ} :
      {A : Type κ} {B : Type μ} (tried : Result E A) (next : A → Result E B) → Result E B
  err failure >>= next = err failure
  ok value >>= next = next value

  -- the same for a call whose value is not used
  abbrev pub ◌>>◌ {κ} : {B : Type κ} (tried : Result E (Unit {0})) (next : Result E B) → Result E B
  tried >> next = tried >>= λ done. next

  -- `Option::ok_or_else`, `Context::context` on an option
  abbrev pub ok_or {κ} : {A : Type κ} → Option A → E → Result E A
  ok_or (some a) e = ok a
  ok_or none e = err e

  -- `Result::ok`
  abbrev pub to_option {κ} : {A : Type κ} → Result E A → Option A
  to_option (ok a) = some a
  to_option (err e) = none

  pub Result-cases {κ} :
      {A : Type κ} (got : Result E A)
      → ((value : A) × (got ≡ ok value)) ⊎ ((failure : E) × (got ≡ err failure))
  Result-cases (err failure) = inr (failure, refl)
  Result-cases (ok value) = inl (value, refl)

  pub ok-inj {κ} : {A : Type κ} {a b : A} → ◌≡◌ {A = Result E A} (ok a) (ok b) → a ≡ b
  ok-inj h = cc

  -- A chain that succeeds is two calls that succeed.
  pub >>=-eq-ok {κ μ} :
      {A : Type κ} {B : Type μ} (tried : Result E A) (next : A → Result E B) {last : B}
      → (tried >>= next) ≡ ok last
      → (value : A) × (tried ≡ ok value) × (next value ≡ ok last)
  >>=-eq-ok (err failure) next done = cc
  >>=-eq-ok (ok value) next done = (value, refl, done)

-- `Result::map_err`
abbrev pub map_err {ℓ κ μ} :
    {E : Type ℓ} {F : Type κ} {A : Type μ} → (E → F) → Result E A → Result F A
map_err f (ok a) = ok a
map_err f (err e) = err (f e)

-- `Option::or`
abbrev pub or_else {ℓ} : {A : Type ℓ} → Option A → Option A → Option A
or_else (some a) other = some a
or_else none other = other
