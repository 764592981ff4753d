-- ===== src/Prelude/Results.antt =====
-- Rust's `Result`, with any error type, and the chaining of results and options.
use mathlib.Core.Path.{◌≡◌, refl}
use mathlib.Core.Option.{Option, none, some}
use mathlib.Core.Bool.{Bool, true, false}
use mathlib.Core.Logic.{◌⊎◌, inl, inr}

pub data Result {ℓ} (E A : Type ℓ) : Type ℓ where
  err : E → Result E A
  ok : A → Result E A

module _ {ℓ} {E A : Type ℓ} where
  -- `o.ok_or(e)`
  abbrev pub ok_or : Option A → E → Result E A
  ok_or (some value) failure = ok value
  ok_or none failure = err failure

  pub Result-cases : (r : Result E A) → ((value : A) × (r ≡ ok value)) ⊎ ((e : E) × (r ≡ err e))
  Result-cases (err failure) = inr (failure, refl)
  Result-cases (ok value) = inl (value, refl)

module _ {ℓ} {E A B : Type ℓ} where
  infixl 5 ◌>>=◌
  -- `?` in front of the rest of the body
  abbrev pub ◌>>=◌ : Result E A → (A → Result E B) → Result E B
  err failure >>= next = err failure
  ok value >>= next = next value

  infixl 5 ◌>>◌
  abbrev pub ◌>>◌ : Result E A → Result E B → Result E B
  err failure >> next = err failure
  ok value >> next = next

-- `if !test { return Err(e) }`
abbrev pub guard {ℓ} : {E : Type ℓ} → Bool → E → Result E (Unit {ℓ})
guard false failure = err failure
guard true failure = ok tt

module _ {ℓ} {E A B : Type ℓ} where
  -- A chain that succeeds has succeeded at its first step.
  pub bind_ok :
      (r : Result E A) (next : A → Result E B) (b : B)
      → (r >>= next) ≡ ok b
      → (value : A) × (r ≡ ok value) × (next value ≡ ok b)
  bind_ok (ok value) next b h = (value, refl, h)
  bind_ok (err failure) next b h = cc

  pub then_ok :
      (r : Result E A) (next : Result E B) (b : B)
      → (r >> next) ≡ ok b
      → (value : A) × (r ≡ ok value)
  then_ok (ok value) next b h = (value, refl)
  then_ok (err failure) next b h = cc

  pub then_next : (r : Result E A) (next : Result E B) (b : B) → (r >> next) ≡ ok b → next ≡ ok b
  then_next (ok value) next b h = h
  then_next (err failure) next b h = cc
