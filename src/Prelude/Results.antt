-- ===== src/Prelude/Results.antt =====
-- Rust's `Result<T, E>`, with `?` as bind.
use mathlib.Core.Path.{◌≡◌, refl}
use mathlib.Core.Logic.{◌⊎◌, inl, inr}

pub data Result {ℓ κ} (E : Type κ) (A : Type ℓ) : Type (ℓ ⊔ κ) where
  ok : A → Result E A
  err : E → Result E A

module _ {ℓ κ μ} {E : Type κ} {A : Type ℓ} {B : Type μ} where
  infixl 5 ◌>>=◌
  abbrev pub ◌>>=◌ : Result E A → (A → Result E B) → Result E B
  ok a >>= f = f a
  err e >>= f = err e

  -- `.map_err(f)`
  abbrev pub map_err : (E → B) → Result E A → Result B A
  map_err f (ok a) = ok a
  map_err f (err e) = err (f e)

module _ {ℓ κ} {E : Type κ} {A : Type ℓ} where
  pub Result-cases : (r : Result E A) → ((a : A) × (r ≡ ok a)) ⊎ ((e : E) × (r ≡ err e))
  Result-cases (ok a) = inl (a, refl)
  Result-cases (err e) = inr (e, refl)
