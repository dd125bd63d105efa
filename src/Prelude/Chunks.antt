-- ===== src/Prelude/Chunks.antt =====
-- `slice.chunks(n)`: consecutive pieces of `n` elements, the last one possibly shorter.
use Prim.Native.Nat.{ℕ, zero, suc, ◌≤◌, ◌<◌}
use mathlib.Core.Path.{◌≡◌, refl, ap, ap₂}
use mathlib.Core.List.{List, [], ◌∷◌, ◌++◌}
use native.Mathlib.Omega.{arith}
use autonomi_webrtc_direct_p.Prelude.Lists.{
  length, take, drop, concat, All, take-append-drop, length-take, length-drop, length-append,
  take-append, drop-append,
}

module _ {ℓ} {A : Type ℓ} where
  chunks_fuel : ℕ → ℕ → List A → List (List A)
  chunks_fuel zero n xs = []
  chunks_fuel (suc fuel) n [] = []
  chunks_fuel (suc fuel) n (x ∷ xs) = take n (x ∷ xs) ∷ chunks_fuel fuel n (drop n (x ∷ xs))

  -- One piece takes an element at least (the source's `n` are positive), so the length is enough.
  unfoldable pub chunks : ℕ → List A → List (List A)
  unfolding chunks_fuel
  chunks n xs = chunks_fuel (length xs) n xs

  concat-chunks_fuel :
      (fuel n : ℕ) (xs : List A) → 0 < n → length xs ≤ fuel → concat (chunks_fuel fuel n xs) ≡ xs
  unfolding chunks_fuel
  concat-chunks_fuel zero n [] p h = refl
  concat-chunks_fuel zero n (x ∷ xs) p h = absurd (omega arith)
  concat-chunks_fuel (suc fuel) n [] p h = refl
  concat-chunks_fuel (suc fuel) n (x ∷ xs) p h =
      rw (concat-chunks_fuel fuel n (drop n (x ∷ xs)) p (omega (arith, length-drop n (x ∷ xs))))
        (take-append-drop n (x ∷ xs))

  -- The pieces together are the slice.
  pub concat-chunks : (n : ℕ) (xs : List A) → 0 < n → concat (chunks n xs) ≡ xs
  unfolding chunks
  concat-chunks n xs p = concat-chunks_fuel (length xs) n xs p (omega arith)

  chunks_fuel_bounds :
      (fuel n : ℕ) (xs : List A)
      → 0 < n
      → All (λ piece. (0 < length piece) × (length piece ≤ n)) (chunks_fuel fuel n xs)
  unfolding chunks_fuel
  chunks_fuel_bounds zero n xs p = tt
  chunks_fuel_bounds (suc fuel) n [] p = tt
  chunks_fuel_bounds (suc fuel) n (x ∷ xs) p = (
    (omega (arith, length-take n (x ∷ xs)), omega (arith, length-take n (x ∷ xs))),
    chunks_fuel_bounds fuel n (drop n (x ∷ xs)) p,
  )

  -- Every piece has 1 to `n` elements.
  pub chunks_bounds :
      (n : ℕ) (xs : List A)
      → 0 < n
      → All (λ piece. (0 < length piece) × (length piece ≤ n)) (chunks n xs)
  unfolding chunks
  chunks_bounds n xs p = chunks_fuel_bounds (length xs) n xs p

  -- Any fuel that reaches the length gives the same pieces.
  chunks_fuel_enough :
      (f g n : ℕ) (xs : List A)
      → 0 < n
      → length xs ≤ f
      → length xs ≤ g
      → chunks_fuel f n xs ≡ chunks_fuel g n xs
  unfolding chunks_fuel
  chunks_fuel_enough zero zero n [] p h k = refl
  chunks_fuel_enough zero (suc g) n [] p h k = refl
  chunks_fuel_enough (suc f) zero n [] p h k = refl
  chunks_fuel_enough (suc f) (suc g) n [] p h k = refl
  chunks_fuel_enough zero g n (x ∷ xs) p h k = absurd (omega arith)
  chunks_fuel_enough (suc f) zero n (x ∷ xs) p h k = absurd (omega arith)
  chunks_fuel_enough (suc f) (suc g) n (x ∷ xs) p h k = ap (◌∷◌ (take n (x ∷ xs))) (
      chunks_fuel_enough f g n (drop n (x ∷ xs)) p (omega (arith, length-drop n (x ∷ xs)))
        (omega (arith, length-drop n (x ∷ xs))))

  pub chunks-pair : (x y : A) (xs : List A) → chunks 2 (x ∷ y ∷ xs) ≡ (x ∷ y ∷ []) ∷ chunks 2 xs
  unfolding chunks
  chunks-pair x y xs = ap (◌∷◌ (x ∷ y ∷ [])) (
      chunks_fuel_enough (suc (length xs)) (length xs) 2 xs (omega arith) (omega arith)
        (omega arith))

  -- The first piece of a slice of at least `n` elements.
  pub chunks-append :
      (n : ℕ) (xs ys : List A) → 0 < n → length xs ≡ n → chunks n (xs ++ ys) ≡ xs ∷ chunks n ys
  unfolding chunks
  chunks-append n [] ys p h = absurd (omega arith)
  chunks-append n (x ∷ xs) ys p h = ap₂ ◌∷◌ (first n h) (rest n h)
    where
      first : (k : ℕ) → length (x ∷ xs) ≡ k → take k (x ∷ (xs ++ ys)) ≡ x ∷ xs
      first k e = rw (← e) (take-append (x ∷ xs) ys)

      rest :
          (k : ℕ)
          → length (x ∷ xs) ≡ k
          → chunks_fuel (length (xs ++ ys)) n (drop k (x ∷ (xs ++ ys)))
            ≡ chunks_fuel (length ys) n ys
      rest k e = rw (← e) (
          rw (drop-append xs ys) (
            chunks_fuel_enough (length (xs ++ ys)) (length ys) n ys p
              (omega (arith, length-append xs ys)) (omega arith)))
