-- ===== src/Prelude/Lists.antt =====
-- Lists measured by native numbers, under the library's names.
use Prim.Native.Nat.{ℕ, zero, suc, ◌+◌, ◌-◌, min}
use mathlib.Core.Path.{◌≡◌, refl, ap, subst}
use mathlib.Core.List.{Permᴰ, List, [], ◌∷◌, ◌++◌, map}
use native.Mathlib.Omega.{arith}

module _ {ℓ} {A : Type ℓ} where
  abbrev pub length : List A → ℕ
  length [] = 0
  length (x ∷ xs) = suc (length xs)

  abbrev pub take : ℕ → List A → List A
  take zero xs = []
  take (suc n) [] = []
  take (suc n) (x ∷ xs) = x ∷ take n xs

  abbrev pub drop : ℕ → List A → List A
  drop zero xs = xs
  drop (suc n) [] = []
  drop (suc n) (x ∷ xs) = drop n xs

  abbrev pub replicate : ℕ → A → List A
  replicate zero a = []
  replicate (suc n) a = a ∷ replicate n a

  abbrev pub concat : List (List A) → List A
  concat [] = []
  concat (xs ∷ xss) = xs ++ concat xss

  abbrev pub All {κ} : (A → Type κ) → List A → Type κ
  All P [] = Unit {κ}
  All P (x ∷ xs) = P x × All P xs

module _ {ℓ} {A : Type ℓ} where
  pub length-append : (xs ys : List A) → length (xs ++ ys) ≡ length xs + length ys
  length-append [] ys = omega arith
  length-append (x ∷ xs) ys = omega (arith, length-append xs ys)

  pub take-append-drop : (n : ℕ) (xs : List A) → take n xs ++ drop n xs ≡ xs
  take-append-drop zero xs = refl
  take-append-drop (suc n) [] = refl
  take-append-drop (suc n) (x ∷ xs) = rw (take-append-drop n xs)

  pub length-take : (n : ℕ) (xs : List A) → length (take n xs) ≡ min n (length xs)
  length-take zero xs = omega arith
  length-take (suc n) [] = omega arith
  length-take (suc n) (x ∷ xs) = omega (arith, length-take n xs)

  pub length-drop : (n : ℕ) (xs : List A) → length (drop n xs) ≡ length xs - n
  length-drop zero xs = omega arith
  length-drop (suc n) [] = omega arith
  length-drop (suc n) (x ∷ xs) = omega (arith, length-drop n xs)

  pub take-append : (xs ys : List A) → take (length xs) (xs ++ ys) ≡ xs
  take-append [] ys = refl
  take-append (x ∷ xs) ys = ap (◌∷◌ x) (take-append xs ys)

  pub drop-append : (xs ys : List A) → drop (length xs) (xs ++ ys) ≡ ys
  drop-append [] ys = refl
  drop-append (x ∷ xs) ys = drop-append xs ys

  pub length-replicate : (n : ℕ) (a : A) → length (replicate n a) ≡ n
  length-replicate zero a = refl
  length-replicate (suc n) a = ap suc (length-replicate n a)

module _ {A : Type 0} {B : Type 0} where
  pub All-of_map :
      (P : B → Type 0) (f : A → B) (xs : List A) → All (λ x. P (f x)) xs → All P (map f xs)
  All-of_map P f [] h = tt
  All-of_map P f (x ∷ xs) (h, hs) = (h, All-of_map P f xs hs)

  pub All-to_map :
      (P : B → Type 0) (f : A → B) (xs : List A) → All P (map f xs) → All (λ x. P (f x)) xs
  All-to_map P f [] h = tt
  All-to_map P f (x ∷ xs) (h, hs) = (h, All-to_map P f xs hs)

pub All-imp :
    {A : Type 0} (P Q : A → Type 0) → ((x : A) → P x → Q x) → (xs : List A) → All P xs → All Q xs
All-imp P Q f [] h = tt
All-imp P Q f (x ∷ xs) (h, hs) = (f x h, All-imp P Q f xs hs)

module _ {ℓ κ} {A : Type ℓ} (P : A → Type κ) where
  pub All-append : (xs ys : List A) → All P xs → All P ys → All P (xs ++ ys)
  All-append [] ys h k = k
  All-append (x ∷ xs) ys (h, hs) k = (h, All-append xs ys hs k)

  pub All-of_append : (xs ys : List A) → All P (xs ++ ys) → All P xs
  All-of_append [] ys h = tt
  All-of_append (x ∷ xs) ys (h, hs) = (h, All-of_append xs ys hs)

  -- What holds of all elements holds of them in another order.
  pub All-perm : (xs ys : List A) → Permᴰ xs ys → All P xs → All P ys
  All-perm _ _ Permᴰ.nil h = tt
  All-perm _ _ (Permᴰ.cons e d) (h, hs) = (subst P e h, All-perm _ _ d hs)
  All-perm _ _ (Permᴰ.swap e f) (h, rest) = (subst P f rest.0, (subst P e h, rest.1))
  All-perm _ _ (Permᴰ.trans d e) h = All-perm _ _ e (All-perm _ _ d h)
