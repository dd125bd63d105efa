-- ===== src/Prelude/Dict.antt =====
-- A `HashMap` whose keys are byte strings, as an association list with the newest entry in front.
use mathlib.Core.Path.{◌≡◌}
use mathlib.Core.Bool.{Bool, true, false}
use mathlib.Core.List.{List, [], ◌∷◌}
use mathlib.Core.Option.{Option, none, some}
use native.Mathlib.Omega.{arith}
use autonomi_webrtc_direct_p.Prelude.Tests.{Bytes, bytes_eq, bytes_eq_iff, if◌then◌else◌}

abbrev pub Dict {ℓ} : Type ℓ → Type ℓ
Dict V = List (Bytes × V)

module _ {ℓ} {V : Type ℓ} where
  -- `map.get(&key)`
  unfoldable pub get : Dict V → Bytes → Option V
  get [] k = none
  get ((j, v) ∷ d) k = if bytes_eq j k then some v else get d k

  -- `map.contains_key(&key)`
  unfoldable pub contains_key : Dict V → Bytes → Bool
  unfolding get
  contains_key d k = elim (get d k) [ some v ↦ true | none ↦ false ]

  unfoldable pub remove : Dict V → Bytes → Dict V
  remove [] k = []
  remove ((j, v) ∷ d) k = let rest = remove d k in if bytes_eq j k then rest else (j, v) ∷ rest

  -- `map.insert(key, value)`
  unfoldable pub insert : Dict V → Bytes → V → Dict V
  insert d k v = (k, v) ∷ remove d k

  -- `map.keys()`; the order, which a `HashMap` leaves open, is that of the list.
  unfoldable pub keys : Dict V → List Bytes
  keys [] = []
  keys ((j, v) ∷ d) = j ∷ keys d

  pub get-remove :
      (d : Dict V) (k j : Bytes) → get (remove d k) j ≡ (if bytes_eq k j then none else get d j)
  unfolding get remove
  get-remove [] k j = ground arith
  get-remove ((i, v) ∷ d) k j =
      ground (arith, get-remove d k j, bytes_eq_iff i k, bytes_eq_iff i j, bytes_eq_iff k j)

  pub get-insert :
      (d : Dict V) (k j : Bytes) (v : V)
      → get (insert d k v) j ≡ (if bytes_eq k j then some v else get d j)
  unfolding get insert
  get-insert d k j v = ground (arith, get-remove d k j)
