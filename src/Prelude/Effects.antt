-- ===== src/Prelude/Effects.antt =====
-- Fallible operations on a state, such as a stream: the state comes back beside an error too, since
-- what was written before a failure stays written. `?` is bind.
use mathlib.Core.Path.{◌≡◌, refl}
use autonomi_webrtc_direct_p.Prelude.Results.{Result, ok, err, map_err}

abbrev pub Io : Type 0 → Type 0 → Type 0 → Type 0
Io E S A = S → Result E A × S

module _ {E S A : Type 0} where
  abbrev pub pure : A → Io E S A
  pure a s = (ok a, s)

  abbrev pub raise : E → Io E S A
  raise e s = (err e, s)

  -- a result that does not touch the state
  abbrev pub lift : Result E A → Io E S A
  lift r s = (r, s)

-- A method on `&mut self` whose one assignment comes last: a failure before it changes nothing.
abbrev pub commit : {E S : Type 0} → Result E S → Io E S (Unit {0})
commit (ok s') s = (ok tt, s')
commit (err e) s = (err e, s)

module _ {E S A B : Type 0} where
  abbrev pub continue : Result E A → (A → Io E S B) → Io E S B
  continue (ok a) f s = f a s
  continue (err e) f s = (err e, s)

  infixl 10 ◌>>=◌ ◌>>◌
  abbrev pub ◌>>=◌ : Io E S A → (A → Io E S B) → Io E S B
  ◌>>=◌ m f s = let (r, s') = m s in continue r f s'

  abbrev pub ◌>>◌ : Io E S A → Io E S B → Io E S B
  m >> k = m >>= λ _. k

-- `?` where it converts the error
abbrev pub wrap : {E F S A : Type 0} → (E → F) → Io E S A → Io F S A
wrap f m s = let (r, s') = m s in (map_err f r, s')

-- A bind that succeeds has gone through both actions.
pub bind_inv :
    {E S A B : Type 0} (m : Io E S A) (f : A → Io E S B) (s : S) {b : B} {t : S}
    → (m >>= f) s ≡ (ok b, t)
    → (a : A) × (u : S) × (m s ≡ (ok a, u)) × (f a u ≡ (ok b, t))
bind_inv {E} {S} {A} {B} m f s {b} {t} h = go (m s) refl h
  where
    go :
        (out : Result E A × S)
        → m s ≡ out
        → continue out.0 f out.1 ≡ (ok b, t)
        → (a : A) × (u : S) × (m s ≡ (ok a, u)) × (f a u ≡ (ok b, t))
    go (ok a, u) e k = (a, u, e, k)
    go (err x, u) e k = absurd (cc k)

pub wrap_inv :
    {E F S A : Type 0} (g : E → F) (m : Io E S A) (s : S) {a : A} {t : S}
    → wrap g m s ≡ (ok a, t)
    → m s ≡ (ok a, t)
wrap_inv {E} {F} {S} {A} g m s {a} {t} h = go (m s) h
  where
    go :
        (out : Result E A × S)
        → ◌≡◌ {A = Result F A × S} (map_err g out.0, out.1) (ok a, t)
        → ◌≡◌ {A = Result E A × S} out (ok a, t)
    go (ok x, u) k = cc k
    go (err x, u) k = absurd (cc k)

pub lift_inv :
    {E F S A : Type 0} (g : E → F) (r : Result E A) (s : S) {a : A} {t : S}
    → lift (map_err g r) s ≡ (ok a, t)
    → (r ≡ ok a) × (s ≡ t)
lift_inv g (ok x) s h = (cc h, cc h)
lift_inv g (err x) s h = absurd (cc h)

-- An action whose value does not matter leaves its state whether it succeeds or fails.
pub then_pure_state :
    {E F S A B : Type 0} (g : E → F) (m : Io E S A) (b : B) (s : S)
    → ((wrap g m >> pure b) s).1 ≡ (m s).1
then_pure_state {E} {F} {S} {A} {B} g m b s = go (m s)
  where
    go : (out : Result E A × S) → (continue (map_err g out.0) (λ _. pure b) out.1).1 ≡ out.1
    go (ok x, u) = refl
    go (err x, u) = refl

-- An action, whether it succeeds or fails, keeps what holds of the state.
abbrev pub Keeps : {E S A : Type 0} → (S → Type 0) → Io E S A → Type 0
Keeps P m = (s : _) → P s → P (m s).1

module _ {E S : Type 0} (P : S → Type 0) where
  pub Keeps-bind :
      {A B : Type 0} (m : Io E S A) (f : A → Io E S B)
      → Keeps P m
      → ((a : A) → Keeps P (f a))
      → Keeps P (m >>= f)
  Keeps-bind {A} {B} m f h k s p = go (m s) (h s p)
    where
      go : (out : Result E A × S) → P out.1 → P (continue out.0 f out.1).1
      go (ok a, t) q = k a t q
      go (err e, t) q = q

-- What holds at the end of an action: of its value and the state, or of its error and the state.
module _ {E S : Type 0} (Bad : E → S → Type 0) where
  abbrev pub Ends : {A : Type 0} → (A → S → Type 0) → Result E A × S → Type 0
  Ends Good (ok a, s) = Good a s
  Ends Good (err e, s) = Bad e s

  pub Ends-bind :
      {A B : Type 0} (Good : A → S → Type 0) (Better : B → S → Type 0) (m : Io E S A)
      (f : A → Io E S B) (s : S)
      → Ends Good (m s)
      → ((a : A) (t : S) → Good a t → Ends Better (f a t))
      → Ends Better ((m >>= f) s)
  Ends-bind {A} {B} Good Better m f s h next = go (m s) h
    where
      go : (out : Result E A × S) → Ends Good out → Ends Better (continue out.0 f out.1)
      go (ok a, t) k = next a t k
      go (err e, t) k = k

  -- The state at the end is the one that the action leaves.
  pub Ends-at :
      {A : Type 0} (Good : A → S → Type 0) (out : Result E A × S)
      → Ends Good out
      → Ends (λ a t. Good a t × (t ≡ out.1)) out
  Ends-at Good (ok a, t) h = (h, refl)
  Ends-at Good (err e, t) h = h
