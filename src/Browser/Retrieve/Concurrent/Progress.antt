-- ===== src/Browser/Retrieve/Concurrent/Progress.antt =====
-- The invariant of the concurrent loop.
use autonomi_webrtc_direct_p.Prelude.{
  ℕ, ◌≡◌, ◌<◌, refl, sym, ap, ◌∙◌, inl, inr, arith, Bool, true, false, ◌||◌, List, [], ◌∷◌, ◌++◌,
  Bytes, ok, length, bytes_eq, eq_of_bytes_eq, elem, Bool-cases,
}
use autonomi_webrtc_direct_p.Crates.{Crates, CrateLaws, XorName}
use autonomi_webrtc_direct_p.Client.Retrieval.{Retrieval, supply}
use autonomi_webrtc_direct_p.Client.Retrieval.View.{view, hold}
use autonomi_webrtc_direct_p.Browser.Retrieve.Concurrent.{
  Pool, takes, ends, Turns, none_yet, and_then,
}
use autonomi_webrtc_direct_p.Browser.Retrieve.Concurrent.Supplied.{
  IsAccepted, supplied, supplied-front, supply-IsAccepted,
}

elem-append : (j : Bytes) (xs ys : List Bytes) → elem j (xs ++ ys) ≡ elem j xs || elem j ys
elem-append j [] ys = refl
elem-append j (x ∷ xs) ys = ground (arith, elem-append j xs ys)

module _ (c : Crates) (laws : CrateLaws c) (fetched : XorName → Bytes) where
  -- How far the loop over `items` has come.
  pub record Progressed (limit : ℕ) (items : List XorName) (r : Retrieval c) (p : Pool c)
      : Type 0 where
    pub done : List XorName
    pub accounted :
        (j : XorName) → elem j done || (elem j p.in_flight || elem j p.remaining) ≡ elem j items
    pub accepted : (j : XorName) → elem j done ≡ true → IsAccepted c laws fetched j
    pub seen : view p.retrieval ≡ supplied c laws fetched done (view r)

  takes-Progressed :
      (limit : ℕ) (items : List XorName) (r : Retrieval c) (p q : Pool c) (address : XorName)
      → length p.in_flight < limit
      → p.remaining ≡ address ∷ q.remaining
      → q.in_flight ≡ address ∷ p.in_flight
      → q.retrieval ≡ p.retrieval
      → Progressed limit items r p
      → Progressed limit items r q
  takes-Progressed limit items r p q address room left flying same g = record {
    done = g.done;
    accounted = λ j.
        shift (elem j g.done) (bytes_eq address j) (elem j p.in_flight) (elem j q.remaining)
          (elem j q.in_flight) (elem j p.remaining) (ap (elem j) flying) (ap (elem j) left)
        ∙ g.accounted j;
    accepted = g.accepted;
    seen = ap view same ∙ g.seen;
  }
    where
      shift : (d a f m f' m' : Bool) → f' ≡ a || f → m' ≡ a || m → d || (f' || m) ≡ d || (f || m')
      shift d true f m f' m' e h = ground arith
      shift d false f m f' m' e h = ground arith

  ends-Progressed :
      (limit : ℕ) (items : List XorName) (r : Retrieval c) (p q : Pool c) (address : XorName)
      (before after : List XorName)
      → p.in_flight ≡ before ++ address ∷ after
      → q.in_flight ≡ before ++ after
      → q.remaining ≡ p.remaining
      → supply c address (fetched address) p.retrieval ≡ (ok tt, q.retrieval)
      → Progressed limit items r p
      → Progressed limit items r q
  ends-Progressed limit items r p q address before after flew flies same run g =
      let (a, moved) = supply-IsAccepted c laws fetched address p.retrieval q.retrieval run in
      record {
        done = address ∷ g.done;
        accounted = λ j.
            shift (elem j g.done) (bytes_eq address j) (elem j before) (elem j after)
              (elem j p.in_flight) (elem j q.in_flight) (elem j p.remaining) (elem j q.remaining)
              (ap (elem j) flew ∙ elem-append j before (address ∷ after))
              (ap (elem j) flies ∙ elem-append j before after) (ap (elem j) same)
            ∙ g.accounted j;
        accepted = λ j there. elim (Bool-cases (bytes_eq address j)) [
          | inl this ↦ rw (← eq_of_bytes_eq address j this) a
          | inr other ↦ g.accepted j (rw other at there)
        ];
        seen =
            moved
            ∙ ap (λ v. hold c v address a.chunk) g.seen
            ∙ sym (supplied-front c laws fetched address g.done (view r) a);
      }
    where
      shift :
          (d a b e f g m m' : Bool)
          → f ≡ b || (a || e)
          → g ≡ b || e
          → m' ≡ m
          → (a || d) || (g || m') ≡ d || (f || m)
      shift d true b e f g m m' x y z = ground arith
      shift d false b e f g m m' x y z = ground arith

  pub Turns-Progressed :
      (limit : ℕ) (items : List XorName) (r : Retrieval c) {p : Pool c}
      → Turns c fetched limit (record { remaining = items; in_flight = []; retrieval = r }) p
      → Progressed limit items r p
  Turns-Progressed limit items r none_yet = record {
    done = [];
    accounted = λ j. refl;
    accepted = λ j h. absurd (cc h);
    seen = refl;
  }
  Turns-Progressed limit items r (and_then {q} {r = t} before (takes a room left flying same)) =
      takes-Progressed limit items r q t a room left flying same
        (Turns-Progressed limit items r before)
  Turns-Progressed limit items r (and_then {q} {r = t} before (ends a xs ys flew flies same run)) =
      ends-Progressed limit items r q t a xs ys flew flies same run
        (Turns-Progressed limit items r before)
