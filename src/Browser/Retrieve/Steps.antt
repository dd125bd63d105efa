-- ===== src/Browser/Retrieve/Steps.antt =====
-- Whatever `retrieve` returns was reached by calls of `supply` and `advance` with fetched bytes.
use autonomi_webrtc_direct_p.Prelude.{
  ℕ, zero, suc, ◌≡◌, ◌⊎◌, inl, inr, refl, ap, ◌∙◌, arith, not, ◌&&◌, List, [], ◌∷◌, Option, none,
  some, Bytes, Result, ok, err, map_err, length, ◌==◌, Bool-cases, Result-cases,
}
use autonomi_webrtc_direct_p.Prelude.Effects.{Io, continue, ◌>>◌}
use autonomi_webrtc_direct_p.Crates.{Crates, CrateLaws, Collision, XorName}
use autonomi_webrtc_direct_p.Client.Retrieval.{
  Retrieval, begin, advance, is_complete, finish, required_addresses, Failed,
}
use autonomi_webrtc_direct_p.Client.Retrieval.Trust.{supplied, advanced, Reach, here, next}
use autonomi_webrtc_direct_p.Client.Retrieval.Trust.Agreement.{proxy_independence}
use autonomi_webrtc_direct_p.Browser.Retrieve.{
  RetrieveError, fetching, Running, call, supply_found, supply_one, for_each, split_addresses,
  fetch_required, check_stalled, round, rounds, max_rounds, conclude, drive, retrieve_found,
  retrieve,
}

Reach-trans :
    {c : Crates} {Served : Bytes → Type 0} {r s t : Retrieval c}
    → Reach c Served r s
    → Reach c Served s t
    → Reach c Served r t
Reach-trans p here = p
Reach-trans p (next q x) = next (Reach-trans p q) x

-- The bytes that a fetch has brought, before those of the earlier fetches.
abbrev pub brought : {E : Type 0} → Result E (Option Bytes) → List Bytes → List Bytes
brought (ok (some bytes)) log = bytes ∷ log
brought (ok none) log = log
brought (err e) log = log

-- Fetches lead from one state to another, and the log is all that they have brought.
pub data Fetches {E S : Type 0} (get_chunk : Bytes → Io E S (Option Bytes)) (first : S)
    : S → List Bytes → Type 0 where
  begun : Fetches get_chunk first first []
  fetched :
      {s : S} {log : List Bytes} (name : Bytes)
      → Fetches get_chunk first s log
      → Fetches get_chunk first (get_chunk name s).1 (brought (get_chunk name s).0 log)

abbrev pub Logged : List Bytes → Bytes → Type 0
Logged [] bytes = ⊥
Logged (entry ∷ log) bytes = (entry ≡ bytes) ⊎ Logged log bytes

pub Reach-imp :
    {c : Crates} {A B : Bytes → Type 0} {r s : Retrieval c}
    → ((bytes : Bytes) → A bytes → B bytes)
    → Reach c A r s
    → Reach c B r s
Reach-imp f here = here
Reach-imp f (next p (supplied r name bytes h)) =
    next (Reach-imp f p) (supplied r name bytes (f bytes h))
Reach-imp f (next p (advanced r)) = next (Reach-imp f p) (advanced r)

module _ (c : Crates) {E S : Type 0} (get_chunk : Bytes → Io E S (Option Bytes)) (first : S) where
  -- From `log` and `r` on: more fetches, and calls with what they have brought.
  record Stepped (log : List Bytes) (r : Retrieval c) (s : S) (t : Retrieval c) : Type 0 where
    longer : List Bytes
    fetches : Fetches get_chunk first s longer
    keeps : (bytes : Bytes) → Logged log bytes → Logged longer bytes
    path : Reach c (Logged longer) r t

  Stepped-here :
      (s : S) (log : List Bytes) (r : Retrieval c)
      → Fetches get_chunk first s log
      → Stepped log r s r
  Stepped-here s log r f = record { longer = log; fetches = f; keeps = λ bytes h. h; path = here }

  Stepped-trans :
      (log : List Bytes) (r t u : Retrieval c) (s s' : S)
      → (p : Stepped log r s t) → Stepped p.longer t s' u
      → Stepped log r s' u
  Stepped-trans log r t u s s' p q = record {
    longer = q.longer;
    fetches = q.fetches;
    keeps = λ bytes h. q.keeps bytes (p.keeps bytes h);
    path = Reach-trans (Reach-imp q.keeps p.path) q.path;
  }

  -- `m` does such steps only, whether it succeeds or not.
  Steps : {A : Type 0} → Running c get_chunk A → Type 0
  Steps m =
      (s : S) (r : Retrieval c) (log : List Bytes)
      → Fetches get_chunk first s log
      → Stepped log r (m (s, r)).1.0 (m (s, r)).1.1

  bind_steps :
      {A B : Type 0} (f : A → Running c get_chunk B) (log : List Bytes) (r : Retrieval c)
      (out : Result (RetrieveError c.Failure E) A × (S × Retrieval c))
      → Stepped log r out.1.0 out.1.1
      → ((a : A) (s : S) (t : Retrieval c) (longer : List Bytes)
          → Fetches get_chunk first s longer
          → Stepped longer t (f a (s, t)).1.0 (f a (s, t)).1.1)
      → Stepped log r (continue out.0 f out.1).1.0 (continue out.0 f out.1).1.1
  bind_steps f log r (ok a, (s, t)) p h =
      Stepped-trans log r t (f a (s, t)).1.1 s (f a (s, t)).1.0 p (h a s t p.longer p.fetches)
  bind_steps f log r (err e, (s, t)) p h = p

  supply_one-Steps : (address : Bytes) → Steps (supply_one c get_chunk address)
  unfolding Steps supply_one supply_found
  supply_one-Steps address s r log f =
      go (get_chunk address s).0 refl (get_chunk address s).1 (fetched address f)
    where
      go :
          (x : Result E (Option Bytes))
          → (get_chunk address s).0 ≡ x
          → (s' : S) → Fetches get_chunk first s' (brought (get_chunk address s).0 log)
          → Stepped log r
              (continue
                (map_err {B = RetrieveError c.Failure E} fetching x)
                (supply_found c get_chunk address)
                (s', r)).1.0
              (continue
                (map_err {B = RetrieveError c.Failure E} fetching x)
                (supply_found c get_chunk address)
                (s', r)).1.1
      go (err e) p s' g = Stepped-here s' log r (rw p at g)
      go (ok none) p s' g = Stepped-here s' log r (rw p at g)
      go (ok (some bytes)) p s' g = record {
        longer = bytes ∷ log;
        fetches = rw p at g;
        keeps = λ other h. inr h;
        path = next here (supplied r address bytes (inl refl));
      }

  for_each-Steps : (addresses : List Bytes) → Steps (for_each c get_chunk addresses)
  unfolding Steps for_each
  for_each-Steps [] s r log f = Stepped-here s log r f
  for_each-Steps (address ∷ rest) s r log f =
      bind_steps (λ _. for_each c get_chunk rest) log r (supply_one c get_chunk address (s, r))
        (supply_one-Steps address s r log f) (λ _. for_each-Steps rest)

  check_stalled-Steps : Steps (check_stalled c get_chunk)
  unfolding Steps check_stalled
  check_stalled-Steps s r log f =
      elim (Bool-cases (not (is_complete c r) && length (required_addresses c r) == 0)) [
        | inl stuck ↦ rw (stuck, check_stalled) (Stepped-here s log r f)
        | inr fine ↦ rw (fine, check_stalled) (Stepped-here s log r f)
      ]

  advance-Steps : Steps (call c get_chunk (advance c))
  unfolding Steps
  advance-Steps s r log f = record {
    longer = log;
    fetches = f;
    keeps = λ bytes h. h;
    path = next here (advanced r);
  }

  round-Steps : Steps (round c get_chunk)
  unfolding Steps round fetch_required
  round-Steps s r log f =
      bind_steps (λ _. call c get_chunk (advance c) >> check_stalled c get_chunk) log r
        (fetch_required c get_chunk (s, r))
        (for_each-Steps (split_addresses (required_addresses c r)) s r log f)
        (λ _ t q longer g.
          bind_steps (λ _. check_stalled c get_chunk) longer q (call c get_chunk (advance c) (t, q))
            (advance-Steps t q longer g) (λ _. check_stalled-Steps))

  rounds-Steps : (n : ℕ) → Steps (rounds c get_chunk n)
  unfolding Steps rounds
  rounds-Steps zero s r log f = Stepped-here s log r f
  rounds-Steps (suc n) s r log f = elim (Bool-cases (is_complete c r)) [
    | inl complete ↦ rw (complete, rounds) (Stepped-here s log r f)
    | inr incomplete ↦
        rw (incomplete, rounds)
          (bind_steps (λ _. rounds c get_chunk n) log r (round c get_chunk (s, r))
            (round-Steps s r log f) (λ _. rounds-Steps n))
  ]

  -- What `retrieve` has done when it returns `x` and leaves the state `last_state`.
  pub record Retrieved (address : XorName) (x : Bytes) (last_state : S) : Type 0 where
    pub log : List Bytes
    pub fetches : Fetches get_chunk first last_state log
    pub bytes : Bytes
    pub start : Retrieval c
    pub last : Retrieval c
    pub map_logged : Logged log bytes
    pub begins : begin c address bytes ≡ ok start
    pub reached : Reach c (Logged log) start last
    pub finished : finish c last ≡ ok x

  conclude-finish :
      (s : S) (r : Retrieval c) (x : Bytes)
      → (conclude c get_chunk (s, r)).0 ≡ ok x
      → ((conclude c get_chunk (s, r)).1.0 ≡ s) × (finish c r ≡ ok x)
  unfolding conclude
  conclude-finish s r x h = elim (Bool-cases (is_complete c r)) [
    | inr incomplete ↦ absurd (ground (arith, incomplete, h))
    | inl complete ↦ elim (Result-cases (finish c r)) [
      | inl (y, p) ↦ (rw (complete, conclude) refl, ground (arith, complete, p, h))
      | inr (e, p) ↦ absurd (ground (arith, complete, p, h))
    ]
  ]

  -- Behind the rounds.
  rounds_Retrieved :
      (address : XorName) (bytes x : Bytes) (log : List Bytes) (r : Retrieval c)
      → Logged log bytes
      → begin c address bytes ≡ ok r
      → (out : Result (RetrieveError c.Failure E) (Unit {0}) × (S × Retrieval c))
      → Stepped log r out.1.0 out.1.1
      → (continue out.0 (λ _. conclude c get_chunk) out.1).0 ≡ ok x
      → Retrieved address x (continue out.0 (λ _. conclude c get_chunk) out.1).1.0
  rounds_Retrieved address bytes x log r v b (err e, (s, t)) p h = absurd (cc h)
  rounds_Retrieved address bytes x log r v b (ok u, (s, t)) p h =
      let (same, fin) = conclude-finish s t x h in
      rw same (record {
        log = p.longer;
        fetches = p.fetches;
        bytes = bytes;
        start = r;
        last = t;
        map_logged = p.keeps bytes v;
        begins = b;
        reached = p.path;
        finished = fin;
      })

  found_Retrieved :
      (address : XorName) (bytes : Bytes) (s : S) (x : Bytes) (log : List Bytes)
      → Logged log bytes
      → Fetches get_chunk first s log
      → (begun : Result (Failed c) (Retrieval c)) → begin c address bytes ≡ begun
      → (retrieve_found c get_chunk address (some bytes) s).0 ≡ ok x
      → Retrieved address x (retrieve_found c get_chunk address (some bytes) s).1
  unfolding Steps retrieve_found drive
  found_Retrieved address bytes s x log v f (err e) b h = absurd (cc (rw (b, retrieve_found) at h))
  found_Retrieved address bytes s x log v f (ok r) b h =
      rw (b, retrieve_found)
        (rounds_Retrieved address bytes x log r v b (rounds c get_chunk max_rounds (s, r))
          (rounds-Steps max_rounds s r log f) (rw (b, retrieve_found) at h))

-- What was fetched on the way, and that this is all that the content rests on.
pub retrieve-Retrieved :
    (c : Crates) {E S : Type 0} (get_chunk : Bytes → Io E S (Option Bytes)) (address : XorName)
    (s : S) (x : Bytes)
    → (retrieve c get_chunk address s).0 ≡ ok x
    → Retrieved c get_chunk s address x (retrieve c get_chunk address s).1
unfolding retrieve retrieve_found
retrieve-Retrieved c {E} {S} get_chunk address s x h = elim (Result-cases (get_chunk address s).0) [
  | inr (e, p) ↦ absurd (cc (rw (p, retrieve) at h))
  | inl (found, p) ↦ rw (p, retrieve) (go found p (rw (p, retrieve) at h))
]
  where
    one :
        {bytes : Bytes}
        → (get_chunk address s).0 ≡ ok (some bytes)
        → Fetches get_chunk s (get_chunk address s).1 (bytes ∷ [])
    one {bytes} p =
        let f : Fetches get_chunk s (get_chunk address s).1 (brought (get_chunk address s).0 []) =
          fetched address begun in
        rw p at f

    go :
        (found : Option Bytes)
        → (get_chunk address s).0 ≡ ok found
        → (retrieve_found c get_chunk address found (get_chunk address s).1).0 ≡ ok x
        → Retrieved c get_chunk s address x
            (retrieve_found c get_chunk address found (get_chunk address s).1).1
    go none p q = absurd (cc q)
    go (some bytes) p q =
        found_Retrieved c get_chunk s address bytes (get_chunk address s).1 x (bytes ∷ [])
          (inl refl) (one p) (begin c address bytes) refl q

module _ {E S : Type 0} (get_chunk : Bytes → Io E S (Option Bytes)) (Served : Bytes → Type 0)
    (served : (name bytes : Bytes) (s : S)
      → (get_chunk name s).0 ≡ ok (some bytes)
      → Served bytes) where
  -- All that fetches bring is served.
  Fetches-Served :
      (first s : S) (log : List Bytes)
      → Fetches get_chunk first s log
      → (bytes : Bytes) → Logged log bytes
      → Served bytes
  Fetches-Served first _ _ begun bytes h = absurd h
  Fetches-Served first _ _ (fetched {s} {log} name f) bytes h =
      go (get_chunk name s).0 refl (Fetches-Served first s log f bytes) h
    where
      go :
          (x : Result E (Option Bytes))
          → (get_chunk name s).0 ≡ x
          → (Logged log bytes → Served bytes)
          → Logged (brought x log) bytes
          → Served bytes
      go (err e) p ih k = ih k
      go (ok none) p ih k = ih k
      go (ok (some new)) p ih (inl same) = served name bytes s (p ∙ ap (λ b. ok (some b)) same)
      go (ok (some new)) p ih (inr k) = ih k

module _ (c : Crates) (laws : CrateLaws c) (Served₁ Served₂ : Bytes → Type 0) where
  -- Two runs of `retrieve` for one address, over any two ways to fetch chunks, whose states and
  -- errors may differ and which give only bytes among `Served₁` and among `Served₂`, return the
  -- same content if both return; or else two different byte strings, one of `Served₁` and one of
  -- `Served₂`, have the same hash.
  pub retrieve_independence :
      {E₁ E₂ S₁ S₂ : Type 0} (get_chunk₁ : Bytes → Io E₁ S₁ (Option Bytes))
      (get_chunk₂ : Bytes → Io E₂ S₂ (Option Bytes))
      (served₁ : (name bytes : Bytes) (s : S₁)
        → (get_chunk₁ name s).0 ≡ ok (some bytes)
        → Served₁ bytes)
      (served₂ : (name bytes : Bytes) (s : S₂)
        → (get_chunk₂ name s).0 ≡ ok (some bytes)
        → Served₂ bytes)
      (address : XorName) (s₁ : S₁) (s₂ : S₂) (x₁ x₂ : Bytes)
      → (retrieve c get_chunk₁ address s₁).0 ≡ ok x₁
      → (retrieve c get_chunk₂ address s₂).0 ≡ ok x₂
      → (x₁ ≡ x₂) ⊎ Collision c Served₁ Served₂
  retrieve_independence get_chunk₁ get_chunk₂ served₁ served₂ address s₁ s₂ x₁ x₂ h₁ h₂ =
      let r = retrieve-Retrieved c get_chunk₁ address s₁ x₁ h₁ in
      let t = retrieve-Retrieved c get_chunk₂ address s₂ x₂ h₂ in
      let left = Fetches-Served get_chunk₁ Served₁ served₁ s₁ _ r.log r.fetches in
      let right = Fetches-Served get_chunk₂ Served₂ served₂ s₂ _ t.log t.fetches in
      proxy_independence c laws Served₁ Served₂ address r.bytes t.bytes r.start t.start r.last
        t.last x₁ x₂ (left r.bytes r.map_logged) (right t.bytes t.map_logged) r.begins t.begins
        (Reach-imp left r.reached) (Reach-imp right t.reached) r.finished t.finished
