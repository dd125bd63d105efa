-- ===== src/Browser/Retrieve/Driver/Back.antt =====
-- What the browser retrieves, the loop of the client's tests retrieves.
use autonomi_webrtc_direct_p.Prelude.{
  ℕ, zero, suc, ◌≡◌, refl, sym, ap, ◌∙◌, inl, inr, arith, true, false, not, ◌&&◌, List, [], ◌∷◌,
  Option, some, Bytes, Result, ok, err, map_err, length, ◌==◌, All, Bool-cases, Option-cases,
}
use mathlib.Core.Path.{subst}
use autonomi_webrtc_direct_p.Prelude.Chunks.{chunks}
use autonomi_webrtc_direct_p.Prelude.Dict
use autonomi_webrtc_direct_p.Prelude.Dict.{Dict}
use autonomi_webrtc_direct_p.Prelude.Effects.{Io, continue, bind_inv, ◌>>◌}
use autonomi_webrtc_direct_p.Crates.{Crates, CrateLaws, XorName}
use autonomi_webrtc_direct_p.Client.Errors.{Error}
use autonomi_webrtc_direct_p.Client.Retrieval.{
  Retrieval, required_addresses, supply, advance, is_complete,
}
use autonomi_webrtc_direct_p.Client.Retrieval.Progress.{missing, required_addresses-missing}
use autonomi_webrtc_direct_p.Client.Driver.{store_get, supply_stored, drive_stored, unwrap_state}
use autonomi_webrtc_direct_p.Browser.Retrieve.Fixture.{All-missing, names_long}
use autonomi_webrtc_direct_p.Browser.Retrieve.Names.{split_addresses-concat}
use autonomi_webrtc_direct_p.Browser.Retrieve.Unstalled.{rounds_complete}
use autonomi_webrtc_direct_p.Browser.Retrieve.Decides.Rounds.{EndsIn, Further, round-EndsIn}
use autonomi_webrtc_direct_p.Browser.Retrieve.{
  RetrieveError, client, supply_one, supply_found, for_each, split_addresses, fetch_required,
  check_stalled, call, round, rounds,
}

module _ (c : Crates) (laws : CrateLaws c) {E S : Type 0}
    (get_chunk : Bytes → Io E S (Option Bytes)) (store : Dict Bytes)
    (answers : (name : XorName) (s : S)
      → length name ≡ 32
      → (get_chunk name s).0 ≡ ok (Dict.get store name)) where
  pub store_get-some :
      (address bytes : Bytes)
      → length address ≡ 32
      → Dict.get store address ≡ some bytes
      → store_get store address ≡ ok bytes
  unfolding store_get
  store_get-some address bytes long there =
      let tested : (length address == 32) ≡ true = ground arith in
      rw (tested, store_get) (rw there refl)

  supply_stored_step :
      (name bytes : Bytes) (names : List Bytes) (r u : Retrieval c)
      → length name ≡ 32
      → Dict.get store name ≡ some bytes
      → supply c name bytes r ≡ (ok tt, u)
      → supply_stored c store (name ∷ names) r ≡ supply_stored c store names u
  unfolding supply_stored
  supply_stored_step name bytes names r u long there supplied =
      rw (store_get-some name bytes long there, supply_stored) (rw supplied refl)

  -- The browser's loop over the addresses, with the answers put in.
  for_each_back :
      (names : List Bytes) (r t : Retrieval c) (s s' : S)
      → All (λ k. length k ≡ 32) names
      → for_each c get_chunk names (s, r) ≡ (ok tt, (s', t))
      → supply_stored c store names r ≡ ok t
  unfolding for_each supply_one supply_found supply_stored
  for_each_back [] r t s s' longs h = ap ok (ap (λ out. out.1.1) h)
  for_each_back (name ∷ names) r t s s' (long, longs) h =
      let k = rw (answers name s long, for_each) at h in
      elim (Option-cases (Dict.get store name)) [
        | inl nothing ↦ absurd (cc (rw nothing at k))
        | inr (bytes, there) ↦
            go (λ v q. for_each_back names v t (get_chunk name s).1 s' longs q) bytes there
              (supply c name bytes r) refl (rw there at k)
      ]
    where
      go :
          ((v : Retrieval c)
            → for_each c get_chunk names ((get_chunk name s).1, v) ≡ (ok tt, (s', t))
            → supply_stored c store names v ≡ ok t)
          → (bytes : Bytes) → Dict.get store name ≡ some bytes
          → (out : Result (Error c.Failure) (Unit {0}) × Retrieval c) → supply c name bytes r ≡ out
          → continue
              (map_err client out.0)
              (λ _. for_each c get_chunk names)
              ((get_chunk name s).1, out.1)
            ≡ (ok tt, (s', t))
          → supply_stored c store (name ∷ names) r ≡ ok t
      go ih bytes there (ok u, v) e q =
          supply_stored_step name bytes names r v long there e ∙ ih v q
      go ih bytes there (err x, v) e q = absurd (cc q)

  required_names :
      (r : Retrieval c)
      → (names : List Bytes) × (chunks 32 (required_addresses c r) ≡ names)
        × All (λ k. length k ≡ 32) names
  unfolding split_addresses
  required_names r =
      let names = missing c r.cache (c.infos r.data_map) in
      let longs =
        All-missing c laws (λ k. length k ≡ 32) r.cache (c.infos r.data_map)
          (names_long c laws (c.infos r.data_map)) in
      (
        names,
        ap (chunks 32) (required_addresses-missing c r) ∙ split_addresses-concat names longs,
        longs,
      )

  fetch_required_back :
      (r t : Retrieval c) (s s' : S)
      → fetch_required c get_chunk (s, r) ≡ (ok tt, (s', t))
      → supply_stored c store (chunks 32 (required_addresses c r)) r ≡ ok t
  unfolding fetch_required split_addresses
  fetch_required_back r t s s' h =
      let (names, same, longs) = required_names r in
      rw same (for_each_back names r t s s' longs (rw same at h))

  call_back :
      (s s' : S) (u : Retrieval c) (out : Result (Error c.Failure) (Unit {0}) × Retrieval c)
      → ◌≡◌ {A = Result (RetrieveError c.Failure E) (Unit {0}) × (S × Retrieval c)}
          (map_err client out.0, (s, out.1))
          (ok tt, (s', u))
      → unwrap_state out ≡ ok u
  call_back s s' u (ok v, t) h = ap ok (ap (λ o. o.1.1) h)
  call_back s s' u (err e, t) h = absurd (cc h)

  check_stalled_back : (q q' : S × Retrieval c) → check_stalled c get_chunk q ≡ (ok tt, q') → q ≡ q'
  unfolding check_stalled
  check_stalled_back (s, r) q' h =
      elim (Bool-cases (not (is_complete c r) && length (required_addresses c r) == 0)) [
        | inl stuck ↦ absurd (cc (rw (stuck, check_stalled) at h))
        | inr fine ↦ ap (λ o. o.1) (rw (fine, check_stalled) at h)
      ]

  -- A round of the browser's loop is a round of the tests'.
  round_back :
      (r u : Retrieval c) (s s' : S)
      → round c get_chunk (s, r) ≡ (ok tt, (s', u))
      → (t : Retrieval c) × (supply_stored c store (chunks 32 (required_addresses c r)) r ≡ ok t)
        × (unwrap_state (advance c t) ≡ ok u)
  unfolding round
  round_back r u s s' h =
      let (a, (s1, t), p, q) =
        bind_inv (fetch_required c get_chunk)
          (λ _. call c get_chunk (advance c) >> check_stalled c get_chunk) (s, r) h in
      let (b, (s2, v), p2, q2) =
        bind_inv (call c get_chunk (advance c)) (λ _. check_stalled c get_chunk) (s1, t) q in
      let same = ap (λ o. o.1) (check_stalled_back (s2, v) (s', u) q2) in
      (t, fetch_required_back r t s s1 p, call_back s1 s2 v (advance c t) p2 ∙ ap ok same)

  -- One round of each loop.
  both_step :
      (n k : ℕ) (r t : Retrieval c) (s s' : S)
      → is_complete c r ≡ false
      → rounds c get_chunk (suc k) (s, r) ≡ (ok tt, (s', t))
      → (s1 : S) × (u : Retrieval c) × (round c get_chunk (s, r) ≡ (ok tt, (s1, u)))
        × (rounds c get_chunk k (s1, u) ≡ (ok tt, (s', t)))
        × (drive_stored c store (suc n) r ≡ drive_stored c store n u)
  unfolding rounds drive_stored
  both_step n k r t s s' going h =
      let (a, (s1, u), p, q) =
        bind_inv (round c get_chunk) (λ _. rounds c get_chunk k) (s, r) (rw (going, rounds) at h) in
      let (v, stored, moved) = round_back r u s s1 p in
      (s1, u, p, q, rw (going, drive_stored) (rw stored (rw moved refl)))

  drive_complete :
      (n : ℕ) (k : ℕ) (r t : Retrieval c) (s s' : S)
      → is_complete c r ≡ true
      → rounds c get_chunk k (s, r) ≡ (ok tt, (s', t))
      → drive_stored c store n r ≡ ok t
  unfolding drive_stored
  drive_complete n k r t s s' done h =
      let same : r ≡ t = ap (λ o. o.1.1) (sym (rounds_complete c get_chunk k s r done) ∙ h) in
      stays n ∙ ap ok same
    where
      stays : (n : ℕ) → drive_stored c store n r ≡ ok r
      stays zero = refl
      stays (suc n) = rw (done, drive_stored) refl

  -- Two rounds are all that either needs.
  pub rounds_back :
      (n k : ℕ) (r t : Retrieval c) (s s' : S)
      → rounds c get_chunk (suc (suc k)) (s, r) ≡ (ok tt, (s', t))
      → drive_stored c store (suc (suc n)) r ≡ ok t
  rounds_back n k r t s s' h = elim (Bool-cases (is_complete c r)) [
    | inl done ↦ drive_complete (suc (suc n)) (suc (suc k)) r t s s' done h
    | inr going ↦
        let (s1, u, p, q, same) = both_step (suc n) (suc k) r t s s' going h in
        let f =
          subst (EndsIn c laws get_chunk (Further c laws get_chunk r.root_resolved)) p
            (round-EndsIn c laws get_chunk s r) in
        same ∙ elim (Bool-cases (is_complete c u)) [
          | inl done ↦ drive_complete (suc n) (suc k) u t s1 s' done q
          | inr more ↦
              let (s2, v, p2, q2, same2) = both_step n k u t s1 s' more q in
              let g =
                subst (EndsIn c laws get_chunk (Further c laws get_chunk u.root_resolved)) p2
                  (round-EndsIn c laws get_chunk s1 u) in
              same2 ∙ drive_complete n k v t s2 s' (g.complete f.resolved) q2
        ]
  ]
