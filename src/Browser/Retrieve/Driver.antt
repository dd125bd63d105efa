-- ===== src/Browser/Retrieve/Driver.antt =====
-- What the loop of the client's tests retrieves, the browser retrieves.
pub mod Back
pub mod Agree
use autonomi_webrtc_direct_p.Prelude.{
  ℕ, zero, suc, ◌≤◌, ◌≡◌, ap, ◌∙◌, inl, inr, arith, true, List, [], ◌∷◌, Option, some, Bytes,
  Result, ok, err, length, ◌==◌, Bool-cases, Option-cases, Result-cases,
}
use autonomi_webrtc_direct_p.Prelude.Chunks.{chunks}
use autonomi_webrtc_direct_p.Prelude.Dict
use autonomi_webrtc_direct_p.Prelude.Dict.{Dict}
use autonomi_webrtc_direct_p.Prelude.Effects.{Io}
use autonomi_webrtc_direct_p.Crates.{Crates, XorName}
use autonomi_webrtc_direct_p.Client.Retrieval.{
  Retrieval, begin, required_addresses, supply, advance, is_complete, finish,
}
use autonomi_webrtc_direct_p.Client.Driver.{
  driver_rounds, store_get, supply_stored, drive_stored, retrieve_stored, unwrap_state,
}
use autonomi_webrtc_direct_p.Browser.Retrieve.Unstalled.{advance_unstalls, rounds_complete}
use autonomi_webrtc_direct_p.Browser.Retrieve.{
  supply_one, supply_found, for_each, split_addresses, fetch_required, round, rounds, max_rounds,
  conclude, drive, retrieve_found, retrieve,
}

pub unwrap_state_inv :
    {E S : Type 0} (out : Result E (Unit {0}) × S) (s : S)
    → unwrap_state out ≡ ok s
    → ◌≡◌ {A = Result E (Unit {0}) × S} out (ok tt, s)
unwrap_state_inv (ok u, t) s h = cc h
unwrap_state_inv (err e, t) s h = absurd (cc h)

pub store_get_inv :
    (store : Dict Bytes) (address bytes : Bytes)
    → store_get store address ≡ ok bytes
    → (length address ≡ 32) × (Dict.get store address ≡ some bytes)
unfolding store_get
store_get_inv store address bytes h = elim (Bool-cases (length address == 32)) [
  | inr short ↦ absurd (ground arith)
  | inl long ↦ elim (Option-cases (Dict.get store address)) [
    | inl p ↦ absurd (ground arith)
    | inr (found, p) ↦ (ground arith, ground arith)
  ]
]

module _ (c : Crates) {E S : Type 0} (get_chunk : Bytes → Io E S (Option Bytes))
    (store : Dict Bytes)
    (answers : (name : XorName) (s : S)
      → length name ≡ 32
      → (get_chunk name s).0 ≡ ok (Dict.get store name)) where
  for_each_stored :
      (names : List Bytes) (r t : Retrieval c) (s : S)
      → supply_stored c store names r ≡ ok t
      → (s' : S) × (for_each c get_chunk names (s, r) ≡ (ok tt, (s', t)))
  unfolding supply_stored for_each supply_one supply_found
  for_each_stored [] r t s h = (s, cc h)
  for_each_stored (name ∷ names) r t s h = elim (Result-cases (store_get store name)) [
    | inr (e, p) ↦ absurd (ground arith)
    | inl (bytes, p) ↦ elim (Result-cases (unwrap_state (supply c name bytes r))) [
      | inr (e, q) ↦ absurd (ground arith)
      | inl (u, q) ↦
          let (long, there) = store_get_inv store name bytes p in
          let (s', rest) = for_each_stored names u t (get_chunk name s).1 (ground arith) in
          (
            s',
            rw (answers name s long, for_each)
                (rw there (rw (unwrap_state_inv (supply c name bytes r) u q) rest)),
          )
    ]
  ]

  -- A round of the tests' loop is a round of the browser's.
  round_stored :
      (r t u : Retrieval c) (s : S)
      → supply_stored c store (chunks 32 (required_addresses c r)) r ≡ ok t
      → unwrap_state (advance c t) ≡ ok u
      → (s' : S) × (round c get_chunk (s, r) ≡ (ok tt, (s', u)))
  unfolding round fetch_required split_addresses
  round_stored r t u s h k =
      let (s', ran) = for_each_stored (chunks 32 (required_addresses c r)) r t s h in
      let moved = unwrap_state_inv (advance c t) u k in
      (s', rw (ran, round) (rw moved (advance_unstalls c get_chunk s' t u moved)))

  -- More rounds than the tests' loop needs make no difference.
  rounds_stored :
      (n k : ℕ) (r t : Retrieval c) (s : S)
      → n ≤ k
      → drive_stored c store n r ≡ ok t
      → is_complete c t ≡ true
      → (s' : S) × (rounds c get_chunk k (s, r) ≡ (ok tt, (s', t)))
  unfolding drive_stored rounds
  rounds_stored zero k r t s fits h complete =
      let same : r ≡ t = cc h in
      (s, rw (← same) (rounds_complete c get_chunk k s r (ap (is_complete c) same ∙ complete)))
  rounds_stored (suc n) zero r t s fits h complete = absurd (omega arith)
  rounds_stored (suc n) (suc k) r t s fits h complete = elim (Bool-cases (is_complete c r)) [
    | inl done ↦
        let same : r ≡ t = ground (arith, done, h) in
        (s, rw (← same) (rounds_complete c get_chunk (suc k) s r done))
    | inr going ↦
        elim (Result-cases (supply_stored c store (chunks 32 (required_addresses c r)) r)) [
          | inr (e, p) ↦ absurd (ground arith)
          | inl (v, p) ↦ elim (Result-cases (unwrap_state (advance c v))) [
            | inr (e, q) ↦ absurd (ground arith)
            | inl (u, q) ↦
                let (s1, ran) = round_stored r v u s p q in
                let (s2, rest) = rounds_stored n k u t s1 (omega arith) (ground arith) complete in
                (s2, rw (going, rounds) (rw ran rest))
          ]
        ]
  ]

  -- Whatever the tests' loop returns, `retrieve` returns.
  pub retrieve_stored-retrieve :
      (address x : Bytes) (s : S)
      → retrieve_stored c store address ≡ ok x
      → (retrieve c get_chunk address s).0 ≡ ok x
  unfolding retrieve_stored retrieve retrieve_found drive conclude
  retrieve_stored-retrieve address x s h = elim (Result-cases (store_get store address)) [
    | inr (e, p) ↦ absurd (ground arith)
    | inl (bytes, p) ↦ elim (Result-cases (begin c address bytes)) [
      | inr (e, q) ↦ absurd (ground arith)
      | inl (r, q) ↦ elim (Result-cases (drive_stored c store driver_rounds r)) [
        | inr (e, d) ↦ absurd (ground arith)
        | inl (t, d) ↦ elim (Bool-cases (is_complete c t)) [
          | inr left ↦ absurd (ground arith)
          | inl complete ↦ elim (Result-cases (finish c t)) [
            | inr (e, f) ↦ absurd (ground arith)
            | inl (y, f) ↦
                let (long, there) = store_get_inv store address bytes p in
                let (s', ran) =
                  rounds_stored driver_rounds max_rounds r t (get_chunk address s).1 (omega arith) d
                    complete in
                let same : y ≡ x = ground arith in
                rw (answers address s long, retrieve)
                  (rw there (
                    rw (q, retrieve_found)
                      (rw (ran, drive) (rw (complete, conclude) (rw f (ap ok same))))))
          ]
        ]
      ]
    ]
  ]
