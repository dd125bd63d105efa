-- ===== src/Browser/Retrieve/Keeps.antt =====
-- `retrieve` touches the state of what fetches only by fetching.
use autonomi_webrtc_direct_p.Prelude.{
  ℕ, zero, suc, inl, inr, List, [], ◌∷◌, Option, none, some, Bytes, Bool-cases, Result-cases, not,
  ◌&&◌, length, ◌==◌,
}
use autonomi_webrtc_direct_p.Prelude.Effects.{Io, ◌>>◌, Keeps, Keeps-bind}
use autonomi_webrtc_direct_p.Crates.{Crates}
use autonomi_webrtc_direct_p.Client.Retrieval.{
  Retrieval, begin, advance, is_complete, required_addresses,
}
use autonomi_webrtc_direct_p.Browser.Retrieve.{
  await_chunk, call, supply_found, supply_one, for_each, split_addresses, fetch_required,
  check_stalled, round, rounds, max_rounds, conclude, drive, retrieve_found, retrieve,
}

module _ (c : Crates) {E S : Type 0} (get_chunk : Bytes → Io E S (Option Bytes)) (P : S → Type 0)
    (kept : (address : Bytes) → Keeps P (get_chunk address)) where
  abbrev On : S × Retrieval c → Type 0
  On q = P q.0

  for_each-Keeps : (addresses : List Bytes) → Keeps On (for_each c get_chunk addresses)
  unfolding for_each supply_one
  for_each-Keeps [] q p = p
  for_each-Keeps (address ∷ rest) q p =
      Keeps-bind On (supply_one c get_chunk address) (λ _. for_each c get_chunk rest)
        (Keeps-bind On (await_chunk c get_chunk address) (supply_found c get_chunk address)
          (λ q p. kept address q.0 p) found)
        (λ _. for_each-Keeps rest) q p
    where
      found : (bytes : Option Bytes) → Keeps On (supply_found c get_chunk address bytes)
      found none q p = unfold supply_found in p
      found (some bytes) q p = unfold supply_found in p

  check_stalled-Keeps : Keeps On (check_stalled c get_chunk)
  unfolding check_stalled
  check_stalled-Keeps (s, r) p =
      elim (Bool-cases (not (is_complete c r) && length (required_addresses c r) == 0)) [
        | inl stuck ↦ rw (stuck, check_stalled) p
        | inr fine ↦ rw (fine, check_stalled) p
      ]

  round-Keeps : Keeps On (round c get_chunk)
  unfolding round fetch_required
  round-Keeps =
      Keeps-bind On (fetch_required c get_chunk)
        (λ _. call c get_chunk (advance c) >> check_stalled c get_chunk)
        (λ q p. for_each-Keeps (split_addresses (required_addresses c q.1)) q p)
        (λ _.
          Keeps-bind On (call c get_chunk (advance c)) (λ _. check_stalled c get_chunk) (λ q p. p)
            (λ _. check_stalled-Keeps))

  rounds-Keeps : (n : ℕ) → Keeps On (rounds c get_chunk n)
  unfolding rounds
  rounds-Keeps zero (s, r) p = p
  rounds-Keeps (suc n) (s, r) p = elim (Bool-cases (is_complete c r)) [
    | inl complete ↦ rw (complete, rounds) p
    | inr incomplete ↦
        rw (incomplete, rounds)
          (Keeps-bind On (round c get_chunk) (λ _. rounds c get_chunk n) round-Keeps
            (λ _. rounds-Keeps n) (s, r) p)
  ]

  drive-Keeps : Keeps On (drive c get_chunk)
  unfolding drive
  drive-Keeps =
      Keeps-bind On (rounds c get_chunk max_rounds) (λ _. conclude c get_chunk)
        (rounds-Keeps max_rounds) (λ _. ended)
    where
      ended : Keeps On (conclude c get_chunk)
      ended (s, r) p = elim (Bool-cases (is_complete c r)) [
        | inl complete ↦ unfold conclude in rw (complete, conclude) p
        | inr incomplete ↦ unfold conclude in rw (incomplete, conclude) p
      ]

  -- What every fetch keeps, `retrieve` keeps, however it ends.
  pub retrieve-Keeps : (address : Bytes) → Keeps P (retrieve c get_chunk address)
  unfolding retrieve retrieve_found
  retrieve-Keeps address s p = elim (Result-cases (get_chunk address s).0) [
    | inr (e, q) ↦ rw (q, retrieve) (kept address s p)
    | inl (found, q) ↦ rw (q, retrieve) (go found (get_chunk address s).1 (kept address s p))
  ]
    where
      go : (found : Option Bytes) → Keeps P (retrieve_found c get_chunk address found)
      go none t p = p
      go (some bytes) t p = elim (Result-cases (begin c address bytes)) [
        | inr (e, b) ↦ rw (b, retrieve_found) p
        | inl (r, b) ↦ rw (b, retrieve_found) (drive-Keeps (t, r) p)
      ]
