-- ===== src/Browser/Retrieve/Driver/Agree.antt =====
-- The loop of the client's tests and the browser's retrieve the same.
use autonomi_webrtc_direct_p.Prelude.{
  ◌≡◌, refl, inl, inr, arith, true, ◌↔◌, Option, none, some, Bytes, Result, ok, err, map_err,
  length, Bool-cases, Result-cases,
}
use autonomi_webrtc_direct_p.Prelude.Dict
use autonomi_webrtc_direct_p.Prelude.Dict.{Dict}
use autonomi_webrtc_direct_p.Prelude.Effects.{Io, continue}
use autonomi_webrtc_direct_p.Crates.{Crates, CrateLaws, XorName}
use autonomi_webrtc_direct_p.Client.Errors.{Error}
use autonomi_webrtc_direct_p.Client.Address.{parse_address}
use autonomi_webrtc_direct_p.Client.Retrieval.{Retrieval, begin, is_complete, finish}
use autonomi_webrtc_direct_p.Client.Driver.{driver_rounds, drive_stored, retrieve_stored}
use autonomi_webrtc_direct_p.Browser.Retrieve.Driver.{retrieve_stored-retrieve}
use autonomi_webrtc_direct_p.Browser.Retrieve.Driver.Back.{store_get-some, rounds_back}
use autonomi_webrtc_direct_p.Browser.Retrieve.{
  RetrieveError, client, rounds, max_rounds, conclude, drive, retrieve_found, retrieve,
}

module _ (c : Crates) (laws : CrateLaws c) {E S : Type 0}
    (get_chunk : Bytes → Io E S (Option Bytes)) (store : Dict Bytes)
    (answers : (name : XorName) (s : S)
      → length name ≡ 32
      → (get_chunk name s).0 ≡ ok (Dict.get store name)) where
  begin-length :
      (address bytes : Bytes) (r : Retrieval c) → begin c address bytes ≡ ok r → length address ≡ 32
  unfolding begin parse_address
  begin-length address bytes r h = ground (arith, h)

  drive_back :
      (r : Retrieval c) (x : Bytes) (s : S)
      → (drive c get_chunk (s, r)).0 ≡ ok x
      → (t : Retrieval c) × (drive_stored c store driver_rounds r ≡ ok t)
        × (is_complete c t ≡ true)
        × (finish c t ≡ ok x)
  unfolding drive conclude
  drive_back r x s h = go (rounds c get_chunk max_rounds (s, r)) refl h
    where
      finished :
          (y : Result (Error c.Failure) Bytes)
          → map_err {B = RetrieveError c.Failure E} client y ≡ ok x
          → y ≡ ok x
      finished (ok y) e = cc e
      finished (err z) e = absurd (cc e)

      go :
          (out : Result (RetrieveError c.Failure E) (Unit {0}) × (S × Retrieval c))
          → rounds c get_chunk max_rounds (s, r) ≡ out
          → (continue out.0 (λ _. conclude c get_chunk) out.1).0 ≡ ok x
          → (t : Retrieval c) × (drive_stored c store driver_rounds r ≡ ok t)
            × (is_complete c t ≡ true)
            × (finish c t ≡ ok x)
      go (err e, q) p k = absurd (cc k)
      go (ok u, (s', t)) p k = elim (Bool-cases (is_complete c t)) [
        | inr left ↦ absurd (cc (rw (left, conclude) at k))
        | inl complete ↦ (
          t,
          rounds_back c laws get_chunk store answers 6 14 r t s s' p,
          complete,
          finished (finish c t) (rw (complete, conclude) at k),
        )
      ]

  retrieve_back :
      (address x : Bytes) (s : S)
      → (retrieve c get_chunk address s).0 ≡ ok x
      → retrieve_stored c store address ≡ ok x
  unfolding retrieve retrieve_found retrieve_stored
  retrieve_back address x s h = elim (Result-cases (get_chunk address s).0) [
    | inr (e, p) ↦ absurd (cc (rw (p, retrieve) at h))
    | inl (found, p) ↦ go found p (rw (p, retrieve) at h)
  ]
    where
      go :
          (found : Option Bytes)
          → (get_chunk address s).0 ≡ ok found
          → (retrieve_found c get_chunk address found (get_chunk address s).1).0 ≡ ok x
          → retrieve_stored c store address ≡ ok x
      go none p k = absurd (cc k)
      go (some bytes) p k = elim (Result-cases (begin c address bytes)) [
        | inr (e, q) ↦ absurd (cc (rw (q, retrieve_found) at k))
        | inl (r, q) ↦
            let long = begin-length address bytes r q in
            let there : Dict.get store address ≡ some bytes = cc (answers address s long, p) in
            let (t, driven, complete, fin) =
              drive_back r x (get_chunk address s).1 (rw (q, retrieve_found) at k) in
            rw
              (
                store_get-some c laws get_chunk store answers address bytes long there,
                retrieve_stored,
              )
              (rw q (rw driven (rw complete (rw fin refl))))
      ]

  -- Over a store that answers the browser's fetches of 32-byte addresses, the browser's `retrieve`
  -- returns a content exactly if the loop of the client's tests returns it: the one has 16 rounds and
  -- a check for a stalled retrieval, the other 8 rounds and none, and neither matters.
  pub retrieve_stored_iff :
      (address x : Bytes) (s : S)
      → (retrieve_stored c store address ≡ ok x) ↔ ((retrieve c get_chunk address s).0 ≡ ok x)
  retrieve_stored_iff address x s =
      (retrieve_stored-retrieve c get_chunk store answers address x s, retrieve_back address x s)
