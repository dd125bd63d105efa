-- ===== src/Client/Retrieval/Supply.antt =====
-- `supply`: which bytes are accepted, and what that changes.
use autonomi_webrtc_direct_p.Prelude.{
  ◌≡◌, inl, inr, refl, ap, arith, true, Bytes, ok, err, bytes_eq, bytes_eq_iff, eq_of_bytes_eq,
  Bool-cases, Result-cases, length, ◌==◌,
}
use autonomi_webrtc_direct_p.Prelude.Dict
use autonomi_webrtc_direct_p.Prelude.Dict.{Dict, get-insert}
use autonomi_webrtc_direct_p.Crates.{Crates, CrateLaws}
use autonomi_webrtc_direct_p.Client.Errors.{address_length, chunk_unverified}
use autonomi_webrtc_direct_p.Client.Address.{address_len, hex}
use autonomi_webrtc_direct_p.Client.Retrieval.{Retrieval, Failed, supply}
use autonomi_webrtc_direct_p.Client.Retrieval.Cache.{IsVerified, IsVerified-insert}

module _ (c : Crates) where
  -- The state after `bytes` were stored under `address`.
  pub record Stored (address bytes : Bytes) (r s : Retrieval c) : Type 0 where
    pub chunk : c.EncryptedChunk
    pub is_content : c.content chunk ≡ bytes
    pub same_map : s.data_map ≡ r.data_map
    pub same_flag : s.root_resolved ≡ r.root_resolved
    pub cached : s.cache ≡ Dict.insert r.cache address chunk

module _ (c : Crates) (laws : CrateLaws c) where
  -- Bytes that do not hash to the address are refused with an error, and the retrieval is as it
  -- was.
  pub supply_refuses :
      (address bytes : Bytes) (r : Retrieval c)
      → ¬ (c.hash bytes ≡ address)
      → (e : Failed c) × (supply c address bytes r ≡ (err e, r))
  unfolding supply
  supply_refuses address bytes r h = elim (Bool-cases (length address == address_len)) [
    | inr short ↦ (address_length, rw (short, supply) refl)
    | inl long ↦ elim (Result-cases (c.verify_chunk address bytes)) [
      | inl (chunk, p) ↦ absurd (h (laws.verify_chunk_sound address bytes p).0)
      | inr (e, p) ↦ (chunk_unverified (hex address) e, rw (long, supply) (rw p refl))
    ]
  ]

  -- Bytes supplied under their own hash are accepted, and stored under it; the map and its flag
  -- stay.
  pub supply_accepts :
      (bytes : Bytes) (r : Retrieval c)
      → (s : Retrieval c) × (supply c (c.hash bytes) bytes r ≡ (ok tt, s))
        × Stored c (c.hash bytes) bytes r s
  unfolding supply
  supply_accepts bytes r =
      let (chunk, p) = laws.verify_chunk_complete bytes in
      let long : (length (c.hash bytes) == address_len) ≡ true =
        ground (arith, laws.length-hash bytes) in
      (
        record r { cache = Dict.insert r.cache (c.hash bytes) chunk },
        rw (long, supply) (rw p refl),
        record {
          chunk = chunk;
          is_content = (laws.verify_chunk_sound (c.hash bytes) bytes p).1;
          same_map = refl;
          same_flag = refl;
          cached = refl;
        },
      )

  -- Whatever is supplied, under whatever address, a cache of verified chunks stays one.
  pub supply-IsVerified :
      (Served : Bytes → Type 0) (address bytes : Bytes) (r : Retrieval c)
      → Served bytes
      → IsVerified c Served r.cache
      → IsVerified c Served (supply c address bytes r).1.cache
  supply-IsVerified Served address bytes r served v =
      elim (Bool-cases (bytes_eq (c.hash bytes) address)) [
        | inr other ↦
            rw
              ((supply_refuses address bytes r
                (λ e. cc (other, (bytes_eq_iff (c.hash bytes) address).1 e))).1)
              v
        | inl same ↦
            let e : c.hash bytes ≡ address = eq_of_bytes_eq (c.hash bytes) address same in
            let (s, run, stored) = supply_accepts bytes r in
            rw (← e) (
              rw run (
                rw (stored.cached) (
                  IsVerified-insert c Served r.cache (c.hash bytes) stored.chunk
                    (ap c.hash stored.is_content) (rw stored.is_content served) v)))
      ]

  -- `supply` leaves the map and its flag, whatever it is given.
  pub supply_keeps :
      (address bytes : Bytes) (r : Retrieval c)
      → ((supply c address bytes r).1.data_map ≡ r.data_map)
        × ((supply c address bytes r).1.root_resolved ≡ r.root_resolved)
  supply_keeps address bytes r = elim (Bool-cases (bytes_eq (c.hash bytes) address)) [
    | inr other ↦
        rw
          ((supply_refuses address bytes r
            (λ e. cc (other, (bytes_eq_iff (c.hash bytes) address).1 e))).1)
          (refl, refl)
    | inl same ↦
        let e : c.hash bytes ≡ address = eq_of_bytes_eq (c.hash bytes) address same in
        let (s, run, stored) = supply_accepts bytes r in
        rw (← e) (rw run (stored.same_map, stored.same_flag))
  ]
