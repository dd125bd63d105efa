-- ===== src/Client/Driver.antt =====
-- crates/wasm-client/src/lib.rs, the tests: the loop that drives a retrieval over a store, the way
-- the browser does. An error is where the test panics.
use autonomi_webrtc_direct_p.Prelude.{
  ℕ, zero, suc, List, [], ◌∷◌, none, some, Bytes, Result, ok, err, map_err, length, ◌==◌,
  if◌then◌else◌, ◌>>=◌,
}
use autonomi_webrtc_direct_p.Prelude.Chunks.{chunks}
use autonomi_webrtc_direct_p.Prelude.Dict
use autonomi_webrtc_direct_p.Prelude.Dict.{Dict}
use autonomi_webrtc_direct_p.Crates.{Crates}
use autonomi_webrtc_direct_p.Client.Retrieval.{
  Retrieval, begin, required_addresses, supply, advance, is_complete, finish,
}

abbrev pub Tested : Type 0 → Type 0
Tested A = Result (Unit {0}) A

-- `unwrap`, on a result, and on a method that has changed its object
abbrev pub unwrap : {E A : Type 0} → Result E A → Tested A
unwrap r = map_err (λ _. tt) r

abbrev pub unwrap_state : {E S : Type 0} → Result E (Unit {0}) × S → Tested S
unwrap_state (ok u, s) = ok s
unwrap_state (err e, s) = err tt

abbrev pub driver_rounds : ℕ
driver_rounds = 8

-- `Store::get`; `try_into` wants 32 bytes.
unfoldable pub store_get : Dict Bytes → Bytes → Tested Bytes
store_get store address =
    if length address == 32
    then elim (Dict.get store address) [ some bytes ↦ ok bytes | none ↦ err tt ]
    else err tt

module _ (c : Crates) (store : Dict Bytes) where
  -- The loop over the required addresses.
  unfoldable pub supply_stored : List Bytes → Retrieval c → Tested (Retrieval c)
  unfolding store_get
  supply_stored [] r = ok r
  supply_stored (address ∷ rest) r = do
    bytes ← store_get store address
    t ← unwrap_state (supply c address bytes r)
    supply_stored rest t

  unfoldable pub drive_stored : ℕ → Retrieval c → Tested (Retrieval c)
  unfolding supply_stored
  drive_stored zero r = ok r
  drive_stored (suc n) r =
      let rest = (do
        t ← supply_stored (chunks 32 (required_addresses c r)) r
        u ← unwrap_state (advance c t)
        drive_stored n u) in
      if is_complete c r then ok r else rest

  -- `retrieve` of the tests
  unfoldable pub retrieve_stored : Bytes → Tested Bytes
  unfolding store_get drive_stored
  retrieve_stored address = do
    bytes ← store_get store address
    r ← unwrap (begin c address bytes)
    t ← drive_stored driver_rounds r
    if is_complete c t then unwrap (finish c t) else err tt
