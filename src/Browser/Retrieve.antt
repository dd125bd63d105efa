-- ===== src/Browser/Retrieve.antt =====
-- web/src/retrieve.js: the loop that drives a retrieval.
pub mod Steps
pub mod Keeps
pub mod Unstalled
mod Names
pub mod Flat
pub mod Fixture
pub mod Child
pub mod Uploaded
pub mod Driver
pub mod Decides
pub mod Concurrent
use autonomi_webrtc_direct_p.Prelude.{
  ℕ, zero, suc, not, ◌&&◌, List, [], ◌∷◌, Option, none, some, Bytes, ok, err, map_err, length, ◌==◌,
  if◌then◌else◌,
}
use autonomi_webrtc_direct_p.Prelude.Chunks.{chunks}
use autonomi_webrtc_direct_p.Prelude.Effects.{Io, pure, raise, ◌>>=◌, ◌>>◌}
use autonomi_webrtc_direct_p.Crates.{Crates}
use autonomi_webrtc_direct_p.Client.Errors.{Error}
use autonomi_webrtc_direct_p.Client.Address.{hex}
use autonomi_webrtc_direct_p.Client.Retrieval.{
  Retrieval, begin, required_addresses, supply, advance, is_complete, finish,
}

abbrev pub address_len : ℕ
address_len = 32

abbrev pub max_rounds : ℕ
max_rounds = 16

-- What `retrieve` throws: its own errors, those of the WASM client, and those of `getChunk`.
pub data RetrieveError (F E : Type 0) : Type 0 where
  no_data : RetrieveError F E
  chunk_missing : Bytes → RetrieveError F E
  stalled : RetrieveError F E
  unresolved : RetrieveError F E
  client : Error F → RetrieveError F E
  fetching : E → RetrieveError F E

-- `splitAddresses`
unfoldable pub split_addresses : Bytes → List Bytes
split_addresses flat = chunks address_len flat

-- `toHex`
unfoldable pub to_hex : Bytes → Bytes
to_hex bytes = hex bytes

module _ (c : Crates) {E S : Type 0} (get_chunk : Bytes → Io E S (Option Bytes)) where
  -- The state of whatever fetches, and the WASM object.
  abbrev pub Running : Type 0 → Type 0
  Running A = Io (RetrieveError c.Failure E) (S × Retrieval c) A

  abbrev pub await_chunk : Bytes → Running (Option Bytes)
  await_chunk address (s, r) =
      let (found, s') = get_chunk address s in (map_err fetching found, (s', r))

  abbrev pub call : {A : Type 0} → Io (Error c.Failure) (Retrieval c) A → Running A
  call method (s, r) = let (result, r') = method r in (map_err client result, (s, r'))

  unfoldable pub supply_found : Bytes → Option Bytes → Running (Unit {0})
  unfolding to_hex
  supply_found address none = raise (chunk_missing (to_hex address))
  supply_found address (some bytes) = call (supply c address bytes)

  -- The task of `retrieve` for one address.
  unfoldable pub supply_one : Bytes → Running (Unit {0})
  supply_one address = do found ← await_chunk address; supply_found address found

  -- `forEachConcurrently` with a limit of one: the only worker takes the items in turn.
  unfoldable pub for_each : List Bytes → Running (Unit {0})
  for_each [] = pure tt
  for_each (address ∷ rest) = do supply_one address; for_each rest

  unfoldable pub fetch_required : Running (Unit {0})
  unfolding split_addresses
  fetch_required (s, r) = for_each (split_addresses (required_addresses c r)) (s, r)

  unfoldable pub check_stalled : Running (Unit {0})
  check_stalled (s, r) =
      if not (is_complete c r) && length (required_addresses c r) == 0
      then (err stalled, (s, r))
      else (ok tt, (s, r))

  -- The body of the loop over the rounds.
  unfoldable pub round : Running (Unit {0})
  round = do fetch_required; call (advance c); check_stalled

  unfoldable pub rounds : ℕ → Running (Unit {0})
  rounds zero (s, r) = (ok tt, (s, r))
  rounds (suc n) (s, r) =
      let rest = (round >> rounds n) (s, r) in if is_complete c r then (ok tt, (s, r)) else rest

  unfoldable pub conclude : Running Bytes
  conclude (s, r) =
      if not (is_complete c r)
      then (err unresolved, (s, r))
      else (map_err client (finish c r), (s, r))

  unfoldable pub drive : Running Bytes
  drive = do rounds max_rounds; conclude

  -- `retrieve` behind its first fetch.
  unfoldable pub retrieve_found : Bytes → Option Bytes → Io (RetrieveError c.Failure E) S Bytes
  unfolding begin
  retrieve_found address none s = (err no_data, s)
  retrieve_found address (some bytes) s = elim (begin c address bytes) [
    | err e ↦ (err (client e), s)
    | ok r ↦ let (x, (s', r')) = drive (s, r) in (x, s')
  ]

  unfoldable pub retrieve : Bytes → Io (RetrieveError c.Failure E) S Bytes
  retrieve address s =
      let (found, s') = get_chunk address s in
      elim found [ err e ↦ (err (fetching e), s') | ok o ↦ retrieve_found address o s' ]
