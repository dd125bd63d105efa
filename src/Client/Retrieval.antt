-- ===== src/Client/Retrieval.antt =====
-- crates/wasm-client/src/lib.rs: `Retrieval`, the state machine that decides which bytes to trust.
pub mod Cache
pub mod Supply
pub mod Progress
pub mod Finish
pub mod Trust
pub mod View
use autonomi_webrtc_direct_p.Prelude.{
  ℕ, Bool, true, false, not, ◌&&◌, ◌||◌, List, [], ◌∷◌, ◌++◌, Option, none, some, Bytes, Result, ok,
  err, length, map_err, codes, ◌>>=◌, if◌then◌else◌,
}
use autonomi_webrtc_direct_p.Prelude.Effects.{Io, commit}
use autonomi_webrtc_direct_p.Prelude.Dict
use autonomi_webrtc_direct_p.Prelude.Dict.{Dict}
use autonomi_webrtc_direct_p.Crates.{Crates, XorName}
use autonomi_webrtc_direct_p.Client.Errors.{
  Error, map_unverified, not_a_data_map, chunk_unverified, root_unresolved, incomplete,
  missing_chunk, decryption_failed,
}
use autonomi_webrtc_direct_p.Client.Address.{parse_address, hex}

pub record Retrieval (c : Crates) : Type 0 where
  pub data_map : c.DataMap
  pub root_resolved : Bool
  pub cache : Dict c.EncryptedChunk

abbrev pub is_empty : Bytes → Bool
is_empty [] = true
is_empty (x ∷ xs) = false

module _ (c : Crates) where
  abbrev pub Failed : Type 0
  Failed = Error c.Failure

  -- `begin(address, bytes)`
  unfoldable pub begin : Bytes → Bytes → Result Failed (Retrieval c)
  unfolding parse_address
  begin address bytes = do
    name ← parse_address address
    _ ← map_err map_unverified (c.verify_chunk name bytes)
    m ← map_err not_a_data_map (c.from_slice bytes)
    ok (record { data_map = m; root_resolved = not (c.is_child m); cache = [] })

  -- The loop of `required_addresses` over the map's entries.
  unfoldable pub required_from : Dict c.EncryptedChunk → Bytes → List c.ChunkInfo → Bytes
  required_from cache out [] = out
  required_from cache out (info ∷ rest) =
      required_from cache
        (if not (Dict.contains_key cache (c.dst_hash info)) then out ++ c.dst_hash info else out)
        rest

  unfoldable pub required_addresses : Retrieval c → Bytes
  unfolding required_from
  required_addresses r = required_from r.cache [] (c.infos r.data_map)

  unfoldable pub supply : Bytes → Bytes → Io Failed (Retrieval c) (Unit {0})
  unfolding parse_address
  supply address bytes r =
      commit
        (do
          name ← parse_address address
          chunk ← map_err (chunk_unverified (hex name)) (c.verify_chunk name bytes)
          ok (record r { cache = Dict.insert r.cache name chunk }))
        r

  -- The closure `fetch` of `advance`.
  unfoldable pub fetch : Dict c.EncryptedChunk → XorName → Result c.Failure Bytes
  fetch cache address = elim (Dict.get cache address) [
    | some chunk ↦ ok (c.content chunk)
    | none ↦ err (c.generic (codes "missing wrapper chunk " ++ hex address))
  ]

  unfoldable pub advance : Io Failed (Retrieval c) (Unit {0})
  advance r =
      if r.root_resolved || not (is_empty (required_addresses r))
      then (ok tt, r)
      else commit
          (do
            root ← map_err root_unresolved (c.get_root_data_map r.data_map (fetch r.cache))
            ok (record r { data_map = root; root_resolved = true }))
          r

  unfoldable pub is_complete : Retrieval c → Bool
  is_complete r = r.root_resolved && is_empty (required_addresses r)

  unfoldable pub chunk_count : Retrieval c → ℕ
  chunk_count r = length (c.infos r.data_map)

  -- `.filter(…).count()`
  unfoldable pub count_held : Dict c.EncryptedChunk → List c.ChunkInfo → ℕ
  count_held cache [] = 0
  count_held cache (info ∷ rest) =
      let others = count_held cache rest in
      if Dict.contains_key cache (c.dst_hash info) then ℕ.suc others else others

  unfoldable pub chunks_held : Retrieval c → ℕ
  unfolding count_held
  chunks_held r = count_held r.cache (c.infos r.data_map)

  -- One entry of the chunk list of `finish`.
  unfoldable pub held_chunk : Dict c.EncryptedChunk → XorName → Result Failed c.EncryptedChunk
  held_chunk cache name = elim (Dict.get cache name) [
    | some chunk ↦ ok chunk
    | none ↦ err (missing_chunk (hex name))
  ]

  -- `.map(…).collect::<Result<_, _>>()`
  unfoldable pub collect_chunks :
      Dict c.EncryptedChunk → List c.ChunkInfo → Result Failed (List c.EncryptedChunk)
  unfolding held_chunk
  collect_chunks cache [] = ok []
  collect_chunks cache (info ∷ rest) = do
    chunk ← held_chunk cache (c.dst_hash info)
    chunks ← collect_chunks cache rest
    ok (chunk ∷ chunks)

  unfoldable pub finish : Retrieval c → Result Failed Bytes
  finish r = if not (is_complete r) then err incomplete else do
    chunks ← collect_chunks r.cache (c.infos r.data_map)
    map_err decryption_failed (c.decrypt r.data_map chunks)

  unfoldable pub content_address : Bytes → Bytes
  content_address bytes = c.hash bytes
