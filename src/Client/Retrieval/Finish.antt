-- ===== src/Client/Retrieval/Finish.antt =====
-- How `supply` brings a retrieval nearer to its end, and what `finish` does there.
use autonomi_webrtc_direct_p.Prelude.{
  ◌≡◌, ◌↔◌, refl, ap, ap₂, ◌∙◌, arith, true, false, List, [], ◌∷◌, map, Bytes, ok, err, bytes_eq,
  if◌then◌else◌, map_err, concat,
}
use autonomi_webrtc_direct_p.Prelude.Dict
use autonomi_webrtc_direct_p.Prelude.Dict.{Dict, get-insert}
use autonomi_webrtc_direct_p.Crates.{Crates, CrateLaws, XorName}
use autonomi_webrtc_direct_p.Client.Errors.{incomplete, decryption_failed}
use autonomi_webrtc_direct_p.Client.Retrieval.{
  Failed, chunk_count, chunks_held, Retrieval, begin, supply, required_addresses, is_complete,
  is_empty, finish, collect_chunks,
}
use autonomi_webrtc_direct_p.Client.Retrieval.Cache.{IsVerified, collect_chunks_first}
use autonomi_webrtc_direct_p.Client.Retrieval.Supply.{supply_accepts, supply_refuses}
use autonomi_webrtc_direct_p.Client.Retrieval.Progress.{
  is_complete_iff, missing, required_addresses-missing, without, required_nothing_iff,
  collect_complete,
}
use autonomi_webrtc_direct_p.Client.Retrieval.Trust.{Reach, begin-IsGenuine, Reach-IsGenuine}
use autonomi_webrtc_direct_p.Client.Retrieval.Trust.Agreement.{finish-Finished}

module _ (c : Crates) where
  contains_key-insert :
      (cache : Dict c.EncryptedChunk) (k j : XorName) (chunk : c.EncryptedChunk)
      → Dict.contains_key (Dict.insert cache k chunk) j
        ≡ (if bytes_eq k j then true else Dict.contains_key cache j)
  unfolding Dict.contains_key
  contains_key-insert cache k j chunk = ground (arith, get-insert cache k j chunk)

  pub missing-insert :
      (cache : Dict c.EncryptedChunk) (k : XorName) (chunk : c.EncryptedChunk)
      (infos : List c.ChunkInfo)
      → missing c (Dict.insert cache k chunk) infos ≡ without c k (missing c cache infos)
  unfolding missing without
  missing-insert cache k chunk [] = refl
  missing-insert cache k chunk (info ∷ rest) = ground (
    arith,
    contains_key-insert cache k (c.dst_hash info) chunk,
    missing-insert cache k chunk rest,
  )

  pub hashes-collect_chunks :
      (Served : Bytes → Type 0) (cache : Dict c.EncryptedChunk) (infos : List c.ChunkInfo)
      (chunks : List c.EncryptedChunk)
      → IsVerified c Served cache
      → collect_chunks c cache infos ≡ ok chunks
      → map (λ chunk. c.hash (c.content chunk)) chunks ≡ map c.dst_hash infos
  hashes-collect_chunks Served cache [] chunks v h =
      let none_left : chunks ≡ [] = unfold collect_chunks in cc h in rw none_left refl
  hashes-collect_chunks Served cache (info ∷ rest) chunks v h =
      let f = collect_chunks_first c cache info rest chunks h in
      rw f.is_list (
        ap₂ ◌∷◌ (v.at_key _ f.chunk f.is_held).0
          (hashes-collect_chunks Served cache rest f.rest v f.is_rest))

module _ (c : Crates) (laws : CrateLaws c) where
  -- Progress.
  supply_progress :
      (bytes : Bytes) (r : Retrieval c)
      → required_addresses c (supply c (c.hash bytes) bytes r).1
        ≡ concat (without c (c.hash bytes) (missing c r.cache (c.infos r.data_map)))
  supply_progress bytes r =
      let (s, run, stored) = supply_accepts c laws bytes r in
      rw run (
        required_addresses-missing c s
        ∙ rw (stored.cached, stored.same_map)
            (ap concat (missing-insert c r.cache (c.hash bytes) stored.chunk (c.infos r.data_map))))

  -- `finish` refuses a retrieval that is not complete, with that error; on a complete one all its
  -- chunks are at hand, and the result is that of `decrypt` on them.
  pub finish_lem :
      (r : Retrieval c)
      → (is_complete c r ≡ false → finish c r ≡ err incomplete)
        × (is_complete c r ≡ true
            → (chunks : List c.EncryptedChunk) × (collect_chunks c r.cache (c.infos r.data_map)
                ≡ ok chunks)
              × (finish c r ≡ map_err decryption_failed (c.decrypt r.data_map chunks)))
  unfolding finish
  finish_lem r = (
    λ h. rw (h, finish) refl,
    λ h.
        let nothing : is_empty (required_addresses c r) ≡ true =
          unfold is_complete in ground (arith, h) in
        let (chunks, p) =
          collect_complete c laws r.cache (c.infos r.data_map)
            ((required_nothing_iff c laws r).0 nothing) in
        (chunks, p, rw (h, finish) (rw p refl)),
  )

  -- A plaintext that `finish` returns, after any calls with any bytes, is the decryption of chunks
  -- whose contents hash, one by one, to the addresses that the final map lists.
  pub finish_genuine :
      (Served : Bytes → Type 0) (address bytes : Bytes) (r s : Retrieval c) (x : Bytes)
      → Served bytes
      → begin c address bytes ≡ ok r
      → Reach c Served r s
      → finish c s ≡ ok x
      → (chunks : List c.EncryptedChunk) × (map (λ chunk. c.hash (c.content chunk)) chunks
          ≡ map c.dst_hash (c.infos s.data_map))
        × (c.decrypt s.data_map chunks ≡ ok x)
  finish_genuine Served address bytes r s x v b p f =
      let g =
        Reach-IsGenuine c laws Served address p
          (begin-IsGenuine c laws Served address bytes r v b) in
      let d = finish-Finished c s x f in
      (
        d.chunks,
        hashes-collect_chunks c Served s.cache _ d.chunks g.verified d.collected,
        d.decrypted,
      )

  -- Bytes that do not hash to the address are refused with an error, and the retrieval is as it was;
  -- bytes that do are accepted, and leave required exactly the addresses that were required before,
  -- in their order, less this one wherever it stood.
  pub supply_lem :
      (address bytes : Bytes) (r : Retrieval c)
      → (¬ (c.hash bytes ≡ address) → (e : Failed c) × (supply c address bytes r ≡ (err e, r)))
        × (c.hash bytes ≡ address
            → ((supply c address bytes r).0 ≡ ok tt)
              × (required_addresses c (supply c address bytes r).1
                  ≡ concat (without c address (missing c r.cache (c.infos r.data_map)))))
  supply_lem address bytes r = (
    supply_refuses c laws address bytes r,
    λ h. rw (← h) (
        let (s, run, stored) = supply_accepts c laws bytes r in
        (rw run refl, supply_progress bytes r)),
  )

  -- A retrieval is complete exactly if its root map is resolved and it holds as many of the map's
  -- chunks as the map lists. `finish` refuses one that is not, with that error; on one that is, all
  -- chunks are at hand, and the result is that of `decrypt` on them.
  pub completion_lem :
      (r : Retrieval c)
      → ((is_complete c r ≡ true)
          ↔ ((r.root_resolved ≡ true) × (chunks_held c r ≡ chunk_count c r)))
        × (is_complete c r ≡ false → finish c r ≡ err incomplete)
        × (is_complete c r ≡ true
            → (chunks : List c.EncryptedChunk) × (collect_chunks c r.cache (c.infos r.data_map)
                ≡ ok chunks)
              × (finish c r ≡ map_err decryption_failed (c.decrypt r.data_map chunks)))
  completion_lem r = (is_complete_iff c laws r, (finish_lem r).0, (finish_lem r).1)
