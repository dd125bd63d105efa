-- ===== src/Client/Tests/Start.antt =====
-- What the client's tests start from: an upload, and a retrieval that has begun.
use autonomi_webrtc_direct_p.Prelude.{
  ◌≡◌, refl, ap, ◌∙◌, arith, Bool, true, false, List, [], ◌∷◌, map, some, Bytes, ok, length, concat,
  All, All-imp, All-to_map, ◌==◌,
}
use autonomi_webrtc_direct_p.Prelude.Dict
use autonomi_webrtc_direct_p.Prelude.Dict.{Dict}
use autonomi_webrtc_direct_p.Crates.{Crates, CrateLaws, XorName}
use autonomi_webrtc_direct_p.Source.Addressed.{Held, Held-insert, Held-insert_self}
use autonomi_webrtc_direct_p.Client.Upload.{Shrink, store_all, entry_of, wrap_map, upload}
use autonomi_webrtc_direct_p.Client.Upload.Stored.{All-store_all, Addressed-entry_of}
use autonomi_webrtc_direct_p.Client.Driver.{store_get}
use autonomi_webrtc_direct_p.Client.Retrieval.{required_addresses}
use autonomi_webrtc_direct_p.Client.Retrieval.Progress.{missing, required_addresses-missing}

pub store_get-name :
    (store : Dict Bytes) (name : XorName) (found : Bytes)
    → length name ≡ 32
    → Dict.get store name ≡ some found
    → store_get store name ≡ ok found
unfolding store_get
store_get-name store name found h there =
    let long : (length name == 32) ≡ true = ground (arith, h) in
    rw (long, store_get) (rw there refl)

module _ (c : Crates) where
  -- The store of an upload of a flat map, and of one through a shrunk map.
  abbrev pub flat_store : List c.EncryptedChunk → Bytes → Dict Bytes
  flat_store chunks serialized =
      Dict.insert (store_all [] (map (entry_of c) chunks)) (c.hash serialized) serialized

  abbrev pub shrunk_store : List c.EncryptedChunk → List (XorName × Bytes) → Bytes → Dict Bytes
  shrunk_store chunks wrappers serialized =
      Dict.insert (store_all (store_all [] (map (entry_of c) chunks)) wrappers) (c.hash serialized)
        serialized

module _ (c : Crates) (laws : CrateLaws c) where
  pub upload_flat :
      (shrink_data_map : Shrink c) (content serialized : Bytes) (m : c.DataMap)
      (chunks : List c.EncryptedChunk)
      → c.encrypt content ≡ ok (m, chunks)
      → c.to_vec m ≡ ok serialized
      → upload c shrink_data_map content false
        ≡ ok (flat_store c chunks serialized, c.hash serialized)
  unfolding upload wrap_map
  upload_flat shrink_data_map content serialized m chunks e w = rw (e, upload) (rw w refl)

  -- The chunks are stored under their hashes, and the map.
  pub flat_store-Held :
      (chunks : List c.EncryptedChunk) (serialized : Bytes)
      → All (λ chunk. Held c (flat_store c chunks serialized) (c.hash (c.content chunk))) chunks
  flat_store-Held chunks serialized =
      All-to_map (λ entry. Held c (flat_store c chunks serialized) entry.0) (entry_of c) chunks
        (All-imp _ _ (λ entry. Held-insert c _ serialized entry.0) (map (entry_of c) chunks)
          (All-store_all c (map (entry_of c) chunks) [] (Addressed-entry_of c chunks)))

  pub flat_store-map :
      (chunks : List c.EncryptedChunk) (serialized : Bytes)
      → Dict.get (flat_store c chunks serialized) (c.hash serialized) ≡ some serialized
  flat_store-map chunks serialized = Held-insert_self c _ serialized

  pub store_get-hash :
      (store : Dict Bytes) (bytes found : Bytes)
      → Dict.get store (c.hash bytes) ≡ some found
      → store_get store (c.hash bytes) ≡ ok found
  store_get-hash store bytes found =
      store_get-name store (c.hash bytes) found (laws.length-hash bytes)

  missing_all : (infos : List c.ChunkInfo) → missing c [] infos ≡ map c.dst_hash infos
  unfolding missing Dict.contains_key Dict.get
  missing_all [] = refl
  missing_all (info ∷ infos) = ap (◌∷◌ (c.dst_hash info)) (missing_all infos)

  -- A retrieval that has just begun requires all names in its map.
  pub required_addresses_fresh :
      (m : c.DataMap) (flag : Bool)
      → required_addresses c (record { data_map = m; root_resolved = flag; cache = [] })
        ≡ concat (map c.dst_hash (c.infos m))
  required_addresses_fresh m flag =
      required_addresses-missing c (record { data_map = m; root_resolved = flag; cache = [] })
      ∙ ap concat (missing_all (c.infos m))
