-- ===== src/Browser/Retrieve/Uploaded.antt =====
-- From an upload to the download, through a flat map or a shrunk one.
pub mod Rounds
use autonomi_webrtc_direct_p.Prelude.{
  ◌≡◌, ◌⊎◌, inl, inr, sym, Bool, true, false, not, List, [], map, Option, some, Bytes, ok, length,
  All, All-imp, Bool-cases,
}
use mathlib.Core.Path.{subst}
use autonomi_webrtc_direct_p.Prelude.Dict
use autonomi_webrtc_direct_p.Prelude.Dict.{Dict}
use autonomi_webrtc_direct_p.Prelude.Effects.{Io}
use autonomi_webrtc_direct_p.Crates.{Crates, CrateLaws, UploadLaws, Collision, XorName}
use autonomi_webrtc_direct_p.Source.Addressed.{Held}
use autonomi_webrtc_direct_p.Client.Upload.{Shrink, ShrinkLaws, upload}
use autonomi_webrtc_direct_p.Client.Upload.Stored.{upload-Stored}
use autonomi_webrtc_direct_p.Client.Retrieval.{Retrieval, begin}
use autonomi_webrtc_direct_p.Browser.Retrieve.{drive, rounds, max_rounds, retrieve_found, retrieve}
use autonomi_webrtc_direct_p.Browser.Retrieve.Flat.{Leaves}
use autonomi_webrtc_direct_p.Browser.Retrieve.Fixture.{IsAmong, begin_accepts, drive_decrypts}
use autonomi_webrtc_direct_p.Browser.Retrieve.Uploaded.Rounds.{
  IsIn, NamesAll, IsWrapper, All-IsWrapper, chunks_Held, rounds_flat, rounds_wrapped,
}

-- The content of a chunk of the encryption, or a wrapper that shrinking its map makes.
pub IsMade :
    (c : Crates) (shrink_data_map : Shrink c) → c.DataMap → List c.EncryptedChunk → Bytes → Type 0
IsMade c shrink_data_map m chunks bytes =
    IsAmong c chunks bytes
    ⊎ ((child : c.DataMap) × (wrappers : List (XorName × Bytes)) × (shrink_data_map m
          ≡ ok (child, wrappers))
        × IsWrapper wrappers bytes)

Collision-right :
    (c : Crates) (A B D : Bytes → Type 0)
    → ((bytes : Bytes) → B bytes → D bytes)
    → Collision c A B
    → Collision c A D
Collision-right c A B D f k = record {
  left = k.left;
  right = k.right;
  is_left = k.is_left;
  is_right = f k.right k.is_right;
  differ = k.differ;
  same_hash = k.same_hash;
}

module _ (c : Crates) (laws : CrateLaws c) (upload_laws : UploadLaws c) (shrink_data_map : Shrink c)
    (shrink_laws : ShrinkLaws c shrink_data_map) {E S : Type 0}
    (get_chunk : Bytes → Io E S (Option Bytes)) (store : Dict Bytes)
    (answers : (name : XorName) (s : S)
      → length name ≡ 32
      → (get_chunk name s).0 ≡ ok (Dict.get store name)) where
  -- The first fetch, and `begin`.
  retrieve_begun :
      (serialized content : Bytes) (s : S) (r : Retrieval c)
      → Dict.get store (c.hash serialized) ≡ some serialized
      → begin c (c.hash serialized) serialized ≡ ok r
      → (drive c get_chunk ((get_chunk (c.hash serialized) s).1, r)).0 ≡ ok content
      → (retrieve c get_chunk (c.hash serialized) s).0 ≡ ok content
  unfolding retrieve retrieve_found
  retrieve_begun serialized content s r there begun done =
      rw (answers (c.hash serialized) s (laws.length-hash serialized), retrieve)
        (rw there (rw (begun, retrieve_found) done))

  -- With all chunks at hand, the loop decrypts them.
  made :
      (content : Bytes) (m : c.DataMap) (chunks : List c.EncryptedChunk) (s : S) (r : Retrieval c)
      → c.encrypt content ≡ ok (m, chunks)
      → c.is_child m ≡ false
      → Leaves c laws get_chunk (IsIn store) m true (rounds c get_chunk max_rounds (s, r)) []
      → ((drive c get_chunk (s, r)).0 ≡ ok content)
        ⊎ Collision c (IsIn store) (IsMade c shrink_data_map m chunks)
  unfolding IsMade
  made content m chunks s r e flat l =
      elim (drive_decrypts c laws upload_laws get_chunk (IsIn store) m s r chunks content l e
        flat) [
          | inl done ↦ inl done
          | inr collision ↦ inr (
              Collision-right c (IsIn store) (IsAmong c chunks) (IsMade c shrink_data_map m chunks)
                (λ bytes h. inl h) collision)
        ]

  -- The download from the map that was uploaded: the root map, or its child.
  drive_uploaded :
      (content : Bytes) (m uploaded : c.DataMap) (chunks : List c.EncryptedChunk)
      (wrappers : List (XorName × Bytes)) (s : S)
      → c.encrypt content ≡ ok (m, chunks)
      → c.is_child m ≡ false
      → (uploaded ≡ m) ⊎ (shrink_data_map m ≡ ok (uploaded, wrappers))
      → (shrink_data_map m ≡ ok (uploaded, wrappers)
          → c.is_child uploaded ≡ true
          → NamesAll c uploaded wrappers)
      → All (λ entry. Held c store entry.0) wrappers
      → All (λ chunk. Held c store (c.hash (c.content chunk))) chunks
      → ((drive c get_chunk (
        s,
        record { data_map = uploaded; root_resolved = not (c.is_child uploaded); cache = [] },
      )).0
          ≡ ok content)
        ⊎ Collision c (IsIn store) (IsMade c shrink_data_map m chunks)
  unfolding IsMade
  drive_uploaded content m uploaded chunks wrappers s e flat shrunk names wrapped held =
      let Right = IsMade c shrink_data_map m chunks in
      let listed =
        chunks_Held c laws upload_laws shrink_data_map shrink_laws get_chunk store answers content m
          chunks e flat held in
      elim (Bool-cases (c.is_child uploaded)) [
        | inr root ↦
            let same : uploaded ≡ m = root_map shrunk root in
            rw root (
              subst
                (λ k.
                  ((drive c get_chunk
                      (s, record { data_map = k; root_resolved = true; cache = [] })).0
                    ≡ ok content)
                  ⊎ Collision c (IsIn store) Right)
                (sym same)
                (made content m chunks s (record { data_map = m; root_resolved = true; cache = [] })
                  e flat
                  (rounds_flat c laws upload_laws shrink_data_map shrink_laws get_chunk store
                    answers m s listed)))
        | inl child ↦
            let q = shrunk_map shrunk child in
            let given : All (λ entry. Right entry.1) wrappers =
              All-imp (λ entry. IsWrapper wrappers entry.1) (λ entry. Right entry.1)
                (λ entry h. inr (uploaded, wrappers, q, h)) wrappers (All-IsWrapper wrappers) in
            rw child
              (elim (rounds_wrapped c laws upload_laws shrink_data_map shrink_laws get_chunk store
                answers Right m uploaded wrappers s q child (names q child) given wrapped listed) [
                  | inr collision ↦ inr collision
                  | inl l ↦
                      made content m chunks s
                        (record { data_map = uploaded; root_resolved = false; cache = [] }) e flat l
                ])
      ]
    where
      root_map :
          (uploaded ≡ m) ⊎ (shrink_data_map m ≡ ok (uploaded, wrappers))
          → c.is_child uploaded ≡ false
          → uploaded ≡ m
      root_map (inl same) root = same
      root_map (inr q) root = shrink_laws.unshrunk m q root

      shrunk_map :
          (uploaded ≡ m) ⊎ (shrink_data_map m ≡ ok (uploaded, wrappers))
          → c.is_child uploaded ≡ true
          → shrink_data_map m ≡ ok (uploaded, wrappers)
      shrunk_map (inl same) child = absurd (cc (same, child, flat))
      shrunk_map (inr q) child = q

  -- What was uploaded comes back, also through a child map: if the encryption of `content` has a
  -- flat data map, which is uploaded as it is, or shrunk into a map that, if it is a child map,
  -- names the stored wrappers, each once and in any order, and if every fetch of a 32-byte address
  -- gives what the upload has stored there, then `retrieve` at the address of the upload returns
  -- `content`; or else some bytes in the store and a chunk or a wrapper of the upload are different
  -- and have the same hash.
  pub retrieve-upload :
      (content : Bytes) (m : c.DataMap) (chunks : List c.EncryptedChunk) (shrink : Bool)
      (address : XorName) (s : S)
      → c.encrypt content ≡ ok (m, chunks)
      → c.is_child m ≡ false
      → ((child : c.DataMap) (wrappers : List (XorName × Bytes))
          → shrink_data_map m ≡ ok (child, wrappers)
          → c.is_child child ≡ true
          → NamesAll c child wrappers)
      → upload c shrink_data_map content shrink ≡ ok (store, address)
      → ((retrieve c get_chunk address s).0 ≡ ok content)
        ⊎ Collision c (IsIn store) (IsMade c shrink_data_map m chunks)
  retrieve-upload content m chunks shrink address s e flat names uploaded =
      let u = upload-Stored c shrink_data_map shrink_laws content shrink store address uploaded in
      let same_map : u.data_map ≡ m = cc (u.encrypted, e) in
      let same_list : u.chunks ≡ chunks = cc (u.encrypted, e) in
      let parsed = upload_laws.from_slice-to_vec u.uploaded u.written in
      let after = (get_chunk (c.hash u.serialized) s).1 in
      elim (drive_uploaded content m u.uploaded chunks u.wrappers after e flat
        (rw same_map at u.shrunk) (names u.uploaded u.wrappers) u.wrappers_stored
        (rw same_list at u.chunks_stored)) [
          | inr collision ↦ inr collision
          | inl done ↦ inl (
              rw u.is_address (
                retrieve_begun u.serialized content s _ u.map_stored
                  (begin_accepts c laws u.serialized u.uploaded parsed) done))
        ]
