-- ===== src/Browser/Retrieve/Fixture.antt =====
-- From an upload to the download: `FixtureSource::new`, and `retrieve` at its address.
use autonomi_webrtc_direct_p.Prelude.{
  ◌≡◌, ◌⊎◌, inl, inr, refl, ap, ap₂, ◌∙◌, arith, true, false, not, List, [], ◌∷◌, map, Option, some,
  Bytes, ok, map_err, length, ◌==◌, Bool-cases, All, All-imp, All-perm,
}
use autonomi_webrtc_direct_p.Prelude.Dict
use autonomi_webrtc_direct_p.Prelude.Dict.{Dict}
use autonomi_webrtc_direct_p.Prelude.Effects.{Io}
use autonomi_webrtc_direct_p.Crates.{
  Crates, CrateLaws, UploadLaws, Collision, XorName, All-Arranged,
}
use autonomi_webrtc_direct_p.Source.{Network, FixtureSource, fixture_new}
use autonomi_webrtc_direct_p.Source.Addressed.{Held, fixture_new-Uploaded}
use autonomi_webrtc_direct_p.Client.Errors.{decryption_failed}
use autonomi_webrtc_direct_p.Client.Address.{address_len}
use autonomi_webrtc_direct_p.Client.Retrieval.{Retrieval, begin, collect_chunks}
use autonomi_webrtc_direct_p.Client.Retrieval.Cache.{
  IsVerified, IsVerified-empty, same_or_collision, collect_chunks_first,
}
use autonomi_webrtc_direct_p.Client.Retrieval.Progress.{missing}
use autonomi_webrtc_direct_p.Client.Retrieval.Finish.{finish_lem, hashes-collect_chunks}
use autonomi_webrtc_direct_p.Browser.Retrieve.{
  conclude, drive, rounds, max_rounds, client, retrieve_found, retrieve,
}
use autonomi_webrtc_direct_p.Browser.Retrieve.Flat.{
  IsFetched, Leaves, complete_of_lacks, rounds-Leaves,
}

module _ (c : Crates) (laws : CrateLaws c) where
  -- What holds of every name of a map holds of those that are missing.
  pub All-missing :
      (P : XorName → Type 0) (cache : Dict c.EncryptedChunk) (infos : List c.ChunkInfo)
      → All (λ info. P (c.dst_hash info)) infos
      → All P (missing c cache infos)
  unfolding missing
  All-missing P cache [] h = tt
  All-missing P cache (info ∷ infos) (h, hs) =
      elim (Bool-cases (Dict.contains_key cache (c.dst_hash info))) [
        | inl held ↦ rw held (All-missing P cache infos hs)
        | inr lacking ↦ rw lacking (h, All-missing P cache infos hs)
      ]

  pub names_long : (infos : List c.ChunkInfo) → All (λ info. length (c.dst_hash info) ≡ 32) infos
  names_long [] = tt
  names_long (info ∷ infos) = (laws.length-dst_hash info, names_long infos)

  -- Chunks with the same hashes are the same chunks, or there is a collision.
  same_chunks :
      (Left Right : Bytes → Type 0) (xs ys : List c.EncryptedChunk)
      → All (λ x. Left (c.content x)) xs
      → All (λ y. Right (c.content y)) ys
      → map (λ x. c.hash (c.content x)) xs ≡ map (λ y. c.hash (c.content y)) ys
      → (xs ≡ ys) ⊎ Collision c Left Right
  same_chunks Left Right [] [] l r e = inl refl
  same_chunks Left Right [] (y ∷ ys) l r e = absurd (cc e)
  same_chunks Left Right (x ∷ xs) [] l r e = absurd (cc e)
  same_chunks Left Right (x ∷ xs) (y ∷ ys) (l, ls) (r, rs) e =
      let head : c.hash (c.content x) ≡ c.hash (c.content y) = cc e in
      let tail : map (λ x. c.hash (c.content x)) xs ≡ map (λ y. c.hash (c.content y)) ys = cc e in
      elim (same_or_collision c Left Right (c.content x) (c.content y) l r head) [
        | inr collision ↦ inr collision
        | inl same ↦ elim (same_chunks Left Right xs ys ls rs tail) [
          | inr collision ↦ inr collision
          | inl rest ↦ inl (ap₂ ◌∷◌ (laws.content_injective x y same) rest)
        ]
      ]

  -- `begin` accepts the bytes of a map under their own hash.
  pub begin_accepts :
      (bytes : Bytes) (m : c.DataMap)
      → c.from_slice bytes ≡ ok m
      → begin c (c.hash bytes) bytes
        ≡ ok (record { data_map = m; root_resolved = not (c.is_child m); cache = [] })
  unfolding begin
  begin_accepts bytes m parsed =
      let (chunk, p) = laws.verify_chunk_complete bytes in
      let long : (length (c.hash bytes) == address_len) ≡ true =
        ground (arith, laws.length-hash bytes) in
      rw (long, begin) (rw p (rw parsed refl))

  -- What is collected from a verified cache was served.
  collect_chunks-All :
      (Served : Bytes → Type 0) (cache : Dict c.EncryptedChunk) (infos : List c.ChunkInfo)
      (xs : List c.EncryptedChunk)
      → IsVerified c Served cache
      → collect_chunks c cache infos ≡ ok xs
      → All (λ x. Served (c.content x)) xs
  unfolding collect_chunks
  collect_chunks-All Served cache [] xs v h = let none_left : xs ≡ [] = cc h in rw none_left tt
  collect_chunks-All Served cache (info ∷ infos) xs v h =
      let f = collect_chunks_first c cache info infos xs h in
      rw f.is_list
        ((v.at_key _ f.chunk f.is_held).1, collect_chunks-All Served cache infos f.rest v f.is_rest)

-- The bytes of some entry of the source.
pub IsStocked : FixtureSource → Bytes → Type 0
IsStocked source bytes = (name : XorName) × (Dict.get source.chunks name ≡ some bytes)

-- The content of one of the chunks.
pub IsAmong : (c : Crates) → List c.EncryptedChunk → Bytes → Type 0
IsAmong c [] bytes = ⊥
IsAmong c (chunk ∷ chunks) bytes = (c.content chunk ≡ bytes) ⊎ IsAmong c chunks bytes

module _ (c : Crates) where
  pub All-IsAmong : (xs : List c.EncryptedChunk) → All (λ x. IsAmong c xs (c.content x)) xs
  unfolding IsAmong
  All-IsAmong [] = tt
  All-IsAmong (x ∷ xs) = (
    inl refl,
    All-imp (λ y. IsAmong c xs (c.content y)) (λ y. IsAmong c (x ∷ xs) (c.content y)) (λ y h. inr h)
        xs (All-IsAmong xs),
  )

module _ (c : Crates) (laws : CrateLaws c) (upload : UploadLaws c) {E S : Type 0}
    (get_chunk : Bytes → Io E S (Option Bytes)) (Served : Bytes → Type 0) (m : c.DataMap) where
  -- Behind the rounds, all chunks are at hand.
  pub drive_decrypts :
      (s : S) (r : Retrieval c) (chunks : List c.EncryptedChunk) (content : Bytes)
      → Leaves c laws get_chunk Served m true (rounds c get_chunk max_rounds (s, r)) []
      → c.encrypt content ≡ ok (m, chunks)
      → c.is_child m ≡ false
      → ((drive c get_chunk (s, r)).0 ≡ ok content) ⊎ Collision c Served (IsAmong c chunks)
  unfolding drive conclude
  drive_decrypts s r chunks content l e flat =
      let complete = complete_of_lacks c laws get_chunk Served m l.retrieval l.flat l.lacking in
      let (xs, collected, fin) = (finish_lem c laws l.retrieval).1 complete in
      let arranged = upload.encrypt_infos content e flat in
      let hashes : map (λ x. c.hash (c.content x)) xs
          ≡ map (λ y. c.hash (c.content y)) arranged.ordered =
        hashes-collect_chunks c Served l.retrieval.cache (c.infos l.retrieval.data_map) xs
          l.flat.verified collected
        ∙ ap (λ k. map c.dst_hash (c.infos k)) l.flat.same_map
        ∙ arranged.is_listed in
      elim (same_chunks c laws Served (IsAmong c chunks) xs arranged.ordered
        (collect_chunks-All c laws Served l.retrieval.cache _ xs l.flat.verified collected)
        (All-perm (λ x. IsAmong c chunks (c.content x)) chunks arranged.ordered
          arranged.is_permutation (All-IsAmong c chunks))
        hashes) [
          | inr collision ↦ inr collision
          | inl same ↦
              let decrypted : c.decrypt l.retrieval.data_map xs ≡ ok content =
                ap₂ c.decrypt l.flat.same_map same ∙ upload.decrypt-encrypt content e arranged in
              inl (
                rw (l.run, drive)
                  (rw (complete, conclude)
                    (ap (map_err client) (fin ∙ ap (map_err decryption_failed) decrypted))))
        ]

module _ (c : Crates) (laws : CrateLaws c) (upload : UploadLaws c) (n : Network) {E S : Type 0}
    (get_chunk : Bytes → Io E S (Option Bytes)) (source : FixtureSource)
    (answers : (name : XorName) (s : S)
      → length name ≡ 32
      → (get_chunk name s).0 ≡ ok (Dict.get source.chunks name)) where
  -- What the source holds under a hash can be fetched.
  Held-IsFetched :
      (m : c.DataMap) (k : XorName)
      → length k ≡ 32
      → Held c source.chunks k
      → IsFetched c laws get_chunk (IsStocked source) m true k
  unfolding IsStocked
  Held-IsFetched m k long (bytes, there, hashed) = record {
    bytes = bytes;
    is_hash = hashed;
    is_served = (k, there);
    answers = λ s. answers k s long ∙ ap ok there;
  }

  All-IsFetched :
      (content : Bytes) (m : c.DataMap) (chunks : List c.EncryptedChunk)
      → c.encrypt content ≡ ok (m, chunks)
      → c.is_child m ≡ false
      → All (λ chunk. Held c source.chunks (c.hash (c.content chunk))) chunks
      → All
          (λ info. IsFetched c laws get_chunk (IsStocked source) m true (c.dst_hash info))
          (c.infos m)
  All-IsFetched content m chunks e flat held =
      All-imp (λ info. Held c source.chunks (c.dst_hash info)) _
        (λ info h. Held-IsFetched m (c.dst_hash info) (laws.length-dst_hash info) h) (c.infos m)
        (All-Arranged c (Held c source.chunks) m chunks (upload.encrypt_infos content e flat) held)

  -- What was uploaded comes back: if the encryption of `content` has a flat data map, the fixture
  -- source could be built, and every fetch of a 32-byte address gives what that source holds, then
  -- `retrieve` at the source's data map address returns `content`; or else an entry of the source
  -- and a chunk of the encryption are different and have the same hash.
  pub retrieve-fixture_new :
      (content : Bytes) (m : c.DataMap) (chunks : List c.EncryptedChunk) (s : S)
      → c.encrypt content ≡ ok (m, chunks)
      → c.is_child m ≡ false
      → fixture_new c n content ≡ ok source
      → ((retrieve c get_chunk source.data_map_address s).0 ≡ ok content)
        ⊎ Collision c (IsStocked source) (IsAmong c chunks)
  unfolding retrieve retrieve_found
  retrieve-fixture_new content m chunks s e flat built =
      let u = fixture_new-Uploaded c n content source built in
      let same_map : u.data_map ≡ m = cc (u.encrypted, e) in
      let same_list : u.chunks ≡ chunks = cc (u.encrypted, e) in
      let parsed : c.from_slice u.serialized ≡ ok m =
        upload.from_slice-to_vec u.data_map u.written ∙ ap ok same_map in
      let fetched = All-IsFetched content m chunks e flat (rw same_list at u.chunks_served) in
      let start : Retrieval c = record { data_map = m; root_resolved = true; cache = [] } in
      let after = (get_chunk (c.hash u.serialized) s).1 in
      let l =
        rounds-Leaves c laws get_chunk (IsStocked source) m 14 after start
          (All-missing c laws _ [] (c.infos m) fetched)
          (All-missing c laws _ [] (c.infos m) (names_long c laws (c.infos m)))
          (record {
            same_map = refl;
            resolved = refl;
            verified = IsVerified-empty c (IsStocked source);
          }) in
      elim (drive_decrypts c laws upload get_chunk (IsStocked source) m after start chunks content l
        e flat) [
          | inr collision ↦ inr collision
          | inl done ↦ inl (
              rw u.address (
                rw (answers (c.hash u.serialized) s (laws.length-hash u.serialized), retrieve)
                  (rw u.map_served (
                    rw (begin_accepts c laws u.serialized m parsed, retrieve_found)
                      (rw flat done)))))
        ]
