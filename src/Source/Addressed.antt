-- ===== src/Source/Addressed.antt =====
-- What a fixture source serves: only content under its own address, and all of it.
use autonomi_webrtc_direct_p.Prelude.{
  ◌≡◌, refl, ap, arith, List, [], ◌∷◌, some, Bytes, Result, ok, err, All, length, bytes_eq,
  bytes_eq_refl, eq_of_bytes_eq, if◌then◌else◌, Bool-cases, inl, inr,
}
use autonomi_webrtc_direct_p.Prelude.Dict
use autonomi_webrtc_direct_p.Prelude.Dict.{Dict, get-insert}
use autonomi_webrtc_direct_p.Crates.{Crates, XorName}
use autonomi_webrtc_direct_p.Source.{Network, FixtureSource, insert_chunks, fixture_new}

module _ (c : Crates) where
  -- Every entry stands under its content's hash.
  pub record IsAddressed (d : Dict Bytes) : Type 0 where
    pub at_key : (k b : Bytes) → Dict.get d k ≡ some b → c.hash b ≡ k

  -- Something with that hash is stored under it.
  abbrev pub Held : Dict Bytes → XorName → Type 0
  Held d k = (b : Bytes) × (Dict.get d k ≡ some b) × (c.hash b ≡ k)

  IsAddressed-empty : IsAddressed []
  IsAddressed-empty = record { at_key = λ k b h. unfold Dict.get in cc h }

  IsAddressed-insert :
      (d : Dict Bytes) (b : Bytes) → IsAddressed d → IsAddressed (Dict.insert d (c.hash b) b)
  IsAddressed-insert d b h = record {
    at_key = λ k x e. elim (Bool-cases (bytes_eq (c.hash b) k)) [
      | inl same ↦ cc (
        e,
        get-insert d (c.hash b) k b,
        ap (λ t. if t then some b else Dict.get d k) same,
        eq_of_bytes_eq (c.hash b) k same,
      )
      | inr other ↦
          h.at_key k x (
            cc (e, get-insert d (c.hash b) k b, ap (λ t. if t then some b else Dict.get d k) other))
    ];
  }

  pub Held-insert_self :
      (d : Dict Bytes) (b : Bytes) → Dict.get (Dict.insert d (c.hash b) b) (c.hash b) ≡ some b
  Held-insert_self d b = rw get-insert (rw bytes_eq_refl refl)

  pub Held-insert :
      (d : Dict Bytes) (b : Bytes) (k : XorName) → Held d k → Held (Dict.insert d (c.hash b) b) k
  Held-insert d b k (x, e, hx) = elim (Bool-cases (bytes_eq (c.hash b) k)) [
    | inl same ↦ (b, rw get-insert (rw same refl), eq_of_bytes_eq (c.hash b) k same)
    | inr other ↦ (x, rw get-insert (rw other e), hx)
  ]

module _ (c : Crates) (n : Network) where
  insert_chunks-IsAddressed :
      (chunks : List c.EncryptedChunk) (d : Dict Bytes)
      → IsAddressed c d
      → IsAddressed c (insert_chunks c n d chunks)
  unfolding insert_chunks
  insert_chunks-IsAddressed [] d h = h
  insert_chunks-IsAddressed (chunk ∷ rest) d h =
      insert_chunks-IsAddressed rest _ (IsAddressed-insert c d (c.content chunk) h)

  insert_chunks-Held :
      (chunks : List c.EncryptedChunk) (d : Dict Bytes) (k : XorName)
      → Held c d k
      → Held c (insert_chunks c n d chunks) k
  unfolding insert_chunks
  insert_chunks-Held [] d k h = h
  insert_chunks-Held (chunk ∷ rest) d k h =
      insert_chunks-Held rest _ k (Held-insert c d (c.content chunk) k h)

  insert_chunks-All :
      (chunks : List c.EncryptedChunk) (d : Dict Bytes)
      → All (λ chunk. Held c (insert_chunks c n d chunks) (c.hash (c.content chunk))) chunks
  unfolding insert_chunks
  insert_chunks-All [] d = tt
  insert_chunks-All (chunk ∷ rest) d = (
    insert_chunks-Held rest _ _ (c.content chunk, Held-insert_self c d (c.content chunk), refl),
    insert_chunks-All rest _,
  )

  All-Held-insert :
      (d : Dict Bytes) (b : Bytes) (chunks : List c.EncryptedChunk)
      → All (λ chunk. Held c d (c.hash (c.content chunk))) chunks
      → All (λ chunk. Held c (Dict.insert d (c.hash b) b) (c.hash (c.content chunk))) chunks
  All-Held-insert d b [] h = tt
  All-Held-insert d b (chunk ∷ rest) (h, hs) = (Held-insert c d b _ h, All-Held-insert d b rest hs)

  abbrev built : Bytes → c.DataMap → List c.EncryptedChunk → Bytes → FixtureSource
  built bytes m chunks serialized = record {
    chunks = Dict.insert (insert_chunks c n [] chunks) (c.hash serialized) serialized;
    data_map_address = c.hash serialized;
    plaintext_len = length bytes;
    chunk_count = length (c.infos m);
  }

  -- What a successful construction went through.
  record Construction (bytes : Bytes) (source : FixtureSource) : Type 0 where
    data_map : c.DataMap
    chunks : List c.EncryptedChunk
    serialized : Bytes
    encrypted : c.encrypt bytes ≡ ok (data_map, chunks)
    written : c.to_vec data_map ≡ ok serialized
    is_built : source ≡ built bytes data_map chunks serialized

  fixture_new-Construction :
      (bytes : Bytes) (source : FixtureSource)
      → fixture_new c n bytes ≡ ok source
      → Construction bytes source
  unfolding fixture_new
  fixture_new-Construction bytes source h = encrypt_step (c.encrypt bytes) refl
    where
      write_step :
          (m : c.DataMap) (chunks : List c.EncryptedChunk)
          → c.encrypt bytes ≡ ok (m, chunks)
          → (w : Result c.Failure Bytes) → c.to_vec m ≡ w
          → Construction bytes source
      write_step m chunks e (ok serialized) f = record {
        data_map = m;
        chunks = chunks;
        serialized = serialized;
        encrypted = e;
        written = f;
        is_built = ground arith;
      }
      write_step m chunks e (err x) f = absurd (ground arith)

      encrypt_step :
          (r : Result c.Failure (c.DataMap × List c.EncryptedChunk))
          → c.encrypt bytes ≡ r
          → Construction bytes source
      encrypt_step (ok (m, chunks)) e = write_step m chunks e (c.to_vec m) refl
      encrypt_step (err x) e = absurd (ground arith)

  -- A fixture source that could be built serves no bytes but such as hash to the address asked for.
  pub fixture_new-IsAddressed :
      (bytes : Bytes) (source : FixtureSource)
      → fixture_new c n bytes ≡ ok source
      → IsAddressed c source.chunks
  fixture_new-IsAddressed bytes source h =
      let k = fixture_new-Construction bytes source h in
      rw k.is_built (
        IsAddressed-insert c _ k.serialized
          (insert_chunks-IsAddressed k.chunks [] (IsAddressed-empty c)))

  pub record Uploaded (bytes : Bytes) (source : FixtureSource) : Type 0 where
    pub data_map : c.DataMap
    pub chunks : List c.EncryptedChunk
    pub serialized : Bytes
    pub encrypted : c.encrypt bytes ≡ ok (data_map, chunks)
    pub written : c.to_vec data_map ≡ ok serialized
    pub address : source.data_map_address ≡ c.hash serialized
    pub map_served : Dict.get source.chunks (c.hash serialized) ≡ some serialized
    pub chunks_served : All (λ chunk. Held c source.chunks (c.hash (c.content chunk))) chunks

  -- A fixture source that could be built serves the serialized data map under
  -- `data_map_address`, and under the hash of every chunk of the encryption some content with that
  -- hash.
  pub fixture_new-Uploaded :
      (bytes : Bytes) (source : FixtureSource)
      → fixture_new c n bytes ≡ ok source
      → Uploaded bytes source
  fixture_new-Uploaded bytes source h =
      let k = fixture_new-Construction bytes source h in
      record {
        data_map = k.data_map;
        chunks = k.chunks;
        serialized = k.serialized;
        encrypted = k.encrypted;
        written = k.written;
        address = rw k.is_built refl;
        map_served = rw k.is_built (Held-insert_self c _ k.serialized);
        chunks_served =
            rw k.is_built (All-Held-insert _ k.serialized k.chunks (insert_chunks-All k.chunks []));
      }

  -- A fixture source that could be built serves no bytes but such as hash to the address asked for;
  -- it serves the serialized data map under `data_map_address`, and under the hash of every chunk of
  -- the encryption some content with that hash.
  pub fixture_new_lem :
      (bytes : Bytes) (source : FixtureSource)
      → fixture_new c n bytes ≡ ok source
      → IsAddressed c source.chunks × Uploaded bytes source
  fixture_new_lem bytes source h =
      (fixture_new-IsAddressed bytes source h, fixture_new-Uploaded bytes source h)
