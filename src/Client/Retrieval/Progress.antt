-- ===== src/Client/Retrieval/Progress.antt =====
-- What a retrieval still needs, when it is complete, and what `finish` then does.
use mathlib.Core.List.{append-nil, append_assoc}
use autonomi_webrtc_direct_p.Prelude.{
  ◌+◌, ◌≡◌, ◌↔◌, inl, inr, refl, sym, ap, ◌∙◌, arith, true, List, [], ◌∷◌, ◌++◌, Bytes, ok,
  bytes_eq, Bool-cases, Option-cases, if◌then◌else◌, length, concat,
}
use autonomi_webrtc_direct_p.Prelude.Dict
use autonomi_webrtc_direct_p.Prelude.Dict.{Dict, get-insert}
use autonomi_webrtc_direct_p.Crates.{Crates, CrateLaws, XorName}
use autonomi_webrtc_direct_p.Client.Retrieval.{
  Retrieval, required_from, required_addresses, is_complete, is_empty, chunk_count, chunks_held,
  count_held, collect_chunks,
}

module _ (c : Crates) where
  -- The names in the map that the cache does not hold, in the map's order.
  unfoldable pub missing : Dict c.EncryptedChunk → List c.ChunkInfo → List XorName
  missing cache [] = []
  missing cache (info ∷ rest) =
      let others = missing cache rest in
      if Dict.contains_key cache (c.dst_hash info) then others else c.dst_hash info ∷ others

  required_from-missing :
      (cache : Dict c.EncryptedChunk) (out : Bytes) (infos : List c.ChunkInfo)
      → required_from c cache out infos ≡ out ++ concat (missing cache infos)
  unfolding required_from missing
  required_from-missing cache out [] = sym (append-nil out)
  required_from-missing cache out (info ∷ rest) =
      elim (Bool-cases (Dict.contains_key cache (c.dst_hash info))) [
        | inl held ↦ rw held (required_from-missing cache out rest)
        | inr lacking ↦ rw lacking (
            required_from-missing cache (out ++ c.dst_hash info) rest
            ∙ append_assoc out (c.dst_hash info) (concat (missing cache rest)))
      ]

  pub required_addresses-missing :
      (r : Retrieval c) → required_addresses c r ≡ concat (missing r.cache (c.infos r.data_map))
  unfolding required_addresses
  required_addresses-missing r = required_from-missing r.cache [] (c.infos r.data_map)

  count_held-missing :
      (cache : Dict c.EncryptedChunk) (infos : List c.ChunkInfo)
      → count_held c cache infos + length (missing cache infos) ≡ length infos
  unfolding count_held missing
  count_held-missing cache [] = refl
  count_held-missing cache (info ∷ rest) =
      elim (Bool-cases (Dict.contains_key cache (c.dst_hash info))) [
        | inl held ↦ rw held (omega (arith, count_held-missing cache rest))
        | inr lacking ↦ rw lacking (omega (arith, count_held-missing cache rest))
      ]

  -- The cache after one more name: it is no longer missing, and the others are as before.
  unfoldable pub without : XorName → List XorName → List XorName
  without k [] = []
  without k (j ∷ js) = let rest = without k js in if bytes_eq k j then rest else j ∷ rest

module _ (c : Crates) (laws : CrateLaws c) where
  is_empty-concat :
      (cache : Dict c.EncryptedChunk) (infos : List c.ChunkInfo)
      → is_empty (concat (missing c cache infos)) ≡ true
      → missing c cache infos ≡ []
  unfolding missing
  is_empty-concat cache [] h = refl
  is_empty-concat cache (info ∷ rest) h =
      elim (Bool-cases (Dict.contains_key cache (c.dst_hash info))) [
        | inl held ↦ rw held (is_empty-concat cache rest (rw held at h))
        | inr lacking ↦
            absurd (some_bytes (c.dst_hash info) _ (laws.length-dst_hash info) (rw lacking at h))
      ]
    where
      some_bytes : (xs ys : Bytes) → length xs ≡ 32 → ¬ (is_empty (xs ++ ys) ≡ true)
      some_bytes [] ys e = λ _. omega arith
      some_bytes (x ∷ xs) ys e = λ p. cc p

  -- A retrieval asks for nothing more exactly if it misses nothing.
  pub required_nothing_iff :
      (r : Retrieval c)
      → (is_empty (required_addresses c r) ≡ true) ↔ (missing c r.cache (c.infos r.data_map) ≡ [])
  required_nothing_iff r = (
    λ h.
        is_empty-concat r.cache (c.infos r.data_map)
          (ap is_empty (sym (required_addresses-missing c r)) ∙ h),
    λ h. ap is_empty (required_addresses-missing c r) ∙ ap (λ ks. is_empty (concat ks)) h,
  )

  -- A retrieval is complete exactly if its root map is resolved and it holds as many of the map's
  -- chunks as the map lists.
  pub is_complete_iff :
      (r : Retrieval c)
      → (is_complete c r ≡ true) ↔ ((r.root_resolved ≡ true) × (chunks_held c r ≡ chunk_count c r))
  unfolding is_complete chunks_held chunk_count
  is_complete_iff r = (
    λ h. (
      ground arith,
      omega (
        arith,
        count_held-missing c r.cache (c.infos r.data_map),
        ap length ((required_nothing_iff r).0 (ground arith)),
      ),
    ),
    λ (flag, count). ground (
      arith,
      flag,
      (required_nothing_iff r).1 (
          nil_of_length _
            (omega (arith, count, count_held-missing c r.cache (c.infos r.data_map)))),
    ),
  )
    where
      nil_of_length : (ks : List XorName) → length ks ≡ 0 → ks ≡ []
      nil_of_length [] e = refl
      nil_of_length (k ∷ ks) e = absurd (omega arith)

  pub collect_complete :
      (cache : Dict c.EncryptedChunk) (infos : List c.ChunkInfo)
      → missing c cache infos ≡ []
      → (chunks : List c.EncryptedChunk) × (collect_chunks c cache infos ≡ ok chunks)
  unfolding missing collect_chunks Dict.contains_key
  collect_complete cache [] h = ([], refl)
  collect_complete cache (info ∷ rest) h = elim (Option-cases (Dict.get cache (c.dst_hash info))) [
    | inl none_held ↦ absurd (ground (arith, none_held, h))
    | inr (chunk, held) ↦
        let (chunks, p) = collect_complete cache rest (ground (arith, held, h)) in
        (chunk ∷ chunks, ground (arith, held, p))
  ]
