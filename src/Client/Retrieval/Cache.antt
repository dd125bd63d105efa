-- ===== src/Client/Retrieval/Cache.antt =====
-- The cache of verified chunks, and what two such caches can disagree on.
use autonomi_webrtc_direct_p.Prelude.{
  ◌≡◌, ◌⊎◌, inl, inr, sym, ◌∙◌, arith, List, [], ◌∷◌, none, some, Bytes, ok, All, bytes_eq,
  bytes_eq_iff, eq_of_bytes_eq, Bool-cases, Option-cases, Result-cases,
}
use autonomi_webrtc_direct_p.Prelude.Dict
use autonomi_webrtc_direct_p.Prelude.Dict.{Dict, get-insert}
use autonomi_webrtc_direct_p.Crates.{Crates, CrateLaws, Collision, XorName}
use autonomi_webrtc_direct_p.Client.Retrieval.{fetch, collect_chunks}

module _ (c : Crates) (Served : Bytes → Type 0) where
  -- Every chunk in the cache was served, and hashes to the address that it stands under.
  pub record IsVerified (cache : Dict c.EncryptedChunk) : Type 0 where
    pub at_key :
        (k : XorName) (chunk : c.EncryptedChunk)
        → Dict.get cache k ≡ some chunk
        → (c.hash (c.content chunk) ≡ k) × Served (c.content chunk)

  pub IsVerified-empty : IsVerified []
  IsVerified-empty = record { at_key = λ k chunk h. unfold Dict.get in cc h }

  pub IsVerified-insert :
      (cache : Dict c.EncryptedChunk) (k : XorName) (chunk : c.EncryptedChunk)
      → c.hash (c.content chunk) ≡ k
      → Served (c.content chunk)
      → IsVerified cache
      → IsVerified (Dict.insert cache k chunk)
  IsVerified-insert cache k chunk e served h = record {
    at_key = λ j x p. elim (Bool-cases (bytes_eq k j)) [
      | inl same ↦
          let is_new : chunk ≡ x = ground (arith, same, p, get-insert cache k j chunk) in
          rw (← is_new) (e ∙ eq_of_bytes_eq k j same, served)
      | inr other ↦ h.at_key j x (ground (arith, other, p, get-insert cache k j chunk))
    ];
  }

module _ (c : Crates) (A B : Bytes → Type 0) where
  -- Two byte strings with one hash are equal, or they are a collision.
  pub same_or_collision :
      (x y : Bytes) → A x → B y → c.hash x ≡ c.hash y → (x ≡ y) ⊎ Collision c A B
  same_or_collision x y a b e = elim (Bool-cases (bytes_eq x y)) [
    | inl same ↦ inl (eq_of_bytes_eq x y same)
    | inr other ↦ inr (record {
      left = x;
      right = y;
      is_left = a;
      is_right = b;
      differ = λ p. cc (other, (bytes_eq_iff x y).1 p);
      same_hash = e;
    })
  ]

module _ (c : Crates) (A B : Bytes → Type 0) (d e : Dict c.EncryptedChunk) (vd : IsVerified c A d)
    (ve : IsVerified c B e) where
  -- The fetchers over the two caches answer the name alike, where both answer.
  abbrev AgreeAt : XorName → Type 0
  AgreeAt k = (x y : Bytes) → fetch c d k ≡ ok x → fetch c e k ≡ ok y → x ≡ y

  fetch-some :
      (f : Dict c.EncryptedChunk) (k : XorName) (chunk : c.EncryptedChunk) (x : Bytes)
      → Dict.get f k ≡ some chunk
      → fetch c f k ≡ ok x
      → c.content chunk ≡ x
  unfolding fetch
  fetch-some f k chunk x p q = ground arith

  fetch-none :
      (f : Dict c.EncryptedChunk) (k : XorName) (x : Bytes)
      → Dict.get f k ≡ none
      → ¬ (fetch c f k ≡ ok x)
  unfolding fetch
  fetch-none f k x p q = ground arith

  agree_at : (k : XorName) → AgreeAt k ⊎ Collision c A B
  agree_at k = elim (Option-cases (Dict.get d k)) [
    | inl p ↦ inl (λ x y q r. absurd (fetch-none d k x p q))
    | inr (chunk, p) ↦ elim (Option-cases (Dict.get e k)) [
      | inl q ↦ inl (λ x y s r. absurd (fetch-none e k y q r))
      | inr (other, q) ↦
          elim (same_or_collision c A B (c.content chunk) (c.content other) (vd.at_key k chunk p).1
            (ve.at_key k other q).1 ((vd.at_key k chunk p).0 ∙ sym (ve.at_key k other q).0)) [
              | inl same ↦
                  inl (λ x y s r.
                    sym (fetch-some d k chunk x p s) ∙ same ∙ fetch-some e k other y q r)
              | inr collision ↦ inr collision
            ]
    ]
  ]

  agree_on : (ks : List XorName) → All AgreeAt ks ⊎ Collision c A B
  agree_on [] = inl tt
  agree_on (k ∷ ks) = elim (agree_at k) [
    | inr collision ↦ inr collision
    | inl here ↦ elim (agree_on ks) [ inr collision ↦ inr collision | inl rest ↦ inl (here, rest) ]
  ]

-- A name that a dictionary holds is one of its keys.
All-keys :
    {V : Type 0} (P : Bytes → Type 0) (d : Dict V) (k : Bytes) (v : V)
    → All P (Dict.keys d)
    → Dict.get d k ≡ some v
    → P k
unfolding Dict.keys Dict.get
All-keys P [] k v h e = absurd (cc e)
All-keys P ((j, w) ∷ d) k v (h, hs) e = elim (Bool-cases (bytes_eq j k)) [
  | inl same ↦ rw (← eq_of_bytes_eq j k same) h
  | inr other ↦ All-keys P d k v hs (ground (arith, other, e))
]

module _ (c : Crates) where
  pub record FirstChunk (cache : Dict c.EncryptedChunk) (info : c.ChunkInfo)
      (infos : List c.ChunkInfo) (xs : List c.EncryptedChunk) : Type 0 where
    pub chunk : c.EncryptedChunk
    pub rest : List c.EncryptedChunk
    pub is_held : Dict.get cache (c.dst_hash info) ≡ some chunk
    pub is_rest : collect_chunks c cache infos ≡ ok rest
    pub is_list : xs ≡ chunk ∷ rest

  pub collect_chunks_first :
      (cache : Dict c.EncryptedChunk) (info : c.ChunkInfo) (infos : List c.ChunkInfo)
      (xs : List c.EncryptedChunk)
      → collect_chunks c cache (info ∷ infos) ≡ ok xs
      → FirstChunk cache info infos xs
  unfolding collect_chunks
  collect_chunks_first cache info infos xs h =
      elim (Option-cases (Dict.get cache (c.dst_hash info))) [
        | inl p ↦ absurd (ground arith)
        | inr (chunk, p) ↦ elim (Result-cases (collect_chunks c cache infos)) [
          | inl (rest, q) ↦ record {
            chunk = chunk;
            rest = rest;
            is_held = p;
            is_rest = q;
            is_list = ground arith;
          }
          | inr (e, q) ↦ absurd (ground arith)
        ]
      ]

module _ (c : Crates) (laws : CrateLaws c) (A B : Bytes → Type 0) where
  -- The fetchers over two verified caches never answer one name differently, or there is a
  -- collision.
  pub fetch_agrees :
      (d e : Dict c.EncryptedChunk)
      → IsVerified c A d
      → IsVerified c B e
      → ((k : XorName) (x y : Bytes) → fetch c d k ≡ ok x → fetch c e k ≡ ok y → x ≡ y)
        ⊎ Collision c A B
  fetch_agrees d e vd ve = elim (agree_on c A B d e vd ve (Dict.keys d)) [
    | inr collision ↦ inr collision
    | inl all ↦ inl (λ k x y p q. elim (Option-cases (Dict.get d k)) [
      | inl none_d ↦ absurd (fetch-none c A B d e vd ve d k x none_d p)
      | inr (chunk, some_d) ↦ All-keys (AgreeAt c A B d e vd ve) d k chunk all some_d x y p q
    ])
  ]

  -- Collecting the chunks of one map from two verified caches gives the same chunks, or there is a
  -- collision.
  pub collect_chunks_agrees :
      (d e : Dict c.EncryptedChunk)
      → IsVerified c A d
      → IsVerified c B e
      → (infos : List c.ChunkInfo) (xs ys : List c.EncryptedChunk)
      → collect_chunks c d infos ≡ ok xs
      → collect_chunks c e infos ≡ ok ys
      → (xs ≡ ys) ⊎ Collision c A B
  collect_chunks_agrees d e vd ve [] xs ys p q = inl (unfold collect_chunks in cc (p, q))
  collect_chunks_agrees d e vd ve (info ∷ infos) xs ys p q =
      let x = collect_chunks_first c d info infos xs p in
      let y = collect_chunks_first c e info infos ys q in
      elim (same_or_collision c A B (c.content x.chunk) (c.content y.chunk)
        (vd.at_key _ x.chunk x.is_held).1 (ve.at_key _ y.chunk y.is_held).1
        ((vd.at_key _ x.chunk x.is_held).0 ∙ sym (ve.at_key _ y.chunk y.is_held).0)) [
          | inr collision ↦ inr collision
          | inl same ↦
              elim (collect_chunks_agrees d e vd ve infos x.rest y.rest x.is_rest y.is_rest) [
                | inr collision ↦ inr collision
                | inl rest ↦
                    inl
                      (cc (x.is_list, y.is_list, rest, laws.content_injective x.chunk y.chunk same))
              ]
        ]
