-- ===== src/Client/Retrieval/Trust/Agreement.antt =====
-- Two retrievals of one address that finish have the same plaintext.
use autonomi_webrtc_direct_p.Prelude.{
  ◌≡◌, ◌⊎◌, inl, inr, sym, ap, ◌∙◌, arith, Bool, true, false, not, List, Bytes, ok, Bool-cases,
  Result-cases,
}
use autonomi_webrtc_direct_p.Crates.{Crates, CrateLaws, Collision, XorName}
use autonomi_webrtc_direct_p.Client.Retrieval.{
  Retrieval, begin, fetch, is_complete, finish, collect_chunks,
}
use autonomi_webrtc_direct_p.Client.Retrieval.Cache.{
  IsVerified, fetch_agrees, collect_chunks_agrees, same_or_collision,
}
use autonomi_webrtc_direct_p.Client.Retrieval.Trust.{
  Reach, Derived, as_parsed, as_resolved, begin-IsGenuine, Reach-IsGenuine,
}

-- What a successful `finish` went through.
pub record Finished (c : Crates) (r : Retrieval c) (plaintext : Bytes) : Type 0 where
  pub resolved : r.root_resolved ≡ true
  pub chunks : List c.EncryptedChunk
  pub collected : collect_chunks c r.cache (c.infos r.data_map) ≡ ok chunks
  pub decrypted : c.decrypt r.data_map chunks ≡ ok plaintext

module _ (c : Crates) where
  pub finish-Finished :
      (r : Retrieval c) (plaintext : Bytes) → finish c r ≡ ok plaintext → Finished c r plaintext
  unfolding finish is_complete
  finish-Finished r plaintext h = elim (Bool-cases (is_complete c r)) [
    | inr missing ↦ absurd (ground arith)
    | inl complete ↦ elim (Result-cases (collect_chunks c r.cache (c.infos r.data_map))) [
      | inr (e, p) ↦ absurd (ground arith)
      | inl (chunks, p) ↦ elim (Result-cases (c.decrypt r.data_map chunks)) [
        | inr (e, q) ↦ absurd (ground arith)
        | inl (text, q) ↦ record {
          resolved = ground arith;
          chunks = chunks;
          collected = p;
          decrypted = ground arith;
        }
      ]
    ]
  ]

  flag_false :
      (first : c.DataMap) (b : Bool)
      → c.is_child first ≡ true
      → b ≡ not (c.is_child first)
      → b ≡ false
  flag_false first b p q = q ∙ ap not p

module _ (c : Crates) (laws : CrateLaws c) (Served₁ Served₂ : Bytes → Type 0) where
  same_map :
      (first : c.DataMap) (r s : Retrieval c)
      → Derived c Served₁ first r
      → Derived c Served₂ first s
      → r.root_resolved ≡ true
      → s.root_resolved ≡ true
      → (r.data_map ≡ s.data_map) ⊎ Collision c Served₁ Served₂
  same_map first r s (as_parsed x _) (as_parsed y _) _ _ = inl (x ∙ sym y)
  same_map first r s (as_parsed _ f) (as_resolved _ _ child _ _) p _ =
      absurd (cc (p, flag_false c first r.root_resolved child f))
  same_map first r s (as_resolved _ _ child _ _) (as_parsed _ f) _ q =
      absurd (cc (q, flag_false c first s.root_resolved child f))
  same_map first r s (as_resolved d vd _ x _) (as_resolved e ve _ y _) _ _ =
      elim (fetch_agrees c laws Served₁ Served₂ d e vd ve) [
        | inr collision ↦ inr collision
        | inl agree ↦ inl (
            laws.get_root_data_map_agrees first r.data_map s.data_map (fetch c d) (fetch c e) agree
              x y)
      ]

  same_plaintext :
      (r s : Retrieval c) (x y : Bytes)
      → IsVerified c Served₁ r.cache
      → IsVerified c Served₂ s.cache
      → Finished c r x
      → Finished c s y
      → r.data_map ≡ s.data_map
      → (x ≡ y) ⊎ Collision c Served₁ Served₂
  same_plaintext r s x y vr vs f g e =
      elim (collect_chunks_agrees c laws Served₁ Served₂ r.cache s.cache vr vs (c.infos s.data_map)
        f.chunks g.chunks (rw e at f.collected) g.collected) [
          | inr collision ↦ inr collision
          | inl same ↦
              let decrypted : c.decrypt s.data_map g.chunks ≡ ok x =
                rw same at (rw e at f.decrypted) in
              inl (cc (decrypted, g.decrypted))
        ]

  -- Two retrievals that begin at the same address and finish, after any calls of `supply` and
  -- `advance`, successful or not, the first with bytes among `Served₁` and the second with bytes
  -- among `Served₂`, yield the same plaintext; or else two different byte strings, one of
  -- `Served₁` and one of `Served₂`, have the same hash.
  pub proxy_independence :
      (address : XorName) (bytes₁ bytes₂ : Bytes) (r₁ r₂ s₁ s₂ : Retrieval c) (x₁ x₂ : Bytes)
      → Served₁ bytes₁
      → Served₂ bytes₂
      → begin c address bytes₁ ≡ ok r₁
      → begin c address bytes₂ ≡ ok r₂
      → Reach c Served₁ r₁ s₁
      → Reach c Served₂ r₂ s₂
      → finish c s₁ ≡ ok x₁
      → finish c s₂ ≡ ok x₂
      → (x₁ ≡ x₂) ⊎ Collision c Served₁ Served₂
  proxy_independence address bytes₁ bytes₂ r₁ r₂ s₁ s₂ x₁ x₂ v₁ v₂ b₁ b₂ p₁ p₂ f₁ f₂ =
      let g₁ =
        Reach-IsGenuine c laws Served₁ address p₁
          (begin-IsGenuine c laws Served₁ address bytes₁ r₁ v₁ b₁) in
      let g₂ =
        Reach-IsGenuine c laws Served₂ address p₂
          (begin-IsGenuine c laws Served₂ address bytes₂ r₂ v₂ b₂) in
      let d₁ = finish-Finished c s₁ x₁ f₁ in
      let d₂ = finish-Finished c s₂ x₂ f₂ in
      elim (same_or_collision c Served₁ Served₂ g₁.origin g₂.origin g₁.origin_served
        g₂.origin_served (g₁.is_origin ∙ sym g₂.is_origin)) [
          | inr collision ↦ inr collision
          | inl origin ↦
              let parsed : c.from_slice g₂.origin ≡ ok g₁.first = rw origin at g₁.parsed in
              let first : g₁.first ≡ g₂.first = cc (parsed, g₂.parsed) in
              elim (same_map g₂.first s₁ s₂ (rw first at g₁.derived) g₂.derived d₁.resolved
                d₂.resolved) [
                  | inr collision ↦ inr collision
                  | inl maps ↦ same_plaintext s₁ s₂ x₁ x₂ g₁.verified g₂.verified d₁ d₂ maps
                ]
        ]
