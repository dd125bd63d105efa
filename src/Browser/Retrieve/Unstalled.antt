-- ===== src/Browser/Retrieve/Unstalled.antt =====
-- Why the loop of `retrieve` does not stall.
use autonomi_webrtc_direct_p.Prelude.{
  ℕ, zero, suc, ◌≡◌, refl, sym, ap, ◌∙◌, inl, inr, arith, true, false, [], ◌∷◌, Option, Bytes, ok,
  length, ◌==◌, Bool-cases, Result-cases,
}
use autonomi_webrtc_direct_p.Prelude.Effects.{Io}
use autonomi_webrtc_direct_p.Crates.{Crates}
use autonomi_webrtc_direct_p.Client.Retrieval.{
  Retrieval, advance, fetch, is_complete, is_empty, required_addresses,
}
use autonomi_webrtc_direct_p.Browser.Retrieve.{check_stalled, rounds}

is_empty-length : (xs : Bytes) → is_empty xs ≡ false → (length xs == 0) ≡ false
is_empty-length [] h = absurd (cc h)
is_empty-length (x ∷ xs) h = ground arith

module _ (c : Crates) {E S : Type 0} (get_chunk : Bytes → Io E S (Option Bytes)) where
  check_passes_lacking :
      (s : S) (r : Retrieval c)
      → is_empty (required_addresses c r) ≡ false
      → check_stalled c get_chunk (s, r) ≡ (ok tt, (s, r))
  unfolding check_stalled is_complete
  check_passes_lacking s r h =
      let long = is_empty-length (required_addresses c r) h in ground (arith, h, long)

  pub check_passes_resolved :
      (s : S) (r : Retrieval c)
      → r.root_resolved ≡ true
      → check_stalled c get_chunk (s, r) ≡ (ok tt, (s, r))
  unfolding check_stalled is_complete
  check_passes_resolved s r h = elim (Bool-cases (is_complete c r)) [
    | inl complete ↦ rw (complete, check_stalled) refl
    | inr incomplete ↦ check_passes_lacking s r (ground (arith, incomplete, h))
  ]

  -- Behind an `advance` that succeeds, the check for a stalled retrieval passes.
  pub advance_unstalls :
      (s : S) (t u : Retrieval c)
      → advance c t ≡ (ok tt, u)
      → check_stalled c get_chunk (s, u) ≡ (ok tt, (s, u))
  unfolding advance
  advance_unstalls s t u h = elim (Bool-cases t.root_resolved) [
    | inl resolved ↦
        let same : t ≡ u = ap (λ p. p.1) (sym (stays resolved) ∙ h) in
        check_passes_resolved s u (ap (λ r. r.root_resolved) (sym same) ∙ resolved)
    | inr unresolved ↦ elim (Bool-cases (is_empty (required_addresses c t))) [
      | inr lacking ↦
          let same : t ≡ u = ap (λ p. p.1) (sym (waits lacking) ∙ h) in
          check_passes_lacking s u
            (ap (λ r. is_empty (required_addresses c r)) (sym same) ∙ lacking)
      | inl held ↦ elim (Result-cases (c.get_root_data_map t.data_map (fetch c t.cache))) [
        | inl (root, p) ↦ check_passes_resolved s u (ground arith)
        | inr (e, p) ↦ absurd (ground arith)
      ]
    ]
  ]
    where
      stays : t.root_resolved ≡ true → advance c t ≡ (ok tt, t)
      stays resolved = rw (resolved, advance) refl

      waits : is_empty (required_addresses c t) ≡ false → advance c t ≡ (ok tt, t)
      waits lacking = elim (Bool-cases t.root_resolved) [
        | inl resolved ↦ stays resolved
        | inr unresolved ↦ ground arith
      ]

  -- A complete retrieval goes through no round.
  pub rounds_complete :
      (n : ℕ) (s : S) (r : Retrieval c)
      → is_complete c r ≡ true
      → rounds c get_chunk n (s, r) ≡ (ok tt, (s, r))
  unfolding rounds
  rounds_complete zero s r h = refl
  rounds_complete (suc n) s r h = rw (h, rounds) refl
