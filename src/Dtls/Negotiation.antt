-- ===== src/Dtls/Negotiation.antt =====
-- What the server's negotiation can end with.
use autonomi_webrtc_direct_p.Prelude.{
  ◌≡◌, ◌≢◌, inl, inr, refl, ap, ◌∙◌, arith, true, not, ◌&&◌, List, [], ◌∷◌, ◌++◌, Option, none,
  some, Result, ok, err, All, if◌then◌else◌, Bool-cases, Option-cases, Result-cases, ◌>>=◌,
}
use autonomi_webrtc_direct_p.Dtls.{
  NamedCurve, unsupported_curve, p256, p384, x25519, select_curve, SrtpProtectionProfile,
  srtp_aead_aes_256_gcm, srtp_aead_aes_128_gcm, srtp_aes128_cm_hmac_sha1_80,
  srtp_aes128_cm_hmac_sha1_32, unsupported_profile, find_matching_srtp_profile, offered_profiles,
  is_require, is_disable, Config, Extension, supported_elliptic_curves, use_srtp,
  use_extended_master_secret, server_name, not_read, HandshakeError, no_supported_elliptic_curves,
  server_no_matching_srtp_profile, server_required_but_no_client_ems, invalid_named_curve, State,
  apply_extension, apply_extensions, generate_keypair, ensure_keypair, negotiate,
}

-- How `select_curve` ends.
pub data Selected (curves : List NamedCurve) : Option NamedCurve → Type 0 where
  no_overlap : All (λ curve. curve ≡ unsupported_curve) curves → Selected curves none
  preferred :
      (before : List NamedCurve) (curve : NamedCurve) (after : List NamedCurve)
      → curves ≡ before ++ curve ∷ after
      → All (λ skipped. skipped ≡ unsupported_curve) before
      → curve ≢ unsupported_curve
      → Selected curves (some curve)

Selected-skip :
    (curves : List NamedCurve) (o : Option NamedCurve)
    → Selected curves o
    → Selected (unsupported_curve ∷ curves) o
Selected-skip curves _ (no_overlap h) = no_overlap (refl, h)
Selected-skip curves _ (preferred before curve after e h d) =
    preferred (unsupported_curve ∷ before) curve after (ap (◌∷◌ unsupported_curve) e) (refl, h) d

-- The server selects the client's most preferred curve among those that it supports, and none only
-- if it supports none of them.
pub select_curve_lem : (curves : List NamedCurve) → Selected curves (select_curve curves)
unfolding select_curve
select_curve_lem [] = no_overlap tt
select_curve_lem (unsupported_curve ∷ rest) = Selected-skip rest _ (select_curve_lem rest)
select_curve_lem (p256 ∷ rest) = preferred [] p256 rest refl tt (λ e. cc e)
select_curve_lem (p384 ∷ rest) = preferred [] p384 rest refl tt (λ e. cc e)
select_curve_lem (x25519 ∷ rest) = preferred [] x25519 rest refl tt (λ e. cc e)

select_curve-supported :
    (curves : List NamedCurve) (curve : NamedCurve)
    → select_curve curves ≡ some curve
    → curve ≢ unsupported_curve
select_curve-supported curves curve e = go (select_curve curves) e (select_curve_lem curves)
  where
    go : (o : Option NamedCurve) → o ≡ some curve → Selected curves o → curve ≢ unsupported_curve
    go _ p (no_overlap h) = absurd (cc p)
    go _ p (preferred before c after q h d) = let same : c ≡ curve = cc p in λ r. d (same ∙ r)

-- The profile whose keys make the SRTP library panic is not among those on offer.
matching_not_256 :
    (profiles : List SrtpProtectionProfile) (profile : SrtpProtectionProfile)
    → find_matching_srtp_profile profiles offered_profiles ≡ some profile
    → profile ≢ srtp_aead_aes_256_gcm
unfolding find_matching_srtp_profile
matching_not_256 [] profile h = absurd (cc h)
matching_not_256 (srtp_aead_aes_256_gcm ∷ rest) profile h = matching_not_256 rest profile h
matching_not_256 (srtp_aes128_cm_hmac_sha1_32 ∷ rest) profile h = matching_not_256 rest profile h
matching_not_256 (unsupported_profile ∷ rest) profile h = matching_not_256 rest profile h
matching_not_256 (srtp_aead_aes_128_gcm ∷ rest) profile h = λ e. cc (h, e)
matching_not_256 (srtp_aes128_cm_hmac_sha1_80 ∷ rest) profile h = λ e. cc (h, e)

module _ {K : Type 0} (keypair : NamedCurve → K) (cfg : Config) where
  -- A supported curve, and a profile other than that one.
  pub record IsUsable (s : State K) : Type 0 where
    pub curve : s.named_curve ≢ unsupported_curve
    pub profile : s.srtp_protection_profile ≢ srtp_aead_aes_256_gcm

  apply_extension-IsUsable :
      (extension : Extension) (s t : State K)
      → cfg.local_srtp_protection_profiles ≡ offered_profiles
      → IsUsable s
      → apply_extension keypair cfg extension s ≡ ok t
      → IsUsable t
  unfolding apply_extension
  apply_extension-IsUsable (supported_elliptic_curves curves) s t o u h =
      elim (Option-cases (select_curve curves)) [
        | inl p ↦ absurd (ground arith)
        | inr (curve, p) ↦
            let moved : record s { named_curve = curve } ≡ t = ground arith in
            rw (← moved)
              (record { curve = select_curve-supported curves curve p; profile = u.profile })
      ]
  apply_extension-IsUsable (use_srtp profiles) s t o u h =
      elim (Option-cases (find_matching_srtp_profile profiles cfg.local_srtp_protection_profiles)) [
        | inl p ↦ absurd (ground arith)
        | inr (profile, p) ↦
            let moved : record s { srtp_protection_profile = profile } ≡ t = ground arith in
            rw (← moved)
              (record { curve = u.curve; profile = matching_not_256 profiles profile (rw o at p) })
      ]
  apply_extension-IsUsable use_extended_master_secret s t o u h =
      elim (Bool-cases (is_disable cfg.extended_master_secret)) [
        | inl off ↦ let same : s ≡ t = ground (arith, off, h) in rw (← same) u
        | inr on ↦
            let moved : record s { extended_master_secret = true } ≡ t = ground (arith, on, h) in
            rw (← moved) (record { curve = u.curve; profile = u.profile })
      ]
  apply_extension-IsUsable (server_name name) s t o u h =
      let moved : record s { remote_server_name = name } ≡ t = cc h in
      rw (← moved) (record { curve = u.curve; profile = u.profile })
  apply_extension-IsUsable not_read s t o u h = let same : s ≡ t = cc h in rw (← same) u

  -- No extension makes the curve invalid.
  apply_extension_err :
      (extension : Extension) (s : State K) (e : HandshakeError)
      → apply_extension keypair cfg extension s ≡ err e
      → e ≢ invalid_named_curve
  unfolding apply_extension
  apply_extension_err (supported_elliptic_curves curves) s e h =
      elim (Option-cases (select_curve curves)) [
        | inl p ↦ let same : no_supported_elliptic_curves ≡ e = ground arith in λ q. cc (same, q)
        | inr (curve, p) ↦ absurd (ground arith)
      ]
  apply_extension_err (use_srtp profiles) s e h =
      elim (Option-cases (find_matching_srtp_profile profiles cfg.local_srtp_protection_profiles)) [
        | inl p ↦ let same : server_no_matching_srtp_profile ≡ e = ground arith in λ q. cc (same, q)
        | inr (profile, p) ↦ absurd (ground arith)
      ]
  apply_extension_err use_extended_master_secret s e h =
      elim (Bool-cases (is_disable cfg.extended_master_secret)) [
        | inl off ↦ absurd (ground (arith, off, h))
        | inr on ↦ absurd (ground (arith, on, h))
      ]
  apply_extension_err (server_name name) s e h = absurd (cc h)
  apply_extension_err not_read s e h = absurd (cc h)

  -- What a step of the negotiation may end with: a usable state, or another error than that.
  pub data Settled : Result HandshakeError (State K) → Type 0 where
    usable : (t : State K) → IsUsable t → Settled (ok t)
    refused : (e : HandshakeError) → e ≢ invalid_named_curve → Settled (err e)

  apply_extensions-Settled :
      (extensions : List Extension) (s : State K)
      → cfg.local_srtp_protection_profiles ≡ offered_profiles
      → IsUsable s
      → Settled (apply_extensions keypair cfg extensions s)
  unfolding apply_extensions
  apply_extensions-Settled [] s o u = usable s u
  apply_extensions-Settled (extension ∷ rest) s o u =
      elim (Result-cases (apply_extension keypair cfg extension s)) [
        | inl (t, p) ↦
            rw (p, apply_extensions)
              (apply_extensions-Settled rest t o (apply_extension-IsUsable extension s t o u p))
        | inr (e, p) ↦ rw (p, apply_extensions) (refused e (apply_extension_err extension s e p))
      ]

  generate_keypair_ok :
      (curve : NamedCurve)
      → curve ≢ unsupported_curve
      → generate_keypair keypair cfg curve ≡ ok (keypair curve)
  unfolding generate_keypair
  generate_keypair_ok unsupported_curve h = absurd (h refl)
  generate_keypair_ok p256 h = refl
  generate_keypair_ok p384 h = refl
  generate_keypair_ok x25519 h = refl

  ensure_keypair-Settled : (s : State K) → IsUsable s → Settled (ensure_keypair keypair cfg s)
  unfolding ensure_keypair
  ensure_keypair-Settled s u = elim (Option-cases s.local_keypair) [
    | inr (pair, p) ↦ rw (p, ensure_keypair) (usable s u)
    | inl p ↦
        rw (p, ensure_keypair)
          (rw (generate_keypair_ok s.named_curve u.curve)
            (usable _ (record { curve = u.curve; profile = u.profile })))
  ]

  -- With the profiles that `setting_engine` sets, and from a state with a supported curve and not
  -- with the AES-256-GCM profile, the server's negotiation over any extensions either succeeds,
  -- again with a supported curve and not with that profile, or fails with another error than that
  -- of an invalid curve.
  pub negotiate-Settled :
      (extensions : List Extension) (s : State K)
      → cfg.local_srtp_protection_profiles ≡ offered_profiles
      → IsUsable s
      → Settled (negotiate keypair cfg extensions s)
  unfolding negotiate
  negotiate-Settled extensions s o u =
      go (apply_extensions keypair cfg extensions s) (apply_extensions-Settled extensions s o u)
    where
      go :
          (r : Result HandshakeError (State K))
          → Settled r
          → Settled (
              r >>= λ t.
              if is_require cfg.extended_master_secret && not t.extended_master_secret
              then err server_required_but_no_client_ems
              else ensure_keypair keypair cfg t)
      go _ (refused e h) = refused e h
      go _ (usable t v) =
          elim (Bool-cases
            (is_require cfg.extended_master_secret && not t.extended_master_secret)) [
              | inl lacking ↦ rw lacking (refused server_required_but_no_client_ems (λ q. cc q))
              | inr fine ↦ rw fine (ensure_keypair-Settled t v)
            ]
