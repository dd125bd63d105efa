-- ===== src/Dtls.antt =====
-- The two changes that the repository makes to its library copies, with the code around them:
-- vendor/webrtc-dtls/src/flight/flight0.rs, the server's negotiation over a ClientHello's extensions,
-- and vendor/libp2p-webrtc/src/tokio/upgrade.rs, the SRTP profiles that the server accepts.
pub mod Negotiation
use autonomi_webrtc_direct_p.Prelude.{
  ℕ, Bool, true, false, not, ◌&&◌, ◌||◌, List, [], ◌∷◌, Option, none, some, Bytes, Result, ok, err,
  ◌==◌, if◌then◌else◌, ◌>>=◌,
}

-- `NamedCurve`
pub data NamedCurve : Type 0 where
  unsupported_curve : NamedCurve
  p256 : NamedCurve
  p384 : NamedCurve
  x25519 : NamedCurve

-- `From<u16>`
unfoldable pub curve_from : ℕ → NamedCurve
curve_from val =
    if val == 0x0017
    then p256
    else (if val == 0x0018 then p384 else (if val == 0x001d then x25519 else unsupported_curve))

abbrev pub default_named_curve : NamedCurve
default_named_curve = x25519

abbrev pub is_unsupported : NamedCurve → Bool
is_unsupported unsupported_curve = true
is_unsupported _ = false

-- `.iter().copied().find(|curve| !matches!(curve, NamedCurve::Unsupported))`
unfoldable pub select_curve : List NamedCurve → Option NamedCurve
select_curve [] = none
select_curve (curve ∷ rest) = if not (is_unsupported curve) then some curve else select_curve rest

-- `SrtpProtectionProfile`
pub data SrtpProtectionProfile : Type 0 where
  srtp_aes128_cm_hmac_sha1_80 : SrtpProtectionProfile
  srtp_aes128_cm_hmac_sha1_32 : SrtpProtectionProfile
  srtp_aead_aes_128_gcm : SrtpProtectionProfile
  srtp_aead_aes_256_gcm : SrtpProtectionProfile
  unsupported_profile : SrtpProtectionProfile

-- The discriminants, which the derived `PartialEq` compares.
abbrev pub discriminant : SrtpProtectionProfile → ℕ
discriminant srtp_aes128_cm_hmac_sha1_80 = 0x0001
discriminant srtp_aes128_cm_hmac_sha1_32 = 0x0002
discriminant srtp_aead_aes_128_gcm = 0x0007
discriminant srtp_aead_aes_256_gcm = 0x0008
discriminant unsupported_profile = 0x0009

-- The inner loop of `find_matching_srtp_profile`.
abbrev pub matches_any : SrtpProtectionProfile → List SrtpProtectionProfile → Bool
matches_any a [] = false
matches_any a (b ∷ rest) = discriminant a == discriminant b || matches_any a rest

unfoldable pub find_matching_srtp_profile :
    List SrtpProtectionProfile → List SrtpProtectionProfile → Option SrtpProtectionProfile
find_matching_srtp_profile [] local = none
find_matching_srtp_profile (a ∷ rest) local =
    if matches_any a local then some a else find_matching_srtp_profile rest local

-- The list that `setting_engine` sets.
abbrev pub offered_profiles : List SrtpProtectionProfile
offered_profiles = srtp_aead_aes_128_gcm ∷ srtp_aes128_cm_hmac_sha1_80 ∷ []

pub data ExtendedMasterSecretType : Type 0 where
  request : ExtendedMasterSecretType
  require : ExtendedMasterSecretType
  disable : ExtendedMasterSecretType

abbrev pub is_require : ExtendedMasterSecretType → Bool
is_require require = true
is_require _ = false

abbrev pub is_disable : ExtendedMasterSecretType → Bool
is_disable disable = true
is_disable _ = false

-- The fields of `HandshakeConfig` that the loop reads.
pub record Config : Type 0 where
  pub local_srtp_protection_profiles : List SrtpProtectionProfile
  pub extended_master_secret : ExtendedMasterSecretType

-- `Extension`, with what the loop reads of each.
pub data Extension : Type 0 where
  supported_elliptic_curves : List NamedCurve → Extension
  use_srtp : List SrtpProtectionProfile → Extension
  use_extended_master_secret : Extension
  server_name : Bytes → Extension
  -- point formats, signature algorithms, renegotiation info
  not_read : Extension

pub data HandshakeError : Type 0 where
  no_supported_elliptic_curves : HandshakeError
  server_no_matching_srtp_profile : HandshakeError
  server_required_but_no_client_ems : HandshakeError
  invalid_named_curve : HandshakeError

-- The fields of `State` that are negotiated here; the library's random key pairs are a parameter.
pub record State (K : Type 0) : Type 0 where
  pub named_curve : NamedCurve
  pub srtp_protection_profile : SrtpProtectionProfile
  pub extended_master_secret : Bool
  pub remote_server_name : Bytes
  pub local_keypair : Option K

module _ {K : Type 0} (elliptic_curve_keypair : NamedCurve → K) (cfg : Config) where
  -- The arms of the `match` on an extension.
  unfoldable pub apply_extension : Extension → State K → Result HandshakeError (State K)
  unfolding select_curve find_matching_srtp_profile
  apply_extension (supported_elliptic_curves curves) s = elim (select_curve curves) [
    | none ↦ err no_supported_elliptic_curves
    | some selected ↦ ok (record s { named_curve = selected })
  ]
  apply_extension (use_srtp profiles) s =
      elim (find_matching_srtp_profile profiles cfg.local_srtp_protection_profiles) [
        | none ↦ err server_no_matching_srtp_profile
        | some profile ↦ ok (record s { srtp_protection_profile = profile })
      ]
  apply_extension use_extended_master_secret s =
      if not (is_disable cfg.extended_master_secret)
      then ok (record s { extended_master_secret = true })
      else ok s
  apply_extension (server_name name) s = ok (record s { remote_server_name = name })
  apply_extension not_read s = ok s

  unfoldable pub apply_extensions : List Extension → State K → Result HandshakeError (State K)
  apply_extensions [] s = ok s
  apply_extensions (extension ∷ rest) s = do
    t ← apply_extension extension s
    apply_extensions rest t

  -- `NamedCurve::generate_keypair`
  unfoldable pub generate_keypair : NamedCurve → Result HandshakeError K
  generate_keypair unsupported_curve = err invalid_named_curve
  generate_keypair curve = ok (elliptic_curve_keypair curve)

  unfoldable pub ensure_keypair : State K → Result HandshakeError (State K)
  unfolding generate_keypair
  ensure_keypair s = elim s.local_keypair [
    | some pair ↦ ok s
    | none ↦ do pair ← generate_keypair s.named_curve; ok (record s { local_keypair = some pair })
  ]

  -- `Flight0::parse`, from the loop over the extensions on.
  unfoldable pub negotiate : List Extension → State K → Result HandshakeError (State K)
  negotiate extensions s = do
    t ← apply_extensions extensions s
    (if is_require cfg.extended_master_secret && not t.extended_master_secret
        then err server_required_but_no_client_ems
        else ensure_keypair t)
