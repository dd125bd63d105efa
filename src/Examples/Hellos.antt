-- ===== src/Examples/Hellos.antt =====
-- The negotiation on the ClientHello of a browser that prefers a hybrid curve.
use autonomi_webrtc_direct_p.Prelude.{◌≡◌, refl, true, false, List, [], ◌∷◌, none, some, ok}
use autonomi_webrtc_direct_p.Dtls.{
  NamedCurve, x25519, curve_from, default_named_curve, select_curve, srtp_aead_aes_256_gcm,
  srtp_aead_aes_128_gcm, unsupported_profile, find_matching_srtp_profile, offered_profiles, request,
  Config, Extension, supported_elliptic_curves, use_srtp, use_extended_master_secret, not_read,
  State, apply_extension, apply_extensions, generate_keypair, ensure_keypair, negotiate,
}
use autonomi_webrtc_direct_p.Dtls.Negotiation.{Settled, negotiate-Settled}

-- X25519MLKEM768, X25519, P-256
abbrev chrome_curves : List NamedCurve
chrome_curves = curve_from 0x11ec ∷ curve_from 0x001d ∷ curve_from 0x0017 ∷ []

abbrev server : Config
server = record {
  local_srtp_protection_profiles = offered_profiles;
  extended_master_secret = request;
}

-- Key pairs are the curves.
abbrev key_of : NamedCurve → NamedCurve
key_of curve = curve

abbrev fresh : State NamedCurve
fresh = record {
  named_curve = default_named_curve;
  srtp_protection_profile = unsupported_profile;
  extended_master_secret = false;
  remote_server_name = [];
  local_keypair = none;
}

abbrev hello : List Extension
hello =
    not_read
    ∷ supported_elliptic_curves chrome_curves
    ∷ use_srtp (srtp_aead_aes_256_gcm ∷ srtp_aead_aes_128_gcm ∷ [])
    ∷ use_extended_master_secret
    ∷ []

-- The handshake settles on X25519 and on the 128-bit profile.
hello_settles :
    negotiate key_of server hello fresh
    ≡ ok (record {
      named_curve = x25519;
      srtp_protection_profile = srtp_aead_aes_128_gcm;
      extended_master_secret = true;
      remote_server_name = [];
      local_keypair = some x25519;
    })
unfolding negotiate apply_extensions apply_extension select_curve find_matching_srtp_profile
    ensure_keypair generate_keypair curve_from
hello_settles = refl

negotiate-Settled_example : Settled key_of server (negotiate key_of server hello fresh)
negotiate-Settled_example =
    negotiate-Settled key_of server hello fresh refl
      (record { curve = λ e. cc e; profile = λ e. cc e })
