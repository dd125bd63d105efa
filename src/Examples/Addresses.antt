-- ===== src/Examples/Addresses.antt =====
-- Addresses as text, at concrete inputs.
use autonomi_webrtc_direct_p.Prelude.{
  ℕ, ◌≡◌, ◌≢◌, ◌⊎◌, ◌*◌, refl, arith, [], ◌∷◌, ◌++◌, map, Bytes, ok, err, length, replicate, All,
  codes,
}
use autonomi_webrtc_direct_p.Prelude.Chunks.{chunks}
use autonomi_webrtc_direct_p.Client.Errors.{Error, hex_length, not_hex}
use autonomi_webrtc_direct_p.Client.Address.{
  Text, address_len, is_whitespace, trim, as_bytes, parse_pairs, join_nibbles, parse_hex_address,
  hex,
}
use autonomi_webrtc_direct_p.Client.Address.RoundTrip.{IsByte, parse_hex_address-hex}
use autonomi_webrtc_direct_p.Client.Address.Accepts.{to_lower, HasOther, parse_hex_address_lem}

abbrev sevens : Bytes
sevens = replicate 32 0xab

abbrev upper_text : Text
upper_text = codes "ABABABABABABABABABABABABABABABABABABABABABABABABABABABABABABABAB"

parses_upper : parse_hex_address {F = ℕ} upper_text ≡ ok sevens
unfolding parse_hex_address trim as_bytes is_whitespace chunks parse_pairs join_nibbles
parses_upper = refl

refuses_short : parse_hex_address {F = ℕ} (codes "abcd") ≡ err (hex_length 4)
unfolding parse_hex_address trim as_bytes is_whitespace chunks
refuses_short = refl

parse_hex_address-hex_example :
    parse_hex_address {F = ℕ} ((32 ∷ []) ++ (hex sevens ++ (10 ∷ []))) ≡ ok sevens
unfolding is_whitespace
parse_hex_address-hex_example =
    parse_hex_address-hex sevens (32 ∷ []) (10 ∷ []) refl (omega arith) (refl, tt) (refl, tt)

parse_hex_address_lem_example :
    ((bytes : Bytes)
      → parse_hex_address {F = ℕ} upper_text ≡ ok bytes
      → (length bytes ≡ address_len)
        × All IsByte bytes
        × (hex bytes ≡ map to_lower (as_bytes (trim upper_text))))
    × ((e : Error ℕ)
        → parse_hex_address upper_text ≡ err e
        → ((length (as_bytes (trim upper_text)) ≢ address_len * 2)
            × (e ≡ hex_length (length (as_bytes (trim upper_text)))))
          ⊎ ((length (as_bytes (trim upper_text)) ≡ address_len * 2)
              × HasOther (as_bytes (trim upper_text))
              × (e ≡ not_hex)))
parse_hex_address_lem_example = parse_hex_address_lem {F = ℕ} upper_text

-- The two cases of the theorem, each where it applies.
accepted :
    (length sevens ≡ address_len)
    × All IsByte sevens
    × (hex sevens ≡ map to_lower (as_bytes (trim upper_text)))
accepted = (parse_hex_address_lem {F = ℕ} upper_text).0 sevens parses_upper

refused :
    ((length (as_bytes (trim (codes "abcd"))) ≢ address_len * 2)
      × (◌≡◌ {A = Error ℕ} (hex_length 4) (hex_length (length (as_bytes (trim (codes "abcd")))))))
    ⊎ ((length (as_bytes (trim (codes "abcd"))) ≡ address_len * 2)
        × HasOther (as_bytes (trim (codes "abcd")))
        × (◌≡◌ {A = Error ℕ} (hex_length 4) not_hex))
refused = (parse_hex_address_lem {F = ℕ} (codes "abcd")).1 (hex_length 4) refuses_short
