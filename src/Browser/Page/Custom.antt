-- ===== src/Browser/Page/Custom.antt =====
-- A download by an address that the user has typed.
use mathlib.Core.List.{append-nil}
use autonomi_webrtc_direct_p.Prelude.{
  ℕ, ◌*◌, ◌-◌, ◌≡◌, inl, inr, refl, ap, ◌∙◌, arith, true, false, [], ◌∷◌, ◌++◌, Bytes, ok, length,
  map, take, codes, ◌==◌, All, Result-cases,
}
use autonomi_webrtc_direct_p.Prelude.Effects.{Io}
use autonomi_webrtc_direct_p.Prelude.Chunks.{chunks}
use autonomi_webrtc_direct_p.Crates.{Crates}
use autonomi_webrtc_direct_p.Client.Address.{
  Text, is_whitespace, trim, as_bytes, hex_digit, join_nibbles, parse_pairs, parse_hex_address, hex,
}
use autonomi_webrtc_direct_p.Client.Address.RoundTrip.{IsPlain, trim_plain, as_bytes_plain}
use autonomi_webrtc_direct_p.Client.Address.Accepts.{
  to_lower, parse_pairs_pair, parse_pairs_nil, parse_hex_address_ok,
}
use autonomi_webrtc_direct_p.Browser.Connect.{Libp2p}
use autonomi_webrtc_direct_p.Browser.PageText.{js_trim, is_hex_char, all_hex, is_address_text}
use autonomi_webrtc_direct_p.Browser.Page.{Page, not_an_address, download, fetch_custom}

is_hex_char-IsPlain : (c : ℕ) → is_hex_char c ≡ true → IsPlain c
unfolding is_hex_char is_whitespace
is_hex_char-IsPlain c h = ground arith

all_hex-IsPlain : (s : Text) → all_hex s ≡ true → All IsPlain s
unfolding all_hex
all_hex-IsPlain [] h = tt
all_hex-IsPlain (c ∷ s) h = (is_hex_char-IsPlain c (ground arith), all_hex-IsPlain s (ground arith))

hex_digit-is_hex_char :
    {F : Type 0} (c : ℕ) → is_hex_char c ≡ true → (v : ℕ) × (hex_digit {F = F} c ≡ ok v)
unfolding is_hex_char hex_digit
hex_digit-is_hex_char {F} c h = elim (Result-cases (hex_digit {F = F} c)) [
  | inl found ↦ found
  | inr (e, p) ↦ absurd (ground arith)
]

-- The loop over the pairs accepts hexadecimal digits.
parse_pairs-all_hex :
    {F : Type 0} (s out : Bytes) (n : ℕ)
    → length s ≡ 2 * n
    → all_hex s ≡ true
    → (bytes : Bytes) × (parse_pairs {F = F} out (chunks 2 s) ≡ ok bytes)
unfolding all_hex
parse_pairs-all_hex [] out n even h = (out, parse_pairs_nil out)
parse_pairs-all_hex (a ∷ []) out n even h = absurd (omega arith)
parse_pairs-all_hex {F} (a ∷ b ∷ s) out n even h =
    let (hi, p) = hex_digit-is_hex_char {F = F} a (ground arith) in
    let (lo, q) = hex_digit-is_hex_char {F = F} b (ground arith) in
    let (bytes, r) =
      parse_pairs-all_hex {F = F} s (out ++ (join_nibbles hi lo ∷ [])) (n - 1) (omega arith)
        (ground arith) in
    (bytes, parse_pairs_pair out a b s ∙ rw (p, q) r)

parse_hex_address_long :
    {F : Type 0} (s t : Text)
    → as_bytes (trim s) ≡ t
    → length t ≡ 64
    → parse_hex_address {F = F} s ≡ parse_pairs [] (chunks 2 t)
unfolding parse_hex_address
parse_hex_address_long s t e long =
    let tested : (length t == 64) ≡ true = ground arith in rw e (rw tested refl)

parse_hex_address-is_address_text :
    {F : Type 0} (s : Text)
    → is_address_text s ≡ true
    → (bytes : Bytes) × (parse_hex_address {F = F} s ≡ ok bytes)
      × (length bytes ≡ 32)
      × (hex bytes ≡ map to_lower s)
unfolding is_address_text
parse_hex_address-is_address_text {F} s h =
    let long : length s ≡ 64 = ground arith in
    let digits : all_hex s ≡ true = ground arith in
    let plain = all_hex-IsPlain s digits in
    let whole : as_bytes (trim s) ≡ s =
      ap as_bytes (rw append-nil at (trim_plain [] s [] tt plain tt)) ∙ as_bytes_plain s plain in
    let (bytes, p) = parse_pairs-all_hex {F = F} s [] 32 long digits in
    let accepted : parse_hex_address {F = F} s ≡ ok bytes =
      parse_hex_address_long s s whole long ∙ p in
    let (count, are_bytes, same) = parse_hex_address_ok s bytes accepted in
    (bytes, accepted, count, same ∙ ap (map to_lower) whole)

module _ (c : Crates) (l : Libp2p) (init : Io ℕ l.World (Unit {0})) where
  -- The button for a typed address: a text that is not 64 hexadecimal digits, once trimmed, is
  -- refused with a message and nothing else changes; any other is downloaded, under the first 12
  -- digits as a name, and `parse_hex_address` always accepts it: it yields the 32 bytes that print
  -- as the text in lower case.
  pub fetch_custom_lem :
      (p : Page c l)
      → (is_address_text (js_trim p.address) ≡ false
          → fetch_custom c l init p ≡ record p { status = not_an_address })
        × (is_address_text (js_trim p.address) ≡ true
            → (fetch_custom c l init p
                ≡ download c l init
                    (js_trim p.address)
                    (take 12 (js_trim p.address) ++ codes ".bin")
                    []
                    p)
              × (bytes : Bytes) × (parse_hex_address {F = c.Failure} (js_trim p.address) ≡ ok bytes)
              × (length bytes ≡ 32)
              × (hex bytes ≡ map to_lower (js_trim p.address)))
  unfolding fetch_custom
  fetch_custom_lem p = (
    λ bad. rw (bad, fetch_custom) refl,
    λ good.
        let (bytes, parsed, count, same) =
          parse_hex_address-is_address_text {F = c.Failure} (js_trim p.address) good in
        (rw (good, fetch_custom) refl, bytes, parsed, count, same),
  )
