-- ===== src/Client/Address.antt =====
-- crates/wasm-client/src/lib.rs: the text form of a content address.
-- A text is the list of its Unicode scalar values.
pub mod RoundTrip
pub mod Accepts
use mathlib.Core.List.{reverse}
use Prim.Native.Nat.{bit_or}
use autonomi_webrtc_direct_p.Prelude.{
  ℕ, ◌+◌, ◌-◌, ◌*◌, ◌/◌, ◌%◌, Bool, true, false, ◌&&◌, ◌||◌, List, [], ◌∷◌, ◌++◌, Bytes, Result, ok,
  err, length, ltb, leb, ◌==◌, if◌then◌else◌, ◌>>=◌,
}
use autonomi_webrtc_direct_p.Prelude.Chunks.{chunks}
use autonomi_webrtc_direct_p.Client.Errors.{Error, address_length, hex_length, not_hex, panicked}

abbrev pub address_len : ℕ
address_len = 32

abbrev pub Text : Type 0
Text = List ℕ

-- The code points with the property White_Space, at which `str::trim` cuts.
unfoldable pub is_whitespace : ℕ → Bool
is_whitespace c =
    (leb 9 c && leb c 13)
    || c == 32
    || c == 0x85
    || c == 0xa0
    || c == 0x1680
    || (leb 0x2000 c && leb c 0x200a)
    || c == 0x2028
    || c == 0x2029
    || c == 0x202f
    || c == 0x205f
    || c == 0x3000

unfoldable pub trim_start : Text → Text
trim_start [] = []
trim_start (c ∷ s) = let rest = trim_start s in if is_whitespace c then rest else c ∷ s

-- `str::trim`
unfoldable pub trim : Text → Text
unfolding trim_start
trim s = reverse (trim_start (reverse (trim_start s)))

-- The UTF-8 bytes of one code point.
unfoldable pub encode_utf8 : ℕ → Bytes
encode_utf8 c =
    if ltb c 0x80
    then c ∷ []
    else if ltb c 0x800
    then (0xc0 + c / 64) ∷ (0x80 + c % 64) ∷ []
    else if ltb c 0x10000
    then (0xe0 + c / 4096) ∷ (0x80 + c / 64 % 64) ∷ (0x80 + c % 64) ∷ []
    else (0xf0 + c / 262144) ∷ (0x80 + c / 4096 % 64) ∷ (0x80 + c / 64 % 64) ∷ (0x80 + c % 64) ∷ []

-- `str::as_bytes`
unfoldable pub as_bytes : Text → Bytes
unfolding encode_utf8
as_bytes [] = []
as_bytes (c ∷ s) = encode_utf8 c ++ as_bytes s

-- `hi << 4 | lo` on `u8`
unfoldable pub join_nibbles : ℕ → ℕ → ℕ
join_nibbles hi lo = bit_or (hi * 16 % 256) lo

module _ {F : Type 0} where
  unfoldable pub hex_digit : ℕ → Result (Error F) ℕ
  hex_digit byte =
      if leb b'0' byte && leb byte b'9'
      then ok (byte - b'0')
      else if leb b'a' byte && leb byte b'f'
      then ok (byte - b'a' + 10)
      else if leb b'A' byte && leb byte b'F'
      then ok (byte - b'A' + 10)
      else err not_hex

  -- The loop over the pairs; `pair[0]` and `pair[1]` panic on a shorter piece.
  unfoldable pub parse_pairs : Bytes → List Bytes → Result (Error F) Bytes
  unfolding hex_digit
  parse_pairs out [] = ok out
  parse_pairs out ((a ∷ b ∷ _) ∷ pairs) = do
    hi ← hex_digit a
    lo ← hex_digit b
    parse_pairs (out ++ (join_nibbles hi lo ∷ [])) pairs
  parse_pairs out ((a ∷ []) ∷ pairs) = do hi ← hex_digit a; err panicked
  parse_pairs out ([] ∷ pairs) = err panicked

  unfoldable pub parse_hex_address : Text → Result (Error F) Bytes
  unfolding parse_pairs
  parse_hex_address text =
      let bytes = as_bytes (trim text) in
      if length bytes == address_len * 2
      then parse_pairs [] (chunks 2 bytes)
      else err (hex_length (length bytes))

  -- `parse_address`: a slice of exactly 32 bytes becomes the array.
  unfoldable pub parse_address : Bytes → Result (Error F) Bytes
  parse_address bytes = if length bytes == address_len then ok bytes else err address_length

unfoldable pub hex_char : ℕ → ℕ
hex_char n = if ltb n 10 then b'0' + n else b'a' + (n - 10)

-- `hex`: two lower-case digits for each byte, by `{byte:02x}`
unfoldable pub hex : Bytes → Text
unfolding hex_char
hex [] = []
hex (byte ∷ bytes) = hex_char (byte / 16) ∷ hex_char (byte % 16) ∷ hex bytes
