-- ===== src/Client/Address/RoundTrip.antt =====
-- Printing an address and parsing it back, both ways.
use mathlib.Core.List.{reverse, reverse-append, reverse-reverse, append-nil, append_assoc}
use autonomi_webrtc_direct_p.Prelude.{
  ℕ, zero, suc, ◌+◌, ◌*◌, ◌/◌, ◌%◌, ◌<◌, ◌≡◌, refl, sym, ap, ◌∙◌, arith, if◌then◌else◌, Bool, true,
  false, List, [], ◌∷◌, ◌++◌, Bytes, ok, length, All, All-append, ◌==◌,
}
use autonomi_webrtc_direct_p.Prelude.Chunks.{chunks, chunks-pair}
use autonomi_webrtc_direct_p.Client.Address.{
  Text, address_len, is_whitespace, trim_start, trim, encode_utf8, as_bytes, hex_digit,
  join_nibbles, parse_pairs, parse_hex_address, hex_char, hex,
}

abbrev pub IsByte : ℕ → Type 0
IsByte b = b < 256

abbrev IsNibble : ℕ → Type 0
IsNibble n = n < 16

abbrev pub IsBlank : ℕ → Type 0
IsBlank c = is_whitespace c ≡ true

-- A character that `trim` leaves and that is one byte of UTF-8.
abbrev pub IsPlain : ℕ → Type 0
IsPlain c = (is_whitespace c ≡ false) × (c < 128)

-- One byte and its two digits.
hex_char-IsPlain : (n : ℕ) → n < 16 → IsPlain (hex_char n)
unfolding hex_char is_whitespace
hex_char-IsPlain n h = ground arith

hex_digit-hex_char : {F : Type 0} (n : ℕ) → n < 16 → hex_digit {F = F} (hex_char n) ≡ ok n
unfolding hex_char hex_digit
hex_digit-hex_char n h = ground arith

-- `f` leaves every number below the bound as it is.
leaves_below : (ℕ → ℕ) → ℕ → Bool
leaves_below f zero = true
leaves_below f (suc bound) =
    let rest = leaves_below f bound in if f bound == bound then rest else false

leaves_below_lem : (f : ℕ → ℕ) (b bound : ℕ) → b < bound → leaves_below f bound ≡ true → f b ≡ b
unfolding leaves_below
leaves_below_lem f b zero below checked = absurd (omega arith)
leaves_below_lem f b (suc bound) below checked = ground (arith, leaves_below_lem f b bound)

join_nibbles_split : (b : ℕ) → b < 256 → join_nibbles (b / 16) (b % 16) ≡ b
unfolding leaves_below join_nibbles
join_nibbles_split b h = leaves_below_lem (λ n. join_nibbles (n / 16) (n % 16)) b 256 h refl

pub join_nibbles_lem : (hi lo : ℕ) → hi < 16 → lo < 16 → join_nibbles hi lo ≡ hi * 16 + lo
join_nibbles_lem hi lo h k =
    let d : (hi * 16 + lo) / 16 ≡ hi = omega arith in
    let m : (hi * 16 + lo) % 16 ≡ lo = omega arith in
    rw (d, m) at (join_nibbles_split (hi * 16 + lo) (omega arith))

-- Trimming.
trim_start_plain : (s : Text) → All IsPlain s → trim_start s ≡ s
unfolding trim_start
trim_start_plain [] h = refl
trim_start_plain (c ∷ s) (h, hs) = rw (h.0) refl

trim_start_blank : (s t : Text) → All IsBlank s → trim_start (s ++ t) ≡ trim_start t
unfolding trim_start
trim_start_blank [] t h = refl
trim_start_blank (c ∷ s) t (h, hs) = rw h (trim_start_blank s t hs)

reverse_cons {ℓ} : {A : Type ℓ} (x : A) (xs : List A) → reverse (x ∷ xs) ≡ reverse xs ++ x ∷ []
reverse_cons x xs = reverse-append (x ∷ []) xs

All-reverse {ℓ κ} : {A : Type ℓ} (P : A → Type κ) (xs : List A) → All P xs → All P (reverse xs)
All-reverse P [] h = tt
All-reverse P (x ∷ xs) (h, hs) =
    rw (reverse_cons x xs) (All-append P (reverse xs) (x ∷ []) (All-reverse P xs hs) (h, tt))

trim_start_keeps :
    (c : ℕ) (s t : Text) → is_whitespace c ≡ false → trim_start (c ∷ s ++ t) ≡ c ∷ s ++ t
unfolding trim_start
trim_start_keeps c s t h = rw h refl

-- Blanks around a plain text are cut off, and nothing else.
pub trim_plain :
    (before s after : Text)
    → All IsBlank before
    → All IsPlain s
    → All IsBlank after
    → trim (before ++ (s ++ after)) ≡ s
unfolding trim
trim_plain before [] after hb hs ha =
    let all_blank : trim_start after ≡ [] = rw append-nil at (trim_start_blank after [] ha) in
    rw (trim_start_blank before after hb, all_blank) refl
trim_plain before (c ∷ s) after hb hs ha =
    rw
      (
        trim_start_blank before (c ∷ s ++ after) hb,
        trim_start_keeps c s after hs.0.0,
        reverse-append (c ∷ s) after,
        trim_start_blank (reverse after) (reverse (c ∷ s)) (All-reverse IsBlank after ha),
        trim_start_plain (reverse (c ∷ s)) (All-reverse IsPlain (c ∷ s) hs),
      )
      (reverse-reverse (c ∷ s))

pub as_bytes_plain : (s : Text) → All IsPlain s → as_bytes s ≡ s
unfolding as_bytes encode_utf8
as_bytes_plain [] h = refl
as_bytes_plain (c ∷ s) (h, hs) = ground (arith, as_bytes_plain s hs)

hex-IsPlain : (bytes : Bytes) → All IsByte bytes → All IsPlain (hex bytes)
unfolding hex
hex-IsPlain [] h = tt
hex-IsPlain (b ∷ bytes) (h, hs) = (
  hex_char-IsPlain (b / 16) (omega arith),
  (hex_char-IsPlain (b % 16) (omega arith), hex-IsPlain bytes hs),
)

length-hex : (bytes : Bytes) → length (hex bytes) ≡ 2 * length bytes
unfolding hex
length-hex [] = refl
length-hex (b ∷ bytes) = omega (arith, length-hex bytes)

parse_pairs_step :
    {F : Type 0} (out : Bytes) (a b hi lo x : ℕ) (pairs : List Bytes)
    → hex_digit {F = F} a ≡ ok hi
    → hex_digit {F = F} b ≡ ok lo
    → join_nibbles hi lo ≡ x
    → parse_pairs {F = F} out ((a ∷ b ∷ []) ∷ pairs) ≡ parse_pairs (out ++ (x ∷ [])) pairs
unfolding parse_pairs
parse_pairs_step {F} out a b hi lo x pairs p q j =
    rw (p, q) (ap (λ y. parse_pairs {F = F} (out ++ (y ∷ [])) pairs) j)

chunks-hex :
    (b : ℕ) (bytes : Bytes)
    → chunks 2 (hex (b ∷ bytes))
      ≡ (hex_char (b / 16) ∷ hex_char (b % 16) ∷ []) ∷ chunks 2 (hex bytes)
unfolding hex
chunks-hex b bytes = chunks-pair _ _ (hex bytes)

parse_pairs-hex :
    {F : Type 0} (out bytes : Bytes)
    → All IsByte bytes
    → parse_pairs {F = F} out (chunks 2 (hex bytes)) ≡ ok (out ++ bytes)
parse_pairs-hex out [] h = unfold hex chunks parse_pairs in ap ok (sym (append-nil out))
parse_pairs-hex {F} out (b ∷ bytes) (h, hs) =
    ap (λ s. parse_pairs {F = F} out s) (chunks-hex b bytes)
    ∙ parse_pairs_step out _ _ _ _ b (chunks 2 (hex bytes))
        (hex_digit-hex_char (b / 16) (omega arith)) (hex_digit-hex_char (b % 16) (omega arith))
        (join_nibbles_split b h)
    ∙ parse_pairs-hex (out ++ (b ∷ [])) bytes hs
    ∙ ap ok (append_assoc out (b ∷ []) bytes)

-- The hexadecimal form of 32 bytes, with any white space before and behind it, parses to these
-- bytes.
pub parse_hex_address-hex :
    {F : Type 0} (bytes : Bytes) (before after : Text)
    → length bytes ≡ address_len
    → All IsByte bytes
    → All IsBlank before
    → All IsBlank after
    → parse_hex_address {F = F} (before ++ (hex bytes ++ after)) ≡ ok bytes
unfolding parse_hex_address
parse_hex_address-hex bytes before after n h hb ha =
    rw
      (
        trim_plain before (hex bytes) after hb (hex-IsPlain bytes h) ha,
        as_bytes_plain (hex bytes) (hex-IsPlain bytes h),
        length-hex bytes,
        n,
      )
      (parse_pairs-hex [] bytes h)
