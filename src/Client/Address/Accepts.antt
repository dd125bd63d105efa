-- ===== src/Client/Address/Accepts.antt =====
-- What `parse_hex_address` accepts, and how it fails.
use mathlib.Core.List.{append-nil, append_assoc}
use autonomi_webrtc_direct_p.Prelude.{
  ℕ, ◌+◌, ◌-◌, ◌*◌, ◌/◌, ◌%◌, ◌<◌, ◌≡◌, ◌≢◌, refl, ap, ◌∙◌, arith, ◌&&◌, ◌||◌, Bool, false, codes,
  [], ◌∷◌, ◌++◌, map, Bytes, Result, ok, err, length, All, leb, ◌==◌, if◌then◌else◌, ◌>>=◌, inl,
  inr, ◌⊎◌, Bool-cases,
}
use autonomi_webrtc_direct_p.Prelude.Chunks.{chunks, chunks-pair}
use autonomi_webrtc_direct_p.Client.Errors.{Error, hex_length, not_hex}
use autonomi_webrtc_direct_p.Client.Address.{
  Text, address_len, trim, as_bytes, hex_digit, join_nibbles, parse_pairs, parse_hex_address,
  hex_char, hex,
}
use autonomi_webrtc_direct_p.Client.Address.RoundTrip.{IsByte, join_nibbles_lem}

-- `u8::to_ascii_lowercase`
abbrev pub to_lower : ℕ → ℕ
to_lower c = if leb b'A' c && leb c b'Z' then c + 32 else c

-- A digit that is accepted is below 16 and is printed as the same digit in lower case.
hex_digit_accepts :
    {F : Type 0} (c v : ℕ) → hex_digit {F = F} c ≡ ok v → (v < 16) × (hex_char v ≡ to_lower c)
unfolding hex_digit hex_char
hex_digit_accepts c v h = ground arith

-- The hexadecimal digits of either case.
abbrev pub hex_digits : Bytes
hex_digits = codes "0123456789abcdefABCDEF"

abbrev pub is_among : ℕ → Bytes → Bool
is_among c [] = false
is_among c (d ∷ ds) = d == c || is_among c ds

-- One of the bytes is no hexadecimal digit.
abbrev pub HasOther : Bytes → Type 0
HasOther [] = ⊥
HasOther (c ∷ s) = (is_among c hex_digits ≡ false) ⊎ HasOther s

hex_digit_refuses :
    {F : Type 0} (c : ℕ) (e : Error F)
    → hex_digit {F = F} c ≡ err e
    → (is_among c hex_digits ≡ false) × (e ≡ not_hex)
unfolding hex_digit
hex_digit_refuses c e h = ground arith

pair_digits :
    (hi lo a b : ℕ)
    → (hi < 16) × (hex_char hi ≡ to_lower a)
    → (lo < 16) × (hex_char lo ≡ to_lower b)
    → (bytes : Bytes) → hex (join_nibbles hi lo ∷ bytes) ≡ to_lower a ∷ to_lower b ∷ hex bytes
unfolding hex
pair_digits hi lo a b (h, p) (k, q) bytes =
    let high : (hi * 16 + lo) / 16 ≡ hi = omega arith in
    let low : (hi * 16 + lo) % 16 ≡ lo = omega arith in
    rw (join_nibbles_lem hi lo h k, high, low, p, q) refl

-- What the loop over the pairs adds to `out`.
record Decoded (out s result : Bytes) : Type 0 where
  added : Bytes
  is_result : result ≡ out ++ added
  are_bytes : All IsByte added
  same_text : hex added ≡ map to_lower s
  half : length s ≡ 2 * length added

-- One step of the loop, on the results of the two digits.
Decoded-cons :
    (out s result : Bytes) (a b hi lo : ℕ)
    → (hi < 16) × (hex_char hi ≡ to_lower a)
    → (lo < 16) × (hex_char lo ≡ to_lower b)
    → Decoded (out ++ (join_nibbles hi lo ∷ [])) s result
    → Decoded out (a ∷ b ∷ s) result
Decoded-cons out s result a b hi lo h k d = record {
  added = join_nibbles hi lo ∷ d.added;
  is_result = d.is_result ∙ append_assoc out (join_nibbles hi lo ∷ []) d.added;
  are_bytes = (rw (join_nibbles_lem hi lo h.0 k.0) (omega arith), d.are_bytes);
  same_text = pair_digits hi lo a b h k d.added ∙ ap (λ t. to_lower a ∷ to_lower b ∷ t) d.same_text;
  half = omega (arith, d.half);
}

module _ {F : Type 0} where
  -- The loop on a pair of characters, by the digits' results.
  pub parse_pairs_pair :
      (out : Bytes) (a b : ℕ) (s : Bytes)
      → parse_pairs {F = F} out (chunks 2 (a ∷ b ∷ s)) ≡ (
          hex_digit a >>= λ hi.
          hex_digit b >>= λ lo. parse_pairs (out ++ (join_nibbles hi lo ∷ [])) (chunks 2 s))
  unfolding parse_pairs
  parse_pairs_pair out a b s = rw (chunks-pair a b s) refl

  pub parse_pairs_nil : (out : Bytes) → parse_pairs {F = F} out (chunks 2 []) ≡ ok out
  unfolding parse_pairs chunks
  parse_pairs_nil out = refl

  parse_pairs-Decoded :
      (s out result : Bytes) (n : ℕ)
      → length s ≡ 2 * n
      → parse_pairs {F = F} out (chunks 2 s) ≡ ok result
      → Decoded out s result
  parse_pairs-Decoded [] out result n even h = record {
    added = [];
    is_result = cc (h, parse_pairs_nil out, append-nil out);
    are_bytes = tt;
    same_text = unfold hex in refl;
    half = refl;
  }
  parse_pairs-Decoded (a ∷ []) out result n even h = absurd (omega arith)
  parse_pairs-Decoded (a ∷ b ∷ s) out result n even h =
      digits (λ next e. parse_pairs-Decoded s next result (n - 1) (omega arith) e) (hex_digit a)
        refl (hex_digit b) refl (rw (parse_pairs_pair out a b s) at h)
    where
      digits :
          ((next : Bytes)
            → parse_pairs {F = F} next (chunks 2 s) ≡ ok result
            → Decoded next s result)
          → (x : Result (Error F) ℕ) → hex_digit a ≡ x
          → (y : Result (Error F) ℕ) → hex_digit b ≡ y
          → (x >>= λ hi. y >>= λ lo. parse_pairs (out ++ (join_nibbles hi lo ∷ [])) (chunks 2 s))
            ≡ ok result
          → Decoded out (a ∷ b ∷ s) result
      digits ih (ok hi) p (ok lo) q e =
          Decoded-cons out s result a b hi lo (hex_digit_accepts a hi p) (hex_digit_accepts b lo q)
            (ih (out ++ (join_nibbles hi lo ∷ [])) e)
      digits ih (ok hi) p (err y) q e = absurd (cc e)
      digits ih (err x) p y q e = absurd (cc e)

  parse_pairs_refuses :
      (s out : Bytes) (n : ℕ) (e : Error F)
      → length s ≡ 2 * n
      → parse_pairs {F = F} out (chunks 2 s) ≡ err e
      → HasOther s × (e ≡ not_hex)
  parse_pairs_refuses [] out n e even h = absurd (cc (h, parse_pairs_nil out))
  parse_pairs_refuses (a ∷ []) out n e even h = absurd (omega arith)
  parse_pairs_refuses (a ∷ b ∷ s) out n e even h =
      digits (λ next k. parse_pairs_refuses s next (n - 1) e (omega arith) k) (hex_digit a) refl
        (hex_digit b) refl (rw (parse_pairs_pair out a b s) at h)
    where
      digits :
          ((next : Bytes)
            → parse_pairs {F = F} next (chunks 2 s) ≡ err e
            → HasOther s × (e ≡ not_hex))
          → (x : Result (Error F) ℕ) → hex_digit a ≡ x
          → (y : Result (Error F) ℕ) → hex_digit b ≡ y
          → (x >>= λ hi. y >>= λ lo. parse_pairs (out ++ (join_nibbles hi lo ∷ [])) (chunks 2 s))
            ≡ err e
          → HasOther (a ∷ b ∷ s) × (e ≡ not_hex)
      digits ih (ok hi) p (ok lo) q k =
          let (there, same) = ih (out ++ (join_nibbles hi lo ∷ [])) k in (inr (inr there), same)
      digits ih (ok hi) p (err y) q k =
          let (other, same) = hex_digit_refuses b y q in (inr (inl other), cc (k, same))
      digits ih (err x) p y q k =
          let (other, same) = hex_digit_refuses a x p in (inl other, cc (k, same))

  pub parse_hex_address_ok :
      (text : Text) (bytes : Bytes)
      → parse_hex_address {F = F} text ≡ ok bytes
      → (length bytes ≡ address_len)
        × All IsByte bytes
        × (hex bytes ≡ map to_lower (as_bytes (trim text)))
  unfolding parse_hex_address
  parse_hex_address_ok text bytes h =
      let s = as_bytes (trim text) in
      let long : length s ≡ 2 * 32 = ground arith in
      let d = parse_pairs-Decoded s [] bytes 32 long (ground arith) in
      (
        omega (arith, ap length d.is_result, d.half),
        rw d.is_result d.are_bytes,
        rw d.is_result d.same_text,
      )

  parse_hex_address_err :
      (text : Text) (e : Error F)
      → parse_hex_address {F = F} text ≡ err e
      → ((length (as_bytes (trim text)) ≢ address_len * 2)
          × (e ≡ hex_length (length (as_bytes (trim text)))))
        ⊎ ((length (as_bytes (trim text)) ≡ address_len * 2)
            × HasOther (as_bytes (trim text))
            × (e ≡ not_hex))
  unfolding parse_hex_address
  parse_hex_address_err text e h =
      elim (Bool-cases (length (as_bytes (trim text)) == address_len * 2)) [
        | inl long ↦
            let refused =
              parse_pairs_refuses (as_bytes (trim text)) [] 32 e (ground (arith, long))
                (ground (arith, long, h)) in
            inr (ground (arith, long), refused.0, refused.1)
        | inr short ↦ inl (ground (arith, short), ground (arith, short, h))
      ]

  -- A text that is accepted yields 32 bytes, and these print as the trimmed text in lower case. A
  -- text that is refused is either not of 64 bytes once trimmed, and the error names its length, or
  -- has 64 bytes of which one is none of the hexadecimal digits 0-9, a-f, A-F; no index is ever out
  -- of bounds.
  pub parse_hex_address_lem :
      (text : Text)
      → ((bytes : Bytes)
          → parse_hex_address {F = F} text ≡ ok bytes
          → (length bytes ≡ address_len)
            × All IsByte bytes
            × (hex bytes ≡ map to_lower (as_bytes (trim text))))
        × ((e : Error F)
            → parse_hex_address {F = F} text ≡ err e
            → ((length (as_bytes (trim text)) ≢ address_len * 2)
                × (e ≡ hex_length (length (as_bytes (trim text)))))
              ⊎ ((length (as_bytes (trim text)) ≡ address_len * 2)
                  × HasOther (as_bytes (trim text))
                  × (e ≡ not_hex)))
  parse_hex_address_lem text = (parse_hex_address_ok text, parse_hex_address_err text)
