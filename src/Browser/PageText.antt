-- ===== src/Browser/PageText.antt =====
-- web/src/app.js: what the page does with texts. A text is the list of its code points.
use mathlib.Core.List.{reverse}
use autonomi_webrtc_direct_p.Prelude.{
  ℕ, zero, suc, ◌≡◌, ap, Bool, true, false, not, ◌&&◌, ◌||◌, List, [], ◌∷◌, ◌++◌, Option, none,
  some, length, leb, ◌==◌, if◌then◌else◌, bytes_eq, eq_of_bytes_eq,
}
use autonomi_webrtc_direct_p.Client.Address.{Text, is_whitespace}

-- The code points at which `String.prototype.trim` cuts: ECMAScript's white space and line ends.
-- It is not Rust's set: the byte order mark is in it, and U+0085 is not.
unfoldable pub is_js_whitespace : ℕ → Bool
unfolding is_whitespace
is_js_whitespace c = c == 0xfeff || (is_whitespace c && not (c == 0x85))

unfoldable pub js_trim_start : Text → Text
js_trim_start [] = []
js_trim_start (c ∷ s) = let rest = js_trim_start s in if is_js_whitespace c then rest else c ∷ s

-- `text.trim()`
unfoldable pub js_trim : Text → Text
unfolding js_trim_start
js_trim s = reverse (js_trim_start (reverse (js_trim_start s)))

unfoldable pub is_hex_char : ℕ → Bool
is_hex_char c =
    (leb b'0' c && leb c b'9') || (leb b'a' c && leb c b'f') || (leb b'A' c && leb c b'F')

unfoldable pub all_hex : Text → Bool
unfolding is_hex_char
all_hex [] = true
all_hex (c ∷ s) = is_hex_char c && all_hex s

-- `/^[0-9a-fA-F]{64}$/.test(address)`
unfoldable pub is_address_text : Text → Bool
unfolding all_hex
is_address_text address = length address == 64 && all_hex address

unfoldable pub starts_with : Text → Text → Bool
starts_with [] s = true
starts_with (c ∷ p) [] = false
starts_with (c ∷ p) (d ∷ s) = c == d && starts_with p s

-- The first part begins with one more character.
abbrev extend_first : ℕ → List Text → List Text
extend_first c [] = (c ∷ []) ∷ []
extend_first c (part ∷ parts) = (c ∷ part) ∷ parts

-- `text.split('/')`, with the part before the first slash in front
unfoldable pub split_slash : Text → List Text
split_slash [] = [] ∷ []
split_slash (c ∷ s) =
    let parts = split_slash s in if c == b'/' then [] ∷ parts else extend_first c parts

-- `parts[i] ?? '?'`
unfoldable pub part_at : List Text → ℕ → Text
part_at [] i = b'?' ∷ []
part_at (part ∷ parts) zero = part
part_at (part ∷ parts) (suc i) = part_at parts i

-- `shorten`: what the status shows of a multiaddress
unfoldable pub shorten : Text → Text
unfolding split_slash part_at
shorten multiaddr = let parts = split_slash multiaddr in part_at parts 2 ++ (b':' ∷ part_at parts 4)

-- `state.client?.multiaddr === multiaddr`
abbrev pub same_multiaddr : Option Text → Text → Bool
same_multiaddr none multiaddr = false
same_multiaddr (some m) multiaddr = bytes_eq m multiaddr

pub same_multiaddr-some :
    (o : Option Text) (multiaddr : Text) → same_multiaddr o multiaddr ≡ true → o ≡ some multiaddr
same_multiaddr-some none multiaddr h = absurd (cc h)
same_multiaddr-some (some m) multiaddr h = ap some (eq_of_bytes_eq m multiaddr h)
