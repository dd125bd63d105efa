-- ===== src/Client/Tests.antt =====
-- crates/wasm-client/src/lib.rs: its tests. An error is where a test panics, also by an assertion;
-- the content of a test is an argument.
pub mod Start
pub mod Retrieves
pub mod Tampered
pub mod Rejects
use Prim.Native.Nat.{bit_xor}
use autonomi_webrtc_direct_p.Prelude.{
  ℕ, zero, suc, ◌+◌, ◌-◌, ◌%◌, Bool, true, false, List, [], ◌∷◌, Bytes, Result, ok, err, bytes_eq,
  codes, length, take, drop, replicate, concat, leb, if◌then◌else◌, ◌>>=◌,
}
use autonomi_webrtc_direct_p.Crates.{Crates}
use autonomi_webrtc_direct_p.Client.Errors.{Error}
use autonomi_webrtc_direct_p.Client.Address.{hex, parse_hex_address}
use autonomi_webrtc_direct_p.Client.Retrieval.{begin, required_addresses, supply}
use autonomi_webrtc_direct_p.Client.Upload.{Shrink, upload}
use autonomi_webrtc_direct_p.Client.Driver.{Tested, unwrap, store_get, retrieve_stored}

-- `assert!(b)`, `assert_eq!(x, y)` on byte strings, and `assert!(r.is_err())`
abbrev pub assert : Bool → Tested (Unit {0})
assert true = ok tt
assert false = err tt

abbrev pub assert_eq : Bytes → Bytes → Tested (Unit {0})
assert_eq x y = assert (bytes_eq x y)

abbrev pub assert_err : {E A : Type 0} → Result E A → Tested (Unit {0})
assert_err (ok a) = err tt
assert_err (err e) = ok tt

-- The content of the tests, `content(len)`, from the byte at `i` on.
unfoldable pub content_from : ℕ → ℕ → Bytes
content_from i zero = []
content_from i (suc len) = i % 251 ∷ content_from (i + 1) len

unfoldable pub content : ℕ → Bytes
unfolding content_from
content len = content_from 0 len

-- `&required[from..to]`
unfoldable pub slice : ℕ → ℕ → Bytes → Tested Bytes
slice from to bytes =
    if leb to (length bytes) then ok (take (to - from) (drop from bytes)) else err tt

-- `tampered[0] ^= 0x01`
unfoldable pub tamper : Bytes → Tested Bytes
tamper [] = err tt
tamper (byte ∷ bytes) = ok (bit_xor byte 0x01 ∷ bytes)

module _ (c : Crates) (shrink_data_map : Shrink c) where
  unfoldable pub retrieves_a_flat_data_map : Bytes → Tested (Unit {0})
  retrieves_a_flat_data_map payload = do
    (store, address) ← unwrap (upload c shrink_data_map payload false)
    plaintext ← retrieve_stored c store address
    assert_eq plaintext payload

  unfoldable pub retrieves_through_a_shrunk_data_map : Bytes → Tested (Unit {0})
  retrieves_through_a_shrunk_data_map payload = do
    (store, address) ← unwrap (upload c shrink_data_map payload true)
    bytes ← store_get store address
    m ← unwrap (c.from_slice bytes)
    _ ← assert (c.is_child m)
    plaintext ← retrieve_stored c store address
    assert_eq plaintext payload

  unfoldable pub rejects_a_tampered_chunk : Bytes → Tested (Unit {0})
  unfolding slice tamper
  rejects_a_tampered_chunk payload = do
    (store, address) ← unwrap (upload c shrink_data_map payload false)
    bytes ← store_get store address
    retrieval ← unwrap (begin c address bytes)
    target ← slice 0 32 (required_addresses c retrieval)
    original ← store_get store target
    tampered ← tamper original
    assert_err (supply c target tampered retrieval).0

  unfoldable pub rejects_a_substituted_chunk : Bytes → Tested (Unit {0})
  unfolding slice
  rejects_a_substituted_chunk payload = do
    (store, address) ← unwrap (upload c shrink_data_map payload false)
    bytes ← store_get store address
    retrieval ← unwrap (begin c address bytes)
    wanted ← slice 0 32 (required_addresses c retrieval)
    other ← slice 32 64 (required_addresses c retrieval)
    substitute ← store_get store other
    assert_err (supply c wanted substitute retrieval).0

  unfoldable pub rejects_a_tampered_data_map : Bytes → Tested (Unit {0})
  unfolding tamper
  rejects_a_tampered_data_map payload = do
    (store, address) ← unwrap (upload c shrink_data_map payload false)
    original ← store_get store address
    tampered ← tamper original
    assert_err (begin c address tampered)

module _ (c : Crates) where
  unfoldable pub parses_hex_addresses : Tested (Unit {0})
  unfolding hex parse_hex_address
  parses_hex_addresses = do
    let address = replicate 32 0xab
    parsed ← unwrap (parse_hex_address {F = c.Failure} (hex address))
    _ ← assert_eq parsed address
    _ ← assert_err (parse_hex_address {F = c.Failure} (codes "abcd"))
    assert_err (parse_hex_address {F = c.Failure} (concat (replicate 32 (codes "zz"))))
