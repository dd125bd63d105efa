-- ===== src/Client/Upload.antt =====
-- crates/wasm-client/src/lib.rs, the tests: what an upload stores, the way the Autonomi client does.
pub mod Stored
use autonomi_webrtc_direct_p.Prelude.{
  ◌>>=◌, ◌≡◌, Bool, true, false, List, [], ◌∷◌, map, Bytes, Result, ok, All,
}
use autonomi_webrtc_direct_p.Prelude.Dict
use autonomi_webrtc_direct_p.Prelude.Dict.{Dict}
use autonomi_webrtc_direct_p.Crates.{Crates, XorName}

-- `self_encryption::shrink_data_map`: the map that it returns, and what it has stored, in order.
abbrev pub Shrink : Crates → Type 0
Shrink c = c.DataMap → Result c.Failure (c.DataMap × List (XorName × Bytes))

-- A wrapper chunk is stored under its hash. Any fetcher that brings the wrappers resolves the child
-- map to the map that was shrunk; a map that is not a child was small enough, and is the same.
pub record ShrinkLaws (c : Crates) (shrink_data_map : Shrink c) : Type 0 where
  pub addressed :
      (m : c.DataMap) {child : c.DataMap} {stored : List (XorName × Bytes)}
      → shrink_data_map m ≡ ok (child, stored)
      → All (λ entry. c.hash entry.1 ≡ entry.0) stored
  pub resolves :
      (m : c.DataMap) (f : XorName → Result c.Failure Bytes) {child : c.DataMap}
      {stored : List (XorName × Bytes)}
      → shrink_data_map m ≡ ok (child, stored)
      → c.is_child child ≡ true
      → All (λ entry. f entry.0 ≡ ok entry.1) stored
      → c.get_root_data_map child f ≡ ok m
  pub unshrunk :
      (m : c.DataMap) {child : c.DataMap} {stored : List (XorName × Bytes)}
      → shrink_data_map m ≡ ok (child, stored)
      → c.is_child child ≡ false
      → child ≡ m

-- `HashMap::insert`, one entry after the other.
unfoldable pub store_all : Dict Bytes → List (XorName × Bytes) → Dict Bytes
store_all d [] = d
store_all d ((name, bytes) ∷ rest) = store_all (Dict.insert d name bytes) rest

module _ (c : Crates) where
  -- `(address_of(&chunk.content), chunk.content)`
  abbrev pub entry_of : c.EncryptedChunk → XorName × Bytes
  entry_of chunk = (c.hash (c.content chunk), c.content chunk)

  module _ (shrink_data_map : Shrink c) where
    -- The `if shrink`: the map that is uploaded, and the store with its wrappers.
    unfoldable pub wrap_map :
        Bool → c.DataMap → Dict Bytes → Result c.Failure (c.DataMap × Dict Bytes)
    unfolding store_all
    wrap_map false m store = ok (m, store)
    wrap_map true m store = do
      (child, wrappers) ← shrink_data_map m
      ok (child, store_all store wrappers)

    -- An error is where `unwrap` panics.
    unfoldable pub upload : Bytes → Bool → Result c.Failure (Dict Bytes × XorName)
    unfolding store_all wrap_map
    upload content shrink = do
      (m, encrypted) ← c.encrypt content
      (uploaded, store) ← wrap_map shrink m (store_all [] (map entry_of encrypted))
      serialized ← c.to_vec uploaded
      ok (Dict.insert store (c.hash serialized) serialized, c.hash serialized)
