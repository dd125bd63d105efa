-- ===== src/Browser/Retrieve/Concurrent/Supplied.antt =====
-- A view that has been supplied with names, in any order.
use mathlib.Core.Path.{fun_ext}
use autonomi_webrtc_direct_p.Prelude.{
  ◌≡◌, refl, sym, ap, ◌∙◌, inl, inr, true, ◌||◌, List, ◌∷◌, Option, none, some, Bytes, ok, err,
  length, ◌==◌, bytes_eq, eq_of_bytes_eq, elem, if◌then◌else◌, Bool-cases, Result-cases,
}
use autonomi_webrtc_direct_p.Crates.{Crates, CrateLaws, XorName}
use autonomi_webrtc_direct_p.Client.Address.{address_len}
use autonomi_webrtc_direct_p.Client.Retrieval.{Retrieval, supply}
use autonomi_webrtc_direct_p.Client.Retrieval.View.{View, view, hold, view_supply}
use autonomi_webrtc_direct_p.Client.Retrieval.View.Refines.{supply-view}

module _ (c : Crates) (laws : CrateLaws c) (fetched : XorName → Bytes) where
  -- The chunk that the fetch of a name gives, if it is one.
  pub chunk_of : XorName → Option c.EncryptedChunk
  chunk_of name = elim (c.verify_chunk name (fetched name)) [ ok chunk ↦ some chunk | err e ↦ none ]

  -- The fetch of the name gives a chunk.
  pub record IsAccepted (name : XorName) : Type 0 where
    pub long : (length name == address_len) ≡ true
    pub chunk : c.EncryptedChunk
    pub verified : c.verify_chunk name (fetched name) ≡ ok chunk

  -- A view that holds the chunks of these names besides.
  abbrev pub supplied : List XorName → View c → View c
  supplied names v = record v { lookup = λ j. if elem j names then chunk_of j else v.lookup j }

  chunk_of_accepted : (name : XorName) (a : IsAccepted name) → chunk_of name ≡ some a.chunk
  unfolding chunk_of
  chunk_of_accepted name a = rw (a.verified, chunk_of) refl

  -- The names may be supplied one by one, from the front or from the back.
  pub supplied-front :
      (name : XorName) (names : List XorName) (v : View c) (a : IsAccepted name)
      → supplied (name ∷ names) v ≡ hold c (supplied names v) name a.chunk
  supplied-front name names v a = λ i. record v { lookup = fun_ext (λ j. at j) i }
    where
      at :
          (j : XorName)
          → (if bytes_eq name j || elem j names then chunk_of j else v.lookup j) ≡ (
              if bytes_eq name j
              then some a.chunk
              else (if elem j names then chunk_of j else v.lookup j))
      at j = elim (Bool-cases (bytes_eq name j)) [
        | inl same ↦ rw same (rw (← eq_of_bytes_eq name j same) (chunk_of_accepted name a))
        | inr other ↦ rw other refl
      ]

  pub supplied-back :
      (name : XorName) (names : List XorName) (v : View c) (a : IsAccepted name)
      → supplied (name ∷ names) v ≡ supplied names (hold c v name a.chunk)
  supplied-back name names v a = λ i. record v { lookup = fun_ext (λ j. at j) i }
    where
      at :
          (j : XorName)
          → (if bytes_eq name j || elem j names then chunk_of j else v.lookup j) ≡ (
              if elem j names
              then chunk_of j
              else (if bytes_eq name j then some a.chunk else v.lookup j))
      at j = elim (Bool-cases (bytes_eq name j)) [
        | inl same ↦ rw same (
            rw (← eq_of_bytes_eq name j same) (
              rw (chunk_of_accepted name a) (elim (Bool-cases (elem name names)) [
                | inl there ↦ rw there refl
                | inr gone ↦ rw gone refl
              ])))
        | inr other ↦ rw other refl
      ]

  -- Only which names were supplied counts.
  pub supplied_same :
      (ks js : List XorName) (v : View c)
      → ((j : XorName) → elem j ks ≡ elem j js)
      → supplied ks v ≡ supplied js v
  supplied_same ks js v h = λ i. record v {
    lookup = fun_ext (λ j. ap (λ b. if b then chunk_of j else v.lookup j) (h j)) i;
  }

  -- A `supply` that succeeds has accepted a chunk, and holds it.
  pub supply-IsAccepted :
      (name : XorName) (r s : Retrieval c)
      → supply c name (fetched name) r ≡ (ok tt, s)
      → (a : IsAccepted name) × (view s ≡ hold c (view r) name a.chunk)
  supply-IsAccepted name r s h =
      go (ap (λ p. (p.0, view p.1)) (sym h) ∙ supply-view c laws name (fetched name) r)
    where
      go :
          (ok tt, view s) ≡ view_supply c name (fetched name) (view r)
          → (a : IsAccepted name) × (view s ≡ hold c (view r) name a.chunk)
      go e = elim (Bool-cases (length name == address_len)) [
        | inr short ↦ let q = rw short at e in absurd (cc q)
        | inl long ↦ elim (Result-cases (c.verify_chunk name (fetched name))) [
          | inl (chunk, p) ↦
              let q = rw p at (rw long at e) in
              (record { long = long; chunk = chunk; verified = p }, ap (λ t. t.1) q)
          | inr (x, p) ↦ let q = rw p at (rw long at e) in absurd (cc q)
        ]
      ]
