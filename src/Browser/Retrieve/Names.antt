-- ===== src/Browser/Retrieve/Names.antt =====
-- The addresses that a round fetches.
use autonomi_webrtc_direct_p.Prelude.{
  elem, ◌≡◌, inl, inr, refl, ap, ◌∙◌, arith, true, List, [], ◌∷◌, Bytes, length, Bool-cases, All,
  concat, bytes_eq, bytes_eq_refl,
}
use autonomi_webrtc_direct_p.Prelude.Chunks.{chunks, chunks-append}
use autonomi_webrtc_direct_p.Crates.{Crates}
use autonomi_webrtc_direct_p.Client.Retrieval.Progress.{without}
use autonomi_webrtc_direct_p.Browser.Retrieve.{split_addresses}

-- All of `js` are among `ks`.
abbrev pub Within : List Bytes → List Bytes → Type 0
Within ks js = All (λ j. elem j ks ≡ true) js

pub Within-without :
    (c : Crates) (k : Bytes) (ks js : List Bytes) → Within (k ∷ ks) js → Within ks (without c k js)
unfolding without
Within-without c k ks [] h = tt
Within-without c k ks (j ∷ js) (h, hs) = elim (Bool-cases (bytes_eq k j)) [
  | inl same ↦ rw same (Within-without c k ks js hs)
  | inr other ↦ rw other (rw other at h, Within-without c k ks js hs)
]

Within-cons : (k : Bytes) (ks js : List Bytes) → Within ks js → Within (k ∷ ks) js
Within-cons k ks [] h = tt
Within-cons k ks (j ∷ js) (h, hs) = (ground (arith, h), Within-cons k ks js hs)

pub Within-self : (ks : List Bytes) → Within ks ks
Within-self [] = tt
Within-self (k ∷ ks) = (ground (arith, bytes_eq_refl k), Within-cons k ks ks (Within-self ks))

pub Within-none : (js : List Bytes) → Within [] js → js ≡ []
Within-none [] h = refl
Within-none (j ∷ js) (h, hs) = absurd (cc h)

-- `splitAddresses` undoes the flat encoding of the addresses.
pub split_addresses-concat :
    (names : List Bytes) → All (λ k. length k ≡ 32) names → split_addresses (concat names) ≡ names
unfolding split_addresses chunks
split_addresses-concat [] h = refl
split_addresses-concat (k ∷ names) (h, hs) =
    chunks-append 32 k (concat names) (omega arith) h ∙ ap (◌∷◌ k) (split_addresses-concat names hs)
