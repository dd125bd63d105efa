-- ===== src/Client/Tests/Rejects.antt =====
-- The tests that a changed or a substituted byte string is refused.
use mathlib.Core.Path.{subst}
use autonomi_webrtc_direct_p.Prelude.{
  ◌≡◌, ◌≢◌, ◌⊎◌, inl, inr, refl, sym, ap, ◌∙◌, arith, true, false, not, List, [], ◌∷◌, ◌++◌, map,
  some, Bytes, ok, length, take, drop, take-append, drop-append, concat, leb, ◌==◌, bytes_eq,
  eq_of_bytes_eq, bytes_eq_iff, Bool-cases, Result-cases, length-append, All, All-of_map,
  if◌then◌else◌,
}
use autonomi_webrtc_direct_p.Prelude.Dict
use autonomi_webrtc_direct_p.Prelude.Dict.{Dict, get-insert}
use autonomi_webrtc_direct_p.Crates.{
  Crates, CrateLaws, UploadLaws, Collision, XorName, All-Arranged,
}
use autonomi_webrtc_direct_p.Source.Addressed.{Held}
use autonomi_webrtc_direct_p.Client.Address.{parse_address, address_len}
use autonomi_webrtc_direct_p.Client.Retrieval.{Retrieval, begin, supply}
use autonomi_webrtc_direct_p.Client.Retrieval.Supply.{supply_refuses}
use autonomi_webrtc_direct_p.Client.Upload.{Shrink, store_all, entry_of}
use autonomi_webrtc_direct_p.Client.Tests.{
  assert_err, slice, tamper, rejects_a_tampered_chunk, rejects_a_substituted_chunk,
  rejects_a_tampered_data_map,
}
use autonomi_webrtc_direct_p.Client.Tests.Tampered.{HasFirst, IsTampered, tamper_lem}
use autonomi_webrtc_direct_p.Client.Tests.Start.{
  flat_store, upload_flat, flat_store-Held, flat_store-map, store_get-hash, store_get-name,
  required_addresses_fresh,
}
use autonomi_webrtc_direct_p.Browser.Retrieve.Fixture.{begin_accepts}
use autonomi_webrtc_direct_p.Browser.Retrieve.Uploaded.Rounds.{IsIn}

IsIn-empty : (bytes : Bytes) → ¬ (IsIn [] bytes)
unfolding IsIn Dict.get
IsIn-empty bytes = λ (name, there). cc there

IsIn-insert :
    (P : Bytes → Type 0) (d : Dict Bytes) (k b : Bytes)
    → ((bytes : Bytes) → IsIn d bytes → P bytes)
    → P b
    → (bytes : Bytes) → IsIn (Dict.insert d k b) bytes
    → P bytes
unfolding IsIn
IsIn-insert P d k b h p bytes (name, there) = elim (Bool-cases (bytes_eq k name)) [
  | inl same ↦
      let found : b ≡ bytes =
        cc (there, get-insert d k name b, ap (λ t. if t then some b else Dict.get d name) same) in
      subst P found p
  | inr other ↦ h bytes (
    name,
    cc (there, get-insert d k name b, ap (λ t. if t then some b else Dict.get d name) other),
  )
]

module _ (c : Crates) (laws : CrateLaws c) where
  -- The first and the second of the required addresses.
  slice_first : (first rest : Bytes) → length first ≡ 32 → slice 0 32 (first ++ rest) ≡ ok first
  unfolding slice
  slice_first first rest h = elim (Bool-cases (leb 32 (length (first ++ rest)))) [
    | inl long ↦
        rw (long, slice) (ap ok (ap (λ n. take n (first ++ rest)) (sym h) ∙ take-append first rest))
    | inr short ↦ absurd (ground (arith, length-append first rest))
  ]

  slice_second :
      (first second rest : Bytes)
      → length first ≡ 32
      → length second ≡ 32
      → slice 32 64 (first ++ (second ++ rest)) ≡ ok second
  unfolding slice
  slice_second first second rest h k =
      elim (Bool-cases (leb 64 (length (first ++ (second ++ rest))))) [
        | inl long ↦
            rw (long, slice)
              (ap ok (
                ap (take 32) (
                  ap (λ n. drop n (first ++ (second ++ rest))) (sym h)
                  ∙ drop-append first (second ++ rest))
                ∙ ap (λ n. take n (second ++ rest)) (sym k)
                ∙ take-append second rest))
        | inr short ↦
            absurd (ground (arith, length-append first (second ++ rest), length-append second rest))
      ]

  -- A refusal, or a changed entry of the store with the same hash.
  supply_changed :
      (store : Dict Bytes) (original bytes : Bytes) (r : Retrieval c)
      → IsIn store original
      → tamper original ≡ ok bytes
      → original ≢ bytes
      → (assert_err (supply c (c.hash original) bytes r).0 ≡ ok tt)
        ⊎ Collision c (IsIn store) (IsTampered store)
  supply_changed store original bytes r stored changed differ =
      elim (Bool-cases (bytes_eq (c.hash bytes) (c.hash original))) [
        | inl same ↦ inr (record {
          left = original;
          right = bytes;
          is_left = stored;
          is_right = (original, stored, changed);
          differ = differ;
          same_hash = sym (eq_of_bytes_eq _ _ same);
        })
        | inr other ↦
            let (e, refused) =
              supply_refuses c laws (c.hash original) bytes r
                (λ p. cc (other, (bytes_eq_iff _ _).1 p)) in
            inl (rw refused refl)
      ]

  begin_changed :
      (store : Dict Bytes) (original bytes : Bytes)
      → IsIn store original
      → tamper original ≡ ok bytes
      → original ≢ bytes
      → (assert_err (begin c (c.hash original) bytes) ≡ ok tt)
        ⊎ Collision c (IsIn store) (IsTampered store)
  unfolding begin parse_address
  begin_changed store original bytes stored changed differ =
      let long : (length (c.hash original) == address_len) ≡ true =
        ground (arith, laws.length-hash original) in
      elim (Result-cases (c.verify_chunk (c.hash original) bytes)) [
        | inr (e, p) ↦ inl (rw (long, begin) (rw p refl))
        | inl (chunk, p) ↦ inr (record {
          left = original;
          right = bytes;
          is_left = stored;
          is_right = (original, stored, changed);
          differ = differ;
          same_hash = sym (laws.verify_chunk_sound (c.hash original) bytes p).0;
        })
      ]

  -- All bytes in a store that starts empty are among the entries.
  IsIn-store_all :
      (P : Bytes → Type 0) (entries : List (XorName × Bytes)) (d : Dict Bytes)
      → ((bytes : Bytes) → IsIn d bytes → P bytes)
      → All (λ entry. P entry.1) entries
      → (bytes : Bytes) → IsIn (store_all d entries) bytes
      → P bytes
  unfolding store_all
  IsIn-store_all P [] d h a = h
  IsIn-store_all P ((name, b) ∷ entries) d h (p, ps) =
      IsIn-store_all P entries (Dict.insert d name b) (IsIn-insert P d name b h p) ps

  IsIn-flat_store :
      (P : Bytes → Type 0) (chunks : List c.EncryptedChunk) (serialized : Bytes)
      → All (λ chunk. P (c.content chunk)) chunks
      → P serialized
      → (bytes : Bytes) → IsIn (flat_store c chunks serialized) bytes
      → P bytes
  IsIn-flat_store P chunks serialized contents last =
      IsIn-insert P (store_all [] (map (entry_of c) chunks)) (c.hash serialized) serialized
        (IsIn-store_all P (map (entry_of c) chunks) [] (λ bytes i. absurd (IsIn-empty bytes i))
          (All-of_map (λ entry. P entry.1) (entry_of c) chunks contents))
        last

  module _ (upload_laws : UploadLaws c) (shrink_data_map : Shrink c) where
    -- The three tests that a changed or a substituted byte string is refused pass on every content of
    -- which the encryption has a flat map that can be serialized and lists two names at least, the
    -- first two of them different, and if the chunks and the map start with a byte; or else, for the
    -- two tests that change a byte, an entry of the store and its changed form have the same hash.
    pub rejects_lem :
        (payload serialized : Bytes) (m : c.DataMap) (chunks : List c.EncryptedChunk)
        (first second : c.ChunkInfo) (rest : List c.ChunkInfo)
        → c.encrypt payload ≡ ok (m, chunks)
        → c.infos m ≡ first ∷ second ∷ rest
        → c.is_child m ≡ false
        → c.to_vec m ≡ ok serialized
        → All (λ chunk. HasFirst (c.content chunk)) chunks
        → HasFirst serialized
        → c.dst_hash first ≢ c.dst_hash second
        → ((rejects_a_tampered_chunk c shrink_data_map payload ≡ ok tt)
            ⊎ Collision c
                (IsIn (flat_store c chunks serialized))
                (IsTampered (flat_store c chunks serialized)))
          × (rejects_a_substituted_chunk c shrink_data_map payload ≡ ok tt)
          × ((rejects_a_tampered_data_map c shrink_data_map payload ≡ ok tt)
              ⊎ Collision c
                  (IsIn (flat_store c chunks serialized))
                  (IsTampered (flat_store c chunks serialized)))
    unfolding rejects_a_tampered_chunk rejects_a_substituted_chunk rejects_a_tampered_data_map IsIn
    rejects_lem payload serialized m chunks first second rest e listed flat w contents start
          differ =
        let store = flat_store c chunks serialized in
        let up = upload_flat c laws shrink_data_map payload serialized m chunks e w in
        let got =
          store_get-hash c laws store serialized serialized
            (flat_store-map c laws chunks serialized) in
        let begun = begin_accepts c laws serialized m (upload_laws.from_slice-to_vec m w) in
        let required =
          required_addresses_fresh c laws m (not (c.is_child m))
          ∙ ap (λ infos. concat (map c.dst_hash infos)) listed in
        let others = concat (map c.dst_hash rest) in
        let wanted = c.dst_hash first in
        let other = c.dst_hash second in
        let r : Retrieval c = record {
          data_map = m;
          root_resolved = not (c.is_child m);
          cache = [];
        } in
        let target = slice_first wanted (other ++ others) (laws.length-dst_hash first) in
        let held = rw listed at (
          All-Arranged c (Held c store) m chunks (upload_laws.encrypt_infos payload e flat)
            (flat_store-Held c laws chunks serialized)) in
        let (x, x_there, x_hash) = held.0 in
        let (y, y_there, y_hash) = held.1.0 in
        let (x', x_tampered, x_differ) =
          tamper_lem x
            (IsIn-flat_store HasFirst chunks serialized contents start x (wanted, x_there)) in
        let (s', s_tampered, s_differ) = tamper_lem serialized start in
        let (z, refused) = supply_refuses c laws wanted y r (λ p. differ (sym p ∙ y_hash)) in
        (
          elim (supply_changed store x x' r (wanted, x_there) x_tampered x_differ) [
            | inr collision ↦ inr collision
            | inl passes ↦ inl (
                rw (up, rejects_a_tampered_chunk)
                  (rw got (
                    rw begun (
                      rw required (
                        rw target (
                          rw (store_get-name store wanted x (laws.length-dst_hash first) x_there) (
                            rw x_tampered (
                              subst (λ k. assert_err (supply c k x' r).0 ≡ ok tt) x_hash
                                passes))))))))
          ],
          rw (up, rejects_a_substituted_chunk)
              (rw got (
                rw begun (
                  rw required (
                    rw target (
                      rw
                        (slice_second wanted other others (laws.length-dst_hash first)
                          (laws.length-dst_hash second))
                        (rw (store_get-name store other y (laws.length-dst_hash second) y_there)
                          (rw refused refl))))))),
          elim (begin_changed store serialized s'
              (c.hash serialized, flat_store-map c laws chunks serialized) s_tampered s_differ) [
                | inr collision ↦ inr collision
                | inl passes ↦
                    inl (rw (up, rejects_a_tampered_data_map) (rw got (rw s_tampered passes)))
              ],
        )
