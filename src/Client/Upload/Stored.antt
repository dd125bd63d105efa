-- ===== src/Client/Upload/Stored.antt =====
-- What an upload leaves in the store.
use autonomi_webrtc_direct_p.Prelude.{
  ◌≡◌, ◌⊎◌, inl, inr, refl, arith, Bool, true, false, List, [], ◌∷◌, map, some, Bytes, Result, ok,
  All, All-imp, All-to_map, Result-cases,
}
use mathlib.Core.Path.{subst}
use autonomi_webrtc_direct_p.Prelude.Dict
use autonomi_webrtc_direct_p.Prelude.Dict.{Dict, get-insert}
use autonomi_webrtc_direct_p.Crates.{Crates, XorName}
use autonomi_webrtc_direct_p.Source.Addressed.{Held, Held-insert, Held-insert_self}
use autonomi_webrtc_direct_p.Client.Upload.{
  Shrink, ShrinkLaws, store_all, entry_of, wrap_map, upload,
}

module _ (c : Crates) where
  -- Every entry stands under its hash.
  abbrev pub Addressed : List (XorName × Bytes) → Type 0
  Addressed entries = All (λ entry. c.hash entry.1 ≡ entry.0) entries

  pub Addressed-entry_of : (chunks : List c.EncryptedChunk) → Addressed (map (entry_of c) chunks)
  Addressed-entry_of [] = tt
  Addressed-entry_of (chunk ∷ chunks) = (refl, Addressed-entry_of chunks)

  Held-store_all :
      (entries : List (XorName × Bytes)) (d : Dict Bytes) (k : XorName)
      → Addressed entries
      → Held c d k
      → Held c (store_all d entries) k
  unfolding store_all
  Held-store_all [] d k a h = h
  Held-store_all ((name, bytes) ∷ rest) d k (a, more) h =
      Held-store_all rest (Dict.insert d name bytes) k more
        (subst (λ n. Held c (Dict.insert d n bytes) k) a (Held-insert c d bytes k h))

  pub All-store_all :
      (entries : List (XorName × Bytes)) (d : Dict Bytes)
      → Addressed entries
      → All (λ entry. Held c (store_all d entries) entry.0) entries
  unfolding store_all
  All-store_all [] d a = tt
  All-store_all ((name, bytes) ∷ rest) d (a, more) = (
    Held-store_all rest (Dict.insert d name bytes) name more (
      bytes,
      subst (λ n. Dict.get (Dict.insert d n bytes) n ≡ some bytes) a (Held-insert_self c d bytes),
      a,
    ),
    All-store_all rest (Dict.insert d name bytes) more,
  )

  module _ (shrink_data_map : Shrink c) (laws : ShrinkLaws c shrink_data_map) where
    -- An upload that went through: the chunks of the encryption, the wrappers, if any, and the
    -- serialized map can be fetched by their hashes.
    pub record Stored (content : Bytes) (shrink : Bool) (store : Dict Bytes) (address : XorName)
        : Type 0 where
      pub data_map : c.DataMap
      pub chunks : List c.EncryptedChunk
      pub uploaded : c.DataMap
      pub wrappers : List (XorName × Bytes)
      pub serialized : Bytes
      pub encrypted : c.encrypt content ≡ ok (data_map, chunks)
      pub shrunk : (uploaded ≡ data_map) ⊎ (shrink_data_map data_map ≡ ok (uploaded, wrappers))
      pub written : c.to_vec uploaded ≡ ok serialized
      pub is_address : address ≡ c.hash serialized
      pub map_stored : Dict.get store (c.hash serialized) ≡ some serialized
      pub chunks_stored : All (λ chunk. Held c store (c.hash (c.content chunk))) chunks
      pub wrappers_stored : All (λ entry. Held c store entry.0) wrappers

    -- The serialized map is stored last.
    with_map :
        (content : Bytes) (shrink : Bool) (store : Dict Bytes) (address : XorName)
        (m uploaded : c.DataMap) (chunks : List c.EncryptedChunk)
        (wrappers : List (XorName × Bytes)) (d : Dict Bytes) (serialized : Bytes)
        → c.encrypt content ≡ ok (m, chunks)
        → (uploaded ≡ m) ⊎ (shrink_data_map m ≡ ok (uploaded, wrappers))
        → c.to_vec uploaded ≡ ok serialized
        → All (λ entry. Held c d entry.0) (map (entry_of c) chunks)
        → All (λ entry. Held c d entry.0) wrappers
        → ◌≡◌ {A = Result c.Failure (Dict Bytes × XorName)}
            (ok (Dict.insert d (c.hash serialized) serialized, c.hash serialized))
            (ok (store, address))
        → Stored content shrink store address
    with_map content shrink store address m uploaded chunks wrappers d serialized e s w held wrapped
          h =
        let same : Dict.insert d (c.hash serialized) serialized ≡ store = cc h in
        let kept : (entry : XorName × Bytes) → Held c d entry.0 → Held c store entry.0 =
          λ entry there.
            subst (λ w. Held c w entry.0) same (Held-insert c d serialized entry.0 there) in
        record {
          data_map = m;
          chunks = chunks;
          uploaded = uploaded;
          wrappers = wrappers;
          serialized = serialized;
          encrypted = e;
          shrunk = s;
          written = w;
          is_address = cc h;
          map_stored =
              subst (λ w. Dict.get w (c.hash serialized) ≡ some serialized) same
                (Held-insert_self c d serialized);
          chunks_stored =
              All-to_map (λ entry. Held c store entry.0) (entry_of c) chunks
                (All-imp _ _ kept (map (entry_of c) chunks) held);
          wrappers_stored = All-imp _ _ kept wrappers wrapped;
        }

    pub upload-Stored :
        (content : Bytes) (shrink : Bool) (store : Dict Bytes) (address : XorName)
        → upload c shrink_data_map content shrink ≡ ok (store, address)
        → Stored content shrink store address
    unfolding upload wrap_map
    upload-Stored content false store address h = elim (Result-cases (c.encrypt content)) [
      | inr (e, p) ↦ absurd (ground arith)
      | inl ((m, chunks), p) ↦ elim (Result-cases (c.to_vec m)) [
        | inr (e, w) ↦ absurd (ground arith)
        | inl (serialized, w) ↦
            with_map content false store address m m chunks []
              (store_all [] (map (entry_of c) chunks)) serialized p (inl refl) w
              (All-store_all (map (entry_of c) chunks) [] (Addressed-entry_of chunks)) tt
              (ground arith)
      ]
    ]
    upload-Stored content true store address h = elim (Result-cases (c.encrypt content)) [
      | inr (e, p) ↦ absurd (ground arith)
      | inl ((m, chunks), p) ↦ elim (Result-cases (shrink_data_map m)) [
        | inr (e, q) ↦ absurd (ground arith)
        | inl ((child, wrappers), q) ↦ elim (Result-cases (c.to_vec child)) [
          | inr (e, w) ↦ absurd (ground arith)
          | inl (serialized, w) ↦
              let entries = map (entry_of c) chunks in
              let addressed = laws.addressed m q in
              with_map content true store address m child chunks wrappers
                (store_all (store_all [] entries) wrappers) serialized p (inr q) w
                (All-imp (λ entry. Held c (store_all [] entries) entry.0) _
                  (λ entry. Held-store_all wrappers (store_all [] entries) entry.0 addressed)
                  entries (All-store_all entries [] (Addressed-entry_of chunks)))
                (All-store_all wrappers (store_all [] entries) addressed) (ground arith)
        ]
      ]
    ]
