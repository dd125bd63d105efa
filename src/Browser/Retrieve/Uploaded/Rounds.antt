-- ===== src/Browser/Retrieve/Uploaded/Rounds.antt =====
-- The rounds of `retrieve` over a store that has all chunks of a map, and its wrappers, if any.
use mathlib.Core.List.{Permᴰ}
use mathlib.Core.List.Permᴰ
use autonomi_webrtc_direct_p.Prelude.{
  ◌≡◌, ◌⊎◌, inl, inr, refl, ap, ◌∙◌, Bool, true, false, List, [], ◌∷◌, map, Option, some, Bytes, ok,
  length, All, All-of_map, All-to_map, All-imp, All-perm,
}
use autonomi_webrtc_direct_p.Prelude.Dict
use autonomi_webrtc_direct_p.Prelude.Dict.{Dict}
use autonomi_webrtc_direct_p.Prelude.Effects.{Io}
use autonomi_webrtc_direct_p.Crates.{
  Crates, CrateLaws, UploadLaws, Collision, XorName, All-Arranged,
}
use autonomi_webrtc_direct_p.Source.Addressed.{Held}
use autonomi_webrtc_direct_p.Client.Upload.{Shrink, ShrinkLaws}
use autonomi_webrtc_direct_p.Client.Retrieval.{Retrieval, fetch}
use autonomi_webrtc_direct_p.Client.Retrieval.Cache.{IsVerified-empty}
use autonomi_webrtc_direct_p.Browser.Retrieve.{rounds, max_rounds}
use autonomi_webrtc_direct_p.Browser.Retrieve.Flat.{
  IsFlat, IsFetched, Leaves, fetch_required-Leaves, rounds-Leaves,
}
use autonomi_webrtc_direct_p.Browser.Retrieve.Child.{rounds_child, Kept, All-Kept, All-fetch}
use autonomi_webrtc_direct_p.Browser.Retrieve.Fixture.{All-missing, names_long}

-- The bytes of some entry of the store.
unfoldable pub IsIn : Dict Bytes → Bytes → Type 0
IsIn store bytes = (name : XorName) × (Dict.get store name ≡ some bytes)

-- The child map names the stored wrappers, each once, in any order.
abbrev pub NamesAll : (c : Crates) → c.DataMap → List (XorName × Bytes) → Type 0
NamesAll c child wrappers = Permᴰ (map (λ entry. entry.0) wrappers) (map c.dst_hash (c.infos child))

-- The bytes of one of the wrappers.
pub IsWrapper : List (XorName × Bytes) → Bytes → Type 0
IsWrapper [] bytes = ⊥
IsWrapper ((name, wrapper) ∷ rest) bytes = (wrapper ≡ bytes) ⊎ IsWrapper rest bytes

pub All-IsWrapper :
    (entries : List (XorName × Bytes)) → All (λ entry. IsWrapper entries entry.1) entries
unfolding IsWrapper
All-IsWrapper [] = tt
All-IsWrapper ((name, wrapper) ∷ rest) = (
  inl refl,
  All-imp (λ entry. IsWrapper rest entry.1) (λ entry. IsWrapper ((name, wrapper) ∷ rest) entry.1)
      (λ entry h. inr h) rest (All-IsWrapper rest),
)

module _ (c : Crates) (laws : CrateLaws c) (upload_laws : UploadLaws c) (shrink_data_map : Shrink c)
    (shrink_laws : ShrinkLaws c shrink_data_map) {E S : Type 0}
    (get_chunk : Bytes → Io E S (Option Bytes)) (store : Dict Bytes)
    (answers : (name : XorName) (s : S)
      → length name ≡ 32
      → (get_chunk name s).0 ≡ ok (Dict.get store name)) where
  -- What the store has under a hash can be fetched.
  IsFetched-of_Held :
      (first : c.DataMap) (flag : Bool) (infos : List c.ChunkInfo)
      → All (λ info. Held c store (c.dst_hash info)) infos
      → All (λ info. IsFetched c laws get_chunk (IsIn store) first flag (c.dst_hash info)) infos
  unfolding IsIn
  IsFetched-of_Held first flag infos held =
      All-imp (λ info. Held c store (c.dst_hash info)) _
        (λ info (bytes, there, hashed). record {
          bytes = bytes;
          is_hash = hashed;
          is_served = (c.dst_hash info, there);
          answers = λ s. answers (c.dst_hash info) s (laws.length-dst_hash info) ∙ ap ok there;
        })
        infos held

  pub chunks_Held :
      (content : Bytes) (m : c.DataMap) (chunks : List c.EncryptedChunk)
      → c.encrypt content ≡ ok (m, chunks)
      → c.is_child m ≡ false
      → All (λ chunk. Held c store (c.hash (c.content chunk))) chunks
      → All (λ info. Held c store (c.dst_hash info)) (c.infos m)
  chunks_Held content m chunks e flat held =
      All-Arranged c (Held c store) m chunks (upload_laws.encrypt_infos content e flat) held

  -- The rounds from the flat map.
  pub rounds_flat :
      (m : c.DataMap) (s : S)
      → All (λ info. Held c store (c.dst_hash info)) (c.infos m)
      → Leaves c laws get_chunk
          (IsIn store)
          m
          true
          (rounds c get_chunk max_rounds
            (s, record { data_map = m; root_resolved = true; cache = [] }))
          []
  rounds_flat m s held =
      rounds-Leaves c laws get_chunk (IsIn store) m 14 s
        (record { data_map = m; root_resolved = true; cache = [] })
        (All-missing c laws _ [] (c.infos m) (IsFetched-of_Held m true (c.infos m) held))
        (All-missing c laws _ [] (c.infos m) (names_long c laws (c.infos m)))
        (record { same_map = refl; resolved = refl; verified = IsVerified-empty c (IsIn store) })

  -- The rounds from a child map.
  pub rounds_wrapped :
      (Given : Bytes → Type 0) (m child : c.DataMap) (wrappers : List (XorName × Bytes)) (s : S)
      → shrink_data_map m ≡ ok (child, wrappers)
      → c.is_child child ≡ true
      → NamesAll c child wrappers
      → All (λ entry. Given entry.1) wrappers
      → All (λ entry. Held c store entry.0) wrappers
      → All (λ info. Held c store (c.dst_hash info)) (c.infos m)
      → Leaves c laws get_chunk
          (IsIn store)
          m
          true
          (rounds c get_chunk max_rounds
            (s, record { data_map = child; root_resolved = false; cache = [] }))
          []
        ⊎ Collision c (IsIn store) Given
  rounds_wrapped Given m child wrappers s shrunk is_child names given wrapped held =
      let start : Retrieval c = record { data_map = child; root_resolved = false; cache = [] } in
      let wrappers_held : All (λ info. Held c store (c.dst_hash info)) (c.infos child) =
        All-to_map (Held c store) c.dst_hash (c.infos child) (
          All-perm (Held c store) (map (λ entry. entry.0) wrappers) _ names
            (All-of_map (Held c store) (λ entry. entry.0) wrappers wrapped)) in
      let flat : IsFlat c laws get_chunk (IsIn store) child false start = record {
        same_map = refl;
        resolved = refl;
        verified = IsVerified-empty c (IsIn store);
      } in
      let l =
        fetch_required-Leaves c laws get_chunk (IsIn store) child false s start
          (All-missing c laws _ [] (c.infos child)
            (IsFetched-of_Held child false (c.infos child) wrappers_held))
          (All-missing c laws _ [] (c.infos child) (names_long c laws (c.infos child))) flat in
      let kept =
        All-to_map (Kept c l.retrieval.cache) (λ entry. entry.0) wrappers
          (All-perm (Kept c l.retrieval.cache) (map c.dst_hash (c.infos child)) _ (Permᴰ.symm names)
            (All-of_map (Kept c l.retrieval.cache) c.dst_hash (c.infos child)
              (All-Kept c l.retrieval.cache (c.infos child) l.lacking))) in
      elim (All-fetch c (IsIn store) Given l.retrieval.cache wrappers l.flat.verified kept
        (shrink_laws.addressed m shrunk) given) [
          | inr collision ↦ inr collision
          | inl fetches ↦ inl (
              rounds_child c laws get_chunk (IsIn store) child m 13 s start l flat
                (shrink_laws.resolves m (fetch c l.retrieval.cache) shrunk is_child fetches)
                (IsFetched-of_Held m true (c.infos m) held))
        ]
