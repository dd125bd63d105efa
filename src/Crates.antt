-- ===== src/Crates.antt =====
-- The crates that both programs call and that are not code of the repository: `self_encryption`,
-- `rmp_serde` (for data maps) and `blake3`, with the behaviour that their documentation promises.
use mathlib.Core.List.{Permᴰ}
use autonomi_webrtc_direct_p.Prelude.{
  ◌≡◌, Bool, false, List, Bytes, Result, ok, length, map, All, All-of_map, All-to_map, All-perm,
}

-- `XorName`, the 32 bytes of a content address.
abbrev pub XorName : Type 0
XorName = Bytes

pub record Crates : Type 1 where
  -- the error values of these crates; `Error::Generic` carries a text
  pub Failure : Type 0
  pub generic : Bytes → Failure
  pub DataMap : Type 0
  pub ChunkInfo : Type 0
  pub EncryptedChunk : Type 0
  pub infos : DataMap → List ChunkInfo
  pub is_child : DataMap → Bool
  pub dst_hash : ChunkInfo → XorName
  pub content : EncryptedChunk → Bytes
  -- `blake3::hash`
  pub hash : Bytes → XorName
  pub verify_chunk : XorName → Bytes → Result Failure EncryptedChunk
  pub encrypt : Bytes → Result Failure (DataMap × List EncryptedChunk)
  pub decrypt : DataMap → List EncryptedChunk → Result Failure Bytes
  -- the argument fetches a chunk's bytes
  pub get_root_data_map : DataMap → (XorName → Result Failure Bytes) → Result Failure DataMap
  -- `rmp_serde::from_slice` and `rmp_serde::to_vec`
  pub from_slice : Bytes → Result Failure DataMap
  pub to_vec : DataMap → Result Failure Bytes

-- What the trust argument relies on.
pub record CrateLaws (c : Crates) : Type 0 where
  -- a hash has 32 bytes
  pub length-hash : (bytes : Bytes) → length (c.hash bytes) ≡ 32
  -- so do the names in a data map
  pub length-dst_hash : (info : c.ChunkInfo) → length (c.dst_hash info) ≡ 32
  -- `verify_chunk` accepts exactly the bytes that hash to the name, and wraps them
  pub verify_chunk_sound :
      (name : XorName) (bytes : Bytes) {chunk : c.EncryptedChunk}
      → c.verify_chunk name bytes ≡ ok chunk
      → (c.hash bytes ≡ name) × (c.content chunk ≡ bytes)
  pub verify_chunk_complete :
      (bytes : Bytes)
      → (chunk : c.EncryptedChunk) × (c.verify_chunk (c.hash bytes) bytes ≡ ok chunk)
  -- an `EncryptedChunk` is its content
  pub content_injective : (x y : c.EncryptedChunk) → c.content x ≡ c.content y → x ≡ y
  -- resolving a child map reads nothing but what it fetches: two fetchers that never answer one
  -- name differently cannot lead to different roots
  pub get_root_data_map_agrees :
      (m r s : c.DataMap) (f g : XorName → Result c.Failure Bytes)
      → ((name : XorName) (x y : Bytes) → f name ≡ ok x → g name ≡ ok y → x ≡ y)
      → c.get_root_data_map m f ≡ ok r
      → c.get_root_data_map m g ≡ ok s
      → r ≡ s

-- The chunks of an encryption in the order in which its map lists them, which is not the one in
-- which `encrypt` returns them: of five chunks it returns the first two last.
pub record Arranged (c : Crates) (m : c.DataMap) (chunks : List c.EncryptedChunk) : Type 0 where
  pub ordered : List c.EncryptedChunk
  pub is_permutation : Permᴰ chunks ordered
  pub is_listed : map c.dst_hash (c.infos m) ≡ map (λ chunk. c.hash (c.content chunk)) ordered

-- What an upload relies on, beyond that.
pub record UploadLaws (c : Crates) : Type 0 where
  -- a flat map of `encrypt` lists the chunks' hashes, in an order of its own
  pub encrypt_infos :
      (bytes : Bytes) {m : c.DataMap} {chunks : List c.EncryptedChunk}
      → c.encrypt bytes ≡ ok (m, chunks)
      → c.is_child m ≡ false
      → Arranged c m chunks
  -- `decrypt` undoes `encrypt`, given the chunks in the map's order
  pub decrypt-encrypt :
      (bytes : Bytes) {m : c.DataMap} {chunks : List c.EncryptedChunk}
      → c.encrypt bytes ≡ ok (m, chunks)
      → (arranged : Arranged c m chunks) → c.decrypt m arranged.ordered ≡ ok bytes
  -- MessagePack reads back what it wrote
  pub from_slice-to_vec :
      (m : c.DataMap) {bytes : Bytes} → c.to_vec m ≡ ok bytes → c.from_slice bytes ≡ ok m

-- Two different byte strings with one hash, the one among `A` and the other among `B`.
pub record Collision (c : Crates) (A B : Bytes → Type 0) : Type 0 where
  pub left : Bytes
  pub right : Bytes
  pub is_left : A left
  pub is_right : B right
  pub differ : ¬ (left ≡ right)
  pub same_hash : c.hash left ≡ c.hash right

-- What holds of the chunks' hashes holds of the names in the map.
pub All-Arranged :
    (c : Crates) (P : XorName → Type 0) (m : c.DataMap) (chunks : List c.EncryptedChunk)
    → Arranged c m chunks
    → All (λ chunk. P (c.hash (c.content chunk))) chunks
    → All (λ info. P (c.dst_hash info)) (c.infos m)
All-Arranged c P m chunks a h = All-to_map P c.dst_hash (c.infos m) (
    rw a.is_listed (
      All-of_map P (λ chunk. c.hash (c.content chunk)) a.ordered
        (All-perm (λ chunk. P (c.hash (c.content chunk))) chunks a.ordered a.is_permutation h)))
