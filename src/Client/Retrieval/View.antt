-- ===== src/Client/Retrieval/View.antt =====
-- What a retrieval promises, whatever holds its chunks: the same calls on a state whose cache is a
-- function from names to chunks, each said in one line.
pub mod Refines
use autonomi_webrtc_direct_p.Prelude.{
  ℕ, Bool, true, false, not, ◌&&◌, ◌||◌, List, [], ◌∷◌, map, Option, none, some, Bytes, Result, ok,
  err, length, ◌==◌, bytes_eq, concat, if◌then◌else◌, map_err,
}
use autonomi_webrtc_direct_p.Prelude.Dict
use autonomi_webrtc_direct_p.Prelude.Effects.{Io}
use autonomi_webrtc_direct_p.Crates.{Crates, XorName}
use autonomi_webrtc_direct_p.Client.Errors.{
  address_length, chunk_unverified, root_unresolved, incomplete, decryption_failed,
}
use autonomi_webrtc_direct_p.Client.Address.{address_len, hex}
use autonomi_webrtc_direct_p.Client.Retrieval.{
  Retrieval, Failed, required_addresses, supply, advance, is_complete, chunk_count, chunks_held,
  finish,
}
use autonomi_webrtc_direct_p.Prelude.{codes, ◌++◌}

abbrev pub is_some : {A : Type 0} → Option A → Bool
is_some none = false
is_some (some a) = true

abbrev pub every : {A : Type 0} → (A → Bool) → List A → Bool
every p [] = true
every p (x ∷ xs) = p x && every p xs

-- The elements that pass the test.
abbrev pub select : {A : Type 0} → (A → Bool) → List A → List A
select p [] = []
select p (x ∷ xs) = let rest = select p xs in if p x then x ∷ rest else rest

-- The values that are there.
abbrev pub present : {A : Type 0} → List (Option A) → List A
present [] = []
present (none ∷ os) = present os
present (some a ∷ os) = a ∷ present os

pub record View (c : Crates) : Type 0 where
  pub data_map : c.DataMap
  pub root_resolved : Bool
  pub lookup : XorName → Option c.EncryptedChunk

-- A retrieval, without the way in which its cache is kept.
abbrev pub view : {c : Crates} → Retrieval c → View c
view r = record {
  data_map = r.data_map;
  root_resolved = r.root_resolved;
  lookup = Dict.get r.cache;
}

module _ (c : Crates) where
  abbrev pub holds : View c → c.ChunkInfo → Bool
  holds v info = is_some (v.lookup (c.dst_hash info))

  abbrev pub holds_all : View c → Bool
  holds_all v = every (holds v) (c.infos v.data_map)

  -- The names in the map that are not held.
  abbrev pub view_required : View c → List XorName
  view_required v = map c.dst_hash (select (λ info. not (holds v info)) (c.infos v.data_map))

  abbrev pub view_complete : View c → Bool
  view_complete v = v.root_resolved && holds_all v

  abbrev pub view_held : View c → ℕ
  view_held v = length (select (holds v) (c.infos v.data_map))

  -- A verified chunk is held from then on; anything else changes nothing.
  abbrev pub hold : View c → XorName → c.EncryptedChunk → View c
  hold v address chunk = record v {
    lookup = λ k. if bytes_eq address k then some chunk else v.lookup k;
  }

  abbrev pub view_supply : Bytes → Bytes → Io (Failed c) (View c) (Unit {0})
  view_supply address bytes v =
      if length address == address_len
      then elim (c.verify_chunk address bytes) [
        | ok chunk ↦ (ok tt, hold v address chunk)
        | err e ↦ (err (chunk_unverified (hex address) e), v)
      ]
      else (err address_length, v)

  abbrev pub view_fetch : View c → XorName → Result c.Failure Bytes
  view_fetch v name = elim (v.lookup name) [
    | some chunk ↦ ok (c.content chunk)
    | none ↦ err (c.generic (codes "missing wrapper chunk " ++ hex name))
  ]

  -- A child map all of whose chunks are held is replaced by its root.
  abbrev pub view_advance : Io (Failed c) (View c) (Unit {0})
  view_advance v =
      if v.root_resolved || not (holds_all v)
      then (ok tt, v)
      else elim (c.get_root_data_map v.data_map (view_fetch v)) [
        | ok root ↦ (ok tt, record v { data_map = root; root_resolved = true })
        | err e ↦ (err (root_unresolved e), v)
      ]

  -- The decryption of what is held, if it is all there.
  abbrev pub view_finish : View c → Result (Failed c) Bytes
  view_finish v =
      if view_complete v
      then map_err decryption_failed (
          c.decrypt v.data_map
            (present (map (λ info. v.lookup (c.dst_hash info)) (c.infos v.data_map))))
      else err incomplete

-- All that the methods of a retrieval tell.
pub record Report (c : Crates) : Type 0 where
  pub required : Bytes
  pub complete : Bool
  pub held : ℕ
  pub total : ℕ
  pub result : Result (Failed c) Bytes

abbrev pub report : {c : Crates} → Retrieval c → Report c
report {c} r = record {
  required = required_addresses c r;
  complete = is_complete c r;
  held = chunks_held c r;
  total = chunk_count c r;
  result = finish c r;
}

abbrev pub view_report : {c : Crates} → View c → Report c
view_report {c} v = record {
  required = concat (view_required c v);
  complete = view_complete c v;
  held = view_held c v;
  total = length (c.infos v.data_map);
  result = view_finish c v;
}

-- The calls that change a retrieval.
pub data Call : Type 0 where
  supplying : Bytes → Bytes → Call
  advancing : Call

-- What a sequence of calls returns, with a report after each.
abbrev pub calls :
    {c : Crates} → List Call → Retrieval c → List (Result (Failed c) (Unit {0}) × Report c)
calls [] r = []
calls {c} (supplying address bytes ∷ rest) r =
    let (out, s) = supply c address bytes r in (out, report s) ∷ calls rest s
calls {c} (advancing ∷ rest) r = let (out, s) = advance c r in (out, report s) ∷ calls rest s

abbrev pub view_calls :
    {c : Crates} → List Call → View c → List (Result (Failed c) (Unit {0}) × Report c)
view_calls [] v = []
view_calls {c} (supplying address bytes ∷ rest) v =
    let (out, w) = view_supply c address bytes v in (out, view_report w) ∷ view_calls rest w
view_calls {c} (advancing ∷ rest) v =
    let (out, w) = view_advance c v in (out, view_report w) ∷ view_calls rest w
