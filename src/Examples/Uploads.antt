-- ===== src/Examples/Uploads.antt =====
-- An upload through a shrunk map, and the two loops that retrieve it, on the small crates.
use mathlib.Core.List.Permᴰ
use autonomi_webrtc_direct_p.Prelude.{
  ℕ, ◌≡◌, ◌⊎◌, ◌↔◌, refl, ap, ◌∙◌, true, false, List, [], ◌∷◌, Bytes, Result, ok, length, All,
  bytes_eq, if◌then◌else◌,
}
use mathlib.Core.List.{append-nil}
use autonomi_webrtc_direct_p.Prelude.Chunks.{chunks}
use autonomi_webrtc_direct_p.Prelude.Dict
use autonomi_webrtc_direct_p.Prelude.Dict.{Dict}
use autonomi_webrtc_direct_p.Crates.{Collision}
use autonomi_webrtc_direct_p.Client.Retrieval.{
  begin, supply, advance, fetch, finish, is_complete, required_addresses, collect_chunks,
}
use autonomi_webrtc_direct_p.Client.Upload.{Shrink, ShrinkLaws, upload, wrap_map, store_all}
use autonomi_webrtc_direct_p.Client.Driver.{retrieve_stored, store_get, drive_stored, supply_stored}
use autonomi_webrtc_direct_p.Browser.Retrieve.{retrieve}
use autonomi_webrtc_direct_p.Browser.Retrieve.Driver.Agree.{retrieve_stored_iff}
use autonomi_webrtc_direct_p.Browser.Retrieve.Uploaded.{IsMade, retrieve-upload}
use autonomi_webrtc_direct_p.Browser.Retrieve.Uploaded.Rounds.{IsIn, NamesAll}
use autonomi_webrtc_direct_p.Examples.Toy.{
  toy, toy_laws, toy_upload, ToyMap, toy_hash, toy_from_slice, toy_root, toy_reads_back, sum_from,
}
use autonomi_webrtc_direct_p.Examples.Five.{
  five, five_map, five_chunks, five_child_bytes, five_fixture,
}
use autonomi_webrtc_direct_p.Examples.Retrievals.{name}
use autonomi_webrtc_direct_p.Examples.Browsers.{from_table}

-- The serialized map is the one wrapper.
abbrev pub wrapper : ToyMap → Bytes
wrapper m = (if m.child then 1 else 0) ∷ m.refs

abbrev pub child_of : ToyMap → ToyMap
child_of m = record { child = true; refs = sum_from (if m.child then 1 else 0) m.refs ∷ [] }

abbrev pub wrappers_of : ToyMap → List (Bytes × Bytes)
wrappers_of m = (toy_hash (wrapper m), wrapper m) ∷ []

abbrev pub toy_shrink : Shrink toy
toy_shrink m = ok (child_of m, wrappers_of m)

shrunk :
    (m child : ToyMap) (stored : List (Bytes × Bytes))
    → ◌≡◌ {A = Result ℕ (ToyMap × List (Bytes × Bytes))} (toy_shrink m) (ok (child, stored))
    → (child_of m ≡ child) × (wrappers_of m ≡ stored)
shrunk m child stored h = (cc h, cc h)

one_addressed :
    (m child : ToyMap) (stored : List (Bytes × Bytes))
    → (child_of m ≡ child) × (wrappers_of m ≡ stored)
    → All (λ entry. toy_hash entry.1 ≡ entry.0) stored
one_addressed m child stored (p, q) = rw (← q) (refl, tt)

one_resolves :
    (m child : ToyMap) (stored : List (Bytes × Bytes)) (f : Bytes → Result ℕ Bytes)
    → (child_of m ≡ child) × (wrappers_of m ≡ stored)
    → All (λ entry. f entry.0 ≡ ok entry.1) stored
    → toy_root child f ≡ ok m
one_resolves m child stored f (p, q) answered =
    let (fetched, _) = rw (← q) at answered in
    rw (← p)
      (rw fetched (ap toy_from_slice (append-nil (wrapper m)) ∙ toy_reads_back m (wrapper m) refl))

always_shrunk :
    (m child : ToyMap) (stored : List (Bytes × Bytes))
    → (child_of m ≡ child) × (wrappers_of m ≡ stored)
    → child.child ≡ false
    → child ≡ m
always_shrunk m child stored (p, q) root = absurd (cc (p, root))

pub toy_shrink_laws : ShrinkLaws toy toy_shrink
toy_shrink_laws = record {
  addressed = λ m {child} {stored} h. one_addressed m child stored (shrunk m child stored h);
  resolves =
      λ m f {child} {stored} h is_child. one_resolves m child stored f (shrunk m child stored h);
  unshrunk =
      λ m {child} {stored} h root. always_shrunk m child stored (shrunk m child stored h) root;
}

abbrev store : Dict Bytes
store = (name 16, five_child_bytes) ∷ five_fixture.chunks

uploads : upload toy toy_shrink five true ≡ ok (store, name 16)
unfolding upload wrap_map store_all Dict.insert Dict.remove bytes_eq
uploads = refl

from_store_answers :
    (address : Bytes) (s : ℕ)
    → length address ≡ 32
    → (from_table store address s).0 ≡ ok (Dict.get store address)
from_store_answers address s h = refl

one_level :
    (child : ToyMap) (wrappers : List (Bytes × Bytes))
    → ◌≡◌ {A = Result ℕ (ToyMap × List (Bytes × Bytes))}
        (toy_shrink five_map)
        (ok (child, wrappers))
    → child.child ≡ true
    → NamesAll toy child wrappers
one_level child wrappers h is_child =
    let (p, q) = shrunk five_map child wrappers h in rw (← p) (rw (← q) (Permᴰ.refl (name 15 ∷ [])))

retrieve-upload_example :
    ((retrieve toy (from_table store) (name 16) 0).0 ≡ ok five)
    ⊎ Collision toy (IsIn store) (IsMade toy toy_shrink five_map five_chunks)
retrieve-upload_example =
    retrieve-upload toy toy_laws toy_upload toy_shrink toy_shrink_laws (from_table store) store
      from_store_answers five five_map five_chunks true (name 16) 0 refl refl one_level uploads

driven : retrieve_stored toy store (name 16) ≡ ok five
unfolding retrieve_stored store_get drive_stored supply_stored begin supply advance fetch finish
    is_complete required_addresses collect_chunks Dict.get Dict.contains_key Dict.insert Dict.remove
    bytes_eq chunks
driven = refl

retrieve_stored_iff_example :
    (retrieve_stored toy store (name 16) ≡ ok five)
    ↔ ((retrieve toy (from_table store) (name 16) 0).0 ≡ ok five)
retrieve_stored_iff_example =
    retrieve_stored_iff toy toy_laws (from_table store) store from_store_answers (name 16) five 0

loops_agree : (retrieve toy (from_table store) (name 16) 0).0 ≡ ok five
loops_agree =
    (retrieve_stored_iff toy toy_laws (from_table store) store from_store_answers (name 16) five
        0).0
      driven
