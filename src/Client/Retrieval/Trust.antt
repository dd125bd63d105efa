-- ===== src/Client/Retrieval/Trust.antt =====
-- The trust boundary: what a retrieval ends with depends on the address alone, whoever serves it.
pub mod Agreement
use autonomi_webrtc_direct_p.Prelude.{
  ◌≡◌, ◌⊎◌, inl, inr, refl, sym, ap, ◌∙◌, arith, Bool, true, false, not, ◌&&◌, ◌||◌, List, [], ◌∷◌,
  Option, none, some, Bytes, Result, ok, err, bytes_eq, bytes_eq_iff, eq_of_bytes_eq, Bool-cases,
  Option-cases, Result-cases, if◌then◌else◌, ◌>>=◌, length, ◌==◌, map_err,
}
use autonomi_webrtc_direct_p.Prelude.Dict
use autonomi_webrtc_direct_p.Prelude.Dict.{Dict, get-insert}
use autonomi_webrtc_direct_p.Prelude.Effects.{commit}
use autonomi_webrtc_direct_p.Crates.{Crates, CrateLaws, Collision, XorName}
use autonomi_webrtc_direct_p.Client.Errors.{Error}
use autonomi_webrtc_direct_p.Client.Address.{address_len, hex}
use autonomi_webrtc_direct_p.Client.Retrieval.{
  Retrieval, Failed, begin, supply, advance, fetch, is_complete, finish, collect_chunks,
  required_addresses, is_empty,
}
use autonomi_webrtc_direct_p.Client.Retrieval.Cache.{
  IsVerified, IsVerified-empty, fetch_agrees, collect_chunks_agrees, same_or_collision,
}
use autonomi_webrtc_direct_p.Client.Retrieval.Supply.{supply-IsVerified, supply_keeps}

-- One call on a retrieval, successful or not, where `Served` are the bytes that its proxies send.
pub data Step (c : Crates) (Served : Bytes → Type 0) : Retrieval c → Retrieval c → Type 0 where
  supplied :
      (r : Retrieval c) (address bytes : Bytes)
      → Served bytes
      → Step c Served r (supply c address bytes r).1
  advanced : (r : Retrieval c) → Step c Served r (advance c r).1

pub data Reach (c : Crates) (Served : Bytes → Type 0) (r : Retrieval c) : Retrieval c → Type 0 where
  here : Reach c Served r r
  next : {s t : Retrieval c} → Reach c Served r s → Step c Served s t → Reach c Served r t

-- How a retrieval's map comes from the first one: it is that, or the root that the first one, a
-- child map, leads to over verified chunks.
pub data Derived (c : Crates) (Served : Bytes → Type 0) (first : c.DataMap) (r : Retrieval c)
    : Type 0 where
  as_parsed :
      r.data_map ≡ first → r.root_resolved ≡ not (c.is_child first) → Derived c Served first r
  as_resolved :
      (cache : Dict c.EncryptedChunk)
      → IsVerified c Served cache
      → c.is_child first ≡ true
      → c.get_root_data_map first (fetch c cache) ≡ ok r.data_map
      → r.root_resolved ≡ true
      → Derived c Served first r

pub record IsGenuine (c : Crates) (Served : Bytes → Type 0) (address : XorName) (r : Retrieval c)
    : Type 0 where
  pub origin : Bytes
  pub first : c.DataMap
  pub origin_served : Served origin
  pub is_origin : c.hash origin ≡ address
  pub parsed : c.from_slice origin ≡ ok first
  pub verified : IsVerified c Served r.cache
  pub derived : Derived c Served first r

Derived-move :
    {c : Crates} {Served : Bytes → Type 0} {first : c.DataMap} {r : Retrieval c} (s : Retrieval c)
    → s.data_map ≡ r.data_map
    → s.root_resolved ≡ r.root_resolved
    → Derived c Served first r
    → Derived c Served first s
Derived-move s p q (as_parsed x y) = as_parsed (p ∙ x) (q ∙ y)
Derived-move {c} {first} s p q (as_resolved cache v h x y) =
    as_resolved cache v h (x ∙ ap ok (sym p)) (q ∙ y)

module _ (c : Crates) (laws : CrateLaws c) (Served : Bytes → Type 0) where
  pub begin-IsGenuine :
      (address bytes : Bytes) (r : Retrieval c)
      → Served bytes
      → begin c address bytes ≡ ok r
      → IsGenuine c Served address r
  unfolding begin
  begin-IsGenuine address bytes r served h = elim (Bool-cases (length address == address_len)) [
    | inr short ↦ absurd (ground arith)
    | inl long ↦ elim (Result-cases (c.verify_chunk address bytes)) [
      | inr (e, p) ↦ absurd (ground arith)
      | inl (chunk, p) ↦ elim (Result-cases (c.from_slice bytes)) [
        | inr (e, q) ↦ absurd (ground arith)
        | inl (m, q) ↦
            let built : r
                ≡ record { data_map = m; root_resolved = not (c.is_child m); cache = [] } =
              ground arith in
            record {
              origin = bytes;
              origin_served = served;
              first = m;
              is_origin = (laws.verify_chunk_sound address bytes p).0;
              parsed = q;
              verified = rw built (IsVerified-empty c Served);
              derived = as_parsed (ap (λ x. x.data_map) built) (ap (λ x. x.root_resolved) built);
            }
      ]
    ]
  ]

  -- Either `advance` leaves the state, or it puts the root in place of a map that was not one.
  pub advance_cases :
      (r : Retrieval c)
      → ((advance c r).1 ≡ r)
        ⊎ ((m : c.DataMap) × (r.root_resolved ≡ false)
            × (c.get_root_data_map r.data_map (fetch c r.cache) ≡ ok m)
            × ((advance c r).1 ≡ record r { data_map = m; root_resolved = true }))
  unfolding advance
  advance_cases r = elim (Bool-cases (r.root_resolved || not (is_empty (required_addresses c r)))) [
    | inl stay ↦ inl (rw (stay, advance) refl)
    | inr go ↦ elim (Result-cases (c.get_root_data_map r.data_map (fetch c r.cache))) [
      | inr (e, p) ↦ inl (rw (go, advance) (rw p refl))
      | inl (m, p) ↦ inr (m, ground (arith, go), p, rw (go, advance) (rw p refl))
    ]
  ]

  supply-Derived :
      (first : c.DataMap) (address bytes : Bytes) (r : Retrieval c)
      → Derived c Served first r
      → Derived c Served first (supply c address bytes r).1
  supply-Derived first address bytes r d =
      let (p, q) = supply_keeps c laws address bytes r in
      Derived-move (supply c address bytes r).1 p q d

  root-Derived :
      (first m : c.DataMap) (r : Retrieval c)
      → IsVerified c Served r.cache
      → r.root_resolved ≡ false
      → c.get_root_data_map r.data_map (fetch c r.cache) ≡ ok m
      → Derived c Served first r
      → Derived c Served first (record r { data_map = m; root_resolved = true })
  root-Derived first m r v flag root (as_parsed x y) =
      as_resolved r.cache v (child (c.is_child first) y) (rw x at root) refl
    where
      child : (b : Bool) → r.root_resolved ≡ not b → b ≡ true
      child true e = refl
      child false e = cc (flag, e)
  root-Derived first m r v flag root (as_resolved cache w h x y) = absurd (cc (flag, y))

  Step-IsGenuine :
      (address : XorName) {r s : Retrieval c}
      → Step c Served r s
      → IsGenuine c Served address r
      → IsGenuine c Served address s
  Step-IsGenuine address (supplied r a b served) g = record {
    origin = g.origin;
    origin_served = g.origin_served;
    first = g.first;
    is_origin = g.is_origin;
    parsed = g.parsed;
    verified = supply-IsVerified c laws Served a b r served g.verified;
    derived = supply-Derived g.first a b r g.derived;
  }
  Step-IsGenuine address (advanced r) g = elim (advance_cases r) [
    | inl stay ↦ rw stay g
    | inr (m, flag, root, moved) ↦ rw moved (record {
      origin = g.origin;
      origin_served = g.origin_served;
      first = g.first;
      is_origin = g.is_origin;
      parsed = g.parsed;
      verified = g.verified;
      derived = root-Derived g.first m r g.verified flag root g.derived;
    })
  ]

  pub Reach-IsGenuine :
      (address : XorName) {r s : Retrieval c}
      → Reach c Served r s
      → IsGenuine c Served address r
      → IsGenuine c Served address s
  Reach-IsGenuine address here g = g
  Reach-IsGenuine address (next path st) g =
      Step-IsGenuine address st (Reach-IsGenuine address path g)
