-- ===== src/Browser/Retrieve/Child.antt =====
-- The loop of `retrieve` on a child map, whose wrappers can all be fetched.
use autonomi_webrtc_direct_p.Prelude.{
  ℕ, suc, ◌≡◌, ◌⊎◌, inl, inr, refl, sym, ap, ◌∙◌, arith, true, false, List, [], ◌∷◌, Option, some,
  Bytes, ok, Option-cases, All,
}
use autonomi_webrtc_direct_p.Prelude.Dict
use autonomi_webrtc_direct_p.Prelude.Dict.{Dict}
use autonomi_webrtc_direct_p.Prelude.Effects.{Io}
use autonomi_webrtc_direct_p.Crates.{Crates, CrateLaws, Collision, XorName}
use autonomi_webrtc_direct_p.Client.Retrieval.{
  Retrieval, advance, fetch, is_complete, is_empty, required_addresses,
}
use autonomi_webrtc_direct_p.Client.Retrieval.Cache.{IsVerified, same_or_collision}
use autonomi_webrtc_direct_p.Client.Retrieval.Progress.{missing, required_nothing_iff}
use autonomi_webrtc_direct_p.Browser.Retrieve.{fetch_required, round, rounds}
use autonomi_webrtc_direct_p.Browser.Retrieve.Flat.{IsFlat, IsFetched, Leaves, lacks, rounds-Leaves}
use autonomi_webrtc_direct_p.Browser.Retrieve.Unstalled.{check_passes_resolved}
use autonomi_webrtc_direct_p.Browser.Retrieve.Fixture.{All-missing, names_long}

module _ (c : Crates) where
  -- The cache has a chunk under the name.
  abbrev pub Kept : Dict c.EncryptedChunk → XorName → Type 0
  Kept cache name = (chunk : c.EncryptedChunk) × (Dict.get cache name ≡ some chunk)

  pub All-Kept :
      (cache : Dict c.EncryptedChunk) (infos : List c.ChunkInfo)
      → missing c cache infos ≡ []
      → All (λ info. Kept cache (c.dst_hash info)) infos
  unfolding missing Dict.contains_key
  All-Kept cache [] h = tt
  All-Kept cache (info ∷ infos) h = elim (Option-cases (Dict.get cache (c.dst_hash info))) [
    | inr (chunk, p) ↦ ((chunk, p), All-Kept cache infos (rw (p, Dict.contains_key) at h))
    | inl p ↦ absurd (cc (rw (p, Dict.contains_key) at h))
  ]

  -- What a verified cache has under the names of these bytes are these bytes, or there is a
  -- collision.
  pub All-fetch :
      (Served Given : Bytes → Type 0) (cache : Dict c.EncryptedChunk)
      (entries : List (XorName × Bytes))
      → IsVerified c Served cache
      → All (λ entry. Kept cache entry.0) entries
      → All (λ entry. c.hash entry.1 ≡ entry.0) entries
      → All (λ entry. Given entry.1) entries
      → All (λ entry. fetch c cache entry.0 ≡ ok entry.1) entries ⊎ Collision c Served Given
  unfolding fetch
  All-fetch Served Given cache [] v k a g = inl tt
  All-fetch Served Given cache ((name, bytes) ∷ rest) v ((chunk, p), ks) (a, more) (g, gs) =
      let (hashed, served) = v.at_key name chunk p in
      elim (same_or_collision c Served Given (c.content chunk) bytes served g (hashed ∙ sym a)) [
        | inr collision ↦ inr collision
        | inl same ↦ elim (All-fetch Served Given cache rest v ks more gs) [
          | inr collision ↦ inr collision
          | inl others ↦ inl (rw (p, fetch) (ap ok same), others)
        ]
      ]

module _ (c : Crates) (laws : CrateLaws c) {E S : Type 0}
    (get_chunk : Bytes → Io E S (Option Bytes)) (Served : Bytes → Type 0)
    (child m : c.DataMap) where
  -- With all wrappers at hand, `advance` puts the root in the place of the child map.
  advance_resolves :
      (r : Retrieval c)
      → IsFlat c laws get_chunk Served child false r
      → lacks c laws get_chunk Served child false r ≡ []
      → c.get_root_data_map child (fetch c r.cache) ≡ ok m
      → advance c r ≡ (ok tt, record r { data_map = m; root_resolved = true })
  unfolding advance required_addresses
  advance_resolves r flat h resolves =
      let nothing : is_empty (required_addresses c r) ≡ true =
        (required_nothing_iff c laws r).1
          (ap (λ k. missing c r.cache (c.infos k)) flat.same_map ∙ h) in
      let root : c.get_root_data_map r.data_map (fetch c r.cache) ≡ ok m =
        ap (λ k. c.get_root_data_map k (fetch c r.cache)) flat.same_map ∙ resolves in
      rw (flat.resolved, advance) (rw nothing (rw root refl))

  -- The first round resolves the map, and the next ones are those of a flat map.
  pub rounds_child :
      (n : ℕ) (s : S) (r : Retrieval c)
      (l : Leaves c laws get_chunk Served child false (fetch_required c get_chunk (s, r)) [])
      → IsFlat c laws get_chunk Served child false r
      → c.get_root_data_map child (fetch c l.retrieval.cache) ≡ ok m
      → All (λ info. IsFetched c laws get_chunk Served m true (c.dst_hash info)) (c.infos m)
      → Leaves c laws get_chunk Served m true (rounds c get_chunk (suc (suc (suc n))) (s, r)) []
  unfolding rounds round is_complete
  rounds_child n s r l flat resolves fetched =
      let t : Retrieval c = record l.retrieval { data_map = m; root_resolved = true } in
      let incomplete : is_complete c r ≡ false = ground (arith, flat.resolved) in
      let advanced = advance_resolves l.retrieval l.flat l.lacking resolves in
      let ran : round c get_chunk (s, r) ≡ (ok tt, (l.state, t)) =
        rw (l.run, round) (rw advanced (check_passes_resolved c get_chunk l.state t refl)) in
      let rest =
        rounds-Leaves c laws get_chunk Served m n l.state t
          (All-missing c laws _ l.retrieval.cache (c.infos m) fetched)
          (All-missing c laws _ l.retrieval.cache (c.infos m) (names_long c laws (c.infos m)))
          (record { same_map = refl; resolved = refl; verified = l.flat.verified }) in
      record {
        state = rest.state;
        retrieval = rest.retrieval;
        run = rw (incomplete, rounds) (rw ran rest.run);
        flat = rest.flat;
        lacking = rest.lacking;
      }
