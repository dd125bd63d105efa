-- ===== src/Browser/Retrieve/Flat.antt =====
-- The loop of `retrieve` on a flat data map, whose chunks can all be fetched.
use autonomi_webrtc_direct_p.Prelude.{
  ℕ, suc, ◌≡◌, inl, inr, refl, sym, ap, ◌∙◌, arith, Bool, true, List, [], ◌∷◌, Option, some, Bytes,
  Result, ok, length, Bool-cases, All, concat,
}
use autonomi_webrtc_direct_p.Prelude.Effects.{Io}
use autonomi_webrtc_direct_p.Crates.{Crates, CrateLaws, XorName}
use autonomi_webrtc_direct_p.Client.Retrieval.{
  Retrieval, supply, advance, is_complete, is_empty, required_addresses,
}
use autonomi_webrtc_direct_p.Client.Retrieval.Cache.{IsVerified}
use autonomi_webrtc_direct_p.Client.Retrieval.Supply.{supply_accepts, supply-IsVerified}
use autonomi_webrtc_direct_p.Client.Retrieval.Progress.{
  missing, without, required_addresses-missing, required_nothing_iff,
}
use autonomi_webrtc_direct_p.Client.Retrieval.Finish.{missing-insert}
use autonomi_webrtc_direct_p.Browser.Retrieve.{
  RetrieveError, supply_found, supply_one, for_each, split_addresses, fetch_required, check_stalled,
  round, rounds,
}
use autonomi_webrtc_direct_p.Browser.Retrieve.Names.{
  Within, Within-without, Within-self, Within-none, split_addresses-concat,
}

module _ (c : Crates) (laws : CrateLaws c) {E S : Type 0}
    (get_chunk : Bytes → Io E S (Option Bytes)) (Served : Bytes → Type 0) (first : c.DataMap)
    (flag : Bool) where
  -- A retrieval of this map, which is its root or not, with verified chunks.
  pub record IsFlat (r : Retrieval c) : Type 0 where
    pub same_map : r.data_map ≡ first
    pub resolved : r.root_resolved ≡ flag
    pub verified : IsVerified c Served r.cache

  abbrev pub lacks : Retrieval c → List XorName
  lacks r = missing c r.cache (c.infos first)

  -- The name can be fetched, whatever the state, and what comes hashes to it.
  pub record IsFetched (name : XorName) : Type 0 where
    pub bytes : Bytes
    pub is_hash : c.hash bytes ≡ name
    pub is_served : Served bytes
    pub answers : (s : S) → (get_chunk name s).0 ≡ ok (some bytes)

  -- A run that succeeds, and leaves a flat retrieval that lacks `names`.
  pub record Leaves (out : Result (RetrieveError c.Failure E) (Unit {0}) × (S × Retrieval c))
      (names : List XorName) : Type 0 where
    pub state : S
    pub retrieval : Retrieval c
    pub run : out ≡ (ok tt, (state, retrieval))
    pub flat : IsFlat retrieval
    pub lacking : lacks retrieval ≡ names

  supply_one-Leaves :
      (name : XorName) (s : S) (r : Retrieval c)
      → IsFetched name
      → IsFlat r
      → Leaves (supply_one c get_chunk name (s, r)) (without c name (lacks r))
  unfolding supply_one supply_found
  supply_one-Leaves name s r f flat =
      let (t, run, stored) = supply_accepts c laws f.bytes r in
      let supplied : supply c name f.bytes r ≡ (ok tt, t) = rw f.is_hash at run in
      record {
        state = (get_chunk name s).1;
        retrieval = t;
        run = rw (f.answers s, supply_one) (rw supplied refl);
        flat = record {
          same_map = stored.same_map ∙ flat.same_map;
          resolved = stored.same_flag ∙ flat.resolved;
          verified =
              rw supplied at
                (supply-IsVerified c laws Served name f.bytes r f.is_served flat.verified);
        };
        lacking = rw stored.cached (
            missing-insert c r.cache (c.hash f.bytes) stored.chunk (c.infos first)
            ∙ ap (λ k. without c k (lacks r)) f.is_hash);
      }

  for_each-Leaves :
      (names : List XorName) (s : S) (r : Retrieval c)
      → All IsFetched names
      → IsFlat r
      → Within names (lacks r)
      → Leaves (for_each c get_chunk names (s, r)) []
  unfolding for_each
  for_each-Leaves [] s r fetched flat within = record {
    state = s;
    retrieval = r;
    run = refl;
    flat = flat;
    lacking = Within-none (lacks r) within;
  }
  for_each-Leaves (name ∷ names) s r (f, fs) flat within =
      let l = supply_one-Leaves name s r f flat in
      let rest =
        for_each-Leaves names l.state l.retrieval fs l.flat
          (rw l.lacking (Within-without c name names (lacks r) within)) in
      record {
        state = rest.state;
        retrieval = rest.retrieval;
        run = rw (l.run, for_each) rest.run;
        flat = rest.flat;
        lacking = rest.lacking;
      }

  pub fetch_required-Leaves :
      (s : S) (r : Retrieval c)
      → All IsFetched (lacks r)
      → All (λ k. length k ≡ 32) (lacks r)
      → IsFlat r
      → Leaves (fetch_required c get_chunk (s, r)) []
  unfolding fetch_required
  fetch_required-Leaves s r fetched long flat =
      let names : split_addresses (required_addresses c r) ≡ lacks r =
        ap split_addresses (
          required_addresses-missing c r
          ∙ ap (λ m. concat (missing c r.cache (c.infos m))) flat.same_map)
        ∙ split_addresses-concat (lacks r) long in
      rw names (for_each-Leaves (lacks r) s r fetched flat (Within-self (lacks r)))

module _ (c : Crates) (laws : CrateLaws c) {E S : Type 0}
    (get_chunk : Bytes → Io E S (Option Bytes)) (Served : Bytes → Type 0) (first : c.DataMap) where
  -- Nothing is lacking exactly if a flat retrieval is complete.
  pub complete_of_lacks :
      (r : Retrieval c)
      → IsFlat c laws get_chunk Served first true r
      → lacks c laws get_chunk Served first true r ≡ []
      → is_complete c r ≡ true
  unfolding is_complete
  complete_of_lacks r flat h =
      let nothing : is_empty (required_addresses c r) ≡ true =
        (required_nothing_iff c laws r).1
          (ap (λ m. missing c r.cache (c.infos m)) flat.same_map ∙ h) in
      ground (arith, nothing, flat.resolved)

  lacks_of_complete :
      (r : Retrieval c)
      → IsFlat c laws get_chunk Served first true r
      → is_complete c r ≡ true
      → lacks c laws get_chunk Served first true r ≡ []
  unfolding is_complete
  lacks_of_complete r flat h =
      ap (λ m. missing c r.cache (c.infos m)) (sym flat.same_map)
      ∙ (required_nothing_iff c laws r).0 (ground (arith, h))

  advance_stays :
      (r : Retrieval c) → IsFlat c laws get_chunk Served first true r → advance c r ≡ (ok tt, r)
  unfolding advance
  advance_stays r flat = rw (flat.resolved, advance) refl

  pub check_passes :
      (s : S) (r : Retrieval c)
      → is_complete c r ≡ true
      → check_stalled c get_chunk (s, r) ≡ (ok tt, (s, r))
  unfolding check_stalled
  check_passes s r h = rw (h, check_stalled) refl

  round-Leaves :
      (s : S) (r : Retrieval c)
      → Leaves c laws get_chunk Served first true (fetch_required c get_chunk (s, r)) []
      → Leaves c laws get_chunk Served first true (round c get_chunk (s, r)) []
  unfolding round
  round-Leaves s r l =
      let complete = complete_of_lacks l.retrieval l.flat l.lacking in
      record {
        state = l.state;
        retrieval = l.retrieval;
        run =
            rw (l.run, round)
              (rw (advance_stays l.retrieval l.flat) (check_passes l.state l.retrieval complete));
        flat = l.flat;
        lacking = l.lacking;
      }

  -- One round is enough, and the next one sees that nothing is lacking.
  pub rounds-Leaves :
      (n : ℕ) (s : S) (r : Retrieval c)
      → All
          (IsFetched c laws get_chunk Served first true)
          (lacks c laws get_chunk Served first true r)
      → All (λ k. length k ≡ 32) (lacks c laws get_chunk Served first true r)
      → IsFlat c laws get_chunk Served first true r
      → Leaves c laws get_chunk Served first true (rounds c get_chunk (suc (suc n)) (s, r)) []
  unfolding rounds
  rounds-Leaves n s r fetched long flat = elim (Bool-cases (is_complete c r)) [
    | inl complete ↦ record {
      state = s;
      retrieval = r;
      run = rw (complete, rounds) refl;
      flat = flat;
      lacking = lacks_of_complete r flat complete;
    }
    | inr incomplete ↦
        let l =
          round-Leaves s r
            (fetch_required-Leaves c laws get_chunk Served first true s r fetched long flat) in
        let complete = complete_of_lacks l.retrieval l.flat l.lacking in
        record {
          state = l.state;
          retrieval = l.retrieval;
          run = rw (incomplete, rounds) (rw l.run (rw (complete, rounds) refl));
          flat = l.flat;
          lacking = l.lacking;
        }
  ]
