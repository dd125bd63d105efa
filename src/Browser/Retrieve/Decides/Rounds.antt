-- ===== src/Browser/Retrieve/Decides/Rounds.antt =====
-- Two rounds complete every retrieval, unless something else fails.
use autonomi_webrtc_direct_p.Prelude.{
  ℕ, suc, ◌≡◌, inl, inr, refl, ap, ◌∙◌, arith, Bool, true, List, [], ◌∷◌, Option, Bytes, Result, ok,
  err, bytes_eq, bytes_eq_iff, eq_of_bytes_eq, Bool-cases, Result-cases, Option-cases,
}
use autonomi_webrtc_direct_p.Client.Errors.{root_unresolved}
use autonomi_webrtc_direct_p.Prelude.Effects.{Io, continue, ◌>>◌}
use autonomi_webrtc_direct_p.Crates.{Crates, CrateLaws, XorName}
use autonomi_webrtc_direct_p.Client.Retrieval.{
  Retrieval, supply, advance, fetch, is_complete, is_empty, required_addresses,
}
use autonomi_webrtc_direct_p.Client.Retrieval.Supply.{supply_accepts, supply_refuses}
use autonomi_webrtc_direct_p.Client.Retrieval.Progress.{
  missing, without, required_addresses-missing, required_nothing_iff,
}
use autonomi_webrtc_direct_p.Client.Retrieval.Finish.{missing-insert}
use autonomi_webrtc_direct_p.Browser.Retrieve.{
  RetrieveError, no_data, chunk_missing, stalled, unresolved, client, fetching, Running, supply_one,
  supply_found, for_each, split_addresses, fetch_required, check_stalled, call, round, rounds,
}
use autonomi_webrtc_direct_p.Browser.Retrieve.Names.{
  Within, Within-without, Within-self, Within-none, split_addresses-concat,
}
use autonomi_webrtc_direct_p.Browser.Retrieve.Unstalled.{check_passes_resolved, rounds_complete}
use autonomi_webrtc_direct_p.Browser.Retrieve.Fixture.{All-missing, names_long}

-- An error that is not the loop's own.
abbrev pub IsForeign : {F E : Type 0} → RetrieveError F E → Type 0
IsForeign stalled = ⊥
IsForeign unresolved = ⊥
IsForeign no_data = Unit {0}
IsForeign (chunk_missing name) = Unit {0}
IsForeign (client e) = Unit {0}
IsForeign (fetching e) = Unit {0}

module _ (c : Crates) (laws : CrateLaws c) {E S : Type 0}
    (get_chunk : Bytes → Io E S (Option Bytes)) where
  -- A run ends in such a retrieval, or with an error that is not the loop's own.
  abbrev pub EndsIn :
      (Retrieval c → Type 0)
      → Result (RetrieveError c.Failure E) (Unit {0}) × (S × Retrieval c)
      → Type 0
  EndsIn Good (ok u, (s, r)) = Good r
  EndsIn Good (err e, (s, r)) = IsForeign e

  EndsIn-continue :
      (Good Better : Retrieval c → Type 0)
      (out : Result (RetrieveError c.Failure E) (Unit {0}) × (S × Retrieval c))
      (k : Running c get_chunk (Unit {0}))
      → EndsIn Good out
      → ((s : S) (r : Retrieval c) → Good r → EndsIn Better (k (s, r)))
      → EndsIn Better (continue out.0 (λ _. k) out.1)
  EndsIn-continue Good Better (ok u, (s, r)) k h next = next s r h
  EndsIn-continue Good Better (err e, (s, r)) k h next = h

  -- A retrieval of this map, which is its root or not, that lacks these names of it.
  record Lacks (m : c.DataMap) (flag : Bool) (names : List XorName) (r : Retrieval c) : Type 0 where
    same_map : r.data_map ≡ m
    same_flag : r.root_resolved ≡ flag
    lacking : missing c r.cache (c.infos m) ≡ names

  supply_one-EndsIn :
      (m : c.DataMap) (flag : Bool) (names : List XorName) (name : XorName) (s : S)
      (r : Retrieval c)
      → Lacks m flag names r
      → EndsIn (Lacks m flag (without c name names)) (supply_one c get_chunk name (s, r))
  unfolding supply_one supply_found
  supply_one-EndsIn m flag names name s r l = elim (Result-cases (get_chunk name s).0) [
    | inr (e, p) ↦ rw (p, supply_one) tt
    | inl (found, p) ↦
        rw (p, supply_one)
          (elim (Option-cases found) [
            | inl nothing ↦ rw nothing tt
            | inr (bytes, there) ↦ rw there (elim (Bool-cases (bytes_eq (c.hash bytes) name)) [
              | inr other ↦
                  let (e, refused) =
                    supply_refuses c laws name bytes r
                      (λ q. cc (other, (bytes_eq_iff (c.hash bytes) name).1 q)) in
                  rw refused tt
              | inl same ↦
                  let hashed = eq_of_bytes_eq (c.hash bytes) name same in
                  let (t, run, stored) = supply_accepts c laws bytes r in
                  let supplied : supply c name bytes r ≡ (ok tt, t) = rw hashed at run in
                  rw supplied (record {
                    same_map = stored.same_map ∙ l.same_map;
                    same_flag = stored.same_flag ∙ l.same_flag;
                    lacking = rw stored.cached (
                        missing-insert c r.cache (c.hash bytes) stored.chunk (c.infos m)
                        ∙ ap (without c (c.hash bytes)) l.lacking
                        ∙ ap (λ k. without c k names) hashed);
                  })
            ])
          ])
  ]

  for_each-EndsIn :
      (m : c.DataMap) (flag : Bool) (names items : List XorName) (s : S) (r : Retrieval c)
      → Lacks m flag names r
      → Within items names
      → EndsIn (Lacks m flag []) (for_each c get_chunk items (s, r))
  unfolding for_each
  for_each-EndsIn m flag names [] s r l within = record {
    same_map = l.same_map;
    same_flag = l.same_flag;
    lacking = l.lacking ∙ Within-none names within;
  }
  for_each-EndsIn m flag names (item ∷ items) s r l within =
      EndsIn-continue (Lacks m flag (without c item names)) (Lacks m flag [])
        (supply_one c get_chunk item (s, r)) (for_each c get_chunk items)
        (supply_one-EndsIn m flag names item s r l)
        (λ s' t l'.
          for_each-EndsIn m flag (without c item names) items s' t l'
            (Within-without c item items names within))

  fetch_required-EndsIn :
      (s : S) (r : Retrieval c)
      → EndsIn (Lacks r.data_map r.root_resolved []) (fetch_required c get_chunk (s, r))
  unfolding fetch_required
  fetch_required-EndsIn s r =
      let names = missing c r.cache (c.infos r.data_map) in
      let split : split_addresses (required_addresses c r) ≡ names =
        ap split_addresses (required_addresses-missing c r)
        ∙ split_addresses-concat names (
            All-missing c laws _ r.cache (c.infos r.data_map)
              (names_long c laws (c.infos r.data_map))) in
      rw split (
        for_each-EndsIn r.data_map r.root_resolved names names s r
          (record { same_map = refl; same_flag = refl; lacking = refl }) (Within-self names))

  -- A round ends with the root map in place, and once that is there with everything at hand.
  pub record Further (flag : Bool) (r : Retrieval c) : Type 0 where
    pub resolved : r.root_resolved ≡ true
    pub complete : flag ≡ true → is_complete c r ≡ true

  nothing_required :
      (m : c.DataMap) (flag : Bool) (r : Retrieval c)
      → Lacks m flag [] r
      → is_empty (required_addresses c r) ≡ true
  nothing_required m flag r l =
      (required_nothing_iff c laws r).1
        (ap (λ k. missing c r.cache (c.infos k)) l.same_map ∙ l.lacking)

  advance-EndsIn :
      (m : c.DataMap) (flag : Bool) (s : S) (r : Retrieval c)
      → Lacks m flag [] r
      → EndsIn (Further flag) (call c get_chunk (advance c) (s, r))
  unfolding advance is_complete required_addresses
  advance-EndsIn m flag s r l =
      let nothing = nothing_required m flag r l in
      elim (Bool-cases r.root_resolved) [
        | inl here ↦
            let stays : advance c r ≡ (ok tt, r) = rw (here, advance) refl in
            rw stays (record { resolved = here; complete = λ _. ground (arith, here, nothing) })
        | inr child ↦ elim (Result-cases (c.get_root_data_map r.data_map (fetch c r.cache))) [
          | inl (root, p) ↦
              let resolves : advance c r
                  ≡ (ok tt, record r { data_map = root; root_resolved = true }) =
                rw (child, advance) (rw nothing (rw p refl)) in
              rw resolves
                (record { resolved = refl; complete = λ h. absurd (cc (h, l.same_flag, child)) })
          | inr (e, p) ↦
              let fails : advance c r ≡ (err (root_unresolved e), r) =
                rw (child, advance) (rw nothing (rw p refl)) in
              rw fails tt
        ]
      ]

  pub round-EndsIn :
      (s : S) (r : Retrieval c) → EndsIn (Further r.root_resolved) (round c get_chunk (s, r))
  unfolding round
  round-EndsIn s r =
      EndsIn-continue (Lacks r.data_map r.root_resolved []) (Further r.root_resolved)
        (fetch_required c get_chunk (s, r))
        (call c get_chunk (advance c) >> check_stalled c get_chunk) (fetch_required-EndsIn s r)
        (λ s' t l.
          EndsIn-continue (Further r.root_resolved) (Further r.root_resolved)
            (call c get_chunk (advance c) (s', t)) (check_stalled c get_chunk)
            (advance-EndsIn r.data_map r.root_resolved s' t l)
            (λ s'' u f. rw (check_passes_resolved c get_chunk s'' u f.resolved) f))

  abbrev pub IsDone : Retrieval c → Type 0
  IsDone r = is_complete c r ≡ true

  rounds_resolved :
      (n : ℕ) (s : S) (r : Retrieval c)
      → r.root_resolved ≡ true
      → EndsIn IsDone (rounds c get_chunk (suc n) (s, r))
  unfolding rounds
  rounds_resolved n s r h = elim (Bool-cases (is_complete c r)) [
    | inl complete ↦ rw (complete, rounds) complete
    | inr incomplete ↦
        rw (incomplete, rounds)
          (EndsIn-continue (Further r.root_resolved) IsDone (round c get_chunk (s, r))
            (rounds c get_chunk n) (round-EndsIn s r)
            (λ s' t f. rw (rounds_complete c get_chunk n s' t (f.complete h)) (f.complete h)))
  ]

  pub rounds-EndsIn :
      (n : ℕ) (s : S) (r : Retrieval c) → EndsIn IsDone (rounds c get_chunk (suc (suc n)) (s, r))
  unfolding rounds
  rounds-EndsIn n s r = elim (Bool-cases (is_complete c r)) [
    | inl complete ↦ rw (complete, rounds) complete
    | inr incomplete ↦
        rw (incomplete, rounds)
          (EndsIn-continue (Further r.root_resolved) IsDone (round c get_chunk (s, r))
            (rounds c get_chunk (suc n)) (round-EndsIn s r)
            (λ s' t f. rounds_resolved n s' t f.resolved))
  ]
