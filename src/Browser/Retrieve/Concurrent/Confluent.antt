-- ===== src/Browser/Retrieve/Concurrent/Confluent.antt =====
-- The order in which concurrent fetches end makes no difference.
use autonomi_webrtc_direct_p.Prelude.{
  ℕ, ◌≡◌, refl, sym, ap, ◌∙◌, arith, Bool, true, false, ◌||◌, List, [], ◌∷◌, All, Option, some,
  Bytes, ok, bytes_eq_refl, elem,
}
use autonomi_webrtc_direct_p.Prelude.Effects.{Io}
use autonomi_webrtc_direct_p.Crates.{Crates, CrateLaws, XorName}
use autonomi_webrtc_direct_p.Client.Retrieval.{Retrieval, supply}
use autonomi_webrtc_direct_p.Client.Retrieval.View.{
  view, hold, report, view_report, Call, calls, view_calls,
}
use autonomi_webrtc_direct_p.Client.Retrieval.View.Refines.{supply-view, report-view, calls_refine}
use autonomi_webrtc_direct_p.Browser.Retrieve.{supply_found, supply_one, for_each}
use autonomi_webrtc_direct_p.Browser.Retrieve.Concurrent.{Turns}
use autonomi_webrtc_direct_p.Browser.Retrieve.Concurrent.Supplied.{
  IsAccepted, supplied, supplied-back, supplied_same,
}
use autonomi_webrtc_direct_p.Browser.Retrieve.Concurrent.Progress.{Turns-Progressed}

module _ (c : Crates) (laws : CrateLaws c) (fetched : XorName → Bytes) where
  -- The loop with one worker, over names that are all accepted.
  module _ {E S : Type 0} (get_chunk : Bytes → Io E S (Option Bytes)) where
    -- Any fetch of the name brings its bytes.
    abbrev pub IsBrought : XorName → Type 0
    IsBrought name = (s : S) → (get_chunk name s).0 ≡ ok (some (fetched name))

    record InTurn (items : List XorName) (s : S) (r : Retrieval c) : Type 0 where
      state : S
      retrieval : Retrieval c
      run : for_each c get_chunk items (s, r) ≡ (ok tt, (state, retrieval))
      seen : view retrieval ≡ supplied c laws fetched items (view r)

    for_each-InTurn :
        (items : List XorName) (s : S) (r : Retrieval c)
        → All IsBrought items
        → ((j : XorName) → elem j items ≡ true → IsAccepted c laws fetched j)
        → InTurn items s r
    unfolding for_each supply_one supply_found
    for_each-InTurn [] s r b h = record { state = s; retrieval = r; run = refl; seen = refl }
    for_each-InTurn (name ∷ names) s r (brings, b) h =
        let a = h name (ground (arith, bytes_eq_refl name)) in
        let (t, run, moved) = accepted_supplies a in
        let rest =
          for_each-InTurn names (get_chunk name s).1 t b (λ j there. h j (ground (arith, there))) in
        record {
          state = rest.state;
          retrieval = rest.retrieval;
          run = rw (brings s, for_each) (rw run rest.run);
          seen =
              rest.seen
              ∙ ap (supplied c laws fetched names) moved
              ∙ sym (supplied-back c laws fetched name names (view r) a);
        }
      where
        accepted_supplies :
            (a : IsAccepted c laws fetched name)
            → (t : Retrieval c) × (supply c name (fetched name) r ≡ (ok tt, t))
              × (view t ≡ hold c (view r) name a.chunk)
        accepted_supplies a =
            let promised = supply-view c laws name (fetched name) r in
            let moved = rw a.verified at (rw a.long at promised) in
            (
              (supply c name (fetched name) r).1,
              ap (λ x. (x, (supply c name (fetched name) r).1)) (ap (λ p. p.0) moved),
              ap (λ p. p.1) moved,
            )

    -- One worker succeeds over the same addresses, and all methods return the same on the retrieval
    -- that it leaves and on `t`, at once and after any calls.
    pub record SameAsOne (items : List XorName) (s : S) (r t : Retrieval c) : Type 0 where
      pub state : S
      pub alone : Retrieval c
      pub one_worker : for_each c get_chunk items (s, r) ≡ (ok tt, (state, alone))
      pub same_report : report t ≡ report alone
      pub same_calls : (cs : List Call) → calls cs t ≡ calls cs alone

    -- Where a fetch of one of the addresses brings the same bytes whenever it is made: with any
    -- limit on the fetches in flight, and whatever the order in which they end, the workers that
    -- have come through all addresses leave what a single worker leaves, which then succeeds too:
    -- all methods return the same on both retrievals, at once and after any calls.
    pub Turns-SameAsOne :
        (limit : ℕ) (items : List XorName) (s : S) (r t : Retrieval c)
        → All IsBrought items
        → Turns c fetched limit
            (record { remaining = items; in_flight = []; retrieval = r })
            (record { remaining = []; in_flight = []; retrieval = t })
        → SameAsOne items s r t
    Turns-SameAsOne limit items s r t b turns =
        let g = Turns-Progressed c laws fetched limit items r turns in
        let all_done : (j : XorName) → elem j g.done ≡ elem j items =
          λ j. nothing_else (elem j g.done) ∙ g.accounted j in
        let one = for_each-InTurn items s r b (λ j there. g.accepted j (all_done j ∙ there)) in
        let same : view t ≡ view one.retrieval =
          g.seen ∙ supplied_same c laws fetched g.done items (view r) all_done ∙ sym one.seen in
        record {
          state = one.state;
          alone = one.retrieval;
          one_worker = one.run;
          same_report =
              report-view c laws t ∙ ap view_report same ∙ sym (report-view c laws one.retrieval);
          same_calls = λ cs.
              calls_refine c laws cs t
              ∙ ap (view_calls cs) same
              ∙ sym (calls_refine c laws cs one.retrieval);
        }
      where
        nothing_else : (d : Bool) → d ≡ d || (false || false)
        nothing_else d = ground arith
