-- ===== src/Browser/Retrieve/Concurrent/Ends.antt =====
-- The workers come through all addresses, and then there is nothing left to do.
use autonomi_webrtc_direct_p.Prelude.{
  ℕ, suc, ◌+◌, ◌*◌, ◌≡◌, ◌<◌, refl, sym, ap, ◌∙◌, arith, true, ◌||◌, List, [], ◌∷◌, Bytes, length,
  length-append, bytes_eq_refl, elem,
}
use autonomi_webrtc_direct_p.Crates.{Crates, CrateLaws, XorName}
use autonomi_webrtc_direct_p.Client.Retrieval.{Retrieval}
use autonomi_webrtc_direct_p.Client.Retrieval.Supply.{supply_accepts}
use autonomi_webrtc_direct_p.Browser.Retrieve.Concurrent.{
  Pool, Turn, takes, ends, Turns, none_yet, and_then,
}
use autonomi_webrtc_direct_p.Browser.Retrieve.Concurrent.Progress.{Turns-Progressed}

module _ (c : Crates) (laws : CrateLaws c) (fetched : XorName → Bytes) where
  abbrev pub turns_made : {limit : ℕ} {p q : Pool c} → Turns c fetched limit p q → ℕ
  turns_made none_yet = 0
  turns_made (and_then before turn) = suc (turns_made before)

  -- Each address takes two turns.
  turns_counted :
      (limit : ℕ) (items : List XorName) (r : Retrieval c) {p : Pool c}
      (turns : Turns c fetched limit
        (record { remaining = items; in_flight = []; retrieval = r })
        p)
      → turns_made turns + (2 * length p.remaining + length p.in_flight) ≡ 2 * length items
  turns_counted limit items r none_yet = omega arith
  turns_counted limit items r (and_then before (takes a room left flying same)) =
      omega (arith, turns_counted limit items r before, ap length left, ap length flying)
  turns_counted limit items r (and_then before (ends a xs ys flew flies same run)) = omega (
    arith,
    turns_counted limit items r before,
    ap length flew,
    ap length flies,
    ap length same,
    length-append xs (a ∷ ys),
    length-append xs ys,
  )

  -- All addresses are done, after two turns for each; or there is a turn to make.
  pub data GoesOn (limit : ℕ) (items : List XorName) (p : Pool c) (made : ℕ) : Type 0 where
    all_done :
        p.remaining ≡ [] → p.in_flight ≡ [] → made ≡ 2 * length items → GoesOn limit items p made
    turn_left :
        (q : Pool c)
        → Turn c fetched limit p q
        → made < 2 * length items
        → GoesOn limit items p made

  -- Where every fetch brings bytes that hash to its address, and at least one fetch may be in
  -- flight, the workers are never stuck: after any turns, either all addresses are done, and the
  -- turns were two for each, or there were fewer and another turn can be made.
  pub Turns-GoesOn :
      (limit : ℕ) (items : List XorName) (r : Retrieval c) (p : Pool c)
      (genuine : (j : XorName) → elem j items ≡ true → c.hash (fetched j) ≡ j)
      → 0 < limit
      → (turns : Turns c fetched limit
          (record { remaining = items; in_flight = []; retrieval = r })
          p)
      → GoesOn limit items p (turns_made turns)
  Turns-GoesOn limit items r p genuine some_limit turns = go p.in_flight p.remaining refl refl
    where
      go :
          (flying left : List XorName)
          → p.in_flight ≡ flying
          → p.remaining ≡ left
          → GoesOn limit items p (turns_made turns)
      go [] [] f l =
          all_done l f (omega (arith, turns_counted limit items r turns, ap length f, ap length l))
      go [] (a ∷ rest) f l =
          turn_left
            (record { remaining = rest; in_flight = a ∷ p.in_flight; retrieval = p.retrieval })
            (takes a (omega (arith, some_limit, ap length f)) l refl refl)
            (omega (arith, turns_counted limit items r turns, ap length f, ap length l))
      go (a ∷ rest) left f l =
          let g = Turns-Progressed c laws fetched limit items r turns in
          let there : elem a items ≡ true =
            sym (g.accounted a)
            ∙ ap (λ xs. elem a g.done || (elem a xs || elem a p.remaining)) f
            ∙ ground (arith, bytes_eq_refl a) in
          let (t, run, _) = supply_accepts c laws (fetched a) p.retrieval in
          turn_left (record { remaining = p.remaining; in_flight = rest; retrieval = t })
            (ends a [] rest f refl refl (rw (genuine a there) at run))
            (omega (arith, turns_counted limit items r turns, ap length f, ap length l))
