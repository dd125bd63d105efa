-- ===== src/Client/Retrieval/View/Refines.antt =====
-- No sequence of calls tells a retrieval from its view.
use mathlib.Core.Path.{fun_ext}
use autonomi_webrtc_direct_p.Prelude.{
  suc, ◌≡◌, refl, sym, ap, ap₂, ◌∙◌, inl, inr, arith, Bool, true, false, not, ◌&&◌, ◌||◌, List, [],
  ◌∷◌, map, Bytes, Result, ok, length, ◌==◌, concat, Bool-cases, Option-cases, Result-cases,
}
use autonomi_webrtc_direct_p.Prelude.Dict
use autonomi_webrtc_direct_p.Prelude.Dict.{Dict, get-insert}
use autonomi_webrtc_direct_p.Crates.{Crates, CrateLaws, XorName}
use autonomi_webrtc_direct_p.Client.Address.{parse_address, address_len}
use autonomi_webrtc_direct_p.Client.Retrieval.{
  Retrieval, Failed, required_addresses, supply, advance, fetch, is_complete, chunk_count,
  chunks_held, count_held, finish, is_empty, collect_chunks, held_chunk,
}
use autonomi_webrtc_direct_p.Client.Retrieval.Progress.{
  missing, required_addresses-missing, required_nothing_iff,
}
use autonomi_webrtc_direct_p.Client.Retrieval.View.{
  is_some, every, select, present, View, view, holds_all, view_complete, hold, view_supply,
  view_fetch, view_advance, view_finish, report, view_report, Report, Call, supplying, advancing,
  calls, view_calls,
}

module _ (c : Crates) where
  abbrev has : Dict c.EncryptedChunk → c.ChunkInfo → Bool
  has cache info = is_some (Dict.get cache (c.dst_hash info))

  contains_key-has :
      (cache : Dict c.EncryptedChunk) (info : c.ChunkInfo)
      → Dict.contains_key cache (c.dst_hash info) ≡ has cache info
  unfolding Dict.contains_key
  contains_key-has cache info = elim (Option-cases (Dict.get cache (c.dst_hash info))) [
    | inl p ↦ rw (p, Dict.contains_key) refl
    | inr (chunk, p) ↦ rw (p, Dict.contains_key) refl
  ]

  missing-select :
      (cache : Dict c.EncryptedChunk) (infos : List c.ChunkInfo)
      → missing c cache infos ≡ map c.dst_hash (select (λ info. not (has cache info)) infos)
  unfolding missing
  missing-select cache [] = refl
  missing-select cache (info ∷ rest) =
      rw (contains_key-has cache info) (elim (Bool-cases (has cache info)) [
        | inl p ↦ rw p (missing-select cache rest)
        | inr p ↦ rw p (ap (◌∷◌ (c.dst_hash info)) (missing-select cache rest))
      ])

  count_held-select :
      (cache : Dict c.EncryptedChunk) (infos : List c.ChunkInfo)
      → count_held c cache infos ≡ length (select (has cache) infos)
  unfolding count_held
  count_held-select cache [] = refl
  count_held-select cache (info ∷ rest) =
      rw (contains_key-has cache info) (elim (Bool-cases (has cache info)) [
        | inl p ↦ rw p (ap suc (count_held-select cache rest))
        | inr p ↦ rw p (count_held-select cache rest)
      ])

  collect_chunks-present :
      (cache : Dict c.EncryptedChunk) (infos : List c.ChunkInfo)
      → every (has cache) infos ≡ true
      → collect_chunks c cache infos
        ≡ ok (present (map (λ info. Dict.get cache (c.dst_hash info)) infos))
  unfolding collect_chunks
  collect_chunks-present cache [] h = refl
  collect_chunks-present cache (info ∷ rest) h =
      elim (Option-cases (Dict.get cache (c.dst_hash info))) [
        | inl p ↦ absurd (ground (arith, p, h))
        | inr (chunk, p) ↦
            rw (p, held_chunk) (rw (collect_chunks-present cache rest (rw p at h)) refl)
      ]

  abbrev is_nil : List XorName → Bool
  is_nil [] = true
  is_nil (k ∷ ks) = false

  -- Nothing is missing exactly if everything is held.
  every-missing :
      (cache : Dict c.EncryptedChunk) (infos : List c.ChunkInfo)
      → is_nil (missing c cache infos) ≡ every (has cache) infos
  unfolding missing
  every-missing cache [] = refl
  every-missing cache (info ∷ rest) =
      rw (contains_key-has cache info) (elim (Bool-cases (has cache info)) [
        | inl p ↦ rw p (every-missing cache rest)
        | inr p ↦ rw p refl
      ])

module _ (c : Crates) (laws : CrateLaws c) where
  -- The flat list of addresses is empty exactly if all chunks are held.
  is_empty-required : (r : Retrieval c) → is_empty (required_addresses c r) ≡ holds_all c (view r)
  is_empty-required r =
      by_iff (is_empty (required_addresses c r)) (missing c r.cache (c.infos r.data_map))
        (required_nothing_iff c laws r).0 (required_nothing_iff c laws r).1
      ∙ every-missing c r.cache (c.infos r.data_map)
    where
      by_iff :
          (b : Bool) (ks : List XorName)
          → (b ≡ true → ks ≡ [])
          → (ks ≡ [] → b ≡ true)
          → b ≡ is_nil c ks
      by_iff true ks f g = sym (ap (is_nil c) (f refl))
      by_iff false [] f g = g refl
      by_iff false (k ∷ ks) f g = refl

  is_complete-view : (r : Retrieval c) → is_complete c r ≡ view_complete c (view r)
  unfolding is_complete
  is_complete-view r = ap (λ b. r.root_resolved && b) (is_empty-required r)

  finish-view : (r : Retrieval c) → finish c r ≡ view_finish c (view r)
  unfolding finish
  finish-view r = rw (is_complete-view r) (elim (Bool-cases (view_complete c (view r))) [
    | inr lacking ↦ rw lacking refl
    | inl whole ↦
        rw whole
          (rw (collect_chunks-present c r.cache (c.infos r.data_map) (ground (arith, whole))) refl)
  ])

  -- What a retrieval tells is what its view tells.
  pub report-view : (r : Retrieval c) → report r ≡ view_report (view r)
  unfolding chunks_held chunk_count
  report-view r = λ i. record {
    required =
        (required_addresses-missing c r ∙ ap concat (missing-select c r.cache (c.infos r.data_map)))
          i;
    complete = is_complete-view r i;
    held = count_held-select c r.cache (c.infos r.data_map) i;
    total = length (c.infos r.data_map);
    result = finish-view r i;
  }

  hold-view :
      (r : Retrieval c) (address : XorName) (chunk : c.EncryptedChunk)
      → view (record r { cache = Dict.insert r.cache address chunk })
        ≡ hold c (view r) address chunk
  hold-view r address chunk = λ i. record {
    data_map = r.data_map;
    root_resolved = r.root_resolved;
    lookup = fun_ext (λ k. get-insert r.cache address k chunk) i;
  }

  pub supply-view :
      (address bytes : Bytes) (r : Retrieval c)
      → let (out, s) = supply c address bytes r in
        (out, view s) ≡ view_supply c address bytes (view r)
  unfolding supply parse_address
  supply-view address bytes r = elim (Bool-cases (length address == address_len)) [
    | inr short ↦ rw (short, supply) refl
    | inl long ↦
        rw (long, supply)
          (elim (Result-cases (c.verify_chunk address bytes)) [
            | inl (chunk, p) ↦ rw p (ap (λ v. (ok tt, v)) (hold-view r address chunk))
            | inr (e, p) ↦ rw p refl
          ])
  ]

  fetch-view : (r : Retrieval c) → fetch c r.cache ≡ view_fetch c (view r)
  unfolding fetch
  fetch-view r = refl

  advance-view :
      (r : Retrieval c) → let (out, s) = advance c r in (out, view s) ≡ view_advance c (view r)
  unfolding advance
  advance-view r =
      rw (is_empty-required r) (elim (Bool-cases (r.root_resolved || not (holds_all c (view r)))) [
        | inl stay ↦ rw stay refl
        | inr go ↦ rw go (
            rw (fetch-view r)
              (elim (Result-cases (c.get_root_data_map r.data_map (view_fetch c (view r)))) [
                | inl (root, p) ↦ rw p refl
                | inr (e, p) ↦ rw p refl
              ]))
      ])

  calls_step :
      (out : Result (Failed c) (Unit {0}) × Retrieval c)
      (promised : Result (Failed c) (Unit {0}) × View c) (rest : List Call)
      → (out.0, view out.1) ≡ promised
      → calls rest out.1 ≡ view_calls rest (view out.1)
      → ◌≡◌ {A = List (Result (Failed c) (Unit {0}) × Report c)}
          ((out.0, report out.1) ∷ calls rest out.1)
          ((promised.0, view_report promised.1) ∷ view_calls rest promised.1)
  calls_step out promised rest e ih =
      ap₂ (λ x xs. (out.0, x) ∷ xs) (report-view out.1) ih
      ∙ ap (λ p. (p.0, view_report p.1) ∷ view_calls rest p.1) e

  -- No sequence of calls of `supply` and `advance`, with any bytes, tells a retrieval from its view:
  -- each call returns the same, and after each the methods `required_addresses`, `is_complete`,
  -- `chunks_held`, `chunk_count` and `finish` return what the view promises.
  pub calls_refine : (cs : List Call) (r : Retrieval c) → calls cs r ≡ view_calls cs (view r)
  calls_refine [] r = refl
  calls_refine (supplying address bytes ∷ rest) r =
      calls_step (supply c address bytes r) (view_supply c address bytes (view r)) rest
        (supply-view address bytes r) (calls_refine rest (supply c address bytes r).1)
  calls_refine (advancing ∷ rest) r =
      calls_step (advance c r) (view_advance c (view r)) rest (advance-view r)
        (calls_refine rest (advance c r).1)
