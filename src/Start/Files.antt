-- ===== src/Start/Files.antt =====
-- What `dump` writes.
use mathlib.Core.List.{append_assoc, append-nil}
use autonomi_webrtc_direct_p.Prelude.{
  ◌≡◌, ◌≢◌, inl, inr, refl, sym, ap, ◌∙◌, List, [], ◌∷◌, ◌++◌, none, some, Bytes, Result, ok, err,
  map_err, codes, All, bytes_eq, bytes_eq_refl, Bool-cases,
}
use autonomi_webrtc_direct_p.Prelude.Dict
use autonomi_webrtc_direct_p.Prelude.Dict.{Dict}
use autonomi_webrtc_direct_p.Prelude.Effects.{Io, continue, wrap, ◌>>◌}
use autonomi_webrtc_direct_p.Crates.{Crates, XorName}
use autonomi_webrtc_direct_p.Source.{Network, FixtureSource, addresses, fixture_get, Failed}
use autonomi_webrtc_direct_p.Start.{
  Directory, DirectoryLaws, DumpError, file, panicked, Dumping, expect, dump_chunks, dump,
}

-- A name that the dictionary holds.
abbrev IsKey : {V : Type 0} → Dict V → Bytes → Type 0
IsKey {V} d k = (v : V) × (Dict.get d k ≡ some v)

IsKey-cons :
    {V : Type 0} (d : Dict V) (j : Bytes) (v : V) (ks : List Bytes)
    → All (IsKey d) ks
    → All (IsKey ((j, v) ∷ d)) ks
unfolding Dict.get
IsKey-cons d j v [] h = tt
IsKey-cons d j v (k ∷ ks) ((w, h), hs) = elim (Bool-cases (bytes_eq j k)) [
  | inl same ↦ ((v, rw same refl), IsKey-cons d j v ks hs)
  | inr other ↦ ((w, rw other h), IsKey-cons d j v ks hs)
]

keys-IsKey : {V : Type 0} (d : Dict V) → All (IsKey d) (Dict.keys d)
unfolding Dict.keys Dict.get
keys-IsKey [] = tt
keys-IsKey ((j, v) ∷ d) =
    ((v, rw (bytes_eq_refl j) refl), IsKey-cons d j v (Dict.keys d) (keys-IsKey d))

-- A file for every address, with the bytes that the source has there.
unfoldable pub listing : (Bytes → Bytes) → Dict Bytes → List XorName → List (Bytes × Bytes)
listing encode d [] = []
listing encode d (k ∷ ks) =
    let rest = listing encode d ks in
    elim (Dict.get d k) [ some bytes ↦ (encode k, bytes) ∷ rest | none ↦ rest ]

module _ (c : Crates) (n : Network) (d : Directory) (laws : DirectoryLaws d) where
  open laws use {written, create_dir_all_ok, write_ok}

  -- `m` does not panic, and has written `files` when it succeeds.
  pub record Writes {A : Type 0} (source : FixtureSource) (m : Dumping c n d source A)
      (files : List (Bytes × Bytes)) : Type 0 where
    pub no_panic : (s : d.S) → (m s).0 ≢ err panicked
    pub on_ok : (s : d.S) (a : A) → (m s).0 ≡ ok a → written (m s).1 ≡ written s ++ files

  Writes-file :
      (source : FixtureSource) (m : Io d.Failure d.S (Unit {0})) (files : List (Bytes × Bytes))
      → ((s : d.S) (u : Unit {0}) → (m s).0 ≡ ok u → written (m s).1 ≡ written s ++ files)
      → Writes source (wrap file m) files
  Writes-file source m files h = record {
    no_panic = λ s. never (m s).0;
    on_ok = λ s a e. only (m s).0 (λ u p. h s u p) e;
  }
    where
      never :
          (r : Result d.Failure (Unit {0}))
          → map_err {B = DumpError d.Failure (Failed c n)} file r ≢ err panicked
      never (ok u) e = cc e
      never (err x) e = cc e

      only :
          {Q : Type 0} (r : Result d.Failure (Unit {0})) {a : Unit {0}}
          → ((u : Unit {0}) → r ≡ ok u → Q)
          → map_err {B = DumpError d.Failure (Failed c n)} file r ≡ ok a
          → Q
      only (ok u) k e = k u refl
      only (err x) k e = absurd (cc e)

  module _ (source : FixtureSource) (m next : Dumping c n d source (Unit {0}))
      (xs ys : List (Bytes × Bytes)) where
    then_no_panic :
        (out : Result (DumpError d.Failure (Failed c n)) (Unit {0}) × d.S)
        → out.0 ≢ err panicked
        → Writes source next ys
        → (continue out.0 (λ _. next) out.1).0 ≢ err panicked
    then_no_panic (ok u, s) h hn = hn.no_panic s
    then_no_panic (err e, s) h hn = h

    then_ok :
        (s : d.S) (out : Result (DumpError d.Failure (Failed c n)) (Unit {0}) × d.S)
        → ((u : Unit {0}) → out.0 ≡ ok u → written out.1 ≡ written s ++ xs)
        → Writes source next ys
        → (a : Unit {0}) → (continue out.0 (λ _. next) out.1).0 ≡ ok a
        → written (continue out.0 (λ _. next) out.1).1 ≡ written s ++ (xs ++ ys)
    then_ok s (ok u, t) h hn a e =
        hn.on_ok t a e ∙ ap (λ fs. fs ++ ys) (h u refl) ∙ append_assoc (written s) xs ys
    then_ok s (err x, t) h hn a e = absurd (cc e)

    Writes-then : Writes source m xs → Writes source next ys → Writes source (m >> next) (xs ++ ys)
    Writes-then hm hn = record {
      no_panic = λ s. then_no_panic (m s) (hm.no_panic s) hn;
      on_ok = λ s a e. then_ok s (m s) (hm.on_ok s) hn a e;
    }

  dump_chunks-Writes :
      (source : FixtureSource) (ks : List XorName)
      → All (IsKey source.chunks) ks
      → Writes source (dump_chunks c n d source ks) (listing d.encode source.chunks ks)
  unfolding dump_chunks fixture_get expect listing
  dump_chunks-Writes source [] h = record {
    no_panic = λ s e. cc e;
    on_ok = λ s a e. sym (append-nil (written s));
  }
  dump_chunks-Writes source (k ∷ ks) ((v, h), hs) =
      rw (h, dump_chunks, listing)
        (Writes-then source (wrap file (d.write (d.encode k) v)) (dump_chunks c n d source ks)
          ((d.encode k, v) ∷ []) (listing d.encode source.chunks ks)
          (Writes-file source (d.write (d.encode k) v) ((d.encode k, v) ∷ [])
            (λ s u e. write_ok (d.encode k) v s e))
          (dump_chunks-Writes source ks hs))

  -- `dump` never runs into its `expect`; and when it succeeds, it has written, for each address of
  -- the source, one file that is named by the encoded address and holds the source's bytes there,
  -- and behind them the data map's address, encoded, into `data-map-address`.
  pub dump_lem :
      (source : FixtureSource) (s : d.S)
      → ((dump c n d source s).0 ≢ err panicked)
        × ((u : Unit {0})
            → (dump c n d source s).0 ≡ ok u
            → written (dump c n d source s).1
              ≡ written s
                ++ (listing d.encode source.chunks (Dict.keys source.chunks)
                    ++ (codes "data-map-address", d.encode source.data_map_address) ∷ []))
  unfolding dump addresses
  dump_lem source s =
      let whole =
        Writes-then source _ _ [] _
          (Writes-file source d.create_dir_all []
            (λ t u e. create_dir_all_ok t e ∙ sym (append-nil (written t))))
          (Writes-then source _ _ _ _
            (dump_chunks-Writes source (Dict.keys source.chunks) (keys-IsKey source.chunks))
            (Writes-file source
              (d.write (codes "data-map-address") (d.encode source.data_map_address)) _
              (λ t u e. write_ok _ _ t e))) in
      (whole.no_panic s, whole.on_ok s)
