-- ===== src/Protocol/Request.antt =====
-- The request side of protocol.rs: `read_request` and `drain_to_eof`.
use autonomi_webrtc_direct_p.Prelude.{
  ℕ, zero, suc, ◌<◌, ◌≡◌, refl, sym, ap, ◌∙◌, arith, [], ◌∷◌, ◌++◌, Bytes, Result, ok, err, some,
  length, length-append, inl, inr, ◌⊎◌,
}
use autonomi_webrtc_direct_p.Protocol.{address_len, read_request, drain_to_eof}
use autonomi_webrtc_direct_p.Prelude.Effects.{pure, continue}
use autonomi_webrtc_direct_p.Protocol.Transport.{Stream, StreamLaws, IoError}

continue-pure : {S : Type 0} (r : Result IoError Bytes) (s : S) → continue r pure s ≡ (r, s)
continue-pure (ok a) s = refl
continue-pure (err e) s = refl

module _ (st : Stream) (laws : StreamLaws st) where
  open laws use {log, pending, read_exact_ok, read_exact_log, read_ok, read_eof, read_log}

  pub read_request-read_exact : (s : st.S) → read_request st s ≡ st.read_exact address_len s
  unfolding read_request
  read_request-read_exact s = let (r, s') = st.read_exact address_len s in continue-pure r s'

  -- A request that is read has exactly 32 bytes, the first that the client sent, and the bytes
  -- behind them stay to be read; whatever the outcome, nothing is written.
  pub read_request_lem :
      (s : st.S)
      → ((address : Bytes)
          → (read_request st s).0 ≡ ok address
          → (length address ≡ address_len) × (pending s ≡ address ++ pending (read_request st s).1))
        × (log (read_request st s).1 ≡ log s)
  read_request_lem s =
      rw read_request-read_exact
        ((λ address h. read_exact_ok address_len s h), read_exact_log address_len s)

  -- Draining ends in `s'`, with nothing written, either because the client's side was read to its
  -- end or because a read failed.
  abbrev pub Drained : ℕ → st.S → Type 0
  Drained fuel s =
      (s' : st.S) × (drain_to_eof st fuel s ≡ some s')
      × (log s' ≡ log s)
      × ((pending s' ≡ []) ⊎ ((t : st.S) × (e : IoError) × (st.read 64 t ≡ (err e, s'))))

  drain_step :
      (fuel : ℕ) (s : st.S) (r : Result IoError Bytes)
      → (st.read 64 s).0 ≡ r
      → length (pending s) < suc fuel
      → ((t : st.S) → length (pending t) < fuel → Drained fuel t)
      → Drained (suc fuel) s
  unfolding drain_to_eof
  drain_step fuel s (err e) p h ih = (
    (st.read 64 s).1,
    rw (p, drain_to_eof) refl,
    read_log 64 s,
    inr (s, e, ap (λ r. (r, (st.read 64 s).1)) p),
  )
  drain_step fuel s (ok []) p h ih = (
    (st.read 64 s).1,
    rw (p, drain_to_eof) refl,
    read_log 64 s,
    inl (sym ((read_ok 64 s p).1) ∙ read_eof 64 s (omega arith) p),
  )
  drain_step fuel s (ok (b ∷ bs)) p h ih =
      let t = (st.read 64 s).1 in
      let shorter = ap length ((read_ok 64 s p).1) in
      let (s', run, logged, why) = ih t (omega (arith, shorter, length-append bs (pending t))) in
      (s', rw (p, drain_to_eof) run, logged ∙ read_log 64 s, why)

  -- Draining terminates: with more fuel than the client has bytes left to send it comes to an end,
  -- by the client's end of stream or by a failed read, and writes nothing.
  pub drain_to_eof_ends : (fuel : ℕ) (s : st.S) → length (pending s) < fuel → Drained fuel s
  drain_to_eof_ends zero s h = absurd (omega arith)
  drain_to_eof_ends (suc fuel) s h =
      drain_step fuel s (st.read 64 s).0 refl h (λ t k. drain_to_eof_ends fuel t k)

  drain_log_step :
      (fuel : ℕ) (s s' : st.S) (r : Result IoError Bytes)
      → (st.read 64 s).0 ≡ r
      → ((t : st.S) → drain_to_eof st fuel t ≡ some s' → log s' ≡ log t)
      → drain_to_eof st (suc fuel) s ≡ some s'
      → log s' ≡ log s
  unfolding drain_to_eof
  drain_log_step fuel s s' (err e) p ih h =
      let last : (st.read 64 s).1 ≡ s' = ground arith in rw (← last) (read_log 64 s)
  drain_log_step fuel s s' (ok []) p ih h =
      let last : (st.read 64 s).1 ≡ s' = ground arith in rw (← last) (read_log 64 s)
  drain_log_step fuel s s' (ok (b ∷ bs)) p ih h =
      ih (st.read 64 s).1 (rw (p, drain_to_eof) at h) ∙ read_log 64 s

  -- Draining writes nothing, however long it takes.
  pub log-drain_to_eof :
      (fuel : ℕ) (s s' : st.S) → drain_to_eof st fuel s ≡ some s' → log s' ≡ log s
  log-drain_to_eof zero s s' h = unfold drain_to_eof in absurd (cc h)
  log-drain_to_eof (suc fuel) s s' h =
      drain_log_step fuel s s' (st.read 64 s).0 refl (λ t k. log-drain_to_eof fuel t s' k) h
