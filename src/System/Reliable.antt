-- ===== src/System/Reliable.antt =====
-- On a reliable stream `handle_request` succeeds.

use autonomi_webrtc_direct_p.Prelude.{
  ℕ, ◌≡◌, ◌≤◌, ◌<◌, ◌^◌, refl, sym, ap, ◌∙◌, arith, true, false, List, [], ◌∷◌, ◌++◌, Option, none,
  some, Bytes, Result, ok, err, length, length-append, map_err, ltb,
}
use autonomi_webrtc_direct_p.Prelude.Chunks.{chunks}
use autonomi_webrtc_direct_p.Prelude.Effects.{Io, continue, wrap, ◌>>◌}
use autonomi_webrtc_direct_p.Protocol.{
  address_len, status_not_found, max_response_len, max_message_payload, read_request, write_pieces,
  write_body, write_found, write_status,
}
use autonomi_webrtc_direct_p.Protocol.Transport.{Stream, StreamLaws, IoError}
use autonomi_webrtc_direct_p.Protocol.Request.{
  read_request_lem, read_request-read_exact, drain_to_eof_ends,
}
use autonomi_webrtc_direct_p.Handler.{HandleError, ChunkSource, io, answer, respond, handle_request}
use autonomi_webrtc_direct_p.Browser.Fetch.Receives.{IsShort, same_split}
use autonomi_webrtc_direct_p.System.{IsReliable}

module _ (st : Stream) (laws : StreamLaws st) where
  open laws use {pending}

  -- `m` succeeds, and leaves what the client still sends.
  abbrev Succeeds : {E : Type 0} → Io E st.S (Unit {0}) → Type 0
  Succeeds {E} m = (s : st.S) → ((m s).0 ≡ ok tt) × (pending (m s).1 ≡ pending s)

  then-Succeeds :
      {E : Type 0} (next : Io E st.S (Unit {0})) (s : st.S) (out : Result E (Unit {0}) × st.S)
      → out.0 ≡ ok tt
      → pending out.1 ≡ pending s
      → Succeeds next
      → ((continue out.0 (λ _. next) out.1).0 ≡ ok tt)
        × (pending (continue out.0 (λ _. next) out.1).1 ≡ pending s)
  then-Succeeds next s (ok u, t) e p h = ((h t).0, (h t).1 ∙ p)
  then-Succeeds next s (err x, t) e p h = absurd (cc e)

  Succeeds-then :
      {E : Type 0} (m next : Io E st.S (Unit {0}))
      → Succeeds m
      → Succeeds next
      → Succeeds (m >> next)
  Succeeds-then m next h k s = then-Succeeds next s (m s) (h s).0 (h s).1 k

module _ (st : Stream) (laws : StreamLaws st) (reliable : IsReliable st laws) where
  open laws use {pending}
  open reliable use {write_all_succeeds, flush_succeeds, close_succeeds, read_exact_succeeds}

  Succeeds-write_pieces : (pieces : List Bytes) → Succeeds st laws (write_pieces st pieces)
  unfolding write_pieces
  Succeeds-write_pieces [] s = (refl, refl)
  Succeeds-write_pieces (piece ∷ pieces) s =
      Succeeds-then st laws _ _ (write_all_succeeds piece)
        (Succeeds-then st laws _ _ flush_succeeds (Succeeds-write_pieces pieces)) s

  Succeeds-write_found :
      (bytes : Bytes) → length bytes ≤ max_response_len → Succeeds st laws (write_found st bytes)
  unfolding write_found write_body
  Succeeds-write_found bytes h =
      let narrow : ltb (length bytes) (2 ^ 32) ≡ true = ground arith in
      let fits : ltb max_response_len (length bytes) ≡ false = ground arith in
      rw (narrow, write_found)
        (rw (fits, write_body)
          (Succeeds-then st laws _ _ (write_all_succeeds _) (
            Succeeds-then st laws _ _ (write_all_succeeds _) (
              Succeeds-then st laws _ _ (Succeeds-write_pieces (chunks max_message_payload bytes))
                close_succeeds))))

  Succeeds-write_status : (status : ℕ) → Succeeds st laws (write_status st status)
  unfolding write_status
  Succeeds-write_status status = Succeeds-then st laws _ _ (write_all_succeeds _) close_succeeds

  -- The request is read, and the answer starts behind it.
  read_request_succeeds :
      (s : st.S) (address more : Bytes)
      → length address ≡ address_len
      → pending s ≡ address ++ more
      → ((read_request st s).0 ≡ ok address) × (pending (read_request st s).1 ≡ more)
  read_request_succeeds s address more h e =
      let (bytes, got) =
        read_exact_succeeds address_len s
          (omega (arith, h, ap length e, length-append address more)) in
      let run : (read_request st s).0 ≡ ok bytes =
        ap (λ r. r.0) (read_request-read_exact st laws s) ∙ got in
      let (exact, split) = (read_request_lem st laws s).0 bytes run in
      let (same, rest) = same_split bytes address _ more (sym split ∙ e) (exact ∙ sym h) in
      (run ∙ ap ok same, rest)

module _ (st : Stream) (laws : StreamLaws st) (reliable : IsReliable st laws) {F : Type 0} where
  open laws use {pending}

  Succeeds-wrap :
      (m : Io IoError st.S (Unit {0}))
      → Succeeds st laws m
      → Succeeds st laws (wrap {F = HandleError F} io m)
  Succeeds-wrap m h s = (ok_of (m s).0 (h s).0, (h s).1)
    where
      ok_of : (r : Result IoError (Unit {0})) → r ≡ ok tt → map_err {B = HandleError F} io r ≡ ok tt
      ok_of (ok u) e = refl
      ok_of (err x) e = absurd (cc e)

  Succeeds-answer :
      (found : Option Bytes) → IsShort found → Succeeds st laws (answer st {F = F} found)
  unfolding answer
  Succeeds-answer (some bytes) h =
      Succeeds-wrap (write_found st bytes) (Succeeds-write_found st laws reliable bytes h)
  Succeeds-answer none h =
      Succeeds-wrap (write_status st status_not_found)
        (Succeeds-write_status st laws reliable status_not_found)

  respond_succeeds :
      (get : ChunkSource F) (s : st.S) (address more : Bytes) (found : Option Bytes)
      → length address ≡ address_len
      → pending s ≡ address ++ more
      → get address ≡ ok found
      → IsShort found
      → ((respond st get s).0 ≡ ok tt) × (pending (respond st get s).1 ≡ more)
  unfolding respond
  respond_succeeds get s address more found h e looked_up short =
      let (run, rest) = read_request_succeeds st laws reliable s address more h e in
      let (done, kept) = Succeeds-answer found short (read_request st s).1 in
      rw (run, respond) (rw looked_up (done, kept ∙ rest))

  -- A request for something that the source has, or knows that it has not, is handled without an
  -- error, given more fuel than the client sends bytes behind it.
  pub handle_request_succeeds :
      (fuel : ℕ) (get : ChunkSource F) (s : st.S) (address more : Bytes) (found : Option Bytes)
      → length address ≡ address_len
      → pending s ≡ address ++ more
      → get address ≡ ok found
      → IsShort found
      → length more < fuel
      → (s' : st.S) × (handle_request st fuel get s ≡ some (ok tt, s'))
  unfolding handle_request
  handle_request_succeeds fuel get s address more found h e looked_up short enough =
      let (done, rest) = respond_succeeds get s address more found h e looked_up short in
      let (s', run, _, _) =
        drain_to_eof_ends st laws fuel (respond st get s).1
          (omega (arith, enough, ap length rest)) in
      (s', rw (done, handle_request) (rw run refl))
