-- ===== src/Handler/Answers.antt =====
-- What a client receives from `handle_request`, on every branch.
use mathlib.Core.Option
use autonomi_webrtc_direct_p.Prelude.{
  ℕ, ◌<◌, ◌≡◌, inl, inr, refl, sym, ap, ap₂, ◌∙◌, arith, List, [], ◌∷◌, ◌++◌, Option, none, some,
  Bytes, Result, ok, err, map_err, length, Result-cases, Option-cases,
}
use autonomi_webrtc_direct_p.Prelude.Effects.{Io, wrap}
use autonomi_webrtc_direct_p.Crates.{XorName}
use autonomi_webrtc_direct_p.Protocol.{address_len, status_not_found, read_request, drain_to_eof}
use autonomi_webrtc_direct_p.Protocol.Transport.{
  Stream, StreamLaws, Event, wrote, closed, sent, SentPart,
}
use autonomi_webrtc_direct_p.Protocol.Rules.{Sends, sent-append}
use autonomi_webrtc_direct_p.Protocol.Respond.{
  found_response, found_events, sent-found_events, Sends-write_found, Sends-write_status,
}
use autonomi_webrtc_direct_p.Protocol.Request.{
  read_request_lem, drain_to_eof_ends, log-drain_to_eof,
}
use autonomi_webrtc_direct_p.Handler.{
  HandleError, io, source, ChunkSource, answer, respond, handle_request,
}

-- The bytes that answer a request, by what the source has at its address.
abbrev pub response : Option Bytes → Bytes
response (some bytes) = found_response bytes
response none = status_not_found ∷ []

abbrev answer_events : Option Bytes → List Event
answer_events (some bytes) = found_events bytes
answer_events none = wrote (status_not_found ∷ []) ∷ closed ∷ []

sent-answer_events : (found : Option Bytes) → sent (answer_events found) ≡ response found
sent-answer_events (some bytes) = sent-found_events bytes
sent-answer_events none = refl

map_err_ok : {E G A : Type 0} (f : E → G) (r : Result E A) {a : A} → map_err f r ≡ ok a → r ≡ ok a
map_err_ok f (ok x) h = cc h
map_err_ok f (err e) h = absurd (cc h)

map_err_err :
    {E G A : Type 0} (f : E → G) (r : Result E A) {g : G}
    → map_err f r ≡ err g
    → (e : E) × (r ≡ err e)
map_err_err f (ok x) h = absurd (cc h)
map_err_err f (err e) h = (e, refl)

module _ (st : Stream) (laws : StreamLaws st) where
  Sends-wrap :
      {E G A : Type 0} (f : E → G) (m : Io E st.S A) (events : List Event)
      → Sends st laws m events
      → Sends st laws (wrap f m) events
  Sends-wrap f m events h = record {
    on_ok = λ s a e. h.on_ok s a (map_err_ok f (m s).0 e);
    on_err = λ s g e. let (x, p) = map_err_err f (m s).0 e in h.on_err s x p;
  }

module _ (st : Stream) (laws : StreamLaws st) where
  open laws use {log}

  log-read_request : (s : st.S) → log (read_request st s).1 ≡ log s
  log-read_request s = (read_request_lem st laws s).1

module _ (st : Stream) (laws : StreamLaws st) {F : Type 0} where
  open laws use {log, pending}

  Sends-answer :
      (found : Option Bytes) → Sends st laws (answer st {F = F} found) (answer_events found)
  unfolding answer
  Sends-answer (some bytes) = Sends-wrap st laws io _ _ (Sends-write_found st laws bytes)
  Sends-answer none = Sends-wrap st laws io _ _ (Sends-write_status st laws status_not_found)

  -- What `get` says of the request that `s` begins with, and the stream behind the request.
  pub record Asked (get : ChunkSource F) (s : st.S) : Type 0 where
    pub address : XorName
    pub found : Option Bytes
    pub exact : length address ≡ address_len
    pub from_client : pending s ≡ address ++ pending (read_request st s).1
    pub looked_up : get address ≡ ok found

  -- Either the request or the source failed, or the answer is what the source has.
  data Outcome (get : ChunkSource F) (s : st.S) : Type 0 where
    failed : (e : HandleError F) → respond st get s ≡ (err e, (read_request st s).1) → Outcome get s
    answered :
        (asked : Asked get s)
        → respond st get s ≡ answer st asked.found (read_request st s).1
        → Outcome get s

  outcome : (get : ChunkSource F) (s : st.S) → Outcome get s
  unfolding respond
  outcome get s = elim (Result-cases (read_request st s).0) [
    | inr (e, p) ↦ failed (io e) (rw (p, respond) refl)
    | inl (address, p) ↦ elim (Result-cases (get address)) [
      | inr (e, q) ↦ failed (source e) (rw (p, respond) (rw q refl))
      | inl (found, q) ↦
          let (exact, from) = (read_request_lem st laws s).0 address p in
          answered
            (record {
              address = address;
              found = found;
              exact = exact;
              from_client = from;
              looked_up = q;
            })
            (rw (p, respond) (rw q refl))
    ]
  ]

  -- What the client has received when `handle_request` returns.
  pub data Replied (get : ChunkSource F) (s : st.S)
      : Result (HandleError F) (Unit {0}) → st.S → Type 0 where
    nothing :
        (e : HandleError F) (s' : st.S) → sent (log s') ≡ sent (log s) → Replied get s (err e) s'
    partly :
        (e : HandleError F) (s' : st.S) (asked : Asked get s)
        → SentPart (sent (log s)) (sent (log s')) (response asked.found)
        → Replied get s (err e) s'
    fully :
        (s' : st.S) (asked : Asked get s)
        → sent (log s') ≡ sent (log s) ++ response asked.found
        → Replied get s (ok tt) s'

  after_drain :
      (fuel : ℕ) (get : ChunkSource F) (s t s' : st.S) (r : Result (HandleError F) (Unit {0}))
      (asked : Asked get s)
      → log t ≡ log s ++ answer_events asked.found
      → Option.map {B = Result (HandleError F) (Unit {0}) × st.S}
          (λ u. (ok tt, u))
          (drain_to_eof st fuel t)
        ≡ some (r, s')
      → Replied get s r s'
  after_drain fuel get s t s' r asked e h = elim (Option-cases (drain_to_eof st fuel t)) [
    | inl p ↦ absurd (ground arith)
    | inr (t', p) ↦
        let same : t' ≡ s' = ground arith in
        let result : ok tt ≡ r = ground arith in
        let logged = log-drain_to_eof st laws fuel t t' p in
        rw (← result) (
          fully s' asked (
            ap (λ u. sent (log u)) (sym same)
            ∙ ap sent (logged ∙ e)
            ∙ sent-append (log s) (answer_events asked.found)
            ∙ ap (λ bs. sent (log s) ++ bs) (sent-answer_events asked.found)))
  ]

  -- The two ways in which `handle_request` ends, by the result of `respond`.
  handle_request_err :
      (fuel : ℕ) (get : ChunkSource F) (s : st.S) (e : HandleError F)
      → (respond st get s).0 ≡ err e
      → handle_request st fuel get s ≡ some (err e, (respond st get s).1)
  unfolding handle_request
  handle_request_err fuel get s e p = rw (p, handle_request) refl

  handle_request_ok :
      (fuel : ℕ) (get : ChunkSource F) (s : st.S) (u : Unit {0})
      → (respond st get s).0 ≡ ok u
      → handle_request st fuel get s
        ≡ Option.map (λ t. (ok tt, t)) (drain_to_eof st fuel (respond st get s).1)
  unfolding handle_request
  handle_request_ok fuel get s u p = rw (p, handle_request) refl

  answered_err :
      (get : ChunkSource F) (s t : st.S) (e : HandleError F) (asked : Asked get s)
      → answer st asked.found (read_request st s).1 ≡ (err e, t)
      → SentPart (sent (log s)) (sent (log t)) (response asked.found)
  answered_err get s t e asked p = rw (← ap (λ x. x.1) p) (
      rw (log-read_request st laws s, sent-answer_events asked.found) at
        ((Sends-answer asked.found).on_err (read_request st s).1 e (ap (λ x. x.0) p)))

  answered_ok :
      (get : ChunkSource F) (s t : st.S) (u : Unit {0}) (asked : Asked get s)
      → answer st {F = F} asked.found (read_request st s).1 ≡ (ok u, t)
      → log t ≡ log s ++ answer_events asked.found
  answered_ok get s t u asked p = rw (← ap (λ x. x.1) p) (
      rw (log-read_request st laws s) at
        ((Sends-answer asked.found).on_ok (read_request st s).1 u (ap (λ x. x.0) p)))

  -- When `handle_request` returns, the client has been sent, on success, exactly the documented
  -- response to what the source holds at the 32 bytes that it asked for; on an error, either
  -- nothing or the start of that response.
  pub handle_request-Replied :
      (fuel : ℕ) (get : ChunkSource F) (s s' : st.S) (r : Result (HandleError F) (Unit {0}))
      → handle_request st fuel get s ≡ some (r, s')
      → Replied get s r s'
  handle_request-Replied fuel get s s' r h = elim (outcome get s) [
    | failed e p ↦
        let run = handle_request_err fuel get s e (ap (λ x. x.0) p) in
        let result : err e ≡ r = ground (arith, run, h) in
        let state : (respond st get s).1 ≡ s' = ground (arith, run, h) in
        rw (← result) (
          nothing e s' (
            ap (λ t. sent (log t)) (sym state ∙ ap (λ x. x.1) p)
            ∙ ap sent (log-read_request st laws s)))
    | answered asked p ↦ elim (Result-cases (respond st get s).0) [
      | inr (e, q) ↦
          let run = handle_request_err fuel get s e q in
          let result : err e ≡ r = ground (arith, run, h) in
          let state : (respond st get s).1 ≡ s' = ground (arith, run, h) in
          rw (← result) (
            partly e s' asked (answered_err get s s' e asked (sym p ∙ ap₂ (λ x y. (x, y)) q state)))
      | inl (u, q) ↦
          after_drain fuel get s (respond st get s).1 s' r asked
            (answered_ok get s (respond st get s).1 u asked
              (sym p ∙ ap (λ x. (x, (respond st get s).1)) q))
            (sym (handle_request_ok fuel get s u q) ∙ h)
    ]
  ]

  -- `handle_request` returns, given more fuel than the client still has bytes to send once it has
  -- been answered.
  pub handle_request_ends :
      (fuel : ℕ) (get : ChunkSource F) (s : st.S)
      → length (pending (respond st get s).1) < fuel
      → (result : Result (HandleError F) (Unit {0}) × st.S) × (handle_request st fuel get s
          ≡ some result)
  unfolding handle_request
  handle_request_ends fuel get s h = elim (Result-cases (respond st get s).0) [
    | inr (e, p) ↦ ((err e, (respond st get s).1), rw (p, handle_request) refl)
    | inl (u, p) ↦
        let (s', run, _, _) = drain_to_eof_ends st laws fuel (respond st get s).1 h in
        ((ok tt, s'), rw (p, handle_request) (rw run refl))
  ]
