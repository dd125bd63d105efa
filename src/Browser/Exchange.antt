-- ===== src/Browser/Exchange.antt =====
-- One request, from the browser's `getChunk` to the proxy's `handle_request` and back.
use mathlib.Core.List.{append_assoc, append-nil}
use mathlib.Core.Path.{subst}
use autonomi_webrtc_direct_p.Prelude.{
  ℕ, ◌≤◌, ◌≡◌, refl, sym, ap, ◌∙◌, [], ◌∷◌, ◌++◌, Option, none, some, Bytes, Result, ok, length,
}
use autonomi_webrtc_direct_p.Protocol.{address_len}
use autonomi_webrtc_direct_p.Protocol.Transport.{Stream, StreamLaws, sent}
use autonomi_webrtc_direct_p.Handler.{HandleError, ChunkSource, handle_request}
use autonomi_webrtc_direct_p.Handler.Answers.{
  Asked, Replied, nothing, partly, fully, handle_request-Replied, response,
}
use autonomi_webrtc_direct_p.Browser.Reader.{Incoming, exact_reader}
use autonomi_webrtc_direct_p.Browser.Reader.Exact.{text}
use autonomi_webrtc_direct_p.Browser.Fetch.{max_response_len, status_ok, status_not_found, receive}
use autonomi_webrtc_direct_p.Browser.Fetch.Receives.{
  IsShort, Received, absent, present, receive-Received, receive-response, same_response, same_split,
}

received_nothing :
    (incoming : Incoming) (lost : Bytes) (found : Option Bytes)
    → [] ≡ text incoming ++ lost
    → ¬ ((receive (exact_reader incoming)).0 ≡ ok found)
unfolding exact_reader
received_nothing incoming lost found e got =
    go found (receive-Received (exact_reader incoming) found refl got)
  where
    go : (o : Option Bytes) → ¬ Received (exact_reader incoming) o
    go _ (absent back p) =
        let q : [] ≡ (status_not_found ∷ back) ++ lost = rw p at e in absurd (cc q)
    go _ (present header body back r p _ _) =
        let q : [] ≡ (status_ok ∷ (header ++ (body ++ back))) ++ lost = rw p at e in absurd (cc q)

module _ (st : Stream) (laws : StreamLaws st) {F : Type 0} where
  open laws use {log, pending}

  -- No chunk of the source is longer than what `write_found` sends.
  abbrev pub IsModest : ChunkSource F → Type 0
  IsModest get = (name bytes : Bytes) → get name ≡ ok (some bytes) → length bytes ≤ max_response_len

  pub IsShort-found :
      (get : ChunkSource F) (name : Bytes) (found : Option Bytes)
      → IsModest get
      → get name ≡ ok found
      → IsShort found
  IsShort-found get name none modest e = tt
  IsShort-found get name (some bytes) modest e = modest name bytes e

  -- The address that the handler has read is the one that the browser has sent.
  same_address :
      (get : ChunkSource F) (s : st.S) (address more : Bytes) (asked : Asked st laws get s)
      → length address ≡ address_len
      → pending s ≡ address ++ more
      → asked.address ≡ address
  same_address get s address more asked h e =
      (same_split asked.address address _ more (sym asked.from_client ∙ e) (asked.exact ∙ sym h)).0

  looked_up_part :
      (get : ChunkSource F) (s : st.S) (address more rest : Bytes) (incoming : Incoming)
      (found : Option Bytes) (asked : Asked st laws get s)
      → IsModest get
      → length address ≡ address_len
      → pending s ≡ address ++ more
      → response asked.found ≡ text incoming ++ rest
      → (receive (exact_reader incoming)).0 ≡ ok found
      → get address ≡ ok found
  unfolding exact_reader
  looked_up_part get s address more rest incoming found asked modest h e split got =
      let same =
        same_response (exact_reader incoming) found asked.found rest
          (IsShort-found get asked.address asked.found modest asked.looked_up) split
          (receive-Received (exact_reader incoming) found refl got) in
      ap get (sym (same_address get s address more asked h e)) ∙ asked.looked_up ∙ ap ok (sym same)

  -- What is returned is what the source has.
  receive-handle_request :
      (fuel : ℕ) (get : ChunkSource F) (s s' : st.S) (r : Result (HandleError F) (Unit {0}))
      (address more lost : Bytes) (incoming : Incoming) (found : Option Bytes)
      → IsModest get
      → length address ≡ address_len
      → pending s ≡ address ++ more
      → sent (log s) ≡ []
      → handle_request st fuel get s ≡ some (r, s')
      → sent (log s') ≡ text incoming ++ lost
      → (receive (exact_reader incoming)).0 ≡ ok found
      → get address ≡ ok found
  receive-handle_request fuel get s s' r address more lost incoming found modest h e fresh run
        arrived got =
      go r s' (handle_request-Replied st laws fuel get s s' r run) arrived
    where
      go :
          (r : Result (HandleError F) (Unit {0})) (s' : st.S)
          → Replied st laws get s r s'
          → sent (log s') ≡ text incoming ++ lost
          → get address ≡ ok found
      go _ _ (nothing x t p) a =
          absurd (received_nothing incoming lost found (sym fresh ∙ sym p ∙ a) got)
      go _ _ (partly x t asked p) a =
          let after : text incoming ++ lost ≡ p.part =
            sym a ∙ p.is_sent ∙ ap (λ bs. bs ++ p.part) fresh in
          looked_up_part get s address more (lost ++ p.rest) incoming found asked modest h e
            (p.is_part
              ∙ ap (λ bs. bs ++ p.rest) (sym after)
              ∙ append_assoc (text incoming) lost p.rest)
            got
      go _ _ (fully t asked p) a =
          looked_up_part get s address more lost incoming found asked modest h e
            (ap (λ bs. bs ++ response asked.found) (sym fresh) ∙ sym p ∙ a) got

  -- Something is returned if nothing fails.
  pub receive-handle_request_ok :
      (fuel : ℕ) (get : ChunkSource F) (s s' : st.S) (u : Unit {0}) (address more : Bytes)
      (incoming : Incoming)
      → IsModest get
      → length address ≡ address_len
      → pending s ≡ address ++ more
      → sent (log s) ≡ []
      → handle_request st fuel get s ≡ some (ok u, s')
      → sent (log s') ≡ text incoming
      → (found : Option Bytes) × ((receive (exact_reader incoming)).0 ≡ ok found)
        × (get address ≡ ok found)
  unfolding exact_reader
  receive-handle_request_ok fuel get s s' u address more incoming modest h e fresh run arrived =
      go (ok u) s' (handle_request-Replied st laws fuel get s s' (ok u) run) refl arrived
    where
      go :
          (r : Result (HandleError F) (Unit {0})) (s' : st.S)
          → Replied st laws get s r s'
          → r ≡ ok u
          → sent (log s') ≡ text incoming
          → (found : Option Bytes) × ((receive (exact_reader incoming)).0 ≡ ok found)
            × (get address ≡ ok found)
      go _ _ (nothing x t p) q a = absurd (cc q)
      go _ _ (partly x t asked p) q a = absurd (cc q)
      go _ _ (fully t asked p) q a = (
        asked.found,
        receive-response (exact_reader incoming) asked.found refl
            (IsShort-found get asked.address asked.found modest asked.looked_up)
            (sym a ∙ p ∙ ap (λ bs. bs ++ response asked.found) fresh),
        ap get (sym (same_address get s address more asked h e)) ∙ asked.looked_up,
      )

  -- If the browser has sent an address of 32 bytes on a new stream, the proxy has handled the
  -- stream, successfully or not, from a source whose chunks are not longer than `max_response_len`,
  -- and what reaches the browser, in deliveries of any sizes, is what the proxy has sent or the
  -- start of that, then whatever `getChunk` returns is what the source has at the address: a
  -- response that was cut off is never taken for another one. And if the proxy has succeeded and all
  -- that it has sent arrives, `getChunk` does return that.
  pub receive-handle_request_lem :
      (fuel : ℕ) (get : ChunkSource F) (s s' : st.S) (r : Result (HandleError F) (Unit {0}))
      (address more lost : Bytes) (incoming : Incoming)
      → IsModest get
      → length address ≡ address_len
      → pending s ≡ address ++ more
      → sent (log s) ≡ []
      → handle_request st fuel get s ≡ some (r, s')
      → sent (log s') ≡ text incoming ++ lost
      → ((found : Option Bytes)
          → (receive (exact_reader incoming)).0 ≡ ok found
          → get address ≡ ok found)
        × (r ≡ ok tt
            → lost ≡ []
            → (found : Option Bytes) × ((receive (exact_reader incoming)).0 ≡ ok found)
              × (get address ≡ ok found))
  receive-handle_request_lem fuel get s s' r address more lost incoming modest h e fresh run
        arrived =
      (
        λ found.
            receive-handle_request fuel get s s' r address more lost incoming found modest h e fresh
              run arrived,
        λ success whole.
            receive-handle_request_ok fuel get s s' tt address more incoming modest h e fresh
              (subst (λ q. handle_request st fuel get s ≡ some (q, s')) success run)
              (arrived ∙ ap (λ bs. text incoming ++ bs) whole ∙ append-nil (text incoming)),
      )
