-- ===== src/Protocol/Respond.antt =====
-- The response side of protocol.rs: what `write_found` and `write_status` hand to the transport.
use mathlib.Core.List.{append-nil}
use autonomi_webrtc_direct_p.Prelude.{
  ℕ, ◌^◌, ◌≤◌, ◌<◌, ◌≡◌, refl, ap, ◌∙◌, arith, List, [], ◌∷◌, ◌++◌, Bytes, ok, err, length, concat,
  All, ltb, inl, inr, Bool-cases, ltb→lt, lt→ltb,
}
use autonomi_webrtc_direct_p.Prelude.Chunks.{chunks, concat-chunks, chunks_bounds}
use autonomi_webrtc_direct_p.Protocol.{
  status_ok, max_message_payload, max_response_len, to_be_bytes, write_pieces, write_body,
  write_found, write_status,
}
use autonomi_webrtc_direct_p.Protocol.Transport.{
  Stream, StreamLaws, IoError, invalid_data, Event, wrote, flushed, closed, sent, SentPart,
}
use autonomi_webrtc_direct_p.Protocol.Rules.{
  Sends, Sends-pure, Sends-raise, Sends-write_all, Sends-flush, Sends-close, Sends-bind,
  sent-append,
}

-- The response format of the module's documentation: `0x00 | u32be | data`.
abbrev pub found_response : Bytes → Bytes
found_response bytes = status_ok ∷ (to_be_bytes (length bytes) ++ bytes)

abbrev pub piece_events : List Bytes → List Event
piece_events [] = []
piece_events (piece ∷ pieces) = wrote piece ∷ flushed ∷ piece_events pieces

-- Status, length, every piece with a flush behind it, and the close.
abbrev pub found_events : Bytes → List Event
found_events bytes =
    wrote (status_ok ∷ [])
    ∷ wrote (to_be_bytes (length bytes))
    ∷ (piece_events (chunks max_message_payload bytes) ++ (closed ∷ []))

sent-piece_events : (pieces : List Bytes) → sent (piece_events pieces) ≡ concat pieces
sent-piece_events [] = refl
sent-piece_events (piece ∷ pieces) = ap (λ bs. piece ++ bs) (sent-piece_events pieces)

pub sent-found_events : (bytes : Bytes) → sent (found_events bytes) ≡ found_response bytes
unfolding to_be_bytes
sent-found_events bytes =
    ap (λ bs. status_ok ∷ (to_be_bytes (length bytes) ++ bs))
      (sent-append (piece_events (chunks max_message_payload bytes)) (closed ∷ [])
        ∙ append-nil (sent (piece_events (chunks max_message_payload bytes)))
        ∙ sent-piece_events (chunks max_message_payload bytes)
        ∙ concat-chunks max_message_payload bytes (omega arith))

module _ (st : Stream) (laws : StreamLaws st) where
  open laws use {log}

  Sends-write_pieces :
      (pieces : List Bytes) → Sends st laws (write_pieces st pieces) (piece_events pieces)
  unfolding write_pieces
  Sends-write_pieces [] = Sends-pure st laws tt
  Sends-write_pieces (piece ∷ pieces) =
      Sends-bind st laws _ _ _ _ (Sends-write_all st laws piece)
        (λ _. Sends-bind st laws _ _ _ _ (Sends-flush st laws) (λ _. Sends-write_pieces pieces))

  Sends-write_body :
      (bytes : Bytes) → Sends st laws (write_body st (length bytes) bytes) (found_events bytes)
  unfolding write_body
  Sends-write_body bytes = elim (Bool-cases (ltb max_response_len (length bytes))) [
    | inl over ↦ rw over (Sends-raise st laws _ (found_events bytes))
    | inr fits ↦ rw fits (
        Sends-bind st laws _ _ _ _ (Sends-write_all st laws _) (λ _.
          Sends-bind st laws _ _ _ _ (Sends-write_all st laws _) (λ _.
            Sends-bind st laws _ _ _ _ (Sends-write_pieces (chunks max_message_payload bytes))
              (λ _. Sends-close st laws))))
  ]

  pub Sends-write_found :
      (bytes : Bytes) → Sends st laws (write_found st bytes) (found_events bytes)
  unfolding write_found
  Sends-write_found bytes = elim (Bool-cases (ltb (length bytes) (2 ^ 32))) [
    | inl fits ↦ rw (fits, write_found) (Sends-write_body bytes)
    | inr over ↦ rw (over, write_found) (Sends-raise st laws _ (found_events bytes))
  ]

  -- Too long a response.
  write_found_oversize :
      (bytes : Bytes) (s : st.S)
      → max_response_len < length bytes
      → (e : IoError) × (write_found st bytes s ≡ (err e, s))
  unfolding write_found write_body
  write_found_oversize bytes s h = elim (Bool-cases (ltb (length bytes) (2 ^ 32))) [
    | inl fits ↦ (
      invalid_data "chunk exceeds maximum response length",
      rw (fits, write_found) (rw (lt→ltb max_response_len (length bytes) h, write_body) refl),
    )
    | inr over ↦ (invalid_data "chunk exceeds u32 length", rw (over, write_found) refl)
  ]

  -- Success.
  write_found_lem :
      (bytes : Bytes) (s : st.S) (u : Unit {0})
      → (write_found st bytes s).0 ≡ ok u
      → (length bytes ≤ max_response_len)
        × (log (write_found st bytes s).1 ≡ log s ++ found_events bytes)
        × All
            (λ piece. (0 < length piece) × (length piece ≤ max_message_payload))
            (chunks max_message_payload bytes)
        × (sent (log (write_found st bytes s).1) ≡ sent (log s) ++ found_response bytes)
  write_found_lem bytes s u h = (
    fits,
    (Sends-write_found bytes).on_ok s u h,
    chunks_bounds max_message_payload bytes (omega arith),
    ap sent ((Sends-write_found bytes).on_ok s u h)
        ∙ sent-append (log s) (found_events bytes)
        ∙ ap (λ bs. sent (log s) ++ bs) (sent-found_events bytes),
  )
    where
      fits : length bytes ≤ max_response_len
      fits = elim (Bool-cases (ltb max_response_len (length bytes))) [
        | inl over ↦ cc (h, (write_found_oversize bytes s (ltb→lt _ _ over)).1)
        | inr under ↦ ground (arith, under)
      ]

  -- Failure.
  write_found_prefix :
      (bytes : Bytes) (s : st.S) (e : IoError)
      → (write_found st bytes s).0 ≡ err e
      → SentPart (sent (log s)) (sent (log (write_found st bytes s).1)) (found_response bytes)
  write_found_prefix bytes s e h =
      rw (sent-found_events bytes) at ((Sends-write_found bytes).on_err s e h)

  pub Sends-write_status :
      (status : ℕ) → Sends st laws (write_status st status) (wrote (status ∷ []) ∷ closed ∷ [])
  unfolding write_status
  Sends-write_status status =
      Sends-bind st laws _ _ _ _ (Sends-write_all st laws _) (λ _. Sends-close st laws)

  -- When `write_found` succeeds, the data was at most `max_response_len` bytes long; the stream has
  -- been given the status byte, the length, the data in pieces of 1 to `max_message_payload` bytes
  -- with a flush behind each, and the close, in this order; and the bytes are the documented
  -- response. However it fails, what it has sent is the start of that response. Data that is too
  -- long is refused with an error, and the stream is as it was.
  pub write_found_outcome :
      (bytes : Bytes) (s : st.S)
      → ((u : Unit {0})
          → (write_found st bytes s).0 ≡ ok u
          → (length bytes ≤ max_response_len)
            × (log (write_found st bytes s).1 ≡ log s ++ found_events bytes)
            × All
                (λ piece. (0 < length piece) × (length piece ≤ max_message_payload))
                (chunks max_message_payload bytes)
            × (sent (log (write_found st bytes s).1) ≡ sent (log s) ++ found_response bytes))
        × ((e : IoError)
            → (write_found st bytes s).0 ≡ err e
            → SentPart
                (sent (log s))
                (sent (log (write_found st bytes s).1))
                (found_response bytes))
        × (max_response_len < length bytes → (e : IoError) × (write_found st bytes s ≡ (err e, s)))
  write_found_outcome bytes s =
      (write_found_lem bytes s, write_found_prefix bytes s, write_found_oversize bytes s)
