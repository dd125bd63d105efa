-- ===== src/Examples/Proxy.antt =====
-- The proxy's theorems on the stream in memory.
use autonomi_webrtc_direct_p.Prelude.{
  ℕ, zero, suc, ap, ◌≤◌, ◌<◌, ◌≡◌, refl, arith, [], ◌∷◌, ◌++◌, Bytes, Result, ok, err, some, length,
  replicate, All,
}
use autonomi_webrtc_direct_p.Prelude.Chunks.{chunks}
use autonomi_webrtc_direct_p.Protocol.{
  max_response_len, max_message_payload, read_request, write_found, write_body, write_pieces,
  drain_to_eof, to_be_bytes,
}
use autonomi_webrtc_direct_p.Protocol.Transport.{
  IoError, transport, wrote, flushed, closed, sent, SentPart,
}
use autonomi_webrtc_direct_p.Protocol.Respond.{found_response, found_events, write_found_outcome}
use autonomi_webrtc_direct_p.Handler.{HandleError, ChunkSource, answer, respond, handle_request}
use autonomi_webrtc_direct_p.Handler.Answers.{Replied, handle_request-Replied, handle_request_ends}
use autonomi_webrtc_direct_p.Examples.Memory.{Memory, memory, memory_laws}

abbrev pub two_bytes : Bytes
two_bytes = 5 ∷ 6 ∷ []

abbrev pub client : ℕ → Memory
client n = record { incoming = replicate 32 7; log = []; writes_left = n }

abbrev pub served : Memory
served = record {
  incoming = [];
  log = wrote (0 ∷ []) ∷ wrote (0 ∷ 0 ∷ 0 ∷ 2 ∷ []) ∷ wrote two_bytes ∷ flushed ∷ closed ∷ [];
  writes_left = 6;
}

abbrev pub get : ChunkSource ℕ
get address = ok (some two_bytes)

pub request_runs : handle_request memory 10 get (client 9) ≡ some (ok tt, served)
unfolding handle_request respond answer read_request write_found write_body write_pieces to_be_bytes
    chunks drain_to_eof
request_runs = refl

handle_request-Replied_example : Replied memory memory_laws get (client 9) (ok tt) served
handle_request-Replied_example =
    handle_request-Replied memory memory_laws 10 get (client 9) served (ok tt) request_runs

handle_request_ends_example :
    (result : Result (HandleError ℕ) (Unit {0}) × Memory) × (handle_request memory 10 get (client 9)
      ≡ some result)
unfolding respond answer read_request write_found write_body write_pieces to_be_bytes chunks
handle_request_ends_example = handle_request_ends memory memory_laws 10 get (client 9) (omega arith)

ones : ℕ → Bytes
ones zero = []
ones (suc n) = 1 ∷ ones n

length-ones : (n : ℕ) → length (ones n) ≡ n
unfolding ones
length-ones zero = refl
length-ones (suc n) = ap suc (length-ones n)

abbrev long_bytes : Bytes
long_bytes = ones 8388609

-- Two bytes for a client that takes all that is written.
write_found_outcome_example :
    ((u : Unit {0})
      → (write_found memory two_bytes (client 9)).0 ≡ ok u
      → (2 ≤ max_response_len)
        × ((write_found memory two_bytes (client 9)).1.log ≡ [] ++ found_events two_bytes)
        × All
            (λ piece. (0 < length piece) × (length piece ≤ max_message_payload))
            (chunks max_message_payload two_bytes)
        × (sent (write_found memory two_bytes (client 9)).1.log ≡ [] ++ found_response two_bytes))
    × ((e : IoError)
        → (write_found memory two_bytes (client 9)).0 ≡ err e
        → SentPart []
            (sent (write_found memory two_bytes (client 9)).1.log)
            (found_response two_bytes))
    × (max_response_len < 2
        → (e : IoError) × (write_found memory two_bytes (client 9) ≡ (err e, client 9)))
write_found_outcome_example = write_found_outcome memory memory_laws two_bytes (client 9)

-- The same theorem where nothing goes through.
oversized : (e : IoError) × (write_found memory long_bytes (client 9) ≡ (err e, client 9))
oversized =
    (write_found_outcome memory memory_laws long_bytes (client 9)).2
      (omega (arith, length-ones 8388609))

cut_off :
    SentPart [] (sent (write_found memory two_bytes (client 1)).1.log) (found_response two_bytes)
unfolding write_found write_body write_pieces chunks
cut_off = (write_found_outcome memory memory_laws two_bytes (client 1)).1 (transport 1) refl

abbrev hasty : Memory
hasty = record { incoming = two_bytes; log = []; writes_left = 9 }
