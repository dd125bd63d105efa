-- ===== src/Browser/Fetch.antt =====
-- web/src/fetch-client.js: `getChunk`, the browser's side of the one RPC.
pub mod Receives
pub mod Closes
pub mod Keeps
use autonomi_webrtc_direct_p.Prelude.{
  ℕ, ◌+◌, ◌*◌, ◌^◌, Bool, not, true, false, List, [], ◌∷◌, Option, none, some, Bytes, Result, ok,
  err, length, ltb, ◌==◌, if◌then◌else◌,
}
use autonomi_webrtc_direct_p.Prelude.Effects.{Io, pure, raise, wrap, ◌>>=◌, ◌>>◌}
use autonomi_webrtc_direct_p.Browser.Reader.{
  FetchError, address_length, refused, unknown_status, oversized, type_error, library, Incoming,
  Reader, exact_reader, read,
}

abbrev pub address_len : ℕ
address_len = 32

abbrev pub status_ok : ℕ
status_ok = 0x00

abbrev pub status_not_found : ℕ
status_not_found = 0x01

abbrev pub status_refused : ℕ
status_refused = 0x02

abbrev pub max_response_len : ℕ
max_response_len = 8 * 1024 * 1024

-- The libp2p connection, whose exceptions are codes. The iterator of a stream is what it is going to
-- yield from the moment on at which it is read.
pub record Connection : Type 1 where
  pub S : Type 0
  pub Handle : Type 0
  pub new_stream : Io ℕ S Handle
  -- `stream.send`: false if the transport's buffer is full
  pub send : Handle → Bytes → Io ℕ S Bool
  -- waiting for the event `drain`, or for `close` as an exception
  pub drained : Handle → Io ℕ S (Unit {0})
  pub deliveries : Handle → S → Incoming
  pub close : Handle → S → S

-- `DataView.getUint32(0, false)`, which throws on a view that is too short
unfoldable pub get_uint32 : Bytes → Io FetchError Reader ℕ
get_uint32 (a ∷ b ∷ c ∷ d ∷ rest) = pure (a * 2 ^ 24 + b * 2 ^ 16 + c * 2 ^ 8 + d)
get_uint32 _ = raise type_error

-- Behind the header: the test on the length, and the body.
unfoldable pub read_body : ℕ → Io FetchError Reader (Option Bytes)
read_body len =
    if ltb max_response_len len then raise (oversized len) else do body ← read len; pure (some body)

unfoldable pub body_of : Bytes → Io FetchError Reader (Option Bytes)
body_of header = do len ← get_uint32 header; read_body len

unfoldable pub receive_body : Io FetchError Reader (Option Bytes)
receive_body = do header ← read 4; body_of header

-- The tests on the status byte.
unfoldable pub receive_status : Bytes → Io FetchError Reader (Option Bytes)
receive_status [] = raise type_error
receive_status (status ∷ rest) =
    if status == status_not_found
    then pure none
    else (if status == status_refused
        then raise refused
        else (if not (status == status_ok) then raise (unknown_status status) else receive_body))

-- What `getChunk` does once the address is sent.
unfoldable pub receive : Io FetchError Reader (Option Bytes)
receive = do status ← read 1; receive_status status

module _ (connection : Connection) where
  open connection use {S, Handle, new_stream, drained, deliveries, close}

  -- `send(stream, bytes)`
  unfoldable pub send : Handle → Bytes → Io FetchError S (Unit {0})
  send stream bytes = do
    sent ← wrap library (connection.send stream bytes)
    (if sent then pure tt else wrap library (drained stream))

  unfoldable pub receive_from : Handle → Io FetchError S (Option Bytes)
  receive_from stream s = ((receive (exact_reader (deliveries stream s))).0, s)

  -- The `try … finally`: the write side is closed on every way out.
  unfoldable pub exchange : Bytes → Handle → Io FetchError S (Option Bytes)
  exchange address stream s =
      let (r, t) = (send stream address >> receive_from stream) s in (r, close stream t)

  unfoldable pub get_chunk : Bytes → Io FetchError S (Option Bytes)
  get_chunk address =
      if not (length address == address_len)
      then raise (address_length (length address))
      else do stream ← wrap library new_stream; exchange address stream
