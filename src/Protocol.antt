-- ===== src/Protocol.antt =====
-- crates/proxy/src/protocol.rs: the one RPC spoken on a data channel.
pub mod Transport
pub mod Rules
pub mod Respond
pub mod Request
use autonomi_webrtc_direct_p.Prelude.{
  ℕ, zero, suc, ◌-◌, ◌*◌, ◌/◌, ◌%◌, ◌^◌, List, [], ◌∷◌, Option, none, some, Bytes, Result, ok, err,
  length, ltb, if◌then◌else◌,
}
use autonomi_webrtc_direct_p.Prelude.Chunks.{chunks}
use Transport.{Stream, IoError, invalid_data}
use autonomi_webrtc_direct_p.Prelude.Effects.{Io, pure, raise, ◌>>=◌, ◌>>◌}

abbrev pub address_len : ℕ
address_len = 32

abbrev pub status_ok : ℕ
status_ok = 0x00

abbrev pub status_not_found : ℕ
status_not_found = 0x01

abbrev pub status_refused : ℕ
status_refused = 0x02

abbrev pub max_message_payload : ℕ
max_message_payload = 16 * 1024 - 64

abbrev pub max_response_len : ℕ
max_response_len = 8 * 1024 * 1024

-- `u32::to_be_bytes`
unfoldable pub to_be_bytes : ℕ → Bytes
to_be_bytes n = (n / 2 ^ 24 % 256) ∷ (n / 2 ^ 16 % 256) ∷ (n / 2 ^ 8 % 256) ∷ (n % 256) ∷ []

-- `u32::try_from(usize)`
unfoldable pub u32_try_from : ℕ → Option ℕ
u32_try_from n = if ltb n (2 ^ 32) then some n else none

module _ (st : Stream) where
  open st use {S, read_exact, read, write_all, flush, close}

  unfoldable pub read_request : Io IoError S Bytes
  read_request = do address ← read_exact address_len; pure address

  -- The loop over `data.chunks(MAX_MESSAGE_PAYLOAD)`.
  unfoldable pub write_pieces : List Bytes → Io IoError S (Unit {0})
  write_pieces [] = pure tt
  write_pieces (piece ∷ pieces) = do write_all piece; flush; write_pieces pieces

  -- `write_found` once the length is known to be a u32.
  unfoldable pub write_body : ℕ → Bytes → Io IoError S (Unit {0})
  write_body len bytes =
      if ltb max_response_len len
      then raise (invalid_data "chunk exceeds maximum response length")
      else do
        write_all (status_ok ∷ [])
        write_all (to_be_bytes len)
        write_pieces (chunks max_message_payload bytes)
        close

  unfoldable pub write_found : Bytes → Io IoError S (Unit {0})
  unfolding u32_try_from
  write_found bytes = elim (u32_try_from (length bytes)) [
    | none ↦ raise (invalid_data "chunk exceeds u32 length")
    | some len ↦ write_body len bytes
  ]

  -- The loop of reads into the 64-byte scratch buffer; `none` means that the fuel ran out.
  unfoldable pub drain_to_eof : ℕ → S → Option S
  drain_to_eof zero s = none
  drain_to_eof (suc fuel) s =
      let (r, s') = read 64 s in
      elim r [ err e ↦ some s' | ok [] ↦ some s' | ok (b ∷ bs) ↦ drain_to_eof fuel s' ]

  unfoldable pub write_status : ℕ → Io IoError S (Unit {0})
  write_status status = do write_all (status ∷ []); close
