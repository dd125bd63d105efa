-- ===== src/Handler.antt =====
-- crates/proxy/src/main.rs: `handle_request` and `serve`, over any chunk source.
pub mod Answers
use mathlib.Core.Option
use autonomi_webrtc_direct_p.Prelude.{
  ℕ, List, map, Option, none, some, Bytes, Result, ok, err, map_err,
}
use autonomi_webrtc_direct_p.Prelude.Effects.{Io, lift, wrap, ◌>>=◌}
use autonomi_webrtc_direct_p.Crates.{XorName}
use autonomi_webrtc_direct_p.Protocol.{
  status_not_found, read_request, write_found, write_status, drain_to_eof,
}
use autonomi_webrtc_direct_p.Protocol.Transport.{Stream, IoError}

-- The errors that `handle_request` passes on: of the stream, and of the source.
pub data HandleError (F : Type 0) : Type 0 where
  io : IoError → HandleError F
  source : F → HandleError F

-- `ChunkSource::get`
abbrev pub ChunkSource : Type 0 → Type 0
ChunkSource F = XorName → Result F (Option Bytes)

module _ (st : Stream) {F : Type 0} where
  open st use {S}

  -- The two arms of the `match` on what the source has found.
  unfoldable pub answer : Option Bytes → Io (HandleError F) S (Unit {0})
  answer (some bytes) = wrap io (write_found st bytes)
  answer none = wrap io (write_status st status_not_found)

  -- `handle_request` up to its last step.
  unfoldable pub respond : ChunkSource F → Io (HandleError F) S (Unit {0})
  respond get = do
    address ← wrap io (read_request st)
    found ← lift (map_err source (get address))
    answer found

  -- The fuel is that of `drain_to_eof`; `none` means that it ran out.
  unfoldable pub handle_request :
      ℕ → ChunkSource F → S → Option (Result (HandleError F) (Unit {0}) × S)
  handle_request fuel get s =
      let (r, s') = respond get s in
      elim r [
        | err e ↦ some (err e, s')
        | ok u ↦ Option.map (λ t. (ok tt, t)) (drain_to_eof st fuel s')
      ]

  -- Every incoming stream gets a task of its own; the source is shared and never written.
  unfoldable pub serve :
      ℕ → ChunkSource F → List S → List (Option (Result (HandleError F) (Unit {0}) × S))
  serve fuel get incoming = map (handle_request fuel get) incoming
