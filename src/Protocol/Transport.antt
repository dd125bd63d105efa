-- ===== src/Protocol/Transport.antt =====
-- `futures::{AsyncReadExt, AsyncWriteExt}` on a libp2p stream: the operations that protocol.rs calls,
-- and what it relies on. The stream itself is not code of the repository.
use Prim.Native.String.{String}
use autonomi_webrtc_direct_p.Prelude.{ℕ, ◌≡◌, ◌≤◌, ◌<◌, List, [], ◌∷◌, ◌++◌, Bytes, ok, err, length}
use autonomi_webrtc_direct_p.Prelude.Effects.{Io}

-- `std::io::Error`: the kind that protocol.rs makes, the one of a short `read_exact`, and the
-- transport's own, by a code.
pub data IoError : Type 0 where
  invalid_data : String → IoError
  unexpected_eof : IoError
  transport : ℕ → IoError

pub record Stream : Type 1 where
  pub S : Type 0
  -- `read_exact` into a buffer of that many bytes
  pub read_exact : ℕ → Io IoError S Bytes
  -- `read` into a buffer of that many bytes; no bytes at all is the end of the stream
  pub read : ℕ → Io IoError S Bytes
  pub write_all : Bytes → Io IoError S (Unit {0})
  pub flush : Io IoError S (Unit {0})
  pub close : Io IoError S (Unit {0})

-- What has been handed to the transport, in order.
pub data Event : Type 0 where
  wrote : Bytes → Event
  flushed : Event
  closed : Event

abbrev pub sent : List Event → Bytes
sent [] = []
sent (wrote bs ∷ es) = bs ++ sent es
sent (flushed ∷ es) = sent es
sent (closed ∷ es) = sent es

-- `sent` of the later log, beyond that of the earlier one, is the start of `full`.
pub record SentPart (before after : Bytes) (full : Bytes) : Type 0 where
  pub part : Bytes
  pub rest : Bytes
  pub is_part : full ≡ part ++ rest
  pub is_sent : after ≡ before ++ part

-- The documented behaviour: `log` is what the client can receive, `pending` what it still sends
-- before the end of its side. An operation that fails may have done a part of its work.
pub record StreamLaws (st : Stream) : Type 0 where
  pub log : st.S → List Event
  pub pending : st.S → Bytes
  pub write_all_ok :
      (bs : Bytes) (s : st.S) {u : Unit {0}}
      → (st.write_all bs s).0 ≡ ok u
      → log (st.write_all bs s).1 ≡ log s ++ wrote bs ∷ []
  pub write_all_err :
      (bs : Bytes) (s : st.S) {e : IoError}
      → (st.write_all bs s).0 ≡ err e
      → SentPart (sent (log s)) (sent (log (st.write_all bs s).1)) bs
  pub flush_ok :
      (s : st.S) {u : Unit {0}} → (st.flush s).0 ≡ ok u → log (st.flush s).1 ≡ log s ++ flushed ∷ []
  pub flush_err : (s : st.S) {e : IoError} → (st.flush s).0 ≡ err e → log (st.flush s).1 ≡ log s
  pub close_ok :
      (s : st.S) {u : Unit {0}} → (st.close s).0 ≡ ok u → log (st.close s).1 ≡ log s ++ closed ∷ []
  pub close_err : (s : st.S) {e : IoError} → (st.close s).0 ≡ err e → log (st.close s).1 ≡ log s
  pub read_exact_ok :
      (n : ℕ) (s : st.S) {bs : Bytes}
      → (st.read_exact n s).0 ≡ ok bs
      → (length bs ≡ n) × (pending s ≡ bs ++ pending (st.read_exact n s).1)
  pub read_exact_log : (n : ℕ) (s : st.S) → log (st.read_exact n s).1 ≡ log s
  pub read_ok :
      (n : ℕ) (s : st.S) {bs : Bytes}
      → (st.read n s).0 ≡ ok bs
      → (length bs ≤ n) × (pending s ≡ bs ++ pending (st.read n s).1)
  pub read_eof : (n : ℕ) (s : st.S) → 0 < n → (st.read n s).0 ≡ ok [] → pending s ≡ []
  pub read_log : (n : ℕ) (s : st.S) → log (st.read n s).1 ≡ log s
