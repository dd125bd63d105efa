-- ===== src/System.antt =====
-- The browser and the proxy joined by a link: `getChunk` on one end, `handle_request` on the other.
pub mod Reliable
pub mod Download
pub mod Started
pub mod Click
use autonomi_webrtc_direct_p.Prelude.{ℕ, suc, ◌≡◌, ◌≤◌, true, [], none, some, Bytes, ok, length}
use autonomi_webrtc_direct_p.Protocol.Transport.{Stream, StreamLaws, sent}
use autonomi_webrtc_direct_p.Handler.{ChunkSource, handle_request}
use autonomi_webrtc_direct_p.Browser.Reader.{Incoming, ended}
use autonomi_webrtc_direct_p.Browser.Reader.Exact.{text}
use autonomi_webrtc_direct_p.Browser.Fetch.{Connection}

-- The transport between the two ends of the n-th stream.
pub record Link (st : Stream) : Type 0 where
  -- the proxy's end, on which the browser has sent these bytes
  pub arriving : ℕ → Bytes → st.S
  -- what the browser's iterator yields once the proxy is through
  pub delivered : st.S → Incoming

-- A link that loses nothing: the proxy gets the request and the end of the browser's side, on a
-- stream that nothing is written on yet, and the browser gets all that the proxy has sent.
pub record LinkLaws (st : Stream) (laws : StreamLaws st) (link : Link st) : Type 0 where
  pub fresh : (n : ℕ) (bytes : Bytes) → sent (laws.log (link.arriving n bytes)) ≡ []
  pub carried : (n : ℕ) (bytes : Bytes) → laws.pending (link.arriving n bytes) ≡ bytes
  pub complete : (s : st.S) → text (link.delivered s) ≡ sent (laws.log s)

-- A stream on which writing does not fail, nor reading what is there.
pub record IsReliable (st : Stream) (laws : StreamLaws st) : Type 0 where
  pub write_all_succeeds :
      (bytes : Bytes) (s : st.S)
      → ((st.write_all bytes s).0 ≡ ok tt)
        × (laws.pending (st.write_all bytes s).1 ≡ laws.pending s)
  pub flush_succeeds :
      (s : st.S) → ((st.flush s).0 ≡ ok tt) × (laws.pending (st.flush s).1 ≡ laws.pending s)
  pub close_succeeds :
      (s : st.S) → ((st.close s).0 ≡ ok tt) × (laws.pending (st.close s).1 ≡ laws.pending s)
  pub read_exact_succeeds :
      (n : ℕ) (s : st.S)
      → n ≤ length (laws.pending s)
      → (bytes : Bytes) × ((st.read_exact n s).0 ≡ ok bytes)

-- The browser's state: how many streams it has opened, and the last request.
pub record Calls : Type 0 where
  pub opened : ℕ
  pub request : Bytes

module _ (st : Stream) {F : Type 0} (link : Link st) (fuel : ℕ) (get : ChunkSource F) where
  -- What comes back on the n-th stream.
  unfoldable pub answered : ℕ → Bytes → Incoming
  unfolding handle_request
  answered n request = elim (handle_request st fuel get (link.arriving n request)) [
    | none ↦ ended
    | some (r, s) ↦ link.delivered s
  ]

  abbrev pub proxy_connection : Connection
  proxy_connection = record {
    S = Calls;
    Handle = ℕ;
    new_stream = λ s. (ok s.opened, record s { opened = suc s.opened });
    send = λ stream bytes s. (ok true, record s { request = bytes });
    drained = λ stream s. (ok tt, s);
    deliveries = λ stream s. answered stream s.request;
    close = λ stream s. s;
  }
