-- ===== src/Browser/Fetch/Keeps.antt =====
-- `getChunk` touches the state of the connection only by the operations on its streams.
use autonomi_webrtc_direct_p.Prelude.{
  inl, inr, Bytes, Bool, true, false, Bool-cases, length, ◌==◌, if◌then◌else◌,
}
use autonomi_webrtc_direct_p.Prelude.Effects.{pure, wrap, Keeps, Keeps-bind}
use autonomi_webrtc_direct_p.Browser.Reader.{FetchError, library}
use autonomi_webrtc_direct_p.Browser.Fetch.{
  Connection, address_len, send, receive_from, exchange, get_chunk,
}

module _ (connection : Connection) (P : connection.S → Type 0)
    (kept_new : Keeps P connection.new_stream)
    (kept_send : (stream : connection.Handle) (bytes : Bytes)
      → Keeps P (connection.send stream bytes))
    (kept_drained : (stream : connection.Handle) → Keeps P (connection.drained stream))
    (kept_close : (stream : connection.Handle) (s : connection.S)
      → P s
      → P (connection.close stream s)) where
  send-Keeps : (stream : connection.Handle) (bytes : Bytes) → Keeps P (send connection stream bytes)
  unfolding send
  send-Keeps stream bytes =
      Keeps-bind P (wrap library (connection.send stream bytes)) _ (kept_send stream bytes) waits
    where
      waits :
          (sent : Bool)
          → Keeps {E = FetchError} {A = Unit {0}} P
              (if sent then pure tt else wrap library (connection.drained stream))
      waits true s p = p
      waits false s p = kept_drained stream s p

  -- What the operations on streams keep, `getChunk` keeps, however it ends.
  pub get_chunk-Keeps : (address : Bytes) → Keeps P (get_chunk connection address)
  unfolding get_chunk exchange receive_from
  get_chunk-Keeps address s p = elim (Bool-cases (length address == address_len)) [
    | inr short ↦ rw (short, get_chunk) p
    | inl long ↦
        rw (long, get_chunk)
          (Keeps-bind P (wrap library connection.new_stream) (exchange connection address) kept_new
            (λ stream t q. kept_close stream _ (
              Keeps-bind P (send connection stream address) (λ _. receive_from connection stream)
                (send-Keeps stream address) (λ _ u k. k) t q))
            s p)
  ]
