-- ===== src/System/Download.antt =====
-- A whole download from a proxy that serves a fixture.
use autonomi_webrtc_direct_p.Prelude.{
  ℕ, ◌≡◌, ◌<◌, ◌⊎◌, refl, sym, ap, ◌∙◌, arith, true, false, [], List, Option, Bytes, ok, length,
  ◌==◌,
}
use mathlib.Core.List.{append-nil}
use autonomi_webrtc_direct_p.Prelude.Dict
use autonomi_webrtc_direct_p.Crates.{Crates, CrateLaws, UploadLaws, Collision}
use autonomi_webrtc_direct_p.Source.{
  Network, FixtureSource, fixture_new, fixture_get, fixture, source_get,
}
use autonomi_webrtc_direct_p.Protocol.Transport.{Stream, StreamLaws}
use autonomi_webrtc_direct_p.Handler.{ChunkSource}
use autonomi_webrtc_direct_p.Browser.Reader.{exact_reader}
use autonomi_webrtc_direct_p.Browser.Fetch.{
  address_len, send, receive, receive_from, exchange, get_chunk,
}
use autonomi_webrtc_direct_p.Browser.Exchange.{IsModest, IsShort-found, receive-handle_request_ok}
use autonomi_webrtc_direct_p.Browser.Retrieve.{retrieve}
use autonomi_webrtc_direct_p.Browser.Retrieve.Fixture.{IsStocked, IsAmong, retrieve-fixture_new}
use autonomi_webrtc_direct_p.System.{Link, LinkLaws, IsReliable, Calls, answered, proxy_connection}
use autonomi_webrtc_direct_p.System.Reliable.{handle_request_succeeds}

module _ (st : Stream) (laws : StreamLaws st) (reliable : IsReliable st laws) (link : Link st)
    (link_laws : LinkLaws st laws link) {F : Type 0} (fuel : ℕ) (get : ChunkSource F)
    (modest : IsModest st laws get) where
  -- The response on the n-th stream is what the source has.
  answered-found :
      (n : ℕ) (address : Bytes) (found : Option Bytes)
      → length address ≡ address_len
      → get address ≡ ok found
      → 0 < fuel
      → (receive (exact_reader (answered st link fuel get n address))).0 ≡ ok found
  unfolding answered
  answered-found n address found h looked_up enough =
      let arrived = link_laws.carried n address ∙ sym (append-nil address) in
      let (s, run) =
        handle_request_succeeds st laws reliable fuel get (link.arriving n address) address [] found
          h arrived looked_up (IsShort-found st laws get address found modest looked_up) enough in
      let (o, got, there) =
        receive-handle_request_ok st laws fuel get (link.arriving n address) s tt address []
          (link.delivered s) modest h arrived (link_laws.fresh n address) run
          (sym (link_laws.complete s)) in
      let same : o ≡ found = cc (there, looked_up) in rw (run, answered) (got ∙ ap ok same)

  -- Over a reliable stream and a link that loses nothing, `getChunk` gives what the proxy's source
  -- has at the address.
  pub get_chunk-found :
      (address : Bytes) (found : Option Bytes) (s : Calls)
      → length address ≡ address_len
      → get address ≡ ok found
      → 0 < fuel
      → (get_chunk (proxy_connection st link fuel get) address s).0 ≡ ok found
  unfolding get_chunk exchange send receive_from
  get_chunk-found address found s h looked_up enough =
      let long : (length address == address_len) ≡ true = ground (arith, h) in
      rw (long, get_chunk) (answered-found s.opened address found h looked_up enough)

module _ (c : Crates) (laws : CrateLaws c) (upload : UploadLaws c) (n : Network) (st : Stream)
    (stream_laws : StreamLaws st) (reliable : IsReliable st stream_laws) (link : Link st)
    (link_laws : LinkLaws st stream_laws link) where
  -- The whole system, when nothing is hostile and nothing breaks: content whose encryption has a
  -- flat data map and whose chunks are not longer than `max_response_len`, served by a proxy from
  -- the fixture source that is built of it, over a reliable stream and a link that loses nothing,
  -- is what `retrieve` in the browser returns for the fixture's data map address, with `getChunk`
  -- on that link; or else an entry of the source and a chunk of the encryption collide.
  pub retrieve-handle_request :
      (fuel : ℕ) (content : Bytes) (m : c.DataMap) (chunks : List c.EncryptedChunk)
      (source : FixtureSource) (s : Calls)
      → c.encrypt content ≡ ok (m, chunks)
      → c.is_child m ≡ false
      → fixture_new c n content ≡ ok source
      → IsModest st stream_laws (source_get c n (fixture source))
      → 0 < fuel
      → ((retrieve c
            (get_chunk (proxy_connection st link fuel (source_get c n (fixture source))))
            source.data_map_address
            s).0
          ≡ ok content)
        ⊎ Collision c (IsStocked source) (IsAmong c chunks)
  unfolding source_get fixture_get
  retrieve-handle_request fuel content m chunks source s e flat built modest enough =
      retrieve-fixture_new c laws upload n
        (get_chunk (proxy_connection st link fuel (source_get c n (fixture source)))) source
        (λ name t long.
          get_chunk-found st stream_laws reliable link link_laws fuel
            (source_get c n (fixture source)) modest name (Dict.get source.chunks name) t long refl
            enough)
        content m chunks s e flat built
