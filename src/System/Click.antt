-- ===== src/System/Click.antt =====
-- From a click on the page to the content that it presents, with the proxy at the other end.
use autonomi_webrtc_direct_p.Prelude.{
  ℕ, ◌≡◌, ◌<◌, ◌⊎◌, refl, ap, ◌∙◌, false, [], ◌++◌, List, none, Bytes, ok, err, length, All,
  bytes_eq, bytes_eq_refl, if◌then◌else◌,
}
use autonomi_webrtc_direct_p.Prelude.Effects.{Io}
use autonomi_webrtc_direct_p.Crates.{Crates, CrateLaws, UploadLaws, Collision}
use autonomi_webrtc_direct_p.Source.{Network, FixtureSource, fixture_new, fixture, source_get}
use autonomi_webrtc_direct_p.Source.Addressed.{fixture_new_lem}
use autonomi_webrtc_direct_p.Protocol.Transport.{Stream, StreamLaws}
use autonomi_webrtc_direct_p.Handler.{ChunkSource}
use autonomi_webrtc_direct_p.Client.Address.{Text, hex}
use autonomi_webrtc_direct_p.Client.Address.RoundTrip.{IsByte, IsBlank, parse_hex_address-hex}
use autonomi_webrtc_direct_p.Client.Retrieval.{is_empty}
use autonomi_webrtc_direct_p.Browser.Exchange.{IsModest}
use autonomi_webrtc_direct_p.Browser.Retrieve.Fixture.{IsStocked, IsAmong}
use autonomi_webrtc_direct_p.Browser.Connect.{Libp2p, ProxyClient, connect, client_get_chunk}
use autonomi_webrtc_direct_p.Browser.PageText.{js_trim}
use autonomi_webrtc_direct_p.Browser.Page.{Page, download}
use autonomi_webrtc_direct_p.Browser.Page.Presents.{Presents, download-Presents}
use autonomi_webrtc_direct_p.System.{Link, LinkLaws, IsReliable, Calls, proxy_connection}
use autonomi_webrtc_direct_p.System.Download.{retrieve-handle_request}

-- js-libp2p in a network with the one proxy: a dial of its multiaddress connects, and no other.
abbrev pub proxied : (st : Stream) {F : Type 0} → Link st → ℕ → Text → ChunkSource F → Libp2p
proxied st link fuel multiaddress get =
    let connection = proxy_connection st link fuel get in
    record {
      World = Calls;
      Node = Unit {0};
      Target = Text;
      Link = Unit {0};
      Handle = ℕ;
      create = λ w. (ok tt, w);
      multiaddr = λ text. ok text;
      dial = λ node target w. (if bytes_eq target multiaddress then ok tt else err 0, w);
      stop = λ node w. (ok tt, w);
      remote_peer = λ connected. [];
      new_stream = λ connected. connection.new_stream;
      send = connection.send;
      drained = connection.drained;
      deliveries = connection.deliveries;
      close = connection.close;
    }

dials :
    (st : Stream) {F : Type 0} (link : Link st) (fuel : ℕ) (multiaddress : Text)
    (get : ChunkSource F) (w : Calls)
    → (client : ProxyClient (proxied st link fuel multiaddress get)) × ((connect
          (proxied st link fuel multiaddress get)
          multiaddress
          w).0
        ≡ ok client)
unfolding connect
dials st link fuel multiaddress get w = (
  record { node = tt; link = tt; peer_id = []; multiaddr = none },
  rw (bytes_eq_refl multiaddress, connect) refl,
)

module _ (c : Crates) (laws : CrateLaws c) (upload : UploadLaws c) (n : Network) (st : Stream)
    (stream_laws : StreamLaws st) (reliable : IsReliable st stream_laws) (link : Link st)
    (link_laws : LinkLaws st stream_laws link) where
  -- The whole system, when nothing is hostile and nothing breaks: content whose encryption has a
  -- flat data map and whose chunks are not longer than `max_response_len` is served by a proxy from
  -- the fixture source that is built of it, over a reliable stream and a link that loses nothing.
  -- Then a download on the page, of the text in which the proxy prints the fixture's data map
  -- address, with any white space around it, through a field with the proxy's multiaddress, and with
  -- a WASM module that loads, presents this content and shows its length; or else an entry of the
  -- source and a chunk of the encryption collide.
  pub download-handle_request :
      (fuel : ℕ) (multiaddress : Text) (content : Bytes) (m : c.DataMap)
      (chunks : List c.EncryptedChunk) (source : FixtureSource) (init : Io ℕ Calls (Unit {0}))
      (before after filename mime_type : Text)
      (p : Page c (proxied st link fuel multiaddress (source_get c n (fixture source))))
      → c.encrypt content ≡ ok (m, chunks)
      → c.is_child m ≡ false
      → fixture_new c n content ≡ ok source
      → IsModest st stream_laws (source_get c n (fixture source))
      → 0 < fuel
      → All IsByte source.data_map_address
      → ((w : Calls) → (init w).0 ≡ ok tt)
      → All IsBlank before
      → All IsBlank after
      → js_trim p.proxy ≡ multiaddress
      → is_empty multiaddress ≡ false
      → Presents c
          (proxied st link fuel multiaddress (source_get c n (fixture source)))
          content
          filename
          mime_type
          (download c
            (proxied st link fuel multiaddress (source_get c n (fixture source)))
            init
            (before ++ (hex source.data_map_address ++ after))
            filename
            mime_type
            p)
        ⊎ Collision c (IsStocked source) (IsAmong c chunks)
  unfolding connect client_get_chunk
  download-handle_request fuel multiaddress content m chunks source init before after filename
        mime_type p e flat built modest enough are_bytes loads blank_before blank_after is_proxy
        given =
      let u = (fixture_new_lem c n content source built).1 in
      let long : length source.data_map_address ≡ 32 =
        ap length u.address ∙ laws.length-hash u.serialized in
      download-Presents c (proxied st link fuel multiaddress (source_get c n (fixture source))) init
        loads multiaddress (dials st link fuel multiaddress _)
        (Collision c (IsStocked source) (IsAmong c chunks))
        (before ++ (hex source.data_map_address ++ after)) source.data_map_address content
        (parse_hex_address-hex source.data_map_address before after long are_bytes blank_before
          blank_after)
        (λ client w.
          retrieve-handle_request c laws upload n st stream_laws reliable link link_laws fuel
            content m chunks source w e flat built modest enough)
        filename mime_type p is_proxy given
