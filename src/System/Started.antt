-- ===== src/System/Started.antt =====
-- From a file on the proxy's disk to the browser: `main`, the handler and the scripts together.
use autonomi_webrtc_direct_p.Prelude.{
  ℕ, ◌≡◌, ◌<◌, ◌⊎◌, refl, ap, false, List, Option, some, Bytes, ok,
}
use autonomi_webrtc_direct_p.Crates.{Crates, CrateLaws, UploadLaws, Collision, XorName}
use autonomi_webrtc_direct_p.Source.{Network, FixtureSource, Source, fixture, source_get}
use autonomi_webrtc_direct_p.Identity.{Files, Credentials}
use autonomi_webrtc_direct_p.Protocol.Transport.{Stream, StreamLaws}
use autonomi_webrtc_direct_p.Main.{Host, Arguments, serving, start}
use autonomi_webrtc_direct_p.Main.Chooses.{Served, ServedFrom, from_fixture, from_network}
use autonomi_webrtc_direct_p.Main.Serves.{start-Serves}
use autonomi_webrtc_direct_p.Browser.Exchange.{IsModest}
use autonomi_webrtc_direct_p.Browser.Fetch.{get_chunk}
use autonomi_webrtc_direct_p.Browser.Retrieve.{retrieve}
use autonomi_webrtc_direct_p.Browser.Retrieve.Fixture.{IsStocked, IsAmong}
use autonomi_webrtc_direct_p.System.{Link, LinkLaws, IsReliable, Calls, proxy_connection}
use autonomi_webrtc_direct_p.System.Download.{retrieve-handle_request}

module _ (c : Crates) (n : Network) (st : Stream) (link : Link st) (fuel : ℕ) where
  -- What a browser gets from a proxy with this source, and with this address of a data map.
  pub record Delivers (content : Bytes) (chunks : List c.EncryptedChunk) (s : Calls)
      (source : Source n) (address : Option XorName) : Type 0 where
    pub made : FixtureSource
    pub is_source : source ≡ fixture made
    pub is_address : address ≡ some made.data_map_address
    pub retrieved :
        ((retrieve c
            (get_chunk (proxy_connection st link fuel (source_get c n source)))
            made.data_map_address
            s).0
          ≡ ok content)
        ⊎ Collision c (IsStocked made) (IsAmong c chunks)

module _ (c : Crates) (laws : CrateLaws c) (upload : UploadLaws c) (n : Network) (st : Stream)
    (stream_laws : StreamLaws st) (reliable : IsReliable st stream_laws) (link : Link st)
    (link_laws : LinkLaws st stream_laws link) (f : Files) (k : Credentials) {V4 V6 P : Type 0}
    (host : Host f k n V4 V6 P) (fuel : ℕ) where
  served_Delivers :
      (args : Arguments c n f k host) (fs : f.FileSystem) (path : f.FilePath) (content : Bytes)
      (m : c.DataMap) (chunks : List c.EncryptedChunk) (s : Calls) (source : Source n)
      (address : Option XorName)
      → args.fixture ≡ some path
      → f.read path fs ≡ ok content
      → c.encrypt content ≡ ok (m, chunks)
      → c.is_child m ≡ false
      → 0 < fuel
      → ServedFrom c n f k host args fs source address
      → IsModest st stream_laws (source_get c n source)
      → Delivers c n st link fuel content chunks s source address
  served_Delivers args fs path content m chunks s _ _ given there e flat enough
        (from_network ungiven used connected) modest =
      absurd (cc (given, ungiven))
  served_Delivers args fs path content m chunks s _ _ given there e flat enough
        (from_fixture {path = found} {content = read} {made = made} chosen undumped reads built)
        modest =
      let same_path : found ≡ path = cc (given, chosen) in
      let same : read ≡ content = cc (reads, there, ap (λ q. f.read q fs) same_path) in
      record {
        made = made;
        is_source = refl;
        is_address = refl;
        retrieved =
            retrieve-handle_request c laws upload n st stream_laws reliable link link_laws fuel
              content m chunks made s e flat (rw same at built) modest enough;
      }

  -- If a start with a fixture comes to serve, and the file has a content whose encryption has a flat
  -- data map and chunks not longer than `max_response_len`, then the proxy serves from a fixture, and
  -- has its data map address to announce; and over a reliable stream and a link that loses nothing,
  -- `retrieve` in the browser at this address returns the file's content, or else an entry of the
  -- fixture and a chunk of the encryption collide.
  pub retrieve-start :
      (args : Arguments c n f k host) (for_key for_cert : k.Entropy) (fs fs' : f.FileSystem)
      (p : Served c n f k host) (path : f.FilePath) (content : Bytes) (m : c.DataMap)
      (chunks : List c.EncryptedChunk) (s : Calls)
      → start c n f k host args for_key for_cert fs ≡ (ok (serving p), fs')
      → args.fixture ≡ some path
      → f.read path fs' ≡ ok content
      → c.encrypt content ≡ ok (m, chunks)
      → c.is_child m ≡ false
      → IsModest st stream_laws (source_get c n p.source)
      → 0 < fuel
      → Delivers c n st link fuel content chunks s p.source p.data_map_address
  retrieve-start args for_key for_cert fs fs' p path content m chunks s h given there e flat modest
        enough =
      served_Delivers args fs' path content m chunks s p.source p.data_map_address given there e
        flat enough (start-Serves c n f k host args for_key for_cert fs fs' p h).from modest
