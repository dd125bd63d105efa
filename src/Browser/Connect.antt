-- ===== src/Browser/Connect.antt =====
-- web/src/fetch-client.js: `connect`, and the object that it returns.
use autonomi_webrtc_direct_p.Prelude.{ℕ, Bool, Option, none, Bytes, Result}
use autonomi_webrtc_direct_p.Prelude.Effects.{Io, pure, lift, ◌>>=◌}
use autonomi_webrtc_direct_p.Browser.Reader.{FetchError, Incoming}
use autonomi_webrtc_direct_p.Browser.Fetch.{Connection, get_chunk}
use autonomi_webrtc_direct_p.Client.Address.{Text}

-- js-libp2p, whose exceptions are codes.
pub record Libp2p : Type 1 where
  pub World : Type 0
  pub Node : Type 0
  pub Target : Type 0
  -- a connection, with the methods of `Browser.Fetch.Connection`
  pub Link : Type 0
  pub Handle : Type 0
  -- `createLibp2p` with the options of `connect`, which starts the node
  pub create : Io ℕ World Node
  -- `multiaddr(address)`
  pub multiaddr : Text → Result ℕ Target
  pub dial : Node → Target → Io ℕ World Link
  pub stop : Node → Io ℕ World (Unit {0})
  -- `connection.remotePeer.toString()`
  pub remote_peer : Link → Text
  pub new_stream : Link → Io ℕ World Handle
  pub send : Handle → Bytes → Io ℕ World Bool
  pub drained : Handle → Io ℕ World (Unit {0})
  pub deliveries : Handle → World → Incoming
  pub close : Handle → World → World

module _ (l : Libp2p) where
  abbrev pub connection_of : l.Link → Connection
  connection_of link = record {
    S = l.World;
    Handle = l.Handle;
    new_stream = l.new_stream link;
    send = l.send;
    drained = l.drained;
    deliveries = l.deliveries;
    close = l.close;
  }

  -- What `connect` returns; the page adds the field `multiaddr`.
  pub record ProxyClient : Type 0 where
    pub node : l.Node
    pub link : l.Link
    pub peer_id : Text
    pub multiaddr : Option Text

  unfoldable pub connect : Text → Io ℕ l.World ProxyClient
  connect address = do
    node ← l.create
    target ← lift (l.multiaddr address)
    link ← l.dial node target
    pure (record { node = node; link = link; peer_id = l.remote_peer link; multiaddr = none })

  -- The methods `getChunk` and `close` of that object.
  unfoldable pub client_get_chunk : ProxyClient → Bytes → Io FetchError l.World (Option Bytes)
  client_get_chunk client = get_chunk (connection_of client.link)

  unfoldable pub client_close : ProxyClient → Io ℕ l.World (Unit {0})
  client_close client = l.stop client.node
