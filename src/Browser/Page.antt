-- ===== src/Browser/Page.antt =====
-- web/src/app.js: the page. A text is the list of its code points.
pub mod Nodes
pub mod Download
pub mod Trust
pub mod Presents
pub mod Owned
pub mod Custom
use autonomi_webrtc_direct_p.Prelude.{
  ℕ, Bool, true, false, not, List, [], ◌∷◌, ◌++◌, Option, none, some, Bytes, ok, err, map_err,
  Result, length, take, if◌then◌else◌, bytes_eq, codes,
}
use autonomi_webrtc_direct_p.Prelude.Effects.{Io, pure, lift, ◌>>=◌, ◌>>◌}
use autonomi_webrtc_direct_p.Crates.{Crates}
use autonomi_webrtc_direct_p.Client.Address.{Text, parse_hex_address}
use autonomi_webrtc_direct_p.Client.Errors.{Error}
use autonomi_webrtc_direct_p.Client.Retrieval.{is_empty}
use autonomi_webrtc_direct_p.Browser.Reader.{FetchError}
use autonomi_webrtc_direct_p.Browser.Retrieve.{RetrieveError, retrieve}
use autonomi_webrtc_direct_p.Browser.PageText.{
  js_trim, is_address_text, starts_with, shorten, same_multiaddr,
}
use autonomi_webrtc_direct_p.Browser.Connect.{
  Libp2p, ProxyClient, connect, client_get_chunk, client_close,
}

-- `a || b` on texts
abbrev or_text : Text → Text → Text
or_text [] b = b
or_text (c ∷ a) b = c ∷ a

abbrev pub default_proxy : Text
default_proxy =
    codes
      "/ip4/168.119.152.203/udp/4001/webrtc-direct/certhash/uEiA3d0SdhihawXZKcdRIC2kIzsRTL-toghlU6ruqZ4lUxQ/p2p/12D3KooWCebzDQspE5tiSv2XNYvZ363Pw6tmfdpDynCwW8L2yd6p"

-- The proxy's field as the page is built, from the parameter `proxy` of the page's address.
unfoldable pub initial_proxy : Option Text → Text
unfolding starts_with
initial_proxy (some from_url) = from_url
initial_proxy none = if starts_with (codes "/") default_proxy then default_proxy else []

pub record Entry : Type 0 where
  pub title : Text
  pub address : Text
  pub filename : Text
  pub media_type : Text

abbrev pub catalogue : List Entry
catalogue =
    record {
      title = codes "BegBlag.mp3";
      address = codes "00ac7cbe1fe3e49fcd9e490eb313fabc2fe4407e67196292e961c3b34e9b1afa";
      filename = codes "BegBlag.mp3";
      media_type = codes "audio/mpeg";
    }
    ∷ []

-- What `catch` catches.
pub data PageError (F : Type 0) : Type 0 where
  -- of libp2p, and of the loader of the WASM module
  loading : ℕ → PageError F
  connecting : ℕ → PageError F
  parsing : Error F → PageError F
  retrieving : RetrieveError F FetchError → PageError F

-- `setStatus`: a constructor for each message, with the values that it shows. The progress of a
-- download is left out.
pub data Status (F : Type 0) : Type 0 where
  idle : Status F
  endpoint_missing : Status F
  not_an_address : Status F
  dialling : Text → Status F
  connected : Text → Status F
  fetching_map : Status F
  retrieved : ℕ → Status F
  failed : PageError F → Status F

-- What `present` puts on the page: the link to a blob, and a player for sound.
pub record Presented : Type 0 where
  pub bytes : Bytes
  pub blob_type : Text
  pub filename : Text
  pub has_player : Bool

-- The link, and the player, that `present` makes.
unfoldable pub shown : Bytes → Text → Text → Presented
unfolding starts_with
shown bytes filename mime_type = record {
  bytes = bytes;
  blob_type = or_text mime_type (codes "application/octet-stream");
  filename = filename;
  has_player = starts_with (codes "audio/") mime_type;
}

module _ (c : Crates) (l : Libp2p) where
  -- The browser's world, `state`, and the elements of the page.
  pub record Page : Type 0 where
    pub world : l.World
    pub client : Option (ProxyClient l)
    pub wasm_ready : Bool
    pub status : Status c.Failure
    pub busy : Bool
    pub result : List Presented
    pub proxy : Text
    pub address : Text

  abbrev pub On : Type 0 → Type 0
  On A = Io (PageError c.Failure) Page A

  -- an asynchronous call that works on the world
  abbrev pub await_on : {E A : Type 0} → (E → PageError c.Failure) → Io E l.World A → On A
  await_on f m p = let (r, w) = m p.world in (map_err f r, record p { world = w })

  abbrev pub set_status : Status c.Failure → On (Unit {0})
  set_status status p = (ok tt, record p { status = status })

  -- `init` of the WASM module, with the embedded module or with its address
  module _ (init : Io ℕ l.World (Unit {0})) where
    abbrev set_ready : On (Unit {0})
    set_ready p = (ok tt, record p { wasm_ready = true })

    unfoldable pub ensure_wasm : On (Unit {0})
    ensure_wasm p =
        let loads = (await_on loading init >> set_ready) p in
        if p.wasm_ready then (ok tt, p) else loads

  -- `if (state.client) { … }`: errors of `close` are ignored.
  unfoldable pub close_client : On (Unit {0})
  unfolding client_close
  close_client p = elim p.client [
    | none ↦ (ok tt, p)
    | some client ↦ (ok tt, record p { world = (client_close l client p.world).1; client = none })
  ]

  abbrev set_client : ProxyClient l → On (Unit {0})
  set_client client p = (ok tt, record p { client = some client })

  unfoldable pub open_client : Text → On (ProxyClient l)
  unfolding connect shorten
  open_client multiaddr = do
    set_status (dialling (shorten multiaddr))
    opened ← await_on connecting (connect l multiaddr)
    let client = record opened { multiaddr = some multiaddr }
    set_client client
    set_status (connected (take 16 client.peer_id))
    pure client

  unfoldable pub reconnect : Text → On (ProxyClient l)
  unfolding close_client open_client
  reconnect multiaddr = do close_client; open_client multiaddr

  -- by the client that the page has
  unfoldable pub reuse : Option (ProxyClient l) → Text → On (ProxyClient l)
  unfolding reconnect
  reuse none multiaddr p = reconnect multiaddr p
  reuse (some client) multiaddr p =
      if same_multiaddr client.multiaddr multiaddr then (ok client, p) else reconnect multiaddr p

  unfoldable pub ensure_connected : Text → On (ProxyClient l)
  unfolding reuse
  ensure_connected multiaddr p = reuse p.client multiaddr p

  unfoldable pub present : Bytes → Text → Text → On (Unit {0})
  unfolding shown
  present bytes filename mime_type p =
      (ok tt, record p { result = p.result ++ (shown bytes filename mime_type ∷ []) })

  module _ (init : Io ℕ l.World (Unit {0})) where
    -- The body of the `try` of `download`.
    unfoldable pub fetch_and_present : Text → Text → Text → Text → On (Unit {0})
    unfolding ensure_wasm ensure_connected client_get_chunk present
    fetch_and_present multiaddr address filename mime_type = do
      ensure_wasm init
      client ← ensure_connected multiaddr
      address_bytes ← lift (map_err parsing (parse_hex_address address))
      set_status fetching_map
      plaintext ← await_on retrieving (retrieve c (client_get_chunk l client) address_bytes)
      set_status (retrieved (length plaintext))
      present plaintext filename mime_type

    -- The `catch`.
    abbrev pub caught : Result (PageError c.Failure) (Unit {0}) × Page → Page
    caught (ok u, p) = p
    caught (err e, p) = record p { status = failed e }

    unfoldable pub download : Text → Text → Text → Page → Page
    unfolding js_trim fetch_and_present
    download address filename mime_type p =
        let multiaddr = js_trim p.proxy in
        if is_empty multiaddr
        then record p { status = endpoint_missing }
        else record (caught (
            fetch_and_present multiaddr address filename mime_type
              (record p { busy = true; result = [] }))) { busy = false }

    -- The handler of an entry's button.
    unfoldable pub download_entry : Entry → Page → Page
    unfolding download
    download_entry entry p = download entry.address entry.filename entry.media_type p

    -- The handler of the button `fetch-custom`.
    unfoldable pub fetch_custom : Page → Page
    unfolding js_trim is_address_text download
    fetch_custom p =
        let address = js_trim p.address in
        if not (is_address_text address)
        then record p { status = not_an_address }
        else download address (take 12 address ++ codes ".bin") [] p
