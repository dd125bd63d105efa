-- ===== src/Examples/Pages.antt =====
-- The page on a small js-libp2p: nodes are numbers, a connection is its multiaddress, and whatever
-- is asked is answered from a table.
use autonomi_webrtc_direct_p.Prelude.{
  ℕ, suc, ◌≡◌, ◌⊎◌, refl, ap, true, false, List, [], ◌∷◌, ◌++◌, Option, none, some, Bytes, Result,
  ok, err, map, take, length, bytes_eq, codes,
}
use autonomi_webrtc_direct_p.Prelude.Chunks.{chunks}
use autonomi_webrtc_direct_p.Prelude.Dict
use autonomi_webrtc_direct_p.Prelude.Dict.{Dict}
use autonomi_webrtc_direct_p.Prelude.Effects.{Io}
use autonomi_webrtc_direct_p.Crates.{Collision}
use autonomi_webrtc_direct_p.Protocol.{to_be_bytes}
use autonomi_webrtc_direct_p.Client.Address.{
  Text, trim, as_bytes, is_whitespace, hex, join_nibbles, parse_hex_address,
}
use autonomi_webrtc_direct_p.Client.Address.Accepts.{to_lower}
use autonomi_webrtc_direct_p.Client.Retrieval.{
  is_empty, begin, supply, advance, finish, is_complete, required_addresses, collect_chunks,
}
use autonomi_webrtc_direct_p.Browser.Reader.{
  Incoming, ended, delivery, exact_reader, read, fill, join_queue, serve_queue,
}
use autonomi_webrtc_direct_p.Browser.Fetch.{
  receive, receive_status, receive_body, body_of, read_body, get_uint32, get_chunk, send,
  receive_from, exchange,
}
use autonomi_webrtc_direct_p.Browser.Retrieve.{
  retrieve, retrieve_found, drive, conclude, rounds, round, fetch_required, check_stalled, for_each,
  supply_one, supply_found, split_addresses,
}
use autonomi_webrtc_direct_p.Browser.Connect.{Libp2p, ProxyClient, connect, client_get_chunk}
use autonomi_webrtc_direct_p.Browser.PageText.{
  js_trim, is_js_whitespace, is_address_text, starts_with, shorten,
}
use autonomi_webrtc_direct_p.Browser.Page.{
  Page, PageError, idle, endpoint_missing, not_an_address, default_proxy, shown, ensure_wasm,
  ensure_connected, close_client, fetch_and_present, download, fetch_custom,
}
use autonomi_webrtc_direct_p.Browser.Page.Nodes.{
  NodeLaws, ensure_connected_lem, ensure_connected_leaks, Connects, Owns, Leaks,
}
use autonomi_webrtc_direct_p.Browser.Page.Download.{Ended, download_ends}
use autonomi_webrtc_direct_p.Browser.Page.Trust.{Sent, download_independence}
use autonomi_webrtc_direct_p.Browser.Page.Owned.{download_running}
use autonomi_webrtc_direct_p.Browser.Page.Custom.{fetch_custom_lem}
use autonomi_webrtc_direct_p.Examples.Toy.{toy, toy_laws}
use autonomi_webrtc_direct_p.Examples.Retrievals.{name, plaintext, fixture}

record Air : Type 0 where
  nodes : List ℕ
  next : ℕ
  asked : Bytes

abbrev others : List ℕ → List ℕ
others [] = []
others (n ∷ ns) = ns

abbrev answer_with : Option Bytes → Incoming
answer_with none = delivery (1 ∷ []) ended
answer_with (some bytes) = delivery (0 ∷ to_be_bytes (length bytes)) (delivery bytes ended)

-- A multiaddress starts with a slash.
abbrev parse_multiaddr : Text → Result ℕ Text
parse_multiaddr [] = err 7
parse_multiaddr (c ∷ t) = elim (starts_with (codes "/") (c ∷ t)) [
  | true ↦ ok (c ∷ t)
  | false ↦ err 7
]

abbrev lan : Dict Bytes → Libp2p
lan table = record {
  World = Air;
  Node = ℕ;
  Target = Text;
  Link = Text;
  Handle = ℕ;
  create = λ w. (ok w.next, record w { nodes = w.next ∷ w.nodes; next = suc w.next });
  multiaddr = parse_multiaddr;
  dial = λ node target w. (ok target, w);
  stop = λ node w. (ok tt, record w { nodes = others w.nodes });
  remote_peer = λ link. link;
  new_stream = λ link w. (ok 0, w);
  send = λ stream bytes w. (ok true, record w { asked = bytes });
  drained = λ stream w. (ok tt, w);
  deliveries = λ stream w. answer_with (Dict.get table w.asked);
  close = λ stream w. w;
}

created :
    (w : Air) (node : ℕ)
    → ◌≡◌ {A = Result ℕ ℕ} (ok w.next) (ok node)
    → w.next ∷ w.nodes ≡ node ∷ w.nodes
created w node h = let same : w.next ≡ node = cc h in ap (λ n. n ∷ w.nodes) same

stopped : (node : ℕ) (rest : List ℕ) (w : Air) → w.nodes ≡ node ∷ rest → others w.nodes ≡ rest
stopped node rest w h = ap others h

lan_laws : (table : Dict Bytes) → NodeLaws (lan table)
lan_laws table = record {
  running = λ w. w.nodes;
  create_ok = λ w {node} h. created w node h;
  create_err = λ w {e} h. absurd (cc h);
  stop_ok = λ node rest w h _. stopped node rest w h;
  running-dial = λ node target w. refl;
  running-new_stream = λ link w. refl;
  running-send = λ stream bytes w. refl;
  running-drained = λ stream w. refl;
  running-close = λ stream w. refl;
}

abbrev load : Io ℕ Air (Unit {0})
load w = (ok tt, w)

abbrev seven : Text
seven = hex (name 7)

abbrev fresh : (table : Dict Bytes) → Text → Page toy (lan table)
fresh table proxy = record {
  world = record { nodes = []; next = 0; asked = [] };
  client = none;
  wasm_ready = false;
  status = idle;
  busy = false;
  result = [];
  proxy = proxy;
  address = seven;
}

shortened : shorten default_proxy ≡ codes "168.119.152.203:4001"
unfolding shorten
shortened = refl

presents :
    (download toy
      (lan fixture.chunks)
      load
      seven
      (codes "f")
      []
      (fresh fixture.chunks (codes " /p "))).result
    ≡ shown plaintext (codes "f") [] ∷ []
unfolding download fetch_and_present js_trim is_js_whitespace is_whitespace ensure_wasm
    ensure_connected connect client_get_chunk receive receive_status receive_body body_of read_body
    get_uint32 exact_reader read fill join_queue serve_queue get_chunk send receive_from exchange
    retrieve retrieve_found drive conclude rounds round fetch_required check_stalled for_each
    supply_one supply_found split_addresses begin supply advance finish is_complete
    required_addresses collect_chunks Dict.get Dict.contains_key Dict.insert Dict.remove bytes_eq
    chunks parse_hex_address trim as_bytes hex join_nibbles to_be_bytes starts_with
presents = refl

abbrev page : Page toy (lan fixture.chunks)
page = fresh fixture.chunks (codes " /p ")

-- Another proxy, which has nothing.
abbrev empty_page : Page toy (lan [])
empty_page = fresh [] (codes "/q")

download_ends_example :
    (is_empty (js_trim page.proxy) ≡ true
      → download toy (lan fixture.chunks) load seven (codes "f") [] page
        ≡ record page { status = endpoint_missing })
    × (is_empty (js_trim page.proxy) ≡ false
        → Ended toy
            (lan fixture.chunks)
            load
            (js_trim page.proxy)
            seven
            (codes "f")
            []
            (record page { busy = true; result = [] })
            (download toy (lan fixture.chunks) load seven (codes "f") [] page))
download_ends_example = download_ends toy (lan fixture.chunks) load seven (codes "f") [] page

given : is_empty (js_trim page.proxy) ≡ false
unfolding js_trim is_js_whitespace is_whitespace
given = refl

download_independence_example :
    (plaintext ≡ plaintext)
    ⊎ Collision toy
        (Sent toy (lan fixture.chunks) load seven (codes "f") [] page)
        (Sent toy (lan fixture.chunks) load seven (codes "f") [] page)
unfolding shown
download_independence_example =
    download_independence toy toy_laws (lan fixture.chunks) (lan fixture.chunks) load load seven
      (codes "f") (codes "f") [] [] page page (shown plaintext (codes "f") [])
      (shown plaintext (codes "f") []) given given presents presents

download_running_example :
    Owns toy (lan []) (lan_laws []) [] (download toy (lan []) load seven (codes "f") [] empty_page)
    ⊎ Leaks toy
        (lan [])
        (lan_laws [])
        []
        (download toy (lan []) load seven (codes "f") [] empty_page)
unfolding lan_laws
download_running_example =
    download_running toy (lan []) (lan_laws []) [] load (λ w. refl) seven (codes "f") [] empty_page
      refl (λ client w h. absurd (cc h))

ensure_connected_lem_example :
    Connects toy
      (lan [])
      (lan_laws [])
      []
      (codes "/q")
      (ensure_connected toy (lan []) (codes "/q") empty_page)
    × ((client : ProxyClient (lan []))
        → ◌≡◌ {A = Option (ProxyClient (lan []))} none (some client)
        → client.multiaddr ≡ some (codes "/q")
        → ensure_connected toy (lan []) (codes "/q") empty_page ≡ (ok client, empty_page))
unfolding lan_laws
ensure_connected_lem_example =
    ensure_connected_lem toy (lan []) (lan_laws []) [] (codes "/q") empty_page refl
      (λ client w h. absurd (cc h))

ensure_connected_leaks_example :
    (x : PageError ℕ) × ((ensure_connected toy (lan []) (codes "q") empty_page).0 ≡ err x)
    × ((ensure_connected toy (lan []) (codes "q") empty_page).1.client ≡ none)
    × ((ensure_connected toy (lan []) (codes "q") empty_page).1.world.nodes ≡ 0 ∷ [])
unfolding lan_laws close_client starts_with
ensure_connected_leaks_example =
    ensure_connected_leaks toy (lan []) (lan_laws []) [] (codes "q") 7 0 empty_page refl
      (λ client w h. absurd (cc h)) (λ client h. absurd (cc h)) refl refl

fetch_custom_lem_example :
    (is_address_text (js_trim seven) ≡ false
      → fetch_custom toy (lan []) load empty_page ≡ record empty_page { status = not_an_address })
    × (is_address_text (js_trim seven) ≡ true
        → (fetch_custom toy (lan []) load empty_page
            ≡ download toy
                (lan [])
                load
                (js_trim seven)
                (take 12 (js_trim seven) ++ codes ".bin")
                []
                empty_page)
          × (bytes : Bytes) × (parse_hex_address {F = ℕ} (js_trim seven) ≡ ok bytes)
          × (length bytes ≡ 32)
          × (hex bytes ≡ map to_lower (js_trim seven)))
fetch_custom_lem_example = fetch_custom_lem toy (lan []) load empty_page
