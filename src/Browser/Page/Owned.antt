-- ===== src/Browser/Page/Owned.antt =====
-- A whole download, and the libp2p nodes of the page.
use autonomi_webrtc_direct_p.Prelude.{
  ℕ, ◌≡◌, ◌⊎◌, inl, inr, refl, ◌∙◌, true, false, List, [], Bytes, Result, ok, err, map_err, length,
  Bool-cases, Result-cases,
}
use autonomi_webrtc_direct_p.Prelude.Effects.{Io, lift, Ends, Ends-bind, ◌>>=◌, ◌>>◌}
use autonomi_webrtc_direct_p.Crates.{Crates}
use autonomi_webrtc_direct_p.Client.Address.{Text, parse_hex_address}
use autonomi_webrtc_direct_p.Client.Retrieval.{is_empty}
use autonomi_webrtc_direct_p.Browser.Fetch.Keeps.{get_chunk-Keeps}
use autonomi_webrtc_direct_p.Browser.Retrieve.{retrieve}
use autonomi_webrtc_direct_p.Browser.Retrieve.Keeps.{retrieve-Keeps}
use autonomi_webrtc_direct_p.Browser.Connect.{Libp2p, ProxyClient, connection_of, client_get_chunk}
use autonomi_webrtc_direct_p.Browser.PageText.{js_trim}
use autonomi_webrtc_direct_p.Browser.Page.{
  PageError, parsing, retrieving, retrieved, fetching_map, Page, await_on, set_status, ensure_wasm,
  ensure_connected, present, fetch_and_present, caught, download,
}
use autonomi_webrtc_direct_p.Browser.Page.Nodes.{
  NodeLaws, Owns, Leaks, Stops, Connects, ensure_connected_lem,
}

module _ (c : Crates) (l : Libp2p) (laws : NodeLaws l) (lost : List l.Node)
    (init : Io ℕ l.World (Unit {0}))
    (running-init : (w : l.World) → laws.running (init w).1 ≡ laws.running w) where
  open laws use {running}

  retrieve_running :
      (client : ProxyClient l) (address : Bytes) (w : l.World)
      → running (retrieve c (client_get_chunk l client) address w).1 ≡ running w
  unfolding client_get_chunk
  retrieve_running client address w =
      retrieve-Keeps c (client_get_chunk l client) (λ v. running v ≡ running w)
        (get_chunk-Keeps (connection_of l client.link) (λ v. running v ≡ running w)
          (λ v h. laws.running-new_stream client.link v ∙ h)
          (λ stream bytes v h. laws.running-send stream bytes v ∙ h)
          (λ stream v h. laws.running-drained stream v ∙ h)
          (λ stream v h. laws.running-close stream v ∙ h))
        address w refl

  abbrev Holds : Page c l → Type 0
  Holds p = Owns c l laws lost p ⊎ Leaks c l laws lost p

  abbrev Stays : {A : Type 0} → Result (PageError c.Failure) A × Page c l → Type 0
  Stays (ok a, p) = Owns c l laws lost p
  Stays (err e, p) = Holds p

  -- The two conditions together.
  abbrev Ready : Page c l → Type 0
  Ready p = Owns c l laws lost p × Stops c l laws lost p

  ensure_wasm-Ready :
      (p : Page c l) → Ready p → Ends (λ _ q. Holds q) (λ _ q. Ready q) (ensure_wasm c l init p)
  unfolding ensure_wasm
  ensure_wasm-Ready p (owns, stops) = elim (Bool-cases p.wasm_ready) [
    | inl ready ↦ rw (ready, ensure_wasm) (owns, stops)
    | inr fresh ↦
        rw (fresh, ensure_wasm)
          (elim (Result-cases (init p.world).0) [
            | inl (u, e) ↦ rw e (running-init p.world ∙ owns, stops)
            | inr (x, e) ↦ rw e (inl (running-init p.world ∙ owns))
          ])
  ]

  ensure_connected-Owns :
      (multiaddr : Text) (p : Page c l)
      → Ready p
      → Ends (λ _ q. Holds q) (λ _ q. Owns c l laws lost q) (ensure_connected c l multiaddr p)
  ensure_connected-Owns multiaddr p (owns, stops) =
      go (ensure_connected c l multiaddr p)
        (ensure_connected_lem c l laws lost multiaddr p owns stops).0
    where
      go :
          (out : Result (PageError c.Failure) (ProxyClient l) × Page c l)
          → Connects c l laws lost multiaddr out
          → Ends (λ _ q. Holds q) (λ _ q. Owns c l laws lost q) out
      go (ok client, q) h = h.2
      go (err e, q) h = h.1

  fetch_and_present-Owns :
      (multiaddr address filename mime_type : Text) (p : Page c l)
      → Ready p
      → Ends
          (λ _ q. Holds q)
          (λ _ q. Owns c l laws lost q)
          (fetch_and_present c l init multiaddr address filename mime_type p)
  unfolding fetch_and_present present
  fetch_and_present-Owns multiaddr address filename mime_type p h =
      Ends-bind (λ _ q. Holds q) (λ _ q. Ready q) Done (ensure_wasm c l init) _ p
        (ensure_wasm-Ready p h)
        (λ _ q k.
          Ends-bind (λ _ q. Holds q) (λ _ q. Owns c l laws lost q) Done
            (ensure_connected c l multiaddr) _ q (ensure_connected-Owns multiaddr q k) parse)
    where
      Done : Unit {0} → Page c l → Type 0
      Done _ q = Owns c l laws lost q

      parse :
          (client : ProxyClient l) (q : Page c l)
          → Owns c l laws lost q
          → Ends
              (λ _ q. Holds q)
              Done
              ((do
                address_bytes ← lift (map_err parsing (parse_hex_address address))
                set_status c l fetching_map
                plaintext ←
                    await_on c l retrieving (retrieve c (client_get_chunk l client) address_bytes)
                set_status c l (retrieved (length plaintext))
                present c l plaintext filename mime_type)
                q)
      parse client q owns = elim (Result-cases (parse_hex_address {F = c.Failure} address)) [
        | inr (e, f) ↦ rw f (inl owns)
        | inl (bytes, f) ↦
            let after = retrieve_running client bytes q.world ∙ owns in
            rw f (elim (Result-cases (retrieve c (client_get_chunk l client) bytes q.world).0) [
              | inr (e, g) ↦ rw g (inl after)
              | inl (x, g) ↦ rw g after
            ])
      ]

  caught-Holds :
      (out : Result (PageError c.Failure) (Unit {0}) × Page c l)
      → Ends (λ _ q. Holds q) (λ _ q. Owns c l laws lost q) out
      → Holds (record (caught c l init out) { busy = false })
  caught-Holds (ok u, q) h = inl h
  caught-Holds (err e, q) h = h

  -- From a page of which the client's node is running beside the `lost` ones, and if stopping the
  -- client's node does not fail, a download, however it ends and whatever was entered, leaves running
  -- either the node of the page's client and the lost ones, or one node more without a client to
  -- stop it.
  pub download_running :
      (address filename mime_type : Text) (p : Page c l)
      → Owns c l laws lost p
      → Stops c l laws lost p
      → Owns c l laws lost (download c l init address filename mime_type p)
        ⊎ Leaks c l laws lost (download c l init address filename mime_type p)
  unfolding download
  download_running address filename mime_type p owns stops =
      elim (Bool-cases (is_empty (js_trim p.proxy))) [
        | inl blank ↦ rw (blank, download) (inl owns)
        | inr given ↦
            rw (given, download)
              (caught-Holds
                (fetch_and_present c l init (js_trim p.proxy) address filename mime_type
                  (record p { busy = true; result = [] }))
                (fetch_and_present-Owns (js_trim p.proxy) address filename mime_type
                  (record p { busy = true; result = [] }) (owns, stops)))
      ]
