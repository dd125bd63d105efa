-- ===== src/Browser/Page/Presents.antt =====
-- When nothing fails, a download presents the content.
use autonomi_webrtc_direct_p.Prelude.{
  ℕ, ◌≡◌, ◌⊎◌, inl, inr, refl, ap, ◌∙◌, true, false, [], ◌∷◌, ◌++◌, Option, none, some, Bytes,
  Result, ok, err, map_err, length, Bool-cases,
}
use autonomi_webrtc_direct_p.Prelude.Effects.{Io, lift, Ends, Ends-bind, ◌>>=◌, ◌>>◌}
use autonomi_webrtc_direct_p.Crates.{Crates}
use autonomi_webrtc_direct_p.Client.Address.{Text, parse_hex_address}
use autonomi_webrtc_direct_p.Client.Retrieval.{is_empty}
use autonomi_webrtc_direct_p.Browser.Retrieve.{retrieve}
use autonomi_webrtc_direct_p.Browser.Connect.{Libp2p, ProxyClient, connect, client_get_chunk}
use autonomi_webrtc_direct_p.Browser.PageText.{js_trim, same_multiaddr}
use autonomi_webrtc_direct_p.Browser.Page.{
  PageError, parsing, retrieving, retrieved, fetching_map, Page, await_on, set_status, shown,
  ensure_wasm, close_client, open_client, reconnect, reuse, ensure_connected, present,
  fetch_and_present, caught, download,
}

module _ (c : Crates) (l : Libp2p) where
  -- The page presents this content, and shows its length.
  pub record Presents (content filename mime_type : Text) (p : Page c l) : Type 0 where
    pub is_result : p.result ≡ shown content filename mime_type ∷ []
    pub is_status : p.status ≡ retrieved (length content)

module _ (c : Crates) (l : Libp2p) (init : Io ℕ l.World (Unit {0}))
    (loads : (w : l.World) → (init w).0 ≡ ok tt) (multiaddr : Text)
    (connects : (w : l.World) → (client : ProxyClient l) × ((connect l multiaddr w).0 ≡ ok client))
    (Otherwise : Type 0) where
  -- An error happens only otherwise.
  abbrev Bad : PageError c.Failure → Page c l → Type 0
  Bad e p = Otherwise

  abbrev Blank : Page c l → Type 0
  Blank p = p.result ≡ []

  open_client_succeeds :
      (p : Page c l) → Blank p → Ends Bad (λ _ q. Blank q) (open_client c l multiaddr p)
  unfolding open_client
  open_client_succeeds p h = let (client, e) = connects p.world in rw (e, open_client) h

  reconnect_succeeds :
      (p : Page c l) → Blank p → Ends Bad (λ _ q. Blank q) (reconnect c l multiaddr p)
  unfolding reconnect
  reconnect_succeeds p h =
      Ends-bind Bad (λ _ q. Blank q) (λ _ q. Blank q) (close_client c l)
        (λ _. open_client c l multiaddr) p (closes p.client refl)
        (λ _ q k. open_client_succeeds q k)
    where
      closes :
          (k : Option (ProxyClient l))
          → p.client ≡ k
          → Ends Bad (λ _ q. Blank q) (close_client c l p)
      closes none e = unfold close_client in rw (e, close_client) h
      closes (some client) e = unfold close_client in rw (e, close_client) h

  ensure_connected_succeeds :
      (p : Page c l) → Blank p → Ends Bad (λ _ q. Blank q) (ensure_connected c l multiaddr p)
  unfolding ensure_connected reuse
  ensure_connected_succeeds p h = go p.client
    where
      go : (k : Option (ProxyClient l)) → Ends Bad (λ _ q. Blank q) (reuse c l k multiaddr p)
      go none = reconnect_succeeds p h
      go (some client) = elim (Bool-cases (same_multiaddr client.multiaddr multiaddr)) [
        | inl same ↦ rw (same, reuse) h
        | inr other ↦ rw (other, reuse) (reconnect_succeeds p h)
      ]

  ensure_wasm_succeeds :
      (p : Page c l) → Blank p → Ends Bad (λ _ q. Blank q) (ensure_wasm c l init p)
  unfolding ensure_wasm
  ensure_wasm_succeeds p h = elim (Bool-cases p.wasm_ready) [
    | inl ready ↦ rw (ready, ensure_wasm) h
    | inr fresh ↦ rw (fresh, ensure_wasm) (rw (loads p.world) h)
  ]

  module _ (address : Text) (address_bytes content : Bytes)
      (parsed : parse_hex_address {F = c.Failure} address ≡ ok address_bytes)
      (retrieves : (client : ProxyClient l) (w : l.World)
        → ((retrieve c (client_get_chunk l client) address_bytes w).0 ≡ ok content)
          ⊎ Otherwise) where
    fetch_and_present_succeeds :
        (filename mime_type : Text) (p : Page c l)
        → Blank p
        → Ends Bad
            (λ _ q. Presents c l content filename mime_type q ⊎ Otherwise)
            (fetch_and_present c l init multiaddr address filename mime_type p)
    unfolding fetch_and_present present
    fetch_and_present_succeeds filename mime_type p h =
        Ends-bind Bad (λ _ q. Blank q) Done (ensure_wasm c l init) _ p (ensure_wasm_succeeds p h)
          (λ _ q k.
            Ends-bind Bad (λ _ q. Blank q) Done (ensure_connected c l multiaddr) _ q
              (ensure_connected_succeeds q k) finish)
      where
        Done : Unit {0} → Page c l → Type 0
        Done _ q = Presents c l content filename mime_type q ⊎ Otherwise

        fetches :
            (q : Page c l) (client : ProxyClient l)
            → Blank q
            → (r : Result _ Bytes)
            → (retrieve c (client_get_chunk l client) address_bytes q.world).0 ≡ r
            → (r ≡ ok content) ⊎ Otherwise
            → Ends Bad Done (
                (do
                  plaintext ←
                      await_on c l retrieving (retrieve c (client_get_chunk l client) address_bytes)
                  set_status c l (retrieved (length plaintext))
                  present c l plaintext filename mime_type)
                  q)
        fetches q client blank (ok x) g (inl same) =
            let e : x ≡ content = cc same in
            rw g (
              inl (record {
                is_result =
                    ap (λ r. r ++ (shown x filename mime_type ∷ [])) blank
                    ∙ ap (λ y. shown y filename mime_type ∷ []) e;
                is_status = ap (λ y. retrieved (length y)) e;
              }))
        fetches q client blank (ok x) g (inr other) = rw g (inr other)
        fetches q client blank (err e) g (inl same) = absurd (cc same)
        fetches q client blank (err e) g (inr other) = rw g other

        finish :
            (client : ProxyClient l) (q : Page c l)
            → Blank q
            → Ends Bad Done (
                (do
                  address_bytes ← lift (map_err parsing (parse_hex_address address))
                  set_status c l fetching_map
                  plaintext ←
                      await_on c l retrieving (retrieve c (client_get_chunk l client) address_bytes)
                  set_status c l (retrieved (length plaintext))
                  present c l plaintext filename mime_type)
                  q)
        finish client q blank = rw parsed (
            fetches (record q { status = fetching_map }) client blank _ refl
              (retrieves client q.world))

    caught-Presents :
        (filename mime_type : Text) (out : Result (PageError c.Failure) (Unit {0}) × Page c l)
        → Ends Bad (λ _ q. Presents c l content filename mime_type q ⊎ Otherwise) out
        → Presents c l content filename mime_type (record (caught c l init out) { busy = false })
          ⊎ Otherwise
    caught-Presents filename mime_type (ok u, q) (inl d) =
        inl (record { is_result = d.is_result; is_status = d.is_status })
    caught-Presents filename mime_type (ok u, q) (inr other) = inr other
    caught-Presents filename mime_type (err e, q) other = inr other

    -- Nothing fails: the content is presented.
    pub download-Presents :
        (filename mime_type : Text) (p : Page c l)
        → js_trim p.proxy ≡ multiaddr
        → is_empty multiaddr ≡ false
        → Presents c l content filename mime_type (download c l init address filename mime_type p)
          ⊎ Otherwise
    unfolding download
    download-Presents filename mime_type p entered given = rw entered (
        rw (given, download)
          (caught-Presents filename mime_type
            (fetch_and_present c l init multiaddr address filename mime_type
              (record p { busy = true; result = [] }))
            (fetch_and_present_succeeds filename mime_type (record p { busy = true; result = [] })
              refl)))
