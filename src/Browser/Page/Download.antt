-- ===== src/Browser/Page/Download.antt =====
-- How `download` ends.
use autonomi_webrtc_direct_p.Prelude.{
  ℕ, ◌≡◌, ◌⊎◌, inl, inr, refl, ap, ◌∙◌, true, false, [], ◌∷◌, ◌++◌, Option, none, some, Bytes,
  Result, ok, err, map_err, length, Bool-cases, Result-cases,
}
use mathlib.Core.Path.{subst}
use autonomi_webrtc_direct_p.Prelude.Effects.{Io, lift, Ends, Ends-at, Ends-bind, ◌>>=◌, ◌>>◌}
use autonomi_webrtc_direct_p.Crates.{Crates}
use autonomi_webrtc_direct_p.Client.Address.{Text, parse_hex_address}
use autonomi_webrtc_direct_p.Client.Retrieval.{is_empty}
use autonomi_webrtc_direct_p.Browser.Retrieve.{retrieve}
use autonomi_webrtc_direct_p.Browser.Connect.{Libp2p, ProxyClient, connect, client_get_chunk}
use autonomi_webrtc_direct_p.Browser.PageText.{js_trim, same_multiaddr, same_multiaddr-some}
use autonomi_webrtc_direct_p.Browser.Page.{
  PageError, endpoint_missing, parsing, retrieving, retrieved, failed, fetching_map, Page, await_on,
  set_status, shown, ensure_wasm, close_client, open_client, reconnect, reuse, ensure_connected,
  present, fetch_and_present, caught, download,
}

module _ (c : Crates) (l : Libp2p) where
  -- While a download is under way, nothing is presented.
  abbrev Blank : Page c l → Type 0
  Blank p = p.result ≡ []

  abbrev Spoiled : PageError c.Failure → Page c l → Type 0
  Spoiled e p = Blank p

  -- A client for the multiaddress is the page's.
  abbrev HasClient : Text → ProxyClient l → Page c l → Type 0
  HasClient multiaddr client p =
      Blank p × (p.client ≡ some client) × (client.multiaddr ≡ some multiaddr)

  open_client-Ends :
      (multiaddr : Text) (p : Page c l)
      → Blank p
      → Ends Spoiled (HasClient multiaddr) (open_client c l multiaddr p)
  unfolding open_client
  open_client-Ends multiaddr p h = go (connect l multiaddr p.world) refl
    where
      go :
          (out : Result ℕ (ProxyClient l) × l.World)
          → connect l multiaddr p.world ≡ out
          → Ends Spoiled (HasClient multiaddr) (open_client c l multiaddr p)
      go (ok client, w) e = rw (e, open_client) (h, refl, refl)
      go (err x, w) e = rw (e, open_client) h

  reconnect-Ends :
      (multiaddr : Text) (p : Page c l)
      → Blank p
      → Ends Spoiled (HasClient multiaddr) (reconnect c l multiaddr p)
  unfolding reconnect
  reconnect-Ends multiaddr p h =
      Ends-bind Spoiled (λ _ q. Blank q) (HasClient multiaddr) (close_client c l)
        (λ _. open_client c l multiaddr) p (go p.client refl)
        (λ _ q k. open_client-Ends multiaddr q k)
    where
      go :
          (k : Option (ProxyClient l))
          → p.client ≡ k
          → Ends Spoiled (λ _ q. Blank q) (close_client c l p)
      go none e = unfold close_client in rw (e, close_client) h
      go (some client) e = unfold close_client in rw (e, close_client) h

  ensure_connected-Ends :
      (multiaddr : Text) (p : Page c l)
      → Blank p
      → Ends Spoiled (HasClient multiaddr) (ensure_connected c l multiaddr p)
  unfolding ensure_connected reuse
  ensure_connected-Ends multiaddr p h = go p.client refl
    where
      go :
          (k : Option (ProxyClient l))
          → p.client ≡ k
          → Ends Spoiled (HasClient multiaddr) (reuse c l k multiaddr p)
      go none e = reconnect-Ends multiaddr p h
      go (some client) e = elim (Bool-cases (same_multiaddr client.multiaddr multiaddr)) [
        | inl same ↦ rw (same, reuse) (h, e, same_multiaddr-some client.multiaddr multiaddr same)
        | inr other ↦ rw (other, reuse) (reconnect-Ends multiaddr p h)
      ]

  module _ (init : Io ℕ l.World (Unit {0})) where
    ensure_wasm-Ends :
        (p : Page c l) → Blank p → Ends Spoiled (λ _ q. Blank q) (ensure_wasm c l init p)
    unfolding ensure_wasm
    ensure_wasm-Ends p h = elim (Bool-cases p.wasm_ready) [
      | inl ready ↦ rw (ready, ensure_wasm) h
      | inr fresh ↦
          rw (fresh, ensure_wasm)
            (elim (Result-cases (init p.world).0) [ inl (u, e) ↦ rw e h | inr (x, e) ↦ rw e h ])
    ]

    -- The world in which the retrieval of a download begins, and that in which it has ended: `start`
    -- is the page as the `try` finds it.
    abbrev pub world_before : Text → Page c l → l.World
    world_before multiaddr start =
        (ensure_connected c l multiaddr (ensure_wasm c l init start).1).1.world

    -- What a download that succeeds has done to the page.
    pub record Downloaded (multiaddr address filename mime_type : Text) (start p : Page c l)
        : Type 0 where
      pub client : ProxyClient l
      pub address_bytes : Bytes
      pub plaintext : Bytes
      pub is_client : p.client ≡ some client
      pub for_multiaddr : client.multiaddr ≡ some multiaddr
      pub parsed : parse_hex_address {F = c.Failure} address ≡ ok address_bytes
      pub fetched :
          (retrieve c (client_get_chunk l client) address_bytes (world_before multiaddr start)).0
          ≡ ok plaintext
      pub is_world :
          p.world
          ≡ (retrieve c (client_get_chunk l client) address_bytes (world_before multiaddr start)).1
      pub is_status : p.status ≡ retrieved (length plaintext)
      pub is_result : p.result ≡ shown plaintext filename mime_type ∷ []

    fetch_and_present-Ends :
        (multiaddr address filename mime_type : Text) (p : Page c l)
        → Blank p
        → Ends Spoiled
            (λ _ q. Downloaded multiaddr address filename mime_type p q)
            (fetch_and_present c l init multiaddr address filename mime_type p)
    unfolding fetch_and_present present
    fetch_and_present-Ends multiaddr address filename mime_type p h =
        Ends-bind Spoiled (λ _ q. Blank q × (q ≡ (ensure_wasm c l init p).1)) Done
          (ensure_wasm c l init) _ p
          (Ends-at Spoiled (λ _ q. Blank q) (ensure_wasm c l init p) (ensure_wasm-Ends p h))
          (λ _ q k.
            Ends-bind Spoiled
              (λ client t.
                HasClient multiaddr client t × (t ≡ (ensure_connected c l multiaddr q).1))
              Done (ensure_connected c l multiaddr) _ q
              (Ends-at Spoiled (HasClient multiaddr) (ensure_connected c l multiaddr q)
                (ensure_connected-Ends multiaddr q k.0))
              (λ client t n. parse client t n.0 (
                ap (λ (u : Page c l). u.world)
                  (n.1 ∙ ap (λ u. (ensure_connected c l multiaddr u).1) k.1))))
      where
        Done : Unit {0} → Page c l → Type 0
        Done _ q = Downloaded multiaddr address filename mime_type p q

        parse :
            (client : ProxyClient l) (q : Page c l)
            → HasClient multiaddr client q
            → q.world ≡ world_before multiaddr p
            → Ends Spoiled Done (
                (do
                  address_bytes ← lift (map_err parsing (parse_hex_address address))
                  set_status c l fetching_map
                  plaintext ←
                      await_on c l retrieving (retrieve c (client_get_chunk l client) address_bytes)
                  set_status c l (retrieved (length plaintext))
                  present c l plaintext filename mime_type)
                  q)
        parse client q (blank, has, named) same =
            elim (Result-cases (parse_hex_address {F = c.Failure} address)) [
              | inr (e, f) ↦ rw f blank
              | inl (bytes, f) ↦
                  rw f
                    (elim (Result-cases (retrieve c (client_get_chunk l client) bytes q.world).0) [
                      | inr (e, g) ↦ rw g blank
                      | inl (x, g) ↦ rw g (record {
                        client = client;
                        address_bytes = bytes;
                        plaintext = x;
                        is_client = has;
                        for_multiaddr = named;
                        parsed = f;
                        fetched =
                            subst (λ w. (retrieve c (client_get_chunk l client) bytes w).0 ≡ ok x)
                              same g;
                        is_world =
                            ap (λ w. (retrieve c (client_get_chunk l client) bytes w).1) same;
                        is_status = refl;
                        is_result = ap (λ r. r ++ (shown x filename mime_type ∷ [])) blank;
                      })
                    ])
            ]

    -- How a page stands after a download through a proxy whose multiaddress was entered: the buttons
    -- are enabled again, and either the content that was retrieved is presented, or nothing is and
    -- the status shows the error.
    pub record Ended (multiaddr address filename mime_type : Text) (start p : Page c l)
        : Type 0 where
      pub idle_again : p.busy ≡ false
      pub outcome :
          Downloaded multiaddr address filename mime_type start p
          ⊎ ((e : PageError c.Failure) × (p.status ≡ failed e) × (p.result ≡ []))

    caught-Ended :
        (multiaddr address filename mime_type : Text) (start : Page c l)
        (out : Result (PageError c.Failure) (Unit {0}) × Page c l)
        → Ends Spoiled (λ _ q. Downloaded multiaddr address filename mime_type start q) out
        → Ended multiaddr address filename mime_type start
            (record (caught c l init out) { busy = false })
    caught-Ended multiaddr address filename mime_type start (ok u, q) d = record {
      idle_again = refl;
      outcome = inl (record {
        client = d.client;
        address_bytes = d.address_bytes;
        plaintext = d.plaintext;
        is_client = d.is_client;
        for_multiaddr = d.for_multiaddr;
        parsed = d.parsed;
        fetched = d.fetched;
        is_world = d.is_world;
        is_status = d.is_status;
        is_result = d.is_result;
      });
    }
    caught-Ended multiaddr address filename mime_type start (err e, q) blank = record {
      idle_again = refl;
      outcome = inr (e, refl, blank);
    }

    -- If the proxy's field is blank, `download` shows an error and changes nothing else. Otherwise,
    -- whatever fails, the buttons are enabled at the end, and one of two things is the case: the
    -- page's client is one for the address in the field, the address text was parsed, `retrieve`
    -- has returned a content over that client from the world that connecting has left, and the page
    -- presents this content alone and shows its length; or the page presents nothing and shows the
    -- error.
    pub download_ends :
        (address filename mime_type : Text) (p : Page c l)
        → (is_empty (js_trim p.proxy) ≡ true
            → download c l init address filename mime_type p
              ≡ record p { status = endpoint_missing })
          × (is_empty (js_trim p.proxy) ≡ false
              → Ended
                  (js_trim p.proxy)
                  address
                  filename
                  mime_type
                  (record p { busy = true; result = [] })
                  (download c l init address filename mime_type p))
    unfolding download
    download_ends address filename mime_type p = (
      λ blank. rw (blank, download) refl,
      λ given.
          rw (given, download)
            (caught-Ended (js_trim p.proxy) address filename mime_type
              (record p { busy = true; result = [] })
              (fetch_and_present c l init (js_trim p.proxy) address filename mime_type
                (record p { busy = true; result = [] }))
              (fetch_and_present-Ends (js_trim p.proxy) address filename mime_type
                (record p { busy = true; result = [] }) refl)),
    )
