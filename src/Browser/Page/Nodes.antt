-- ===== src/Browser/Page/Nodes.antt =====
-- The libp2p nodes that the page starts and stops: `connect` and `ensureConnected`.
use autonomi_webrtc_direct_p.Prelude.{
  ℕ, ◌≡◌, ◌≢◌, ◌⊎◌, inl, inr, refl, ap, ◌∙◌, false, List, [], ◌∷◌, ◌++◌, Option, none, some, Bytes,
  Result, ok, err, bytes_eq, bytes_eq_refl, eq_of_bytes_eq, Bool-cases, Result-cases, if◌then◌else◌,
}
use autonomi_webrtc_direct_p.Crates.{Crates}
use autonomi_webrtc_direct_p.Client.Address.{Text}
use autonomi_webrtc_direct_p.Browser.Connect.{Libp2p, ProxyClient, connect, client_close}
use autonomi_webrtc_direct_p.Browser.PageText.{same_multiaddr, same_multiaddr-some}
use autonomi_webrtc_direct_p.Browser.Page.{
  PageError, Page, close_client, open_client, reconnect, reuse, ensure_connected,
}

-- The nodes that are running, as js-libp2p documents its operations: `createLibp2p` starts one,
-- `stop` ends it, and nothing else starts or ends any.
pub record NodeLaws (l : Libp2p) : Type 0 where
  pub running : l.World → List l.Node
  pub create_ok :
      (w : l.World) {node : l.Node}
      → (l.create w).0 ≡ ok node
      → running (l.create w).1 ≡ node ∷ running w
  pub create_err :
      (w : l.World) {e : ℕ} → (l.create w).0 ≡ err e → running (l.create w).1 ≡ running w
  pub stop_ok :
      (node : l.Node) (others : List l.Node) (w : l.World)
      → running w ≡ node ∷ others
      → (l.stop node w).0 ≡ ok tt
      → running (l.stop node w).1 ≡ others
  pub running-dial :
      (node : l.Node) (target : l.Target) (w : l.World)
      → running (l.dial node target w).1 ≡ running w
  pub running-new_stream :
      (link : l.Link) (w : l.World) → running (l.new_stream link w).1 ≡ running w
  pub running-send :
      (stream : l.Handle) (bytes : Bytes) (w : l.World)
      → running (l.send stream bytes w).1 ≡ running w
  pub running-drained :
      (stream : l.Handle) (w : l.World) → running (l.drained stream w).1 ≡ running w
  pub running-close : (stream : l.Handle) (w : l.World) → running (l.close stream w) ≡ running w

module _ (l : Libp2p) (laws : NodeLaws l) where
  open laws use {running}

  -- A connection leaves its node running behind `before`; a failure, possibly a node without an owner.
  abbrev Opened : List l.Node → Result ℕ (ProxyClient l) × l.World → Type 0
  Opened before (ok client, w) = running w ≡ client.node ∷ before
  Opened before (err e, w) = (running w ≡ before) ⊎ ((node : l.Node) × (running w ≡ node ∷ before))

  connect-Opened : (address : Text) (w : l.World) → Opened (running w) (connect l address w)
  unfolding connect
  connect-Opened address w = elim (Result-cases (l.create w).0) [
    | inr (e, p) ↦ rw (p, connect) (inl (laws.create_err w p))
    | inl (node, p) ↦
        let started = laws.create_ok w p in
        rw (p, connect)
          (elim (Result-cases (l.multiaddr address)) [
            | inr (e, q) ↦ rw q (inr (node, started))
            | inl (target, q) ↦
                let w' = (l.create w).1 in
                let same = laws.running-dial node target w' ∙ started in
                rw q (elim (Result-cases (l.dial node target w').0) [
                  | inr (e, d) ↦ rw d (inr (node, same))
                  | inl (link, d) ↦ rw d same
                ])
          ])
  ]

  -- The node of the page's client.
  abbrev pub owned : Option (ProxyClient l) → List l.Node
  owned none = []
  owned (some client) = client.node ∷ []

module _ (c : Crates) (l : Libp2p) (laws : NodeLaws l) (lost : List l.Node) where
  open laws use {running}

  -- The client's node is running, and those that were lost before.
  abbrev pub Owns : Page c l → Type 0
  Owns p = running p.world ≡ owned l laws p.client ++ lost

  -- One node more is lost.
  abbrev pub Leaks : Page c l → Type 0
  Leaks p = (p.client ≡ none) × (node : l.Node) × (running p.world ≡ node ∷ lost)

  -- Stopping the client's node does not fail.
  abbrev pub Stops : Page c l → Type 0
  Stops p =
      (client : ProxyClient l) (w : l.World)
      → p.client ≡ some client
      → (client_close l client w).0 ≡ ok tt

  abbrev pub Connects : Text → Result (PageError c.Failure) (ProxyClient l) × Page c l → Type 0
  Connects multiaddr (ok client, p) =
      (p.client ≡ some client) × (client.multiaddr ≡ some multiaddr) × Owns p
  Connects multiaddr (err e, p) = (p.client ≡ none) × (Owns p ⊎ Leaks p)

  close_client-none :
      (p : Page c l)
      → Owns p
      → Stops p
      → ((close_client c l p).0 ≡ ok tt)
        × ((close_client c l p).1.client ≡ none)
        × (running (close_client c l p).1.world ≡ lost)
  unfolding close_client client_close
  close_client-none p h stops = go p.client refl
    where
      go :
          (k : Option (ProxyClient l))
          → p.client ≡ k
          → ((close_client c l p).0 ≡ ok tt)
            × ((close_client c l p).1.client ≡ none)
            × (running (close_client c l p).1.world ≡ lost)
      go none e = rw (e, close_client) (refl, e, rw e at h)
      go (some client) e =
          rw (e, close_client)
            (refl, refl, laws.stop_ok client.node lost p.world (rw e at h) (stops client p.world e))

  open_client-Connects :
      (multiaddr : Text) (p : Page c l)
      → p.client ≡ none
      → running p.world ≡ lost
      → Connects multiaddr (open_client c l multiaddr p)
  unfolding open_client
  open_client-Connects multiaddr p gone h =
      go (connect l multiaddr p.world) refl (connect-Opened l laws multiaddr p.world)
    where
      go :
          (out : Result ℕ (ProxyClient l) × l.World)
          → connect l multiaddr p.world ≡ out
          → Opened l laws (running p.world) out
          → Connects multiaddr (open_client c l multiaddr p)
      go (ok client, w) e k = rw (e, open_client) (refl, refl, rw h at k)
      go (err x, w) e (inl k) = rw (e, open_client) (gone, inl (rw gone (rw h at k)))
      go (err x, w) e (inr (node, k)) = rw (e, open_client) (gone, inr (gone, node, rw h at k))

  reconnect-Connects :
      (multiaddr : Text) (p : Page c l)
      → Owns p
      → Stops p
      → Connects multiaddr (reconnect c l multiaddr p)
  unfolding reconnect
  reconnect-Connects multiaddr p h stops =
      let (fine, gone, left) = close_client-none p h stops in
      rw (fine, reconnect) (open_client-Connects multiaddr (close_client c l p).1 gone left)

  -- From a page of which the client's node is running beside the `lost` ones, `ensureConnected` has
  -- one of two ends, if stopping the client's node does not fail: it returns the page's client, which
  -- is one for this very multiaddress and the only owner of a node beside the lost ones; or it fails,
  -- the page has no client, and at most one node more is lost. A client for the multiaddress is
  -- returned as it is, and nothing changes.
  pub ensure_connected_lem :
      (multiaddr : Text) (p : Page c l)
      → Owns p
      → Stops p
      → Connects multiaddr (ensure_connected c l multiaddr p)
        × ((client : ProxyClient l)
            → p.client ≡ some client
            → client.multiaddr ≡ some multiaddr
            → ensure_connected c l multiaddr p ≡ (ok client, p))
  unfolding ensure_connected reuse
  ensure_connected_lem multiaddr p h stops = (go p.client refl, reused)
    where
      go :
          (k : Option (ProxyClient l)) → p.client ≡ k → Connects multiaddr (reuse c l k multiaddr p)
      go none e = reconnect-Connects multiaddr p h stops
      go (some client) e = elim (Bool-cases (same_multiaddr client.multiaddr multiaddr)) [
        | inl same ↦ rw (same, reuse) (e, same_multiaddr-some client.multiaddr multiaddr same, h)
        | inr other ↦ rw (other, reuse) (reconnect-Connects multiaddr p h stops)
      ]

      itself :
          (client : ProxyClient l)
          → client.multiaddr ≡ some multiaddr
          → reuse c l (some client) multiaddr p ≡ (ok client, p)
      itself client m =
          unfold reuse in
          ap (λ b. if b then (ok client, p) else reconnect c l multiaddr p)
            (ap (λ o. same_multiaddr o multiaddr) m ∙ bytes_eq_refl multiaddr)

      reused :
          (client : ProxyClient l)
          → p.client ≡ some client
          → client.multiaddr ≡ some multiaddr
          → ensure_connected c l multiaddr p ≡ (ok client, p)
      reused client e m = ap (λ k. reuse c l k multiaddr p) e ∙ itself client m

  -- A text that is no multiaddress costs a node: if the client is for another address, and stopping
  -- its node does not fail, and the new node can be created, then `ensureConnected` fails, the page
  -- has no client, and the new node stays running beside the lost ones.
  pub ensure_connected_leaks :
      (multiaddr : Text) (e : ℕ) (node : l.Node) (p : Page c l)
      → Owns p
      → Stops p
      → ((client : ProxyClient l) → p.client ≡ some client → client.multiaddr ≢ some multiaddr)
      → l.multiaddr multiaddr ≡ err e
      → (l.create (close_client c l p).1.world).0 ≡ ok node
      → (x : PageError c.Failure) × ((ensure_connected c l multiaddr p).0 ≡ err x)
        × ((ensure_connected c l multiaddr p).1.client ≡ none)
        × (running (ensure_connected c l multiaddr p).1.world ≡ node ∷ lost)
  unfolding ensure_connected reuse reconnect open_client connect
  ensure_connected_leaks multiaddr e node p h stops other bad created =
      rw (reconnects p.client refl) (
        let (fine, gone, left) = close_client-none p h stops in
        rw (fine, reconnect)
          (rw (created, connect)
            (rw (bad, connect)
              (_, refl, gone, laws.create_ok _ created ∙ ap (λ ns. node ∷ ns) left))))
    where
      differs : (o : Option Text) → o ≢ some multiaddr → same_multiaddr o multiaddr ≡ false
      differs none n = refl
      differs (some m) n = elim (Bool-cases (bytes_eq m multiaddr)) [
        | inl same ↦ absurd (n (ap some (eq_of_bytes_eq m multiaddr same)))
        | inr q ↦ q
      ]

      reconnects :
          (k : Option (ProxyClient l))
          → p.client ≡ k
          → reuse c l k multiaddr p ≡ reconnect c l multiaddr p
      reconnects none q = refl
      reconnects (some client) q = rw (differs client.multiaddr (other client q), reuse) refl
