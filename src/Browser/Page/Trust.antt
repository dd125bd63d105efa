-- ===== src/Browser/Page/Trust.antt =====
-- What the page presents does not depend on the proxy.
use autonomi_webrtc_direct_p.Prelude.{
  ℕ, ◌≡◌, ◌⊎◌, inl, inr, sym, ap, ◌∙◌, true, false, List, [], ◌∷◌, some, Bytes, ok,
}
use mathlib.Core.Path.{subst}
use autonomi_webrtc_direct_p.Prelude.Effects.{Io}
use autonomi_webrtc_direct_p.Crates.{Crates, CrateLaws, Collision}
use autonomi_webrtc_direct_p.Client.Address.{Text, parse_hex_address}
use autonomi_webrtc_direct_p.Client.Retrieval.{Retrieval, is_empty, begin, finish}
use autonomi_webrtc_direct_p.Client.Retrieval.Trust.{Reach}
use autonomi_webrtc_direct_p.Client.Retrieval.Trust.Agreement.{proxy_independence}
use autonomi_webrtc_direct_p.Browser.Retrieve.Steps.{Fetches, Logged, Reach-imp, retrieve-Retrieved}
use autonomi_webrtc_direct_p.Browser.Connect.{Libp2p, ProxyClient, client_get_chunk}
use autonomi_webrtc_direct_p.Browser.PageText.{js_trim}
use autonomi_webrtc_direct_p.Browser.Page.{Page, Presented, shown, download}
use autonomi_webrtc_direct_p.Browser.Page.Download.{world_before, download_ends}

module _ (c : Crates) (l : Libp2p) (init : Io ℕ l.World (Unit {0}))
    (address filename mime_type : Text) (p : Page c l) where
  abbrev pub after : Page c l
  after = download c l init address filename mime_type p

  -- The page as the `try` finds it.
  abbrev tried : Page c l
  tried = record p { busy = true; result = [] }

  -- What the page's client was sent during this download: bytes that one of the fetches has brought
  -- which lead from the world that connecting has left to the one in which the download has ended.
  pub record Sent (bytes : Bytes) : Type 0 where
    pub client : ProxyClient l
    pub log : List Bytes
    pub is_client : after.client ≡ some client
    pub fetches :
        Fetches
          (client_get_chunk l client)
          (world_before c l init (js_trim p.proxy) tried)
          after.world
          log
    pub logged : Logged log bytes

  -- A download that presents something has retrieved it from what it was sent.
  record FromSent (address_bytes content : Bytes) : Type 0 where
    map_bytes : Bytes
    start : Retrieval c
    last : Retrieval c
    map_sent : Sent map_bytes
    begins : begin c address_bytes map_bytes ≡ ok start
    reached : Reach c Sent start last
    finished : finish c last ≡ ok content

  presented :
      (item : Presented)
      → is_empty (js_trim p.proxy) ≡ false
      → after.result ≡ item ∷ []
      → (bytes : Bytes) × (parse_hex_address {F = c.Failure} address ≡ ok bytes)
        × FromSent bytes item.bytes
  unfolding shown
  presented item given h =
      elim ((download_ends c l init address filename mime_type p).1 given).outcome [
        | inr (e, failed, nothing) ↦ absurd (cc (h, nothing))
        | inl d ↦
            let same : shown d.plaintext filename mime_type ≡ item = cc (h, d.is_result) in
            let content : d.plaintext ≡ item.bytes = ap (λ i. i.bytes) same in
            let r =
              retrieve-Retrieved c (client_get_chunk l d.client) d.address_bytes
                (world_before c l init (js_trim p.proxy) tried) d.plaintext d.fetched in
            let sent : (bytes : Bytes) → Logged r.log bytes → Sent bytes = λ bytes there. record {
              client = d.client;
              log = r.log;
              is_client = d.is_client;
              fetches =
                  subst
                    (λ w.
                      Fetches (client_get_chunk l d.client)
                        (world_before c l init (js_trim p.proxy) tried) w r.log)
                    (sym d.is_world) r.fetches;
              logged = there;
            } in
            (
              d.address_bytes,
              d.parsed,
              record {
                map_bytes = r.bytes;
                start = r.start;
                last = r.last;
                map_sent = sent r.bytes r.map_logged;
                begins = r.begins;
                reached = Reach-imp sent r.reached;
                finished = r.finished ∙ ap ok content;
              },
            )
      ]

module _ (c : Crates) (laws : CrateLaws c) (l₁ l₂ : Libp2p) (init₁ : Io ℕ l₁.World (Unit {0}))
    (init₂ : Io ℕ l₂.World (Unit {0})) where
  -- Two pages on which the same address text is downloaded, in two browsers and from any two
  -- proxies whose fields are not blank, present the same bytes if both present something; or else
  -- two different byte strings have one hash, of which the one was brought by a fetch of the first
  -- page's download and the other by a fetch of the second's.
  pub download_independence :
      (address filename₁ filename₂ mime_type₁ mime_type₂ : Text) (p₁ : Page c l₁) (p₂ : Page c l₂)
      (item₁ item₂ : Presented)
      → is_empty (js_trim p₁.proxy) ≡ false
      → is_empty (js_trim p₂.proxy) ≡ false
      → (download c l₁ init₁ address filename₁ mime_type₁ p₁).result ≡ item₁ ∷ []
      → (download c l₂ init₂ address filename₂ mime_type₂ p₂).result ≡ item₂ ∷ []
      → (item₁.bytes ≡ item₂.bytes)
        ⊎ Collision c
            (Sent c l₁ init₁ address filename₁ mime_type₁ p₁)
            (Sent c l₂ init₂ address filename₂ mime_type₂ p₂)
  download_independence address filename₁ filename₂ mime_type₁ mime_type₂ p₁ p₂ item₁ item₂ g₁ g₂ h₁
        h₂ =
      let (bytes₁, a₁, r₁) = presented c l₁ init₁ address filename₁ mime_type₁ p₁ item₁ g₁ h₁ in
      let (bytes₂, a₂, r₂) = presented c l₂ init₂ address filename₂ mime_type₂ p₂ item₂ g₂ h₂ in
      let same : bytes₂ ≡ bytes₁ = cc (a₁, a₂) in
      proxy_independence c laws (Sent c l₁ init₁ address filename₁ mime_type₁ p₁)
        (Sent c l₂ init₂ address filename₂ mime_type₂ p₂) bytes₁ r₁.map_bytes r₂.map_bytes r₁.start
        r₂.start r₁.last r₂.last item₁.bytes item₂.bytes r₁.map_sent r₂.map_sent r₁.begins
        (rw same at r₂.begins) r₁.reached r₂.reached r₁.finished r₂.finished
