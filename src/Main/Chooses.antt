-- ===== src/Main/Chooses.antt =====
-- What a proxy that listens has chosen, and from what.
use Prim.Native.String.{String}
use autonomi_webrtc_direct_p.Prelude.{
  List, [], ◌∷◌, ◌≡◌, refl, ap, ap₂, ◌∙◌, map, Option, none, some, Bytes, ok, ◌≢◌, ◌⊎◌, arith, inl,
  inr, Result-cases, Option-cases,
}
use mathlib.Core.Path.{subst, subst₂}
use autonomi_webrtc_direct_p.Prelude.Effects.{wrap, pure, bind_inv}
use autonomi_webrtc_direct_p.Crates.{Crates, XorName}
use autonomi_webrtc_direct_p.Source.{
  Network, Source, FixtureSource, fixture, network, fixture_new, network_connect,
}
use autonomi_webrtc_direct_p.Identity.{Files, Credentials}
use autonomi_webrtc_direct_p.Start.{Segment, dump}
use autonomi_webrtc_direct_p.Main.{
  Host, Choice, dumped, chosen, Arguments, Proxy, serving, choose_source, use_fixture,
  bootstrap_peers, listen, default_bootstrap, parse_peers, listen_text, dump_failed, directory,
}

module _ (c : Crates) (n : Network) (f : Files) (k : Credentials) {V4 V6 P : Type 0}
    (host : Host f k n V4 V6 P) where
  abbrev pub Served : Type 0
  Served = Proxy n k.Keypair k.Certificate host.Swarm (List (Segment V4 V6 P))

  -- The steps behind a proxy that listens.
  pub record Listens (args : Arguments c n f k host) (p : Served) : Type 0 where
    pub swarm : host.Swarm
    pub builds : host.build p.keypair p.certificate ≡ ok swarm
    pub accepts : host.accept swarm ≡ ok tt
    pub address :
        host.parse_multiaddr (listen_text c n f k host args.bind args.port) ≡ ok p.listen_addr
    pub listening : host.listen_on p.listen_addr swarm ≡ ok p.swarm

  pub listen-Listens :
      (args : Arguments c n f k host) (keypair : k.Keypair) (certificate : k.Certificate)
      (choice : Choice n) (fs fs' : f.FileSystem) (p : Served)
      → listen c n f k host args keypair certificate choice fs ≡ (ok (serving p), fs')
      → Listens args p
        × (choice ≡ chosen p.source p.data_map_address)
        × (keypair ≡ p.keypair)
        × (certificate ≡ p.certificate)
        × (fs ≡ fs')
  unfolding listen
  listen-Listens args keypair certificate dumped fs fs' p h = absurd (cc h)
  listen-Listens args keypair certificate (chosen source address) fs fs' p h =
      elim (Result-cases (host.build keypair certificate)) [
        | inr (e, b) ↦ absurd (ground arith)
        | inl (swarm, b) ↦ elim (Result-cases (host.accept swarm)) [
          | inr (e, a) ↦ absurd (ground arith)
          | inl (_, a) ↦
              elim (Result-cases
                (host.parse_multiaddr (listen_text c n f k host args.bind args.port))) [
                  | inr (e, m) ↦ absurd (ground arith)
                  | inl (listen_addr, m) ↦ elim (Result-cases (host.listen_on listen_addr swarm)) [
                    | inr (e, l) ↦ absurd (ground arith)
                    | inl (listening, l) ↦
                        let made : Served = record {
                          keypair = keypair;
                          certificate = certificate;
                          source = source;
                          data_map_address = address;
                          swarm = listening;
                          listen_addr = listen_addr;
                        } in
                        let same : made ≡ p = ground arith in
                        (
                          subst (Listens args) same (record {
                            swarm = swarm;
                            builds = b;
                            accepts = a;
                            address = m;
                            listening = l;
                          }),
                          ap (λ q. chosen q.source q.data_map_address) same,
                          ap (λ q. q.keypair) same,
                          ap (λ q. q.certificate) same,
                          ground arith,
                        )
                  ]
                ]
        ]
      ]

  -- The addresses that the built-in peers spell, in their order.
  abbrev pub IsDefaults : List n.SocketAddr → Type 0
  IsDefaults peers = map host.parse_socket_addr default_bootstrap ≡ map some peers

  -- Where the served chunks come from, on the files that the start has left.
  pub data ServedFrom (args : Arguments c n f k host) (fs : f.FileSystem)
      : Source n → Option XorName → Type 0 where
    from_fixture :
        {path : f.FilePath} {content : Bytes} {made : FixtureSource}
        → args.fixture ≡ some path
        → args.dump_to ≡ none
        → f.read path fs ≡ ok content
        → fixture_new c n content ≡ ok made
        → ServedFrom args fs (fixture made) (some made.data_map_address)
    from_network :
        {peers : List n.SocketAddr} {client : n.Client}
        → args.fixture ≡ none
        → ((args.bootstrap ≢ []) × (peers ≡ args.bootstrap))
          ⊎ ((args.bootstrap ≡ []) × IsDefaults peers)
        → n.connect peers ≡ ok client
        → ServedFrom args fs (network (record { client = client })) none

  parse_peers_lem :
      (texts : List String) (peers : List n.SocketAddr)
      → parse_peers c n f k host texts ≡ some peers
      → map host.parse_socket_addr texts ≡ map some peers
  unfolding parse_peers
  parse_peers_lem [] peers h = let e : [] ≡ peers = cc h in ap (map some) e
  parse_peers_lem (text ∷ rest) peers h = elim (Option-cases (host.parse_socket_addr text)) [
    | inl p ↦ absurd (ground arith)
    | inr (peer, p) ↦ elim (Option-cases (parse_peers c n f k host rest)) [
      | inl q ↦ absurd (ground arith)
      | inr (others, q) ↦
          let e : peer ∷ others ≡ peers = ground arith in
          ap₂ (λ x xs. x ∷ xs) p (parse_peers_lem rest others q) ∙ ap (map some) e
    ]
  ]

  bootstrap_peers_lem :
      (given peers : List n.SocketAddr)
      → bootstrap_peers c n f k host given ≡ ok peers
      → ((given ≢ []) × (peers ≡ given)) ⊎ ((given ≡ []) × IsDefaults peers)
  unfolding bootstrap_peers
  bootstrap_peers_lem (peer ∷ given) peers h = inl (λ e. absurd (cc e), cc h)
  bootstrap_peers_lem [] peers h =
      elim (Option-cases (parse_peers c n f k host default_bootstrap)) [
        | inl p ↦ absurd (ground arith)
        | inr (found, p) ↦
            let e : found ≡ peers = ground arith in
            inr (refl, parse_peers_lem default_bootstrap found p ∙ ap (map some) e)
      ]

  use_fixture_lem :
      (args : Arguments c n f k host) (made : FixtureSource) (fs fs' : f.FileSystem)
      (source : Source n) (address : Option XorName)
      → use_fixture c n f k host args made fs ≡ (ok (chosen source address), fs')
      → (args.dump_to ≡ none)
        × (fixture made ≡ source)
        × (some made.data_map_address ≡ address)
        × (fs ≡ fs')
  unfolding use_fixture
  use_fixture_lem args made fs fs' source address h = elim (Option-cases args.dump_to) [
    | inl p ↦ (p, ground arith, ground arith, ground arith)
    | inr (dir, p) ↦
        let (_, kept, _, e) =
          bind_inv (wrap dump_failed (dump c n (directory c n f k host dir) made))
            (λ _. pure dumped) fs (rw (p, use_fixture) at h) in
        absurd (cc e)
  ]

  pub choose_source-ServedFrom :
      (args : Arguments c n f k host) (fs fs' : f.FileSystem) (source : Source n)
      (address : Option XorName)
      → choose_source c n f k host args fs ≡ (ok (chosen source address), fs')
      → ServedFrom args fs source address × (fs ≡ fs')
  unfolding choose_source network_connect
  choose_source-ServedFrom args fs fs' source address h = elim (Option-cases args.fixture) [
    | inr (path, p) ↦ elim (Result-cases (f.read path fs)) [
      | inr (e, q) ↦ absurd (ground arith)
      | inl (content, q) ↦ elim (Result-cases (fixture_new c n content)) [
        | inr (e, r) ↦ absurd (ground arith)
        | inl (made, r) ↦
            let (undumped, same, addressed, kept) =
              use_fixture_lem args made fs fs' source address (ground arith) in
            (subst₂ (ServedFrom args fs) same addressed (from_fixture p undumped q r), kept)
      ]
    ]
    | inl p ↦ elim (Result-cases (bootstrap_peers c n f k host args.bootstrap)) [
      | inr (e, q) ↦ absurd (ground arith)
      | inl (peers, q) ↦ elim (Result-cases (n.connect peers)) [
        | inr (e, r) ↦ absurd (ground arith)
        | inl (client, r) ↦
            let same : network (record { client = client }) ≡ source = ground arith in
            let addressed : none ≡ address = ground arith in
            (
              subst₂ (ServedFrom args fs) same addressed
                  (from_network p (bootstrap_peers_lem args.bootstrap peers q) r),
              ground arith,
            )
      ]
    ]
  ]
