-- ===== src/Main.antt =====
-- crates/proxy/src/main.rs: `main`, from the arguments to the event loop.
pub mod Steps
pub mod Chooses
pub mod Serves
pub mod Stable
use Prim.Native.String.{String}
use autonomi_webrtc_direct_p.Prelude.{
  ℕ, List, [], ◌∷◌, ◌++◌, Option, none, some, Bytes, Result, ok, err, codes, map_err,
}
use autonomi_webrtc_direct_p.Prelude.Effects.{Io, pure, lift, wrap, ◌>>=◌, ◌>>◌}
use autonomi_webrtc_direct_p.Crates.{Crates, XorName}
use autonomi_webrtc_direct_p.Source.{
  Network, SourceError, FixtureSource, Source, fixture, network, fixture_new, network_connect,
}
use autonomi_webrtc_direct_p.Identity.{
  Files, Credentials, IdentityError, load_or_create_keypair, load_or_create_certificate,
}
use autonomi_webrtc_direct_p.Start.{
  Directory, DumpError, dump, IpAddr, Segment, Occurrence, Announcement, RunState, run,
}

-- `Args`, as `clap` fills it in.
pub record Args (SocketAddr FilePath V4 V6 : Type 0) : Type 0 where
  pub port : ℕ
  pub bind : IpAddr V4 V6
  pub advertise : Option (IpAddr V4 V6)
  pub state_dir : FilePath
  pub fixture : Option FilePath
  pub bootstrap : List SocketAddr
  pub dump_to : Option FilePath

abbrev pub default_bootstrap : List String
default_bootstrap =
    "207.148.94.42:10000" ∷ "45.77.50.10:10000" ∷ "66.135.23.83:10000" ∷ "149.248.9.2:10000"
    ∷ "49.12.119.240:10000" ∷ "5.161.25.133:10000" ∷ "18.228.202.183:10000" ∷ []

-- What `main` calls of the standard library, of `hex` and of libp2p.
pub record Host (f : Files) (k : Credentials) (n : Network) (V4 V6 P : Type 0) : Type 1 where
  pub join : f.FilePath → Bytes → f.FilePath
  pub create_dir_all : f.FilePath → Io f.Failure f.FileSystem (Unit {0})
  pub encode : Bytes → Bytes
  -- `str::parse::<SocketAddr>`, and the texts that `format!` makes
  pub parse_socket_addr : String → Option n.SocketAddr
  pub ip_text : IpAddr V4 V6 → Bytes
  pub port_text : ℕ → Bytes
  pub Failure : Type 0
  pub Swarm : Type 0
  pub peer_id : k.Keypair → P
  pub build : k.Keypair → k.Certificate → Result Failure Swarm
  pub accept : Swarm → Result Failure (Unit {0})
  pub parse_multiaddr : Bytes → Result Failure (List (Segment V4 V6 P))
  pub listen_on : List (Segment V4 V6 P) → Swarm → Result Failure Swarm
  pub with_p2p : P → List (Segment V4 V6 P) → Option (List (Segment V4 V6 P))
  -- what the swarm and the signal handler report
  pub occurrences : Swarm → List (Occurrence (List (Segment V4 V6 P)))

-- The context that `main` adds to the error of a step.
pub data MainError (F K H G D : Type 0) : Type 0 where
  state_dir_failed : F → MainError F K H G D
  identity_failed : IdentityError F K → MainError F K H G D
  fixture_unread : F → MainError F K H G D
  source_failed : G → MainError F K H G D
  dump_failed : D → MainError F K H G D
  -- the `expect` on the built-in peers
  bootstrap_panicked : MainError F K H G D
  swarm_failed : H → MainError F K H G D
  not_registered : H → MainError F K H G D
  bad_listen_address : H → MainError F K H G D
  not_listening : H → MainError F K H G D

-- What the `match` on `args.fixture` leaves: the early return behind `dump`, or what is served.
pub data Choice (n : Network) : Type 0 where
  dumped : Choice n
  chosen : Source n → Option XorName → Choice n

-- The proxy when it listens.
pub record Proxy (n : Network) (Keypair Certificate Swarm A : Type 0) : Type 0 where
  pub keypair : Keypair
  pub certificate : Certificate
  pub source : Source n
  pub data_map_address : Option XorName
  pub swarm : Swarm
  pub listen_addr : A

pub data Started (n : Network) (Keypair Certificate Swarm A : Type 0) : Type 0 where
  returned : Started n Keypair Certificate Swarm A
  serving : Proxy n Keypair Certificate Swarm A → Started n Keypair Certificate Swarm A

module _ (c : Crates) (n : Network) (f : Files) (k : Credentials) {V4 V6 P : Type 0}
    (host : Host f k n V4 V6 P) where
  open host use {join, create_dir_all, encode}

  abbrev pub Arguments : Type 0
  Arguments = Args n.SocketAddr f.FilePath V4 V6

  abbrev pub Failed : Type 0
  Failed =
      MainError f.Failure k.Failure host.Failure (SourceError c.Failure n.Failure)
        (DumpError f.Failure (SourceError c.Failure n.Failure))

  abbrev pub Multiaddr : Type 0
  Multiaddr = List (Segment V4 V6 P)

  abbrev pub Running : Type 0
  Running = Started n k.Keypair k.Certificate host.Swarm Multiaddr

  -- `tokio::fs::read`
  abbrev pub read_file : f.FilePath → Io f.Failure f.FileSystem Bytes
  read_file path fs = (f.read path fs, fs)

  -- The directory that `dump` writes into.
  abbrev pub directory : f.FilePath → Directory
  directory dir = record {
    S = f.FileSystem;
    Failure = f.Failure;
    encode = encode;
    create_dir_all = create_dir_all dir;
    write = λ name bytes. f.write (join dir name) bytes;
  }

  -- `.iter().map(|peer| peer.parse().expect(…)).collect()`
  unfoldable pub parse_peers : List String → Option (List n.SocketAddr)
  parse_peers [] = some []
  parse_peers (text ∷ rest) = elim (host.parse_socket_addr text) [
    | none ↦ none
    | some peer ↦ elim (parse_peers rest) [ none ↦ none | some peers ↦ some (peer ∷ peers) ]
  ]

  unfoldable pub bootstrap_peers : List n.SocketAddr → Result Failed (List n.SocketAddr)
  unfolding parse_peers
  bootstrap_peers [] = elim (parse_peers default_bootstrap) [
    | none ↦ err bootstrap_panicked
    | some peers ↦ ok peers
  ]
  bootstrap_peers (peer ∷ peers) = ok (peer ∷ peers)

  -- The fixture is built: it is dumped, or served.
  unfoldable pub use_fixture : Arguments → FixtureSource → Io Failed f.FileSystem (Choice n)
  unfolding dump
  use_fixture args source = elim args.dump_to [
    | some dir ↦ do wrap dump_failed (dump c n (directory dir) source); pure dumped
    | none ↦ pure (chosen (fixture source) (some source.data_map_address))
  ]

  -- The `match` on `args.fixture`.
  unfoldable pub choose_source : Arguments → Io Failed f.FileSystem (Choice n)
  unfolding fixture_new network_connect bootstrap_peers
  choose_source args = elim args.fixture [
    | some path ↦ do
      content ← wrap fixture_unread (read_file path)
      source ← lift (map_err source_failed (fixture_new c n content))
      use_fixture args source
    | none ↦ do
      bootstrap ← lift (bootstrap_peers args.bootstrap)
      source ← lift (map_err source_failed (network_connect c n bootstrap))
      pure (chosen (network source) none)
  ]

  -- `format!("/ip4/{}/udp/{}/webrtc-direct", args.bind, args.port)`
  unfoldable pub listen_text : IpAddr V4 V6 → ℕ → Bytes
  listen_text bind port =
      codes "/ip4/"
      ++ (host.ip_text bind ++ (codes "/udp/" ++ (host.port_text port ++ codes "/webrtc-direct")))

  -- From the swarm on.
  unfoldable pub listen :
      Arguments → k.Keypair → k.Certificate → Choice n → Io Failed f.FileSystem Running
  unfolding listen_text
  listen args keypair certificate dumped = pure returned
  listen args keypair certificate (chosen source address) = do
    swarm ← lift (map_err swarm_failed (host.build keypair certificate))
    lift (map_err not_registered (host.accept swarm))
    listen_addr ←
        lift (map_err bad_listen_address (host.parse_multiaddr (listen_text args.bind args.port)))
    listening ← lift (map_err not_listening (host.listen_on listen_addr swarm))
    pure (
        serving (record {
          keypair = keypair;
          certificate = certificate;
          source = source;
          data_map_address = address;
          swarm = listening;
          listen_addr = listen_addr;
        }))

  -- `main` up to the event loop; the generators draw from the two given values.
  unfoldable pub start : Arguments → k.Entropy → k.Entropy → Io Failed f.FileSystem Running
  start args for_key for_cert = do
    wrap state_dir_failed (create_dir_all args.state_dir)
    keypair ←
        wrap identity_failed
          (load_or_create_keypair f k (join args.state_dir (codes "identity.key")) for_key)
    certificate ←
        wrap identity_failed
          (load_or_create_certificate f k (join args.state_dir (codes "cert.pem")) for_cert)
    choice ← choose_source args
    listen args keypair certificate choice

  -- The event loop of a proxy that listens; `none` is the early return.
  unfoldable pub event_loop :
      Option (IpAddr V4 V6) → Running → Option (List (Announcement Multiaddr) × RunState)
  unfolding run
  event_loop advertise returned = none
  event_loop advertise (serving proxy) = some (
      run (host.with_p2p (host.peer_id proxy.keypair)) encode advertise proxy.data_map_address
        (host.occurrences proxy.swarm))
