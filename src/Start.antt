-- ===== src/Start.antt =====
-- crates/proxy/src/main.rs: `dump`, `advertised`, and the event loop `run`.
pub mod Files
pub mod Dial
pub mod Announces
use mathlib.Core.Option
use autonomi_webrtc_direct_p.Prelude.{
  ◌≡◌, ok, List, [], ◌∷◌, ◌++◌, map, Option, none, some, Bytes, codes, map_err,
}
use autonomi_webrtc_direct_p.Prelude.Effects.{Io, pure, raise, lift, wrap, ◌>>=◌, ◌>>◌}
use autonomi_webrtc_direct_p.Crates.{Crates, XorName}
use autonomi_webrtc_direct_p.Source.{Network, FixtureSource, Failed, addresses, fixture_get}

-- `tokio::fs` below one directory, by the names of the files in it, and `hex::encode`.
pub record Directory : Type 1 where
  pub S : Type 0
  pub Failure : Type 0
  pub encode : Bytes → Bytes
  pub create_dir_all : Io Failure S (Unit {0})
  pub write : Bytes → Bytes → Io Failure S (Unit {0})

-- `written` is what the operations that succeeded have written, in order.
pub record DirectoryLaws (d : Directory) : Type 0 where
  pub written : d.S → List (Bytes × Bytes)
  pub create_dir_all_ok :
      (s : d.S) {u : Unit {0}}
      → (d.create_dir_all s).0 ≡ ok u
      → written (d.create_dir_all s).1 ≡ written s
  pub write_ok :
      (name bytes : Bytes) (s : d.S) {u : Unit {0}}
      → (d.write name bytes s).0 ≡ ok u
      → written (d.write name bytes s).1 ≡ written s ++ (name, bytes) ∷ []

pub data DumpError (F G : Type 0) : Type 0 where
  file : F → DumpError F G
  lookup : G → DumpError F G
  -- `expect` on a missing chunk
  panicked : DumpError F G

module _ (c : Crates) (n : Network) (d : Directory) (source : FixtureSource) where
  abbrev pub Dumping : Type 0 → Type 0
  Dumping A = Io (DumpError d.Failure (Failed c n)) d.S A

  -- `.expect(…)`
  unfoldable pub expect : Option Bytes → Dumping Bytes
  expect none = raise panicked
  expect (some bytes) = pure bytes

  -- The loop over the addresses.
  unfoldable pub dump_chunks : List XorName → Dumping (Unit {0})
  dump_chunks [] = pure tt
  dump_chunks (address ∷ rest) = do
    found ← lift (map_err lookup (fixture_get c n source address))
    bytes ← expect found
    wrap file (d.write (d.encode address) bytes)
    dump_chunks rest

  unfoldable pub dump : Dumping (Unit {0})
  unfolding addresses
  dump = do
    wrap file d.create_dir_all
    dump_chunks (addresses c n source)
    wrap file (d.write (codes "data-map-address") (d.encode source.data_map_address))

-- `std::net::IpAddr`, and the segments of a `Multiaddr`, of which only the IP ones are looked into.
pub data IpAddr (V4 V6 : Type 0) : Type 0 where
  v4 : V4 → IpAddr V4 V6
  v6 : V6 → IpAddr V4 V6

pub data Segment (V4 V6 P : Type 0) : Type 0 where
  ip4 : V4 → Segment V4 V6 P
  ip6 : V6 → Segment V4 V6 P
  other : P → Segment V4 V6 P

module _ {V4 V6 P : Type 0} where
  -- The `match` on a segment and the public address.
  unfoldable pub replace_ip : IpAddr V4 V6 → Segment V4 V6 P → Segment V4 V6 P
  replace_ip (v4 ip) (ip4 bound) = ip4 ip
  replace_ip (v6 ip) (ip6 bound) = ip6 ip
  replace_ip _ segment = segment

  unfoldable pub advertised :
      List (Segment V4 V6 P) → Option (IpAddr V4 V6) → List (Segment V4 V6 P)
  unfolding replace_ip
  advertised address none = address
  advertised address (some public) = map (replace_ip public) address

-- What `run` waits for: the signal, or an event of the swarm.
pub data Occurrence (A : Type 0) : Type 0 where
  ctrl_c : Occurrence A
  new_listen_addr : A → Occurrence A
  connection_established : Occurrence A
  connection_closed : Occurrence A
  -- an event that the loop ignores
  ignored : Occurrence A

-- `Ok(())`, the panic of the `expect`, or still waiting for the next occurrence.
pub data RunState : Type 0 where
  shut_down : RunState
  run_panicked : RunState
  waiting : RunState

-- What one listen address prints: the multiaddr, and the fixture's address if there is one.
pub record Announcement (A : Type 0) : Type 0 where
  pub multiaddr : A
  pub fixture_address : Option Bytes

-- `with_p2p` adds the proxy's peer id, unless the multiaddr has another one.
module _ {V4 V6 P : Type 0} (with_p2p : List (Segment V4 V6 P) → Option (List (Segment V4 V6 P)))
    (encode : Bytes → Bytes) (advertise : Option (IpAddr V4 V6))
    (data_map_address : Option XorName) where
  -- One listen address: what it prints, or the panic of the `expect`.
  unfoldable pub announce : List (Segment V4 V6 P) → Option (Announcement (List (Segment V4 V6 P)))
  unfolding advertised
  announce address = elim (with_p2p (advertised address advertise)) [
    | none ↦ none
    | some dial ↦
        some (record { multiaddr = dial; fixture_address = Option.map encode data_map_address })
  ]

  unfoldable pub run :
      List (Occurrence (List (Segment V4 V6 P)))
      → List (Announcement (List (Segment V4 V6 P))) × RunState
  run [] = ([], waiting)
  run (ctrl_c ∷ rest) = ([], shut_down)
  run (new_listen_addr address ∷ rest) =
      let (printed, state) = run rest in
      elim (announce address) [
        | none ↦ ([], run_panicked)
        | some announcement ↦ (announcement ∷ printed, state)
      ]
  run (connection_established ∷ rest) = run rest
  run (connection_closed ∷ rest) = run rest
  run (ignored ∷ rest) = run rest
