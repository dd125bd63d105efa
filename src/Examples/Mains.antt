-- ===== src/Examples/Mains.antt =====
-- The theorems of `main` on a small file system, where files have names.
use autonomi_webrtc_direct_p.Prelude.{
  ℕ, ◌≡◌, ◌≢◌, refl, arith, false, List, [], ◌∷◌, ◌++◌, some, none, Bytes, Result, ok, err,
  bytes_eq, bytes_eq_refl, drop, codes, if◌then◌else◌, ◌==◌,
}
use autonomi_webrtc_direct_p.Prelude.Dict
use autonomi_webrtc_direct_p.Prelude.Dict.{Dict, get-insert}
use autonomi_webrtc_direct_p.Prelude.Effects.{◌>>=◌}
use autonomi_webrtc_direct_p.Source
use autonomi_webrtc_direct_p.Source.{fixture_new, insert_chunks}
use autonomi_webrtc_direct_p.Identity.{
  Files, FileLaws, load_or_create_keypair, create_keypair, load_or_create_certificate,
  create_certificate, read_to_string,
}
use autonomi_webrtc_direct_p.Start.{IpAddr, v4, v6, Segment, ip4}
use autonomi_webrtc_direct_p.Main.{
  Args, Host, serving, start, choose_source, use_fixture, listen, listen_text,
}
use autonomi_webrtc_direct_p.Main.Chooses.{Served}
use autonomi_webrtc_direct_p.Main.Serves.{start_ip6}
use autonomi_webrtc_direct_p.Main.Stable.{HostLaws, start_stable}
use autonomi_webrtc_direct_p.Examples.Disk.{numbers, numbers_laws, read_file}
use autonomi_webrtc_direct_p.Examples.Toy.{toy, toy_laws, toy_upload}
use autonomi_webrtc_direct_p.Examples.Retrievals.{name, nowhere}
use autonomi_webrtc_direct_p.Examples.Five.{five, five_map, five_chunks, five_fixture}
use autonomi_webrtc_direct_p.System.{Calls}
use autonomi_webrtc_direct_p.System.Started.{Delivers, retrieve-start}
use autonomi_webrtc_direct_p.Examples.Systems.{
  steady, steady_laws, steady_reliable, cable, cable_laws, fixture-IsModest,
}

abbrev folder : Files
folder = record {
  FileSystem = Dict Bytes;
  FilePath = Bytes;
  Failure = ℕ;
  read = λ path fs. read_file (Dict.get fs path);
  write = λ path bytes fs. (ok tt, Dict.insert fs path bytes);
}

written_back :
    (path bytes : Bytes) (fs : Dict Bytes)
    → read_file (Dict.get (Dict.insert fs path bytes) path) ≡ ok bytes
written_back path bytes fs = rw (get-insert fs path path bytes) (rw (bytes_eq_refl path) refl)

abbrev folder_laws : FileLaws folder
folder_laws = record { read-write = λ path bytes fs h. written_back path bytes fs }

-- An IPv6 address is written with a colon, and there is none behind `/ip4/`.
abbrev show_ip : IpAddr ℕ ℕ → Bytes
show_ip (v4 n) = n ∷ []
show_ip (v6 n) = 58 ∷ n ∷ []

abbrev read_ip : Bytes → Result ℕ (List (Segment ℕ ℕ ℕ))
read_ip [] = err 3
read_ip (n ∷ rest) = if n == 58 then err 4 else ok (ip4 n ∷ [])

abbrev here : Host folder numbers nowhere ℕ ℕ ℕ
here = record {
  join = λ dir name. dir ++ name;
  create_dir_all = λ dir fs. (ok tt, fs);
  encode = λ bytes. bytes;
  parse_socket_addr = λ text. some 1;
  ip_text = show_ip;
  port_text = λ port. port ∷ [];
  Failure = ℕ;
  Swarm = List (Segment ℕ ℕ ℕ);
  peer_id = λ pair. pair;
  build = λ pair cert. ok [];
  accept = λ swarm. ok tt;
  parse_multiaddr = λ text. read_ip (drop 5 text);
  listen_on = λ address swarm. ok address;
  with_p2p = λ peer address. some address;
  occurrences = λ swarm. [];
}

other_name : (dir a b : Bytes) → bytes_eq a b ≡ false → bytes_eq (dir ++ a) (dir ++ b) ≡ false
unfolding bytes_eq
other_name [] a b h = h
other_name (x ∷ dir) a b h = ground (arith, other_name dir a b h)

beside :
    (dir bytes : Bytes) (fs : Dict Bytes)
    → read_file
        (Dict.get (Dict.insert fs (dir ++ codes "cert.pem") bytes) (dir ++ codes "identity.key"))
      ≡ read_file (Dict.get fs (dir ++ codes "identity.key"))
unfolding bytes_eq
beside dir bytes fs =
    rw (get-insert fs (dir ++ codes "cert.pem") (dir ++ codes "identity.key") bytes)
      (rw (other_name dir (codes "cert.pem") (codes "identity.key") refl) refl)

abbrev here_laws : HostLaws toy nowhere folder numbers here
here_laws = record { cert_beside_key = beside; create_keeps = λ dir path fs. refl }

abbrev args : Args ℕ Bytes ℕ ℕ
args = record {
  port = 9;
  bind = v4 5;
  advertise = none;
  state_dir = 1 ∷ [];
  fixture = some (2 ∷ []);
  bootstrap = [];
  dump_to = none;
}

abbrev before : Dict Bytes
before = (2 ∷ [], five) ∷ []

abbrev proxy : ℕ → ℕ → Served toy nowhere folder numbers here
proxy pair cert = record {
  keypair = pair;
  certificate = cert;
  source = Source.fixture five_fixture;
  data_map_address = some (name 15);
  swarm = ip4 5 ∷ [];
  listen_addr = ip4 5 ∷ [];
}

abbrev after : Dict Bytes
after = (1 ∷ codes "cert.pem", 43 ∷ []) ∷ (1 ∷ codes "identity.key", 42 ∷ []) ∷ (2 ∷ [], five) ∷ []

first_run :
    start toy nowhere folder numbers here args 42 43 before ≡ (ok (serving (proxy 42 43)), after)
unfolding start load_or_create_keypair create_keypair load_or_create_certificate create_certificate
    read_to_string choose_source use_fixture listen listen_text fixture_new insert_chunks Dict.get
    Dict.insert Dict.remove bytes_eq
first_run = refl

-- A later start draws other numbers, and is told to listen elsewhere.
abbrev moved : Args ℕ Bytes ℕ ℕ
moved = record args { bind = v4 6 }

start_stable_example :
    start toy nowhere folder numbers here moved 98 99 after
    ≡ (choose_source toy nowhere folder numbers here moved
          >>= listen toy nowhere folder numbers here moved 42 43)
        after
start_stable_example =
    start_stable toy nowhere folder folder_laws numbers numbers_laws here here_laws args moved 42 43
      98 99 before after after (proxy 42 43) first_run refl refl refl refl

colon_rejected :
    (n : ℕ) (rest : Bytes) (m : List (Segment ℕ ℕ ℕ))
    → read_ip (drop 5 (codes "/ip4/" ++ (show_ip (v6 n) ++ rest))) ≢ ok m
colon_rejected n rest m h = absurd (cc h)

abbrev dual : Args ℕ Bytes ℕ ℕ
dual = record args { bind = v6 1 }

start_ip6_example :
    start toy nowhere folder numbers here dual 42 43 before ≢ (ok (serving (proxy 42 43)), after)
start_ip6_example =
    start_ip6 toy nowhere folder numbers here colon_rejected dual 1 42 43 before after (proxy 42 43)
      refl

-- No stream is open yet.
abbrev idle_calls : Calls
idle_calls = record { opened = 0; request = [] }

served_file : read_file (Dict.get after (2 ∷ [])) ≡ ok five
unfolding Dict.get bytes_eq
served_file = refl

retrieve-start_example :
    Delivers toy nowhere steady cable 9 five five_chunks idle_calls
      (Source.fixture five_fixture)
      (some (name 15))
retrieve-start_example =
    retrieve-start toy toy_laws toy_upload nowhere steady steady_laws steady_reliable cable
      cable_laws folder numbers here 9 args 42 43 before after (proxy 42 43) (2 ∷ []) five five_map
      five_chunks idle_calls first_run refl served_file refl refl fixture-IsModest (omega arith)
