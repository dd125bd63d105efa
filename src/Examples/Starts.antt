-- ===== src/Examples/Starts.antt =====
-- The start-up theorems: a directory in memory, and an address behind a NAT.

use autonomi_webrtc_direct_p.Prelude.{
  ℕ, ◌≡◌, ◌≢◌, refl, Bool, false, List, [], ◌∷◌, ◌++◌, Option, some, Bytes, ok, err, codes, ◌==◌,
}
use autonomi_webrtc_direct_p.Prelude.Dict
use autonomi_webrtc_direct_p.Start.{
  Directory, DirectoryLaws, panicked, dump, v4, v6, Segment, ip4, ip6, other, advertised,
  Occurrence, ctrl_c, new_listen_addr, connection_established, shut_down, run,
}
use autonomi_webrtc_direct_p.Start.Files.{listing, dump_lem}
use autonomi_webrtc_direct_p.Start.Dial.{SameBeside, fours, sixes, advertised_lem}
use autonomi_webrtc_direct_p.Start.Announces.{run_lem, ends_in_p2p}
use autonomi_webrtc_direct_p.Examples.Toy.{toy}
use autonomi_webrtc_direct_p.Examples.Retrievals.{nowhere, fixture}

abbrev folder : Directory
folder = record {
  S = List (Bytes × Bytes);
  Failure = ℕ;
  encode = λ bytes. bytes ++ bytes;
  create_dir_all = λ s. (ok tt, s);
  write = λ name bytes s. (ok tt, s ++ (name, bytes) ∷ []);
}

abbrev folder_laws : DirectoryLaws folder
folder_laws = record {
  written = λ s. s;
  create_dir_all_ok = λ s h. refl;
  write_ok = λ name bytes s h. refl;
}

dump_lem_example :
    ((dump toy nowhere folder fixture []).0 ≢ err panicked)
    × ((u : Unit {0})
        → (dump toy nowhere folder fixture []).0 ≡ ok u
        → (dump toy nowhere folder fixture []).1
          ≡ []
            ++ (listing folder.encode fixture.chunks (Dict.keys fixture.chunks)
                ++ (codes "data-map-address", folder.encode fixture.data_map_address) ∷ []))
dump_lem_example = dump_lem toy nowhere folder folder_laws fixture []

-- Segments are numbers: port 4001, and peer id 7 with the last one.
abbrev bound : List (Segment ℕ ℕ ℕ)
bound = ip4 0 ∷ ip6 9 ∷ other 4001 ∷ []

advertised_lem_example :
    SameBeside bound (advertised bound (some (v4 5)))
    × (fours (advertised bound (some (v4 5))) ≡ 5 ∷ [])
    × (sixes (advertised bound (some (v4 5))) ≡ 9 ∷ [])
    × SameBeside bound (advertised bound (some (v6 6)))
    × (sixes (advertised bound (some (v6 6))) ≡ 6 ∷ [])
    × (fours (advertised bound (some (v6 6))) ≡ 0 ∷ [])
advertised_lem_example = advertised_lem bound 5 6

abbrev is_seven : ℕ → Bool
is_seven p = p == 7

-- The library's function, as far as these addresses go.
abbrev append_peer : List (Segment ℕ ℕ ℕ) → Option (List (Segment ℕ ℕ ℕ))
append_peer address = some (address ++ other 7 ∷ [])

append_peer_appends :
    (address : List (Segment ℕ ℕ ℕ))
    → ends_in_p2p is_seven address ≡ false
    → append_peer address ≡ some (address ++ other 7 ∷ [])
append_peer_appends address h = refl

abbrev heard_events : List (Occurrence (List (Segment ℕ ℕ ℕ)))
heard_events = connection_established ∷ new_listen_addr bound ∷ ctrl_c ∷ new_listen_addr [] ∷ []

run_lem_example : run append_peer (λ bytes. bytes) (some (v4 5)) (some (1 ∷ [])) heard_events ≡ (
  record {
    multiaddr = advertised bound (some (v4 5)) ++ other 7 ∷ [];
    fixture_address = some (1 ∷ []);
  }
      ∷ [],
  shut_down,
)
run_lem_example =
    run_lem is_seven 7 append_peer append_peer_appends (λ bytes. bytes) (some (v4 5))
      (some (1 ∷ [])) heard_events (refl, tt)
