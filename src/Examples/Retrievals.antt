-- ===== src/Examples/Retrievals.antt =====
-- The client's theorems on the small crates: content 3, 4 behind a child map.
use autonomi_webrtc_direct_p.Prelude.{
  ℕ, none, bytes_eq, ◌≡◌, ◌↔◌, ◌⊎◌, refl, true, false, List, [], ◌∷◌, map, Bytes, ok, err,
  replicate, concat,
}
use autonomi_webrtc_direct_p.Prelude.Dict
use autonomi_webrtc_direct_p.Crates.{Collision}
use autonomi_webrtc_direct_p.Source.{Network, FixtureSource, insert_chunks, fixture_new}
use autonomi_webrtc_direct_p.Source.Addressed.{IsAddressed, Uploaded, fixture_new_lem}
use autonomi_webrtc_direct_p.Client.Errors.{incomplete}
use autonomi_webrtc_direct_p.Client.Retrieval.{
  Retrieval, Failed, begin, supply, advance, fetch, finish, is_complete, required_addresses,
  chunks_held, chunk_count, collect_chunks,
}
use autonomi_webrtc_direct_p.Client.Retrieval.Progress.{missing, without}
use autonomi_webrtc_direct_p.Client.Retrieval.Finish.{supply_lem, completion_lem, finish_genuine}
use autonomi_webrtc_direct_p.Client.Retrieval.Trust.{Reach, here, next, supplied, advanced}
use autonomi_webrtc_direct_p.Client.Retrieval.Trust.Agreement.{proxy_independence}
use autonomi_webrtc_direct_p.Examples.Toy.{toy, toy_hash, toy_laws}

abbrev pub name : ℕ → Bytes
name n = replicate 32 n

abbrev pub root_bytes : Bytes
root_bytes = 0 ∷ 3 ∷ 4 ∷ []

abbrev pub child_bytes : Bytes
child_bytes = 1 ∷ 7 ∷ []

abbrev pub plaintext : Bytes
plaintext = 3 ∷ 4 ∷ []

-- What the proxies of these runs send: anything.
abbrev pub Anything : Bytes → Type 0
Anything _ = Unit {0}

abbrev pub start : Retrieval toy
start = record {
  data_map = record { child = true; refs = 7 ∷ [] };
  root_resolved = false;
  cache = [];
}

begins : begin toy (name 8) child_bytes ≡ ok start
unfolding begin bytes_eq
begins = refl

abbrev pub give : ℕ → Bytes → Retrieval toy → Retrieval toy
give n bytes r = (supply toy (name n) bytes r).1

abbrev pub advance_it : Retrieval toy → Retrieval toy
advance_it r = (advance toy r).1

-- An honest run, and one that is also served wrong bytes and gets the chunks in another order.
abbrev honest : Retrieval toy
honest = give 4 (4 ∷ []) (give 3 (3 ∷ []) (advance_it (give 7 root_bytes start)))

abbrev hostile : Retrieval toy
hostile =
    give 3 (3 ∷ [])
      (give 4 (4 ∷ []) (give 3 (9 ∷ []) (advance_it (give 7 root_bytes (give 7 (6 ∷ []) start)))))

honest_path : Reach toy Anything start honest
honest_path =
    next
      (next (next (next here (supplied _ (name 7) root_bytes tt)) (advanced _))
        (supplied _ (name 3) (3 ∷ []) tt))
      (supplied _ (name 4) (4 ∷ []) tt)

hostile_path : Reach toy Anything start hostile
hostile_path =
    next
      (next
        (next
          (next
            (next (next here (supplied _ (name 7) (6 ∷ []) tt)) (supplied _ (name 7) root_bytes tt))
            (advanced _))
          (supplied _ (name 3) (9 ∷ []) tt))
        (supplied _ (name 4) (4 ∷ []) tt))
      (supplied _ (name 3) (3 ∷ []) tt)

honest_finishes : finish toy honest ≡ ok plaintext
unfolding supply advance finish is_complete required_addresses fetch collect_chunks Dict.get
    Dict.contains_key Dict.insert Dict.remove bytes_eq
honest_finishes = refl

hostile_finishes : finish toy hostile ≡ ok plaintext
unfolding supply advance finish is_complete required_addresses fetch collect_chunks Dict.get
    Dict.contains_key Dict.insert Dict.remove bytes_eq
hostile_finishes = refl

proxy_independence_example : (plaintext ≡ plaintext) ⊎ Collision toy Anything Anything
proxy_independence_example =
    proxy_independence toy toy_laws Anything Anything (name 8) child_bytes child_bytes start start
      honest hostile plaintext plaintext tt tt begins begins honest_path hostile_path
      honest_finishes hostile_finishes

finish_genuine_example :
    (chunks : List Bytes) × (map toy.hash chunks ≡ map name hostile.data_map.refs)
    × (toy.decrypt hostile.data_map chunks ≡ ok plaintext)
finish_genuine_example =
    finish_genuine toy toy_laws Anything (name 8) child_bytes start hostile plaintext tt begins
      hostile_path hostile_finishes

supply_lem_example :
    (¬ (toy_hash root_bytes ≡ name 7)
      → (e : Failed toy) × (supply toy (name 7) root_bytes start ≡ (err e, start)))
    × (toy_hash root_bytes ≡ name 7
        → ((supply toy (name 7) root_bytes start).0 ≡ ok tt)
          × (required_addresses toy (supply toy (name 7) root_bytes start).1
              ≡ concat (without toy (name 7) (missing toy [] (7 ∷ [])))))
supply_lem_example = supply_lem toy toy_laws (name 7) root_bytes start

completion_lem_example :
    ((is_complete toy honest ≡ true)
      ↔ ((honest.root_resolved ≡ true) × (chunks_held toy honest ≡ chunk_count toy honest)))
    × (is_complete toy honest ≡ false → finish toy honest ≡ err incomplete)
    × (is_complete toy honest ≡ true
        → (chunks : List Bytes) × (collect_chunks toy honest.cache honest.data_map.refs ≡ ok chunks)
          × (finish toy honest ≡ ok (concat chunks)))
completion_lem_example = completion_lem toy toy_laws honest

abbrev pub nowhere : Network
nowhere = record {
  Client = Unit {0};
  SocketAddr = ℕ;
  Chunk = Bytes;
  Failure = ℕ;
  content = λ bytes. bytes;
  connect = λ peers. ok tt;
  chunk_get = λ client address. ok none;
}

abbrev pub fixture : FixtureSource
fixture = record {
  chunks = (name 7, root_bytes) ∷ (name 4, 4 ∷ []) ∷ (name 3, 3 ∷ []) ∷ [];
  data_map_address = name 7;
  plaintext_len = 2;
  chunk_count = 2;
}

pub fixture_runs : fixture_new toy nowhere plaintext ≡ ok fixture
unfolding fixture_new insert_chunks Dict.insert Dict.remove bytes_eq
fixture_runs = refl

fixture_new_lem_example : IsAddressed toy fixture.chunks × Uploaded toy nowhere plaintext fixture
fixture_new_lem_example = fixture_new_lem toy nowhere plaintext fixture fixture_runs
