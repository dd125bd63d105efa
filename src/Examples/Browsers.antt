-- ===== src/Examples/Browsers.antt =====
-- The browser's theorems: on pieces of odd sizes, on the stream in memory, and on the small crates.
use autonomi_webrtc_direct_p.Prelude.{
  ◌≢◌, err, ℕ, suc, ◌≡◌, ◌⊎◌, refl, sym, ap, arith, true, [], ◌∷◌, Bytes, Option, Result, some, ok,
  length, bytes_eq,
}
use autonomi_webrtc_direct_p.Prelude.Dict
use autonomi_webrtc_direct_p.Prelude.Dict.{Dict}
use autonomi_webrtc_direct_p.Prelude.Chunks.{chunks}
use autonomi_webrtc_direct_p.Prelude.Effects.{Io}
use autonomi_webrtc_direct_p.Crates.{Collision}
use autonomi_webrtc_direct_p.Browser.Reader.{
  Incoming, ended, delivery, exact_reader, read, fill, join_queue, serve_queue,
}
use autonomi_webrtc_direct_p.Browser.Reader.Exact.{ReadEnds, read-ReadEnds, text}
use autonomi_webrtc_direct_p.Browser.Fetch.{
  Connection, receive, receive_status, receive_body, body_of, read_body, get_uint32, get_chunk,
}
use autonomi_webrtc_direct_p.Browser.Fetch.Closes.{Fetched, get_chunk-Fetched}
use autonomi_webrtc_direct_p.Browser.Exchange.{IsModest, receive-handle_request_lem}
use autonomi_webrtc_direct_p.Handler.{HandleError}
use autonomi_webrtc_direct_p.Browser.Retrieve.{
  stalled, unresolved, retrieve, retrieve_found, drive, conclude, rounds, round, fetch_required,
  check_stalled, for_each, supply_one, supply_found, split_addresses,
}
use autonomi_webrtc_direct_p.Browser.Retrieve.Decides.{retrieve_decides}
use autonomi_webrtc_direct_p.Browser.Retrieve.Steps.{retrieve_independence}
use autonomi_webrtc_direct_p.Browser.Retrieve.Fixture.{IsStocked, IsAmong, retrieve-fixture_new}
use autonomi_webrtc_direct_p.Client.Retrieval.{
  begin, supply, advance, fetch, finish, is_complete, required_addresses, collect_chunks,
}
use autonomi_webrtc_direct_p.Examples.Memory.{memory, memory_laws}
use autonomi_webrtc_direct_p.Examples.Toy.{toy, toy_laws, toy_upload}
use autonomi_webrtc_direct_p.Examples.Proxy.{two_bytes, client, served, get, request_runs}
use autonomi_webrtc_direct_p.Examples.Five.{five, five_map, five_chunks, five_fixture, five_runs}
use autonomi_webrtc_direct_p.Examples.Retrievals.{
  name, root_bytes, child_bytes, plaintext, nowhere, Anything,
}

-- The response to a request for `two_bytes`, in three pieces, one of them empty.
abbrev pieces : Incoming
pieces = delivery (0 ∷ 0 ∷ []) (delivery [] (delivery (0 ∷ 0 ∷ 2 ∷ 5 ∷ 6 ∷ []) ended))

read-ReadEnds_example :
    ReadEnds 4
      (exact_reader pieces)
      (read 4 (exact_reader pieces)).0
      (read 4 (exact_reader pieces)).1
unfolding exact_reader
read-ReadEnds_example = read-ReadEnds 4 (exact_reader pieces) refl

-- Streams are numbers, and the state counts what has been closed.
abbrev lan : Connection
lan = record {
  S = ℕ;
  Handle = ℕ;
  new_stream = λ s. (ok s, s);
  send = λ stream bytes s. (ok true, s);
  drained = λ stream s. (ok tt, s);
  deliveries = λ stream s. pieces;
  close = λ stream s. suc s;
}

get_chunk-Fetched_example :
    Fetched lan (name 7) 3 (get_chunk lan (name 7) 3).0 (get_chunk lan (name 7) 3).1
get_chunk-Fetched_example = get_chunk-Fetched lan (name 7) 3

get-IsModest : IsModest memory memory_laws get
get-IsModest address bytes h =
    let same : two_bytes ≡ bytes = cc h in
    let long : length bytes ≡ 2 = ap length (sym same) in omega (arith, long)

pieces_received : (receive (exact_reader pieces)).0 ≡ ok (some two_bytes)
unfolding receive receive_status receive_body body_of read_body get_uint32 exact_reader read fill
    join_queue serve_queue
pieces_received = refl

receive-handle_request_lem_example :
    ((found : Option Bytes)
      → (receive (exact_reader pieces)).0 ≡ ok found
      → get (name 7) ≡ ok found)
    × (◌≡◌ {A = Result (HandleError ℕ) (Unit {0})} (ok tt) (ok tt)
        → ◌≡◌ {A = Bytes} [] []
        → (found : Option Bytes) × ((receive (exact_reader pieces)).0 ≡ ok found)
          × (get (name 7) ≡ ok found))
unfolding text
receive-handle_request_lem_example =
    receive-handle_request_lem memory memory_laws 10 get (client 9) served (ok tt) (name 7) [] []
      pieces get-IsModest refl refl refl request_runs refl

arrives : get (name 7) ≡ ok (some two_bytes)
unfolding text
arrives =
    (receive-handle_request_lem memory memory_laws 10 get (client 9) served (ok tt) (name 7) [] []
        pieces get-IsModest refl refl refl request_runs refl).0
      (some two_bytes) pieces_received

-- Fetching from a table, with a count of the requests.
abbrev pub from_table : Dict Bytes → Bytes → Io ℕ ℕ (Option Bytes)
from_table table address s = (ok (Dict.get table address), suc s)

abbrev near : Dict Bytes
near = (name 8, child_bytes) ∷ (name 7, root_bytes) ∷ (name 3, 3 ∷ []) ∷ (name 4, 4 ∷ []) ∷ []

abbrev far : Dict Bytes
far = (name 9, 1 ∷ []) ∷ (name 4, 4 ∷ []) ∷ near

near_retrieved : (retrieve toy (from_table near) (name 8) 0).0 ≡ ok plaintext
unfolding retrieve retrieve_found drive conclude rounds round fetch_required check_stalled for_each
    supply_one supply_found split_addresses begin supply advance fetch finish is_complete
    required_addresses collect_chunks Dict.get Dict.contains_key Dict.insert Dict.remove bytes_eq
    chunks
near_retrieved = refl

far_retrieved : (retrieve toy (from_table far) (name 8) 5).0 ≡ ok plaintext
unfolding retrieve retrieve_found drive conclude rounds round fetch_required check_stalled for_each
    supply_one supply_found split_addresses begin supply advance fetch finish is_complete
    required_addresses collect_chunks Dict.get Dict.contains_key Dict.insert Dict.remove bytes_eq
    chunks
far_retrieved = refl

every_served :
    (table : Dict Bytes) (address bytes : Bytes) (s : ℕ)
    → (from_table table address s).0 ≡ ok (some bytes)
    → Anything bytes
every_served table address bytes s h = tt

retrieve_independence_example : (plaintext ≡ plaintext) ⊎ Collision toy Anything Anything
retrieve_independence_example =
    retrieve_independence toy toy_laws Anything Anything (from_table near) (from_table far)
      (every_served near) (every_served far) (name 8) 0 5 plaintext plaintext near_retrieved
      far_retrieved

from_fixture_answers :
    (address : Bytes) (s : ℕ)
    → length address ≡ 32
    → (from_table five_fixture.chunks address s).0 ≡ ok (Dict.get five_fixture.chunks address)
from_fixture_answers address s h = refl

retrieve-fixture_new_example :
    ((retrieve toy (from_table five_fixture.chunks) (name 15) 0).0 ≡ ok five)
    ⊎ Collision toy (IsStocked five_fixture) (IsAmong toy five_chunks)
retrieve-fixture_new_example =
    retrieve-fixture_new toy toy_laws toy_upload nowhere (from_table five_fixture.chunks)
      five_fixture from_fixture_answers five five_map five_chunks 0 refl refl five_runs

-- The root map's chunk is served under its name, but nothing else is.
abbrev cut_off : Dict Bytes
cut_off = (name 8, child_bytes) ∷ (name 7, root_bytes) ∷ []

retrieve_decides_example :
    ((retrieve toy (from_table cut_off) (name 8) 0).0 ≢ err stalled)
    × ((retrieve toy (from_table cut_off) (name 8) 0).0 ≢ err unresolved)
retrieve_decides_example = retrieve_decides toy toy_laws (from_table cut_off) (name 8) 0
