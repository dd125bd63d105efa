-- ===== src/Examples/Views.antt =====
-- The view of a retrieval, and two workers, on the small crates.
use autonomi_webrtc_direct_p.Prelude.{
  Bool, ◌||◌, false, true, inl, inr, elem, Bool-cases, eq_of_bytes_eq, ◌≡◌, refl, arith, List, [],
  ◌∷◌, Bytes, Option, some, ok, bytes_eq, if◌then◌else◌,
}
use autonomi_webrtc_direct_p.Prelude.Effects.{Io}
use autonomi_webrtc_direct_p.Client.Retrieval.{Retrieval, supply}
use autonomi_webrtc_direct_p.Client.Retrieval.View.{
  Call, supplying, advancing, calls, view_calls, view,
}
use autonomi_webrtc_direct_p.Client.Retrieval.View.Refines.{calls_refine}
use autonomi_webrtc_direct_p.Browser.Retrieve.Concurrent.{
  Pool, Turns, none_yet, and_then, takes, ends,
}
use autonomi_webrtc_direct_p.Browser.Retrieve.Concurrent.Ends.{turns_made, GoesOn, Turns-GoesOn}
use autonomi_webrtc_direct_p.Browser.Retrieve.Concurrent.Confluent.{SameAsOne, Turns-SameAsOne}
use autonomi_webrtc_direct_p.Prelude.Dict
use autonomi_webrtc_direct_p.Source.{fixture, source_get, fixture_get}
use autonomi_webrtc_direct_p.Browser.Reader.{FetchError}
use autonomi_webrtc_direct_p.Browser.Fetch.{get_chunk}
use autonomi_webrtc_direct_p.System.{Calls, proxy_connection}
use autonomi_webrtc_direct_p.System.Download.{get_chunk-found}
use autonomi_webrtc_direct_p.Examples.Five.{five_fixture}
use autonomi_webrtc_direct_p.Examples.Systems.{
  steady, steady_laws, steady_reliable, cable, cable_laws, fixture-IsModest,
}
use autonomi_webrtc_direct_p.Examples.Toy.{toy, toy_laws, toy_hash}
use autonomi_webrtc_direct_p.Examples.Retrievals.{
  name, root_bytes, start, give, advance_it, nowhere,
}

-- The root map's chunk, a wrong chunk, and a name that is no name.
abbrev session : List Call
session =
    supplying (name 7) root_bytes
    ∷ advancing
    ∷ supplying (name 3) (9 ∷ [])
    ∷ supplying (3 ∷ []) (3 ∷ [])
    ∷ supplying (name 4) (4 ∷ [])
    ∷ supplying (name 3) (3 ∷ [])
    ∷ []

calls_refine_example : calls session start ≡ view_calls session (view start)
calls_refine_example = calls_refine toy toy_laws session start

-- The chunk of three is slow.
abbrev fetched : Bytes → Bytes
fetched address = if bytes_eq address (name 3) then 3 ∷ [] else 4 ∷ []

-- `getChunk` on a link to a proxy that has both.
abbrev fetch_it : Bytes → Io FetchError Calls (Option Bytes)
fetch_it =
    get_chunk (proxy_connection steady cable 9 (source_get toy nowhere (fixture five_fixture)))

three_brought : (s : Calls) → (fetch_it (name 3) s).0 ≡ ok (some (fetched (name 3)))
unfolding source_get fixture_get Dict.get bytes_eq
three_brought s =
    get_chunk-found steady steady_laws steady_reliable cable cable_laws 9
      (source_get toy nowhere (fixture five_fixture)) fixture-IsModest (name 3) (some (3 ∷ [])) s
      refl refl (omega arith)

four_brought : (s : Calls) → (fetch_it (name 4) s).0 ≡ ok (some (fetched (name 4)))
unfolding source_get fixture_get Dict.get bytes_eq
four_brought s =
    get_chunk-found steady steady_laws steady_reliable cable cable_laws 9
      (source_get toy nowhere (fixture five_fixture)) fixture-IsModest (name 4) (some (4 ∷ [])) s
      refl refl (omega arith)

abbrev resolved : Retrieval toy
resolved = advance_it (give 7 root_bytes start)

abbrev both_in : Retrieval toy
both_in = give 3 (3 ∷ []) (give 4 (4 ∷ []) resolved)

abbrev wanted : List Bytes
wanted = name 3 ∷ name 4 ∷ []

-- All addresses are taken.
abbrev stage : List Bytes → Retrieval toy → Pool toy
stage flying r = record { remaining = []; in_flight = flying; retrieval = r }

two_workers :
    Turns toy fetched 2
      (record { remaining = wanted; in_flight = []; retrieval = resolved })
      (stage [] both_in)
unfolding supply bytes_eq
two_workers =
    and_then {q = stage (name 3 ∷ []) (give 4 (4 ∷ []) resolved)}
      (and_then {q = stage (name 4 ∷ name 3 ∷ []) resolved}
        (and_then
          {q = record { remaining = name 4 ∷ []; in_flight = name 3 ∷ []; retrieval = resolved }}
          (and_then none_yet (takes (name 3) (omega arith) refl refl refl))
          (takes (name 4) (omega arith) refl refl refl))
        (ends (name 4) [] (name 3 ∷ []) refl refl refl refl))
      (ends (name 3) [] [] refl refl refl refl)

abbrev unused : Calls
unused = record { opened = 0; request = [] }

Turns-SameAsOne_example : SameAsOne toy toy_laws fetched fetch_it wanted unused resolved both_in
Turns-SameAsOne_example =
    Turns-SameAsOne toy toy_laws fetched fetch_it 2 wanted unused resolved both_in
      (three_brought, (four_brought, tt)) two_workers

second : (a b : Bool) → a || (b || false) ≡ true → a ≡ false → b ≡ true
second a b h other = ground arith

wanted_genuine : (j : Bytes) → elem j wanted ≡ true → toy_hash (fetched j) ≡ j
unfolding bytes_eq
wanted_genuine j h = elim (Bool-cases (bytes_eq (name 3) j)) [
  | inl three ↦ rw (← eq_of_bytes_eq (name 3) j three) refl
  | inr other ↦
      let four : bytes_eq (name 4) j ≡ true =
        second (bytes_eq (name 3) j) (bytes_eq (name 4) j) h other in
      rw (← eq_of_bytes_eq (name 4) j four) refl
]

-- Both are in flight.
two_taken :
    Turns toy fetched 2
      (record { remaining = wanted; in_flight = []; retrieval = resolved })
      (stage (name 4 ∷ name 3 ∷ []) resolved)
two_taken =
    and_then {q = record { remaining = name 4 ∷ []; in_flight = name 3 ∷ []; retrieval = resolved }}
      (and_then none_yet (takes (name 3) (omega arith) refl refl refl))
      (takes (name 4) (omega arith) refl refl refl)

Turns-GoesOn_example :
    GoesOn toy toy_laws fetched 2 wanted
      (stage (name 4 ∷ name 3 ∷ []) resolved)
      (turns_made toy toy_laws fetched two_taken)
Turns-GoesOn_example =
    Turns-GoesOn toy toy_laws fetched 2 wanted resolved (stage (name 4 ∷ name 3 ∷ []) resolved)
      wanted_genuine (omega arith) two_taken
