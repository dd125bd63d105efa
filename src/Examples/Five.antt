-- ===== src/Examples/Five.antt =====
-- Content of five chunks, which the encryption returns as 2, 3, 4, 0, 1.
use autonomi_webrtc_direct_p.Prelude.{◌≡◌, refl, false, List, [], ◌∷◌, Bytes, ok, bytes_eq}
use autonomi_webrtc_direct_p.Prelude.Dict
use autonomi_webrtc_direct_p.Source.{FixtureSource, insert_chunks, fixture_new}
use autonomi_webrtc_direct_p.Examples.Toy.{toy, ToyMap}
use autonomi_webrtc_direct_p.Examples.Retrievals.{name, nowhere}

abbrev pub five : Bytes
five = 1 ∷ 2 ∷ 3 ∷ 4 ∷ 5 ∷ []

abbrev pub five_map : ToyMap
five_map = record { child = false; refs = five }

abbrev pub five_chunks : List Bytes
five_chunks = (3 ∷ []) ∷ (4 ∷ []) ∷ (5 ∷ []) ∷ (1 ∷ []) ∷ (2 ∷ []) ∷ []

abbrev pub five_bytes : Bytes
five_bytes = 0 ∷ five

abbrev pub five_child_bytes : Bytes
five_child_bytes = 1 ∷ 15 ∷ []

abbrev pub five_fixture : FixtureSource
five_fixture = record {
  chunks =
      (name 15, five_bytes)
      ∷ (name 2, 2 ∷ [])
      ∷ (name 1, 1 ∷ [])
      ∷ (name 5, 5 ∷ [])
      ∷ (name 4, 4 ∷ [])
      ∷ (name 3, 3 ∷ [])
      ∷ [];
  data_map_address = name 15;
  plaintext_len = 5;
  chunk_count = 5;
}

pub five_runs : fixture_new toy nowhere five ≡ ok five_fixture
unfolding fixture_new insert_chunks Dict.insert Dict.remove bytes_eq
five_runs = refl
