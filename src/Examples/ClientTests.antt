-- ===== src/Examples/ClientTests.antt =====
-- The client's tests on the small crates.
use mathlib.Core.List.Permᴰ
use autonomi_webrtc_direct_p.Prelude.{◌≡◌, ◌≢◌, ◌⊎◌, refl, arith, [], ◌∷◌, ok, bytes_eq}
use autonomi_webrtc_direct_p.Prelude.Chunks.{chunks}
use autonomi_webrtc_direct_p.Prelude.Dict
use autonomi_webrtc_direct_p.Crates.{Collision}
use autonomi_webrtc_direct_p.Client.Address.{trim, as_bytes, join_nibbles, is_whitespace}
use autonomi_webrtc_direct_p.Client.Retrieval.{
  begin, supply, advance, finish, is_complete, required_addresses, collect_chunks,
}
use autonomi_webrtc_direct_p.Client.Upload.{upload, wrap_map, store_all}
use autonomi_webrtc_direct_p.Client.Driver.{store_get, drive_stored, supply_stored, retrieve_stored}
use autonomi_webrtc_direct_p.Client.Tests.{
  content, retrieves_a_flat_data_map, rejects_a_tampered_chunk, rejects_a_substituted_chunk,
  rejects_a_tampered_data_map, parses_hex_addresses,
}
use autonomi_webrtc_direct_p.Client.Tests.Start.{flat_store}
use autonomi_webrtc_direct_p.Client.Tests.Tampered.{IsTampered}
use autonomi_webrtc_direct_p.Client.Tests.Rejects.{rejects_lem}
use autonomi_webrtc_direct_p.Browser.Retrieve.Uploaded.Rounds.{IsIn}
use autonomi_webrtc_direct_p.Examples.Toy.{toy, toy_laws, toy_upload}
use autonomi_webrtc_direct_p.Examples.Five.{five, five_map, five_chunks, five_bytes}
use autonomi_webrtc_direct_p.Examples.Retrievals.{name}
use autonomi_webrtc_direct_p.Examples.Uploads.{toy_shrink}

contents : content 3 ≡ 0 ∷ 1 ∷ 2 ∷ []
unfolding content
contents = refl

parses : parses_hex_addresses toy ≡ ok tt
unfolding parses_hex_addresses trim as_bytes is_whitespace chunks bytes_eq join_nibbles
parses = refl

passes : retrieves_a_flat_data_map toy toy_shrink five ≡ ok tt
unfolding retrieves_a_flat_data_map upload wrap_map store_all retrieve_stored store_get drive_stored
    supply_stored begin supply advance finish is_complete required_addresses collect_chunks Dict.get
    Dict.contains_key Dict.insert Dict.remove bytes_eq chunks
passes = refl

refuses : rejects_a_tampered_chunk toy toy_shrink five ≡ ok tt
unfolding rejects_a_tampered_chunk upload wrap_map store_all store_get begin supply
    required_addresses Dict.get Dict.contains_key Dict.insert Dict.remove bytes_eq
refuses = refl

one_or_two : name 1 ≢ name 2
one_or_two e = absurd (cc e)

rejects_lem_example :
    ((rejects_a_tampered_chunk toy toy_shrink five ≡ ok tt)
      ⊎ Collision toy
          (IsIn (flat_store toy five_chunks five_bytes))
          (IsTampered (flat_store toy five_chunks five_bytes)))
    × (rejects_a_substituted_chunk toy toy_shrink five ≡ ok tt)
    × ((rejects_a_tampered_data_map toy toy_shrink five ≡ ok tt)
        ⊎ Collision toy
            (IsIn (flat_store toy five_chunks five_bytes))
            (IsTampered (flat_store toy five_chunks five_bytes)))
rejects_lem_example =
    rejects_lem toy toy_laws toy_upload toy_shrink five five_bytes five_map five_chunks 1 2
      (3 ∷ 4 ∷ 5 ∷ []) refl refl refl refl (omega arith) (omega arith) one_or_two
