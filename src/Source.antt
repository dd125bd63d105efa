-- ===== src/Source.antt =====
-- crates/proxy/src/source.rs: where the proxy gets chunk bytes from.
pub mod Addressed
use autonomi_webrtc_direct_p.Prelude.{
  ℕ, ◌≡◌, List, [], ◌∷◌, Option, none, some, Bytes, Result, ok, err, length, map_err, ◌>>=◌,
}
use mathlib.Core.Option
use autonomi_webrtc_direct_p.Prelude.Dict
use autonomi_webrtc_direct_p.Prelude.Dict.{Dict}
use autonomi_webrtc_direct_p.Crates.{Crates, XorName}

-- `ant_core::data::Client`, the client of the live network, and its errors.
pub record Network : Type 1 where
  pub Client : Type 0
  pub SocketAddr : Type 0
  pub Chunk : Type 0
  pub Failure : Type 0
  pub content : Chunk → Bytes
  pub connect : List SocketAddr → Result Failure Client
  pub chunk_get : Client → XorName → Result Failure (Option Chunk)

-- `FixtureSource`
pub record FixtureSource : Type 0 where
  pub chunks : Dict Bytes
  pub data_map_address : XorName
  pub plaintext_len : ℕ
  pub chunk_count : ℕ

-- The context that the code adds to an error of the crate below it.
pub data SourceError (F N : Type 0) : Type 0 where
  encryption_failed : F → SourceError F N
  serialization_failed : F → SourceError F N
  connection_failed : N → SourceError F N
  lookup_failed : XorName → N → SourceError F N

-- `NetworkSource`
pub record NetworkSource (n : Network) : Type 0 where
  pub client : n.Client

pub data Source (n : Network) : Type 0 where
  fixture : FixtureSource → Source n
  network : NetworkSource n → Source n

module _ (c : Crates) (n : Network) where
  abbrev pub Failed : Type 0
  Failed = SourceError c.Failure n.Failure

  unfoldable pub address_of : Bytes → XorName
  address_of bytes = c.hash bytes

  -- The loop of `FixtureSource::new` over the encrypted chunks.
  unfoldable pub insert_chunks : Dict Bytes → List c.EncryptedChunk → Dict Bytes
  unfolding address_of
  insert_chunks d [] = d
  insert_chunks d (chunk ∷ rest) =
      insert_chunks (Dict.insert d (address_of (c.content chunk)) (c.content chunk)) rest

  unfoldable pub fixture_new : Bytes → Result Failed FixtureSource
  unfolding address_of
  fixture_new bytes = do
    (data_map, encrypted) ← map_err encryption_failed (c.encrypt bytes)
    serialized ← map_err serialization_failed (c.to_vec data_map)
    ok (record {
      chunks = Dict.insert (insert_chunks [] encrypted) (address_of serialized) serialized;
      data_map_address = address_of serialized;
      plaintext_len = length bytes;
      chunk_count = length (c.infos data_map);
    })

  unfoldable pub addresses : FixtureSource → List XorName
  addresses source = Dict.keys source.chunks

  unfoldable pub fixture_get : FixtureSource → XorName → Result Failed (Option Bytes)
  fixture_get source address = ok (Dict.get source.chunks address)

  unfoldable pub network_connect : List n.SocketAddr → Result Failed (NetworkSource n)
  network_connect bootstrap = do
    client ← map_err connection_failed (n.connect bootstrap)
    ok (record { client = client })

  unfoldable pub network_get : NetworkSource n → XorName → Result Failed (Option Bytes)
  network_get source address = do
    chunk ← map_err (lookup_failed address) (n.chunk_get source.client address)
    ok (Option.map n.content chunk)

  unfoldable pub source_get : Source n → XorName → Result Failed (Option Bytes)
  unfolding fixture_get network_get
  source_get (fixture source) address = fixture_get source address
  source_get (network source) address = network_get source address
