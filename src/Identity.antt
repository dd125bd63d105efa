-- ===== src/Identity.antt =====
-- crates/proxy/src/main.rs: the identity key and the certificate, kept in files.
pub mod Restart
pub mod Kept
use autonomi_webrtc_direct_p.Prelude.{◌≡◌, Bytes, Result, ok, err, map_err}
use autonomi_webrtc_direct_p.Prelude.Effects.{Io, pure, lift, wrap, ◌>>=◌, ◌>>◌}

-- `tokio::fs` on one file system: reading and writing whole files.
pub record Files : Type 1 where
  pub FileSystem : Type 0
  pub FilePath : Type 0
  pub Failure : Type 0
  pub read : FilePath → FileSystem → Result Failure Bytes
  pub write : FilePath → Bytes → Io Failure FileSystem (Unit {0})

-- A file that was written reads back as what was written.
pub record FileLaws (f : Files) : Type 0 where
  pub read-write :
      (path : f.FilePath) (bytes : Bytes) (fs : f.FileSystem) {u : Unit {0}}
      → (f.write path bytes fs).0 ≡ ok u
      → f.read path (f.write path bytes fs).1 ≡ ok bytes

-- `libp2p::identity::Keypair` and `libp2p_webrtc::tokio::Certificate`: how they are made and stored.
-- `Entropy` is what the generators draw from. `read_to_string` is `read` and `from_utf8`.
pub record Credentials : Type 1 where
  pub Keypair : Type 0
  pub Certificate : Type 0
  pub Entropy : Type 0
  pub Failure : Type 0
  pub generate_ed25519 : Entropy → Keypair
  pub from_protobuf_encoding : Bytes → Result Failure Keypair
  pub to_protobuf_encoding : Keypair → Result Failure Bytes
  pub generate : Entropy → Result Failure Certificate
  pub from_utf8 : Bytes → Result Failure Bytes
  pub from_pem : Bytes → Result Failure Certificate
  pub serialize_pem : Certificate → Bytes

-- What is stored can be loaded.
pub record CredentialLaws (k : Credentials) : Type 0 where
  pub keypair_round_trip :
      (pair : k.Keypair) {bytes : Bytes}
      → k.to_protobuf_encoding pair ≡ ok bytes
      → k.from_protobuf_encoding bytes ≡ ok pair
  pub pem_is_utf8 :
      (cert : k.Certificate) → k.from_utf8 (k.serialize_pem cert) ≡ ok (k.serialize_pem cert)
  pub pem_round_trip : (cert : k.Certificate) → k.from_pem (k.serialize_pem cert) ≡ ok cert

pub data IdentityError (F K : Type 0) : Type 0 where
  undecodable : K → IdentityError F K
  not_encoded : K → IdentityError F K
  not_generated : K → IdentityError F K
  not_persisted : F → IdentityError F K

module _ (f : Files) (k : Credentials) where
  abbrev pub Failed : Type 0
  Failed = IdentityError f.Failure k.Failure

  -- What follows the first `if let` of `load_or_create_keypair`.
  unfoldable pub create_keypair : f.FilePath → k.Entropy → Io Failed f.FileSystem k.Keypair
  create_keypair path entropy = do
    let pair = k.generate_ed25519 entropy
    encoded ← lift (map_err not_encoded (k.to_protobuf_encoding pair))
    wrap not_persisted (f.write path encoded)
    pure pair

  unfoldable pub load_or_create_keypair : f.FilePath → k.Entropy → Io Failed f.FileSystem k.Keypair
  load_or_create_keypair path entropy fs = elim (f.read path fs) [
    | ok encoded ↦ (map_err undecodable (k.from_protobuf_encoding encoded), fs)
    | err _ ↦ create_keypair path entropy fs
  ]

  -- `tokio::fs::read_to_string(path)`, without the error that the code does not look at.
  unfoldable pub read_to_string : f.FilePath → f.FileSystem → Result (Unit {0}) Bytes
  read_to_string path fs = elim (f.read path fs) [
    | ok bytes ↦ map_err (λ _. tt) (k.from_utf8 bytes)
    | err _ ↦ err tt
  ]

  -- What follows the first `if let` of `load_or_create_certificate`.
  unfoldable pub create_certificate : f.FilePath → k.Entropy → Io Failed f.FileSystem k.Certificate
  create_certificate path entropy = do
    certificate ← lift (map_err not_generated (k.generate entropy))
    wrap not_persisted (f.write path (k.serialize_pem certificate))
    pure certificate

  unfoldable pub load_or_create_certificate :
      f.FilePath → k.Entropy → Io Failed f.FileSystem k.Certificate
  unfolding read_to_string
  load_or_create_certificate path entropy fs = elim (read_to_string path fs) [
    | ok pem ↦ (map_err undecodable (k.from_pem pem), fs)
    | err _ ↦ create_certificate path entropy fs
  ]
