-- ===== src/Examples/Disk.antt =====
-- A disk of one file, which can be unreadable or full, and credentials that are numbers.
use autonomi_webrtc_direct_p.Prelude.{
  ℕ, ◌≡◌, refl, [], ◌∷◌, Bytes, Result, ok, err, Option, none, some,
}
use autonomi_webrtc_direct_p.Identity.{Files, FileLaws, Credentials, CredentialLaws}

abbrev pub read_file : Option Bytes → Result ℕ Bytes
read_file none = err 2
read_file (some bytes) = ok bytes

abbrev pub disk : Files
disk = record {
  FileSystem = Option Bytes;
  FilePath = Unit {0};
  Failure = ℕ;
  read = λ path fs. read_file fs;
  write = λ path bytes fs. (ok tt, some bytes);
}

abbrev pub disk_laws : FileLaws disk
disk_laws = record { read-write = λ path bytes fs h. refl }

abbrev pub decode : Bytes → Result ℕ ℕ
decode (n ∷ []) = ok n
decode _ = err 7

abbrev pub numbers : Credentials
numbers = record {
  Keypair = ℕ;
  Certificate = ℕ;
  Entropy = ℕ;
  Failure = ℕ;
  generate_ed25519 = λ n. n;
  from_protobuf_encoding = decode;
  to_protobuf_encoding = λ n. ok (n ∷ []);
  generate = λ n. ok n;
  from_utf8 = λ bytes. ok bytes;
  from_pem = decode;
  serialize_pem = λ n. n ∷ [];
}

pub round_trip :
    (n : ℕ) (bytes : Bytes)
    → ◌≡◌ {A = Result ℕ Bytes} (ok (n ∷ [])) (ok bytes)
    → decode bytes ≡ ok n
round_trip n bytes h = let same : n ∷ [] ≡ bytes = cc h in rw (← same) refl

abbrev pub numbers_laws : CredentialLaws numbers
numbers_laws = record {
  keypair_round_trip = λ n {bytes} h. round_trip n bytes h;
  pem_is_utf8 = λ n. refl;
  pem_round_trip = λ n. refl;
}
