-- ===== src/Identity/Restart.antt =====
-- The identity and the certificate across restarts of the proxy.
use autonomi_webrtc_direct_p.Prelude.{◌≡◌, refl, sym, arith, inl, inr, Bytes, ok, err, Result-cases}
use autonomi_webrtc_direct_p.Identity.{
  Files, FileLaws, Credentials, CredentialLaws, undecodable, create_keypair, load_or_create_keypair,
  read_to_string, create_certificate, load_or_create_certificate,
}

module _ (f : Files) (fl : FileLaws f) (k : Credentials) (kl : CredentialLaws k) where
  -- A created key is the one in its file.
  pub create_keypair_stored :
      (path : f.FilePath) (entropy : k.Entropy) (fs fs' : f.FileSystem) (pair : k.Keypair)
      → create_keypair f k path entropy fs ≡ (ok pair, fs')
      → (bytes : Bytes) × (f.read path fs' ≡ ok bytes)
        × (k.from_protobuf_encoding bytes ≡ ok pair)
        × (pair ≡ k.generate_ed25519 entropy)
  unfolding create_keypair
  create_keypair_stored path entropy fs fs' pair h =
      elim (Result-cases (k.to_protobuf_encoding (k.generate_ed25519 entropy))) [
        | inr (e, p) ↦ absurd (ground arith)
        | inl (bytes, p) ↦ elim (Result-cases (f.write path bytes fs).0) [
          | inr (e, q) ↦ absurd (ground arith)
          | inl (u, q) ↦
              let state : (f.write path bytes fs).1 ≡ fs' = ground arith in
              let same : k.generate_ed25519 entropy ≡ pair = ground arith in
              (
                bytes,
                rw (← state) (fl.read-write path bytes fs q),
                rw (← same) (kl.keypair_round_trip (k.generate_ed25519 entropy) p),
                sym same,
              )
        ]
      ]

  -- Once the identity is loaded or created, every later start loads the same key and leaves the
  -- files as they are.
  pub load_or_create_keypair_stable :
      (path : f.FilePath) (entropy later : k.Entropy) (fs fs' : f.FileSystem) (pair : k.Keypair)
      → load_or_create_keypair f k path entropy fs ≡ (ok pair, fs')
      → load_or_create_keypair f k path later fs' ≡ (ok pair, fs')
  unfolding load_or_create_keypair
  load_or_create_keypair_stable path entropy later fs fs' pair h =
      elim (Result-cases (f.read path fs)) [
        | inl (bytes, p) ↦
            let state : fs ≡ fs' = ground arith in
            let decoded : k.from_protobuf_encoding bytes ≡ ok pair = ground arith in
            rw (rw state at p, load_or_create_keypair) (rw decoded refl)
        | inr (e, p) ↦
            let (bytes, q, decoded, _) =
              create_keypair_stored path entropy fs fs' pair
                (rw (p, load_or_create_keypair) at h) in
            rw (q, load_or_create_keypair) (rw decoded refl)
      ]

  pub create_certificate_stored :
      (path : f.FilePath) (entropy : k.Entropy) (fs fs' : f.FileSystem) (cert : k.Certificate)
      → create_certificate f k path entropy fs ≡ (ok cert, fs')
      → (bytes : Bytes) × (f.read path fs' ≡ ok bytes)
        × (k.from_utf8 bytes ≡ ok bytes)
        × (k.from_pem bytes ≡ ok cert)
  unfolding create_certificate
  create_certificate_stored path entropy fs fs' cert h = elim (Result-cases (k.generate entropy)) [
    | inr (e, p) ↦ absurd (ground arith)
    | inl (made, p) ↦ elim (Result-cases (f.write path (k.serialize_pem made) fs).0) [
      | inr (e, q) ↦ absurd (ground arith)
      | inl (u, q) ↦
          let state : (f.write path (k.serialize_pem made) fs).1 ≡ fs' = ground arith in
          let same : made ≡ cert = ground arith in
          (
            k.serialize_pem made,
            rw (← state) (fl.read-write path (k.serialize_pem made) fs q),
            kl.pem_is_utf8 made,
            rw (← same) (kl.pem_round_trip made),
          )
    ]
  ]

  -- Once the certificate is loaded or created, every later start loads the same certificate and
  -- leaves the files as they are.
  pub load_or_create_certificate_stable :
      (path : f.FilePath) (entropy later : k.Entropy) (fs fs' : f.FileSystem) (cert : k.Certificate)
      → load_or_create_certificate f k path entropy fs ≡ (ok cert, fs')
      → load_or_create_certificate f k path later fs' ≡ (ok cert, fs')
  unfolding load_or_create_certificate
  load_or_create_certificate_stable path entropy later fs fs' cert h =
      elim (Result-cases (read_to_string f k path fs)) [
        | inl (pem, p) ↦
            let state : fs ≡ fs' = ground arith in
            let decoded : k.from_pem pem ≡ ok cert = ground arith in
            rw (rw state at p, load_or_create_certificate) (rw decoded refl)
        | inr (e, p) ↦
            let (bytes, q, text, decoded) =
              create_certificate_stored path entropy fs fs' cert
                (rw (p, load_or_create_certificate) at h) in
            rw (q, load_or_create_certificate) (rw (text) (rw decoded refl))
      ]

  -- A file that can be read but not decoded is an error, and no key is generated over it: the files
  -- stay as they are.
  pub load_or_create_keypair_undecodable :
      (path : f.FilePath) (entropy : k.Entropy) (fs : f.FileSystem) (bytes : Bytes) (e : k.Failure)
      → f.read path fs ≡ ok bytes
      → k.from_protobuf_encoding bytes ≡ err e
      → load_or_create_keypair f k path entropy fs ≡ (err (undecodable e), fs)
  unfolding load_or_create_keypair
  load_or_create_keypair_undecodable path entropy fs bytes e p q =
      rw (p, load_or_create_keypair) (rw q refl)
