-- ===== src/Identity/Kept.antt =====
-- What a start leaves in the files of the identity, and what a later start makes of it.
use autonomi_webrtc_direct_p.Prelude.{◌≡◌, refl, ap, ◌∙◌, arith, inl, inr, Bytes, ok, Result-cases}
use autonomi_webrtc_direct_p.Prelude.Effects.{then_pure_state}
use autonomi_webrtc_direct_p.Identity.{
  not_persisted, Files, FileLaws, Credentials, CredentialLaws, load_or_create_keypair,
  read_to_string, create_certificate, load_or_create_certificate,
}
use autonomi_webrtc_direct_p.Identity.Restart.{create_keypair_stored, create_certificate_stored}

module _ (f : Files) (k : Credentials) where
  -- The file holds the key.
  pub record HoldsKeypair (path : f.FilePath) (pair : k.Keypair) (fs : f.FileSystem) : Type 0 where
    pub bytes : Bytes
    pub reads : f.read path fs ≡ ok bytes
    pub decodes : k.from_protobuf_encoding bytes ≡ ok pair

  -- The file holds the certificate.
  pub record HoldsCertificate (path : f.FilePath) (cert : k.Certificate) (fs : f.FileSystem)
      : Type 0 where
    pub bytes : Bytes
    pub pem : Bytes
    pub reads : f.read path fs ≡ ok bytes
    pub is_text : k.from_utf8 bytes ≡ ok pem
    pub decodes : k.from_pem pem ≡ ok cert

  pub HoldsKeypair-move :
      (path : f.FilePath) (pair : k.Keypair) (fs gs : f.FileSystem)
      → f.read path gs ≡ f.read path fs
      → HoldsKeypair path pair fs
      → HoldsKeypair path pair gs
  HoldsKeypair-move path pair fs gs e h = record {
    bytes = h.bytes;
    reads = e ∙ h.reads;
    decodes = h.decodes;
  }

  pub HoldsCertificate-move :
      (path : f.FilePath) (cert : k.Certificate) (fs gs : f.FileSystem)
      → f.read path gs ≡ f.read path fs
      → HoldsCertificate path cert fs
      → HoldsCertificate path cert gs
  HoldsCertificate-move path cert fs gs e h = record {
    bytes = h.bytes;
    pem = h.pem;
    reads = e ∙ h.reads;
    is_text = h.is_text;
    decodes = h.decodes;
  }

  pub load_or_create_keypair-HoldsKeypair :
      (path : f.FilePath) (entropy : k.Entropy) (fs : f.FileSystem) (pair : k.Keypair)
      → HoldsKeypair path pair fs
      → load_or_create_keypair f k path entropy fs ≡ (ok pair, fs)
  unfolding load_or_create_keypair
  load_or_create_keypair-HoldsKeypair path entropy fs pair h =
      rw (h.reads, load_or_create_keypair) (rw h.decodes refl)

  pub load_or_create_certificate-HoldsCertificate :
      (path : f.FilePath) (entropy : k.Entropy) (fs : f.FileSystem) (cert : k.Certificate)
      → HoldsCertificate path cert fs
      → load_or_create_certificate f k path entropy fs ≡ (ok cert, fs)
  unfolding load_or_create_certificate read_to_string
  load_or_create_certificate-HoldsCertificate path entropy fs cert h =
      rw (h.reads, load_or_create_certificate) (rw h.is_text (rw h.decodes refl))

module _ (f : Files) (fl : FileLaws f) (k : Credentials) (kl : CredentialLaws k) where
  pub HoldsKeypair-load_or_create_keypair :
      (path : f.FilePath) (entropy : k.Entropy) (fs fs' : f.FileSystem) (pair : k.Keypair)
      → load_or_create_keypair f k path entropy fs ≡ (ok pair, fs')
      → HoldsKeypair f k path pair fs'
  unfolding load_or_create_keypair
  HoldsKeypair-load_or_create_keypair path entropy fs fs' pair h =
      elim (Result-cases (f.read path fs)) [
        | inl (bytes, p) ↦
            let state : fs ≡ fs' = ground arith in
            let decoded : k.from_protobuf_encoding bytes ≡ ok pair = ground arith in
            record { bytes = bytes; reads = rw state at p; decodes = decoded }
        | inr (e, p) ↦
            let (bytes, q, decoded, _) =
              create_keypair_stored f fl k kl path entropy fs fs' pair
                (rw (p, load_or_create_keypair) at h) in
            record { bytes = bytes; reads = q; decodes = decoded }
      ]

  pub HoldsCertificate-load_or_create_certificate :
      (path : f.FilePath) (entropy : k.Entropy) (fs fs' : f.FileSystem) (cert : k.Certificate)
      → load_or_create_certificate f k path entropy fs ≡ (ok cert, fs')
      → HoldsCertificate f k path cert fs'
  unfolding load_or_create_certificate read_to_string
  HoldsCertificate-load_or_create_certificate path entropy fs fs' cert h =
      elim (Result-cases (f.read path fs)) [
        | inr (e, p) ↦ created (rw (p, load_or_create_certificate) at h)
        | inl (bytes, p) ↦ elim (Result-cases (k.from_utf8 bytes)) [
          | inr (e, q) ↦ created (rw q at (rw (p, load_or_create_certificate) at h))
          | inl (pem, q) ↦
              let loaded = rw q at (rw (p, load_or_create_certificate) at h) in
              let state : fs ≡ fs' = ground (arith, loaded) in
              let decoded : k.from_pem pem ≡ ok cert = ground (arith, loaded) in
              record {
                bytes = bytes;
                pem = pem;
                reads = rw state at p;
                is_text = q;
                decodes = decoded;
              }
        ]
      ]
    where
      created :
          create_certificate f k path entropy fs ≡ (ok cert, fs')
          → HoldsCertificate f k path cert fs'
      created run =
          let (bytes, q, text, decoded) =
            create_certificate_stored f fl k kl path entropy fs fs' cert run in
          record { bytes = bytes; pem = bytes; reads = q; is_text = text; decodes = decoded }

  -- Where a write to the file of the certificate leaves another file as it reads, loading or
  -- creating the certificate does.
  pub load_or_create_certificate_elsewhere :
      (path other : f.FilePath) (entropy : k.Entropy) (fs : f.FileSystem)
      (beside : (bytes : Bytes) (hs : f.FileSystem)
        → f.read other (f.write path bytes hs).1 ≡ f.read other hs)
      → f.read other (load_or_create_certificate f k path entropy fs).1 ≡ f.read other fs
  unfolding load_or_create_certificate create_certificate
  load_or_create_certificate_elsewhere path other entropy fs beside =
      elim (Result-cases (read_to_string f k path fs)) [
        | inl (pem, p) ↦ rw (p, load_or_create_certificate) refl
        | inr (e, p) ↦
            rw (p, load_or_create_certificate)
              (elim (Result-cases (k.generate entropy)) [
                | inr (x, q) ↦ rw q refl
                | inl (cert, q) ↦ rw q (
                    ap (f.read other)
                      (then_pure_state not_persisted (f.write path (k.serialize_pem cert)) cert fs)
                    ∙ beside (k.serialize_pem cert) fs)
              ])
      ]
