-- ===== src/Main/Stable.antt =====
-- The identity of a proxy across starts.
use autonomi_webrtc_direct_p.Prelude.{◌≡◌, refl, sym, ap, ◌∙◌, Bytes, ok}
use mathlib.Core.Path.{subst₂}
use autonomi_webrtc_direct_p.Prelude.Effects.{◌>>=◌}
use autonomi_webrtc_direct_p.Crates.{Crates}
use autonomi_webrtc_direct_p.Source.{Network}
use autonomi_webrtc_direct_p.Identity.{Files, FileLaws, Credentials, CredentialLaws}
use autonomi_webrtc_direct_p.Identity.Kept.{
  HoldsKeypair, HoldsCertificate, HoldsKeypair-move, HoldsCertificate-move,
  HoldsKeypair-load_or_create_keypair, HoldsCertificate-load_or_create_certificate,
  load_or_create_keypair-HoldsKeypair, load_or_create_certificate-HoldsCertificate,
  load_or_create_certificate_elsewhere,
}
use autonomi_webrtc_direct_p.Main.{Host, Arguments, serving, start, choose_source, listen}
use autonomi_webrtc_direct_p.Main.Steps.{start-Steps, key_file, cert_file}
use autonomi_webrtc_direct_p.Main.Chooses.{Served, listen-Listens, choose_source-ServedFrom}

-- Writing the certificate leaves the file of the key as it reads, and so does making a directory
-- with every file.
pub record HostLaws (c : Crates) (n : Network) (f : Files) (k : Credentials) {V4 V6 P : Type 0}
    (host : Host f k n V4 V6 P) : Type 0 where
  pub cert_beside_key :
      (dir : f.FilePath) (bytes : Bytes) (fs : f.FileSystem)
      → f.read (key_file c n f k host dir) (f.write (cert_file c n f k host dir) bytes fs).1
        ≡ f.read (key_file c n f k host dir) fs
  pub create_keeps :
      (dir path : f.FilePath) (fs : f.FileSystem)
      → f.read path (host.create_dir_all dir fs).1 ≡ f.read path fs

module _ (c : Crates) (n : Network) (f : Files) (fl : FileLaws f) (k : Credentials)
    (kl : CredentialLaws k) {V4 V6 P : Type 0} (host : Host f k n V4 V6 P)
    (hl : HostLaws c n f k host) where
  -- The state directory holds the identity of the proxy.
  pub record HoldsIdentity (args : Arguments c n f k host) (p : Served c n f k host)
      (fs : f.FileSystem) : Type 0 where
    pub key : HoldsKeypair f k (key_file c n f k host args.state_dir) p.keypair fs
    pub cert : HoldsCertificate f k (cert_file c n f k host args.state_dir) p.certificate fs

  start-HoldsIdentity :
      (args : Arguments c n f k host) (for_key for_cert : k.Entropy) (fs fs' : f.FileSystem)
      (p : Served c n f k host)
      → start c n f k host args for_key for_cert fs ≡ (ok (serving p), fs')
      → HoldsIdentity args p fs'
  start-HoldsIdentity args for_key for_cert fs fs' p h =
      let s = start-Steps c n f k host args for_key for_cert fs fs' (serving p) h in
      let (_, chose, same_key, same_cert, kept) =
        listen-Listens c n f k host args s.keypair s.certificate s.choice s.with_source fs' p
          s.listens in
      let (_, before) =
        choose_source-ServedFrom c n f k host args s.with_cert s.with_source p.source
          p.data_map_address (rw chose at s.chooses) in
      let key_path = key_file c n f k host args.state_dir in
      let cert_path = cert_file c n f k host args.state_dir in
      let final = before ∙ kept in
      let key =
        HoldsKeypair-load_or_create_keypair f fl k kl key_path for_key s.prepared s.with_key
          s.keypair s.has_key in
      let cert =
        HoldsCertificate-load_or_create_certificate f fl k kl cert_path for_cert s.with_key
          s.with_cert s.certificate s.has_cert in
      let beside =
        load_or_create_certificate_elsewhere f fl k kl cert_path key_path for_cert s.with_key
          (hl.cert_beside_key args.state_dir) in
      record {
        key = subst₂ (HoldsKeypair f k key_path) same_key final (
            HoldsKeypair-move f k key_path s.keypair s.with_key s.with_cert
              (ap (λ r. f.read key_path r.1) (sym s.has_cert) ∙ beside) key);
        cert = subst₂ (HoldsCertificate f k cert_path) same_cert final cert;
      }

  -- Once a proxy has listened, the identity of its state directory is settled: on files where the
  -- identity's two files read as that start left them, and where the state directory can be made,
  -- any later start with the same state directory is the choice of a source and the listening with
  -- the first start's key and certificate, whatever the other arguments and the generators give. It
  -- neither fails before that nor writes anything but the directory.
  pub start_stable :
      (args later : Arguments c n f k host) (for_key for_cert new_key new_cert : k.Entropy)
      (fs fs' gs : f.FileSystem) (p : Served c n f k host)
      → start c n f k host args for_key for_cert fs ≡ (ok (serving p), fs')
      → later.state_dir ≡ args.state_dir
      → f.read (key_file c n f k host args.state_dir) gs
        ≡ f.read (key_file c n f k host args.state_dir) fs'
      → f.read (cert_file c n f k host args.state_dir) gs
        ≡ f.read (cert_file c n f k host args.state_dir) fs'
      → (host.create_dir_all later.state_dir gs).0 ≡ ok tt
      → start c n f k host later new_key new_cert gs
        ≡ (choose_source c n f k host later >>= listen c n f k host later p.keypair p.certificate)
            (host.create_dir_all later.state_dir gs).1
  unfolding start
  start_stable args later for_key for_cert new_key new_cert fs fs' gs p h dir key_same cert_same
        created =
      let held = start-HoldsIdentity args for_key for_cert fs fs' p h in
      let key_path = key_file c n f k host args.state_dir in
      let cert_path = cert_file c n f k host args.state_dir in
      let prepared = (host.create_dir_all later.state_dir gs).1 in
      let loaded = load_or_create_keypair-HoldsKeypair f k key_path new_key prepared p.keypair (
        HoldsKeypair-move f k key_path p.keypair fs' prepared
          (hl.create_keeps later.state_dir key_path gs ∙ key_same) held.key) in
      let loaded_cert =
        load_or_create_certificate-HoldsCertificate f k cert_path new_cert prepared p.certificate (
          HoldsCertificate-move f k cert_path p.certificate fs' prepared
            (hl.create_keeps later.state_dir cert_path gs ∙ cert_same) held.cert) in
      rw (created, start) (rw (rw (← dir) at loaded) (rw (rw (← dir) at loaded_cert) refl))
