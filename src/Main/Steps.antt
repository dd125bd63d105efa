-- ===== src/Main/Steps.antt =====
-- The steps that a start has gone through when it returned or serves.
use autonomi_webrtc_direct_p.Prelude.{◌≡◌, ok, codes}
use autonomi_webrtc_direct_p.Prelude.Effects.{wrap, ◌>>=◌, bind_inv, wrap_inv}
use autonomi_webrtc_direct_p.Crates.{Crates}
use autonomi_webrtc_direct_p.Source.{Network}
use autonomi_webrtc_direct_p.Identity.{
  Files, Credentials, load_or_create_keypair, load_or_create_certificate,
}
use autonomi_webrtc_direct_p.Main.{
  Host, Choice, Arguments, Running, choose_source, listen, start, state_dir_failed, identity_failed,
}

module _ (c : Crates) (n : Network) (f : Files) (k : Credentials) {V4 V6 P : Type 0}
    (host : Host f k n V4 V6 P) where
  abbrev pub key_file : f.FilePath → f.FilePath
  key_file dir = host.join dir (codes "identity.key")

  abbrev pub cert_file : f.FilePath → f.FilePath
  cert_file dir = host.join dir (codes "cert.pem")

  pub record Steps (args : Arguments c n f k host) (for_key for_cert : k.Entropy)
      (fs fs' : f.FileSystem) (out : Running c n f k host) : Type 0 where
    pub prepared : f.FileSystem
    pub with_key : f.FileSystem
    pub with_cert : f.FileSystem
    pub with_source : f.FileSystem
    pub keypair : k.Keypair
    pub certificate : k.Certificate
    pub choice : Choice n
    pub prepares : host.create_dir_all args.state_dir fs ≡ (ok tt, prepared)
    pub has_key :
        load_or_create_keypair f k (key_file args.state_dir) for_key prepared
        ≡ (ok keypair, with_key)
    pub has_cert :
        load_or_create_certificate f k (cert_file args.state_dir) for_cert with_key
        ≡ (ok certificate, with_cert)
    pub chooses : choose_source c n f k host args with_cert ≡ (ok choice, with_source)
    pub listens : listen c n f k host args keypair certificate choice with_source ≡ (ok out, fs')

  pub start-Steps :
      (args : Arguments c n f k host) (for_key for_cert : k.Entropy) (fs fs' : f.FileSystem)
      (out : Running c n f k host)
      → start c n f k host args for_key for_cert fs ≡ (ok out, fs')
      → Steps args for_key for_cert fs fs' out
  unfolding start
  start-Steps args for_key for_cert fs fs' out h =
      let create = host.create_dir_all args.state_dir in
      let key = load_or_create_keypair f k (key_file args.state_dir) for_key in
      let cert = load_or_create_certificate f k (cert_file args.state_dir) for_cert in
      let choose = choose_source c n f k host args in
      let listening = listen c n f k host args in
      let (_, prepared, e1, h1) =
        bind_inv (wrap state_dir_failed create)
          (λ _. wrap identity_failed key >>= λ kp.
            wrap identity_failed cert >>= λ ct. choose >>= listening kp ct)
          fs h in
      let (keypair, with_key, e2, h2) =
        bind_inv (wrap identity_failed key)
          (λ kp. wrap identity_failed cert >>= λ ct. choose >>= listening kp ct) prepared h1 in
      let (certificate, with_cert, e3, h3) =
        bind_inv (wrap identity_failed cert) (λ ct. choose >>= listening keypair ct) with_key h2 in
      let (choice, with_source, e4, h4) =
        bind_inv choose (listening keypair certificate) with_cert h3 in
      record {
        prepared = prepared;
        with_key = with_key;
        with_cert = with_cert;
        with_source = with_source;
        keypair = keypair;
        certificate = certificate;
        choice = choice;
        prepares = wrap_inv state_dir_failed create fs e1;
        has_key = wrap_inv identity_failed key prepared e2;
        has_cert = wrap_inv identity_failed cert with_key e3;
        chooses = e4;
        listens = h4;
      }
