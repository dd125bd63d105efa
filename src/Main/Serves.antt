-- ===== src/Main/Serves.antt =====
-- What `main` has done when it comes to serve.
use autonomi_webrtc_direct_p.Prelude.{List, ◌≡◌, ◌∙◌, ◌++◌, codes, Bytes, ok, ◌≢◌}
use mathlib.Core.Path.{subst}
use autonomi_webrtc_direct_p.Crates.{Crates}
use autonomi_webrtc_direct_p.Source.{Network}
use autonomi_webrtc_direct_p.Identity.{
  Files, Credentials, load_or_create_keypair, load_or_create_certificate,
}
use autonomi_webrtc_direct_p.Start.{Segment, v6}
use autonomi_webrtc_direct_p.Main.{Host, Arguments, serving, listen_text, start}
use autonomi_webrtc_direct_p.Main.Steps.{start-Steps, key_file, cert_file}
use autonomi_webrtc_direct_p.Main.Chooses.{
  Served, Listens, ServedFrom, listen-Listens, choose_source-ServedFrom,
}

module _ (c : Crates) (n : Network) (f : Files) (k : Credentials) {V4 V6 P : Type 0}
    (host : Host f k n V4 V6 P) where
  -- What a start that comes to listen has done.
  pub record Serves (args : Arguments c n f k host) (for_key for_cert : k.Entropy)
      (fs fs' : f.FileSystem) (p : Served c n f k host) : Type 0 where
    pub prepared : f.FileSystem
    pub with_key : f.FileSystem
    pub prepares : host.create_dir_all args.state_dir fs ≡ (ok tt, prepared)
    pub has_key :
        load_or_create_keypair f k (key_file c n f k host args.state_dir) for_key prepared
        ≡ (ok p.keypair, with_key)
    pub has_cert :
        load_or_create_certificate f k (cert_file c n f k host args.state_dir) for_cert with_key
        ≡ (ok p.certificate, fs')
    pub from : ServedFrom c n f k host args fs' p.source p.data_map_address
    pub listens : Listens c n f k host args p

  pub start-Serves :
      (args : Arguments c n f k host) (for_key for_cert : k.Entropy) (fs fs' : f.FileSystem)
      (p : Served c n f k host)
      → start c n f k host args for_key for_cert fs ≡ (ok (serving p), fs')
      → Serves args for_key for_cert fs fs' p
  start-Serves args for_key for_cert fs fs' p h =
      let s = start-Steps c n f k host args for_key for_cert fs fs' (serving p) h in
      let (listens, chose, same_key, same_cert, kept) =
        listen-Listens c n f k host args s.keypair s.certificate s.choice s.with_source fs' p
          s.listens in
      let (from, before) =
        choose_source-ServedFrom c n f k host args s.with_cert s.with_source p.source
          p.data_map_address (rw chose at s.chooses) in
      record {
        prepared = s.prepared;
        with_key = s.with_key;
        prepares = s.prepares;
        has_key = rw same_key at s.has_key;
        has_cert = rw same_cert at (rw (before ∙ kept) at s.has_cert);
        from =
            subst (λ w. ServedFrom c n f k host args w p.source p.data_map_address) (before ∙ kept)
              from;
        listens = listens;
      }

  -- Where no text that has an IPv6 address behind `/ip4/` is a multiaddress, a proxy told to bind
  -- an IPv6 address never listens.
  pub start_ip6 :
      (rejects : (ip : V6) (rest : Bytes) (m : List (Segment V4 V6 P))
        → host.parse_multiaddr (codes "/ip4/" ++ (host.ip_text (v6 ip) ++ rest)) ≢ ok m)
      (args : Arguments c n f k host) (ip : V6) (for_key for_cert : k.Entropy)
      (fs fs' : f.FileSystem) (p : Served c n f k host)
      → args.bind ≡ v6 ip
      → start c n f k host args for_key for_cert fs ≢ (ok (serving p), fs')
  unfolding listen_text
  start_ip6 rejects args ip for_key for_cert fs fs' p bound h =
      let s = start-Serves args for_key for_cert fs fs' p h in
      rejects ip _ p.listen_addr (rw bound at s.listens.address)
