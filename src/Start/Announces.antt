-- ===== src/Start/Announces.antt =====
-- What `run` prints for the addresses that the proxy listens on.
use mathlib.Core.Option
use autonomi_webrtc_direct_p.Prelude.{
  ◌≡◌, refl, ap, ◌∙◌, Bool, false, List, [], ◌∷◌, ◌++◌, map, Option, none, some, Bytes, All,
}
use autonomi_webrtc_direct_p.Crates.{XorName}
use autonomi_webrtc_direct_p.Start.{
  IpAddr, v4, v6, Segment, ip4, ip6, other, replace_ip, advertised, Occurrence, ctrl_c,
  new_listen_addr, connection_established, connection_closed, ignored, RunState, shut_down, waiting,
  Announcement, announce, run,
}

module _ {A : Type 0} where
  -- The listen addresses before the signal.
  abbrev pub heard : List (Occurrence A) → List A
  heard [] = []
  heard (ctrl_c ∷ rest) = []
  heard (new_listen_addr address ∷ rest) = address ∷ heard rest
  heard (connection_established ∷ rest) = heard rest
  heard (connection_closed ∷ rest) = heard rest
  heard (ignored ∷ rest) = heard rest

  -- The loop ends exactly with the signal.
  abbrev pub signalled : List (Occurrence A) → RunState
  signalled [] = waiting
  signalled (ctrl_c ∷ rest) = shut_down
  signalled (new_listen_addr address ∷ rest) = signalled rest
  signalled (connection_established ∷ rest) = signalled rest
  signalled (connection_closed ∷ rest) = signalled rest
  signalled (ignored ∷ rest) = signalled rest

module _ {V4 V6 P : Type 0} (is_p2p : P → Bool) where
  -- The last segment is a peer id.
  abbrev pub ends_in_p2p : List (Segment V4 V6 P) → Bool
  ends_in_p2p [] = false
  ends_in_p2p (other p ∷ []) = is_p2p p
  ends_in_p2p (ip4 ip ∷ []) = false
  ends_in_p2p (ip6 ip ∷ []) = false
  ends_in_p2p (segment ∷ next ∷ rest) = ends_in_p2p (next ∷ rest)

  ends_in_p2p-replace :
      (public : IpAddr V4 V6) (address : List (Segment V4 V6 P))
      → ends_in_p2p (map (replace_ip public) address) ≡ ends_in_p2p address
  unfolding replace_ip
  ends_in_p2p-replace public [] = refl
  ends_in_p2p-replace (v4 ip) (other p ∷ []) = refl
  ends_in_p2p-replace (v6 ip) (other p ∷ []) = refl
  ends_in_p2p-replace (v4 ip) (ip4 b ∷ []) = refl
  ends_in_p2p-replace (v6 ip) (ip4 b ∷ []) = refl
  ends_in_p2p-replace (v4 ip) (ip6 b ∷ []) = refl
  ends_in_p2p-replace (v6 ip) (ip6 b ∷ []) = refl
  ends_in_p2p-replace public (other p ∷ next ∷ rest) = ends_in_p2p-replace public (next ∷ rest)
  ends_in_p2p-replace public (ip4 b ∷ next ∷ rest) = ends_in_p2p-replace public (next ∷ rest)
  ends_in_p2p-replace public (ip6 b ∷ next ∷ rest) = ends_in_p2p-replace public (next ∷ rest)

  ends_in_p2p-advertised :
      (address : List (Segment V4 V6 P)) (advertise : Option (IpAddr V4 V6))
      → ends_in_p2p (advertised address advertise) ≡ ends_in_p2p address
  unfolding advertised
  ends_in_p2p-advertised address none = refl
  ends_in_p2p-advertised address (some public) = ends_in_p2p-replace public address

module _ {V4 V6 P : Type 0} (is_p2p : P → Bool) (peer : P)
    (with_p2p : List (Segment V4 V6 P) → Option (List (Segment V4 V6 P)))
    (with_p2p_appends : (address : List (Segment V4 V6 P))
      → ends_in_p2p is_p2p address ≡ false
      → with_p2p address ≡ some (address ++ other peer ∷ []))
    (encode : Bytes → Bytes) (advertise : Option (IpAddr V4 V6))
    (data_map_address : Option XorName) where
  -- The multiaddr to dial, and the fixture's address.
  abbrev pub announcement_of : List (Segment V4 V6 P) → Announcement (List (Segment V4 V6 P))
  announcement_of address = record {
    multiaddr = advertised address advertise ++ other peer ∷ [];
    fixture_address = Option.map encode data_map_address;
  }

  announce_of :
      (address : List (Segment V4 V6 P))
      → ends_in_p2p is_p2p address ≡ false
      → announce with_p2p encode advertise data_map_address address ≡ some (announcement_of address)
  unfolding announce
  announce_of address h =
      rw
        (
          with_p2p_appends (advertised address advertise)
              (ends_in_p2p-advertised is_p2p address advertise ∙ h),
          announce,
        )
        refl

  -- If no listen address has a peer id at its end, and `with_p2p` appends the proxy's to such an
  -- address, `run` announces every listen address before the signal, in order, as the advertised
  -- address with the peer id behind it and with the fixture's address if there is one; it never
  -- panics, and it ends exactly at the signal.
  pub run_lem :
      (occurrences : List (Occurrence (List (Segment V4 V6 P))))
      → All (λ address. ends_in_p2p is_p2p address ≡ false) (heard occurrences)
      → run with_p2p encode advertise data_map_address occurrences
        ≡ (map announcement_of (heard occurrences), signalled occurrences)
  unfolding run
  run_lem [] h = refl
  run_lem (ctrl_c ∷ rest) h = refl
  run_lem (new_listen_addr address ∷ rest) (h, hs) =
      rw (announce_of address h, run)
        (ap (λ out. (announcement_of address ∷ out.0, out.1)) (run_lem rest hs))
  run_lem (connection_established ∷ rest) h = run_lem rest h
  run_lem (connection_closed ∷ rest) h = run_lem rest h
  run_lem (ignored ∷ rest) h = run_lem rest h
