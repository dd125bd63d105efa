-- ===== src/Start/Dial.antt =====
-- What `advertised` changes of the address that the proxy listens on.
use autonomi_webrtc_direct_p.Prelude.{◌≡◌, refl, ap, List, [], ◌∷◌, map, some}
use autonomi_webrtc_direct_p.Start.{v4, v6, Segment, ip4, ip6, other, replace_ip, advertised}

-- What a segment is, without its value.
pub data Kind : Type 0 where
  four : Kind
  six : Kind
  neither : Kind

module _ {V4 V6 P : Type 0} where
  abbrev pub kind : Segment V4 V6 P → Kind
  kind (ip4 ip) = four
  kind (ip6 ip) = six
  kind (other p) = neither

  -- The segments that are no IP address: port, transport, certhash.
  abbrev pub others : List (Segment V4 V6 P) → List P
  others [] = []
  others (other p ∷ rest) = p ∷ others rest
  others (ip4 ip ∷ rest) = others rest
  others (ip6 ip ∷ rest) = others rest

  abbrev pub fours : List (Segment V4 V6 P) → List V4
  fours [] = []
  fours (ip4 ip ∷ rest) = ip ∷ fours rest
  fours (ip6 ip ∷ rest) = fours rest
  fours (other p ∷ rest) = fours rest

  abbrev pub sixes : List (Segment V4 V6 P) → List V6
  sixes [] = []
  sixes (ip4 ip ∷ rest) = sixes rest
  sixes (ip6 ip ∷ rest) = ip ∷ sixes rest
  sixes (other p ∷ rest) = sixes rest

  -- Two addresses have the same kinds of segments, in order, and the same of them are no IP address.
  pub record SameBeside (before after : List (Segment V4 V6 P)) : Type 0 where
    pub same_kinds : map kind after ≡ map kind before
    pub same_others : others after ≡ others before

  v4-SameBeside :
      (address : List (Segment V4 V6 P)) (public : V4)
      → SameBeside address (advertised address (some (v4 public)))
  unfolding advertised replace_ip
  v4-SameBeside [] public = record { same_kinds = refl; same_others = refl }
  v4-SameBeside (ip4 ip ∷ rest) public =
      let s = v4-SameBeside rest public in
      record { same_kinds = ap (◌∷◌ four) s.same_kinds; same_others = s.same_others }
  v4-SameBeside (ip6 ip ∷ rest) public =
      let s = v4-SameBeside rest public in
      record { same_kinds = ap (◌∷◌ six) s.same_kinds; same_others = s.same_others }
  v4-SameBeside (other p ∷ rest) public =
      let s = v4-SameBeside rest public in
      record { same_kinds = ap (◌∷◌ neither) s.same_kinds; same_others = ap (◌∷◌ p) s.same_others }

  v6-SameBeside :
      (address : List (Segment V4 V6 P)) (public : V6)
      → SameBeside address (advertised address (some (v6 public)))
  unfolding advertised replace_ip
  v6-SameBeside [] public = record { same_kinds = refl; same_others = refl }
  v6-SameBeside (ip4 ip ∷ rest) public =
      let s = v6-SameBeside rest public in
      record { same_kinds = ap (◌∷◌ four) s.same_kinds; same_others = s.same_others }
  v6-SameBeside (ip6 ip ∷ rest) public =
      let s = v6-SameBeside rest public in
      record { same_kinds = ap (◌∷◌ six) s.same_kinds; same_others = s.same_others }
  v6-SameBeside (other p ∷ rest) public =
      let s = v6-SameBeside rest public in
      record { same_kinds = ap (◌∷◌ neither) s.same_kinds; same_others = ap (◌∷◌ p) s.same_others }

  v4_replaces :
      (address : List (Segment V4 V6 P)) (public : V4)
      → (fours (advertised address (some (v4 public))) ≡ map (λ _. public) (fours address))
        × (sixes (advertised address (some (v4 public))) ≡ sixes address)
  unfolding advertised replace_ip
  v4_replaces [] public = (refl, refl)
  v4_replaces (ip4 ip ∷ rest) public =
      let (f, s) = v4_replaces rest public in (ap (◌∷◌ public) f, s)
  v4_replaces (ip6 ip ∷ rest) public = let (f, s) = v4_replaces rest public in (f, ap (◌∷◌ ip) s)
  v4_replaces (other p ∷ rest) public = v4_replaces rest public

  v6_replaces :
      (address : List (Segment V4 V6 P)) (public : V6)
      → (sixes (advertised address (some (v6 public))) ≡ map (λ _. public) (sixes address))
        × (fours (advertised address (some (v6 public))) ≡ fours address)
  unfolding advertised replace_ip
  v6_replaces [] public = (refl, refl)
  v6_replaces (ip4 ip ∷ rest) public = let (s, f) = v6_replaces rest public in (s, ap (◌∷◌ ip) f)
  v6_replaces (ip6 ip ∷ rest) public =
      let (s, f) = v6_replaces rest public in (ap (◌∷◌ public) s, f)
  v6_replaces (other p ∷ rest) public = v6_replaces rest public

  -- `advertised` with a public IPv4 address replaces every IPv4 address by it, and with a public
  -- IPv6 address every IPv6 address; the addresses of the other family stay as they are, and so do
  -- the segments that are no IP address, and the order of all.
  pub advertised_lem :
      (address : List (Segment V4 V6 P)) (public : V4) (public_6 : V6)
      → SameBeside address (advertised address (some (v4 public)))
        × (fours (advertised address (some (v4 public))) ≡ map (λ _. public) (fours address))
        × (sixes (advertised address (some (v4 public))) ≡ sixes address)
        × SameBeside address (advertised address (some (v6 public_6)))
        × (sixes (advertised address (some (v6 public_6))) ≡ map (λ _. public_6) (sixes address))
        × (fours (advertised address (some (v6 public_6))) ≡ fours address)
  advertised_lem address public public_6 =
      let (fours_replaced, sixes_kept) = v4_replaces address public in
      let (sixes_replaced, fours_kept) = v6_replaces address public_6 in
      (
        v4-SameBeside address public,
        fours_replaced,
        sixes_kept,
        v6-SameBeside address public_6,
        sixes_replaced,
        fours_kept,
      )
