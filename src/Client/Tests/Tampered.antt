-- ===== src/Client/Tests/Tampered.antt =====
-- A byte string of which one bit is changed.
use Prim.Native.Nat.{bit_xor}
use autonomi_webrtc_direct_p.Prelude.{
  ℕ, zero, suc, ◌<◌, ◌≡◌, ◌≢◌, refl, sym, arith, Bool, true, not, ◌&&◌, [], ◌∷◌, Bytes, ok, ◌==◌,
}
use autonomi_webrtc_direct_p.Prelude.Dict.{Dict}
use autonomi_webrtc_direct_p.Client.Address.RoundTrip.{IsByte}
use autonomi_webrtc_direct_p.Client.Tests.{tamper}
use autonomi_webrtc_direct_p.Browser.Retrieve.Uploaded.Rounds.{IsIn}

-- `f` changes every number below the bound.
changes_below : (ℕ → ℕ) → ℕ → Bool
changes_below f zero = true
changes_below f (suc bound) = not (f bound == bound) && changes_below f bound

changes_below_lem : (f : ℕ → ℕ) (b bound : ℕ) → b < bound → changes_below f bound ≡ true → f b ≢ b
unfolding changes_below
changes_below_lem f b zero below checked = absurd (omega arith)
changes_below_lem f b (suc bound) below checked = ground (arith, changes_below_lem f b bound)

flips : (b : ℕ) → IsByte b → bit_xor b 0x01 ≢ b
unfolding changes_below
flips b h = changes_below_lem (λ n. bit_xor n 0x01) b 256 h refl

-- `bytes` starts with a byte.
abbrev pub HasFirst : Bytes → Type 0
HasFirst [] = ⊥
HasFirst (b ∷ bytes) = IsByte b

-- A changed entry of the store.
abbrev pub IsTampered : Dict Bytes → Bytes → Type 0
IsTampered store bytes = (original : Bytes) × IsIn store original × (tamper original ≡ ok bytes)

pub tamper_lem :
    (original : Bytes)
    → HasFirst original
    → (bytes : Bytes) × (tamper original ≡ ok bytes) × (original ≢ bytes)
unfolding tamper
tamper_lem [] h = absurd h
tamper_lem (b ∷ bytes) h = (bit_xor b 0x01 ∷ bytes, refl, λ same. flips b h (sym (cc same)))
