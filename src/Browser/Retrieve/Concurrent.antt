-- ===== src/Browser/Retrieve/Concurrent.antt =====
-- web/src/retrieve.js: `forEachConcurrently` with any limit, as `retrieve` uses it: the workers take
-- the addresses in order, and the fetches end in any order.
mod Supplied
mod Progress
pub mod Ends
pub mod Confluent
use autonomi_webrtc_direct_p.Prelude.{ℕ, ◌<◌, ◌≡◌, List, ◌∷◌, ◌++◌, Bytes, ok, length}
use autonomi_webrtc_direct_p.Crates.{Crates, XorName}
use autonomi_webrtc_direct_p.Client.Retrieval.{Retrieval, supply}

-- The addresses that no worker has taken, those that workers wait for, and the WASM object.
pub record Pool (c : Crates) : Type 0 where
  pub remaining : List XorName
  pub in_flight : List XorName
  pub retrieval : Retrieval c

-- `fetched` is what the fetch of an address brings. A task that throws ends the loop, and with it
-- the retrieval, so it is no turn.
pub data Turn (c : Crates) (fetched : XorName → Bytes) (limit : ℕ) (p q : Pool c) : Type 0 where
  -- a free worker takes the next address, `items[next++]`
  takes :
      (address : XorName)
      → length p.in_flight < limit
      → p.remaining ≡ address ∷ q.remaining
      → q.in_flight ≡ address ∷ p.in_flight
      → q.retrieval ≡ p.retrieval
      → Turn c fetched limit p q
  -- a fetch has ended, and its bytes are supplied
  ends :
      (address : XorName) (before after : List XorName)
      → p.in_flight ≡ before ++ address ∷ after
      → q.in_flight ≡ before ++ after
      → q.remaining ≡ p.remaining
      → supply c address (fetched address) p.retrieval ≡ (ok tt, q.retrieval)
      → Turn c fetched limit p q

pub data Turns (c : Crates) (fetched : XorName → Bytes) (limit : ℕ) (p : Pool c)
    : Pool c → Type 0 where
  none_yet : Turns c fetched limit p p
  and_then :
      {q r : Pool c}
      → Turns c fetched limit p q
      → Turn c fetched limit q r
      → Turns c fetched limit p r
