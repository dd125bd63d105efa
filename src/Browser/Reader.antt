-- ===== src/Browser/Reader.antt =====
-- web/src/fetch-client.js: `exactReader`, which cuts a stream's deliveries into reads of given sizes.
pub mod Exact
use Prim.Native.Nat.{min}
use autonomi_webrtc_direct_p.Prelude.{
  ℕ, ◌+◌, ◌-◌, List, [], ◌∷◌, ◌++◌, Option, Bytes, Result, ok, err, length, take, drop, ltb, ◌==◌,
  if◌then◌else◌,
}
use autonomi_webrtc_direct_p.Prelude.Effects.{Io}

-- What fetch-client.js throws, and what the libraries below it throw, by a code.
pub data FetchError : Type 0 where
  address_length : ℕ → FetchError
  refused : FetchError
  unknown_status : ℕ → FetchError
  oversized : ℕ → FetchError
  ended_early : ℕ → ℕ → FetchError
  -- an index out of bounds, and its `undefined`
  type_error : FetchError
  library : ℕ → FetchError

-- What the stream's iterator still yields: pieces of any size, and then `done` or an exception.
pub data Incoming : Type 0 where
  ended : Incoming
  broken : ℕ → Incoming
  delivery : Bytes → Incoming → Incoming

pub record Reader : Type 0 where
  pub incoming : Incoming
  pub queue : List Bytes
  pub queued : ℕ

-- `exactReader(stream)`
unfoldable pub exact_reader : Incoming → Reader
exact_reader incoming = record { incoming = incoming; queue = []; queued = 0 }

-- The first loop of `read`: wait for deliveries until enough bytes are queued.
unfoldable pub fill : ℕ → Incoming → List Bytes → ℕ → Result FetchError (Unit {0}) × Reader
fill wanted ended queue queued = (
  (if ltb queued wanted then err (ended_early queued wanted) else ok tt),
  record { incoming = ended; queue = queue; queued = queued },
)
fill wanted (broken e) queue queued = (
  (if ltb queued wanted then err (library e) else ok tt),
  record { incoming = broken e; queue = queue; queued = queued },
)
fill wanted (delivery piece rest) queue queued =
    let more = fill wanted rest (queue ++ piece ∷ []) (queued + length piece) in
    if ltb queued wanted
    then more
    else (ok tt, record { incoming = delivery piece rest; queue = queue; queued = queued })

-- The second loop: move bytes from the front of the queue to `out`, of which `filled` bytes are set.
-- It ends behind a piece of which something is left, since that was longer than what was wanted.
unfoldable pub join_queue : ℕ → Bytes → List Bytes → Result FetchError (Bytes × List Bytes)
join_queue wanted out [] = if ltb (length out) wanted then err type_error else ok (out, [])
join_queue wanted out (piece ∷ queue) =
    let count = min (length piece) (wanted - length out) in
    let shifted = join_queue wanted (out ++ take count piece) queue in
    if ltb (length out) wanted
    then (if count == length piece
        then shifted
        else ok (out ++ take count piece, drop count piece ∷ queue))
    else ok (out, piece ∷ queue)

-- `read(wanted)`, behind its first loop.
unfoldable pub serve_queue :
    ℕ → Result FetchError (Unit {0}) × Reader → Result FetchError Bytes × Reader
unfolding join_queue
serve_queue wanted (err e, r) = (err e, r)
serve_queue wanted (ok u, r) = elim (join_queue wanted [] r.queue) [
  | err e ↦ (err e, r)
  | ok (out, queue) ↦ (ok out, record r { queue = queue; queued = r.queued - wanted })
]

unfoldable pub read : ℕ → Io FetchError Reader Bytes
read wanted reader = serve_queue wanted (fill wanted reader.incoming reader.queue reader.queued)
