-- ===== src/Browser/Reader/Exact.antt =====
-- `exactReader` loses, repeats and reorders nothing, however the bytes arrive.
use Prim.Native.Nat.{min}
use mathlib.Core.List.{append_assoc, append-nil}
use autonomi_webrtc_direct_p.Prelude.{
  ℕ, ◌+◌, ◌-◌, ◌≤◌, ◌<◌, ◌≡◌, ◌≢◌, inl, inr, refl, sym, ap, ◌∙◌, arith, List, [], ◌∷◌, ◌++◌, Bytes,
  Result, ok, err, length, take, drop, concat, ltb, ◌==◌, Bool-cases, length-append, take-append,
  true, length-take, take-append-drop,
}
use autonomi_webrtc_direct_p.Browser.Reader.{
  FetchError, type_error, Incoming, ended, broken, delivery, Reader, fill, join_queue, serve_queue,
  read,
}

-- All that the iterator still yields.
unfoldable pub text : Incoming → Bytes
text ended = []
text (broken e) = []
text (delivery piece rest) = piece ++ text rest

-- All that the reader can still give out.
abbrev pub ahead : Reader → Bytes
ahead r = concat r.queue ++ text r.incoming

-- The count of queued bytes is right.
abbrev pub IsCounted : Reader → Type 0
IsCounted r = r.queued ≡ length (concat r.queue)

concat-append_one : (xss : List Bytes) (xs : Bytes) → concat (xss ++ xs ∷ []) ≡ concat xss ++ xs
concat-append_one [] xs = append-nil xs
concat-append_one (ys ∷ yss) xs =
    ap (λ t. ys ++ t) (concat-append_one yss xs) ∙ sym (append_assoc ys (concat yss) xs)

take_all : (xs : Bytes) → take (length xs) xs ≡ xs
take_all xs = ap (take (length xs)) (sym (append-nil xs)) ∙ take-append xs []

-- Once `fill` is through, the same bytes are ahead, and enough of them are queued; if it is not,
-- there were too few.
pub data Filled (wanted : ℕ) (bytes : Bytes) : Result FetchError (Unit {0}) → Reader → Type 0 where
  enough :
      (u : Unit {0}) (r : Reader)
      → ahead r ≡ bytes
      → IsCounted r
      → wanted ≤ r.queued
      → Filled wanted bytes (ok u) r
  too_few :
      (e : FetchError) (r : Reader)
      → length bytes < wanted
      → e ≢ type_error
      → Filled wanted bytes (err e) r

fill-Filled :
    (wanted : ℕ) (incoming : Incoming) (queue : List Bytes) (queued : ℕ)
    → queued ≡ length (concat queue)
    → let out = fill wanted incoming queue queued in
      Filled wanted (concat queue ++ text incoming) out.0 out.1
unfolding fill text
fill-Filled wanted ended queue queued h = elim (Bool-cases (ltb queued wanted)) [
  | inl few ↦
      rw few (too_few _ _ (ground (arith, few, length-append (concat queue) [])) (λ p. cc p))
  | inr many ↦ rw many (enough tt _ refl h (ground (arith, many)))
]
fill-Filled wanted (broken e) queue queued h = elim (Bool-cases (ltb queued wanted)) [
  | inl few ↦
      rw few (too_few _ _ (ground (arith, few, length-append (concat queue) [])) (λ p. cc p))
  | inr many ↦ rw many (enough tt _ refl h (ground (arith, many)))
]
fill-Filled wanted (delivery piece rest) queue queued h = elim (Bool-cases (ltb queued wanted)) [
  | inl few ↦ rw few (
      rw (concat-append_one queue piece, append_assoc (concat queue) piece (text rest)) at
        (fill-Filled wanted rest (queue ++ piece ∷ []) (queued + length piece) (
          rw (concat-append_one queue piece)
            (omega (arith, h, length-append (concat queue) piece)))))
  | inr many ↦ rw many (enough tt _ refl h (ground (arith, many)))
]

-- `join_queue` takes from the front of the queue exactly what is wanted beyond `out`.
pub record Joined (wanted : ℕ) (out : Bytes) (queue : List Bytes) : Type 0 where
  pub taken : Bytes
  pub left : List Bytes
  pub run : join_queue wanted out queue ≡ ok (out ++ taken, left)
  pub same : concat queue ≡ taken ++ concat left
  pub exact : length out + length taken ≡ wanted

join_whole :
    (wanted : ℕ) (out piece : Bytes) (queue : List Bytes)
    → ltb (length out) wanted ≡ true
    → min (length piece) (wanted - length out) ≡ length piece
    → join_queue wanted out (piece ∷ queue) ≡ join_queue wanted (out ++ piece) queue
unfolding join_queue
join_whole wanted out piece queue room e = rw room (rw e (rw (take_all piece) (ground arith)))

join_queue-Joined :
    (wanted : ℕ) (out : Bytes) (queue : List Bytes)
    → length out ≤ wanted
    → wanted ≤ length out + length (concat queue)
    → Joined wanted out queue
unfolding join_queue
join_queue-Joined wanted out [] h k = record {
  taken = [];
  left = [];
  run = ground (arith, append-nil out);
  same = refl;
  exact = omega arith;
}
join_queue-Joined wanted out (piece ∷ queue) h k = elim (Bool-cases (ltb (length out) wanted)) [
  | inr full ↦ record {
    taken = [];
    left = piece ∷ queue;
    run = ground (arith, full, append-nil out);
    same = refl;
    exact = ground (arith, full);
  }
  | inl room ↦ elim (Bool-cases (min (length piece) (wanted - length out) == length piece)) [
    | inl whole ↦
        let all_of_it : min (length piece) (wanted - length out) ≡ length piece =
          ground (arith, whole) in
        let j =
          join_queue-Joined wanted (out ++ piece) queue
            (omega (arith, length-append out piece, all_of_it))
            (omega (arith, length-append out piece, length-append piece (concat queue), k)) in
        record {
          taken = piece ++ j.taken;
          left = j.left;
          run =
              join_whole wanted out piece queue room all_of_it
              ∙ j.run
              ∙ ap (λ t. ok (t, j.left)) (append_assoc out piece j.taken);
          same = ap (λ t. piece ++ t) j.same ∙ sym (append_assoc piece j.taken (concat j.left));
          exact = omega (arith, length-append piece j.taken, length-append out piece, j.exact);
        }
    | inr part ↦ record {
      taken = take (min (length piece) (wanted - length out)) piece;
      left = drop (min (length piece) (wanted - length out)) piece ∷ queue;
      run = ground (arith, room, part);
      same =
          ap (λ t. t ++ concat queue)
            (sym (take-append-drop (min (length piece) (wanted - length out)) piece))
          ∙ append_assoc (take (min (length piece) (wanted - length out)) piece) _ _;
      exact =
          ground (arith, room, part, length-take (min (length piece) (wanted - length out)) piece);
    }
  ]
]

-- `read` as it ends: with the next `wanted` bytes and a reader of those behind them, or with an error
-- since there were too few, which is never an index out of bounds.
pub data ReadEnds (wanted : ℕ) (reader : Reader) : Result FetchError Bytes → Reader → Type 0 where
  got :
      (bytes : Bytes) (r : Reader)
      → length bytes ≡ wanted
      → ahead reader ≡ bytes ++ ahead r
      → IsCounted r
      → ReadEnds wanted reader (ok bytes) r
  lacked :
      (e : FetchError) (r : Reader)
      → length (ahead reader) < wanted
      → e ≢ type_error
      → ReadEnds wanted reader (err e) r

serve_queue-ReadEnds :
    (wanted : ℕ) (reader : Reader) (out : Result FetchError (Unit {0}) × Reader)
    → Filled wanted (ahead reader) out.0 out.1
    → ReadEnds wanted reader (serve_queue wanted out).0 (serve_queue wanted out).1
unfolding serve_queue
serve_queue-ReadEnds wanted reader (_, _) (too_few e r few no_index) = lacked e r few no_index
serve_queue-ReadEnds wanted reader (_, _) (enough u r same counted many) =
    let j = join_queue-Joined wanted [] r.queue (omega arith) (omega (arith, counted)) in
    rw (j.run, serve_queue)
      (got j.taken (record r { queue = j.left; queued = r.queued - wanted })
        (omega (arith, j.exact))
        (sym same
          ∙ ap (λ t. t ++ text r.incoming) j.same
          ∙ append_assoc j.taken (concat j.left) (text r.incoming))
        (omega (arith, counted, j.exact, ap length j.same, length-append j.taken (concat j.left))))

-- A `read` on a reader that counts right gives the next `wanted` bytes of the stream, whatever the
-- sizes of the deliveries, and leaves a reader that counts right with exactly the bytes behind
-- them; or it throws because the stream ends or breaks before as many bytes have come. It never
-- indexes an empty queue.
pub read-ReadEnds :
    (wanted : ℕ) (reader : Reader)
    → IsCounted reader
    → ReadEnds wanted reader (read wanted reader).0 (read wanted reader).1
unfolding read
read-ReadEnds wanted reader h =
    serve_queue-ReadEnds wanted reader _
      (fill-Filled wanted reader.incoming reader.queue reader.queued h)
