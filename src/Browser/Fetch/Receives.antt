-- ===== src/Browser/Fetch/Receives.antt =====
-- `getChunk` against the proxy's response format.
use mathlib.Core.List.{append_assoc, append-nil}
use autonomi_webrtc_direct_p.Prelude.{
  ℕ, ◌^◌, ◌≤◌, ◌<◌, ◌≡◌, inl, inr, refl, sym, ap, ◌∙◌, arith, [], ◌∷◌, ◌++◌, Option, none, some,
  Bytes, Result, ok, length, ltb, ◌==◌, false, Bool-cases, length-append,
}
use autonomi_webrtc_direct_p.Prelude.Effects.{pure, continue}
use autonomi_webrtc_direct_p.Protocol.{to_be_bytes}
use autonomi_webrtc_direct_p.Protocol.Respond.{found_response}
use autonomi_webrtc_direct_p.Handler.Answers.{response}
use autonomi_webrtc_direct_p.Browser.Reader.{FetchError, Reader, read}
use autonomi_webrtc_direct_p.Browser.Reader.Exact.{
  ahead, IsCounted, ReadEnds, got, lacked, read-ReadEnds,
}
use autonomi_webrtc_direct_p.Browser.Fetch.{
  max_response_len, status_ok, status_not_found, status_refused, body_of, read_body, get_uint32,
  receive_body, receive_status, receive,
}

-- The four bytes of a u32, big endian, read back.
pub get_uint32-to_be_bytes :
    (n : ℕ) (r : Reader) → n < 2 ^ 32 → get_uint32 (to_be_bytes n) r ≡ (ok n, r)
unfolding get_uint32 to_be_bytes
get_uint32-to_be_bytes n r h = ap (λ m. (ok m, r)) (omega arith)

-- Two splits of one list at the same length are the same split.
pub same_split :
    (xs ys us bs : Bytes) → xs ++ us ≡ ys ++ bs → length xs ≡ length ys → (xs ≡ ys) × (us ≡ bs)
same_split [] [] us bs e h = (refl, e)
same_split [] (y ∷ ys) us bs e h = absurd (omega arith)
same_split (x ∷ xs) [] us bs e h = absurd (omega arith)
same_split (x ∷ xs) (y ∷ ys) us bs e h =
    let tails : xs ++ us ≡ ys ++ bs = cc e in
    let (p, q) = same_split xs ys us bs tails (omega arith) in (cc (e, p), q)

-- What a proxy sends at most: `write_found` refuses longer data.
abbrev pub IsShort : Option Bytes → Type 0
IsShort none = Unit {0}
IsShort (some bytes) = length bytes ≤ max_response_len

module _ (reader : Reader) (counted : IsCounted reader) where
  -- A reader whose stream starts with `front` gives `front`, and stands behind it.
  read_front :
      (front back : Bytes)
      → ahead reader ≡ front ++ back
      → (r : Reader) × (read (length front) reader ≡ (ok front, r)) × (ahead r ≡ back) × IsCounted r
  read_front front back e =
      go (read (length front) reader) refl (read-ReadEnds (length front) reader counted)
    where
      go :
          (out : Result FetchError Bytes × Reader)
          → read (length front) reader ≡ out
          → ReadEnds (length front) reader out.0 out.1
          → (r : Reader) × (read (length front) reader ≡ (ok front, r))
            × (ahead r ≡ back)
            × IsCounted r
      go (_, _) p (lacked x r few no_index) =
          absurd (omega (arith, few, ap length e, length-append front back))
      go (_, _) p (got bytes r exact same ok_count) =
          let (q, s) = same_split bytes front (ahead r) back (sym same ∙ e) exact in
          (r, p ∙ ap (λ t. (ok t, r)) q, s, ok_count)

-- What the reader stands at when `receive` returns with `found`.
pub data Received (reader : Reader) : Option Bytes → Type 0 where
  absent : (back : Bytes) → ahead reader ≡ status_not_found ∷ back → Received reader none
  present :
      (header body back : Bytes) (r : Reader)
      → ahead reader ≡ status_ok ∷ (header ++ (body ++ back))
      → length header ≡ 4
      → get_uint32 header r ≡ (ok (length body), r)
      → Received reader (some body)

-- Of a header of four bytes, `get_uint32` is defined and leaves the reader.
get_uint32_reads :
    (header : Bytes) (r : Reader) → length header ≡ 4 → (n : ℕ) × (get_uint32 header r ≡ (ok n, r))
unfolding get_uint32
get_uint32_reads (a ∷ b ∷ c ∷ d ∷ []) r h = (_, refl)
get_uint32_reads [] r h = absurd (omega arith)
get_uint32_reads (a ∷ []) r h = absurd (omega arith)
get_uint32_reads (a ∷ b ∷ []) r h = absurd (omega arith)
get_uint32_reads (a ∷ b ∷ c ∷ []) r h = absurd (omega arith)
get_uint32_reads (a ∷ b ∷ c ∷ d ∷ e ∷ rest) r h = absurd (omega arith)

-- The body, where the length is known to be permitted.
body_Received :
    (reader r : Reader) (header : Bytes) (len : ℕ) (o : Option Bytes)
    (out : Result FetchError Bytes × Reader)
    → ahead reader ≡ status_ok ∷ (header ++ ahead r)
    → length header ≡ 4
    → get_uint32 header r ≡ (ok len, r)
    → ReadEnds len r out.0 out.1
    → (continue {B = Option Bytes} out.0 (λ body. pure (some body)) out.1).0 ≡ ok o
    → Received reader o
body_Received reader r header len o (_, _) same exact decoded (lacked e t few _) h = absurd (cc h)
body_Received reader r header len o (_, _) same exact decoded (got body t n split _) h =
    let result : some body ≡ o = cc h in
    rw (← result) (
      present header body (ahead t) r (same ∙ ap (λ u. status_ok ∷ (header ++ u)) split) exact
        (decoded ∙ ap (λ m. (ok m, r)) (sym n)))

len_Received :
    (reader r : Reader) (header : Bytes) (len : ℕ) (o : Option Bytes)
    → ahead reader ≡ status_ok ∷ (header ++ ahead r)
    → length header ≡ 4
    → get_uint32 header r ≡ (ok len, r)
    → IsCounted r
    → (read_body len r).0 ≡ ok o
    → Received reader o
unfolding read_body
len_Received reader r header len o same exact decoded counted h =
    elim (Bool-cases (ltb max_response_len len)) [
      | inl over ↦ absurd (ground (arith, over, h))
      | inr fits ↦
          body_Received reader r header len o (read len r) same exact decoded
            (read-ReadEnds len r counted) (rw fits at h)
    ]

header_Received :
    (reader s : Reader) (o : Option Bytes) (out : Result FetchError Bytes × Reader)
    → ahead reader ≡ status_ok ∷ ahead s
    → ReadEnds 4 s out.0 out.1
    → (continue out.0 body_of out.1).0 ≡ ok o
    → Received reader o
unfolding body_of
header_Received reader s o (_, _) same (lacked e t few _) h = absurd (cc h)
header_Received reader s o (_, _) same (got header t exact split counted) h =
    let (len, decoded) = get_uint32_reads header t exact in
    len_Received reader t header len o (same ∙ ap (λ u. status_ok ∷ u) split) exact decoded counted
      (rw decoded at h)

status_Received :
    (reader : Reader) (o : Option Bytes) (out : Result FetchError Bytes × Reader)
    → ReadEnds 1 reader out.0 out.1
    → (continue out.0 receive_status out.1).0 ≡ ok o
    → Received reader o
unfolding receive_status receive_body
status_Received reader o (_, _) (lacked e t few _) h = absurd (cc h)
status_Received reader o (_, _) (got [] t exact split counted) h = absurd (omega arith)
status_Received reader o (_, _) (got (status ∷ x ∷ rest) t exact split counted) h =
    absurd (omega arith)
status_Received reader o (_, _) (got (status ∷ []) t exact split counted) h =
    elim (Bool-cases (status == status_not_found)) [
      | inl missing ↦
          let result : none ≡ o = ground (arith, missing, h) in
          let byte : status ≡ status_not_found = ground (arith, missing) in
          rw (← result) (absent (ahead t) (split ∙ ap (λ s. s ∷ ahead t) byte))
      | inr not_missing ↦ elim (Bool-cases (status == status_refused)) [
        | inl is_refused ↦ absurd (ground (arith, is_refused, not_missing, h))
        | inr not_refused ↦ elim (Bool-cases (status == status_ok)) [
          | inr unknown ↦ absurd (ground (arith, not_refused, not_missing, unknown, h))
          | inl fine ↦
              let byte : status ≡ status_ok = ground (arith, fine) in
              header_Received reader t o (read 4 t) (split ∙ ap (λ s. s ∷ ahead t) byte)
                (read-ReadEnds 4 t counted) (rw (not_missing, not_refused, fine) at h)
        ]
      ]
    ]

-- When `receive` returns, the stream began with the response that says what it returns.
pub receive-Received :
    (reader : Reader) (o : Option Bytes)
    → IsCounted reader
    → (receive reader).0 ≡ ok o
    → Received reader o
unfolding receive
receive-Received reader o counted h =
    status_Received reader o (read 1 reader) (read-ReadEnds 1 reader counted) h

-- A response, of which some part has come, is the response to one thing only.
pub same_response :
    (reader : Reader) (o found : Option Bytes) (rest : Bytes)
    → IsShort found
    → response found ≡ ahead reader ++ rest
    → Received reader o
    → o ≡ found
same_response reader _ none rest short e (absent back p) = refl
same_response reader _ none rest short e (present header body back r p _ _) =
    let q : status_not_found ∷ [] ≡ (status_ok ∷ (header ++ (body ++ back))) ++ rest = rw p at e in
    absurd (cc q)
same_response reader _ (some bytes) rest short e (absent back p) =
    let q : found_response bytes ≡ (status_not_found ∷ back) ++ rest = rw p at e in absurd (cc q)
same_response reader _ (some bytes) rest short e (present header body back r p four decoded) =
    let q : found_response bytes ≡ (status_ok ∷ (header ++ (body ++ back))) ++ rest = rw p at e in
    let tails : to_be_bytes (length bytes) ++ bytes ≡ (header ++ (body ++ back)) ++ rest = cc q in
    let (same_header, behind) =
      same_split (to_be_bytes (length bytes)) header bytes ((body ++ back) ++ rest)
        (tails ∙ append_assoc header (body ++ back) rest) (unfold to_be_bytes in sym four) in
    let read_back : get_uint32 header r ≡ (ok (length bytes), r) =
      rw same_header at (get_uint32-to_be_bytes (length bytes) r (omega (arith, short))) in
    let same_length : length body ≡ length bytes = cc (read_back, decoded) in
    ap some (
      (same_split body bytes (back ++ rest) []
        (sym (append_assoc body back rest) ∙ sym behind ∙ sym (append-nil bytes)) same_length).0)

receive_body-bytes :
    (reader : Reader) (bytes : Bytes)
    → IsCounted reader
    → length bytes ≤ max_response_len
    → ahead reader ≡ to_be_bytes (length bytes) ++ bytes
    → (receive_body reader).0 ≡ ok (some bytes)
unfolding receive_body body_of read_body
receive_body-bytes reader bytes counted short e =
    let (r, run, back, counted_r) =
      read_front reader counted (to_be_bytes (length bytes)) bytes e in
    let run4 : read 4 reader ≡ (ok (to_be_bytes (length bytes)), r) = unfold to_be_bytes in run in
    let (s, run_body, _, _) = read_front r counted_r bytes [] (back ∙ sym (append-nil bytes)) in
    let fits : ltb max_response_len (length bytes) ≡ false = ground arith in
    rw (run4, receive_body)
      (rw (get_uint32-to_be_bytes (length bytes) r (omega (arith, short)))
        (rw fits (rw run_body refl)))

-- A reader at the response to something short gives it.
pub receive-response :
    (reader : Reader) (found : Option Bytes)
    → IsCounted reader
    → IsShort found
    → ahead reader ≡ response found
    → (receive reader).0 ≡ ok found
unfolding receive receive_status
receive-response reader none counted short e =
    let (r, run, _, _) = read_front reader counted (status_not_found ∷ []) [] e in
    rw (run, receive) refl
receive-response reader (some bytes) counted short e =
    let (r, run, back, counted_r) =
      read_front reader counted (status_ok ∷ []) (to_be_bytes (length bytes) ++ bytes) e in
    rw (run, receive) (receive_body-bytes r bytes counted_r short back)
