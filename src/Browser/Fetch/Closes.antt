-- ===== src/Browser/Fetch/Closes.antt =====
-- `getChunk` closes the stream that it has opened on every way out.
use autonomi_webrtc_direct_p.Prelude.{
  ℕ, ◌≡◌, inl, inr, refl, arith, Option, Bytes, Result, ok, err, map_err, length, ◌==◌, Bool-cases,
}
use autonomi_webrtc_direct_p.Prelude.Effects.{continue}
use autonomi_webrtc_direct_p.Browser.Reader.{FetchError, address_length, library, exact_reader}
use autonomi_webrtc_direct_p.Browser.Fetch.{
  Connection, address_len, send, receive, receive_from, exchange, get_chunk,
}

module _ (connection : Connection) where
  open connection use {S, Handle, new_stream, deliveries, close}

  -- The ways in which `getChunk` ends.
  pub data Fetched (address : Bytes) (s : S) : Result FetchError (Option Bytes) → S → Type 0 where
    wrong_length :
        ¬ (length address ≡ address_len)
        → Fetched address s (err (address_length (length address))) s
    unopened : (e : ℕ) (u : S) → new_stream s ≡ (err e, u) → Fetched address s (err (library e)) u
    unsent :
        (stream : Handle) (e : FetchError) (u v : S)
        → new_stream s ≡ (ok stream, u)
        → send connection stream address u ≡ (err e, v)
        → Fetched address s (err e) (close stream v)
    asked :
        (stream : Handle) (u v : S)
        → new_stream s ≡ (ok stream, u)
        → send connection stream address u ≡ (ok tt, v)
        → Fetched address s (receive (exact_reader (deliveries stream v))).0 (close stream v)

  exchange-Fetched :
      (address : Bytes) (s : S) (stream : Handle) (u : S)
      → new_stream s ≡ (ok stream, u)
      → (sent : Result FetchError (Unit {0}) × S) → send connection stream address u ≡ sent
      → Fetched address s
          (exchange connection address stream u).0
          (exchange connection address stream u).1
  unfolding exchange receive_from
  exchange-Fetched address s stream u opened (ok tt, v) e =
      rw (e, exchange) (asked stream u v opened e)
  exchange-Fetched address s stream u opened (err x, v) e =
      rw (e, exchange) (unsent stream x u v opened e)

  -- `getChunk` refuses an address that has not 32 bytes before it touches the connection; it
  -- otherwise opens one stream and, when that succeeds, closes it whether the address could be sent
  -- or not and whatever has come back; and once the address is sent, what it returns or throws is
  -- what reading the response from that stream gives.
  pub get_chunk-Fetched :
      (address : Bytes) (s : S)
      → Fetched address s (get_chunk connection address s).0 (get_chunk connection address s).1
  unfolding get_chunk
  get_chunk-Fetched address s = elim (Bool-cases (length address == address_len)) [
    | inr short ↦ rw (short, get_chunk) (wrong_length (ground (arith, short)))
    | inl long ↦ rw (long, get_chunk) (go (new_stream s) refl)
  ]
    where
      go :
          (opened : Result ℕ Handle × S)
          → new_stream s ≡ opened
          → let out = continue (map_err library opened.0) (exchange connection address) opened.1 in
            Fetched address s out.0 out.1
      go (ok stream, u) e =
          exchange-Fetched address s stream u e (send connection stream address u) refl
      go (err x, u) e = unopened x u e
