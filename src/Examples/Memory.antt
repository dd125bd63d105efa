-- ===== src/Examples/Memory.antt =====
-- A stream in memory: what the client will send, what it has been sent, and how many writes are left
-- before the transport fails.
use autonomi_webrtc_direct_p.Prelude.{
  ℕ, zero, suc, ◌≤◌, ◌<◌, ◌≡◌, refl, sym, arith, List, [], ◌∷◌, ◌++◌, Bytes, Result, ok, err,
  length, take, drop, leb, if◌then◌else◌, take-append-drop, length-take, Bool-cases, inl, inr, true,
}
use autonomi_webrtc_direct_p.Prelude.Effects.{Io}
use autonomi_webrtc_direct_p.Protocol.Transport.{
  Stream, StreamLaws, IoError, unexpected_eof, transport, Event, wrote, flushed, closed, sent,
  SentPart,
}
use autonomi_webrtc_direct_p.Protocol.Rules.{sent-append}

pub record Memory : Type 0 where
  pub incoming : Bytes
  pub log : List Event
  pub writes_left : ℕ

abbrev pub read_up_to : ℕ → Io IoError Memory Bytes
read_up_to n s = (ok (take n s.incoming), record s { incoming = drop n s.incoming })

abbrev pub read_exactly : ℕ → Io IoError Memory Bytes
read_exactly n s =
    if leb n (length s.incoming)
    then read_up_to n s
    else (err unexpected_eof, record s { incoming = [] })

-- A write that fails has handed over one byte.
abbrev pub put : Bytes → ℕ → Io IoError Memory (Unit {0})
put bs zero s = (err (transport 1), record s { log = s.log ++ wrote (take 1 bs) ∷ [] })
put bs (suc n) s = (ok tt, record s { log = s.log ++ wrote bs ∷ []; writes_left = n })

abbrev pub note : Event → Io IoError Memory (Unit {0})
note e s = (ok tt, record s { log = s.log ++ e ∷ [] })

abbrev pub memory : Stream
memory = record {
  S = Memory;
  read_exact = read_exactly;
  read = read_up_to;
  write_all = λ bs s. put bs s.writes_left s;
  flush = note flushed;
  close = note closed;
}

pub put_ok :
    (bs : Bytes) (n : ℕ) (s : Memory) (u : Unit {0})
    → (put bs n s).0 ≡ ok u
    → (put bs n s).1.log ≡ s.log ++ wrote bs ∷ []
put_ok bs zero s u h = absurd (cc h)
put_ok bs (suc n) s u h = refl

pub put_err :
    (bs : Bytes) (n : ℕ) (s : Memory) (e : IoError)
    → (put bs n s).0 ≡ err e
    → SentPart (sent s.log) (sent (put bs n s).1.log) bs
put_err bs zero s e h = record {
  part = take 1 bs ++ [];
  rest = drop 1 bs;
  is_part = one bs;
  is_sent = sent-append s.log (wrote (take 1 bs) ∷ []);
}
  where
    one : (bs : Bytes) → bs ≡ (take 1 bs ++ []) ++ drop 1 bs
    one [] = refl
    one (b ∷ bs) = refl
put_err bs (suc n) s e h = absurd (cc h)

pub read_exactly_ok :
    (n : ℕ) (s : Memory) (bs : Bytes)
    → (read_exactly n s).0 ≡ ok bs
    → (length bs ≡ n) × (s.incoming ≡ bs ++ (read_exactly n s).1.incoming)
read_exactly_ok n s bs h = elim (Bool-cases (leb n (length s.incoming))) [
  | inl fits ↦
      let same : take n s.incoming ≡ bs = ground (arith, fits) in
      rw (← same) (
        rw fits (
          omega (arith, length-take n s.incoming, le_of_leb n (length s.incoming) fits),
          sym (take-append-drop n s.incoming),
        ))
  | inr short ↦ absurd (ground (arith, short))
]
  where
    le_of_leb : (a b : ℕ) → leb a b ≡ true → a ≤ b
    le_of_leb a b e = ground arith

pub log-read_exactly : (n : ℕ) (s : Memory) → (read_exactly n s).1.log ≡ s.log
log-read_exactly n s = ground arith

pub read_up_to_ok :
    (n : ℕ) (s : Memory) (bs : Bytes)
    → (read_up_to n s).0 ≡ ok bs
    → (length bs ≤ n) × (s.incoming ≡ bs ++ drop n s.incoming)
read_up_to_ok n s bs h =
    let same : take n s.incoming ≡ bs = cc h in
    rw (← same) (omega (arith, length-take n s.incoming), sym (take-append-drop n s.incoming))

pub read_nothing : (n : ℕ) (bs : Bytes) → 0 < n → take n bs ≡ [] → bs ≡ []
read_nothing zero bs p h = absurd (omega arith)
read_nothing (suc n) [] p h = refl
read_nothing (suc n) (b ∷ bs) p h = absurd (cc h)

pub no_error :
    {B : Type 0} (u : Unit {0}) (e : IoError)
    → ◌≡◌ {A = Result IoError (Unit {0})} (ok u) (err e)
    → B
no_error u e h = absurd (cc h)

pub read_end : (n : ℕ) (s : Memory) → 0 < n → (read_up_to n s).0 ≡ ok [] → s.incoming ≡ []
read_end n s p h = read_nothing n s.incoming p (cc h)

abbrev pub memory_laws : StreamLaws memory
memory_laws = record {
  log = λ s. s.log;
  pending = λ s. s.incoming;
  write_all_ok = λ bs s {u} h. put_ok bs s.writes_left s u h;
  write_all_err = λ bs s {e} h. put_err bs s.writes_left s e h;
  flush_ok = λ s h. refl;
  flush_err = λ s {e} h. no_error tt e h;
  close_ok = λ s h. refl;
  close_err = λ s {e} h. no_error tt e h;
  read_exact_ok = λ n s {bs} h. read_exactly_ok n s bs h;
  read_exact_log = log-read_exactly;
  read_ok = λ n s {bs} h. read_up_to_ok n s bs h;
  read_eof = read_end;
  read_log = λ n s. refl;
}
