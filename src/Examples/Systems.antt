-- ===== src/Examples/Systems.antt =====
-- The whole system on a stream in memory that does not fail, and the theorems of `main`.
use autonomi_webrtc_direct_p.Prelude.{
  ◌≤◌, ◌≡◌, ◌⊎◌, refl, arith, Bool, ◌&&◌, Bool-cases, inl, inr, true, false, [], ◌∷◌, Bytes, ok, ℕ,
  none, ◌++◌, length, leb, take, bytes_eq, some, codes,
}
use mathlib.Core.List.{append-nil}
use autonomi_webrtc_direct_p.Prelude.Dict
use autonomi_webrtc_direct_p.Prelude.Dict.{Dict}
use autonomi_webrtc_direct_p.Crates.{Collision}
use autonomi_webrtc_direct_p.Source.{Source, source_get, fixture_get}
use autonomi_webrtc_direct_p.Protocol.Transport.{Stream, StreamLaws, flushed, closed, sent}
use autonomi_webrtc_direct_p.Browser.Reader.{delivery, ended}
use autonomi_webrtc_direct_p.Browser.Reader.Exact.{text}
use autonomi_webrtc_direct_p.Browser.Exchange.{IsModest}
use autonomi_webrtc_direct_p.Prelude.Effects.{Io}
use autonomi_webrtc_direct_p.Client.Address.{hex, is_whitespace}
use autonomi_webrtc_direct_p.Browser.Connect.{Libp2p}
use autonomi_webrtc_direct_p.Browser.PageText.{js_trim, is_js_whitespace}
use autonomi_webrtc_direct_p.Browser.Page.{Page, idle, download}
use autonomi_webrtc_direct_p.Browser.Page.Presents.{Presents}
use autonomi_webrtc_direct_p.Browser.Retrieve.Fixture.{IsStocked, IsAmong}
use autonomi_webrtc_direct_p.System.{Link, LinkLaws, IsReliable, Calls}
use autonomi_webrtc_direct_p.System.Click.{proxied, download-handle_request}
use autonomi_webrtc_direct_p.Examples.Memory.{
  Memory, read_exactly, read_up_to, put, note, put_err, read_exactly_ok, log-read_exactly,
  read_up_to_ok, read_end, no_error,
}
use autonomi_webrtc_direct_p.Examples.Toy.{toy, toy_laws, toy_upload}
use autonomi_webrtc_direct_p.Examples.Retrievals.{name, nowhere}
use autonomi_webrtc_direct_p.Examples.Five.{five, five_map, five_chunks, five_fixture, five_runs}

-- The stream in memory, with a write to spare whenever one is made.
abbrev pub steady : Stream
steady = record {
  S = Memory;
  read_exact = read_exactly;
  read = read_up_to;
  write_all = λ bs s. put bs 1 s;
  flush = note flushed;
  close = note closed;
}

abbrev pub steady_laws : StreamLaws steady
steady_laws = record {
  log = λ s. s.log;
  pending = λ s. s.incoming;
  write_all_ok = λ bs s {u} h. refl;
  write_all_err = λ bs s {e} h. put_err bs 1 s e h;
  flush_ok = λ s h. refl;
  flush_err = λ s {e} h. no_error tt e h;
  close_ok = λ s h. refl;
  close_err = λ s {e} h. no_error tt e h;
  read_exact_ok = λ n s {bs} h. read_exactly_ok n s bs h;
  read_exact_log = log-read_exactly;
  read_ok = λ n s {bs} h. read_up_to_ok n s bs h;
  read_eof = read_end;
  read_log = λ n s. refl;
}

pub read_exactly_fits :
    (n : ℕ) (s : Memory)
    → n ≤ length s.incoming
    → (bytes : Bytes) × ((read_exactly n s).0 ≡ ok bytes)
read_exactly_fits n s h =
    let fits : leb n (length s.incoming) ≡ true = ground (arith, h) in
    (take n s.incoming, rw fits refl)

abbrev pub steady_reliable : IsReliable steady steady_laws
steady_reliable = record {
  write_all_succeeds = λ bytes s. (refl, refl);
  flush_succeeds = λ s. (refl, refl);
  close_succeeds = λ s. (refl, refl);
  read_exact_succeeds = read_exactly_fits;
}

abbrev pub cable : Link steady
cable = record {
  arriving = λ n bytes. record { incoming = bytes; log = []; writes_left = 0 };
  delivered = λ s. delivery (sent s.log) ended;
}

pub cable_complete : (s : Memory) → text (cable.delivered s) ≡ sent s.log
unfolding text
cable_complete s = append-nil (sent s.log)

abbrev pub cable_laws : LinkLaws steady steady_laws cable
cable_laws = record {
  fresh = λ n bytes. refl;
  carried = λ n bytes. refl;
  complete = cable_complete;
}

abbrev all_short : Dict Bytes → Bool
all_short [] = true
all_short ((name, bytes) ∷ d) = leb (length bytes) 8 && all_short d

length-get :
    (d : Dict Bytes) (k bytes : Bytes)
    → all_short d ≡ true
    → Dict.get d k ≡ some bytes
    → length bytes ≤ 8
unfolding Dict.get
length-get [] k bytes short h = absurd (cc h)
length-get ((j, v) ∷ d) k bytes short h = elim (Bool-cases (bytes_eq j k)) [
  | inl same ↦
      let found : v ≡ bytes = ground (arith, same, h) in
      let long : length v ≤ 8 = ground (arith, short) in rw found at long
  | inr other ↦ length-get d k bytes (ground (arith, short)) (ground (arith, other, h))
]

pub fixture-IsModest :
    IsModest steady steady_laws (source_get toy nowhere (Source.fixture five_fixture))
unfolding source_get fixture_get Dict.get
fixture-IsModest address bytes h =
    let found : Dict.get five_fixture.chunks address ≡ some bytes = cc h in
    omega (arith, length-get five_fixture.chunks address bytes refl found)

abbrev beside : Libp2p
beside =
    proxied steady cable 9 (codes "/ip4/1.2.3.4")
      (source_get toy nowhere (Source.fixture five_fixture))

abbrev load : Io ℕ Calls (Unit {0})
load w = (ok tt, w)

abbrev page : Page toy beside
page = record {
  world = record { opened = 0; request = [] };
  client = none;
  wasm_ready = false;
  status = idle;
  busy = false;
  result = [];
  proxy = codes " /ip4/1.2.3.4";
  address = [];
}

download-handle_request_example :
    Presents toy beside five [] []
      (download toy beside load ((32 ∷ []) ++ (hex (name 15) ++ (10 ∷ []))) [] [] page)
    ⊎ Collision toy (IsStocked five_fixture) (IsAmong toy five_chunks)
unfolding is_whitespace js_trim is_js_whitespace
download-handle_request_example =
    download-handle_request toy toy_laws toy_upload nowhere steady steady_laws steady_reliable cable
      cable_laws 9 (codes "/ip4/1.2.3.4") five five_map five_chunks five_fixture load (32 ∷ [])
      (10 ∷ []) [] [] page refl refl five_runs fixture-IsModest (omega arith) (omega arith)
      (λ w. refl) (refl, tt) (refl, tt) refl refl
