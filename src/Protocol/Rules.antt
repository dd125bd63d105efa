-- ===== src/Protocol/Rules.antt =====
-- What an action hands to the transport: rules for `pure`, `raise`, the operations and bind.
use mathlib.Core.List.{append_assoc, append-nil}
use autonomi_webrtc_direct_p.Prelude.{
  ◌≡◌, refl, sym, ap, ◌∙◌, List, [], ◌∷◌, ◌++◌, Bytes, Result, ok, err,
}
use autonomi_webrtc_direct_p.Prelude.Effects.{Io, pure, raise, continue, ◌>>=◌}
use autonomi_webrtc_direct_p.Protocol.Transport.{
  Stream, StreamLaws, Event, wrote, flushed, closed, sent, SentPart,
}

pub sent-append : (es fs : List Event) → sent (es ++ fs) ≡ sent es ++ sent fs
sent-append [] fs = refl
sent-append (wrote bs ∷ es) fs = rw (sent-append es fs) (sym (append_assoc bs (sent es) (sent fs)))
sent-append (flushed ∷ es) fs = sent-append es fs
sent-append (closed ∷ es) fs = sent-append es fs

pub SentPart-none : (before full : Bytes) → SentPart before before full
SentPart-none before full = record {
  part = [];
  rest = full;
  is_part = refl;
  is_sent = sym (append-nil before);
}

pub SentPart-left :
    {before after : Bytes} (x y : Bytes) → SentPart before after x → SentPart before after (x ++ y)
SentPart-left x y p = record {
  part = p.part;
  rest = p.rest ++ y;
  is_part = rw p.is_part (append_assoc p.part p.rest y);
  is_sent = p.is_sent;
}

pub SentPart-right :
    {before middle after : Bytes} (x y : Bytes)
    → middle ≡ before ++ x
    → SentPart middle after y
    → SentPart before after (x ++ y)
SentPart-right {before} x y e p = record {
  part = x ++ p.part;
  rest = p.rest;
  is_part = rw p.is_part (sym (append_assoc x p.part p.rest));
  is_sent = p.is_sent ∙ rw e (append_assoc before x p.part);
}

module _ (st : Stream) (laws : StreamLaws st) where
  open st use {S, write_all, flush, close}
  open laws use {log, write_all_ok, write_all_err, flush_ok, flush_err, close_ok, close_err}

  -- On success `m` has logged `events`; on failure it has sent the start of what these carry.
  pub record Sends {E A : Type 0} (m : Io E S A) (events : List Event) : Type 0 where
    pub on_ok : (s : S) (a : A) → (m s).0 ≡ ok a → log (m s).1 ≡ log s ++ events
    pub on_err :
        (s : S) (e : E)
        → (m s).0 ≡ err e
        → SentPart (sent (log s)) (sent (log (m s).1)) (sent events)

  pub Sends-pure : {E A : Type 0} (a : A) → Sends {E = E} (pure a) []
  Sends-pure a = record { on_ok = λ s _ _. sym (append-nil (log s)); on_err = λ s e h. cc }

  pub Sends-raise : {E A : Type 0} (e : E) (events : List Event) → Sends {A = A} (raise e) events
  Sends-raise e events = record {
    on_ok = λ s a h. cc;
    on_err = λ s _ _. SentPart-none (sent (log s)) (sent events);
  }

  pub Sends-write_all : (bs : Bytes) → Sends (write_all bs) (wrote bs ∷ [])
  Sends-write_all bs = record {
    on_ok = λ s a h. write_all_ok bs s h;
    on_err = λ s e h. SentPart-left bs [] (write_all_err bs s h);
  }

  pub Sends-flush : Sends flush (flushed ∷ [])
  Sends-flush = record {
    on_ok = λ s a h. flush_ok s h;
    on_err = λ s e h. rw (flush_err s h) (SentPart-none (sent (log s)) []);
  }

  pub Sends-close : Sends close (closed ∷ [])
  Sends-close = record {
    on_ok = λ s a h. close_ok s h;
    on_err = λ s e h. rw (close_err s h) (SentPart-none (sent (log s)) []);
  }

  module _ {E A B : Type 0} (m : Io E S A) (f : A → Io E S B) (xs ys : List Event) where
    bind_ok :
        (s : S) (r : Result E A)
        → (m s).0 ≡ r
        → Sends m xs
        → ((a : A) → Sends (f a) ys)
        → (b : B) → (continue r f (m s).1).0 ≡ ok b
        → log (continue r f (m s).1).1 ≡ log s ++ (xs ++ ys)
    bind_ok s (ok a) e hm hf b h =
        (hf a).on_ok (m s).1 b h ∙ rw (hm.on_ok s a e) (append_assoc (log s) xs ys)
    bind_ok s (err x) e hm hf b h = cc

    bind_err :
        (s : S) (r : Result E A)
        → (m s).0 ≡ r
        → Sends m xs
        → ((a : A) → Sends (f a) ys)
        → (x : E) → (continue r f (m s).1).0 ≡ err x
        → SentPart (sent (log s)) (sent (log (continue r f (m s).1).1)) (sent xs ++ sent ys)
    bind_err s (ok a) e hm hf x h =
        SentPart-right (sent xs) (sent ys) (ap sent (hm.on_ok s a e) ∙ sent-append (log s) xs)
          ((hf a).on_err (m s).1 x h)
    bind_err s (err z) e hm hf x h = SentPart-left (sent xs) (sent ys) (hm.on_err s z e)

    pub Sends-bind : Sends m xs → ((a : A) → Sends (f a) ys) → Sends (m >>= f) (xs ++ ys)
    Sends-bind hm hf = record {
      on_ok = λ s b h. bind_ok s (m s).0 refl hm hf b h;
      on_err = λ s x h. rw (sent-append xs ys) (bind_err s (m s).0 refl hm hf x h);
    }
