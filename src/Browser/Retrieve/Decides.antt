-- ===== src/Browser/Retrieve/Decides.antt =====
-- The errors of the loop of `retrieve` are never thrown.
pub mod Rounds
use autonomi_webrtc_direct_p.Prelude.{
  ◌≢◌, inl, inr, not, Option, Bytes, Result, ok, err, map_err, Result-cases, Option-cases,
}
use mathlib.Core.Path.{subst}
use autonomi_webrtc_direct_p.Prelude.Effects.{Io, continue}
use autonomi_webrtc_direct_p.Crates.{Crates, CrateLaws}
use autonomi_webrtc_direct_p.Client.Retrieval.{Retrieval, begin, finish}
use autonomi_webrtc_direct_p.Browser.Retrieve.{
  RetrieveError, stalled, unresolved, client, round, rounds, max_rounds, conclude, drive,
  retrieve_found, retrieve,
}
use autonomi_webrtc_direct_p.Browser.Retrieve.Decides.Rounds.{
  IsForeign, EndsIn, IsDone, rounds-EndsIn,
}

module _ (c : Crates) (laws : CrateLaws c) {E S : Type 0}
    (get_chunk : Bytes → Io E S (Option Bytes)) where
  -- The outcome is content, or an error that is not the loop's own.
  Decided : {A : Type 0} → Result (RetrieveError c.Failure E) A → Type 0
  Decided (ok a) = Unit {0}
  Decided (err e) = IsForeign e

  conclude_done :
      (out : Result (RetrieveError c.Failure E) (Unit {0}) × (S × Retrieval c))
      → EndsIn c laws get_chunk (IsDone c laws get_chunk) out
      → Decided (continue out.0 (λ _. conclude c get_chunk) out.1).0
  unfolding conclude Decided
  conclude_done (err e, (s, r)) h = h
  conclude_done (ok u, (s, r)) h = rw (h, conclude) (finished (finish c r))
    where
      finished : (x : Result _ Bytes) → Decided (map_err client x)
      finished (ok x) = tt
      finished (err e) = tt

  Decided-retrieve : (address : Bytes) (s : S) → Decided (retrieve c get_chunk address s).0
  unfolding Decided retrieve retrieve_found drive
  Decided-retrieve address s = elim (Result-cases (get_chunk address s).0) [
    | inr (e, p) ↦ rw (p, retrieve) tt
    | inl (found, p) ↦
        rw (p, retrieve)
          (elim (Option-cases found) [
            | inl nothing ↦ rw nothing tt
            | inr (bytes, there) ↦ rw there (elim (Result-cases (begin c address bytes)) [
              | inr (e, q) ↦ rw (q, retrieve_found) tt
              | inl (r, q) ↦
                  rw (q, retrieve_found)
                    (conclude_done (rounds c get_chunk max_rounds ((get_chunk address s).1, r))
                      (rounds-EndsIn c laws get_chunk 14 (get_chunk address s).1 r))
            ])
          ])
  ]

  -- Whatever the proxy answers and whatever the data map, `retrieve` throws neither of the two
  -- errors of its own loop, that it has stalled and that the rounds did not suffice: if nothing else
  -- fails, one round puts the root map in place, and one more brings all its chunks.
  pub retrieve_decides :
      (address : Bytes) (s : S)
      → ((retrieve c get_chunk address s).0 ≢ err stalled)
        × ((retrieve c get_chunk address s).0 ≢ err unresolved)
  unfolding Decided
  retrieve_decides address s = (
    λ h. subst Decided h (Decided-retrieve address s),
    λ h. subst Decided h (Decided-retrieve address s),
  )
