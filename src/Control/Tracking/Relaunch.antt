-- ===== src/Control/Tracking/Relaunch.antt =====
-- What the end of a job forgets.
use scraper.Base.{
  ℕ, ◌≡◌, refl, inl, inr, true, false, ◌&&◌, List, [], ◌∷◌, Option, none, some, Bool-cases, arith,
}
use scraper.Base.Int.{ℤ}
use scraper.Text.{Text, codes, text_eq}
use scraper.Time.{Time}
use scraper.Control.Stream.{int_eq, is_positive}
use scraper.Control.History.{HistoricalRequest}
use scraper.Control.Tracking.{
  HistoricalRuntime, find_database, is_in_flight, untrack, launch, with_database, with_range,
  reconcile_request, job_ended, round, perform, perform_all,
}
use scraper.Control.Tracking.Listed.{is_given, is_supported}

untrack-forgets : (id : ℤ) (m : List (ℤ × ℕ)) → is_in_flight id (untrack id m) ≡ false
unfolding untrack is_in_flight
untrack-forgets id [] = refl
untrack-forgets id ((k, job) ∷ m) = elim (Bool-cases (int_eq k id)) [
  | inl same ↦ rw same (untrack-forgets id m)
  | inr other ↦ rw (other, other) (untrack-forgets id m)
]

-- A supported request that is not in flight is launched.
reconcile_request-launches :
    (req : HistoricalRequest) (r : HistoricalRuntime)
    → is_supported r.databases req ≡ true
    → is_in_flight req.request_id r.in_flight ≡ false
    → reconcile_request req r ≡ launch req r
unfolding reconcile_request
reconcile_request-launches req r supported free =
    let positive : is_positive req.request_id ≡ true = ground (arith, supported) in
    let known : text_eq req.key.kind (codes "kline") ≡ true = ground (arith, supported) in
    rw (positive, known)
      (ranged req.requested_start_at req.requested_end_at (ground (arith, supported))
        (ground (arith, supported)))
  where
    based : (o : Option Text) → is_given o ≡ true → with_database req o r ≡ launch req r
    based none h = cc
    based (some db) h = rw free refl

    ranged :
        (start stop : Option Time)
        → (is_given start && is_given stop) ≡ true
        → is_given (find_database req.key.exchange r.databases) ≡ true
        → with_range req start stop r ≡ launch req r
    ranged none stop h k = cc
    ranged (some start) none h k = cc
    ranged (some start) (some stop) h k = based (find_database req.key.exchange r.databases) k

-- When a job of a supported request ends, whichever job is tracked for that request is forgotten, so
-- that the next round launches another one, also while the tracked one runs.
pub job_ended-relaunches :
    (req : HistoricalRequest) (r : HistoricalRuntime)
    → is_supported r.databases req ≡ true
    → let forgets : HistoricalRuntime = record r {
      in_flight = untrack req.request_id r.in_flight;
    } in
      perform_all (job_ended req.request_id ∷ round req ∷ []) r ≡ launch req forgets
unfolding perform_all perform
job_ended-relaunches req r supported =
    reconcile_request-launches req (record r { in_flight = untrack req.request_id r.in_flight })
      supported (untrack-forgets req.request_id r.in_flight)
