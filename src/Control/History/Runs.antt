-- ===== src/Control/History/Runs.antt =====
-- The reports of a run for one request: their order, and what a report of readiness rests on.
use scraper.Base.{
  ◌≡◌, refl, ◌⊎◌, inl, inr, true, List, [], ◌∷◌, Option, none, some, ok, err, Result, All,
  Bool-cases, sym, ◌∙◌,
}
use scraper.Base.Int.{ℤ}
use scraper.Text.{Text}
use scraper.Time.{Time}
use scraper.Backfill.Interval.{Error}
use scraper.Backfill.Request.{KlineRequest, normalize_kline_request}
use scraper.Backfill.Segment.{CoverageSegment}
use scraper.Backfill.Window.{split_by_year}
use scraper.Backfill.Verify.{Server, WindowCoverage, verify_kline_coverage, verify_window_coverage}
use scraper.Backfill.Verify.Summary.{all_ready, SpansWindow, verify_kline_coverage-Spans}
use scraper.Control.History.{
  HistoricalRequest, HistoryStatus, running, verifying, ready, error, HistoricalRequestStateReport,
  HistoryReport, state_report, segments_report, HistoryWorld, request_of, after_second_check,
  verify_again, after_segments_report, after_backfill, after_first_check, run_request,
  coverage_reports_from_segments,
}

-- The statuses that may be reported first, and after a status.
abbrev pub CanFollow : Option HistoryStatus → HistoryStatus → Type 0
CanFollow none running = Unit
CanFollow none verifying = ⊥
CanFollow none ready = Unit
CanFollow none error = Unit
CanFollow (some running) running = ⊥
CanFollow (some running) verifying = Unit
CanFollow (some running) ready = ⊥
CanFollow (some running) error = Unit
CanFollow (some verifying) running = ⊥
CanFollow (some verifying) verifying = ⊥
CanFollow (some verifying) ready = Unit
CanFollow (some verifying) error = Unit
CanFollow (some ready) next = ⊥
CanFollow (some error) next = ⊥

-- A run is over after these statuses.
abbrev pub IsFinal : Option HistoryStatus → Type 0
IsFinal none = ⊥
IsFinal (some running) = ⊥
IsFinal (some verifying) = ⊥
IsFinal (some ready) = Unit
IsFinal (some error) = Unit

-- Reports for a request after a status: each status follows the one before, segments are reported while
-- the request is running, and the last status is final.
abbrev pub IsRun : ℤ → Option HistoryStatus → List HistoryReport → Type 0
IsRun id before [] = IsFinal before
IsRun id before (state_report r ∷ rs) =
    (r.request_id ≡ id) × CanFollow before r.status × IsRun id (some r.status) rs
IsRun id before (segments_report segments ∷ rs) = (before ≡ some running) × IsRun id before rs

-- On a server, all windows of the request are ready, and the times span what is covered in them.
abbrev pub CoversTimes : Server → Text → KlineRequest → Option Time → Option Time → Type 0
CoversTimes server db request start stop =
    let normal = normalize_kline_request request in
    let verify = verify_window_coverage server db normal in
    let ws = split_by_year normal.start_at normal.end_at in
    (cov : WindowCoverage) × (cov.start_at ≡ start)
    × (cov.end_at ≡ stop)
    × (all_ready verify ws ≡ true)
    × All (SpansWindow verify cov) ws

abbrev pub IsCovered : Server → Text → KlineRequest → HistoricalRequestStateReport → Type 0
IsCovered server db request r = CoversTimes server db request r.covered_start_at r.covered_end_at

module _ (world : HistoryWorld) (req : HistoricalRequest) (db : Text) (request : KlineRequest) where
  -- A report of readiness is true of the server, before or after the backfill.
  abbrev pub IsJustified : HistoryStatus → HistoricalRequestStateReport → Type 0
  IsJustified running r = Unit
  IsJustified verifying r = Unit
  IsJustified error r = Unit
  IsJustified ready r = IsCovered world.before db request r ⊎ IsCovered world.after db request r

  abbrev pub Justified : HistoryReport → Type 0
  Justified (state_report r) = IsJustified r.status r
  Justified (segments_report segments) = Unit

  covers :
      (server : Server) (cov : WindowCoverage)
      → verify_kline_coverage server db request ≡ ok cov
      → cov.ready ≡ true
      → CoversTimes server db request cov.start_at cov.end_at
  covers server cov h full =
      let (whole, spans) = verify_kline_coverage-Spans server db request cov h in
      (cov, refl, refl, sym whole ∙ full, spans)

  -- A run after a status, whose reports of readiness are true.
  abbrev Sound : Option HistoryStatus → List HistoryReport → Type 0
  Sound before rs = IsRun req.request_id before rs × All Justified rs

  after_second_check-Sound :
      (r : Result Error WindowCoverage)
      → verify_kline_coverage world.after db request ≡ r
      → Sound (some verifying) (after_second_check world req r)
  after_second_check-Sound (err e) h = ((refl, tt, tt), (tt, tt))
  after_second_check-Sound (ok cov) h = elim (Bool-cases cov.ready) [
    | inl full ↦ rw full ((refl, tt, tt), (inr (covers world.after cov h full), tt))
    | inr partial ↦ rw partial ((refl, tt, tt), (tt, tt))
  ]

  verify_again-Sound :
      (cov : WindowCoverage) → Sound (some running) (verify_again world req db request cov)
  verify_again-Sound cov =
      let (run, all) =
        after_second_check-Sound (verify_kline_coverage world.after db request) refl in
      ((refl, tt, run), (tt, all))

  after_segments_report-Sound :
      (cov : WindowCoverage) (o : Option Text)
      → Sound (some running) (after_segments_report world req db request cov o)
  after_segments_report-Sound cov none = verify_again-Sound cov
  after_segments_report-Sound cov (some e) = ((refl, tt, tt), (tt, tt))

  after_backfill-Sound :
      (cov : WindowCoverage) (r : Result Error (List CoverageSegment))
      → Sound (some running) (after_backfill world req db request cov r)
  after_backfill-Sound cov (err e) = ((refl, tt, tt), (tt, tt))
  after_backfill-Sound cov (ok []) = verify_again-Sound cov
  after_backfill-Sound cov (ok (segment ∷ segments)) =
      let (run, all) =
        after_segments_report-Sound cov
          (world.report_segments (coverage_reports_from_segments req.key (segment ∷ segments))) in
      ((refl, run), (tt, all))

  after_first_check-Sound :
      (r : Result Error WindowCoverage)
      → verify_kline_coverage world.before db request ≡ r
      → Sound none (after_first_check world req db request r)
  after_first_check-Sound (err e) h = ((refl, tt, tt), (tt, tt))
  after_first_check-Sound (ok cov) h = elim (Bool-cases cov.ready) [
    | inl full ↦ rw full ((refl, tt, tt), (inl (covers world.before cov h full), tt))
    | inr partial ↦
        let (run, all) = after_backfill-Sound cov (world.backfill db request) in
        rw partial ((refl, tt, run), (tt, all))
  ]

module _ (world : HistoryWorld) (req : HistoricalRequest) (db : Text) (start stop : Time) where
  run_request-Sound :
      Sound world req db (request_of req start stop) none (run_request world req db start stop)
  unfolding run_request
  run_request-Sound =
      after_first_check-Sound world req db (request_of req start stop)
        (verify_kline_coverage world.before db (request_of req start stop)) refl

  -- Whatever the server, the backfill and the remote service answer, the reports of a run are for its
  -- request, go from running to verifying at most, report segments only while the request is running, and
  -- end with ready or error.
  pub run_request-IsRun : IsRun req.request_id none (run_request world req db start stop)
  run_request-IsRun = run_request-Sound.0

  -- A request is reported ready only if, on the server before or after the backfill, the check of each
  -- window of the normalised request finds it ready, and the reported times span what is covered in it.
  pub run_request-Justified :
      All (Justified world req db (request_of req start stop)) (run_request world req db start stop)
  run_request-Justified = run_request-Sound.1
