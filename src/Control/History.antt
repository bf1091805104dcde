-- ===== src/Control/History.antt =====
-- internal/controlplane/history.go and history_runtime.go: requests for history, their reports, and
-- `runRequest`, which works for one request. The server, whose rows change between two checks, the
-- backfill and the answers of the remote service are parameters. An error of a report of the state is
-- logged only.
pub mod Runs
use scraper.Base.{
  Bool, true, false, List, [], ◌∷◌, ◌++◌, Option, none, some, ok, err, Result, ℕ, if◌then◌else◌,
}
use scraper.Base.Int.{ℤ}
use scraper.Text.{Text}
use scraper.Time.{Time}
use scraper.Backfill.Interval.{Error}
use scraper.Backfill.Request.{KlineRequest, or_default}
use scraper.Backfill.Segment.{CoverageSegment}
use scraper.Backfill.Verify.{Server, WindowCoverage, verify_kline_coverage}
use scraper.Control.Stream.{StreamKey}

pub record HistoricalRequest : Type 0 where
  pub request_id : ℤ
  pub user_id : ℤ
  pub portfolio_id : ℤ
  pub key : StreamKey
  pub status : Text
  pub requested_start_at : Option Time
  pub requested_end_at : Option Time
  pub covered_start_at : Option Time
  pub covered_end_at : Option Time
  pub last_error : Text

-- The strings that the runtime reports as `Status`.
pub data HistoryStatus : Type 0 where
  running verifying ready error : HistoryStatus

-- The strings that it reports as `LastError`, by what is formatted.
pub data HistoryError : Type 0 where
  no_error missing_range incomplete : HistoryError
  unsupported_kind unknown_exchange coverage_report_failed : Text → HistoryError
  failed : Error → HistoryError

pub record HistoricalRequestStateReport : Type 0 where
  pub request_id : ℤ
  pub status : HistoryStatus
  pub covered_start_at : Option Time
  pub covered_end_at : Option Time
  pub last_error : HistoryError

-- The year is an int32, which holds the years of all times.
pub record CoverageSegmentReport : Type 0 where
  pub key : StreamKey
  pub year_of : ℕ
  pub start_at : Time
  pub end_at : Time
  pub row_count : ℕ
  pub source : Text

unfoldable pub coverage_reports_from_segments :
    StreamKey → List CoverageSegment → List CoverageSegmentReport
unfolding or_default
coverage_reports_from_segments key [] = []
coverage_reports_from_segments key (segment ∷ segments) =
    record {
      key = record key {
        exchange = or_default key.exchange segment.exchange;
        market = or_default key.market segment.market;
        symbol = or_default key.symbol segment.symbol;
        interval = or_default key.interval segment.interval;
      };
      year_of = segment.year_of;
      start_at = segment.start_at;
      end_at = segment.end_at;
      row_count = segment.row_count;
      source = segment.source;
    }
    ∷ coverage_reports_from_segments key segments

-- The calls of `runRequest` to the remote service.
pub data HistoryReport : Type 0 where
  state_report : HistoricalRequestStateReport → HistoryReport
  segments_report : List CoverageSegmentReport → HistoryReport

-- The server before and after the backfill; what the backfill and the report of segments return.
pub record HistoryWorld : Type 0 where
  pub before : Server
  pub after : Server
  pub backfill : Text → KlineRequest → Result Error (List CoverageSegment)
  pub report_segments : List CoverageSegmentReport → Option Text

abbrev pub covered_report : ℤ → HistoryStatus → WindowCoverage → HistoryError → HistoryReport
covered_report id status cov e = state_report (record {
  request_id = id;
  status = status;
  covered_start_at = cov.start_at;
  covered_end_at = cov.end_at;
  last_error = e;
})

abbrev pub uncovered_report : ℤ → HistoryError → HistoricalRequestStateReport
uncovered_report id e = record {
  request_id = id;
  status = error;
  covered_start_at = none;
  covered_end_at = none;
  last_error = e;
}

abbrev pub request_of : HistoricalRequest → Time → Time → KlineRequest
request_of req start stop = record {
  exchange = req.key.exchange;
  market = req.key.market;
  symbol = req.key.symbol;
  interval = req.key.interval;
  start_at = start;
  end_at = stop;
}

module _ (world : HistoryWorld) (req : HistoricalRequest) where
  abbrev pub after_second_check : Result Error WindowCoverage → List HistoryReport
  after_second_check (err e) = state_report (uncovered_report req.request_id (failed e)) ∷ []
  after_second_check (ok cov) =
      if cov.ready
      then covered_report req.request_id ready cov no_error ∷ []
      else covered_report req.request_id error cov incomplete ∷ []

  abbrev pub verify_again : Text → KlineRequest → WindowCoverage → List HistoryReport
  verify_again db request cov =
      covered_report req.request_id verifying cov no_error
      ∷ after_second_check (verify_kline_coverage world.after db request)

  abbrev pub after_segments_report :
      Text → KlineRequest → WindowCoverage → Option Text → List HistoryReport
  after_segments_report db request cov none = verify_again db request cov
  after_segments_report db request cov (some e) =
      covered_report req.request_id error cov (coverage_report_failed e) ∷ []

  abbrev pub after_backfill :
      Text
      → KlineRequest
      → WindowCoverage
      → Result Error (List CoverageSegment)
      → List HistoryReport
  after_backfill db request cov (err e) = covered_report req.request_id error cov (failed e) ∷ []
  after_backfill db request cov (ok []) = verify_again db request cov
  after_backfill db request cov (ok (segment ∷ segments)) =
      let reports = coverage_reports_from_segments req.key (segment ∷ segments) in
      segments_report reports ∷ after_segments_report db request cov (world.report_segments reports)

  abbrev pub after_first_check :
      Text → KlineRequest → Result Error WindowCoverage → List HistoryReport
  after_first_check db request (err e) =
      state_report (uncovered_report req.request_id (failed e)) ∷ []
  after_first_check db request (ok cov) =
      if cov.ready
      then covered_report req.request_id ready cov no_error ∷ []
      else covered_report req.request_id running cov no_error
        ∷ after_backfill db request cov (world.backfill db request)

  -- `runRequest` for a request with a range, on the database `db` of its exchange.
  unfoldable pub run_request : Text → Time → Time → List HistoryReport
  unfolding verify_kline_coverage coverage_reports_from_segments
  run_request db start stop =
      let request = request_of req start stop in
      after_first_check db request (verify_kline_coverage world.before db request)
