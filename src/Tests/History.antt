-- ===== src/Tests/History.antt =====
-- Two requests for history, one of which is for order books.
use scraper.Base.{◌≡◌, refl, true, ◌&&◌, ◌||◌, List, [], ◌∷◌, none, some, ok, All, ℕ, ◌+◌}
use scraper.Base.Int.{pos}
use scraper.Text.{
  codes, text_eq, is_empty, lower_char, is_space, to_lower, trim_left, trim_right, keep_right,
  trim_space,
}
use scraper.Time.{Time, minute}
use scraper.Backfill.Verify.{Server, undefined_table, counted}
use scraper.Control.History.{HistoricalRequest, HistoryWorld, request_of, run_request}
use scraper.Control.History.Runs.{IsRun, Justified, run_request-IsRun, run_request-Justified}
use scraper.Control.Tracking.{
  HistoricalRuntime, new_historical_runtime, is_in_flight, is_seen, reconcile_once, round,
  round_ends, job_ended, stopped, perform, perform_all, reconcile_request, cancel_missing,
  cancel_where, normalized_databases, put_database, find_database, launch, untrack,
}
use scraper.Control.Tracking.Accounts.{
  Accounts, perform_all-Accounts, new_historical_runtime-Accounts,
}
use scraper.Control.Tracking.Listed.{find_job, is_wanted, is_supported, reconcile_once-Listed}
use scraper.Control.Tracking.Relaunch.{job_ended-relaunches}

abbrev first_open : Time
first_open = 63_871_286_400_000_000_000

abbrev klines : HistoricalRequest
klines = record {
  request_id = pos 7;
  user_id = pos 1;
  portfolio_id = pos 1;
  key = record {
    exchange = codes "binance";
    market = codes "spot";
    kind = codes "kline";
    symbol = codes "BTCUSDT";
    interval = codes "1m";
  };
  status = codes "pending";
  requested_start_at = some first_open;
  requested_end_at = some (first_open + 120_000_000_000);
  covered_start_at = none;
  covered_end_at = none;
  last_error = [];
}

abbrev books : HistoricalRequest
books = record klines {
  request_id = pos 8;
  key = record {
    exchange = codes "binance";
    market = codes "spot";
    kind = codes "orderbook";
    symbol = codes "BTCUSDT";
    interval = [];
  };
}

-- A database without the table, and one with the two rows of the request.
abbrev empty_server : Server
empty_server = record {
  exists = λ name. ok true;
  connect = λ name. none;
  count_rows = λ name table symbol w. undefined_table;
}

abbrev filled_server : Server
filled_server = record empty_server {
  count_rows = λ name table symbol w. counted 2 (some w.start) (some (w.start + minute));
}

abbrev world : HistoryWorld
world = record {
  before = empty_server;
  after = filled_server;
  backfill = λ db request. ok [];
  report_segments = λ reports. none;
}

abbrev template : List ℕ
template = codes "{exchange}_{year}"

abbrev runtime : HistoricalRuntime
runtime = new_historical_runtime ((codes " Binance", template) ∷ [])

run_request-IsRun_example :
    IsRun (pos 7) none (run_request world klines template first_open (first_open + 120_000_000_000))
run_request-IsRun_example =
    run_request-IsRun world klines template first_open (first_open + 120_000_000_000)

run_request-Justified_example :
    All
      (Justified world klines template
        (request_of klines first_open (first_open + 120_000_000_000)))
      (run_request world klines template first_open (first_open + 120_000_000_000))
run_request-Justified_example =
    run_request-Justified world klines template first_open (first_open + 120_000_000_000)

perform_all-Accounts_example : Accounts (
    perform_all
      (round klines
        ∷ round books
        ∷ round_ends (klines ∷ books ∷ [])
        ∷ round_ends []
        ∷ round klines
        ∷ job_ended (pos 7)
        ∷ stopped
        ∷ [])
      runtime)
perform_all-Accounts_example =
    perform_all-Accounts
      (round klines
        ∷ round books
        ∷ round_ends (klines ∷ books ∷ [])
        ∷ round_ends []
        ∷ round klines
        ∷ job_ended (pos 7)
        ∷ stopped
        ∷ [])
      runtime (new_historical_runtime-Accounts ((codes " Binance", template) ∷ []))

reconcile_once-Listed_example :
    let r' = (reconcile_once (ok (klines ∷ books ∷ [])) runtime).0 in
    (is_in_flight (pos 7) r'.in_flight ≡ (
      is_seen (pos 7) (klines ∷ books ∷ [])
      && (is_in_flight (pos 7) runtime.in_flight
          || is_wanted runtime.databases (pos 7) (klines ∷ books ∷ []))))
    × ((j : ℕ)
        → is_seen (pos 7) (klines ∷ books ∷ []) ≡ true
        → find_job (pos 7) runtime.in_flight ≡ some j
        → find_job (pos 7) r'.in_flight ≡ some j)
reconcile_once-Listed_example = reconcile_once-Listed (klines ∷ books ∷ []) runtime (pos 7)

-- The first job was cancelled, and the request is listed again when it ends.
abbrev listed_again : HistoricalRuntime
listed_again = perform_all (round klines ∷ round_ends [] ∷ round klines ∷ []) runtime

supported : is_supported listed_again.databases klines ≡ true
unfolding perform_all perform reconcile_request cancel_missing cancel_where new_historical_runtime
    normalized_databases put_database find_database text_eq is_empty to_lower lower_char trim_space
    trim_left trim_right keep_right is_space is_in_flight is_seen
supported = refl

job_ended-relaunches_example :
    perform_all (job_ended (pos 7) ∷ round klines ∷ []) listed_again
    ≡ launch klines (record listed_again { in_flight = untrack (pos 7) listed_again.in_flight })
job_ended-relaunches_example = job_ended-relaunches klines listed_again supported
