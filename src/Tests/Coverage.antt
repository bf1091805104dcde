-- ===== src/Tests/Coverage.antt =====
-- The check of the coverage of four minutes around a new year.
use scraper.Base.{◌+◌, ◌≡◌, refl, true, none, some, ok, All}
use scraper.Base.Int.{atoi, unsigned, digits_value}
use scraper.Text.{
  codes, text_eq, is_empty, lower_char, upper_char, is_space, to_lower, to_upper, trim_left,
  trim_right, keep_right, trim_space,
}
use scraper.Time.{Time, minute, year, year_of_day, year_begin, days_before}
use scraper.Backfill.Interval.{
  interval_duration, expected_bar_count, covered_end_from_max_open_time, init_text, last_char,
}
use scraper.Backfill.Request.{
  KlineRequest, or_default, normalize_kline_request, validate_kline_request,
}
use scraper.Backfill.Window.{split_by_year, split_from, window_end}
use scraper.Backfill.Verify.{
  Server, WindowCoverage, counted, verify_kline_coverage, verify_request, verify_windows,
  verify_window_coverage,
}
use scraper.Backfill.Verify.Summary.{all_ready, SpansWindow, verify_kline_coverage-Spans}

abbrev first_open : Time
first_open = 63_871_286_280_000_000_000

abbrev request : KlineRequest
request = record {
  exchange = codes " Binance";
  market = codes "spot";
  symbol = codes "btcusdt";
  interval = codes "1m";
  start_at = first_open;
  end_at = first_open + 240_000_000_000;
}

-- Two rows in each window.
abbrev server : Server
server = record {
  exists = λ name. ok true;
  connect = λ name. none;
  count_rows = λ name table symbol w. counted 2 (some w.start) (some (w.start + minute));
}

abbrev whole : WindowCoverage
whole = record {
  ready = true;
  start_at = some first_open;
  end_at = some (first_open + 240_000_000_000);
}

checked : verify_kline_coverage server (codes "{exchange}_{year}") request ≡ ok whole
unfolding verify_kline_coverage verify_request verify_windows verify_window_coverage
    normalize_kline_request validate_kline_request or_default text_eq is_empty lower_char upper_char
    is_space to_lower to_upper trim_left trim_right keep_right trim_space year year_of_day
    year_begin days_before split_by_year split_from window_end interval_duration expected_bar_count
    covered_end_from_max_open_time init_text last_char atoi unsigned digits_value
checked = refl

verify_kline_coverage-Spans_example :
    let normal = normalize_kline_request request in
    let verify = verify_window_coverage server (codes "{exchange}_{year}") normal in
    let ws = split_by_year normal.start_at normal.end_at in
    (true ≡ all_ready verify ws) × All (SpansWindow verify whole) ws
verify_kline_coverage-Spans_example =
    verify_kline_coverage-Spans server (codes "{exchange}_{year}") request whole checked
