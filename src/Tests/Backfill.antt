-- ===== src/Tests/Backfill.antt =====
-- The backfill's properties on three minutes of BTCUSDT around a new year.
use scraper.Base.{
  ℕ, ◌+◌, ◌*◌, ◌<◌, ◌≤◌, ◌≡◌, refl, sym, ◌≢◌, ◌-◌, ◌==◌, if◌then◌else◌, false, List, [], ◌∷◌, ◌++◌,
  none, some, ok, err, arith, All,
}
use scraper.Base.Int.{pos, unsigned, digits_value, atoi}
use scraper.Text.{
  Text, codes, trim_space, trim_left, trim_right, keep_right, is_space, to_lower, to_upper,
  lower_char, upper_char,
}
use scraper.Time.{Time, minute, unix_nano, year, year_of_day}
use scraper.Models.{Kline}
use scraper.Backfill.Interval.{
  coverage_interval_duration, trimmed_duration, init_text, last_char, exhausted_retries,
}
use scraper.Backfill.Years.{Admin, run_kline_request}
use scraper.Backfill.Years.Stored.{Ends, run_kline_request-Ends}
use scraper.Backfill.Request.{KlineRequest, or_default, normalize_kline_request}
use scraper.Backfill.Window.{TimeWindow, split_by_year}
use scraper.Backfill.Window.Partition.{Chain, IsYearly, split_by_year-partition}
use scraper.Backfill.Segment.{
  CoverageSegment, build_coverage_segments, append_coverage_segments, open_times, sort_times,
  group_from, new_coverage_segment, seen_before, insert_time, coverage_segment_source, segments_of,
}
use scraper.Backfill.Segment.Runs.{covered_all, IsRun}
use scraper.Backfill.Segment.Times.{holds, opens_at, IsIncreasing, InSpan}
use scraper.Backfill.Segment.Exact.{
  InYear, build_coverage_segments-runs, build_coverage_segments-covers,
}
use scraper.Backfill.Segment.Merge.{append_coverage_segments-keeps}
use scraper.Backfill.Row.{Json, json_number, string}
use scraper.Backfill.Fetch.{Env, Response, response, fetch_klines}
use scraper.Backfill.Fetch.Retry.{fetch_klines-bounded}
use scraper.Backfill.Run.{backfill_window}
use scraper.Backfill.Run.Total.{Ended, backfill_window_sound}

-- 2024-12-31T23:58:00Z and 2025-01-01T00:02:00Z.
abbrev first_open : Time
first_open = 63_871_286_280_000_000_000

abbrev last_open : Time
last_open = 63_871_286_520_000_000_000

abbrev candle : Time → Kline
candle t = record {
  time = t;
  symbol = codes "BTCUSDT";
  market = codes "spot";
  exchange = codes "binance";
  interval = codes "1m";
  open_time = t;
  close_time = t + (minute - 1_000_000);
  open_price = 0;
  high = 0;
  low = 0;
  close = 0;
  volume = 0;
  quote_volume = 0;
  num_trades = pos 1;
}

abbrev candles : List Kline
candles = candle (first_open + minute) ∷ candle first_open ∷ candle first_open ∷ []

-- An exchange that answers 429 twice, then one row, then an empty list.
abbrev row : List Json
row =
    json_number (codes "1735689480000")
    ∷ string (codes "1")
    ∷ string (codes "2")
    ∷ string (codes "1")
    ∷ string (codes "2")
    ∷ string (codes "10")
    ∷ json_number (codes "1735689539999")
    ∷ string (codes "20")
    ∷ json_number (codes "7")
    ∷ []

abbrev answers : ℕ → Response
answers n =
    if n == 0
    then response 429 (codes "2") [] none
    else if n == 1
    then response 429 (codes "soon") [] none
    else if n == 2
    then response 200 [] [] (some (row ∷ []))
    else response 200 [] [] (some [])

abbrev exchange : Env
exchange = record {
  floats = record { truncate_int64 = λ x. x; parse_float = unsigned };
  respond = λ n url q. answers n;
  cancelled = λ n ms. false;
  insert = λ n klines. none;
}

abbrev request : KlineRequest
request = record {
  exchange = codes "binance";
  market = codes "spot";
  symbol = codes "BTCUSDT";
  interval = codes "1m";
  start_at = first_open;
  end_at = last_open;
}

abbrev december : TimeWindow
december = record { start = first_open; stop = 63_871_286_400_000_000_000 }

a_minute : coverage_interval_duration (codes "1m") ≡ ok (pos 60_000_000_000)
unfolding coverage_interval_duration trimmed_duration trim_space trim_left trim_right keep_right
    is_space init_text last_char atoi unsigned digits_value
a_minute = refl

backfill_window_sound_example :
    Ended december 60_000_000_000
      (backfill_window exchange request december (record { calls = 0; stored = [] }))
backfill_window_sound_example =
    backfill_window_sound exchange request december 60_000_000_000 a_minute 0

split_by_year-partition_example :
    Chain first_open last_open (split_by_year first_open last_open)
    × All IsYearly (split_by_year first_open last_open)
split_by_year-partition_example = split_by_year-partition first_open last_open (omega arith)

fetch_klines-bounded_example :
    let r = fetch_klines exchange (codes "https://api") (codes "BTCUSDT") (codes "1m") 5 9 0 in
    (0 < r.0) × (r.0 ≤ 0 + 6) × (r.1 ≢ err exhausted_retries)
fetch_klines-bounded_example =
    fetch_klines-bounded exchange (codes "https://api") (codes "BTCUSDT") (codes "1m") 5 9 0

abbrev binance : Text
binance = codes "binance"

abbrev spot : Text
spot = codes "spot"

abbrev btcusdt : Text
btcusdt = codes "BTCUSDT"

abbrev one_minute : Text
one_minute = codes "1m"

build_coverage_segments-runs_example :
    (segs : List CoverageSegment) × (build_coverage_segments binance spot btcusdt one_minute candles
      ≡ ok segs)
    × IsIncreasing (covered_all 60_000_000_000 segs)
    × All (IsRun 60_000_000_000) segs
    × All (InYear 60_000_000_000) segs
build_coverage_segments-runs_example =
    build_coverage_segments-runs binance spot btcusdt one_minute candles 60_000_000_000 a_minute

abbrev segment : ℕ → Time → ℕ → CoverageSegment
segment y t n = record {
  exchange = binance;
  market = spot;
  symbol = btcusdt;
  interval = one_minute;
  year_of = y;
  start_at = t;
  end_at = t + n * 60_000_000_000;
  row_count = n;
  source = coverage_segment_source;
}

two_minutes :
    build_coverage_segments binance spot btcusdt one_minute candles
    ≡ ok (segment 2024 first_open 2 ∷ [])
unfolding build_coverage_segments segments_of group_from new_coverage_segment open_times seen_before
    sort_times insert_time unix_nano year year_of_day coverage_interval_duration trimmed_duration
    trim_space trim_left trim_right keep_right is_space init_text last_char atoi unsigned
    digits_value to_lower to_upper lower_char upper_char
two_minutes = refl

build_coverage_segments-covers_example :
    holds (first_open + minute) (covered_all 60_000_000_000 (segment 2024 first_open 2 ∷ []))
    ≡ opens_at (first_open + minute) candles
build_coverage_segments-covers_example =
    build_coverage_segments-covers binance spot btcusdt one_minute candles 60_000_000_000 first_open
      (first_open + minute) a_minute two_minutes (omega arith) in_span
      (in_span, (first, (first, tt)))
  where
    in_span : InSpan first_open (first_open + minute)
    in_span = (omega arith, omega arith)

    first : InSpan first_open first_open
    first = (omega arith, omega arith)

in_2024 : year first_open ≡ 2024
unfolding year year_of_day
in_2024 = refl

IsRun-2024 : IsRun 60_000_000_000 (segment 2024 first_open 1)
IsRun-2024 = record { exact_end = refl; nonempty = omega arith; start_year = sym in_2024 }

IsRun-later : IsRun 60_000_000_000 (segment 2024 (first_open + minute) 1)
unfolding year year_of_day
IsRun-later = record { exact_end = refl; nonempty = omega arith; start_year = refl }

append_coverage_segments-keeps_example :
    let one = segment 2024 first_open 1 ∷ [] in
    let two = segment 2024 (first_open + minute) 1 ∷ [] in
    (covered_all 60_000_000_000 (append_coverage_segments one two)
      ≡ covered_all 60_000_000_000 one ++ covered_all 60_000_000_000 two)
    × All (IsRun 60_000_000_000) (append_coverage_segments one two)
append_coverage_segments-keeps_example =
    append_coverage_segments-keeps 60_000_000_000 (segment 2024 first_open 1 ∷ [])
      (segment 2024 (first_open + minute) 1 ∷ []) (IsRun-2024, tt) (IsRun-later, tt)

-- A server on which the databases are there.
abbrev admin : Admin
admin = record {
  ensure = λ name. none;
  open_database = λ name. none;
  schema = λ name. none;
  close = λ name. none;
}

normal_minute :
    coverage_interval_duration (normalize_kline_request request).interval ≡ ok (pos 60_000_000_000)
unfolding coverage_interval_duration trimmed_duration normalize_kline_request or_default trim_space
    trim_left trim_right keep_right is_space init_text last_char atoi unsigned digits_value
normal_minute = refl

run_kline_request-Ends_example :
    Ends 60_000_000_000 (run_kline_request exchange admin (codes "{exchange}_{year}") request 0)
run_kline_request-Ends_example =
    run_kline_request-Ends exchange admin (codes "{exchange}_{year}") request 60_000_000_000 0
      normal_minute
