-- ===== src/Backfill/Verify.antt =====
-- internal/backfill/klines.go: `VerifyKlineCoverage` and `verifyWindowCoverage`. The databases of the
-- server and the query on a table are parameters.
pub mod Summary
use scraper.Base.{
  ℕ, ◌≡◌, Bool, true, false, not, ◌&&◌, ◌||◌, List, [], ◌∷◌, Option, none, some, ok, err, Result,
  ltb, leb, if◌then◌else◌,
}
use scraper.Base.Int.{ℤ, pos, negsuc}
use scraper.Text.{Text, codes, text_eq}
use scraper.Time.{Time}
use scraper.Backfill.Interval.{
  Error, external, bad_exchange, expected_bar_count, covered_end_from_max_open_time,
}
use scraper.Backfill.Request.{KlineRequest, normalize_kline_request, validate_kline_request}
use scraper.Backfill.Window.{TimeWindow, window_year, split_by_year}
use scraper.Storage.Names.{database_for_year, build_kline_table_name}

-- The number of the rows of a symbol in a window, and their least and greatest open times.
pub data Answer : Type 0 where
  undefined_table : Answer
  query_failed : Text → Answer
  counted : ℕ → Option Time → Option Time → Answer

pub record Server : Type 0 where
  pub exists : Text → Result Text Bool
  -- The error of opening the database or of the ping.
  pub connect : Text → Option Text
  -- The query on a database's table, for a symbol and a window.
  pub count_rows : Text → Text → Text → TimeWindow → Answer

-- The three results of `verifyWindowCoverage` without an error.
pub record WindowCoverage : Type 0 where
  pub ready : Bool
  pub start_at : Option Time
  pub end_at : Option Time

abbrev pub nothing : WindowCoverage
nothing = record { ready = false; start_at = none; end_at = none }

abbrev pub int_leb : ℤ → ℤ → Bool
int_leb (pos a) (pos b) = leb a b
int_leb (pos a) (negsuc b) = false
int_leb (negsuc a) (pos b) = true
int_leb (negsuc a) (negsuc b) = leb b a

abbrev pub is_some : Option Time → Bool
is_some none = false
is_some (some t) = true

abbrev pub end_of : Text → Option Time → Result Error (Option Time)
end_of interval none = ok none
end_of interval (some t) = elim (covered_end_from_max_open_time t interval) [
  | err e ↦ err e
  | ok covered_end ↦ ok (some covered_end)
]

abbrev pub with_end :
    KlineRequest
    → TimeWindow
    → ℕ
    → Option Time
    → Result Error (Option Time)
    → Result Error WindowCoverage
with_end req w count min_open (err e) = err e
with_end req w count min_open (ok covered_end) =
    elim (expected_bar_count w.start w.stop req.interval) [
      | err e ↦ err e
      | ok expected ↦ ok (record {
        ready = int_leb expected (pos count) && (is_some min_open && is_some covered_end);
        start_at = min_open;
        end_at = covered_end;
      })
    ]

abbrev pub on_answer : KlineRequest → TimeWindow → Answer → Result Error WindowCoverage
on_answer req w undefined_table = ok nothing
on_answer req w (query_failed e) = err (external e)
on_answer req w (counted count min_open max_open) =
    with_end req w count min_open (end_of req.interval max_open)

abbrev pub on_connect :
    Server → KlineRequest → TimeWindow → Text → Option Text → Result Error WindowCoverage
on_connect server req w name (some e) = err (external e)
on_connect server req w name none = on_answer req w (
    server.count_rows name (build_kline_table_name req.market req.symbol req.interval) req.symbol w)

abbrev pub on_exists :
    Server → KlineRequest → TimeWindow → Text → Result Text Bool → Result Error WindowCoverage
on_exists server req w name (err e) = err (external e)
on_exists server req w name (ok false) = ok nothing
on_exists server req w name (ok true) = on_connect server req w name (server.connect name)

unfoldable pub verify_window_coverage :
    Server → Text → KlineRequest → TimeWindow → Result Error WindowCoverage
verify_window_coverage server base req w =
    let name = database_for_year base req.exchange (window_year w) in
    on_exists server req w name (server.exists name)

-- The least of the starts, and the greatest of the ends.
abbrev pub earlier : Option Time → Option Time → Option Time
earlier covered none = covered
earlier none (some t) = some t
earlier (some c) (some t) = if ltb t c then some t else some c

abbrev pub later : Option Time → Option Time → Option Time
later covered none = covered
later none (some t) = some t
later (some c) (some t) = if ltb c t then some t else some c

abbrev pub with_window : WindowCoverage → WindowCoverage → WindowCoverage
with_window c segment = record {
  ready = if not segment.ready then false else c.ready;
  start_at = earlier c.start_at segment.start_at;
  end_at = later c.end_at segment.end_at;
}

-- The loop over the windows, with the coverage so far.
unfoldable pub verify_windows :
    (TimeWindow → Result Error WindowCoverage)
    → WindowCoverage
    → List TimeWindow
    → Result Error WindowCoverage
verify_windows verify c [] = ok c
verify_windows verify c (w ∷ ws) = elim (verify w) [
  | err e ↦ err e
  | ok segment ↦ verify_windows verify (with_window c segment) ws
]

unfoldable pub verify_request :
    Server → Text → KlineRequest → Option Error → Result Error WindowCoverage
unfolding verify_window_coverage verify_windows
verify_request server base req (some e) = err e
verify_request server base req none =
    if not (text_eq req.exchange (codes "binance"))
    then err bad_exchange
    else verify_windows (verify_window_coverage server base req)
        (record { ready = true; start_at = none; end_at = none })
        (split_by_year req.start_at req.end_at)

unfoldable pub verify_kline_coverage : Server → Text → KlineRequest → Result Error WindowCoverage
unfolding verify_request
verify_kline_coverage server base req =
    let normal = normalize_kline_request req in
    verify_request server base normal (validate_kline_request normal)
