-- ===== src/Collector/Fetch.antt =====
-- The attempts of a request, which the spot collector's `fetchBatch` and the futures collector's `fetch`
-- make: three, and a pause after a network error or a status 429.
pub mod Keeps
use scraper.Base.{
  ℕ, zero, suc, ◌+◌, Bool, List, [], ◌∷◌, ◌++◌, Option, none, some, ok, err, Result, leb, ◌==◌,
  if◌then◌else◌,
}
use scraper.Text.{Text, codes}
use scraper.Time.{int64_zero, int64_suc}
use scraper.Models.{Kline}
use scraper.Backfill.Row.{Json}
use scraper.Collector.Rows.{parsed_rows, spot_row, parse_row}
use scraper.Collector.Sink.{Collector, KlineQuery, Answer, no_answer, answer, World, C, counted}
use scraper.Storage.Names.{itoa}

abbrev pub max_retries : ℕ
max_retries = 3

-- `fmt.Errorf("failed after %d retries: %w", …)`, where a nil error prints as below.
abbrev pub retries_failed : Option Text → Text
retries_failed none = codes "failed after 3 retries: %!w(<nil>)"
retries_failed (some e) = codes "failed after 3 retries: " ++ e

-- The error of a status that is not 200, from its text and the body.
abbrev pub spot_error : Text → Text → Text
spot_error status body = codes "HTTP " ++ status

abbrev pub futures_error : Text → Text → Text
futures_error status body = codes "HTTP " ++ (status ++ (codes ": " ++ body))

module _ (world : World) (parse : List Json → Option Kline) (http_error : Text → Text → Text) where
  abbrev pub decoded : Result Text (List (List Json)) → C (List Kline)
  decoded (err e) s = (counted s, err (codes "decode: " ++ e))
  decoded (ok rows) s = (counted s, ok (parsed_rows parse rows))

  -- A round, where `again` stands for those that follow.
  abbrev pub on_answer : (Option Text → C (List Kline)) → Option Text → Answer → C (List Kline)
  on_answer again last_err (no_answer e) s = again (some e) (counted s)
  on_answer again last_err (answer status text body rows) s =
      if status == 429
      then again last_err (counted s)
      else if status == 200
      then decoded rows s
      else (counted s, err (http_error text body))

  -- `left` rounds are left, and `last_err` is the last network error.
  unfoldable pub attempts : ℕ → KlineQuery → Option Text → C (List Kline)
  attempts zero q last_err s = (s, err (retries_failed last_err))
  attempts (suc left) q last_err s = on_answer (attempts left q) last_err (world.ask s.calls q) s

module _ (world : World) where
  -- The spot collector's `fetchBatch`.
  unfoldable pub fetch_batch : ℕ → ℕ → C (List Kline)
  unfolding attempts
  fetch_batch start_ms end_ms s =
      attempts world (spot_row world.conversions s.symbol s.exchange s.interval) spot_error
        max_retries
        (record {
          symbol = s.symbol;
          interval = s.interval;
          range = some (start_ms, end_ms);
          limit = 100;
        })
        none s

  abbrev pub fetch_range : Option (ℕ × ℕ) → C (List Kline)
  fetch_range range s =
      attempts world (parse_row world.conversions s.symbol s.exchange s.interval) futures_error
        max_retries
        (record { symbol = s.symbol; interval = s.interval; range = range; limit = 100 }) none s

  -- The end of the range of the request of the futures collector is always now.
  abbrev pub fetch_until : ℕ → ℕ → C (List Kline)
  fetch_until since end_time =
      if leb since int64_zero
      then fetch_range none
      else if leb end_time (int64_suc since)
      then (λ s. (s, ok []))
      else fetch_range (some (int64_suc since, end_time))

  -- The futures collector's `fetch`.
  unfoldable pub fetch : ℕ → C (List Kline)
  unfolding attempts
  fetch since s = fetch_until since (world.now s.calls) (counted s)
