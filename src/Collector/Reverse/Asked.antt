-- ===== src/Collector/Reverse/Asked.antt =====
-- What a reverse run asks the exchange for at a time.
use scraper.Base.{
  ℕ, ◌≡◌, refl, inl, inr, List, [], Option, none, some, ok, Bool-cases, leb, if◌then◌else◌,
}
use scraper.Time.{int64_zero, int64_suc}
use scraper.Models.{Kline}
use scraper.Collector.Rows.{spot_row, parse_row}
use scraper.Collector.Sink.{Collector, KlineQuery, World, C, counted}
use scraper.Collector.Fetch.{fetch, attempts, max_retries, spot_error, futures_error}

-- The request for a page; the range is left out of some.
abbrev pub page_query : Collector → Option (ℕ × ℕ) → KlineQuery
page_query s range = record { symbol = s.symbol; interval = s.interval; range = range; limit = 100 }

-- The page that the attempts of a request give, with the rows of spot K-lines.
abbrev pub spot_page : World → KlineQuery → C (List Kline)
spot_page world q s =
    attempts world (spot_row world.conversions s.symbol s.exchange s.interval) spot_error
      max_retries q none s

-- The same of futures K-lines, and an empty page without a request.
abbrev pub futures_page : World → Option KlineQuery → C (List Kline)
futures_page world none s = (s, ok [])
futures_page world (some q) s =
    attempts world (parse_row world.conversions s.symbol s.exchange s.interval) futures_error
      max_retries q none s

-- What a futures collector asks for at a time: from a millisecond after it to the present, if that is
-- not empty, and without a range before 1970.
abbrev pub futures_query : ℕ → ℕ → Collector → Option KlineQuery
futures_query at now s =
    if leb at int64_zero
    then some (page_query s none)
    else if leb now (int64_suc at)
    then none
    else some (page_query s (some (int64_suc at, now)))

pub fetch-futures_page :
    (world : World) (at : ℕ) (s : Collector)
    → fetch world at s ≡ futures_page world (futures_query at (world.now s.calls) s) (counted s)
unfolding fetch
fetch-futures_page world at s = elim (Bool-cases (leb at int64_zero)) [
  | inl fresh ↦ rw fresh refl
  | inr seeded ↦ elim (Bool-cases (leb (world.now s.calls) (int64_suc at))) [
    | inl past ↦ rw (seeded, past) refl
    | inr later ↦ rw (seeded, later) refl
  ]
]
