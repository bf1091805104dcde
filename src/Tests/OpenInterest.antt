-- ===== src/Tests/OpenInterest.antt =====
-- A poll, a message and a backfill of BTCUSDT.
use scraper.Base.{◌+◌, [], ◌∷◌, none, some}
use scraper.Text.{codes}
use scraper.Time.{Time, unix_milli}
use scraper.Collector.OpenInterest.{
  OpenInterestScraper, OpenInterestPayload, OpenInterestWorld, reply, new_open_interest_scraper,
  start_of, end_of, backfill_symbol, polled, received, backfilled, perform_all,
}
use scraper.Collector.OpenInterest.Once.{Once, perform_all-Once}
use scraper.Collector.OpenInterest.Within.{AddsWithin, backfill_symbol-AddsWithin}

abbrev start : Time
start = 63_871_286_400_000_000_000

abbrev payload : OpenInterestPayload
payload = record { symbol = codes "btcusdt"; value = codes "1"; time = unix_milli start }

-- The store refuses the first row.
abbrev world : OpenInterestWorld
world = record {
  parse_float = λ text. some 1;
  now = λ n. start;
  month_before = λ t. 0;
  get = λ n symbol. reply 200 (some payload);
  get_history = λ n symbol end_ms. reply 200 (some (payload ∷ payload ∷ []));
  insert = λ n item. some (codes "down");
}

abbrev collector : OpenInterestScraper
collector = new_open_interest_scraper (codes "binance") start (start + 1_000_000_000)

perform_all-Once_example : Once (
    perform_all world
      (polled (codes "btcusdt" ∷ [])
        ∷ received (some payload ∷ none ∷ [])
        ∷ backfilled 2 (codes "btcusdt")
        ∷ [])
      collector)
perform_all-Once_example =
    perform_all-Once world
      (polled (codes "btcusdt" ∷ [])
        ∷ received (some payload ∷ none ∷ [])
        ∷ backfilled 2 (codes "btcusdt")
        ∷ [])
      collector (tt, tt)

backfill_symbol-AddsWithin_example :
    AddsWithin
      (start_of world collector)
      (end_of world collector)
      []
      (backfill_symbol world 2 (codes "btcusdt") collector).offered
backfill_symbol-AddsWithin_example = backfill_symbol-AddsWithin world 2 (codes "btcusdt") collector
