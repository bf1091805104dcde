-- ===== src/Collector/Futures.antt =====
-- internal/scraper/futureskline/kline.go: the collector of futures K-lines. `cursor` is the variable
-- `lastCloseTime` of its loop.
pub mod Follows
use scraper.Base.{
  ℕ, zero, suc, ◌+◌, ◌-◌, Bool, true, false, not, ◌&&◌, ◌||◌, List, [], ◌∷◌, Option, none, some, ok,
  err, Result, ltb, leb, ◌==◌, if◌then◌else◌,
}
use scraper.Text.{Text}
use scraper.Time.{int64_zero, unix_milli}
use scraper.Models.{Kline}
use scraper.Collector.Sink.{
  Collector, World, counted, last_close_ms, store_klines_with_publish, filter_closed_klines,
}
use scraper.Collector.Fetch.{fetch}

-- maxForwardPublishKlineAge.Milliseconds()
abbrev pub max_forward_publish_kline_age : ℕ
max_forward_publish_kline_age = 60_000

-- `selectForwardPublishKlines`
unfoldable pub select_forward_publish_klines : List Kline → Bool → ℕ → List Kline
select_forward_publish_klines [] seeded now_ms = []
select_forward_publish_klines (k ∷ k' ∷ ks) seeded now_ms = []
select_forward_publish_klines (k ∷ []) seeded now_ms =
    if not seeded || ltb (unix_milli k.close_time + max_forward_publish_kline_age) now_ms
    then []
    else k ∷ []

module _ (world : World) where
  -- What a tick does with the result of the store: an error leaves the cursor.
  abbrev pub moved : Kline → List Kline → Collector × Result Text (Unit {0}) → Collector
  moved k ks (s, err e) = s
  moved k ks (s, ok a) = record s { cursor = last_close_ms k ks }

  abbrev pub store_closed : Bool → ℕ → List Kline → Collector → Collector
  store_closed seeded now_ms [] s = s
  store_closed seeded now_ms (k ∷ ks) s = moved k ks (
      store_klines_with_publish world (k ∷ ks)
        (select_forward_publish_klines (k ∷ ks) seeded now_ms) s)

  abbrev pub use_klines : Bool → Collector × Result Text (List Kline) → Collector
  use_klines seeded (s, err e) = s
  use_klines seeded (s, ok klines) =
      store_closed seeded (world.now s.calls) (filter_closed_klines klines (world.now s.calls))
        (counted s)

  -- A tick of `forward`.
  unfoldable pub forward_tick : Collector → Collector
  unfolding fetch filter_closed_klines store_klines_with_publish select_forward_publish_klines
      last_close_ms
  forward_tick s = use_klines (ltb int64_zero s.cursor) (fetch world s.cursor s)

  unfoldable pub forward_ticks : ℕ → Collector → Collector
  unfolding forward_tick
  forward_ticks zero s = s
  forward_ticks (suc n) s = forward_ticks n (forward_tick s)
