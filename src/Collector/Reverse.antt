-- ===== src/Collector/Reverse.antt =====
-- The reverse runs of both collectors: from a start, page by page, to an end. What differs is how a page
-- is asked for and stored. A run is cancelled between two rounds at most, so its rounds are numbered.
pub mod Asked
pub mod Pages
use scraper.Base.{
  ℕ, zero, suc, Bool, true, false, List, [], ◌∷◌, Option, none, some, ok, err, Result, ltb, ◌==◌,
  ◌+◌, if◌then◌else◌,
}
use scraper.Text.{Text}
use scraper.Time.{Time, unix_milli, int64_zero, int64_suc}
use scraper.Models.{Kline}
use scraper.Collector.Sink.{
  Collector, World, C, counted, last_close_ms, store_klines, store_klines_with_publish,
}
use scraper.Collector.Fetch.{fetch_batch, fetch}

module _ (fetch_page : ℕ → C (List Kline)) (store_page : List Kline → C (Unit {0})) where
  -- The end of a round: the run is over, or goes on from a time. After an error that is the same time.
  abbrev pub after_store :
      ℕ → Kline → List Kline → Collector × Result Text (Unit {0}) → Collector × Option ℕ
  after_store current k ks (s, err e) = (s, some current)
  after_store current k ks (s, ok a) = (s, some (int64_suc (last_close_ms k ks)))

  abbrev pub after_fetch : ℕ → Collector × Result Text (List Kline) → Collector × Option ℕ
  after_fetch current (s, err e) = (s, some current)
  after_fetch current (s, ok []) = (s, none)
  after_fetch current (s, ok (k ∷ ks)) = after_store current k ks (store_page (k ∷ ks) s)

  unfoldable pub reverse_round : ℕ → Collector → Collector × Option ℕ
  unfolding last_close_ms
  reverse_round current s = after_fetch current (fetch_page current s)

  -- So many rounds at most, or until the end: the state and the time reached.
  unfoldable pub reverse_rounds : ℕ → ℕ → ℕ → Collector → Collector × ℕ
  unfolding reverse_round
  reverse_rounds zero current end_ms s = (s, current)
  reverse_rounds (suc n) current end_ms s = elim (ltb current end_ms) [
    | false ↦ (s, current)
    | true ↦
        let (s', r) = reverse_round current s in
        elim r [ none ↦ (s', current) | some next ↦ reverse_rounds n next end_ms s' ]
  ]

-- `if endMs == 0 { endMs = time.Now().UnixMilli() }`
unfoldable pub reverse_end : World → Time → Collector → ℕ × Collector
reverse_end world end_time s =
    if unix_milli end_time == int64_zero
    then (world.now s.calls, counted s)
    else (unix_milli end_time, s)

-- The spot collector's `reverse`, for so many rounds.
unfoldable pub spot_reverse : World → Time → Time → ℕ → Collector → Collector × ℕ
unfolding reverse_rounds reverse_end fetch_batch store_klines
spot_reverse world start_time end_time n s =
    let (end_ms, s') = reverse_end world end_time s in
    reverse_rounds (λ current. fetch_batch world current end_ms) (store_klines world) n
      (unix_milli start_time) end_ms s'

-- The futures collector's `reverse`, which asks for K-lines up to now, and from the time after the
-- one given.
unfoldable pub futures_reverse : World → Time → Time → ℕ → Collector → Collector × ℕ
unfolding reverse_rounds reverse_end fetch store_klines_with_publish
futures_reverse world start_time end_time n s =
    let (end_ms, s') = reverse_end world end_time s in
    reverse_rounds (fetch world) (λ ks. store_klines_with_publish world ks ks) n
      (unix_milli start_time) end_ms s'
