-- ===== src/Collector/Spot.antt =====
-- internal/scraper/spotkline/kline.go: the collector of spot K-lines.
pub mod Cursor
pub mod Messages
pub mod Sessions
use scraper.Base.{
  ℕ, zero, suc, ◌+◌, Bool, true, false, not, ◌&&◌, ◌||◌, List, [], ◌∷◌, Option, none, some, ok, err,
  Result, ltb, leb, ◌==◌, if◌then◌else◌, length,
}
use scraper.Base.State.{Action, pure, raise, ◌>>=◌}
use scraper.Text.{Text, codes, is_empty}
use scraper.Time.{int64_zero, int64_suc}
use scraper.Models.{Kline}
use scraper.Collector.Rows.{Message, parse_msg}
use scraper.Collector.Sink.{
  Collector, World, C, counted, last_kline, last_close_ms, store_klines,
  store_klines_without_publish, filter_closed_klines,
}
use scraper.Collector.Fetch.{fetch_batch}

-- `s.forwardResumeTimeMs = klines[len(klines)-1].CloseTime.UnixMilli() + 1`
abbrev pub resume_after : Kline → List Kline → Collector → Collector
resume_after k ks s = record s { cursor = int64_suc (last_close_ms k ks) }

module _ (world : World) where
  -- `storeForwardKlines`: the time to resume from is set whether the store fails or not.
  unfoldable pub store_forward_klines : List Kline → C (Unit {0})
  unfolding store_klines last_close_ms
  store_forward_klines [] s = (s, ok tt)
  store_forward_klines (k ∷ ks) s =
      let (s', r) = store_klines world (k ∷ ks) s in (resume_after k ks s', r)

  unfoldable pub store_catch_up_klines : List Kline → C (Unit {0})
  unfolding store_klines_without_publish last_close_ms
  store_catch_up_klines [] = pure tt
  store_catch_up_klines (k ∷ ks) = do
    _ ← store_klines_without_publish world (k ∷ ks)
    λ s. (resume_after k ks s, ok tt)

  unfoldable pub handle_forward_kline : Kline → Bool → C (Unit {0})
  unfolding store_forward_klines
  handle_forward_kline kline is_closed =
      if not is_closed then pure tt else store_forward_klines (kline ∷ [])

  -- A round of `catchUpForward` from a time before now: whether it goes on, and from which time.
  abbrev pub go_on : ℕ → List Kline → List Kline → C (Option ℕ)
  go_on current klines closed s =
      if leb s.cursor current || ltb (length closed) (length klines)
      then (s, ok none)
      else (s, ok (some s.cursor))

  abbrev pub store_closed : ℕ → List Kline → List Kline → C (Option ℕ)
  store_closed current klines [] = pure none
  store_closed current klines (k ∷ ks) = do
    _ ← store_catch_up_klines (k ∷ ks)
    go_on current klines (k ∷ ks)

  abbrev pub use_batch : ℕ → ℕ → List Kline → C (Option ℕ)
  use_batch current now_ms klines = store_closed current klines (filter_closed_klines klines now_ms)

  unfoldable pub catch_up_round : ℕ → ℕ → C (Option ℕ)
  unfolding store_catch_up_klines fetch_batch filter_closed_klines
  catch_up_round current now_ms = do
    klines ← fetch_batch world current now_ms
    use_batch current now_ms klines

  -- The loop; `none` means that the fuel ran out.
  unfoldable pub catch_up_loop : ℕ → ℕ → Collector → Option (Collector × Result Text (Unit {0}))
  unfolding catch_up_round
  catch_up_loop zero current s = none
  catch_up_loop (suc fuel) current s = elim (leb (world.now s.calls) current) [
    | true ↦ some (counted s, ok tt)
    | false ↦
        let (s', r) = catch_up_round current (world.now s.calls) (counted s) in
        elim r [
          | err e ↦ some (s', err e)
          | ok none ↦ some (s', ok tt)
          | ok (some next) ↦ catch_up_loop fuel next s'
        ]
  ]

  unfoldable pub catch_up_forward : ℕ → Collector → Option (Collector × Result Text (Unit {0}))
  unfolding catch_up_loop
  catch_up_forward fuel s =
      if leb s.cursor int64_zero then some (s, ok tt) else catch_up_loop fuel s.cursor s

  -- The messages of a connection, up to the one whose K-line cannot be stored or published; a connection
  -- ends with an error of the read otherwise.
  abbrev pub on_message : Option (Kline × Bool) → C (Unit {0})
  on_message none = pure tt
  on_message (some (kline, is_closed)) = handle_forward_kline kline is_closed

  unfoldable pub read_messages : List Message → C (Unit {0})
  unfolding handle_forward_kline parse_msg
  read_messages [] s = (s, ok tt)
  read_messages (m ∷ ms) s =
      (do
        _ ← on_message (parse_msg world.conversions s.symbol s.exchange s.interval m)
        read_messages ms)
        s

  -- `dialAndRead`: the connection is refused, or gives messages and then an error of the read.
  abbrev pub dial_and_read : Option (List Message) → Collector → Collector
  dial_and_read none s = s
  dial_and_read (some ms) s = (read_messages ms s).0

  -- A round of `forward`: an error of the catch-up skips the connection.
  abbrev pub after_catch_up :
      Option (List Message) → Option (Collector × Result Text (Unit {0})) → Option Collector
  after_catch_up session none = none
  after_catch_up session (some (s, err e)) = some s
  after_catch_up session (some (s, ok a)) = some (dial_and_read session s)

  -- `forward` until it is stopped, for the connections of its rounds; `none` means that the fuel of a
  -- catch-up ran out.
  unfoldable pub forward : ℕ → List (Option (List Message)) → Collector → Option Collector
  unfolding catch_up_forward read_messages
  forward fuel [] s = some s
  forward fuel (session ∷ sessions) s = elim (after_catch_up session (catch_up_forward fuel s)) [
    | none ↦ none
    | some s' ↦ forward fuel sessions s'
  ]

-- `NewScraperWithIntervalAndPublisher`; `direction` is empty.
abbrev pub new_scraper : Text → Text → Text → Bool → Collector
new_scraper symbol exchange interval has_publisher = record {
  symbol = symbol;
  exchange = exchange;
  interval = if is_empty interval then codes "1m" else interval;
  is_reverse = false;
  has_publisher = has_publisher;
  has_observer = false;
  cursor = int64_zero;
  calls = 0;
  trace = [];
}
