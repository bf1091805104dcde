-- ===== src/Backfill/Run.antt =====
-- internal/backfill/klines.go: `backfillWindow`. The state is the number of the next call and the
-- batches that the store took, oldest first.
pub mod Post
pub mod Sound
pub mod Total
use scraper.Base.{
  ℕ, zero, suc, ◌+◌, ◌-◌, Bool, true, false, List, [], ◌∷◌, ◌++◌, Option, none, some, ok, err,
  Result, ltb, leb, if◌then◌else◌,
}
use scraper.Text.{Text, codes, text_eq}
use scraper.Time.{Time, millisecond, unix_milli, int64_suc}
use scraper.Models.{Kline}
use scraper.Backfill.Interval.{
  Error, external, fetch_failed, parse_failed, insert_failed, segments_failed, close_time_failed,
  stuck,
}
use scraper.Backfill.Request.{KlineRequest}
use scraper.Backfill.Window.{TimeWindow, filter_klines_for_window}
use scraper.Backfill.Segment.{CoverageSegment, build_coverage_segments, append_coverage_segments}
use scraper.Backfill.Row.{Json, rows_to_klines, last_close}
use scraper.Backfill.Fetch.{Env, fetch_klines}

pub record Progress : Type 0 where
  pub calls : ℕ
  pub stored : List (List Kline)

-- A step that reads the state, and returns a new state and a value or an error.
abbrev pub M : Type 0 → Type 0
M A = Progress → Progress × Result Error A

infixl 5 ◌>>=◌
abbrev pub ◌>>=◌ : {A B : Type 0} → M A → (A → M B) → M B
◌>>=◌ m f s = let (s', r) = m s in elim r [ ok a ↦ f a s' | err e ↦ (s', err e) ]

abbrev pub return : {A : Type 0} → A → M A
return a s = (s, ok a)

abbrev pub fail : {A : Type 0} → Error → M A
fail e s = (s, err e)

-- `fmt.Errorf("…: %w", err)`
abbrev pub wrapped : {A : Type 0} → (Error → Error) → Result Error A → M A
wrapped context (ok a) s = (s, ok a)
wrapped context (err e) s = (s, err (context e))

-- A round of the loop ends it, or goes on from a later time.
pub data Round : Type 0 where
  done : List CoverageSegment → Round
  next : ℕ → List CoverageSegment → Round

abbrev pub spot_klines_url : Text
spot_klines_url = codes "https://api.binance.com/api/v3/klines"

abbrev pub futures_klines_url : Text
futures_klines_url = codes "https://fapi.binance.com/fapi/v1/klines"

unfoldable pub base_url : Text → Text
base_url market = if text_eq market (codes "futures") then futures_klines_url else spot_klines_url

module _ (env : Env) (req : KlineRequest) (window : TimeWindow) where
  abbrev request_rows : ℕ → ℕ → ℕ → ℕ × Result Error (List (List Json))
  request_rows cur end_inclusive =
      fetch_klines env (base_url req.market) req.symbol req.interval cur end_inclusive

  abbrev fetched : ℕ → ℕ → M (List (List Json))
  fetched cur end_inclusive s =
      let (calls, r) = request_rows cur end_inclusive s.calls in
      wrapped fetch_failed r (record s { calls = calls })

  -- store.InsertKline
  abbrev inserted : List Kline → Option Text → M (Unit {0})
  inserted klines (some e) s = (record s { calls = s.calls + 1 }, err (insert_failed (external e)))
  inserted klines none s =
      (record { calls = s.calls + 1; stored = s.stored ++ (klines ∷ []) }, ok tt)

  abbrev insert : List Kline → M (Unit {0})
  insert klines s = inserted klines (env.insert s.calls klines) s

  -- The body of `if len(klines) > 0`.
  unfoldable pub store_batch : List Kline → List CoverageSegment → M (List CoverageSegment)
  store_batch [] segments = return segments
  store_batch (k ∷ ks) segments = do
    _ ← insert (k ∷ ks)
    batch ←
        wrapped segments_failed
          (build_coverage_segments req.exchange req.market req.symbol req.interval (k ∷ ks))
    return (append_coverage_segments segments batch)

  -- The `select` after a round.
  abbrev pause : M (Unit {0})
  pause s =
      if env.cancelled s.calls 200
      then (record s { calls = s.calls + 1 }, err (external (codes "context canceled")))
      else (record s { calls = s.calls + 1 }, ok tt)

  abbrev advance : ℕ → ℕ → List CoverageSegment → M Round
  advance cur last segments =
      if leb (int64_suc last) cur
      then fail (stuck last)
      else (do _ ← pause; return (next (int64_suc last) segments))

  -- What follows the store of a batch.
  abbrev use_last : ℕ → List Json → List (List Json) → List CoverageSegment → M Round
  use_last cur row rows segments = do
    last ← wrapped close_time_failed (last_close env.floats row rows)
    advance cur last segments

  abbrev use_klines : ℕ → List CoverageSegment → List Json → List (List Json) → List Kline → M Round
  use_klines cur segments row rows klines = do
    segments' ← store_batch (filter_klines_for_window klines window) segments
    use_last cur row rows segments'

  unfoldable pub use_rows : ℕ → List CoverageSegment → List (List Json) → M Round
  unfolding store_batch
  use_rows cur segments [] = return (done segments)
  use_rows cur segments (row ∷ rows) = do
    klines ←
        wrapped parse_failed
          (rows_to_klines env.floats (row ∷ rows) req.symbol req.market req.interval)
    use_klines cur segments row rows klines

  -- A round of the loop, at a time before the end of the window.
  unfoldable pub backfill_round : ℕ → List CoverageSegment → M Round
  unfolding use_rows
  backfill_round cur segments =
      let end_inclusive = unix_milli (window.stop - millisecond) in
      if ltb end_inclusive cur
      then return (done segments)
      else (do rows ← fetched cur end_inclusive; use_rows cur segments rows)

  -- The loop; `none` means that the fuel ran out.
  unfoldable pub backfill_loop :
      ℕ
      → ℕ
      → List CoverageSegment
      → Progress
      → Option (Progress × Result Error (List CoverageSegment))
  backfill_loop zero cur segments s = none
  backfill_loop (suc fuel) cur segments s = elim (ltb cur (unix_milli window.stop)) [
    | false ↦ some (s, ok segments)
    | true ↦
        let (s', r) = backfill_round cur segments s in
        elim r [
          | err e ↦ some (s', err e)
          | ok (done segments') ↦ some (s', ok segments')
          | ok (next cur' segments') ↦ backfill_loop fuel cur' segments' s'
        ]
  ]

  -- Each round moves on by a millisecond or more, so the length of the window is enough fuel.
  unfoldable pub backfill_window :
      Progress → Option (Progress × Result Error (List CoverageSegment))
  unfolding backfill_loop
  backfill_window =
      backfill_loop (unix_milli window.stop - unix_milli window.start + 1) (unix_milli window.start)
        []
