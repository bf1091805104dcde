-- ===== src/Backfill/Years.antt =====
-- internal/backfill/klines.go: `RunKlineRequest`, year by year. What the server answers when a year's
-- database is ensured, opened, given its schema or closed is a parameter.
pub mod Stored
use scraper.Base.{
  ℕ, zero, suc, ◌+◌, ◌≡◌, refl, Bool, true, false, not, List, [], ◌∷◌, ◌++◌, Option, none, some, ok,
  err, Result, if◌then◌else◌,
}
use scraper.Text.{Text, codes, text_eq}
use scraper.Models.{Kline}
use scraper.Backfill.Interval.{
  Error, external, bad_exchange, ensure_failed, open_failed, schema_failed, close_failed,
}
use scraper.Backfill.Request.{KlineRequest, normalize_kline_request, validate_kline_request}
use scraper.Backfill.Window.{TimeWindow, window_year, split_by_year}
use scraper.Backfill.Segment.{CoverageSegment, append_coverage_segments}
use scraper.Backfill.Fetch.{Env}
use scraper.Backfill.Run.{Progress, backfill_window}
use scraper.Storage.Names.{database_for_year}

-- The error of a step on the database of a name, if there is one.
pub record Admin : Type 0 where
  pub ensure : Text → Option Text
  pub open_database : Text → Option Text
  pub schema : Text → Option Text
  pub close : Text → Option Text

-- The number of the next call, and what was stored for each window so far, newest first.
pub record Session : Type 0 where
  pub calls : ℕ
  pub stored : List (TimeWindow × List (List Kline))

abbrev pub Outcome : Type 0
Outcome = Session × Result Error (List CoverageSegment)

abbrev pub closed_with :
    Text → Option Text → List CoverageSegment → Result Error (List CoverageSegment)
closed_with name (some e) segments = err (close_failed name (external e))
closed_with name none segments = ok segments

module _ (env : Env) (admin : Admin) (base : Text) (req : KlineRequest) where
  -- After `backfillWindow`; `none` means that its fuel ran out.
  abbrev pub after_window :
      TimeWindow
      → Text
      → List CoverageSegment
      → Session
      → Option (Progress × Result Error (List CoverageSegment))
      → Option Outcome
  after_window w name segments s none = none
  after_window w name segments s (some (p, err e)) =
      some (record { calls = p.calls; stored = (w, p.stored) ∷ s.stored }, err e)
  after_window w name segments s (some (p, ok window_segments)) = some (
    record { calls = p.calls; stored = (w, p.stored) ∷ s.stored },
    closed_with name (admin.close name) (append_coverage_segments segments window_segments),
  )

  abbrev pub after_schema :
      TimeWindow → Text → List CoverageSegment → Session → Option Text → Option Outcome
  after_schema w name segments s (some e) = some (s, err (schema_failed name (external e)))
  after_schema w name segments s none =
      after_window w name segments s
        (backfill_window env req w (record { calls = s.calls; stored = [] }))

  abbrev pub after_open_database :
      TimeWindow → Text → List CoverageSegment → Session → Option Text → Option Outcome
  after_open_database w name segments s (some e) = some (s, err (open_failed name (external e)))
  after_open_database w name segments s none = after_schema w name segments s (admin.schema name)

  abbrev pub after_ensure :
      TimeWindow → Text → List CoverageSegment → Session → Option Text → Option Outcome
  after_ensure w name segments s (some e) = some (s, err (ensure_failed name (external e)))
  after_ensure w name segments s none =
      after_open_database w name segments s (admin.open_database name)

  -- The body of the loop.
  unfoldable pub run_window : TimeWindow → List CoverageSegment → Session → Option Outcome
  run_window w segments s =
      let name = database_for_year base req.exchange (window_year w) in
      after_ensure w name segments s (admin.ensure name)

  unfoldable pub run_windows : List TimeWindow → List CoverageSegment → Session → Option Outcome
  unfolding run_window
  run_windows [] segments s = some (s, ok segments)
  run_windows (w ∷ ws) segments s = elim (run_window w segments s) [
    | none ↦ none
    | some (s', err e) ↦ some (s', err e)
    | some (s', ok segments') ↦ run_windows ws segments' s'
  ]

unfoldable pub run_request : Env → Admin → Text → KlineRequest → Option Error → ℕ → Option Outcome
unfolding run_windows
run_request env admin base req (some e) calls = some (record { calls = calls; stored = [] }, err e)
run_request env admin base req none calls =
    if not (text_eq req.exchange (codes "binance"))
    then some (record { calls = calls; stored = [] }, err bad_exchange)
    else run_windows env admin base req (split_by_year req.start_at req.end_at) []
        (record { calls = calls; stored = [] })

unfoldable pub run_kline_request : Env → Admin → Text → KlineRequest → ℕ → Option Outcome
unfolding run_request
run_kline_request env admin base req calls =
    let normal = normalize_kline_request req in
    run_request env admin base normal (validate_kline_request normal) calls
