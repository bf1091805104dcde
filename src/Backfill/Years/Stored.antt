-- ===== src/Backfill/Years/Stored.antt =====
-- What a request stores and reports.
use scraper.Base.{
  ℕ, ◌≡◌, refl, true, not, List, [], ◌∷◌, ◌++◌, Option, none, some, ok, err, Result, All,
  Bool-cases, inl, inr,
}
use scraper.Base.Int.{pos}
use scraper.Text.{Text, codes, text_eq}
use scraper.Time.{Time}
use scraper.Models.{Kline}
use scraper.Backfill.Interval.{Error, coverage_interval_duration}
use scraper.Backfill.Request.{KlineRequest, normalize_kline_request, validate_kline_request}
use scraper.Backfill.Window.{TimeWindow, window_year, split_by_year, in_window}
use scraper.Backfill.Segment.{CoverageSegment, append_coverage_segments}
use scraper.Backfill.Segment.Runs.{covered_all, IsRun}
use scraper.Backfill.Segment.Merge.{append_coverage_segments-keeps}
use scraper.Backfill.Fetch.{Env}
use scraper.Backfill.Run.{Progress, backfill_window}
use scraper.Backfill.Run.Sound.{batch_times}
use scraper.Backfill.Run.Total.{Ended, backfill_window_sound}
use scraper.Storage.Names.{database_for_year}
use scraper.Backfill.Years.{
  Admin, Session, Outcome, closed_with, after_window, after_schema, after_open_database,
  after_ensure, run_window, run_windows, run_request, run_kline_request,
}

-- The open times of all stored batches; the newest window stands first.
abbrev pub stored_times : List (TimeWindow × List (List Kline)) → List Time
stored_times [] = []
stored_times ((w, batches) ∷ earlier) = stored_times earlier ++ batch_times batches

-- Every stored row opens in its window.
abbrev pub AllIn : List (TimeWindow × List (List Kline)) → Type 0
AllIn stored = All (λ e. All (λ batch. All (λ k. in_window e.0 k ≡ true) batch) e.1) stored

abbrev pub CoversStored : ℕ → Session → List CoverageSegment → Type 0
CoversStored step s segments =
    (covered_all step segments ≡ stored_times s.stored) × All (IsRun step) segments × AllIn s.stored

-- The request has ended; a success reports what was stored.
abbrev pub Ends : ℕ → Option Outcome → Type 0
Ends step none = ⊥
Ends step (some (s, err e)) = AllIn s.stored
Ends step (some (s, ok segments)) = CoversStored step s segments

module _ (env : Env) (admin : Admin) (base : Text) (req : KlineRequest) (step : ℕ)
    (interval_ok : coverage_interval_duration req.interval ≡ ok (pos step)) where
  after_window-Ends :
      (w : TimeWindow) (name : Text) (segments : List CoverageSegment) (s : Session)
      (o : Option (Progress × Result Error (List CoverageSegment)))
      → CoversStored step s segments
      → Ended w step o
      → Ends step (after_window env admin base req w name segments s o)
  after_window-Ends w name segments s none h d = d
  after_window-Ends w name segments s (some (p, err e)) h d = (d, h.2)
  after_window-Ends w name segments s (some (p, ok more)) h d = go (admin.close name)
    where
      s' : Session
      s' = record { calls = p.calls; stored = (w, p.stored) ∷ s.stored }

      merged :
          (covered_all step (append_coverage_segments segments more)
            ≡ covered_all step segments ++ covered_all step more)
          × All (IsRun step) (append_coverage_segments segments more)
      merged = append_coverage_segments-keeps step segments more h.1 d.1

      times : covered_all step (append_coverage_segments segments more) ≡ stored_times s'.stored
      times = rw (merged.0, h.0, d.0) refl

      go :
          (o : Option Text)
          → Ends step (some (s', closed_with name o (append_coverage_segments segments more)))
      go (some e) = (d.2, h.2)
      go none = (times, merged.1, (d.2, h.2))

  run_window-Ends :
      (w : TimeWindow) (segments : List CoverageSegment) (s : Session)
      → CoversStored step s segments
      → Ends step (run_window env admin base req w segments s)
  unfolding run_window
  run_window-Ends w segments s h = ensured (admin.ensure name)
    where
      name : Text
      name = database_for_year base req.exchange (window_year w)

      prepared : (o : Option Text) → Ends step (after_schema env admin base req w name segments s o)
      prepared (some e) = h.2
      prepared none =
          after_window-Ends w name segments s
            (backfill_window env req w (record { calls = s.calls; stored = [] })) h
            (backfill_window_sound env req w step interval_ok s.calls)

      opened :
          (o : Option Text) → Ends step (after_open_database env admin base req w name segments s o)
      opened (some e) = h.2
      opened none = prepared (admin.schema name)

      ensured : (o : Option Text) → Ends step (after_ensure env admin base req w name segments s o)
      ensured (some e) = h.2
      ensured none = opened (admin.open_database name)

  run_windows-Ends :
      (ws : List TimeWindow) (segments : List CoverageSegment) (s : Session)
      → CoversStored step s segments
      → Ends step (run_windows env admin base req ws segments s)
  unfolding run_windows
  run_windows-Ends [] segments s h = h
  run_windows-Ends (w ∷ ws) segments s h =
      go (run_window env admin base req w segments s) (run_window-Ends w segments s h)
        (λ segments' s' h'. run_windows-Ends ws segments' s' h')
    where
      go :
          (o : Option Outcome)
          → Ends step o
          → ((segments' : List CoverageSegment) (s' : Session)
              → CoversStored step s' segments'
              → Ends step (run_windows env admin base req ws segments' s'))
          → Ends step (elim o as (λ _. Option Outcome) [
            | none ↦ none
            | some (s', err e) ↦ some (s', err e)
            | some (s', ok segments') ↦ run_windows env admin base req ws segments' s'
          ])
      go none d k = d
      go (some (s', err e)) d k = d
      go (some (s', ok segments')) d k = k segments' s' d

  run_request-Ends :
      (o : Option Error) (calls : ℕ) → Ends step (run_request env admin base req o calls)
  unfolding run_request
  run_request-Ends (some e) calls = tt
  run_request-Ends none calls = elim (Bool-cases (not (text_eq req.exchange (codes "binance")))) [
    | inl foreign ↦ rw (run_request, foreign) tt
    | inr binance ↦
        rw (run_request, binance)
          (run_windows-Ends (split_by_year req.start_at req.end_at) []
            (record { calls = calls; stored = [] }) (unfold covered_all in (refl, tt, tt)))
  ]

-- A request whose normalised interval has a coverage duration ends, whatever the exchange, the
-- server, the store and the context answer. Each row that a store took opens in the window of its
-- year; and if the request succeeds, the segments that it reports, over all years, are runs whose
-- instants, in order, are the open times of the stored batches.
pub run_kline_request-Ends :
    (env : Env) (admin : Admin) (base : Text) (req : KlineRequest) (step calls : ℕ)
    → coverage_interval_duration (normalize_kline_request req).interval ≡ ok (pos step)
    → Ends step (run_kline_request env admin base req calls)
unfolding run_kline_request
run_kline_request-Ends env admin base req step calls interval_ok =
    run_request-Ends env admin base (normalize_kline_request req) step interval_ok
      (validate_kline_request (normalize_kline_request req)) calls
