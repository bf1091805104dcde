-- ===== src/Backfill/Run/Sound.antt =====
-- What `backfillWindow` reports is what it stored.
use scraper.Base.{
  ℕ, ◌+◌, ◌-◌, ◌≡◌, refl, inl, inr, true, List, [], ◌∷◌, ◌++◌, arith, All, All-append, Bool-cases,
  Option-cases, append-nil, append_assoc, ok, err, Result, ltb, leb,
}
use scraper.Base.Int.{pos}
use scraper.Time.{Time, unix_milli, millisecond, int64_suc}
use scraper.Models.{Kline}
use scraper.Backfill.Interval.{
  Error, coverage_interval_duration, insert_failed, external, parse_failed, close_time_failed,
  fetch_failed,
}
use scraper.Backfill.Request.{KlineRequest}
use scraper.Backfill.Window.{TimeWindow, in_window, filter_klines_for_window}
use scraper.Backfill.Segment.{CoverageSegment, open_times, sort_times, append_coverage_segments}
use scraper.Backfill.Segment.Runs.{covered_all, IsRun}
use scraper.Backfill.Segment.Exact.{build_coverage_segments-times}
use scraper.Backfill.Segment.Merge.{append_coverage_segments-keeps}
use scraper.Backfill.Row.{Json, rows_to_klines, last_close}
use scraper.Backfill.Fetch.{Env}
use scraper.Backfill.Run.Post.{Ensures, bind_Ensures}
use scraper.Backfill.Run.{
  Progress, return, wrapped, Round, done, next, store_batch, pause, advance, use_rows, request_rows,
  use_last, use_klines, fetched, backfill_round,
}

-- The open times of the stored batches, each sorted and without repetitions.
abbrev pub batch_times : List (List Kline) → List Time
batch_times [] = []
batch_times (b ∷ bs) = sort_times (open_times [] b) ++ batch_times bs

batch_times-append :
    (xs ys : List (List Kline)) → batch_times (xs ++ ys) ≡ batch_times xs ++ batch_times ys
batch_times-append [] ys = refl
batch_times-append (x ∷ xs) ys = simp (batch_times-append xs ys, append_assoc)

filter-in_window :
    (w : TimeWindow) (ks : List Kline)
    → All (λ k. in_window w k ≡ true) (filter_klines_for_window ks w)
unfolding filter_klines_for_window
filter-in_window w [] = tt
filter-in_window w (k ∷ ks) = elim (Bool-cases (in_window w k)) [
  | inl keep ↦ rw keep (keep, filter-in_window w ks)
  | inr drop ↦ rw drop (filter-in_window w ks)
]

-- Every stored row opens in the window.
abbrev pub StoredIn : TimeWindow → Progress → Type 0
StoredIn w s = All (λ batch. All (λ k. in_window w k ≡ true) batch) s.stored

-- And the segments are runs that cover the stored batches, in order.
abbrev pub Reported : TimeWindow → ℕ → Progress → List CoverageSegment → Type 0
Reported w step s segments =
    (covered_all step segments ≡ batch_times s.stored) × All (IsRun step) segments × StoredIn w s

abbrev pub RoundReported : TimeWindow → ℕ → Progress → Round → Type 0
RoundReported w step s (done segments) = Reported w step s segments
RoundReported w step s (next cur segments) = Reported w step s segments

module _ (env : Env) (req : KlineRequest) (w : TimeWindow) (step : ℕ)
    (interval_ok : coverage_interval_duration req.interval ≡ ok (pos step)) where
  store_batch-Reported :
      (ks : List Kline) (segments : List CoverageSegment) (s : Progress)
      → All (λ k. in_window w k ≡ true) ks
      → Reported w step s segments
      → Ensures (StoredIn w) (Reported w step) (store_batch env req w ks segments s)
  unfolding store_batch
  store_batch-Reported [] segments s i h = h
  store_batch-Reported (k ∷ ks) segments s i h = elim (Option-cases (env.insert s.calls (k ∷ ks))) [
    | inl took ↦
        let (segs, b, times, runs) =
          build_coverage_segments-times req.exchange req.market req.symbol req.interval (k ∷ ks)
            step interval_ok in
        let kept = append_coverage_segments-keeps step segments segs h.1 runs in
        let after : Progress = record {
          calls = s.calls + 1;
          stored = s.stored ++ ((k ∷ ks) ∷ []);
        } in
        let e : store_batch env req w (k ∷ ks) segments s
            ≡ (after, ok (append_coverage_segments segments segs)) =
          ground (arith, took, b) in
        rw e (
          simp (kept.0, h.0, times, batch_times-append, append-nil),
          kept.1,
          All-append (λ batch. All (λ k. in_window w k ≡ true) batch) s.stored ((k ∷ ks) ∷ []) h.2
              (i, tt),
        )
    | inr (e, failed) ↦
        let stop : store_batch env req w (k ∷ ks) segments s
            ≡ (record s { calls = s.calls + 1 }, err (insert_failed (external e))) =
          ground (arith, failed) in
        rw stop h.2
  ]

  pause-Ensures :
      (segments : List CoverageSegment) (s : Progress)
      → Reported w step s segments
      → Ensures (StoredIn w) (λ s' _. Reported w step s' segments) (pause env req w s)
  pause-Ensures segments s h = elim (Bool-cases (env.cancelled s.calls 200)) [
    | inl stop ↦ rw (stop, pause) h.2
    | inr go ↦ rw (go, pause) h
  ]

  advance-Reported :
      (cur last : ℕ) (segments : List CoverageSegment) (s : Progress)
      → Reported w step s segments
      → Ensures (StoredIn w) (RoundReported w step) (advance env req w cur last segments s)
  advance-Reported cur last segments s h = elim (Bool-cases (leb (int64_suc last) cur)) [
    | inl back ↦ rw (back, advance) h.2
    | inr on ↦
        rw (on, advance)
          (bind_Ensures (StoredIn w) (λ s' _. Reported w step s' segments) (RoundReported w step)
            (pause env req w) (λ _. return (next (int64_suc last) segments)) s
            (pause-Ensures segments s h) (λ s' _ k. k))
  ]

  wrapped_keeps :
      {A : Type 0} (context : Error → Error) (r : Result Error A) (segments : List CoverageSegment)
      (s : Progress)
      → Reported w step s segments
      → Ensures (StoredIn w) (λ s' _. Reported w step s' segments) (wrapped context r s)
  wrapped_keeps context (ok a) segments s h = h
  wrapped_keeps context (err e) segments s h = h.2

  use_last-Reported :
      (cur : ℕ) (row : List Json) (rows : List (List Json)) (segments : List CoverageSegment)
      (s : Progress)
      → Reported w step s segments
      → Ensures (StoredIn w) (RoundReported w step) (use_last env req w cur row rows segments s)
  use_last-Reported cur row rows segments s h =
      bind_Ensures (StoredIn w) (λ s' _. Reported w step s' segments) (RoundReported w step)
        (wrapped close_time_failed (last_close env.floats row rows))
        (λ last. advance env req w cur last segments) s
        (wrapped_keeps close_time_failed (last_close env.floats row rows) segments s h)
        (λ s' last h'. advance-Reported cur last segments s' h')

  use_klines-Reported :
      (cur : ℕ) (segments : List CoverageSegment) (row : List Json) (rows : List (List Json))
      (klines : List Kline) (s : Progress)
      → Reported w step s segments
      → Ensures
          (StoredIn w)
          (RoundReported w step)
          (use_klines env req w cur segments row rows klines s)
  use_klines-Reported cur segments row rows klines s h =
      bind_Ensures (StoredIn w) (Reported w step) (RoundReported w step)
        (store_batch env req w (filter_klines_for_window klines w) segments)
        (λ segments'. use_last env req w cur row rows segments') s
        (store_batch-Reported (filter_klines_for_window klines w) segments s
          (filter-in_window w klines) h)
        (λ s' segments' h'. use_last-Reported cur row rows segments' s' h')

  use_rows-Reported :
      (cur : ℕ) (segments : List CoverageSegment) (rows : List (List Json)) (s : Progress)
      → Reported w step s segments
      → Ensures (StoredIn w) (RoundReported w step) (use_rows env req w cur segments rows s)
  unfolding use_rows
  use_rows-Reported cur segments [] s h = h
  use_rows-Reported cur segments (row ∷ rows) s h =
      let parsed = rows_to_klines env.floats (row ∷ rows) req.symbol req.market req.interval in
      bind_Ensures (StoredIn w) (λ s' _. Reported w step s' segments) (RoundReported w step)
        (wrapped parse_failed parsed) (λ klines. use_klines env req w cur segments row rows klines)
        s (wrapped_keeps parse_failed parsed segments s h)
        (λ s' klines h'. use_klines-Reported cur segments row rows klines s' h')

  pub backfill_round-Reported :
      (cur : ℕ) (segments : List CoverageSegment) (s : Progress)
      → Reported w step s segments
      → Ensures (StoredIn w) (RoundReported w step) (backfill_round env req w cur segments s)
  unfolding backfill_round
  backfill_round-Reported cur segments s h =
      elim (Bool-cases (ltb (unix_milli (w.stop - millisecond)) cur)) [
        | inl over ↦ rw (over, backfill_round) h
        | inr more ↦
            rw (more, backfill_round)
              (bind_Ensures (StoredIn w) (λ s' _. Reported w step s' segments)
                (RoundReported w step) (fetched env req w cur (unix_milli (w.stop - millisecond)))
                (λ rows. use_rows env req w cur segments rows) s
                (let got = request_rows env req w cur (unix_milli (w.stop - millisecond)) s.calls in
                  wrapped_keeps fetch_failed got.1 segments (record s { calls = got.0 }) h)
                (λ s' rows h'. use_rows-Reported cur segments rows s' h'))
      ]
