-- ===== src/Backfill/Run/Total.antt =====
-- `backfillWindow` ends, and its result is sound.
use scraper.Base.{
  ℕ, zero, suc, ◌+◌, ◌-◌, ◌<◌, ◌≡◌, refl, inl, inr, List, [], ◌∷◌, arith, Bool-cases, Option, none,
  some, ok, err, Result, ltb, leb, ltb→lt,
}
use scraper.Base.Int.{pos}
use scraper.Time.{unix_milli, millisecond, int64_suc}
use scraper.Backfill.Interval.{Error, coverage_interval_duration, parse_failed, close_time_failed}
use scraper.Backfill.Request.{KlineRequest}
use scraper.Backfill.Window.{TimeWindow, filter_klines_for_window}
use scraper.Backfill.Segment.{CoverageSegment}
use scraper.Backfill.Segment.Runs.{covered_all}
use scraper.Backfill.Row.{Json, rows_to_klines, last_close}
use scraper.Backfill.Fetch.{Env}
use scraper.Backfill.Run.Post.{Ensures}
use scraper.Backfill.Run.Sound.{StoredIn, Reported, RoundReported, backfill_round-Reported}
use scraper.Backfill.Run.{
  Progress, Round, done, next, M, advance, pause, wrapped, store_batch, use_rows, use_last,
  use_klines, fetched, backfill_round, backfill_loop, backfill_window,
}

-- The outcome of the loop: it has ended, its rows open in the window, and if it succeeds its segments
-- are runs that cover the stored batches.
abbrev pub Ended : TimeWindow → ℕ → Option (Progress × Result Error (List CoverageSegment)) → Type 0
Ended w step none = ⊥
Ended w step (some r) = Ensures (StoredIn w) (Reported w step) r

-- A round that goes on comes to a later time.
abbrev Forward : ℕ → Progress × Result Error Round → Type 0
Forward cur (s, ok (done segments)) = Unit
Forward cur (s, ok (next cur' segments)) = cur < cur'
Forward cur (s, err e) = Unit

bind_Forward :
    {A : Type 0} (cur : ℕ) (r : Progress × Result Error A) (f : A → M Round)
    → ((s : Progress) (a : A) → Forward cur (f a s))
    → Forward cur (elim r.1 [ ok a ↦ f a r.0 | err e ↦ (r.0, err e) ])
bind_Forward cur (s, ok a) f k = k s a
bind_Forward cur (s, err e) f k = tt

module _ (env : Env) (req : KlineRequest) (w : TimeWindow) where
  advance-Forward :
      (cur last : ℕ) (segments : List CoverageSegment) (s : Progress)
      → Forward cur (advance env req w cur last segments s)
  advance-Forward cur last segments s = elim (Bool-cases (leb (int64_suc last) cur)) [
    | inl back ↦ rw (back, advance) tt
    | inr on ↦
        rw (on, advance)
          (bind_Forward cur (pause env req w s) (λ _ s'. (s', ok (next (int64_suc last) segments)))
            (λ s' a. ground arith))
  ]

  use_rows-Forward :
      (cur : ℕ) (segments : List CoverageSegment) (rows : List (List Json)) (s : Progress)
      → Forward cur (use_rows env req w cur segments rows s)
  unfolding use_rows
  use_rows-Forward cur segments [] s = tt
  use_rows-Forward cur segments (row ∷ rows) s =
      let parsed = rows_to_klines env.floats (row ∷ rows) req.symbol req.market req.interval in
      bind_Forward cur (wrapped parse_failed parsed s)
        (λ klines. use_klines env req w cur segments row rows klines)
        λ s1 klines.
          bind_Forward cur (store_batch env req w (filter_klines_for_window klines w) segments s1)
            (λ segments'. use_last env req w cur row rows segments')
            λ s2 segments'.
              bind_Forward cur (wrapped close_time_failed (last_close env.floats row rows) s2)
                (λ last. advance env req w cur last segments')
                λ s3 last. advance-Forward cur last segments' s3

  backfill_round-Forward :
      (cur : ℕ) (segments : List CoverageSegment) (s : Progress)
      → Forward cur (backfill_round env req w cur segments s)
  unfolding backfill_round
  backfill_round-Forward cur segments s =
      elim (Bool-cases (ltb (unix_milli (w.stop - millisecond)) cur)) [
        | inl over ↦ rw (over, backfill_round) tt
        | inr more ↦
            rw (more, backfill_round)
              (bind_Forward cur (fetched env req w cur (unix_milli (w.stop - millisecond)) s)
                (λ rows. use_rows env req w cur segments rows)
                (λ s' rows. use_rows-Forward cur segments rows s'))
      ]

  module _ (step : ℕ) (interval_ok : coverage_interval_duration req.interval ≡ ok (pos step)) where
    -- A round's result, and what the loop makes of it.
    after_round :
        (fuel cur : ℕ) (r : Progress × Result Error Round)
        → Ensures (StoredIn w) (RoundReported w step) r
        → Forward cur r
        → ((cur' : ℕ) (segments : List CoverageSegment) (s : Progress)
            → cur < cur'
            → Reported w step s segments
            → Ended w step (backfill_loop env req w fuel cur' segments s))
        → Ended w step (elim r.1 [
          | err e ↦ some (r.0, err e)
          | ok (done segments') ↦ some (r.0, ok segments')
          | ok (next cur' segments') ↦ backfill_loop env req w fuel cur' segments' r.0
        ])
    after_round fuel cur (s, err e) q f k = q
    after_round fuel cur (s, ok (done segments)) q f k = q
    after_round fuel cur (s, ok (next cur' segments)) q f k = k cur' segments s f q

    backfill_loop-Ended :
        (fuel cur : ℕ) (segments : List CoverageSegment) (s : Progress)
        → unix_milli w.stop - cur < fuel
        → Reported w step s segments
        → Ended w step (backfill_loop env req w fuel cur segments s)
    unfolding backfill_loop
    backfill_loop-Ended zero cur segments s f h = absurd (omega arith)
    backfill_loop-Ended (suc fuel) cur segments s f h =
        elim (Bool-cases (ltb cur (unix_milli w.stop))) [
          | inl more ↦
              let lt = ltb→lt cur (unix_milli w.stop) more in
              rw (more, backfill_loop)
                (after_round fuel cur (backfill_round env req w cur segments s)
                  (backfill_round-Reported env req w step interval_ok cur segments s h)
                  (backfill_round-Forward cur segments s)
                  (λ cur' segments' s' on h'.
                    backfill_loop-Ended fuel cur' segments' s' (omega arith) h'))
          | inr over ↦ rw (over, backfill_loop) h
        ]

    -- From an empty trace, whatever the exchange, the store and the context answer, the window's
    -- backfill ends; each row that the store took opens in the window; and if the backfill succeeds,
    -- the reported segments are runs whose instants, in order, are the open times of the stored
    -- batches.
    pub backfill_window_sound :
        (calls : ℕ)
        → Ended w step (backfill_window env req w (record { calls = calls; stored = [] }))
    unfolding backfill_window covered_all
    backfill_window_sound calls =
        backfill_loop-Ended (unix_milli w.stop - unix_milli w.start + 1) (unix_milli w.start) [] _
          (omega arith) (refl, tt, tt)
