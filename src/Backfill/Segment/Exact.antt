-- ===== src/Backfill/Segment/Exact.antt =====
-- What `BuildCoverageSegments` reports is what the rows hold.
use scraper.Base.{
  ℕ, ◌+◌, ◌*◌, ◌≤◌, ◌≡◌, refl, ap, ◌∙◌, ◌≢◌, inl, inr, ◌&&◌, List, [], ◌∷◌, ◌++◌, arith, ◌==◌, All,
  All-append, Bool-cases, append_assoc, ok,
}
use scraper.Base.Int.{pos}
use scraper.Text.{Text}
use scraper.Time.{Time, zero_time, year}
use scraper.Models.{Kline}
use scraper.Backfill.Interval.{coverage_interval_duration}
use scraper.Backfill.Segment.{
  CoverageSegment, open_times, sort_times, group_from, segments_of, normalized_segment,
  build_coverage_segments, new_coverage_segment,
}
use scraper.Backfill.Segment.Runs.{instants, covered, covered_all, IsRun, instants-snoc}
use scraper.Backfill.Segment.Times.{
  holds, opens_at, InSpan, OpenInSpan, IsIncreasing, holds-collected, collected-IsIncreasing,
}

-- All instants of a segment fall in its year.
abbrev pub InYear : ℕ → CoverageSegment → Type 0
InYear step seg = All (λ t. year t ≡ seg.year_of) (covered step seg)

module _ (step : ℕ) (base : CoverageSegment) where
  covered-new :
      (start stop : Time) (count : ℕ)
      → covered step (new_coverage_segment base start stop count) ≡ instants step start count
  unfolding covered new_coverage_segment
  covered-new start stop count = refl

  -- The segments from a run of `count` instants that ends at `prev`, and the times that follow.
  covered_all-group_from :
      (start prev : Time) (count : ℕ) (rest : List Time)
      → prev + step ≡ start + count * step
      → covered_all step (group_from (pos step) base start prev count rest)
        ≡ instants step start count ++ rest
  unfolding covered_all group_from instants
  covered_all-group_from start prev count [] e = ap (λ l. l ++ []) (covered-new start _ count)
  covered_all-group_from start prev count (current ∷ rest) e =
      elim (Bool-cases (current == prev + step && year current == year prev)) [
        | inl joins ↦
            let here : current ≡ prev + step = ground arith in
            rw (joins, group_from)
              (covered_all-group_from start current (count + 1) rest (omega arith)
                ∙ rw (instants-snoc step start count current (omega arith), append_assoc))
        | inr breaks ↦
            rw (breaks, group_from)
              (rw (
                covered-new start (prev + step) count,
                covered_all-group_from current current 1 rest (omega arith),
              ))
      ]

  new-IsRun :
      (start prev : Time) (count : ℕ)
      → prev + step ≡ start + count * step
      → 1 ≤ count
      → IsRun step (new_coverage_segment base start (prev + step) count)
  unfolding new_coverage_segment
  new-IsRun start prev count e h = record { exact_end = e; nonempty = h; start_year = refl }

  group_from-IsRun :
      (start prev : Time) (count : ℕ) (rest : List Time)
      → prev + step ≡ start + count * step
      → 1 ≤ count
      → All (IsRun step) (group_from (pos step) base start prev count rest)
  unfolding group_from
  group_from-IsRun start prev count [] e h = (new-IsRun start prev count e h, tt)
  group_from-IsRun start prev count (current ∷ rest) e h =
      elim (Bool-cases (current == prev + step && year current == year prev)) [
        | inl joins ↦
            let here : current ≡ prev + step = ground arith in
            rw (joins, group_from)
              (group_from-IsRun start current (count + 1) rest (omega arith) (omega arith))
        | inr breaks ↦
            rw (breaks, group_from)
              (
                new-IsRun start prev count e h,
                group_from-IsRun current current 1 rest (omega arith) (omega arith),
              )
      ]

  new-InYear :
      (start stop : Time) (count : ℕ)
      → All (λ t. year t ≡ year start) (instants step start count)
      → InYear step (new_coverage_segment base start stop count)
  unfolding new_coverage_segment covered
  new-InYear start stop count h = h

  group_from-InYear :
      (start prev : Time) (count : ℕ) (rest : List Time)
      → prev + step ≡ start + count * step
      → year prev ≡ year start
      → All (λ t. year t ≡ year start) (instants step start count)
      → All (InYear step) (group_from (pos step) base start prev count rest)
  unfolding group_from instants
  group_from-InYear start prev count [] e y h = (new-InYear start (prev + step) count h, tt)
  group_from-InYear start prev count (current ∷ rest) e y h =
      elim (Bool-cases (current == prev + step && year current == year prev)) [
        | inl joins ↦
            let here : current ≡ prev + step = ground arith in
            let same : year current ≡ year start = ground arith in
            rw (joins, group_from)
              (group_from-InYear start current (count + 1) rest (omega arith) same (
                rw (instants-snoc step start count current (omega arith)) (
                  All-append (λ t. year t ≡ year start) (instants step start count) (current ∷ []) h
                    (same, tt))))
        | inr breaks ↦
            rw (breaks, group_from)
              (
                new-InYear start (prev + step) count h,
                group_from-InYear current current 1 rest (omega arith) refl (refl, tt),
              )
      ]

  pub covered_all-segments_of :
      (ts : List Time) → covered_all step (segments_of (pos step) base ts) ≡ ts
  unfolding segments_of instants covered_all
  covered_all-segments_of [] = refl
  covered_all-segments_of (t ∷ ts) = covered_all-group_from t t 1 ts (omega arith)

  pub segments_of-IsRun : (ts : List Time) → All (IsRun step) (segments_of (pos step) base ts)
  unfolding segments_of
  segments_of-IsRun [] = tt
  segments_of-IsRun (t ∷ ts) = group_from-IsRun t t 1 ts (omega arith) (omega arith)

  pub segments_of-InYear : (ts : List Time) → All (InYear step) (segments_of (pos step) base ts)
  unfolding segments_of instants
  segments_of-InYear [] = tt
  segments_of-InYear (t ∷ ts) = group_from-InYear t t 1 ts (omega arith) refl (refl, tt)

module _ (exchange market symbol interval : Text) (rows : List Kline) (step : ℕ) where
  built :
      coverage_interval_duration interval ≡ ok (pos step)
      → build_coverage_segments exchange market symbol interval rows
        ≡ ok (
            segments_of
              (pos step)
              (normalized_segment exchange market symbol interval)
              (sort_times (open_times [] rows)))
  unfolding build_coverage_segments
  built h = rw (h, build_coverage_segments)

  -- The segments are runs over the collected open times.
  pub build_coverage_segments-times :
      coverage_interval_duration interval ≡ ok (pos step)
      → (segs : List CoverageSegment) × (build_coverage_segments exchange market symbol interval
            rows
          ≡ ok segs)
        × (covered_all step segs ≡ sort_times (open_times [] rows))
        × All (IsRun step) segs
  build_coverage_segments-times h =
      let base = normalized_segment exchange market symbol interval in
      let times = sort_times (open_times [] rows) in
      (
        segments_of (pos step) base times,
        built h,
        covered_all-segments_of step base times,
        segments_of-IsRun step base times,
      )

  -- For a valid interval the segments exist. Their instants, in order, strictly increase; each segment
  -- ends one step after its last instant, has a row, and lies in the year that it names.
  pub build_coverage_segments-runs :
      coverage_interval_duration interval ≡ ok (pos step)
      → (segs : List CoverageSegment) × (build_coverage_segments exchange market symbol interval
            rows
          ≡ ok segs)
        × IsIncreasing (covered_all step segs)
        × All (IsRun step) segs
        × All (InYear step) segs
  build_coverage_segments-runs h =
      let base = normalized_segment exchange market symbol interval in
      let times = sort_times (open_times [] rows) in
      (
        segments_of (pos step) base times,
        built h,
        rw (covered_all-segments_of step base times) (collected-IsIncreasing rows),
        segments_of-IsRun step base times,
        segments_of-InYear step base times,
      )

  -- An instant but the zero time is covered exactly if a row opens at it, provided that it and the
  -- rows lie in one span of 2 ^ 64 nanoseconds.
  pub build_coverage_segments-covers :
      {segs : List CoverageSegment} (lo t : Time)
      → coverage_interval_duration interval ≡ ok (pos step)
      → build_coverage_segments exchange market symbol interval rows ≡ ok segs
      → t ≢ zero_time
      → InSpan lo t
      → All (OpenInSpan lo) rows
      → holds t (covered_all step segs) ≡ opens_at t rows
  build_coverage_segments-covers {segs} lo t h b z ht hr =
      let base = normalized_segment exchange market symbol interval in
      let times = sort_times (open_times [] rows) in
      let same : segs ≡ segments_of (pos step) base times = cc (built h) in
      rw (same, covered_all-segments_of step base times) (holds-collected lo t rows z ht hr)
