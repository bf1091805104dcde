-- ===== src/Backfill/Segment.antt =====
-- internal/backfill/coverage_segments.go and `appendCoverageSegments` of klines.go: stored rows as
-- runs of evenly spaced open times.
pub mod Runs
pub mod Times
pub mod Exact
pub mod Merge
use scraper.Base.{
  ℕ, suc, ◌+◌, Bool, true, false, ◌&&◌, ◌||◌, List, [], ◌∷◌, ok, err, Result, ltb, ◌==◌,
  if◌then◌else◌,
}
use scraper.Text.{Text, codes, text_eq, to_lower, to_upper, trim_space}
use scraper.Time.{Time, Duration, zero_time, time_add, unix_nano, year}
use scraper.Models.{Kline}
use scraper.Backfill.Interval.{Error, coverage_interval_duration}

pub record CoverageSegment : Type 0 where
  pub exchange : Text
  pub market : Text
  pub symbol : Text
  pub interval : Text
  pub year_of : ℕ
  pub start_at : Time
  pub end_at : Time
  pub row_count : ℕ
  pub source : Text

abbrev pub coverage_segment_source : Text
coverage_segment_source = codes "historical_backfill"

-- `_, ok := seen[key]`
unfoldable pub seen_before : ℕ → List ℕ → Bool
seen_before key [] = false
seen_before key (k ∷ seen) = key == k || seen_before key seen

-- The first loop of `BuildCoverageSegments`: the open times, without zero times and repetitions.
unfoldable pub open_times : List ℕ → List Kline → List Time
unfolding seen_before
open_times seen [] = []
open_times seen (row ∷ rows) = elim (row.open_time == zero_time) [
  | true ↦ open_times seen rows
  | false ↦ elim (seen_before (unix_nano row.open_time) seen) [
    | true ↦ open_times seen rows
    | false ↦ row.open_time ∷ open_times (unix_nano row.open_time ∷ seen) rows
  ]
]

unfoldable pub insert_time : Time → List Time → List Time
insert_time t [] = t ∷ []
insert_time t (u ∷ us) = if ltb u t then u ∷ insert_time t us else t ∷ u ∷ us

-- sort.Slice by `Before`
unfoldable pub sort_times : List Time → List Time
unfolding insert_time
sort_times [] = []
sort_times (t ∷ ts) = insert_time t (sort_times ts)

unfoldable pub new_coverage_segment : CoverageSegment → Time → Time → ℕ → CoverageSegment
new_coverage_segment base start_at end_at row_count = record base {
  year_of = year start_at;
  start_at = start_at;
  end_at = end_at;
  row_count = row_count;
}

-- The second loop, over the times that follow `prev`.
unfoldable pub group_from :
    Duration → CoverageSegment → Time → Time → ℕ → List Time → List CoverageSegment
unfolding new_coverage_segment
group_from step base start prev count [] =
    new_coverage_segment base start (time_add prev step) count ∷ []
group_from step base start prev count (current ∷ rest) =
    elim (current == time_add prev step && year current == year prev) [
      | true ↦ group_from step base start current (count + 1) rest
      | false ↦
          new_coverage_segment base start (time_add prev step) count
          ∷ group_from step base current current 1 rest
    ]

unfoldable pub segments_of : Duration → CoverageSegment → List Time → List CoverageSegment
unfolding group_from
segments_of step base [] = []
segments_of step base (t ∷ ts) = group_from step base t t 1 ts

abbrev normalized_segment : Text → Text → Text → Text → CoverageSegment
normalized_segment exchange market symbol interval = record {
  exchange = to_lower (trim_space exchange);
  market = to_lower (trim_space market);
  symbol = to_upper (trim_space symbol);
  interval = trim_space interval;
  year_of = 0;
  start_at = zero_time;
  end_at = zero_time;
  row_count = 0;
  source = coverage_segment_source;
}

unfoldable pub build_coverage_segments :
    Text → Text → Text → Text → List Kline → Result Error (List CoverageSegment)
unfolding segments_of
build_coverage_segments exchange market symbol interval rows =
    elim (coverage_interval_duration interval) [
      | err e ↦ err e
      | ok step ↦ ok (
          segments_of step (normalized_segment exchange market symbol interval)
            (sort_times (open_times [] rows)))
    ]

unfoldable pub can_merge_coverage_segments : CoverageSegment → CoverageSegment → Bool
can_merge_coverage_segments a b =
    text_eq a.exchange b.exchange
    && (text_eq a.market b.market
        && (text_eq a.symbol b.symbol
            && (text_eq a.interval b.interval
                && (a.year_of == b.year_of
                    && (text_eq a.source b.source && a.end_at == b.start_at)))))

-- A round of the loop of `appendCoverageSegments`: the last segment grows, or `seg` follows it.
unfoldable pub append_coverage_segment :
    List CoverageSegment → CoverageSegment → List CoverageSegment
unfolding can_merge_coverage_segments
append_coverage_segment [] seg = seg ∷ []
append_coverage_segment (a ∷ []) seg =
    if can_merge_coverage_segments a seg
    then record a { end_at = seg.end_at; row_count = a.row_count + seg.row_count } ∷ []
    else a ∷ seg ∷ []
append_coverage_segment (a ∷ b ∷ rest) seg = a ∷ append_coverage_segment (b ∷ rest) seg

unfoldable pub append_coverage_segments :
    List CoverageSegment → List CoverageSegment → List CoverageSegment
unfolding append_coverage_segment
append_coverage_segments dst [] = dst
append_coverage_segments dst (seg ∷ src) =
    append_coverage_segments (append_coverage_segment dst seg) src
