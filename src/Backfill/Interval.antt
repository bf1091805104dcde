-- ===== src/Backfill/Interval.antt =====
-- internal/backfill/klines.go and coverage_segments.go: the text of an interval, such as `15m`, and
-- the duration that it stands for.
use scraper.Base.{
  ℕ, ◌+◌, ◌-◌, ◌*◌, ◌/◌, [], ◌∷◌, Option, none, some, ok, err, Result, ltb, ◌==◌, if◌then◌else◌,
  length,
}
use scraper.Base.Int.{ℤ, pos, negsuc, wrap64, atoi}
use scraper.Text.{Text, trim_space}
use scraper.Time.{Time, Duration, second, minute, hour, day, time_add}

-- The errors of the package, a constructor for each `fmt.Errorf`.
pub data Error : Type 0 where
  bad_market no_symbol no_interval bad_range bad_exchange : Error
  invalid_interval invalid_unit : Text → Error
  end_before_start divide_by_zero : Error
  external : Text → Error
  fetch_failed parse_failed insert_failed segments_failed close_time_failed : Error → Error
  stuck : ℕ → Error
  http_status : ℕ → Text → Error
  exhausted_retries : Error
  short_row : ℕ → Error
  bad_field : Error
  unsafe_name : Text → Error
  ensure_failed open_failed schema_failed close_failed : Text → Error → Error

-- interval[:len(interval)-1]
unfoldable pub init_text : Text → Text
init_text [] = []
init_text (c ∷ []) = []
init_text (c ∷ d ∷ s) = c ∷ init_text (d ∷ s)

-- interval[len(interval)-1]
unfoldable pub last_char : ℕ → Text → ℕ
last_char c [] = c
last_char c (d ∷ s) = last_char d s

-- The units that both switches know.
abbrev common_unit : ℕ → ℕ → Option Duration
common_unit unit value =
    if unit == b's'
    then some (wrap64 (value * second))
    else if unit == b'm'
    then some (wrap64 (value * minute))
    else if unit == b'h'
    then some (wrap64 (value * hour))
    else if unit == b'd'
    then some (wrap64 (value * day))
    else none

-- The switch of `intervalDuration`.
abbrev unit_duration : ℕ → ℕ → Option Duration
unit_duration unit value =
    if unit == b'w'
    then some (wrap64 (value * (7 * day)))
    else if unit == b'M'
    then some (wrap64 (value * (30 * day)))
    else common_unit unit value

abbrev or_unit : Text → Option Duration → Result Error Duration
or_unit interval none = err (invalid_unit interval)
or_unit interval (some d) = ok d

-- What follows the parse of the number: a value that is not positive is refused.
abbrev with_value : Text → (ℕ → Option Duration) → Option ℤ → Result Error Duration
with_value interval unit none = err (invalid_interval interval)
with_value interval unit (some (negsuc n)) = err (invalid_interval interval)
with_value interval unit (some (pos n)) =
    if n == 0 then err (invalid_interval interval) else or_unit interval (unit n)

unfoldable pub interval_duration : Text → Result Error Duration
unfolding init_text last_char
interval_duration interval =
    if ltb (length interval) 2
    then err (invalid_interval interval)
    else with_value interval (unit_duration (last_char 0 interval)) (atoi (init_text interval))

unfoldable pub trimmed_duration : Text → Result Error Duration
unfolding init_text last_char
trimmed_duration interval =
    if ltb (length interval) 2
    then err (invalid_interval interval)
    else with_value interval (common_unit (last_char 0 interval)) (atoi (init_text interval))

unfoldable pub coverage_interval_duration : Text → Result Error Duration
unfolding trimmed_duration
coverage_interval_duration interval = trimmed_duration (trim_space interval)

-- int64(diff / dur): a division by zero panics, and a negative divisor gives no positive count.
abbrev bars : ℕ → Duration → Result Error ℤ
bars diff (pos d) = if d == 0 then err divide_by_zero else ok (pos (diff / d))
bars diff (negsuc d) = let q = diff / (d + 1) in if q == 0 then ok (pos 0) else ok (negsuc (q - 1))

-- The difference of two instants, which `Sub` keeps within an int64.
abbrev saturated : ℕ → ℕ
saturated n = if ltb 9_223_372_036_854_775_807 n then 9_223_372_036_854_775_807 else n

abbrev bars_between : Time → Time → Duration → Result Error ℤ
bars_between start end dur =
    if ltb end start then err end_before_start else bars (saturated (end - start)) dur

unfoldable pub expected_bar_count : Time → Time → Text → Result Error ℤ
expected_bar_count start end interval = elim (interval_duration interval) [
  | err e ↦ err e
  | ok dur ↦ bars_between start end dur
]

unfoldable pub covered_end_from_max_open_time : Time → Text → Result Error Time
covered_end_from_max_open_time max_open interval = elim (interval_duration interval) [
  | err e ↦ err e
  | ok dur ↦ ok (time_add max_open dur)
]
