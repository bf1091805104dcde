-- ===== src/Time.antt =====
-- Instants of package `time`, in UTC: nanoseconds since 0001-01-01T00:00:00Z, which is Go's zero
-- `time.Time`. Earlier instants are not modelled.
pub mod Laws
use scraper.Base.Int.{ℤ, pos, negsuc}
use scraper.Base.{ℕ, ◌+◌, ◌-◌, ◌*◌, ◌/◌, ◌%◌, ◌^◌}

abbrev pub Time : Type 0
Time = ℕ

abbrev pub zero_time : Time
zero_time = 0

abbrev pub millisecond : ℕ
millisecond = 1_000_000

abbrev pub second : ℕ
second = 1_000_000_000

abbrev pub minute : ℕ
minute = 60_000_000_000

abbrev pub hour : ℕ
hour = 3_600_000_000_000

abbrev pub day : ℕ
day = 86_400_000_000_000

-- An int64 m is the number m + 2 ^ 63, so that order and wrap-around are those of ℕ modulo 2 ^ 64.
abbrev pub int64_zero : ℕ
int64_zero = 9_223_372_036_854_775_808

-- The int64 of the milliseconds at 0001-01-01: -62135596800000.
abbrev pub first_milli : ℕ
first_milli = 9_223_309_901_257_975_808

-- m + 1 on int64.
abbrev pub int64_suc : ℕ → ℕ
int64_suc m = (m + 1) % 18_446_744_073_709_551_616

-- t.UnixMilli()
abbrev pub unix_milli : Time → ℕ
unix_milli t = first_milli + t / millisecond

-- time.UnixMilli(m)
abbrev pub from_unix_milli : ℕ → Time
from_unix_milli m = (m - first_milli) * millisecond

-- The days before January 1st of year y + 1, in the Gregorian calendar.
unfoldable pub days_before : ℕ → ℕ
days_before y = 365 * y + y / 4 - y / 100 + y / 400

-- The year of a day, counted from 0001-01-01: cycles of 400, 100, 4 and 1 years.
unfoldable pub year_of_day : ℕ → ℕ
year_of_day d =
    let n400 = d / 146097 in
    let d1 = d - 146097 * n400 in
    let n100 = d1 / 36524 - d1 / 36524 / 4 in
    let d2 = d1 - 36524 * n100 in
    let n4 = d2 / 1461 in
    let d3 = d2 - 1461 * n4 in
    let n1 = d3 / 365 - d3 / 365 / 4 in 400 * n400 + 100 * n100 + 4 * n4 + n1 + 1

-- t.Year()
unfoldable pub year : Time → ℕ
unfolding year_of_day
year t = year_of_day (t / day)

-- time.Date(y, 1, 1, 0, 0, 0, 0, time.UTC)
unfoldable pub year_begin : ℕ → Time
unfolding days_before
year_begin y = days_before (y - 1) * day

-- time.Duration: nanoseconds, an int64.
abbrev pub Duration : Type 0
Duration = ℤ

-- t.Add(d); an instant before the year 1 is not modelled.
abbrev pub time_add : Time → Duration → Time
time_add t (pos d) = t + d
time_add t (negsuc d) = t - (d + 1)

-- t.UnixNano(), up to a constant, in which int64 wraps around.
unfoldable pub unix_nano : Time → ℕ
unix_nano t = t % 18_446_744_073_709_551_616
