-- ===== src/Backfill/Window.antt =====
-- internal/backfill/klines.go: `splitByYear`, and the rows that a window keeps.
pub mod Partition
use scraper.Base.{
  ℕ, zero, suc, ◌+◌, ◌-◌, Bool, true, false, not, ◌||◌, List, [], ◌∷◌, ltb, if◌then◌else◌,
}
use scraper.Time.{Time, year, year_begin}
use scraper.Models.{Kline}

pub record TimeWindow : Type 0 where
  pub start : Time
  pub stop : Time

-- `timeWindow.Year`
unfoldable pub window_year : TimeWindow → ℕ
window_year w = year w.start

-- The end of the window that starts at `cur`: the next year's start, if that comes before `stop`.
unfoldable pub window_end : Time → Time → Time
window_end cur stop =
    let next_year = year_begin (year cur + 1) in if ltb next_year stop then next_year else stop

-- The loop of `splitByYear`, a round for each unit of fuel.
unfoldable pub split_from : ℕ → Time → Time → List TimeWindow
split_from zero cur stop = []
split_from (suc fuel) cur stop = elim (ltb cur stop) [
  | true ↦
      record { start = cur; stop = window_end cur stop }
      ∷ split_from fuel (window_end cur stop) stop
  | false ↦ []
]

-- A round ends the year of `cur`, so the years from `start` to `stop` are enough fuel.
unfoldable pub split_by_year : Time → Time → List TimeWindow
unfolding split_from
split_by_year start stop =
    if not (ltb start stop) then [] else split_from (year stop + 1 - year start) start stop

-- The test of the loop in `filterKlinesForWindow`.
unfoldable pub in_window : TimeWindow → Kline → Bool
in_window w kline = not (ltb kline.open_time w.start || not (ltb kline.open_time w.stop))

unfoldable pub filter_klines_for_window : List Kline → TimeWindow → List Kline
unfolding in_window
filter_klines_for_window [] w = []
filter_klines_for_window (kline ∷ klines) w =
    let rest = filter_klines_for_window klines w in if in_window w kline then kline ∷ rest else rest
