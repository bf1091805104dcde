-- ===== src/Backfill/Window/Partition.antt =====
-- The windows of `split_by_year` cut the range into its years.
use scraper.Base.{
  ℕ, zero, suc, ◌+◌, ◌-◌, ◌≤◌, ◌<◌, ◌≡◌, refl, inl, inr, List, [], ◌∷◌, arith, ltb, ltb→lt,
  Bool-cases, All, dec_lt, lt→ltb,
}
use scraper.Time.{Time, year, year_begin}
use scraper.Time.Laws.{year_bounds, year_unique, year_begin-lt, year_mono}
use scraper.Backfill.Window.{TimeWindow, window_year, window_end, split_from, split_by_year}

-- The windows join end to end, from `start` to `stop`.
abbrev pub Chain : Time → Time → List TimeWindow → Type 0
Chain start stop [] = start ≡ stop
Chain start stop (w ∷ ws) = (w.start ≡ start) × Chain w.stop stop ws

-- A window is not empty, and lies between the first instants of its year and of the next.
pub record IsYearly (w : TimeWindow) : Type 0 where
  pub nonempty : w.start < w.stop
  pub not_before : year_begin (window_year w) ≤ w.start
  pub not_after : w.stop ≤ year_begin (window_year w + 1)

window_end_bounds :
    (cur stop : Time)
    → cur < stop
    → (cur < window_end cur stop)
      × (window_end cur stop ≤ stop)
      × (window_end cur stop ≤ year_begin (year cur + 1))
unfolding window_end
window_end_bounds cur stop h = ground (arith, year_bounds cur)

window_end-IsYearly :
    (cur stop : Time) → cur < stop → IsYearly (record { start = cur; stop = window_end cur stop })
unfolding window_year
window_end-IsYearly cur stop h =
    let b = window_end_bounds cur stop h in
    record { nonempty = b.0; not_before = (year_bounds cur).1; not_after = b.2 }

split_from-IsYearly : (fuel : ℕ) (cur stop : Time) → All IsYearly (split_from fuel cur stop)
unfolding split_from
split_from-IsYearly zero cur stop = tt
split_from-IsYearly (suc fuel) cur stop = elim (Bool-cases (ltb cur stop)) [
  | inl more ↦
      rw (more, split_from)
        (
          window_end-IsYearly cur stop (ltb→lt cur stop more),
          split_from-IsYearly fuel (window_end cur stop) stop,
        )
  | inr done ↦ rw (done, split_from) tt
]

-- A round that does not reach `stop` ends in a later year, so the fuel does not run out.
year-window_end :
    (cur stop : Time)
    → cur < stop
    → window_end cur stop < stop
    → year (window_end cur stop) ≡ year cur + 1
unfolding window_end
year-window_end cur stop h k =
    let next = year_begin (year cur + 1) in
    let at : window_end cur stop ≡ next = ground arith in
    rw at (
      year_unique next (year cur + 1) (omega arith) (omega arith)
        (year_begin-lt (year cur + 1) (omega arith)))

split_from-Chain :
    (fuel : ℕ) (cur stop : Time)
    → cur ≤ stop
    → (cur < stop → year stop < year cur + fuel)
    → Chain cur stop (split_from fuel cur stop)
unfolding split_from
split_from-Chain zero cur stop h f = elim (dec_lt cur stop) [
  | yes more ↦ absurd (omega (arith, f more, year_mono cur stop h))
  | no done ↦ omega arith
]
split_from-Chain (suc fuel) cur stop h f = elim (Bool-cases (ltb cur stop)) [
  | inl more ↦
      let lt = ltb→lt cur stop more in
      rw (more, split_from)
        (
          refl,
          split_from-Chain fuel (window_end cur stop) stop (window_end_bounds cur stop lt).1
              (λ k. omega (arith, year-window_end cur stop lt k, f lt)),
        )
  | inr done ↦ rw (done, split_from) (ground arith)
]

-- The windows of a range that is not empty join end to end from its start to its end; none is empty,
-- and each lies in one year.
pub split_by_year-partition :
    (start stop : Time)
    → start < stop
    → Chain start stop (split_by_year start stop) × All IsYearly (split_by_year start stop)
unfolding split_by_year
split_by_year-partition start stop lt = rw (lt→ltb start stop lt) (
  split_from-Chain (year stop + 1 - year start) start stop (omega arith)
      (λ _. omega (arith, year_mono start stop (omega arith))),
  split_from-IsYearly (year stop + 1 - year start) start stop,
)
