-- ===== src/Time/Laws.antt =====
-- The year of an instant is the one whose first and next first instants enclose it.
use scraper.Base.{ℕ, ◌+◌, ◌-◌, ◌*◌, ◌/◌, ◌≤◌, ◌<◌, ◌≡◌, arith, dec_lt}
use scraper.Time.{Time, day, days_before, year_of_day, year, year_begin}

-- The quotient of the century and of the single-year step: at most 3, with one day more at 3.
century :
    (d : ℕ)
    → d < 146097
    → let q = d / 36524 - d / 36524 / 4 in
      (q ≤ 3) × (36524 * q ≤ d) × (d - 36524 * q ≤ 36524) × (36524 ≤ d - 36524 * q → q ≡ 3)
century d h = (omega arith, omega arith, omega arith, omega arith)

four_years :
    (d : ℕ)
    → d ≤ 36524
    → let q = d / 1461 in
      (q ≤ 24) × (1461 * q ≤ d) × (d - 1461 * q ≤ 1460) × (1460 ≤ d - 1461 * q → 24 ≤ q → d ≡ 36524)
four_years d h = (omega arith, omega arith, omega arith, omega arith)

one_year :
    (d : ℕ)
    → d ≤ 1460
    → let q = d / 365 - d / 365 / 4 in
      (q ≤ 3) × (365 * q ≤ d) × (d - 365 * q ≤ 365) × (365 ≤ d - 365 * q → (q ≡ 3) × (d ≡ 1460))
one_year d h = (omega arith, omega arith, omega arith, omega arith)

cycles :
    (a b c e : ℕ)
    → b ≤ 3
    → c ≤ 24
    → e ≤ 3
    → days_before (400 * a + 100 * b + 4 * c + e) ≡ 146097 * a + 36524 * b + 1461 * c + 365 * e
unfolding days_before
cycles a b c e hb hc he = omega arith

next_cycle :
    (a b c e r : ℕ)
    → b ≤ 3
    → c ≤ 24
    → e ≤ 3
    → r ≤ 365
    → (365 ≤ r → (e ≡ 3) × (24 ≤ c → b ≡ 3))
    → 146097 * a + 36524 * b + 1461 * c + 365 * e + r
      < days_before (400 * a + 100 * b + 4 * c + e + 1)
unfolding days_before
next_cycle a b c e r hb hc he hr h = elim (dec_lt r 365) [
  | yes short ↦ omega arith
  | no full ↦
      let (last, century_end) = h (omega arith) in
      elim (dec_lt c 24) [
        | yes inner ↦ omega arith
        | no outer ↦ omega (arith, century_end (omega arith))
      ]
]

-- A day lies in its year.
pub year_of_day_bounds :
    (d : ℕ)
    → (1 ≤ year_of_day d)
      × (days_before (year_of_day d - 1) ≤ d)
      × (d < days_before (year_of_day d))
unfolding year_of_day
year_of_day_bounds d =
    let a = d / 146097 in
    let d1 = d - 146097 * a in
    let p1 = century d1 (omega arith) in
    let b = d1 / 36524 - d1 / 36524 / 4 in
    let d2 = d1 - 36524 * b in
    let p2 = four_years d2 p1.2 in
    let c = d2 / 1461 in
    let d3 = d2 - 1461 * c in
    let p3 = one_year d3 p2.2 in
    let e = d3 / 365 - d3 / 365 / 4 in
    let before : year_of_day d - 1 ≡ 400 * a + 100 * b + 4 * c + e = omega arith in
    let this : year_of_day d ≡ 400 * a + 100 * b + 4 * c + e + 1 = omega arith in
    let leap : 365 ≤ d3 - 365 * e → (e ≡ 3) × (24 ≤ c → b ≡ 3) =
      λ long. ((p3.3 long).0, λ end. p1.3 (omega (arith, p2.3 (omega (arith, p3.3 long)) end))) in
    (
      omega arith,
      rw before (omega (arith, cycles a b c e p1.0 p2.0 p3.0)),
      rw this (omega (arith, next_cycle a b c e (d3 - 365 * e) p1.0 p2.0 p3.0 p3.2 leap)),
    )

lt_of_days_before : (y z : ℕ) → days_before y < days_before z → y < z
unfolding days_before
lt_of_days_before y z h = omega arith

-- An instant lies in its year.
pub year_bounds :
    (t : Time) → (1 ≤ year t) × (year_begin (year t) ≤ t) × (t < year_begin (year t + 1))
unfolding year year_begin
year_bounds t =
    let b = year_of_day_bounds (t / day) in
    let same : year_of_day (t / day) + 1 - 1 ≡ year_of_day (t / day) = omega arith in
    (b.0, omega (arith, b.1), rw same (omega (arith, b.2)))

-- And in no other.
pub year_unique :
    (t : Time) (y : ℕ) → 1 ≤ y → year_begin y ≤ t → t < year_begin (y + 1) → year t ≡ y
unfolding year_begin
year_unique t y h lo hi =
    let b = year_bounds t in
    let below : year t - 1 < y + 1 - 1 = lt_of_days_before (year t - 1) (y + 1 - 1) (omega arith) in
    let above : y - 1 < year t + 1 - 1 = lt_of_days_before (y - 1) (year t + 1 - 1) (omega arith) in
    omega arith

pub year_begin-lt : (y : ℕ) → 1 ≤ y → year_begin y < year_begin (y + 1)
unfolding year_begin days_before
year_begin-lt y h = omega arith

pub year_mono : (t u : Time) → t ≤ u → year t ≤ year u
unfolding year_begin
year_mono t u h =
    let a = year_bounds t in
    let b = year_bounds u in
    let below : year t - 1 < year u + 1 - 1 =
      lt_of_days_before (year t - 1) (year u + 1 - 1) (omega arith) in
    omega arith
