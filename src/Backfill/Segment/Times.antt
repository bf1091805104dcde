-- ===== src/Backfill/Segment/Times.antt =====
-- The open times that `BuildCoverageSegments` collects: sorted, distinct, and those of the rows.
use scraper.Base.{
  ℕ, ◌+◌, ◌<◌, ◌≤◌, ◌≡◌, refl, ◌∙◌, ◌≢◌, inl, inr, Bool, true, false, not, ◌&&◌, ◌||◌, List, [],
  ◌∷◌, arith, ltb, ◌==◌, All, Bool-cases,
}
use scraper.Time.{Time, zero_time, unix_nano}
use scraper.Models.{Kline}
use scraper.Backfill.Segment.{seen_before, open_times, insert_time, sort_times}

unfoldable pub holds : Time → List Time → Bool
holds t [] = false
holds t (u ∷ us) = u == t || holds t us

-- Some row opens at `t`.
unfoldable pub opens_at : Time → List Kline → Bool
opens_at t [] = false
opens_at t (row ∷ rows) = row.open_time == t || opens_at t rows

-- The instants in which an int64 of nanoseconds does not wrap around.
abbrev pub InSpan : Time → Time → Type 0
InSpan lo t = (lo ≤ t) × (t < lo + 18_446_744_073_709_551_616)

abbrev pub OpenInSpan : Time → Kline → Type 0
OpenInSpan lo row = InSpan lo row.open_time

-- Each instant is less than all that follow it.
abbrev pub IsIncreasing : List Time → Type 0
IsIncreasing [] = Unit {0}
IsIncreasing (t ∷ ts) = All (λ u. t < u) ts × IsIncreasing ts

unix_nano_injective :
    (lo t u : Time) → InSpan lo t → InSpan lo u → unix_nano t ≡ unix_nano u → t ≡ u
unfolding unix_nano
unix_nano_injective lo t u ht hu h = omega arith

holds-insert_time :
    (t u : Time) (us : List Time) → holds t (insert_time u us) ≡ (u == t || holds t us)
unfolding holds insert_time
holds-insert_time t u [] = refl
holds-insert_time t u (v ∷ us) = ground (arith, holds-insert_time t u us)

pub holds-sort_times : (t : Time) (ts : List Time) → holds t (sort_times ts) ≡ holds t ts
unfolding holds sort_times
holds-sort_times t [] = refl
holds-sort_times t (u ∷ us) =
    ground (arith, holds-insert_time t u (sort_times us), holds-sort_times t us)

holds-open_times :
    (lo t : Time) (seen : List ℕ) (rows : List Kline)
    → t ≢ zero_time
    → InSpan lo t
    → All (OpenInSpan lo) rows
    → holds t (open_times seen rows) ≡ (opens_at t rows && not (seen_before (unix_nano t) seen))
unfolding holds open_times opens_at seen_before
holds-open_times lo t seen [] z ht h = refl
holds-open_times lo t seen (row ∷ rows) z ht (hr, h) = ground (
  arith,
  holds-open_times lo t seen rows z ht h,
  holds-open_times lo t (unix_nano row.open_time ∷ seen) rows z ht h,
  unix_nano_injective lo t row.open_time ht hr,
)

-- Of the instants in range, the zero time apart, the collected ones are those at which a row opens.
pub holds-collected :
    (lo t : Time) (rows : List Kline)
    → t ≢ zero_time
    → InSpan lo t
    → All (OpenInSpan lo) rows
    → holds t (sort_times (open_times [] rows)) ≡ opens_at t rows
unfolding seen_before
holds-collected lo t rows z ht h =
    ground (arith, holds-sort_times t (open_times [] rows), holds-open_times lo t [] rows z ht h)

-- No entry equals a later one.
abbrev IsDistinct : List Time → Type 0
IsDistinct [] = Unit {0}
IsDistinct (t ∷ ts) = (holds t ts ≡ false) × IsDistinct ts

-- What was seen before is not collected again.
seen-open_times :
    (t : Time) (seen : List ℕ) (rows : List Kline)
    → seen_before (unix_nano t) seen ≡ true
    → holds t (open_times seen rows) ≡ false
unfolding holds open_times seen_before
seen-open_times t seen [] h = refl
seen-open_times t seen (row ∷ rows) h =
    ground (
      arith,
      seen-open_times t seen rows h,
      seen-open_times t (unix_nano row.open_time ∷ seen) rows,
    )

open_times-IsDistinct : (seen : List ℕ) (rows : List Kline) → IsDistinct (open_times seen rows)
unfolding open_times
open_times-IsDistinct seen [] = tt
open_times-IsDistinct seen (row ∷ rows) = elim (Bool-cases (row.open_time == zero_time)) [
  | inl zero ↦ rw (zero, open_times) (open_times-IsDistinct seen rows)
  | inr later ↦ elim (Bool-cases (seen_before (unix_nano row.open_time) seen)) [
    | inl old ↦ rw (later, old, open_times) (open_times-IsDistinct seen rows)
    | inr new ↦
        rw (later, new, open_times)
          (
            seen-open_times row.open_time (unix_nano row.open_time ∷ seen) rows
                (unfold seen_before in ground arith),
            open_times-IsDistinct (unix_nano row.open_time ∷ seen) rows,
          )
  ]
]

insert_time-All :
    (P : Time → Type 0) (t : Time) (us : List Time) → P t → All P us → All P (insert_time t us)
unfolding insert_time
insert_time-All P t [] p h = (p, tt)
insert_time-All P t (u ∷ us) p h = elim (Bool-cases (ltb u t)) [
  | inl later ↦ rw later (h.0, insert_time-All P t us p h.1)
  | inr sooner ↦ rw sooner (p, h)
]

All-lt_trans : (t u : Time) (us : List Time) → t < u → All (λ v. u < v) us → All (λ v. t < v) us
All-lt_trans t u [] h k = tt
All-lt_trans t u (v ∷ us) h k = (omega arith, All-lt_trans t u us h k.1)

insert_time-IsIncreasing :
    (t : Time) (us : List Time)
    → holds t us ≡ false
    → IsIncreasing us
    → IsIncreasing (insert_time t us)
unfolding insert_time holds
insert_time-IsIncreasing t [] n h = (tt, tt)
insert_time-IsIncreasing t (u ∷ us) n h = elim (Bool-cases (ltb u t)) [
  | inl later ↦ rw later (
    insert_time-All (λ v. u < v) t us (ground arith) h.0,
    insert_time-IsIncreasing t us (ground arith) h.1,
  )
  | inr sooner ↦ let lt : t < u = ground arith in rw sooner ((lt, All-lt_trans t u us lt h.0), h)
]

sort_times-IsIncreasing : (ts : List Time) → IsDistinct ts → IsIncreasing (sort_times ts)
unfolding sort_times
sort_times-IsIncreasing [] h = tt
sort_times-IsIncreasing (t ∷ ts) h =
    insert_time-IsIncreasing t (sort_times ts) (holds-sort_times t ts ∙ h.0)
      (sort_times-IsIncreasing ts h.1)

-- The collected times are in strictly increasing order.
pub collected-IsIncreasing : (rows : List Kline) → IsIncreasing (sort_times (open_times [] rows))
collected-IsIncreasing rows = sort_times-IsIncreasing _ (open_times-IsDistinct [] rows)
