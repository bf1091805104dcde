-- ===== src/Backfill/Segment/Runs.antt =====
-- The instants that a segment stands for, and the segments that end where their last instant does.
use scraper.Base.{ℕ, zero, suc, ◌+◌, ◌*◌, ◌≤◌, ◌≡◌, ap, List, [], ◌∷◌, ◌++◌, arith}
use scraper.Time.{Time, year}
use scraper.Backfill.Segment.{CoverageSegment}

-- `count` instants from `t`, `step` apart.
unfoldable pub instants : ℕ → Time → ℕ → List Time
instants step t zero = []
instants step t (suc count) = t ∷ instants step (t + step) count

unfoldable pub covered : ℕ → CoverageSegment → List Time
unfolding instants
covered step seg = instants step seg.start_at seg.row_count

unfoldable pub covered_all : ℕ → List CoverageSegment → List Time
covered_all step [] = []
covered_all step (seg ∷ segs) = covered step seg ++ covered_all step segs

-- A segment ends one step after its last instant, holds a row, and names the year of its start.
pub record IsRun (step : ℕ) (seg : CoverageSegment) : Type 0 where
  pub exact_end : seg.end_at ≡ seg.start_at + seg.row_count * step
  pub nonempty : 1 ≤ seg.row_count
  pub start_year : seg.year_of ≡ year seg.start_at

pub instants-add :
    (step t m n : ℕ) → instants step t (m + n) ≡ instants step t m ++ instants step (t + m * step) n
unfolding instants
instants-add step t zero n = let e : t + 0 * step ≡ t = omega arith in rw (e, zero_add n)
  where
    zero_add : (n : ℕ) → 0 + n ≡ n
    zero_add n = omega arith
instants-add step t (suc m) n =
    let e : t + suc m * step ≡ t + step + m * step = omega arith in
    let s : suc m + n ≡ suc (m + n) = omega arith in
    rw (e, s) (ap (◌∷◌ t) (instants-add step (t + step) m n))

pub instants-snoc :
    (step t n u : ℕ) → u ≡ t + n * step → instants step t (n + 1) ≡ instants step t n ++ u ∷ []
unfolding instants
instants-snoc step t n u e = rw e (instants-add step t n 1)
