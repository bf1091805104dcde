-- ===== src/Control/Runtime/Conserve/Counts.antt =====
-- How often a collector is held, started, stopped and seen to exit.
use scraper.Base.{
  ℕ, ◌+◌, ◌≡◌, Bool, true, false, List, [], ◌∷◌, ◌++◌, arith, Option, none, some, ◌==◌,
}
use scraper.Base.Int.{ℤ}
use scraper.Control.Stream.{StreamStateReport}
use scraper.Control.Handle.{
  ManagedStream, Effect, report, start, stops, exited, lookup, put, report_of,
}

abbrev pub is_start : ℕ → Effect → Bool
is_start c (start k id version) = k == c
is_start c e = false

abbrev pub is_stop : ℕ → Effect → Bool
is_stop c (stops k) = k == c
is_stop c e = false

abbrev pub is_exit : ℕ → Effect → Bool
is_exit c (exited k) = k == c
is_exit c e = false

abbrev pub one_if : Bool → ℕ
one_if true = 1
one_if false = 0

unfoldable pub tally : (Effect → Bool) → List Effect → ℕ
tally p [] = 0
tally p (e ∷ es) = one_if (p e) + tally p es

abbrev pub held_by : ℕ → Option ℕ → ℕ
held_by c none = 0
held_by c (some k) = one_if (k == c)

unfoldable pub held : ℕ → List (ℤ × ManagedStream) → ℕ
held c [] = 0
held c ((id, h) ∷ m) = held_by c h.collector + held c m

abbrev pub found : ℕ → Option ManagedStream → ℕ
found c none = 0
found c (some h) = held_by c h.collector

pub tally-append :
    (p : Effect → Bool) (xs ys : List Effect) → tally p (xs ++ ys) ≡ tally p xs + tally p ys
unfolding tally
tally-append p [] ys = omega arith
tally-append p (x ∷ xs) ys = omega (arith, tally-append p xs ys)

pub held-put :
    (c : ℕ) (id : ℤ) (h : ManagedStream) (m : List (ℤ × ManagedStream))
    → held c (put id h m) + found c (lookup id m) ≡ held c m + held_by c h.collector
unfolding held put lookup
held-put c id h [] = omega arith
held-put c id h ((j, g) ∷ m) = ground (arith, held-put c id h m)

-- Reports are no starts, stops or exits.
pub tally-report_of :
    (p : Effect → Bool) (rep : StreamStateReport)
    → p (report rep) ≡ false
    → tally p (report_of rep) ≡ 0
unfolding tally
tally-report_of p rep h = ground arith
