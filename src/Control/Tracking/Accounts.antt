-- ===== src/Control/Tracking/Accounts.antt =====
-- The jobs of the runtime: how often each is launched, tracked and cancelled.
use scraper.Base.{
  ℕ, ◌+◌, ◌≤◌, ◌≡◌, refl, ◌∙◌, inl, inr, Bool, true, false, not, List, [], ◌∷◌, Option, none, some,
  Bool-cases, arith, ltb, ◌==◌,
}
use scraper.Base.Int.{ℤ}
use scraper.Text.{Text, codes, text_eq}
use scraper.Time.{Time}
use scraper.Control.Stream.{int_eq, is_positive}
use scraper.Control.History.{HistoricalRequest, HistoryError}
use scraper.Control.Tracking.{
  HistoryCall, reported, launched, cancelled, HistoricalRuntime, find_database, is_in_flight,
  untrack, report_error, launch, with_database, with_range, reconcile_request, is_seen,
  cancel_where, cancel_jobs, cancel_missing, stop_all, HistoryEvent, round, round_ends, job_ended,
  stopped, perform, perform_all, new_historical_runtime,
}

abbrev pub one_if : Bool → ℕ
one_if true = 1
one_if false = 0

-- How often a job is tracked, launched and cancelled.
unfoldable pub held : ℕ → List (ℤ × ℕ) → ℕ
held j [] = 0
held j ((id, job) ∷ m) = one_if (job == j) + held j m

abbrev pub launch_count : ℕ → HistoryCall → ℕ
launch_count j (reported x) = 0
launch_count j (launched job req) = one_if (job == j)
launch_count j (cancelled job) = 0

abbrev pub cancel_count : ℕ → HistoryCall → ℕ
cancel_count j (reported x) = 0
cancel_count j (launched job req) = 0
cancel_count j (cancelled job) = one_if (job == j)

unfoldable pub launches : ℕ → List HistoryCall → ℕ
launches j [] = 0
launches j (call ∷ calls) = launch_count j call + launches j calls

unfoldable pub cancels : ℕ → List HistoryCall → ℕ
cancels j [] = 0
cancels j (call ∷ calls) = cancel_count j call + cancels j calls

-- No request has two entries.
abbrev pub IsDistinct : List (ℤ × ℕ) → Type 0
IsDistinct [] = Unit
IsDistinct ((id, job) ∷ m) = (is_in_flight id m ≡ false) × IsDistinct m

-- Each job so far was launched once, and is tracked once, was cancelled once, or neither.
pub record Accounts (r : HistoricalRuntime) : Type 0 where
  pub once : (j : ℕ) → launches j r.trace ≡ one_if (ltb j r.jobs)
  pub kept : (j : ℕ) → held j r.in_flight + cancels j r.trace ≤ launches j r.trace
  pub distinct : IsDistinct r.in_flight

untrack-held : (id : ℤ) (m : List (ℤ × ℕ)) (j : ℕ) → held j (untrack id m) ≤ held j m
unfolding untrack held
untrack-held id [] j = omega arith
untrack-held id ((k, job) ∷ m) j = ground (arith, untrack-held id m j)

untrack-in_flight :
    (i id : ℤ) (m : List (ℤ × ℕ)) → is_in_flight i m ≡ false → is_in_flight i (untrack id m) ≡ false
unfolding untrack is_in_flight
untrack-in_flight i id [] h = refl
untrack-in_flight i id ((k, job) ∷ m) h = ground (arith, h, untrack-in_flight i id m)

untrack-IsDistinct : (id : ℤ) (m : List (ℤ × ℕ)) → IsDistinct m → IsDistinct (untrack id m)
unfolding untrack
untrack-IsDistinct id [] h = tt
untrack-IsDistinct id ((k, job) ∷ m) h = elim (Bool-cases (int_eq k id)) [
  | inl same ↦ rw same (untrack-IsDistinct id m h.1)
  | inr other ↦ rw other (untrack-in_flight k id m h.0, untrack-IsDistinct id m h.1)
]

module _ (keeps : ℤ → Bool) where
  cancel_where-counts :
      (m : List (ℤ × ℕ)) (trace : List HistoryCall) (j : ℕ)
      → let (kept, calls) = cancel_where keeps m trace in
        (held j kept + cancels j calls ≡ held j m + cancels j trace)
        × (launches j calls ≡ launches j trace)
  unfolding cancel_where held cancels launches
  cancel_where-counts [] trace j = (refl, refl)
  cancel_where-counts ((id, job) ∷ m) trace j =
      let (counts, same) = cancel_where-counts m trace j in
      elim (Bool-cases (keeps id)) [
        | inl kept ↦ rw kept (omega (arith, counts), same)
        | inr missing ↦ rw missing (omega (arith, counts), omega (arith, same))
      ]

  cancel_where-in_flight :
      (i : ℤ) (m : List (ℤ × ℕ)) (trace : List HistoryCall)
      → is_in_flight i m ≡ false
      → is_in_flight i (cancel_where keeps m trace).0 ≡ false
  unfolding cancel_where is_in_flight
  cancel_where-in_flight i [] trace h = refl
  cancel_where-in_flight i ((id, job) ∷ m) trace h =
      ground (arith, h, cancel_where-in_flight i m trace)

  cancel_where-IsDistinct :
      (m : List (ℤ × ℕ)) (trace : List HistoryCall)
      → IsDistinct m
      → IsDistinct (cancel_where keeps m trace).0
  unfolding cancel_where
  cancel_where-IsDistinct [] trace h = tt
  cancel_where-IsDistinct ((id, job) ∷ m) trace h = elim (Bool-cases (keeps id)) [
    | inl kept ↦
        rw kept (cancel_where-in_flight id m trace h.0, cancel_where-IsDistinct m trace h.1)
    | inr missing ↦ rw missing (cancel_where-IsDistinct m trace h.1)
  ]

  cancel_jobs-Accounts : (r : HistoricalRuntime) → Accounts r → Accounts (cancel_jobs keeps r)
  cancel_jobs-Accounts r a = record {
    once = λ j. (cancel_where-counts r.in_flight r.trace j).1 ∙ a.once j;
    kept = λ j. omega (arith, a.kept j, cancel_where-counts r.in_flight r.trace j);
    distinct = cancel_where-IsDistinct r.in_flight r.trace a.distinct;
  }

launch-Accounts :
    (req : HistoricalRequest) (r : HistoricalRuntime)
    → is_in_flight req.request_id r.in_flight ≡ false
    → Accounts r
    → Accounts (launch req r)
unfolding held launches cancels
launch-Accounts req r free a = record {
  once = λ j. let once = a.once j in ground (arith, once);
  kept = λ j. let kept = a.kept j in omega (arith, kept);
  distinct = (free, a.distinct);
}

report_error-Accounts :
    (id : ℤ) (e : HistoryError) (r : HistoricalRuntime)
    → Accounts r
    → Accounts (report_error id e r)
unfolding launches cancels
report_error-Accounts id e r a = record {
  once = λ j. let once = a.once j in omega (arith, once);
  kept = λ j. let kept = a.kept j in omega (arith, kept);
  distinct = a.distinct;
}

reconcile_request-Accounts :
    (req : HistoricalRequest) (r : HistoricalRuntime)
    → Accounts r
    → Accounts (reconcile_request req r)
unfolding reconcile_request
reconcile_request-Accounts req r a = elim (Bool-cases (not (is_positive req.request_id))) [
  | inl ignored ↦ rw ignored a
  | inr positive ↦ elim (Bool-cases (not (text_eq req.key.kind (codes "kline")))) [
    | inl foreign ↦ rw (positive, foreign) (report_error-Accounts req.request_id _ r a)
    | inr known ↦ rw (positive, known) (ranged req.requested_start_at req.requested_end_at)
  ]
]
  where
    based : (o : Option Text) → Accounts (with_database req o r)
    based none = report_error-Accounts req.request_id _ r a
    based (some db) = elim (Bool-cases (is_in_flight req.request_id r.in_flight)) [
      | inl busy ↦ rw busy a
      | inr free ↦ rw free (launch-Accounts req r free a)
    ]

    ranged : (start stop : Option Time) → Accounts (with_range req start stop r)
    ranged none stop = report_error-Accounts req.request_id _ r a
    ranged (some start) none = report_error-Accounts req.request_id _ r a
    ranged (some start) (some stop) = based (find_database req.key.exchange r.databases)

perform-Accounts : (e : HistoryEvent) (r : HistoricalRuntime) → Accounts r → Accounts (perform e r)
unfolding perform cancel_missing stop_all
perform-Accounts (round req) r a = reconcile_request-Accounts req r a
perform-Accounts (round_ends reqs) r a = cancel_jobs-Accounts (λ id. is_seen id reqs) r a
perform-Accounts (job_ended id) r a = record {
  once = a.once;
  kept = λ j. omega (arith, a.kept j, untrack-held id r.in_flight j);
  distinct = untrack-IsDistinct id r.in_flight a.distinct;
}
perform-Accounts stopped r a = cancel_jobs-Accounts (λ id. false) r a

-- Over any sequence of rounds, ends of reconciliations, ends of jobs and stops, each job is
-- launched once; what is tracked of it and what was cancelled of it is one at most; and no request
-- has two entries, if all this holds before.
pub perform_all-Accounts :
    (es : List HistoryEvent) (r : HistoricalRuntime) → Accounts r → Accounts (perform_all es r)
unfolding perform_all
perform_all-Accounts [] r a = a
perform_all-Accounts (e ∷ es) r a = perform_all-Accounts es (perform e r) (perform-Accounts e r a)

-- A new runtime has no jobs.
pub new_historical_runtime-Accounts :
    (databases : List (Text × Text)) → Accounts (new_historical_runtime databases)
unfolding new_historical_runtime launches held cancels
new_historical_runtime-Accounts databases = record {
  once = λ j. ground arith;
  kept = λ j. omega arith;
  distinct = tt;
}
