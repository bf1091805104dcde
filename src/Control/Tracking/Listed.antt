-- ===== src/Control/Tracking/Listed.antt =====
-- A reconciliation: which requests are in flight after it, and that it keeps their jobs.
use scraper.Base.{
  ℕ, ◌≡◌, refl, sym, ◌∙◌, ap, subst, inl, inr, Bool, true, false, not, ◌&&◌, ◌||◌, List, [], ◌∷◌,
  Option, none, some, ok, Bool-cases, arith, if◌then◌else◌,
}
use scraper.Base.Int.{ℤ, pos, negsuc}
use scraper.Text.{Text, codes, text_eq}
use scraper.Time.{Time}
use scraper.Control.Stream.{int_eq, is_positive}
use scraper.Control.History.{HistoricalRequest}
use scraper.Control.Tracking.{
  HistoryCall, HistoricalRuntime, find_database, is_in_flight, launch, with_database, with_range,
  reconcile_request, reconcile_requests, is_seen, cancel_where, cancel_missing, reconcile_once,
}

abbrev pub is_given {ℓ} : {A : Type ℓ} → Option A → Bool
is_given none = false
is_given (some x) = true

-- A request that the runtime works for.
abbrev pub is_supported : List (Text × Text) → HistoricalRequest → Bool
is_supported dbs req =
    is_positive req.request_id
    && text_eq req.key.kind (codes "kline")
    && is_given req.requested_start_at
    && is_given req.requested_end_at
    && is_given (find_database req.key.exchange dbs)

-- A supported request with the identifier is listed.
unfoldable pub is_wanted : List (Text × Text) → ℤ → List HistoricalRequest → Bool
is_wanted dbs id [] = false
is_wanted dbs id (req ∷ reqs) =
    (is_supported dbs req && int_eq req.request_id id) || is_wanted dbs id reqs

-- The job that is tracked for a request.
unfoldable pub find_job : ℤ → List (ℤ × ℕ) → Option ℕ
find_job id [] = none
find_job id ((k, job) ∷ m) = let rest = find_job id m in if int_eq k id then some job else rest

pub int_eq→≡ : (a b : ℤ) → int_eq a b ≡ true → a ≡ b
int_eq→≡ (pos a) (pos b) h = ap pos (ground (arith, h))
int_eq→≡ (pos a) (negsuc b) h = cc
int_eq→≡ (negsuc a) (pos b) h = cc
int_eq→≡ (negsuc a) (negsuc b) h = ap negsuc (ground (arith, h))

-- A tracked job makes its request one in flight.
find_job-in_flight : (id : ℤ) (m : List (ℤ × ℕ)) → is_given (find_job id m) ≡ is_in_flight id m
unfolding find_job is_in_flight
find_job-in_flight id [] = refl
find_job-in_flight id ((k, job) ∷ m) = elim (Bool-cases (int_eq k id)) [
  | inl same ↦ rw same refl
  | inr other ↦ rw other (find_job-in_flight id m)
]

-- What a round and a reconciliation promise: which requests are in flight, the same databases, and the
-- jobs that stay.
pub record Adds (id : ℤ) (wanted : Bool) (r r' : HistoricalRuntime) : Type 0 where
  pub databases : r'.databases ≡ r.databases
  pub in_flight : is_in_flight id r'.in_flight ≡ (is_in_flight id r.in_flight || wanted)
  pub job : (j : ℕ) → find_job id r.in_flight ≡ some j → find_job id r'.in_flight ≡ some j

Adds-none : (id : ℤ) (wanted : Bool) (r : HistoricalRuntime) → wanted ≡ false → Adds id wanted r r
Adds-none id wanted r h = record { databases = refl; in_flight = ground (arith, h); job = λ j e. e }

launch-Adds :
    (id : ℤ) (req : HistoricalRequest) (r : HistoricalRuntime)
    → is_in_flight req.request_id r.in_flight ≡ false
    → Adds id (int_eq req.request_id id) r (launch req r)
unfolding is_in_flight find_job
launch-Adds id req r free = record {
  databases = refl;
  in_flight = ground arith;
  job = λ j e. elim (Bool-cases (int_eq req.request_id id)) [
    | inr other ↦ rw other e
    | inl same ↦
        let here : req.request_id ≡ id = int_eq→≡ req.request_id id same in
        let given : is_given (find_job id r.in_flight) ≡ true = rw e refl in
        let busy : is_in_flight id r.in_flight ≡ true =
          sym (find_job-in_flight id r.in_flight) ∙ given in
        absurd (cc (free, busy, here))
  ];
}

module _ (id : ℤ) where
  with_database-Adds :
      (req : HistoricalRequest) (r : HistoricalRuntime) (o : Option Text)
      → Adds id (is_given o && int_eq req.request_id id) r (with_database req o r)
  with_database-Adds req r none = record {
    databases = refl;
    in_flight = ground arith;
    job = λ j e. e;
  }
  with_database-Adds req r (some db) = elim (Bool-cases (is_in_flight req.request_id r.in_flight)) [
    | inr free ↦ rw free (launch-Adds id req r free)
    | inl busy ↦ rw busy (record {
      databases = refl;
      in_flight = elim (Bool-cases (int_eq req.request_id id)) [
        | inr other ↦ ground (arith, other)
        | inl same ↦
            let here : req.request_id ≡ id = int_eq→≡ req.request_id id same in
            let busy' : is_in_flight id r.in_flight ≡ true = cc (busy, here) in
            ground (arith, busy', same)
      ];
      job = λ j e. e;
    })
  ]

  with_range-Adds :
      (req : HistoricalRequest) (r : HistoricalRuntime) (start stop : Option Time)
      → Adds id
          (is_given start
            && is_given stop
            && is_given (find_database req.key.exchange r.databases)
            && int_eq req.request_id id)
          r
          (with_range req start stop r)
  with_range-Adds req r none stop = record {
    databases = refl;
    in_flight = ground arith;
    job = λ j e. e;
  }
  with_range-Adds req r (some start) none = record {
    databases = refl;
    in_flight = ground arith;
    job = λ j e. e;
  }
  with_range-Adds req r (some start) (some stop) =
      with_database-Adds req r (find_database req.key.exchange r.databases)

  reconcile_request-Adds :
      (req : HistoricalRequest) (r : HistoricalRuntime)
      → Adds id
          (is_supported r.databases req && int_eq req.request_id id)
          r
          (reconcile_request req r)
  unfolding reconcile_request
  reconcile_request-Adds req r = elim (Bool-cases (not (is_positive req.request_id))) [
    | inl ignored ↦ rw ignored (Adds-none id _ r (ground (arith, ignored)))
    | inr positive ↦ elim (Bool-cases (not (text_eq req.key.kind (codes "kline")))) [
      | inl foreign ↦
          rw (positive, foreign)
            (record { databases = refl; in_flight = ground (arith, foreign); job = λ j e. e })
      | inr known ↦
          rw (positive, known)
            (subst (λ w. Adds id w r (with_range req req.requested_start_at req.requested_end_at r))
              (ground (arith, positive, known))
              (with_range-Adds req r req.requested_start_at req.requested_end_at))
    ]
  ]

  reconcile_requests-Adds :
      (reqs : List HistoricalRequest) (r : HistoricalRuntime)
      → Adds id (is_wanted r.databases id reqs) r (reconcile_requests reqs r)
  unfolding reconcile_requests is_wanted
  reconcile_requests-Adds [] r = Adds-none id false r refl
  reconcile_requests-Adds (req ∷ reqs) r =
      let first = reconcile_request-Adds req r in
      let rest = reconcile_requests-Adds reqs (reconcile_request req r) in
      let dbs = first.databases in
      record {
        databases = rest.databases ∙ dbs;
        in_flight = rw (rest.in_flight, first.in_flight, dbs) (ground arith);
        job = λ j e. rest.job j (first.job j e);
      }

  -- A cancellation keeps the requests that it is told to.
  cancel_where-keeps :
      (keeps : ℤ → Bool) (m : List (ℤ × ℕ)) (trace : List HistoryCall)
      → let kept = (cancel_where keeps m trace).0 in
        (is_in_flight id kept ≡ (keeps id && is_in_flight id m))
        × (keeps id ≡ true → find_job id kept ≡ find_job id m)
  unfolding cancel_where is_in_flight find_job
  cancel_where-keeps keeps [] trace = (ground arith, λ k. refl)
  cancel_where-keeps keeps ((k, job) ∷ m) trace =
      let (flying, found) = cancel_where-keeps keeps m trace in
      elim (Bool-cases (int_eq k id)) [
        | inl same ↦
            let here : keeps k ≡ keeps id = ap keeps (int_eq→≡ k id same) in
            elim (Bool-cases (keeps id)) [
              | inl kept ↦ rw (here, kept, same) (refl, λ h. refl)
              | inr missing ↦ rw (here, missing) (rw (flying, missing) refl, λ h. cc)
            ]
        | inr other ↦ elim (Bool-cases (keeps k)) [
          | inl kept ↦ rw (kept, other) (flying, found)
          | inr missing ↦ rw (missing, other) (flying, found)
        ]
      ]

-- After a reconciliation, exactly the requests are in flight that are listed with a positive number, and
-- were in flight before or are supported: K-lines of a configured exchange, with a range. A job that was
-- in flight is kept if its request is listed.
pub reconcile_once-Listed :
    (reqs : List HistoricalRequest) (r : HistoricalRuntime) (id : ℤ)
    → let r' = (reconcile_once (ok reqs) r).0 in
      (is_in_flight id r'.in_flight
        ≡ (is_seen id reqs && (is_in_flight id r.in_flight || is_wanted r.databases id reqs)))
      × ((j : ℕ)
          → is_seen id reqs ≡ true
          → find_job id r.in_flight ≡ some j
          → find_job id r'.in_flight ≡ some j)
unfolding reconcile_once cancel_missing
reconcile_once-Listed reqs r id =
    let added = reconcile_requests-Adds id reqs r in
    let r' = reconcile_requests reqs r in
    let (flying, found) = cancel_where-keeps id (λ i. is_seen i reqs) r'.in_flight r'.trace in
    (
      flying ∙ ap (λ b. is_seen id reqs && b) added.in_flight,
      λ j seen e. found seen ∙ added.job j e,
    )
