-- ===== src/Control/Tracking.antt =====
-- internal/controlplane/history_runtime.go: `HistoricalRuntime`. A job is a goroutine of
-- `runRequest` with its cancel function, known by the number of the jobs before it. The
-- configuration of a database is the template of its name, which is all that is read of it here.
pub mod Accounts
pub mod Listed
pub mod Relaunch
use scraper.Base.{
  ℕ, ◌+◌, Bool, true, false, not, ◌&&◌, ◌||◌, List, [], ◌∷◌, Option, none, some, ok, err, Result,
  if◌then◌else◌,
}
use scraper.Base.Int.{ℤ}
use scraper.Text.{Text, codes, text_eq, is_empty, to_lower, trim_space}
use scraper.Time.{Time}
use scraper.Control.Stream.{int_eq, is_positive}
use scraper.Control.History.{
  HistoricalRequest, HistoricalRequestStateReport, HistoryError, unsupported_kind, missing_range,
  unknown_exchange, uncovered_report,
}

-- The reports of the runtime, its goroutines and its calls of cancel functions.
pub data HistoryCall : Type 0 where
  reported : HistoricalRequestStateReport → HistoryCall
  launched : ℕ → HistoricalRequest → HistoryCall
  cancelled : ℕ → HistoryCall

-- The newest call comes first in the trace.
pub record HistoricalRuntime : Type 0 where
  pub databases : List (Text × Text)
  pub in_flight : List (ℤ × ℕ)
  pub jobs : ℕ
  pub trace : List HistoryCall

-- dbs[exchange] = db
unfoldable pub put_database : Text → Text → List (Text × Text) → List (Text × Text)
put_database exchange db [] = (exchange, db) ∷ []
put_database exchange db ((e, d) ∷ dbs) =
    let rest = put_database exchange db dbs in
    if text_eq e exchange then (exchange, db) ∷ dbs else (e, d) ∷ rest

unfoldable pub find_database : Text → List (Text × Text) → Option Text
find_database exchange [] = none
find_database exchange ((e, d) ∷ dbs) =
    let rest = find_database exchange dbs in if text_eq e exchange then some d else rest

unfoldable pub normalized_databases : List (Text × Text) → List (Text × Text) → List (Text × Text)
unfolding put_database
normalized_databases [] dbs = dbs
normalized_databases ((exchange, db) ∷ rest) dbs =
    let normalized = to_lower (trim_space exchange) in
    normalized_databases rest (if is_empty normalized then dbs else put_database normalized db dbs)

-- `NewHistoricalRuntime`, for the configured databases in the order in which the map gives them.
unfoldable pub new_historical_runtime : List (Text × Text) → HistoricalRuntime
unfolding normalized_databases
new_historical_runtime databases = record {
  databases = normalized_databases databases [];
  in_flight = [];
  jobs = 0;
  trace = [];
}

-- `isInFlight`
unfoldable pub is_in_flight : ℤ → List (ℤ × ℕ) → Bool
is_in_flight id [] = false
is_in_flight id ((k, job) ∷ m) = int_eq k id || is_in_flight id m

-- `untrack`
unfoldable pub untrack : ℤ → List (ℤ × ℕ) → List (ℤ × ℕ)
untrack id [] = []
untrack id ((k, job) ∷ m) = let rest = untrack id m in if int_eq k id then rest else (k, job) ∷ rest

abbrev pub report_error : ℤ → HistoryError → HistoricalRuntime → HistoricalRuntime
report_error id e r = record r { trace = reported (uncovered_report id e) ∷ r.trace }

-- `track`, of a request that is not in flight, and the goroutine.
abbrev pub launch : HistoricalRequest → HistoricalRuntime → HistoricalRuntime
launch req r = record r {
  in_flight = (req.request_id, r.jobs) ∷ r.in_flight;
  jobs = r.jobs + 1;
  trace = launched r.jobs req ∷ r.trace;
}

abbrev pub with_database : HistoricalRequest → Option Text → HistoricalRuntime → HistoricalRuntime
with_database req none r = report_error req.request_id (unknown_exchange req.key.exchange) r
with_database req (some db) r = if is_in_flight req.request_id r.in_flight then r else launch req r

abbrev pub with_range :
    HistoricalRequest → Option Time → Option Time → HistoricalRuntime → HistoricalRuntime
with_range req none stop r = report_error req.request_id missing_range r
with_range req (some start) none r = report_error req.request_id missing_range r
with_range req (some start) (some stop) r =
    with_database req (find_database req.key.exchange r.databases) r

-- A round of the loop over the listed requests.
unfoldable pub reconcile_request : HistoricalRequest → HistoricalRuntime → HistoricalRuntime
unfolding find_database is_in_flight
reconcile_request req r =
    if not (is_positive req.request_id)
    then r
    else if not (text_eq req.key.kind (codes "kline"))
    then report_error req.request_id (unsupported_kind req.key.kind) r
    else with_range req req.requested_start_at req.requested_end_at r

unfoldable pub reconcile_requests : List HistoricalRequest → HistoricalRuntime → HistoricalRuntime
unfolding reconcile_request
reconcile_requests [] r = r
reconcile_requests (req ∷ reqs) r = reconcile_requests reqs (reconcile_request req r)

-- `seen[id]`
unfoldable pub is_seen : ℤ → List HistoricalRequest → Bool
is_seen id [] = false
is_seen id (req ∷ reqs) =
    (is_positive req.request_id && int_eq req.request_id id) || is_seen id reqs

-- What is kept of the jobs in flight, and the calls that cancel the others.
unfoldable pub cancel_where :
    (ℤ → Bool) → List (ℤ × ℕ) → List HistoryCall → List (ℤ × ℕ) × List HistoryCall
cancel_where keeps [] trace = ([], trace)
cancel_where keeps ((id, job) ∷ m) trace =
    let (kept, calls) = cancel_where keeps m trace in
    if keeps id then ((id, job) ∷ kept, calls) else (kept, cancelled job ∷ calls)

abbrev pub cancel_jobs : (ℤ → Bool) → HistoricalRuntime → HistoricalRuntime
cancel_jobs keeps r =
    let (kept, calls) = cancel_where keeps r.in_flight r.trace in
    record r { in_flight = kept; trace = calls }

-- `cancelMissing`
unfoldable pub cancel_missing : List HistoricalRequest → HistoricalRuntime → HistoricalRuntime
unfolding cancel_where is_seen
cancel_missing reqs = cancel_jobs (λ id. is_seen id reqs)

-- `stopAll`
unfoldable pub stop_all : HistoricalRuntime → HistoricalRuntime
unfolding cancel_where
stop_all = cancel_jobs (λ id. false)

-- `ReconcileOnce`, with what the remote service lists.
unfoldable pub reconcile_once :
    Result Text (List HistoricalRequest) → HistoricalRuntime → HistoricalRuntime × Option Text
unfolding reconcile_requests cancel_missing
reconcile_once (err e) r = (r, some e)
reconcile_once (ok reqs) r = (cancel_missing reqs (reconcile_requests reqs r), none)

-- The steps at which the mutex is held, in any order: a round for a request, the end of a
-- reconciliation, the end of a job for a request, a stop.
pub data HistoryEvent : Type 0 where
  round : HistoricalRequest → HistoryEvent
  round_ends : List HistoricalRequest → HistoryEvent
  job_ended : ℤ → HistoryEvent
  stopped : HistoryEvent

unfoldable pub perform : HistoryEvent → HistoricalRuntime → HistoricalRuntime
unfolding reconcile_request cancel_missing untrack stop_all
perform (round req) r = reconcile_request req r
perform (round_ends reqs) r = cancel_missing reqs r
perform (job_ended id) r = record r { in_flight = untrack id r.in_flight }
perform stopped r = stop_all r

unfoldable pub perform_all : List HistoryEvent → HistoricalRuntime → HistoricalRuntime
unfolding perform
perform_all [] r = r
perform_all (e ∷ es) r = perform_all es (perform e r)
