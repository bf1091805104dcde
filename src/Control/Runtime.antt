-- ===== src/Control/Runtime.antt =====
-- internal/controlplane/runtime.go: the other methods of `Runtime`, and the events that change its
-- state. The mutex is free between two streams of a reconciliation, so the events are the steps of one
-- stream, and any other event may come between them.
pub mod Conserve
pub mod History
pub mod Cases
pub mod Lifecycle
pub mod Drain
pub mod Lookups
pub mod Served
pub mod Gaps
use scraper.Base.{
  ℕ, ◌+◌, Bool, true, false, not, ◌&&◌, ◌||◌, List, [], ◌∷◌, ◌++◌, Option, none, some, ok, err,
  Result, ltb, ◌==◌, if◌then◌else◌,
}
use scraper.Base.Int.{ℤ, pos, negsuc}
use scraper.Text.{Text, codes, text_eq, to_lower, trim_space}
use scraper.Time.{Time, Duration, zero_time}
use scraper.Control.Stream.{
  Stream, StreamStateReport, ActualState, unset, starting, running, draining, stopped, error,
  int_eq, is_positive, normalize_stream, should_run,
}
use scraper.Control.Handle.{
  ManagedStream, Effect, report, start, cancels, stops, close_client, exited, Runtime, Factory,
  lookup, put, new_handle, with_stream, snapshot_report, report_of, commit, set_gate, set_enabled,
  live_warning, live_enabled, kept_state, unavailable,
}
use scraper.Control.Reconcile.{reconcile_stream, cancel_call, stop_call}

-- `_, ok := seen[streamID]`
unfoldable pub is_seen : ℤ → List ℤ → Bool
is_seen id [] = false
is_seen id (j ∷ seen) = int_eq j id || is_seen id seen

-- The stops that `stopMissingStreams` and `shutdown` collect: a cancellation and a stop for each
-- handle, of those that it has. The map's order is the list's.
abbrev pub stop_calls : ManagedStream → List Effect
stop_calls h = cancel_call h.cancel ++ stop_call h.collector

unfoldable pub missing_stops : List ℤ → List (ℤ × ManagedStream) → List Effect
missing_stops seen [] = []
missing_stops seen ((id, h) ∷ m) =
    let rest = missing_stops seen m in if is_seen id seen then rest else stop_calls h ++ rest

unfoldable pub seen_streams : List ℤ → List (ℤ × ManagedStream) → List (ℤ × ManagedStream)
seen_streams seen [] = []
seen_streams seen ((id, h) ∷ m) =
    let rest = seen_streams seen m in if is_seen id seen then (id, h) ∷ rest else rest

unfoldable pub stop_missing_streams : List ℤ → Runtime → Runtime
unfolding missing_stops seen_streams
stop_missing_streams seen r = record r {
  managed = seen_streams seen r.managed;
  trace = r.trace ++ missing_stops seen r.managed;
}

-- `runCollector`, after the collector's run: nothing, if its context is done, or if the handle is gone,
-- is of another version or has no collector.
abbrev pub exited_handle : ManagedStream → ManagedStream
exited_handle h = record h {
  collector = none;
  cancel = none;
  publisher = none;
  state = error;
  last_error = codes "collector exited unexpectedly";
}

abbrev pub after_exit : ℤ → ℕ → Option ManagedStream → Runtime → Runtime
after_exit id version none r = r
after_exit id version (some h) r = elim h.collector [
  | none ↦ r
  | some c ↦
      if h.version == version
      then commit r id (exited_handle h)
          (exited c ∷ report_of (snapshot_report (exited_handle h) (exited_handle h).last_error))
      else r
]

unfoldable pub collector_exited : ℤ → ℕ → Bool → Runtime → Runtime
collector_exited id version ctx_done r =
    if ctx_done then r else after_exit id version (lookup id r.managed) r

-- `recordStored`, which an observer calls with its stream and version.
abbrev pub stored_handle : Runtime → ManagedStream → Time → ManagedStream
stored_handle r h at = record h {
  last_data_at = some at;
  state = running;
  last_error = live_warning r h.stream;
}

abbrev pub after_stored : ℤ → ℕ → Time → Option ManagedStream → Runtime → Runtime
after_stored id version at none r = r
after_stored id version at (some h) r =
    if h.version == version
    then commit r id (stored_handle r h at)
        (report_of (snapshot_report (stored_handle r h at) (live_warning r h.stream)))
    else r

unfoldable pub record_stored : ℤ → ℕ → Time → Runtime → Runtime
record_stored id version at r = after_stored id version at (lookup id r.managed) r

-- `shutdown`: once, all collectors are cancelled and stopped, and the client is closed.
unfoldable pub all_stops : List (ℤ × ManagedStream) → List Effect
all_stops [] = []
all_stops ((id, h) ∷ m) = stop_calls h ++ all_stops m

abbrev pub shut_once : Bool → Runtime → Runtime
shut_once true r = r
shut_once false r = record r {
  managed = [];
  is_shut = true;
  trace = r.trace ++ (all_stops r.managed ++ (close_client ∷ []));
}

unfoldable pub shutdown : Runtime → Runtime
unfolding all_stops
shutdown r = shut_once r.is_shut r

-- `r.factories[exchange]`
unfoldable pub factory_for : Text → List (Text × Factory) → Option Factory
factory_for exchange [] = none
factory_for exchange ((e, f) ∷ factories) =
    if text_eq e exchange then some f else factory_for exchange factories

-- A round of the loop of `ReconcileOnce`, with the streams seen so far.
abbrev pub reconcile_known : Time → Stream → Option Factory → List ℤ × Runtime → List ℤ × Runtime
reconcile_known now stream none (seen, r) = (seen, r)
reconcile_known now stream (some f) (seen, r) =
    (stream.stream_id ∷ seen, reconcile_stream now stream f r)

unfoldable pub reconcile_raw :
    Time → List (Text × Factory) → Stream → List ℤ × Runtime → List ℤ × Runtime
reconcile_raw now factories raw sr =
    let stream = normalize_stream raw in
    if not (is_positive stream.stream_id) || not (text_eq stream.key.kind (codes "kline"))
    then sr
    else reconcile_known now stream (factory_for stream.key.exchange factories) sr

unfoldable pub reconcile_streams :
    Time → List (Text × Factory) → List Stream → List ℤ × Runtime → List ℤ × Runtime
reconcile_streams now factories [] sr = sr
reconcile_streams now factories (raw ∷ streams) sr =
    reconcile_streams now factories streams (reconcile_raw now factories raw sr)

-- `ReconcileOnce`, with the client's list of streams or its error.
unfoldable pub reconcile_once :
    Time → List (Text × Factory) → Result Text (List Stream) → Runtime → Result Text Runtime
reconcile_once now factories (err e) r = err e
reconcile_once now factories (ok streams) r =
    let (seen, r') = reconcile_streams now factories streams ([], r) in
    ok (stop_missing_streams seen r')

-- What happens to a runtime: the step of a reconciliation for one stream, its last step, a collector
-- that ends, a K-line that an observer stores, and the shutdown.
pub data Event : Type 0 where
  reconciles : Time → Stream → Factory → Event
  stops_missing : List ℤ → Event
  exits : ℤ → ℕ → Bool → Event
  stores : ℤ → ℕ → Time → Event
  shuts_down : Event

unfoldable pub step : Runtime → Event → Runtime
step r (reconciles now stream factory) = reconcile_stream now stream factory r
step r (stops_missing seen) = stop_missing_streams seen r
step r (exits id version ctx_done) = collector_exited id version ctx_done r
step r (stores id version at) = record_stored id version at r
step r shuts_down = shutdown r

unfoldable pub run : Runtime → List Event → Runtime
run r [] = r
run r (e ∷ es) = run (step r e) es

-- `NewRuntime`: no stream, and the defaults of the configuration.
abbrev pub or_seconds : Duration → ℕ → ℕ
or_seconds (pos n) d = if n == 0 then d else n
or_seconds (negsuc n) d = d

unfoldable pub new_runtime : Bool → Duration → Runtime
new_runtime has_publisher grace = record {
  has_publisher = has_publisher;
  draining_grace_period = or_seconds grace 60_000_000_000;
  managed = [];
  gates = [];
  next_collector = 0;
  is_shut = false;
  trace = [];
}

-- The normalised keys of the factories; an empty key and a nil factory are left out.
unfoldable pub new_factories : List (Text × Option Factory) → List (Text × Factory)
new_factories [] = []
new_factories ((exchange, none) ∷ fs) = new_factories fs
new_factories ((exchange, some f) ∷ fs) =
    let rest = new_factories fs in
    let key = to_lower (trim_space exchange) in if text_eq key [] then rest else (key, f) ∷ rest
