-- ===== src/Control/Reconcile.antt =====
-- internal/controlplane/runtime.go: `reconcileStream`, which brings a stream's collector to the state
-- that the control plane wants.
use scraper.Base.{ℕ, ◌+◌, List, [], ◌∷◌, ◌++◌, Option, none, some, ltb, ◌==◌, if◌then◌else◌}
use scraper.Text.{Text}
use scraper.Time.{Time, zero_time}
use scraper.Control.Stream.{Stream, starting, draining, stopped, error, should_run}
use scraper.Control.Handle.{
  ManagedStream, Effect, start, cancels, stops, Runtime, Factory, lookup, with_stream,
  snapshot_report, report_of, commit, set_gate, set_enabled, live_warning, live_enabled, kept_state,
}

-- `shouldRun`: a collector is kept, or made by the factory and started.
abbrev pub failed_handle : ManagedStream → Text → ManagedStream
failed_handle h e = record h {
  collector = none;
  cancel = none;
  publisher = none;
  state = error;
  last_error = e;
}

abbrev pub started_handle : ManagedStream → ℕ → Text → ManagedStream
started_handle h id warning = record h {
  version = h.version + 1;
  collector = some id;
  cancel = some id;
  publisher = some id;
  state = starting;
  last_error = warning;
}

abbrev pub launched : Stream → ManagedStream → Runtime → Option Text → Runtime
launched stream h r (some e) =
    commit (record r { next_collector = r.next_collector + 1 }) stream.stream_id (failed_handle h e)
      (report_of (snapshot_report (failed_handle h e) e))
launched stream h r none =
    let id = r.next_collector in
    let warning = live_warning r stream in
    commit
      (record r { next_collector = id + 1; gates = set_gate id (live_enabled r stream) r.gates })
      stream.stream_id (started_handle h id warning)
      (start id stream.stream_id (h.version + 1)
        ∷ report_of (snapshot_report (started_handle h id warning) warning))

abbrev pub kept_handle : ManagedStream → ManagedStream
kept_handle h = record h { state = kept_state h.state h.last_data_at }

unfoldable pub keep_running : Stream → Factory → ManagedStream → Option ℕ → Runtime → Runtime
keep_running stream factory h (some c) r =
    commit r stream.stream_id (kept_handle h)
      (report_of (snapshot_report (kept_handle h) (live_warning r stream)))
keep_running stream factory h none r = launched stream h r (factory r.next_collector stream)

abbrev pub cancel_call : Option ℕ → List Effect
cancel_call none = []
cancel_call (some c) = cancels c ∷ []

abbrev pub stop_call : Option ℕ → List Effect
stop_call none = []
stop_call (some c) = stops c ∷ []

-- Not `shouldRun`: a collector drains until the deadline, and then is stopped. The deadline of a drain
-- that starts now, or that goes on.
abbrev pub deadline_from : Time → ℕ → Time → Time
deadline_from now grace deadline = if deadline == zero_time then now + grace else deadline

abbrev pub stopped_handle : ManagedStream → ManagedStream
stopped_handle h = record h { state = stopped; last_error = []; drain_deadline = zero_time }

abbrev pub draining_handle : ManagedStream → Time → ManagedStream
draining_handle h deadline = record h {
  drain_deadline = deadline;
  state = draining;
  last_error = [];
}

abbrev pub ended_handle : ManagedStream → ManagedStream
ended_handle h = record h {
  version = h.version + 1;
  collector = none;
  cancel = none;
  publisher = none;
  state = stopped;
  last_error = [];
  drain_deadline = zero_time;
}

unfoldable pub wind_down : Time → Stream → ManagedStream → Option ℕ → Runtime → Runtime
wind_down now stream h none r =
    commit r stream.stream_id (stopped_handle h) (report_of (snapshot_report (stopped_handle h) []))
wind_down now stream h (some c) r =
    let deadline = deadline_from now r.draining_grace_period h.drain_deadline in
    if ltb now deadline
    then commit r stream.stream_id (draining_handle h deadline)
        (report_of (snapshot_report (draining_handle h deadline) []))
    else commit r stream.stream_id (ended_handle h)
        (cancel_call h.cancel ++ (stops c ∷ report_of (snapshot_report (ended_handle h) [])))

unfoldable pub reconcile_stream : Time → Stream → Factory → Runtime → Runtime
unfolding keep_running wind_down
reconcile_stream now stream factory r =
    let h = with_stream stream (lookup stream.stream_id r.managed) in
    let r' = record r { gates = set_enabled h.publisher (live_enabled r stream) r.gates } in
    if should_run stream
    then keep_running stream factory (record h { drain_deadline = zero_time }) h.collector r'
    else wind_down now stream h h.collector r'
