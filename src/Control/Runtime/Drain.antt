-- ===== src/Control/Runtime/Drain.antt =====
-- The grace period: a collector that is no longer wanted is kept until the deadline, and stopped by the
-- first step at or after it.
use scraper.Base.{
  ℕ, ◌+◌, ◌<◌, ◌≤◌, ◌≡◌, refl, ◌≢◌, false, List, [], ◌∷◌, ◌++◌, arith, none, some, All, lt→ltb,
  le→not-ltb,
}
use scraper.Base.Int.{ℤ}
use scraper.Time.{Time, zero_time}
use scraper.Control.Stream.{Stream, stopped, should_run}
use scraper.Control.Handle.{
  ManagedStream, Effect, stops, report_of, snapshot_report, Runtime, Factory, lookup,
}
use scraper.Control.Reconcile.{
  reconcile_stream, wind_down, draining_handle, ended_handle, cancel_call,
}
use scraper.Control.Runtime.Cases.{lookup-put}

-- The steps for a stream, at their times.
unfoldable pub reconcile_each : Factory → List (Time × Stream) → Runtime → Runtime
reconcile_each factory [] r = r
reconcile_each factory ((now, stream) ∷ steps) r =
    reconcile_each factory steps (reconcile_stream now stream factory r)

-- The stream's handle holds the collector, and drains until the deadline.
pub record Draining (id : ℤ) (c : ℕ) (deadline : Time) (r : Runtime) : Type 0 where
  pub handle : ManagedStream
  pub found : lookup id r.managed ≡ some handle
  pub busy : handle.collector ≡ some c
  pub until : handle.drain_deadline ≡ deadline
  pub set : deadline ≢ zero_time

-- The step of a stream that is not wanted, before a deadline.
abbrev pub WaitsFor : ℤ → Time → Time × Stream → Type 0
WaitsFor id deadline (now, stream) =
    (stream.stream_id ≡ id) × (should_run stream ≡ false) × (now < deadline)

wait-Draining :
    (id : ℤ) (c : ℕ) (deadline now : Time) (stream : Stream) (factory : Factory) (r : Runtime)
    → WaitsFor id deadline (now, stream)
    → Draining id c deadline r
    → Draining id c deadline (reconcile_stream now stream factory r)
unfolding reconcile_stream wind_down
wait-Draining id c deadline now stream factory r w d =
    let h' = draining_handle (record d.handle { stream = stream }) deadline in
    record {
      handle = h';
      found = ground (arith, w, d, lookup-put stream.stream_id h' r.managed, lt→ltb now deadline);
      busy = d.busy;
      until = refl;
      set = d.set;
    }

waits-Draining :
    (id : ℤ) (c : ℕ) (deadline : Time) (factory : Factory) (steps : List (Time × Stream))
    (r : Runtime)
    → All (WaitsFor id deadline) steps
    → Draining id c deadline r
    → Draining id c deadline (reconcile_each factory steps r)
unfolding reconcile_each
waits-Draining id c deadline factory [] r w d = d
waits-Draining id c deadline factory ((now, stream) ∷ steps) r w d =
    waits-Draining id c deadline factory steps (reconcile_stream now stream factory r) w.1
      (wait-Draining id c deadline now stream factory r w.0 d)

-- The collector is gone from the handle, and the step has called its stop.
pub record Stopped (id : ℤ) (c : ℕ) (earlier : List Effect) (r : Runtime) : Type 0 where
  pub handle : ManagedStream
  pub calls : List Effect
  pub rest : List Effect
  pub found : lookup id r.managed ≡ some handle
  pub idle : handle.collector ≡ none
  pub shown : handle.state ≡ stopped
  pub stop_called : r.trace ≡ earlier ++ (calls ++ (stops c ∷ rest))

end-Stopped :
    (id : ℤ) (c : ℕ) (deadline now : Time) (stream : Stream) (factory : Factory) (r : Runtime)
    → stream.stream_id ≡ id
    → should_run stream ≡ false
    → deadline ≤ now
    → Draining id c deadline r
    → Stopped id c r.trace (reconcile_stream now stream factory r)
unfolding reconcile_stream wind_down
end-Stopped id c deadline now stream factory r same unwanted past d =
    let h' = ended_handle (record d.handle { stream = stream }) in
    record {
      handle = h';
      calls = cancel_call d.handle.cancel;
      rest = report_of (snapshot_report h' []);
      found =
          ground (arith, d, lookup-put stream.stream_id h' r.managed, le→not-ltb now deadline past);
      idle = refl;
      shown = refl;
      stop_called = ground (arith, d, le→not-ltb now deadline past);
    }

start-Draining :
    (c : ℕ) (now : Time) (stream : Stream) (factory : Factory) (r : Runtime) (h : ManagedStream)
    → lookup stream.stream_id r.managed ≡ some h
    → h.collector ≡ some c
    → h.drain_deadline ≡ zero_time
    → should_run stream ≡ false
    → 0 < r.draining_grace_period
    → Draining stream.stream_id c
        (now + r.draining_grace_period)
        (reconcile_stream now stream factory r)
unfolding reconcile_stream wind_down
start-Draining c now stream factory r h found busy fresh unwanted grace =
    let h' = draining_handle (record h { stream = stream }) (now + r.draining_grace_period) in
    record {
      handle = h';
      found = ground (
        arith,
        lookup-put stream.stream_id h' r.managed,
        lt→ltb now (now + r.draining_grace_period) (omega arith),
      );
      busy = busy;
      until = refl;
      set = λ z. omega arith;
    }

-- A running collector whose stream stops being wanted at `start`, with a positive grace period: as long
-- as no step asks for it, all steps before `start` + grace keep it, and the next step, at or after
-- that time, stops it and leaves a stopped handle.
pub grace_period :
    (c : ℕ) (start last : Time) (stream again : Stream) (steps : List (Time × Stream))
    (factory : Factory) (r : Runtime) (h : ManagedStream)
    → lookup stream.stream_id r.managed ≡ some h
    → h.collector ≡ some c
    → h.drain_deadline ≡ zero_time
    → should_run stream ≡ false
    → 0 < r.draining_grace_period
    → All (WaitsFor stream.stream_id (start + r.draining_grace_period)) steps
    → again.stream_id ≡ stream.stream_id
    → should_run again ≡ false
    → start + r.draining_grace_period ≤ last
    → let r' = reconcile_each factory ((start, stream) ∷ steps) r in
      Draining stream.stream_id c (start + r.draining_grace_period) r'
      × Stopped stream.stream_id c r'.trace (reconcile_stream last again factory r')
unfolding reconcile_each
grace_period c start last stream again steps factory r h found busy fresh unwanted grace waits same
      off past =
    let id = stream.stream_id in
    let deadline = start + r.draining_grace_period in
    let begun = start-Draining c start stream factory r h found busy fresh unwanted grace in
    let kept = waits-Draining id c deadline factory steps _ waits begun in
    (kept, end-Stopped id c deadline last again factory _ same off past kept)
