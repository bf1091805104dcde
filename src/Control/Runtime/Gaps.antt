-- ===== src/Control/Runtime/Gaps.antt =====
-- What a stream shows that is given up, or not listed, and then wanted again.
use scraper.Base.{ℕ, ◌+◌, ◌<◌, ◌≡◌, refl, true, false, List, [], ◌∷◌, arith, some, All, lt→ltb}
use scraper.Base.Int.{ℤ}
use scraper.Time.{Time, zero_time}
use scraper.Control.Stream.{Stream, running, draining, should_run}
use scraper.Control.Handle.{ManagedStream, Runtime, Factory, lookup}
use scraper.Control.Reconcile.{
  reconcile_stream, keep_running, wind_down, kept_handle, draining_handle,
}
use scraper.Control.Runtime.Cases.{lookup-put}
use scraper.Control.Runtime.Drain.{reconcile_each}

-- The handle holds the collector and shows that it drains.
record ShowsDrain (id : ℤ) (c : ℕ) (r : Runtime) : Type 0 where
  handle : ManagedStream
  found : lookup id r.managed ≡ some handle
  busy : handle.collector ≡ some c
  shown : handle.state ≡ draining

-- The same, with the drain called off.
pub record Resumed (id : ℤ) (c : ℕ) (r : Runtime) : Type 0 where
  pub handle : ManagedStream
  pub found : lookup id r.managed ≡ some handle
  pub busy : handle.collector ≡ some c
  pub shown : handle.state ≡ draining
  pub called_off : handle.drain_deadline ≡ zero_time

-- The step of a stream that is wanted.
abbrev pub Wants : ℤ → Time × Stream → Type 0
Wants id (now, stream) = (stream.stream_id ≡ id) × (should_run stream ≡ true)

give_up-ShowsDrain :
    (c : ℕ) (now : Time) (stream : Stream) (factory : Factory) (r : Runtime) (h : ManagedStream)
    → lookup stream.stream_id r.managed ≡ some h
    → h.collector ≡ some c
    → h.drain_deadline ≡ zero_time
    → should_run stream ≡ false
    → 0 < r.draining_grace_period
    → ShowsDrain stream.stream_id c (reconcile_stream now stream factory r)
unfolding reconcile_stream wind_down
give_up-ShowsDrain c now stream factory r h found busy fresh unwanted grace =
    let h' = draining_handle (record h { stream = stream }) (now + r.draining_grace_period) in
    record {
      handle = h';
      found = ground (
        arith,
        lookup-put stream.stream_id h' r.managed,
        lt→ltb now (now + r.draining_grace_period) (omega arith),
      );
      busy = busy;
      shown = refl;
    }

want-Resumed :
    (id : ℤ) (c : ℕ) (now : Time) (stream : Stream) (factory : Factory) (r : Runtime)
    → Wants id (now, stream)
    → ShowsDrain id c r
    → Resumed id c (reconcile_stream now stream factory r)
unfolding reconcile_stream keep_running
want-Resumed id c now stream factory r w d =
    let h' = kept_handle (record d.handle { stream = stream; drain_deadline = zero_time }) in
    record {
      handle = h';
      found = ground (arith, w, d, lookup-put stream.stream_id h' r.managed);
      busy = d.busy;
      shown = rw d.shown refl;
      called_off = refl;
    }

Resumed-ShowsDrain : (id : ℤ) (c : ℕ) (r : Runtime) → Resumed id c r → ShowsDrain id c r
Resumed-ShowsDrain id c r d = record {
  handle = d.handle;
  found = d.found;
  busy = d.busy;
  shown = d.shown;
}

steps-Resumed :
    (id : ℤ) (c : ℕ) (factory : Factory) (steps : List (Time × Stream)) (r : Runtime)
    → All (Wants id) steps
    → Resumed id c r
    → Resumed id c (reconcile_each factory steps r)
unfolding reconcile_each
steps-Resumed id c factory [] r w d = d
steps-Resumed id c factory ((now, stream) ∷ steps) r w d =
    steps-Resumed id c factory steps (reconcile_stream now stream factory r) w.1
      (want-Resumed id c now stream factory r w.0 (Resumed-ShowsDrain id c r d))

-- A collector whose stream is given up, with a positive grace period, and wanted again by the steps that
-- follow, one or more, is kept, and its drain is called off; but as long as it stores nothing and does
-- not end, its handle goes on to show that it drains.
pub reconcile_each-Resumed :
    (c : ℕ) (start now : Time) (stream again : Stream) (steps : List (Time × Stream))
    (factory : Factory) (r : Runtime) (h : ManagedStream)
    → lookup stream.stream_id r.managed ≡ some h
    → h.collector ≡ some c
    → h.drain_deadline ≡ zero_time
    → should_run stream ≡ false
    → 0 < r.draining_grace_period
    → All (Wants stream.stream_id) ((now, again) ∷ steps)
    → Resumed stream.stream_id c
        (reconcile_each factory ((start, stream) ∷ ((now, again) ∷ steps)) r)
unfolding reconcile_each
reconcile_each-Resumed c start now stream again steps factory r h found busy fresh unwanted grace
      w =
    let id = stream.stream_id in
    let given_up = give_up-ShowsDrain c start stream factory r h found busy fresh unwanted grace in
    steps-Resumed id c factory steps _ w.1 (want-Resumed id c now again factory _ w.0 given_up)

-- The handle holds the collector, and shows that it runs and has stored at a time.
pub record ShowsStored (id : ℤ) (c : ℕ) (at : Time) (r : Runtime) : Type 0 where
  pub handle : ManagedStream
  pub found : lookup id r.managed ≡ some handle
  pub busy : handle.collector ≡ some c
  pub shown : handle.state ≡ running
  pub stored_at : handle.last_data_at ≡ some at
