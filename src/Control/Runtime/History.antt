-- ===== src/Control/Runtime/History.antt =====
-- The account of the collectors holds after any events.
use scraper.Base.{
  ℕ, ◌+◌, ◌≤◌, ◌≡◌, refl, inl, inr, Bool, true, false, List, [], ◌∷◌, ◌++◌, arith, Option, none,
  some, ◌==◌, Bool-cases, Option-cases,
}
use scraper.Base.Int.{ℤ}
use scraper.Time.{Time, Duration, zero_time}
use scraper.Control.Stream.{Stream, should_run}
use scraper.Control.Handle.{
  ManagedStream, Effect, report_of, exited, close_client, Runtime, Factory, lookup, snapshot_report,
  with_stream, set_enabled, live_enabled, live_warning,
}
use scraper.Control.Reconcile.{reconcile_stream, cancel_call, stop_call}
use scraper.Control.Runtime.{
  Event, reconciles, stops_missing, exits, stores, shuts_down, stop_missing_streams, missing_stops,
  seen_streams, is_seen, stop_calls, collector_exited, after_exit, record_stored, after_stored,
  all_stops, shut_once, shutdown, stored_handle, exited_handle, step, run, new_runtime,
}
use scraper.Control.Runtime.Conserve.{
  Inv, Calls, commit-Inv, report-Calls, keep-Inv, keep_running-Inv, wind_down-Inv,
}
use scraper.Control.Runtime.Conserve.Counts.{
  tally, one_if, is_start, is_stop, is_exit, held_by, held, found, tally-append,
}

module _ (c : ℕ) where
  with_stream-found :
      (stream : Stream) (o : Option ManagedStream)
      → found c o ≡ held_by c (with_stream stream o).collector
  with_stream-found stream none = refl
  with_stream-found stream (some h) = refl

  reconcile_stream-Inv :
      {r : Runtime} (now : Time) (stream : Stream) (factory : Factory)
      → Inv c r
      → Inv c (reconcile_stream now stream factory r)
  unfolding reconcile_stream
  reconcile_stream-Inv {r} now stream factory v =
      let o = lookup stream.stream_id r.managed in
      let h = with_stream stream o in
      let gates = set_enabled h.publisher (live_enabled r stream) r.gates in
      let same = with_stream-found stream o in
      elim (Bool-cases (should_run stream)) [
        | inl runs ↦
            rw (runs, reconcile_stream)
              (keep_running-Inv c gates stream factory (record h { drain_deadline = zero_time })
                same v)
        | inr ends ↦ rw (ends, reconcile_stream) (wind_down-Inv c gates now stream h same v)
      ]

  stop-Calls-Calls :
      (cancel collector : Option ℕ)
      → Calls c (cancel_call cancel ++ stop_call collector) 0 (held_by c collector) 0
  unfolding tally
  stop-Calls-Calls none none = (refl, refl, refl)
  stop-Calls-Calls none (some k) = (omega arith, omega arith, omega arith)
  stop-Calls-Calls (some j) none = (omega arith, omega arith, omega arith)
  stop-Calls-Calls (some j) (some k) = (omega arith, omega arith, omega arith)

  -- The handles that are dropped are those whose collectors are stopped.
  missing_stops-Calls :
      (seen : List ℤ) (m : List (ℤ × ManagedStream))
      → (tally (is_start c) (missing_stops seen m) ≡ 0)
        × (tally (is_stop c) (missing_stops seen m) + held c (seen_streams seen m) ≡ held c m)
        × (tally (is_exit c) (missing_stops seen m) ≡ 0)
  unfolding missing_stops seen_streams held tally
  missing_stops-Calls seen [] = (refl, omega arith, refl)
  missing_stops-Calls seen ((id, h) ∷ m) =
      let one = stop-Calls-Calls h.cancel h.collector in
      let rest = missing_stops-Calls seen m in
      let es = missing_stops seen m in
      elim (Bool-cases (is_seen id seen)) [
        | inl kept ↦ rw (kept, missing_stops) (rest.0, omega (arith, rest.1), rest.2)
        | inr gone ↦
            rw (gone, missing_stops)
              (
                omega (arith, tally-append (is_start c) (stop_calls h) es, one.0, rest.0),
                omega (arith, tally-append (is_stop c) (stop_calls h) es, one.1, rest.1),
                omega (arith, tally-append (is_exit c) (stop_calls h) es, one.2, rest.2),
              )
      ]

  all_stops-Calls : (m : List (ℤ × ManagedStream)) → Calls c (all_stops m) 0 (held c m) 0
  unfolding all_stops held tally
  all_stops-Calls [] = (refl, refl, refl)
  all_stops-Calls ((id, h) ∷ m) =
      let one = stop-Calls-Calls h.cancel h.collector in
      let rest = all_stops-Calls m in
      (
        omega (arith, tally-append (is_start c) (stop_calls h) (all_stops m), one.0, rest.0),
        omega (arith, tally-append (is_stop c) (stop_calls h) (all_stops m), one.1, rest.1),
        omega (arith, tally-append (is_exit c) (stop_calls h) (all_stops m), one.2, rest.2),
      )

  -- Handles leave the map, and their collectors are stopped.
  dropped-Inv :
      {r : Runtime} (m : List (ℤ × ManagedStream)) (shut : Bool) (es : List Effect)
      → tally (is_start c) es ≡ 0
      → tally (is_stop c) es + held c m ≡ held c r.managed
      → tally (is_exit c) es ≡ 0
      → Inv c r
      → Inv c (record r { managed = m; is_shut = shut; trace = r.trace ++ es })
  dropped-Inv {r} m shut es starts stopped exits_ v = record {
    balance = omega (
      arith,
      tally-append (is_start c) r.trace es,
      tally-append (is_stop c) r.trace es,
      tally-append (is_exit c) r.trace es,
      v.balance,
    );
    fresh = λ above. omega (arith, tally-append (is_start c) r.trace es, v.fresh above);
    once = omega (arith, tally-append (is_start c) r.trace es, v.once);
  }

  stop_missing_streams-Inv :
      {r : Runtime} (seen : List ℤ) → Inv c r → Inv c (stop_missing_streams seen r)
  unfolding stop_missing_streams
  stop_missing_streams-Inv {r} seen v =
      let calls = missing_stops-Calls seen r.managed in
      dropped-Inv (seen_streams seen r.managed) r.is_shut (missing_stops seen r.managed) calls.0
        calls.1 calls.2 v

  shut_once-Inv : {r : Runtime} (shut : Bool) → Inv c r → Inv c (shut_once shut r)
  unfolding held tally
  shut_once-Inv true v = v
  shut_once-Inv {r} false v =
      let calls = all_stops-Calls r.managed in
      dropped-Inv [] true (all_stops r.managed ++ (close_client ∷ []))
        (omega (arith, tally-append (is_start c) (all_stops r.managed), calls.0))
        (omega (arith, tally-append (is_stop c) (all_stops r.managed), calls.1))
        (omega (arith, tally-append (is_exit c) (all_stops r.managed), calls.2)) v

  shutdown-Inv : {r : Runtime} → Inv c r → Inv c (shutdown r)
  unfolding shutdown
  shutdown-Inv {r} v = shut_once-Inv r.is_shut v

  -- The handle that an exit or a stored row finds, by its stream's number.
  after_stored-Inv :
      {r : Runtime} (id : ℤ) (version : ℕ) (at : Time) (o : Option ManagedStream)
      → found c (lookup id r.managed) ≡ found c o
      → Inv c r
      → Inv c (after_stored id version at o r)
  after_stored-Inv id version at none e v = v
  after_stored-Inv {r} id version at (some h) e v = elim (Bool-cases (h.version == version)) [
    | inl same ↦
        rw (same, after_stored)
          (keep-Inv c r.gates id (stored_handle r h at) (live_warning r h.stream) e v)
    | inr stale ↦ rw (stale, after_stored) v
  ]

  after_exit-Inv :
      {r : Runtime} (id : ℤ) (version : ℕ) (o : Option ManagedStream)
      → found c (lookup id r.managed) ≡ found c o
      → Inv c r
      → Inv c (after_exit id version o r)
  unfolding tally
  after_exit-Inv id version none e v = v
  after_exit-Inv {r} id version (some h) e v = elim (Option-cases h.collector) [
    | inl idle ↦ rw (idle, after_exit) v
    | inr (k, busy) ↦
        let reported = report-Calls c (exited_handle h) (exited_handle h).last_error in
        elim (Bool-cases (h.version == version)) [
          | inl same ↦
              rw (busy, same, after_exit)
                (commit-Inv c r.next_collector r.gates id (exited_handle h)
                  (exited k
                    ∷ report_of (snapshot_report (exited_handle h) (exited_handle h).last_error))
                  0 0 (one_if (k == c))
                  (omega (arith, reported.0), omega (arith, reported.1), omega (arith, reported.2))
                  (ground (arith, busy, e)) (omega arith) (λ _. refl) (λ _. refl) (omega arith) v)
          | inr stale ↦ rw (busy, stale, after_exit) v
        ]
  ]

  collector_exited-Inv :
      {r : Runtime} (id : ℤ) (version : ℕ) (ctx_done : Bool)
      → Inv c r
      → Inv c (collector_exited id version ctx_done r)
  unfolding collector_exited
  collector_exited-Inv id version true v = v
  collector_exited-Inv {r} id version false v =
      after_exit-Inv id version (lookup id r.managed) refl v

  step-Inv : {r : Runtime} (e : Event) → Inv c r → Inv c (step r e)
  unfolding step record_stored
  step-Inv (reconciles now stream factory) v = reconcile_stream-Inv now stream factory v
  step-Inv (stops_missing seen) v = stop_missing_streams-Inv seen v
  step-Inv (exits id version ctx_done) v = collector_exited-Inv id version ctx_done v
  step-Inv {r} (stores id version at) v =
      after_stored-Inv id version at (lookup id r.managed) refl v
  step-Inv shuts_down v = shutdown-Inv v

  run-Inv : (r : Runtime) (es : List Event) → Inv c r → Inv c (run r es)
  unfolding run
  run-Inv r [] v = v
  run-Inv r (e ∷ es) v = run-Inv (step r e) es (step-Inv e v)

-- From a new runtime, whatever happens and in whatever order: each collector is started at most once,
-- and it is then in exactly one of three states, held by one stream, stopped once by the runtime, or
-- seen to have ended by itself.
pub run_accounts :
    (c : ℕ) (has_publisher : Bool) (grace : Duration) (es : List Event)
    → let r = run (new_runtime has_publisher grace) es in
      (tally (is_start c) r.trace
        ≡ held c r.managed + tally (is_stop c) r.trace + tally (is_exit c) r.trace)
      × (tally (is_start c) r.trace ≤ 1)
unfolding new_runtime tally held
run_accounts c has_publisher grace es =
    let start : Inv c (new_runtime has_publisher grace) = record {
      balance = refl;
      fresh = λ _. refl;
      once = omega arith;
    } in
    let v = run-Inv c _ es start in (v.balance, v.once)
