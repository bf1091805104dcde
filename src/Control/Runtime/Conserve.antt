-- ===== src/Control/Runtime/Conserve.antt =====
-- No collector is lost, started twice or held by two streams.
pub mod Counts
use scraper.Base.{
  ℕ, zero, suc, ◌+◌, ◌<◌, ◌≤◌, ◌≡◌, refl, inl, inr, Bool, true, false, not, ◌&&◌, ◌||◌, List, [],
  ◌∷◌, ◌++◌, arith, Option, none, some, ltb, ◌==◌, if◌then◌else◌, Bool-cases, Option-cases, dec_lt,
}
use scraper.Base.Int.{ℤ}
use scraper.Text.{Text}
use scraper.Time.{Time, Duration}
use scraper.Control.Stream.{Stream, should_run}
use scraper.Control.Handle.{
  ManagedStream, Effect, report_of, start, cancels, stops, exited, Runtime, Factory, lookup, put,
  commit, snapshot_report, with_stream, set_enabled, live_enabled, live_warning, set_gate,
}
use scraper.Control.Reconcile.{
  reconcile_stream, keep_running, wind_down, launched, failed_handle, started_handle, kept_handle,
  stopped_handle, draining_handle, ended_handle, cancel_call, stop_call, deadline_from,
}
use scraper.Control.Runtime.{
  Event, reconciles, stops_missing, exits, stores, shuts_down, stop_missing_streams, missing_stops,
  seen_streams, is_seen, collector_exited, after_exit, record_stored, after_stored, all_stops,
  shutdown, step, run, new_runtime,
}
use Counts.{
  tally, one_if, is_start, is_stop, is_exit, held_by, held, found, tally-append, held-put,
  tally-report_of,
}

-- Of each collector, the starts are the handles that hold it, the stops and the exits together; a
-- number not yet given out has no start, and no collector has two.
pub record Inv (c : ℕ) (r : Runtime) : Type 0 where
  pub balance :
      tally (is_start c) r.trace
      ≡ held c r.managed + tally (is_stop c) r.trace + tally (is_exit c) r.trace
  pub fresh : r.next_collector ≤ c → tally (is_start c) r.trace ≡ 0
  pub once : tally (is_start c) r.trace ≤ 1

-- What the calls of a step add up to.
abbrev pub Calls : ℕ → List Effect → ℕ → ℕ → ℕ → Type 0
Calls c es starts stopped exits_ =
    (tally (is_start c) es ≡ starts)
    × (tally (is_stop c) es ≡ stopped)
    × (tally (is_exit c) es ≡ exits_)

module _ (c : ℕ) where
  -- A handle is put back, with calls that account for the collector that it had and the one it has.
  pub commit-Inv :
      {r : Runtime} (next : ℕ) (gates : List (ℕ × Bool)) (id : ℤ) (h : ManagedStream)
      (es : List Effect) (starts stopped exits_ : ℕ)
      → Calls c es starts stopped exits_
      → found c (lookup id r.managed) + starts ≡ held_by c h.collector + stopped + exits_
      → r.next_collector ≤ next
      → (next ≤ c → starts ≡ 0)
      → (c < r.next_collector → starts ≡ 0)
      → starts ≤ 1
      → Inv c r
      → Inv c (commit (record r { next_collector = next; gates = gates }) id h es)
  commit-Inv {r} next gates id h es starts stopped exits_ calls e grow none_yet old few v = record {
    balance = omega (
      arith,
      tally-append (is_start c) r.trace es,
      tally-append (is_stop c) r.trace es,
      tally-append (is_exit c) r.trace es,
      held-put c id h r.managed,
      v.balance,
    );
    fresh = λ above.
        omega (arith, tally-append (is_start c) r.trace es, v.fresh (omega arith), none_yet above);
    once = elim (dec_lt c r.next_collector) [
      | yes given ↦ omega (arith, tally-append (is_start c) r.trace es, v.once, old given)
      | no above ↦ omega (arith, tally-append (is_start c) r.trace es, v.fresh (omega arith))
    ];
  }

  pub report-Calls :
      (h : ManagedStream) (text : Text) → Calls c (report_of (snapshot_report h text)) 0 0 0
  report-Calls h text = (
    tally-report_of (is_start c) (snapshot_report h text) refl,
    tally-report_of (is_stop c) (snapshot_report h text) refl,
    tally-report_of (is_exit c) (snapshot_report h text) refl,
  )

  -- A handle is put back with its collector and a report.
  pub keep-Inv :
      {r : Runtime} (gates : List (ℕ × Bool)) (id : ℤ) (h : ManagedStream) (text : Text)
      → found c (lookup id r.managed) ≡ held_by c h.collector
      → Inv c r
      → Inv c (commit (record r { gates = gates }) id h (report_of (snapshot_report h text)))
  keep-Inv {r} gates id h text e v =
      commit-Inv r.next_collector gates id h (report_of (snapshot_report h text)) 0 0 0
        (report-Calls h text) (omega arith) (omega arith) (λ _. refl) (λ _. refl) (omega arith) v

  launched-Inv :
      {r : Runtime} (gates : List (ℕ × Bool)) (stream : Stream) (h : ManagedStream)
      (result : Option Text)
      → found c (lookup stream.stream_id r.managed) ≡ 0
      → Inv c r
      → Inv c (launched stream h (record r { gates = gates }) result)
  unfolding tally
  launched-Inv {r} gates stream h (some e) none_held v =
      commit-Inv (r.next_collector + 1) gates stream.stream_id (failed_handle h e)
        (report_of (snapshot_report (failed_handle h e) e)) 0 0 0
        (report-Calls (failed_handle h e) e) (omega arith) (omega arith) (λ _. refl) (λ _. refl)
        (omega arith) v
  launched-Inv {r} gates stream h none none_held v =
      let k = r.next_collector in
      let r' = record r { gates = gates } in
      let warning = live_warning r' stream in
      let h' = started_handle h k warning in
      let reported = report-Calls h' warning in
      commit-Inv (k + 1) (set_gate k (live_enabled r' stream) gates) stream.stream_id h'
        (start k stream.stream_id (h.version + 1) ∷ report_of (snapshot_report h' warning))
        (one_if (k == c)) 0 0
        (omega (arith, reported.0), omega (arith, reported.1), omega (arith, reported.2))
        (omega (arith, none_held)) (omega arith) (λ above. ground arith) (λ below. ground arith)
        (ground arith) v

  pub keep_running-Inv :
      {r : Runtime} (gates : List (ℕ × Bool)) (stream : Stream) (factory : Factory)
      (h : ManagedStream)
      → found c (lookup stream.stream_id r.managed) ≡ held_by c h.collector
      → Inv c r
      → Inv c (keep_running stream factory h h.collector (record r { gates = gates }))
  unfolding keep_running
  keep_running-Inv {r} gates stream factory h same v = elim (Option-cases h.collector) [
    | inl idle ↦
        rw (idle, keep_running)
          (launched-Inv gates stream h (factory r.next_collector stream)
            (ground (arith, idle, same)) v)
    | inr (k, busy) ↦
        rw (busy, keep_running)
          (keep-Inv gates stream.stream_id (kept_handle h)
            (live_warning (record r { gates = gates }) stream) same v)
  ]

  pub cancel-Calls : (o : Option ℕ) → Calls c (cancel_call o) 0 0 0
  unfolding tally
  cancel-Calls none = (refl, refl, refl)
  cancel-Calls (some k) = (omega arith, omega arith, omega arith)

  pub wind_down-Inv :
      {r : Runtime} (gates : List (ℕ × Bool)) (now : Time) (stream : Stream) (h : ManagedStream)
      → found c (lookup stream.stream_id r.managed) ≡ held_by c h.collector
      → Inv c r
      → Inv c (wind_down now stream h h.collector (record r { gates = gates }))
  unfolding wind_down tally
  wind_down-Inv {r} gates now stream h same v = elim (Option-cases h.collector) [
    | inl idle ↦ rw (idle, wind_down) (keep-Inv gates stream.stream_id (stopped_handle h) [] same v)
    | inr (k, busy) ↦
        let deadline = deadline_from now r.draining_grace_period h.drain_deadline in
        let reported = report-Calls (ended_handle h) [] in
        let cancelled = cancel-Calls h.cancel in
        elim (Bool-cases (ltb now deadline)) [
          | inl wait ↦
              rw (busy, wait, wind_down)
                (keep-Inv gates stream.stream_id (draining_handle h deadline) [] same v)
          | inr over ↦
              rw (busy, over, wind_down)
                (commit-Inv r.next_collector gates stream.stream_id (ended_handle h)
                  (cancel_call h.cancel
                    ++ (stops k ∷ report_of (snapshot_report (ended_handle h) [])))
                  0 (one_if (k == c)) 0
                  (
                    omega (
                      arith,
                      tally-append (is_start c) (cancel_call h.cancel),
                      cancelled.0,
                      reported.0,
                    ),
                    omega (
                      arith,
                      tally-append (is_stop c) (cancel_call h.cancel),
                      cancelled.1,
                      reported.1,
                    ),
                    omega (
                      arith,
                      tally-append (is_exit c) (cancel_call h.cancel),
                      cancelled.2,
                      reported.2,
                    ),
                  )
                  (ground (arith, busy, same)) (omega arith) (λ _. refl) (λ _. refl) (omega arith)
                  v)
        ]
  ]
