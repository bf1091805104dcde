-- ===== src/Control/Runtime/Cases.antt =====
-- The branches of one step of a reconciliation, and the handle that it leaves in the map.
use scraper.Base.{
  ℕ, ◌+◌, ◌≡◌, inl, inr, Bool, true, false, List, [], ◌∷◌, ◌++◌, arith, none, some, ltb, ◌==◌,
  if◌then◌else◌, Bool-cases, Option-cases,
}
use scraper.Base.Int.{ℤ, pos, negsuc}
use scraper.Text.{Text}
use scraper.Time.{Time, zero_time}
use scraper.Control.Stream.{Stream, should_run, int_eq}
use scraper.Control.Handle.{
  ManagedStream, start, stops, report_of, Runtime, Factory, lookup, put, commit, snapshot_report,
  with_stream, set_enabled, set_gate, live_enabled, live_warning,
}
use scraper.Control.Reconcile.{
  reconcile_stream, keep_running, wind_down, failed_handle, started_handle, kept_handle,
  stopped_handle, draining_handle, ended_handle, cancel_call, deadline_from,
}

pub int_eq_refl : (a : ℤ) → int_eq a a ≡ true
int_eq_refl (pos n) = ground arith
int_eq_refl (negsuc n) = ground arith

pub lookup-put :
    (id : ℤ) (h : ManagedStream) (m : List (ℤ × ManagedStream)) → lookup id (put id h m) ≡ some h
unfolding lookup put
lookup-put id h [] = ground (arith, int_eq_refl id)
lookup-put id h ((j, g) ∷ m) = ground (arith, lookup-put id h m)

-- `Enabled` of the gated publisher; a publisher that was never made lets nothing through.
unfoldable pub gate_of : ℕ → List (ℕ × Bool) → Bool
gate_of g [] = false
gate_of g ((k, b) ∷ gates) = if k == g then b else gate_of g gates

pub gate_of-set_gate :
    (g : ℕ) (b : Bool) (gates : List (ℕ × Bool)) → gate_of g (set_gate g b gates) ≡ b
unfolding gate_of set_gate
gate_of-set_gate g b [] = ground arith
gate_of-set_gate g b ((k, c) ∷ gates) = ground (arith, gate_of-set_gate g b gates)

-- To prove a property of the step's result, prove it on each branch: the factory fails, a collector is
-- started or kept, there is none to stop, or it drains, or its drain is over.
module _ (now : Time) (stream : Stream) (factory : Factory) (r : Runtime) where
  abbrev pub before : ManagedStream
  before = with_stream stream (lookup stream.stream_id r.managed)

  abbrev pub gated : Runtime
  gated = record r { gates = set_enabled before.publisher (live_enabled r stream) r.gates }

  abbrev pub awake : ManagedStream
  awake = record before { drain_deadline = zero_time }

  abbrev pub deadline : Time
  deadline = deadline_from now r.draining_grace_period before.drain_deadline

  pub reconcile_cases {ℓ} :
      (P : Runtime → Type ℓ)
      → ((e : Text)
          → should_run stream ≡ true
          → before.collector ≡ none
          → factory r.next_collector stream ≡ some e
          → P (
              commit
                (record gated { next_collector = r.next_collector + 1 })
                stream.stream_id
                (failed_handle awake e)
                (report_of (snapshot_report (failed_handle awake e) e))))
      → (should_run stream ≡ true
          → before.collector ≡ none
          → factory r.next_collector stream ≡ none
          → P (
              commit
                (record gated {
                  next_collector = r.next_collector + 1;
                  gates = set_gate r.next_collector (live_enabled gated stream) gated.gates;
                })
                stream.stream_id
                (started_handle awake r.next_collector (live_warning gated stream))
                (start r.next_collector stream.stream_id (before.version + 1)
                  ∷ report_of (
                      snapshot_report
                        (started_handle awake r.next_collector (live_warning gated stream))
                        (live_warning gated stream)))))
      → ((c : ℕ)
          → should_run stream ≡ true
          → before.collector ≡ some c
          → P (
              commit gated stream.stream_id
                (kept_handle awake)
                (report_of (snapshot_report (kept_handle awake) (live_warning gated stream)))))
      → (should_run stream ≡ false
          → before.collector ≡ none
          → P (
              commit gated stream.stream_id
                (stopped_handle before)
                (report_of (snapshot_report (stopped_handle before) []))))
      → ((c : ℕ)
          → should_run stream ≡ false
          → before.collector ≡ some c
          → ltb now deadline ≡ true
          → P (
              commit gated stream.stream_id
                (draining_handle before deadline)
                (report_of (snapshot_report (draining_handle before deadline) []))))
      → ((c : ℕ)
          → should_run stream ≡ false
          → before.collector ≡ some c
          → ltb now deadline ≡ false
          → P (
              commit gated stream.stream_id (ended_handle before) (
                cancel_call before.cancel
                ++ (stops c ∷ report_of (snapshot_report (ended_handle before) [])))))
      → P (reconcile_stream now stream factory r)
  unfolding reconcile_stream
  reconcile_cases P fails starts keeps idles drains ends = elim (Bool-cases (should_run stream)) [
    | inl runs ↦
        rw (runs, reconcile_stream)
          (elim (Option-cases before.collector) [
            | inl idle ↦ elim (Option-cases (factory r.next_collector stream)) [
              | inl made ↦ rw (idle, made, keep_running) (starts runs idle made)
              | inr (e, failed) ↦ rw (idle, failed, keep_running) (fails e runs idle failed)
            ]
            | inr (c, busy) ↦ rw (busy, keep_running) (keeps c runs busy)
          ])
    | inr over ↦
        rw (over, reconcile_stream)
          (elim (Option-cases before.collector) [
            | inl idle ↦ rw (idle, wind_down) (idles over idle)
            | inr (c, busy) ↦ elim (Bool-cases (ltb now deadline)) [
              | inl wait ↦ rw (busy, wait, wind_down) (drains c over busy wait)
              | inr past ↦ rw (busy, past, wind_down) (ends c over busy past)
            ]
          ])
  ]
