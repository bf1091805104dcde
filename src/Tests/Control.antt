-- ===== src/Tests/Control.antt =====
-- The runtime's properties on a stream that runs, is given up and is listed again.
use scraper.Base.{◌+◌, ◌≤◌, ◌≡◌, refl, true, false, ◌&&◌, List, [], ◌∷◌, none, some, arith}
use scraper.Base.Int.{pos}
use scraper.Text.{
  Text, codes, text_eq, to_lower, to_upper, lower_char, upper_char, trim_space, trim_left,
  trim_right, keep_right, is_space,
}
use scraper.Control.Runtime.{factory_for}
use scraper.Control.Runtime.Served.{Served, last_listed}
use scraper.Control.Runtime.Gaps.{Resumed, reconcile_each-Resumed}
use scraper.Control.Stream.{normalize_stream}
use scraper.Time.{second, zero_time}
use scraper.Control.Stream.{Stream, ActualState, running, should_run}
use scraper.Control.Handle.{ManagedStream, Runtime, Factory, lookup}
use scraper.Control.Reconcile.{reconcile_stream}
use scraper.Control.Runtime.{
  Event, reconciles, stops_missing, exits, stores, shuts_down, run, new_runtime,
}
use scraper.Control.Runtime.Conserve.Counts.{tally, is_start, is_stop, is_exit, held}
use scraper.Control.Runtime.History.{run_accounts}
use scraper.Control.Runtime.Lifecycle.{
  Lets, publisher_of, reconcile_stream-gate, Reports, reconcile_stream-Reports,
}
use scraper.Control.Runtime.Drain.{reconcile_each, Draining, Stopped, grace_period}

abbrev listed : Text → Stream
listed desired = record {
  stream_id = pos 7;
  key = record {
    exchange = codes "binance";
    market = codes "spot";
    kind = codes "kline";
    symbol = codes "BTCUSDT";
    interval = codes "1m";
  };
  desired_state = desired;
  actual_state = codes "stopped";
  effective_live_delivery = true;
  active_lease_count = pos 0;
  last_data_at = none;
  last_error = [];
}

abbrev wanted : Stream
wanted = listed (codes "running")

abbrev given_up : Stream
given_up = listed (codes "stopped")

abbrev makes : Factory
makes n stream = none

abbrev busy_handle : ActualState → ManagedStream
busy_handle s = record {
  stream = wanted;
  collector = some 3;
  cancel = some 3;
  publisher = some 3;
  state = s;
  last_data_at = some 5;
  last_error = [];
  drain_deadline = zero_time;
  version = 1;
}

abbrev busy_runtime : ActualState → Runtime
busy_runtime s = record {
  has_publisher = true;
  draining_grace_period = second;
  managed = (pos 7, busy_handle s) ∷ [];
  gates = (3, true) ∷ [];
  next_collector = 4;
  is_shut = false;
  trace = [];
}

abbrev empty_runtime : Runtime
empty_runtime = record (busy_runtime running) { managed = []; gates = [] }

abbrev a_day : List Event
a_day =
    reconciles 10 wanted makes
    ∷ stores (pos 7) 1 20
    ∷ exits (pos 7) 1 false
    ∷ reconciles 30 wanted makes
    ∷ stops_missing []
    ∷ shuts_down
    ∷ []

run_accounts_example :
    let r = run (new_runtime true (pos second)) a_day in
    (tally (is_start 0) r.trace
      ≡ held 0 r.managed + tally (is_stop 0) r.trace + tally (is_exit 0) r.trace)
    × (tally (is_start 0) r.trace ≤ 1)
run_accounts_example = run_accounts 0 true (pos second) a_day

grace_period_example :
    let r' = reconcile_each makes ((10, given_up) ∷ (20, given_up) ∷ []) (busy_runtime running) in
    Draining (pos 7) 3 (10 + second) r'
    × Stopped (pos 7) 3 r'.trace (reconcile_stream (11 + second) given_up makes r')
unfolding should_run text_eq lookup
grace_period_example =
    grace_period 3 10 (11 + second) given_up given_up ((20, given_up) ∷ []) makes
      (busy_runtime running) (busy_handle running) refl refl refl refl (omega arith)
      ((refl, refl, omega arith), tt) refl refl (omega arith)

-- The gate that a handle's publisher has, after a step.
reconcile_stream-gate_example :
    let r' = reconcile_stream 30 wanted makes (busy_runtime running) in
    Lets (true && true) r'.gates (publisher_of (lookup (pos 7) r'.managed))
reconcile_stream-gate_example = reconcile_stream-gate 30 wanted makes (busy_runtime running)

reconcile_stream-Reports_example :
    Reports given_up [] (reconcile_stream 30 given_up makes (busy_runtime running))
reconcile_stream-Reports_example =
    reconcile_stream-Reports 30 given_up makes (busy_runtime running) refl

reconcile_each-Resumed_example : Resumed (pos 7) 3 (
    reconcile_each makes
      ((10, given_up) ∷ ((20, wanted) ∷ ((30, wanted) ∷ [])))
      (busy_runtime running))
unfolding should_run text_eq lookup
reconcile_each-Resumed_example =
    reconcile_each-Resumed 3 10 20 given_up wanted ((30, wanted) ∷ []) makes (busy_runtime running)
      (busy_handle running) refl refl refl refl (omega arith) ((refl, refl), ((refl, refl), tt))

-- The stream is among those that are served.
listed_wanted :
    last_listed ((codes "binance", makes) ∷ []) (pos 7) none (wanted ∷ [])
    ≡ some (normalize_stream wanted)
unfolding last_listed normalize_stream factory_for text_eq to_lower to_upper lower_char upper_char
    trim_space trim_left trim_right keep_right is_space
listed_wanted = refl
