-- ===== src/Control/Handle.antt =====
-- internal/controlplane/runtime.go: the handles of `Runtime` and its state. The methods change the
-- handles under a mutex, and call the client and the collectors after it: the calls are kept in
-- `trace`, in order. A collector, its cancel function and its gated publisher are known by the number
-- of the factory call that made them; `gates` is what the gated publishers let through, shared by the
-- handle and the collector.
use scraper.Base.{
  ℕ, Bool, true, false, not, ◌&&◌, ◌||◌, List, [], ◌∷◌, ◌++◌, Option, none, some, ◌==◌,
  if◌then◌else◌,
}
use scraper.Base.Int.{ℤ}
use scraper.Text.{Text, codes, trim_space}
use scraper.Time.{Time, zero_time}
use scraper.Control.Stream.{
  Stream, StreamStateReport, ActualState, unset, starting, running, stopped, error, int_eq,
  is_positive,
}

pub record ManagedStream : Type 0 where
  pub stream : Stream
  pub collector : Option ℕ
  pub cancel : Option ℕ
  pub publisher : Option ℕ
  pub state : ActualState
  pub last_data_at : Option Time
  pub last_error : Text
  pub drain_deadline : Time
  pub version : ℕ

-- A call that the runtime makes: a report to the client, and a collector's start (with the observer's
-- stream and version), cancellation and stop.
pub data Effect : Type 0 where
  report : StreamStateReport → Effect
  start : ℕ → ℤ → ℕ → Effect
  cancels stops : ℕ → Effect
  close_client : Effect
  -- A collector whose run has ended by itself, which the runtime notices.
  exited : ℕ → Effect

pub record Runtime : Type 0 where
  pub has_publisher : Bool
  pub draining_grace_period : ℕ
  pub managed : List (ℤ × ManagedStream)
  pub gates : List (ℕ × Bool)
  pub next_collector : ℕ
  pub is_shut : Bool
  pub trace : List Effect

-- `CollectorFactory`: the error of its call, if it fails. The calls are numbered.
abbrev pub Factory : Type 0
Factory = ℕ → Stream → Option Text

-- `r.managed[id]`
unfoldable pub lookup : ℤ → List (ℤ × ManagedStream) → Option ManagedStream
lookup id [] = none
lookup id ((j, h) ∷ m) = if int_eq j id then some h else lookup id m

-- `r.managed[id] = handle`, or a change of the handle there.
unfoldable pub put : ℤ → ManagedStream → List (ℤ × ManagedStream) → List (ℤ × ManagedStream)
put id h [] = (id, h) ∷ []
put id h ((j, g) ∷ m) = if int_eq j id then (j, h) ∷ m else (j, g) ∷ put id h m

abbrev pub new_handle : Stream → ManagedStream
new_handle stream = record {
  stream = stream;
  collector = none;
  cancel = none;
  publisher = none;
  state = unset;
  last_data_at = none;
  last_error = [];
  drain_deadline = zero_time;
  version = 0;
}

-- The handle of the stream, new if there is none, with `handle.stream` set.
abbrev pub with_stream : Stream → Option ManagedStream → ManagedStream
with_stream stream none = new_handle stream
with_stream stream (some h) = record h { stream = stream }

unfoldable pub snapshot_report : ManagedStream → Text → StreamStateReport
snapshot_report h last_err = record {
  stream_id = h.stream.stream_id;
  actual_state = h.state;
  last_data_at = h.last_data_at;
  last_error = trim_space last_err;
}

abbrev pub is_unset : ActualState → Bool
is_unset unset = true
is_unset _ = false

-- `Runtime.report`: some reports are not sent. The client's answer is only logged.
abbrev pub report_of : StreamStateReport → List Effect
report_of rep =
    if not (is_positive rep.stream_id) || is_unset rep.actual_state then [] else report rep ∷ []

-- The handle back in the map, and the calls that follow the mutex.
abbrev pub commit : Runtime → ℤ → ManagedStream → List Effect → Runtime
commit r id h calls = record r { managed = put id h r.managed; trace = r.trace ++ calls }

-- `SetEnabled` on the gated publisher that a number stands for.
unfoldable pub set_gate : ℕ → Bool → List (ℕ × Bool) → List (ℕ × Bool)
set_gate g b [] = (g, b) ∷ []
set_gate g b ((k, c) ∷ gates) = if k == g then (k, b) ∷ gates else (k, c) ∷ set_gate g b gates

abbrev pub set_enabled : Option ℕ → Bool → List (ℕ × Bool) → List (ℕ × Bool)
set_enabled none b gates = gates
set_enabled (some g) b gates = set_gate g b gates

abbrev pub unavailable : Text
unavailable =
    codes "effective_live_delivery requested but market-data kafka publisher is unavailable"

unfoldable pub live_warning : Runtime → Stream → Text
live_warning r stream =
    if stream.effective_live_delivery && not r.has_publisher then unavailable else []

unfoldable pub live_enabled : Runtime → Stream → Bool
live_enabled r stream = stream.effective_live_delivery && r.has_publisher

-- The state of a collector that is kept.
abbrev pub kept_state : ActualState → Option Time → ActualState
kept_state unset none = starting
kept_state unset (some t) = running
kept_state stopped none = starting
kept_state stopped (some t) = running
kept_state error none = starting
kept_state error (some t) = running
kept_state s t = s
