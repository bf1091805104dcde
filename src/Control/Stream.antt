-- ===== src/Control/Stream.antt =====
-- internal/controlplane/runtime.go: streams, their normal form and their reports.
use scraper.Base.{Bool, false, ◌||◌, Option, ltb, ◌==◌}
use scraper.Base.Int.{ℤ, pos, negsuc}
use scraper.Text.{Text, codes, text_eq, to_lower, to_upper, trim_space}
use scraper.Time.{Time}

pub record StreamKey : Type 0 where
  pub exchange : Text
  pub market : Text
  pub kind : Text
  pub symbol : Text
  pub interval : Text

pub record Stream : Type 0 where
  pub stream_id : ℤ
  pub key : StreamKey
  pub desired_state : Text
  pub actual_state : Text
  pub effective_live_delivery : Bool
  pub active_lease_count : ℤ
  pub last_data_at : Option Time
  pub last_error : Text

-- The `ActualState…` constants that a handle takes, and the empty string of a new handle.
pub data ActualState : Type 0 where
  unset starting running draining stopped error : ActualState

pub record StreamStateReport : Type 0 where
  pub stream_id : ℤ
  pub actual_state : ActualState
  pub last_data_at : Option Time
  pub last_error : Text

-- `id == 0` and `id > 0`
abbrev pub int_eq : ℤ → ℤ → Bool
int_eq (pos a) (pos b) = a == b
int_eq (pos a) (negsuc b) = false
int_eq (negsuc a) (pos b) = false
int_eq (negsuc a) (negsuc b) = a == b

abbrev pub is_positive : ℤ → Bool
is_positive (pos n) = ltb 0 n
is_positive (negsuc n) = false

unfoldable pub normalize_stream : Stream → Stream
normalize_stream stream = record stream {
  desired_state = to_lower (trim_space stream.desired_state);
  actual_state = to_lower (trim_space stream.actual_state);
  last_error = trim_space stream.last_error;
  key = record {
    exchange = to_lower (trim_space stream.key.exchange);
    market = to_lower (trim_space stream.key.market);
    kind = to_lower (trim_space stream.key.kind);
    symbol = to_upper (trim_space stream.key.symbol);
    interval = trim_space stream.key.interval;
  };
}

unfoldable pub should_run : Stream → Bool
should_run stream =
    text_eq stream.desired_state (codes "running") || is_positive stream.active_lease_count
