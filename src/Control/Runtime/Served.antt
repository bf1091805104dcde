-- ===== src/Control/Runtime/Served.antt =====
-- What a reconciliation leaves: a handle for each stream that is listed and supported, and no other.
use scraper.Base.{
  ◌≡◌, Bool, true, false, not, ◌&&◌, ◌||◌, List, [], ◌∷◌, Option, none, some, ok, err, Result,
  if◌then◌else◌,
}
use scraper.Base.Int.{ℤ}
use scraper.Text.{Text, codes, text_eq}
use scraper.Time.{Time}
use scraper.Control.Stream.{
  Stream, ActualState, draining, stopped, error, is_positive, int_eq, normalize_stream, should_run,
}
use scraper.Control.Handle.{ManagedStream, Runtime, Factory, lookup}
use scraper.Control.Tracking.Listed.{is_given}
use scraper.Control.Runtime.{is_seen, factory_for}

-- A stream that the runtime works for.
abbrev pub is_supported : List (Text × Factory) → Stream → Bool
is_supported factories stream =
    is_positive stream.stream_id
    && text_eq stream.key.kind (codes "kline")
    && is_given (factory_for stream.key.exchange factories)

-- The last supported stream of a list that has the identifier, in its normal form; `o` if there is none.
unfoldable pub last_listed : List (Text × Factory) → ℤ → Option Stream → List Stream → Option Stream
last_listed factories id o [] = o
last_listed factories id o (raw ∷ streams) =
    let stream = normalize_stream raw in
    let found = is_supported factories stream && int_eq stream.stream_id id in
    last_listed factories id (if found then some stream else o) streams

abbrev pub is_error : ActualState → Bool
is_error error = true
is_error _ = false

abbrev pub is_draining : ActualState → Bool
is_draining draining = true
is_draining _ = false

abbrev pub is_stopped : ActualState → Bool
is_stopped stopped = true
is_stopped _ = false

-- A stream that should run has a collector, or its factory failed. One that should not has none and is
-- stopped, or its collector drains.
abbrev pub serves : Stream → ManagedStream → Bool
serves stream h =
    if should_run stream
    then is_given h.collector || is_error h.state
    else (is_draining h.state && is_given h.collector)
      || (is_stopped h.state && not (is_given h.collector))

-- A handle of the listed stream that serves it, and no handle if none is listed.
abbrev pub Matches : Option Stream → Option ManagedStream → Type 0
Matches none none = Unit
Matches none (some h) = ⊥
Matches (some stream) none = ⊥
Matches (some stream) (some h) = (h.stream ≡ stream) × (serves stream h ≡ true)

abbrev pub Served : List (Text × Factory) → List Stream → ℤ → Result Text Runtime → Type 0
Served factories streams id (err e) = ⊥
Served factories streams id (ok r) =
    Matches (last_listed factories id none streams) (lookup id r.managed)

-- What the loop keeps for an identifier: it is seen if a stream of it was found, and then its handle
-- serves the last one.
abbrev HasServed : Option Stream → ℤ → List ℤ × Runtime → Type 0
HasServed none id (seen, r) = is_seen id seen ≡ false
HasServed (some stream) id (seen, r) =
    (is_seen id seen ≡ true) × Matches (some stream) (lookup id r.managed)
