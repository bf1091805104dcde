-- ===== src/Collector/Sink.antt =====
-- The state of a collector and what it does with K-lines: the store, the publisher and the observer are
-- called in this order, and `trace` holds what they took, newest first. What the exchange, the clock, the
-- store and the publisher answer is a function of the number of the call. Pauses and log output are left
-- out.
pub mod Order
pub mod Stored
use scraper.Base.{
  ℕ, ◌+◌, Bool, true, false, not, ◌&&◌, ◌||◌, List, [], ◌∷◌, Option, none, some, ok, err, Result,
  ltb, leb, if◌then◌else◌,
}
use scraper.Base.State.{Action, pure, raise, ◌>>=◌}
use scraper.Text.{Text}
use scraper.Time.{Time, unix_milli, int64_suc}
use scraper.Models.{Kline}
use scraper.Backfill.Row.{Json}
use scraper.Collector.Rows.{Conversions}

pub data Entry : Type 0 where
  stored published : List Kline → Entry
  observed : Kline → Entry

-- `cursor` is the spot collector's `forwardResumeTimeMs`, and the variable `lastCloseTime` of the futures
-- collector's loop.
pub record Collector : Type 0 where
  pub symbol : Text
  pub exchange : Text
  pub interval : Text
  pub is_reverse : Bool
  pub has_publisher : Bool
  pub has_observer : Bool
  pub cursor : ℕ
  pub calls : ℕ
  pub trace : List Entry

-- The parameters of a request for K-lines; the range is left out of some.
pub record KlineQuery : Type 0 where
  pub symbol : Text
  pub interval : Text
  pub range : Option (ℕ × ℕ)
  pub limit : ℕ

-- The error of a call, or a status with its text, the body, and what it decodes to or the error.
pub data Answer : Type 0 where
  no_answer : Text → Answer
  answer : ℕ → Text → Text → Result Text (List (List Json)) → Answer

pub record World : Type 0 where
  pub conversions : Conversions
  pub ask : ℕ → KlineQuery → Answer
  -- The milliseconds of `time.Now()`.
  pub now : ℕ → ℕ
  pub insert : ℕ → List Kline → Option Text
  pub publish : ℕ → List Kline → Option Text

abbrev pub C : Type 0 → Type 0
C A = Action Collector Text A

abbrev pub noted : Entry → Collector → Collector
noted e s = record s { calls = s.calls + 1; trace = e ∷ s.trace }

abbrev pub counted : Collector → Collector
counted s = record s { calls = s.calls + 1 }

-- klines[len(klines)-1]
unfoldable pub last_kline : Kline → List Kline → Kline
last_kline k [] = k
last_kline k (k' ∷ ks) = last_kline k' ks

-- klines[len(klines)-1].CloseTime.UnixMilli()
unfoldable pub last_close_ms : Kline → List Kline → ℕ
unfolding last_kline
last_close_ms k ks = unix_milli (last_kline k ks).close_time

-- `notifyStored`, for the last of the K-lines.
unfoldable pub notify_stored : Kline → List Kline → C (Unit {0})
unfolding last_kline
notify_stored k ks s =
    if s.has_observer
    then (record s { trace = observed (last_kline k ks) ∷ s.trace }, ok tt)
    else (s, ok tt)

module _ (world : World) where
  abbrev pub after_insert : List Kline → Option Text → C (Unit {0})
  after_insert ks (some e) s = (counted s, err e)
  after_insert ks none s = (noted (stored ks) s, ok tt)

  abbrev pub insert : List Kline → C (Unit {0})
  insert ks s = after_insert ks (world.insert s.calls ks) s

  abbrev pub after_publish : List Kline → Option Text → C (Unit {0})
  after_publish ks (some e) s = (counted s, err e)
  after_publish ks none s = (noted (published ks) s, ok tt)

  abbrev pub publish : List Kline → C (Unit {0})
  publish ks s = after_publish ks (world.publish s.calls ks) s

  -- The spot collector's publication: an error is the caller's.
  abbrev pub publish_live : Kline → List Kline → C (Unit {0})
  publish_live k ks s =
      if s.is_reverse || not s.has_publisher
      then notify_stored k ks s
      else (do _ ← publish (k ∷ ks); notify_stored k ks) s

  -- The spot collector's `storeKlines`.
  unfoldable pub store_klines : List Kline → C (Unit {0})
  unfolding notify_stored
  store_klines [] = pure tt
  store_klines (k ∷ ks) = do _ ← insert (k ∷ ks); publish_live k ks

  -- `storeKlinesWithoutPublish`
  unfoldable pub store_klines_without_publish : List Kline → C (Unit {0})
  unfolding notify_stored
  store_klines_without_publish [] = pure tt
  store_klines_without_publish (k ∷ ks) = do _ ← insert (k ∷ ks); notify_stored k ks

  -- The futures collector's publication: an error is logged only.
  abbrev pub or_logged : List Kline → C (Unit {0})
  or_logged ks s = ((publish ks s).0, ok tt)

  abbrev pub publish_selected : Kline → List Kline → List Kline → C (Unit {0})
  publish_selected k ks [] s = notify_stored k ks s
  publish_selected k ks (p ∷ ps) s =
      if s.is_reverse || not s.has_publisher
      then notify_stored k ks s
      else (do _ ← or_logged (p ∷ ps); notify_stored k ks) s

  -- `storeKlinesWithPublish`
  unfoldable pub store_klines_with_publish : List Kline → List Kline → C (Unit {0})
  unfolding notify_stored
  store_klines_with_publish [] ps = pure tt
  store_klines_with_publish (k ∷ ks) ps = do _ ← insert (k ∷ ks); publish_selected k ks ps

-- `filterClosedKlines`
unfoldable pub filter_closed_klines : List Kline → ℕ → List Kline
filter_closed_klines [] now_ms = []
filter_closed_klines (k ∷ ks) now_ms =
    let rest = filter_closed_klines ks now_ms in
    if ltb now_ms (unix_milli k.close_time) then rest else k ∷ rest
