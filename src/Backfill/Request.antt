-- ===== src/Backfill/Request.antt =====
-- internal/backfill/klines.go: the request, its normal form and its validation.
pub mod Laws
use scraper.Base.{
  ℕ, ◌+◌, Bool, true, false, not, ◌&&◌, ◌||◌, List, [], ◌∷◌, Option, none, some, ok, err, Result,
  ltb, if◌then◌else◌,
}
use scraper.Text.{Text, codes, text_eq, is_empty, to_lower, to_upper, trim_space}
use scraper.Time.{Time}
use scraper.Backfill.Interval.{
  Error, bad_market, no_symbol, no_interval, bad_range, interval_duration,
}

pub record KlineRequest : Type 0 where
  pub exchange : Text
  pub market : Text
  pub symbol : Text
  pub interval : Text
  pub start_at : Time
  pub end_at : Time

-- `if s == "" { s = d }`
unfoldable pub or_default : Text → Text → Text
or_default [] d = d
or_default (c ∷ s) d = c ∷ s

unfoldable pub normalize_kline_request : KlineRequest → KlineRequest
unfolding or_default
normalize_kline_request req = record {
  exchange = or_default (to_lower (trim_space req.exchange)) (codes "binance");
  market = to_lower (trim_space req.market);
  symbol = to_upper (trim_space req.symbol);
  interval = or_default (trim_space req.interval) (codes "1m");
  start_at = req.start_at;
  end_at = req.end_at;
}

-- `none` is a nil error.
unfoldable pub validate_kline_request : KlineRequest → Option Error
unfolding is_empty
validate_kline_request req =
    if not (text_eq req.market (codes "spot")) && not (text_eq req.market (codes "futures"))
    then some bad_market
    else if is_empty req.symbol
    then some no_symbol
    else if is_empty req.interval
    then some no_interval
    else if not (ltb req.start_at req.end_at)
    then some bad_range
    else elim (interval_duration req.interval) [ err e ↦ some e | ok dur ↦ none ]
