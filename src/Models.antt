-- ===== src/Models.antt =====
-- internal/models/models.go: the rows.
use scraper.Base.{ℕ}
use scraper.Base.Int.{ℤ}
use scraper.Text.{Text}
use scraper.Time.{Time}

-- A float64 by its bits: the code modelled here passes prices and quantities on and computes nothing
-- with them.
abbrev pub Float : Type 0
Float = ℕ

pub record Kline : Type 0 where
  pub time : Time
  pub symbol : Text
  pub market : Text
  pub exchange : Text
  pub interval : Text
  pub open_time : Time
  pub close_time : Time
  pub open_price : Float
  pub high : Float
  pub low : Float
  pub close : Float
  pub volume : Float
  pub quote_volume : Float
  pub num_trades : ℤ

pub record OrderBook : Type 0 where
  pub time : Time
  pub symbol : Text
  pub market : Text
  pub exchange : Text
  pub bids : Text
  pub asks : Text

pub record FundingRate : Type 0 where
  pub time : Time
  pub symbol : Text
  pub market : Text
  pub exchange : Text
  pub funding_rate : Float
  pub mark_price : Float
  pub next_funding_time : Time

pub record OpenInterest : Type 0 where
  pub time : Time
  pub symbol : Text
  pub open_interest : Float
  pub period : Text
  pub market : Text
  pub exchange : Text
