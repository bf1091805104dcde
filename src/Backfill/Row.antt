-- ===== src/Backfill/Row.antt =====
-- internal/backfill/klines.go: a row of the exchange's JSON answer as a K-line.
use scraper.Base.{ℕ, ◌+◌, ◌-◌, List, [], ◌∷◌, Option, none, some, ok, err, Result, ◌>>=◌}
use scraper.Base.Int.{ℤ, pos, negsuc, atoi}
use scraper.Text.{Text, codes}
use scraper.Time.{int64_zero, from_unix_milli}
use scraper.Models.{Float, Kline}
use scraper.Backfill.Interval.{Error, short_row, bad_field}

-- A decoded `interface{}`: the cases that the type switches name, and all others.
pub data Json : Type 0 where
  float64 : Float → Json
  json_number : Text → Json
  string : Text → Json
  other : Json

-- The conversions of floating-point numbers, which the language and `strconv` give.
pub record Floats : Type 0 where
  pub truncate_int64 : Float → ℕ
  pub parse_float : Text → Option Float

-- An int64 of `strconv.ParseInt`, with 2 ^ 63 added.
abbrev biased : Option ℤ → Result Error ℕ
biased none = err bad_field
biased (some (pos n)) = ok (int64_zero + n)
biased (some (negsuc n)) = ok (int64_zero - (n + 1))

abbrev or_bad : Option Float → Result Error Float
or_bad none = err bad_field
or_bad (some x) = ok x

module _ (fl : Floats) where
  unfoldable pub to_int64 : Json → Result Error ℕ
  to_int64 (float64 x) = ok (fl.truncate_int64 x)
  to_int64 (json_number s) = biased (atoi s)
  to_int64 (string s) = biased (atoi s)
  to_int64 other = err bad_field

  unfoldable pub to_float : Json → Result Error Float
  to_float (float64 x) = ok x
  to_float (json_number s) = or_bad (fl.parse_float s)
  to_float (string s) = or_bad (fl.parse_float s)
  to_float other = err bad_field

  -- The eight fields that the row must have, and whatever follows them.
  unfoldable pub rest_row_to_kline : List Json → Text → Text → Text → Result Error Kline
  unfolding to_int64 to_float
  rest_row_to_kline (r0 ∷ r1 ∷ r2 ∷ r3 ∷ r4 ∷ r5 ∷ r6 ∷ r7 ∷ more) symbol market interval = do
    open_ms ← to_int64 r0
    close_ms ← to_int64 r6
    open_value ← to_float r1
    high_value ← to_float r2
    low_value ← to_float r3
    close_value ← to_float r4
    vol ← to_float r5
    qvol ← to_float r7
    ok (record {
      time = from_unix_milli open_ms;
      symbol = symbol;
      market = market;
      exchange = codes "binance";
      interval = interval;
      open_time = from_unix_milli open_ms;
      close_time = from_unix_milli close_ms;
      open_price = open_value;
      high = high_value;
      low = low_value;
      close = close_value;
      volume = vol;
      quote_volume = qvol;
      num_trades = pos 0;
    })
  rest_row_to_kline row symbol market interval = err (short_row (count row))
    where
      count : List Json → ℕ
      count [] = 0
      count (x ∷ xs) = count xs + 1

  -- The loop over the rows: the first bad row stops it.
  unfoldable pub rows_to_klines : List (List Json) → Text → Text → Text → Result Error (List Kline)
  unfolding rest_row_to_kline
  rows_to_klines [] symbol market interval = ok []
  rows_to_klines (row ∷ rows) symbol market interval = do
    kline ← rest_row_to_kline row symbol market interval
    klines ← rows_to_klines rows symbol market interval
    ok (kline ∷ klines)

  -- toInt64(row[6])
  unfoldable pub close_field : List Json → Result Error ℕ
  close_field (r0 ∷ r1 ∷ r2 ∷ r3 ∷ r4 ∷ r5 ∷ r6 ∷ more) = to_int64 r6
  close_field row = err bad_field

  -- toInt64(rows[len(rows)-1][6])
  unfoldable pub last_close : List Json → List (List Json) → Result Error ℕ
  unfolding close_field
  last_close row [] = close_field row
  last_close row (next ∷ rows) = last_close next rows
