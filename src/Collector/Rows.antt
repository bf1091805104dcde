-- ===== src/Collector/Rows.antt =====
-- Rows of the exchange's JSON answers and messages of its stream as K-lines. Unlike the backfill, the
-- collectors go on with the value that a failed conversion leaves. An int64 has 2 ^ 63 added.
use scraper.Base.{
  ℕ, ◌+◌, ◌-◌, Bool, true, false, List, [], ◌∷◌, Option, none, some, ltb, ◌==◌, if◌then◌else◌,
}
use scraper.Base.Int.{ℤ, pos, negsuc, unsigned}
use scraper.Text.{Text, codes, to_upper}
use scraper.Time.{int64_zero, from_unix_milli}
use scraper.Models.{Float, Kline}
use scraper.Backfill.Row.{Json, float64, json_number, string, other}

-- What the language and `strconv` give for floating-point numbers: `parse_float` is the value that
-- `ParseFloat` returns, with or without an error.
pub record Conversions : Type 0 where
  pub truncate_int64 : Float → ℕ
  pub parse_float : Text → Float

-- The value of `strconv.ParseInt(s, 10, 64)` and whether it is without an error: 0 for a text that is no
-- number, and the nearest int64 for a number out of range.
abbrev pub saturated_pos : Option ℕ → ℕ × Bool
saturated_pos none = (int64_zero, false)
saturated_pos (some n) =
    if ltb n 9_223_372_036_854_775_808
    then (int64_zero + n, true)
    else (int64_zero + 9_223_372_036_854_775_807, false)

abbrev pub saturated_neg : Option ℕ → ℕ × Bool
saturated_neg none = (int64_zero, false)
saturated_neg (some n) =
    if ltb 9_223_372_036_854_775_808 n then (0, false) else (int64_zero - n, true)

unfoldable pub parse_int : Text → ℕ × Bool
parse_int [] = (int64_zero, false)
parse_int (c ∷ s) =
    if c == b'-'
    then saturated_neg (unsigned s)
    else if c == b'+'
    then saturated_pos (unsigned s)
    else saturated_pos (unsigned (c ∷ s))

-- -1 and the numbers below, from 2 ^ 63 + n.
unfoldable pub int64_value : ℕ → ℤ
int64_value n = if ltb n int64_zero then negsuc (int64_zero - n - 1) else pos (n - int64_zero)

module _ (cv : Conversions) where
  unfoldable pub to_int64_checked : Json → ℕ × Bool
  unfolding parse_int
  to_int64_checked (float64 x) = (cv.truncate_int64 x, true)
  to_int64_checked (json_number s) = parse_int s
  to_int64_checked (string s) = parse_int s
  to_int64_checked other = (int64_zero, false)

  -- `n, _ := toInt64(v)`, also `toInt64Safe`.
  abbrev pub to_int64_safe : Json → ℕ
  to_int64_safe v = (to_int64_checked v).0

  -- The collectors' `toFloat`; 0 is the float of bits 0.
  unfoldable pub to_float_safe : Json → Float
  to_float_safe (float64 x) = x
  to_float_safe (json_number s) = cv.parse_float s
  to_float_safe (string s) = cv.parse_float s
  to_float_safe other = 0

  -- The K-line of the fields that a row and a message have.
  abbrev pub kline_of :
      Text → Text → Text → Text → ℕ → ℕ → Json → Json → Json → Json → Json → Json → Json → Kline
  kline_of symbol market exchange interval open_ms close_ms open_v high_v low_v close_v volume_v
        quote_v trades_v =
      record {
        time = from_unix_milli open_ms;
        symbol = to_upper symbol;
        market = market;
        exchange = exchange;
        interval = interval;
        open_time = from_unix_milli open_ms;
        close_time = from_unix_milli close_ms;
        open_price = to_float_safe open_v;
        high = to_float_safe high_v;
        low = to_float_safe low_v;
        close = to_float_safe close_v;
        volume = to_float_safe volume_v;
        quote_volume = to_float_safe quote_v;
        num_trades = int64_value (to_int64_safe trades_v);
      }

  -- The loop over the rows in the spot collector's `fetchBatch`: a row of less than twelve fields is
  -- skipped, and times that are no numbers are 0.
  unfoldable pub spot_row : Text → Text → Text → List Json → Option Kline
  unfolding to_float_safe to_int64_checked int64_value
  spot_row symbol exchange interval
        (r0 ∷ r1 ∷ r2 ∷ r3 ∷ r4 ∷ r5 ∷ r6 ∷ r7 ∷ r8 ∷ r9 ∷ r10 ∷ r11 ∷ more) =
      some (
        kline_of symbol (codes "spot") exchange interval (to_int64_safe r0) (to_int64_safe r6) r1 r2
          r3 r4 r5 r7 r8)
  spot_row symbol exchange interval row = none

  -- The futures collector's `parseRow`, whose errors skip the row.
  unfoldable pub parse_row : Text → Text → Text → List Json → Option Kline
  unfolding to_float_safe to_int64_checked int64_value
  parse_row symbol exchange interval
        (r0 ∷ r1 ∷ r2 ∷ r3 ∷ r4 ∷ r5 ∷ r6 ∷ r7 ∷ r8 ∷ r9 ∷ r10 ∷ r11 ∷ more) =
      if (to_int64_checked r0).1
      then (if (to_int64_checked r6).1
          then some (
              kline_of symbol (codes "futures") exchange interval (to_int64_safe r0)
                (to_int64_safe r6) r1 r2 r3 r4 r5 r7 r8)
          else none)
      else none
  parse_row symbol exchange interval row = none

unfoldable pub parsed_rows : (List Json → Option Kline) → List (List Json) → List Kline
parsed_rows parse [] = []
parsed_rows parse (row ∷ rows) =
    let rest = parsed_rows parse rows in elim (parse row) [ none ↦ rest | some k ↦ k ∷ rest ]

-- A message of the stream, as the collector decodes it: no JSON object, one without a field "k", or the
-- fields of "k" (`other` for one that is missing) and its "x", which is false if it is no Boolean.
pub data Message : Type 0 where
  unreadable no_k : Message
  k_fields : (Text → Json) → Bool → Message

-- `parseMsg`: `none` is an error, which skips the message.
unfoldable pub parse_msg : Conversions → Text → Text → Text → Message → Option (Kline × Bool)
unfolding to_float_safe to_int64_checked int64_value
parse_msg cv symbol exchange interval unreadable = none
parse_msg cv symbol exchange interval no_k = none
parse_msg cv symbol exchange interval (k_fields f x) = some (
  kline_of cv symbol (codes "spot") exchange interval (to_int64_safe cv (f (codes "t")))
      (to_int64_safe cv (f (codes "T"))) (f (codes "o")) (f (codes "h")) (f (codes "l"))
      (f (codes "c")) (f (codes "v")) (f (codes "q")) (f (codes "n")),
  x,
)
