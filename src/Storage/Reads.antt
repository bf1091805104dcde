-- ===== src/Storage/Reads.antt =====
-- internal/storage/timescale.go: the tables that `QueryFundingRatesByRange` reads. The existence of
-- a table is a parameter.
pub mod Tables
use scraper.Base.{
  ℕ, zero, suc, ◌+◌, ◌-◌, Bool, true, false, List, [], ◌∷◌, ◌++◌, map, Result, ok, err, ltb,
  if◌then◌else◌,
}
use scraper.Text.{Text, codes, text_eq, is_empty, to_upper, trim_space}
use scraper.Time.{Time, year, year_begin}
use scraper.Storage.Names.{itoa, normalize_market, build_table_name}

-- n years from y.
unfoldable pub years_from : ℕ → ℕ → List ℕ
years_from y zero = []
years_from y (suc n) = y ∷ years_from (y + 1) n

-- `yearsBetween`, with the two times in order or exchanged.
unfoldable pub years_between : Time → Time → List ℕ
unfolding years_from
years_between start_time end_time =
    if ltb end_time start_time
    then years_from (year end_time) (year start_time + 1 - year end_time)
    else years_from (year start_time) (year end_time + 1 - year start_time)

unfoldable pub build_symbol_year_table_name : Text → Text → Text → Time → Text
build_symbol_year_table_name market data_type symbol ts =
    normalize_market market
    ++ (b'_' ∷ (data_type ++ (b'_' ∷ (to_upper (trim_space symbol) ++ (b'_' ∷ itoa (year ts))))))

unfoldable pub get_legacy_table_name : Text → Text → Text
get_legacy_table_name market data_type =
    if text_eq data_type (codes "klines")
    then (if text_eq market (codes "futures") then codes "futures_klines" else codes "spot_klines")
    else if text_eq data_type (codes "orderbook")
    then (if text_eq market (codes "futures")
        then codes "futures_orderbook"
        else codes "spot_orderbook")
    else if text_eq data_type (codes "funding_rates")
    then codes "futures_funding_rates"
    else if text_eq data_type (codes "open_interest")
    then codes "futures_open_interest"
    else []

unfoldable pub build_read_table_names : Text → Text → Text → Time → Time → List Text
unfolding years_between build_symbol_year_table_name get_legacy_table_name
build_read_table_names market data_type symbol start_time end_time =
    let m = normalize_market market in
    build_table_name m data_type symbol []
    ∷ (map (λ y. build_symbol_year_table_name m data_type symbol (year_begin y))
          (years_between start_time end_time)
        ++ (get_legacy_table_name m data_type ∷ []))

-- A table with the answer of the server and the tables after it.
abbrev pub keep_existing :
    Text → Result Text Bool → Result Text (List Text) → Result Text (List Text)
keep_existing name (err e) rest = err e
keep_existing name (ok false) rest = rest
keep_existing name (ok true) (err e) = err e
keep_existing name (ok true) (ok existing) = ok (name ∷ existing)

unfoldable pub filter_existing_tables :
    (Text → Result Text Bool) → List Text → Result Text (List Text)
unfolding is_empty
filter_existing_tables exists [] = ok []
filter_existing_tables exists (name ∷ names) =
    let rest = filter_existing_tables exists names in
    if is_empty name then rest else keep_existing name (exists name) rest

-- The tables of the query.
unfoldable pub funding_rate_tables :
    (Text → Result Text Bool) → Text → Time → Time → Result Text (List Text)
unfolding build_read_table_names filter_existing_tables
funding_rate_tables exists symbol start_time end_time =
    filter_existing_tables exists
      (build_read_table_names (codes "futures") (codes "funding_rates") symbol start_time end_time)
