-- ===== src/Storage/Names.antt =====
-- internal/storage/timescale.go, internal/storage/write_router.go and internal/backfill/klines.go: the
-- names of tables and of year databases. A year is a number from 1 on.
use scraper.Base.{
  ℕ, zero, suc, ◌+◌, ◌-◌, ◌/◌, ◌%◌, Bool, true, false, not, ◌&&◌, ◌||◌, [], ◌∷◌, ◌++◌, ok, err,
  Result, ltb, leb, ◌==◌, if◌then◌else◌, length,
}
use scraper.Text.{Text, codes, text_eq, is_empty, to_lower, to_upper, trim_space}
use scraper.Backfill.Request.{or_default}

-- strings.HasPrefix(s, prefix), with the prefix first.
unfoldable pub has_prefix : Text → Text → Bool
has_prefix [] s = true
has_prefix (p ∷ ps) [] = false
has_prefix (p ∷ ps) (c ∷ s) = p == c && has_prefix ps s

-- strings.Contains(s, part), for a part that is not empty.
unfoldable pub contains : Text → Text → Bool
unfolding has_prefix
contains part [] = false
contains part (c ∷ s) = has_prefix part (c ∷ s) || contains part s

-- strings.ReplaceAll(s, old, new), for an `old` that is not empty; `skip` counts the bytes of a match
-- that are still to drop.
unfoldable pub replace_from : Text → Text → ℕ → Text → Text
unfolding has_prefix
replace_from old new skip [] = []
replace_from old new (suc skip) (c ∷ s) = replace_from old new skip s
replace_from old new zero (c ∷ s) = elim (has_prefix old (c ∷ s)) [
  | true ↦ new ++ replace_from old new (length old - 1) s
  | false ↦ c ∷ replace_from old new 0 s
]

unfoldable pub replace_all : Text → Text → Text → Text
unfolding replace_from
replace_all s old new = replace_from old new 0 s

-- strconv.Itoa and `%d`. A round drops a digit, so `n` rounds are enough.
unfoldable pub itoa_from : ℕ → ℕ → Text
itoa_from zero n = (b'0' + n) ∷ []
itoa_from (suc fuel) n = elim (ltb n 10) [
  | true ↦ (b'0' + n) ∷ []
  | false ↦ itoa_from fuel (n / 10) ++ ((b'0' + n % 10) ∷ [])
]

unfoldable pub itoa : ℕ → Text
unfolding itoa_from
itoa n = itoa_from n n

abbrev pub exchange_mark : Text
exchange_mark = codes "{exchange}"

abbrev pub year_mark : Text
year_mark = codes "{year}"

-- fmt.Sprintf("%s_%d", s, year)
abbrev pub with_year : Text → ℕ → Text
with_year s year = s ++ (b'_' ∷ itoa year)

-- The end of both functions: the year in its place, or behind the name.
abbrev pub place_year : Text → ℕ → Text
place_year template year =
    if contains year_mark template
    then replace_all template year_mark (itoa year)
    else with_year template year

abbrev pub place_exchange : Text → Text → Text
place_exchange template exchange =
    if contains exchange_mark template
    then replace_all template exchange_mark exchange
    else template

-- backfill's `databaseForYear`.
unfoldable pub database_for_year : Text → Text → ℕ → Text
database_for_year base exchange year =
    let e = or_default (to_lower (trim_space exchange)) (codes "binance") in
    let b = or_default (trim_space base) (codes "{exchange}_{year}") in
    place_year (place_exchange b e) year

pub data NameError : Type 0 where
  no_exchange bad_year fixed_database : NameError

-- storage's `DatabaseNameForYear`.
unfoldable pub database_name_for_year : Text → Text → ℕ → Result NameError Text
unfolding is_empty
database_name_for_year template exchange year =
    let e = to_lower (trim_space exchange) in
    let t = trim_space template in
    if is_empty e
    then err no_exchange
    else if ltb year 1970
    then err bad_year
    else if is_empty t
    then ok (with_year e year)
    else if text_eq t e
    then err fixed_database
    else ok (place_year (place_exchange t e) year)

unfoldable pub normalize_market : Text → Text
normalize_market market =
    let m = to_lower (trim_space market) in
    if not (text_eq m (codes "futures")) then codes "spot" else m

-- unicode.IsLetter(r) || unicode.IsDigit(r)
unfoldable pub is_alnum : ℕ → Bool
is_alnum c =
    (leb b'a' c && leb c b'z') || ((leb b'A' c && leb c b'Z') || (leb b'0' c && leb c b'9'))

unfoldable pub keep_alnum : Text → Text
unfolding is_alnum
keep_alnum [] = []
keep_alnum (c ∷ s) = let rest = keep_alnum s in if is_alnum c then c ∷ rest else rest

unfoldable pub normalize_symbol_for_table : Text → Text
unfolding or_default
normalize_symbol_for_table symbol =
    or_default (keep_alnum (to_lower (trim_space symbol))) (codes "unknown")

unfoldable pub normalize_symbol_for_write : Text → Text
normalize_symbol_for_write symbol = to_upper (trim_space symbol)

-- storage's `buildTableName`.
unfoldable pub build_table_name : Text → Text → Text → Text → Text
unfolding is_empty
build_table_name market data_type symbol interval =
    let name =
      normalize_market market
      ++ (b'_' ∷ (data_type ++ (b'_' ∷ normalize_symbol_for_table symbol))) in
    if text_eq data_type (codes "klines") && not (is_empty interval)
    then name ++ (b'_' ∷ to_lower interval)
    else name

-- The table of `InsertKline`, from a row's market, symbol and interval.
unfoldable pub insert_kline_table : Text → Text → Text → Text
unfolding or_default
insert_kline_table market symbol interval =
    build_table_name market (codes "klines") (normalize_symbol_for_write symbol)
      (or_default interval (codes "1m"))

-- backfill's `buildKlineTableName`.
unfoldable pub build_kline_table_name : Text → Text → Text → Text
build_kline_table_name market symbol interval =
    let m = to_lower (trim_space market) in
    let m' = if not (text_eq m (codes "futures")) then codes "spot" else m in
    m'
    ++ (codes "_klines_"
        ++ (to_lower (trim_space symbol) ++ (b'_' ∷ to_lower (trim_space interval))))
