-- ===== src/Storage/Ensure/Targets.antt =====
-- The targets are the databases that the writer names.
use scraper.Base.{
  ℕ, ◌≤◌, ◌≡◌, refl, subst, sym, inl, inr, true, false, not, List, [], ◌∷◌, ◌++◌, map, Option, none,
  some, ok, err, Result, All, All-append, append-nil, Bool-cases, arith, ltb,
}
use scraper.Base.Int.{ℤ, pos, negsuc, atoi}
use scraper.Text.{
  Text, codes, text_eq, is_empty, to_lower, lower_char, trim_space, trim_left, trim_right,
  keep_right, is_space,
}
use scraper.Text.Laws.{text_eq→≡}
use scraper.Backfill.Request.{or_default}
use scraper.Storage.Names.{
  itoa, database_name_for_year, with_year, contains, has_prefix, replace_all, replace_from,
}
use scraper.Storage.Ensure.{
  TargetError, year_in_range, with_year_part, parsed_years, some_years, target_years, is_supported,
  product_targets, some_targets, with_years, Environment, target_databases, split_csv,
}

abbrev pub IsYear : ℕ → Type 0
IsYear y = (1970 ≤ y) × (y ≤ 9999)

-- The writer gives this name to the database of a supported exchange and a year.
abbrev pub IsWritten : Text → Type 0
IsWritten name =
    (exchange : Text) × (year : ℕ) × (is_supported exchange ≡ true)
    × IsYear year
    × (database_name_for_year (codes "{exchange}_{year}") exchange year ≡ ok name)

abbrev IsYears : Result TargetError (List ℕ) → Type 0
IsYears (err e) = Unit
IsYears (ok ns) = All IsYear ns

abbrev pub AreWritten : Result TargetError (List Text) → Type 0
AreWritten (err e) = Unit
AreWritten (ok names) = All IsWritten names

year_in_range-IsYear : (o : Option ℤ) (n : ℕ) → year_in_range o ≡ some n → IsYear n
year_in_range-IsYear none n h = cc
year_in_range-IsYear (some (negsuc k)) n h = cc
year_in_range-IsYear (some (pos k)) n h = grind (arith, h)

with_year_part-IsYears :
    (part : Text) (o : Option ℕ) (rest : Result TargetError (List ℕ))
    → ((n : ℕ) → o ≡ some n → IsYear n)
    → IsYears rest
    → IsYears (with_year_part part o rest)
with_year_part-IsYears part none rest h k = tt
with_year_part-IsYears part (some n) (err e) h k = tt
with_year_part-IsYears part (some n) (ok ns) h k = (h n refl, k)

parsed_years-IsYears : (parts : List Text) → IsYears (parsed_years parts)
unfolding parsed_years
parsed_years-IsYears [] = tt
parsed_years-IsYears (part ∷ parts) =
    with_year_part-IsYears part (year_in_range (atoi part)) (parsed_years parts)
      (λ n h. year_in_range-IsYear (atoi part) n h) (parsed_years-IsYears parts)

some_years-IsYears : (r : Result TargetError (List ℕ)) → IsYears r → IsYears (some_years r)
some_years-IsYears (err e) h = tt
some_years-IsYears (ok []) h = tt
some_years-IsYears (ok (n ∷ ns)) h = h

-- The writer's name, of both exchanges.
binance_written :
    (y : ℕ)
    → 1970 ≤ y
    → database_name_for_year (codes "{exchange}_{year}") (codes "binance") y
      ≡ ok (with_year (codes "binance") y)
unfolding database_name_for_year text_eq is_empty to_lower lower_char trim_space trim_left
    trim_right keep_right is_space contains has_prefix replace_all replace_from
binance_written y h =
    let late : ltb y 1970 ≡ false = ground (arith, h) in rw (late, append-nil (itoa y)) refl

okx_written :
    (y : ℕ)
    → 1970 ≤ y
    → database_name_for_year (codes "{exchange}_{year}") (codes "okx") y
      ≡ ok (with_year (codes "okx") y)
unfolding database_name_for_year text_eq is_empty to_lower lower_char trim_space trim_left
    trim_right keep_right is_space contains has_prefix replace_all replace_from
okx_written y h =
    let late : ltb y 1970 ≡ false = ground (arith, h) in rw (late, append-nil (itoa y)) refl

supported-IsWritten :
    (exchange : Text) (y : ℕ)
    → is_supported exchange ≡ true
    → IsYear y
    → IsWritten (with_year exchange y)
supported-IsWritten exchange y h year = (exchange, y, h, year, named)
  where
    named :
        database_name_for_year (codes "{exchange}_{year}") exchange y ≡ ok (with_year exchange y)
    named = elim (Bool-cases (text_eq exchange (codes "binance"))) [
      | inl first ↦
          let same : exchange ≡ codes "binance" = text_eq→≡ exchange (codes "binance") first in
          subst (λ e. database_name_for_year (codes "{exchange}_{year}") e y ≡ ok (with_year e y))
            (sym same) (binance_written y year.0)
      | inr other ↦
          let same : exchange ≡ codes "okx" =
            text_eq→≡ exchange (codes "okx") (ground (arith, h, other)) in
          subst (λ e. database_name_for_year (codes "{exchange}_{year}") e y ≡ ok (with_year e y))
            (sym same) (okx_written y year.0)
    ]

exchange-IsWritten :
    (exchange : Text) (years : List ℕ)
    → is_supported exchange ≡ true
    → All IsYear years
    → All IsWritten (map (with_year exchange) years)
exchange-IsWritten exchange [] h all = tt
exchange-IsWritten exchange (y ∷ years) h all =
    (supported-IsWritten exchange y h all.0, exchange-IsWritten exchange years h all.1)

product_targets-AreWritten :
    (years : List ℕ) (exchanges : List Text)
    → All IsYear years
    → AreWritten (product_targets years exchanges)
unfolding product_targets
product_targets-AreWritten years [] all = tt
product_targets-AreWritten years (exchange ∷ exchanges) all =
    elim (Bool-cases (not (is_supported exchange))) [
      | inl foreign ↦ rw foreign tt
      | inr known ↦ rw known (
          go (product_targets years exchanges) (product_targets-AreWritten years exchanges all)
            (ground (arith, known)))
    ]
  where
    go :
        (rest : Result TargetError (List Text))
        → AreWritten rest
        → is_supported exchange ≡ true
        → AreWritten (elim rest as (λ _. Result TargetError (List Text)) [
          | err e ↦ err e
          | ok names ↦ ok (map (with_year exchange) years ++ names)
        ])
    go (err e) h known = tt
    go (ok names) h known =
        All-append IsWritten (map (with_year exchange) years) names
          (exchange-IsWritten exchange years known all) h

some_targets-AreWritten :
    (r : Result TargetError (List Text)) → AreWritten r → AreWritten (some_targets r)
some_targets-AreWritten (err e) h = tt
some_targets-AreWritten (ok []) h = tt
some_targets-AreWritten (ok (name ∷ names)) h = h

with_years-AreWritten :
    (exchanges : List Text) (r : Result TargetError (List ℕ))
    → IsYears r
    → AreWritten (with_years exchanges r)
with_years-AreWritten exchanges (err e) h = tt
with_years-AreWritten exchanges (ok years) h =
    some_targets-AreWritten (product_targets years exchanges)
      (product_targets-AreWritten years exchanges h)

-- Without a list of databases, if the targets can be found, then each of them is the database that
-- the writer names, by the template "{exchange}_{year}", for a supported exchange and a year from
-- 1970 to 9999.
pub target_databases-AreWritten :
    (env : Environment) (current_year : ℕ)
    → is_empty (trim_space env.scraper_dbs) ≡ true
    → AreWritten (target_databases env current_year)
unfolding target_databases target_years
target_databases-AreWritten env current_year h = rw h (
    with_years-AreWritten (split_csv (or_default env.scraper_exchanges (codes "binance,okx"))) _ (
      some_years-IsYears _
        (parsed_years-IsYears (split_csv (or_default env.scraper_years (itoa current_year))))))
