-- ===== src/Storage/Ensure.antt =====
-- cmd/ensure-scraper-db/main.go: the target databases, and their migrations, each in a transaction
-- of its own. The environment and what the server answers are parameters.
pub mod Targets
pub mod Steps
use scraper.Base.{
  ℕ, ◌+◌, ◌-◌, Bool, true, false, not, ◌&&◌, ◌||◌, List, [], ◌∷◌, ◌++◌, map, Option, none, some, ok,
  err, Result, ltb, leb, ◌==◌, if◌then◌else◌, length,
}
use scraper.Base.Int.{ℤ, pos, negsuc, atoi}
use scraper.Base.State.{Action, pure, ◌>>=◌}
use scraper.Text.{Text, codes, text_eq, is_empty, trim_space}
use scraper.Backfill.Request.{or_default}
use scraper.Storage.Names.{itoa, has_prefix, with_year}
use scraper.Storage.Migrations.{is_applied}

-- `strings.Split(raw, ",")`: the part before the first comma, and those after.
unfoldable pub split_commas : Text → Text → List Text
split_commas part [] = part ∷ []
split_commas part (c ∷ s) =
    let here = split_commas (part ++ (c ∷ [])) s in
    let next = split_commas [] s in if c == b',' then part ∷ next else here

-- The trimmed parts that are not empty.
unfoldable pub trimmed_parts : List Text → List Text
unfolding is_empty
trimmed_parts [] = []
trimmed_parts (part ∷ parts) =
    let rest = trimmed_parts parts in
    if is_empty (trim_space part) then rest else trim_space part ∷ rest

unfoldable pub split_csv : Text → List Text
unfolding split_commas trimmed_parts
split_csv raw = trimmed_parts (split_commas [] raw)

pub data TargetError : Type 0 where
  bad_year bad_exchange bad_database : Text → TargetError
  no_years no_targets : TargetError

-- A year of the list, from 1970 to 9999.
abbrev pub year_in_range : Option ℤ → Option ℕ
year_in_range none = none
year_in_range (some (negsuc n)) = none
year_in_range (some (pos n)) = if ltb n 1970 || ltb 9999 n then none else some n

abbrev pub with_year_part :
    Text → Option ℕ → Result TargetError (List ℕ) → Result TargetError (List ℕ)
with_year_part part none rest = err (bad_year part)
with_year_part part (some n) (err e) = err e
with_year_part part (some n) (ok ns) = ok (n ∷ ns)

-- The loop of `targetYears`; the parts are read from the left, so that the first error is the result.
unfoldable pub parsed_years : List Text → Result TargetError (List ℕ)
parsed_years [] = ok []
parsed_years (part ∷ parts) =
    let rest = parsed_years parts in with_year_part part (year_in_range (atoi part)) rest

abbrev pub some_years : Result TargetError (List ℕ) → Result TargetError (List ℕ)
some_years (err e) = err e
some_years (ok []) = err no_years
some_years (ok (n ∷ ns)) = ok (n ∷ ns)

unfoldable pub target_years : Text → Result TargetError (List ℕ)
unfolding parsed_years split_csv
target_years raw = some_years (parsed_years (split_csv raw))

-- `validateExchangeYearDatabase` after the prefix of an exchange.
abbrev pub valid_year_part : Text → Option ℤ → Bool
valid_year_part s none = false
valid_year_part s (some (negsuc n)) = false
valid_year_part s (some (pos n)) = length s == 4 && not (ltb n 1970)

unfoldable pub drop_bytes : ℕ → Text → Text
drop_bytes n [] = []
drop_bytes n (c ∷ s) = let rest = drop_bytes (n - 1) s in if n == 0 then c ∷ s else rest

unfoldable pub is_exchange_year : Text → Bool
unfolding has_prefix drop_bytes text_eq
is_exchange_year dbname =
    if text_eq dbname (codes "binance") || text_eq dbname (codes "okx")
    then false
    else if has_prefix (codes "binance_") dbname
    then valid_year_part (drop_bytes 8 dbname) (atoi (drop_bytes 8 dbname))
    else if has_prefix (codes "okx_") dbname
    then valid_year_part (drop_bytes 4 dbname) (atoi (drop_bytes 4 dbname))
    else false

-- The databases of `SCRAPER_DBS`.
unfoldable pub named_targets : List Text → Result TargetError (List Text)
unfolding is_exchange_year
named_targets [] = ok []
named_targets (dbname ∷ dbnames) =
    let rest = named_targets dbnames in
    if is_exchange_year dbname
    then elim rest [ err e ↦ err e | ok names ↦ ok (dbname ∷ names) ]
    else err (bad_database dbname)

abbrev pub is_supported : Text → Bool
is_supported exchange = text_eq exchange (codes "binance") || text_eq exchange (codes "okx")

-- The loop over the exchanges.
unfoldable pub product_targets : List ℕ → List Text → Result TargetError (List Text)
unfolding text_eq
product_targets years [] = ok []
product_targets years (exchange ∷ exchanges) =
    let rest = product_targets years exchanges in
    if not (is_supported exchange)
    then err (bad_exchange exchange)
    else elim rest [ err e ↦ err e | ok names ↦ ok (map (with_year exchange) years ++ names) ]

abbrev pub some_targets : Result TargetError (List Text) → Result TargetError (List Text)
some_targets (err e) = err e
some_targets (ok []) = err no_targets
some_targets (ok (name ∷ names)) = ok (name ∷ names)

abbrev pub with_years : List Text → Result TargetError (List ℕ) → Result TargetError (List Text)
with_years exchanges (err e) = err e
with_years exchanges (ok years) = some_targets (product_targets years exchanges)

-- The variables, empty if they are not set.
pub record Environment : Type 0 where
  pub scraper_dbs : Text
  pub scraper_exchanges : Text
  pub scraper_years : Text

-- `targetDatabases`
unfoldable pub target_databases : Environment → ℕ → Result TargetError (List Text)
unfolding named_targets product_targets target_years split_csv is_empty or_default
target_databases env current_year =
    if not (is_empty (trim_space env.scraper_dbs))
    then named_targets (split_csv (trim_space env.scraper_dbs))
    else with_years (split_csv (or_default env.scraper_exchanges (codes "binance,okx")))
        (target_years (or_default env.scraper_years (itoa current_year)))

-- The table of migrations of a database, and the files whose text was executed and committed,
-- newest first.
pub record Migrating : Type 0 where
  pub migrations : List Text
  pub executed : List Text
  pub calls : ℕ

pub data StepCall : Type 0 where
  connects locks ensures : StepCall
  begins checks executes records commits : Text → StepCall

abbrev pub G : Type 0 → Type 0
G A = Action Migrating Text A

module _ (answers : ℕ → StepCall → Option Text) where
  abbrev pub answered : Option Text → G (Unit {0})
  answered none s = (record s { calls = s.calls + 1 }, ok tt)
  answered (some e) s = (record s { calls = s.calls + 1 }, err e)

  abbrev pub step : StepCall → G (Unit {0})
  step c s = answered (answers s.calls c) s

  -- What a transaction did shows with its commit; an error before it rolls back.
  abbrev pub committed : Text → G (Unit {0})
  committed name s =
      (record s { migrations = name ∷ s.migrations; executed = name ∷ s.executed }, ok tt)

  abbrev pub unless_known : Text → Bool → G (Unit {0})
  unless_known name true = pure tt
  unless_known name false = do
    _ ← step (executes name)
    _ ← step (records name)
    _ ← step (commits name)
    committed name

  abbrev pub apply_migration : Text → G (Unit {0})
  apply_migration name = do
    _ ← step (begins name)
    _ ← step (checks name)
    λ s. unless_known name (is_applied name s.migrations) s

  unfoldable pub apply_each : List Text → G (Unit {0})
  unfolding is_applied
  apply_each [] = pure tt
  apply_each (name ∷ names) = do _ ← apply_migration name; apply_each names

  -- `applyMigrationsToDB`
  unfoldable pub apply_migrations_to_db : List Text → G (Unit {0})
  unfolding apply_each
  apply_migrations_to_db names = do
    _ ← step connects
    _ ← step locks
    _ ← step ensures
    apply_each names
