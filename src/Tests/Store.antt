-- ===== src/Tests/Store.antt =====
-- A store with no tables, its migrations, the tables of a query, and a lease.
use scraper.Base.{
  ◌+◌, ◌≡◌, ◌↔◌, refl, Bool, true, false, List, [], ◌∷◌, Option, none, some, Result, ok, arith,
}
use scraper.Base.State.{Post}
use scraper.Base.Int.{pos}
use scraper.Text.{
  Text, codes, text_eq, is_empty, to_lower, to_upper, lower_char, upper_char, trim_space, trim_left,
  trim_right, keep_right, is_space,
}
use scraper.Time.{Time, minute, year, year_of_day, year_begin, days_before}
use scraper.Models.{Kline}
use scraper.Storage.Domain.{WriterLeaseDomain}
use scraper.Storage.Names.{
  build_table_name, insert_kline_table, normalize_symbol_for_write, normalize_market,
  normalize_symbol_for_table, keep_alnum, is_alnum, itoa,
}
use scraper.Storage.Timescale.{
  insert_row, create_table, Session, Exec, insert_kline_rows, funding_rate_table, insert_kline_row,
  optimistic_insert_with_lazy_create, exec_statement, conflict_key,
}
use scraper.Storage.Timescale.Rows.{stored_rows, add_row, is_stored}
use scraper.Storage.Timescale.Inserted.{kline_entry, AllOrPrefix, insert_kline_rows-AllOrPrefix}
use scraper.Storage.Timescale.Works.{has_table, IsOk, insert_kline_rows-IsOk}
use scraper.Storage.Reads.{
  build_symbol_year_table_name, funding_rate_tables, filter_existing_tables, build_read_table_names,
  years_between, years_from, get_legacy_table_name,
}
use scraper.Storage.Reads.Tables.{In, funding_rate_tables-In}
use scraper.Storage.Migrations.{Schema, run_migrations, list_migration_files}
use scraper.Storage.Migrations.Applied.{Reaches, Migrated, run_migrations-Migrated}
use scraper.Control.Lease.{WriterLease, Renew, new_writer_lease_manager, acquire}
use scraper.Control.Lease.Granted.{IsGranted, acquire_iff}

abbrev start : Time
start = 63_871_286_400_000_000_000

abbrev kline : Kline
kline = record {
  time = start;
  symbol = codes "btcusdt";
  market = codes "spot";
  exchange = codes "binance";
  interval = codes "1m";
  open_time = start;
  close_time = start + 59_999_000_000;
  open_price = 0;
  high = 0;
  low = 0;
  close = 0;
  volume = 0;
  quote_volume = 0;
  num_trades = pos 3;
}

-- A server with no tables.
abbrev answer_row : Bool → Option Text
answer_row true = none
answer_row false = some (codes "undefined_table")

abbrev exec : Exec
exec n executed (insert_row table row) = answer_row (has_table table executed)
exec n executed (create_table table market kind exchange) = none

abbrev session : Session
session = record { calls = 0; executed = [] }

insert_kline_rows-AllOrPrefix_example :
    AllOrPrefix kline_entry
      (kline ∷ kline ∷ [])
      []
      (insert_kline_rows exec (codes "binance") (kline ∷ kline ∷ []) session)
unfolding stored_rows
insert_kline_rows-AllOrPrefix_example =
    insert_kline_rows-AllOrPrefix exec (codes "binance") (kline ∷ kline ∷ []) [] session refl

-- A K-line that comes twice is one row.
one_row :
    stored_rows (insert_kline_rows exec (codes "binance") (kline ∷ kline ∷ []) session).0.executed
    ≡ kline_entry kline ∷ []
unfolding insert_kline_rows insert_kline_row optimistic_insert_with_lazy_create exec_statement
    stored_rows add_row is_stored conflict_key text_eq insert_kline_table build_table_name
    normalize_market normalize_symbol_for_write to_lower trim_space lower_char
    normalize_symbol_for_table keep_alnum to_upper upper_char
one_row = refl

insert_kline_rows-IsOk_example :
    IsOk (insert_kline_rows exec (codes "binance") (kline ∷ kline ∷ []) session)
insert_kline_rows-IsOk_example =
    insert_kline_rows-IsOk exec
      (record {
        takes_table = λ n executed t m k e. refl;
        takes_row = λ n executed t row h. rw h refl;
      })
      (codes "binance") (kline ∷ kline ∷ []) session

abbrev a_minute_before : Time
a_minute_before = 63_871_286_340_000_000_000

abbrev all_exist : Text → Result Text Bool
all_exist name = ok true

abbrev names : List Text
names =
    codes "futures_funding_rates_btcusdt"
    ∷ codes "futures_funding_rates_BTCUSDT_2024"
    ∷ codes "futures_funding_rates_BTCUSDT_2025"
    ∷ codes "futures_funding_rates"
    ∷ []

tables : funding_rate_tables all_exist (codes "btcusdt") a_minute_before (start + minute) ≡ ok names
unfolding funding_rate_tables filter_existing_tables build_read_table_names years_between years_from
    build_symbol_year_table_name get_legacy_table_name build_table_name normalize_market
    normalize_symbol_for_table keep_alnum is_alnum itoa year year_of_day year_begin days_before
    text_eq is_empty to_lower to_upper lower_char upper_char trim_space trim_left trim_right
    keep_right is_space
tables = refl

funding_rate_tables-In_example :
    let earlier =
      build_symbol_year_table_name
        (codes "futures")
        (codes "funding_rates")
        (codes "btcusdt")
        start in
    (all_exist (funding_rate_table (codes "btcusdt")) ≡ ok true
      → In (funding_rate_table (codes "btcusdt")) names)
    × (all_exist earlier ≡ ok true → In earlier names)
funding_rate_tables-In_example =
    funding_rate_tables-In all_exist (codes "btcusdt") a_minute_before (start + minute) start names
      tables (omega arith) (omega arith)

directory : Result Text (List (Text × Bool))
directory =
    ok ((codes "002_b.sql", false) ∷ (codes "README.md", false) ∷ (codes "001_a.sql", false) ∷ [])

abbrev schema : Schema
schema = record { migrations = codes "001_a.sql" ∷ []; executed = []; calls = 0 }

run_migrations-Migrated_example :
    Post
      (λ s'. Reaches (codes "001_a.sql" ∷ []) [] s')
      (λ _ s'. Migrated (list_migration_files directory) schema s')
      (run_migrations (λ n c. none) directory schema)
run_migrations-Migrated_example = run_migrations-Migrated (λ n c. none) directory schema

abbrev lease : WriterLease
lease = record {
  lease_id = codes "1";
  owner_instance_id = codes "scraper-1";
  scraper_instance_id = codes "scraper-1";
  collector_id = codes "c";
  status = codes "ACTIVE";
  expires_at = start + minute;
}

abbrev domain : WriterLeaseDomain
domain = record {
  exchange = codes "binance";
  market = codes "spot";
  kind = codes "kline";
  symbol = codes "BTCUSDT";
  interval = codes "1m";
  year_of = 2025;
}

abbrev renew : Option Renew
renew = some (λ d owner scraper collector ttl. ok lease)

acquire_iff_example :
    (acquire start
        (new_writer_lease_manager renew [] (codes "scraper-1") (pos 0))
        domain
        (codes "c")
      ≡ ok lease)
    ↔ IsGranted start [] (codes "scraper-1") (codes "c") (pos 0) renew domain lease
acquire_iff_example =
    acquire_iff start renew [] (codes "scraper-1") (pos 0) domain (codes "c") lease
