-- ===== src/Tests/Ensure.antt =====
-- The targets of an environment with nothing set, and the migrations of a database.
use scraper.Base.{◌≡◌, refl, true, [], ◌∷◌, none, ok}
use scraper.Base.Int.{atoi, unsigned, digits_value}
use scraper.Text.{codes, text_eq, is_empty, trim_space, trim_left, trim_right, keep_right, is_space}
use scraper.Backfill.Request.{or_default}
use scraper.Storage.Names.{itoa}
use scraper.Storage.Migrations.Applied.{pending}
use scraper.Storage.Ensure.{
  Environment, Migrating, target_databases, target_years, parsed_years, product_targets, split_csv,
  split_commas, trimmed_parts, apply_migrations_to_db,
}
use scraper.Storage.Ensure.Targets.{AreWritten, target_databases-AreWritten}
use scraper.Storage.Ensure.Steps.{AllOrBegan, apply_migrations_to_db-AllOrBegan}

abbrev env : Environment
env = record { scraper_dbs = []; scraper_exchanges = []; scraper_years = codes "2024, 2025" }

targets :
    target_databases env 2025
    ≡ ok (codes "binance_2024" ∷ codes "binance_2025" ∷ codes "okx_2024" ∷ codes "okx_2025" ∷ [])
unfolding target_databases target_years parsed_years product_targets split_csv split_commas
    trimmed_parts text_eq is_empty trim_space trim_left trim_right keep_right is_space or_default
    itoa atoi unsigned digits_value
targets = refl

unset : is_empty (trim_space env.scraper_dbs) ≡ true
unfolding is_empty trim_space trim_left trim_right keep_right
unset = refl

target_databases-AreWritten_example : AreWritten (target_databases env 2025)
target_databases-AreWritten_example = target_databases-AreWritten env 2025 unset

abbrev migrating : Migrating
migrating = record { migrations = codes "001_a.sql" ∷ []; executed = []; calls = 0 }

apply_migrations_to_db-AllOrBegan_example :
    AllOrBegan
      (pending (codes "001_a.sql" ∷ codes "002_b.sql" ∷ []) (codes "001_a.sql" ∷ []))
      (codes "001_a.sql" ∷ [])
      []
      (apply_migrations_to_db (λ n c. none) (codes "001_a.sql" ∷ codes "002_b.sql" ∷ []) migrating)
apply_migrations_to_db-AllOrBegan_example =
    apply_migrations_to_db-AllOrBegan (λ n c. none) (codes "001_a.sql" ∷ codes "002_b.sql" ∷ [])
      migrating
