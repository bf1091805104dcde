-- ===== src/Storage/Databases.antt =====
-- The database of a written row and the database in which the check looks for it.
use scraper.Base.{ℕ, ◌≡◌, false, arith, ok}
use scraper.Text.{Text, is_empty, trim_space}
use scraper.Backfill.Request.{or_default}
use scraper.Storage.Names.{database_for_year, database_name_for_year}

-- If the writer accepts a template that is not blank and names a database for a year, then the check
-- looks for the rows of that year in this database.
pub database_names_agree :
    (template exchange : Text) (year : ℕ) (name : Text)
    → is_empty (trim_space template) ≡ false
    → database_name_for_year template exchange year ≡ ok name
    → database_for_year template exchange year ≡ name
unfolding database_name_for_year database_for_year or_default
database_names_agree template exchange year name given accepted = grind (arith, given, accepted)
