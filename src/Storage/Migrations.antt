-- ===== src/Storage/Migrations.antt =====
-- internal/storage/timescale.go: `listMigrationFiles` and `runMigrations`. The directory, the files
-- and what the server answers are parameters. The transaction holds a lock, so that no other
-- changes the table of migrations.
pub mod Applied
use scraper.Base.{
  ℕ, ◌+◌, Bool, true, false, not, ◌&&◌, ◌||◌, List, [], ◌∷◌, ◌++◌, Option, none, some, ok, err,
  Result, ltb, ◌==◌, if◌then◌else◌,
}
use scraper.Base.State.{Action, pure, ◌>>=◌}
use scraper.Text.{Text, codes, text_eq}

-- strings.HasSuffix(s, ".sql")
unfoldable pub has_sql_suffix : Text → Bool
unfolding text_eq
has_sql_suffix [] = false
has_sql_suffix (c ∷ s) = text_eq (c ∷ s) (codes ".sql") || has_sql_suffix s

-- The order of strings.
unfoldable pub text_leb : Text → Text → Bool
text_leb [] t = true
text_leb (a ∷ s) [] = false
text_leb (a ∷ s) (b ∷ t) = ltb a b || (a == b && text_leb s t)

-- `sort.Strings`, by insertion.
unfoldable pub insert_text : Text → List Text → List Text
unfolding text_leb
insert_text s [] = s ∷ []
insert_text s (t ∷ ts) =
    let rest = insert_text s ts in if text_leb s t then s ∷ t ∷ ts else t ∷ rest

unfoldable pub sort_texts : List Text → List Text
unfolding insert_text
sort_texts [] = []
sort_texts (s ∷ ss) = insert_text s (sort_texts ss)

-- The names of the entries of the directory that are no directories and end in ".sql".
unfoldable pub migration_names : List (Text × Bool) → List Text
unfolding has_sql_suffix
migration_names [] = []
migration_names ((name, is_dir) ∷ entries) =
    let rest = migration_names entries in
    if not is_dir && has_sql_suffix name then name ∷ rest else rest

unfoldable pub list_migration_files : Result Text (List (Text × Bool)) → Result Text (List Text)
unfolding migration_names sort_texts
list_migration_files (err e) = err e
list_migration_files (ok entries) = ok (sort_texts (migration_names entries))

-- The table of migrations, and the files whose text was executed, newest first.
pub record Schema : Type 0 where
  pub migrations : List Text
  pub executed : List Text
  pub calls : ℕ

-- The steps that may fail, by the number of the call.
pub data MigrationCall : Type 0 where
  begins locks ensures commits : MigrationCall
  checks reads executes records : Text → MigrationCall

abbrev pub Answers : Type 0
Answers = ℕ → MigrationCall → Option Text

unfoldable pub is_applied : Text → List Text → Bool
is_applied file [] = false
is_applied file (f ∷ fs) = text_eq f file || is_applied file fs

abbrev pub M : Type 0 → Type 0
M A = Action Schema Text A

module _ (answers : Answers) where
  abbrev pub answered : Option Text → M (Unit {0})
  answered none s = (record s { calls = s.calls + 1 }, ok tt)
  answered (some e) s = (record s { calls = s.calls + 1 }, err e)

  abbrev pub call : MigrationCall → M (Unit {0})
  call c s = answered (answers s.calls c) s

  abbrev pub applied : Text → M (Unit {0})
  applied file s =
      (record s { migrations = file ∷ s.migrations; executed = file ∷ s.executed }, ok tt)

  -- The text of a file is read and executed, and its name is recorded; what is done shows at the end.
  abbrev pub apply_file : Text → M (Unit {0})
  apply_file file = do
    _ ← call (reads file)
    _ ← call (executes file)
    _ ← call (records file)
    applied file

  abbrev pub unless_applied : Text → Bool → M (Unit {0})
  unless_applied file true = pure tt
  unless_applied file false = apply_file file

  -- A round of the loop.
  abbrev pub migrate_file : Text → M (Unit {0})
  migrate_file file = do
    _ ← call (checks file)
    λ s. unless_applied file (is_applied file s.migrations) s

  unfoldable pub migrate_files : List Text → M (Unit {0})
  unfolding is_applied
  migrate_files [] = pure tt
  migrate_files (file ∷ files) = do _ ← migrate_file file; migrate_files files

  -- From the transaction's begin to its commit.
  unfoldable pub migrate_all : List Text → M (Unit {0})
  unfolding migrate_files
  migrate_all files = do
    _ ← call begins
    _ ← call locks
    _ ← call ensures
    _ ← migrate_files files
    call commits

  -- `runMigrations`: after an error the transaction is rolled back.
  abbrev pub rolled_back :
      Schema → Schema × Result Text (Unit {0}) → Schema × Result Text (Unit {0})
  rolled_back s (s', ok a) = (s', ok a)
  rolled_back s (s', err e) = (record s { calls = s'.calls }, err e)

  abbrev pub with_files : Result Text (List Text) → M (Unit {0})
  with_files (err e) s = (s, err e)
  with_files (ok files) s = rolled_back s (migrate_all files s)

  unfoldable pub run_migrations : Result Text (List (Text × Bool)) → M (Unit {0})
  unfolding migrate_all list_migration_files
  run_migrations directory = with_files (list_migration_files directory)
