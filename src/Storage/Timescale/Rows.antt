-- ===== src/Storage/Timescale/Rows.antt =====
-- internal/storage/timescale.go: the rows that the inserts leave in the tables, whose statements end with
-- `ON CONFLICT … DO NOTHING`.
use scraper.Base.{
  ◌≡◌, inl, inr, Bool, true, false, ◌&&◌, ◌||◌, List, [], ◌∷◌, map, All, Bool-cases, arith, ◌==◌,
  if◌then◌else◌,
}
use scraper.Text.{Text, text_eq}
use scraper.Text.Laws.{text_eq_refl}
use scraper.Storage.Timescale.{Row, conflict_key, Statement, insert_row, create_table}

-- A row with the same conflict key in the same table. The times are those that are sent: the server keeps
-- them to the microsecond, and those of K-lines and open interests are of a millisecond.
abbrev pub has_same_key : Text × Row → Text × Row → Bool
has_same_key (table, row) (table', row') =
    let (time, symbol, period) = conflict_key row in
    let (time', symbol', period') = conflict_key row' in
    text_eq table table' && (time == time' && (text_eq symbol symbol' && text_eq period period'))

unfoldable pub is_stored : Text × Row → List (Text × Row) → Bool
is_stored x [] = false
is_stored x (y ∷ rows) = has_same_key x y || is_stored x rows

-- `ON CONFLICT … DO NOTHING`
unfoldable pub add_row : Text × Row → List (Text × Row) → List (Text × Row)
unfolding is_stored
add_row x rows = if is_stored x rows then rows else x ∷ rows

-- The rows that executed statements leave, with their tables, newest first.
unfoldable pub stored_rows : List Statement → List (Text × Row)
unfolding add_row
stored_rows [] = []
stored_rows (insert_row table row ∷ statements) = add_row (table, row) (stored_rows statements)
stored_rows (create_table table market kind exchange ∷ statements) = stored_rows statements

-- Rows in order on top of those before, less those whose key is there.
unfoldable pub add_rows : List (Text × Row) → List (Text × Row) → List (Text × Row)
unfolding add_row
add_rows [] before = before
add_rows (x ∷ xs) before = add_rows xs (add_row x before)

is_stored_self : (x : Text × Row) (rows : List (Text × Row)) → is_stored x (x ∷ rows) ≡ true
unfolding is_stored
is_stored_self (table, row) rows =
    let (time, symbol, period) = conflict_key row in
    ground (arith, text_eq_refl table, text_eq_refl symbol, text_eq_refl period)

pub is_stored-add_row :
    (x : Text × Row) (rows : List (Text × Row)) → is_stored x (add_row x rows) ≡ true
unfolding add_row
is_stored-add_row x rows = elim (Bool-cases (is_stored x rows)) [
  | inl there ↦ rw there there
  | inr fresh ↦ rw fresh (is_stored_self x rows)
]

-- What is stored stays stored.
add_row-keeps :
    (x y : Text × Row) (rows : List (Text × Row))
    → is_stored x rows ≡ true
    → is_stored x (add_row y rows) ≡ true
unfolding add_row is_stored
add_row-keeps x y rows h = elim (Bool-cases (is_stored y rows)) [
  | inl there ↦ rw there h
  | inr fresh ↦ rw fresh (ground (arith, h))
]

add_rows-keeps :
    (x : Text × Row) (xs rows : List (Text × Row))
    → is_stored x rows ≡ true
    → is_stored x (add_rows xs rows) ≡ true
unfolding add_rows
add_rows-keeps x [] rows h = h
add_rows-keeps x (y ∷ xs) rows h = add_rows-keeps x xs (add_row y rows) (add_row-keeps x y rows h)

pub add_rows-stores :
    {A : Type 0} (entry : A → Text × Row) (xs : List A) (before : List (Text × Row))
    → All (λ x. is_stored (entry x) (add_rows (map entry xs) before) ≡ true) xs
unfolding add_rows
add_rows-stores entry [] before = tt
add_rows-stores entry (x ∷ xs) before = (
  add_rows-keeps (entry x) (map entry xs) (add_row (entry x) before)
      (is_stored-add_row (entry x) before),
  add_rows-stores entry xs (add_row (entry x) before),
)
