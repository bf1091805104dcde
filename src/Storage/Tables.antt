-- ===== src/Storage/Tables.antt =====
-- The two functions that name a K-line table, and where their names differ.
use scraper.Base.{
  ◌≡◌, ◌↔◌, refl, ap, sym, ◌∙◌, Bool, true, false, ◌&&◌, [], ◌∷◌, ◌++◌, arith, append_assoc,
  append_cancel_left, append_cancel_right, subst,
}
use scraper.Text.{Text, codes, text_eq, is_empty, to_lower, to_upper, trim_space}
use scraper.Text.Laws.{to_lower-to_upper, trim_space-to_upper, trim_space_idem}
use scraper.Backfill.Request.{or_default}
use scraper.Storage.Names.{
  normalize_market, is_alnum, keep_alnum, normalize_symbol_for_table, normalize_symbol_for_write,
  build_table_name, insert_kline_table, build_kline_table_name,
}

-- Every byte is a letter or a digit.
unfoldable pub all_alnum : Text → Bool
all_alnum [] = true
all_alnum (c ∷ s) = is_alnum c && all_alnum s

keep_alnum_self : (s : Text) → all_alnum s ≡ true → keep_alnum s ≡ s
unfolding all_alnum keep_alnum
keep_alnum_self [] h = refl
keep_alnum_self (c ∷ s) h = ground (arith, keep_alnum_self s)

all_alnum-keep_alnum : (s : Text) → all_alnum (keep_alnum s) ≡ true
unfolding all_alnum keep_alnum
all_alnum-keep_alnum [] = refl
all_alnum-keep_alnum (c ∷ s) = ground (arith, all_alnum-keep_alnum s)

all_alnum-table : (symbol : Text) → all_alnum (normalize_symbol_for_table symbol) ≡ true
unfolding normalize_symbol_for_table
all_alnum-table symbol =
    ground (arith, all_alnum-keep_alnum (to_lower (trim_space symbol)), unknown)
  where
    unknown : all_alnum (codes "unknown") ≡ true
    unknown = unfold all_alnum is_alnum in refl

or_default-given : (s d : Text) → is_empty s ≡ false → or_default s d ≡ s
unfolding is_empty or_default
or_default-given [] d h = cc
or_default-given (c ∷ s) d h = refl

-- The symbol of a written row, before it becomes a part of the name.
written :
    (symbol : Text)
    → to_lower (trim_space (normalize_symbol_for_write symbol)) ≡ to_lower (trim_space symbol)
unfolding normalize_symbol_for_write
written symbol = simp (trim_space-to_upper, trim_space_idem, to_lower-to_upper)

insert_form :
    (market symbol interval : Text)
    → is_empty interval ≡ false
    → insert_kline_table market symbol interval
      ≡ normalize_market market
        ++ (codes "_klines_"
            ++ (or_default (keep_alnum (to_lower (trim_space symbol))) (codes "unknown")
                ++ (b'_' ∷ to_lower interval)))
unfolding insert_kline_table build_table_name text_eq normalize_symbol_for_table is_empty
insert_form market symbol [] h = cc
insert_form market symbol (c ∷ interval) h = simp (written, append_assoc)

build_form :
    (market symbol interval : Text)
    → trim_space interval ≡ interval
    → build_kline_table_name market symbol interval
      ≡ normalize_market market
        ++ (codes "_klines_" ++ (to_lower (trim_space symbol) ++ (b'_' ∷ to_lower interval)))
unfolding build_kline_table_name normalize_market
build_form market symbol interval h = rw h

-- A row that is inserted and the check that looks for it name the same table exactly when the trimmed
-- symbol has letters and digits only. This holds for a symbol that is not blank and an interval that is
-- neither empty nor padded with white space.
pub insert_table-build_table :
    (market symbol interval : Text)
    → is_empty interval ≡ false
    → trim_space interval ≡ interval
    → is_empty (to_lower (trim_space symbol)) ≡ false
    → (insert_kline_table market symbol interval ≡ build_kline_table_name market symbol interval)
      ↔ (all_alnum (to_lower (trim_space symbol)) ≡ true)
insert_table-build_table market symbol interval given trimmed named = (only_plain, plain)
  where
    name : Text
    name = to_lower (trim_space symbol)

    tail : Text
    tail = b'_' ∷ to_lower interval

    kept : Text
    kept = or_default (keep_alnum name) (codes "unknown")

    inserted :
        insert_kline_table market symbol interval
        ≡ normalize_market market ++ (codes "_klines_" ++ (kept ++ tail))
    inserted = insert_form market symbol interval given

    built :
        build_kline_table_name market symbol interval
        ≡ normalize_market market ++ (codes "_klines_" ++ (name ++ tail))
    built = build_form market symbol interval trimmed

    only_plain :
        insert_kline_table market symbol interval ≡ build_kline_table_name market symbol interval
        → all_alnum name ≡ true
    only_plain e =
        subst (λ s. all_alnum s ≡ true)
          (append_cancel_right kept name tail (
            append_cancel_left (codes "_klines_") (kept ++ tail) (name ++ tail) (
              append_cancel_left (normalize_market market) (codes "_klines_" ++ (kept ++ tail))
                (codes "_klines_" ++ (name ++ tail)) (sym inserted ∙ (e ∙ built)))))
          (unfold normalize_symbol_for_table in all_alnum-table symbol)

    same : all_alnum name ≡ true → kept ≡ name
    same h = rw (keep_alnum_self name h) (or_default-given name (codes "unknown") named)

    plain :
        all_alnum name ≡ true
        → insert_kline_table market symbol interval ≡ build_kline_table_name market symbol interval
    plain h =
        inserted
        ∙ (ap (λ s. normalize_market market ++ (codes "_klines_" ++ (s ++ tail))) (same h)
            ∙ sym built)

-- Intervals that differ in case only share a table: the minute candles of "1m" and the month candles of
-- "1M" of a symbol are rows of one table.
pub build_table-ignores_case :
    (market symbol interval : Text)
    → build_kline_table_name market symbol (to_upper interval)
      ≡ build_kline_table_name market symbol interval
unfolding build_kline_table_name
build_table-ignores_case market symbol interval = simp (trim_space-to_upper, to_lower-to_upper)
