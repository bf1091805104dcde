-- ===== src/Storage/Reads/Tables.antt =====
-- The query reads the table that is written and those of earlier versions.
use scraper.Base.{
  ℕ, zero, suc, ◌+◌, ◌-◌, ◌≤◌, ◌<◌, ◌≡◌, refl, ◌∙◌, ap, subst, ◌⊎◌, inl, inr, Bool, true, false,
  List, [], ◌∷◌, ◌++◌, map, Result, ok, err, Bool-cases, arith, ltb,
}
use scraper.Text.{
  Text, codes, text_eq, is_empty, to_lower, lower_char, trim_space, trim_left, trim_right,
  keep_right, is_space,
}
use scraper.Text.Laws.{trim_space-to_upper, trim_space_idem, to_lower-to_upper}
use scraper.Time.{Time, year, year_begin}
use scraper.Time.Laws.{year_bounds, year_unique, year_mono, year_begin-lt}
use scraper.Storage.Names.{
  normalize_market, normalize_symbol_for_table, normalize_symbol_for_write, build_table_name,
}
use scraper.Storage.Timescale.{funding_rate_table}
use scraper.Storage.Reads.{
  years_from, years_between, build_symbol_year_table_name, build_read_table_names,
  filter_existing_tables, funding_rate_tables, keep_existing,
}

abbrev pub In : {A : Type 0} → A → List A → Type 0
In x [] = ⊥
In x (y ∷ ys) = (y ≡ x) ⊎ In x ys

In-append_left : {A : Type 0} (x : A) (xs ys : List A) → In x xs → In x (xs ++ ys)
In-append_left x [] ys h = absurd h
In-append_left x (z ∷ xs) ys (inl e) = inl e
In-append_left x (z ∷ xs) ys (inr h) = inr (In-append_left x xs ys h)

In-append_right : {A : Type 0} (x : A) (xs ys : List A) → In x ys → In x (xs ++ ys)
In-append_right x [] ys h = h
In-append_right x (z ∷ xs) ys h = inr (In-append_right x xs ys h)

In-map : {A B : Type 0} (f : A → B) (x : A) (xs : List A) → In x xs → In (f x) (map f xs)
In-map f x [] h = absurd h
In-map f x (z ∷ xs) (inl e) = inl (ap f e)
In-map f x (z ∷ xs) (inr h) = inr (In-map f x xs h)

years_from-In : (y n z : ℕ) → y ≤ z → z < y + n → In z (years_from y n)
unfolding years_from
years_from-In y zero z lo hi = absurd (omega arith)
years_from-In y (suc n) z lo hi = elim (Bool-cases (ltb y z)) [
  | inl later ↦ inr (years_from-In (y + 1) n z (ground (arith, later)) (omega arith))
  | inr first ↦ inl (ground (arith, lo, first))
]

-- The years of the times in a range.
pub years_between-In :
    (start_time end_time t : Time)
    → start_time ≤ t
    → t ≤ end_time
    → In (year t) (years_between start_time end_time)
unfolding years_between
years_between-In start_time end_time t lo hi =
    let first : year start_time ≤ year t = year_mono start_time t lo in
    let last : year t ≤ year end_time = year_mono t end_time hi in
    elim (Bool-cases (ltb end_time start_time)) [
      | inl exchanged ↦ absurd (ground (arith, exchanged, lo, hi))
      | inr ordered ↦ rw ordered (
          years_from-In (year start_time) (year end_time + 1 - year start_time) (year t) first
            (omega arith))
    ]

year-year_begin : (t : Time) → year (year_begin (year t)) ≡ year t
year-year_begin t =
    let bounds = year_bounds t in
    year_unique (year_begin (year t)) (year t) bounds.0 (omega arith)
      (year_begin-lt (year t) bounds.0)

keep_existing-In :
    (name n : Text) (names : List Text) (r : Result Text Bool) (rest : Result Text (List Text))
    (existing : List Text)
    → keep_existing n r rest ≡ ok existing
    → (n ≡ name → r ≡ ok true)
    → ((kept : List Text) → rest ≡ ok kept → In name names → In name kept)
    → In name (n ∷ names)
    → In name existing
keep_existing-In name n names (err e) rest existing h here ih i = cc
keep_existing-In name n names (ok false) rest existing h here ih (inl same) =
    absurd (cc (here same))
keep_existing-In name n names (ok false) rest existing h here ih (inr i) = ih existing h i
keep_existing-In name n names (ok true) (err e) existing h here ih i = cc
keep_existing-In name n names (ok true) (ok kept) existing h here ih (inl same) =
    let whole : n ∷ kept ≡ existing = cc h in subst (In name) whole (inl same)
keep_existing-In name n names (ok true) (ok kept) existing h here ih (inr i) =
    let whole : n ∷ kept ≡ existing = cc h in subst (In name) whole (inr (ih kept refl i))

-- A table of the list that has a name and exists is kept.
filter_existing_tables-In :
    (exists : Text → Result Text Bool) (name : Text) (names existing : List Text)
    → filter_existing_tables exists names ≡ ok existing
    → is_empty name ≡ false
    → exists name ≡ ok true
    → In name names
    → In name existing
unfolding filter_existing_tables
filter_existing_tables-In exists name [] existing h named here i = absurd i
filter_existing_tables-In exists name (n ∷ names) existing h named here i =
    let ih : (kept : List Text)
        → filter_existing_tables exists names ≡ ok kept
        → In name names
        → In name kept =
      λ kept k j. filter_existing_tables-In exists name names kept k named here j in
    elim (Bool-cases (is_empty n)) [
      | inr full ↦
          let h' : keep_existing n (exists n) (filter_existing_tables exists names) ≡ ok existing =
            ground (arith, h, full) in
          keep_existing-In name n names (exists n) (filter_existing_tables exists names) existing h'
            (λ same. ap exists same ∙ here) ih i
      | inl blank ↦
          let h' : filter_existing_tables exists names ≡ ok existing = ground (arith, h, blank) in
          elim i [ inr j ↦ ih existing h' j | inl same ↦ absurd (cc (same, blank, named)) ]
    ]

is_empty-append : (s : Text) (c : ℕ) (t : Text) → is_empty (s ++ (c ∷ t)) ≡ false
unfolding is_empty
is_empty-append [] c t = refl
is_empty-append (a ∷ s) c t = refl

futures_normal : normalize_market (codes "futures") ≡ codes "futures"
unfolding normalize_market to_lower lower_char trim_space trim_left trim_right keep_right is_space
    text_eq
futures_normal = refl

written_symbol :
    (symbol : Text)
    → normalize_symbol_for_table (normalize_symbol_for_write symbol)
      ≡ normalize_symbol_for_table symbol
unfolding normalize_symbol_for_table normalize_symbol_for_write
written_symbol symbol = simp (trim_space-to_upper, trim_space_idem, to_lower-to_upper)

-- The names for a symbol and for its normal form are one.
funding_rate_table-written :
    (symbol : Text)
    → build_table_name (normalize_market (codes "futures")) (codes "funding_rates") symbol []
      ≡ funding_rate_table symbol
unfolding build_table_name
funding_rate_table-written symbol =
    ap (λ m. build_table_name m (codes "funding_rates") symbol []) futures_normal
    ∙ rw (written_symbol symbol) refl

-- A name has a character.
funding_rate_table-named : (symbol : Text) → is_empty (funding_rate_table symbol) ≡ false
unfolding build_table_name text_eq
funding_rate_table-named symbol = rw futures_normal (unfold is_empty in refl)

legacy_named :
    (symbol : Text) (t : Time)
    → is_empty (build_symbol_year_table_name (codes "futures") (codes "funding_rates") symbol t)
      ≡ false
unfolding build_symbol_year_table_name
legacy_named symbol t = rw futures_normal (unfold is_empty in refl)

-- The tables of the query, from a time in its range.
legacy-In :
    (symbol : Text) (start_time end_time t : Time)
    → start_time ≤ t
    → t ≤ end_time
    → In (build_symbol_year_table_name (codes "futures") (codes "funding_rates") symbol t) (
        build_read_table_names (codes "futures") (codes "funding_rates") symbol start_time end_time)
unfolding build_read_table_names build_symbol_year_table_name
legacy-In symbol start_time end_time t lo hi =
    let at : ℕ → Text = λ y.
      build_symbol_year_table_name (normalize_market (codes "futures")) (codes "funding_rates")
        symbol (year_begin y) in
    let same : at (year t)
        ≡ build_symbol_year_table_name (codes "futures") (codes "funding_rates") symbol t =
      ap (λ m. build_symbol_year_table_name m (codes "funding_rates") symbol (year_begin (year t)))
        futures_normal
      ∙ rw (year-year_begin t) refl in
    inr (
      In-append_left _ (map at (years_between start_time end_time)) _ (
        subst (λ name. In name (map at (years_between start_time end_time))) same
          (In-map at (year t) (years_between start_time end_time)
            (years_between-In start_time end_time t lo hi))))

-- If the query of the funding rates of a symbol in a range can find its tables, it reads, of those that
-- exist, the table into which the rates of this symbol are written, and for each time of the range the
-- table in which an earlier version kept the rates of that year.
pub funding_rate_tables-In :
    (exists : Text → Result Text Bool) (symbol : Text) (start_time end_time t : Time)
    (names : List Text)
    → funding_rate_tables exists symbol start_time end_time ≡ ok names
    → start_time ≤ t
    → t ≤ end_time
    → let earlier =
        build_symbol_year_table_name (codes "futures") (codes "funding_rates") symbol t in
      (exists (funding_rate_table symbol) ≡ ok true → In (funding_rate_table symbol) names)
      × (exists earlier ≡ ok true → In earlier names)
unfolding funding_rate_tables
funding_rate_tables-In exists symbol start_time end_time t names h lo hi =
    let candidates =
      build_read_table_names (codes "futures") (codes "funding_rates") symbol start_time end_time in
    (
      λ e.
          filter_existing_tables-In exists (funding_rate_table symbol) candidates names h
            (funding_rate_table-named symbol) e
            (unfold build_read_table_names in inl (funding_rate_table-written symbol)),
      λ e.
          filter_existing_tables-In exists _ candidates names h (legacy_named symbol t) e
            (legacy-In symbol start_time end_time t lo hi),
    )
