-- ===== src/Storage/Timescale/Inserted.antt =====
-- What the inserts of a store have written, after a success and after an error.
use scraper.Base.{
  ◌+◌, ◌≡◌, refl, ap, sym, true, List, [], ◌∷◌, ◌++◌, map, Option, none, some, ok, err, Result, All,
  subst,
}
use scraper.Base.State.{Post, Post-map}
use scraper.Text.{Text, codes}
use scraper.Models.{Kline, OpenInterest}
use scraper.Storage.Names.{normalize_market}
use scraper.Storage.Timescale.{
  Row, insert_row, create_table, InsertError, Session, Exec, D, after_exec, exec_statement,
  after_final, after_create, after_second, after_first, optimistic_insert_with_lazy_create,
  kline_table, stored_kline, insert_kline_row, insert_kline_rows, open_interest_table,
  stored_open_interest, insert_open_interest_row, insert_open_interest_rows,
}
use scraper.Storage.Timescale.Rows.{is_stored, add_row, stored_rows, add_rows, add_rows-stores}

abbrev pub Holds : List (Text × Row) → Session → Type 0
Holds rows s = stored_rows s.executed ≡ rows

module _ (exec : Exec) (table market kind exchange : Text) (row : Row)
    (before : List (Text × Row)) where
  -- One more row after a success, unless its key is there, none after an error.
  abbrev OneOrNone : Session × Result InsertError (Unit {0}) → Type 0
  OneOrNone = Post (Holds before) (λ _. Holds (add_row (table, row) before))

  after_final-OneOrNone :
      (s : Session) (o : Option Text)
      → Holds before s
      → OneOrNone (
          after_final exec table row
            (create_table table market kind exchange)
            (after_exec (insert_row table row) o s))
  unfolding stored_rows add_row
  after_final-OneOrNone s none h = ap (add_row (table, row)) h
  after_final-OneOrNone s (some e) h = h

  after_create-OneOrNone :
      (s : Session) (o : Option Text)
      → Holds before s
      → OneOrNone (
          after_create exec table row
            (create_table table market kind exchange)
            (after_exec (create_table table market kind exchange) o s))
  unfolding exec_statement stored_rows
  after_create-OneOrNone s none h =
      after_final-OneOrNone _
        (exec (s.calls + 1) (create_table table market kind exchange ∷ s.executed)
          (insert_row table row))
        h
  after_create-OneOrNone s (some e) h = h

  after_second-OneOrNone :
      (s : Session) (o : Option Text)
      → Holds before s
      → OneOrNone (
          after_second exec table row
            (create_table table market kind exchange)
            (after_exec (insert_row table row) o s))
  unfolding exec_statement stored_rows add_row
  after_second-OneOrNone s none h = ap (add_row (table, row)) h
  after_second-OneOrNone s (some e) h =
      after_create-OneOrNone _
        (exec (s.calls + 1) s.executed (create_table table market kind exchange)) h

  after_first-OneOrNone :
      (s : Session) (o : Option Text)
      → Holds before s
      → OneOrNone (
          after_first exec table row
            (create_table table market kind exchange)
            (after_exec (insert_row table row) o s))
  unfolding exec_statement stored_rows add_row
  after_first-OneOrNone s none h = ap (add_row (table, row)) h
  after_first-OneOrNone s (some e) h =
      after_second-OneOrNone _ (exec (s.calls + 1) s.executed (insert_row table row)) h

  optimistic_insert-OneOrNone :
      (s : Session)
      → Holds before s
      → OneOrNone (
          optimistic_insert_with_lazy_create exec table row
            (create_table table market kind exchange)
            s)
  unfolding optimistic_insert_with_lazy_create exec_statement
  optimistic_insert-OneOrNone s h =
      after_first-OneOrNone s (exec s.calls s.executed (insert_row table row)) h

-- The rows of a beginning of a list on top of those before, which is not the whole list.
abbrev pub WrotePrefix :
    {A : Type 0} → (A → Text × Row) → List A → List (Text × Row) → Session → Type 0
WrotePrefix {A} entry xs before s =
    (done : List A) × (x : A) × (left : List A) × (xs ≡ done ++ (x ∷ left))
    × Holds (add_rows (map entry done) before) s

-- All of a list after a success, a beginning after an error.
abbrev pub AddsOrPrefix :
    {A : Type 0}
    → (A → Text × Row)
    → List A
    → List (Text × Row)
    → Session × Result InsertError (Unit {0})
    → Type 0
AddsOrPrefix entry xs before =
    Post (WrotePrefix entry xs before) (λ _. Holds (add_rows (map entry xs) before))

module _ {A : Type 0} (entry : A → Text × Row) (x : A) (xs : List A)
    (before : List (Text × Row)) where
  -- One row, and then the rest.
  bind_AddsOrPrefix :
      (first : Session × Result InsertError (Unit {0})) (rest : Unit {0} → D (Unit {0}))
      → Post (Holds before) (λ _. Holds (add_row (entry x) before)) first
      → ((s : Session)
          → Holds (add_row (entry x) before) s
          → AddsOrPrefix entry xs (add_row (entry x) before) (rest tt s))
      → AddsOrPrefix entry
          (x ∷ xs)
          before
          (elim first.1 as (λ _. Session × Result InsertError (Unit {0})) [
            | ok a ↦ rest a first.0
            | err e ↦ (first.0, err e)
          ])
  unfolding add_rows add_row
  bind_AddsOrPrefix (s, err e) rest h k = ([], x, xs, refl, h)
  bind_AddsOrPrefix (s, ok a) rest h k =
      Post-map {Q = WrotePrefix entry xs (add_row (entry x) before)}
        {Q' = WrotePrefix entry (x ∷ xs) before}
        {P = λ _. Holds (add_rows (map entry xs) (add_row (entry x) before))}
        {P' = λ _. Holds (add_rows (map entry xs) (add_row (entry x) before))} (rest a s)
        (λ s' p.
          let (done, y, left, same, holds) = p in
          (x ∷ done, y, left, ap (λ ys. x ∷ ys) same, holds))
        (λ _ s' p. p) (k s h)

-- The same, and after a success there is a row with the key of each of the list.
abbrev pub AllOrPrefix :
    {A : Type 0}
    → (A → Text × Row)
    → List A
    → List (Text × Row)
    → Session × Result InsertError (Unit {0})
    → Type 0
AllOrPrefix entry xs before = Post (WrotePrefix entry xs before) (λ _ s.
    Holds (add_rows (map entry xs) before) s
    × All (λ x. is_stored (entry x) (stored_rows s.executed) ≡ true) xs)

AddsOrPrefix-AllOrPrefix :
    {A : Type 0} (entry : A → Text × Row) (xs : List A) (before : List (Text × Row))
    (x : Session × Result InsertError (Unit {0}))
    → AddsOrPrefix entry xs before x
    → AllOrPrefix entry xs before x
AddsOrPrefix-AllOrPrefix entry xs before (s, err e) h = h
AddsOrPrefix-AllOrPrefix entry xs before (s, ok a) h = (
  h,
  subst (λ rows. All (λ x. is_stored (entry x) rows ≡ true) xs) (sym h)
      (add_rows-stores entry xs before),
)

abbrev pub kline_entry : Kline → Text × Row
kline_entry k = (kline_table k, stored_kline k)

abbrev pub open_interest_entry : OpenInterest → Text × Row
open_interest_entry oi = (open_interest_table oi, stored_open_interest oi)

module _ (exec : Exec) (exchange : Text) where
  insert_kline_rows-AddsOrPrefix :
      (ks : List Kline) (before : List (Text × Row)) (s : Session)
      → Holds before s
      → AddsOrPrefix kline_entry ks before (insert_kline_rows exec exchange ks s)
  unfolding insert_kline_rows insert_kline_row add_rows
  insert_kline_rows-AddsOrPrefix [] before s h = h
  insert_kline_rows-AddsOrPrefix (k ∷ ks) before s h =
      bind_AddsOrPrefix kline_entry k ks before (insert_kline_row exec exchange k s)
        (λ _. insert_kline_rows exec exchange ks)
        (optimistic_insert-OneOrNone exec (kline_table k) (normalize_market k.market)
          (codes "klines") exchange (stored_kline k) before s h)
        (λ s' h'. insert_kline_rows-AddsOrPrefix ks (add_row (kline_entry k) before) s' h')

  -- Whatever the server answers, after an insert of K-lines that succeeds there is, in the table of the
  -- market, symbol and interval of each, a row with its time and symbol, and the rows are those before
  -- and, in order, those of the K-lines whose key was not there. After one that fails, they are the same
  -- of the K-lines before the first that failed, and these stay.
  pub insert_kline_rows-AllOrPrefix :
      (ks : List Kline) (before : List (Text × Row)) (s : Session)
      → Holds before s
      → AllOrPrefix kline_entry ks before (insert_kline_rows exec exchange ks s)
  insert_kline_rows-AllOrPrefix ks before s h =
      AddsOrPrefix-AllOrPrefix kline_entry ks before (insert_kline_rows exec exchange ks s)
        (insert_kline_rows-AddsOrPrefix ks before s h)

  insert_open_interest_rows-AddsOrPrefix :
      (items : List OpenInterest) (before : List (Text × Row)) (s : Session)
      → Holds before s
      → AddsOrPrefix open_interest_entry items before
          (insert_open_interest_rows exec exchange items s)
  unfolding insert_open_interest_rows insert_open_interest_row add_rows
  insert_open_interest_rows-AddsOrPrefix [] before s h = h
  insert_open_interest_rows-AddsOrPrefix (oi ∷ items) before s h =
      bind_AddsOrPrefix open_interest_entry oi items before
        (insert_open_interest_row exec exchange oi s)
        (λ _. insert_open_interest_rows exec exchange items)
        (optimistic_insert-OneOrNone exec (open_interest_table oi) (codes "futures")
          (codes "open_interest") exchange (stored_open_interest oi) before s h)
        (λ s' h'.
          insert_open_interest_rows-AddsOrPrefix items (add_row (open_interest_entry oi) before) s'
            h')

  -- The same of open interests.
  pub insert_open_interest_rows-AllOrPrefix :
      (items : List OpenInterest) (before : List (Text × Row)) (s : Session)
      → Holds before s
      → AllOrPrefix open_interest_entry items before
          (insert_open_interest_rows exec exchange items s)
  insert_open_interest_rows-AllOrPrefix items before s h =
      AddsOrPrefix-AllOrPrefix open_interest_entry items before
        (insert_open_interest_rows exec exchange items s)
        (insert_open_interest_rows-AddsOrPrefix items before s h)
