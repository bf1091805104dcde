-- ===== src/Storage/Timescale.antt =====
-- internal/storage/timescale.go: the inserts of a `TimescaleDB` without a write router. What the server
-- answers to a statement is a parameter, a function of the number of the call and of the statements that
-- it has executed; a statement that fails changes nothing.
pub mod Rows
pub mod Inserted
pub mod Works
use scraper.Base.{
  ℕ, ◌+◌, Bool, true, false, List, [], ◌∷◌, Option, none, some, ok, err, Result, if◌then◌else◌,
}
use scraper.Base.State.{Action, pure, raise, ◌>>=◌}
use scraper.Text.{Text, codes}
use scraper.Time.{Time}
use scraper.Models.{Kline, OrderBook, FundingRate, OpenInterest}
use scraper.Storage.Names.{
  normalize_market, normalize_symbol_for_write, build_table_name, insert_kline_table,
}

-- The values of an insert. A K-line's interval is no column: it is empty here.
pub data Row : Type 0 where
  kline_row : Kline → Row
  order_book_row : OrderBook → Row
  funding_rate_row : FundingRate → Row
  open_interest_row : OpenInterest → Row

-- The columns of `ON CONFLICT (…) DO NOTHING`: the time, the symbol, and the period of an open interest.
unfoldable pub conflict_key : Row → Time × Text × Text
conflict_key (kline_row k) = (k.time, k.symbol, [])
conflict_key (order_book_row ob) = (ob.time, ob.symbol, [])
conflict_key (funding_rate_row fr) = (fr.time, fr.symbol, [])
conflict_key (open_interest_row oi) = (oi.time, oi.symbol, oi.period)

-- An insert into a table, which adds nothing if a row there has the same key, or the text of `buildCreateTableSQL` for a table, a market, a kind of data and
-- the exchange of the store.
pub data Statement : Type 0 where
  insert_row : Text → Row → Statement
  create_table : Text → Text → Text → Text → Statement

pub data InsertError : Type 0 where
  failed_create failed_final_insert : Text → Text → InsertError

-- The number of calls, and what the server has executed, newest first.
pub record Session : Type 0 where
  pub calls : ℕ
  pub executed : List Statement

abbrev pub Exec : Type 0
Exec = ℕ → List Statement → Statement → Option Text

abbrev pub D : Type 0 → Type 0
D A = Action Session InsertError A

abbrev pub after_exec : Statement → Option Text → Session → Session × Option Text
after_exec statement none s =
    (record { calls = s.calls + 1; executed = statement ∷ s.executed }, none)
after_exec statement (some e) s = (record { calls = s.calls + 1; executed = s.executed }, some e)

abbrev pub kline_table : Kline → Text
kline_table k = insert_kline_table k.market k.symbol k.interval

abbrev pub stored_kline : Kline → Row
stored_kline k =
    kline_row (record k { symbol = normalize_symbol_for_write k.symbol; interval = [] })

abbrev pub funding_rate_table : Text → Text
funding_rate_table symbol =
    build_table_name (codes "futures") (codes "funding_rates") (normalize_symbol_for_write symbol)
      []

abbrev pub open_interest_table : OpenInterest → Text
open_interest_table oi =
    build_table_name (codes "futures") (codes "open_interest")
      (normalize_symbol_for_write oi.symbol) []

abbrev pub stored_open_interest : OpenInterest → Row
stored_open_interest oi =
    open_interest_row (record oi { symbol = normalize_symbol_for_write oi.symbol })

module _ (exec : Exec) where
  -- `ts.sqlExec.ExecContext`
  unfoldable pub exec_statement : Statement → Session → Session × Option Text
  exec_statement statement s = after_exec statement (exec s.calls s.executed statement) s

  module _ (table : Text) (row : Row) (create : Statement) where
    abbrev pub after_final : Session × Option Text → Session × Result InsertError (Unit {0})
    after_final (s, none) = (s, ok tt)
    after_final (s, some e) = (s, err (failed_final_insert table e))

    abbrev pub after_create : Session × Option Text → Session × Result InsertError (Unit {0})
    after_create (s, none) = after_final (exec_statement (insert_row table row) s)
    after_create (s, some e) = (s, err (failed_create table e))

    abbrev pub after_second : Session × Option Text → Session × Result InsertError (Unit {0})
    after_second (s, none) = (s, ok tt)
    after_second (s, some e) = after_create (exec_statement create s)

    -- After the first insert; the lock of the table is taken before the second.
    abbrev pub after_first : Session × Option Text → Session × Result InsertError (Unit {0})
    after_first (s, none) = (s, ok tt)
    after_first (s, some e) = after_second (exec_statement (insert_row table row) s)

    unfoldable pub optimistic_insert_with_lazy_create : D (Unit {0})
    unfolding exec_statement
    optimistic_insert_with_lazy_create s = after_first (exec_statement (insert_row table row) s)

  module _ (exchange : Text) where
    -- The body of the loop of `InsertKline`, and the loop.
    unfoldable pub insert_kline_row : Kline → D (Unit {0})
    unfolding optimistic_insert_with_lazy_create
    insert_kline_row k =
        optimistic_insert_with_lazy_create (kline_table k) (stored_kline k)
          (create_table (kline_table k) (normalize_market k.market) (codes "klines") exchange)

    unfoldable pub insert_kline_rows : List Kline → D (Unit {0})
    unfolding insert_kline_row
    insert_kline_rows [] = pure tt
    insert_kline_rows (k ∷ ks) = do _ ← insert_kline_row k; insert_kline_rows ks

    -- `InsertOrderBook`
    unfoldable pub insert_order_book_row : OrderBook → D (Unit {0})
    unfolding optimistic_insert_with_lazy_create
    insert_order_book_row ob =
        let symbol = normalize_symbol_for_write ob.symbol in
        let table = build_table_name ob.market (codes "orderbook") symbol [] in
        optimistic_insert_with_lazy_create table (order_book_row (record ob { symbol = symbol }))
          (create_table table (normalize_market ob.market) (codes "orderbook") exchange)

    -- `InsertFundingRate`
    unfoldable pub insert_funding_rate_row : FundingRate → D (Unit {0})
    unfolding optimistic_insert_with_lazy_create
    insert_funding_rate_row fr =
        optimistic_insert_with_lazy_create (funding_rate_table fr.symbol)
          (funding_rate_row (record fr { symbol = normalize_symbol_for_write fr.symbol }))
          (create_table (funding_rate_table fr.symbol) (codes "futures") (codes "funding_rates")
            exchange)

    -- `InsertOpenInterest` and `InsertOpenInterests`
    unfoldable pub insert_open_interest_row : OpenInterest → D (Unit {0})
    unfolding optimistic_insert_with_lazy_create
    insert_open_interest_row oi =
        optimistic_insert_with_lazy_create (open_interest_table oi) (stored_open_interest oi)
          (create_table (open_interest_table oi) (codes "futures") (codes "open_interest") exchange)

    unfoldable pub insert_open_interest_rows : List OpenInterest → D (Unit {0})
    unfolding insert_open_interest_row
    insert_open_interest_rows [] = pure tt
    insert_open_interest_rows (oi ∷ items) = do
      _ ← insert_open_interest_row oi
      insert_open_interest_rows items
