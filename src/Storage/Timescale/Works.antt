-- ===== src/Storage/Timescale/Works.antt =====
-- Inserts on a server that works.
use scraper.Base.{
  ℕ, ◌+◌, ◌≡◌, refl, Bool, true, false, ◌||◌, List, [], ◌∷◌, Option, none, some, ok, err, Result,
}
use scraper.Text.{Text, codes, text_eq}
use scraper.Text.Laws.{text_eq_refl}
use scraper.Models.{Kline}
use scraper.Storage.Names.{normalize_market}
use scraper.Storage.Timescale.{
  Row, Statement, insert_row, create_table, InsertError, Session, Exec, after_exec, exec_statement,
  after_create, after_second, after_first, optimistic_insert_with_lazy_create, kline_table,
  stored_kline, insert_kline_row, insert_kline_rows,
}

abbrev pub creates : Text → Statement → Bool
creates table (insert_row t row) = false
creates table (create_table t market kind exchange) = text_eq t table

-- A table was created.
abbrev pub has_table : Text → List Statement → Bool
has_table table [] = false
has_table table (statement ∷ statements) = creates table statement || has_table table statements

-- A server that creates tables, and takes a row whose table was created.
pub record Works (exec : Exec) : Type 0 where
  pub takes_table :
      (n : ℕ) (executed : List Statement) (t m k e : Text)
      → exec n executed (create_table t m k e) ≡ none
  pub takes_row :
      (n : ℕ) (executed : List Statement) (t : Text) (row : Row)
      → has_table t executed ≡ true
      → exec n executed (insert_row t row) ≡ none

abbrev pub IsOk : Session × Result InsertError (Unit {0}) → Type 0
IsOk (s, ok a) = Unit
IsOk (s, err e) = ⊥

module _ (exec : Exec) (works : Works exec) where
  module _ (table market kind exchange : Text) (row : Row) where
    created :
        (executed : List Statement)
        → has_table table (create_table table market kind exchange ∷ executed) ≡ true
    created executed = rw (text_eq_refl table) refl

    after_create-IsOk :
        (s : Session)
        → IsOk (
            after_create exec table row
              (create_table table market kind exchange)
              (exec_statement exec (create_table table market kind exchange) s))
    unfolding exec_statement
    after_create-IsOk s =
        rw
          (
            works.takes_table s.calls s.executed table market kind exchange,
            works.takes_row (s.calls + 1) (create_table table market kind exchange ∷ s.executed)
                table row (created s.executed),
          )
          tt

    after_second-IsOk :
        (s : Session) (o : Option Text)
        → IsOk (
            after_second exec table row
              (create_table table market kind exchange)
              (after_exec (insert_row table row) o s))
    after_second-IsOk s none = tt
    after_second-IsOk s (some e) = after_create-IsOk _

    after_first-IsOk :
        (s : Session) (o : Option Text)
        → IsOk (
            after_first exec table row
              (create_table table market kind exchange)
              (after_exec (insert_row table row) o s))
    unfolding exec_statement
    after_first-IsOk s none = tt
    after_first-IsOk s (some e) =
        after_second-IsOk _ (exec (s.calls + 1) s.executed (insert_row table row))

    optimistic_insert-IsOk :
        (s : Session)
        → IsOk (
            optimistic_insert_with_lazy_create exec table row
              (create_table table market kind exchange)
              s)
    unfolding optimistic_insert_with_lazy_create exec_statement
    optimistic_insert-IsOk s = after_first-IsOk s (exec s.calls s.executed (insert_row table row))

  bind_IsOk :
      (first : Session × Result InsertError (Unit {0}))
      (rest : Session → Session × Result InsertError (Unit {0}))
      → IsOk first
      → ((s : Session) → IsOk (rest s))
      → IsOk (elim first.1 as (λ _. Session × Result InsertError (Unit {0})) [
        | ok a ↦ rest first.0
        | err e ↦ (first.0, err e)
      ])
  bind_IsOk (s, ok a) rest h k = k s
  bind_IsOk (s, err e) rest h k = absurd h

  -- On a server that creates every table it is asked for, and takes every row whose table was created,
  -- an insert of K-lines succeeds, whether their tables exist before or not.
  pub insert_kline_rows-IsOk :
      (exchange : Text) (ks : List Kline) (s : Session)
      → IsOk (insert_kline_rows exec exchange ks s)
  unfolding insert_kline_rows insert_kline_row
  insert_kline_rows-IsOk exchange [] s = tt
  insert_kline_rows-IsOk exchange (k ∷ ks) s =
      bind_IsOk (insert_kline_row exec exchange k s) (insert_kline_rows exec exchange ks)
        (optimistic_insert-IsOk (kline_table k) (normalize_market k.market) (codes "klines")
          exchange (stored_kline k) s)
        (insert_kline_rows-IsOk exchange ks)
