-- ===== src/Collector/Reverse/Pages.antt =====
-- The pages of a reverse run follow each other.
use scraper.Base.{ℕ, ◌≡◌, true, List, ◌∷◌, Option, none, some}
use scraper.Base.State.{Post}
use scraper.Text.{Text}
use scraper.Time.{Time}
use scraper.Models.{Kline}
use scraper.Collector.Sink.{Collector, World, C, counted}
use scraper.Collector.Sink.Order.{InOrder, stored_until, publications, Wrote, Unmoved, RefusedBy}
use scraper.Collector.Fetch.{fetch_batch, fetch}
use scraper.Collector.Reverse.Asked.{page_query, spot_page, futures_page, futures_query}

-- From the start `c`, a reverse run has stored up to the time `at`, and has published nothing.
pub record Paged (c : ℕ) (s : Collector) (at : ℕ) : Type 0 where
  pub direction : s.is_reverse ≡ true
  pub order : InOrder s.trace
  pub until : stored_until c s.trace ≡ at
  pub published : publications s.trace ≡ 0

module _ (world : World) (c : ℕ) where
  -- What both ways to ask for a page and to store one give.
  abbrev FetchKeeps : (ℕ → C (List Kline)) → Type 0
  FetchKeeps fetch_page =
      (at : ℕ) (s : Collector) → Post (Unmoved s) (λ _. Unmoved s) (fetch_page at s)

  abbrev StoreWrites : (List Kline → C (Unit {0})) → Type 0
  StoreWrites store_page =
      (k : Kline) (ks : List Kline) (s : Collector)
      → s.is_reverse ≡ true
      → InOrder s.trace
      → Post (RefusedBy world k ks s) (λ _. Wrote c k ks s) (store_page (k ∷ ks) s)

  -- The state and the time after a round, or the time of the round if it was the last.
  abbrev PagedAfter : ℕ → Collector × Option ℕ → Type 0
  PagedAfter current (s, none) = Paged c s current
  PagedAfter current (s, some next) = Paged c s next

-- A spot run that has reached a time: what it has stored, and what a further round would ask for.
abbrev pub SpotReached : World → ℕ → ℕ → Collector × ℕ → Type 0
SpotReached world c end_ms (s, reached) =
    Paged c s reached
    × (fetch_batch world reached end_ms s
        ≡ spot_page world (page_query s (some (reached, end_ms))) s)

abbrev pub FuturesReached : World → ℕ → Collector × ℕ → Type 0
FuturesReached world c (s, reached) =
    Paged c s reached
    × (fetch world reached s
        ≡ futures_page world (futures_query reached (world.now s.calls) s) (counted s))
