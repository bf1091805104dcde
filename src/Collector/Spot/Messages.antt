-- ===== src/Collector/Spot/Messages.antt =====
-- The messages of a connection, and what a failure of the store or of the publisher leaves.
use scraper.Base.{
  ℕ, ◌≡◌, refl, sym, subst, ◌⊎◌, inl, inr, Bool, not, List, [], ◌∷◌, Option, none, some, ok, err,
  Result, Bool-cases,
}
use scraper.Base.State.{Post, bind_Post}
use scraper.Text.{Text}
use scraper.Time.{int64_suc}
use scraper.Models.{Kline}
use scraper.Collector.Rows.{Message, parse_msg}
use scraper.Collector.Sink.{Collector, World, last_close_ms, store_klines}
use scraper.Collector.Sink.Order.{InOrder, stored_until, Wrote, InsertFails, FailedOr}
use scraper.Collector.Sink.Stored.{store_klines-Wrote}
use scraper.Collector.Spot.{
  resume_after, store_forward_klines, handle_forward_kline, on_message, read_messages,
}

-- The time to resume from is the millisecond after the last stored K-line.
pub record Resumes (c : ℕ) (s : Collector) : Type 0 where
  pub order : InOrder s.trace
  pub at : s.cursor ≡ stored_until c s.trace

-- The store has refused the K-line `lost`, which would have been the next; the time is past it.
pub record Passed (c : ℕ) (lost : Kline) (s : Collector) : Type 0 where
  pub order : InOrder s.trace
  pub at : s.cursor ≡ int64_suc (last_close_ms lost [])

-- A connection that ends with an error ends with a K-line that the store took or with one it refused.
abbrev pub ResumesOr : World → ℕ → Collector → Type 0
ResumesOr world c s =
    Resumes c s
    ⊎ ((lost : Kline) × (before : Collector) × Resumes c before
        × InsertFails world (lost ∷ []) before
        × (s.trace ≡ before.trace)
        × Passed c lost s)

module _ (world : World) (c : ℕ) where
  store_forward_klines-ResumesOr :
      (k : Kline) (s : Collector)
      → Resumes c s
      → Post (ResumesOr world c) (λ _. Resumes c) (store_forward_klines world (k ∷ []) s)
  unfolding store_forward_klines
  store_forward_klines-ResumesOr k s h =
      go (store_klines world (k ∷ []) s) (store_klines-Wrote world c k [] s h.order)
    where
      wrote : (s' : Collector) → Wrote c k [] s s' → Resumes c (resume_after k [] s')
      wrote s' w = record { order = w.order; at = sym w.until }

      go :
          (x : Collector × Result Text (Unit {0}))
          → Post (FailedOr world c k [] s) (λ _. Wrote c k [] s) x
          → Post (ResumesOr world c) (λ _. Resumes c) (resume_after k [] x.0, x.1)
      go (s', ok a) w = wrote s' w
      go (s', err e) (inr (live, w)) = inl (wrote s' w)
      go (s', err e) (inl (fails, u)) = inr (
        k,
        s,
        h,
        fails,
        u.trace,
        record { order = subst InOrder (sym u.trace) h.order; at = refl },
      )

  on_message-ResumesOr :
      (m : Option (Kline × Bool)) (s : Collector)
      → Resumes c s
      → Post (ResumesOr world c) (λ _. Resumes c) (on_message world m s)
  unfolding handle_forward_kline
  on_message-ResumesOr none s h = h
  on_message-ResumesOr (some (kline, is_closed)) s h = elim (Bool-cases (not is_closed)) [
    | inl growing ↦ rw (handle_forward_kline, growing) h
    | inr closed ↦ rw (handle_forward_kline, closed) (store_forward_klines-ResumesOr kline s h)
  ]

  -- However the exchange, the store and the publisher answer, the messages of a connection leave a
  -- spot collector at the millisecond after the last K-line that it has stored, if they found it
  -- there; or they end with an error at a K-line that the store refused, and leave it past that
  -- K-line, with nothing stored since.
  pub read_messages-ResumesOr :
      (ms : List Message) (s : Collector)
      → Resumes c s
      → Post (ResumesOr world c) (λ _. Resumes c) (read_messages world ms s)
  unfolding read_messages
  read_messages-ResumesOr [] s h = h
  read_messages-ResumesOr (m ∷ ms) s h =
      bind_Post (ResumesOr world c) (λ _. Resumes c) (λ _. Resumes c)
        (on_message world (parse_msg world.conversions s.symbol s.exchange s.interval m) s)
        (λ _. read_messages world ms)
        (on_message-ResumesOr (parse_msg world.conversions s.symbol s.exchange s.interval m) s h)
        (λ _ s' h'. read_messages-ResumesOr ms s' h')
