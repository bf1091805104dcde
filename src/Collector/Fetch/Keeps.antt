-- ===== src/Collector/Fetch/Keeps.antt =====
-- The attempts of a request store and publish nothing, and leave the cursor.
use scraper.Base.{
  ℕ, zero, suc, refl, inl, inr, List, Option, none, some, Bool-cases, ◌==◌, leb, ok, err, Result,
}
use scraper.Base.State.{Post}
use scraper.Text.{Text}
use scraper.Time.{int64_suc, int64_zero}
use scraper.Models.{Kline}
use scraper.Backfill.Row.{Json}
use scraper.Collector.Sink.{Collector, World, KlineQuery, Answer, no_answer, answer, counted}
use scraper.Collector.Sink.Order.{Unmoved}
use scraper.Collector.Fetch.{
  attempts, on_answer, decoded, fetch_batch, fetch, fetch_until, fetch_range, max_retries,
}

attempts-Unmoved :
    (world : World) (parse : List Json → Option Kline) (http_error : Text → Text → Text) (left : ℕ)
    (q : KlineQuery) (last_err : Option Text) (s₀ s : Collector)
    → Unmoved s₀ s
    → Post (Unmoved s₀) (λ _. Unmoved s₀) (attempts world parse http_error left q last_err s)
unfolding attempts
attempts-Unmoved world parse http_error zero q last_err s₀ s u = record {
  trace = u.trace;
  cursor = u.cursor;
  direction = u.direction;
}
attempts-Unmoved world parse http_error (suc left) q last_err s₀ s u =
    go (world.ask s.calls q) (λ e.
      attempts-Unmoved world parse http_error left q e s₀ (counted s)
        (record { trace = u.trace; cursor = u.cursor; direction = u.direction }))
  where
    read :
        (rows : Result Text (List (List Json)))
        → Post (Unmoved s₀) (λ _. Unmoved s₀) (decoded world parse http_error rows s)
    read (err e) = record { trace = u.trace; cursor = u.cursor; direction = u.direction }
    read (ok rows) = record { trace = u.trace; cursor = u.cursor; direction = u.direction }

    go :
        (a : Answer)
        → ((e : Option Text)
            → Post
                (Unmoved s₀)
                (λ _. Unmoved s₀)
                (attempts world parse http_error left q e (counted s)))
        → Post
            (Unmoved s₀)
            (λ _. Unmoved s₀)
            (on_answer world parse http_error (attempts world parse http_error left q) last_err a s)
    go (no_answer e) ih = ih (some e)
    go (answer status text body rows) ih = elim (Bool-cases (status == 429)) [
      | inl limited ↦ rw limited (ih last_err)
      | inr other ↦ elim (Bool-cases (status == 200)) [
        | inl good ↦ rw (other, good) (read rows)
        | inr bad ↦
            rw (other, bad) (record { trace = u.trace; cursor = u.cursor; direction = u.direction })
      ]
    ]

pub fetch_batch-Unmoved :
    (world : World) (start_ms end_ms : ℕ) (s : Collector)
    → Post (Unmoved s) (λ _. Unmoved s) (fetch_batch world start_ms end_ms s)
unfolding fetch_batch
fetch_batch-Unmoved world start_ms end_ms s =
    attempts-Unmoved world _ _ max_retries _ none s s
      (record { trace = refl; cursor = refl; direction = refl })

pub fetch-Unmoved :
    (world : World) (since : ℕ) (s : Collector)
    → Post (Unmoved s) (λ _. Unmoved s) (fetch world since s)
unfolding fetch
fetch-Unmoved world since s = go (world.now s.calls)
  where
    ranged :
        (range : Option (ℕ × ℕ))
        → Post (Unmoved s) (λ _. Unmoved s) (fetch_range world range (counted s))
    ranged range =
        attempts-Unmoved world _ _ max_retries _ none s (counted s)
          (record { trace = refl; cursor = refl; direction = refl })

    go :
        (end_time : ℕ)
        → Post (Unmoved s) (λ _. Unmoved s) (fetch_until world since end_time (counted s))
    go end_time = elim (Bool-cases (leb since int64_zero)) [
      | inl fresh ↦ rw fresh (ranged none)
      | inr seeded ↦ elim (Bool-cases (leb end_time (int64_suc since))) [
        | inl past ↦ rw (seeded, past) (record { trace = refl; cursor = refl; direction = refl })
        | inr later ↦ rw (seeded, later) (ranged (some (int64_suc since, end_time)))
      ]
    ]
