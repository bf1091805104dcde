-- ===== src/Backfill/Fetch/Retry.antt =====
-- The retries of `fetchKlines` are bounded, and the error after its loop is never returned.
use scraper.Base.{
  ℕ, zero, suc, ◌+◌, ◌<◌, ◌≤◌, ◌≡◌, ◌≢◌, List, arith, Option, none, some, err, Result,
}
use scraper.Text.{Text}
use scraper.Backfill.Interval.{Error, exhausted_retries}
use scraper.Backfill.Row.{Json}
use scraper.Backfill.Fetch.{
  Env, Query, Response, no_response, unread_body, response, on_response, decoded, max_429_retries,
  fetch_from, fetch_klines,
}

-- A result that took `most` calls at most, at least one, and is not the error after the loop.
record Bounded (calls most : ℕ) (r : ℕ × Result Error (List (List Json))) : Type 0 where
  some_call : calls < r.0
  few_calls : r.0 ≤ calls + most
  not_exhausted : r.1 ≢ err exhausted_retries

decoded-ne : (rows : Option (List (List Json))) → decoded rows ≢ err exhausted_retries
decoded-ne none = λ e. ground arith
decoded-ne (some rows) = λ e. cc

-- On the last round a 429 is no reason to go on.
on_response-Bounded :
    (env : Env) (retry calls left : ℕ) (again : ℕ × Result Error (List (List Json))) (r : Response)
    → retry + suc left ≡ max_429_retries + 1
    → (0 < left → Bounded (calls + 1) left again)
    → Bounded calls (suc left) (on_response env retry calls again r)
on_response-Bounded env retry calls left again (no_response e) h k = ground arith
on_response-Bounded env retry calls left again (unread_body e) h k = ground arith
on_response-Bounded env retry calls left again (response status after body rows) h k =
    ground (arith, decoded-ne rows, k)

fetch_from-Bounded :
    (env : Env) (endpoint : Text) (q : Query) (left retry calls : ℕ)
    → retry + suc left ≡ max_429_retries + 1
    → Bounded calls (suc left) (fetch_from env endpoint q (suc left) retry calls)
unfolding fetch_from
fetch_from-Bounded env endpoint q zero retry calls h =
    on_response-Bounded env retry calls 0 _ (env.respond calls endpoint q) h
      (λ none_left. elim none_left [ ])
fetch_from-Bounded env endpoint q (suc left) retry calls h =
    on_response-Bounded env retry calls (suc left) _ (env.respond calls endpoint q) h
      (λ _. fetch_from-Bounded env endpoint q left (retry + 1) (calls + 1) (omega arith))

-- Whatever the exchange answers, a fetch makes between one and six requests, and its error is never
-- the one that follows the loop: on the sixth answer 429 is reported with its status.
pub fetch_klines-bounded :
    (env : Env) (endpoint symbol interval : Text) (start_ms end_ms calls : ℕ)
    → let r = fetch_klines env endpoint symbol interval start_ms end_ms calls in
      (calls < r.0) × (r.0 ≤ calls + 6) × (r.1 ≢ err exhausted_retries)
unfolding fetch_klines
fetch_klines-bounded env endpoint symbol interval start_ms end_ms calls =
    let b = fetch_from-Bounded env endpoint _ 5 0 calls (omega arith) in
    (b.some_call, b.few_calls, b.not_exhausted)
