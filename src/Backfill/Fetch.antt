-- ===== src/Backfill/Fetch.antt =====
-- internal/backfill/klines.go: `fetchKlines`, with its retries. What the exchange, the network, the
-- database and the context do is a function of the number of the call.
pub mod Retry
use scraper.Base.{
  ℕ, zero, suc, ◌+◌, ◌*◌, Bool, true, false, ◌&&◌, List, [], ◌∷◌, ◌++◌, Option, none, some, ok, err,
  Result, ltb, leb, ◌==◌, if◌then◌else◌, length,
}
use scraper.Base.Int.{ℤ, pos, negsuc, atoi}
use scraper.Text.{Text, codes}
use scraper.Models.{Kline}
use scraper.Backfill.Interval.{Error, external, http_status, exhausted_retries}
use scraper.Backfill.Row.{Json, Floats}

pub record Query : Type 0 where
  pub symbol : Text
  pub interval : Text
  pub start_time : ℕ
  pub end_time : ℕ
  pub limit : ℕ

-- What `http.NewRequestWithContext`, `client.Do` and `io.ReadAll` give: an error of either of the first
-- two, which is returned alike, one of the last, or a status, a `Retry-After` header, the body
-- and what the body decodes to.
pub data Response : Type 0 where
  no_response : Text → Response
  unread_body : Text → Response
  response : ℕ → Text → Text → Option (List (List Json)) → Response

pub record Env : Type 0 where
  pub floats : Floats
  pub respond : ℕ → Text → Query → Response
  -- The context is done before the pause of so many milliseconds is over.
  pub cancelled : ℕ → ℕ → Bool
  pub insert : ℕ → List Kline → Option Text

abbrev pub max_429_retries : ℕ
max_429_retries = 5

abbrev pub max_klines_per_request : ℕ
max_klines_per_request = 1500

take_text : ℕ → Text → Text
take_text zero s = []
take_text (suc n) [] = []
take_text (suc n) (c ∷ s) = c ∷ take_text n s

unfoldable pub truncate : Text → ℕ → Text
unfolding take_text
truncate b n = if leb (length b) n then b else take_text n b ++ codes "..."

-- The seconds that the answer asks to wait: one, if it names no positive number.
abbrev wait_of : Option ℤ → ℕ
wait_of none = 1
wait_of (some (pos n)) = if n == 0 then 1 else n
wait_of (some (negsuc n)) = 1

unfoldable pub wait_seconds : Text → ℕ
wait_seconds [] = 1
wait_seconds (c ∷ s) = wait_of (atoi (c ∷ s))

abbrev decoded : Option (List (List Json)) → Result Error (List (List Json))
decoded none = err (external (codes "decode klines"))
decoded (some rows) = ok rows

-- A request of the loop. `retry` counts them, `calls` is the number of the call, and `again` stands
-- for the rounds that follow. The result is the next call's number and the rows.
abbrev on_response :
    Env
    → ℕ
    → ℕ
    → ℕ × Result Error (List (List Json))
    → Response
    → ℕ × Result Error (List (List Json))
on_response env retry calls again (no_response e) = (calls + 1, err (external e))
on_response env retry calls again (unread_body e) = (calls + 1, err (external e))
on_response env retry calls again (response status retry_after body rows) =
    if status == 200
    then (calls + 1, decoded rows)
    else if status == 429 && ltb retry max_429_retries
    then (if env.cancelled calls (1000 * wait_seconds retry_after)
        then (calls + 1, err (external (codes "context canceled")))
        else again)
    else (calls + 1, err (http_status status (truncate body 500)))

-- `left` is the number of rounds left, 6 - `retry`.
unfoldable pub fetch_from : Env → Text → Query → ℕ → ℕ → ℕ → ℕ × Result Error (List (List Json))
fetch_from env endpoint q zero retry calls = (calls, err exhausted_retries)
fetch_from env endpoint q (suc left) retry calls =
    let again = fetch_from env endpoint q left (retry + 1) (calls + 1) in
    on_response env retry calls again (env.respond calls endpoint q)

unfoldable pub fetch_klines :
    Env → Text → Text → Text → ℕ → ℕ → ℕ → ℕ × Result Error (List (List Json))
unfolding fetch_from
fetch_klines env endpoint symbol interval start_ms end_ms calls =
    fetch_from env endpoint
      (record {
        symbol = symbol;
        interval = interval;
        start_time = start_ms;
        end_time = end_ms;
        limit = max_klines_per_request;
      })
      (max_429_retries + 1) 0 calls
