-- ===== src/Tests/Collector.antt =====
-- A collector of one minute's K-lines of BTCUSDT, with an exchange that answers one row.
use scraper.Base.{
  ℕ, ◌+◌, if◌then◌else◌, refl, Bool, true, false, List, [], ◌∷◌, Option, none, some, ltb, arith, ok,
}
use scraper.Base.State.{Post}
use scraper.Text.{codes}
use scraper.Time.{Time, unix_milli, int64_zero, int64_suc}
use scraper.Backfill.Row.{Json, float64, string}
use scraper.Collector.Rows.{Message, k_fields, unreadable}
use scraper.Collector.Sink.{Collector, answer, World}
use scraper.Collector.Spot.{catch_up_forward, read_messages, forward, new_scraper}
use scraper.Collector.Spot.Sessions.{SomeResumes, forward-Resumes}
use scraper.Collector.Spot.Cursor.{Ended, catch_up_forward-Ended}
use scraper.Collector.Spot.Messages.{Resumes, ResumesOr, read_messages-ResumesOr}
use scraper.Collector.Futures.{forward_ticks}
use scraper.Collector.Futures.Follows.{Follows, forward_ticks-Follows}

-- 2025-01-01T00:00:00Z.
abbrev start : Time
start = 63_871_286_400_000_000_000

-- The row of the minute that opens at a millisecond.
abbrev row_at : ℕ → List Json
row_at ms =
    float64 ms
    ∷ string (codes "1")
    ∷ string (codes "2")
    ∷ string (codes "1")
    ∷ string (codes "2")
    ∷ string (codes "5")
    ∷ float64 (ms + 59_999)
    ∷ string (codes "9")
    ∷ float64 (int64_zero + 3)
    ∷ string (codes "0")
    ∷ string (codes "0")
    ∷ string (codes "0")
    ∷ []

abbrev opened : Option (ℕ × ℕ) → ℕ
opened none = unix_milli start
opened (some (a, b)) = a

-- The store fails from the call of number 4, the publisher from that of number 3.
abbrev world : World
world = record {
  conversions = record { truncate_int64 = λ x. x; parse_float = λ t. 0 };
  ask = λ n q. answer 200 (codes "200 OK") [] (ok (row_at (opened q.range) ∷ []));
  now = λ n. unix_milli start + 150_000;
  insert = λ n ks. if ltb n 4 then none else some (codes "down");
  publish = λ n ks. if ltb n 3 then none else some (codes "down");
}

abbrev collector : Bool → ℕ → Collector
collector is_reverse cursor = record {
  symbol = codes "BTCUSDT";
  exchange = codes "binance";
  interval = codes "1m";
  is_reverse = is_reverse;
  has_publisher = true;
  has_observer = true;
  cursor = cursor;
  calls = 0;
  trace = [];
}

abbrev message : Message
message = k_fields (λ f. float64 (unix_milli start)) true

catch_up_forward-Ended_example :
    Ended world
      (unix_milli start)
      0
      (catch_up_forward world 150_001 (collector false (unix_milli start)))
catch_up_forward-Ended_example =
    catch_up_forward-Ended world (unix_milli start + 150_000) (unix_milli start) 0 150_001
      (collector false (unix_milli start)) (λ n. omega arith) (omega arith)
      (record { order = tt; at = refl; published = refl })

read_messages-ResumesOr_example :
    Post
      (ResumesOr world int64_zero)
      (λ _. Resumes int64_zero)
      (read_messages world (unreadable ∷ message ∷ message ∷ []) (collector false int64_zero))
read_messages-ResumesOr_example =
    read_messages-ResumesOr world int64_zero (unreadable ∷ message ∷ message ∷ [])
      (collector false int64_zero) (record { order = tt; at = refl })

forward_ticks-Follows_example :
    Follows (int64_suc int64_zero) (forward_ticks world 3 (collector false int64_zero))
forward_ticks-Follows_example =
    forward_ticks-Follows world (int64_suc int64_zero) 3 (collector false int64_zero)
      (record { order = tt; at = refl })

-- A store that takes everything, and two rounds: a connection that is refused, and two messages.
forward-Resumes_example : SomeResumes int64_zero (
    forward
      (record world { insert = λ n ks. none })
      (unix_milli start + 150_001)
      (none ∷ some (message ∷ unreadable ∷ []) ∷ [])
      (new_scraper (codes "btcusdt") (codes "binance") [] true))
forward-Resumes_example =
    forward-Resumes (record world { insert = λ n ks. none }) int64_zero (λ n ks. refl)
      (unix_milli start + 150_000) (unix_milli start + 150_001) (λ n. omega arith) (omega arith)
      (none ∷ some (message ∷ unreadable ∷ []) ∷ [])
      (new_scraper (codes "btcusdt") (codes "binance") [] true) (record { order = tt; at = refl })
