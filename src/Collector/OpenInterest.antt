-- ===== src/Collector/OpenInterest.antt =====
-- internal/exchange/binance/scraper/openinterest.go: the collector of open interests. What the
-- exchange, the clock and the store answer is a function of the number of the call; `offered` holds
-- the rows that the store was given, newest first. Pauses, timeouts and log output are left out.
pub mod Once
pub mod Within
use scraper.Base.{
  ℕ, zero, suc, ◌+◌, ◌-◌, Bool, true, false, not, ◌&&◌, ◌||◌, List, [], ◌∷◌, ◌++◌, Option, none,
  some, ok, err, Result, ltb, leb, ◌==◌, if◌then◌else◌,
}
use scraper.Text.{Text, codes, text_eq, to_upper}
use scraper.Time.{Time, zero_time, millisecond, int64_zero, unix_milli, from_unix_milli}
use scraper.Models.{Float, OpenInterest}
use scraper.Storage.Names.{itoa}

-- What `lastSeen` keeps of a row: the milliseconds, the symbol and the period, which the source
-- joins by colons.
abbrev pub Key : Type 0
Key = ℕ × Text × Text

-- `startTime` and `endTime` are the zero time if no range is given.
pub record OpenInterestScraper : Type 0 where
  pub exchange : Text
  pub start_time : Time
  pub end_time : Time
  pub last_seen : List Key
  pub calls : ℕ
  pub offered : List OpenInterest

-- An object of an answer: a symbol, the text of a number, and an int64 of milliseconds.
pub record OpenInterestPayload : Type 0 where
  pub symbol : Text
  pub value : Text
  pub time : ℕ

-- The error of a call, or a status and what the body decodes to.
pub data Reply (A : Type 0) : Type 0 where
  no_reply : Text → Reply A
  reply : ℕ → Option A → Reply A

pub record OpenInterestWorld : Type 0 where
  pub parse_float : Text → Option Float
  pub now : ℕ → Time
  -- t.AddDate(0, -1, 0)
  pub month_before : Time → Time
  pub get : ℕ → Text → Reply OpenInterestPayload
  pub get_history : ℕ → Text → ℕ → Reply (List OpenInterestPayload)
  pub insert : ℕ → OpenInterest → Option Text

abbrev pub counted : OpenInterestScraper → OpenInterestScraper
counted s = record s { calls = s.calls + 1 }

abbrev pub key_of : OpenInterest → Key
key_of item = (unix_milli item.time, item.symbol, item.period)

abbrev pub key_eq : Key → Key → Bool
key_eq a b = a.0 == b.0 && (text_eq a.1 b.1 && text_eq a.2 b.2)

unfoldable pub has_key : Key → List Key → Bool
has_key k [] = false
has_key k (k' ∷ ks) = key_eq k' k || has_key k ks

-- A row that was not seen, as `seen` leaves the collector.
abbrev pub marked : OpenInterest → OpenInterestScraper → OpenInterestScraper
marked item s = record s { last_seen = key_of item ∷ s.last_seen }

abbrev pub offer : OpenInterest → OpenInterestScraper → OpenInterestScraper
offer item s = record s { calls = s.calls + 1; offered = item ∷ s.offered }

module _ (world : OpenInterestWorld) where
  abbrev pub open_interest_of : Text → Text → Time → OpenInterestPayload → Option OpenInterest
  open_interest_of exchange period t raw = elim (world.parse_float raw.value) [
    | none ↦ none
    | some value ↦ some (record {
      time = t;
      symbol = to_upper raw.symbol;
      open_interest = value;
      period = period;
      market = codes "futures";
      exchange = exchange;
    })
  ]

  -- `fetchHTTP`, where `none` is an error; the clock is asked for the time of an answer without one.
  abbrev pub on_reply : OpenInterestScraper → Reply OpenInterestPayload → Option OpenInterest
  on_reply s (no_reply e) = none
  on_reply s (reply status none) = none
  on_reply s (reply status (some raw)) =
      if status == 200
      then open_interest_of s.exchange (codes "realtime")
          (if ltb int64_zero raw.time then from_unix_milli raw.time else world.now s.calls) raw
      else none

  unfoldable pub fetch_http : Text → OpenInterestScraper → Option OpenInterest
  fetch_http symbol s = on_reply s (world.get s.calls (to_upper symbol))

  -- A symbol of `pollAllHTTP`: whether it was a success.
  abbrev pub inserted : Option Text → Bool
  inserted none = true
  inserted (some e) = false

  abbrev pub use_item : Option OpenInterest → OpenInterestScraper → OpenInterestScraper × Bool
  use_item none s = (s, false)
  use_item (some item) s =
      if has_key (key_of item) s.last_seen
      then (s, true)
      else (offer item (marked item s), inserted (world.insert s.calls item))

  unfoldable pub poll_symbol : Text → OpenInterestScraper → OpenInterestScraper × Bool
  unfolding fetch_http has_key
  poll_symbol symbol s = use_item (fetch_http symbol s) (counted s)

  -- The loop of `pollAllHTTP`; its error is that no symbol was a success.
  unfoldable pub poll_symbols : List Text → Bool → OpenInterestScraper → OpenInterestScraper × Bool
  unfolding poll_symbol
  poll_symbols [] any_success s = (s, any_success)
  poll_symbols (symbol ∷ symbols) any_success s =
      let (s', success) = poll_symbol symbol s in poll_symbols symbols (any_success || success) s'

  abbrev pub is_none : List Text → Bool
  is_none [] = true
  is_none (symbol ∷ symbols) = false

  unfoldable pub poll_all_http : List Text → OpenInterestScraper → OpenInterestScraper × Bool
  unfolding poll_symbols
  poll_all_http symbols s =
      let (s', any_success) = poll_symbols symbols false s in (s', any_success || is_none symbols)

  -- `parseWS` of a message, which is `none` if it cannot be decoded.
  abbrev pub parse_ws : Text → Option OpenInterestPayload → Option OpenInterest
  parse_ws exchange none = none
  parse_ws exchange (some raw) =
      open_interest_of exchange (codes "realtime") (from_unix_milli raw.time) raw

  -- The messages of `runWS`, up to an error of the read.
  unfoldable pub run_ws :
      List (Option OpenInterestPayload) → OpenInterestScraper → OpenInterestScraper
  unfolding has_key
  run_ws [] s = s
  run_ws (msg ∷ msgs) s = run_ws msgs (use_item (parse_ws s.exchange msg) s).0

  -- The rows of `fetchHistory`.
  unfoldable pub history_rows : Text → List OpenInterestPayload → List OpenInterest
  history_rows exchange [] = []
  history_rows exchange (raw ∷ raws) =
      let rest = history_rows exchange raws in
      elim (open_interest_of exchange (codes "4h") (from_unix_milli raw.time) raw) [
        | none ↦ rest
        | some item ↦ item ∷ rest
      ]

  abbrev pub on_history : Text → Reply (List OpenInterestPayload) → Option (List OpenInterest)
  on_history exchange (no_reply e) = none
  on_history exchange (reply status none) = none
  on_history exchange (reply status (some raws)) =
      if status == 200 then some (history_rows exchange raws) else none

  unfoldable pub fetch_history : Text → Time → OpenInterestScraper → Option (List OpenInterest)
  unfolding history_rows
  fetch_history symbol end_time s =
      on_history s.exchange (world.get_history s.calls (to_upper symbol) (unix_milli end_time))

  -- The rows of a page in the range that were not seen, newest first, on top of `filtered`.
  unfoldable pub filter_items :
      Time
      → Time
      → List OpenInterest
      → List OpenInterest
      → OpenInterestScraper
      → OpenInterestScraper × List OpenInterest
  unfolding has_key
  filter_items start_time end_time [] filtered s = (s, filtered)
  filter_items start_time end_time (item ∷ items) filtered s =
      if (ltb item.time start_time || ltb end_time item.time) || has_key (key_of item) s.last_seen
      then filter_items start_time end_time items filtered s
      else filter_items start_time end_time items (item ∷ filtered) (marked item s)

  -- `InsertOpenInterests`, whose error is logged only.
  abbrev pub offer_all : OpenInterestScraper × List OpenInterest → OpenInterestScraper
  offer_all (s, filtered) = record s { calls = s.calls + 1; offered = filtered ++ s.offered }

  -- The end of a round: `none` at the end of the history, or the cursor of the next round.
  abbrev pub use_page :
      Time
      → Time
      → Time
      → Option (List OpenInterest)
      → OpenInterestScraper
      → OpenInterestScraper × Option Time
  use_page start_time end_time cursor none s = (s, some cursor)
  use_page start_time end_time cursor (some []) s = (s, none)
  use_page start_time end_time cursor (some (item ∷ items)) s = (
    offer_all (filter_items start_time end_time (item ∷ items) [] s),
    some (item.time - millisecond),
  )

  -- So many rounds of `backfillSymbol` at most.
  unfoldable pub backfill_rounds :
      ℕ → Text → Time → Time → Time → OpenInterestScraper → OpenInterestScraper
  unfolding fetch_history filter_items
  backfill_rounds zero symbol start_time end_time cursor s = s
  backfill_rounds (suc n) symbol start_time end_time cursor s = elim (ltb start_time cursor) [
    | false ↦ s
    | true ↦
        let (s', r) =
          use_page start_time end_time cursor (fetch_history symbol cursor s) (counted s) in
        elim r [ none ↦ s' | some next ↦ backfill_rounds n symbol start_time end_time next s' ]
  ]

  abbrev pub start_of : OpenInterestScraper → Time
  start_of s =
      if s.start_time == zero_time then world.month_before (world.now s.calls) else s.start_time

  abbrev pub end_of : OpenInterestScraper → Time
  end_of s = if s.end_time == zero_time then world.now (s.calls + 1) else s.end_time

  unfoldable pub backfill_symbol : ℕ → Text → OpenInterestScraper → OpenInterestScraper
  unfolding backfill_rounds
  backfill_symbol n symbol s =
      backfill_rounds n symbol (start_of s) (end_of s) (end_of s) (record s { calls = s.calls + 2 })

-- `NewOpenInterestScraper` and `SetReverse`.
abbrev pub new_open_interest_scraper : Text → Time → Time → OpenInterestScraper
new_open_interest_scraper exchange start_time end_time = record {
  exchange = exchange;
  start_time = start_time;
  end_time = end_time;
  last_seen = [];
  calls = 0;
  offered = [];
}

-- What a collector does, in any order.
pub data OpenInterestEvent : Type 0 where
  polled : List Text → OpenInterestEvent
  received : List (Option OpenInterestPayload) → OpenInterestEvent
  backfilled : ℕ → Text → OpenInterestEvent

unfoldable pub perform :
    OpenInterestWorld → OpenInterestEvent → OpenInterestScraper → OpenInterestScraper
unfolding poll_all_http run_ws backfill_symbol
perform world (polled symbols) s = (poll_all_http world symbols s).0
perform world (received msgs) s = run_ws world msgs s
perform world (backfilled n symbol) s = backfill_symbol world n symbol s

unfoldable pub perform_all :
    OpenInterestWorld → List OpenInterestEvent → OpenInterestScraper → OpenInterestScraper
unfolding perform
perform_all world [] s = s
perform_all world (e ∷ es) s = perform_all world es (perform world e s)
