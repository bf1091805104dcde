-- ===== src/Collector/OpenInterest/Once.antt =====
-- Each open interest is given to the store once.
use scraper.Base.{
  ℕ, zero, suc, ◌+◌, ◌≡◌, refl, inl, inr, Bool, true, false, ◌||◌, List, [], ◌∷◌, ◌++◌, map, Option,
  none, some, All, Bool-cases, arith, ltb,
}
use scraper.Text.{Text}
use scraper.Text.Laws.{text_eq→≡, text_eq_refl}
use scraper.Time.{Time}
use scraper.Models.{OpenInterest}
use scraper.Collector.OpenInterest.{
  Key, OpenInterestScraper, OpenInterestPayload, OpenInterestWorld, counted, key_of, key_eq,
  has_key, marked, fetch_http, use_item, poll_symbol, poll_symbols, poll_all_http, parse_ws, run_ws,
  fetch_history, filter_items, offer_all, use_page, backfill_rounds, start_of, end_of,
  backfill_symbol, OpenInterestEvent, polled, received, backfilled, perform, perform_all,
}

-- No two rows have one key.
abbrev pub IsDistinct : List OpenInterest → Type 0
IsDistinct [] = Unit
IsDistinct (item ∷ items) = (has_key (key_of item) (map key_of items) ≡ false) × IsDistinct items

abbrev pub IsSeen : List Key → OpenInterest → Type 0
IsSeen seen item = has_key (key_of item) seen ≡ true

-- Rows that were all seen, and no two of which have one key.
abbrev pub OnceIn : List Key → List OpenInterest → Type 0
OnceIn seen items = IsDistinct items × All (IsSeen seen) items

abbrev pub Once : OpenInterestScraper → Type 0
Once s = OnceIn s.last_seen s.offered

key_eq→≡ : (a b : Key) → key_eq a b ≡ true → a ≡ b
key_eq→≡ a b h =
    let times : a.0 ≡ b.0 = ground (arith, h) in
    let symbols : a.1 ≡ b.1 = text_eq→≡ a.1 b.1 (ground (arith, h)) in
    let periods : a.2 ≡ b.2 = text_eq→≡ a.2 b.2 (ground (arith, h)) in cc (times, symbols, periods)

-- A row that was not seen is none of those that were.
unseen_new :
    (k : Key) (seen : List Key) (items : List OpenInterest)
    → All (IsSeen seen) items
    → has_key k seen ≡ false
    → has_key k (map key_of items) ≡ false
unfolding has_key
unseen_new k seen [] all new = refl
unseen_new k seen (item ∷ items) all new = elim (Bool-cases (key_eq (key_of item) k)) [
  | inr other ↦ rw other (unseen_new k seen items all.1 new)
  | inl same ↦
      let here : key_of item ≡ k = key_eq→≡ (key_of item) k same in absurd (cc (here, all.0, new))
]

IsSeen-more :
    (k : Key) (seen : List Key) (items : List OpenInterest)
    → All (IsSeen seen) items
    → All (IsSeen (k ∷ seen)) items
IsSeen-more k seen [] all = tt
IsSeen-more k seen (item ∷ items) all =
    let before : has_key (key_of item) seen ≡ true = all.0 in
    (unfold has_key in ground (arith, before), IsSeen-more k seen items all.1)

key_eq_refl : (k : Key) → key_eq k k ≡ true
key_eq_refl k = rw (text_eq_refl k.1, text_eq_refl k.2) (ground arith)

-- A row that was not seen joins those that were.
join-OnceIn :
    (item : OpenInterest) (seen : List Key) (items : List OpenInterest)
    → has_key (key_of item) seen ≡ false
    → OnceIn seen items
    → OnceIn (key_of item ∷ seen) (item ∷ items)
unfolding has_key
join-OnceIn item seen items new h = (
  (unseen_new (key_of item) seen items h.1 new, h.0),
  (rw (key_eq_refl (key_of item)) refl, IsSeen-more (key_of item) seen items h.1),
)

module _ (world : OpenInterestWorld) where
  use_item-Once :
      (o : Option OpenInterest) (s : OpenInterestScraper) → Once s → Once (use_item world o s).0
  use_item-Once none s h = h
  use_item-Once (some item) s h = elim (Bool-cases (has_key (key_of item) s.last_seen)) [
    | inl seen ↦ rw seen h
    | inr new ↦ rw new (join-OnceIn item s.last_seen s.offered new h)
  ]

  poll_symbols-Once :
      (symbols : List Text) (any_success : Bool) (s : OpenInterestScraper)
      → Once s
      → Once (poll_symbols world symbols any_success s).0
  unfolding poll_symbols poll_symbol
  poll_symbols-Once [] any_success s h = h
  poll_symbols-Once (symbol ∷ symbols) any_success s h =
      let (s', success) = poll_symbol world symbol s in
      poll_symbols-Once symbols (any_success || success) s'
        (use_item-Once (fetch_http world symbol s) (counted s) h)

  run_ws-Once :
      (msgs : List (Option OpenInterestPayload)) (s : OpenInterestScraper)
      → Once s
      → Once (run_ws world msgs s)
  unfolding run_ws
  run_ws-Once [] s h = h
  run_ws-Once (msg ∷ msgs) s h =
      run_ws-Once msgs (use_item world (parse_ws world s.exchange msg) s).0
        (use_item-Once (parse_ws world s.exchange msg) s h)

  filter_items-Once :
      (start_time end_time : Time) (items filtered : List OpenInterest) (s : OpenInterestScraper)
      → OnceIn s.last_seen (filtered ++ s.offered)
      → Once (offer_all world (filter_items world start_time end_time items filtered s))
  unfolding filter_items
  filter_items-Once start_time end_time [] filtered s h = h
  filter_items-Once start_time end_time (item ∷ items) filtered s h =
      elim (Bool-cases (
        (ltb item.time start_time || ltb end_time item.time)
        || has_key (key_of item) s.last_seen)) [
          | inl skip ↦ rw skip (filter_items-Once start_time end_time items filtered s h)
          | inr take ↦
              let new : has_key (key_of item) s.last_seen ≡ false = ground (arith, take) in
              rw take (
                filter_items-Once start_time end_time items (item ∷ filtered) (marked item s)
                  (join-OnceIn item s.last_seen (filtered ++ s.offered) new h))
        ]

  use_page-Once :
      (start_time end_time cursor : Time) (o : Option (List OpenInterest)) (s : OpenInterestScraper)
      → Once s
      → Once (use_page world start_time end_time cursor o s).0
  use_page-Once start_time end_time cursor none s h = h
  use_page-Once start_time end_time cursor (some []) s h = h
  use_page-Once start_time end_time cursor (some (item ∷ items)) s h =
      filter_items-Once start_time end_time (item ∷ items) [] s h

  -- The rounds, from what a round leaves.
  go_on-Once :
      (n : ℕ) (symbol : Text) (start_time end_time : Time) (x : OpenInterestScraper × Option Time)
      → Once x.0
      → ((next : Time) (s : OpenInterestScraper)
          → Once s
          → Once (backfill_rounds world n symbol start_time end_time next s))
      → Once (elim x.1 as (λ _. OpenInterestScraper) [
        | none ↦ x.0
        | some next ↦ backfill_rounds world n symbol start_time end_time next x.0
      ])
  go_on-Once n symbol start_time end_time (s, none) h k = h
  go_on-Once n symbol start_time end_time (s, some next) h k = k next s h

  backfill_rounds-Once :
      (n : ℕ) (symbol : Text) (start_time end_time cursor : Time) (s : OpenInterestScraper)
      → Once s
      → Once (backfill_rounds world n symbol start_time end_time cursor s)
  unfolding backfill_rounds
  backfill_rounds-Once zero symbol start_time end_time cursor s h = h
  backfill_rounds-Once (suc n) symbol start_time end_time cursor s h =
      elim (Bool-cases (ltb start_time cursor)) [
        | inr over ↦ rw (over, backfill_rounds) h
        | inl before ↦
            rw (before, backfill_rounds)
              (go_on-Once n symbol start_time end_time _
                (use_page-Once start_time end_time cursor (fetch_history world symbol cursor s)
                  (counted s) h)
                (λ next s' h'. backfill_rounds-Once n symbol start_time end_time next s' h'))
      ]

  -- Over any sequence of polls, received messages and backfills, whatever the exchange and the
  -- store answer, no two of the rows given to the store have the same milliseconds, symbol and
  -- period, and all of them were noted as seen, if this holds before.
  pub perform_all-Once :
      (es : List OpenInterestEvent) (s : OpenInterestScraper)
      → Once s
      → Once (perform_all world es s)
  unfolding perform_all perform poll_all_http backfill_symbol
  perform_all-Once [] s h = h
  perform_all-Once (polled symbols ∷ es) s h =
      perform_all-Once es (perform world (polled symbols) s) (poll_symbols-Once symbols false s h)
  perform_all-Once (received msgs ∷ es) s h =
      perform_all-Once es (perform world (received msgs) s) (run_ws-Once msgs s h)
  perform_all-Once (backfilled n symbol ∷ es) s h =
      perform_all-Once es (perform world (backfilled n symbol) s) (
        backfill_rounds-Once n symbol (start_of world s) (end_of world s) (end_of world s)
          (record s { calls = s.calls + 2 }) h)
