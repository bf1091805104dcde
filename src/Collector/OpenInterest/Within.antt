-- ===== src/Collector/OpenInterest/Within.antt =====
-- A backfill stays in its range.
use scraper.Base.{
  ℕ, zero, suc, ◌+◌, ◌≤◌, ◌≡◌, refl, ap, inl, inr, ◌||◌, List, [], ◌∷◌, ◌++◌, Option, none, some,
  All, Bool-cases, arith, ltb,
}
use scraper.Text.{Text}
use scraper.Time.{Time}
use scraper.Models.{OpenInterest}
use scraper.Collector.OpenInterest.{
  OpenInterestScraper, OpenInterestWorld, counted, key_of, has_key, marked, fetch_history,
  filter_items, offer_all, use_page, backfill_rounds, start_of, end_of, backfill_symbol,
}

abbrev pub InRange : Time → Time → OpenInterest → Type 0
InRange start_time end_time item = (start_time ≤ item.time) × (item.time ≤ end_time)

-- Rows of a range on top of those before.
abbrev pub AddsWithin : Time → Time → List OpenInterest → List OpenInterest → Type 0
AddsWithin start_time end_time before items =
    (new : List OpenInterest) × (items ≡ new ++ before) × All (InRange start_time end_time) new

module _ (world : OpenInterestWorld) (start_time end_time : Time) (before : List OpenInterest) where
  abbrev Within : List OpenInterest → Type 0
  Within = AddsWithin start_time end_time before

  filter_items-Within :
      (items filtered : List OpenInterest) (s : OpenInterestScraper)
      → Within (filtered ++ s.offered)
      → Within (offer_all world (filter_items world start_time end_time items filtered s)).offered
  unfolding filter_items
  filter_items-Within [] filtered s h = h
  filter_items-Within (item ∷ items) filtered s h =
      elim (Bool-cases (
        (ltb item.time start_time || ltb end_time item.time)
        || has_key (key_of item) s.last_seen)) [
          | inl skip ↦ rw skip (filter_items-Within items filtered s h)
          | inr take ↦
              let (new, same, all) = h in
              let lo : start_time ≤ item.time = ground (arith, take) in
              let hi : item.time ≤ end_time = ground (arith, take) in
              rw take (
                filter_items-Within items (item ∷ filtered) (marked item s)
                  (item ∷ new, ap (λ xs. item ∷ xs) same, ((lo, hi), all)))
        ]

  use_page-Within :
      (cursor : Time) (o : Option (List OpenInterest)) (s : OpenInterestScraper)
      → Within s.offered
      → Within (use_page world start_time end_time cursor o s).0.offered
  use_page-Within cursor none s h = h
  use_page-Within cursor (some []) s h = h
  use_page-Within cursor (some (item ∷ items)) s h = filter_items-Within (item ∷ items) [] s h

  go_on-Within :
      (n : ℕ) (symbol : Text) (x : OpenInterestScraper × Option Time)
      → Within x.0.offered
      → ((next : Time) (s : OpenInterestScraper)
          → Within s.offered
          → Within (backfill_rounds world n symbol start_time end_time next s).offered)
      → Within
          (elim x.1 as (λ _. OpenInterestScraper) [
            | none ↦ x.0
            | some next ↦ backfill_rounds world n symbol start_time end_time next x.0
          ]).offered
  go_on-Within n symbol (s, none) h k = h
  go_on-Within n symbol (s, some next) h k = k next s h

  backfill_rounds-Within :
      (n : ℕ) (symbol : Text) (cursor : Time) (s : OpenInterestScraper)
      → Within s.offered
      → Within (backfill_rounds world n symbol start_time end_time cursor s).offered
  unfolding backfill_rounds
  backfill_rounds-Within zero symbol cursor s h = h
  backfill_rounds-Within (suc n) symbol cursor s h = elim (Bool-cases (ltb start_time cursor)) [
    | inr over ↦ rw (over, backfill_rounds) h
    | inl more ↦
        rw (more, backfill_rounds)
          (go_on-Within n symbol _
            (use_page-Within cursor (fetch_history world symbol cursor s) (counted s) h)
            (λ next s' h'. backfill_rounds-Within n symbol next s' h'))
  ]

-- The rows that a backfill of a symbol gives to the store, in any number of rounds and whatever the
-- exchange answers, are on top of those before, and lie between its start and its end.
pub backfill_symbol-AddsWithin :
    (world : OpenInterestWorld) (n : ℕ) (symbol : Text) (s : OpenInterestScraper)
    → AddsWithin
        (start_of world s)
        (end_of world s)
        s.offered
        (backfill_symbol world n symbol s).offered
unfolding backfill_symbol
backfill_symbol-AddsWithin world n symbol s =
    backfill_rounds-Within world (start_of world s) (end_of world s) s.offered n symbol
      (end_of world s) (record s { calls = s.calls + 2 }) ([], refl, tt)
