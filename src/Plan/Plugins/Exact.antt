-- ===== src/Plan/Plugins/Exact.antt =====
-- Which symbols the plugins of a plan collect, and how often.
use scraper.Base.{
  ℕ, ◌+◌, ◌*◌, ◌≡◌, refl, inl, inr, true, ◌&&◌, List, [], ◌∷◌, ◌++◌, map, Option, none, arith,
  Bool-cases, if◌then◌else◌,
}
use scraper.Text.{Text, text_eq}
use scraper.Time.{Time}
use scraper.Plan.{
  Kind, kline, order_book, funding_rate, open_interest, Market, spot, futures, CollectionPlan,
}
use scraper.Plan.Selection.{offered, times_in, same_kind, same_market}
use scraper.Plan.Plugins.{
  Plugin, symbol_plugin, funding_plugins, range_of, plugins_of, plugins_for, build_plugins,
}

-- How often a symbol is listed.
unfoldable pub times_of : Text → List Text → ℕ
times_of symbol [] = 0
times_of symbol (s ∷ symbols) =
    let rest = times_of symbol symbols in if text_eq s symbol then 1 + rest else rest

abbrev pub symbols_of : CollectionPlan → Market → List Text
symbols_of plan spot = plan.spot_symbols
symbols_of plan futures = plan.futures_symbols

-- How often plugins of a kind and a market collect a symbol.
unfoldable pub collects : Kind → Market → Text → List Plugin → ℕ
unfolding times_of
collects k m symbol [] = 0
collects k m symbol (p ∷ plugins) =
    let rest = collects k m symbol plugins in
    if same_kind k p.kind && same_market m p.market
    then times_of symbol p.scraper_symbols + rest
    else rest

module _ (k : Kind) (m : Market) (symbol : Text) where
  collects-append :
      (ps qs : List Plugin)
      → collects k m symbol (ps ++ qs) ≡ collects k m symbol ps + collects k m symbol qs
  unfolding collects
  collects-append [] qs = omega arith
  collects-append (p ∷ ps) qs = ground (arith, collects-append ps qs)

  collects-map :
      (plan : CollectionPlan) (k' : Kind) (m' : Market) (range : Option (Time × Time))
      (symbols : List Text)
      → collects k m symbol (map (symbol_plugin plan k' m' range) symbols)
        ≡ (if same_kind k k' && same_market m m' then times_of symbol symbols else 0)
  unfolding collects times_of
  collects-map plan k' m' range [] = ground arith
  collects-map plan k' m' range (s ∷ symbols) =
      ground (arith, collects-map plan k' m' range symbols)

  collects-funding :
      (plan : CollectionPlan) (symbols : List Text)
      → symbols ≡ plan.futures_symbols
      → collects k m symbol (funding_plugins plan symbols)
        ≡ (if same_kind k funding_rate && same_market m futures then times_of symbol symbols else 0)
  unfolding collects times_of
  collects-funding plan [] e = ground arith
  collects-funding plan (s ∷ symbols) e = rw (← e) (ground arith)

  collects-plugins_of :
      (plan : CollectionPlan) (k' : Kind) (m' : Market)
      → collects k m symbol (plugins_of plan k' m') ≡ (
          if same_kind k k' && (same_market m m' && offered k' m')
          then times_of symbol (symbols_of plan m')
          else 0)
  unfolding collects plugins_of
  collects-plugins_of plan kline spot =
      ground (arith, collects-map plan kline spot (range_of plan) plan.spot_symbols)
  collects-plugins_of plan kline futures =
      ground (arith, collects-map plan kline futures (range_of plan) plan.futures_symbols)
  collects-plugins_of plan order_book spot =
      ground (arith, collects-map plan order_book spot none plan.spot_symbols)
  collects-plugins_of plan order_book futures =
      ground (arith, collects-map plan order_book futures none plan.futures_symbols)
  collects-plugins_of plan funding_rate spot = ground arith
  collects-plugins_of plan funding_rate futures =
      ground (arith, collects-funding plan plan.futures_symbols refl)
  collects-plugins_of plan open_interest spot = ground arith
  collects-plugins_of plan open_interest futures = ground arith

same_kind→≡ : (k k' : Kind) → same_kind k k' ≡ true → k ≡ k'
unfolding same_kind
same_kind→≡ kline kline h = refl
same_kind→≡ order_book order_book h = refl
same_kind→≡ funding_rate funding_rate h = refl
same_kind→≡ open_interest open_interest h = refl
same_kind→≡ kline order_book h = cc
same_kind→≡ kline funding_rate h = cc
same_kind→≡ kline open_interest h = cc
same_kind→≡ order_book kline h = cc
same_kind→≡ order_book funding_rate h = cc
same_kind→≡ order_book open_interest h = cc
same_kind→≡ funding_rate kline h = cc
same_kind→≡ funding_rate order_book h = cc
same_kind→≡ funding_rate open_interest h = cc
same_kind→≡ open_interest kline h = cc
same_kind→≡ open_interest order_book h = cc
same_kind→≡ open_interest funding_rate h = cc

same_market→≡ : (m m' : Market) → same_market m m' ≡ true → m ≡ m'
unfolding same_market
same_market→≡ spot spot h = refl
same_market→≡ futures futures h = refl
same_market→≡ spot futures h = cc
same_market→≡ futures spot h = cc

module _ (k : Kind) (m : Market) (symbol : Text) (plan : CollectionPlan) where
  -- What a kind and a market that are enabled so often give.
  abbrev expected : ℕ → ℕ
  expected n = if offered k m then n * times_of symbol (symbols_of plan m) else 0

  expected_suc :
      (n : ℕ)
      → (if offered k m then times_of symbol (symbols_of plan m) else 0) + expected n
        ≡ expected (1 + n)
  expected_suc n = elim (Bool-cases (offered k m)) [
    | inl there ↦ rw there (grind arith)
    | inr missing ↦ rw missing (omega arith)
  ]

  collects-plugins_for :
      (kinds : List (Kind × Market))
      → collects k m symbol (plugins_for plan kinds) ≡ expected (times_in k m kinds)
  unfolding collects plugins_for times_in
  collects-plugins_for [] = ground arith
  collects-plugins_for ((k', m') ∷ kinds) =
      let split : _ ≡ _ =
        collects-append k m symbol (plugins_of plan k' m') (plugins_for plan kinds) in
      let first = collects-plugins_of k m symbol plan k' m' in
      let rest = collects-plugins_for kinds in
      elim (Bool-cases (same_kind k k')) [
        | inr other ↦ rw (split, rest, first, other) (omega arith)
        | inl kind ↦ elim (Bool-cases (same_market m m')) [
          | inr other ↦ rw (split, rest, first, kind, other) (omega arith)
          | inl market ↦
              rw
                (
                  split,
                  rest,
                  first,
                  kind,
                  market,
                  ← same_kind→≡ k k' kind,
                  ← same_market→≡ m m' market,
                )
                (expected_suc (times_in k m kinds))
        ]
      ]

-- For a kind of data that a market has, the plugins of a plan collect a symbol as often as the kind is
-- enabled for the market, times how often the symbol is listed for the market; what a market does not
-- have is not collected. So without a symbol in a market nothing of the market is collected.
pub build_plugins-exact :
    (plan : CollectionPlan) (k : Kind) (m : Market) (symbol : Text)
    → collects k m symbol (build_plugins plan) ≡ (
        if offered k m
        then times_in k m plan.enabled_kinds * times_of symbol (symbols_of plan m)
        else 0)
unfolding build_plugins
build_plugins-exact plan k m symbol = collects-plugins_for k m symbol plan plan.enabled_kinds
