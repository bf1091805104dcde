-- ===== src/Plan/Plugins/Sound.antt =====
-- The direction and the range of the plugins of a plan, and what they collect.
use scraper.Base.{
  ◌<◌, ◌≡◌, refl, ◌∙◌, ap, inl, inr, true, List, [], ◌∷◌, map, Option, none, some, All, All-append,
  ◌*◌, Bool-cases, if◌then◌else◌,
}
use scraper.Text.{Text, codes, text_eq, to_lower, trim_space}
use scraper.Time.{Time}
use scraper.Plan.{
  Kind, kline, order_book, funding_rate, open_interest, Market, spot, futures, Direction, forward,
  reverse, supported_reverse_modes, BinanceConfig, CollectionPlan, build_collection_plan,
}
use scraper.Plan.Plugins.Exact.{times_of, symbols_of, collects, build_plugins-exact}
use scraper.Plan.Selection.{offered, times_in, Selects, build_collection_plan-Selects}
use scraper.Plan.Plugins.{
  Plugin, symbol_plugin, funding_plugins, range_of, plugins_of, plugins_for, build_plugins,
}

-- A plugin runs in the direction of its plan. In a reverse run it is of a kind that has a reverse mode,
-- and has the range of the plan, which is not empty.
abbrev pub Sound : Direction → CollectionPlan → Plugin → Type 0
Sound forward plan p = (p.direction ≡ forward) × (p.reverse_range ≡ none)
Sound reverse plan p =
    (p.direction ≡ reverse)
    × (supported_reverse_modes p.kind ≡ true)
    × (p.reverse_range ≡ some (plan.start_time, plan.end_time))
    × (plan.start_time < plan.end_time)

-- The symbols that are configured for a market.
abbrev pub listed_for : BinanceConfig → Market → List Text
listed_for cfg spot = cfg.spot_symbols
listed_for cfg futures = cfg.futures_symbols

-- The range of the plugins of a kind.
abbrev range_for : CollectionPlan → Kind → Option (Time × Time)
range_for plan order_book = none
range_for plan _ = range_of plan

module _ (P : Plugin → Type 0) (plan : CollectionPlan) (k : Kind) where
  abbrev Holds : Type 0
  Holds =
      (p : Plugin) → p.kind ≡ k → p.direction ≡ plan.mode → p.reverse_range ≡ range_for plan k → P p

  map-All :
      (m : Market) (symbols : List Text)
      → Holds
      → All P (map (symbol_plugin plan k m (range_for plan k)) symbols)
  map-All m [] h = tt
  map-All m (s ∷ symbols) h = (h _ refl refl refl, map-All m symbols h)

plugins_of-All :
    (P : Plugin → Type 0) (plan : CollectionPlan) (k : Kind) (m : Market)
    → Holds P plan k
    → All P (plugins_of plan k m)
unfolding plugins_of
plugins_of-All P plan kline spot h = map-All P plan kline spot plan.spot_symbols h
plugins_of-All P plan kline futures h = map-All P plan kline futures plan.futures_symbols h
plugins_of-All P plan order_book spot h = map-All P plan order_book spot plan.spot_symbols h
plugins_of-All P plan order_book futures h =
    map-All P plan order_book futures plan.futures_symbols h
plugins_of-All P plan funding_rate spot h = tt
plugins_of-All P plan funding_rate futures h = go plan.futures_symbols
  where
    go : (symbols : List Text) → All P (funding_plugins plan symbols)
    go [] = tt
    go (s ∷ symbols) = (h _ refl refl refl, tt)
plugins_of-All P plan open_interest spot h = tt
plugins_of-All P plan open_interest futures h = (h _ refl refl refl, tt)

module _ (plan : CollectionPlan) where
  forward_Sound :
      (kinds : List (Kind × Market))
      → plan.mode ≡ forward
      → All (Sound forward plan) (plugins_for plan kinds)
  unfolding plugins_for
  forward_Sound [] e = tt
  forward_Sound ((k, m) ∷ kinds) e =
      All-append (Sound forward plan) (plugins_of plan k m) (plugins_for plan kinds)
        (plugins_of-All (Sound forward plan) plan k m
          (λ p kind direction range. (direction ∙ e, range ∙ none_for k)))
        (forward_Sound kinds e)
    where
      none_for : (k : Kind) → range_for plan k ≡ none
      none_for order_book = refl
      none_for kline = rw e refl
      none_for funding_rate = rw e refl
      none_for open_interest = rw e refl

  reverse_Sound :
      (kinds : List (Kind × Market))
      → plan.mode ≡ reverse
      → plan.start_time < plan.end_time
      → All (λ k. supported_reverse_modes k.0 ≡ true) kinds
      → All (Sound reverse plan) (plugins_for plan kinds)
  unfolding plugins_for supported_reverse_modes
  reverse_Sound [] e before all = tt
  reverse_Sound ((k, m) ∷ kinds) e before (supported, all) =
      All-append (Sound reverse plan) (plugins_of plan k m) (plugins_for plan kinds)
        (plugins_of-All (Sound reverse plan) plan k m (λ p kind direction range. (
          direction ∙ e,
          ap supported_reverse_modes kind ∙ supported,
          range ∙ range_given k supported,
          before,
        )))
        (reverse_Sound kinds e before all)
    where
      range_given :
          (k : Kind)
          → supported_reverse_modes k ≡ true
          → range_for plan k ≡ some (plan.start_time, plan.end_time)
      range_given order_book h = cc
      range_given kline h = rw e refl
      range_given funding_rate h = rw e refl
      range_given open_interest h = rw e refl

  Selects-Sound :
      (d : Direction) → plan.mode ≡ d → Selects d plan → All (Sound d plan) (build_plugins plan)
  unfolding build_plugins
  Selects-Sound forward e selects = forward_Sound plan.enabled_kinds e
  Selects-Sound reverse e (some_kind, realtime, before, supported) =
      reverse_Sound plan.enabled_kinds e before supported

module _ (parse_time : Text → Option Time) (month_before : Time → Time) (now : Time)
    (back : month_before now < now) where
  plan_symbols :
      (cfg : BinanceConfig) (mode : Text) (m : Market)
      → symbols_of (build_collection_plan parse_time month_before now cfg mode) m ≡ listed_for cfg m
  unfolding build_collection_plan
  plan_symbols cfg mode spot =
      elim (Bool-cases (text_eq (to_lower (trim_space mode)) (codes "reverse"))) [
        | inl asked ↦ rw (build_collection_plan, asked) refl
        | inr other ↦ rw (build_collection_plan, other) refl
      ]
  plan_symbols cfg mode futures =
      elim (Bool-cases (text_eq (to_lower (trim_space mode)) (codes "reverse"))) [
        | inl asked ↦ rw (build_collection_plan, asked) refl
        | inr other ↦ rw (build_collection_plan, other) refl
      ]

  -- If a month before now is before now, then whatever is configured and whichever mode is asked for,
  -- each plugin runs in the direction of the plan; a plugin of a forward run has no range, and one of
  -- a reverse run is of a kind that has a reverse mode, and has the range of the plan, which is not
  -- empty. For a kind of data that a market has, the plugins collect a symbol as often as the plan
  -- enables the kind for the market, times how often the symbol is configured for the market; what a
  -- market does not have is not collected.
  pub build_plugins-Planned :
      (cfg : BinanceConfig) (mode : Text) (k : Kind) (m : Market) (symbol : Text)
      → let plan = build_collection_plan parse_time month_before now cfg mode in
        All (Sound plan.mode plan) (build_plugins plan)
        × (collects k m symbol (build_plugins plan) ≡ (
            if offered k m
            then times_in k m plan.enabled_kinds * times_of symbol (listed_for cfg m)
            else 0))
  build_plugins-Planned cfg mode k m symbol =
      let plan = build_collection_plan parse_time month_before now cfg mode in
      (
        Selects-Sound plan plan.mode refl
            (build_collection_plan-Selects parse_time month_before now back cfg mode),
        build_plugins-exact plan k m symbol
            ∙ ap
                (λ symbols.
                  if offered k m
                  then times_in k m plan.enabled_kinds * times_of symbol symbols
                  else 0)
                (plan_symbols cfg mode m),
      )
