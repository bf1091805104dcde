-- ===== src/Plan/Plugins.antt =====
-- internal/scraper/common/planner.go: the plugins that a plan is turned into.
pub mod Exact
pub mod Sound
use scraper.Base.{◌++◌, List, [], ◌∷◌, map, Option, none, some}
use scraper.Text.{Text, codes}
use scraper.Time.{Time}
use scraper.Plan.{
  Kind, kline, order_book, funding_rate, open_interest, Market, spot, futures, Direction, forward,
  reverse, CollectionPlan,
}

-- `pluginAdapter`, with the symbols of its scraper and the range that `SetReverse` gave it.
pub record Plugin : Type 0 where
  pub kind : Kind
  pub market : Market
  pub symbol : Text
  pub direction : Direction
  pub scraper_symbols : List Text
  pub reverse_range : Option (Time × Time)

-- `strings.Join(symbols, ",")`
unfoldable pub join_commas : List Text → Text
join_commas [] = []
join_commas (s ∷ []) = s
join_commas (s ∷ (s' ∷ symbols)) = s ++ (codes "," ++ join_commas (s' ∷ symbols))

-- `if plan.Mode == DirectionReverse { sc.SetReverse(…) }`
abbrev pub range_in : Direction → CollectionPlan → Option (Time × Time)
range_in forward plan = none
range_in reverse plan = some (plan.start_time, plan.end_time)

abbrev pub range_of : CollectionPlan → Option (Time × Time)
range_of plan = range_in plan.mode plan

-- A plugin for a symbol, and one for all futures symbols.
abbrev pub symbol_plugin : CollectionPlan → Kind → Market → Option (Time × Time) → Text → Plugin
symbol_plugin plan kind market range symbol = record {
  kind = kind;
  market = market;
  symbol = symbol;
  direction = plan.mode;
  scraper_symbols = symbol ∷ [];
  reverse_range = range;
}

abbrev pub futures_plugin : CollectionPlan → Kind → Text → Plugin
futures_plugin plan kind symbol = record {
  kind = kind;
  market = futures;
  symbol = symbol;
  direction = plan.mode;
  scraper_symbols = plan.futures_symbols;
  reverse_range = range_of plan;
}

-- `if len(plan.FuturesSymbols) == 0 { continue }`
abbrev pub funding_plugins : CollectionPlan → List Text → List Plugin
funding_plugins plan [] = []
funding_plugins plan (s ∷ symbols) = futures_plugin plan funding_rate [] ∷ []

-- The body of the loop of `BuildPlugins`, and the loop. The order-book scrapers take no range.
unfoldable pub plugins_of : CollectionPlan → Kind → Market → List Plugin
unfolding join_commas
plugins_of plan kline spot = map (symbol_plugin plan kline spot (range_of plan)) plan.spot_symbols
plugins_of plan kline futures =
    map (symbol_plugin plan kline futures (range_of plan)) plan.futures_symbols
plugins_of plan order_book spot = map (symbol_plugin plan order_book spot none) plan.spot_symbols
plugins_of plan order_book futures =
    map (symbol_plugin plan order_book futures none) plan.futures_symbols
plugins_of plan funding_rate spot = []
plugins_of plan funding_rate futures = funding_plugins plan plan.futures_symbols
plugins_of plan open_interest spot = []
plugins_of plan open_interest futures =
    futures_plugin plan open_interest (join_commas plan.futures_symbols) ∷ []

unfoldable pub plugins_for : CollectionPlan → List (Kind × Market) → List Plugin
unfolding plugins_of
plugins_for plan [] = []
plugins_for plan ((kind, market) ∷ kinds) = plugins_of plan kind market ++ plugins_for plan kinds

unfoldable pub build_plugins : CollectionPlan → List Plugin
unfolding plugins_for
build_plugins plan = plugins_for plan plan.enabled_kinds
