-- ===== src/Tests/Plan.antt =====
-- The plans of a run with one flag, of a reverse run whose range is the wrong way round, and of a run
-- without symbols.
use scraper.Base.{
  ◌-◌, ◌*◌, ◌&&◌, ◌||◌, ◌≡◌, refl, true, false, none, some, arith, if◌then◌else◌, [], ◌∷◌, All,
}
use scraper.Text.{codes, text_eq, to_lower, trim_space, trim_left, trim_right, keep_right}
use scraper.Plan.{
  ForwardConfig, ReverseConfig, BinanceConfig, CollectionPlan, kline, spot, forward_kinds,
  forward_defaults, normalize_reverse_range, build_collection_plan,
}
use scraper.Plan.Selection.{wants, wants_nothing, offered, times_in, forward_kinds-exact}
use scraper.Plan.Plugins.{plugins_of, plugins_for, build_plugins}
use scraper.Plan.Plugins.Exact.{times_of, collects}
use scraper.Plan.Plugins.Sound.{Sound, listed_for, build_plugins-Planned}

abbrev only_klines : ForwardConfig
only_klines = record {
  spot_kline = true;
  futures_kline = false;
  spot_order_book = false;
  futures_order_book = false;
  funding_rates = false;
  futures_open_interest = false;
}

abbrev backwards : ReverseConfig
backwards = record {
  spot_kline = true;
  futures_kline = false;
  spot_order_book = true;
  futures_order_book = false;
  funding_rates = false;
  futures_open_interest = false;
  start_time = codes "2025-01-02T00:00:00Z";
  end_time = [];
}

-- A configuration whose only symbol is of spot.
abbrev config : BinanceConfig
config = record {
  spot_symbols = codes "btcusdt" ∷ [];
  futures_symbols = [];
  forward = only_klines;
  reverse = backwards;
}

abbrev plan : CollectionPlan
plan = build_collection_plan (λ raw. some 9_000) (λ t. t - 100) 1_000 config (codes "Reverse")

build_plugins-Planned_example :
    All (Sound plan.mode plan) (build_plugins plan)
    × (collects kline spot (codes "btcusdt") (build_plugins plan) ≡ (
        if offered kline spot
        then times_in kline spot plan.enabled_kinds
          * times_of (codes "btcusdt") (listed_for config spot)
        else 0))
build_plugins-Planned_example =
    build_plugins-Planned (λ raw. some 9_000) (λ t. t - 100) 1_000 (omega arith) config
      (codes "Reverse") kline spot (codes "btcusdt")

-- Only futures K-lines are wanted, and there is no futures symbol: there is nothing to run.
abbrev no_symbol : BinanceConfig
no_symbol = record config {
  forward = record only_klines { spot_kline = false; futures_kline = true };
}

nothing_to_run :
    build_plugins (build_collection_plan (λ raw. none) (λ t. t - 100) 1_000 no_symbol []) ≡ []
unfolding build_plugins plugins_for plugins_of build_collection_plan forward_kinds forward_defaults
    normalize_reverse_range trim_space trim_left trim_right keep_right to_lower text_eq
nothing_to_run = refl

forward_kinds-exact_example : times_in kline spot (forward_kinds only_klines) ≡ (
    if wants only_klines kline spot || (wants_nothing only_klines && offered kline spot)
    then 1
    else 0)
forward_kinds-exact_example = forward_kinds-exact only_klines kline spot
