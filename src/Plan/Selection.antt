-- ===== src/Plan/Selection.antt =====
-- What a plan collects, and over which range.
use scraper.Base.{
  ℕ, ◌+◌, ◌<◌, ◌≡◌, ◌≢◌, refl, Bool, true, false, not, ◌&&◌, ◌||◌, List, [], ◌∷◌, Option, arith,
  All, Bool-cases, inl, inr, if◌then◌else◌,
}
use scraper.Text.{Text, codes, text_eq, to_lower, trim_space}
use scraper.Time.{Time}
use scraper.Plan.{
  Kind, kline, order_book, funding_rate, open_interest, Market, spot, futures, Direction, forward,
  reverse, supported_reverse_modes, ForwardConfig, ReverseConfig, BinanceConfig, CollectionPlan,
  forward_kinds, reverse_kinds, forward_defaults, reverse_defaults, append_if, reverse_list,
  normalize_reverse_range, build_collection_plan,
}

-- A plan with a kind of data, and for a reverse run only kinds that support it, and a range that is not
-- empty.
abbrev pub Selects : Direction → CollectionPlan → Type 0
Selects forward p = (p.enabled_kinds ≢ []) × (p.realtime ≡ true)
Selects reverse p =
    (p.enabled_kinds ≢ [])
    × (p.realtime ≡ false)
    × (p.start_time < p.end_time)
    × All (λ k. supported_reverse_modes k.0 ≡ true) p.enabled_kinds

forward_kinds-nonempty : (fwd : ForwardConfig) → forward_kinds fwd ≢ []
unfolding forward_kinds forward_defaults
forward_kinds-nonempty fwd = ground arith

reverse_kinds-nonempty : (rev : ReverseConfig) → reverse_kinds rev ≢ []
unfolding reverse_kinds reverse_defaults
reverse_kinds-nonempty rev = ground arith

reverse_kinds-supported :
    (rev : ReverseConfig) → All (λ k. supported_reverse_modes k.0 ≡ true) (reverse_kinds rev)
unfolding reverse_kinds supported_reverse_modes
reverse_kinds-supported rev = go (reverse_defaults rev)
  where
    append_if-All :
        (b : Bool) (k : Kind × Market) (rest : List (Kind × Market))
        → supported_reverse_modes k.0 ≡ true
        → All (λ k. supported_reverse_modes k.0 ≡ true) rest
        → All (λ k. supported_reverse_modes k.0 ≡ true) (append_if b k rest)
    append_if-All true k rest h all = (h, all)
    append_if-All false k rest h all = all

    go : (rev : ReverseConfig) → All (λ k. supported_reverse_modes k.0 ≡ true) (reverse_list rev)
    go rev = append_if-All rev.spot_kline _ _ refl (
        append_if-All rev.futures_kline _ _ refl (
          append_if-All rev.funding_rates _ _ refl
            (append_if-All rev.futures_open_interest _ _ refl tt)))

module _ (parse_time : Text → Option Time) (month_before : Time → Time) (now : Time)
    (back : month_before now < now) where
  range_nonempty :
      (raw_start raw_end : Text)
      → let range = normalize_reverse_range parse_time month_before now raw_start raw_end in
        range.0 < range.1
  unfolding normalize_reverse_range
  range_nonempty raw_start raw_end = ground (arith, back)

  -- Whatever is configured and whichever mode is asked for, a plan has a kind of data, if a month before
  -- now is before now, and a reverse plan only kinds that have a reverse mode, and a range that is not
  -- empty. That there are symbols is not said.
  pub build_collection_plan-Selects :
      (cfg : BinanceConfig) (mode : Text)
      → let p = build_collection_plan parse_time month_before now cfg mode in Selects p.mode p
  unfolding build_collection_plan
  build_collection_plan-Selects cfg mode =
      elim (Bool-cases (text_eq (to_lower (trim_space mode)) (codes "reverse"))) [
        | inl asked ↦
            rw (build_collection_plan, asked)
              (
                reverse_kinds-nonempty cfg.reverse,
                refl,
                range_nonempty cfg.reverse.start_time cfg.reverse.end_time,
                reverse_kinds-supported cfg.reverse,
              )
        | inr other ↦ rw (build_collection_plan, other) (forward_kinds-nonempty cfg.forward, refl)
      ]

-- The flag of the configuration for a kind and a market.
abbrev pub wants : ForwardConfig → Kind → Market → Bool
wants fwd kline spot = fwd.spot_kline
wants fwd kline futures = fwd.futures_kline
wants fwd order_book spot = fwd.spot_order_book
wants fwd order_book futures = fwd.futures_order_book
wants fwd funding_rate spot = false
wants fwd funding_rate futures = fwd.funding_rates
wants fwd open_interest spot = false
wants fwd open_interest futures = fwd.futures_open_interest

-- The kinds and markets that there are.
abbrev pub offered : Kind → Market → Bool
offered funding_rate spot = false
offered open_interest spot = false
offered k m = true

abbrev pub wants_nothing : ForwardConfig → Bool
wants_nothing fwd = not (
    wants fwd kline spot
    || (wants fwd kline futures
        || (wants fwd order_book spot
            || (wants fwd order_book futures
                || (wants fwd funding_rate futures || wants fwd open_interest futures)))))

unfoldable pub same_kind : Kind → Kind → Bool
same_kind kline kline = true
same_kind order_book order_book = true
same_kind funding_rate funding_rate = true
same_kind open_interest open_interest = true
same_kind _ _ = false

unfoldable pub same_market : Market → Market → Bool
same_market spot spot = true
same_market futures futures = true
same_market _ _ = false

-- How often a kind is collected for a market.
unfoldable pub times_in : Kind → Market → List (Kind × Market) → ℕ
unfolding same_kind same_market
times_in k m [] = 0
times_in k m ((k', m') ∷ kinds) =
    let rest = times_in k m kinds in if same_kind k k' && same_market m m' then 1 + rest else rest

-- A forward run collects a kind for a market once if its flag is set, or if no flag is set and there is
-- such data; otherwise it does not collect it.
pub forward_kinds-exact :
    (fwd : ForwardConfig) (k : Kind) (m : Market)
    → times_in k m (forward_kinds fwd)
      ≡ (if wants fwd k m || (wants_nothing fwd && offered k m) then 1 else 0)
unfolding forward_kinds forward_defaults times_in same_kind same_market
forward_kinds-exact fwd kline spot = ground arith
forward_kinds-exact fwd kline futures = ground arith
forward_kinds-exact fwd order_book spot = ground arith
forward_kinds-exact fwd order_book futures = ground arith
forward_kinds-exact fwd funding_rate spot = ground arith
forward_kinds-exact fwd funding_rate futures = ground arith
forward_kinds-exact fwd open_interest spot = ground arith
forward_kinds-exact fwd open_interest futures = ground arith
