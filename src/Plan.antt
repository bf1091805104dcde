-- ===== src/Plan.antt =====
-- internal/scraper/common/plan.go and scraper.go: which kinds of data a run collects, and the range of a
-- reverse run. The parse of a time and the same day of the month before are parameters.
pub mod Selection
pub mod Plugins
use scraper.Base.{
  ℕ, Bool, true, false, not, ◌&&◌, ◌||◌, List, [], ◌∷◌, ◌++◌, Option, none, some, ltb,
  if◌then◌else◌,
}
use scraper.Text.{Text, codes, text_eq, is_empty, to_lower, trim_space}
use scraper.Time.{Time, zero_time}

pub data Kind : Type 0 where
  kline order_book funding_rate open_interest : Kind

pub data Market : Type 0 where
  spot futures : Market

pub data Direction : Type 0 where
  forward reverse : Direction

-- `SupportedReverseModes`
unfoldable pub supported_reverse_modes : Kind → Bool
supported_reverse_modes kline = true
supported_reverse_modes order_book = false
supported_reverse_modes funding_rate = true
supported_reverse_modes open_interest = true

pub record ForwardConfig : Type 0 where
  pub spot_kline : Bool
  pub futures_kline : Bool
  pub spot_order_book : Bool
  pub futures_order_book : Bool
  pub funding_rates : Bool
  pub futures_open_interest : Bool

pub record ReverseConfig : Type 0 where
  pub spot_kline : Bool
  pub futures_kline : Bool
  pub spot_order_book : Bool
  pub futures_order_book : Bool
  pub funding_rates : Bool
  pub futures_open_interest : Bool
  pub start_time : Text
  pub end_time : Text

-- The symbols, and what is collected in each direction.
pub record BinanceConfig : Type 0 where
  pub spot_symbols : List Text
  pub futures_symbols : List Text
  pub forward : ForwardConfig
  pub reverse : ReverseConfig

-- A constructor for each message.
pub data Warning : Type 0 where
  no_reverse_spot_order_book no_reverse_futures_order_book : Warning
  unsupported_mode : Text → Warning
  invalid_start invalid_end : Text → Warning
  empty_start empty_end : Warning
  empty_range : Time → Time → Warning

pub record CollectionPlan : Type 0 where
  pub mode : Direction
  pub spot_symbols : List Text
  pub futures_symbols : List Text
  pub enabled_kinds : List (Kind × Market)
  pub realtime : Bool
  pub start_time : Time
  pub end_time : Time
  pub warnings : List Warning

-- `if b { kinds = append(kinds, …) }`
abbrev pub append_if {ℓ} : {A : Type ℓ} → Bool → A → List A → List A
append_if b k rest = if b then k ∷ rest else rest

-- The defaults, if nothing is set.
unfoldable pub forward_defaults : ForwardConfig → ForwardConfig
forward_defaults fwd =
    if not fwd.spot_kline
      && (not fwd.futures_kline
          && (not fwd.spot_order_book
              && (not fwd.futures_order_book
                  && (not fwd.funding_rates && not fwd.futures_open_interest))))
    then record {
      spot_kline = true;
      futures_kline = true;
      spot_order_book = true;
      futures_order_book = true;
      funding_rates = true;
      futures_open_interest = true;
    }
    else fwd

abbrev pub forward_list : ForwardConfig → List (Kind × Market)
forward_list fwd =
    append_if fwd.spot_kline (kline, spot)
      (append_if fwd.futures_kline (kline, futures)
        (append_if fwd.spot_order_book (order_book, spot)
          (append_if fwd.futures_order_book (order_book, futures)
            (append_if fwd.funding_rates (funding_rate, futures)
              (append_if fwd.futures_open_interest (open_interest, futures) [])))))

unfoldable pub forward_kinds : ForwardConfig → List (Kind × Market)
unfolding forward_defaults
forward_kinds fwd = forward_list (forward_defaults fwd)

-- The order books of a reverse run are not looked at.
unfoldable pub reverse_defaults : ReverseConfig → ReverseConfig
reverse_defaults rev =
    if not rev.spot_kline
      && (not rev.futures_kline && (not rev.funding_rates && not rev.futures_open_interest))
    then record {
      spot_kline = true;
      futures_kline = true;
      spot_order_book = false;
      futures_order_book = false;
      funding_rates = true;
      futures_open_interest = true;
      start_time = [];
      end_time = [];
    }
    else rev

abbrev pub reverse_list : ReverseConfig → List (Kind × Market)
reverse_list rev =
    append_if rev.spot_kline (kline, spot)
      (append_if rev.futures_kline (kline, futures)
        (append_if rev.funding_rates (funding_rate, futures)
          (append_if rev.futures_open_interest (open_interest, futures) [])))

unfoldable pub reverse_kinds : ReverseConfig → List (Kind × Market)
unfolding reverse_defaults
reverse_kinds rev = reverse_list (reverse_defaults rev)

module _ (parse_time : Text → Option Time) (month_before : Time → Time) (now : Time) where
  -- A bound and its warning: `fallback` for an empty or a bad text.
  abbrev pub or_parsed : Time → (Text → Warning) → Text → Option Time → Time × List Warning
  or_parsed fallback invalid raw (some t) = (t, [])
  or_parsed fallback invalid raw none = (fallback, invalid raw ∷ [])

  abbrev pub bound : Time → Warning → (Text → Warning) → Text → Time × List Warning
  bound fallback empty invalid [] = (fallback, empty ∷ [])
  bound fallback empty invalid (c ∷ raw) =
      or_parsed fallback invalid (c ∷ raw) (parse_time (c ∷ raw))

  unfoldable pub normalize_reverse_range : Text → Text → Time × Time × List Warning
  normalize_reverse_range raw_start raw_end =
      let (start, start_warnings) = bound (month_before now) empty_start invalid_start raw_start in
      let (end, end_warnings) = bound now empty_end invalid_end raw_end in
      let warnings = start_warnings ++ end_warnings in
      if not (ltb start end)
      then (month_before now, now, warnings ++ (empty_range end start ∷ []))
      else (start, end, warnings)

  unfoldable pub build_collection_plan : BinanceConfig → Text → CollectionPlan
  unfolding forward_kinds reverse_kinds normalize_reverse_range
  build_collection_plan cfg mode =
      let rev = cfg.reverse in
      let m = to_lower (trim_space mode) in
      let (start, end, range_warnings) = normalize_reverse_range rev.start_time rev.end_time in
      if text_eq m (codes "reverse")
      then record {
        mode = reverse;
        spot_symbols = cfg.spot_symbols;
        futures_symbols = cfg.futures_symbols;
        enabled_kinds = reverse_kinds rev;
        realtime = false;
        start_time = start;
        end_time = end;
        warnings =
            append_if rev.spot_order_book no_reverse_spot_order_book
              (append_if rev.futures_order_book no_reverse_futures_order_book range_warnings);
      }
      else record {
        mode = forward;
        spot_symbols = cfg.spot_symbols;
        futures_symbols = cfg.futures_symbols;
        enabled_kinds = forward_kinds cfg.forward;
        realtime = true;
        start_time = zero_time;
        end_time = zero_time;
        warnings =
            append_if (not (is_empty m) && not (text_eq m (codes "forward")))
              (unsupported_mode mode) [];
      }
