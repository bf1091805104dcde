-- ===== src/Backfill/Request/Laws.antt =====
-- Normalising a request a second time changes nothing.
use scraper.Base.{◌≡◌, refl, [], ◌∷◌}
use scraper.Text.{
  Text, codes, to_lower, trim_space, lower_char, trim_left, trim_right, keep_right, is_space,
}
use scraper.Text.Laws.{normal_lower_idem, normal_upper_idem, trim_space_idem}
use scraper.Backfill.Request.{KlineRequest, or_default, normalize_kline_request}

defaulted_idem :
    (f : Text → Text) (s d : Text)
    → f (f s) ≡ f s
    → f d ≡ d
    → or_default (f (or_default (f s) d)) d ≡ or_default (f s) d
defaulted_idem f s d idem fixed = go (f s) idem
  where
    self : (t : Text) → or_default t t ≡ t
    self [] = unfold or_default in refl
    self (c ∷ t) = unfold or_default in refl

    go : (t : Text) → f t ≡ t → or_default (f (or_default t d)) d ≡ or_default t d
    go [] h = unfold or_default in rw fixed (self d)
    go (c ∷ t) h = unfold or_default in rw h refl

-- `normalize_kline_request` is idempotent: RunKlineRequest normalises a request that main may have
-- normalised before, and nothing changes.
pub normalize_kline_request_idem :
    (req : KlineRequest)
    → normalize_kline_request (normalize_kline_request req) ≡ normalize_kline_request req
unfolding normalize_kline_request
normalize_kline_request_idem req =
    cc (exchange_idem, normal_lower_idem req.market, normal_upper_idem req.symbol, interval_idem)
  where
    binance : to_lower (trim_space (codes "binance")) ≡ codes "binance"
    binance = unfold to_lower lower_char trim_space trim_left trim_right keep_right is_space in refl

    exchange_idem :
        or_default
          (to_lower
            (trim_space (or_default (to_lower (trim_space req.exchange)) (codes "binance"))))
          (codes "binance")
        ≡ or_default (to_lower (trim_space req.exchange)) (codes "binance")
    exchange_idem =
        defaulted_idem (λ s. to_lower (trim_space s)) req.exchange (codes "binance")
          (normal_lower_idem req.exchange) binance

    minute : trim_space (codes "1m") ≡ codes "1m"
    minute = unfold trim_space trim_left trim_right keep_right is_space in refl

    interval_idem :
        or_default (trim_space (or_default (trim_space req.interval) (codes "1m"))) (codes "1m")
        ≡ or_default (trim_space req.interval) (codes "1m")
    interval_idem =
        defaulted_idem trim_space req.interval (codes "1m") (trim_space_idem req.interval) minute
