-- ===== src/Storage/Domain.antt =====
-- internal/storage/write_router.go: the domain of a row, which a writer lease is for, and the key of
-- the store that the row goes to.
use scraper.Base.{ℕ, ◌≡◌, Bool, true, ◌&&◌, [], ◌∷◌, ◌++◌, arith, ltb, ◌==◌, if◌then◌else◌}
use scraper.Text.{Text, codes, text_eq, to_lower, to_upper, trim_space}
use scraper.Text.Laws.{text_eq→≡, normal_lower_idem, normal_upper_idem, trim_space_idem}
use scraper.Time.{Time, zero_time, year}
use scraper.Models.{Kline, OrderBook, FundingRate, OpenInterest}
use scraper.Backfill.Request.{or_default}
use scraper.Storage.Names.{itoa}

pub record WriterLeaseDomain : Type 0 where
  pub exchange : Text
  pub market : Text
  pub kind : Text
  pub symbol : Text
  pub interval : Text
  pub year_of : ℕ

-- `this_year` is the year of `time.Now()`.
unfoldable pub normalize_writer_lease_domain : ℕ → WriterLeaseDomain → WriterLeaseDomain
normalize_writer_lease_domain this_year domain = record {
  exchange = to_lower (trim_space domain.exchange);
  market = to_lower (trim_space domain.market);
  kind = to_lower (trim_space domain.kind);
  symbol = to_upper (trim_space domain.symbol);
  interval = trim_space domain.interval;
  year_of = if ltb domain.year_of 1970 then this_year else domain.year_of;
}

unfoldable pub year_from : ℕ → Time → ℕ
year_from this_year ts = if ts == zero_time then this_year else year ts

unfoldable pub domain_for_kline : ℕ → Kline → Time → WriterLeaseDomain
domain_for_kline this_year k ts = normalize_writer_lease_domain this_year (record {
  exchange = k.exchange;
  market = k.market;
  kind = codes "kline";
  symbol = k.symbol;
  interval = k.interval;
  year_of = year_from this_year ts;
})

-- The domain of a row in `InsertKline`: by its open time, or by its time if that is zero.
unfoldable pub kline_domain : ℕ → Kline → WriterLeaseDomain
unfolding domain_for_kline
kline_domain this_year k =
    domain_for_kline this_year k (if k.open_time == zero_time then k.time else k.open_time)

unfoldable pub domain_for_order_book : ℕ → OrderBook → WriterLeaseDomain
domain_for_order_book this_year ob = normalize_writer_lease_domain this_year (record {
  exchange = ob.exchange;
  market = ob.market;
  kind = codes "orderbook";
  symbol = ob.symbol;
  interval = [];
  year_of = year_from this_year ob.time;
})

unfoldable pub domain_for_funding_rate : ℕ → FundingRate → WriterLeaseDomain
domain_for_funding_rate this_year fr = normalize_writer_lease_domain this_year (record {
  exchange = fr.exchange;
  market = fr.market;
  kind = codes "funding_rate";
  symbol = fr.symbol;
  interval = [];
  year_of = year_from this_year fr.time;
})

unfoldable pub domain_for_open_interest : ℕ → OpenInterest → WriterLeaseDomain
domain_for_open_interest this_year oi = normalize_writer_lease_domain this_year (record {
  exchange = oi.exchange;
  market = oi.market;
  kind = codes "open_interest";
  symbol = oi.symbol;
  interval = [];
  year_of = year_from this_year oi.time;
})

abbrev pub join_colon : Text → Text → Text
join_colon a b = a ++ (b':' ∷ b)

-- `CollectorID`
unfoldable pub collector_id : WriterLeaseDomain → Text
collector_id d = join_colon (to_lower (trim_space d.exchange)) (
    join_colon (to_lower (trim_space d.market)) (
      join_colon (to_lower (trim_space d.kind)) (
        join_colon (to_upper (trim_space d.symbol))
          (join_colon (or_default (trim_space d.interval) (codes "-")) (itoa d.year_of)))))

pub record RouteKey : Type 0 where
  pub exchange : Text
  pub year_of : ℕ

-- The method `routeKey` of a domain.
unfoldable pub route_key : WriterLeaseDomain → RouteKey
route_key d = record { exchange = to_lower (trim_space d.exchange); year_of = d.year_of }

-- `routeKey.String`
unfoldable pub route_text : RouteKey → Text
route_text k = k.exchange ++ (b'_' ∷ itoa k.year_of)

-- `==` on domains, which are the keys of `groups`.
unfoldable pub domain_eq : WriterLeaseDomain → WriterLeaseDomain → Bool
domain_eq a b =
    text_eq a.exchange b.exchange
    && (text_eq a.market b.market
        && (text_eq a.kind b.kind
            && (text_eq a.symbol b.symbol
                && (text_eq a.interval b.interval && a.year_of == b.year_of))))

pub normalize_writer_lease_domain_idem :
    (this_year : ℕ) (d : WriterLeaseDomain)
    → normalize_writer_lease_domain this_year (normalize_writer_lease_domain this_year d)
      ≡ normalize_writer_lease_domain this_year d
unfolding normalize_writer_lease_domain
normalize_writer_lease_domain_idem this_year d = cc (
  normal_lower_idem d.exchange,
  normal_lower_idem d.market,
  normal_lower_idem d.kind,
  normal_upper_idem d.symbol,
  trim_space_idem d.interval,
  same_year,
)
  where
    same_year :
        (let y = if ltb d.year_of 1970 then this_year else d.year_of in
          if ltb y 1970 then this_year else y)
        ≡ (if ltb d.year_of 1970 then this_year else d.year_of)
    same_year = ground arith

pub domain_eq→≡ : (a b : WriterLeaseDomain) → domain_eq a b ≡ true → a ≡ b
unfolding domain_eq
domain_eq→≡ a b h = ground (
  arith,
  text_eq→≡ a.exchange b.exchange,
  text_eq→≡ a.market b.market,
  text_eq→≡ a.kind b.kind,
  text_eq→≡ a.symbol b.symbol,
  text_eq→≡ a.interval b.interval,
)
