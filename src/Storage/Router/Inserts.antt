-- ===== src/Storage/Router/Inserts.antt =====
-- Whole inserts: their rows are grouped by domain and written batch by batch.
use scraper.Base.{◌≡◌, refl, Bool, List, [], ◌∷◌, ok, err, Result, All}
use scraper.Models.{Kline, OrderBook, FundingRate, OpenInterest}
use scraper.Storage.Domain.{
  WriterLeaseDomain, normalize_writer_lease_domain, normalize_writer_lease_domain_idem,
  kline_domain, domain_for_kline, domain_for_order_book, domain_for_funding_rate,
  domain_for_open_interest,
}
use scraper.Storage.Router.{
  Batch, klines, order_book, funding_rate, open_interest, open_interests, Router, RouterError,
  Services, write_batch, write_batches, group_rows, in_batches, insert_kline, insert_order_book,
  insert_funding_rate, insert_open_interest, insert_open_interests, Insert, inserts_klines,
  inserts_order_book, inserts_funding_rate, inserts_open_interest, inserts_open_interests, perform,
  perform_all, new_router,
}
use scraper.Storage.Router.Groups.{AreSorted, group_rows-AreSorted, group_rows-All}
use scraper.Storage.Router.Safety.{Fits, AllAllowed}
use scraper.Storage.Router.Safety.Steps.{Routed, write_batch-Routed}

module _ (services : Services) (m : Bool) where
  abbrev IsNormal : WriterLeaseDomain → Type 0
  IsNormal d = normalize_writer_lease_domain services.this_year d ≡ d

  kline_domain-IsNormal : (k : Kline) → IsNormal (kline_domain services.this_year k)
  unfolding kline_domain domain_for_kline
  kline_domain-IsNormal k = normalize_writer_lease_domain_idem services.this_year _

  order_book-IsNormal : (ob : OrderBook) → IsNormal (domain_for_order_book services.this_year ob)
  unfolding domain_for_order_book
  order_book-IsNormal ob = normalize_writer_lease_domain_idem services.this_year _

  funding_rate-IsNormal :
      (fr : FundingRate) → IsNormal (domain_for_funding_rate services.this_year fr)
  unfolding domain_for_funding_rate
  funding_rate-IsNormal fr = normalize_writer_lease_domain_idem services.this_year _

  open_interest-IsNormal :
      (oi : OpenInterest) → IsNormal (domain_for_open_interest services.this_year oi)
  unfolding domain_for_open_interest
  open_interest-IsNormal oi = normalize_writer_lease_domain_idem services.this_year _

  write_batches-Routed :
      (groups : List (WriterLeaseDomain × Batch)) (r : Router)
      → All (λ g. IsNormal g.0 × Fits services.this_year g.0 g.1) groups
      → Routed services.this_year m r
      → Routed services.this_year m (write_batches services groups r).0
  unfolding write_batches
  write_batches-Routed [] r h v = v
  write_batches-Routed ((d, b) ∷ groups) r h v =
      go (write_batch services d b r) (write_batch-Routed services m d h.0.0 b r h.0.1 v)
        (λ r' v'. write_batches-Routed groups r' h.1 v')
    where
      go :
          (x : Router × Result RouterError (Unit {0}))
          → Routed services.this_year m x.0
          → ((r' : Router)
              → Routed services.this_year m r'
              → Routed services.this_year m (write_batches services groups r').0)
          → Routed services.this_year m
              (elim x.1 as (λ _. Router × Result RouterError (Unit {0})) [
                | ok a ↦ write_batches services groups x.0
                | err e ↦ (x.0, err e)
              ]).0
      go (r', ok a) v' k = k r' v'
      go (r', err e) v' k = v'

  klines_fit :
      (groups : List (WriterLeaseDomain × List Kline))
      → AreSorted (kline_domain services.this_year) groups
      → All (λ g. IsNormal g.0) groups
      → All (λ g. IsNormal g.0 × Fits services.this_year g.0 g.1) (in_batches klines groups)
  klines_fit [] s n = tt
  klines_fit (g ∷ groups) s n = ((n.0, s.0), klines_fit groups s.1 n.1)

  open_interests_fit :
      (groups : List (WriterLeaseDomain × List OpenInterest))
      → AreSorted (domain_for_open_interest services.this_year) groups
      → All (λ g. IsNormal g.0) groups
      → All (λ g. IsNormal g.0 × Fits services.this_year g.0 g.1) (in_batches open_interests groups)
  open_interests_fit [] s n = tt
  open_interests_fit (g ∷ groups) s n = ((n.0, s.0), open_interests_fit groups s.1 n.1)

  perform-Routed :
      (i : Insert) (r : Router)
      → Routed services.this_year m r
      → Routed services.this_year m (perform services i r).0
  unfolding perform insert_kline insert_order_book insert_funding_rate insert_open_interest
      insert_open_interests
  perform-Routed (inserts_klines ks) r v =
      let domain = kline_domain services.this_year in
      let groups = group_rows domain [] ks in
      write_batches-Routed (in_batches klines groups) r
        (klines_fit groups (group_rows-AreSorted domain [] ks tt)
          (group_rows-All domain IsNormal kline_domain-IsNormal [] ks tt))
        v
  perform-Routed (inserts_order_book ob) r v =
      write_batch-Routed services m _ (order_book-IsNormal ob) (order_book ob) r refl v
  perform-Routed (inserts_funding_rate fr) r v =
      write_batch-Routed services m _ (funding_rate-IsNormal fr) (funding_rate fr) r refl v
  perform-Routed (inserts_open_interest oi) r v =
      write_batch-Routed services m _ (open_interest-IsNormal oi) (open_interest oi) r refl v
  perform-Routed (inserts_open_interests items) r v =
      let domain = domain_for_open_interest services.this_year in
      let groups = group_rows domain [] items in
      write_batches-Routed (in_batches open_interests groups) r
        (open_interests_fit groups (group_rows-AreSorted domain [] items tt)
          (group_rows-All domain IsNormal open_interest-IsNormal [] items tt))
        v

  perform_all-Routed :
      (inserts : List Insert) (r : Router)
      → Routed services.this_year m r
      → Routed services.this_year m (perform_all services inserts r)
  unfolding perform_all
  perform_all-Routed [] r v = v
  perform_all-Routed (i ∷ inserts) r v =
      perform_all-Routed inserts (perform services i r).0 (perform-Routed i r v)

-- From a new router, whatever is inserted and whatever the lease manager, the factory and the stores
-- answer: each insert that succeeds writes rows of one domain only, to a store that the factory opened
-- for the domain's exchange and year, and, if there is a lease manager, directly under a lease for
-- that domain.
pub perform_all-AllAllowed :
    (services : Services) (has_factory has_manager : Bool) (inserts : List Insert)
    → AllAllowed services.this_year has_manager
        (perform_all services inserts (new_router has_factory has_manager)).trace
unfolding new_router
perform_all-AllAllowed services has_factory has_manager inserts =
    (perform_all-Routed services has_manager inserts (new_router has_factory has_manager)
      (record { manager = refl; cached = tt; sound = tt })).sound
