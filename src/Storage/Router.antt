-- ===== src/Storage/Router.antt =====
-- internal/storage/write_router.go: `MarketDataWriteRouter`. A store is known by the number of the call
-- that opened it; `trace` holds what the router did, newest first. What the lease manager, the factory
-- and the stores answer is a function of the number of the call.
pub mod Groups
pub mod Inserts
pub mod Safety
use scraper.Base.{
  ℕ, ◌+◌, ◌≡◌, refl, Bool, true, false, not, ◌&&◌, List, [], ◌∷◌, ◌++◌, Option, none, some, ok, err,
  Result, if◌then◌else◌,
}
use scraper.Text.{Text, text_eq, is_empty}
use scraper.Models.{Kline, OrderBook, FundingRate, OpenInterest}
use scraper.Storage.Domain.{
  WriterLeaseDomain, normalize_writer_lease_domain, kline_domain, domain_for_order_book,
  domain_for_funding_rate, domain_for_open_interest, collector_id, RouteKey, route_key, route_text,
  domain_eq,
}

-- What a method of a store is given.
pub data Batch : Type 0 where
  klines : List Kline → Batch
  order_book : OrderBook → Batch
  funding_rate : FundingRate → Batch
  open_interest : OpenInterest → Batch
  open_interests : List OpenInterest → Batch

pub data Entry : Type 0 where
  leased : WriterLeaseDomain → Text → Entry
  opened : ℕ → RouteKey → Entry
  closed : ℕ → Entry
  -- `logWrite`, after an insert.
  wrote : ℕ → WriterLeaseDomain → Batch → Entry

pub data RouterError : Type 0 where
  no_lease : Text → Text → RouterError
  no_factory no_exchange : RouterError
  failed : Text → RouterError

pub record Router : Type 0 where
  pub has_factory : Bool
  pub has_manager : Bool
  pub stores : List (Text × ℕ)
  pub calls : ℕ
  pub trace : List Entry

pub record Services : Type 0 where
  pub this_year : ℕ
  pub acquire : ℕ → WriterLeaseDomain → Text → Option Text
  pub open_store : ℕ → RouteKey → Option Text
  pub insert : ℕ → ℕ → Batch → Option Text

abbrev pub R : Type 0 → Type 0
R A = Router → Router × Result RouterError A

infixl 5 ◌>>=◌
abbrev pub ◌>>=◌ : {A B : Type 0} → R A → (A → R B) → R B
◌>>=◌ m f r = let (r', a) = m r in elim a [ ok x ↦ f x r' | err e ↦ (r', err e) ]

-- `r.stores[key]`
unfoldable pub store_at : Text → List (Text × ℕ) → Option ℕ
store_at key [] = none
store_at key ((k, s) ∷ stores) = if text_eq k key then some s else store_at key stores

-- A call with its number used up, and an entry of the trace.
abbrev pub counted : Router → Router
counted r = record r { calls = r.calls + 1 }

abbrev pub noted : Entry → Router → Router
noted e r = record r { calls = r.calls + 1; trace = e ∷ r.trace }

module _ (services : Services) where
  abbrev pub after_acquire : WriterLeaseDomain → Option Text → R (Unit {0})
  after_acquire domain (some e) r = (counted r, err (no_lease (collector_id domain) e))
  after_acquire domain none r = (noted (leased domain (collector_id domain)) r, ok tt)

  -- `acquireLease`; without a manager there is no lease, and no error.
  unfoldable pub acquire_lease : WriterLeaseDomain → R (Unit {0})
  acquire_lease domain r =
      let d = normalize_writer_lease_domain services.this_year domain in
      if r.has_manager
      then after_acquire d (services.acquire r.calls d (collector_id d)) r
      else (r, ok tt)

  -- The end of `storeFor`: a store that another caller has kept meanwhile is used, and the new one
  -- closed.
  abbrev pub keep_or_use : RouteKey → ℕ → Option ℕ → R ℕ
  keep_or_use key store none r =
      (record r { stores = (route_text key, store) ∷ r.stores }, ok store)
  keep_or_use key store (some existing) r = (noted (closed store) r, ok existing)

  unfoldable pub keep_store : RouteKey → ℕ → R ℕ
  unfolding store_at
  keep_store key store r = keep_or_use key store (store_at (route_text key) r.stores) r

  abbrev pub after_open : RouteKey → Option Text → R ℕ
  after_open key (some e) r = (counted r, err (failed e))
  after_open key none r = keep_store key r.calls (noted (opened r.calls key) r)

  abbrev pub open_missing : RouteKey → Option ℕ → R ℕ
  open_missing key (some store) r = (r, ok store)
  open_missing key none r = after_open key (services.open_store r.calls key) r

  unfoldable pub store_for : RouteKey → R ℕ
  unfolding keep_store
  store_for key r =
      if not r.has_factory
      then (r, err no_factory)
      else if is_empty key.exchange
      then (r, err no_exchange)
      else open_missing key (store_at (route_text key) r.stores) r

  abbrev pub after_insert : WriterLeaseDomain → Batch → ℕ → Option Text → R (Unit {0})
  after_insert domain batch store (some e) r = (counted r, err (failed e))
  after_insert domain batch store none r = (noted (wrote store domain batch) r, ok tt)

  abbrev pub insert_into : WriterLeaseDomain → Batch → ℕ → R (Unit {0})
  insert_into domain batch store r =
      after_insert domain batch store (services.insert r.calls store batch) r

  -- What every `Insert…` does for a domain and its rows.
  unfoldable pub write_batch : WriterLeaseDomain → Batch → R (Unit {0})
  unfolding acquire_lease store_for
  write_batch domain batch = do
    _ ← acquire_lease domain
    store ← store_for (route_key domain)
    insert_into domain batch store

  unfoldable pub write_batches : List (WriterLeaseDomain × Batch) → R (Unit {0})
  unfolding write_batch
  write_batches [] r = (r, ok tt)
  write_batches ((domain, batch) ∷ groups) r =
      (do _ ← write_batch domain batch; write_batches groups) r

-- `groups[domain] = append(groups[domain], k)`
unfoldable pub add_to_group {ℓ} :
    {A : Type ℓ}
    → WriterLeaseDomain
    → A
    → List (WriterLeaseDomain × List A)
    → List (WriterLeaseDomain × List A)
unfolding domain_eq
add_to_group d k [] = (d, k ∷ []) ∷ []
add_to_group d k ((c, batch) ∷ groups) =
    if domain_eq c d then (c, batch ++ (k ∷ [])) ∷ groups else (c, batch) ∷ add_to_group d k groups

-- The loop that fills `groups`.
unfoldable pub group_rows {ℓ} :
    {A : Type ℓ}
    → (A → WriterLeaseDomain)
    → List (WriterLeaseDomain × List A)
    → List A
    → List (WriterLeaseDomain × List A)
unfolding add_to_group
group_rows domain groups [] = groups
group_rows domain groups (k ∷ ks) = group_rows domain (add_to_group (domain k) k groups) ks

abbrev pub in_batches {ℓ} :
    {A : Type ℓ}
    → (List A → Batch)
    → List (WriterLeaseDomain × List A)
    → List (WriterLeaseDomain × Batch)
in_batches method [] = []
in_batches method ((d, batch) ∷ groups) = (d, method batch) ∷ in_batches method groups

module _ (services : Services) where
  unfoldable pub insert_kline : List Kline → R (Unit {0})
  unfolding group_rows write_batches
  insert_kline ks =
      write_batches services
        (in_batches klines (group_rows (kline_domain services.this_year) [] ks))

  unfoldable pub insert_order_book : OrderBook → R (Unit {0})
  unfolding write_batch
  insert_order_book ob =
      write_batch services (domain_for_order_book services.this_year ob) (order_book ob)

  unfoldable pub insert_funding_rate : FundingRate → R (Unit {0})
  unfolding write_batch
  insert_funding_rate fr =
      write_batch services (domain_for_funding_rate services.this_year fr) (funding_rate fr)

  unfoldable pub insert_open_interest : OpenInterest → R (Unit {0})
  unfolding write_batch
  insert_open_interest oi =
      write_batch services (domain_for_open_interest services.this_year oi) (open_interest oi)

  unfoldable pub insert_open_interests : List OpenInterest → R (Unit {0})
  unfolding group_rows write_batches
  insert_open_interests items = write_batches services (
      in_batches open_interests (group_rows (domain_for_open_interest services.this_year) [] items))

-- A caller's insert.
pub data Insert : Type 0 where
  inserts_klines : List Kline → Insert
  inserts_order_book : OrderBook → Insert
  inserts_funding_rate : FundingRate → Insert
  inserts_open_interest : OpenInterest → Insert
  inserts_open_interests : List OpenInterest → Insert

unfoldable pub perform : Services → Insert → R (Unit {0})
perform services (inserts_klines ks) = insert_kline services ks
perform services (inserts_order_book ob) = insert_order_book services ob
perform services (inserts_funding_rate fr) = insert_funding_rate services fr
perform services (inserts_open_interest oi) = insert_open_interest services oi
perform services (inserts_open_interests items) = insert_open_interests services items

-- One insert after the other; a caller goes on after an error.
unfoldable pub perform_all : Services → List Insert → Router → Router
unfolding perform
perform_all services [] r = r
perform_all services (i ∷ inserts) r = perform_all services inserts (perform services i r).0

-- `NewMarketDataWriteRouter` and `SetWriterLeaseManager`.
unfoldable pub new_router : Bool → Bool → Router
new_router has_factory has_manager = record {
  has_factory = has_factory;
  has_manager = has_manager;
  stores = [];
  calls = 0;
  trace = [];
}
