-- ===== src/Storage/Router/Safety.antt =====
-- What makes the trace of a router sound: every insert goes under a lease for its rows' domain, to
-- a store opened for their exchange and year.
pub mod Steps
use scraper.Base.{
  ℕ, ◌+◌, ◌≡◌, refl, ap, sym, ◌∙◌, ◌⊎◌, inl, inr, Bool, true, false, not, List, [], ◌∷◌, ◌++◌,
  arith, Option, none, some, ok, err, Result, All, All-append, Bool-cases, Option-cases, subst,
  if◌then◌else◌,
}
use scraper.Text.{Text, text_eq, is_empty}
use scraper.Text.Laws.{text_eq→≡}
use scraper.Models.{Kline, OpenInterest}
use scraper.Storage.Domain.{
  WriterLeaseDomain, normalize_writer_lease_domain, normalize_writer_lease_domain_idem,
  kline_domain, domain_for_kline, domain_for_order_book, domain_for_funding_rate,
  domain_for_open_interest, collector_id, RouteKey, route_key, route_text, domain_eq, domain_eq→≡,
}
use scraper.Storage.RouteText.{route_text_injective}
use scraper.Storage.Router.{
  Batch, klines, order_book, funding_rate, open_interest, open_interests, Entry, leased, opened,
  closed, wrote, RouterError, Router, Services, store_at, counted, noted, after_acquire,
  acquire_lease, keep_or_use, keep_store, after_open, open_missing, store_for, after_insert,
  insert_into, write_batch, write_batches, add_to_group, group_rows, in_batches, insert_kline,
}

-- The store was opened for the key. A trace holds the newest entry first.
abbrev pub OpenedAs : ℕ → RouteKey → List Entry → Type 0
OpenedAs s key [] = ⊥
OpenedAs s key (opened s' key' ∷ earlier) = ((s' ≡ s) × (key' ≡ key)) ⊎ OpenedAs s key earlier
OpenedAs s key (leased d id ∷ earlier) = OpenedAs s key earlier
OpenedAs s key (closed s' ∷ earlier) = OpenedAs s key earlier
OpenedAs s key (wrote s' d b ∷ earlier) = OpenedAs s key earlier

-- The newest lease is for the domain, and nothing was written since.
abbrev pub LeasedFor : WriterLeaseDomain → List Entry → Type 0
LeasedFor d [] = ⊥
LeasedFor d (opened s key ∷ earlier) = LeasedFor d earlier
LeasedFor d (leased c id ∷ earlier) = (c ≡ d) × (id ≡ collector_id d)
LeasedFor d (closed s ∷ earlier) = LeasedFor d earlier
LeasedFor d (wrote s c b ∷ earlier) = ⊥

-- The rows of a batch belong to the domain.
abbrev pub Fits : ℕ → WriterLeaseDomain → Batch → Type 0
Fits this_year d (klines ks) = All (λ k. kline_domain this_year k ≡ d) ks
Fits this_year d (order_book ob) = domain_for_order_book this_year ob ≡ d
Fits this_year d (funding_rate fr) = domain_for_funding_rate this_year fr ≡ d
Fits this_year d (open_interest oi) = domain_for_open_interest this_year oi ≡ d
Fits this_year d (open_interests items) =
    All (λ oi. domain_for_open_interest this_year oi ≡ d) items

-- An insert is under its lease, if there is a lease manager, and to the right store.
abbrev pub Allowed : ℕ → Bool → Entry → List Entry → Type 0
Allowed this_year managed (wrote s d b) earlier =
    OpenedAs s (route_key d) earlier
    × (LeasedFor d earlier ⊎ (managed ≡ false))
    × Fits this_year d b
Allowed this_year managed (leased d id) earlier = Unit
Allowed this_year managed (opened s key) earlier = Unit
Allowed this_year managed (closed s) earlier = Unit

abbrev pub AllAllowed : ℕ → Bool → List Entry → Type 0
AllAllowed this_year managed [] = Unit
AllAllowed this_year managed (e ∷ earlier) =
    Allowed this_year managed e earlier × AllAllowed this_year managed earlier

-- A cached store was opened for the key that its text names.
abbrev pub Cached : List Entry → List (Text × ℕ) → Type 0
Cached trace stores =
    All (λ e. (key : RouteKey) × (route_text key ≡ e.0) × OpenedAs e.1 key trace) stores

pub opened_later :
    (e : Entry) (s : ℕ) (key : RouteKey) (t : List Entry)
    → OpenedAs s key t
    → OpenedAs s key (e ∷ t)
opened_later (leased d id) s key t o = o
opened_later (opened s' key') s key t o = inr o
opened_later (closed s') s key t o = o
opened_later (wrote s' d b) s key t o = o

pub Cached-later :
    (e : Entry) (t : List Entry) (stores : List (Text × ℕ))
    → Cached t stores
    → Cached (e ∷ t) stores
Cached-later e t [] c = tt
Cached-later e t ((k, s) ∷ stores) c =
    ((c.0.0, c.0.1, opened_later e s c.0.0 t c.0.2), Cached-later e t stores c.1)

pub Cached-at :
    (key : RouteKey) (t : List Entry) (stores : List (Text × ℕ)) (s : ℕ)
    → Cached t stores
    → store_at (route_text key) stores ≡ some s
    → OpenedAs s key t
unfolding store_at
Cached-at key t [] s c h = cc
Cached-at key t ((k, s') ∷ stores) s c h = elim (Bool-cases (text_eq k (route_text key))) [
  | inl same ↦
      let found : s' ≡ s = ground (arith, h, same) in
      let key_same : c.0.0 ≡ key =
        route_text_injective c.0.0 key (c.0.1 ∙ text_eq→≡ k (route_text key) same) in
      subst (λ u. OpenedAs u key t) found (subst (λ q. OpenedAs s' q t) key_same c.0.2)
  | inr other ↦ Cached-at key t stores s c.1 (ground (arith, h, other))
]
