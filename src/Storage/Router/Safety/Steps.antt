-- ===== src/Storage/Router/Safety/Steps.antt =====
-- The steps of an insert keep the trace sound.
use scraper.Base.{
  ℕ, ◌≡◌, refl, sym, ◌⊎◌, inl, inr, Bool, true, false, not, Option, none, some, ok, err, Result,
  Bool-cases, if◌then◌else◌,
}
use scraper.Text.{Text, is_empty}
use scraper.Storage.Domain.{
  WriterLeaseDomain, normalize_writer_lease_domain, collector_id, route_key, route_text,
}
use scraper.Storage.Router.{
  Batch, leased, opened, closed, wrote, RouterError, Router, Services, R, store_at, noted,
  after_acquire, acquire_lease, keep_or_use, keep_store, after_open, open_missing, store_for,
  after_insert, insert_into, write_batch,
}
use scraper.Storage.Router.Safety.{
  OpenedAs, LeasedFor, Fits, AllAllowed, Cached, Cached-later, Cached-at,
}

-- The cache is right, and the trace sound.
pub record Routed (this_year : ℕ) (managed : Bool) (r : Router) : Type 0 where
  pub manager : r.has_manager ≡ managed
  pub cached : Cached r.trace r.stores
  pub sound : AllAllowed this_year managed r.trace

-- After a step: what holds of its value, or of the router if it fails.
abbrev Post :
    {A : Type 0}
    → (Router → Type 0)
    → (A → Router → Type 0)
    → Router × Result RouterError A
    → Type 0
Post Q P (r, ok a) = P a r
Post Q P (r, err e) = Q r

bind_Post :
    {A B : Type 0} (Q : Router → Type 0) (P : A → Router → Type 0) (P' : B → Router → Type 0)
    (x : Router × Result RouterError A) (f : A → R B)
    → Post Q P x
    → ((a : A) (r : Router) → P a r → Post Q P' (f a r))
    → Post Q P' (elim x.1 [ ok a ↦ f a x.0 | err e ↦ (x.0, err e) ])
bind_Post Q P P' (r, ok a) f h k = k a r h
bind_Post Q P P' (r, err e) f h k = h

module _ (services : Services) (m : Bool) (d : WriterLeaseDomain)
    (normal : normalize_writer_lease_domain services.this_year d ≡ d) where
  -- The lease for the domain is there, or no lease is needed.
  abbrev Covered : Router → Type 0
  Covered r = Routed services.this_year m r × (LeasedFor d r.trace ⊎ (m ≡ false))

  abbrev Ready : ℕ → Router → Type 0
  Ready s r =
      Routed services.this_year m r
      × (LeasedFor d r.trace ⊎ (m ≡ false))
      × OpenedAs s (route_key d) r.trace

  acquire_lease-Covered :
      (r : Router)
      → Routed services.this_year m r
      → Post (Routed services.this_year m) (λ _. Covered) (acquire_lease services d r)
  unfolding acquire_lease
  acquire_lease-Covered r v = rw normal (go r.has_manager v.manager)
    where
      answered :
          (o : Option Text)
          → Post (Routed services.this_year m) (λ _. Covered) (after_acquire services d o r)
      answered (some e) = record { manager = v.manager; cached = v.cached; sound = v.sound }
      answered none = (
        record {
          manager = v.manager;
          cached = Cached-later (leased d (collector_id d)) r.trace r.stores v.cached;
          sound = (tt, v.sound);
        },
        inl (refl, refl),
      )

      go :
          (b : Bool)
          → b ≡ m
          → Post
              (Routed services.this_year m)
              (λ _. Covered)
              (if b
                then after_acquire services d (services.acquire r.calls d (collector_id d)) r
                else (r, ok tt))
      go true e = answered (services.acquire r.calls d (collector_id d))
      go false e = (v, inr (sym e))

  -- The end of `store_for`, with a store that was opened for the key.
  keep_store-Ready :
      (s : ℕ) (r : Router)
      → Ready s r
      → Post (Routed services.this_year m) Ready (keep_store services (route_key d) s r)
  unfolding keep_store
  keep_store-Ready s r v = go (store_at (route_text (route_key d)) r.stores) refl
    where
      go :
          (o : Option ℕ)
          → store_at (route_text (route_key d)) r.stores ≡ o
          → Post (Routed services.this_year m) Ready (keep_or_use services (route_key d) s o r)
      go none e = (
        record {
          manager = v.0.manager;
          cached = ((route_key d, refl, v.2), v.0.cached);
          sound = v.0.sound;
        },
        v.1,
        v.2,
      )
      go (some existing) e = (
        record {
          manager = v.0.manager;
          cached = Cached-later (closed s) r.trace r.stores v.0.cached;
          sound = (tt, v.0.sound);
        },
        v.1,
        Cached-at (route_key d) r.trace r.stores existing v.0.cached e,
      )

  open_missing-Ready :
      (o : Option ℕ) (r : Router)
      → store_at (route_text (route_key d)) r.stores ≡ o
      → Covered r
      → Post (Routed services.this_year m) Ready (open_missing services (route_key d) o r)
  open_missing-Ready (some s) r e v =
      (v.0, v.1, Cached-at (route_key d) r.trace r.stores s v.0.cached e)
  open_missing-Ready none r e v = go (services.open_store r.calls (route_key d))
    where
      go :
          (o : Option Text)
          → Post (Routed services.this_year m) Ready (after_open services (route_key d) o r)
      go (some failure) = record { manager = v.0.manager; cached = v.0.cached; sound = v.0.sound }
      go none = keep_store-Ready r.calls (noted (opened r.calls (route_key d)) r) (
        record {
          manager = v.0.manager;
          cached = Cached-later (opened r.calls (route_key d)) r.trace r.stores v.0.cached;
          sound = (tt, v.0.sound);
        },
        v.1,
        inl (refl, refl),
      )

  store_for-Ready :
      (r : Router)
      → Covered r
      → Post (Routed services.this_year m) Ready (store_for services (route_key d) r)
  unfolding store_for
  store_for-Ready r v = elim (Bool-cases (not r.has_factory)) [
    | inl unset ↦ rw (store_for, unset) v.0
    | inr set ↦ elim (Bool-cases (is_empty (route_key d).exchange)) [
      | inl unnamed ↦ rw (store_for, set, unnamed) v.0
      | inr named ↦
          rw (store_for, set, named)
            (open_missing-Ready (store_at (route_text (route_key d)) r.stores) r refl v)
    ]
  ]

  insert_into-Routed :
      (b : Batch) (s : ℕ) (r : Router)
      → Fits services.this_year d b
      → Ready s r
      → Post
          (Routed services.this_year m)
          (λ _. Routed services.this_year m)
          (insert_into services d b s r)
  insert_into-Routed b s r fits v = go (services.insert r.calls s b)
    where
      go :
          (o : Option Text)
          → Post
              (Routed services.this_year m)
              (λ _. Routed services.this_year m)
              (after_insert services d b s o r)
      go (some e) = record { manager = v.0.manager; cached = v.0.cached; sound = v.0.sound }
      go none = record {
        manager = v.0.manager;
        cached = Cached-later (wrote s d b) r.trace r.stores v.0.cached;
        sound = ((v.2, v.1, fits), v.0.sound);
      }

  -- A batch of rows of the domain, whatever the lease manager, the factory and the store answer.
  pub write_batch-Routed :
      (b : Batch) (r : Router)
      → Fits services.this_year d b
      → Routed services.this_year m r
      → Routed services.this_year m (write_batch services d b r).0
  unfolding write_batch
  write_batch-Routed b r fits v = ends (write_batch services d b r) all
    where
      ends :
          (x : Router × Result RouterError (Unit {0}))
          → Post (Routed services.this_year m) (λ _. Routed services.this_year m) x
          → Routed services.this_year m x.0
      ends (r, ok a) h = h
      ends (r, err e) h = h

      all :
          Post
            (Routed services.this_year m)
            (λ _. Routed services.this_year m)
            (write_batch services d b r)
      all =
          bind_Post (Routed services.this_year m) (λ _. Covered) (λ _. Routed services.this_year m)
            (acquire_lease services d r) _ (acquire_lease-Covered r v)
            (λ _ r' c.
              bind_Post (Routed services.this_year m) Ready (λ _. Routed services.this_year m)
                (store_for services (route_key d) r') _ (store_for-Ready r' c)
                (λ s r'' ready. insert_into-Routed b s r'' fits ready))
