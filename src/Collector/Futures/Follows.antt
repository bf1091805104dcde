-- ===== src/Collector/Futures/Follows.antt =====
-- The cursor of the futures collector follows what it has stored, and what it publishes is one fresh
-- K-line.
use scraper.Base.{
  ℕ, zero, suc, ◌+◌, ◌≤◌, ◌≡◌, refl, sym, ◌∙◌, ap, subst, ◌↔◌, ◌⊎◌, inl, inr, Bool, true, not, ◌||◌,
  List, [], ◌∷◌, ok, err, Result, Bool-cases, arith, ltb,
}
use scraper.Base.State.{Post}
use scraper.Text.{Text}
use scraper.Time.{int64_suc, int64_zero, unix_milli}
use scraper.Models.{Kline}
use scraper.Collector.Sink.{Collector, World, counted, filter_closed_klines}
use scraper.Collector.Sink.Order.{InOrder, stored_until, Wrote, Unmoved, RefusedBy}
use scraper.Collector.Sink.Stored.{store_klines_with_publish-Wrote, store_klines_unpublished-Wrote}
use scraper.Collector.Fetch.{fetch}
use scraper.Collector.Fetch.Keeps.{fetch-Unmoved}
use scraper.Collector.Futures.{
  select_forward_publish_klines, max_forward_publish_kline_age, moved, store_closed, use_klines,
  forward_tick, forward_ticks,
}

-- What is selected for publication is nothing, or all that is closed.
abbrev NoneOrAll : List Kline → List Kline → Type 0
NoneOrAll closed ps = (ps ≡ []) ⊎ (ps ≡ closed)

select-NoneOrAll :
    (closed : List Kline) (seeded : Bool) (now_ms : ℕ)
    → NoneOrAll closed (select_forward_publish_klines closed seeded now_ms)
unfolding select_forward_publish_klines
select-NoneOrAll [] seeded now_ms = inl refl
select-NoneOrAll (k ∷ k' ∷ ks) seeded now_ms = inl refl
select-NoneOrAll (k ∷ []) seeded now_ms =
    elim (Bool-cases
      (not seeded || ltb (unix_milli k.close_time + max_forward_publish_kline_age) now_ms)) [
        | inl skip ↦ rw skip (inl refl)
        | inr take ↦ rw take (inr refl)
      ]

-- A K-line is selected exactly if it is the only one that is closed, the cursor is set, and it closed a
-- minute ago at most.
pub select_forward_publish_klines_iff :
    (closed : List Kline) (seeded : Bool) (now_ms : ℕ) (k : Kline)
    → (select_forward_publish_klines closed seeded now_ms ≡ k ∷ [])
      ↔ ((closed ≡ k ∷ []) × (seeded ≡ true) × (now_ms ≤ unix_milli k.close_time + 60_000))
unfolding select_forward_publish_klines
select_forward_publish_klines_iff [] seeded now_ms k = (λ h. cc, λ h. cc)
select_forward_publish_klines_iff (j ∷ j' ∷ js) seeded now_ms k = (λ h. cc, λ h. cc)
select_forward_publish_klines_iff (j ∷ []) seeded now_ms k =
    elim (Bool-cases
      (not seeded || ltb (unix_milli j.close_time + max_forward_publish_kline_age) now_ms)) [
        | inl skip ↦ rw skip (
          λ h. cc,
          λ h.
              let same : j ≡ k = cc (h.0) in
              let skip' : (not seeded || ltb (unix_milli k.close_time + 60_000) now_ms) ≡ true =
                rw (sym same) skip in
              absurd (ground (arith, h.1, h.2, skip')),
        )
        | inr take ↦
            let fresh : (seeded ≡ true) × (now_ms ≤ unix_milli j.close_time + 60_000) =
              ground (arith, take) in
            rw take (λ h. let same : j ≡ k = cc h in (h, fresh.0, rw (sym same) fresh.1), λ h. h.0)
      ]

-- The cursor is the last close that was stored.
pub record Follows (c : ℕ) (s : Collector) : Type 0 where
  pub order : InOrder s.trace
  pub at : int64_suc s.cursor ≡ stored_until c s.trace

Unmoved-Follows : (c : ℕ) (s s' : Collector) → Follows c s → Unmoved s s' → Follows c s'
Unmoved-Follows c s s' f u = record {
  order = subst InOrder (sym u.trace) f.order;
  at = ap int64_suc u.cursor ∙ (f.at ∙ ap (stored_until c) (sym u.trace));
}

module _ (world : World) (c : ℕ) where
  moved-Follows :
      (k : Kline) (ks : List Kline) (s : Collector) (x : Collector × Result Text (Unit {0}))
      → Follows c s
      → Post (RefusedBy world k ks s) (λ _. Wrote c k ks s) x
      → Follows c (moved world k ks x)
  moved-Follows k ks s (s', ok a) f w = record { order = w.order; at = sym w.until }
  moved-Follows k ks s (s', err e) f r = Unmoved-Follows c s s' f r.1

  store_closed-Follows :
      (seeded : Bool) (now_ms : ℕ) (ks : List Kline) (s : Collector)
      → Follows c s
      → Follows c (store_closed world seeded now_ms ks s)
  store_closed-Follows seeded now_ms [] s f = f
  store_closed-Follows seeded now_ms (k ∷ ks) s f = elim (select-NoneOrAll (k ∷ ks) seeded now_ms) [
    | inl nothing ↦
        rw nothing
          (moved-Follows k ks s _ f (store_klines_unpublished-Wrote world c k ks s f.order))
    | inr all ↦
        rw all (moved-Follows k ks s _ f (store_klines_with_publish-Wrote world c k ks s f.order))
  ]

  use_klines-Follows :
      (seeded : Bool) (s : Collector) (x : Collector × Result Text (List Kline))
      → Follows c s
      → Post (Unmoved s) (λ _. Unmoved s) x
      → Follows c (use_klines world seeded x)
  use_klines-Follows seeded s (s', err e) f u = Unmoved-Follows c s s' f u
  use_klines-Follows seeded s (s', ok klines) f u =
      let f' = Unmoved-Follows c s s' f u in
      store_closed-Follows seeded (world.now s'.calls)
        (filter_closed_klines klines (world.now s'.calls)) (counted s')
        (record { order = f'.order; at = f'.at })

  -- Whatever the exchange, the store and the publisher answer, after any number of ticks the cursor is
  -- where the last stored batch closes, if it was there before; and what is published or observed was
  -- stored just before.
  pub forward_ticks-Follows :
      (n : ℕ) (s : Collector) → Follows c s → Follows c (forward_ticks world n s)
  unfolding forward_ticks
  forward_ticks-Follows zero s f = f
  forward_ticks-Follows (suc n) s f = forward_ticks-Follows n (forward_tick world s) (
      unfold forward_tick in
      use_klines-Follows (ltb int64_zero s.cursor) s (fetch world s.cursor s) f
        (fetch-Unmoved world s.cursor s))
