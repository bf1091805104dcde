-- ===== src/Collector/Spot/Cursor.antt =====
-- The time from which the spot collector resumes: catch-up ends, publishes nothing, and leaves the time
-- after the last stored K-line.
use scraper.Base.{
  ℕ, zero, suc, ◌-◌, ◌<◌, ◌≤◌, ◌≡◌, sym, ◌∙◌, ap, subst, inl, inr, ◌||◌, List, [], ◌∷◌, Option,
  none, some, ok, err, Result, Bool-cases, arith, ltb, leb, length,
}
use scraper.Base.State.{Post, bind_Post, Post-map}
use scraper.Text.{Text}
use scraper.Time.{int64_zero}
use scraper.Models.{Kline}
use scraper.Collector.Sink.{
  Collector, World, counted, store_klines_without_publish, filter_closed_klines,
}
use scraper.Collector.Sink.Order.{InOrder, stored_until, publications, Wrote, Unmoved, RefusedBy}
use scraper.Collector.Sink.Stored.{
  store_klines_without_publish-Wrote, store_klines_without_publish-publications,
}
use scraper.Collector.Fetch.{fetch_batch}
use scraper.Collector.Fetch.Keeps.{fetch_batch-Unmoved}
use scraper.Collector.Spot.{
  resume_after, store_catch_up_klines, go_on, store_closed, use_batch, catch_up_round,
  catch_up_loop, catch_up_forward,
}

-- The cursor is the millisecond after the last stored K-line, and `p` publications were made.
pub record Tracks (c p : ℕ) (s : Collector) : Type 0 where
  pub order : InOrder s.trace
  pub at : s.cursor ≡ stored_until c s.trace
  pub published : publications s.trace ≡ p

Unmoved-Tracks : (c p : ℕ) (s s' : Collector) → Tracks c p s → Unmoved s s' → Tracks c p s'
Unmoved-Tracks c p s s' t u = record {
  order = subst InOrder (sym u.trace) t.order;
  at = u.cursor ∙ (t.at ∙ ap (stored_until c) (sym u.trace));
  published = ap publications u.trace ∙ t.published;
}

module _ (world : World) (c p : ℕ) where
  store_catch_up_klines-Tracks :
      (ks : List Kline) (s : Collector)
      → Tracks c p s
      → Post (Tracks c p) (λ _. Tracks c p) (store_catch_up_klines world ks s)
  unfolding store_catch_up_klines
  store_catch_up_klines-Tracks [] s t = t
  store_catch_up_klines-Tracks (k ∷ ks) s t =
      go (store_klines_without_publish world (k ∷ ks) s)
        (store_klines_without_publish-Wrote world c k ks s t.order)
        (store_klines_without_publish-publications world (k ∷ ks) s ∙ t.published)
    where
      go :
          (x : Collector × Result Text (Unit {0}))
          → Post (RefusedBy world k ks s) (λ _. Wrote c k ks s) x
          → publications x.0.trace ≡ p
          → Post
              (Tracks c p)
              (λ _. Tracks c p)
              (elim x.1 as (λ _. Collector × Result Text (Unit {0})) [
                | ok a ↦ (resume_after k ks x.0, ok tt)
                | err e ↦ (x.0, err e)
              ])
      go (s', ok a) w q = record { order = w.order; at = sym w.until; published = q }
      go (s', err e) r q = Unmoved-Tracks c p s s' t r.1

  -- A round goes on from a later time only.
  abbrev Later : ℕ → Option ℕ → Type 0
  Later current none = Unit
  Later current (some next) = current < next

  abbrev Rounds : ℕ → Collector × Result Text (Option ℕ) → Type 0
  Rounds current x = Post (Tracks c p) (λ next s. Tracks c p s × Later current next) x

  go_on-Rounds :
      (current : ℕ) (klines closed : List Kline) (s : Collector)
      → Tracks c p s
      → Rounds current (go_on world current klines closed s)
  go_on-Rounds current klines closed s t =
      elim (Bool-cases (leb s.cursor current || ltb (length closed) (length klines))) [
        | inl over ↦ rw over (record { order = t.order; at = t.at; published = t.published }, tt)
        | inr more ↦
            rw more (record { order = t.order; at = t.at; published = t.published }, ground arith)
      ]

  store_closed-Rounds :
      (current : ℕ) (klines closed : List Kline) (s : Collector)
      → Tracks c p s
      → Rounds current (store_closed world current klines closed s)
  store_closed-Rounds current klines [] s t = (t, tt)
  store_closed-Rounds current klines (k ∷ ks) s t =
      bind_Post (Tracks c p) (λ _. Tracks c p) (λ next s'. Tracks c p s' × Later current next)
        (store_catch_up_klines world (k ∷ ks) s) (λ _. go_on world current klines (k ∷ ks))
        (store_catch_up_klines-Tracks (k ∷ ks) s t)
        (λ _ s' t'. go_on-Rounds current klines (k ∷ ks) s' t')

  catch_up_round-Rounds :
      (current now_ms : ℕ) (s : Collector)
      → Tracks c p s
      → Rounds current (catch_up_round world current now_ms s)
  unfolding catch_up_round
  catch_up_round-Rounds current now_ms s t =
      bind_Post (Tracks c p) (λ _. Tracks c p) (λ next s'. Tracks c p s' × Later current next)
        (fetch_batch world current now_ms s) (use_batch world current now_ms)
        (Post-map (fetch_batch world current now_ms s) (λ s' u. Unmoved-Tracks c p s s' t u)
          (λ _ s' u. Unmoved-Tracks c p s s' t u) (fetch_batch-Unmoved world current now_ms s))
        (λ klines s' t'.
          store_closed-Rounds current klines (filter_closed_klines klines now_ms) s' t')

  -- The loop has ended in time.
  abbrev pub Ended : Option (Collector × Result Text (Unit {0})) → Type 0
  Ended none = ⊥
  Ended (some (s, r)) = Tracks c p s

  -- What the loop makes of a round.
  after_round :
      (fuel current : ℕ) (x : Collector × Result Text (Option ℕ))
      → Rounds current x
      → ((next : ℕ) (s : Collector)
          → current < next
          → Tracks c p s
          → Ended (catch_up_loop world fuel next s))
      → Ended (elim x.1 as (λ _. Option (Collector × Result Text (Unit {0}))) [
        | err e ↦ some (x.0, err e)
        | ok none ↦ some (x.0, ok tt)
        | ok (some next) ↦ catch_up_loop world fuel next x.0
      ])
  after_round fuel current (s, err e) h k = h
  after_round fuel current (s, ok none) h k = h.0
  after_round fuel current (s, ok (some next)) h k = k next s h.1 h.0

  module _ (last : ℕ) (clock : (n : ℕ) → world.now n ≤ last) where
    catch_up_loop-Ended :
        (fuel current : ℕ) (s : Collector)
        → last - current < fuel
        → Tracks c p s
        → Ended (catch_up_loop world fuel current s)
    unfolding catch_up_loop
    catch_up_loop-Ended zero current s f t = absurd (omega arith)
    catch_up_loop-Ended (suc fuel) current s f t =
        elim (Bool-cases (leb (world.now s.calls) current)) [
          | inl past ↦
              rw (past, catch_up_loop)
                (record { order = t.order; at = t.at; published = t.published })
          | inr before ↦
              let bound : world.now s.calls ≤ last = clock s.calls in
              let lt : current < world.now s.calls = ground arith in
              rw (before, catch_up_loop)
                (after_round fuel current
                  (catch_up_round world current (world.now s.calls) (counted s))
                  (catch_up_round-Rounds current (world.now s.calls) (counted s)
                    (record { order = t.order; at = t.at; published = t.published }))
                  (λ next s' on t'. catch_up_loop-Ended fuel next s' (omega arith) t'))
        ]

-- Catch-up ends, if the clock never passes a time `last` and the rounds from the cursor to it are
-- given. Whatever the exchange and the store answer, it publishes nothing; and it leaves the cursor
-- at the millisecond after the last stored K-line, if it found it there. What is observed is the
-- last of what was stored.
pub catch_up_forward-Ended :
    (world : World) (last c p fuel : ℕ) (s : Collector)
    → ((n : ℕ) → world.now n ≤ last)
    → last - s.cursor < fuel
    → Tracks c p s
    → Ended world c p (catch_up_forward world fuel s)
unfolding catch_up_forward
catch_up_forward-Ended world last c p fuel s clock enough t =
    elim (Bool-cases (leb s.cursor int64_zero)) [
      | inl unset ↦
          rw (unset, catch_up_forward)
            (record { order = t.order; at = t.at; published = t.published })
      | inr set ↦
          rw (set, catch_up_forward)
            (catch_up_loop-Ended world c p last clock fuel s.cursor s enough t)
    ]
