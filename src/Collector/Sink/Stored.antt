-- ===== src/Collector/Sink/Stored.antt =====
-- A batch on all ways to the store.
use scraper.Base.{
  ℕ, ◌≡◌, refl, sym, subst, inl, inr, false, not, ◌||◌, List, [], ◌∷◌, Option, none, some, ok, err,
  Result, Bool-cases, arith,
}
use scraper.Base.State.{Post}
use scraper.Text.{Text}
use scraper.Models.{Kline}
use scraper.Collector.Sink.{
  Entry, stored, published, observed, Collector, World, noted, counted, last_kline, notify_stored,
  after_insert, insert, after_publish, publish_live, publish_selected, store_klines,
  store_klines_without_publish, store_klines_with_publish,
}
use scraper.Collector.Sink.Order.{
  JustStored, EndsWith, JustEnded, InOrder, publications, Wrote, RefusedBy, FailedOr,
}

module _ (world : World) (c : ℕ) (k : Kline) (ks : List Kline) (s : Collector)
    (order : InOrder s.trace) (Q : Collector → Type 0) where
  notify_stored-Wrote :
      (s' : Collector)
      → JustEnded (last_kline k ks) s'.trace
      → Wrote c k ks s s'
      → Post Q (λ _. Wrote c k ks s) (notify_stored k ks s')
  unfolding notify_stored
  notify_stored-Wrote s' ended w = elim (Bool-cases s'.has_observer) [
    | inl seen ↦
        rw (notify_stored, seen)
          (record {
            order = (ended, w.order);
            cursor = w.cursor;
            direction = w.direction;
            until = w.until;
            quiet = w.quiet;
          })
    | inr unseen ↦
        rw (notify_stored, unseen)
          (record {
            order = w.order;
            cursor = w.cursor;
            direction = w.direction;
            until = w.until;
            quiet = w.quiet;
          })
  ]

  -- What follows a successful insert.
  abbrev Tail : (Collector → Collector × Result Text (Unit {0})) → Type 0
  Tail f =
      (s' : Collector)
      → JustStored (k ∷ ks) s'.trace
      → Wrote c k ks s s'
      → Post Q (λ _. Wrote c k ks s) (f s')

  insert-Wrote :
      ((s' : Collector) → RefusedBy world k ks s s' → Q s')
      → (f : Collector → Collector × Result Text (Unit {0})) → Tail f
      → Post Q
          (λ _. Wrote c k ks s)
          (let (s', r) = insert world (k ∷ ks) s in
            elim r as (λ _. Collector × Result Text (Unit {0})) [
              | ok a ↦ f s'
              | err e ↦ (s', err e)
            ])
  insert-Wrote refused f tail = go (world.insert s.calls (k ∷ ks)) refl
    where
      go :
          (o : Option Text)
          → world.insert s.calls (k ∷ ks) ≡ o
          → Post Q
              (λ _. Wrote c k ks s)
              (let (s', r) = after_insert world (k ∷ ks) o s in
                elim r as (λ _. Collector × Result Text (Unit {0})) [
                  | ok a ↦ f s'
                  | err e ↦ (s', err e)
                ])
      go none e = tail (noted (stored (k ∷ ks)) s) refl (record {
        order = order;
        cursor = refl;
        direction = refl;
        until = refl;
        quiet = λ _. refl;
      })
      go (some x) e =
          refused (counted s)
            (λ h. cc (e, h), record { trace = refl; cursor = refl; direction = refl })

  stored_ended : (t : List Entry) → JustStored (k ∷ ks) t → JustEnded (last_kline k ks) t
  stored_ended [] e = absurd e
  stored_ended (published ks' ∷ t) e = absurd e
  stored_ended (observed j ∷ t) e = absurd e
  stored_ended (stored ks' ∷ t) e = subst (EndsWith (last_kline k ks)) (sym e) refl

  notify_stored-Tail : Tail (notify_stored k ks)
  notify_stored-Tail s' just w = notify_stored-Wrote s' (stored_ended s'.trace just) w

  -- A publication keeps the order, and a reverse run makes none.
  publish-Wrote :
      (s' : Collector)
      → JustStored (k ∷ ks) s'.trace
      → (s'.is_reverse || not s'.has_publisher) ≡ false
      → Wrote c k ks s s'
      → Wrote c k ks s (noted (published (k ∷ ks)) s')
  publish-Wrote s' just live w = record {
    order = (just, w.order);
    cursor = w.cursor;
    direction = w.direction;
    until = w.until;
    quiet = λ r. absurd (ground (arith, live, w.direction, r));
  }

  publish_live-Tail :
      ((s' : Collector) → s.is_reverse ≡ false → Wrote c k ks s s' → Q s')
      → Tail (publish_live world k ks)
  publish_live-Tail lost s' just w = elim (Bool-cases (s'.is_reverse || not s'.has_publisher)) [
    | inl quiet ↦ rw quiet (notify_stored-Tail s' just w)
    | inr live ↦ rw live (go live (world.publish s'.calls (k ∷ ks)))
  ]
    where
      go :
          (s'.is_reverse || not s'.has_publisher) ≡ false
          → (o : Option Text)
          → Post Q
              (λ _. Wrote c k ks s)
              (let (s'', r) = after_publish world (k ∷ ks) o s' in
                elim r as (λ _. Collector × Result Text (Unit {0})) [
                  | ok a ↦ notify_stored k ks s''
                  | err e ↦ (s'', err e)
                ])
      go live none =
          notify_stored-Wrote (noted (published (k ∷ ks)) s') refl (publish-Wrote s' just live w)
      go live (some x) = lost (counted s') (ground (arith, live, w.direction)) (record {
        order = w.order;
        cursor = w.cursor;
        direction = w.direction;
        until = w.until;
        quiet = w.quiet;
      })

  -- A publication of the same K-lines, whose error is dropped.
  publish_selected-Tail : Tail (publish_selected world k ks (k ∷ ks))
  publish_selected-Tail s' just w = elim (Bool-cases (s'.is_reverse || not s'.has_publisher)) [
    | inl quiet ↦ rw quiet (notify_stored-Tail s' just w)
    | inr live ↦ rw live (go live (world.publish s'.calls (k ∷ ks)))
  ]
    where
      go :
          (s'.is_reverse || not s'.has_publisher) ≡ false
          → (o : Option Text)
          → Post Q (λ _. Wrote c k ks s) (notify_stored k ks (after_publish world (k ∷ ks) o s').0)
      go live none =
          notify_stored-Wrote (noted (published (k ∷ ks)) s') refl (publish-Wrote s' just live w)
      go live (some x) = notify_stored-Wrote (counted s') (stored_ended s'.trace just) (record {
        order = w.order;
        cursor = w.cursor;
        direction = w.direction;
        until = w.until;
        quiet = w.quiet;
      })

module _ (world : World) (c : ℕ) (k : Kline) (ks : List Kline) (s : Collector)
    (order : InOrder s.trace) where
  -- A batch that is not empty, on all ways to the store.
  pub store_klines-Wrote :
      Post (FailedOr world c k ks s) (λ _. Wrote c k ks s) (store_klines world (k ∷ ks) s)
  unfolding store_klines
  store_klines-Wrote =
      insert-Wrote world c k ks s order (FailedOr world c k ks s) (λ s' h. inl h)
        (publish_live world k ks)
        (publish_live-Tail world c k ks s order (FailedOr world c k ks s) (λ s' r w. inr (r, w)))

  pub store_klines_without_publish-Wrote :
      Post
        (RefusedBy world k ks s)
        (λ _. Wrote c k ks s)
        (store_klines_without_publish world (k ∷ ks) s)
  unfolding store_klines_without_publish
  store_klines_without_publish-Wrote =
      insert-Wrote world c k ks s order (RefusedBy world k ks s) (λ s' h. h) (notify_stored k ks)
        (notify_stored-Tail world c k ks s order (RefusedBy world k ks s))

  pub store_klines_with_publish-Wrote :
      Post
        (RefusedBy world k ks s)
        (λ _. Wrote c k ks s)
        (store_klines_with_publish world (k ∷ ks) (k ∷ ks) s)
  unfolding store_klines_with_publish
  store_klines_with_publish-Wrote =
      insert-Wrote world c k ks s order (RefusedBy world k ks s) (λ s' h. h)
        (publish_selected world k ks (k ∷ ks))
        (publish_selected-Tail world c k ks s order (RefusedBy world k ks s))

  pub store_klines_unpublished-Wrote :
      Post
        (RefusedBy world k ks s)
        (λ _. Wrote c k ks s)
        (store_klines_with_publish world (k ∷ ks) [] s)
  unfolding store_klines_with_publish
  store_klines_unpublished-Wrote =
      insert-Wrote world c k ks s order (RefusedBy world k ks s) (λ s' h. h)
        (publish_selected world k ks [])
        (notify_stored-Tail world c k ks s order (RefusedBy world k ks s))

-- A store without publication publishes nothing.
pub store_klines_without_publish-publications :
    (world : World) (ks : List Kline) (s : Collector)
    → publications (store_klines_without_publish world ks s).0.trace ≡ publications s.trace
unfolding store_klines_without_publish notify_stored
store_klines_without_publish-publications world [] s = refl
store_klines_without_publish-publications world (k ∷ ks) s = go (world.insert s.calls (k ∷ ks))
  where
    go :
        (o : Option Text)
        → publications
            (let (s', r) = after_insert world (k ∷ ks) o s in
              elim r as (λ _. Collector × Result Text (Unit {0})) [
                | ok a ↦ notify_stored k ks s'
                | err e ↦ (s', err e)
              ]).0.trace
          ≡ publications s.trace
    go none = ground arith
    go (some e) = refl
