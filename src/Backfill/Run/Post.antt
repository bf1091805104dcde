-- ===== src/Backfill/Run/Post.antt =====
-- Postconditions of the steps of `backfillWindow`, through its chains of calls.
use scraper.Base.{ok, err, Result}
use scraper.Backfill.Interval.{Error}
use scraper.Backfill.Run.{Progress, M, ◌>>=◌}

-- A step ends in a state with `E` if it fails, and with `Q` and its value if it succeeds.
abbrev pub Ensures :
    {A : Type 0}
    → (Progress → Type 0)
    → (Progress → A → Type 0)
    → Progress × Result Error A
    → Type 0
Ensures E Q (s, ok a) = Q s a
Ensures E Q (s, err e) = E s

module _ {A B : Type 0} (E : Progress → Type 0) where
  after_step :
      (P : Progress → A → Type 0) (Q : Progress → B → Type 0) (r : Progress × Result Error A)
      (f : A → M B)
      → Ensures E P r
      → ((s : Progress) (a : A) → P s a → Ensures E Q (f a s))
      → Ensures E Q (elim r.1 [ ok a ↦ f a r.0 | err e ↦ (r.0, err e) ])
  after_step P Q (s, ok a) f p k = k s a p
  after_step P Q (s, err e) f p k = p

  pub bind_Ensures :
      (P : Progress → A → Type 0) (Q : Progress → B → Type 0) (m : M A) (f : A → M B) (s : Progress)
      → Ensures E P (m s)
      → ((s' : Progress) (a : A) → P s' a → Ensures E Q (f a s'))
      → Ensures E Q ((m >>= f) s)
  bind_Ensures P Q m f s = after_step P Q (m s) f
