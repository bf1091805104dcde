-- ===== src/Base/State.antt =====
-- Methods that change a state and may fail: the new state comes back with an error too.
use scraper.Base.Errors.{Result, ok, err}

abbrev pub Action : Type 0 → Type 0 → Type 0 → Type 0
Action S E A = S → S × Result E A

module _ {S E : Type 0} where
  abbrev pub pure : {A : Type 0} → A → Action S E A
  pure a s = (s, ok a)

  abbrev pub raise : {A : Type 0} → E → Action S E A
  raise e s = (s, err e)

  infixl 5 ◌>>=◌
  abbrev pub ◌>>=◌ : {A B : Type 0} → Action S E A → (A → Action S E B) → Action S E B
  ◌>>=◌ m f s = let (s', r) = m s in elim r [ ok a ↦ f a s' | err e ↦ (s', err e) ]

  -- What holds of the state after an error, and of the value and the state after a success.
  abbrev pub Post : {A : Type 0} → (S → Type 0) → (A → S → Type 0) → S × Result E A → Type 0
  Post Q P (s, ok a) = P a s
  Post Q P (s, err e) = Q s

  pub bind_Post :
      {A B : Type 0} (Q : S → Type 0) (P : A → S → Type 0) (P' : B → S → Type 0)
      (x : S × Result E A) (f : A → Action S E B)
      → Post Q P x
      → ((a : A) (s : S) → P a s → Post Q P' (f a s))
      → Post Q P' (elim x.1 [ ok a ↦ f a x.0 | err e ↦ (x.0, err e) ])
  bind_Post Q P P' (s, ok a) f h k = k a s h
  bind_Post Q P P' (s, err e) f h k = h

  -- What holds of the state either way.
  pub Post-state : {A : Type 0} (Q : S → Type 0) (x : S × Result E A) → Post Q (λ _. Q) x → Q x.0
  Post-state Q (s, ok a) h = h
  Post-state Q (s, err e) h = h

  pub Post-map :
      {A : Type 0} {Q Q' : S → Type 0} {P P' : A → S → Type 0} (x : S × Result E A)
      → ((s : S) → Q s → Q' s)
      → ((a : A) (s : S) → P a s → P' a s)
      → Post Q P x
      → Post Q' P' x
  Post-map (s, ok a) f g h = g a s h
  Post-map (s, err e) f g h = f s h
