-- ===== src/Storage/Ensure/Steps.antt =====
-- What the migrations of a database leave after an error.
use scraper.Base.{
  ◌≡◌, refl, sym, subst, ◌∙◌, ap, inl, inr, Bool, true, false, List, [], ◌∷◌, ◌++◌, Option, none,
  some, Result, Bool-cases, ℕ,
}
use scraper.Base.State.{Post, bind_Post, Post-map, ◌>>=◌}
use scraper.Text.{Text}
use scraper.Storage.Migrations.{is_applied}
use scraper.Storage.Migrations.Applied.{pending, on_top}
use scraper.Storage.Ensure.{
  Migrating, StepCall, connects, locks, ensures, begins, checks, executes, records, commits, G,
  answered, step, committed, unless_known, apply_migration, apply_each, apply_migrations_to_db,
}

abbrev pub Has : List Text → List Text → Migrating → Type 0
Has ms ex s = (s.migrations ≡ ms) × (s.executed ≡ ex)

-- The first of the files to do were executed and recorded, in order.
abbrev pub Began : List Text → List Text → List Text → Migrating → Type 0
Began todo ms ex s =
    (done : List Text) × (left : List Text) × (todo ≡ done ++ left)
    × Has (on_top done ms) (on_top done ex) s

-- All files to do after a success, the first of them after an error.
abbrev pub AllOrBegan :
    List Text → List Text → List Text → Migrating × Result Text (Unit {0}) → Type 0
AllOrBegan todo ms ex = Post (Began todo ms ex) (λ _. Has (on_top todo ms) (on_top todo ex))

module _ (answers : ℕ → StepCall → Option Text) where
  step-Has :
      (ms ex : List Text) (c : StepCall) (s : Migrating)
      → Has ms ex s
      → Post (Has ms ex) (λ _. Has ms ex) (step answers c s)
  step-Has ms ex c s h = go (answers s.calls c)
    where
      go : (o : Option Text) → Post (Has ms ex) (λ _. Has ms ex) (answered answers o s)
      go none = h
      go (some e) = h

  -- A step, and what follows it, where an error of the step leaves `Q`.
  after_step :
      (ms ex : List Text) (c : StepCall) (rest : G (Unit {0})) (Q P : Migrating → Type 0)
      (s : Migrating)
      → Has ms ex s
      → ((s' : Migrating) → Has ms ex s' → Q s')
      → ((s' : Migrating) → Has ms ex s' → Post Q (λ _. P) (rest s'))
      → Post Q (λ _. P) ((do _ ← step answers c; rest) s)
  after_step ms ex c rest Q P s h q k =
      bind_Post Q (λ _. Has ms ex) (λ _. P) (step answers c s) (λ _. rest)
        (Post-map {Q = Has ms ex} {Q' = Q} {P = λ _. Has ms ex} {P' = λ _. Has ms ex}
          (step answers c s) q (λ _ s' h'. h') (step-Has ms ex c s h))
        (λ _ s' h'. k s' h')

  -- A file that is not recorded: it is executed and recorded, or nothing is done.
  apply_new-Has :
      (ms ex : List Text) (name : Text) (s : Migrating)
      → Has ms ex s
      → Post (Has ms ex) (λ _. Has (name ∷ ms) (name ∷ ex)) (unless_known answers name false s)
  apply_new-Has ms ex name s h =
      let Q = Has ms ex in
      let P = Has (name ∷ ms) (name ∷ ex) in
      after_step ms ex (executes name)
        (do
          _ ← step answers (records name)
          _ ← step answers (commits name)
          committed answers name)
        Q P s h (λ s' h'. h')
        (λ s1 h1.
          after_step ms ex (records name)
            (do _ ← step answers (commits name); committed answers name) Q P s1 h1 (λ s' h'. h')
            (λ s2 h2.
              after_step ms ex (commits name) (committed answers name) Q P s2 h2 (λ s' h'. h')
                (λ s3 h3. (ap (λ fs. name ∷ fs) h3.0, ap (λ fs. name ∷ fs) h3.1))))

  -- A round of the loop, from what the test of the file gives.
  apply_migration-Has :
      (ms ex : List Text) (name : Text) (known : Bool) (P : Migrating → Type 0) (s : Migrating)
      → is_applied name ms ≡ known
      → Has ms ex s
      → ((s' : Migrating)
          → Has ms ex s'
          → Post (Has ms ex) (λ _. P) (unless_known answers name known s'))
      → Post (Has ms ex) (λ _. P) (apply_migration answers name s)
  apply_migration-Has ms ex name known P s e h k =
      after_step ms ex (begins name)
        (do
          _ ← step answers (checks name)
          λ t. unless_known answers name (is_applied name t.migrations) t)
        (Has ms ex) P s h (λ s' h'. h')
        (λ s1 h1.
          after_step ms ex (checks name)
            (λ t. unless_known answers name (is_applied name t.migrations) t) (Has ms ex) P s1 h1
            (λ s' h'. h') (λ s2 h2. rw (ap (is_applied name) h2.0 ∙ e) (k s2 h2)))

  apply_each-AllOrBegan :
      (names ms ex : List Text) (s : Migrating)
      → Has ms ex s
      → AllOrBegan (pending names ms) ms ex (apply_each answers names s)
  unfolding apply_each pending
  apply_each-AllOrBegan [] ms ex s h = h
  apply_each-AllOrBegan (name ∷ names) ms ex s h = elim (Bool-cases (is_applied name ms)) [
    | inl known ↦
        let todo = pending names ms in
        let same : pending (name ∷ names) ms ≡ todo = rw known refl in
        let End = Has (on_top todo ms) (on_top todo ex) in
        subst (λ t. AllOrBegan t ms ex (apply_each answers (name ∷ names) s)) (sym same)
          (bind_Post (Began todo ms ex) (λ _. Has ms ex) (λ _. End) (apply_migration answers name s)
            (λ _. apply_each answers names)
            (Post-map {Q = Has ms ex} {Q' = Began todo ms ex} {P = λ _. Has ms ex}
              {P' = λ _. Has ms ex} (apply_migration answers name s) (λ s' h'. ([], todo, refl, h'))
              (λ _ s' h'. h')
              (apply_migration-Has ms ex name true (Has ms ex) s known h (λ s' h'. h')))
            (λ _ s' h'. apply_each-AllOrBegan names ms ex s' h'))
    | inr new ↦
        let rest = pending names (name ∷ ms) in
        let todo = name ∷ rest in
        let same : pending (name ∷ names) ms ≡ todo = rw new refl in
        let End = Has (on_top todo ms) (on_top todo ex) in
        subst (λ t. AllOrBegan t ms ex (apply_each answers (name ∷ names) s)) (sym same)
          (bind_Post (Began todo ms ex) (λ _. Has (name ∷ ms) (name ∷ ex)) (λ _. End)
            (apply_migration answers name s) (λ _. apply_each answers names)
            (Post-map {Q = Has ms ex} {Q' = Began todo ms ex} {P = λ _. Has (name ∷ ms) (name ∷ ex)}
              {P' = λ _. Has (name ∷ ms) (name ∷ ex)} (apply_migration answers name s)
              (λ s' h'. ([], todo, refl, h')) (λ _ s' h'. h')
              (apply_migration-Has ms ex name false (Has (name ∷ ms) (name ∷ ex)) s new h
                (λ s' h'. apply_new-Has ms ex name s' h')))
            (λ _ s' h'.
              Post-map {Q = Began rest (name ∷ ms) (name ∷ ex)} {Q' = Began todo ms ex}
                {P = λ _. End} {P' = λ _. End} (apply_each answers names s')
                (λ s'' p.
                  let (done, left, e, has) = p in (name ∷ done, left, ap (λ fs. name ∷ fs) e, has))
                (λ _ s'' p. p) (apply_each-AllOrBegan names (name ∷ ms) (name ∷ ex) s' h')))
  ]

  -- Whatever the server answers, the migrations of a database that succeed have executed and recorded, in
  -- order, exactly the files that were not recorded; if they fail, the first of these stay executed and
  -- recorded, and each executed file is recorded.
  pub apply_migrations_to_db-AllOrBegan :
      (names : List Text) (s : Migrating)
      → AllOrBegan
          (pending names s.migrations)
          s.migrations
          s.executed
          (apply_migrations_to_db answers names s)
  unfolding apply_migrations_to_db
  apply_migrations_to_db-AllOrBegan names s =
      let ms = s.migrations in
      let ex = s.executed in
      let todo = pending names ms in
      let Q = Began todo ms ex in
      let End = Has (on_top todo ms) (on_top todo ex) in
      let none_yet : (s' : Migrating) → Has ms ex s' → Q s' = λ s' h'. ([], todo, refl, h') in
      after_step ms ex connects
        (do _ ← step answers locks; _ ← step answers ensures; apply_each answers names) Q End s
        (refl, refl) none_yet
        (λ s1 h1.
          after_step ms ex locks (do _ ← step answers ensures; apply_each answers names) Q End s1 h1
            none_yet
            (λ s2 h2.
              after_step ms ex ensures (apply_each answers names) Q End s2 h2 none_yet
                (λ s3 h3. apply_each-AllOrBegan names ms ex s3 h3)))
