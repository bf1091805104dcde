-- ===== src/Storage/Migrations/Applied.antt =====
-- What a run of the migrations has done.
use scraper.Base.{
  ◌≡◌, refl, sym, ◌∙◌, ap, subst, inl, inr, Bool, true, List, [], ◌∷◌, Option, none, some, ok, err,
  Result, All, Bool-cases, arith, if◌then◌else◌,
}
use scraper.Base.State.{Post, bind_Post, ◌>>=◌}
use scraper.Text.{Text}
use scraper.Text.Laws.{text_eq_refl}
use scraper.Storage.Migrations.{
  Schema, MigrationCall, begins, locks, ensures, commits, checks, reads, executes, records, Answers,
  is_applied, M, answered, call, applied, apply_file, unless_applied, migrate_file, migrate_files,
  migrate_all, rolled_back, with_files, run_migrations, list_migration_files,
}

-- The files that are not applied, each once, in order.
unfoldable pub pending : List Text → List Text → List Text
pending [] migrations = []
pending (file ∷ files) migrations =
    let rest = pending files migrations in
    let rest' = pending files (file ∷ migrations) in
    if is_applied file migrations then rest else file ∷ rest'

-- Files in order on top of those before.
abbrev pub on_top : List Text → List Text → List Text
on_top [] before = before
on_top (file ∷ files) before = on_top files (file ∷ before)

abbrev pub Reaches : List Text → List Text → Schema → Type 0
Reaches migrations executed s = (s.migrations ≡ migrations) × (s.executed ≡ executed)

Anything : Schema → Type 0
Anything s = Unit

module _ (answers : Answers) where
  call-Reaches :
      (ms ex : List Text) (c : MigrationCall) (s : Schema)
      → Reaches ms ex s
      → Post Anything (λ _. Reaches ms ex) (call answers c s)
  call-Reaches ms ex c s h = go (answers s.calls c)
    where
      go : (o : Option Text) → Post Anything (λ _. Reaches ms ex) (answered answers o s)
      go none = h
      go (some e) = unfold Anything in tt

  -- A call, and what follows it.
  after_call :
      (ms ex : List Text) (c : MigrationCall) (rest : M (Unit {0})) (P : Schema → Type 0)
      (s : Schema)
      → Reaches ms ex s
      → ((s' : Schema) → Reaches ms ex s' → Post Anything (λ _. P) (rest s'))
      → Post Anything (λ _. P) ((do _ ← call answers c; rest) s)
  after_call ms ex c rest P s h k =
      bind_Post Anything (λ _. Reaches ms ex) (λ _. P) (call answers c s) (λ _. rest)
        (call-Reaches ms ex c s h) (λ _ s' h'. k s' h')

  apply_file-Reaches :
      (ms ex : List Text) (file : Text) (s : Schema)
      → Reaches ms ex s
      → Post Anything (λ _. Reaches (file ∷ ms) (file ∷ ex)) (apply_file answers file s)
  apply_file-Reaches ms ex file s h =
      after_call ms ex (reads file)
        (do _ ← call answers (executes file); _ ← call answers (records file); applied answers file)
        (Reaches (file ∷ ms) (file ∷ ex)) s h
        (λ s1 h1.
          after_call ms ex (executes file)
            (do _ ← call answers (records file); applied answers file)
            (Reaches (file ∷ ms) (file ∷ ex)) s1 h1
            (λ s2 h2.
              after_call ms ex (records file) (applied answers file)
                (Reaches (file ∷ ms) (file ∷ ex)) s2 h2
                (λ s3 h3. (ap (λ fs. file ∷ fs) h3.0, ap (λ fs. file ∷ fs) h3.1))))

  migrate_files-Reaches :
      (files ms ex : List Text) (s : Schema)
      → Reaches ms ex s
      → Post Anything
          (λ _. Reaches (on_top (pending files ms) ms) (on_top (pending files ms) ex))
          (migrate_files answers files s)
  unfolding migrate_files pending
  migrate_files-Reaches [] ms ex s h = h
  migrate_files-Reaches (file ∷ files) ms ex s h = elim (Bool-cases (is_applied file ms)) [
    | inl known ↦ rw known (
        bind_Post Anything (λ _. Reaches ms ex)
          (λ _. Reaches (on_top (pending files ms) ms) (on_top (pending files ms) ex))
          (migrate_file answers file s) (λ _. migrate_files answers files)
          (after_call ms ex (checks file)
            (λ t. unless_applied answers file (is_applied file t.migrations) t) (Reaches ms ex) s h
            (λ s' h'. rw (ap (is_applied file) h'.0 ∙ known) h'))
          (λ _ s' h'. migrate_files-Reaches files ms ex s' h'))
    | inr new ↦ rw new (
        bind_Post Anything (λ _. Reaches (file ∷ ms) (file ∷ ex))
          (λ _.
            Reaches (on_top (pending files (file ∷ ms)) (file ∷ ms))
              (on_top (pending files (file ∷ ms)) (file ∷ ex)))
          (migrate_file answers file s) (λ _. migrate_files answers files)
          (after_call ms ex (checks file)
            (λ t. unless_applied answers file (is_applied file t.migrations) t)
            (Reaches (file ∷ ms) (file ∷ ex)) s h
            (λ s' h'. rw (ap (is_applied file) h'.0 ∙ new) (apply_file-Reaches ms ex file s' h')))
          (λ _ s' h'. migrate_files-Reaches files (file ∷ ms) (file ∷ ex) s' h'))
  ]

  migrate_all-Reaches :
      (files ms ex : List Text) (s : Schema)
      → Reaches ms ex s
      → Post Anything
          (λ _. Reaches (on_top (pending files ms) ms) (on_top (pending files ms) ex))
          (migrate_all answers files s)
  unfolding migrate_all
  migrate_all-Reaches files ms ex s h =
      let End = Reaches (on_top (pending files ms) ms) (on_top (pending files ms) ex) in
      after_call ms ex begins _ End s h (λ s1 h1. after_call ms ex locks _ End s1 h1 (λ s2 h2.
        after_call ms ex ensures _ End s2 h2 (λ s3 h3.
          bind_Post Anything (λ _. End) (λ _. End) (migrate_files answers files s3)
            (λ _. call answers commits) (migrate_files-Reaches files ms ex s3 h3)
            (λ _ s4 h4. call-Reaches _ _ commits s4 h4))))

-- Files that are applied stay so, and nothing is pending after them.
is_applied-on_top :
    (file : Text) (files ms : List Text)
    → is_applied file ms ≡ true
    → is_applied file (on_top files ms) ≡ true
is_applied-on_top file [] ms h = h
is_applied-on_top file (f ∷ files) ms h =
    is_applied-on_top file files (f ∷ ms) (unfold is_applied in ground (arith, h))

pending-done :
    (files ms : List Text)
    → All (λ file. is_applied file (on_top (pending files ms) ms) ≡ true) files
unfolding pending is_applied
pending-done [] ms = tt
pending-done (file ∷ files) ms = elim (Bool-cases (is_applied file ms)) [
  | inl known ↦
      let same : pending (file ∷ files) ms ≡ pending files ms = rw known refl in
      subst Done (sym same)
        (is_applied-on_top file (pending files ms) ms known, pending-done files ms)
  | inr new ↦
      let same : pending (file ∷ files) ms ≡ file ∷ pending files (file ∷ ms) = rw new refl in
      let here : is_applied file (file ∷ ms) ≡ true = rw (text_eq_refl file) refl in
      subst Done (sym same) (
        is_applied-on_top file (pending files (file ∷ ms)) (file ∷ ms) here,
        pending-done files (file ∷ ms),
      )
]
  where
    Done : List Text → Type 0
    Done fs = All (λ f. is_applied f (on_top fs ms) ≡ true) (file ∷ files)

pending_none :
    (files ms : List Text) → All (λ file. is_applied file ms ≡ true) files → pending files ms ≡ []
unfolding pending
pending_none [] ms h = refl
pending_none (file ∷ files) ms h = rw h.0 (pending_none files ms h.1)

-- The state after a run: what was pending is executed and recorded, and nothing is pending then.
abbrev pub Migrated : Result Text (List Text) → Schema → Schema → Type 0
Migrated (err e) s s' = ⊥
Migrated (ok files) s s' =
    (s'.executed ≡ on_top (pending files s.migrations) s.executed)
    × (s'.migrations ≡ on_top (pending files s.migrations) s.migrations)
    × (pending files s'.migrations ≡ [])

-- A run of the migrations that succeeds has executed, in the order of the list, exactly the listed
-- files that were not recorded, and recorded them, so that another run finds nothing to execute;
-- one that fails has changed nothing.
pub run_migrations-Migrated :
    (answers : Answers) (directory : Result Text (List (Text × Bool))) (s : Schema)
    → Post
        (λ s'. Reaches s.migrations s.executed s')
        (λ _ s'. Migrated (list_migration_files directory) s s')
        (run_migrations answers directory s)
unfolding run_migrations
run_migrations-Migrated answers directory s = go (list_migration_files directory)
  where
    finish :
        (files : List Text) (x : Schema × Result Text (Unit {0}))
        → Post Anything
            (λ _.
              Reaches
                (on_top (pending files s.migrations) s.migrations)
                (on_top (pending files s.migrations) s.executed))
            x
        → Post
            (λ s'. Reaches s.migrations s.executed s')
            (λ _ s'. Migrated (ok files) s s')
            (rolled_back answers s x)
    finish files (s', err e) h = (refl, refl)
    finish files (s', ok a) h = (
      h.1,
      h.0,
      rw h.0 (
          pending_none files (on_top (pending files s.migrations) s.migrations)
            (pending-done files s.migrations)),
    )

    go :
        (files : Result Text (List Text))
        → Post
            (λ s'. Reaches s.migrations s.executed s')
            (λ _ s'. Migrated files s s')
            (with_files answers files s)
    go (err e) = (refl, refl)
    go (ok files) =
        finish files (migrate_all answers files s)
          (migrate_all-Reaches answers files s.migrations s.executed s (refl, refl))
