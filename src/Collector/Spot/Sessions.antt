-- ===== src/Collector/Spot/Sessions.antt =====
-- The rounds of the spot collector: catch-up and connection in turn.
use scraper.Base.{
  ℕ, ◌<◌, ◌≤◌, ◌≡◌, refl, inl, inr, List, [], ◌∷◌, Option, none, some, ok, err, Result, arith,
}
use scraper.Base.State.{Post}
use scraper.Text.{Text}
use scraper.Models.{Kline}
use scraper.Collector.Rows.{Message}
use scraper.Collector.Sink.{Collector, World}
use scraper.Collector.Sink.Order.{publications}
use scraper.Collector.Spot.{catch_up_forward, read_messages, dial_and_read, after_catch_up, forward}
use scraper.Collector.Spot.Cursor.{Ended, catch_up_forward-Ended}
use scraper.Collector.Spot.Messages.{Resumes, ResumesOr, read_messages-ResumesOr}

-- A round that has ended, and a property of the collector after it.
abbrev pub SomeResumes : ℕ → Option Collector → Type 0
SomeResumes c none = ⊥
SomeResumes c (some s) = Resumes c s

module _ (world : World) (c : ℕ)
    (takes : (n : ℕ) (ks : List Kline) → world.insert n ks ≡ none) where
  dial_and_read-Resumes :
      (session : Option (List Message)) (s : Collector)
      → Resumes c s
      → Resumes c (dial_and_read world session s)
  dial_and_read-Resumes none s h = h
  dial_and_read-Resumes (some ms) s h =
      go (read_messages world ms s) (read_messages-ResumesOr world c ms s h)
    where
      go :
          (x : Collector × Result Text (Unit {0}))
          → Post (ResumesOr world c) (λ _. Resumes c) x
          → Resumes c x.0
      go (s', ok a) h' = h'
      go (s', err e) (inl h') = h'
      go (s', err e) (inr (lost, before, h', fails, same, passed)) =
          absurd (fails (takes before.calls (lost ∷ [])))

  after_catch_up-SomeResumes :
      (p : ℕ) (session : Option (List Message)) (x : Option (Collector × Result Text (Unit {0})))
      → Ended world c p x
      → SomeResumes c (after_catch_up world session x)
  after_catch_up-SomeResumes p session none h = h
  after_catch_up-SomeResumes p session (some (s, err e)) h = record { order = h.order; at = h.at }
  after_catch_up-SomeResumes p session (some (s, ok a)) h =
      dial_and_read-Resumes session s (record { order = h.order; at = h.at })

  module _ (last fuel : ℕ) (clock : (n : ℕ) → world.now n ≤ last) (enough : last < fuel) where
    -- From a collector that resumes after its last stored K-line, the rounds end, each catch-up included,
    -- and leave it so, whatever the exchange and the publisher answer, if the store takes everything and
    -- the clock does not pass a time `last` that is less than the fuel.
    pub forward-Resumes :
        (sessions : List (Option (List Message))) (s : Collector)
        → Resumes c s
        → SomeResumes c (forward world fuel sessions s)
    unfolding forward
    forward-Resumes [] s h = h
    forward-Resumes (session ∷ sessions) s h =
        go (after_catch_up world session (catch_up_forward world fuel s))
          (after_catch_up-SomeResumes (publications s.trace) session (catch_up_forward world fuel s)
            (catch_up_forward-Ended world last c (publications s.trace) fuel s clock (omega arith)
              (record { order = h.order; at = h.at; published = refl })))
          (λ s'. forward-Resumes sessions s')
      where
        go :
            (x : Option Collector)
            → SomeResumes c x
            → ((s' : Collector) → Resumes c s' → SomeResumes c (forward world fuel sessions s'))
            → SomeResumes c (elim x [ none ↦ none | some s' ↦ forward world fuel sessions s' ])
        go none h' later = h'
        go (some s') h' later = later s' h'
