-- ===== src/Collector/Sink/Order.antt =====
-- The order of a collector's calls, and the time up to which it has stored.
use scraper.Base.{ℕ, ◌+◌, ◌≡◌, ◌≢◌, ◌⊎◌, true, false, List, [], ◌∷◌, none}
use scraper.Time.{int64_suc}
use scraper.Models.{Kline}
use scraper.Collector.Sink.{
  Entry, stored, published, observed, Collector, World, last_kline, last_close_ms,
}

-- The newest entry of the trace stored these K-lines.
abbrev pub JustStored : List Kline → List Entry → Type 0
JustStored ks [] = ⊥
JustStored ks (stored ks' ∷ t) = ks' ≡ ks
JustStored ks (published ks' ∷ t) = ⊥
JustStored ks (observed k ∷ t) = ⊥

-- The last of the K-lines that were stored just before, and published perhaps, is the given one.
abbrev pub EndsWith : Kline → List Kline → Type 0
EndsWith k [] = ⊥
EndsWith k (j ∷ js) = last_kline j js ≡ k

abbrev pub JustEnded : Kline → List Entry → Type 0
JustEnded k [] = ⊥
JustEnded k (stored ks ∷ t) = EndsWith k ks
JustEnded k (published ks ∷ t) = EndsWith k ks
JustEnded k (observed j ∷ t) = ⊥

-- What is published was stored just before; what the observer sees is the last K-line of what was.
abbrev pub InOrder : List Entry → Type 0
InOrder [] = Unit
InOrder (stored ks ∷ t) = InOrder t
InOrder (published ks ∷ t) = JustStored ks t × InOrder t
InOrder (observed k ∷ t) = JustEnded k t × InOrder t

-- The millisecond after the last stored K-line, if anything was stored.
abbrev pub after_batch : ℕ → List Kline → ℕ
after_batch c [] = c
after_batch c (k ∷ ks) = int64_suc (last_close_ms k ks)

abbrev pub stored_until : ℕ → List Entry → ℕ
stored_until c [] = c
stored_until c (stored ks ∷ t) = after_batch c ks
stored_until c (published ks ∷ t) = stored_until c t
stored_until c (observed k ∷ t) = stored_until c t

-- How many publications there were.
abbrev pub publications : List Entry → ℕ
publications [] = 0
publications (published ks ∷ t) = 1 + publications t
publications (stored ks ∷ t) = publications t
publications (observed k ∷ t) = publications t

-- A state after the K-lines `k ∷ ks` are stored, from the state `s`; `c` is where the trace starts.
pub record Wrote (c : ℕ) (k : Kline) (ks : List Kline) (s s' : Collector) : Type 0 where
  pub order : InOrder s'.trace
  pub cursor : s'.cursor ≡ s.cursor
  pub direction : s'.is_reverse ≡ s.is_reverse
  pub until : stored_until c s'.trace ≡ int64_suc (last_close_ms k ks)
  pub quiet : s.is_reverse ≡ true → publications s'.trace ≡ publications s.trace

-- A state with nothing more stored, and the same cursor.
pub record Unmoved (s s' : Collector) : Type 0 where
  pub trace : s'.trace ≡ s.trace
  pub cursor : s'.cursor ≡ s.cursor
  pub direction : s'.is_reverse ≡ s.is_reverse

-- A call of the store with its number.
abbrev pub InsertFails : World → List Kline → Collector → Type 0
InsertFails world ks s = world.insert s.calls ks ≢ none

-- The store has refused the K-lines.
abbrev pub RefusedBy : World → Kline → List Kline → Collector → Collector → Type 0
RefusedBy world k ks s s' = InsertFails world (k ∷ ks) s × Unmoved s s'

-- After an error, the store refused the K-lines, or it took them and they could not be published.
abbrev pub FailedOr : World → ℕ → Kline → List Kline → Collector → Collector → Type 0
FailedOr world c k ks s s' =
    RefusedBy world k ks s s' ⊎ ((s.is_reverse ≡ false) × Wrote c k ks s s')
