-- ===== src/Backfill/Verify/Summary.antt =====
-- The coverage of a request summarises that of its windows.
use scraper.Base.{
  ◌≤◌, ◌≡◌, refl, Bool, true, false, not, ◌&&◌, List, [], ◌∷◌, Option, none, some, ok, err, Result,
  All, arith, ltb, subst, Bool-cases, inl, inr,
}
use scraper.Text.{Text, codes, text_eq}
use scraper.Time.{Time}
use scraper.Backfill.Interval.{Error}
use scraper.Backfill.Window.{TimeWindow, split_by_year}
use scraper.Backfill.Request.{KlineRequest, normalize_kline_request, validate_kline_request}
use scraper.Backfill.Verify.{
  WindowCoverage, Server, earlier, later, with_window, verify_windows, verify_window_coverage,
  verify_request, verify_kline_coverage,
}

-- A start that is not after another; an end that is not before another.
abbrev pub NotAfter : Option Time → Option Time → Type 0
NotAfter c none = Unit
NotAfter none (some t) = ⊥
NotAfter (some c) (some t) = c ≤ t

abbrev pub NotBefore : Option Time → Option Time → Type 0
NotBefore c none = Unit
NotBefore none (some t) = ⊥
NotBefore (some c) (some t) = t ≤ c

-- The coverage `c` reaches from the start to the end of `segment`.
abbrev pub Spans : WindowCoverage → WindowCoverage → Type 0
Spans c segment = NotAfter c.start_at segment.start_at × NotBefore c.end_at segment.end_at

NotAfter-trans : (a b c : Option Time) → NotAfter a b → NotAfter b c → NotAfter a c
NotAfter-trans a b none h k = tt
NotAfter-trans (some a) (some b) (some c) h k = omega arith
NotAfter-trans none none (some c) h k = absurd k
NotAfter-trans none (some b) (some c) h k = absurd h
NotAfter-trans (some a) none (some c) h k = absurd k

NotBefore-trans : (a b c : Option Time) → NotBefore a b → NotBefore b c → NotBefore a c
NotBefore-trans a b none h k = tt
NotBefore-trans (some a) (some b) (some c) h k = omega arith
NotBefore-trans none none (some c) h k = absurd k
NotBefore-trans none (some b) (some c) h k = absurd h
NotBefore-trans (some a) none (some c) h k = absurd k

NotAfter-refl : (c : Option Time) → NotAfter c c
NotAfter-refl none = tt
NotAfter-refl (some c) = omega arith

NotBefore-refl : (c : Option Time) → NotBefore c c
NotBefore-refl none = tt
NotBefore-refl (some c) = omega arith

earlier-NotAfter : (c t : Option Time) → NotAfter (earlier c t) c × NotAfter (earlier c t) t
earlier-NotAfter none none = (tt, tt)
earlier-NotAfter (some c) none = (omega arith, tt)
earlier-NotAfter none (some t) = (tt, omega arith)
earlier-NotAfter (some c) (some t) = elim (Bool-cases (ltb t c)) [
  | inl less ↦ rw less (ground arith)
  | inr more ↦ rw more (ground arith)
]

later-NotBefore : (c t : Option Time) → NotBefore (later c t) c × NotBefore (later c t) t
later-NotBefore none none = (tt, tt)
later-NotBefore (some c) none = (omega arith, tt)
later-NotBefore none (some t) = (tt, omega arith)
later-NotBefore (some c) (some t) = elim (Bool-cases (ltb c t)) [
  | inl less ↦ rw less (ground arith)
  | inr more ↦ rw more (ground arith)
]

Spans-trans : (a b c : WindowCoverage) → Spans a b → Spans b c → Spans a c
Spans-trans a b c h k = (
  NotAfter-trans a.start_at b.start_at c.start_at h.0 k.0,
  NotBefore-trans a.end_at b.end_at c.end_at h.1 k.1,
)

-- What a window's check says of its readiness.
abbrev pub is_ready : Result Error WindowCoverage → Bool
is_ready (err e) = false
is_ready (ok segment) = segment.ready

unfoldable pub all_ready : (TimeWindow → Result Error WindowCoverage) → List TimeWindow → Bool
all_ready verify [] = true
all_ready verify (w ∷ ws) = is_ready (verify w) && all_ready verify ws

-- The window's check gave a coverage, and `c` spans it.
abbrev pub SpansWindow :
    (TimeWindow → Result Error WindowCoverage) → WindowCoverage → TimeWindow → Type 0
SpansWindow verify c w = (segment : WindowCoverage) × (verify w ≡ ok segment) × Spans c segment

-- A coverage of windows that could all be checked is ready exactly if all windows are, and spans what is
-- covered in each of them.
pub verify_windows-Spans :
    (verify : TimeWindow → Result Error WindowCoverage) (c r : WindowCoverage)
    (ws : List TimeWindow)
    → verify_windows verify c ws ≡ ok r
    → (r.ready ≡ (c.ready && all_ready verify ws)) × Spans r c × All (SpansWindow verify r) ws
unfolding verify_windows all_ready
verify_windows-Spans verify c r [] h =
    let same : r ≡ c = cc in
    (
      ground arith,
      subst (λ q. Spans r q) same (NotAfter-refl r.start_at, NotBefore-refl r.end_at),
      tt,
    )
verify_windows-Spans verify c r (w ∷ ws) h =
    go (verify w) refl h (λ segment k. verify_windows-Spans verify (with_window c segment) r ws k)
  where
    go :
        (o : Result Error WindowCoverage)
        → verify w ≡ o
        → (elim o as (λ _. Result Error WindowCoverage) [
          | err e ↦ err e
          | ok segment ↦ verify_windows verify (with_window c segment) ws
        ])
          ≡ ok r
        → ((segment : WindowCoverage)
            → verify_windows verify (with_window c segment) ws ≡ ok r
            → (r.ready ≡ ((with_window c segment).ready && all_ready verify ws))
              × Spans r (with_window c segment)
              × All (SpansWindow verify r) ws)
        → (r.ready ≡ (c.ready && (is_ready (verify w) && all_ready verify ws)))
          × Spans r c
          × All (SpansWindow verify r) (w ∷ ws)
    go (err e) eq k ih = cc
    go (ok segment) eq k ih =
        let (ready, spans, all) = ih segment k in
        let starts = earlier-NotAfter c.start_at segment.start_at in
        let ends = later-NotBefore c.end_at segment.end_at in
        (
          rw (eq, ready) (ground arith),
          Spans-trans r (with_window c segment) c spans (starts.0, ends.0),
          (
            (segment, eq, Spans-trans r (with_window c segment) segment spans (starts.1, ends.1)),
            all,
          ),
        )

-- If the coverage of a request can be checked, then it is ready exactly if all windows of the normalised
-- request are, and it spans what is covered in each of them.
pub verify_kline_coverage-Spans :
    (server : Server) (base : Text) (req : KlineRequest) (r : WindowCoverage)
    → verify_kline_coverage server base req ≡ ok r
    → let normal = normalize_kline_request req in
      let verify = verify_window_coverage server base normal in
      let ws = split_by_year normal.start_at normal.end_at in
      (r.ready ≡ all_ready verify ws) × All (SpansWindow verify r) ws
unfolding verify_kline_coverage
verify_kline_coverage-Spans server base req r h =
    go (validate_kline_request (normalize_kline_request req)) h
  where
    normal : KlineRequest
    normal = normalize_kline_request req

    verify : TimeWindow → Result Error WindowCoverage
    verify = verify_window_coverage server base normal

    ws : List TimeWindow
    ws = split_by_year normal.start_at normal.end_at

    go :
        (o : Option Error)
        → verify_request server base normal o ≡ ok r
        → (r.ready ≡ all_ready verify ws) × All (SpansWindow verify r) ws
    go (some e) k = unfold verify_request in cc
    go none k = elim (Bool-cases (not (text_eq normal.exchange (codes "binance")))) [
      | inl foreign ↦ unfold verify_request in ground (arith, k, foreign)
      | inr binance ↦
          let loop : verify_windows verify (record { ready = true; start_at = none; end_at = none })
                ws
              ≡ ok r =
            unfold verify_request in ground (arith, k, binance) in
          let (ready, spans, all) =
            verify_windows-Spans verify (record { ready = true; start_at = none; end_at = none }) r
              ws loop in
          (ready, all)
    ]
