-- ===== src/Storage/RouteText.antt =====
-- The text of a route key names one exchange and one year.
use scraper.Base.{
  ℕ, zero, suc, ◌+◌, ◌*◌, ◌/◌, ◌%◌, ◌<◌, ◌≤◌, ◌≡◌, refl, ap, sym, ◌↔◌, ◌∙◌, inl, inr, Bool, true,
  false, [], ◌∷◌, ◌++◌, arith, some, ltb, Bool-cases, ◌||◌, ◌==◌, ◌-◌,
}
use mathlib.Core.Bool.{true≢false}
use scraper.Base.Int.{digits_value}
use scraper.Text.{Text}
use scraper.Storage.Names.{itoa, itoa_from}
use scraper.Storage.Domain.{RouteKey, route_text}

-- A digit more at the end.
digits_value-snoc :
    (s : Text) (acc n d : ℕ)
    → digits_value acc s ≡ some n
    → d < 10
    → digits_value acc (s ++ ((b'0' + d) ∷ [])) ≡ some (10 * n + d)
unfolding digits_value
digits_value-snoc [] acc n d h lt = ground arith
digits_value-snoc (c ∷ s) acc n d h lt =
    ground (arith, digits_value-snoc s (10 * acc + (c - b'0')) n d)

-- With enough rounds, the digits of a number read as the number.
digits_value-itoa_from : (fuel n : ℕ) → n ≤ fuel → digits_value 0 (itoa_from fuel n) ≡ some n
unfolding itoa_from
digits_value-itoa_from zero n le = unfold digits_value in ground arith
digits_value-itoa_from (suc fuel) n le = elim (Bool-cases (ltb n 10)) [
  | inl small ↦ rw (itoa_from, small) (unfold digits_value in ground arith)
  | inr large ↦
      let ih = digits_value-itoa_from fuel (n / 10) (omega arith) in
      rw (itoa_from, large)
        (digits_value-snoc (itoa_from fuel (n / 10)) 0 (n / 10) (n % 10) ih (omega arith)
          ∙ ap some (omega arith))
]

digits_value-itoa : (n : ℕ) → digits_value 0 (itoa n) ≡ some n
unfolding itoa
digits_value-itoa n = digits_value-itoa_from n n (omega arith)

unfoldable has_char : ℕ → Text → Bool
has_char c [] = false
has_char c (d ∷ s) = d == c || has_char c s

digits-no_underscore :
    (s : Text) (acc n : ℕ) → digits_value acc s ≡ some n → has_char b'_' s ≡ false
unfolding digits_value has_char
digits-no_underscore [] acc n h = refl
digits-no_underscore (c ∷ s) acc n h =
    ground (arith, digits-no_underscore s (10 * acc + (c - b'0')) n)

has_char-middle : (c : ℕ) (s t : Text) → has_char c (s ++ (c ∷ t)) ≡ true
unfolding has_char
has_char-middle c [] t = ground arith
has_char-middle c (d ∷ s) t = ground (arith, has_char-middle c s t)

-- The last separator splits a text in one way.
split_last :
    (c : ℕ) (s t u v : Text)
    → has_char c u ≡ false
    → has_char c v ≡ false
    → s ++ (c ∷ u) ≡ t ++ (c ∷ v)
    → (s ≡ t) × (u ≡ v)
split_last c [] [] u v hu hv e = (refl, cc)
split_last c [] (d ∷ t) u v hu hv e =
    let tail : u ≡ t ++ (c ∷ v) = cc in
    absurd (true≢false (sym (has_char-middle c t v) ∙ (ap (has_char c) (sym tail) ∙ hu)))
split_last c (d ∷ s) [] u v hu hv e =
    let tail : v ≡ s ++ (c ∷ u) = cc in
    absurd (true≢false (sym (has_char-middle c s u) ∙ (ap (has_char c) (sym tail) ∙ hv)))
split_last c (d ∷ s) (f ∷ t) u v hu hv e =
    let rest = split_last c s t u v hu hv cc in let head : d ≡ f = cc in (cc, rest.1)

-- Two route keys with one text are the same exchange and the same year, although an exchange may have
-- underscores and digits.
pub route_text_injective : (a b : RouteKey) → route_text a ≡ route_text b → a ≡ b
unfolding route_text
route_text_injective a b e =
    let da = digits_value-itoa a.year_of in
    let db = digits_value-itoa b.year_of in
    let parts =
      split_last b'_' a.exchange b.exchange (itoa a.year_of) (itoa b.year_of)
        (digits-no_underscore (itoa a.year_of) 0 a.year_of da)
        (digits-no_underscore (itoa b.year_of) 0 b.year_of db) e in
    let years : some a.year_of ≡ some b.year_of = sym da ∙ (ap (digits_value 0) parts.1 ∙ db) in
    cc (parts.0, years)

-- The text of a route key determines the key: two keys have one text exactly if they are one exchange
-- and one year, although an exchange may have underscores and digits.
pub route_text_iff : (a b : RouteKey) → (route_text a ≡ route_text b) ↔ (a ≡ b)
route_text_iff a b = (route_text_injective a b, λ e. ap route_text e)
