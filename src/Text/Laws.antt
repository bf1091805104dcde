-- ===== src/Text/Laws.antt =====
-- Equality of texts is decided by `text_eq`, and the normalising functions are idempotent.
use scraper.Base.{ℕ, ◌≡◌, refl, ◌↔◌, true, false, [], ◌∷◌, map, arith, inl, inr, Bool-cases}
use scraper.Text.{
  Text, text_eq, lower_char, upper_char, is_space, to_lower, to_upper, trim_left, trim_right,
  keep_right, trim_space,
}

pub text_eq→≡ : (s t : Text) → text_eq s t ≡ true → s ≡ t
unfolding text_eq
text_eq→≡ [] [] h = refl
text_eq→≡ [] (b ∷ t) h = cc
text_eq→≡ (a ∷ s) [] h = cc
text_eq→≡ (a ∷ s) (b ∷ t) h = ground (arith, text_eq→≡ s t)

pub text_eq_refl : (s : Text) → text_eq s s ≡ true
unfolding text_eq
text_eq_refl [] = refl
text_eq_refl (a ∷ s) = ground (arith, text_eq_refl s)

pub text_eq_iff : (s t : Text) → (text_eq s t ≡ true) ↔ (s ≡ t)
text_eq_iff s t = (text_eq→≡ s t, λ e. rw e (text_eq_refl t))

lower_char_idem : (c : ℕ) → lower_char (lower_char c) ≡ lower_char c
unfolding lower_char
lower_char_idem c = ground arith

upper_char_idem : (c : ℕ) → upper_char (upper_char c) ≡ upper_char c
unfolding upper_char
upper_char_idem c = ground arith

is_space-lower_char : (c : ℕ) → is_space (lower_char c) ≡ is_space c
unfolding is_space lower_char
is_space-lower_char c = ground arith

is_space-upper_char : (c : ℕ) → is_space (upper_char c) ≡ is_space c
unfolding is_space upper_char
is_space-upper_char c = ground arith

pub to_lower_idem : (s : Text) → to_lower (to_lower s) ≡ to_lower s
unfolding to_lower
to_lower_idem [] = refl
to_lower_idem (c ∷ s) = cc (lower_char_idem c, to_lower_idem s)

pub to_upper_idem : (s : Text) → to_upper (to_upper s) ≡ to_upper s
unfolding to_upper
to_upper_idem [] = refl
to_upper_idem (c ∷ s) = cc (upper_char_idem c, to_upper_idem s)

-- A map that keeps white space and everything else apart.
KeepsSpace : (ℕ → ℕ) → Type 0
KeepsSpace f = (c : ℕ) → is_space (f c) ≡ is_space c

trim_left-map : (f : ℕ → ℕ) (s : Text) → KeepsSpace f → trim_left (map f s) ≡ map f (trim_left s)
unfolding trim_left KeepsSpace
trim_left-map f [] k = refl
trim_left-map f (c ∷ s) k = ground (arith, k c, trim_left-map f s k)

keep_right-map :
    (f : ℕ → ℕ) (c : ℕ) (s : Text)
    → KeepsSpace f
    → keep_right (f c) (map f s) ≡ map f (keep_right c s)
unfolding keep_right KeepsSpace
keep_right-map f c [] k = ground (arith, k c)
keep_right-map f c (d ∷ s) k = refl

trim_right-map : (f : ℕ → ℕ) (s : Text) → KeepsSpace f → trim_right (map f s) ≡ map f (trim_right s)
unfolding trim_right
trim_right-map f [] k = refl
trim_right-map f (c ∷ s) k = rw (trim_right-map f s k) (keep_right-map f c (trim_right s) k)

pub trim_space-to_lower : (s : Text) → trim_space (to_lower s) ≡ to_lower (trim_space s)
unfolding trim_space to_lower KeepsSpace
trim_space-to_lower s =
    rw (trim_left-map lower_char s is_space-lower_char)
      (trim_right-map lower_char (trim_left s) is_space-lower_char)

pub trim_space-to_upper : (s : Text) → trim_space (to_upper s) ≡ to_upper (trim_space s)
unfolding trim_space to_upper KeepsSpace
trim_space-to_upper s =
    rw (trim_left-map upper_char s is_space-upper_char)
      (trim_right-map upper_char (trim_left s) is_space-upper_char)

lower_char-upper_char : (c : ℕ) → lower_char (upper_char c) ≡ lower_char c
unfolding lower_char upper_char
lower_char-upper_char c = ground arith

pub to_lower-to_upper : (s : Text) → to_lower (to_upper s) ≡ to_lower s
unfolding to_lower to_upper
to_lower-to_upper [] = refl
to_lower-to_upper (c ∷ s) = cc (lower_char-upper_char c, to_lower-to_upper s)

trim_left_idem : (s : Text) → trim_left (trim_left s) ≡ trim_left s
unfolding trim_left
trim_left_idem [] = refl
trim_left_idem (c ∷ s) = ground (arith, trim_left_idem s)

keep_right_idem :
    (c : ℕ) (s : Text) → trim_right s ≡ s → trim_right (keep_right c s) ≡ keep_right c s
unfolding keep_right trim_right
keep_right_idem c [] h = ground arith
keep_right_idem c (d ∷ s) h = rw h

trim_right_idem : (s : Text) → trim_right (trim_right s) ≡ trim_right s
unfolding trim_right
trim_right_idem [] = refl
trim_right_idem (c ∷ s) = keep_right_idem c (trim_right s) (trim_right_idem s)

-- The white bytes at the right end do not move the left end.
trim_left-keep_right :
    (c : ℕ) (s : Text) → is_space c ≡ false → trim_left (keep_right c s) ≡ keep_right c s
unfolding keep_right trim_left
trim_left-keep_right c [] h = ground arith
trim_left-keep_right c (d ∷ s) h = ground arith

trim_left-trim_right : (s : Text) → trim_left (trim_right (trim_left s)) ≡ trim_right (trim_left s)
unfolding trim_left
trim_left-trim_right [] = unfold trim_right in refl
trim_left-trim_right (c ∷ s) = elim (Bool-cases (is_space c)) [
  | inl white ↦ rw white (trim_left-trim_right s)
  | inr black ↦ rw black (unfold trim_right in trim_left-keep_right c (trim_right s) black)
]

pub trim_space_idem : (s : Text) → trim_space (trim_space s) ≡ trim_space s
unfolding trim_space
trim_space_idem s = rw (trim_left-trim_right s, trim_right_idem (trim_left s))

-- Lower case and trimming, done once, are done for good; so for upper case.
pub normal_lower_idem :
    (s : Text) → to_lower (trim_space (to_lower (trim_space s))) ≡ to_lower (trim_space s)
normal_lower_idem s = simp (trim_space-to_lower, trim_space_idem, to_lower_idem)

pub normal_upper_idem :
    (s : Text) → to_upper (trim_space (to_upper (trim_space s))) ≡ to_upper (trim_space s)
normal_upper_idem s = simp (trim_space-to_upper, trim_space_idem, to_upper_idem)
