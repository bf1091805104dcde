-- ===== src/Storage/Router/Groups.antt =====
-- The groups of `InsertKline` and `InsertOpenInterests`: each row is in the group of its domain.
use scraper.Base.{
  ◌≡◌, refl, ap, sym, ◌∙◌, inl, inr, Bool, true, false, ◌||◌, List, [], ◌∷◌, ◌++◌, arith, All,
  All-append, Bool-cases, if◌then◌else◌, append-nil, append_assoc,
}
use mathlib.Core.Bool.{true≢false}
use scraper.Text.Laws.{text_eq_refl}
use scraper.Storage.Domain.{WriterLeaseDomain, domain_eq, domain_eq→≡}
use scraper.Storage.Router.{add_to_group, group_rows}

domain_eq_refl : (d : WriterLeaseDomain) → domain_eq d d ≡ true
unfolding domain_eq
domain_eq_refl d = ground (
  arith,
  text_eq_refl d.exchange,
  text_eq_refl d.market,
  text_eq_refl d.kind,
  text_eq_refl d.symbol,
  text_eq_refl d.interval,
)

-- What is the domain `d` is not `e`, if `c` is `d` and is not `e`.
only_one :
    (c d e : WriterLeaseDomain)
    → domain_eq c d ≡ true
    → domain_eq c e ≡ false
    → domain_eq e d ≡ false
only_one c d e hit other = elim (Bool-cases (domain_eq e d)) [
  | inl both ↦
      let ce : c ≡ e = domain_eq→≡ c d hit ∙ sym (domain_eq→≡ e d both) in
      absurd (true≢false (sym (domain_eq_refl c) ∙ (ap (domain_eq c) ce ∙ other)))
  | inr miss ↦ miss
]

module _ {A : Type 0} where
  -- The rows of a domain's group, and whether it has one.
  unfoldable pub group_of : WriterLeaseDomain → List (WriterLeaseDomain × List A) → List A
  group_of d [] = []
  group_of d ((c, batch) ∷ groups) = if domain_eq c d then batch else group_of d groups

  unfoldable pub has_group : WriterLeaseDomain → List (WriterLeaseDomain × List A) → Bool
  has_group d [] = false
  has_group d ((c, batch) ∷ groups) = domain_eq c d || has_group d groups

  -- No domain has two groups.
  abbrev pub AreDistinct : List (WriterLeaseDomain × List A) → Type 0
  AreDistinct [] = Unit
  AreDistinct ((d, batch) ∷ groups) = (has_group d groups ≡ false) × AreDistinct groups

  -- A group holds rows of its domain only.
  abbrev pub AreSorted : (A → WriterLeaseDomain) → List (WriterLeaseDomain × List A) → Type 0
  AreSorted domain groups = All (λ g. All (λ k. domain k ≡ g.0) g.1) groups

  unfoldable one_if : Bool → A → List A
  one_if b k = if b then k ∷ [] else []

  group_of-add_to_group :
      (d e : WriterLeaseDomain) (k : A) (groups : List (WriterLeaseDomain × List A))
      → group_of d (add_to_group e k groups) ≡ group_of d groups ++ one_if (domain_eq e d) k
  unfolding group_of add_to_group one_if
  group_of-add_to_group d e k [] = refl
  group_of-add_to_group d e k ((c, batch) ∷ groups) = elim (Bool-cases (domain_eq c e)) [
    | inl same ↦
        rw (same, domain_eq→≡ c e same)
          (elim (Bool-cases (domain_eq e d)) [
            | inl hit ↦ rw hit refl
            | inr miss ↦ rw miss (sym (append-nil (group_of d groups)))
          ])
    | inr other ↦ elim (Bool-cases (domain_eq c d)) [
      | inl hit ↦ rw (other, hit, only_one c d e hit other) (sym (append-nil batch))
      | inr miss ↦ rw (other, miss) (group_of-add_to_group d e k groups)
    ]
  ]

  has_group-add_to_group :
      (d e : WriterLeaseDomain) (k : A) (groups : List (WriterLeaseDomain × List A))
      → has_group d (add_to_group e k groups) ≡ (domain_eq e d || has_group d groups)
  unfolding has_group add_to_group
  has_group-add_to_group d e k [] = refl
  has_group-add_to_group d e k ((c, batch) ∷ groups) = elim (Bool-cases (domain_eq c e)) [
    | inl same ↦ rw (same, domain_eq→≡ c e same) (ground arith)
    | inr other ↦ rw other (ground (arith, has_group-add_to_group d e k groups))
  ]

  add_to_group-AreDistinct :
      (e : WriterLeaseDomain) (k : A) (groups : List (WriterLeaseDomain × List A))
      → AreDistinct groups
      → AreDistinct (add_to_group e k groups)
  unfolding add_to_group has_group
  add_to_group-AreDistinct e k [] h = (refl, tt)
  add_to_group-AreDistinct e k ((c, batch) ∷ groups) h = elim (Bool-cases (domain_eq c e)) [
    | inl same ↦ rw same h
    | inr other ↦ rw other (
      rw (has_group-add_to_group c e k groups, only_one c c e (domain_eq_refl c) other) h.0,
      add_to_group-AreDistinct e k groups h.1,
    )
  ]

  add_to_group-AreSorted :
      (domain : A → WriterLeaseDomain) (k : A) (groups : List (WriterLeaseDomain × List A))
      → AreSorted domain groups
      → AreSorted domain (add_to_group (domain k) k groups)
  unfolding add_to_group
  add_to_group-AreSorted domain k [] h = ((refl, tt), tt)
  add_to_group-AreSorted domain k ((c, batch) ∷ groups) h =
      elim (Bool-cases (domain_eq c (domain k))) [
        | inl same ↦ rw same (
          All-append (λ j. domain j ≡ c) batch (k ∷ []) h.0
              (sym (domain_eq→≡ c (domain k) same), tt),
          h.1,
        )
        | inr other ↦ rw other (h.0, add_to_group-AreSorted domain k groups h.1)
      ]

  -- The rows of a domain, in order.
  unfoldable pub rows_of : (A → WriterLeaseDomain) → WriterLeaseDomain → List A → List A
  unfolding one_if
  rows_of domain d [] = []
  rows_of domain d (k ∷ ks) = one_if (domain_eq (domain k) d) k ++ rows_of domain d ks

  -- The loop of grouping, from groups that it has made: each domain's group gains its rows, in order.
  group_of-group_rows :
      (domain : A → WriterLeaseDomain) (d : WriterLeaseDomain)
      (groups : List (WriterLeaseDomain × List A)) (ks : List A)
      → group_of d (group_rows domain groups ks) ≡ group_of d groups ++ rows_of domain d ks
  unfolding group_rows rows_of
  group_of-group_rows domain d groups [] = sym (append-nil (group_of d groups))
  group_of-group_rows domain d groups (k ∷ ks) =
      let ih = group_of-group_rows domain d (add_to_group (domain k) k groups) ks in
      let one = group_of-add_to_group d (domain k) k groups in
      rw (ih, one)
        (append_assoc (group_of d groups) (one_if (domain_eq (domain k) d) k) (rows_of domain d ks))

  group_rows-AreDistinct :
      (domain : A → WriterLeaseDomain) (groups : List (WriterLeaseDomain × List A)) (ks : List A)
      → AreDistinct groups
      → AreDistinct (group_rows domain groups ks)
  unfolding group_rows
  group_rows-AreDistinct domain groups [] h = h
  group_rows-AreDistinct domain groups (k ∷ ks) h =
      group_rows-AreDistinct domain (add_to_group (domain k) k groups) ks
        (add_to_group-AreDistinct (domain k) k groups h)

  pub group_rows-AreSorted :
      (domain : A → WriterLeaseDomain) (groups : List (WriterLeaseDomain × List A)) (ks : List A)
      → AreSorted domain groups
      → AreSorted domain (group_rows domain groups ks)
  unfolding group_rows
  group_rows-AreSorted domain groups [] h = h
  group_rows-AreSorted domain groups (k ∷ ks) h =
      group_rows-AreSorted domain (add_to_group (domain k) k groups) ks
        (add_to_group-AreSorted domain k groups h)

module _ {A : Type 0} (domain : A → WriterLeaseDomain) (P : WriterLeaseDomain → Type 0)
    (holds_of : (k : A) → P (domain k)) where
  add_to_group-All :
      (k : A) (groups : List (WriterLeaseDomain × List A))
      → All (λ g. P g.0) groups
      → All (λ g. P g.0) (add_to_group (domain k) k groups)
  unfolding add_to_group
  add_to_group-All k [] h = (holds_of k, tt)
  add_to_group-All k ((c, batch) ∷ groups) h = elim (Bool-cases (domain_eq c (domain k))) [
    | inl same ↦ rw same h
    | inr other ↦ rw other (h.0, add_to_group-All k groups h.1)
  ]

  -- What holds of the domain of every row holds of the groups' domains.
  pub group_rows-All :
      (groups : List (WriterLeaseDomain × List A)) (ks : List A)
      → All (λ g. P g.0) groups
      → All (λ g. P g.0) (group_rows domain groups ks)
  unfolding group_rows
  group_rows-All groups [] h = h
  group_rows-All groups (k ∷ ks) h =
      group_rows-All (add_to_group (domain k) k groups) ks (add_to_group-All k groups h)

-- Grouping loses no row and writes none twice: no domain has two groups, and a domain's group is the
-- list of its rows, in their order.
pub group_rows-exact :
    {A : Type 0} (domain : A → WriterLeaseDomain) (d : WriterLeaseDomain) (ks : List A)
    → (group_of d (group_rows domain [] ks) ≡ rows_of domain d ks)
      × AreDistinct (group_rows domain [] ks)
unfolding group_of
group_rows-exact domain d ks =
    (group_of-group_rows domain d [] ks, group_rows-AreDistinct domain [] ks tt)
