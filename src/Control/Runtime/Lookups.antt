-- ===== src/Control/Runtime/Lookups.antt =====
-- The handle of a stream after another one is put, and after the streams that were not seen are dropped.
use scraper.Base.{
  ◌≡◌, refl, ap, ◌∙◌, inl, inr, false, List, [], ◌∷◌, none, Bool-cases, if◌then◌else◌,
}
use scraper.Base.Int.{ℤ}
use scraper.Control.Stream.{int_eq}
use scraper.Control.Handle.{ManagedStream, lookup, put}
use scraper.Control.Tracking.Listed.{int_eq→≡}
use scraper.Control.Runtime.{is_seen, seen_streams}

pub lookup-put_other :
    (id j : ℤ) (h : ManagedStream) (m : List (ℤ × ManagedStream))
    → int_eq j id ≡ false
    → lookup id (put j h m) ≡ lookup id m
unfolding lookup put
lookup-put_other id j h [] other = rw other refl
lookup-put_other id j h ((k, g) ∷ m) other = elim (Bool-cases (int_eq k j)) [
  | inl same ↦
      let here : int_eq k id ≡ false = ap (λ i. int_eq i id) (int_eq→≡ k j same) ∙ other in
      rw (same, here) refl
  | inr apart ↦ elim (Bool-cases (int_eq k id)) [
    | inl found ↦ rw (apart, found) refl
    | inr further ↦ rw (apart, further) (lookup-put_other id j h m other)
  ]
]

-- `stopMissingStreams` keeps the handles that were seen.
pub lookup-seen_streams :
    (id : ℤ) (seen : List ℤ) (m : List (ℤ × ManagedStream))
    → lookup id (seen_streams seen m) ≡ (if is_seen id seen then lookup id m else none)
unfolding lookup seen_streams
lookup-seen_streams id seen [] = elim (Bool-cases (is_seen id seen)) [
  | inl there ↦ rw there refl
  | inr gone ↦ rw gone refl
]
lookup-seen_streams id seen ((j, h) ∷ m) = elim (Bool-cases (int_eq j id)) [
  | inl found ↦
      let same : is_seen j seen ≡ is_seen id seen =
        ap (λ i. is_seen i seen) (int_eq→≡ j id found) in
      elim (Bool-cases (is_seen id seen)) [
        | inl there ↦ rw (same, there, found) refl
        | inr gone ↦ rw (same, gone) (lookup-seen_streams id seen m ∙ (rw gone refl))
      ]
  | inr other ↦ elim (Bool-cases (is_seen j seen)) [
    | inl there ↦ rw (there, other) (lookup-seen_streams id seen m)
    | inr gone ↦ rw (gone, other) (lookup-seen_streams id seen m)
  ]
]
