-- ===== src/Control/Lease/Granted.antt =====
-- When a lease is granted.
use scraper.Base.{
  ◌<◌, ◌≡◌, refl, ap, subst, ◌↔◌, ◌⊎◌, inl, inr, true, false, not, ◌&&◌, [], ◌∷◌, Option, none,
  some, ok, err, Result, Bool-cases, arith, leb, ◌==◌,
}
use scraper.Text.{Text, codes, text_eq, is_empty, to_lower, trim_space}
use scraper.Time.{Time, Duration}
use scraper.Backfill.Request.{or_default}
use scraper.Storage.Domain.{WriterLeaseDomain}
use scraper.Control.Runtime.{or_seconds}
use scraper.Control.Lease.{WriterLease, Renew, new_writer_lease_manager, check_lease, acquire}

-- A lease that is active at a time, and does not end or ends later.
abbrev pub IsValid : Time → WriterLease → Type 0
IsValid now lease =
    (text_eq (to_lower (trim_space lease.status)) (codes "active") ≡ true)
    × ((lease.expires_at ≡ 0) ⊎ (now < lease.expires_at))

-- What the two tests of a lease decide.
passes :
    (now : Time) (lease : WriterLease)
    → not (text_eq (to_lower (trim_space lease.status)) (codes "active")) ≡ false
    → (not (lease.expires_at == 0) && leb lease.expires_at now) ≡ false
    → IsValid now lease
passes now lease active valid = elim (Bool-cases (lease.expires_at == 0)) [
  | inl endless ↦ (ground (arith, active), inl (ground (arith, endless)))
  | inr ends ↦ (ground (arith, active), inr (ground (arith, valid, ends)))
]

fails_expired :
    (now : Time) (lease : WriterLease)
    → (not (lease.expires_at == 0) && leb lease.expires_at now) ≡ true
    → IsValid now lease
    → ⊥
fails_expired now lease over (active, inl endless) = ground (arith, over, endless)
fails_expired now lease over (active, inr later) = ground (arith, over, later)

check_lease_iff :
    (now : Time) (r : Result Text WriterLease) (lease : WriterLease)
    → (check_lease now r ≡ ok lease) ↔ ((r ≡ ok lease) × IsValid now lease)
check_lease_iff now (err e) lease = (λ h. cc, λ h. cc (h.0))
check_lease_iff now (ok given) lease =
    elim (Bool-cases (not (text_eq (to_lower (trim_space given.status)) (codes "active")))) [
      | inl inactive ↦ rw inactive (
        λ h. cc,
        λ h.
            let same : lease ≡ given = cc (h.0) in
            let valid : IsValid now given = subst (IsValid now) same h.1 in
            absurd (ground (arith, inactive, valid.0)),
      )
      | inr active ↦ elim (Bool-cases (not (given.expires_at == 0) && leb given.expires_at now)) [
        | inl over ↦
            rw (active, over)
              (
                λ h. cc,
                λ h.
                    let same : lease ≡ given = cc (h.0) in
                    absurd (fails_expired now given over (subst (IsValid now) same h.1)),
              )
        | inr valid ↦
            rw (active, valid)
              (
                λ h.
                    let same : given ≡ lease = cc h in
                    (ap ok same, subst (IsValid now) same (passes now given active valid)),
                λ h. let same : given ≡ lease = cc (h.0) in ap ok same,
              )
      ]
    ]

-- What `Acquire` needs, of a client.
abbrev pub IsGranted :
    Time → Text → Text → Text → Duration → Option Renew → WriterLeaseDomain → WriterLease → Type 0
IsGranted now owner scraper_id collector_id ttl none domain lease = ⊥
IsGranted now owner scraper_id collector_id ttl (some renew) domain lease =
    (is_empty (trim_space scraper_id) ≡ false)
    × (is_empty (trim_space collector_id) ≡ false)
    × (renew domain (or_default (trim_space owner) (trim_space scraper_id)) (trim_space scraper_id)
          (trim_space collector_id) (or_seconds ttl 90_000_000_000)
        ≡ ok lease)
    × IsValid now lease

owner_given :
    (owner scraper_id : Text)
    → is_empty scraper_id ≡ false
    → is_empty (or_default owner scraper_id) ≡ false
unfolding or_default is_empty
owner_given [] scraper_id h = h
owner_given (c ∷ owner) scraper_id h = refl

-- A new manager grants a lease exactly if it has a client, the scraper and the collector have names
-- that are not blank, and the remote service gives the lease for these names, for the owner's or
-- else the scraper's, and for the time to live, and the lease is active and does not end or ends
-- later than now.
pub acquire_iff :
    (now : Time) (client : Option Renew) (owner scraper_id : Text) (ttl : Duration)
    (domain : WriterLeaseDomain) (collector_id : Text) (lease : WriterLease)
    → (acquire now (new_writer_lease_manager client owner scraper_id ttl) domain collector_id
        ≡ ok lease)
      ↔ IsGranted now owner scraper_id collector_id ttl client domain lease
unfolding acquire new_writer_lease_manager
acquire_iff now none owner scraper_id ttl domain collector_id lease = (λ h. cc, λ h. absurd h)
acquire_iff now (some renew) owner scraper_id ttl domain collector_id lease =
    elim (Bool-cases (is_empty (trim_space scraper_id))) [
      | inl blank ↦
          elim (Bool-cases (is_empty (or_default (trim_space owner) (trim_space scraper_id)))) [
            | inl unowned ↦ rw (unowned, blank) (λ h. cc, λ h. cc (h.0))
            | inr owned ↦ rw (owned, blank) (λ h. cc, λ h. cc (h.0))
          ]
      | inr named ↦
          let owned = owner_given (trim_space owner) (trim_space scraper_id) named in
          elim (Bool-cases (is_empty (trim_space collector_id))) [
            | inl blank ↦ rw (owned, named, blank) (λ h. cc, λ h. cc (h.1))
            | inr called ↦
                let granted =
                  check_lease_iff now
                    (renew domain (or_default (trim_space owner) (trim_space scraper_id))
                      (trim_space scraper_id) (trim_space collector_id)
                      (or_seconds ttl 90_000_000_000))
                    lease in
                rw (owned, named, called)
                  (λ h. let g = granted.0 h in (refl, refl, g.0, g.1), λ h. granted.1 (h.2, h.3))
          ]
    ]
