-- ===== src/Control/Lease.antt =====
-- internal/controlplane/writer_lease.go: `WriterLeaseManager`. The remote service that creates and
-- renews leases is a parameter.
pub mod Granted
use scraper.Base.{
  ℕ, Bool, true, false, not, ◌&&◌, Option, none, some, ok, err, Result, leb, ◌==◌, if◌then◌else◌,
}
use scraper.Text.{Text, codes, text_eq, is_empty, to_lower, trim_space}
use scraper.Time.{Time, Duration}
use scraper.Backfill.Request.{or_default}
use scraper.Storage.Domain.{WriterLeaseDomain}
use scraper.Control.Runtime.{or_seconds}

-- internal/storage/write_router.go: `WriterLease`.
pub record WriterLease : Type 0 where
  pub lease_id : Text
  pub owner_instance_id : Text
  pub scraper_instance_id : Text
  pub collector_id : Text
  pub status : Text
  pub expires_at : Time

-- `CreateOrRenewWriterLease`: a domain, an owner, a scraper, a collector and a time to live.
abbrev pub Renew : Type 0
Renew = WriterLeaseDomain → Text → Text → Text → ℕ → Result Text WriterLease

pub record WriterLeaseManager : Type 0 where
  pub client : Option Renew
  pub owner_instance_id : Text
  pub scraper_instance_id : Text
  pub ttl : ℕ

pub data LeaseError : Type 0 where
  no_client no_owner no_scraper no_collector : LeaseError
  refused : Text → LeaseError
  not_active : Text → Text → LeaseError
  expired : Text → Time → LeaseError

-- `NewWriterLeaseManager`
unfoldable pub new_writer_lease_manager : Option Renew → Text → Text → Duration → WriterLeaseManager
unfolding or_default
new_writer_lease_manager client owner scraper_id ttl = record {
  client = client;
  owner_instance_id = or_default (trim_space owner) (trim_space scraper_id);
  scraper_instance_id = trim_space scraper_id;
  ttl = or_seconds ttl 90_000_000_000;
}

-- The end of `Acquire`, at a time.
abbrev pub check_lease : Time → Result Text WriterLease → Result LeaseError WriterLease
check_lease now (err e) = err (refused e)
check_lease now (ok lease) =
    if not (text_eq (to_lower (trim_space lease.status)) (codes "active"))
    then err (not_active lease.lease_id lease.status)
    else if not (lease.expires_at == 0) && leb lease.expires_at now
    then err (expired lease.lease_id lease.expires_at)
    else ok lease

abbrev pub with_client :
    Time
    → WriterLeaseManager
    → WriterLeaseDomain
    → Text
    → Option Renew
    → Result LeaseError WriterLease
with_client now m domain collector_id none = err no_client
with_client now m domain collector_id (some renew) =
    if is_empty m.owner_instance_id
    then err no_owner
    else if is_empty m.scraper_instance_id
    then err no_scraper
    else if is_empty (trim_space collector_id)
    then err no_collector
    else check_lease now
        (renew domain m.owner_instance_id m.scraper_instance_id (trim_space collector_id) m.ttl)

-- `Acquire`
unfoldable pub acquire :
    Time → WriterLeaseManager → WriterLeaseDomain → Text → Result LeaseError WriterLease
unfolding is_empty
acquire now m domain collector_id = with_client now m domain collector_id m.client
