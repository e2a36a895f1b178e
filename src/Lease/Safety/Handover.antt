-- ===== src/Lease/Safety/Handover.antt =====
-- One client after the other: `eligible` of lease/operations.go at a waiting client, and `Check` of
-- lease/core.go at the holder.
use s3_lease.Prelude.{ℕ, ◌+◌, ◌-◌, ◌*◌, ◌/◌, ◌≤◌, ◌≡◌, ap, ◌≢◌, none, arith, true, false, str_eq}
use s3_lease.Lease.Config.{Config, second, settings_of, validate_config}
use s3_lease.Lease.Config.Valid.{Valid, validate_iff}
use s3_lease.Lease.State.{Core, Observed, check}
use s3_lease.Lease.Reads.{eligible}
use s3_lease.Lease.Safety.Checks.{check_iff}

-- The waiting client finds the record that the holder wrote, not before the holder first sent it, on
-- clocks that agree.
pub record Waiting (config : Config) (sent : ℕ) (o : Observed) : Type 0 where
  pub is_held : str_eq o.current.spec.client_id "" ≡ false
  pub duration :
      o.current.spec.lease_duration_seconds ≡ (settings_of config).lease_duration / second
  pub since : sent ≤ o.unchanged_since

pub whole_duration :
    (config : Config)
    → Valid config
    → (settings_of config).lease_duration / second * second ≡ (settings_of config).lease_duration
whole_duration config v = omega (arith, v.whole_seconds)

-- When a waiting client finds a held record eligible, whose duration is that of a configuration
-- that is accepted and which it did not see before the holder first sent it, no Check of the
-- holder's lease succeeds at that time, where the lease ends one renew deadline after that first
-- send and the clocks agree.
pub handover :
    (config : Config) (holder : Core) (i sent now : ℕ) (o : Observed)
    → validate_config config ≡ none
    → holder.config ≡ settings_of config
    → (holder.leases i).valid_until ≡ sent + holder.config.renew_deadline
    → Waiting config sent o
    → eligible o now ≡ true
    → (check holder i now).0 ≢ none
unfolding eligible
handover config holder i sent now o valid same deadline w can passed =
    let v = (validate_iff config).0 valid in
    let live = (check_iff holder i now).0 passed in
    let d = ap (λ s. s.renew_deadline) same in
    let waited : o.current.spec.lease_duration_seconds * second ≤ now - o.unchanged_since =
      ground (arith, can, w.is_held) in
    let whole : o.current.spec.lease_duration_seconds * second
        ≡ (settings_of config).lease_duration =
      rw w.duration (whole_duration config v) in
    omega (
      arith, live.in_time, deadline, d, waited, whole, v.renew_first, w.since, v.positive,
      v.request_first,
    )
