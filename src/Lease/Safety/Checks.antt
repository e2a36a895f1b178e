-- ===== src/Lease/Safety/Checks.antt =====
-- What `Check` of lease/core.go tells, now and for the rest of the core's life.
use s3_lease.Prelude.{ℕ, ◌<◌, ◌≡◌, ◌↔◌, none, some, List, arith, Option-cases, inl, inr}
use s3_lease.Lease.Errors.{Error, sentinel, lease_expired}
use s3_lease.Lease.State.{Core, check, retire_lease}
use s3_lease.Lease.World.{Backend, World}
use s3_lease.Lease.Client.{Call, run}
use s3_lease.Lease.Safety.Invariant.{CoreInv}
use s3_lease.Lease.Safety.Authority.{never_revived}

-- A lease with authority at a time.
pub record Live (c : Core) (i now : ℕ) : Type 0 where
  pub is_active : c.active ≡ some i
  pub unretired : (c.leases i).retired ≡ none
  pub in_time : now < (c.leases i).valid_until

check-Live : (c : Core) (i now : ℕ) → (check c i now).0 ≡ none → Live c i now
unfolding check
check-Live c i now e = record {
  is_active = ground arith;
  unretired = ground arith;
  in_time = ground arith;
}

Live-check : (c : Core) (i now : ℕ) → Live c i now → (check c i now).0 ≡ none
unfolding check
Live-check c i now l = ground (arith, l.is_active, l.unretired, l.in_time)

-- `Check` succeeds exactly for the active lease, unretired and before its deadline.
pub check_iff : (c : Core) (i now : ℕ) → ((check c i now).0 ≡ none) ↔ Live c i now
check_iff c i now = (check-Live c i now, Live-check c i now)

-- A `Check` that fails leaves its lease retired.
check-retired :
    (c : Core) (i now : ℕ) (e : Error)
    → CoreInv c
    → i < c.next_lease
    → (check c i now).0 ≡ some e
    → (i < (check c i now).1.next_lease)
      × ((cause : Error) × (((check c i now).1.leases i).retired ≡ some cause))
unfolding check retire_lease
check-retired c i now e v granted failed = (
  ground (arith, granted),
  elim (Option-cases (c.leases i).retired) [
    | inl unretired ↦
        (sentinel lease_expired, ground (arith, (v.lease_at i).single granted unretired))
    | inr (cause, r) ↦ (cause, ground arith)
  ],
)

retired-check :
    (c : Core) (i now : ℕ) (cause : Error)
    → (c.leases i).retired ≡ some cause
    → (check c i now).0 ≡ some cause
unfolding check
retired-check c i now cause r = ground (arith, r)

-- In a well-formed core, a `Check` of a granted lease that fails is final: whatever the client
-- does after it, each later `Check` of that lease fails, with one cause.
pub check_failure_final :
    {S : Type 0} (backend : Backend S) (w : World S) (i : ℕ) (e : Error) (calls : List Call)
    → CoreInv w.core
    → i < w.core.next_lease
    → (check w.core i w.now).0 ≡ some e
    → (cause : Error) × ((later : ℕ)
        → (check (run backend (record w { core = (check w.core i w.now).1 }) calls).core i later).0
          ≡ some cause)
check_failure_final backend w i e calls v granted failed =
    let (still, (cause, r)) = check-retired w.core i w.now e v granted failed in
    let (kept, _) =
      never_revived backend (record w { core = (check w.core i w.now).1 }) calls i cause still r in
    (cause, λ later. retired-check _ i later cause kept)
