-- ===== src/Lease/Safety/Changes.antt =====
-- The steps taken apart into the few ways in which a core changes, each with what is known when it
-- is taken.
use s3_lease.Prelude.{
  ℕ, ◌≡◌, String, Bool, false, Option, none, some, inl, inr, arith, Option-cases, Bool-cases,
}
use s3_lease.Lease.Errors.{Error, sentinel, ownership_lost, lease_expired, lease_retired}
use s3_lease.Lease.State.{Core, Proposal, retire_lease, proposal_phase_end}
use s3_lease.Lease.Proposals.{
  drop_pending, expire_active, expire_pending, prepare_require, validate_active, begin_renew,
  begin_release, set_pending, freeze_renewal, freeze_release, abandon_pending, lose_pending,
  clear_pending, grant, confirm_acquisition, renewal_stale, extend_lease, confirm_renewal,
  confirm_release, last_read,
}
use s3_lease.Lease.Safety.Quiet.{
  Quiet, rest, resting, retires, observes, act-Quiet, install_read-Quiet,
}
use s3_lease.Lease.Safety.Steps.Rules.{
  Step, Steps, stay, go_on, acts, locks, installs, prepares, begins_renew, begins_release,
  freezes_renewal, freezes_release, abandons, loses, clears, grants, renews, releases,
}

pub data Change (c : Core) : Core → Type 0 where
  same : Change c c
  quietly : {d e : Core} → Quiet d e → Change c d → Change c e
  locked : {d : Core} (b : Bool) → Change c d → Change c (record d { mutating = b })
  dropped : {d : Core} → Change c d → Change c (record d { pending = none })
  frozen : {d : Core} (p : Proposal) → Change c d → Change c (set_pending d p).1
  granted :
      {d : Core} (p : Proposal) (version : String) (deadline : ℕ)
      → d.active ≡ none
      → d.terminal ≡ none
      → Change c d
      → Change c (grant d p version deadline).1
  extended :
      {d : Core} (p : Proposal) (version : String) (now : ℕ)
      → renewal_stale d p now ≡ false
      → Change c d
      → Change c (extend_lease d p version)

pub Change-trans : {c d e : Core} → Change c d → Change d e → Change c e
Change-trans p same = p
Change-trans p (quietly q k) = quietly q (Change-trans p k)
Change-trans p (locked b k) = locked b (Change-trans p k)
Change-trans p (dropped k) = dropped (Change-trans p k)
Change-trans p (frozen r k) = frozen r (Change-trans p k)
Change-trans p (granted r v t h h' k) = granted r v t h h' (Change-trans p k)
Change-trans p (extended r v n h k) = extended r v n h (Change-trans p k)

pub unchanged : (c : Core) → Change c c
unchanged c = same

retired_now : (c : Core) (i : ℕ) (cause : Error) → Change c (retire_lease c i cause)
retired_now c i cause = quietly (retires i cause rest) same

drop_pending-Change : (c : Core) (p : Proposal) → Change c (drop_pending c p)
drop_pending-Change c p = ground (arith, unchanged c, dropped (unchanged c))

abandon_pending-Change : (c : Core) (p : Proposal) → Change c (abandon_pending c p)
unfolding abandon_pending
abandon_pending-Change c p = ground (
  arith,
  drop_pending-Change c p,
  Change-trans (drop_pending-Change c p)
      (retired_now (drop_pending c p) p.acquired (sentinel lease_expired)),
)

lose_pending-Change : (c : Core) (p : Proposal) → Change c (lose_pending c p).1
unfolding lose_pending
lose_pending-Change c p = ground (
  arith,
  drop_pending-Change c p,
  Change-trans (drop_pending-Change c p)
      (retired_now (drop_pending c p) p.acquired (sentinel ownership_lost)),
)

expire_active-Change :
    (c : Core) (active : Option ℕ) (now : ℕ) → Change c (expire_active c active now)
expire_active-Change c none now = same
expire_active-Change c (some i) now =
    ground (arith, unchanged c, retired_now c i (sentinel lease_expired))

expire_pending-Change :
    (c : Core) (pending : Option Proposal) (now : ℕ) → Change c (expire_pending c pending now)
expire_pending-Change c none now = same
expire_pending-Change c (some p) now = ground (arith, unchanged c, abandon_pending-Change c p)

prepare_require-Change : (c : Core) (now : ℕ) → Change c (prepare_require c now).1
unfolding prepare_require
prepare_require-Change c now =
    let d = expire_active c c.active now in
    ground (
      arith,
      unchanged c,
      Change-trans (expire_active-Change c c.active now) (expire_pending-Change d d.pending now),
    )

validate_active-Change : (c : Core) (i now : ℕ) → Change c (validate_active c i now).1
unfolding validate_active
validate_active-Change c i now = ground (
  arith,
  unchanged c,
  retired_now c i (sentinel lease_expired),
  retired_now c i (sentinel ownership_lost),
)

begin_renew-Change : (c : Core) (i now : ℕ) → Change c (begin_renew c i now).1
unfolding begin_renew
begin_renew-Change c i now = ground (arith, validate_active-Change c i now)

begin_release-Change : (c : Core) (i now : ℕ) → Change c (begin_release c i now).1
unfolding begin_release
begin_release-Change c i now =
    let d = (validate_active c i now).1 in
    ground (
      arith,
      validate_active-Change c i now,
      Change-trans (validate_active-Change c i now) (retired_now d i (sentinel lease_retired)),
    )

freeze_renewal-Change : (c : Core) (p : Proposal) (now : ℕ) → Change c (freeze_renewal c p now).1
unfolding freeze_renewal
freeze_renewal-Change c p now = ground (
  arith,
  validate_active-Change c p.acquired now,
  frozen p (validate_active-Change c p.acquired now),
)

confirm_acquisition-Change :
    (c : Core) (p : Proposal) (version : String) (canceled : Bool) (now : ℕ)
    → c.active ≡ none
    → Change c (confirm_acquisition c p version canceled now).1
unfolding confirm_acquisition
confirm_acquisition-Change c p version canceled now h = elim (Option-cases c.terminal) [
  | inl running ↦
      ground
        (arith, unchanged c, granted p version (proposal_phase_end c p) h running (unchanged c))
  | inr (e, latched) ↦ ground (arith, unchanged c)
]

confirm_renewal-Change :
    (c : Core) (p : Proposal) (version : String) (now : ℕ)
    → Change c (confirm_renewal c p version now).1
unfolding confirm_renewal
confirm_renewal-Change c p version now = elim (Bool-cases (renewal_stale c p now)) [
  | inl stale ↦ ground (
    arith,
    stale,
    Change-trans (drop_pending-Change c p)
        (retired_now (drop_pending c p) p.acquired (sentinel lease_expired)),
  )
  | inr fresh ↦ ground (arith, fresh, unchanged c, extended p version now fresh (unchanged c))
]

confirm_release-Change :
    (c : Core) (p : Proposal) (version : String) → Change c (confirm_release c p version).1
unfolding confirm_release
confirm_release-Change c p version = ground (
  arith,
  unchanged c,
  dropped (
      quietly
        (observes p.proposed p.body version p.first_send_at (last_read c.observed) (resting c))
        same),
)

Step-Change : {c d : Core} → Step c d → Change c d
unfolding freeze_release clear_pending
Step-Change {c} (acts now o) = quietly (act-Quiet c now o) same
Step-Change (locks b) = locked b same
Step-Change {c} (installs started read_at reply) =
    quietly (install_read-Quiet c started read_at reply) same
Step-Change {c} (prepares now) = prepare_require-Change c now
Step-Change {c} (begins_renew i now) = begin_renew-Change c i now
Step-Change {c} (begins_release i now) = begin_release-Change c i now
Step-Change {c} (freezes_renewal p now) = freeze_renewal-Change c p now
Step-Change (freezes_release p) = frozen p same
Step-Change {c} (abandons p) = abandon_pending-Change c p
Step-Change {c} (loses p) = lose_pending-Change c p
Step-Change {c} (clears p) = drop_pending-Change c p
Step-Change {c} (grants p version canceled now h) =
    confirm_acquisition-Change c p version canceled now h
Step-Change {c} (renews p version now) = confirm_renewal-Change c p version now
Step-Change {c} (releases p version) = confirm_release-Change c p version

-- Every sequence of steps is made of such changes.
pub Steps-Change : {c d : Core} → Steps c d → Change c d
Steps-Change stay = same
Steps-Change (go_on s t) = Change-trans (Steps-Change s) (Step-Change t)
