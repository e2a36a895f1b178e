-- ===== src/Lease/Proposals.antt =====
-- The parts of `Require`, `Renew` and `Release` in lease/operations.go that run under `stateMu`:
-- functions of the core and of the clock's reading that return their result and the new core.
use s3_lease.Prelude.{
  ℕ, ◌+◌, Bool, false, ◌&&◌, ◌||◌, not, String, Option, none, some, ltb, ◌==◌, is_some, or_else,
  str_eq, if◌then◌else◌,
}
use s3_lease.Lease.Errors.{
  Error, sentinel, annotated, already_held, unknown_outcome, invalid_lease, lease_expired,
  lease_retired, ownership_lost, nil_pointer, Result, ok, err,
}
use s3_lease.Lease.Record.{Record, same_record}
use s3_lease.Lease.State.{
  ProposalKind, is_renew, same_kind, Lease, Observed, Proposal, Core, update, active_is, pending_is,
  retire_lease, install_timer, proposal_phase_end,
}
use s3_lease.Lease.Reads.{observe_record}

-- A handle: the core that granted it, and which of its leases it is. Nil is `none`.
pub record Handle : Type 0 where
  pub origin : ℕ
  pub lease : ℕ

-- ------------------------------------------------------------------ before a mutation

abbrev pub drop_pending : Core → Proposal → Core
drop_pending c p = if pending_is c.pending p then record c { pending = none } else c

-- `abandonExpiredPendingLocked`
unfoldable pub abandon_pending : Core → Proposal → Core
abandon_pending c p =
    let d = drop_pending c p in
    if is_renew p.kind && not (is_some (d.leases p.acquired).retired)
    then retire_lease d p.acquired (sentinel lease_expired)
    else d

abbrev pub expire_active : Core → Option ℕ → ℕ → Core
expire_active c none now = c
expire_active c (some i) now =
    if not (is_some (c.leases i).retired) && not (ltb now (c.leases i).valid_until)
    then retire_lease c i (sentinel lease_expired)
    else c

abbrev pub expire_pending : Core → Option Proposal → ℕ → Core
expire_pending c none now = c
expire_pending c (some p) now =
    if not (ltb now (proposal_phase_end c p)) then abandon_pending c p else c

-- `prepareRequire`
unfoldable pub prepare_require : Core → ℕ → Option Error × Core
prepare_require c now =
    or_else c.terminal
      (let d = expire_active c c.active now in
        let e = expire_pending d d.pending now in
        if is_some e.active
        then (some (sentinel already_held), e)
        else if is_some e.pending
        then (some (annotated (sentinel unknown_outcome)), e)
        else (none, e))
      (λ latched. (some latched, c))

-- `pendingFor` of a handle of this core. A handle of another core is turned away before the lock.
unfoldable pub pending_for : Core → ℕ → ProposalKind → Result (Option Proposal)
pending_for c i kind =
    or_else c.terminal
      (or_else c.pending (ok none) λ p.
        if not (p.acquired == i) || not (same_kind p.kind kind)
        then err (sentinel invalid_lease)
        else ok (some p))
      (λ latched. err latched)

-- Whether the latest observation is the lease's own record.
abbrev pub owned_by : Option Observed → Lease → Bool
owned_by none l = false
owned_by (some o) l =
    str_eq o.current.metadata.uid l.lease_uid
    && str_eq o.current.spec.client_id l.client_id
    && o.current.spec.epoch_id == l.epoch_id
    && o.current.spec.sequence_id == l.sequence_id

-- `validateActiveLocked` of a lease of this core.
unfoldable pub validate_active : Core → ℕ → ℕ → Option Error × Core
validate_active c i now =
    or_else c.terminal
      (or_else (c.leases i).retired
        (if not (active_is c.active i)
          then (some (sentinel invalid_lease), c)
          else if not (ltb now (c.leases i).valid_until)
          then (some (sentinel lease_expired), retire_lease c i (sentinel lease_expired))
          else if not (owned_by c.observed (c.leases i))
          then (some (sentinel ownership_lost), retire_lease c i (sentinel ownership_lost))
          else (none, c))
        (λ cause. (some cause, c)))
      (λ latched. (some latched, c))

-- What a renewal or a release is built from.
pub record Basis : Type 0 where
  pub previous : Record
  pub expected : String
  pub authority_ends : ℕ

abbrev pub basis_of : Core → ℕ → Result Basis
basis_of c i = or_else c.observed (err (sentinel nil_pointer)) λ o. ok (record {
  previous = o.current;
  expected = o.version;
  authority_ends = (c.leases i).valid_until;
})

-- The first section of `Renew`.
unfoldable pub begin_renew : Core → ℕ → ℕ → Result Basis × Core
begin_renew c i now =
    let (e, d) = validate_active c i now in or_else e (basis_of d i, d) (λ cause. (err cause, d))

-- The first section of `Release`: the lease retires before the release is sent.
unfoldable pub begin_release : Core → ℕ → ℕ → Result Basis × Core
begin_release c i now =
    let (e, d) = validate_active c i now in
    or_else e (basis_of d i, retire_lease d i (sentinel lease_retired)) (λ cause. (err cause, d))

-- ------------------------------------------------------------------ the frozen proposal

-- `c.pending = &proposal{…}`: a fresh pointer.
unfoldable pub set_pending : Core → Proposal → Proposal × Core
set_pending c p =
    let q = record p { serial = c.next_serial } in
    (q, record c { pending = some q; next_serial = c.next_serial + 1 })

-- The second section of `Renew`.
unfoldable pub freeze_renewal : Core → Proposal → ℕ → Result Proposal × Core
freeze_renewal c p now =
    let (e, d) = validate_active c p.acquired now in
    let (q, d') = set_pending d p in or_else e (ok q, d') (λ cause. (err cause, d))

-- The second section of `Release`.
unfoldable pub freeze_release : Core → Proposal → Result Proposal × Core
freeze_release c p = let (q, d) = set_pending c p in (ok q, d)

-- `abandonExpiredPending`
unfoldable pub abandon_expired : Core → Proposal → Error × Core
abandon_expired c p = (sentinel lease_expired, abandon_pending c p)

-- `losePending`
unfoldable pub lose_pending : Core → Proposal → Error × Core
lose_pending c p =
    let d = drop_pending c p in
    (
      sentinel ownership_lost,
      if is_renew p.kind && not (is_some (d.leases p.acquired).retired)
          then retire_lease d p.acquired (sentinel ownership_lost)
          else d,
    )

-- `clearPending`
unfoldable pub clear_pending : Core → Proposal → Core
clear_pending c p = drop_pending c p

-- ------------------------------------------------------------------ confirmation

abbrev pub last_read : Option Observed → ℕ
last_read none = 0
last_read (some o) = o.last_read_at

-- A confirmed proposal becomes the observation.
abbrev pub observe_proposal : Core → Proposal → String → Core
observe_proposal c p version =
    observe_record c p.proposed p.body version p.first_send_at (last_read c.observed)

abbrev pub superseded : Option Observed → Proposal → String → Bool
superseded none p version = false
superseded (some o) p version =
    not (str_eq o.current.metadata.uid p.proposed.metadata.uid)
    || ltb p.proposed.spec.epoch_id o.current.spec.epoch_id
    || o.current.spec.epoch_id == p.proposed.spec.epoch_id
      && ltb p.proposed.spec.sequence_id o.current.spec.sequence_id
    || o.current.spec.epoch_id == p.proposed.spec.epoch_id
      && o.current.spec.sequence_id == p.proposed.spec.sequence_id
      && (not (same_record o.current p.proposed) || not (str_eq o.version version))

abbrev pub granted_lease : Core → Proposal → ℕ → Lease
granted_lease c p deadline = record {
  lease_uid = p.proposed.metadata.uid;
  client_id = c.config.client_id;
  epoch_id = p.proposed.spec.epoch_id;
  sequence_id = p.proposed.spec.sequence_id;
  valid_until = deadline;
  done_closed = false;
  retired = none;
  timer = none;
}

-- The new lease becomes the active one, and its timer is armed.
unfoldable pub grant : Core → Proposal → String → ℕ → ℕ × Core
grant c p version deadline =
    let i = c.next_lease in
    let d = record (observe_proposal c p version) {
      leases = update c.leases i (granted_lease c p deadline);
      next_lease = c.next_lease + 1;
      active = some i;
    } in
    (i, install_timer d i)

-- `confirmAcquisition`; `canceled` is `ctx.Err() != nil`.
unfoldable pub confirm_acquisition :
    Core → Proposal → String → (canceled : Bool) → ℕ → Result ℕ × Core
confirm_acquisition c p version canceled now =
    or_else c.terminal
      (let deadline = proposal_phase_end c p in
        let (i, d) = grant c p version deadline in
        if canceled || not (ltb now deadline)
        then (err (annotated (sentinel unknown_outcome)), c)
        else if superseded c.observed p version
        then (err (sentinel ownership_lost), c)
        else (ok i, d))
      (λ latched. (err latched, c))

abbrev pub renewal_stale : Core → Proposal → ℕ → Bool
renewal_stale c p now =
    not (pending_is c.pending p)
    || not (active_is c.active p.acquired)
    || is_some (c.leases p.acquired).retired
    || not (ltb now p.authority_ends)
    || not (ltb now (p.first_send_at + c.config.renew_deadline))

-- The end of `confirmRenewal`: the lease gets its new sequence and deadline.
unfoldable pub extend_lease : Core → Proposal → String → Core
extend_lease c p version =
    let i = p.acquired in
    let d = observe_proposal c p version in
    install_timer
      (record d {
        leases = update c.leases i (record (c.leases i) {
          sequence_id = p.proposed.spec.sequence_id;
          valid_until = p.first_send_at + c.config.renew_deadline;
        });
        pending = none;
      })
      i

-- `confirmRenewal`
unfoldable pub confirm_renewal : Core → Proposal → String → ℕ → Option Error × Core
confirm_renewal c p version now =
    if renewal_stale c p now
    then (
      some (sentinel lease_expired),
      retire_lease (drop_pending c p) p.acquired (sentinel lease_expired),
    )
    else if is_some c.observed
    then (none, extend_lease c p version)
    else (some (sentinel nil_pointer), c)

-- `confirmRelease`
unfoldable pub confirm_release : Core → Proposal → String → Option Error × Core
confirm_release c p version =
    if pending_is c.pending p
    then (none, record (observe_proposal c p version) { pending = none })
    else (some (sentinel invalid_lease), c)
