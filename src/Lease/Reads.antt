-- ===== src/Lease/Reads.antt =====
-- `readCurrent` of lease/operations.go from its last lock on, and the eligibility test: functions of
-- the core and of the clock's reading that return their result and the new core.
pub mod Observations
use s3_lease.Prelude.{
  ℕ, ◌+◌, ◌-◌, ◌*◌, ◌≡◌, Bool, true, false, ◌&&◌, ◌||◌, not, String, Option, none, some, ltb, leb,
  ◌==◌, is_some, or_else, str_eq, if◌then◌else◌,
}
use s3_lease.Lease.Errors.{
  Error, sentinel, annotated, error_is, not_found, already_held, unknown_outcome, invalid_lease,
  lease_expired, ownership_lost, lease_disappeared, protocol_violation, nil_pointer, Result, ok,
  err,
}
use s3_lease.Lease.Config.{second}
use s3_lease.Lease.Record.{Record, same_record, records_compatible}
use s3_lease.Lease.State.{
  Bytes, ProposalKind, is_renew, same_kind, Lease, Observed, Proposal, Core, update, active_is,
  pending_is, retire_lease, install_timer, set_terminal, proposal_phase_end,
}

-- ------------------------------------------------------------------ reads

-- What a GET gave, decoded.
pub data Reply : Type 0 where
  failed : Error → Reply
  unversioned : Reply
  malformed : Error → Reply
  found : (version : String) (body : Bytes) (r : Record) → Reply

-- `*cloneObserved(state)`; the callers read the copy.
abbrev pub clone_observed : Option Observed → Result Observed
clone_observed none = err (sentinel nil_pointer)
clone_observed (some o) = ok o

abbrev pub generation_of : Option Observed → Option ℕ
generation_of none = none
generation_of (some o) = some o.generation

-- Whether two pointers to an observation are the same.
abbrev pub same_generation : Option ℕ → Option ℕ → Bool
same_generation none none = true
same_generation (some a) (some b) = a == b
same_generation _ _ = false

-- `retireIfObservationLostLocked`
abbrev pub pending_explains : Option Proposal → ℕ → Record → Bool
pending_explains none i r = false
pending_explains (some p) i r = is_renew p.kind && p.acquired == i && same_record r p.proposed

abbrev pub lost_by : Core → ℕ → Record → Bool
lost_by c i r =
    if not (str_eq r.metadata.uid (c.leases i).lease_uid)
      || not (str_eq r.spec.client_id (c.leases i).client_id)
      || not (r.spec.epoch_id == (c.leases i).epoch_id)
    then true
    else if r.spec.sequence_id == (c.leases i).sequence_id
    then false
    else not (pending_explains c.pending i r)

abbrev pub retire_if_lost : Core → Option ℕ → Record → Core
retire_if_lost c none r = c
retire_if_lost c (some i) r =
    if is_some (c.leases i).retired
    then c
    else if lost_by c i r
    then retire_lease c i (sentinel ownership_lost)
    else c

unfoldable pub retire_if_observation_lost : Core → Record → Core
retire_if_observation_lost c r = retire_if_lost c c.active r

-- A fresh `observedState` replaces the old one.
unfoldable pub observe_record : Core → Record → Bytes → String → ℕ → ℕ → Core
observe_record c r body version unchanged_since last_read_at = record c {
  observed = some (record {
    generation = c.next_generation;
    current = r;
    body = body;
    version = version;
    unchanged_since = unchanged_since;
    last_read_at = last_read_at;
  });
  next_generation = c.next_generation + 1;
}

abbrev pub fail_terminal : Core → Error → Result Observed × Core
fail_terminal c e = let (latched, d) = set_terminal c e in (err latched, d)

-- The end of `readCurrent`: the new observation is installed.
unfoldable pub accept_read : Core → ℕ → String → Bytes → Record → ℕ → Result Observed × Core
accept_read c read_at version body r unchanged_since =
    let d =
      retire_if_observation_lost (observe_record c r body version unchanged_since read_at) r in
    (clone_observed d.observed, d)

abbrev pub compare_read :
    Core → Option Observed → ℕ → String → Bytes → Record → Result Observed × Core
compare_read c none read_at version body r = accept_read c read_at version body r read_at
compare_read c (some o) read_at version body r =
    or_else (records_compatible o.current r)
      (if str_eq version o.version
        then (if same_record o.current r
            then accept_read c read_at version body r o.unchanged_since
            else fail_terminal c (annotated (sentinel protocol_violation)))
        else accept_read c read_at version body r read_at)
      (λ e. fail_terminal c e)

abbrev pub missing_read : Core → Option Observed → Result Observed × Core
missing_read c none = (err (sentinel not_found), c)
missing_read c (some o) = fail_terminal c (annotated (sentinel lease_disappeared))

abbrev pub by_reply : Core → ℕ → Reply → Result Observed × Core
by_reply c read_at (failed e) =
    if error_is e not_found then missing_read c c.observed else (err e, c)
by_reply c read_at unversioned = fail_terminal c (annotated (sentinel protocol_violation))
by_reply c read_at (malformed e) = fail_terminal c e
by_reply c read_at (found version body r) = compare_read c c.observed read_at version body r

-- `readCurrent` from its last lock on: a terminal error is final, and an observation newer than the
-- one that the read started from wins over the reply.
unfoldable pub install_read : Core → Option ℕ → ℕ → Reply → Result Observed × Core
install_read c started read_at reply =
    or_else c.terminal
      (if same_generation (generation_of c.observed) started
        then by_reply c read_at reply
        else (clone_observed c.observed, c))
      (λ latched. (err latched, c))

unfoldable pub eligible : Observed → ℕ → Bool
eligible state now =
    str_eq state.current.spec.client_id ""
    || leb (state.current.spec.lease_duration_seconds * second) (now - state.unchanged_since)
