-- ===== src/Lease/Safety/Refinement.antt =====
-- The client of lease/core.go and lease/operations.go as an implementation of the mandate.
use s3_lease.Prelude.{
  ℕ, ◌+◌, ◌≡◌, refl, String, false, not, Option, none, some, List, arith, is_some, inl, inr, ◌==◌,
  Bool-cases, Option-cases,
}
use s3_lease.Lease.Errors.{Error}
use s3_lease.Lease.State.{Lease, Core, Proposal, check, retire_lease, retire_active, install_timer}
use s3_lease.Lease.Reads.{observe_record}
use s3_lease.Lease.Proposals.{set_pending, grant, extend_lease, renewal_stale}
use s3_lease.Lease.World.{Backend, World}
use s3_lease.Lease.Client.{Call, run}
use s3_lease.Lease.Safety.Quiet.{Quiet, rest, retires, observes, latches}
use s3_lease.Lease.Safety.Changes.{
  Change, same, quietly, locked, dropped, frozen, granted, extended,
}
use s3_lease.Lease.Safety.Invariant.{CoreInv, Quiet-CoreInv, Change-CoreInv}
use s3_lease.Lease.Safety.Authority.{run-Change, run-CoreInv}
use s3_lease.Lease.Safety.Spec.{
  Tenure, Mandate, Turn, stays, begins, extends, ends, closes, Turns, no_turn, then_turn,
  Turns-trans, may_act,
}

abbrev tenure_of : (ℕ → Lease) → Option ℕ → Option Tenure
tenure_of leases none = none
tenure_of leases (some i) = some (record {
  number = i;
  lease_uid = (leases i).lease_uid;
  client_id = (leases i).client_id;
  epoch_id = (leases i).epoch_id;
  deadline = (leases i).valid_until;
})

-- What a core shows of its leases.
unfoldable pub mandate : Core → Mandate
mandate c = record {
  granted = c.next_lease;
  holder = tenure_of c.leases c.active;
  closed = is_some c.terminal;
}

retire_lease-Turn :
    (c : Core) (i : ℕ) (cause : Error) → Turn (mandate c) (mandate (retire_lease c i cause))
unfolding mandate retire_lease
retire_lease-Turn c i cause = elim (Bool-cases (is_some (c.leases i).retired)) [
  | inl before ↦ stays (ground (arith, before)) (rw before refl) (ground (arith, before))
  | inr now ↦ elim (Option-cases c.active) [
    | inl a ↦ ends (ground (arith, now)) (ground (arith, now, a)) (ground (arith, now))
    | inr (j, a) ↦ elim (Bool-cases (j == i)) [
      | inl e ↦ ends (ground (arith, now)) (ground (arith, now, a, e)) (ground (arith, now))
      | inr e ↦ stays (ground (arith, now)) (ground (arith, now, a, e)) (ground (arith, now))
    ]
  ]
]

latched-Turn :
    (c : Core) (e cause : Error) (active : Option ℕ)
    → c.active ≡ active
    → CoreInv c
    → Turn (mandate c) (mandate (retire_active (record c { terminal = some e }) active cause))
unfolding mandate retire_lease
latched-Turn c e cause none a v = closes refl (rw a refl) refl
latched-Turn c e cause (some i) a v =
    let (unretired, lt) = (v.lease_at i).live a in
    closes (rw unretired refl) (ground (arith, unretired, a)) (rw unretired refl)

Quiet-Turns : {c d : Core} → Quiet c d → CoreInv c → Turns (mandate c) (mandate d)
unfolding mandate observe_record
Quiet-Turns rest v = no_turn
Quiet-Turns (retires {d} i cause q) v = then_turn (Quiet-Turns q v) (retire_lease-Turn d i cause)
Quiet-Turns (observes {d} r body version since at q) v =
    then_turn (Quiet-Turns q v) (stays refl refl refl)
Quiet-Turns (latches {d} e t q) v =
    then_turn (Quiet-Turns q v) (latched-Turn d e _ d.active refl (Quiet-CoreInv q v))

grant-Turn :
    (c : Core) (p : Proposal) (version : String) (deadline : ℕ)
    → c.active ≡ none
    → c.terminal ≡ none
    → Turn (mandate c) (mandate (grant c p version deadline).1)
unfolding mandate grant install_timer observe_record
grant-Turn c p version deadline a t =
    begins
      (record {
        number = c.next_lease;
        lease_uid = p.proposed.metadata.uid;
        client_id = c.config.client_id;
        epoch_id = p.proposed.spec.epoch_id;
        deadline = deadline;
      })
      (rw a refl) (rw t refl) refl (omega arith) (ground arith) (rw t refl)

extend_lease-Turn :
    (c : Core) (p : Proposal) (version : String) (now : ℕ)
    → renewal_stale c p now ≡ false
    → Turn (mandate c) (mandate (extend_lease c p version))
unfolding mandate extend_lease install_timer observe_record
extend_lease-Turn c p version now fresh =
    extends
      (record {
        number = p.acquired;
        lease_uid = (c.leases p.acquired).lease_uid;
        client_id = (c.leases p.acquired).client_id;
        epoch_id = (c.leases p.acquired).epoch_id;
        deadline = (c.leases p.acquired).valid_until;
      })
      now (p.first_send_at + c.config.renew_deadline) (ground (arith, fresh))
      (ground (arith, fresh)) refl (ground (arith, fresh)) refl

Change-Turns : {c d : Core} → Change c d → CoreInv c → Turns (mandate c) (mandate d)
unfolding mandate set_pending
Change-Turns same v = no_turn
Change-Turns (quietly q k) v = Turns-trans (Change-Turns k v) (Quiet-Turns q (Change-CoreInv k v))
Change-Turns (locked b k) v = then_turn (Change-Turns k v) (stays refl refl refl)
Change-Turns (dropped k) v = then_turn (Change-Turns k v) (stays refl refl refl)
Change-Turns (frozen p k) v = then_turn (Change-Turns k v) (stays refl refl refl)
Change-Turns (granted {d} p version deadline a t k) v =
    then_turn (Change-Turns k v) (grant-Turn d p version deadline a t)
Change-Turns (extended {d} p version now fresh k) v =
    then_turn (Change-Turns k v) (extend_lease-Turn d p version now fresh)

check-may_act :
    (c : Core) (i now : ℕ) → CoreInv c → not (is_some (check c i now).0) ≡ may_act (mandate c) i now
unfolding mandate may_act check
check-may_act c i now v = elim (Option-cases c.active) [
  | inl a ↦ ground (arith, a)
  | inr (j, a) ↦ let (unretired, lt) = (v.lease_at j).live a in ground (arith, a, unretired)
]

-- The core `d` is reached from `c` as the mandate allows, and its Checks tell what its mandate says.
pub record Refines (c d : Core) : Type 0 where
  pub turns : Turns (mandate c) (mandate d)
  pub checks : (i now : ℕ) → not (is_some (check d i now).0) ≡ may_act (mandate d) i now

-- Any history of calls of a well-formed client, with any turns of other goroutines and any replies
-- of the store, refines the mandate: seen from outside, authority begins with the next number
-- while nobody holds it, moves its deadline, ends, or is closed for good; and `Check` succeeds
-- exactly for the holder before its deadline.
pub run-Refines :
    {S : Type 0} (backend : Backend S) (w : World S) (calls : List Call)
    → CoreInv w.core
    → Refines w.core (run backend w calls).core
run-Refines backend w calls v = record {
  turns = Change-Turns (run-Change backend w calls) v;
  checks = λ i now. check-may_act (run backend w calls).core i now (run-CoreInv backend w calls v);
}
