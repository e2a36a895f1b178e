-- ===== src/Lease/Safety/Invariant.antt =====
-- The well-formedness of a core, kept by every change.
use s3_lease.Prelude.{ℕ, ◌<◌, ◌≡◌, refl, false, String, Option, none, some, arith, is_some}
use s3_lease.Lease.Errors.{Error}
use s3_lease.Lease.Config.{Settings}
use s3_lease.Lease.Record.{Record}
use s3_lease.Lease.State.{
  Bytes, retire_active, Core, Proposal, new_core, retire_lease, install_timer,
}
use s3_lease.Lease.Reads.{observe_record}
use s3_lease.Lease.Proposals.{grant, set_pending, extend_lease, renewal_stale}
use s3_lease.Lease.Safety.Quiet.{Quiet, rest, retires, observes, latches}
use s3_lease.Lease.Safety.Changes.{
  Change, same, quietly, locked, dropped, frozen, granted, extended,
}

-- What holds of the lease `i` of a core: the active lease is a granted one that has not retired,
-- and no other granted lease is unretired; `Done` is closed exactly when the lease has retired; the
-- timer of the active lease is armed for its deadline, and that of a retired one is stopped.
pub record LeaseInv (c : Core) (i : ℕ) : Type 0 where
  pub live : c.active ≡ some i → ((c.leases i).retired ≡ none) × (i < c.next_lease)
  pub single : i < c.next_lease → (c.leases i).retired ≡ none → c.active ≡ some i
  pub closed : (c.leases i).done_closed ≡ is_some (c.leases i).retired
  pub armed : c.active ≡ some i → (c.leases i).timer ≡ some (c.leases i).valid_until
  pub stopped : (e : Error) → (c.leases i).retired ≡ some e → (c.leases i).timer ≡ none

-- And a core with a terminal error has no active lease.
pub record CoreInv (c : Core) : Type 0 where
  pub lease_at : (i : ℕ) → LeaseInv c i
  pub halted : (e : Error) → c.terminal ≡ some e → c.active ≡ none

-- A retirement concerns the lease `i` alone, and the active one only if that is `i`.
retire_lease-LeaseInv :
    (c : Core) (i : ℕ) (cause : Error)
    → ((j : ℕ) → LeaseInv c j)
    → (j : ℕ) → LeaseInv (retire_lease c i cause) j
unfolding retire_lease
retire_lease-LeaseInv c i cause v j =
    let l = v j in
    record {
      live = λ a. ground (arith, l.live);
      single = λ lt r. ground (arith, l.single, (v i).live);
      closed = ground (arith, l.closed);
      armed = λ a. ground (arith, l.armed);
      stopped = λ e r. ground (arith, l.stopped e);
    }

retire_lease-CoreInv :
    (c : Core) (i : ℕ) (cause : Error) → CoreInv c → CoreInv (retire_lease c i cause)
unfolding retire_lease
retire_lease-CoreInv c i cause v = record {
  lease_at = retire_lease-LeaseInv c i cause v.lease_at;
  halted = λ e t. ground (arith, v.halted e);
}

observe_record-CoreInv :
    (c : Core) (r : Record) (body : Bytes) (version : String) (since at : ℕ)
    → CoreInv c
    → CoreInv (observe_record c r body version since at)
unfolding observe_record
observe_record-CoreInv c r body version since at v = record {
  lease_at = λ j. record {
    live = (v.lease_at j).live;
    single = (v.lease_at j).single;
    closed = (v.lease_at j).closed;
    armed = (v.lease_at j).armed;
    stopped = (v.lease_at j).stopped;
  };
  halted = v.halted;
}

-- The leases, the active one and the terminal error are what the invariant speaks of.
relabelled :
    (c d : Core)
    → (d.leases ≡ c.leases)
    → (d.next_lease ≡ c.next_lease)
    → (d.active ≡ c.active)
    → ((j : ℕ) → LeaseInv c j)
    → (j : ℕ) → LeaseInv d j
relabelled c d e f g v j =
    let l = v j in
    record {
      live = λ a. ground (arith, e, f, g, l.live);
      single = λ lt r. ground (arith, e, f, g, l.single);
      closed = rw e l.closed;
      armed = λ a. ground (arith, e, f, g, l.armed);
      stopped = λ x r. ground (arith, e, f, g, l.stopped x);
    }

latched-CoreInv :
    (c : Core) (e cause : Error)
    → (active : Option ℕ) → c.active ≡ active
    → CoreInv c
    → CoreInv (retire_active (record c { terminal = some e }) active cause)
unfolding retire_lease
latched-CoreInv c e cause none a v = record {
  lease_at = relabelled c _ refl refl refl v.lease_at;
  halted = λ x t. a;
}
latched-CoreInv c e cause (some i) a v = record {
  lease_at =
      retire_lease-LeaseInv _ i cause
        (relabelled c (record c { terminal = some e }) refl refl refl v.lease_at);
  halted = λ x t. ground (arith, (v.lease_at i).live);
}

pub Quiet-CoreInv : {c d : Core} → Quiet c d → CoreInv c → CoreInv d
Quiet-CoreInv rest v = v
Quiet-CoreInv (retires {d} i cause q) v = retire_lease-CoreInv d i cause (Quiet-CoreInv q v)
Quiet-CoreInv (observes {d} r body version since at q) v =
    observe_record-CoreInv d r body version since at (Quiet-CoreInv q v)
Quiet-CoreInv (latches {d} e t q) v = latched-CoreInv d e _ d.active refl (Quiet-CoreInv q v)

grant-CoreInv :
    (c : Core) (p : Proposal) (version : String) (deadline : ℕ)
    → c.active ≡ none
    → c.terminal ≡ none
    → CoreInv c
    → CoreInv (grant c p version deadline).1
unfolding grant install_timer observe_record
grant-CoreInv c p version deadline a t v = record {
  lease_at = λ j.
      let l = v.lease_at j in
      record {
        live = λ h. ground (arith, l.live);
        single = λ lt r. ground (arith, l.single);
        closed = ground (arith, l.closed);
        armed = λ h. ground (arith, l.armed);
        stopped = λ e r. ground (arith, l.stopped e);
      };
  halted = λ e h. cc;
}

extend_lease-CoreInv :
    (c : Core) (p : Proposal) (version : String) (now : ℕ)
    → renewal_stale c p now ≡ false
    → CoreInv c
    → CoreInv (extend_lease c p version)
unfolding extend_lease install_timer observe_record
extend_lease-CoreInv c p version now fresh v = record {
  lease_at = λ j.
      let l = v.lease_at j in
      record {
        live = λ h. ground (arith, l.live);
        single = λ lt r. ground (arith, l.single);
        closed = ground (arith, l.closed);
        armed = λ h. ground (arith, l.armed);
        stopped = λ e r. ground (arith, l.stopped e);
      };
  halted = v.halted;
}

-- Every change keeps the invariant.
pub Change-CoreInv : {c d : Core} → Change c d → CoreInv c → CoreInv d
unfolding set_pending
Change-CoreInv same v = v
Change-CoreInv (quietly q k) v = Quiet-CoreInv q (Change-CoreInv k v)
Change-CoreInv (locked {d} b k) v =
    let w = Change-CoreInv k v in
    record { lease_at = relabelled d _ refl refl refl w.lease_at; halted = w.halted }
Change-CoreInv (dropped {d} k) v =
    let w = Change-CoreInv k v in
    record { lease_at = relabelled d _ refl refl refl w.lease_at; halted = w.halted }
Change-CoreInv (frozen {d} p k) v =
    let w = Change-CoreInv k v in
    record { lease_at = relabelled d _ refl refl refl w.lease_at; halted = w.halted }
Change-CoreInv (granted {d} p version deadline a t k) v =
    grant-CoreInv d p version deadline a t (Change-CoreInv k v)
Change-CoreInv (extended {d} p version now fresh k) v =
    extend_lease-CoreInv d p version now fresh (Change-CoreInv k v)

-- A new core is well-formed.
pub new_core-CoreInv : (config : Settings) (identity : ℕ) → CoreInv (new_core config identity)
unfolding new_core
new_core-CoreInv config identity = record {
  lease_at = λ j. record {
    live = λ h. cc;
    single = λ lt r. absurd (omega arith);
    closed = refl;
    armed = λ h. cc;
    stopped = λ e r. refl;
  };
  halted = λ e h. refl;
}
