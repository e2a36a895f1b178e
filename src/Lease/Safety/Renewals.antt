-- ===== src/Lease/Safety/Renewals.antt =====
-- What `Renew` has done when it succeeds.
use s3_lease.Prelude.{ℕ, ◌≡◌, ◌⊎◌, true, none, some}
use s3_lease.Lease.Errors.{Result, ok}
use s3_lease.Lease.Record.{renewal_record}
use s3_lease.Lease.Operations.{encode_record}
use s3_lease.Lease.State.{Core, Proposal, is_renew}
use s3_lease.Lease.Proposals.{Basis, begin_renew}
use s3_lease.Lease.World.{Backend, Context, World, section, pass}
use s3_lease.Lease.Safety.Confirmations.{Renewed}

-- A proposal of a renewal that was frozen as it is.
record Frozen (p q : Proposal) : Type 0 where
  same_lease : q.acquired ≡ p.acquired
  same_record : q.proposed ≡ p.proposed
  same_body : q.body ≡ p.body
  same_version : q.expected ≡ p.expected
  same_time : q.first_send_at ≡ p.first_send_at
  renews : is_renew p.kind ≡ true → is_renew q.kind ≡ true

-- The pending proposal of a core, where it renews the lease `i`.
record Pending (c : Core) (i : ℕ) (p : Proposal) : Type 0 where
  there : c.pending ≡ some p
  of_lease : p.acquired ≡ i
  renews : is_renew p.kind ≡ true

module _ {S : Type 0} (backend : Backend S) (ctx : Context) where
  -- The first section of a new renewal, from a world in which nothing is pending.
  abbrev pub begun : ℕ → World S → Result Basis × World S
  begun i w = section (λ c now. begin_renew c i now) w

  -- The world at the last reading of the clock before a new renewal is frozen and sent.
  abbrev pub at_first_send : ℕ → World S → World S
  at_first_send i w = pass (pass (begun i w).1)

  -- A proposal that this call makes: the renewal of the record observed at its start, under its
  -- version, with the time that the clock showed just before it was frozen.
  pub record Drafted (i : ℕ) (w : World S) (p : Proposal) : Type 0 where
    pub nothing_pending : w.core.pending ≡ none
    pub basis : Basis
    pub from_basis : (begun i w).0 ≡ ok basis
    pub next : renewal_record basis.previous (pass (begun i w).1).now ≡ ok p.proposed
    pub encoded : encode_record (backend.marshal p.proposed) ≡ ok p.body
    pub same_version : p.expected ≡ basis.expected
    pub first_send : p.first_send_at ≡ (at_first_send i w).now

  -- The proposal that was pending, or the one that this call makes.
  abbrev pub Source : ℕ → World S → Proposal → Type 0
  Source i w p = (w.core.pending ≡ some p) ⊎ Drafted i w p

  -- The renewal of the lease `i` by a call whose first section starts in the world `w`.
  pub record Renewal (i : ℕ) (w : World S) (c : Core) (now : ℕ) : Type 0 where
    pub proposal : Proposal
    pub of_lease : proposal.acquired ≡ i
    pub source : Source i w proposal
    pub renewed : Renewed c now proposal

  Done : ℕ → World S → Unit {0} → World S → Type 0
  Done i w u v = Renewal i w v.core v.now
