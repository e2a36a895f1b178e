-- ===== src/Lease/Safety/Authority.antt =====
-- Local authority over any history of calls, with any interleaving of timers, checks and reads of
-- other goroutines, any replies of the store and any passing of time.
use s3_lease.Prelude.{ℕ, ◌<◌, ◌≡◌, Option, none, some, List, [], ◌∷◌}
use s3_lease.Lease.Errors.{Error}
use s3_lease.Lease.Config.{Settings}
use s3_lease.Lease.State.{Core, new_core, check}
use s3_lease.Lease.Proposals.{Handle}
use s3_lease.Lease.World.{Backend, World}
use s3_lease.Lease.Client.{
  Call, requires, renews_lease, releases_lease, observes_lease, checks_lease, check_lease, call,
  run,
}
use s3_lease.Lease.Safety.Steps.Rules.{
  Steps, stay, one, acts, Steps-trans, Moves-section, Moves-raise, Stable-Always,
}
use s3_lease.Lease.Safety.Steps.Reading.{observe-Steps}
use s3_lease.Lease.Safety.Steps.Acquiring.{require-Steps}
use s3_lease.Lease.Safety.Steps.Mutating.{
  or_raise-Steps, anything, renew_lease-Steps, release_lease-Steps,
}
use s3_lease.Lease.Safety.Steps.Mutating.{Free}
use s3_lease.Lease.Safety.Changes.{Change, Steps-Change}
use s3_lease.Lease.Safety.Lasting.{grant_of, Change-leases, Change-retired, Change-terminal}
use s3_lease.Lease.Safety.Invariant.{CoreInv, Change-CoreInv, new_core-CoreInv}
use s3_lease.Lease.World.{checks, act}

checked : (c : Core) (i now : ℕ) → Steps c (check c i now).1
unfolding act
checked c i now = one (acts now (checks i))

module _ {S : Type 0} (backend : Backend S) where
  check_lease-Free : (acquired : Option Handle) → Free (check_lease backend acquired)
  check_lease-Free none = Moves-raise _
  check_lease-Free (some h) =
      Moves-section Stable-Always _
        λ c now _. (or_raise-Steps _ (checked c h.lease now), anything _ _)

  call-Steps : (w : World S) (c : Call) → Steps w.core (call backend w c).core
  unfolding call
  call-Steps w (requires ctx) = require-Steps backend ctx w
  call-Steps w (renews_lease ctx acquired) = renew_lease-Steps backend ctx acquired w
  call-Steps w (releases_lease ctx acquired) = release_lease-Steps backend ctx acquired w
  call-Steps w (observes_lease ctx) = observe-Steps backend ctx w
  call-Steps w (checks_lease acquired) = ((check_lease-Free acquired).run w tt).0

  run-Steps : (w : World S) (calls : List Call) → Steps w.core (run backend w calls).core
  unfolding run
  run-Steps w [] = stay
  run-Steps w (c ∷ calls) = Steps-trans (call-Steps w c) (run-Steps (call backend w c) calls)

  pub run-Change : (w : World S) (calls : List Call) → Change w.core (run backend w calls).core
  run-Change w calls = Steps-Change (run-Steps w calls)

  -- Any history of calls keeps a core well-formed: an active lease is granted and unretired, no
  -- other granted lease is unretired, `Done` is closed exactly for retired leases, timers are
  -- armed for the active lease and stopped for retired ones, and no lease is active beside a
  -- terminal error.
  pub run-CoreInv :
      (w : World S) (calls : List Call) → CoreInv w.core → CoreInv (run backend w calls).core
  run-CoreInv w calls v = Change-CoreInv (run-Change w calls) v

  -- From a new core on, no history of calls, with any turns of other goroutines and any replies of
  -- the store, leaves two granted leases unretired.
  pub one_authority :
      (w : World S) (config : Settings) (identity : ℕ) (calls : List Call)
      → w.core ≡ new_core config identity
      → let c = (run backend w calls).core in
        (i j : ℕ)
        → i < c.next_lease
        → j < c.next_lease
        → (c.leases i).retired ≡ none
        → (c.leases j).retired ≡ none
        → i ≡ j
  one_authority w config identity calls start i j hi hj ri rj =
      let v = run-CoreInv w calls (rw start (new_core-CoreInv config identity)) in
      cc ((v.lease_at i).single hi ri, (v.lease_at j).single hj rj)

  -- A granted lease that has retired stays retired through any history, with the same cause and
  -- the same UID, client and epoch: no reply or renewal revives it.
  pub never_revived :
      (w : World S) (calls : List Call) (i : ℕ) (cause : Error)
      → i < w.core.next_lease
      → (w.core.leases i).retired ≡ some cause
      → (((run backend w calls).core.leases i).retired ≡ some cause)
        × (grant_of ((run backend w calls).core.leases i) ≡ grant_of (w.core.leases i))
  never_revived w calls i cause h r =
      let k = run-Change w calls in (Change-retired k i cause h r, (Change-leases k i h).1)

  -- In a well-formed core a terminal error is never replaced or cleared by any history of calls,
  -- and no lease is active after it.
  pub terminal_final :
      (w : World S) (calls : List Call) (e : Error)
      → CoreInv w.core
      → w.core.terminal ≡ some e
      → ((run backend w calls).core.terminal ≡ some e) × ((run backend w calls).core.active ≡ none)
  terminal_final w calls e v t =
      let latched = Change-terminal (run-Change w calls) e t in
      (latched, (run-CoreInv w calls v).halted e latched)
