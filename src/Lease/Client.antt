-- ===== src/Lease/Client.antt =====
-- The calls of a `Client` of lease/api.go, and `Check` of a lease of lease/core.go, in any order.
use s3_lease.Prelude.{Option, none, some, List, [], ◌∷◌}
use s3_lease.Lease.Errors.{sentinel, invalid_lease}
use s3_lease.Lease.State.{check}
use s3_lease.Lease.Proposals.{Handle}
use s3_lease.Lease.World.{Backend, Context, Exec, World, raise, section, or_raise}
use s3_lease.Lease.Operations.{observe}
use s3_lease.Lease.Mutations.{require, renew_lease, release_lease}

pub data Call : Type 0 where
  requires : (ctx : Context) → Call
  renews_lease : (ctx : Context) (acquired : Option Handle) → Call
  releases_lease : (ctx : Context) (acquired : Option Handle) → Call
  observes_lease : (ctx : Context) → Call
  checks_lease : (acquired : Option Handle) → Call

module _ {S : Type 0} (backend : Backend S) where
  -- `Check` of a lease of this core. A lease of another core is checked in that core, which leaves
  -- this one as it is; here its number is taken for one of this core.
  abbrev pub check_lease : Option Handle → Exec S (Unit {0})
  check_lease none = raise (sentinel invalid_lease)
  check_lease (some h) = section (λ c now. or_raise (check c h.lease now))

  unfoldable pub call : World S → Call → World S
  call w (requires ctx) = (require backend ctx w).1
  call w (renews_lease ctx acquired) = (renew_lease backend ctx acquired w).1
  call w (releases_lease ctx acquired) = (release_lease backend ctx acquired w).1
  call w (observes_lease ctx) = (observe backend ctx w).1
  call w (checks_lease acquired) = (check_lease acquired w).1

  unfoldable pub run : World S → List Call → World S
  run w [] = w
  run w (c ∷ calls) = run (call w c) calls
