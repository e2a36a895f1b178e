-- ===== src/Recipes/CoreClient.antt =====
-- The client of lease/api.go as the recipes call it: the operations of Recipes/Client.antt and of the
-- acquisition loop, filled with the calls of lease/operations.go and lease/core.go.
pub mod Covered
use s3_lease.Prelude.{ℕ, Option, none, some, or_else, leb, if◌then◌else◌}
use s3_lease.Lease.Errors.{Error, Result, ok, err, sentinel, deadline_exceeded}
use s3_lease.Lease.Proposals.{Handle}
use s3_lease.Lease.World.{Backend, Context, World, ◌>>=◌, section, or_raise, pure, raise, lift}
use s3_lease.Lease.Operations.{observe}
use s3_lease.Lease.Mutations.{require, renew_lease, release_lease}
use s3_lease.Lease.Client.{check_lease}
use s3_lease.Recipes.Client.{RecipeClient}
use s3_lease.Recipes.Acquire.{Acquirer}

-- The error of a call that returns nothing else.
abbrev pub error_of : {A : Type 0} → Result A → Option Error
error_of (ok a) = none
error_of (err e) = some e

-- `context.WithDeadline(context.WithoutCancel(parent), deadline)`
abbrev limited : ℕ → Context
limited deadline = record {
  error_at = λ now. if leb deadline now then some (sentinel deadline_exceeded) else none;
  deadline = some deadline;
}

-- The context of a call: that of the recipe, or one that ends at a deadline.
abbrev context_for : Context → Option ℕ → Context
context_for ctx none = ctx
context_for ctx (some deadline) = limited deadline

module _ {S : Type 0} (backend : Backend S) (ctx : Context) where
  abbrev pub handle_at : World S → ℕ → Option Handle
  handle_at w i = some (record { origin = w.core.identity; lease = i })

  abbrev pub checked_at : ℕ → World S → Option Error × World S
  checked_at i w = let (r, w') = check_lease backend (handle_at w i) w in (error_of r, w')

  abbrev pub renewed_at : Option ℕ → ℕ → World S → Option Error × World S
  renewed_at deadline i w =
      let (r, w') = renew_lease backend (context_for ctx deadline) (handle_at w i) w in
      (error_of r, w')

  abbrev pub released_at : Option ℕ → ℕ → World S → Option Error × World S
  released_at deadline i w =
      let (r, w') = release_lease backend (context_for ctx deadline) (handle_at w i) w in
      (error_of r, w')

  abbrev pub core_client : RecipeClient (World S)
  core_client = record {
    require_lease = require backend ctx;
    renew_lease = renewed_at;
    release_lease = released_at;
    check_lease = checked_at;
    valid_until = λ i w. (w.core.leases i).valid_until;
    now = λ w. w.now;
  }

  -- Its observations are given to a callback by what calls the loop.
  abbrev pub core_acquirer : Acquirer (World S) ℕ
  core_acquirer = record {
    require_lease = require backend ctx;
    observe_lease = observe backend ctx;
    context_error = λ w. ctx.error_at w.now;
    on_observation = none;
  }
