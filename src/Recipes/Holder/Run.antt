-- ===== src/Recipes/Holder/Run.antt =====
-- `Run` of recipes/internal/holder/holder.go from its first check to its end.
use s3_lease.Prelude.{ℕ, Option, none, some, List}
use s3_lease.Lease.Errors.{Error, Sentinel}
use s3_lease.Recipes.Client.{RecipeClient}
use s3_lease.Recipes.Holder.{
  Policy, new_holding, HolderEvent, HolderNext, holds, leaves, join, holder_loop,
}
use s3_lease.Recipes.Holder.Shutdown.{Waits, shutdown}

-- What comes while one lease is held: the events of the loop, the world outside at its end, the error
-- of the context after the work was joined, and what the waits end with.
pub record HolderScript (S : Type 0) : Type 0 where
  pub events : List (Option Error × HolderEvent)
  pub later : S → S
  pub context : Option Sentinel
  pub waits : Waits S

-- `OnStarted` and `OnStopped` of a policy; the goroutine of the work starts right after the first.
pub record Hooks (S : Type 0) : Type 0 where
  pub on_started : S → S
  pub on_stopped : S → S

-- Those of a policy that only counts and logs.
abbrev pub no_hooks : {S : Type 0} → Hooks S
no_hooks = record { on_started = λ s. s; on_stopped = λ s. s }

module _ {S : Type 0} (client : RecipeClient S) (policy : Policy) (hooks : Hooks S) (acquired : ℕ)
    (script : HolderScript S) where
  -- The result, once there is one, and the world outside.
  abbrev pub left_loop : HolderNext → S → Option (Option Error) × S
  left_loop (holds h) s = (none, s)
  left_loop (leaves cause primary h) s =
      let (e, s') =
        shutdown client policy acquired (client.valid_until acquired s) script.context cause primary
          script.waits h (hooks.on_stopped s) in
      (some e, s')

  abbrev pub checked_holder : Option Error × S → Option (Option Error) × S
  checked_holder (some e, s) = (some (join policy.loss_error (some e)), s)
  checked_holder (none, s) =
      left_loop (holder_loop policy script.events new_holding) (script.later (hooks.on_started s))

  -- `Run`; a result `none` is a loop that still holds the lease.
  unfoldable pub holder_run : S → Option (Option Error) × S
  unfolding holder_loop shutdown
  holder_run s = checked_holder (client.check_lease acquired s)
