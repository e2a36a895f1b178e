-- ===== src/Recipes/Acquire/Keeping.antt =====
-- What the acquisition loop of recipes/internal/acquire/acquire.go keeps of the world outside: all
-- that its calls and its callback keep.
use s3_lease.Prelude.{Option, none, some, List, [], ◌∷◌}
use s3_lease.Lease.Errors.{Result, ok, err}
use s3_lease.Lease.Operations.{Observation}
use s3_lease.Recipes.Acquire.{
  Acquirer, Wake, context_done, retry_due, observe_due, after_require, told, after_observe, wake,
  or_waits, acquire_loop, acquire_run,
}

-- `P` of the state that comes with a result.
abbrev pub Kept : {S A : Type 0} → (S → Type 0) → A × S → Type 0
Kept P x = P x.1

-- The calls of the loop keep `P`.
pub record AcquirerKeeps {S H : Type 0} (a : Acquirer S H) (P : S → Type 0) : Type 0 where
  pub requires : (s : S) → P s → Kept P (a.require_lease s)
  pub observes : (s : S) → P s → Kept P (a.observe_lease s)
  pub tells : (o : Observation) (s : S) → P s → P (told a a.on_observation o s)

module _ {S H : Type 0} (a : Acquirer S H) (P : S → Type 0) (keeps : AcquirerKeeps a P) where
  after_require-Kept : (x : Result H × S) → Kept P x → Kept P (after_require a x)
  after_require-Kept (ok h, s) k = k
  after_require-Kept (err e, s) k = k

  after_observe-Kept : (x : Result Observation × S) → Kept P x → Kept P (after_observe a x)
  after_observe-Kept (ok o, s) k = keeps.tells o s k
  after_observe-Kept (err e, s) k = k

  wake-Kept : (w : Wake) (s : S) → P s → Kept P (wake a w s)
  unfolding wake
  wake-Kept context_done s k = k
  wake-Kept retry_due s k = after_require-Kept (a.require_lease s) (keeps.requires s k)
  wake-Kept observe_due s k = after_observe-Kept (a.observe_lease s) (keeps.observes s k)

  or_waits-Kept :
      (r : Option (Result H)) (s : S) (more : Option (Result H) × S)
      → P s
      → Kept P more
      → Kept P (or_waits a r s more)
  or_waits-Kept none s more k l = l
  or_waits-Kept (some r) s more k l = k

  acquire_loop-Kept : (wakes : List Wake) (s : S) → P s → Kept P (acquire_loop a wakes s)
  unfolding acquire_loop
  acquire_loop-Kept [] s k = k
  acquire_loop-Kept (w ∷ wakes) s k =
      let l = wake-Kept w s k in
      or_waits-Kept (wake a w s).0 (wake a w s).1 _ l (acquire_loop-Kept wakes (wake a w s).1 l)

  pub acquire_run-Kept : (wakes : List Wake) (s : S) → P s → Kept P (acquire_run a wakes s)
  unfolding acquire_run
  acquire_run-Kept wakes s k =
      let first = after_require a (a.require_lease s) in
      let l = after_require-Kept (a.require_lease s) (keeps.requires s k) in
      or_waits-Kept first.0 first.1 _ l (acquire_loop-Kept wakes first.1 l)
