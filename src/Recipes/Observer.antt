-- ===== src/Recipes/Observer.antt =====
-- recipes/leaderelection/observer.go: the dispatcher that runs the observation callback. Its context
-- and the metrics have no effect on what is delivered; a cancelled context is noted.
pub mod Delivery
use s3_lease.Prelude.{
  ℕ, zero, suc, Bool, true, false, ◌&&◌, ◌||◌, not, Option, none, some, List, [], ◌∷◌, ◌==◌, str_eq,
  if◌then◌else◌,
}
use s3_lease.Lease.Operations.{Observation}

-- `observerDispatcher`
pub record Dispatcher : Type 0 where
  pub has_callback : Bool
  pub pending : Option Observation
  pub last : Observation
  pub seen : Bool
  pub running : Bool
  pub stopped : Bool
  pub canceled : Bool

abbrev pub zero_observation : Observation
zero_observation = record {
  lease_uid = "";
  client_id = "";
  epoch_id = 0;
  sequence_id = 0;
  read_at = 0;
}

-- `newObserverDispatcher`
abbrev pub new_dispatcher : (has_callback : Bool) → Dispatcher
new_dispatcher has_callback = record {
  has_callback = has_callback;
  pending = none;
  last = zero_observation;
  seen = false;
  running = false;
  stopped = false;
  canceled = false;
}

abbrev pub same_ownership : Observation → Observation → Bool
same_ownership a b = str_eq a.client_id b.client_id && a.epoch_id == b.epoch_id

-- `Submit`, with the observation for which it starts a goroutine.
unfoldable pub submit : Observation → Dispatcher → Option Observation × Dispatcher
submit o d =
    let noted = record d { last = o; seen = true } in
    if not d.has_callback
    then (none, d)
    else if d.stopped || d.seen && same_ownership d.last o
    then (none, d)
    else if d.running
    then (none, record noted { pending = some o })
    else (some o, record noted { running = true })

abbrev pub next_pending : Option Observation → Dispatcher → Option Observation × Dispatcher
next_pending none d = (none, record d { running = false })
next_pending (some o) d = (some o, record d { pending = none })

-- The critical section of `deliver` once the callback has returned, with the observation of the next
-- round.
unfoldable pub after_callback : Dispatcher → Option Observation × Dispatcher
after_callback d =
    if d.stopped then (none, record d { running = false }) else next_pending d.pending d

-- `Stop`
unfoldable pub stop : Dispatcher → Dispatcher
stop d = if d.stopped then d else record d { stopped = true; pending = none; canceled = true }
