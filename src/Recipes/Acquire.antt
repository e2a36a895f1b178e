-- ===== src/Recipes/Acquire.antt =====
-- recipes/internal/acquire/acquire.go: the loop that retries an acquisition. The client, the context
-- and the callback act on the state of the world outside; which channel of the `select` is ready is
-- given, one after the other.
pub mod Outcomes
pub mod Keeping
pub mod Progress
use s3_lease.Prelude.{
  Bool, true, false, ◌||◌, not, Option, none, some, List, [], ◌∷◌, is_some, if◌then◌else◌,
}
use s3_lease.Lease.Errors.{
  Error, Result, ok, err, error_is, not_eligible, conflict, unknown_outcome, unavailable,
  deadline_exceeded, not_found,
}
use s3_lease.Lease.Operations.{Observation}

-- What the loop calls: `Require`, `Observe`, `ctx.Err` and `OnObservation`, which may be absent.
-- `H` are the handles of leases.
pub record Acquirer (S H : Type 0) : Type 0 where
  pub require_lease : S → Result H × S
  pub observe_lease : S → Result Observation × S
  pub context_error : S → Option Error
  pub on_observation : Option (Observation → S → S)

-- A channel of the `select` that is ready.
pub data Wake : Type 0 where
  context_done retry_due observe_due : Wake

module _ {S H : Type 0} (a : Acquirer S H) where
  -- `Retryable`
  unfoldable pub retryable : S → Error → Bool
  unfolding error_is
  retryable s e =
      if is_some (a.context_error s)
      then false
      else error_is e not_eligible
        || error_is e conflict
        || error_is e unknown_outcome
        || error_is e unavailable
        || error_is e deadline_exceeded

  -- `ObservationRetryable`
  unfoldable pub observation_retryable : S → Error → Bool
  unfolding retryable
  observation_retryable s e = retryable s e || error_is e not_found

  -- What follows an attempt: its lease, an error, or another round (`none`).
  abbrev pub after_error : Option Error → Error → S → Option (Result H)
  after_error (some c) e s = some (err c)
  after_error none e s = if not (retryable s e) then some (err e) else none

  abbrev pub after_require : Result H × S → Option (Result H) × S
  after_require (ok h, s) = (some (ok h), s)
  after_require (err e, s) = (after_error (a.context_error s) e s, s)

  abbrev pub told : Option (Observation → S → S) → Observation → S → S
  told none o s = s
  told (some callback) o s = callback o s

  abbrev pub after_observation_error : Option Error → Error → S → Option (Result H)
  after_observation_error (some c) e s = some (err c)
  after_observation_error none e s = if not (observation_retryable s e) then some (err e) else none

  abbrev pub unless_done : Option Error → Option (Result H)
  unless_done none = none
  unless_done (some c) = some (err c)

  abbrev pub after_observe : Result Observation × S → Option (Result H) × S
  after_observe (ok o, s) =
      let told_s = told a.on_observation o s in (unless_done (a.context_error told_s), told_s)
  after_observe (err e, s) = (after_observation_error (a.context_error s) e s, s)

  -- One turn of the `select`; the first case is ready only once the context is done.
  unfoldable pub wake : Wake → S → Option (Result H) × S
  unfolding retryable observation_retryable
  wake context_done s = (unless_done (a.context_error s), s)
  wake retry_due s = after_require (a.require_lease s)
  wake observe_due s = after_observe (a.observe_lease s)

  abbrev pub or_waits : Option (Result H) → S → Option (Result H) × S → Option (Result H) × S
  or_waits (some r) s more = (some r, s)
  or_waits none s more = more

  -- The loop through the turns that are given; it waits for more (`none`) where none has ended it.
  unfoldable pub acquire_loop : List Wake → S → Option (Result H) × S
  unfolding wake
  acquire_loop [] s = (none, s)
  acquire_loop (w ∷ wakes) s =
      let (r, s') = wake w s in let more = acquire_loop wakes s' in or_waits r s' more

  -- `Run`
  unfoldable pub acquire_run : List Wake → S → Option (Result H) × S
  unfolding acquire_loop
  acquire_run wakes s =
      let (r, s') = after_require (a.require_lease s) in
      let more = acquire_loop wakes s' in or_waits r s' more
