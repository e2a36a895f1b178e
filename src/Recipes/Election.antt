-- ===== src/Recipes/Election.antt =====
-- recipes/leaderelection/leaderelection.go: the construction of an elector, its single use, and the
-- observer of the elected leader.
pub mod Run
pub mod Terms
use s3_lease.Prelude.{
  ℕ, suc, ◌-◌, ◌/◌, ◌≤◌, ◌≡◌, refl, arith, Bool, true, false, ◌&&◌, ◌||◌, not, is_some, Option,
  none, some, List, [], ◌∷◌, leb, if◌then◌else◌,
}
use s3_lease.Lease.Operations.{Observation}
use s3_lease.Recipes.Acquire.{Acquirer, observation_retryable}
use s3_lease.Recipes.Observer.{Dispatcher, submit}
use s3_lease.Prelude.Int.{ℤ, pos, leb_ℤ, pos_part}
use s3_lease.Lease.Errors.{
  Error, Result, ok, err, sentinel, annotated, invalid_config, run_already_used,
}
use s3_lease.Lease.Config.{Interface, is_nil_interface}

-- `Config`, with the timing of its client and which callbacks are there.
pub record ElectorConfig : Type 0 where
  pub client : Interface
  pub client_renew_deadline : ℕ
  pub has_start_callback : Bool
  pub has_stop_callback : Bool
  pub has_observation_callback : Bool
  pub release_on_cancel : Bool
  pub retry_period : ℤ
  pub observe_interval : ℤ
  pub shutdown_timeout : ℤ

-- `Elector`
pub record Elector : Type 0 where
  pub config : ElectorConfig
  pub used : Bool

-- `New`
unfoldable pub new_elector : ElectorConfig → Result Elector
unfolding is_nil_interface
new_elector config =
    let retry = pos_part config.retry_period in
    if is_nil_interface config.client
    then err (annotated (sentinel invalid_config))
    else if not config.has_start_callback
    then err (annotated (sentinel invalid_config))
    else if leb_ℤ config.retry_period (pos 0)
        || leb_ℤ config.observe_interval (pos 0)
        || leb_ℤ config.shutdown_timeout (pos 0)
    then err (annotated (sentinel invalid_config))
    else if leb config.client_renew_deadline retry
        || leb (config.client_renew_deadline - retry) (retry / 5)
    then err (annotated (sentinel invalid_config))
    else ok (record { config = config; used = false })

-- `enter`
unfoldable pub enter_election : Elector → Bool × Elector
enter_election e = if e.used then (false, e) else (true, record e { used = true })

-- What `Run` does first: it refuses a context that is nil, and a second run.
unfoldable pub admit_run : (has_context : Bool) → Elector → Option Error × Elector
unfolding enter_election
admit_run has_context e =
    let (first, e') = enter_election e in
    if not has_context
    then (some (annotated (sentinel invalid_config)), e)
    else if not first
    then (some (sentinel run_already_used), e')
    else (none, e')

abbrev counted : Option Error → ℕ → ℕ
counted none n = suc n
counted (some e) n = n

-- How many of some calls of `Run` are let through; each has a context or not.
unfoldable pub runs_admitted : List Bool → Elector → ℕ
unfolding admit_run
runs_admitted [] e = 0
runs_admitted (has_context ∷ calls) e =
    let (refused, e') = admit_run has_context e in counted refused (runs_admitted calls e')

used_none : (calls : List Bool) (e : Elector) → e.used ≡ true → runs_admitted calls e ≡ 0
unfolding runs_admitted admit_run enter_election
used_none [] e h = refl
used_none (c ∷ calls) e h = let k = used_none calls e h in ground (arith, h, k)

-- Of any calls of Run on one elector, at most one is let through.
pub single_run : (calls : List Bool) (e : Elector) → runs_admitted calls e ≤ 1
unfolding runs_admitted admit_run enter_election
single_run [] e = omega arith
single_run (c ∷ calls) e =
    let k = single_run calls e in
    let z = used_none calls (record e { used = true }) refl in ground (arith, k, z)

-- What a turn of `startElectedObserver` leads to: another one, or its end, with a fatal error for the
-- holder where there is one.
pub data ObserverNext : Type 0 where
  observes_again : ObserverNext
  observer_ends : Option Error → ObserverNext

module _ {S H : Type 0} (a : Acquirer S H) where
  abbrev pub after_elected :
      Result Observation × S → Dispatcher → ObserverNext × (Option Observation × Dispatcher) × S
  after_elected (ok o, s) d = (observes_again, submit o d, s)
  after_elected (err e, s) d =
      if not (is_some (a.context_error s)) && not (observation_retryable a s e)
      then (observer_ends (some e), (none, d), s)
      else (observes_again, (none, d), s)

  -- A turn once the timer has fired, with the observation for which the dispatcher starts a goroutine.
  unfoldable pub elected_round :
      Dispatcher → S → ObserverNext × (Option Observation × Dispatcher) × S
  unfolding observation_retryable submit
  elected_round d s = after_elected (a.observe_lease s) d
