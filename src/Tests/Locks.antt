-- ===== src/Tests/Locks.antt =====
-- The recipes against clients whose replies are given, and what the theorems say of them.
use s3_lease.Prelude.{
  Bool, ℕ, ◌+◌, ◌-◌, ◌≤◌, ◌<◌, ◌≡◌, refl, arith, true, false, Option, none, some, List, [], ◌∷◌,
  ltb, ◌==◌, if◌then◌else◌,
}
use s3_lease.Prelude.Int.{pos}
use s3_lease.Lease.Errors.{
  Error, Result, ok, err, sentinel, error_is, not_eligible, canceled, unavailable, unknown_outcome,
  invalid_lease,
}
use s3_lease.Lease.Operations.{Observation}
use s3_lease.Recipes.Client.{RecipeClient}
use s3_lease.Recipes.Schedule.{delay}
use s3_lease.Recipes.Observer.{submit, stop, after_callback, zero_observation}
use s3_lease.Recipes.Observer.Delivery.{
  DispatchEvent, submits, returns, Deliveries, new_deliveries, dispatch, dispatch_all, Newest,
  dispatch_all-Newest,
}
use s3_lease.Recipes.Acquire.{
  Acquirer, Wake, retry_due, observe_due, retryable, observation_retryable, wake, acquire_loop,
  acquire_run,
}
use s3_lease.Recipes.Acquire.Progress.{Advances, Available, Acquires, acquire_run-Acquires}
use s3_lease.Recipes.Acquire.Outcomes.{Justified, acquire_run-Justified}
use s3_lease.Lease.Config.{present, is_nil_interface}
use s3_lease.Recipes.Election.{Elector, elected_round}
use s3_lease.Recipes.Election.Run.{
  ElectionScript, ElectionEnd, run_returned, let_return, elected_turns, observe_elected,
  open_events, close_campaign, stopped_leading, campaign,
}
use s3_lease.Recipes.Election.Terms.{InTerm, campaign-InTerm}
use s3_lease.Recipes.Holder.{
  renew_due as renewal_due, Policy, caller_canceled, Holding, new_holding, HolderEvent, work_ends,
  renew_replies, renewal_result, holder_step, holder_loop,
}
use s3_lease.Recipes.Holder.Renewals.{Remembered, holder_loop-Remembered}
use s3_lease.Recipes.Holder.Shutdown.{Waits, release_tries, shutdown, expired}
use s3_lease.Recipes.Holder.Cleanup.{
  traced, traced_waits, CleanedUp, awaited_at, shutdown-CleanedUp,
}
use s3_lease.Recipes.Holder.Run.{HolderScript, holder_run}
use s3_lease.Recipes.Mutex.Scoped.{FreeOrWaits, with_lock, with_lock-FreeOrWaits}
use s3_lease.Recipes.Mutex.Timing.{renewal_in_time}
use s3_lease.Recipes.Mutex.{MutexConfig, new_mutex, new_state, install_lock, begin_release}
use s3_lease.Recipes.Mutex.Ownership.{
  MutexEvent, try_enters, try_locks, scope_enters, release_begins, clears, no_users, mutex_run,
  held, in_use, one_lifecycle, released_once,
}
use s3_lease.Recipes.Mutex.Renewal.{
  renew_due, stop_asked, OwnedEnd, renew_loop, renew_loop-OwnedEnd, result_of,
}
use s3_lease.Recipes.Mutex.Manual.{Desk, Settled, stop_renewal, release_manual, release_settles}

abbrev leader : ℕ → Observation
leader epoch = record zero_observation { client_id = "a"; epoch_id = epoch }

-- A callback that takes long: the second observation waits, and the third replaces it.
abbrev slow : List DispatchEvent
slow = submits (leader 1) ∷ submits (leader 2) ∷ submits (leader 3) ∷ returns 0 ∷ returns 0 ∷ []

dispatch_all-Newest_example :
    Newest
      (dispatch_all slow (new_deliveries true)).dispatcher.last
      (dispatch_all slow (new_deliveries true)).started
unfolding dispatch_all dispatch submit after_callback
dispatch_all-Newest_example = dispatch_all-Newest true slow refl refl refl

abbrev halted : Deliveries
halted = record (new_deliveries true) {
  dispatcher = record (new_deliveries true).dispatcher { stopped = true };
}

-- A client that gets the lease at its third attempt; the state counts the attempts.
abbrev patient : Acquirer ℕ ℕ
patient = record {
  require_lease = λ n. (if n == 2 then ok 7 else err (sentinel not_eligible), n + 1);
  observe_lease = λ n. (ok (leader n), n);
  context_error = λ n. none;
  on_observation = none;
}

abbrev turns : List Wake
turns = retry_due ∷ observe_due ∷ retry_due ∷ []

acquire_run-Justified_example : Justified patient (acquire_run patient turns 0)
acquire_run-Justified_example = acquire_run-Justified patient turns 0

abbrev require_steady : Bool → ℕ → Result ℕ × ℕ
require_steady true n = (err (sentinel not_eligible), n + 1)
require_steady false n = (ok 7, n)

require_steady-Advances :
    (b : Bool) (n : ℕ) → ltb n 2 ≡ b → Advances patient (λ m. 2 - m) n (require_steady b n)
unfolding retryable error_is
require_steady-Advances true n e = (refl, ground (arith, e))
require_steady-Advances false n e = tt

-- A client that has failed often enough by its third attempt.
abbrev steady : Acquirer ℕ ℕ
steady = record patient { require_lease = λ n. require_steady (ltb n 2) n }

steady-Available : Available steady (λ n. 2 - n)
unfolding retryable error_is
steady-Available = record {
  lasting = λ n. refl;
  requires = λ n. require_steady-Advances (ltb n 2) n refl;
  observes = λ n. omega arith;
}

acquire_run-Acquires_example : Acquires steady (acquire_run steady turns 0)
acquire_run-Acquires_example =
    acquire_run-Acquires steady (λ n. 2 - n) steady-Available turns 0 (omega arith)

-- A lock that is tried, taken and released twice, while a scoped lifecycle is refused.
abbrev contended : List MutexEvent
contended =
    try_enters
    ∷ try_locks 5
    ∷ scope_enters
    ∷ release_begins 0
    ∷ release_begins 0
    ∷ clears 0
    ∷ scope_enters
    ∷ []

one_lifecycle_example :
    (mutex_run contended no_users).trying
      + (mutex_run contended no_users).scoped
      + held (mutex_run contended no_users).mutex.manual
    ≡ in_use (mutex_run contended no_users).mutex.busy
one_lifecycle_example = one_lifecycle contended

released_once_example : (mutex_run contended no_users).admitted 0 ≤ 1
released_once_example = released_once contended 0

-- A client whose writes have no known outcome; the state is the time.
abbrev cut_off : RecipeClient ℕ
cut_off = record {
  require_lease = λ t. (ok 5, t);
  renew_lease = λ deadline h t. (some (sentinel unknown_outcome), t + 1);
  release_lease = λ deadline h t. (some (sentinel unavailable), t + 1);
  check_lease = λ h t. (if ltb t 9 then none else some (sentinel invalid_lease), t);
  valid_until = λ h t. 9;
  now = λ t. t;
}

renew_loop-OwnedEnd_example :
    OwnedEnd cut_off (renew_loop cut_off 5 true (renew_due false ∷ stop_asked ∷ []) 3)
renew_loop-OwnedEnd_example =
    renew_loop-OwnedEnd cut_off 5 (λ s. (sentinel unknown_outcome, refl))
      (renew_due false ∷ stop_asked ∷ []) 3

abbrev locked : Desk ℕ
locked = record { mutex = install_lock 5 (record new_state { busy = true }); outside = 3 }

release_settles_example : Settled 0 (release_manual cut_off 0 (ok (result_of false)) locked).1.mutex
unfolding begin_release install_lock stop_renewal
release_settles_example = release_settles cut_off 0 (ok (result_of false)) locked refl refl

abbrev plain : Policy
plain = record {
  release_on_work_return = true;
  release_on_cancel = true;
  loss_error = none;
  work_not_stopped_error = none;
}

-- A renewal whose outcome is unknown, and then twice no answer.
abbrev silence : List (Option Error × HolderEvent)
silence =
    (none, renewal_due)
    ∷ (none, renew_replies (some (sentinel unavailable)))
    ∷ (none, renewal_due)
    ∷ (some (sentinel canceled), renew_replies (some (sentinel unknown_outcome)))
    ∷ []

abbrev in_doubt : Holding
in_doubt = record new_holding { renewal_pending = true }

holder_loop-Remembered_example : Remembered (holder_loop plain silence in_doubt)
holder_loop-Remembered_example =
    holder_loop-Remembered plain silence in_doubt tt (record { pending = refl; resolving = tt })

-- The work stops in time, after the caller has cancelled.
abbrev in_time : Waits ℕ
in_time = record { work = some none; renewal = none; meanwhile = λ t. t + 1 }

shutdown-CleanedUp_example :
    CleanedUp cut_off plain 5 9 caller_canceled true
      (awaited_at cut_off plain 5 9 in_time in_doubt 3)
      (expired cut_off plain 5 9 4)
      (shutdown
        (traced cut_off)
        plain
        5
        9
        none
        caller_canceled
        none
        (traced_waits in_time)
        in_doubt
        ([], 3))
shutdown-CleanedUp_example =
    shutdown-CleanedUp cut_off plain 5 9 none caller_canceled none in_time in_doubt 3

abbrev mutex_config : MutexConfig
mutex_config = record {
  client = present;
  client_renew_deadline = 20;
  retry_period = pos 10;
  observe_interval = pos 10;
  shutdown_timeout = pos 10;
  release_on_cancel = true;
}

renewal_in_time_example : delay (λ n. n - 1) (pos 10) < 20
unfolding new_mutex is_nil_interface
renewal_in_time_example =
    renewal_in_time (λ n. n - 1) mutex_config new_state (λ n h. omega (arith, h)) refl

abbrev elector : Elector
elector = record {
  config = record {
    client = present;
    client_renew_deadline = 20;
    has_start_callback = true;
    has_stop_callback = true;
    has_observation_callback = true;
    release_on_cancel = true;
    retry_period = pos 10;
    observe_interval = pos 10;
    shutdown_timeout = pos 10;
  };
  used = false;
}

-- The work returns at once, and nobody waits for the caller.
abbrev brief : HolderScript ℕ
brief = record {
  events = (none, work_ends none) ∷ [];
  later = λ t. t + 1;
  context = none;
  waits = record { work = none; renewal = none; meanwhile = λ t. t };
}

abbrev idle_desk : Desk ℕ
idle_desk = record { mutex = new_state; outside = 0 }

with_lock-FreeOrWaits_example :
    FreeOrWaits cut_off mutex_config brief
      (with_lock cut_off mutex_config brief patient turns true true idle_desk)
with_lock-FreeOrWaits_example =
    with_lock-FreeOrWaits cut_off mutex_config brief patient turns idle_desk refl

-- The lease comes at the third attempt, and the work returns at once.
abbrev short_term : ElectionScript ℕ
short_term = record { wakes = turns; returning = []; turns = 1; holder = brief }

term : ElectionEnd
unfolding campaign acquire_run acquire_loop wake retryable observation_retryable error_is let_return
    dispatch submit stop holder_run holder_loop holder_step renewal_result shutdown release_tries
    observe_elected elected_turns elected_round open_events close_campaign stopped_leading
term = (campaign cut_off patient elector.config short_term 0).0

term_returns : term ≡ run_returned (some (sentinel unavailable))
unfolding term
term_returns = refl

campaign-InTerm_example :
    InTerm cut_off patient elector.config short_term 0
      (campaign cut_off patient elector.config short_term 0)
campaign-InTerm_example = campaign-InTerm cut_off patient elector.config short_term 0
