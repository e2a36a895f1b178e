-- ===== src/Recipes/Mutex.antt =====
-- recipes/mutex: the state of a `Mutex` and of its manual locks, and each section under their mutexes.
-- A lock is shared by pointer; here it is a number, and the state has a store of them.
pub mod Ownership
pub mod Renewal
pub mod Manual
pub mod Timing
pub mod Scoped
use s3_lease.Prelude.{
  ℕ, suc, ◌+◌, ◌-◌, ◌/◌, Bool, true, false, ◌&&◌, ◌||◌, not, Option, none, some, ltb, leb, ◌==◌,
  is_some, or_else, if◌then◌else◌,
}
use s3_lease.Prelude.Int.{ℤ, pos, negsuc, leb_ℤ, pos_part}
use s3_lease.Lease.Errors.{
  Error, Result, ok, err, sentinel, annotated, invalid_config, recipe_busy, lock_not_held,
  work_not_stopped, error_is,
}
use s3_lease.Lease.Config.{Interface, is_nil_interface}

-- `Config`, with the timing of its client; metrics and logger have no effect.
pub record MutexConfig : Type 0 where
  pub client : Interface
  pub client_renew_deadline : ℕ
  pub retry_period : ℤ
  pub observe_interval : ℤ
  pub shutdown_timeout : ℤ
  pub release_on_cancel : Bool

-- `Lock`; its lease is the number of the handle that `Require` gave.
pub record ManualLock : Type 0 where
  pub acquired : ℕ
  pub renew_canceled : Bool
  pub stopped : Bool
  pub pending : Bool
  pub suppress_release : Bool
  pub authority_was_lost : Bool
  pub terminal : Option Error
  pub done : Bool

-- `Mutex`, and the locks that it has made.
pub record MutexState : Type 0 where
  pub busy : Bool
  pub manual : Option ℕ
  pub releasing : Bool
  pub locks : ℕ → ManualLock
  pub made : ℕ

abbrev pub new_lock : ℕ → ManualLock
new_lock acquired = record {
  acquired = acquired;
  renew_canceled = false;
  stopped = false;
  pending = false;
  suppress_release = false;
  authority_was_lost = false;
  terminal = none;
  done = false;
}

abbrev pub new_state : MutexState
new_state = record {
  busy = false;
  manual = none;
  releasing = false;
  locks = λ i. new_lock 0;
  made = 0;
}

-- `New`. Durations are positive where they are subtracted and divided.
unfoldable pub new_mutex : MutexConfig → Result MutexState
unfolding is_nil_interface
new_mutex config =
    let retry = pos_part config.retry_period in
    if is_nil_interface config.client
    then err (annotated (sentinel invalid_config))
    else if leb_ℤ config.retry_period (pos 0)
        || leb_ℤ config.observe_interval (pos 0)
        || leb_ℤ config.shutdown_timeout (pos 0)
    then err (annotated (sentinel invalid_config))
    else if leb config.client_renew_deadline retry
        || leb (config.client_renew_deadline - retry) (retry / 5)
    then err (annotated (sentinel invalid_config))
    else ok new_state

-- ------------------------------------------------------------------ sections under `Mutex.mu`

-- `enter`
unfoldable pub enter : MutexState → Bool × MutexState
enter m = if m.busy then (false, m) else (true, record m { busy = true })

abbrev pub names_stop : Option Error → Bool
names_stop none = false
names_stop (some e) = error_is e work_not_stopped

-- `clearBusy`
unfoldable pub clear_busy : MutexState → MutexState
clear_busy m = record m { busy = false; manual = none; releasing = false }

abbrev pub is_lock : Option ℕ → ℕ → Bool
is_lock none i = false
is_lock (some j) i = j == i

-- `m.manual == held`
abbrev pub is_manual : MutexState → ℕ → Bool
is_manual m i = is_lock m.manual i

-- The section of `TryLock` that installs the new lock.
unfoldable pub install_lock : ℕ → MutexState → MutexState
install_lock acquired m = record m {
  manual = some m.made;
  locks = λ j. if j == m.made then new_lock acquired else m.locks j;
  made = m.made + 1;
}

-- `beginRelease`
unfoldable pub begin_release : ℕ → MutexState → Option Error × MutexState
begin_release i m =
    if not m.busy || not (is_manual m i)
    then (some (sentinel lock_not_held), m)
    else if m.releasing
    then (some (sentinel recipe_busy), m)
    else (none, record m { releasing = true })

-- `finish` of `WithLock`: whether a goroutine is left to clear the mutex once the lease retires. A
-- mutex whose work did not stop stays busy. `checked` is the `Check` of the lease.
unfoldable pub finish_scoped : (run checked : Option Error) → MutexState → Bool × MutexState
unfolding error_is clear_busy
finish_scoped run checked m =
    if names_stop run
    then (false, m)
    else if not (is_some checked)
    then (true, m)
    else (false, clear_busy m)

-- `clearManual`, and what `abandonManual` does once the lease has retired.
unfoldable pub clear_manual : ℕ → MutexState → MutexState
clear_manual i m =
    if is_manual m i then record m { manual = none; busy = false; releasing = false } else m

-- The section of `abandonManual` itself.
unfoldable pub mark_abandoned : ℕ → MutexState → MutexState
mark_abandoned i m = if is_manual m i then record m { releasing = true } else m

-- ------------------------------------------------------------------ sections under `Lock.mu`

abbrev pub set_lock : ℕ → ManualLock → MutexState → MutexState
set_lock i l m = record m { locks = λ j. if j == i then l else m.locks j }

-- `retire`
unfoldable pub retire : ℕ → Option Error → MutexState → MutexState
retire i e m =
    let l = m.locks i in
    set_lock i (record l { terminal = if is_some l.terminal then l.terminal else e; done = true }) m

-- `clearPending`
unfoldable pub clear_lock_pending : ℕ → MutexState → MutexState
clear_lock_pending i m = set_lock i (record (m.locks i) { pending = false }) m
