-- ===== src/Recipes/Mutex/Timing.antt =====
-- The timing that `New` of recipes/mutex/mutex.go asks for, and the delay of the first renewal.
use s3_lease.Prelude.{ℕ, ◌+◌, ◌-◌, ◌/◌, ◌≤◌, ◌<◌, ◌≡◌, arith}
use s3_lease.Prelude.Int.{ℤ, pos, negsuc, pos_part}
use s3_lease.Lease.Errors.{ok}
use s3_lease.Recipes.Schedule.{delay, delay-at_most}
use s3_lease.Recipes.Mutex.{MutexConfig, MutexState, new_mutex}

delay-pos_part :
    (draw : ℕ → ℕ) (base : ℤ)
    → ((n : ℕ) → 1 ≤ n → draw n < n)
    → delay draw base ≤ pos_part base + pos_part base / 5
unfolding delay
delay-pos_part draw (pos base) below = delay-at_most draw base below
delay-pos_part draw (negsuc n) below = omega arith

-- In a mutex that New accepts, the first renewal starts, with the whole jitter, before the renew
-- deadline of its client; a draw lies below its bound.
pub renewal_in_time :
    (draw : ℕ → ℕ) (config : MutexConfig) (m : MutexState)
    → ((n : ℕ) → 1 ≤ n → draw n < n)
    → new_mutex config ≡ ok m
    → delay draw config.retry_period < config.client_renew_deadline
unfolding new_mutex
renewal_in_time draw config m below e =
    let bound = delay-pos_part draw config.retry_period below in
    let late : pos_part config.retry_period / 5
        < config.client_renew_deadline - pos_part config.retry_period =
      ground (arith, e) in
    omega (arith, bound, late)
