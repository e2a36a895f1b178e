-- ===== src/Recipes/Schedule.antt =====
-- recipes/internal/schedule/schedule.go: the delay with its jitter. `rand.Int64N` is a parameter.
use s3_lease.Prelude.{ℕ, ◌+◌, ◌-◌, ◌*◌, ◌/◌, ◌≤◌, ◌<◌, arith, ltb, ◌==◌, if◌then◌else◌}
use s3_lease.Prelude.Int.{ℤ, pos, negsuc}

-- `1<<63 - 1`
abbrev pub max_int64 : ℕ
max_int64 = 9_223_372_036_854_775_807

abbrev pub jitter_bound : ℕ → ℕ
jitter_bound base =
    let maximum = base / 5 in
    let remaining = max_int64 - base in if ltb remaining maximum then remaining else maximum

-- `Delay`, with the draw below a bound that `rand.Int64N` makes. No sum here leaves an `int64`, as
-- `delay-bounds` states.
unfoldable pub delay : (ℕ → ℕ) → ℤ → ℕ
delay draw (negsuc n) = 0
delay draw (pos base) =
    let maximum = jitter_bound base in
    if base == 0 then 0 else if maximum == 0 then base else base + draw (maximum + 1)

-- For a base that an int64 holds, and a draw below its bound, the delay is the base with at most a
-- fifth of it added, and an int64 holds it.
pub delay-bounds :
    (draw : ℕ → ℕ) (base : ℕ)
    → ((n : ℕ) → 1 ≤ n → draw n < n)
    → base ≤ max_int64
    → (base ≤ delay draw (pos base))
      × (5 * delay draw (pos base) ≤ 6 * base)
      × (delay draw (pos base) ≤ max_int64)
unfolding delay
delay-bounds draw base below in_range =
    let d = below (jitter_bound base + 1) (omega arith) in ground (arith, d, in_range)

-- The delay with its whole jitter.
pub delay-at_most :
    (draw : ℕ → ℕ) (base : ℕ)
    → ((n : ℕ) → 1 ≤ n → draw n < n)
    → delay draw (pos base) ≤ base + base / 5
unfolding delay
delay-at_most draw base below =
    let d = below (jitter_bound base + 1) (omega arith) in ground (arith, d)
