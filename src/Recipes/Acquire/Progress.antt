-- ===== src/Recipes/Acquire/Progress.antt =====
-- That the acquisition loop of recipes/internal/acquire/acquire.go gets the lease in the end.
use s3_lease.Prelude.{ℕ, suc, ◌≤◌, ◌≡◌, arith, true, Option, none, some, List, [], ◌∷◌}
use s3_lease.Lease.Errors.{Result, ok, err}
use s3_lease.Lease.Operations.{Observation}
use s3_lease.Recipes.Acquire.{
  Acquirer, Wake, context_done, retry_due, observe_due, retryable, observation_retryable,
  after_require, told, after_observe, wake, or_waits, acquire_loop, acquire_run,
}

-- How many attempts the turns have room for.
abbrev pub retries : List Wake → ℕ
retries [] = 0
retries (retry_due ∷ wakes) = suc (retries wakes)
retries (w ∷ wakes) = retries wakes

module _ {S H : Type 0} (a : Acquirer S H) where
  -- An attempt at `s` gives the lease, or fails in a way that is retried and leaves fewer failures.
  abbrev pub Advances : (S → ℕ) → S → Result H × S → Type 0
  Advances left s (ok h, t) = Unit {0}
  Advances left s (err e, t) = (retryable a t e ≡ true) × (suc (left t) ≤ left s)

  -- A poll does not add failures, and where it fails it is retried.
  abbrev pub Harmless : (S → ℕ) → S → Result Observation × S → Type 0
  Harmless left s (ok o, t) = left (told a a.on_observation o t) ≤ left s
  Harmless left s (err e, t) = (observation_retryable a t e ≡ true) × (left t ≤ left s)

  -- The context lasts, and at `s` at most `left s` attempts fail before one gives the lease.
  pub record Available (left : S → ℕ) : Type 0 where
    pub lasting : (s : S) → a.context_error s ≡ none
    pub requires : (s : S) → Advances left s (a.require_lease s)
    pub observes : (s : S) → Harmless left s (a.observe_lease s)

  -- A turn gives the lease, or leaves the loop waiting with fewer failures to come than that.
  abbrev Waiting : ℕ → (S → ℕ) → Option (Result H) × S → Type 0
  Waiting n left (none, s) = suc (left s) ≤ n
  Waiting n left (some (ok h), s) = Unit {0}
  Waiting n left (some (err e), s) = ⊥

  -- The lease is got.
  abbrev pub Acquires : Option (Result H) × S → Type 0
  Acquires (some (ok h), s) = Unit {0}
  Acquires (some (err e), s) = ⊥
  Acquires (none, s) = ⊥

module _ {S H : Type 0} (a : Acquirer S H) (left : S → ℕ) (available : Available a left) where
  after_require-Waiting :
      (n : ℕ) (s : S) (x : Result H × S)
      → left s ≤ n
      → Advances a left s x
      → Waiting a n left (after_require a x)
  after_require-Waiting n s (ok h, t) k l = tt
  after_require-Waiting n s (err e, t) k (r, l) =
      rw (available.lasting t) (rw r (omega (arith, k, l)))

  after_observe-Waiting :
      (n : ℕ) (s : S) (x : Result Observation × S)
      → suc (left s) ≤ n
      → Harmless a left s x
      → Waiting a n left (after_observe a x)
  after_observe-Waiting n s (ok o, t) k l =
      rw (available.lasting (told a a.on_observation o t)) (omega (arith, k, l))
  after_observe-Waiting n s (err e, t) k (r, l) =
      rw (available.lasting t) (rw r (omega (arith, k, l)))

  or_waits-Acquires :
      (n : ℕ) (r : Option (Result H)) (s : S) (more : Option (Result H) × S)
      → Waiting a n left (r, s)
      → (suc (left s) ≤ n → Acquires a more)
      → Acquires a (or_waits a r s more)
  or_waits-Acquires n none s more k l = l k
  or_waits-Acquires n (some (ok h)) s more k l = tt
  or_waits-Acquires n (some (err e)) s more k l = k

  acquire_loop-Acquires :
      (wakes : List Wake) (s : S)
      → suc (left s) ≤ retries wakes
      → Acquires a (acquire_loop a wakes s)
  unfolding acquire_loop wake
  acquire_loop-Acquires [] s k = absurd (omega (arith, k))
  acquire_loop-Acquires (context_done ∷ wakes) s k =
      rw (available.lasting s) (acquire_loop-Acquires wakes s k)
  acquire_loop-Acquires (retry_due ∷ wakes) s k =
      let n = retries wakes in
      let x = after_require a (a.require_lease s) in
      or_waits-Acquires n x.0 x.1 _
        (after_require-Waiting n s (a.require_lease s) (omega (arith, k)) (available.requires s))
        (λ l. acquire_loop-Acquires wakes x.1 l)
  acquire_loop-Acquires (observe_due ∷ wakes) s k =
      let n = retries wakes in
      let x = after_observe a (a.observe_lease s) in
      or_waits-Acquires n x.0 x.1 _
        (after_observe-Waiting n s (a.observe_lease s) k (available.observes s))
        (λ l. acquire_loop-Acquires wakes x.1 l)

  -- While the context lasts, every failed attempt and poll is retried, and at most as many
  -- attempts fail as the turns have retries, the loop gets the lease.
  pub acquire_run-Acquires :
      (wakes : List Wake) (s : S) → left s ≤ retries wakes → Acquires a (acquire_run a wakes s)
  unfolding acquire_run
  acquire_run-Acquires wakes s k =
      let n = retries wakes in
      let x = after_require a (a.require_lease s) in
      or_waits-Acquires n x.0 x.1 _
        (after_require-Waiting n s (a.require_lease s) k (available.requires s))
        (λ l. acquire_loop-Acquires wakes x.1 l)
