-- ===== src/Recipes/Acquire/Outcomes.antt =====
-- How the loop of recipes/internal/acquire/acquire.go may end.
use s3_lease.Prelude.{
  ◌≡◌, refl, ◌⊎◌, inl, inr, arith, Bool, true, false, not, Option, none, some, List, [], ◌∷◌,
  if◌then◌else◌,
}
use s3_lease.Lease.Errors.{Error, Result, ok, err}
use s3_lease.Lease.Operations.{Observation}
use s3_lease.Recipes.Acquire.{
  Acquirer, Wake, context_done, retry_due, observe_due, retryable, observation_retryable,
  after_error, after_require, told, after_observation_error, unless_done, after_observe, wake,
  or_waits, acquire_loop, acquire_run,
}

module _ {S H : Type 0} (a : Acquirer S H) where
  -- What an end stands for: a lease is what the last `Require` gave, and an error is the one of the
  -- context or one that is not retried.
  abbrev pub Justified : Option (Result H) × S → Type 0
  Justified (none, s) = Unit {0}
  Justified (some (ok h), s) = (t : S) × (a.require_lease t ≡ (ok h, s))
  Justified (some (err e), s) =
      (a.context_error s ≡ some e) ⊎ ((a.context_error s ≡ none) × (retryable a s e ≡ false))

  after_error-Justified :
      (c : Option Error) (e : Error) (s : S)
      → a.context_error s ≡ c
      → Justified (after_error a c e s, s)
  after_error-Justified (some c) e s k = inl k
  after_error-Justified none e s k = refused (retryable a s e) refl
    where
      refused :
          (b : Bool) → retryable a s e ≡ b → Justified ((if not b then some (err e) else none), s)
      refused true q = tt
      refused false q = inr (k, q)

  after_require-Justified :
      (t : S) (x : Result H × S) → a.require_lease t ≡ x → Justified (after_require a x)
  after_require-Justified t (ok h, s) k = (t, k)
  after_require-Justified t (err e, s) k = after_error-Justified (a.context_error s) e s refl

  unless_done-Justified :
      (c : Option Error) (s : S) → a.context_error s ≡ c → Justified (unless_done a c, s)
  unless_done-Justified none s k = tt
  unless_done-Justified (some e) s k = inl k

  after_observation_error-Justified :
      (c : Option Error) (e : Error) (s : S)
      → a.context_error s ≡ c
      → Justified (after_observation_error a c e s, s)
  unfolding observation_retryable
  after_observation_error-Justified (some c) e s k = inl k
  after_observation_error-Justified none e s k = refused (observation_retryable a s e) refl
    where
      refused :
          (b : Bool)
          → observation_retryable a s e ≡ b
          → Justified ((if not b then some (err e) else none), s)
      refused true q = tt
      refused false q = inr (k, ground (arith, q))

  after_observe-Justified : (x : Result Observation × S) → Justified (after_observe a x)
  after_observe-Justified (ok o, s) =
      unless_done-Justified (a.context_error (told a a.on_observation o s)) _ refl
  after_observe-Justified (err e, s) =
      after_observation_error-Justified (a.context_error s) e s refl

  wake-Justified : (w : Wake) (s : S) → Justified (wake a w s)
  unfolding wake
  wake-Justified context_done s = unless_done-Justified (a.context_error s) s refl
  wake-Justified retry_due s = after_require-Justified s (a.require_lease s) refl
  wake-Justified observe_due s = after_observe-Justified (a.observe_lease s)

  or_waits-Justified :
      (r : Option (Result H)) (s : S) (more : Option (Result H) × S)
      → Justified (r, s)
      → Justified more
      → Justified (or_waits a r s more)
  or_waits-Justified none s more k l = l
  or_waits-Justified (some r) s more k l = k

  acquire_loop-Justified : (wakes : List Wake) (s : S) → Justified (acquire_loop a wakes s)
  unfolding acquire_loop
  acquire_loop-Justified [] s = tt
  acquire_loop-Justified (w ∷ wakes) s =
      or_waits-Justified (wake a w s).0 (wake a w s).1 _ (wake-Justified w s)
        (acquire_loop-Justified wakes (wake a w s).1)

  -- The acquisition loop ends only with the lease that a Require gave, with the error of the
  -- context, or with an error that is not retried while the context has none.
  pub acquire_run-Justified : (wakes : List Wake) (s : S) → Justified (acquire_run a wakes s)
  unfolding acquire_run
  acquire_run-Justified wakes s =
      or_waits-Justified (after_require a (a.require_lease s)).0
        (after_require a (a.require_lease s)).1 _
        (after_require-Justified s (a.require_lease s) refl)
        (acquire_loop-Justified wakes (after_require a (a.require_lease s)).1)
