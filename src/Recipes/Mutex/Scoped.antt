-- ===== src/Recipes/Mutex/Scoped.antt =====
-- `WithLock` of recipes/mutex/mutex.go: the acquisition loop, the holder, and the end of the lifecycle.
use s3_lease.Prelude.{
  ℕ, ◌≡◌, ◌⊎◌, inl, inr, refl, arith, Bool, true, false, ◌||◌, not, Option, none, some, List,
  is_some, if◌then◌else◌, Bool-cases,
}
use s3_lease.Lease.Errors.{
  Error, Result, ok, err, sentinel, annotated, invalid_config, recipe_busy, lease_lost,
  work_not_stopped,
}
use s3_lease.Recipes.Client.{RecipeClient}
use s3_lease.Recipes.Acquire.{Acquirer, Wake, acquire_run}
use s3_lease.Recipes.Holder.{Policy}
use s3_lease.Recipes.Holder.Run.{HolderScript, no_hooks, holder_run}
use s3_lease.Recipes.Mutex.{MutexConfig, MutexState, enter, clear_busy, finish_scoped, names_stop}
use s3_lease.Recipes.Mutex.Manual.{Desk}

-- The policy of `WithLock`.
abbrev pub scoped_policy : MutexConfig → Policy
scoped_policy config = record {
  release_on_work_return = true;
  release_on_cancel = config.release_on_cancel;
  loss_error = some (sentinel lease_lost);
  work_not_stopped_error = some (sentinel work_not_stopped);
}

-- How a call of `WithLock` stands: it waits for the lease, it holds it, or it has returned, and then
-- whether a goroutine is left that clears the mutex once the lease has retired.
pub data ScopedEnd : Type 0 where
  acquiring : ScopedEnd
  holding : ScopedEnd
  returned : Option Error → (waits : Bool) → ScopedEnd

module _ {S : Type 0} (client : RecipeClient S) (config : MutexConfig)
    (script : HolderScript S) where
  abbrev pub finished : ℕ → Option (Option Error) × S → MutexState → ScopedEnd × Desk S
  finished h (none, s) m = (holding, record { mutex = m; outside = s })
  finished h (some e, s) m =
      let (checked, s') = client.check_lease h s in
      let (waits, m') = finish_scoped e checked m in
      (returned e waits, record { mutex = m'; outside = if names_stop e then s else s' })

  abbrev pub after_acquire : Option (Result ℕ) × S → MutexState → ScopedEnd × Desk S
  after_acquire (none, s) m = (acquiring, record { mutex = m; outside = s })
  after_acquire (some (err e), s) m =
      (returned (some e) false, record { mutex = clear_busy m; outside = s })
  after_acquire (some (ok h), s) m =
      finished h (holder_run client (scoped_policy config) no_hooks h script s) m

  -- `WithLock`
  unfoldable pub with_lock :
      (a : Acquirer S ℕ) (wakes : List Wake) (has_context has_work : Bool)
      → Desk S
      → ScopedEnd × Desk S
  unfolding enter clear_busy finish_scoped acquire_run holder_run
  with_lock a wakes has_context has_work d =
      let (free, m) = enter d.mutex in
      if not has_context || not has_work
      then (returned (some (annotated (sentinel invalid_config))) false, d)
      else if not free
      then (returned (some (sentinel recipe_busy)) false, d)
      else after_acquire (acquire_run a wakes d.outside) m

  -- A call that entered and has returned: the mutex is free, or a goroutine waits for the lease, or
  -- the work did not stop.
  abbrev pub FreeOrWaits : ScopedEnd × Desk S → Type 0
  FreeOrWaits (returned e waits, d) =
      (d.mutex.busy ≡ false) ⊎ (waits ≡ true) ⊎ (names_stop e ≡ true)
  FreeOrWaits (s, d) = d.mutex.busy ≡ true

  finish-FreeOrWaits :
      (e checked : Option Error) (m : MutexState)
      → ((finish_scoped e checked m).1.busy ≡ false)
        ⊎ ((finish_scoped e checked m).0 ≡ true)
        ⊎ (names_stop e ≡ true)
  unfolding finish_scoped clear_busy
  finish-FreeOrWaits e checked m = elim (Bool-cases (names_stop e)) [
    | inl s ↦ inr (inr s)
    | inr s ↦ elim (Bool-cases (not (is_some checked))) [
      | inl c ↦ inr (inl (ground (arith, s, c)))
      | inr c ↦ inl (ground (arith, s, c))
    ]
  ]

  finished-FreeOrWaits :
      (h : ℕ) (x : Option (Option Error) × S) (m : MutexState)
      → m.busy ≡ true
      → FreeOrWaits (finished h x m)
  finished-FreeOrWaits h (none, s) m b = b
  finished-FreeOrWaits h (some e, s) m b = finish-FreeOrWaits e (client.check_lease h s).0 m

  after_acquire-FreeOrWaits :
      (x : Option (Result ℕ) × S) (m : MutexState) → m.busy ≡ true → FreeOrWaits (after_acquire x m)
  unfolding clear_busy
  after_acquire-FreeOrWaits (none, s) m b = b
  after_acquire-FreeOrWaits (some (err e), s) m b = inl refl
  after_acquire-FreeOrWaits (some (ok h), s) m b = finished-FreeOrWaits h _ m b

  enter-FreeOrWaits :
      (x : Bool × MutexState) (r : Option (Result ℕ) × S) (d : Desk S)
      → x.0 ≡ true
      → x.1.busy ≡ true
      → FreeOrWaits (
          if not x.0
          then (returned (some (sentinel recipe_busy)) false, d)
          else after_acquire r x.1)
  enter-FreeOrWaits (true, m) r d q b = after_acquire-FreeOrWaits r m b
  enter-FreeOrWaits (false, m) r d q b = absurd (ground (arith, q))

  -- A WithLock on an idle mutex keeps it busy while it acquires or holds; once it has returned,
  -- the mutex is free, or a goroutine is left that waits for the lease to retire, or the work did
  -- not stop.
  pub with_lock-FreeOrWaits :
      (a : Acquirer S ℕ) (wakes : List Wake) (d : Desk S)
      → d.mutex.busy ≡ false
      → FreeOrWaits (with_lock a wakes true true d)
  unfolding with_lock enter
  with_lock-FreeOrWaits a wakes d idle =
      enter-FreeOrWaits (enter d.mutex) (acquire_run a wakes d.outside) d (ground (arith, idle))
        (ground (arith, idle))
