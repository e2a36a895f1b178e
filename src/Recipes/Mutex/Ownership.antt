-- ===== src/Recipes/Mutex/Ownership.antt =====
-- Who owns a `Mutex` of recipes/mutex: the sections of any callers, in any order.
use s3_lease.Prelude.{
  ℕ, suc, ◌+◌, ◌-◌, ◌≤◌, ◌<◌, ◌≡◌, ◌⊎◌, inl, inr, refl, ap, arith, Bool, true, false, ◌||◌, not,
  Option, none, some, List, [], ◌∷◌, ◌==◌, if◌then◌else◌,
}
use s3_lease.Lease.Errors.{Error}
use s3_lease.Recipes.Mutex.{
  MutexState, new_state, enter, clear_busy, is_lock, is_manual, install_lock, begin_release,
  clear_manual, mark_abandoned, retire,
}

-- A mutex, how many calls of `TryLock` and of `WithLock` have entered and not ended, and how often a
-- release of each lock was let through.
pub record Users : Type 0 where
  pub mutex : MutexState
  pub trying : ℕ
  pub scoped : ℕ
  pub admitted : ℕ → ℕ

abbrev pub no_users : Users
no_users = record { mutex = new_state; trying = 0; scoped = 0; admitted = λ i. 0 }

-- The next section. A call that has not entered ends no lifecycle.
pub data MutexEvent : Type 0 where
  try_enters try_fails : MutexEvent
  try_locks : ℕ → MutexEvent
  scope_enters scope_ends : MutexEvent
  release_begins : ℕ → MutexEvent
  clears : ℕ → MutexEvent
  abandons : ℕ → MutexEvent
  retires : ℕ → Option Error → MutexEvent

abbrev admit : ℕ → (ℕ → ℕ) → ℕ → ℕ
admit i admitted j = if j == i then suc (admitted j) else admitted j

abbrev pub entered : Bool → ℕ → ℕ
entered b n = if b then suc n else n

abbrev pub let_through : ℕ → Option Error × MutexState → Users → Users
let_through i (none, m) u = record u { mutex = m; admitted = admit i u.admitted }
let_through i (some e, m) u = record u { mutex = m }

unfoldable pub mutex_step : MutexEvent → Users → Users
unfolding enter clear_busy install_lock begin_release clear_manual mark_abandoned retire
mutex_step try_enters u =
    let (b, m) = enter u.mutex in record u { mutex = m; trying = entered b u.trying }
mutex_step scope_enters u =
    let (b, m) = enter u.mutex in record u { mutex = m; scoped = entered b u.scoped }
mutex_step try_fails u =
    if u.trying == 0 then u else record u { mutex = clear_busy u.mutex; trying = u.trying - 1 }
mutex_step (try_locks acquired) u =
    if u.trying == 0
    then u
    else record u { mutex = install_lock acquired u.mutex; trying = u.trying - 1 }
mutex_step scope_ends u =
    if u.scoped == 0 then u else record u { mutex = clear_busy u.mutex; scoped = u.scoped - 1 }
mutex_step (release_begins i) u = let_through i (begin_release i u.mutex) u
mutex_step (clears i) u = record u { mutex = clear_manual i u.mutex }
mutex_step (abandons i) u = record u { mutex = mark_abandoned i u.mutex }
mutex_step (retires i e) u = record u { mutex = retire i e u.mutex }

unfoldable pub mutex_run : List MutexEvent → Users → Users
unfolding mutex_step
mutex_run [] u = u
mutex_run (e ∷ events) u = mutex_run events (mutex_step e u)

abbrev pub held : Option ℕ → ℕ
held none = 0
held (some i) = 1

abbrev pub in_use : Bool → ℕ
in_use true = 1
in_use false = 0

-- The lock that is held is one that was made, and no release of it went through before the flag.
pub record UsersInv (u : Users) : Type 0 where
  pub one_user : u.trying + u.scoped + held u.mutex.manual ≡ in_use u.mutex.busy
  pub current :
      (i : ℕ)
      → u.mutex.manual ≡ some i
      → (i < u.mutex.made) × ((u.mutex.releasing ≡ true) ⊎ (u.admitted i ≡ 0))
  pub once : (i : ℕ) → u.admitted i ≤ 1
  pub unmade : (i : ℕ) → u.mutex.made ≤ i → u.admitted i ≡ 0

is_lock-true : (o : Option ℕ) (i : ℕ) → is_lock o i ≡ true → o ≡ some i
is_lock-true none i e = absurd (ground (arith, e))
is_lock-true (some j) i e = let q : j ≡ i = ground (arith, e) in ap some q

in_use-bound : (b : Bool) → in_use b ≤ 1
in_use-bound true = omega arith
in_use-bound false = omega arith

either :
    (b : Bool) (u v : Users)
    → (b ≡ true → UsersInv u)
    → (b ≡ false → UsersInv v)
    → UsersInv (if b then u else v)
either true u v h k = h refl
either false u v h k = k refl

-- The lifecycle that ends was the only one.
freed :
    (u : Users)
    → UsersInv u
    → (n : ℕ) (k : ℕ) → n + k ≡ 0
    → UsersInv (record u { mutex = clear_busy u.mutex; trying = n; scoped = k })
unfolding clear_busy
freed u h n k e = record {
  one_user = omega (arith, e);
  current = λ i q. absurd (ground (arith, q));
  once = h.once;
  unmade = h.unmade;
}

abbrev entry : Bool → MutexState → Bool × MutexState
entry b m = if b then (false, m) else (true, record m { busy = true })

try_enters-Inv :
    (b : Bool) (u : Users)
    → UsersInv u
    → u.mutex.busy ≡ b
    → UsersInv
        (record u { mutex = (entry b u.mutex).1; trying = entered (entry b u.mutex).0 u.trying })
try_enters-Inv true u h e = h
try_enters-Inv false u h e = record {
  one_user = ground (arith, h.one_user, e);
  current = h.current;
  once = h.once;
  unmade = h.unmade;
}

scope_enters-Inv :
    (b : Bool) (u : Users)
    → UsersInv u
    → u.mutex.busy ≡ b
    → UsersInv
        (record u { mutex = (entry b u.mutex).1; scoped = entered (entry b u.mutex).0 u.scoped })
scope_enters-Inv true u h e = h
scope_enters-Inv false u h e = record {
  one_user = ground (arith, h.one_user, e);
  current = h.current;
  once = h.once;
  unmade = h.unmade;
}

-- The only user is a call of `TryLock`; it installs its lock.
installed-Inv :
    (acquired : ℕ) (u : Users)
    → UsersInv u
    → (u.trying == 0) ≡ false
    → UsersInv (record u { mutex = install_lock acquired u.mutex; trying = u.trying - 1 })
unfolding install_lock
installed-Inv acquired u h t = record {
  one_user = ground (arith, h.one_user, in_use-bound u.mutex.busy, t);
  current = λ i q.
      let k : u.mutex.made ≡ i = ground (arith, q) in
      (omega (arith, k), inr (h.unmade i (omega (arith, k))));
  once = h.once;
  unmade = λ i l. h.unmade i (omega (arith, l));
}

-- A release that is let through is the first of its lock.
admitted-Inv :
    (i : ℕ) (u : Users)
    → UsersInv u
    → u.mutex.manual ≡ some i
    → u.mutex.releasing ≡ false
    → UsersInv
        (record u { mutex = record u.mutex { releasing = true }; admitted = admit i u.admitted })
admitted-Inv i u h e r =
    let (l, k) = h.current i e in
    let zero_before : u.admitted i ≡ 0 = ground (arith, k, r) in
    record {
      one_user = h.one_user;
      current = λ j q. ((h.current j q).0, inl refl);
      once = λ j. ground (arith, zero_before, h.once j);
      unmade = λ j m. ground (arith, h.unmade j m, l, m);
    }

through :
    (i : ℕ) (u : Users) (b : Bool) (x y : Option Error × MutexState)
    → (b ≡ true → UsersInv (let_through i x u))
    → (b ≡ false → UsersInv (let_through i y u))
    → UsersInv (let_through i (if b then x else y) u)
through i u true x y h k = h refl
through i u false x y h k = k refl

release_begins-Inv :
    (i : ℕ) (u : Users) → UsersInv u → UsersInv (let_through i (begin_release i u.mutex) u)
unfolding begin_release
release_begins-Inv i u h =
    through i u (not u.mutex.busy || not (is_manual u.mutex i)) _ _ (λ t. h)
      (λ t.
        through i u u.mutex.releasing _ _ (λ r. h)
          (λ r. admitted-Inv i u h (is_lock-true u.mutex.manual i (ground (arith, t))) r))

-- The lock is held no more.
cleared-Inv :
    (i : ℕ) (u : Users)
    → UsersInv u
    → u.mutex.manual ≡ some i
    → UsersInv
        (record u { mutex = record u.mutex { manual = none; busy = false; releasing = false } })
cleared-Inv i u h e = record {
  one_user = ground (arith, h.one_user, e, in_use-bound u.mutex.busy);
  current = λ j q. absurd (ground (arith, q));
  once = h.once;
  unmade = h.unmade;
}

chosen :
    (u : Users) (b : Bool) (x y : MutexState)
    → (b ≡ true → UsersInv (record u { mutex = x }))
    → (b ≡ false → UsersInv (record u { mutex = y }))
    → UsersInv (record u { mutex = if b then x else y })
chosen u true x y h k = h refl
chosen u false x y h k = k refl

marked-Inv :
    (u : Users) → UsersInv u → UsersInv (record u { mutex = record u.mutex { releasing = true } })
marked-Inv u h = record {
  one_user = h.one_user;
  current = λ i q. ((h.current i q).0, inl refl);
  once = h.once;
  unmade = h.unmade;
}

mutex_step-Inv : (e : MutexEvent) (u : Users) → UsersInv u → UsersInv (mutex_step e u)
unfolding mutex_step enter clear_manual mark_abandoned retire
mutex_step-Inv try_enters u h = try_enters-Inv u.mutex.busy u h refl
mutex_step-Inv scope_enters u h = scope_enters-Inv u.mutex.busy u h refl
mutex_step-Inv try_fails u h =
    either (u.trying == 0) _ _ (λ t. h)
      (λ t.
        freed u h (u.trying - 1) u.scoped
          (ground (arith, h.one_user, in_use-bound u.mutex.busy, t)))
mutex_step-Inv (try_locks acquired) u h =
    either (u.trying == 0) _ _ (λ t. h) (λ t. installed-Inv acquired u h t)
mutex_step-Inv scope_ends u h =
    either (u.scoped == 0) _ _ (λ t. h)
      (λ t.
        freed u h u.trying (u.scoped - 1)
          (ground (arith, h.one_user, in_use-bound u.mutex.busy, t)))
mutex_step-Inv (release_begins i) u h = release_begins-Inv i u h
mutex_step-Inv (clears i) u h =
    chosen u (is_manual u.mutex i) _ _ (λ t. cleared-Inv i u h (is_lock-true u.mutex.manual i t))
      (λ t. h)
mutex_step-Inv (abandons i) u h = chosen u (is_manual u.mutex i) _ _ (λ t. marked-Inv u h) (λ t. h)
mutex_step-Inv (retires i e) u h = record {
  one_user = h.one_user;
  current = h.current;
  once = h.once;
  unmade = h.unmade;
}

mutex_run-Inv : (events : List MutexEvent) (u : Users) → UsersInv u → UsersInv (mutex_run events u)
unfolding mutex_run
mutex_run-Inv [] u h = h
mutex_run-Inv (e ∷ events) u h = mutex_run-Inv events (mutex_step e u) (mutex_step-Inv e u h)

no_users-Inv : UsersInv no_users
no_users-Inv = record {
  one_user = refl;
  current = λ i q. absurd (ground (arith, q));
  once = λ i. omega arith;
  unmade = λ i l. refl;
}

-- Whatever the order of the sections, the calls of TryLock and WithLock that have entered and not
-- ended, and the manual lock that is held, are together one where the mutex is busy, and none
-- where it is not.
pub one_lifecycle :
    (events : List MutexEvent)
    → (mutex_run events no_users).trying
        + (mutex_run events no_users).scoped
        + held (mutex_run events no_users).mutex.manual
      ≡ in_use (mutex_run events no_users).mutex.busy
one_lifecycle events = (mutex_run-Inv events no_users no_users-Inv).one_user

-- Whatever the order of the sections, at most one release of a manual lock is let through.
pub released_once : (events : List MutexEvent) (i : ℕ) → (mutex_run events no_users).admitted i ≤ 1
released_once events = (mutex_run-Inv events no_users no_users-Inv).once
