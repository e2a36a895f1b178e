-- ===== src/Recipes/Mutex/Manual.antt =====
-- `TryLock` and `Release` of recipes/mutex/manual.go, each section after the other.
use s3_lease.Prelude.{
  ℕ, ◌≡◌, ◌⊎◌, inl, inr, refl, arith, Bool, true, false, ◌&&◌, ◌||◌, not, Option, none, some, ltb,
  ◌==◌, is_some, if◌then◌else◌,
}
use s3_lease.Lease.Errors.{
  Error, Result, ok, err, sentinel, annotated, joined, invalid_config, recipe_busy, lease_lost,
  lease_expired,
}
use s3_lease.Recipes.Client.{RecipeClient}
use s3_lease.Recipes.Mutex.{
  MutexState, enter, clear_busy, is_manual, install_lock, begin_release, clear_manual,
  mark_abandoned, set_lock, retire, clear_lock_pending,
}
use s3_lease.Recipes.Mutex.Renewal.{ManualResult, abandon_manual}

-- A mutex and the world outside.
pub record Desk (S : Type 0) : Type 0 where
  pub mutex : MutexState
  pub outside : S

-- `errors.Join` of errors that may be nil.
abbrev pub join : Option Error → Option Error → Option Error
join none b = b
join (some a) none = some a
join (some a) (some b) = some (joined a b)

-- `stopRenewal`: the result that the lock has noted, or else the renewal is cancelled and waited for,
-- which ends with its result or with the error of the context.
unfoldable pub stop_renewal :
    ℕ → Result ManualResult → MutexState → Result ManualResult × MutexState
stop_renewal i waited m =
    let l = m.locks i in
    if l.stopped
    then (
      ok (record {
        pending = l.pending;
        suppress_release = l.suppress_release;
        authority_was_lost = l.authority_was_lost;
        error = l.terminal;
      }),
      m,
    )
    else (waited, set_lock i (record l { renew_canceled = true }) m)

module _ {S : Type 0} (client : RecipeClient S) where
  -- `Check` of a lock
  abbrev pub check_manual : ℕ → Desk S → Option Error × Desk S
  check_manual i d =
      let (e, s) = client.check_lease (d.mutex.locks i).acquired d.outside in
      if is_some (d.mutex.locks i).terminal
      then ((d.mutex.locks i).terminal, d)
      else (e, record d { outside = s })

  abbrev on_mutex : (MutexState → MutexState) → Desk S → Desk S
  on_mutex f d = record d { mutex = f d.mutex }

  abbrev pub admitted_lock : Option Error → ℕ → Desk S → Result ℕ × Desk S
  admitted_lock (some e) h d = (err (joined (sentinel lease_lost) e), on_mutex clear_busy d)
  admitted_lock none h d = (ok d.mutex.made, on_mutex (install_lock h) d)

  abbrev pub after_acquire : Result ℕ × S → Desk S → Result ℕ × Desk S
  after_acquire (err e, s) d = (err e, on_mutex clear_busy (record d { outside = s }))
  after_acquire (ok h, s) d =
      let (e, s') = client.check_lease h s in admitted_lock e h (record d { outside = s' })

  -- `TryLock`; it gives the number of the lock that it made.
  unfoldable pub try_lock : (has_context : Bool) → Desk S → Result ℕ × Desk S
  unfolding enter clear_busy install_lock
  try_lock has_context d =
      let (free, m) = enter d.mutex in
      if not has_context
      then (err (annotated (sentinel invalid_config)), d)
      else if not free
      then (err (sentinel recipe_busy), d)
      else after_acquire (client.require_lease d.outside) (record d { mutex = m })

  -- `finishRelease`
  unfoldable pub finish_release : ℕ → Option Error → Desk S → Desk S
  unfolding retire clear_manual
  finish_release i terminal d = on_mutex (λ m. clear_manual i (retire i terminal m)) d

  abbrev pub abandoned : ℕ → Option Error → Desk S → Option Error × Desk S
  abandoned i e d = (e, on_mutex (abandon_manual i e) d)

  -- The end of `Release`, with the reply of the client's `Release`.
  abbrev pub after_release :
      ℕ → ℕ → Option Error → Option Error × S → Desk S → Option Error × Desk S
  after_release i h renewal_error (e, s) d =
      let (checked, s') = client.check_lease h s in
      let (last, s'') = client.check_lease h s' in
      if is_some e && not (is_some checked)
      then abandoned i (join renewal_error e) (record d { outside = s' })
      else (
        join renewal_error e,
        finish_release i (if is_some e then last else checked)
            (record d { outside = if is_some e then s'' else s' }),
      )

  abbrev pub checked_release :
      ℕ → ℕ → ℕ → Option Error → Option Error → Desk S → Option Error × Desk S
  checked_release i h deadline renewal_error (some e) d =
      let lost = joined (sentinel lease_lost) e in
      (join renewal_error (some lost), finish_release i (some lost) d)
  checked_release i h deadline renewal_error none d =
      after_release i h renewal_error (client.release_lease (some deadline) h d.outside) d

  abbrev pub checking_release : ℕ → ℕ → ℕ → Option Error → Desk S → Option Error × Desk S
  checking_release i h deadline renewal_error d =
      let (e, s) = client.check_lease h d.outside in
      checked_release i h deadline renewal_error e (record d { outside = s })

  abbrev pub reconciled_release :
      ℕ → ℕ → ℕ → Option Error → Option Error → Desk S → Option Error × Desk S
  reconciled_release i h deadline renewal_error (some e) d =
      abandoned i (join renewal_error (some e)) d
  reconciled_release i h deadline renewal_error none d =
      checking_release i h deadline none (on_mutex (clear_lock_pending i) d)

  -- `Release` once renewal has stopped, within the authority that was read before that.
  abbrev pub cleanup : ℕ → ℕ → ℕ → ManualResult → Desk S → Option Error × Desk S
  cleanup i h deadline r d =
      let (e, s) = client.renew_lease (some deadline) h d.outside in
      if r.pending
      then reconciled_release i h deadline r.error e (record d { outside = s })
      else checking_release i h deadline r.error d

  abbrev pub expired_release : ℕ → ℕ → Option Error → Desk S → Option Error × Desk S
  expired_release i h renewal_error d =
      let (e, s) = client.check_lease h d.outside in
      let lost = join (join (some (sentinel lease_lost)) e) (some (sentinel lease_expired)) in
      (join renewal_error lost, finish_release i lost (record d { outside = s }))

  -- The wait for the renewal: its result, or the error of the caller's context.
  abbrev pub stopped_release : ℕ → ℕ → ℕ → Result ManualResult → Desk S → Option Error × Desk S
  stopped_release i h deadline (err e) d = abandoned i (some e) d
  stopped_release i h deadline (ok r) d =
      if r.suppress_release
      then (r.error, d)
      else if deadline == 0 || not (ltb (client.now d.outside) deadline)
      then expired_release i h r.error d
      else cleanup i h deadline r d

  abbrev pub begun_release :
      ℕ → Result ManualResult → Option Error × MutexState → Desk S → Option Error × Desk S
  begun_release i waited (some e, m) d = (some e, d)
  begun_release i waited (none, m) d =
      let h = (m.locks i).acquired in
      let (stopped, m') = stop_renewal i waited m in
      stopped_release i h (client.valid_until h d.outside) stopped (record d { mutex = m' })

  -- `Release` of a lock of this mutex under a context; `waited` is what the wait of `stopRenewal`
  -- ends with.
  unfoldable pub release_manual : ℕ → Result ManualResult → Desk S → Option Error × Desk S
  unfolding begin_release stop_renewal finish_release abandon_manual clear_lock_pending
  release_manual i waited d = begun_release i waited (begin_release i d.mutex) d

-- A lock that is done, and that its mutex has given up or closed to other releases.
pub record Settled (i : ℕ) (m : MutexState) : Type 0 where
  pub done : (m.locks i).done ≡ true
  pub closed : (is_manual m i ≡ false) ⊎ (m.releasing ≡ true)

retire-done : (i : ℕ) (e : Option Error) (m : MutexState) → ((retire i e m).locks i).done ≡ true
unfolding retire
retire-done i e m = ground arith

clear_manual-Settled :
    (i : ℕ) (m : MutexState) → (m.locks i).done ≡ true → Settled i (clear_manual i m)
unfolding clear_manual
clear_manual-Settled i m h = record {
  done = ground (arith, h);
  closed = cleared (is_manual m i) refl;
}
  where
    cleared :
        (b : Bool)
        → is_manual m i ≡ b
        → (is_manual
              (if b then record m { manual = none; busy = false; releasing = false } else m)
              i
            ≡ false)
          ⊎ ((if b
                then record m { manual = none; busy = false; releasing = false }
                else m).releasing
              ≡ true)
    cleared true e = inl refl
    cleared false e = inl e

mark_abandoned-Settled :
    (i : ℕ) (m : MutexState) → (m.locks i).done ≡ true → Settled i (mark_abandoned i m)
unfolding mark_abandoned
mark_abandoned-Settled i m h = record {
  done = ground (arith, h);
  closed = marked (is_manual m i) refl;
}
  where
    marked :
        (b : Bool)
        → is_manual m i ≡ b
        → (is_manual (if b then record m { releasing = true } else m) i ≡ false)
          ⊎ ((if b then record m { releasing = true } else m).releasing ≡ true)
    marked true e = inr refl
    marked false e = inl e

module _ {S : Type 0} (client : RecipeClient S) where
  pub record Ends (i : ℕ) (x : Option Error × Desk S) : Type 0 where
    pub settled : Settled i x.1.mutex

  finishes : (i : ℕ) (r e : Option Error) (d : Desk S) → Ends i (r, finish_release client i e d)
  unfolding finish_release
  finishes i r e d = record {
    settled = clear_manual-Settled i (retire i e d.mutex) (retire-done i e d.mutex);
  }

  gives_up : (i : ℕ) (e : Option Error) (d : Desk S) → Ends i (abandoned client i e d)
  unfolding abandon_manual
  gives_up i e d = record {
    settled = mark_abandoned-Settled i (retire i e d.mutex) (retire-done i e d.mutex);
  }

  either :
      (i : ℕ) (b : Bool) (x y : Option Error × Desk S)
      → Ends i x
      → Ends i y
      → Ends i (if b then x else y)
  either i true x y k l = k
  either i false x y k l = l

  after_release-Ends :
      (i h : ℕ) (r : Option Error) (x : Option Error × S) (d : Desk S)
      → Ends i (after_release client i h r x d)
  after_release-Ends i h r (none, s) d = finishes i _ _ _
  after_release-Ends i h r (some e, s) d =
      either i (not (is_some (client.check_lease h s).0)) _ _ (gives_up i _ _) (finishes i _ _ _)

  checked_release-Ends :
      (i h deadline : ℕ) (r e : Option Error) (d : Desk S)
      → Ends i (checked_release client i h deadline r e d)
  checked_release-Ends i h deadline r (some e) d = finishes i _ _ d
  checked_release-Ends i h deadline r none d =
      after_release-Ends i h r (client.release_lease (some deadline) h d.outside) d

  checking_release-Ends :
      (i h deadline : ℕ) (r : Option Error) (d : Desk S)
      → Ends i (checking_release client i h deadline r d)
  checking_release-Ends i h deadline r d =
      checked_release-Ends i h deadline r (client.check_lease h d.outside).0
        (record d { outside = (client.check_lease h d.outside).1 })

  reconciled_release-Ends :
      (i h deadline : ℕ) (r e : Option Error) (d : Desk S)
      → Ends i (reconciled_release client i h deadline r e d)
  reconciled_release-Ends i h deadline r (some e) d = gives_up i _ d
  reconciled_release-Ends i h deadline r none d =
      checking_release-Ends i h deadline none (record d { mutex = clear_lock_pending i d.mutex })

  -- The result of the renewal that sends no release.
  abbrev pub suppresses : Result ManualResult → Bool
  suppresses (ok r) = r.suppress_release
  suppresses (err e) = false

  stopped_release-Ends :
      (i h deadline : ℕ) (waited : Result ManualResult) (d : Desk S)
      → suppresses waited ≡ false
      → Ends i (stopped_release client i h deadline waited d)
  stopped_release-Ends i h deadline (err e) d q = gives_up i _ d
  stopped_release-Ends i h deadline (ok r) d q = rw q (
      either i (deadline == 0 || not (ltb (client.now d.outside) deadline)) _ _ (finishes i _ _ _) (
        either i r.pending _ _
          (reconciled_release-Ends i h deadline r.error
            (client.renew_lease (some deadline) h d.outside).0
            (record d { outside = (client.renew_lease (some deadline) h d.outside).1 }))
          (checking_release-Ends i h deadline r.error d)))

  begun-Ends :
      (i : ℕ) (waited : Result ManualResult) (x : Option Error × MutexState) (d : Desk S)
      → x.0 ≡ none
      → suppresses (stop_renewal i waited x.1).0 ≡ false
      → Ends i (begun_release client i waited x d)
  begun-Ends i waited (none, m) d e q = stopped_release-Ends i _ _ (stop_renewal i waited m).0 _ q
  begun-Ends i waited (some f, m) d e q = absurd (ground (arith, e))

  -- A Release of a manual lock that was let through, and whose renewal does not suppress it,
  -- leaves the lock done on every branch, and the mutex either has given the lock up or is closed
  -- to other releases.
  pub release_settles :
      (i : ℕ) (waited : Result ManualResult) (d : Desk S)
      → (begin_release i d.mutex).0 ≡ none
      → suppresses (stop_renewal i waited (begin_release i d.mutex).1).0 ≡ false
      → Settled i (release_manual client i waited d).1.mutex
  unfolding release_manual
  release_settles i waited d b q = (begun-Ends i waited (begin_release i d.mutex) d b q).settled
