-- ===== src/Recipes/Holder/Cleanup.antt =====
-- The calls that `Run` of recipes/internal/holder/holder.go makes once its loop is left, in order.
use s3_lease.Prelude.{
  ℕ, zero, suc, ◌+◌, ◌≤◌, ◌≡◌, ◌⊎◌, inl, inr, refl, arith, Bool, true, false, ◌||◌, not, Option,
  none, some, List, [], ◌∷◌, Bool-cases, if◌then◌else◌,
}
use s3_lease.Lease.Errors.{Error, Sentinel, sentinel, lease_expired, unknown_outcome, error_is}
use s3_lease.Recipes.Client.{RecipeClient}
use s3_lease.Recipes.Holder.{
  Policy, StopCause, work_returned, caller_canceled, lease_was_lost, fatal, Holding, join,
}
use s3_lease.Recipes.Holder.Shutdown.{
  Waits, may_release, with_work, RenewalEnd, renewal_end, expired, release_tries, checked_end,
  checking_end, reconciled_end, work_ended, joined, shutdown,
}

-- A call of the client, with the deadline of its context where it has one, the lease, and its error.
pub data Sent : Type 0 where
  renewed released : (until : Option ℕ) → (lease : ℕ) → Option Error → Sent
  checked : (lease : ℕ) → Option Error → Sent

-- The client with the calls so far, the newest first.
abbrev pub traced : {S : Type 0} → RecipeClient S → RecipeClient (List Sent × S)
traced client = record {
  require_lease = λ (log, s). let (r, t) = client.require_lease s in (r, (log, t));
  renew_lease = λ until i (log, s).
      let (e, t) = client.renew_lease until i s in (e, (renewed until i e ∷ log, t));
  release_lease = λ until i (log, s).
      let (e, t) = client.release_lease until i s in (e, (released until i e ∷ log, t));
  check_lease = λ i (log, s). let (e, t) = client.check_lease i s in (e, (checked i e ∷ log, t));
  valid_until = λ i (log, s). client.valid_until i s;
  now = λ (log, s). client.now s;
}

abbrev pub traced_waits : {S : Type 0} → Waits S → Waits (List Sent × S)
traced_waits waits = record {
  work = waits.work;
  renewal = waits.renewal;
  meanwhile = λ (log, s). (log, waits.meanwhile s);
}

module _ (acquired deadline : ℕ) (pending : Bool) where
  -- Before the Check: nothing, or a renewal that was pending and is confirmed now.
  pub data Before : List Sent → Type 0 where
    at_once : pending ≡ false → Before []
    reconciled : pending ≡ true → Before (renewed (some deadline) acquired none ∷ [])

  -- The calls after the loop, with the number of releases among them.
  pub data Cleanup : List Sent → ℕ → Type 0 where
    stays_pending :
        (e : Error) → pending ≡ true → Cleanup (renewed (some deadline) acquired (some e) ∷ []) 0
    refused :
        (e : Error) (older : List Sent)
        → Before older
        → Cleanup (checked acquired (some e) ∷ older) 0
    releases :
        (e : Option Error) (older : List Sent)
        → Before older
        → Cleanup (released (some deadline) acquired e ∷ checked acquired none ∷ older) 1
    repeats :
        (e : Option Error) (f : Error) (older : List Sent) (n : ℕ)
        → error_is f unknown_outcome ≡ true
        → Cleanup (released (some deadline) acquired (some f) ∷ older) n
        → Cleanup
            (released (some deadline) acquired e
              ∷ released (some deadline) acquired (some f)
              ∷ older)
            (suc n)

  -- Such calls, with at most so many releases.
  pub record Orderly (bound : ℕ) {S : Type 0} (x : Option Error × (List Sent × S)) : Type 0 where
    pub count : ℕ
    pub few : count ≤ bound
    pub cleanup : Cleanup x.1.0 count

-- The causes after which the policy lets a release follow, in words.
abbrev pub Voluntary : Policy → StopCause → Type 0
Voluntary policy cause =
    ((cause ≡ work_returned) × (policy.release_on_work_return ≡ true))
    ⊎ ((cause ≡ caller_canceled) × (policy.release_on_cancel ≡ true))

may_release-Voluntary :
    (policy : Policy) (cause : StopCause) → may_release policy cause ≡ true → Voluntary policy cause
may_release-Voluntary policy work_returned e = inl (refl, e)
may_release-Voluntary policy caller_canceled e = inr (refl, e)
may_release-Voluntary policy lease_was_lost e = absurd (ground (arith, e))
may_release-Voluntary policy fatal e = absurd (ground (arith, e))

Voluntary-may_release :
    (policy : Policy) (cause : StopCause) → Voluntary policy cause → may_release policy cause ≡ true
Voluntary-may_release policy work_returned (inl (c, e)) = e
Voluntary-may_release policy work_returned (inr (c, e)) = absurd (ground (arith, c))
Voluntary-may_release policy caller_canceled (inl (c, e)) = absurd (ground (arith, c))
Voluntary-may_release policy caller_canceled (inr (c, e)) = e
Voluntary-may_release policy lease_was_lost (inl (c, e)) = absurd (ground (arith, c))
Voluntary-may_release policy lease_was_lost (inr (c, e)) = absurd (ground (arith, c))
Voluntary-may_release policy fatal (inl (c, e)) = absurd (ground (arith, c))
Voluntary-may_release policy fatal (inr (c, e)) = absurd (ground (arith, c))

either : {A : Type 0} (P : A → Type 0) (b : Bool) {x y : A} → P x → P y → P (if b then x else y)
either P true k l = k
either P false k l = l

module _ {S : Type 0} (client : RecipeClient S) (policy : Policy) (acquired deadline : ℕ)
    (pending : Bool) where
  abbrev Fine : ℕ → Option Error × (List Sent × S) → Type 0
  Fine bound = Orderly acquired deadline pending bound

  release_tries-Orderly :
      (left n : ℕ) (e : Option Error) (older : List Sent) (s : S)
      → Cleanup acquired deadline pending (released (some deadline) acquired e ∷ older) n
      → Orderly acquired deadline pending (n + left) (
          release_tries
            (traced client)
            policy
            acquired
            deadline
            left
            (e, (released (some deadline) acquired e ∷ older, s)))
  unfolding release_tries
  release_tries-Orderly zero n e older s k = record { count = n; few = omega arith; cleanup = k }
  release_tries-Orderly (suc left) n none older s k = record {
    count = n;
    few = omega arith;
    cleanup = k;
  }
  release_tries-Orderly (suc left) n (some f) older s k =
      elim (Bool-cases (error_is f unknown_outcome)) [
        | inl unclear ↦
            let x = client.release_lease (some deadline) acquired s in
            let again =
              release_tries-Orderly left (suc n) x.0
                (released (some deadline) acquired (some f) ∷ older) x.1
                (repeats x.0 f older n unclear k) in
            rw unclear (
              either (Fine (n + suc left))
                (not (
                  expired (traced client) policy acquired deadline
                    (released (some deadline) acquired (some f) ∷ older, s)))
                (record {
                  count = again.count;
                  few = omega (arith, again.few);
                  cleanup = again.cleanup;
                })
                (record { count = n; few = omega arith; cleanup = k }))
        | inr known ↦ rw known (record { count = n; few = omega arith; cleanup = k })
      ]

  checked_end-Orderly :
      (primary renewal_error e : Option Error) (older : List Sent) (s : S)
      → Before acquired deadline pending older
      → Fine 3 (
          checked_end
            (traced client)
            policy
            acquired
            deadline
            primary
            renewal_error
            e
            (checked acquired e ∷ older, s))
  checked_end-Orderly primary renewal_error (some e) older s b = record {
    count = 0;
    few = omega arith;
    cleanup = refused e older b;
  }
  checked_end-Orderly primary renewal_error none older s b =
      let x = client.release_lease (some deadline) acquired s in
      let k =
        release_tries-Orderly 2 1 x.0 (checked acquired none ∷ older) x.1 (releases x.0 older b) in
      record { count = k.count; few = k.few; cleanup = k.cleanup }

  checking_end-Orderly :
      (primary renewal_error : Option Error) (older : List Sent) (s : S)
      → Before acquired deadline pending older
      → Fine 3
          (checking_end (traced client) policy acquired deadline primary renewal_error (older, s))
  checking_end-Orderly primary renewal_error older s b =
      let x = client.check_lease acquired s in
      checked_end-Orderly primary renewal_error x.0 older x.1 b

  reconciled_end-Orderly :
      (primary renewal_error e : Option Error) (s : S)
      → pending ≡ true
      → Fine 3 (
          reconciled_end
            (traced client)
            policy
            acquired
            deadline
            primary
            renewal_error
            (e, (renewed (some deadline) acquired e ∷ [], s)))
  reconciled_end-Orderly primary renewal_error (some e) s p = record {
    count = 0;
    few = omega arith;
    cleanup = stays_pending e p;
  }
  reconciled_end-Orderly primary renewal_error none s p =
      checking_end-Orderly primary none (renewed (some deadline) acquired none ∷ []) s
        (reconciled p)

module _ {S : Type 0} (client : RecipeClient S) (policy : Policy) (acquired deadline : ℕ) where
  -- A release is due: the work has stopped, the policy lets a release follow the cause, the awaited
  -- renewal does not bar it, and the deadline has not passed.
  abbrev pub Due : StopCause → (stopped : Bool) → RenewalEnd → (late : Bool) → Type 0
  Due cause stopped r late =
      (stopped ≡ true) × Voluntary policy cause × (r.suppressed ≡ false) × (late ≡ false)

  -- No call is made, or the calls of a release.
  pub record CleanedUp (cause : StopCause) (stopped : Bool) (r : RenewalEnd) (late : Bool)
      (x : Option Error × (List Sent × S)) : Type 0 where
    pub outcome :
        ((x.1.0 ≡ []) × ¬ Due cause stopped r late)
        ⊎ (Due cause stopped r late × Orderly acquired deadline r.pending 3 x)

  settled :
      (cause : StopCause) (primary : Option Error) (r : RenewalEnd) (s : S) (pending : Bool)
      → r.pending ≡ pending
      → Orderly acquired deadline pending 3 (
          if pending
          then reconciled_end
              (traced client)
              policy
              acquired
              deadline
              primary
              r.error
              ((traced client).renew_lease (some deadline) acquired ([], s))
          else checking_end (traced client) policy acquired deadline primary r.error ([], s))
  settled cause primary r s true e =
      let x = client.renew_lease (some deadline) acquired s in
      reconciled_end-Orderly client policy acquired deadline true primary r.error x.0 x.1 refl
  settled cause primary r s false e =
      checking_end-Orderly client policy acquired deadline false primary r.error [] s (at_once refl)

  barred-Due :
      (cause : StopCause) (r : RenewalEnd) (late : Bool)
      → (not (may_release policy cause) || r.suppressed || late) ≡ true
      → ¬ Due cause true r late
  barred-Due cause r late e (stopped, voluntary, goes_on, early) =
      let may = Voluntary-may_release policy cause voluntary in
      ground (arith, e, may, goes_on, early)

  renewal_ended-CleanedUp :
      (cause : StopCause) (primary : Option Error) (r : RenewalEnd) (s : S) (barred late : Bool)
      → (not (may_release policy cause) || r.suppressed) ≡ barred
      → expired client policy acquired deadline s ≡ late
      → CleanedUp cause true r late (
          if barred
          then (join primary r.error, ([], s))
          else if late
          then (
            join (join primary r.error) (join policy.loss_error (some (sentinel lease_expired))),
            ([], s),
          )
          else if r.pending
          then reconciled_end
              (traced client)
              policy
              acquired
              deadline
              primary
              r.error
              ((traced client).renew_lease (some deadline) acquired ([], s))
          else checking_end (traced client) policy acquired deadline primary r.error ([], s))
  renewal_ended-CleanedUp cause primary r s true late e l = record {
    outcome = inl (refl, barred-Due cause r late (ground (arith, e)));
  }
  renewal_ended-CleanedUp cause primary r s false true e l = record {
    outcome = inl (refl, barred-Due cause r true (ground arith));
  }
  renewal_ended-CleanedUp cause primary r s false false e l =
      let voluntary = may_release-Voluntary policy cause (ground (arith, e)) in
      let goes_on : r.suppressed ≡ false = ground (arith, e) in
      record {
        outcome = inr ((refl, voluntary, goes_on, refl), settled cause primary r s r.pending refl);
      }

  -- The renewal that is awaited at a state of the world.
  abbrev pub awaited_at : Waits S → Holding → S → RenewalEnd
  awaited_at waits h s =
      renewal_end h.in_flight
        (if expired client policy acquired deadline s then none else waits.renewal) h

  abbrev pub has_stopped : Option (Option Error) → Bool
  has_stopped none = false
  has_stopped (some e) = true

  work_ended-CleanedUp :
      (context : Option Sentinel) (cause : StopCause) (primary : Option Error)
      (work : Option (Option Error)) (waits : Waits S) (h : Holding) (s : S)
      → CleanedUp cause
          (has_stopped work)
          (awaited_at waits h s)
          (expired client policy acquired deadline (waits.meanwhile s))
          (work_ended
            (traced client)
            policy
            acquired
            deadline
            context
            cause
            primary
            work
            (traced_waits waits)
            h
            ([], s))
  work_ended-CleanedUp context cause primary none waits h s = record {
    outcome = inl (refl, λ due. ground (arith, due.0));
  }
  work_ended-CleanedUp context cause primary (some e) waits h s =
      renewal_ended-CleanedUp cause (with_work context cause e primary) (awaited_at waits h s)
        (waits.meanwhile s) _ _ refl refl

  -- After a holder has stopped, the client is called exactly where a release is due: the work has
  -- stopped, the loop ended as the work returned or the caller cancelled and the policy lets a
  -- release follow that, the awaited renewal does not bar it, and the deadline has not passed. The
  -- calls are then a renewal, where one is pending; a Check, where that renewal succeeds or none
  -- is pending; where the Check passes, a release, and at most two more, each after one whose
  -- outcome was unknown.
  pub shutdown-CleanedUp :
      (context : Option Sentinel) (cause : StopCause) (primary : Option Error) (waits : Waits S)
      (h : Holding) (s : S)
      → CleanedUp cause
          (has_stopped (joined client policy acquired deadline h.joined_work waits.work))
          (awaited_at waits h s)
          (expired client policy acquired deadline (waits.meanwhile s))
          (shutdown
            (traced client)
            policy
            acquired
            deadline
            context
            cause
            primary
            (traced_waits waits)
            h
            ([], s))
  unfolding shutdown
  shutdown-CleanedUp context cause primary waits h s =
      work_ended-CleanedUp context cause primary
        (joined client policy acquired deadline h.joined_work waits.work) waits h s
