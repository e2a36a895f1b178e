-- ===== src/Recipes/Holder/Shutdown.antt =====
-- What `Run` of recipes/internal/holder/holder.go does once its loop is left: the work is joined, a
-- renewal in flight is awaited, and the lease is released where it may be.
use s3_lease.Prelude.{
  ℕ, zero, suc, Bool, true, false, ◌&&◌, ◌||◌, not, Option, none, some, List, [], ◌∷◌, ltb, ◌==◌,
  if◌then◌else◌,
}
use s3_lease.Lease.Errors.{Error, Sentinel, sentinel, lease_expired, unknown_outcome, error_is}
use s3_lease.Recipes.Client.{RecipeClient}
use s3_lease.Recipes.Holder.{
  Policy, StopCause, work_returned, caller_canceled, lease_was_lost, fatal, Holding, join,
  stopped_renewal,
}

-- What the waits end with: what the work returned, or nothing within the shutdown timeout; the reply
-- of the renewal in flight, or nothing before the deadline; and the world outside at their end.
pub record Waits (S : Type 0) : Type 0 where
  pub work : Option (Option Error)
  pub renewal : Option (Option Error)
  pub meanwhile : S → S

abbrev pub is_work_returned : StopCause → Bool
is_work_returned work_returned = true
is_work_returned cause = false

abbrev pub may_release : Policy → StopCause → Bool
may_release policy work_returned = policy.release_on_work_return
may_release policy caller_canceled = policy.release_on_cancel
may_release policy lease_was_lost = false
may_release policy fatal = false

abbrev is_context_error : Option Sentinel → Error → Bool
is_context_error none e = false
is_context_error (some c) e = error_is e c

-- The primary error with what the work returned, unless that is the context's own error.
abbrev pub with_work : Option Sentinel → StopCause → Option Error → Option Error → Option Error
with_work context cause none primary = primary
with_work context cause (some e) primary =
    if not (is_work_returned cause) && not (is_context_error context e)
    then join primary (some e)
    else primary

-- The error of the renewal, whether it is pending, and whether no release is to be sent.
pub record RenewalEnd : Type 0 where
  pub error : Option Error
  pub pending : Bool
  pub suppressed : Bool

abbrev pub awaited : Option (Option Error) → Bool → Holding → RenewalEnd
awaited none resolving h = record {
  error = some (sentinel lease_expired);
  pending = h.renewal_pending;
  suppressed = h.release_suppressed;
}
awaited (some e) resolving h =
    let (pending, suppressed) = stopped_renewal resolving e in
    record { error = e; pending = pending; suppressed = suppressed }

abbrev pub renewal_end : List Bool → Option (Option Error) → Holding → RenewalEnd
renewal_end [] reply h = record {
  error = none;
  pending = h.renewal_pending;
  suppressed = h.release_suppressed;
}
renewal_end (resolving ∷ others) reply h = awaited reply resolving h

module _ {S : Type 0} (client : RecipeClient S) (policy : Policy) (acquired deadline : ℕ) where
  abbrev pub expired : S → Bool
  expired s = deadline == 0 || not (ltb (client.now s) deadline)

  abbrev unknown : Option Error → Bool
  unknown none = false
  unknown (some e) = error_is e unknown_outcome

  -- `Release`, repeated while its outcome is unknown, as often as is left.
  unfoldable pub release_tries : ℕ → Option Error × S → Option Error × S
  unfolding error_is
  release_tries zero (e, s) = (e, s)
  release_tries (suc left) (e, s) =
      let more = release_tries left (client.release_lease (some deadline) acquired s) in
      if unknown e && not (expired s) then more else (e, s)

  abbrev pub checked_end : Option Error → Option Error → Option Error → S → Option Error × S
  checked_end primary renewal_error (some e) s =
      (join (join primary renewal_error) (join policy.loss_error (some e)), s)
  checked_end primary renewal_error none s =
      let (e, s') = release_tries 2 (client.release_lease (some deadline) acquired s) in
      (join (join primary renewal_error) e, s')

  abbrev pub checking_end : Option Error → Option Error → S → Option Error × S
  checking_end primary renewal_error s =
      let (e, s') = client.check_lease acquired s in checked_end primary renewal_error e s'

  abbrev pub reconciled_end : Option Error → Option Error → Option Error × S → Option Error × S
  reconciled_end primary renewal_error (some e, s) = (join (join primary renewal_error) (some e), s)
  reconciled_end primary renewal_error (none, s) = checking_end primary none s

  -- From the wait for the renewal on.
  abbrev pub renewal_ended : StopCause → Option Error → RenewalEnd → S → Option Error × S
  renewal_ended cause primary r s =
      if not (may_release policy cause) || r.suppressed
      then (join primary r.error, s)
      else if expired s
      then (join (join primary r.error) (join policy.loss_error (some (sentinel lease_expired))), s)
      else if r.pending
      then reconciled_end primary r.error (client.renew_lease (some deadline) acquired s)
      else checking_end primary r.error s

  abbrev pub work_ended :
      Option Sentinel
      → StopCause
      → Option Error
      → Option (Option Error)
      → Waits S
      → Holding
      → S
      → Option Error × S
  work_ended context cause primary none waits h s = (join primary policy.work_not_stopped_error, s)
  work_ended context cause primary (some e) waits h s =
      renewal_ended cause (with_work context cause e primary)
        (renewal_end h.in_flight (if expired s then none else waits.renewal) h) (waits.meanwhile s)

  abbrev pub joined : Option (Option Error) → Option (Option Error) → Option (Option Error)
  joined none waited = waited
  joined (some e) waited = some e

  -- The end of `Run`. The context's error is the one after the work was joined.
  unfoldable pub shutdown :
      Option Sentinel → StopCause → Option Error → Waits S → Holding → S → Option Error × S
  unfolding stopped_renewal release_tries
  shutdown context cause primary waits h s =
      work_ended context cause primary (joined h.joined_work waits.work) waits h s
