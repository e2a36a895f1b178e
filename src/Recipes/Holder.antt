-- ===== src/Recipes/Holder.antt =====
-- recipes/internal/holder/holder.go: one lease that is held while work runs. What the goroutines of
-- the source send on their channels comes as events, in any order; timers and metrics are left out
-- but for whether the next renewal is prompt.
pub mod Renewals
pub mod Cleanup
pub mod Shutdown
pub mod Run
pub mod Keeping
use s3_lease.Prelude.{
  ℕ, zero, suc, Bool, true, false, ◌&&◌, ◌||◌, not, Option, none, some, List, [], ◌∷◌, ltb, ◌==◌,
  is_some, if◌then◌else◌,
}
use s3_lease.Lease.Errors.{Error, sentinel, joined, unknown_outcome, lease_expired, error_is}
use s3_lease.Recipes.Client.{RecipeClient, renewal_retryable, is_lease_loss}

-- The part of `Policy` that decides.
pub record Policy : Type 0 where
  pub release_on_work_return : Bool
  pub release_on_cancel : Bool
  pub loss_error : Option Error
  pub work_not_stopped_error : Option Error

pub data StopCause : Type 0 where
  work_returned caller_canceled lease_was_lost fatal : StopCause

-- The variables of the loop. `in_flight` has the renewals whose goroutines have not sent yet, each
-- with its `resolving`; `joined_work` is what the work returned, once it has.
pub record Holding : Type 0 where
  pub renewing : Bool
  pub in_flight : List Bool
  pub renewal_pending : Bool
  pub release_suppressed : Bool
  pub prompt : Bool
  pub joined_work : Option (Option Error)

abbrev pub new_holding : Holding
new_holding = record {
  renewing = false;
  in_flight = [];
  renewal_pending = false;
  release_suppressed = false;
  prompt = false;
  joined_work = none;
}

-- A channel of the `select` that is ready; the error of the caller's context comes with it.
pub data HolderEvent : Type 0 where
  work_ends : Option Error → HolderEvent
  context_ends : Error → HolderEvent
  lease_ends : (checked : Option Error) → HolderEvent
  fatal_error : Option Error → HolderEvent
  renew_due : HolderEvent
  renew_replies : Option Error → HolderEvent

-- What an event leads to: the loop goes on, or it is left with a cause and a primary error.
pub data HolderNext : Type 0 where
  holds : Holding → HolderNext
  leaves : StopCause → Option Error → Holding → HolderNext

-- `errors.Join`
abbrev pub join : Option Error → Option Error → Option Error
join none b = b
join (some a) none = some a
join (some a) (some b) = some (joined a b)

-- `stoppedRenewalState`: whether a renewal is pending, and whether no release is to be sent.
unfoldable pub stopped_renewal : Bool → Option Error → Bool × Bool
unfolding error_is
stopped_renewal resolving none = (false, false)
stopped_renewal resolving (some e) =
    if error_is e unknown_outcome
    then (true, false)
    else if resolving
    then (false, true)
    else (false, false)

abbrev pub noting : Bool × Bool → Holding → Holding
noting (pending, suppressed) h = record h {
  renewal_pending = pending;
  release_suppressed = suppressed;
}

abbrev pub failed_renewal : Policy → Bool → Error → Holding → HolderNext
failed_renewal policy resolving e h =
    if error_is e unknown_outcome
    then holds (record h { renewal_pending = true; prompt = not resolving })
    else if renewal_retryable e
    then holds (record h { renewal_pending = resolving; prompt = false })
    else if resolving
    then leaves fatal (some e) h
    else if is_lease_loss e
    then leaves lease_was_lost (join policy.loss_error (some e)) h
    else leaves fatal (some e) h

-- The `switch` on a renewal's result.
unfoldable pub renewal_result : Policy → Option Error → Bool → Option Error → Holding → HolderNext
unfolding error_is stopped_renewal renewal_retryable is_lease_loss
renewal_result policy context resolving none h =
    holds (record h { renewal_pending = false; prompt = resolving })
renewal_result policy (some c) resolving (some e) h =
    leaves caller_canceled (some c) (noting (stopped_renewal resolving (some e)) h)
renewal_result policy none resolving (some e) h = failed_renewal policy resolving e h

abbrev pub replied : Policy → Option Error → Option Error → List Bool → Holding → HolderNext
replied policy context e [] h = holds h
replied policy context e (resolving ∷ others) h =
    renewal_result policy context resolving e (record h { renewing = false; in_flight = others })

abbrev pub fatal_next : Option Error → Holding → HolderNext
fatal_next none h = holds h
fatal_next (some e) h = leaves fatal (some e) h

abbrev pub work_next : Option Error → Option Error → Holding → HolderNext
work_next (some c) e h = leaves caller_canceled (some c) (record h { joined_work = some e })
work_next none e h = leaves work_returned e (record h { joined_work = some e })

-- One turn of the loop `running`.
unfoldable pub holder_step : Policy → Option Error → HolderEvent → Holding → HolderNext
unfolding renewal_result
holder_step policy context (work_ends e) h = work_next context e h
holder_step policy context (context_ends c) h = leaves caller_canceled (some c) h
holder_step policy context (lease_ends checked) h =
    leaves lease_was_lost (join policy.loss_error checked) h
holder_step policy context (fatal_error e) h = fatal_next e h
holder_step policy context renew_due h =
    if h.renewing
    then holds h
    else holds (record h { renewing = true; in_flight = h.renewal_pending ∷ h.in_flight })
holder_step policy context (renew_replies e) h = replied policy context e h.in_flight h

abbrev pub hold_more : HolderNext → (Holding → HolderNext) → HolderNext
hold_more (holds h) more = more h
hold_more (leaves cause e h) more = leaves cause e h

-- The loop through the events that are given, each with the error of the context at its time.
unfoldable pub holder_loop : Policy → List (Option Error × HolderEvent) → Holding → HolderNext
unfolding holder_step
holder_loop policy [] h = holds h
holder_loop policy ((context, e) ∷ events) h =
    hold_more (holder_step policy context e h) (λ k. holder_loop policy events k)
