-- ===== src/Recipes/Election/Run.antt =====
-- `Run` of recipes/leaderelection/leaderelection.go: the acquisition loop with the dispatcher of
-- observations, the holder with the elector's hooks, and the observer of the elected leader.
use s3_lease.Prelude.{
  ℕ, zero, suc, Bool, true, false, ◌&&◌, Option, none, some, List, [], ◌∷◌, if◌then◌else◌,
}
use s3_lease.Lease.Errors.{
  Error, Result, ok, err, sentinel, leadership_lost, leader_work_not_stopped,
}
use s3_lease.Lease.Operations.{Observation}
use s3_lease.Recipes.Client.{RecipeClient}
use s3_lease.Recipes.Acquire.{Acquirer, Wake, acquire_run}
use s3_lease.Recipes.Observer.{Dispatcher}
use s3_lease.Recipes.Observer.Delivery.{
  Deliveries, new_deliveries, submits, returns, stops, starts, dispatch,
}
use s3_lease.Recipes.Holder.{Policy, HolderEvent, fatal_error, join}
use s3_lease.Recipes.Holder.Shutdown.{Waits}
use s3_lease.Recipes.Holder.Run.{HolderScript, Hooks, holder_run}
use s3_lease.Recipes.Election.{
  ElectorConfig, Elector, admit_run, ObserverNext, observes_again, observer_ends, elected_round,
}

-- `workAdmitted`, and how often the start callback was called and a goroutine of the stop callback
-- was started.
pub record Tally : Type 0 where
  pub work_admitted : Bool
  pub work_started : ℕ
  pub stop_notices : ℕ

abbrev pub new_tally : Tally
new_tally = record { work_admitted = false; work_started = 0; stop_notices = 0 }

-- A run of an elector: the world outside, the dispatcher with its callbacks, whether `cancelRun` was
-- called, and which callbacks of the dispatcher return before each next poll.
pub record Campaign (S : Type 0) : Type 0 where
  pub outside : S
  pub deliveries : Deliveries
  pub canceled : Bool
  pub tally : Tally
  pub returning : List (List ℕ)

abbrev pub new_campaign : {S : Type 0} → ElectorConfig → List (List ℕ) → S → Campaign S
new_campaign config returning s = record {
  outside = s;
  deliveries = new_deliveries config.has_observation_callback;
  canceled = false;
  tally = new_tally;
  returning = returning;
}

abbrev return_all : List ℕ → Deliveries → Deliveries
return_all [] d = d
return_all (n ∷ rest) d = return_all rest (dispatch (returns n) d)

-- A nil channel of fatal errors is never ready.
abbrev never_fatal : List (Option Error × HolderEvent) → List (Option Error × HolderEvent)
never_fatal [] = []
never_fatal ((context, fatal_error e) ∷ rest) = never_fatal rest
never_fatal ((context, e) ∷ rest) = (context, e) ∷ never_fatal rest

unfoldable pub open_events :
    ElectorConfig → List (Option Error × HolderEvent) → List (Option Error × HolderEvent)
open_events config events = if config.has_observation_callback then events else never_fatal events

-- The policy of `Run`.
abbrev pub election_policy : ElectorConfig → Policy
election_policy config = record {
  release_on_work_return = true;
  release_on_cancel = config.release_on_cancel;
  loss_error = some (sentinel leadership_lost);
  work_not_stopped_error = some (sentinel leader_work_not_stopped);
}

abbrev pub admitted_work : Tally → Tally
admitted_work t = record t { work_admitted = true; work_started = suc t.work_started }

abbrev pub noticed_stop : ElectorConfig → Tally → Tally
noticed_stop config t =
    if t.work_admitted && config.has_stop_callback
    then record t { stop_notices = suc t.stop_notices }
    else t

module _ {S : Type 0} where
  abbrev pub return_next : List (List ℕ) → Campaign S → Campaign S
  return_next [] c = c
  return_next (now ∷ later) c = record c {
    deliveries = return_all now c.deliveries;
    returning = later;
  }

  -- The callbacks that return before the next poll.
  unfoldable pub let_return : Campaign S → Campaign S
  unfolding dispatch
  let_return c = return_next c.returning c

  -- `dispatcher.Submit`
  abbrev pub submit_to : Observation → Campaign S → Campaign S
  submit_to o c = record c { deliveries = dispatch (submits o) c.deliveries }

  abbrev pub at_outside : {A : Type 0} → (S → A × S) → Campaign S → A × Campaign S
  at_outside f c = let (a, s) = f c.outside in (a, record c { outside = s })

  -- What the acquisition loop calls.
  abbrev pub campaigner : Acquirer S ℕ → Acquirer (Campaign S) ℕ
  campaigner a = record {
    require_lease = λ c. at_outside a.require_lease c;
    observe_lease = λ c. at_outside a.observe_lease (let_return c);
    context_error = λ c. a.context_error c.outside;
    on_observation = some submit_to;
  }

  -- The client during a campaign.
  abbrev pub campaign_client : RecipeClient S → RecipeClient (Campaign S)
  campaign_client client = record {
    require_lease = λ c. at_outside client.require_lease c;
    renew_lease = λ limit h c. at_outside (client.renew_lease limit h) c;
    release_lease = λ limit h c. at_outside (client.release_lease limit h) c;
    check_lease = λ h c. at_outside (client.check_lease h) c;
    valid_until = λ h c. client.valid_until h c.outside;
    now = λ c. client.now c.outside;
  }

  -- ------------------------------------------------------------------ while the lease is held

  abbrev pub observe_on : ObserverNext → Campaign S → (Campaign S → Campaign S) → Campaign S
  observe_on observes_again c more = more c
  observe_on (observer_ends e) c more = c

  abbrev pub submitted : Option Observation × Dispatcher → S → Campaign S → Campaign S
  submitted x s c = record c {
    outside = s;
    deliveries = starts c.deliveries.delivering c.deliveries.started x;
  }

  -- The turns of `startElectedObserver`, as many as there is time for.
  unfoldable pub elected_turns : Acquirer S ℕ → ℕ → Campaign S → Campaign S
  unfolding elected_round let_return
  elected_turns a zero c = c
  elected_turns a (suc n) c =
      let d = let_return c in
      let (next, x, s) = elected_round a d.deliveries.dispatcher d.outside in
      observe_on next (submitted x s d) (λ e. elected_turns a n e)

  -- The observer of the elected leader is started only where there is a callback.
  unfoldable pub observe_elected : ElectorConfig → Acquirer S ℕ → ℕ → Campaign S → Campaign S
  unfolding elected_turns
  observe_elected config a n c = if config.has_observation_callback then elected_turns a n c else c

  -- `cancelRun` and `dispatcher.Stop`
  unfoldable pub close_campaign : Campaign S → Campaign S
  unfolding dispatch
  close_campaign c = record c { deliveries = dispatch stops c.deliveries; canceled = true }

  abbrev pub started_leading : Campaign S → Campaign S
  started_leading c = record c { tally = admitted_work c.tally }

  unfoldable pub stopped_leading : ElectorConfig → Campaign S → Campaign S
  unfolding close_campaign
  stopped_leading config c =
      let closed = close_campaign c in record closed { tally = noticed_stop config closed.tally }

  abbrev pub election_hooks : ElectorConfig → Hooks (Campaign S)
  election_hooks config = record {
    on_started = started_leading;
    on_stopped = stopped_leading config;
  }

-- What comes during a run: the ready channels of the acquisition loop, the callbacks that return, how
-- many turns the elected observer takes, and what comes while the lease is held.
pub record ElectionScript (S : Type 0) : Type 0 where
  pub wakes : List Wake
  pub returning : List (List ℕ)
  pub turns : ℕ
  pub holder : HolderScript S

-- How a run stands: it waits for the lease, it leads, or it has returned.
pub data ElectionEnd : Type 0 where
  campaigning leading : ElectionEnd
  run_returned : Option Error → ElectionEnd

module _ {S : Type 0} (client : RecipeClient S) (a : Acquirer S ℕ) (config : ElectorConfig)
    (script : ElectionScript S) where
  abbrev pub campaign_waits : Waits S → Waits (Campaign S)
  campaign_waits waits = record {
    work = waits.work;
    renewal = waits.renewal;
    meanwhile = λ c. record c { outside = waits.meanwhile c.outside };
  }

  -- The holder with the observer of the elected leader, whose turns are taken from the Check of the
  -- holder on. In the source the observer is started just before that Check.
  abbrev pub campaign_script : HolderScript (Campaign S)
  campaign_script = record {
    events = open_events config script.holder.events;
    later = λ c.
        observe_elected config a script.turns
          (record c { outside = script.holder.later c.outside });
    context = script.holder.context;
    waits = campaign_waits script.holder.waits;
  }

  abbrev pub held_end : Option (Option Error) × Campaign S → ElectionEnd × Campaign S
  held_end (none, c) = (leading, c)
  held_end (some e, c) = (run_returned e, close_campaign c)

  -- The check before the work is admitted.
  abbrev pub checked_leader : ℕ → Option Error × Campaign S → ElectionEnd × Campaign S
  checked_leader h (some e, c) =
      (run_returned (join (some (sentinel leadership_lost)) (some e)), close_campaign c)
  checked_leader h (none, c) = held_end (
      holder_run (campaign_client client) (election_policy config) (election_hooks config) h
        campaign_script c)

  abbrev pub acquired_end : Option (Result ℕ) × Campaign S → ElectionEnd × Campaign S
  acquired_end (none, c) = (campaigning, c)
  acquired_end (some (err e), c) = (run_returned (some e), close_campaign c)
  acquired_end (some (ok h), c) = checked_leader h ((campaign_client client).check_lease h c)

  -- From the acquisition loop on.
  unfoldable pub campaign : S → ElectionEnd × Campaign S
  unfolding acquire_run holder_run let_return observe_elected open_events stopped_leading
  campaign s =
      acquired_end
        (acquire_run (campaigner a) script.wakes (new_campaign config script.returning s))

  abbrev refused_or : Option Error → S → ElectionEnd × Campaign S
  refused_or (some e) s = (run_returned (some e), new_campaign config script.returning s)
  refused_or none s = campaign s

-- `Run` of an elector, which it leaves used.
unfoldable pub election_run :
    {S : Type 0} (client : RecipeClient S) (a : Acquirer S ℕ) (script : ElectionScript S)
    (has_context : Bool) (e : Elector)
    → S
    → (ElectionEnd × Campaign S) × Elector
unfolding admit_run campaign
election_run client a script has_context e s =
    let (refused, e') = admit_run has_context e in
    (refused_or client a e.config script refused s, e')
