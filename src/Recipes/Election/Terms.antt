-- ===== src/Recipes/Election/Terms.antt =====
-- What a run of an elector does with its callbacks, over `Run` of
-- recipes/leaderelection/leaderelection.go as a whole.
use s3_lease.Prelude.{
  ℕ, zero, suc, ◌≡◌, ◌≢◌, ap, refl, ◌⊎◌, inl, inr, arith, true, Option, none, some, List, [], ◌∷◌,
}
use s3_lease.Lease.Errors.{Error, Result, ok, err}
use s3_lease.Recipes.Client.{RecipeClient}
use s3_lease.Recipes.Acquire.{Acquirer, acquire_run}
use s3_lease.Recipes.Acquire.Keeping.{AcquirerKeeps, acquire_run-Kept}
use s3_lease.Recipes.Acquire.Outcomes.{Justified, acquire_run-Justified}
use s3_lease.Recipes.Observer.{stop}
use s3_lease.Recipes.Observer.Delivery.{dispatch}
use s3_lease.Recipes.Holder.{HolderNext, holds, leaves}
use s3_lease.Recipes.Holder.Keeping.{ClientKeeps, shutdown-Kept}
use s3_lease.Recipes.Holder.Run.{left_loop, checked_holder, holder_run}
use s3_lease.Recipes.Election.{ElectorConfig, ObserverNext, observes_again, observer_ends}
use s3_lease.Recipes.Election.Run.{
  Tally, Campaign, new_tally, new_campaign, let_return, return_next, campaigner, campaign_client,
  observe_on, elected_turns, observe_elected, election_policy, close_campaign, admitted_work,
  noticed_stop, stopped_leading, election_hooks, ElectionScript, ElectionEnd, campaigning, leading,
  run_returned, campaign_script, held_end, checked_leader, acquired_end, campaign,
}

-- The tally of a run whose work was started, and of one that has also stopped.
abbrev pub serving : Tally
serving = admitted_work new_tally

abbrev pub retired_from : ElectorConfig → Tally
retired_from config = noticed_stop config serving

module _ {S : Type 0} where
  abbrev pub Counts : Tally → Campaign S → Type 0
  Counts t c = c.tally ≡ t

  return_next-Counts :
      (t : Tally) (returning : List (List ℕ)) (c : Campaign S)
      → Counts t c
      → Counts t (return_next returning c)
  return_next-Counts t [] c k = k
  return_next-Counts t (now ∷ later) c k = k

  let_return-Counts : (t : Tally) (c : Campaign S) → Counts t c → Counts t (let_return c)
  unfolding let_return
  let_return-Counts t c k = return_next-Counts t c.returning c k

  campaigner-AcquirerKeeps :
      (a : Acquirer S ℕ) (t : Tally) → AcquirerKeeps (campaigner a) (Counts t)
  campaigner-AcquirerKeeps a t = record {
    requires = λ c k. k;
    observes = λ c k. let_return-Counts t c k;
    tells = λ o c k. k;
  }

  campaign_client-ClientKeeps :
      (client : RecipeClient S) (t : Tally) → ClientKeeps (campaign_client client) (Counts t)
  campaign_client-ClientKeeps client t = record {
    renews = λ limit h c k. k;
    releases = λ limit h c k. k;
    checks = λ h c k. k;
  }

  observe_on-Counts :
      (t : Tally) (next : ObserverNext) (c : Campaign S) (more : Campaign S → Campaign S)
      → Counts t c
      → ((d : Campaign S) → Counts t d → Counts t (more d))
      → Counts t (observe_on next c more)
  observe_on-Counts t observes_again c more k l = l c k
  observe_on-Counts t (observer_ends e) c more k l = k

  elected_turns-Counts :
      (a : Acquirer S ℕ) (t : Tally) (n : ℕ) (c : Campaign S)
      → Counts t c
      → Counts t (elected_turns a n c)
  unfolding elected_turns
  elected_turns-Counts a t zero c k = k
  elected_turns-Counts a t (suc n) c k =
      observe_on-Counts t _ _ _ (let_return-Counts t c k) (λ d l. elected_turns-Counts a t n d l)

  observe_elected-Counts :
      (config : ElectorConfig) (a : Acquirer S ℕ) (t : Tally) (n : ℕ) (c : Campaign S)
      → Counts t c
      → Counts t (observe_elected config a n c)
  unfolding observe_elected
  observe_elected-Counts config a t n c k = ground (arith, k, elected_turns-Counts a t n c k)

module _ {S : Type 0} (client : RecipeClient S) (a : Acquirer S ℕ) (config : ElectorConfig)
    (script : ElectionScript S) (s : S) where
  abbrev acquisition : Option (Result ℕ) × Campaign S
  acquisition = acquire_run (campaigner a) script.wakes (new_campaign config script.returning s)

  -- The lease of a run that started its work: it is what the run acquired, its last `Require` gave it,
  -- and it passed two Checks in a row.
  pub record Elected : Type 0 where
    pub lease : ℕ
    pub before : Campaign S
    pub after : Campaign S
    pub acquired : acquisition ≡ (some (ok lease), after)
    pub granted : (campaigner a).require_lease before ≡ (ok lease, after)
    pub checked : ((campaign_client client).check_lease lease after).0 ≡ none
    pub checked_again :
        ((campaign_client client).check_lease lease
          ((campaign_client client).check_lease lease after).1).0
        ≡ none

  -- Where a run stands: nothing started while it waits for the lease; the work started once while it
  -- leads; and after its end the dispatcher is stopped, and either nothing was started, or the work
  -- once with, where there is a stop callback, one call of that.
  abbrev pub InTerm : ElectionEnd × Campaign S → Type 0
  InTerm (campaigning, c) = Counts new_tally c
  InTerm (leading, c) = Counts serving c × Elected
  InTerm (run_returned e, c) =
      (c.deliveries.dispatcher.stopped ≡ true)
      × (Counts new_tally c ⊎ (Counts (retired_from config) c × Elected))

  abbrev LeftCounts : Option (Option Error) × Campaign S → Type 0
  LeftCounts (none, c) = Counts serving c
  LeftCounts (some e, c) = Counts (retired_from config) c

  left_loop-Counts :
      (h : ℕ) (next : HolderNext) (c : Campaign S)
      → Counts serving c
      → LeftCounts (
          left_loop
            (campaign_client client)
            (election_policy config)
            (election_hooks config)
            h
            (campaign_script client a config script)
            next
            c)
  unfolding stopped_leading close_campaign
  left_loop-Counts h (holds held) c k = k
  left_loop-Counts h (leaves cause primary held) c k =
      let t = retired_from config in
      let stopping = stopped_leading config c in
      shutdown-Kept (campaign_client client) (election_policy config) h _ (Counts t)
        (campaign_client-ClientKeeps client t) _ cause primary _ held stopping (rw k refl)
        (rw k refl)

  close-Stopped : (c : Campaign S) → (close_campaign c).deliveries.dispatcher.stopped ≡ true
  unfolding close_campaign dispatch stop
  close-Stopped c = ground arith

  held_end-InTerm :
      (x : Option (Option Error) × Campaign S)
      → LeftCounts x
      → Elected
      → InTerm (held_end client a config script x)
  unfolding close_campaign
  held_end-InTerm (none, c) k l = (k, l)
  held_end-InTerm (some e, c) k l = (close-Stopped c, inr (k, l))

  -- The holder checks the lease again before it starts the work.
  held-InTerm :
      (h : ℕ) (again : Option Error × Campaign S)
      → Counts new_tally again.1
      → (again.0 ≡ none → Elected)
      → InTerm (
          held_end client a config script (
            checked_holder
              (campaign_client client)
              (election_policy config)
              (election_hooks config)
              h
              (campaign_script client a config script)
              again))
  unfolding close_campaign
  held-InTerm h (some e, c) k l = (close-Stopped c, inl k)
  held-InTerm h (none, c) k l =
      held_end-InTerm _
        (left_loop-Counts h _ _
          (observe_elected-Counts config a serving script.turns _ (rw k refl)))
        (l refl)

  checked_leader-InTerm :
      (h : ℕ) (first : Option Error × Campaign S)
      → Counts new_tally first.1
      → (first.0 ≡ none → ((campaign_client client).check_lease h first.1).0 ≡ none → Elected)
      → InTerm (checked_leader client a config script h first)
  unfolding close_campaign holder_run
  checked_leader-InTerm h (some e, c) k l = (close-Stopped c, inl k)
  checked_leader-InTerm h (none, c) k l = held-InTerm h _ k (l refl)

  acquired_end-InTerm :
      (x : Option (Result ℕ) × Campaign S)
      → Counts new_tally x.1
      → Justified (campaigner a) x
      → acquisition ≡ x
      → InTerm (acquired_end client a config script x)
  unfolding close_campaign
  acquired_end-InTerm (none, c) k j q = k
  acquired_end-InTerm (some (err e), c) k j q = (close-Stopped c, inl k)
  acquired_end-InTerm (some (ok h), c) k (before, granted) q =
      checked_leader-InTerm h ((campaign_client client).check_lease h c) k λ checked checked_again.
        record {
          lease = h;
          before = before;
          after = c;
          acquired = q;
          granted = granted;
          checked = checked;
          checked_again = checked_again;
        }

  -- A run waits for the lease and has started nothing; or it leads, and has started its work once,
  -- with the lease that it acquired, which its last Require gave and which passed two Checks in a
  -- row; or it has returned, its dispatcher stopped, and has started nothing, or the work once,
  -- with such a lease, and then the stop callback once where there is one.
  pub campaign-InTerm : InTerm (campaign client a config script s)
  unfolding campaign
  campaign-InTerm =
      let c = new_campaign config script.returning s in
      acquired_end-InTerm acquisition
        (acquire_run-Kept (campaigner a) (Counts new_tally) (campaigner-AcquirerKeeps a new_tally)
          script.wakes c refl)
        (acquire_run-Justified (campaigner a) script.wakes c) refl

  -- A run that has started its work has an elected lease.
  pub started-Elected :
      (x : ElectionEnd × Campaign S) → InTerm x → x.1.tally.work_started ≢ 0 → Elected
  started-Elected (campaigning, c) k started = absurd (started (ap (λ t. t.work_started) k))
  started-Elected (leading, c) (k, elected) started = elected
  started-Elected (run_returned e, c) (stopped, inl k) started =
      absurd (started (ap (λ t. t.work_started) k))
  started-Elected (run_returned e, c) (stopped, inr (k, elected)) started = elected
