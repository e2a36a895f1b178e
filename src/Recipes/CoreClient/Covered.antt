-- ===== src/Recipes/CoreClient/Covered.antt =====
-- An elector whose client is the one of package lease: leaderelection.go on top of core.go and
-- operations.go.
use s3_lease.Prelude.{ℕ, ◌≡◌, ◌≢◌, refl, ap, subst, Option, none, some}
use s3_lease.Lease.Errors.{Error, Result, ok}
use s3_lease.Lease.State.{Core, check}
use s3_lease.Lease.World.{Backend, Context, World, section, or_raise, pass}
use s3_lease.Lease.Mutations.{require}
use s3_lease.Lease.Safety.Checks.{Live, check_iff}
use s3_lease.Lease.Safety.Ends.{locked}
use s3_lease.Lease.Safety.Grants.{Granted, require-Granted}
use s3_lease.Recipes.Acquire.{acquire_run}
use s3_lease.Recipes.CoreClient.{error_of, checked_at, core_client, core_acquirer}
use s3_lease.Recipes.Election.{ElectorConfig}
use s3_lease.Recipes.Election.Run.{Campaign, new_campaign, campaigner, ElectionScript, campaign}
use s3_lease.Recipes.Election.Terms.{Elected, campaign-InTerm, started-Elected}

checked-none : (r : Option Error × Core) → error_of (or_raise r).0 ≡ none → r.0 ≡ none
checked-none (none, c) e = refl
checked-none (some x, c) e = cc

result_or : {S A : Type 0} → Result A × S → Result A
result_or x = x.0

module _ {S : Type 0} (backend : Backend S) (ctx : Context) where
  -- The world in which the section of a Check runs is the one that its turns leave.
  checked_at-Live :
      (i : ℕ) (w : World S)
      → (checked_at backend ctx i w).0 ≡ none
      → Live (pass w).core i (pass w).now
  unfolding section
  checked_at-Live i w e =
      (check_iff (pass w).core i (pass w).now).0
        (checked-none (check (pass w).core i (pass w).now) e)

  module _ (config : ElectorConfig) (script : ElectionScript (World S)) (w : World S) where
    -- The lease for which a run started its work: it is granted where the acquisition ends, and live
    -- at the second of the two Checks that follow, right before the work starts.
    pub record Covered : Type 0 where
      pub lease : ℕ
      pub after : Campaign (World S)
      pub acquired :
          acquire_run
            (campaigner (core_acquirer backend ctx))
            script.wakes
            (new_campaign config script.returning w)
          ≡ (some (ok lease), after)
      -- The Require that gave it starts in some world of the acquisition.
      pub before : World S
      pub granted : Granted backend ctx (locked before) after.outside.core after.outside.now lease
      pub live :
          Live
            (pass (checked_at backend ctx lease after.outside).1).core
            lease
            (pass (checked_at backend ctx lease after.outside).1).now

    Elected-Covered :
        Elected (core_client backend ctx) (core_acquirer backend ctx) config script w → Covered
    Elected-Covered elected =
        let before = elected.before.outside in
        let given : (require backend ctx before).0 ≡ ok elected.lease =
          ap (λ x. x.0) elected.granted in
        let there : (require backend ctx before).1 ≡ elected.after.outside =
          ap (λ x. x.1.outside) elected.granted in
        record {
          lease = elected.lease;
          after = elected.after;
          acquired = elected.acquired;
          before = before;
          granted =
              subst (λ v. Granted backend ctx (locked before) v.core v.now elected.lease) there
                (require-Granted backend ctx before elected.lease given);
          live =
              checked_at-Live elected.lease
                (checked_at backend ctx elected.lease elected.after.outside).1
                elected.checked_again;
        }

    -- An elector over a client of package lease starts its work only for the lease that it
    -- acquired, which Require had granted against the store, and which is active, unretired and
    -- before its deadline at the Check right before the work starts: whatever the store replies
    -- and other goroutines do.
    pub work-Covered :
        (campaign
            (core_client backend ctx)
            (core_acquirer backend ctx)
            config
            script
            w).1.tally.work_started
          ≢ 0
        → Covered
    work-Covered started = Elected-Covered (
        started-Elected (core_client backend ctx) (core_acquirer backend ctx) config script w _
          (campaign-InTerm (core_client backend ctx) (core_acquirer backend ctx) config script w)
          started)
