-- ===== src/Tests/Leader.antt =====
-- An elector on top of a client of package lease and a store in memory.
use s3_lease.Prelude.{◌≡◌, refl, arith, none, some, true, [], ◌∷◌}
use s3_lease.Prelude.Int.{pos}
use s3_lease.Lease.State.{
  check, install_timer, new_core, proposal_phase_end, retire_lease, set_terminal, timer_fired,
}
use s3_lease.Lease.Mutations.{
  abandon, apply_readback, clear_and_raise, confirm, draft_acquisition, draft_initial,
  draft_takeover, mutate, phase_end_of, reconcile_conflict, reconcile_pending, release_fresh,
  release_lease, renew_fresh, renew_lease, require, require_body, send_acquisition, send_pending,
  write_acquisition,
}
use s3_lease.Lease.World.{
  World, act, attempt, clock, exclusively, lift, pass, pure, raise, request, run_others, section,
  settings, ◌>>=◌,
}
use s3_lease.Lease.Proposals.{
  abandon_pending, begin_release, begin_renew, confirm_acquisition, confirm_release,
  confirm_renewal, extend_lease, freeze_release, freeze_renewal, grant, pending_for,
  prepare_require, set_pending, validate_active,
}
use s3_lease.Lease.Operations.{
  begin_read, decode_record, encode_record, interpret, observe, read_current, request_context,
  within, within_deadline, within_phase,
}
use s3_lease.Lease.Reads.{
  accept_read, eligible, install_read, observe_record, retire_if_observation_lost,
}
use s3_lease.Lease.Errors.{
  sentinel, lease_retired, classify_acquisition_error, error_is, is_definitive_conflict,
  is_store_error, is_unknown_write, kind_is, store_error_in,
}
use s3_lease.Lease.Record.Uuid.{format_uuid, hex, versioned}
use s3_lease.Lease.Record.{
  acquisition_record, initial_record, records_compatible, release_record, renewal_record,
  same_record, validate_record,
}
use s3_lease.Recipes.Election.Run.{
  Campaign, ElectionEnd, ElectionScript, campaign, close_campaign, elected_turns, let_return,
  observe_elected, open_events, run_returned, stopped_leading,
}
use s3_lease.Recipes.Acquire.{acquire_loop, acquire_run, observation_retryable, retryable, wake}
use s3_lease.Recipes.Observer.Delivery.{dispatch}
use s3_lease.Recipes.Observer.{stop, submit}
use s3_lease.Recipes.Holder.Run.{holder_run}
use s3_lease.Recipes.Holder.{holder_loop, holder_step, renewal_result, work_ends}
use s3_lease.Recipes.Holder.Shutdown.{release_tries, shutdown}
use s3_lease.Recipes.Election.{ElectorConfig, elected_round}
use s3_lease.Tests.Scene.{Memory, at_start, backend, background}
use s3_lease.Lease.Config.{present}
use s3_lease.Recipes.CoreClient.{core_acquirer, core_client}
use s3_lease.Recipes.CoreClient.Covered.{Covered, work-Covered}

abbrev leader_config : ElectorConfig
leader_config = record {
  client = present;
  client_renew_deadline = 10_000_000_000;
  has_start_callback = true;
  has_stop_callback = true;
  has_observation_callback = true;
  release_on_cancel = true;
  retry_period = pos 1_000_000_000;
  observe_interval = pos 1_000_000_000;
  shutdown_timeout = pos 1_000_000_000;
}

-- The lease comes at once, and the work returns a second later.
abbrev one_term : ElectionScript (World Memory)
one_term = record {
  wakes = [];
  returning = [];
  turns = 1;
  holder = record {
    events = (none, work_ends none) ∷ [];
    later = λ w. record w { now = 1_000_001_000 };
    context = none;
    waits = record { work = none; renewal = none; meanwhile = λ w. w };
  };
}

led : ElectionEnd × Campaign (World Memory)
unfolding new_core require exclusively require_body ◌>>=◌ section prepare_require attempt
    draft_acquisition read_current begin_read request_context clock pure settings within_phase
    within_deadline install_read classify_acquisition_error error_is is_definitive_conflict
    is_store_error is_unknown_write kind_is store_error_in draft_initial draft_takeover
    send_acquisition write_acquisition decode_record encode_record interpret within abandon_pending
    confirm_acquisition grant accept_read eligible observe_record retire_if_observation_lost
    format_uuid hex versioned acquisition_record initial_record records_compatible same_record
    validate_record check install_timer proposal_phase_end retire_lease set_terminal timer_fired act
    lift pass raise request run_others renew_lease release_lease mutate renew_fresh release_fresh
    send_pending phase_end_of confirm abandon apply_readback reconcile_conflict reconcile_pending
    clear_and_raise pending_for validate_active begin_renew begin_release freeze_renewal
    freeze_release set_pending confirm_renewal confirm_release extend_lease renewal_record
    release_record observe campaign acquire_run acquire_loop wake retryable observation_retryable
    let_return dispatch submit stop holder_run holder_loop holder_step renewal_result shutdown
    release_tries observe_elected elected_turns elected_round open_events close_campaign
    stopped_leading
led =
    campaign (core_client backend background) (core_acquirer backend background) leader_config
      one_term at_start

-- The work ran once, and the lease was given back.
led_once : led.1.tally.work_started ≡ 1
unfolding led
led_once = refl

led_quietly : led.0 ≡ run_returned none
unfolding led
led_quietly = refl

led_released : (led.1.outside.core.leases 0).retired ≡ some (sentinel lease_retired)
unfolding led
led_released = refl

work-Covered_example : Covered backend background leader_config one_term at_start
unfolding led
work-Covered_example =
    work-Covered backend background leader_config one_term at_start
      (λ e. omega (arith, e, led_once))
