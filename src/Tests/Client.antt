-- ===== src/Tests/Client.antt =====
-- The calls of one client in a row, and what the theorems say of them.
use s3_lease.Prelude.{ℕ, ◌≡◌, refl, none, some, List, [], ◌∷◌, arith}
use s3_lease.Lease.Errors.{
  Error, sentinel, lease_retired, lease_expired, annotated, lease_disappeared, error_is, kind_is,
  is_unknown_write, is_definitive_conflict, classify_acquisition_error, is_store_error,
  store_error_in,
}
use s3_lease.Lease.Record.{
  acquisition_record, initial_record, records_compatible, same_record, validate_record,
  renewal_record, release_record,
}
use s3_lease.Lease.Record.Uuid.{format_uuid, hex, versioned}
use s3_lease.Lease.State.{
  new_core, check, retire_lease, set_terminal, install_timer, proposal_phase_end, timer_fired,
}
use s3_lease.Lease.Reads.{
  install_read, accept_read, observe_record, retire_if_observation_lost, eligible,
}
use s3_lease.Lease.Proposals.{
  prepare_require, abandon_pending, confirm_acquisition, grant, pending_for, validate_active,
  begin_renew, begin_release, freeze_renewal, freeze_release, set_pending, confirm_renewal,
  confirm_release, extend_lease,
}
use s3_lease.Lease.World.{
  World, act, exclusively, section, attempt, clock, pure, settings, lift, raise, request, pass,
  run_others, ◌>>=◌,
}
use s3_lease.Lease.Operations.{
  observe, read_current, begin_read, request_context, within_phase, within_deadline, within,
  decode_record, encode_record, interpret,
}
use s3_lease.Lease.Mutations.{
  require, renew_lease, release_lease, require_body, draft_acquisition, draft_initial,
  draft_takeover, send_acquisition, write_acquisition, mutate, renew_fresh, release_fresh,
  send_pending, phase_end_of, confirm, abandon, apply_readback, reconcile_conflict,
  reconcile_pending, clear_and_raise,
}
use s3_lease.Lease.Client.{Call, requires, renews_lease, releases_lease, observes_lease, call, run}
use s3_lease.Lease.Safety.Invariant.{CoreInv, new_core-CoreInv}
use s3_lease.Lease.Safety.Authority.{run-CoreInv, one_authority, never_revived, terminal_final}
use s3_lease.Lease.Safety.Refinement.{Refines, run-Refines}
use s3_lease.Lease.Safety.Checks.{check_failure_final}
use s3_lease.Lease.Safety.Lasting.{grant_of}
use s3_lease.Lease.Safety.Grants.{Granted, require-Granted}
use s3_lease.Lease.Safety.Ends.{locked}
use s3_lease.Tests.Scene.{Memory, empty, backend, config, background, at_start, first_handle}

-- The calls of the client, from a world on.
after : World Memory → List Call → World Memory
unfolding new_core require exclusively require_body ◌>>=◌ section prepare_require attempt
    draft_acquisition read_current begin_read request_context clock pure settings within_phase
    within_deadline install_read classify_acquisition_error error_is is_definitive_conflict
    is_store_error is_unknown_write kind_is store_error_in draft_initial draft_takeover
    send_acquisition write_acquisition decode_record encode_record interpret within abandon_pending
    confirm_acquisition grant accept_read eligible observe_record retire_if_observation_lost
    format_uuid hex versioned acquisition_record initial_record records_compatible same_record
    validate_record check install_timer proposal_phase_end retire_lease set_terminal timer_fired act
    lift pass raise request run_others renew_lease release_lease mutate renew_fresh release_fresh
    send_pending phase_end_of confirm abandon apply_readback reconcile_conflict reconcile_pending
    clear_and_raise pending_for validate_active begin_renew begin_release freeze_renewal
    freeze_release set_pending confirm_renewal confirm_release extend_lease renewal_record
    release_record observe call run
after w calls = run backend w calls

abbrev require_renew_release : List Call
require_renew_release =
    requires background
    ∷ renews_lease background (some first_handle)
    ∷ releases_lease background (some first_handle)
    ∷ []

-- One lease after the other, the second at epoch 2.
abbrev twice : List Call
twice =
    requires background ∷ releases_lease background (some first_handle) ∷ requires background ∷ []

twice_second : ((run backend at_start twice).core.leases 1).epoch_id ≡ 2
unfolding after
twice_second = refl

renewed_twice :
    ((run backend at_start (
        requires background
        ∷ renews_lease background (some first_handle)
        ∷ renews_lease background (some first_handle)
        ∷ [])).core.leases
      0).sequence_id
    ≡ 3
unfolding after
renewed_twice = refl

run-CoreInv_example : CoreInv (run backend at_start require_renew_release).core
run-CoreInv_example = run-CoreInv backend at_start require_renew_release (new_core-CoreInv config 7)

one_authority_example : ◌≡◌ {A = ℕ} 1 1
unfolding after
one_authority_example =
    one_authority backend at_start config 7 twice refl 1 1 (omega arith) (omega arith) refl refl

released : World Memory
released =
    run backend at_start (requires background ∷ releases_lease background (some first_handle) ∷ [])

never_revived_example :
    let later = (run backend released (requires background ∷ [])).core.leases 0 in
    (later.retired ≡ some (sentinel lease_retired))
    × (grant_of later ≡ grant_of (released.core.leases 0))
unfolding after released
never_revived_example =
    never_revived backend released (requires background ∷ []) 0 (sentinel lease_retired)
      (omega arith) refl

require-Granted_example :
    Granted backend background
      (locked at_start)
      (require backend background at_start).1.core
      (require backend background at_start).1.now
      0
unfolding after
require-Granted_example = require-Granted backend background at_start 0 refl

held : World Memory
held = run backend at_start (requires background ∷ [])

-- The object is deleted behind the client's back, and the client looks.
gone : World Memory
gone = run backend (record held { store = empty }) (observes_lease background ∷ [])

terminal_final_example :
    let later = (run backend gone require_renew_release).core in
    (later.terminal ≡ some (annotated (sentinel lease_disappeared))) × (later.active ≡ none)
unfolding after gone held
terminal_final_example =
    terminal_final backend gone require_renew_release (annotated (sentinel lease_disappeared))
      (run-CoreInv backend (record held { store = empty }) (observes_lease background ∷ [])
        (run-CoreInv backend at_start (requires background ∷ []) (new_core-CoreInv config 7)))
      refl

-- Eleven seconds later the lease has run out.
late : World Memory
late = record held { now = 11_000_001_000 }

check_failure_final_example :
    (cause : Error) × ((later : ℕ)
      → (check
          (run backend
            (record late { core = (check late.core 0 late.now).1 })
            (requires background ∷ [])).core
          0
          later).0
        ≡ some cause)
unfolding after late held
check_failure_final_example =
    check_failure_final backend late 0 (sentinel lease_expired) (requires background ∷ [])
      (run-CoreInv backend at_start (requires background ∷ []) (new_core-CoreInv config 7))
      (omega arith) refl

run-Refines_example : Refines at_start.core (run backend at_start require_renew_release).core
run-Refines_example = run-Refines backend at_start require_renew_release (new_core-CoreInv config 7)
