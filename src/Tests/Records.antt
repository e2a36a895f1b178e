-- ===== src/Tests/Records.antt =====
-- Records and configurations at which the theorems on them apply.
use s3_lease.Prelude.{◌+◌, ◌≡◌, ◌↔◌, ◌⊎◌, refl, none, some, [], ◌∷◌, arith}
use s3_lease.Prelude.Int.{pos}
use s3_lease.Lease.Config.{Config, present, nil_interface, validate_config}
use s3_lease.Lease.Errors.{ok}
use s3_lease.Lease.Config.Valid.{Valid, validate_iff}
use s3_lease.Lease.Record.{
  Record, initial_record, records_compatible, acquisition_record, renewal_record, release_record,
  validate_record,
}
use s3_lease.Lease.Record.Order.{compatible-order}
use s3_lease.Lease.Record.Transitions.{
  Good, GoodSettings, Outcome, Next, SameTerm, initial_record-Good, acquisition_record_lem,
  renewal_record_lem, release_record_lem,
}
use s3_lease.Lease.State.{Core, Observed, new_core}
use s3_lease.Lease.Reads.{install_read, found}
use s3_lease.Lease.Reads.Observations.{Accepted, Refused, install_read_lem}
use s3_lease.Lease.Operations.{interpret, encode_record}
use s3_lease.Lease.Operations.ReadBack.{renews, stored, written-Accepted}
use s3_lease.Tests.Scene.{config, backend}

abbrev first : Record
first = initial_record config "u" 1000

seconds : GoodSettings config
seconds = record { some_seconds = omega arith; bounded = omega arith }

first-Good : Good first
unfolding initial_record validate_record
first-Good = initial_record-Good config "u" 1000 seconds refl (omega arith)

abbrev pub given : Config
given = record {
  store = present;
  key = record { bucket = "b"; object_key = "k" };
  client_id = "a";
  metadata_name = "lease";
  lease_duration = pos 15_000_000_000;
  renew_deadline = pos 10_000_000_000;
  request_timeout = pos 2_000_000_000;
  clock = nil_interface;
}

validate_iff_example : (validate_config given ≡ none) ↔ Valid given
validate_iff_example = validate_iff given

acquisition_record_lem_example :
    Outcome first.spec.epoch_id (acquisition_record first config 2000) (λ b.
      Next first b
      × (b.spec.epoch_id ≡ first.spec.epoch_id + 1)
      × (b.spec.sequence_id ≡ 1)
      × (b.spec.client_id ≡ config.client_id))
acquisition_record_lem_example =
    acquisition_record_lem config first 2000 seconds (omega arith) first-Good

renewal_record_lem_example :
    Outcome first.spec.sequence_id
      (renewal_record first 2000)
      (λ b. Next first b × SameTerm first b × (b.spec.client_id ≡ first.spec.client_id))
renewal_record_lem_example = renewal_record_lem first 2000 (omega arith) first-Good

release_record_lem_example :
    Outcome first.spec.sequence_id
      (release_record first 2000)
      (λ b. Next first b × SameTerm first b × (b.spec.client_id ≡ ""))
release_record_lem_example = release_record_lem first 2000 (omega arith) first-Good

compatible-order_example :
    (records_compatible first first ≡ none)
    × (records_compatible first first ≡ none
        → records_compatible first first ≡ none
        → records_compatible first first ≡ none)
    × (records_compatible first first ≡ none
        → records_compatible first first ≡ none
        → first ≡ first)
compatible-order_example = compatible-order first first first

abbrev seen : Observed
seen = record {
  generation = 0;
  current = first;
  body = [];
  version = "v";
  unchanged_since = 1000;
  last_read_at = 1000;
}

abbrev watching : Core
watching = record (new_core config 7) { observed = some seen; next_generation = 1 }

install_read_lem_example :
    let after = (install_read watching (some 0) 3000 (found "v" [] first)).1 in
    Accepted seen "v" [] first 3000 after ⊎ Refused seen after
unfolding new_core
install_read_lem_example = install_read_lem watching seen 3000 "v" [] first refl refl

-- The record that a client with the UID of the backend had written, and its renewal.
abbrev original : Record
original = initial_record config "00000000-0000-4000-8000-000000000000" 1000

abbrev renewed : Record
renewed = record original { spec = record original.spec { renew_time = 2000; sequence_id = 2 } }

abbrev known : Observed
known = record seen { current = original }

original-Good : Good original
unfolding initial_record validate_record
original-Good =
    initial_record-Good config "00000000-0000-4000-8000-000000000000" 1000 seconds refl
      (omega arith)

written-Accepted_example :
    Accepted known "w"
      (1000 ∷ 1 ∷ 1000 ∷ 2000 ∷ 1 ∷ 2 ∷ [])
      renewed
      3000
      (install_read
        (record watching { observed = some known })
        (some 0)
        3000
        (interpret backend (ok (stored (1000 ∷ 1 ∷ 1000 ∷ 2000 ∷ 1 ∷ 2 ∷ []) "w")))).1
unfolding new_core initial_record renewal_record encode_record
written-Accepted_example =
    written-Accepted backend (record watching { observed = some known }) known renewed
      (1000 ∷ 1 ∷ 1000 ∷ 2000 ∷ 1 ∷ 2 ∷ []) "w" 3000 refl refl original-Good
      (renews 2000 (omega arith) refl) refl (λ e. refl) refl refl
