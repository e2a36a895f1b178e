-- ===== src/Tests/Versions.antt =====
-- A history of records on one object, and what the theorems say of its first holder.
use s3_lease.Prelude.{◌≢◌, refl, ◌⊎◌, inl, inr, false, none, some, [], arith}
use s3_lease.Lease.Config.{validate_config, is_nil_interface, is_blank}
use s3_lease.Lease.Record.{initial_record, renewal_record, acquisition_record}
use s3_lease.Lease.State.{Core, Observed, new_core, check}
use s3_lease.Lease.Reads.{eligible}
use s3_lease.Lease.World.{◌>>=◌, settings, lift, pure, raise}
use s3_lease.Lease.Mutations.{Draft, draft_takeover}
use s3_lease.Lease.Safety.Exclusion.{
  Version, renews, History, starts, continues, Released, StandsFor, SameHolder, exclusion,
}
use s3_lease.Lease.Safety.Takeover.{takeover_excludes}
use s3_lease.Tests.Scene.{config, backend, at_start}
use s3_lease.Tests.Records.{given}

-- The holder's first record, sent at 1000, and its renewal five seconds later.
abbrev first_version : Version
first_version = record { current = initial_record config "u" 1000; sent = 1000 }

abbrev renewed_version : Version
renewed_version = record {
  current = record first_version.current {
    spec = record first_version.current.spec { renew_time = 5_000_001_000; sequence_id = 2 };
  };
  sent = 5_000_001_000;
}

renewed_once : History first_version renewed_version
unfolding renewal_record initial_record
renewed_once = continues starts (renews 5_000_001_000 refl (omega arith))

-- The holder after it was granted its lease.
abbrev holding : Core
holding = record (new_core config 7) {
  active = some 0;
  next_lease = 1;
  leases = λ i. record {
    lease_uid = "u";
    client_id = "a";
    epoch_id = 1;
    sequence_id = 1;
    valid_until = 10_000_001_000;
    done_closed = false;
    retired = none;
    timer = some 10_000_001_000;
  };
}

holding-StandsFor : StandsFor given holding 0 first_version
unfolding initial_record new_core
holding-StandsFor = record {
  settings = refl;
  deadline = omega arith;
  is_held = refl;
  duration = refl;
}

exclusion_example : SameHolder first_version renewed_version ⊎ Released renewed_once
unfolding check new_core validate_config is_nil_interface is_blank
exclusion_example =
    exclusion given holding 0 9_000_000_000 first_version renewed_version renewed_once refl
      holding-StandsFor (omega arith) refl

-- Another client that has seen the renewal since six seconds, and takes over at 22.
abbrev patient_view : Observed
patient_view = record {
  generation = 0;
  current = renewed_version.current;
  body = [];
  version = "v";
  unchanged_since = 6_000_000_000;
  last_read_at = 21_000_000_000;
}

abbrev second_draft : Draft
second_draft = record {
  creates = false;
  expected = "v";
  proposed = record renewed_version.current {
    spec = record renewed_version.current.spec {
      acquire_time = 22_000_000_000;
      renew_time = 22_000_000_000;
      epoch_id = 2;
      sequence_id = 1;
    };
  };
}

takeover_excludes_example : (check holding 0 23_000_000_000).0 ≢ none
unfolding renewed_once validate_config is_nil_interface is_blank draft_takeover eligible ◌>>=◌
    settings lift pure raise acquisition_record initial_record new_core
takeover_excludes_example =
    takeover_excludes backend given holding 0 23_000_000_000 first_version renewed_version
      renewed_once at_start patient_view 22_000_000_000 second_draft 22_500_000_000 refl
      holding-StandsFor refl (omega arith) (omega arith) refl (omega arith) (omega arith)
      (λ r. elim r [ inl k ↦ k | inr k ↦ k.0 ])
