-- ===== src/Lease/Record.antt =====
-- lease/record.go: the persisted record, its validation and its transitions. A `time.Time` is a
-- number of nanoseconds, and the zero time is 0. A `uint64` is a number, its range a hypothesis.
pub mod Order
pub mod Transitions
pub mod Uuid
use s3_lease.Prelude.{
  ℕ, ◌+◌, ◌/◌, ◌≡◌, Bool, true, false, ◌&&◌, ◌||◌, not, String, Option, none, some, List, ltb, ◌==◌,
  str_eq, if◌then◌else◌,
}
use s3_lease.Lease.Errors.{
  Error, sentinel, annotated, protocol_violation, counter_overflow, Result, ok, err,
}
use s3_lease.Lease.Config.{Settings, second}

abbrev pub api_version_name : String
api_version_name = "coordination.pactdata.io/v1alpha1"

abbrev pub kind_name : String
kind_name = "Lease"

pub record RecordMetadata : Type 0 where
  pub name : String
  pub uid : String
  pub created_at : ℕ

pub record RecordSpec : Type 0 where
  pub client_id : String
  pub lease_duration_seconds : ℕ
  pub acquire_time : ℕ
  pub renew_time : ℕ
  pub epoch_id : ℕ
  pub sequence_id : ℕ

pub record Record : Type 0 where
  pub api_version : String
  pub kind : String
  pub metadata : RecordMetadata
  pub spec : RecordSpec

abbrev pub max_uint64 : ℕ
max_uint64 = 18_446_744_073_709_551_615

-- `math.MaxInt64 / int64(time.Second)`
abbrev pub max_duration_seconds : ℕ
max_duration_seconds = 9_223_372_036_854_775_807 / second

abbrev violation : Option Error
violation = some (annotated (sentinel protocol_violation))

unfoldable pub validate_record : Record → Option Error
validate_record r =
    if not (str_eq r.api_version api_version_name)
    then violation
    else if not (str_eq r.kind kind_name)
    then violation
    else if str_eq r.metadata.uid ""
    then violation
    else if r.metadata.created_at == 0
    then violation
    else if r.spec.lease_duration_seconds == 0
    then violation
    else if ltb max_duration_seconds r.spec.lease_duration_seconds
    then violation
    else if r.spec.acquire_time == 0 || r.spec.renew_time == 0
    then violation
    else if r.spec.epoch_id == 0 || r.spec.sequence_id == 0
    then violation
    else none

unfoldable pub same_record : Record → Record → Bool
same_record a b =
    str_eq a.api_version b.api_version
    && str_eq a.kind b.kind
    && str_eq a.metadata.name b.metadata.name
    && str_eq a.metadata.uid b.metadata.uid
    && a.metadata.created_at == b.metadata.created_at
    && str_eq a.spec.client_id b.spec.client_id
    && a.spec.lease_duration_seconds == b.spec.lease_duration_seconds
    && a.spec.acquire_time == b.spec.acquire_time
    && a.spec.renew_time == b.spec.renew_time
    && a.spec.epoch_id == b.spec.epoch_id
    && a.spec.sequence_id == b.spec.sequence_id

unfoldable pub records_compatible : Record → Record → Option Error
records_compatible previous next =
    if not (str_eq previous.metadata.uid next.metadata.uid)
    then violation
    else if ltb next.spec.epoch_id previous.spec.epoch_id
        || next.spec.epoch_id == previous.spec.epoch_id
          && ltb next.spec.sequence_id previous.spec.sequence_id
    then violation
    else if next.spec.epoch_id == previous.spec.epoch_id
        && next.spec.sequence_id == previous.spec.sequence_id
        && not (same_record previous next)
    then violation
    else none

-- The `uid` is `newUUIDv4`'s.
unfoldable pub initial_record : Settings → String → ℕ → Record
initial_record config uid now = record {
  api_version = api_version_name;
  kind = kind_name;
  metadata = record { name = config.metadata_name; uid = uid; created_at = now };
  spec = record {
    client_id = config.client_id;
    lease_duration_seconds = config.lease_duration / second;
    acquire_time = now;
    renew_time = now;
    epoch_id = 1;
    sequence_id = 1;
  };
}

unfoldable pub acquisition_record : Record → Settings → ℕ → Result Record
acquisition_record previous config now =
    if previous.spec.epoch_id == max_uint64
    then err (sentinel counter_overflow)
    else ok (record previous {
      spec = record {
        client_id = config.client_id;
        lease_duration_seconds = config.lease_duration / second;
        acquire_time = now;
        renew_time = now;
        epoch_id = previous.spec.epoch_id + 1;
        sequence_id = 1;
      };
    })

unfoldable pub renewal_record : Record → ℕ → Result Record
renewal_record previous now =
    if previous.spec.sequence_id == max_uint64
    then err (sentinel counter_overflow)
    else ok (record previous {
      spec = record previous.spec { renew_time = now; sequence_id = previous.spec.sequence_id + 1 };
    })

abbrev without_holder : Result Record → Result Record
without_holder (ok next) = ok (record next { spec = record next.spec { client_id = "" } })
without_holder (err e) = err e

unfoldable pub release_record : Record → ℕ → Result Record
unfolding renewal_record
release_record previous now = without_holder (renewal_record previous now)
