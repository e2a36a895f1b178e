-- ===== src/Tests/Scene.antt =====
-- A store that keeps one object in memory, and a client that works against it.
use Prim.Native.String.{◌++◌}
use s3_lease.Prelude.{ℕ, zero, suc, ◌+◌, String, none, [], ◌∷◌, ◌==◌, str_eq, if◌then◌else◌}
use s3_lease.Lease.Errors.{
  Result, ok, err, store_error, get, compare_and_swap, kind_not_found, precondition_failed,
  sentinel, not_found,
}
use s3_lease.Lease.Config.{Settings}
use s3_lease.Lease.Record.{Record, api_version_name, kind_name}
use s3_lease.Lease.State.{Bytes, new_core}
use s3_lease.Lease.Proposals.{Handle}
use s3_lease.Lease.World.{StoredObject, Decoded, undecodable, decoded, Backend, Context, World}

-- How often the object was written, and its body. At 0 there is none.
pub record Memory : Type 0 where
  pub writes : ℕ
  pub body : Bytes

abbrev pub version_of : ℕ → String
version_of zero = ""
version_of (suc n) = "v" ++ version_of n

abbrev pub empty : Memory
empty = record { writes = 0; body = [] }

abbrev fetch : ℕ → Memory → Result StoredObject × Memory
fetch budget m =
    if m.writes == 0
    then (err (store_error get kind_not_found (sentinel not_found)), m)
    else (ok (record { body = m.body; version = version_of m.writes }), m)

abbrev written : Memory → Bytes → Result String × Memory
written m body = (ok (version_of (m.writes + 1)), record { writes = m.writes + 1; body = body })

abbrev refused : Memory → Result String × Memory
refused m = (err (store_error compare_and_swap precondition_failed (sentinel not_found)), m)

abbrev create : ℕ → Bytes → Memory → Result String × Memory
create budget body m = if m.writes == 0 then written m body else refused m

abbrev swap : ℕ → String → Bytes → Memory → Result String × Memory
swap budget expected body m =
    if str_eq expected (version_of m.writes) then written m body else refused m

abbrev zeros : Bytes
zeros = 0 ∷ 0 ∷ 0 ∷ 0 ∷ 0 ∷ 0 ∷ 0 ∷ 0 ∷ 0 ∷ 0 ∷ 0 ∷ 0 ∷ 0 ∷ 0 ∷ 0 ∷ 0 ∷ []

-- The body holds what differs between the records of this store.
abbrev marshal : Record → Result Bytes
marshal r = ok (
    r.metadata.created_at
    ∷ (if str_eq r.spec.client_id "" then 0 else 1)
    ∷ r.spec.acquire_time
    ∷ r.spec.renew_time
    ∷ r.spec.epoch_id
    ∷ r.spec.sequence_id
    ∷ [])

abbrev unmarshal : Bytes → Decoded
unmarshal (created ∷ held ∷ acquired ∷ renewed ∷ epoch ∷ sequence ∷ []) = decoded (record {
  api_version = api_version_name;
  kind = kind_name;
  metadata = record {
    name = "lease";
    uid = "00000000-0000-4000-8000-000000000000";
    created_at = created;
  };
  spec = record {
    client_id = if held == 0 then "" else "a";
    lease_duration_seconds = 15;
    acquire_time = acquired;
    renew_time = renewed;
    epoch_id = epoch;
    sequence_id = sequence;
  };
})
unmarshal _ = undecodable

abbrev pub backend : Backend Memory
backend = record {
  fetch = fetch;
  create = create;
  swap = swap;
  random = λ m. (ok zeros, m);
  marshal = marshal;
  unmarshal = unmarshal;
}

-- 15 s, 10 s and 2 s.
abbrev pub config : Settings
config = record {
  client_id = "a";
  metadata_name = "lease";
  lease_duration = 15_000_000_000;
  renew_deadline = 10_000_000_000;
  request_timeout = 2_000_000_000;
}

abbrev pub background : Context
background = record { error_at = λ now. none; deadline = none }

abbrev pub at_start : World Memory
at_start = record { core = new_core config 7; store = empty; now = 1000; turns = [] }

abbrev pub first_handle : Handle
first_handle = record { origin = 7; lease = 0 }
