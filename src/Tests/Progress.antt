-- ===== src/Tests/Progress.antt =====
-- A client that takes over a record in the store in memory.
use s3_lease.Prelude.{refl, some, [], ◌∷◌, arith}
use s3_lease.Lease.Record.{Record, initial_record, acquisition_record, validate_record}
use s3_lease.Lease.State.{Bytes, Core, Observed, new_core}
use s3_lease.Lease.Reads.{eligible}
use s3_lease.Lease.Operations.{interpret, decode_record}
use s3_lease.Lease.Mutations.{write_acquisition, require}
use s3_lease.Lease.Progress.Rules.{still, Gives}
use s3_lease.Lease.Progress.Taking.{Accepts, AtRest, Unchanged, draft_of, require-Gives}
use s3_lease.Tests.Scene.{Memory, backend, config, background}

abbrev abandoned : Record
abandoned = initial_record config "00000000-0000-4000-8000-000000000000" 1000

abbrev abandoned_body : Bytes
abandoned_body = 1000 ∷ 1 ∷ 1000 ∷ 1000 ∷ 1 ∷ 1 ∷ []

abbrev memory : Memory
memory = record { writes = 1; body = abandoned_body }

-- It was seen at one second, and nothing has changed since.
abbrev long_seen : Observed
long_seen = record {
  generation = 0;
  current = abandoned;
  body = abandoned_body;
  version = "v";
  unchanged_since = 1_000_000_000;
  last_read_at = 1_000_000_000;
}

abbrev waiting : Core
waiting = record (new_core config 7) { observed = some long_seen; next_generation = 1 }

waiting-AtRest : AtRest waiting long_seen
unfolding new_core
waiting-AtRest = record {
  unlocked = refl;
  running = refl;
  inactive = refl;
  resolved = refl;
  seen = refl;
}

memory-Unchanged : Unchanged backend memory long_seen
unfolding interpret decode_record validate_record initial_record
memory-Unchanged = record {
  object = record { body = abandoned_body; version = "v" };
  later = memory;
  fetched = λ b. refl;
  same = refl;
}

abbrev next : Record
next = record abandoned {
  spec = record abandoned.spec {
    acquire_time = 20_000_000_000;
    renew_time = 20_000_000_000;
    epoch_id = 2;
    sequence_id = 1;
  };
}

next-Accepts : Accepts backend memory (draft_of long_seen next)
unfolding write_acquisition initial_record
next-Accepts = record {
  body = 1000 ∷ 1 ∷ 20_000_000_000 ∷ 20_000_000_000 ∷ 2 ∷ 1 ∷ [];
  encoded = refl;
  version = "vv";
  later = record { writes = 2; body = 1000 ∷ 1 ∷ 20_000_000_000 ∷ 20_000_000_000 ∷ 2 ∷ 1 ∷ [] };
  written = λ b. refl;
  named = refl;
}

require-Gives_example : Gives (require backend background) (still waiting memory 20_000_000_000) 0
unfolding new_core eligible acquisition_record initial_record memory-Unchanged
require-Gives_example =
    require-Gives backend waiting memory 20_000_000_000 background
      (record { lasts = refl; unlimited = refl }) long_seen waiting-AtRest memory-Unchanged next
      (omega arith) refl refl next-Accepts
