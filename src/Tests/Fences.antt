-- ===== src/Tests/Fences.antt =====
-- Writers of one manifest on the ledger, and what the theorems say of them.
use s3_lease.Prelude.{
  ℕ, ◌≤◌, ◌≡◌, refl, sym, ap, true, false, Option, none, some, List, [], ◌∷◌, arith,
}
use s3_lease.Lease.Record.Uuid.{hex}
use s3_lease.Lease.Errors.{Result, error_is, is_unknown_write, ok}
use s3_lease.Manifest.{Snapshot, Attempt}
use s3_lease.Manifest.Text.{trim_space, utf8, byte_length, valid_hex}
use s3_lease.Manifest.Requests.{new_request, request_digest, same_request}
use s3_lease.Manifest.Records.{
  snapshot, initial_record, result_record, history_status, prepare_existing, already, writes,
  valid_entries, valid_history, valid_manifest, decode, encode,
}
use s3_lease.Manifest.Records.Retries.{retry_already}
use s3_lease.Manifest.Records.Encoding.{ReadsBack, as_written, result_record-decode}
use s3_lease.Manifest.Records.Written.{ValidRequest, result_record_valid}
use s3_lease.Manifest.Writer.{
  Context, Site, zero_state, read, remember, send, ambiguous_or_conflict,
}
use s3_lease.Manifest.Rounds.{
  resolve, propose, fresh, round, exhausted, attempts, mutate, activate_epoch, publish_payload,
  read_manifest,
}
use s3_lease.Manifest.Rounds.Counting.{Count, counted, Upto}
use s3_lease.Manifest.Rounds.Writes.{mutate-Upto}
use s3_lease.Manifest.Rounds.Trace.{Traced, traced}
use s3_lease.Manifest.Rounds.Success.{AppliedOr, mutate-AppliedOr}
use s3_lease.Manifest.Rounds.Ambiguity.{Reports, ambiguity_kept}
use s3_lease.Manifest.Fencing.{epoch}
use s3_lease.Manifest.Fencing.Histories.{
  ManifestCall, activates, publishes, Fleet, new_fleet, manifest_call, run_fleet, epoch_never_back,
}
use s3_lease.Tests.Ledger.{
  Ledger, latest, Was, ledger_store, tabled, table, given, first_record, second_record, activation,
  ledger-Conditional,
}

abbrev always : Option (Context Ledger)
always = some (λ s. none)

-- The next leader activates epoch 2, and the one before it publishes at epoch 1.
abbrev takeover : List (ℕ × ManifestCall Ledger)
takeover =
    (0, activates always 1 "one")
    ∷ (1, activates always 2 "two")
    ∷ (0, publishes always 1 "late" (1 ∷ []))
    ∷ []

fleet_after : List (ℕ × ManifestCall Ledger) → Fleet Ledger
unfolding trim_space utf8 byte_length valid_hex hex new_request request_digest same_request snapshot
    initial_record result_record history_status prepare_existing valid_entries valid_history
    valid_manifest decode encode read remember send ambiguous_or_conflict resolve propose fresh
    round exhausted attempts mutate activate_epoch publish_payload read_manifest manifest_call
    run_fleet error_is is_unknown_write first_record second_record table
fleet_after calls = run_fleet tabled ledger_store calls (new_fleet [])

-- The ledger ends with the body of epoch 2: what came late was not written.
takeover_ledger : (fleet_after takeover).shared ≡ (2 ∷ []) ∷ (1 ∷ []) ∷ []
unfolding fleet_after
takeover_ledger = refl

epoch_never_back_example :
    epoch tabled ledger_store latest Was ((1 ∷ []) ∷ [])
    ≤ epoch tabled ledger_store latest Was
        (run_fleet tabled ledger_store takeover (new_fleet ((1 ∷ []) ∷ []))).shared
epoch_never_back_example =
    epoch_never_back tabled ledger_store latest Was ledger-Conditional takeover ((1 ∷ []) ∷ [])

-- The second leader's activation, sent over the first record; no answer came.
abbrev unanswered : Attempt
unanswered = record {
  request = activation 2 "two";
  expected = "w";
  body = 2 ∷ [];
  result = snapshot second_record;
  create = false;
  ambiguous = true;
}

abbrev in_doubt : Site Ledger
in_doubt = record {
  writer = record zero_state { pending = some unanswered };
  store = (1 ∷ []) ∷ [];
}

ambiguity_kept_example :
    Reports unanswered (mutate tabled ledger_store always (activation 2 "two") in_doubt)
ambiguity_kept_example =
    ambiguity_kept tabled ledger_store unanswered refl (λ s. none) (activation 2 "two") in_doubt
      refl refl

second_writes : prepare_existing first_record (activation 2 "two") ≡ writes
unfolding prepare_existing history_status first_record initial_record
second_writes = refl

retry_already_example :
    prepare_existing (result_record first_record (activation 2 "two")) (activation 2 "two")
    ≡ already
retry_already_example = retry_already first_record (activation 2 "two") second_writes

first_valid : valid_manifest tabled first_record ≡ true
unfolding valid_manifest valid_history valid_entries valid_hex byte_length utf8 first_record
    initial_record hex
first_valid = refl

second_request_valid : ValidRequest tabled (activation 2 "two")
unfolding valid_hex byte_length utf8
second_request_valid = record { entry = refl; payload = λ e. ground (arith, e) }

result_record_valid_example :
    valid_manifest tabled (result_record first_record (activation 2 "two")) ≡ true
result_record_valid_example =
    result_record_valid tabled first_record (activation 2 "two") first_valid second_request_valid
      second_writes

second_encoded : encode tabled second_record ≡ ok (2 ∷ [])
unfolding encode table first_record second_record initial_record result_record
second_encoded = refl

second-ReadsBack : ReadsBack tabled second_record second_record.payload
unfolding table first_record second_record initial_record result_record
second-ReadsBack = record {
  rewritten = λ body e. rw (sym (ap given e)) refl;
  given = refl;
  json = refl;
}

result_record-decode_example :
    decode tabled (2 ∷ []) ≡ as_written second_record second_record.payload
unfolding second_record
result_record-decode_example =
    result_record-decode tabled first_record (activation 2 "two") second_record.payload (2 ∷ [])
      second-ReadsBack first_valid second_request_valid second_writes second_encoded

abbrev one_record : Site Ledger
one_record = record { writer = zero_state; store = (1 ∷ []) ∷ [] }

-- The second leader's activation against the first record.
second_activated : Result Snapshot × Site Ledger
unfolding fleet_after
second_activated = mutate tabled ledger_store always (activation 2 "two") one_record

second_is_given : second_activated.0 ≡ ok (snapshot second_record)
unfolding second_activated second_record snapshot
second_is_given = refl

abbrev traced_record : Site (Traced Ledger)
traced_record = record { writer = zero_state; store = ([], (1 ∷ []) ∷ []) }

mutate-AppliedOr_example :
    AppliedOr tabled ledger_store
      (activation 2 "two")
      (mutate tabled (traced ledger_store) (some λ s. none) (activation 2 "two") traced_record)
mutate-AppliedOr_example =
    mutate-AppliedOr tabled ledger_store (activation 2 "two") (λ s. none) traced_record tt

abbrev counted_record : Site (Count × Ledger)
counted_record = record {
  writer = record zero_state { pending = some unanswered };
  store = (record { writes_sent = 0; reads_sent = 0 }, (1 ∷ []) ∷ []);
}

mutate-Upto_example :
    Upto 8 16
      (mutate tabled (counted ledger_store) (some λ s. none) (activation 2 "two") counted_record)
mutate-Upto_example =
    mutate-Upto tabled ledger_store (activation 2 "two") (λ s. none) counted_record
