-- ===== src/Tests/Store.antt =====
-- The adapter against one SDK client whose replies are given.
use s3_lease.Prelude.{ℕ, refl, true, false, String, Option, none, some, [], ◌∷◌}
use s3_lease.Lease.Errors.{
  Error, external, Result, ok, err, compare_and_swap, precondition_failed, store_error, error_is,
  is_definitive_conflict, is_store_error, store_error_in, kind_is,
}
use s3_lease.Lease.Config.{Key}
use s3_lease.Lease.S3Store.{
  GetObjectOutput, ObjectStore, put, http_status, api_code, is_transport_failure, classify_error,
}
use s3_lease.Lease.S3Store.Outcomes.{ReportedUnknown, Denied, not_heard, put-Unclear, put-conflict}

-- A client whose replies are the state.
abbrev Script : Type 0
Script = Result (Option GetObjectOutput) × Result (Option (Option String))

abbrev scripted : ObjectStore Script
scripted = record { get_object = λ budget key s. (s.0, s); put_object = λ budget input s. (s.1, s) }

abbrev key : Key
key = record { bucket = "b"; object_key = "k" }

abbrev status_error : ℕ → Error
status_error n = external (record {
  status = some n;
  code = none;
  net_error = false;
  is_canceled = false;
  is_deadline = false;
})

-- No response came.
abbrev timeout : Error
timeout = external (record {
  status = none;
  code = none;
  net_error = true;
  is_canceled = false;
  is_deadline = false;
})

abbrev lost : Script
lost = (ok none, err timeout)

abbrev denied_script : Script
denied_script = (ok none, err (status_error 412))

abbrev small_output : GetObjectOutput
small_output = record {
  body = some (record { read_all = λ limit. ok (1 ∷ []); close_error = none });
  etag = some "v";
}

abbrev answered : Script
answered = (ok (some small_output), ok none)

put-unclear_example : ReportedUnknown (put scripted key compare_and_swap "v" 5 [] lost).0
unfolding http_status api_code is_transport_failure error_is
put-unclear_example =
    put-Unclear scripted key compare_and_swap "v" 5 [] lost refl (not_heard timeout refl refl refl)

put-conflict_example : Denied (err (status_error 412))
unfolding http_status api_code is_transport_failure error_is put classify_error
    is_definitive_conflict is_store_error store_error_in kind_is
put-conflict_example =
    put-conflict scripted key compare_and_swap "v" 5 [] denied_script
      (store_error compare_and_swap precondition_failed (status_error 412)) refl refl refl
