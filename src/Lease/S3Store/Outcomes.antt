-- ===== src/Lease/S3Store/Outcomes.antt =====
-- What a caller learns from the adapter of lease/s3store/s3store.go: which writes it may take for
-- refused, and what a GET gives.
use s3_lease.Prelude.{
  Option-cases, ℕ, ◌≤◌, ◌≡◌, refl, inl, inr, Bool, true, false, ◌||◌, String, Option, none, some,
  ◌==◌, str_eq, length, arith,
}
use s3_lease.Lease.Errors.{
  StoreOperation, Error, conflict, unknown_outcome, error_is, store_error_in, is_store_error,
  is_unknown_write, is_definitive_conflict, classify_acquisition_error, kind_is, Result, ok, err,
}
use s3_lease.Lease.Config.{Key}
use s3_lease.Lease.State.{Bytes}
use s3_lease.Lease.World.{StoredObject}
use s3_lease.Lease.S3Store.{
  max_record_body_bytes, http_status, api_code, is_transport_failure, kind_of, classify_error,
  ObjectStore, GetObjectOutput, is_get, given, put_input, put_output, get_output, get_record, put,
}

-- An error that says that the service refused the caller.
abbrev pub refused : Error → Bool
refused e =
    http_status e == 401
    || http_status e == 403
    || str_eq (api_code e) "accessdenied"
    || str_eq (api_code e) "unauthorized"

-- An error that says that the condition of the write did not hold.
abbrev pub denied : Error → Bool
denied e = http_status e == 412 || http_status e == 409

-- A reply after which nobody knows whether the write took place: the service failed, or it could not
-- be heard, or it answered without an ETag.
pub data Unclear : Result (Option (Option String)) → Type 0 where
  service_failed : (e : Error) → refused e ≡ false → 500 ≤ http_status e → Unclear (err e)
  not_heard :
      (e : Error)
      → refused e ≡ false
      → denied e ≡ false
      → is_transport_failure e ≡ true
      → Unclear (err e)
  no_output : Unclear (ok none)
  no_etag : (etag : Option String) → given etag ≡ none → Unclear (ok (some etag))

-- The error of an operation in which nobody knows whether the write took place.
abbrev pub ReportedUnknown : Result String → Type 0
ReportedUnknown r =
    (e : Error) × (r ≡ err e)
    × (is_unknown_write e ≡ true)
    × (error_is (classify_acquisition_error e) unknown_outcome ≡ true)

service_failed_unknown :
    (operation : StoreOperation) (e : Error)
    → is_get operation ≡ false
    → refused e ≡ false
    → 500 ≤ http_status e
    → ReportedUnknown (put_output operation (err e))
unfolding classify_error kind_of is_unknown_write error_is kind_is classify_acquisition_error
service_failed_unknown operation e w r h = (_, refl, ground arith, ground arith)

not_heard_unknown :
    (operation : StoreOperation) (e : Error)
    → is_get operation ≡ false
    → refused e ≡ false
    → denied e ≡ false
    → is_transport_failure e ≡ true
    → ReportedUnknown (put_output operation (err e))
unfolding classify_error kind_of is_unknown_write error_is kind_is classify_acquisition_error
not_heard_unknown operation e w r d h = (_, refl, ground arith, ground arith)

put_output-Unclear :
    (operation : StoreOperation) (reply : Result (Option (Option String)))
    → is_get operation ≡ false
    → Unclear reply
    → ReportedUnknown (put_output operation reply)
unfolding is_unknown_write error_is kind_is classify_acquisition_error
put_output-Unclear operation _ w (service_failed e r h) = service_failed_unknown operation e w r h
put_output-Unclear operation _ w (not_heard e r d h) = not_heard_unknown operation e w r d h
put_output-Unclear operation _ w no_output = (_, refl, refl, refl)
put_output-Unclear operation _ w (no_etag etag h) = rw h (_, refl, refl, refl)

-- Errors of the SDK do not wrap the errors of package lease.
conflict_denied :
    (operation : StoreOperation) (x e : Error)
    → error_is x conflict ≡ false
    → put_output operation (err x) ≡ err e
    → is_definitive_conflict e ≡ true
    → (denied x ≡ true) × (refused x ≡ false)
unfolding classify_error kind_of is_definitive_conflict is_store_error store_error_in error_is
    kind_is
conflict_denied operation x e own r c = ground arith

-- Errors that the SDK returns, none of which wraps the lease package's conflict.
abbrev pub Foreign : {A : Type 0} → Result A → Type 0
Foreign (ok a) = Unit {0}
Foreign (err x) = error_is x conflict ≡ false

abbrev pub Denied : Result (Option (Option String)) → Type 0
Denied reply = (x : Error) × (reply ≡ err x) × (denied x ≡ true) × (refused x ≡ false)

put_output-Denied :
    (operation : StoreOperation) (reply : Result (Option (Option String))) (e : Error)
    → Foreign reply
    → put_output operation reply ≡ err e
    → is_definitive_conflict e ≡ true
    → Denied reply
unfolding is_definitive_conflict is_store_error store_error_in error_is kind_is
put_output-Denied operation (err x) e own r c =
    let (d, f) = conflict_denied operation x e own r c in (x, refl, d, f)
put_output-Denied operation (ok none) e own r c = absurd (ground arith)
put_output-Denied operation (ok (some etag)) e own r c = elim (Option-cases (given etag)) [
  | inl g ↦ absurd (ground arith)
  | inr (v, g) ↦ absurd (ground arith)
]

output_bounds :
    (reply : Result (Option GetObjectOutput)) (object : StoredObject)
    → get_output reply ≡ ok object
    → (str_eq object.version "" ≡ false) × (length object.body ≤ max_record_body_bytes)
output_bounds (err x) object e = absurd (ground arith)
output_bounds (ok none) object e = absurd (ground arith)
output_bounds (ok (some output)) object e = (ground arith, ground arith)

module _ {S : Type 0} (client : ObjectStore S) (key : Key) where
  -- A write after whose reply nobody knows whether it took place is never reported as refused or
  -- as done: its error counts as an unknown write, and as an unknown outcome of an acquisition.
  pub put-Unclear :
      (operation : StoreOperation) (expected : String) (budget : ℕ) (body : Bytes) (s : S)
      → is_get operation ≡ false
      → Unclear (client.put_object budget (put_input operation key expected body) s).0
      → ReportedUnknown (put client key operation expected budget body s).0
  unfolding put
  put-Unclear operation expected budget body s w h = put_output-Unclear operation _ w h

  -- A write that is reported as a definitive conflict was refused by the service with status 412
  -- or 409, where the client's own errors are not conflicts of package lease.
  pub put-conflict :
      (operation : StoreOperation) (expected : String) (budget : ℕ) (body : Bytes) (s : S)
      (e : Error)
      → Foreign (client.put_object budget (put_input operation key expected body) s).0
      → (put client key operation expected budget body s).0 ≡ err e
      → is_definitive_conflict e ≡ true
      → Denied (client.put_object budget (put_input operation key expected body) s).0
  unfolding put
  put-conflict operation expected budget body s e own r c = put_output-Denied operation _ e own r c

  -- A record that a GET returns has a version and at most 64 KiB.
  pub get_record-bounds :
      (budget : ℕ) (s : S) (object : StoredObject)
      → (get_record client key budget s).0 ≡ ok object
      → (str_eq object.version "" ≡ false) × (length object.body ≤ max_record_body_bytes)
  unfolding get_record
  get_record-bounds budget s object e = output_bounds (client.get_object budget key s).0 object e
