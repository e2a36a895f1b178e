-- ===== src/Lease/S3Store.antt =====
-- lease/s3store/s3store.go: the adapter from the SDK's client to a lease store. The SDK is a
-- parameter: what its two calls return, and what the reader of a body gives. Logging is left out.
pub mod Outcomes
use s3_lease.Prelude.{
  ◌+◌, ℕ, Bool, true, false, ◌&&◌, ◌||◌, not, String, Option, none, some, ltb, leb, ◌==◌, str_eq,
  length, or_else, if◌then◌else◌,
}
use s3_lease.Lease.Errors.{
  StoreOperation, get, create_if_absent, compare_and_swap, operation_index, StoreErrorKind,
  kind_not_found, precondition_failed, kind_conflict, kind_unauthorized, temporary, outcome_unknown,
  invalid_response, External, Error, sentinel, store_error, annotated, joined, external, canceled,
  deadline_exceeded, invalid_config, nil_pointer, error_is, first_of_two, Result, ok, err,
}
use s3_lease.Lease.Config.{Interface, Key, is_nil_interface}
use s3_lease.Lease.Record.{Record}
use s3_lease.Lease.State.{Bytes}
use s3_lease.Lease.World.{StoredObject, Decoded, Backend}

-- `64 << 10`
abbrev pub max_record_body_bytes : ℕ
max_record_body_bytes = 65_536

-- ------------------------------------------------------------------ errors

-- The status of the first response error in the tree, or 0.
abbrev status_in : Error → Option ℕ
status_in (sentinel s) = none
status_in (store_error op k e) = status_in e
status_in (annotated e) = status_in e
status_in (joined e f) = first_of_two (status_in e) (status_in f)
status_in (external x) = x.status

abbrev pub or_zero : Option ℕ → ℕ
or_zero none = 0
or_zero (some n) = n

unfoldable pub http_status : Error → ℕ
http_status e = or_zero (status_in e)

-- The lower-cased code of the first API error in the tree, or the empty string.
abbrev code_in : Error → Option String
code_in (sentinel s) = none
code_in (store_error op k e) = code_in e
code_in (annotated e) = code_in e
code_in (joined e f) = first_of_two (code_in e) (code_in f)
code_in (external x) = x.code

abbrev or_empty : Option String → String
or_empty none = ""
or_empty (some s) = s

unfoldable pub api_code : Error → String
api_code e = or_empty (code_in e)

abbrev has_net_error : Error → Bool
has_net_error (sentinel deadline_exceeded) = true
has_net_error (sentinel s) = false
has_net_error (store_error op k e) = has_net_error e
has_net_error (annotated e) = has_net_error e
has_net_error (joined e f) = has_net_error e || has_net_error f
has_net_error (external x) = x.net_error

unfoldable pub is_transport_failure : Error → Bool
unfolding error_is http_status
is_transport_failure e =
    if error_is e canceled || error_is e deadline_exceeded
    then true
    else has_net_error e || http_status e == 0

abbrev pub is_get : StoreOperation → Bool
is_get operation = operation_index operation == operation_index get

-- The kind that `classifyError` chooses.
unfoldable pub kind_of : StoreOperation → Error → StoreErrorKind
unfolding http_status api_code is_transport_failure
kind_of operation e =
    let status = http_status e in
    let code = api_code e in
    let write = not (is_get operation) in
    if status == 401 || status == 403 || str_eq code "accessdenied" || str_eq code "unauthorized"
    then kind_unauthorized
    else if is_get operation && (str_eq code "nosuchkey" || str_eq code "notfound")
    then kind_not_found
    else if write && status == 412
    then precondition_failed
    else if write && status == 409
    then kind_conflict
    else if write && (leb 500 status || is_transport_failure e)
    then outcome_unknown
    else if not write && (status == 429 || leb 500 status || is_transport_failure e)
    then temporary
    else invalid_response

unfoldable pub classify_error : StoreOperation → Error → Error
unfolding kind_of
classify_error operation e = store_error operation (kind_of operation e) e

-- ------------------------------------------------------------------ the client

-- A body: what `io.ReadAll` gives of its first bytes, and the error of `Close`.
pub record Body : Type 0 where
  pub read_all : ℕ → Result Bytes
  pub close_error : Option Error

-- The outputs of the SDK, with what the adapter reads of them; a nil pointer is `none`.
pub record GetObjectOutput : Type 0 where
  pub body : Option Body
  pub etag : Option String

pub record PutObjectInput : Type 0 where
  pub bucket : String
  pub object_key : String
  pub body : Bytes
  pub content_type : String
  pub if_none_match : Option String
  pub if_match : Option String

-- `Store`, over the state `S` of the world outside; a request is given the time that its context
-- leaves it. A `PutObjectOutput` is its ETag.
pub record ObjectStore (S : Type 0) : Type 0 where
  pub get_object : ℕ → Key → S → Result (Option GetObjectOutput) × S
  pub put_object : ℕ → PutObjectInput → S → Result (Option (Option String)) × S

-- `New`
unfoldable pub new_adapter : {A : Type 0} → Interface → A → Result A
unfolding is_nil_interface
new_adapter client a =
    if is_nil_interface client then err (annotated (sentinel invalid_config)) else ok a

-- An ETag that is neither nil nor empty.
abbrev pub given : Option String → Option String
given none = none
given (some etag) = if str_eq etag "" then none else some etag

-- An error of the adapter's own, whose cause is the text of an error.
abbrev pub own_error : StoreOperation → StoreErrorKind → Error
own_error operation kind = store_error operation kind (
    external (record {
      status = none;
      code = none;
      net_error = false;
      is_canceled = false;
      is_deadline = false;
    }))

-- The body of a GET, read and closed.
abbrev pub checked_body : Result Bytes → Option Error → String → Result StoredObject
checked_body (err e) close_error etag = err (store_error get temporary e)
checked_body (ok body) (some e) etag = err (store_error get temporary e)
checked_body (ok body) none etag =
    if ltb max_record_body_bytes (length body)
    then err (own_error get invalid_response)
    else ok (record { body = body; version = etag })

abbrev pub checked_output : Option Body → Option String → Result StoredObject
checked_output (some body) (some etag) =
    checked_body (body.read_all (max_record_body_bytes + 1)) body.close_error etag
checked_output _ _ = err (own_error get invalid_response)

abbrev pub get_output : Result (Option GetObjectOutput) → Result StoredObject
get_output (err e) = err (classify_error get e)
get_output (ok none) = err (own_error get invalid_response)
get_output (ok (some output)) = checked_output output.body (given output.etag)

abbrev pub put_tag : StoreOperation → Option String → Result String
put_tag operation none = err (own_error operation outcome_unknown)
put_tag operation (some etag) = ok etag

abbrev pub put_output : StoreOperation → Result (Option (Option String)) → Result String
put_output operation (err e) = err (classify_error operation e)
put_output operation (ok none) = err (own_error operation outcome_unknown)
put_output operation (ok (some etag)) = put_tag operation (given etag)

abbrev pub put_input : StoreOperation → Key → String → Bytes → PutObjectInput
put_input operation key expected body =
    let creates = operation_index operation == operation_index create_if_absent in
    record {
      bucket = key.bucket;
      object_key = key.object_key;
      body = body;
      content_type = "application/json";
      if_none_match = if creates then some "*" else none;
      if_match = if creates then none else some expected;
    }

module _ {S : Type 0} (client : ObjectStore S) (key : Key) where
  -- `Get`
  unfoldable pub get_record : ℕ → S → Result StoredObject × S
  unfolding classify_error
  get_record budget s = let (r, s') = client.get_object budget key s in (get_output r, s')

  unfoldable pub put : StoreOperation → String → ℕ → Bytes → S → Result String × S
  unfolding classify_error
  put operation expected budget body s =
      let (r, s') = client.put_object budget (put_input operation key expected body) s in
      (put_output operation r, s')

  -- `CreateIfAbsent`
  unfoldable pub create_record : ℕ → Bytes → S → Result String × S
  unfolding put
  create_record budget body s = put create_if_absent "" budget body s

  -- `CompareAndSwap`
  unfoldable pub swap_record : ℕ → String → Bytes → S → Result String × S
  unfolding put
  swap_record budget expected body s =
      if str_eq expected ""
      then (err (own_error compare_and_swap invalid_response), s)
      else put compare_and_swap expected budget body s

  -- The backend of a core that keeps its record through this adapter.
  abbrev pub s3_backend :
      (S → Result Bytes × S) → (Record → Result Bytes) → (Bytes → Decoded) → Backend S
  s3_backend random marshal unmarshal = record {
    fetch = get_record;
    create = create_record;
    swap = swap_record;
    random = random;
    marshal = marshal;
    unmarshal = unmarshal;
  }
