-- ===== src/Manifest/Records.antt =====
-- The manifest's record in examples/fencedmanifest/manifest.go: its validation, its history, and the
-- record that a request makes.
pub mod Retries
pub mod Appending
pub mod Written
pub mod Encoding
pub mod Applying
use s3_lease.Prelude.{
  ℕ, ◌+◌, ◌-◌, min, max, Bool, true, false, ◌&&◌, ◌||◌, not, String, List, [], ◌∷◌, ◌++◌, map, ltb,
  leb, ◌==◌, length, drop, str_eq, if◌then◌else◌,
}
use s3_lease.Lease.Errors.{
  Error, sentinel, annotated, fenced, epoch_not_activated, mutation_conflict, invalid_manifest,
  Result, ok, err,
}
use s3_lease.Lease.Record.{max_uint64}
use s3_lease.Lease.Record.Uuid.{hex}
use s3_lease.Lease.State.{Bytes}
use s3_lease.Manifest.{
  activate, publish, same_operation, HistoryEntry, Snapshot, HistoryRecord, ManifestRecord,
  MutationRequest, DecodedManifest, undecodable, trailing, decoded, Format, api_version_name,
  kind_name, max_manifest_body_bytes, max_payload_bytes, max_mutation_id_bytes, max_history_entries,
}
use s3_lease.Manifest.Text.{byte_length, valid_hex}

abbrev pub entry_of : HistoryRecord → HistoryEntry
entry_of h = record {
  epoch_id = h.epoch_id;
  mutation_id = h.mutation_id;
  activation = h.activation;
}

abbrev last_mutation : List HistoryRecord → String
last_mutation [] = ""
last_mutation (h ∷ []) = h.mutation_id
last_mutation (h ∷ k ∷ history) = last_mutation (k ∷ history)

-- `snapshot`
unfoldable pub snapshot : ManifestRecord → Snapshot
snapshot r = record {
  resource_uid = r.resource_uid;
  accepted_epoch_id = r.accepted_epoch_id;
  revision = r.revision;
  last_mutation_id = last_mutation r.history;
  payload = r.payload;
  history = map entry_of r.history;
}

abbrev pub new_history_record : MutationRequest → HistoryRecord
new_history_record request = record {
  epoch_id = request.epoch_id;
  mutation_id = request.mutation_id;
  mutation_digest = request.digest;
  activation = same_operation request.operation activate;
}

-- What the history says of a request: an entry with its ID and its digest, or only ones with its ID.
pub data HistoryStatus : Type 0 where
  unseen matched conflicting : HistoryStatus

-- `historyStatus`, from the `conflict` that the loop has so far.
unfoldable pub history_status : List HistoryRecord → MutationRequest → HistoryStatus → HistoryStatus
history_status [] request conflict = conflict
history_status (h ∷ history) request conflict =
    let kept = history_status history request conflict in
    let clash = history_status history request conflicting in
    if not (str_eq h.mutation_id request.mutation_id)
    then kept
    else if str_eq h.mutation_digest request.digest
    then matched
    else clash

-- Whether the request needs no write, or its refusal, or the record to write.
pub data Prepared : Type 0 where
  already : Prepared
  refuses : Error → Prepared
  writes : Prepared

abbrev pub prepared_new : ManifestRecord → MutationRequest → Prepared
prepared_new r request =
    if same_operation request.operation activate && request.epoch_id == r.accepted_epoch_id
    then already
    else if same_operation request.operation publish && ltb r.accepted_epoch_id request.epoch_id
    then refuses (sentinel epoch_not_activated)
    else if r.revision == max_uint64
    then refuses (annotated (sentinel invalid_manifest))
    else writes

abbrev pub prepared_as : ManifestRecord → MutationRequest → HistoryStatus → Prepared
prepared_as r request matched = already
prepared_as r request conflicting = refuses (sentinel mutation_conflict)
prepared_as r request unseen = prepared_new r request

-- `prepareExisting`, without the snapshot that it returns in each case.
unfoldable pub prepare_existing : ManifestRecord → MutationRequest → Prepared
unfolding history_status
prepare_existing r request =
    if ltb request.epoch_id r.accepted_epoch_id
    then refuses (annotated (sentinel fenced))
    else prepared_as r request (history_status r.history request unseen)

abbrev pub bounded_history : List HistoryRecord → List HistoryRecord
bounded_history history = drop (length history - max_history_entries) history

-- `resultRecord`
unfoldable pub result_record : ManifestRecord → MutationRequest → ManifestRecord
result_record r request = record r {
  accepted_epoch_id = max r.accepted_epoch_id request.epoch_id;
  revision = r.revision + 1;
  history = bounded_history (r.history ++ (new_history_record request ∷ []));
  payload = if same_operation request.operation publish then request.payload else r.payload;
}

-- `initialRecord` on the 16 bytes of `newUID`; the payload is `null`.
unfoldable pub initial_record : MutationRequest → Bytes → ManifestRecord
unfolding hex
initial_record request bytes = record {
  api_version = api_version_name;
  kind = kind_name;
  resource_uid = hex bytes;
  accepted_epoch_id = request.epoch_id;
  revision = 1;
  payload = 110 ∷ 117 ∷ 108 ∷ 108 ∷ [];
  history = new_history_record request ∷ [];
}

-- ------------------------------------------------------------------ validation

abbrev same_bool : Bool → Bool → Bool
same_bool true b = b
same_bool false b = not b

abbrev seen : List String → String → Bool
seen [] s = false
seen (t ∷ ids) s = str_eq t s || seen ids s

-- The loop of `validHistory`: whether the entry is the first of all, the IDs seen, the last epoch.
unfoldable pub valid_entries :
    ManifestRecord → (is_first : Bool) → List String → ℕ → List HistoryRecord → Bool
unfolding valid_hex byte_length
valid_entries r is_first ids previous [] = previous == r.accepted_epoch_id
valid_entries r is_first ids previous (h ∷ history) =
    let rest = valid_entries r false (h.mutation_id ∷ ids) h.epoch_id history in
    if h.epoch_id == 0
      || ltb r.accepted_epoch_id h.epoch_id
      || ltb h.epoch_id previous
      || str_eq h.mutation_id ""
      || ltb max_mutation_id_bytes (byte_length h.mutation_id)
      || not (valid_hex h.mutation_digest 32)
    then false
    else if seen ids h.mutation_id
    then false
    else if is_first && leb r.revision max_history_entries && not h.activation
    then false
    else if not is_first && not (same_bool h.activation (ltb previous h.epoch_id))
    then false
    else rest

-- `validHistory`
unfoldable pub valid_history : ManifestRecord → Bool
unfolding valid_entries
valid_history r =
    length r.history == min r.revision max_history_entries && valid_entries r true [] 0 r.history

module _ (format : Format) where
  unfoldable pub valid_manifest : ManifestRecord → Bool
  unfolding valid_history valid_hex
  valid_manifest r =
      str_eq r.api_version api_version_name
      && str_eq r.kind kind_name
      && not (str_eq r.resource_uid "")
      && not (r.accepted_epoch_id == 0)
      && not (r.revision == 0)
      && valid_hex r.resource_uid 16
      && not (length r.payload == 0)
      && leb (length r.payload) max_payload_bytes
      && format.is_json r.payload
      && valid_history r

  abbrev decoded_as : DecodedManifest → Result ManifestRecord
  decoded_as undecodable = err (annotated (sentinel invalid_manifest))
  decoded_as trailing = err (annotated (sentinel invalid_manifest))
  decoded_as (decoded r) = if valid_manifest r then ok r else err (sentinel invalid_manifest)

  -- `decode`
  unfoldable pub decode : Bytes → Result ManifestRecord
  unfolding valid_manifest
  decode body =
      if ltb max_manifest_body_bytes (length body)
      then err (sentinel invalid_manifest)
      else decoded_as (format.unmarshal body)

  abbrev pub sized : Result Bytes → Result Bytes
  sized (err e) = err (annotated e)
  sized (ok body) =
      if ltb max_manifest_body_bytes (length body)
      then err (annotated (sentinel invalid_manifest))
      else ok body

  -- `encode`
  unfoldable pub encode : ManifestRecord → Result Bytes
  encode r = sized (format.marshal r)
