-- ===== src/Manifest/Records/Encoding.antt =====
-- `encode` and `decode` of examples/fencedmanifest/manifest.go, one after the other.
use s3_lease.Prelude.{
  ℕ, ◌≡◌, ◌==◌, refl, Bool, true, false, arith, List, [], ◌∷◌, String, length, ltb, leb,
  if◌then◌else◌,
}
use s3_lease.Lease.Errors.{Result, ok, err, sentinel, invalid_manifest}
use s3_lease.Lease.State.{Bytes}
use s3_lease.Manifest.{
  Format, MutationRequest, ManifestRecord, HistoryRecord, decoded, max_manifest_body_bytes,
  max_payload_bytes,
}
use s3_lease.Manifest.Records.{
  writes, prepare_existing, result_record, valid_entries, valid_history, valid_manifest, sized,
  encode, decode,
}
use s3_lease.Manifest.Records.Written.{ValidRequest, result_record_valid}

-- A body that the JSON package makes of `r` is read back as `r`, with the payload as the package wrote
-- it: JSON that is not empty, and that may be longer, since the package escapes `<`, `>` and `&`.
pub record ReadsBack (format : Format) (r : ManifestRecord) (payload : Bytes) : Type 0 where
  pub rewritten :
      (body : Bytes)
      → format.marshal r ≡ ok body
      → format.unmarshal body ≡ decoded (record r { payload = payload })
  pub given : (length payload == 0) ≡ false
  pub json : format.is_json payload ≡ true

-- A body that is sent is the JSON of the record, within the limit that `decode` has.
encode-parts :
    (format : Format) (r : ManifestRecord) (body : Bytes)
    → encode format r ≡ ok body
    → (format.marshal r ≡ ok body) × (ltb max_manifest_body_bytes (length body) ≡ false)
unfolding encode
encode-parts format r body e = sized-parts (format.marshal r) e
  where
    sized-parts :
        (x : Result Bytes)
        → sized format x ≡ ok body
        → (x ≡ ok body) × (ltb max_manifest_body_bytes (length body) ≡ false)
    sized-parts (err e) k = cc
    sized-parts (ok b) k = (ground (arith, k), ground (arith, k))

valid_entries-payload :
    (r : ManifestRecord) (payload : Bytes) (is_first : Bool) (ids : List String) (previous : ℕ)
    (history : List HistoryRecord)
    → valid_entries (record r { payload = payload }) is_first ids previous history
      ≡ valid_entries r is_first ids previous history
unfolding valid_entries
valid_entries-payload r payload is_first ids previous [] = refl
valid_entries-payload r payload is_first ids previous (h ∷ history) =
    rw (valid_entries-payload r payload false (h.mutation_id ∷ ids) h.epoch_id history) refl

-- With another payload, a valid manifest is valid as long as the payload is.
valid_manifest-payload :
    (format : Format) (r : ManifestRecord) (payload : Bytes)
    → ReadsBack format r payload
    → valid_manifest format r ≡ true
    → valid_manifest format (record r { payload = payload })
      ≡ leb (length payload) max_payload_bytes
unfolding valid_manifest valid_history
valid_manifest-payload format r payload back v =
    let same = valid_entries-payload r payload true [] 0 r.history in
    ground (arith, v, same, back.given, back.json)

-- What a reader makes of a body: the manifest with its payload as it was written, or nothing.
abbrev pub as_written : ManifestRecord → Bytes → Result ManifestRecord
as_written r payload =
    if ltb max_payload_bytes (length payload)
    then err (sentinel invalid_manifest)
    else ok (record r { payload = payload })

encode-decode :
    (format : Format) (r : ManifestRecord) (payload body : Bytes)
    → ReadsBack format r payload
    → valid_manifest format r ≡ true
    → encode format r ≡ ok body
    → decode format body ≡ as_written r payload
unfolding decode
encode-decode format r payload body back v e =
    let (marshaled, small) = encode-parts format r body e in
    let valid = valid_manifest-payload format r payload back v in
    rw small (rw (back.rewritten body marshaled) (ground (arith, valid)))

-- The record that a valid request makes of a valid manifest is read back from the body that is
-- sent for it, with its payload as the JSON package wrote it, exactly where that is within the
-- limit of the payload; where the package made it longer than that, the body that was sent is
-- refused. The package reads back all but the payload, which stays JSON and is not empty.
pub result_record-decode :
    (format : Format) (r : ManifestRecord) (request : MutationRequest) (payload body : Bytes)
    → ReadsBack format (result_record r request) payload
    → valid_manifest format r ≡ true
    → ValidRequest format request
    → prepare_existing r request ≡ writes
    → encode format (result_record r request) ≡ ok body
    → decode format body ≡ as_written (result_record r request) payload
result_record-decode format r request payload body back v q w e =
    encode-decode format (result_record r request) payload body back
      (result_record_valid format r request v q w) e
