-- ===== src/Manifest/Records/Written.antt =====
-- The record that `resultRecord` of examples/fencedmanifest/manifest.go makes, under `validManifest`.
use s3_lease.Prelude.{
  suc, ◌+◌, ◌-◌, ◌≡◌, ◌≢◌, ◌⊎◌, inl, inr, refl, Bool, true, false, not, ◌&&◌, min, max, [], ◌∷◌,
  ◌++◌, arith, length, drop, length-append, length-drop, ltb, leb, ◌==◌, if◌then◌else◌,
}
use s3_lease.Lease.State.{Bytes}
use s3_lease.Manifest.{
  Operation, Format, MutationRequest, ManifestRecord, activate, publish, same_operation,
  max_history_entries, max_payload_bytes,
}
use s3_lease.Manifest.Records.{
  writes, prepare_existing, prepared_new, result_record, new_history_record, valid_history,
  valid_manifest,
}
use s3_lease.Manifest.Records.Retries.{writes-unseen, bounded-append}
use s3_lease.Manifest.Records.Appending.{entry_ok, bounded_valid}

operation_cases :
    (o : Operation)
    → ((same_operation o activate ≡ true) × (same_operation o publish ≡ false))
      ⊎ ((same_operation o activate ≡ false) × (same_operation o publish ≡ true))
operation_cases activate = inl (refl, refl)
operation_cases publish = inr (refl, refl)

-- A record is written for an activation of a later epoch or a publication of the same.
writes_activation :
    (r : ManifestRecord) (request : MutationRequest)
    → prepare_existing r request ≡ writes
    → same_operation request.operation activate ≡ ltb r.accepted_epoch_id request.epoch_id
unfolding prepare_existing
writes_activation r request e =
    let (u, g) = writes-unseen r request e in
    let new : prepared_new r request ≡ writes = ground (arith, e, u) in
    elim (operation_cases request.operation) [
      | inl (a, p) ↦ ground (arith, g, new, a, p)
      | inr (a, p) ↦ ground (arith, g, new, a, p)
    ]

abbrev payload_ok : Format → Bytes → Bool
payload_ok format payload =
    not (length payload == 0) && leb (length payload) max_payload_bytes && format.is_json payload

-- What `newRequest` has checked of a request.
pub record ValidRequest (format : Format) (request : MutationRequest) : Type 0 where
  pub entry : entry_ok (new_history_record request) ≡ true
  pub payload :
      same_operation request.operation publish ≡ true → payload_ok format request.payload ≡ true

chosen_payload :
    (format : Format) (publishes : Bool) (p q : Bytes)
    → (publishes ≡ true → payload_ok format p ≡ true)
    → payload_ok format q ≡ true
    → payload_ok format (if publishes then p else q) ≡ true
chosen_payload format true p q h k = h refl
chosen_payload format false p q h k = k

result_history_valid :
    (r : ManifestRecord) (request : MutationRequest)
    → r.revision ≢ 0
    → r.accepted_epoch_id ≢ 0
    → valid_history r ≡ true
    → entry_ok (new_history_record request) ≡ true
    → prepare_existing r request ≡ writes
    → valid_history (result_record r request) ≡ true
unfolding valid_history result_record
result_history_valid r request nr ne v q e =
    let (u, g) = writes-unseen r request e in
    let at : request.epoch_id ≡ max r.accepted_epoch_id request.epoch_id = ground (arith, g) in
    let n : length r.history ≡ min r.revision max_history_entries = ground (arith, v) in
    let history =
      bounded_valid r (result_record r request) (omega arith) (omega arith) request at q
        (writes_activation r request e) (ground (arith, ne)) r.history nr n (ground (arith, v)) u in
    let kept = drop (suc (length r.history) - max_history_entries) r.history in
    let size : length (kept ++ (new_history_record request ∷ []))
        ≡ min (r.revision + 1) max_history_entries =
      ground (
        arith,
        length-append kept (new_history_record request ∷ []),
        length-drop (suc (length r.history) - max_history_entries) r.history,
        n,
      ) in
    rw (bounded-append r.history (new_history_record request)) (ground (arith, size, history))

valid_parts :
    (format : Format) (r : ManifestRecord) (request : MutationRequest)
    → valid_manifest format r ≡ true
    → payload_ok format (result_record r request).payload ≡ true
    → valid_history (result_record r request) ≡ true
    → valid_manifest format (result_record r request) ≡ true
unfolding valid_manifest result_record
valid_parts format r request v p h =
    let n : max r.accepted_epoch_id request.epoch_id ≢ 0 = ground (arith, v) in
    ground (arith, v, p, h, n)

-- The record that a valid request makes of a valid manifest, where `prepareExisting` says to
-- write, is again valid: its history has the bounded length, IDs that are not repeated, epochs
-- that do not go back, and an activation exactly where the epoch advances.
pub result_record_valid :
    (format : Format) (r : ManifestRecord) (request : MutationRequest)
    → valid_manifest format r ≡ true
    → ValidRequest format request
    → prepare_existing r request ≡ writes
    → valid_manifest format (result_record r request) ≡ true
unfolding valid_manifest result_record
result_record_valid format r request v q e =
    let p : payload_ok format (result_record r request).payload ≡ true =
      chosen_payload format (same_operation request.operation publish) request.payload r.payload
        q.payload (ground (arith, v)) in
    let history =
      result_history_valid r request (ground (arith, v)) (ground (arith, v)) (ground (arith, v))
        q.entry e in
    valid_parts format r request v p history
