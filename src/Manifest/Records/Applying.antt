-- ===== src/Manifest/Records/Applying.antt =====
-- Which requests a record of examples/fencedmanifest/manifest.go has applied.
use s3_lease.Prelude.{
  suc, ◌-◌, ◌≡◌, ◌≢◌, refl, sym, subst, ◌⊎◌, inl, inr, arith, Bool, true, false, ◌||◌, String, List,
  [], ◌∷◌, ◌++◌, map, length, drop, str_eq, eq_iff, Bool-cases,
}
use s3_lease.Lease.State.{Bytes}
use s3_lease.Manifest.{
  activate, same_operation, HistoryEntry, HistoryRecord, ManifestRecord, MutationRequest, Snapshot,
  max_history_entries,
}
use s3_lease.Manifest.Records.{
  HistoryStatus, unseen, matched, conflicting, history_status, entry_of, snapshot, already,
  prepare_existing, prepared_as, prepared_new, result_record, initial_record, new_history_record,
}
use s3_lease.Manifest.Records.Retries.{bounded-append}

-- Whether a history has an entry with this ID.
abbrev pub recorded : List HistoryEntry → String → Bool
recorded [] id = false
recorded (h ∷ history) id = str_eq h.mutation_id id || recorded history id

-- The mutation with this ID is in the history, or it is an activation of the epoch that the manifest
-- has accepted.
abbrev pub Applied : MutationRequest → Snapshot → Type 0
Applied request m =
    (recorded m.history request.mutation_id ≡ true)
    ⊎ ((same_operation request.operation activate ≡ true)
        × (m.accepted_epoch_id ≡ request.epoch_id))

pub matched-recorded :
    (history : List HistoryRecord) (request : MutationRequest) (conflict : HistoryStatus)
    → conflict ≢ matched
    → history_status history request conflict ≡ matched
    → recorded (map entry_of history) request.mutation_id ≡ true
unfolding history_status
matched-recorded [] request conflict n e = absurd (n e)
matched-recorded (h ∷ history) request conflict n e =
    elim (Bool-cases (str_eq h.mutation_id request.mutation_id)) [
      | inl same ↦ ground (arith, same)
      | inr other ↦
          let k = matched-recorded history request conflict n (ground (arith, e, other)) in
          ground (arith, other, k)
    ]

recorded-append :
    (history : List HistoryRecord) (request : MutationRequest)
    → recorded (map entry_of (history ++ (new_history_record request ∷ []))) request.mutation_id
      ≡ true
recorded-append [] request =
    let k : str_eq request.mutation_id request.mutation_id ≡ true = (eq_iff _ _).1 refl in
    ground (arith, k)
recorded-append (h ∷ history) request = let k = recorded-append history request in ground (arith, k)

pub result_record-Applied :
    (r : ManifestRecord) (request : MutationRequest)
    → Applied request (snapshot (result_record r request))
unfolding snapshot result_record
result_record-Applied r request = inl (
    subst (λ history. recorded (map entry_of history) request.mutation_id ≡ true)
      (sym (bounded-append r.history (new_history_record request)))
      (recorded-append (drop (suc (length r.history) - max_history_entries) r.history) request))

pub initial_record-Applied :
    (request : MutationRequest) (bytes : Bytes)
    → Applied request (snapshot (initial_record request bytes))
unfolding snapshot initial_record
initial_record-Applied request bytes = inl (recorded-append [] request)

prepared_new-Applied :
    (r : ManifestRecord) (request : MutationRequest)
    → prepared_new r request ≡ already
    → Applied request (snapshot r)
unfolding snapshot
prepared_new-Applied r request e = inr (ground (arith, e), ground (arith, e))

prepared_as-Applied :
    (r : ManifestRecord) (request : MutationRequest) (status : HistoryStatus)
    → history_status r.history request unseen ≡ status
    → prepared_as r request status ≡ already
    → Applied request (snapshot r)
unfolding snapshot
prepared_as-Applied r request matched s e =
    inl (matched-recorded r.history request unseen (λ q. ground (arith, q)) s)
prepared_as-Applied r request conflicting s e = absurd (ground (arith, e))
prepared_as-Applied r request unseen s e = prepared_new-Applied r request e

pub prepare_existing-Applied :
    (r : ManifestRecord) (request : MutationRequest)
    → prepare_existing r request ≡ already
    → Applied request (snapshot r)
unfolding prepare_existing
prepare_existing-Applied r request e =
    prepared_as-Applied r request (history_status r.history request unseen) refl (ground (arith, e))
