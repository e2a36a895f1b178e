-- ===== src/Manifest/Records/Retries.antt =====
-- A request that is made again, against the history of examples/fencedmanifest/manifest.go.
use s3_lease.Prelude.{
  ℕ, zero, suc, ◌-◌, ◌≤◌, ◌≡◌, ◌≢◌, refl, true, false, List, [], ◌∷◌, ◌++◌, arith, length, drop,
  length-append, str_eq, eq_iff,
}
use s3_lease.Manifest.{MutationRequest, HistoryRecord, ManifestRecord, max_history_entries}
use s3_lease.Manifest.Records.{
  HistoryStatus, unseen, matched, conflicting, history_status, already, writes, prepared_as,
  prepare_existing, result_record, new_history_record, bounded_history,
}

pub drop-append :
    {A : Type 0} (n : ℕ) (xs : List A) (y : A)
    → n ≤ length xs
    → drop n (xs ++ (y ∷ [])) ≡ drop n xs ++ (y ∷ [])
drop-append zero xs y h = refl
drop-append (suc n) [] y h = ground (arith, h)
drop-append (suc n) (x ∷ xs) y h = drop-append n xs y (omega (arith, h))

-- The history that is kept ends with the entry that was added.
pub bounded-append :
    (history : List HistoryRecord) (h : HistoryRecord)
    → bounded_history (history ++ (h ∷ []))
      ≡ drop (suc (length history) - max_history_entries) history ++ (h ∷ [])
bounded-append history h =
    let n : length (history ++ (h ∷ [])) ≡ suc (length history) =
      omega (arith, length-append history (h ∷ [])) in
    rw n (drop-append (suc (length history) - max_history_entries) history h (omega arith))

clashed :
    (history : List HistoryRecord) (request : MutationRequest)
    → history_status history request conflicting ≢ unseen
unfolding history_status
clashed [] request e = ground arith
clashed (h ∷ history) request e = ground (arith, clashed history request)

-- What an unseen request says of the first entry, and of the others.
pub unseen-tail :
    (h : HistoryRecord) (history : List HistoryRecord) (request : MutationRequest)
    → history_status (h ∷ history) request unseen ≡ unseen
    → (str_eq h.mutation_id request.mutation_id ≡ false)
      × (history_status history request unseen ≡ unseen)
unfolding history_status
unseen-tail h history request e =
    (ground (arith, clashed history request), ground (arith, clashed history request))

unseen-drop :
    (n : ℕ) (history : List HistoryRecord) (request : MutationRequest)
    → history_status history request unseen ≡ unseen
    → history_status (drop n history) request unseen ≡ unseen
unseen-drop zero history request e = e
unseen-drop (suc n) [] request e = e
unseen-drop (suc n) (h ∷ history) request e =
    unseen-drop n history request (unseen-tail h history request e).1

matched-append :
    (history : List HistoryRecord) (request : MutationRequest)
    → history_status history request unseen ≡ unseen
    → history_status (history ++ (new_history_record request ∷ [])) request unseen ≡ matched
unfolding history_status
matched-append [] request e =
    let i : str_eq request.mutation_id request.mutation_id ≡ true = (eq_iff _ _).1 refl in
    let d : str_eq request.digest request.digest ≡ true = (eq_iff _ _).1 refl in ground arith
matched-append (h ∷ history) request e =
    let (i, k) = unseen-tail h history request e in
    let rest = matched-append history request k in ground arith

writes_as :
    (r : ManifestRecord) (request : MutationRequest) (x : HistoryStatus)
    → prepared_as r request x ≡ writes
    → x ≡ unseen
writes_as r request unseen e = refl
writes_as r request matched e = ground arith
writes_as r request conflicting e = ground arith

-- What `prepareExisting` found, when it says to write.
pub writes-unseen :
    (r : ManifestRecord) (request : MutationRequest)
    → prepare_existing r request ≡ writes
    → (history_status r.history request unseen ≡ unseen) × (r.accepted_epoch_id ≤ request.epoch_id)
unfolding prepare_existing
writes-unseen r request e = (
  writes_as r request (history_status r.history request unseen) (ground (arith, e)),
  ground (arith, e),
)

-- A request that was written is found again in the record that it made, whatever the bounded
-- history dropped for it: a retry writes nothing more.
pub retry_already :
    (r : ManifestRecord) (request : MutationRequest)
    → prepare_existing r request ≡ writes
    → prepare_existing (result_record r request) request ≡ already
unfolding prepare_existing result_record
retry_already r request e =
    let (u, g) = writes-unseen r request e in
    let kept = suc (length r.history) - max_history_entries in
    let m : history_status (bounded_history (r.history ++ (new_history_record request ∷ [])))
          request unseen
        ≡ matched =
      rw (bounded-append r.history (new_history_record request))
        (matched-append (drop kept r.history) request (unseen-drop kept r.history request u)) in
    ground (arith, m, g)
