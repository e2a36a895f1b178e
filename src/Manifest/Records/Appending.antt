-- ===== src/Manifest/Records/Appending.antt =====
-- The validation of examples/fencedmanifest/manifest.go on the record that a request makes.
use s3_lease.Prelude.{
  ℕ, suc, ◌-◌, ◌≤◌, ◌<◌, ◌≡◌, ◌≢◌, ◌⊎◌, inl, inr, refl, Bool, true, false, not, ◌&&◌, min, String,
  List, [], ◌∷◌, ◌++◌, arith, length, drop, ltb, leb, ◌==◌, str_eq, Bool-cases,
}
use s3_lease.Manifest.{
  MutationRequest, HistoryRecord, ManifestRecord, activate, same_operation, max_history_entries,
  max_mutation_id_bytes,
}
use s3_lease.Manifest.Text.{valid_hex, byte_length}
use s3_lease.Manifest.Records.{unseen, history_status, new_history_record, seen, valid_entries}
use s3_lease.Manifest.Records.Retries.{unseen-tail}

-- The bounds that `validHistory` sets to an entry alone.
abbrev pub entry_ok : HistoryRecord → Bool
entry_ok h =
    not (h.epoch_id == 0)
    && not (str_eq h.mutation_id "")
    && leb (byte_length h.mutation_id) max_mutation_id_bytes
    && valid_hex h.mutation_digest 32

-- The IDs that `wider` has are among those of `ids`.
abbrev Wider : List String → List String → Type 0
Wider ids fewer = (s : String) → seen ids s ≡ false → seen fewer s ≡ false

Wider-cons :
    (id : String) (ids fewer : List String) → Wider ids fewer → Wider (id ∷ ids) (id ∷ fewer)
Wider-cons id ids fewer w s e = let k = w s (ground (arith, e)) in ground (arith, e, k)

-- One step of the loop, both ways.
valid_step :
    (r : ManifestRecord) (b : Bool) (ids : List String) (previous : ℕ) (h : HistoryRecord)
    (history : List HistoryRecord)
    → valid_entries r b ids previous (h ∷ history) ≡ true
    → (h.epoch_id ≢ 0)
      × (h.epoch_id ≤ r.accepted_epoch_id)
      × (previous ≤ h.epoch_id)
      × (entry_ok h ≡ true)
      × (seen ids h.mutation_id ≡ false)
      × (valid_entries r false (h.mutation_id ∷ ids) h.epoch_id history ≡ true)
unfolding valid_entries
valid_step r b ids previous h history e = (
  ground (arith, e),
  ground (arith, e),
  ground (arith, e),
  ground (arith, e),
  ground (arith, e),
  ground (arith, e),
)

-- A record that is to come, with a later revision and the epoch of the request.
module _ (r r' : ManifestRecord) (later : r.revision < r'.revision)
    (grows : r.accepted_epoch_id ≤ r'.accepted_epoch_id) (request : MutationRequest)
    (at : request.epoch_id ≡ r'.accepted_epoch_id)
    (good : entry_ok (new_history_record request) ≡ true)
    (act : same_operation request.operation activate
      ≡ ltb r.accepted_epoch_id request.epoch_id) where
  -- The history with the entry of the request at its end.
  valid_append :
      (b : Bool) (ids : List String) (previous : ℕ) (history : List HistoryRecord)
      → valid_entries r b ids previous history ≡ true
      → ((b ≡ false) ⊎ (1 ≤ length history))
      → r'.accepted_epoch_id ≢ 0
      → seen ids request.mutation_id ≡ false
      → history_status history request unseen ≡ unseen
      → valid_entries r' b ids previous (history ++ (new_history_record request ∷ [])) ≡ true
  unfolding valid_entries
  valid_append b ids previous [] e ne nz new u = ground (arith, e, ne, at, good, act, new, grows)
  valid_append b ids previous (h ∷ history) e ne nz new u =
      let (d, k) = unseen-tail h history request u in
      let (_, le, _, _, _, rest) = valid_step r b ids previous h history e in
      let more =
        valid_append false (h.mutation_id ∷ ids) h.epoch_id history rest (inl refl) nz
          (ground (arith, d, new)) k in
      ground (arith, e, le, more, later, grows)

-- The history without what came before: the loop may start at any entry, once there were more.
valid_fewer :
    (r : ManifestRecord) (b : Bool) (ids fewer : List String) (previous : ℕ)
    (history : List HistoryRecord)
    → Wider ids fewer
    → valid_entries r b ids previous history ≡ true
    → valid_entries r b fewer previous history ≡ true
unfolding valid_entries
valid_fewer r b ids fewer previous [] w e = e
valid_fewer r b ids fewer previous (h ∷ history) w e =
    let (_, _, _, _, s, rest) = valid_step r b ids previous h history e in
    let new = w h.mutation_id s in
    let more =
      valid_fewer r false (h.mutation_id ∷ ids) (h.mutation_id ∷ fewer) h.epoch_id history
        (Wider-cons h.mutation_id ids fewer w) rest in
    ground (arith, e, new, more)

valid_first :
    (r : ManifestRecord) (ids : List String) (previous : ℕ) (h : HistoryRecord)
    (history : List HistoryRecord)
    → max_history_entries < r.revision
    → valid_entries r false ids previous (h ∷ history) ≡ true
    → valid_entries r true [] 0 (h ∷ history) ≡ true
unfolding valid_entries
valid_first r ids previous h history many e =
    let (_, _, _, _, s, rest) = valid_step r false ids previous h history e in
    let w : Wider (h.mutation_id ∷ ids) (h.mutation_id ∷ []) =
      Wider-cons h.mutation_id ids [] (λ s k. refl) in
    let more =
      valid_fewer r false (h.mutation_id ∷ ids) (h.mutation_id ∷ []) h.epoch_id history w rest in
    ground (arith, e, more, many)

module _ (r r' : ManifestRecord) (later : r'.revision ≡ suc r.revision)
    (grows : r.accepted_epoch_id ≤ r'.accepted_epoch_id) (request : MutationRequest)
    (at : request.epoch_id ≡ r'.accepted_epoch_id)
    (good : entry_ok (new_history_record request) ≡ true)
    (act : same_operation request.operation activate ≡ ltb r.accepted_epoch_id request.epoch_id)
    (nz : r'.accepted_epoch_id ≢ 0) where
  append :
      (b : Bool) (ids : List String) (previous : ℕ) (history : List HistoryRecord)
      → valid_entries r b ids previous history ≡ true
      → ((b ≡ false) ⊎ (1 ≤ length history))
      → seen ids request.mutation_id ≡ false
      → history_status history request unseen ≡ unseen
      → valid_entries r' b ids previous (history ++ (new_history_record request ∷ [])) ≡ true
  append b ids previous history e ne new u =
      valid_append r r' (omega (arith, later)) grows request at good act b ids previous history e ne
        nz new u

  -- The loop over a full history whose first entry is dropped.
  shifted_valid :
      (h : HistoryRecord) (history : List HistoryRecord)
      → max_history_entries ≤ r.revision
      → 1 ≤ length history
      → valid_entries r true [] 0 (h ∷ history) ≡ true
      → history_status (h ∷ history) request unseen ≡ unseen
      → valid_entries r' true [] 0 (history ++ (new_history_record request ∷ [])) ≡ true
  shifted_valid h [] many ne e u = ground (arith, ne)
  shifted_valid h (k ∷ history) many ne e u =
      let (d, unseen_here) = unseen-tail h (k ∷ history) request u in
      let (_, _, _, _, _, rest) = valid_step r true [] 0 h (k ∷ history) e in
      valid_first r' (h.mutation_id ∷ []) h.epoch_id k
        (history ++ (new_history_record request ∷ [])) (omega (arith, later, many))
        (append false (h.mutation_id ∷ []) h.epoch_id (k ∷ history) rest (inl refl)
          (ground (arith, d)) unseen_here)

  pub bounded_valid :
      (history : List HistoryRecord)
      → r.revision ≢ 0
      → length history ≡ min r.revision max_history_entries
      → valid_entries r true [] 0 history ≡ true
      → history_status history request unseen ≡ unseen
      → valid_entries r' true [] 0 (
          drop (suc (length history) - max_history_entries) history
          ++ (new_history_record request ∷ []))
        ≡ true
  bounded_valid [] some_revision n e u = ground (arith, some_revision, n)
  bounded_valid (h ∷ history) some_revision n e u = elim (Bool-cases (ltb (length history) 7)) [
    | inl few ↦
        let none_dropped : suc (suc (length history)) - max_history_entries ≡ 0 =
          ground (arith, few) in
        rw none_dropped (append true [] 0 (h ∷ history) e (inr (omega arith)) refl u)
    | inr full ↦
        let one_dropped : suc (suc (length history)) - max_history_entries ≡ 1 =
          ground (arith, full, n) in
        rw one_dropped
          (shifted_valid h history (ground (arith, full, n)) (ground (arith, full, n)) e u)
  ]
