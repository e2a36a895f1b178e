-- ===== src/Manifest/Fencing/Histories.antt =====
-- Histories of calls of several writers of examples/fencedmanifest/manifest.go on one manifest.
use s3_lease.Prelude.{
  ℕ, ◌≤◌, Bool, true, false, ◌==◌, String, Option, none, some, List, [], ◌∷◌, if◌then◌else◌,
}
use s3_lease.Lease.Errors.{Result, ok, err}
use s3_lease.Lease.State.{Bytes}
use s3_lease.Manifest.{WriterState, Format, Snapshot, MutationRequest}
use s3_lease.Manifest.Writer.{ManifestStore, Context, Site, zero_state}
use s3_lease.Manifest.Rounds.{requested, activate_epoch, publish_payload, read_manifest}
use s3_lease.Manifest.Fencing.{
  epoch, Grows, Conditional, PendingOk, Grows-refl, Grows-trans, PendingOk-Grows,
}
use s3_lease.Manifest.Fencing.Outcomes.{Outcome, stays, leads, either}
use s3_lease.Manifest.Fencing.Resolving.{read-Kept}
use s3_lease.Manifest.Fencing.Rounds.{mutate-Outcome}

-- A call of one `Writer`, with the context that it is given.
pub data ManifestCall (S : Type 0) : Type 0 where
  activates : Option (Context S) → ℕ → String → ManifestCall S
  publishes : Option (Context S) → ℕ → String → Bytes → ManifestCall S
  reads : Option (Context S) → ManifestCall S

-- Writers in any processes, by number, and what they share.
pub record Fleet (S : Type 0) : Type 0 where
  pub writers : ℕ → WriterState
  pub shared : S

abbrev pub new_fleet : {S : Type 0} → S → Fleet S
new_fleet s = record { writers = λ i. zero_state; shared = s }

abbrev pub replace_writer : ℕ → WriterState → (ℕ → WriterState) → ℕ → WriterState
replace_writer i w writers j = if i == j then w else writers j

module _ {S : Type 0} (format : Format) (outside : ManifestStore S) where
  unfoldable pub manifest_call : ManifestCall S → Site S → Result Snapshot × Site S
  unfolding activate_epoch publish_payload read_manifest
  manifest_call (activates ctx epoch_id mutation_id) site =
      activate_epoch format outside ctx epoch_id mutation_id site
  manifest_call (publishes ctx epoch_id mutation_id payload) site =
      publish_payload format outside ctx epoch_id mutation_id payload site
  manifest_call (reads ctx) site = read_manifest format outside ctx site

  abbrev pub after_call : ℕ → Fleet S → Site S → Fleet S
  after_call i fleet site = record {
    writers = replace_writer i site.writer fleet.writers;
    shared = site.store;
  }

  unfoldable pub run_fleet : List (ℕ × ManifestCall S) → Fleet S → Fleet S
  unfolding manifest_call
  run_fleet [] fleet = fleet
  run_fleet ((i, call) ∷ calls) fleet =
      let site =
        (manifest_call call (record { writer = fleet.writers i; store = fleet.shared })).1 in
      run_fleet calls (after_call i fleet site)

module _ {S : Type 0} (format : Format) (outside : ManifestStore S) (current : S → Option Bytes)
    (Denotes : S → String → Bytes → Type 0) (law : Conditional format outside current Denotes) where
  abbrev Fine : S → WriterState → Type 0
  Fine s w = PendingOk format outside current Denotes s w.pending

  abbrev Leads : {A : Type 0} → Site S → A × Site S → Type 0
  Leads = Outcome format outside current Denotes

  request-Outcome :
      (ctx : Option (Context S)) (request : Result MutationRequest) (site : Site S)
      → Fine site.store site.writer
      → Leads site (requested format outside ctx request site)
  request-Outcome ctx (err e) site h = leads _ (stays site h)
  request-Outcome ctx (ok request) site h =
      mutate-Outcome format outside current Denotes law ctx request site h

  read_manifest-Outcome :
      (ctx : Option (Context S)) (site : Site S)
      → Fine site.store site.writer
      → Leads site (read_manifest format outside ctx site)
  unfolding read_manifest
  read_manifest-Outcome none site h = leads _ (stays site h)
  read_manifest-Outcome (some ctx) site h =
      either site.writer.busy (leads _ (stays site h))
        (leads _ (read-Kept format outside current Denotes law site h).0)

  -- A call of any kind never takes the accepted epoch back.
  manifest_call-Outcome :
      (call : ManifestCall S) (site : Site S)
      → Fine site.store site.writer
      → Leads site (manifest_call format outside call site)
  unfolding manifest_call activate_epoch publish_payload
  manifest_call-Outcome (activates ctx n id) site h = request-Outcome ctx _ site h
  manifest_call-Outcome (publishes ctx n id payload) site h = request-Outcome ctx _ site h
  manifest_call-Outcome (reads ctx) site h = read_manifest-Outcome ctx site h

  -- Whatever is pending in a writer may be sent.
  abbrev AllFine : Fleet S → Type 0
  AllFine fleet = (j : ℕ) → Fine fleet.shared (fleet.writers j)

  replaced :
      (s : S) (b : Bool) (w v : WriterState) → Fine s w → Fine s v → Fine s (if b then w else v)
  replaced s true w v h k = h
  replaced s false w v h k = k

  run_fleet-Grows :
      (calls : List (ℕ × ManifestCall S)) (fleet : Fleet S)
      → AllFine fleet
      → Grows format outside current Denotes fleet.shared
          (run_fleet format outside calls fleet).shared
  unfolding run_fleet
  run_fleet-Grows [] fleet h = Grows-refl format outside current Denotes _
  run_fleet-Grows ((i, call) ∷ calls) fleet h =
      let site : Site S = record { writer = fleet.writers i; store = fleet.shared } in
      let k = (manifest_call-Outcome call site (h i)).keeps in
      let next = after_call format outside i fleet (manifest_call format outside call site).1 in
      let fine : AllFine next = λ j.
        replaced next.shared (i == j) _ (fleet.writers j) k.pending_ok (
          PendingOk-Grows format outside current Denotes (fleet.writers j).pending k.grows (h j)) in
      Grows-trans format outside current Denotes k.grows (run_fleet-Grows calls next fine)

  -- Against a conditional store, whose versions denote the bodies that they did, no history of
  -- activations, publications and reads by any number of new writers, with any errors of the store
  -- in between, takes the manifest back to an earlier accepted epoch. The JSON package reads back
  -- the accepted epoch that it wrote.
  pub epoch_never_back :
      (calls : List (ℕ × ManifestCall S)) (s : S)
      → epoch format outside current Denotes s
        ≤ epoch format outside current Denotes (run_fleet format outside calls (new_fleet s)).shared
  epoch_never_back calls s = (run_fleet-Grows calls (new_fleet s) (λ j. tt)).epoch_grows
