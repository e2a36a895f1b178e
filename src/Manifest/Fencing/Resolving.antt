-- ===== src/Manifest/Fencing/Resolving.antt =====
-- The fence through `read` and `resolvePending`.
use s3_lease.Prelude.{◌≡◌, refl, ◌∙◌, true, false, String, Option, some, arith, subst, ltb, str_eq}
use s3_lease.Lease.Errors.{
  Error, Result, ok, err, error_is, not_found, sentinel, annotated, fenced, unknown_outcome,
  resource_disappeared,
}
use s3_lease.Lease.State.{Bytes}
use s3_lease.Lease.World.{StoredObject}
use s3_lease.Manifest.{ManifestRecord, Attempt, WriterState, Format, Snapshot}
use s3_lease.Manifest.Records.{decode, unseen, matched, conflicting, HistoryStatus}
use s3_lease.Manifest.Writer.{ManifestStore, Site, fetched, noted, read, send}
use s3_lease.Manifest.Rounds.{
  no_manifest, resolve, resolve_read, resolve_status, give_up, as_resolution,
}
use s3_lease.Manifest.Fencing.{
  body_epoch, Conditional, Sendable, PendingOk, Kept, PendingOk-Grows, send-Kept,
}
use s3_lease.Manifest.Fencing.Outcomes.{
  Given, fetched-pending, decode-epoch, Outcome, stays, clears, leads, either, after,
}

module _ {S : Type 0} (format : Format) (outside : ManifestStore S) (current : S → Option Bytes)
    (Denotes : S → String → Bytes → Type 0) (law : Conditional format outside current Denotes) where
  abbrev Fine : Site S → Type 0
  Fine site = PendingOk format outside current Denotes site.store site.writer.pending

  abbrev Keeps : Site S → Site S → Type 0
  Keeps = Kept format outside current Denotes

  abbrev Leads : {A : Type 0} → Site S → A × Site S → Type 0
  Leads = Outcome format outside current Denotes

  -- The body that a version which was read denotes.
  abbrev pub Source : S → ManifestRecord × String → Type 0
  Source s (r, version) =
      (old : Bytes) × Denotes s version old × (body_epoch format old ≡ r.accepted_epoch_id)

  noted-Source :
      (s : S) (w : WriterState) (object : StoredObject) (d : Result ManifestRecord)
      → decode format object.body ≡ d
      → Denotes s object.version object.body
      → Given (Source s) (noted format outside w object d).0
  noted-Source s w object (err e) k h = tt
  noted-Source s w object (ok r) k h =
      let x : Source s (r, object.version) =
        (object.body, h, decode-epoch format object.body r k) in
      ground (arith, x)

  fetched-Source :
      (s : S) (w : WriterState) (reply : Result StoredObject)
      → ((object : StoredObject) → reply ≡ ok object → Denotes s object.version object.body)
      → Given (Source s) (fetched format outside w reply).0
  fetched-Source s w (err e) h = tt
  fetched-Source s w (ok object) h =
      noted-Source s w object (decode format object.body) refl (h object refl)

  -- `read` keeps the fence, and gives a record with the body that its version denotes.
  pub read-Kept :
      (site : Site S)
      → Fine site
      → Keeps site (read format outside site).1
        × Given (Source (read format outside site).1.store) (read format outside site).0
        × ((read format outside site).1.writer.pending ≡ site.writer.pending)
  unfolding read
  read-Kept site h =
      let g = law.fetch_keeps site.store in
      let reply = (outside.fetch site.store).0 in
      let same = fetched-pending format outside site.writer reply in
      (
        record {
          grows = g;
          pending_ok = rw same (PendingOk-Grows format outside current Denotes _ g h);
        },
        fetched-Source _ site.writer reply (λ object e. law.fetch_denotes site.store object e),
        same,
      )

  give_up-Leads :
      (p : Attempt) (e : Error) (site : Site S)
      → Fine site
      → Leads site (give_up format outside p e site)
  give_up-Leads p e site h = either p.ambiguous (leads _ (stays site h)) (leads _ (clears site))

  as_resolution-Leads :
      (site : Site S) (r : Result Snapshot × Site S)
      → Leads site r
      → Leads site (as_resolution format outside r)
  as_resolution-Leads site (ok m, site') k = leads _ k.keeps
  as_resolution-Leads site (err e, site') k = leads _ k.keeps

  pub sends :
      (p : Attempt) (site : Site S)
      → Sendable format outside current Denotes site.store p
      → Leads site (send format outside p site)
  sends p site h = record { keeps = send-Kept format outside current Denotes law p site h }

  module _ (p : Attempt) (site : Site S) (h : Fine site)
      (sendable : Sendable format outside current Denotes site.store p) where
    resent : Leads site (as_resolution format outside (send format outside p site))
    resent = as_resolution-Leads site (send format outside p site) (sends p site sendable)

    resolve_status-Leads :
        (r : ManifestRecord) (version : String) (status : HistoryStatus)
        → Leads site (resolve_status format outside p r version status site)
    resolve_status-Leads r version matched = leads _ (clears site)
    resolve_status-Leads r version conflicting = give_up-Leads p _ site h
    resolve_status-Leads r version unseen =
        either (ltb p.request.epoch_id r.accepted_epoch_id)
          (give_up-Leads p (annotated (sentinel fenced)) site h)
          (either (str_eq version p.expected) resent (
            either p.ambiguous (leads (err (annotated (sentinel unknown_outcome))) (stays site h)) (
              leads (ok (record { result = no_manifest; resolved = false; rebase = true }))
                (clears site))))

    resolve_read-Leads :
        (reply : Result (ManifestRecord × String))
        → Leads site (resolve_read format outside p reply site)
    resolve_read-Leads (ok (r, version)) = resolve_status-Leads r version _
    resolve_read-Leads (err e) =
        either (error_is e not_found)
          (either p.create resent (give_up-Leads p (sentinel resource_disappeared) site h))
          (either p.ambiguous (leads (err e) (stays site h)) (leads (err e) (clears site)))

  pending_is :
      (s : S) (o : Option Attempt) (p : Attempt)
      → o ≡ some p
      → PendingOk format outside current Denotes s o
      → Sendable format outside current Denotes s p
  pending_is s o p e h = subst (PendingOk format outside current Denotes s) e h

  pub resolve-Leads :
      (p : Attempt) (site : Site S)
      → site.writer.pending ≡ some p
      → Fine site
      → Leads site (resolve format outside p site)
  unfolding resolve
  resolve-Leads p site e h =
      let (k, _, same) = read-Kept site h in
      let site' = (read format outside site).1 in
      after k (
        resolve_read-Leads p site' k.pending_ok
          (pending_is site'.store site'.writer.pending p (same ∙ e) k.pending_ok) _)
