-- ===== src/Manifest/Rounds/Resolving.antt =====
-- Attempts that fit a request, and what `read`, `sendPending` and `resolvePending` of
-- examples/fencedmanifest/manifest.go make of them.
use s3_lease.Prelude.{
  ◌≡◌, ◌↔◌, inl, inr, refl, sym, subst, arith, Bool, true, false, String, Option, none, some,
  str_eq, eq_iff, if◌then◌else◌,
}
use s3_lease.Lease.Errors.{Error, Result, ok, err}
use s3_lease.Manifest.{ManifestRecord, MutationRequest, Attempt, Format, Snapshot}
use s3_lease.Manifest.Requests.{same_request}
use s3_lease.Manifest.Records.{
  HistoryStatus, unseen, matched, conflicting, history_status, snapshot,
}
use s3_lease.Manifest.Records.Applying.{Applied, matched-recorded}
use s3_lease.Manifest.Writer.{ManifestStore, Site, sent, read, write_attempt, send}
use s3_lease.Manifest.Rounds.{
  Resolution, Round, done, again, resolve, resolve_read, resolve_status, give_up, as_resolution,
}
use s3_lease.Manifest.Fencing.Outcomes.{fetched-pending}
use s3_lease.Manifest.Rounds.Trace.{
  Traced, traced, Confirmed, Encoded, Shown, read-Shown, write-Confirmed,
}

module _ (format : Format) (request : MutationRequest) where
  -- An attempt at the same request, whose body is its result, which has applied the request.
  abbrev pub Fits : Attempt → Type 0
  Fits p = (same_request p.request request ≡ true) × Applied request p.result × Encoded format p

  abbrev pub Fitting : Option Attempt → Type 0
  Fitting none = Unit {0}
  Fitting (some p) = Fits p

  abbrev pub Pends : {S : Type 0} → Site S → Type 0
  Pends site = Fitting site.writer.pending

  -- A result that has applied the request, and that the newest request of the store has confirmed.
  abbrev pub Reached : {S : Type 0} → Snapshot → Site (Traced S) → Type 0
  Reached m site = Applied request m × Confirmed format m site.store.0

  -- A success has reached the request; what is pending fits it in either case.
  abbrev pub Succeeded : {S : Type 0} → Result Snapshot × Site (Traced S) → Type 0
  Succeeded (ok m, site) = Reached m site × Pends site
  Succeeded (err e, site) = Pends site

  abbrev pub Settles : {S : Type 0} → Result Resolution × Site (Traced S) → Type 0
  Settles (ok x, site) = (x.resolved ≡ true → Reached x.result site) × Pends site
  Settles (err e, site) = Pends site

  abbrev pub Continues : {S : Type 0} → Round × Site (Traced S) → Type 0
  Continues (done r, site) = Succeeded (r, site)
  Continues (again e, site) = Pends site

  -- The same as records, whose type does not compute.
  pub record Resolved {S : Type 0} (x : Result Resolution × Site (Traced S)) : Type 0 where
    pub settles : Settles x

  pub record RoundOk {S : Type 0} (x : Round × Site (Traced S)) : Type 0 where
    pub continues : Continues x

pub either : {A : Type 0} (P : A → Type 0) (b : Bool) {x y : A} → P x → P y → P (if b then x else y)
either P true k l = k
either P false k l = l

same_id : (a b : MutationRequest) → same_request a b ≡ true → a.mutation_id ≡ b.mutation_id
unfolding same_request
same_id a b e =
    let id : str_eq a.mutation_id b.mutation_id ≡ true = ground (arith, e) in
    (eq_iff a.mutation_id b.mutation_id).0 id

pub same_request_refl : (a : MutationRequest) → same_request a a ≡ true
unfolding same_request
same_request_refl a =
    let id : str_eq a.mutation_id a.mutation_id ≡ true = (eq_iff _ _).1 refl in
    let digest : str_eq a.digest a.digest ≡ true = (eq_iff _ _).1 refl in ground (arith, id, digest)

-- The same request is applied by the same manifests.
pub same_request-Applied :
    (a b : MutationRequest) (m : Snapshot) → same_request a b ≡ true → Applied a m ↔ Applied b m
unfolding same_request
same_request-Applied a b m e =
    let same = same_id a b e in
    (
      λ k. elim k [
        | inl r ↦ inl (rw⁻¹ same r)
        | inr (kind, epoch) ↦ inr (ground (arith, e, kind), ground (arith, e, epoch))
      ],
      λ k. elim k [
        | inl r ↦ inl (rw same r)
        | inr (kind, epoch) ↦ inr (ground (arith, e, kind), ground (arith, e, epoch))
      ],
    )

module _ {S : Type 0} (format : Format) (outside : ManifestStore S)
    (request : MutationRequest) where
  sent-Succeeded :
      (p : Attempt) (reply : Result String) (site : Site (Traced S))
      → Fits format request p
      → ((version : String) → reply ≡ ok version → Confirmed format p.result site.store.0)
      → Succeeded format request (sent format (traced outside) p reply site)
  sent-Succeeded p (ok version) site (same, a, k) c = ((a, c version refl), tt)
  sent-Succeeded p (err e) site (same, a, k) c =
      (same, a, record { manifest = k.manifest; is_body = k.is_body; is_result = k.is_result })

  pub send-Succeeded :
      (p : Attempt) (site : Site (Traced S))
      → Fits format request p
      → Succeeded format request (send format (traced outside) p site)
  unfolding send
  send-Succeeded p site (same, a, k) =
      sent-Succeeded p (write_attempt format (traced outside) p site.store).0 _ (same, a, k)
        λ version e. write-Confirmed format outside p site.store version k e

  as_resolution-Resolved :
      (x : Result Snapshot × Site (Traced S))
      → Succeeded format request x
      → Resolved format request (as_resolution format (traced outside) x)
  as_resolution-Resolved (ok m, site) (a, k) = record { settles = (λ e. a, k) }
  as_resolution-Resolved (err e, site) k = record { settles = k }

  resend-Resolved :
      (p : Attempt) (site : Site (Traced S))
      → Fits format request p
      → Resolved format request
          (as_resolution format (traced outside) (send format (traced outside) p site))
  resend-Resolved p site k =
      as_resolution-Resolved (send format (traced outside) p site) (send-Succeeded p site k)

  give_up-Resolved :
      (p : Attempt) (e : Error) (site : Site (Traced S))
      → Pends format request site
      → Resolved format request (give_up format (traced outside) p e site)
  give_up-Resolved p e site k =
      either (Resolved format request) p.ambiguous (record { settles = k })
        (record { settles = tt })

  resolve_status-Resolved :
      (p : Attempt) (r : ManifestRecord) (version : String) (status : HistoryStatus)
      (site : Site (Traced S))
      → history_status r.history p.request unseen ≡ status
      → Confirmed format (snapshot r) site.store.0
      → Fits format request p
      → Pends format request site
      → Resolved format request (resolve_status format (traced outside) p r version status site)
  unfolding snapshot
  resolve_status-Resolved p r version matched site s c (same, a, b) k =
      let m = matched-recorded r.history p.request unseen (λ q. ground (arith, q)) s in
      record { settles = (λ e. (inl (rw⁻¹ (same_id p.request request same) m), c), tt) }
  resolve_status-Resolved p r version conflicting site s c f k = give_up-Resolved p _ site k
  resolve_status-Resolved p r version unseen site s c f k =
      either (Resolved format request) _ (give_up-Resolved p _ site k) (
        either (Resolved format request) _ (resend-Resolved p site f) (
          either (Resolved format request) p.ambiguous (record { settles = k })
            (record { settles = (λ e. ground (arith, e), tt) })))

  resolve_read-Resolved :
      (p : Attempt) (reply : Result (ManifestRecord × String)) (site : Site (Traced S))
      → Shown format reply site.store.0
      → Fits format request p
      → Pends format request site
      → Resolved format request (resolve_read format (traced outside) p reply site)
  resolve_read-Resolved p (ok (r, version)) site c f k =
      resolve_status-Resolved p r version (history_status r.history p.request unseen) site refl c f
        k
  resolve_read-Resolved p (err e) site c f k =
      either (Resolved format request) _
        (either (Resolved format request) p.create (resend-Resolved p site f)
          (give_up-Resolved p _ site k))
        (either (Resolved format request) p.ambiguous (record { settles = k })
          (record { settles = tt }))

  pub read-Pends :
      (site : Site (Traced S))
      → Pends format request site
      → Pends format request (read format (traced outside) site).1
  unfolding read
  read-Pends site k =
      subst (Fitting format request)
        (sym (
          fetched-pending format (traced outside) site.writer
            ((traced outside).fetch site.store).0))
        k

  pub resolve-Resolved :
      (p : Attempt) (site : Site (Traced S))
      → Fits format request p
      → Pends format request site
      → Resolved format request (resolve format (traced outside) p site)
  unfolding resolve
  resolve-Resolved p site f k =
      resolve_read-Resolved p (read format (traced outside) site).0
        (read format (traced outside) site).1 (read-Shown format outside site) f (read-Pends site k)
