-- ===== src/Manifest/Rounds/Success.antt =====
-- What a call of `mutate` of examples/fencedmanifest/manifest.go has done when it succeeds.
use s3_lease.Prelude.{
  ℕ, zero, suc, ◌≡◌, inl, inr, refl, arith, Bool, true, false, not, String, Option, none, some,
  str_eq, if◌then◌else◌, Bool-cases,
}
use s3_lease.Lease.Errors.{
  Error, Result, ok, err, sentinel, annotated, manifest_busy, unknown_outcome, resource_disappeared,
  epoch_not_activated,
}
use s3_lease.Lease.State.{Bytes}
use s3_lease.Manifest.{
  activate, same_operation, ManifestRecord, MutationRequest, Attempt, Format, Snapshot,
  max_mutation_attempts,
}
use s3_lease.Manifest.Requests.{same_request}
use s3_lease.Manifest.Records.{
  snapshot, Prepared, already, refuses, writes, prepare_existing, result_record, initial_record,
  encode,
}
use s3_lease.Manifest.Records.Applying.{
  Applied, result_record-Applied, initial_record-Applied, prepare_existing-Applied,
}
use s3_lease.Manifest.Writer.{ManifestStore, Context, Site, with_pending, read, send}
use s3_lease.Manifest.Rounds.{
  Resolution, Round, done, again, resolve, after_send, attempt_of, send_encoded, propose,
  propose_initial, start, prepared_round, fresh_read, fresh, after_resolve, round_of, round_unless,
  round, exhausted, next_round, attempts, mutate, different_pending, with_busy, unlocked,
  ambiguous_pending,
}
use s3_lease.Manifest.Rounds.Resolving.{
  Fitting, Pends, Succeeded, Resolved, RoundOk, either, same_request-Applied, same_request_refl,
  send-Succeeded, resolve-Resolved, read-Pends,
}
use s3_lease.Manifest.Rounds.Trace.{Traced, traced, Confirmed, Encoded, Shown, read-Shown}

module _ {S : Type 0} (format : Format) (outside : ManifestStore S)
    (request : MutationRequest) where
  goes_on :
      (e : Error) (site : Site (Traced S))
      → Pends format request site
      → RoundOk format request (again e, site)
  goes_on e site k = record { continues = k }

  fails :
      (e : Error) (site : Site (Traced S))
      → Pends format request site
      → RoundOk format request (done (err e), site)
  fails e site k = record { continues = k }

  after_send-RoundOk :
      (x : Result Snapshot × Site (Traced S))
      → Succeeded format request x
      → RoundOk format request (after_send format (traced outside) x)
  after_send-RoundOk (ok m, site) k = record { continues = k }
  after_send-RoundOk (err e, site) k =
      either (RoundOk format request) _ (goes_on e site k) (fails e (with_pending site none) tt)

  send_encoded-RoundOk :
      (r : ManifestRecord) (version : String) (body : Result Bytes) (site : Site (Traced S))
      → encode format r ≡ body
      → Applied request (snapshot r)
      → Pends format request site
      → RoundOk format request (send_encoded format (traced outside) request r version body site)
  send_encoded-RoundOk r version (err e) site e_r a k = record { continues = k }
  send_encoded-RoundOk r version (ok body) site encoded a k =
      let p = attempt_of format (traced outside) request r version body in
      let there = with_pending site (some p) in
      after_send-RoundOk (send format (traced outside) p there) (
        send-Succeeded format outside request p there (
          same_request_refl request,
          a,
          record { manifest = r; is_body = encoded; is_result = refl },
        ))

  propose-RoundOk :
      (r : ManifestRecord) (version : String) (site : Site (Traced S))
      → Applied request (snapshot r)
      → Pends format request site
      → RoundOk format request (propose format (traced outside) request r version site)
  unfolding propose
  propose-RoundOk r version site a k =
      send_encoded-RoundOk r version (encode format r) site refl a k

  propose_initial-RoundOk :
      (bytes : Result Bytes) (site : Site (Traced S))
      → Pends format request site
      → RoundOk format request (propose_initial format (traced outside) request bytes site)
  propose_initial-RoundOk (err e) site k = record { continues = k }
  propose_initial-RoundOk (ok bytes) site k =
      propose-RoundOk (initial_record request bytes) "" site (initial_record-Applied request bytes)
        k

  start-RoundOk :
      (site : Site (Traced S))
      → Pends format request site
      → RoundOk format request (start format (traced outside) request site)
  start-RoundOk site k =
      let there = record site { store = ((traced outside).random site.store).1 } in
      either (RoundOk format request) (not (str_eq site.writer.resource_uid ""))
        (fails (sentinel resource_disappeared) site k)
        (either (RoundOk format request) (not (same_operation request.operation activate))
          (fails (sentinel epoch_not_activated) site k)
          (propose_initial-RoundOk ((traced outside).random site.store).0 there k))

  prepared_round-RoundOk :
      (r : ManifestRecord) (version : String) (prepared : Prepared) (site : Site (Traced S))
      → prepare_existing r request ≡ prepared
      → Confirmed format (snapshot r) site.store.0
      → Pends format request site
      → RoundOk format request
          (prepared_round format (traced outside) request r version prepared site)
  prepared_round-RoundOk r version already site e c k = record {
    continues = ((prepare_existing-Applied r request e, c), k);
  }
  prepared_round-RoundOk r version (refuses x) site e c k = record { continues = k }
  prepared_round-RoundOk r version writes site e c k =
      propose-RoundOk (result_record r request) version site (result_record-Applied r request) k

  fresh_read-RoundOk :
      (reply : Result (ManifestRecord × String)) (site : Site (Traced S))
      → Shown format reply site.store.0
      → Pends format request site
      → RoundOk format request (fresh_read format (traced outside) request reply site)
  fresh_read-RoundOk (err e) site c k =
      either (RoundOk format request) _ (start-RoundOk site k) (fails e site k)
  fresh_read-RoundOk (ok (r, version)) site c k =
      prepared_round-RoundOk r version (prepare_existing r request) site refl c k

  fresh-RoundOk :
      (site : Site (Traced S))
      → Pends format request site
      → RoundOk format request (fresh format (traced outside) request site)
  unfolding fresh
  fresh-RoundOk site k =
      fresh_read-RoundOk (read format (traced outside) site).0 (read format (traced outside) site).1
        (read-Shown format outside site) (read-Pends format outside request site k)

  after_resolve-RoundOk :
      (x : Result Resolution × Site (Traced S))
      → Resolved format request x
      → RoundOk format request (after_resolve format (traced outside) request x.0 x.1)
  after_resolve-RoundOk (err e, site) r = record { continues = r.settles }
  after_resolve-RoundOk (ok x, site) r = elim (Bool-cases x.resolved) [
    | inl q ↦ rw q (record { continues = (r.settles.0 q, r.settles.1) })
    | inr u ↦ rw u (
        either (RoundOk format request) (not x.rebase) (goes_on _ site r.settles.1)
          (fresh-RoundOk site r.settles.1))
  ]

  round_of-RoundOk :
      (pending : Option Attempt) (site : Site (Traced S))
      → Fitting format request pending
      → Pends format request site
      → RoundOk format request (round_of format (traced outside) request pending site)
  round_of-RoundOk none site f k = fresh-RoundOk site k
  round_of-RoundOk (some p) site f k =
      after_resolve-RoundOk (resolve format (traced outside) p site)
        (resolve-Resolved format outside request p site f k)

  round_unless-RoundOk :
      (e : Option Error) (site : Site (Traced S))
      → Pends format request site
      → RoundOk format request (round_unless format (traced outside) e request site)
  round_unless-RoundOk (some e) site k = record { continues = k }
  round_unless-RoundOk none site k = round_of-RoundOk site.writer.pending site k k

  next_round-Succeeded :
      (x : Round × Site (Traced S)) (more : Result Snapshot × Site (Traced S))
      → RoundOk format request x
      → (Pends format request x.1 → Succeeded format request more)
      → Succeeded format request (next_round format (traced outside) x.0 x.1 more)
  next_round-Succeeded (done r, site) more k l = k.continues
  next_round-Succeeded (again e, site) more k l = l k.continues

  exhausted-Succeeded :
      (site : Site (Traced S))
      → Pends format request site
      → Succeeded format request (exhausted format (traced outside) site)
  unfolding exhausted
  exhausted-Succeeded site k = elim (Bool-cases (ambiguous_pending site.writer.pending)) [
    | inl unknown ↦ rw unknown k
    | inr known ↦ rw known tt
  ]

  attempts-Succeeded :
      (left : ℕ) (ctx : Context (Traced S)) (site : Site (Traced S))
      → Pends format request site
      → Succeeded format request (attempts format (traced outside) left ctx request site)
  unfolding attempts round exhausted
  attempts-Succeeded zero ctx site k = exhausted-Succeeded site k
  attempts-Succeeded (suc left) ctx site k =
      let x = round format (traced outside) ctx request site in
      next_round-Succeeded x _ (round_unless-RoundOk (ctx site.store) site k)
        (λ l. attempts-Succeeded left ctx x.1 l)

-- A pending attempt whose result has applied its request, and is what its body encodes.
abbrev pub Sound : Format → Option Attempt → Type 0
Sound format none = Unit {0}
Sound format (some p) = Applied p.request p.result × Encoded format p

Fitting-Sound :
    (format : Format) (request : MutationRequest) (pending : Option Attempt)
    → Fitting format request pending
    → Sound format pending
Fitting-Sound format request none k = tt
Fitting-Sound format request (some p) (same, a, k) =
    ((same_request-Applied p.request request p.result same).1 a, k)

module _ {S : Type 0} (format : Format) (outside : ManifestStore S)
    (request : MutationRequest) where
  Sound-Fitting :
      (pending : Option Attempt)
      → Sound format pending
      → different_pending format (traced outside) pending request ≡ false
      → Fitting format request pending
  Sound-Fitting none k e = tt
  Sound-Fitting (some p) (a, k) e =
      let same : same_request p.request request ≡ true = ground (arith, e) in
      (same, (same_request-Applied p.request request p.result same).0 a, k)

  -- A success has applied the request, and the newest request of the store has confirmed it; the
  -- attempt that is pending stays sound in either case.
  abbrev pub AppliedOr : Result Snapshot × Site (Traced S) → Type 0
  AppliedOr (ok m, site) =
      Applied request m × Confirmed format m site.store.0 × Sound format site.writer.pending
  AppliedOr (err e, site) = Sound format site.writer.pending

  Succeeded-AppliedOr :
      (x : Result Snapshot × Site (Traced S))
      → Succeeded format request x
      → AppliedOr (unlocked format (traced outside) x)
  Succeeded-AppliedOr (ok m, site) ((a, c), k) =
      (a, c, Fitting-Sound format request site.writer.pending k)
  Succeeded-AppliedOr (err e, site) k = Fitting-Sound format request site.writer.pending k

  unless-AppliedOr :
      (b : Bool) (x : Result Snapshot × Site (Traced S)) (e : Error) (site : Site (Traced S))
      → Sound format site.writer.pending
      → (b ≡ false → AppliedOr x)
      → AppliedOr (if b then (err e, site) else x)
  unless-AppliedOr true x e site k l = k
  unless-AppliedOr false x e site k l = l refl

  -- A mutation that succeeds has applied its request, whatever the store replied: the manifest
  -- that it returns has the ID of the request in its history, or has accepted the epoch that was
  -- to be activated, and it is the manifest of the body that the newest request to the store has
  -- read, or that this request has written and the store accepted. The attempt that a mutation
  -- leaves pending is again one whose body encodes its result, which has applied its request.
  pub mutate-AppliedOr :
      (ctx : Context (Traced S)) (site : Site (Traced S))
      → Sound format site.writer.pending
      → AppliedOr (mutate format (traced outside) (some ctx) request site)
  unfolding mutate
  mutate-AppliedOr ctx site sound =
      unless-AppliedOr site.writer.busy _ (sentinel manifest_busy) site sound λ idle.
        unless-AppliedOr (different_pending format (traced outside) site.writer.pending request) _
          (annotated (sentinel unknown_outcome)) site sound
          λ same.
            let started = with_busy format (traced outside) true site in
            Succeeded-AppliedOr
              (attempts format (traced outside) max_mutation_attempts ctx request started)
              (attempts-Succeeded format outside request max_mutation_attempts ctx started
                (Sound-Fitting site.writer.pending sound same))
