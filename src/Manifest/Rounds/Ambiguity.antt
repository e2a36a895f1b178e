-- ===== src/Manifest/Rounds/Ambiguity.antt =====
-- What `mutate` of examples/fencedmanifest/manifest.go does while an earlier write is ambiguous.
use s3_lease.Prelude.{
  ◌≡◌, refl, sym, subst, ◌∙◌, ap, Bool, true, false, ◌||◌, String, Option, none, some, arith, ltb,
  str_eq, if◌then◌else◌,
}
use s3_lease.Lease.Errors.{
  Error, Result, ok, err, error_is, not_found, unknown_outcome, is_unknown_write,
}
use s3_lease.Manifest.{
  ManifestRecord, MutationRequest, Attempt, Format, Snapshot, max_mutation_attempts,
}
use s3_lease.Manifest.Records.{HistoryStatus, unseen, matched, conflicting}
use s3_lease.Manifest.Writer.{ManifestStore, Context, Site, sent, read, write_attempt, send}
use s3_lease.Manifest.Rounds.{
  Resolution, Round, done, again, resolve, resolve_read, resolve_status, give_up, as_resolution,
  after_resolve, round_of, round_unless, round, next_round, attempts, mutate, different_pending,
  with_busy, unlocked,
}
use s3_lease.Manifest.Fencing.Outcomes.{fetched-pending}

module _ {S : Type 0} (p : Attempt) where
  abbrev pub Held : Site S → Type 0
  Held site = site.writer.pending ≡ some p

  -- A step that gave a result has resolved the attempt; one that failed keeps it as it is.
  abbrev Open : {A : Type 0} → Result A × Site S → Type 0
  Open (ok a, site) = site.writer.pending ≡ none
  Open (err e, site) = Held site

  -- The same for a call, whose failure says that the outcome is unknown.
  abbrev pub Reports : Result Snapshot × Site S → Type 0
  Reports (ok m, site) = site.writer.pending ≡ none
  Reports (err e, site) = Held site × (error_is e unknown_outcome ≡ true)

  -- How a round ends that began with the attempt: the call is done.
  abbrev Ends : Round × Site S → Type 0
  Ends (done r, site) = Reports (r, site)
  Ends (again e, site) = ⊥

module _ {S : Type 0} (format : Format) (outside : ManifestStore S) (p : Attempt)
    (h : p.ambiguous ≡ true) where
  pub record Resolves (r : Result Resolution × Site S) : Type 0 where
    pub opens : Open p r
    pub settled : (x : Resolution) → r.0 ≡ ok x → x.resolved ≡ true

  fails : (e : Error) (site : Site S) → Held p site → Resolves (err e, site)
  fails e site k = record { opens = k; settled = λ x q. ground (arith, q) }

  settles :
      (m : Snapshot) (site : Site S)
      → site.writer.pending ≡ none
      → Resolves (ok (record { result = m; resolved = true; rebase = false }), site)
  settles m site k = record { opens = k; settled = λ x q. ground (arith, q) }

  either :
      (b : Bool) {x y : Result Resolution × Site S}
      → Resolves x
      → Resolves y
      → Resolves (if b then x else y)
  either true k l = k
  either false k l = l

  ambiguous_again :
      (e : Error) → some (record p { ambiguous = p.ambiguous || is_unknown_write e }) ≡ some p
  ambiguous_again e =
      let q : (p.ambiguous || is_unknown_write e) ≡ p.ambiguous = ground (arith, h) in
      ap (λ b. some (record p { ambiguous = b })) q

  sent-Resolves :
      (reply : Result String) (site : Site S)
      → Resolves (as_resolution format outside (sent format outside p reply site))
  sent-Resolves (ok version) site = settles p.result _ refl
  sent-Resolves (err e) site = fails e _ (ambiguous_again e)

  resend-Resolves :
      (site : Site S) → Resolves (as_resolution format outside (send format outside p site))
  unfolding send
  resend-Resolves site = sent-Resolves (write_attempt format outside p site.store).0 _

  give_up-Resolves :
      (e : Error) (site : Site S) → Held p site → Resolves (give_up format outside p e site)
  give_up-Resolves e site k = rw h (fails _ site k)

  resolve_status-Resolves :
      (r : ManifestRecord) (version : String) (status : HistoryStatus) (site : Site S)
      → Held p site
      → Resolves (resolve_status format outside p r version status site)
  resolve_status-Resolves r version matched site k = settles _ _ refl
  resolve_status-Resolves r version conflicting site k = give_up-Resolves _ site k
  resolve_status-Resolves r version unseen site k =
      either (ltb p.request.epoch_id r.accepted_epoch_id) (give_up-Resolves _ site k)
        (either (str_eq version p.expected) (resend-Resolves site) (rw h (fails _ site k)))

  resolve_read-Resolves :
      (reply : Result (ManifestRecord × String)) (site : Site S)
      → Held p site
      → Resolves (resolve_read format outside p reply site)
  resolve_read-Resolves (ok (r, version)) site k = resolve_status-Resolves r version _ site k
  resolve_read-Resolves (err e) site k =
      either (error_is e not_found)
        (either p.create (resend-Resolves site) (give_up-Resolves _ site k)) (rw h (fails e site k))

  resolve-Resolves : (site : Site S) → Held p site → Resolves (resolve format outside p site)
  unfolding resolve read
  resolve-Resolves site k =
      resolve_read-Resolves _ (read format outside site).1
        (fetched-pending format outside site.writer (outside.fetch site.store).0 ∙ k)

  after_resolve-Ends :
      (request : MutationRequest) (r : Result Resolution × Site S)
      → Resolves r
      → Ends p (after_resolve format outside request r.0 r.1)
  unfolding error_is
  after_resolve-Ends request (err e, site) k = (k.opens, rw (k.opens, h) refl)
  after_resolve-Ends request (ok x, site) k = rw (k.settled x refl) k.opens

  round_unless-Ends :
      (e : Option Error) (request : MutationRequest) (site : Site S)
      → Held p site
      → Ends p (round_unless format outside e request site)
  unfolding error_is
  round_unless-Ends (some e) request site k = (k, rw (k, h) refl)
  round_unless-Ends none request site k =
      subst (λ o. Ends p (round_of format outside request o site)) (sym k)
        (after_resolve-Ends request (resolve format outside p site) (resolve-Resolves site k))

  first_round :
      (r : Round × Site S) (more : Result Snapshot × Site S)
      → Ends p r
      → Reports p (next_round format outside r.0 r.1 more)
  first_round (done r, site) more k = k
  first_round (again e, site) more k = absurd k

  unlocked-Reports :
      (r : Result Snapshot × Site S) → Reports p r → Reports p (unlocked format outside r)
  unlocked-Reports (ok m, site) k = k
  unlocked-Reports (err e, site) k = k

  if_either :
      (b : Bool) (x y : Result Snapshot × Site S)
      → Reports p x
      → Reports p y
      → Reports p (if b then x else y)
  if_either true x y k l = k
  if_either false x y k l = l

  unless_busy :
      (b : Bool) (x y : Result Snapshot × Site S)
      → b ≡ false
      → Reports p y
      → Reports p (if b then x else y)
  unless_busy true x y q k = absurd (ground (arith, q))
  unless_busy false x y q k = k

  -- While a write of the manifest is ambiguous, a mutation by its idle writer either gives a
  -- result, and then nothing is pending any more, or fails with an unknown outcome and keeps the
  -- attempt exactly as it was.
  pub ambiguity_kept :
      (ctx : Context S) (request : MutationRequest) (site : Site S)
      → site.writer.pending ≡ some p
      → site.writer.busy ≡ false
      → Reports p (mutate format outside (some ctx) request site)
  unfolding mutate attempts round error_is
  ambiguity_kept ctx request site k idle =
      let started = with_busy format outside true site in
      unless_busy site.writer.busy _ _ idle (
        if_either (different_pending format outside site.writer.pending request) _ _ (k, refl)
          (unlocked-Reports (attempts format outside max_mutation_attempts ctx request started) (
            first_round (round format outside ctx request started) _
              (round_unless-Ends (ctx site.store) request started k))))
