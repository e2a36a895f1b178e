-- ===== src/Manifest/Fencing/Rounds.antt =====
-- The fence through the rounds of `mutate` and its loop.
use s3_lease.Prelude.{
  ℕ, zero, suc, ◌≤◌, ◌≡◌, refl, inl, inr, Bool, true, not, String, Option, none, some, arith,
  str_eq, Bool-cases,
}
use s3_lease.Lease.Errors.{
  Error, Result, ok, err, error_is, not_found, sentinel, annotated, unknown_outcome,
  resource_disappeared, conflict, epoch_not_activated, manifest_busy,
}
use s3_lease.Lease.State.{Bytes}
use s3_lease.Manifest.{
  ManifestRecord, MutationRequest, Attempt, Format, Snapshot, max_mutation_attempts, same_operation,
  activate,
}
use s3_lease.Manifest.Records.{
  encode, prepare_existing, result_record, Prepared, already, refuses, writes,
}
use s3_lease.Manifest.Writer.{
  ambiguous_or_conflict, ManifestStore, Context, Site, with_pending, read, send,
}
use s3_lease.Manifest.Rounds.{
  ambiguous_pending, different_pending, with_busy, unlocked, Resolution, Round, done, again,
  resolve, prepared_round, round_unless, next_round, after_send, attempt_of, send_encoded, propose,
  propose_initial, start, fresh_read, fresh, after_resolve, round_of, round, exhausted, attempts,
  mutate,
}
use s3_lease.Manifest.Fencing.{Conditional, Sendable, PendingOk, Kept, Grows-refl, PendingOk-Grows}
use s3_lease.Manifest.Fencing.Outcomes.{
  Given, Outcome, stays, clears, followed, leads, either, after,
}
use s3_lease.Manifest.Fencing.Resolving.{Source, read-Kept, sends, resolve-Leads}

module _ {S : Type 0} (format : Format) (outside : ManifestStore S) (current : S → Option Bytes)
    (Denotes : S → String → Bytes → Type 0) (law : Conditional format outside current Denotes) where
  abbrev Fine : Site S → Type 0
  Fine site = PendingOk format outside current Denotes site.store site.writer.pending

  abbrev Keeps : Site S → Site S → Type 0
  Keeps = Kept format outside current Denotes

  abbrev Leads : {A : Type 0} → Site S → A × Site S → Type 0
  Leads = Outcome format outside current Denotes

  abbrev Denoted : S → ManifestRecord × String → Type 0
  Denoted = Source format outside current Denotes law

  -- ------------------------------------------------------------------ new attempts

  after_send-Leads :
      (site : Site S) (r : Result Snapshot × Site S)
      → Leads site r
      → Leads site (after_send format outside r)
  after_send-Leads site (ok m, site') k = leads _ k.keeps
  after_send-Leads site (err e, site') k =
      either (ambiguous_or_conflict e) (leads (again e) k.keeps)
        (leads (done (err e)) (followed k.keeps (clears site')))

  encode-marshal :
      (r : ManifestRecord) (body : Bytes) → encode format r ≡ ok body → format.marshal r ≡ ok body
  unfolding encode
  encode-marshal r body e = ground arith

  -- A body with the epoch of the record may be sent over one with no later epoch.
  attempt-Sendable :
      (request : MutationRequest) (s : S) (r r' : ManifestRecord) (version : String) (body : Bytes)
      → encode format r' ≡ ok body
      → r.accepted_epoch_id ≤ r'.accepted_epoch_id
      → Denoted s (r, version)
      → Sendable format outside current Denotes s
          (attempt_of format outside request r' version body)
  attempt-Sendable request s r r' version body e grows (old, d, same) =
      elim (Bool-cases (str_eq version "")) [
        | inl creates ↦ inl creates
        | inr swaps ↦ inr (
          swaps,
          (old, d, ground (arith, law.reads_epoch_back r' body (encode-marshal r' body e))),
        )
      ]

  send_encoded-Leads :
      (request : MutationRequest) (r : ManifestRecord) (version : String) (body : Result Bytes)
      (site : Site S)
      → ((b : Bytes)
          → body ≡ ok b
          → Sendable format outside current Denotes site.store
              (attempt_of format outside request r version b))
      → Fine site
      → Leads site (send_encoded format outside request r version body site)
  send_encoded-Leads request r version (err e) site k h = leads _ (stays site h)
  send_encoded-Leads request r version (ok body) site k h =
      let p = attempt_of format outside request r version body in
      let site' = with_pending site (some p) in
      let started : Keeps site site' = record {
        grows = Grows-refl format outside current Denotes _;
        pending_ok = k body refl;
      } in
      after_send-Leads site (send format outside p site')
        (after started (sends format outside current Denotes law p site' (k body refl)))

  propose-Leads :
      (request : MutationRequest) (r r' : ManifestRecord) (version : String) (site : Site S)
      → r.accepted_epoch_id ≤ r'.accepted_epoch_id
      → Denoted site.store (r, version)
      → Fine site
      → Leads site (propose format outside request r' version site)
  unfolding propose
  propose-Leads request r r' version site grows source h =
      send_encoded-Leads request r' version (encode format r') site
        (λ b e. attempt-Sendable request site.store r r' version b e grows source) h

  creates-Leads :
      (request : MutationRequest) (r : ManifestRecord) (site : Site S)
      → Fine site
      → Leads site (propose format outside request r "" site)
  unfolding propose
  creates-Leads request r site h =
      send_encoded-Leads request r "" (encode format r) site (λ b e. inl refl) h

  propose_initial-Leads :
      (request : MutationRequest) (bytes : Result Bytes) (site : Site S)
      → Fine site
      → Leads site (propose_initial format outside request bytes site)
  propose_initial-Leads request (err e) site h = leads _ (stays site h)
  propose_initial-Leads request (ok bytes) site h = creates-Leads request _ site h

  start-Leads :
      (request : MutationRequest) (site : Site S)
      → Fine site
      → Leads site (start format outside request site)
  start-Leads request site h =
      let g = law.random_keeps site.store in
      let drawn = record site { store = (outside.random site.store).1 } in
      let k = PendingOk-Grows format outside current Denotes _ g h in
      either (not (str_eq site.writer.resource_uid ""))
        (leads (done (err (sentinel resource_disappeared))) (stays site h))
        (either (not (same_operation request.operation activate))
          (leads (done (err (sentinel epoch_not_activated))) (stays site h))
          (after (record { grows = g; pending_ok = k }) (propose_initial-Leads request _ drawn k)))

  result_record-grows :
      (r : ManifestRecord) (request : MutationRequest)
      → r.accepted_epoch_id ≤ (result_record r request).accepted_epoch_id
  unfolding result_record
  result_record-grows r request = omega arith

  prepared_round-Leads :
      (request : MutationRequest) (r : ManifestRecord) (version : String) (x : Prepared)
      (site : Site S)
      → Denoted site.store (r, version)
      → Fine site
      → Leads site (prepared_round format outside request r version x site)
  prepared_round-Leads request r version already site source h = leads _ (stays site h)
  prepared_round-Leads request r version (refuses e) site source h = leads _ (stays site h)
  prepared_round-Leads request r version writes site source h =
      propose-Leads request r (result_record r request) version site (result_record-grows r request)
        source h

  fresh_read-Leads :
      (request : MutationRequest) (reply : Result (ManifestRecord × String)) (site : Site S)
      → Given (Denoted site.store) reply
      → Fine site
      → Leads site (fresh_read format outside request reply site)
  fresh_read-Leads request (err e) site source h =
      either (error_is e not_found) (start-Leads request site h)
        (leads (done (err e)) (stays site h))
  fresh_read-Leads request (ok (r, version)) site source h =
      prepared_round-Leads request r version (prepare_existing r request) site source h

  fresh-Leads :
      (request : MutationRequest) (site : Site S)
      → Fine site
      → Leads site (fresh format outside request site)
  unfolding fresh
  fresh-Leads request site h =
      let (k, source, _) = read-Kept format outside current Denotes law site h in
      after k (fresh_read-Leads request _ (read format outside site).1 source k.pending_ok)

  after_resolve-Leads :
      (request : MutationRequest) (x : Result Resolution) (site : Site S)
      → Fine site
      → Leads site (after_resolve format outside request x site)
  after_resolve-Leads request (err e) site h = leads _ (stays site h)
  after_resolve-Leads request (ok x) site h =
      either x.resolved (leads (done (ok x.result)) (stays site h)) (
        either (not x.rebase) (leads (again (sentinel unknown_outcome)) (stays site h))
          (fresh-Leads request site h))

  round_of-Leads :
      (request : MutationRequest) (pending : Option Attempt) (site : Site S)
      → site.writer.pending ≡ pending
      → Fine site
      → Leads site (round_of format outside request pending site)
  round_of-Leads request none site e h = fresh-Leads request site h
  round_of-Leads request (some p) site e h =
      let k = resolve-Leads format outside current Denotes law p site e h in
      after k.keeps
        (after_resolve-Leads request _ (resolve format outside p site).1 k.keeps.pending_ok)

  round_unless-Leads :
      (e : Option Error) (request : MutationRequest) (site : Site S)
      → Fine site
      → Leads site (round_unless format outside e request site)
  round_unless-Leads none request site h = round_of-Leads request _ site refl h
  round_unless-Leads (some e) request site h = leads _ (stays site h)

  exhausted-Leads : (site : Site S) → Fine site → Leads site (exhausted format outside site)
  unfolding exhausted
  exhausted-Leads site h =
      either (ambiguous_pending site.writer.pending)
        (leads (err (annotated (sentinel unknown_outcome))) (stays site h))
        (leads (err (annotated (sentinel conflict))) (clears site))

  next_round-Leads :
      (site : Site S) (x : Round) (site' : Site S) (more : Result Snapshot × Site S)
      → Keeps site site'
      → Leads site' more
      → Leads site (next_round format outside x site' more)
  next_round-Leads site (done r) site' more k l = leads _ k
  next_round-Leads site (again e) site' more k l = after k l

  attempts-Leads :
      (left : ℕ) (ctx : Context S) (request : MutationRequest) (site : Site S)
      → Fine site
      → Leads site (attempts format outside left ctx request site)
  unfolding attempts round
  attempts-Leads zero ctx request site h = exhausted-Leads site h
  attempts-Leads (suc left) ctx request site h =
      let k = (round_unless-Leads (ctx site.store) request site h).keeps in
      let (x, site') = round_unless format outside (ctx site.store) request site in
      next_round-Leads site x site' _ k (attempts-Leads left ctx request site' k.pending_ok)

  relocked :
      {b : Bool} {A : Type 0} {site : Site S} {r : A × Site S}
      → Leads (with_busy format outside b site) r
      → Leads site (unlocked format outside r)
  relocked {r = (a, s)} k =
      leads _ (record { grows = k.keeps.grows; pending_ok = k.keeps.pending_ok })

  -- A mutation never takes the accepted epoch back, and what it leaves pending may be sent later.
  pub mutate-Outcome :
      (ctx : Option (Context S)) (request : MutationRequest) (site : Site S)
      → Fine site
      → Leads site (mutate format outside ctx request site)
  unfolding mutate
  mutate-Outcome none request site h = leads _ (stays site h)
  mutate-Outcome (some ctx) request site h =
      either site.writer.busy (leads (err (sentinel manifest_busy)) (stays site h)) (
        either (different_pending format outside site.writer.pending request)
          (leads (err (annotated (sentinel unknown_outcome))) (stays site h))
          (relocked {b = true} {site = site} (
            attempts-Leads max_mutation_attempts ctx request (with_busy format outside true site)
              h)))
