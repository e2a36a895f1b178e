-- ===== src/Manifest/Rounds.antt =====
-- `mutate` of examples/fencedmanifest/manifest.go and the calls around it: a pending attempt is
-- resolved, or a new one is made from the record that is read, at most eight times.
pub mod Ambiguity
pub mod Counting
pub mod Resolving
pub mod Success
pub mod Trace
pub mod Writes
use s3_lease.Prelude.{
  ℕ, zero, suc, Bool, true, false, ◌&&◌, ◌||◌, not, String, Option, none, some, List, [], ltb, ◌==◌,
  or_else, str_eq, if◌then◌else◌,
}
use s3_lease.Lease.Errors.{
  Error, sentinel, annotated, joined, conflict, unknown_outcome, not_found, fenced, invalid_config,
  epoch_not_activated, mutation_conflict, manifest_busy, resource_disappeared, error_is, Result, ok,
  err,
}
use s3_lease.Lease.State.{Bytes}
use s3_lease.Manifest.{
  Operation, activate, publish, same_operation, Snapshot, ManifestRecord, MutationRequest, Attempt,
  WriterState, Format, max_mutation_attempts,
}
use s3_lease.Manifest.Records.{
  HistoryStatus, unseen, matched, conflicting, history_status, snapshot, Prepared, already, refuses,
  writes, prepare_existing, result_record, initial_record, encode,
}
use s3_lease.Manifest.Requests.{new_request, same_request}
use s3_lease.Manifest.Writer.{
  ManifestStore, Context, Site, with_pending, ambiguous_or_conflict, read, send,
}

-- What `resolvePending` returns beside an error.
pub record Resolution : Type 0 where
  pub result : Snapshot
  pub resolved : Bool
  pub rebase : Bool

-- How a round of `mutate` ends: with the result of the call, or with `lastErr` and another round.
pub data Round : Type 0 where
  done : Result Snapshot → Round
  again : Error → Round

-- `Manifest{}`
abbrev pub no_manifest : Snapshot
no_manifest = record {
  resource_uid = "";
  accepted_epoch_id = 0;
  revision = 0;
  last_mutation_id = "";
  payload = [];
  history = [];
}

abbrev pub ambiguous_pending : Option Attempt → Bool
ambiguous_pending none = false
ambiguous_pending (some p) = p.ambiguous

abbrev pub unknown_if : Bool → Error → Error
unknown_if b e = if b then joined (sentinel unknown_outcome) e else e

module _ {S : Type 0} (format : Format) (outside : ManifestStore S) where
  -- ------------------------------------------------------------------ resolving

  abbrev pub as_resolution : Result Snapshot × Site S → Result Resolution × Site S
  as_resolution (ok result, site) =
      (ok (record { result = result; resolved = true; rebase = false }), site)
  as_resolution (err e, site) = (err e, site)

  -- An error that leaves an ambiguous attempt pending, and drops another.
  abbrev pub give_up : Attempt → Error → Site S → Result Resolution × Site S
  give_up p e site =
      if p.ambiguous
      then (err (joined (sentinel unknown_outcome) e), site)
      else (err e, with_pending site none)

  abbrev pub resolve_status :
      Attempt → ManifestRecord → String → HistoryStatus → Site S → Result Resolution × Site S
  resolve_status p r version matched site =
      (ok (record { result = snapshot r; resolved = true; rebase = false }), with_pending site none)
  resolve_status p r version conflicting site = give_up p (sentinel mutation_conflict) site
  resolve_status p r version unseen site =
      if ltb p.request.epoch_id r.accepted_epoch_id
      then give_up p (annotated (sentinel fenced)) site
      else if str_eq version p.expected
      then as_resolution (send format outside p site)
      else if p.ambiguous
      then (err (annotated (sentinel unknown_outcome)), site)
      else (
        ok (record { result = no_manifest; resolved = false; rebase = true }),
        with_pending site none,
      )

  abbrev pub resolve_read :
      Attempt → Result (ManifestRecord × String) → Site S → Result Resolution × Site S
  resolve_read p (err e) site =
      if error_is e not_found
      then (if p.create
          then as_resolution (send format outside p site)
          else give_up p (sentinel resource_disappeared) site)
      else if p.ambiguous
      then (err e, site)
      else (err e, with_pending site none)
  resolve_read p (ok (r, version)) site =
      resolve_status p r version (history_status r.history p.request unseen) site

  -- `resolvePending`
  unfoldable pub resolve : Attempt → Site S → Result Resolution × Site S
  unfolding read send
  resolve p site = let (r, site') = read format outside site in resolve_read p r site'

  -- ------------------------------------------------------------------ one round of `mutate`

  abbrev pub after_send : Result Snapshot × Site S → Round × Site S
  after_send (ok result, site) = (done (ok result), site)
  after_send (err e, site) =
      if ambiguous_or_conflict e then (again e, site) else (done (err e), with_pending site none)

  abbrev pub attempt_of : MutationRequest → ManifestRecord → String → Bytes → Attempt
  attempt_of request r version body = record {
    request = request;
    expected = version;
    body = body;
    result = snapshot r;
    create = str_eq version "";
    ambiguous = false;
  }

  abbrev pub send_encoded :
      MutationRequest → ManifestRecord → String → Result Bytes → Site S → Round × Site S
  send_encoded request r version (err e) site = (done (err e), site)
  send_encoded request r version (ok body) site =
      let p = attempt_of request r version body in
      after_send (send format outside p (with_pending site (some p)))

  unfoldable pub propose : MutationRequest → ManifestRecord → String → Site S → Round × Site S
  unfolding send
  propose request r version site = send_encoded request r version (encode format r) site

  abbrev pub propose_initial : MutationRequest → Result Bytes → Site S → Round × Site S
  propose_initial request (err e) site = (done (err (annotated e)), site)
  propose_initial request (ok bytes) site = propose request (initial_record request bytes) "" site

  abbrev pub start : MutationRequest → Site S → Round × Site S
  start request site =
      let (bytes, s) = outside.random site.store in
      if not (str_eq site.writer.resource_uid "")
      then (done (err (sentinel resource_disappeared)), site)
      else if not (same_operation request.operation activate)
      then (done (err (sentinel epoch_not_activated)), site)
      else propose_initial request bytes (record site { store = s })

  abbrev pub prepared_round :
      MutationRequest → ManifestRecord → String → Prepared → Site S → Round × Site S
  prepared_round request r version already site = (done (ok (snapshot r)), site)
  prepared_round request r version (refuses e) site = (done (err e), site)
  prepared_round request r version writes site =
      propose request (result_record r request) version site

  abbrev pub fresh_read :
      MutationRequest → Result (ManifestRecord × String) → Site S → Round × Site S
  fresh_read request (err e) site =
      if error_is e not_found then start request site else (done (err e), site)
  fresh_read request (ok (r, version)) site =
      prepared_round request r version (prepare_existing r request) site

  unfoldable pub fresh : MutationRequest → Site S → Round × Site S
  unfolding read propose
  fresh request site = let (r, site') = read format outside site in fresh_read request r site'

  abbrev pub after_resolve : MutationRequest → Result Resolution → Site S → Round × Site S
  after_resolve request (err e) site =
      (done (err (unknown_if (ambiguous_pending site.writer.pending) e)), site)
  after_resolve request (ok x) site =
      if x.resolved
      then (done (ok x.result), site)
      else if not x.rebase
      then (again (sentinel unknown_outcome), site)
      else fresh request site

  abbrev pub round_of : MutationRequest → Option Attempt → Site S → Round × Site S
  round_of request none site = fresh request site
  round_of request (some p) site = let (x, site') = resolve p site in after_resolve request x site'

  abbrev pub round_unless : Option Error → MutationRequest → Site S → Round × Site S
  round_unless (some e) request site =
      (done (err (unknown_if (ambiguous_pending site.writer.pending) e)), site)
  round_unless none request site = round_of request site.writer.pending site

  unfoldable pub round : Context S → MutationRequest → Site S → Round × Site S
  unfolding resolve fresh
  round ctx request site = round_unless (ctx site.store) request site

  -- ------------------------------------------------------------------ the calls

  -- The end of the loop, once every attempt was made.
  unfoldable pub exhausted : Site S → Result Snapshot × Site S
  exhausted site =
      if ambiguous_pending site.writer.pending
      then (err (annotated (sentinel unknown_outcome)), site)
      else (err (annotated (sentinel conflict)), with_pending site none)

  abbrev pub next_round : Round → Site S → Result Snapshot × Site S → Result Snapshot × Site S
  next_round (done r) site more = (r, site)
  next_round (again e) site more = more

  -- The loop of `mutate`, with the attempts that are left.
  unfoldable pub attempts : ℕ → Context S → MutationRequest → Site S → Result Snapshot × Site S
  unfolding round exhausted
  attempts zero ctx request site = exhausted site
  attempts (suc left) ctx request site =
      let (x, site') = round ctx request site in
      let more = attempts left ctx request site' in next_round x site' more

  abbrev pub different_pending : Option Attempt → MutationRequest → Bool
  different_pending none request = false
  different_pending (some p) request = not (same_request p.request request)

  abbrev pub with_busy : Bool → Site S → Site S
  with_busy b site = record site { writer = record site.writer { busy = b } }

  abbrev pub unlocked : {A : Type 0} → A × Site S → A × Site S
  unlocked (r, site) = (r, with_busy false site)

  -- `mutate`; a nil context is `none`.
  unfoldable pub mutate : Option (Context S) → MutationRequest → Site S → Result Snapshot × Site S
  unfolding attempts same_request
  mutate none request site = (err (annotated (sentinel invalid_config)), site)
  mutate (some ctx) request site =
      if site.writer.busy
      then (err (sentinel manifest_busy), site)
      else if different_pending site.writer.pending request
      then (err (annotated (sentinel unknown_outcome)), site)
      else unlocked (attempts max_mutation_attempts ctx request (with_busy true site))

  abbrev pub requested :
      Option (Context S) → Result MutationRequest → Site S → Result Snapshot × Site S
  requested ctx (err e) site = (err e, site)
  requested ctx (ok request) site = mutate ctx request site

  -- `Activate`
  unfoldable pub activate_epoch :
      Option (Context S) → ℕ → String → Site S → Result Snapshot × Site S
  unfolding mutate new_request
  activate_epoch ctx epoch_id mutation_id site =
      requested ctx (new_request format activate epoch_id mutation_id []) site

  -- `Publish`
  unfoldable pub publish_payload :
      Option (Context S) → ℕ → String → Bytes → Site S → Result Snapshot × Site S
  unfolding mutate new_request
  publish_payload ctx epoch_id mutation_id payload site =
      requested ctx (new_request format publish epoch_id mutation_id payload) site

  abbrev read_result : String → Result (ManifestRecord × String) → Result Snapshot
  read_result uid (ok (r, version)) = ok (snapshot r)
  read_result uid (err e) =
      if error_is e not_found && not (str_eq uid "")
      then err (sentinel resource_disappeared)
      else err e

  -- `Read`
  unfoldable pub read_manifest : Option (Context S) → Site S → Result Snapshot × Site S
  unfolding read
  read_manifest none site = (err (annotated (sentinel invalid_config)), site)
  read_manifest (some ctx) site =
      let (r, site') = read format outside site in
      if site.writer.busy
      then (err (sentinel manifest_busy), site)
      else (read_result site'.writer.resource_uid r, site')
