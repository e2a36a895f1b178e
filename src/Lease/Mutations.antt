-- ===== src/Lease/Mutations.antt =====
-- `Require`, `Renew` and `Release` of lease/operations.go, with the sending and reconciling of a
-- frozen proposal.
use s3_lease.Prelude.{
  ℕ, ◌+◌, Bool, true, false, not, String, Option, none, some, ltb, ◌==◌, is_some, str_eq,
  if◌then◌else◌,
}
use s3_lease.Lease.Errors.{
  Error, sentinel, annotated, joined, not_found, not_eligible, invalid_lease, unknown_outcome,
  error_is, is_unknown_write, is_definitive_conflict, classify_acquisition_error, Result, ok, err,
}
use s3_lease.Lease.Record.{
  Record, same_record, initial_record, acquisition_record, renewal_record, release_record,
}
use s3_lease.Lease.Record.Uuid.{format_uuid}
use s3_lease.Lease.State.{
  Bytes, ProposalKind, acquire, renew, release, is_renew, Core, Observed, Proposal,
  proposal_phase_end,
}
use s3_lease.Lease.Reads.{eligible}
use s3_lease.Lease.Proposals.{
  Handle, Basis, prepare_require, pending_for, begin_renew, begin_release, freeze_renewal,
  freeze_release, abandon_expired, lose_pending, clear_pending, confirm_acquisition,
  confirm_renewal, confirm_release,
}
use s3_lease.Lease.World.{
  Backend, Context, Exec, ◌>>=◌, ◌>>◌, pure, raise, lift, section, request, attempt, exclusively,
  clock, settings, or_raise,
}
use s3_lease.Lease.Operations.{encode_record, request_context, read_current}

-- A section that ends in an error, or that only changes the core.
abbrev failing : {A : Type 0} → Error × Core → Result A × Core
failing (e, c) = (err e, c)

abbrev changing : Core → Result (Unit {0}) × Core
changing c = (ok tt, c)

-- What `Require` will write, and under which condition.
pub record Draft : Type 0 where
  pub creates : Bool
  pub expected : String
  pub proposed : Record

module _ {S : Type 0} where
  unfoldable pub phase_end_of : Proposal → Exec S ℕ
  phase_end_of p w = (ok (proposal_phase_end w.core p), w)

module _ {S : Type 0} (backend : Backend S) where
  -- ------------------------------------------------------------------ Require

  -- `newInitialRecord`, with its UID from the random source.
  unfoldable pub draft_initial : ℕ → Exec S Draft
  draft_initial now = do
    config ← settings
    bytes ← request backend.random
    pure (record {
      creates = true;
      expected = "";
      proposed = initial_record config (format_uuid bytes) now;
    })

  unfoldable pub draft_takeover : Observed → ℕ → Exec S Draft
  draft_takeover current now = do
    config ← settings
    if not (eligible current now) then raise (sentinel not_eligible) else do
      r ← lift (acquisition_record current.current config now)
      pure (record { creates = false; expected = current.version; proposed = r })

  unfoldable pub draft_acquisition : Result Observed → Exec S Draft
  draft_acquisition (ok current) = clock >>= draft_takeover current
  draft_acquisition (err e) = if error_is e not_found then clock >>= draft_initial else raise e

  unfoldable pub write_acquisition : Draft → Bytes → ℕ → S → Result String × S
  write_acquisition draft body budget =
      if draft.creates then backend.create budget body else backend.swap budget draft.expected body

  abbrev pub classified : Result String → Exec S String
  classified (err e) = raise (classify_acquisition_error e)
  classified (ok version) =
      if str_eq version "" then raise (annotated (sentinel unknown_outcome)) else pure version

  abbrev pub acquisition : Draft → Bytes → ℕ → Proposal
  acquisition draft body first_send_at = record {
    serial = 0;
    kind = acquire;
    acquired = 0;
    proposed = draft.proposed;
    body = body;
    expected = draft.expected;
    first_send_at = first_send_at;
    authority_ends = 0;
  }

  unfoldable pub send_acquisition : Context → Draft → Exec S ℕ
  send_acquisition ctx draft = do
    body ← lift (encode_record (backend.marshal draft.proposed))
    first_send_at ← clock
    config ← settings
    budget ← request_context ctx (first_send_at + config.renew_deadline)
    reply ← attempt (request (write_acquisition draft body budget))
    version ← classified reply
    section (λ c now.
        confirm_acquisition c (acquisition draft body first_send_at) version
          (is_some (ctx.error_at now)) now)

  unfoldable pub require_body : Context → Exec S ℕ
  require_body ctx = do
    section (λ c now. or_raise (prepare_require c now))
    current ← attempt (read_current backend ctx 0)
    draft ← draft_acquisition current
    send_acquisition ctx draft

  -- `Require`: the granted lease of this core.
  unfoldable pub require : Context → Exec S ℕ
  require ctx = exclusively (require_body ctx)

  -- ------------------------------------------------------------------ reconciliation

  unfoldable pub confirm : Proposal → String → Exec S (Unit {0})
  confirm p version =
      if is_renew p.kind
      then section (λ c now. or_raise (confirm_renewal c p version now))
      else section (λ c now. or_raise (confirm_release c p version))

  unfoldable pub abandon : Proposal → Exec S (Unit {0})
  abandon p = section (λ c now. failing (abandon_expired c p))

  -- `applyPendingReadback`: whether the proposal is resolved.
  unfoldable pub apply_readback : Proposal → Observed → Exec S Bool
  apply_readback p current =
      if same_record current.current p.proposed
      then (do confirm p current.version; pure true)
      else if not (str_eq current.version p.expected)
      then section (λ c now. failing (lose_pending c p))
      else pure false

  unfoldable pub reconcile_conflict : Context → Proposal → Exec S (Unit {0})
  reconcile_conflict ctx p = do
    phase_end ← phase_end_of p
    now ← clock
    if not (ltb now phase_end) then abandon p else do
      current ← read_current backend ctx phase_end
      resolved ← apply_readback p current
      if resolved then pure tt else raise (annotated (sentinel unknown_outcome))

  -- `clearPending`, and the error that led to it.
  unfoldable pub clear_and_raise : Proposal → Error → Exec S (Unit {0})
  clear_and_raise p e = do section (λ c now. changing (clear_pending c p)); raise e

  abbrev pub sent : Context → Proposal → Result String → Exec S (Unit {0})
  sent ctx p (ok version) =
      if str_eq version "" then raise (annotated (sentinel unknown_outcome)) else confirm p version
  sent ctx p (err e) =
      if is_unknown_write e
      then raise (joined (sentinel unknown_outcome) e)
      else if is_definitive_conflict e
      then reconcile_conflict ctx p
      else clear_and_raise p e

  abbrev pub send_within : Context → Proposal → ℕ → Result ℕ → Exec S (Unit {0})
  send_within ctx p phase_end (ok budget) = do
    reply ← attempt (request (backend.swap budget p.expected p.body))
    sent ctx p reply
  send_within ctx p phase_end (err e) = do
    now ← clock
    if not (ltb now phase_end) then abandon p else clear_and_raise p e

  -- `sendPending`
  unfoldable pub send_pending : Context → Proposal → Exec S (Unit {0})
  send_pending ctx p = do
    phase_end ← phase_end_of p
    budget ← attempt (request_context ctx phase_end)
    send_within ctx p phase_end budget

  -- `reconcilePending`
  unfoldable pub reconcile_pending : Context → Proposal → Exec S (Unit {0})
  reconcile_pending ctx p = do
    phase_end ← phase_end_of p
    now ← clock
    if not (ltb now phase_end) then abandon p else do
      current ← read_current backend ctx phase_end
      resolved ← apply_readback p current
      if resolved then pure tt else send_pending ctx p

  -- ------------------------------------------------------------------ Renew and Release

  abbrev mutation : ProposalKind → ℕ → Basis → Record → Bytes → ℕ → Proposal
  mutation kind i basis next body first_send_at = record {
    serial = 0;
    kind = kind;
    acquired = i;
    proposed = next;
    body = body;
    expected = basis.expected;
    first_send_at = first_send_at;
    authority_ends = basis.authority_ends;
  }

  unfoldable pub renew_fresh : Context → ℕ → Exec S (Unit {0})
  renew_fresh ctx i = do
    basis ← section (λ c now. begin_renew c i now)
    now ← clock
    next ← lift (renewal_record basis.previous now)
    body ← lift (encode_record (backend.marshal next))
    first_send_at ← clock
    p ← section (λ c now. freeze_renewal c (mutation renew i basis next body first_send_at) now)
    send_pending ctx p

  unfoldable pub release_fresh : Context → ℕ → Exec S (Unit {0})
  release_fresh ctx i = do
    basis ← section (λ c now. begin_release c i now)
    now ← clock
    next ← lift (release_record basis.previous now)
    body ← lift (encode_record (backend.marshal next))
    first_send_at ← clock
    p ← section (λ c now. freeze_release c (mutation release i basis next body first_send_at))
    send_pending ctx p

  abbrev pub resume :
      Context
      → (Proposal → Exec S (Unit {0}))
      → Exec S (Unit {0})
      → Option Proposal
      → Exec S (Unit {0})
  resume ctx old new none = new
  resume ctx old new (some p) = old p

  unfoldable pub mutate : Context → ProposalKind → (ℕ → Exec S (Unit {0})) → ℕ → Exec S (Unit {0})
  mutate ctx kind fresh i = do
    pending ← section (λ c now. (pending_for c i kind, c))
    resume ctx (reconcile_pending ctx) (fresh i) pending

  abbrev pub identity_of : Exec S ℕ
  identity_of w = (ok w.core.identity, w)

  -- A nil handle, or one of another core, is refused by `pendingFor` before the lock.
  abbrev pub of_this_core : Option Handle → (ℕ → Exec S (Unit {0})) → Exec S (Unit {0})
  of_this_core none run = raise (sentinel invalid_lease)
  of_this_core (some h) run = do
    mine ← identity_of
    if h.origin == mine then run h.lease else raise (sentinel invalid_lease)

  -- `Renew`
  unfoldable pub renew_lease : Context → Option Handle → Exec S (Unit {0})
  renew_lease ctx acquired =
      exclusively (of_this_core acquired (mutate ctx renew (renew_fresh ctx)))

  -- `Release`
  unfoldable pub release_lease : Context → Option Handle → Exec S (Unit {0})
  release_lease ctx acquired =
      exclusively (of_this_core acquired (mutate ctx release (release_fresh ctx)))
