-- ===== src/Lease/Safety/Steps/Mutating.antt =====
-- `Renew` and `Release` as sequences of steps.
use s3_lease.Prelude.{ℕ, String, Option, none, some}
use s3_lease.Lease.Errors.{Error, Result, ok, err}
use s3_lease.Lease.State.{ProposalKind, renew, release, Core, Observed, Proposal}
use s3_lease.Lease.Proposals.{Handle, abandon_expired}
use s3_lease.Lease.World.{Backend, Context, Exec, World, or_raise}
use s3_lease.Lease.Operations.{read_current}
use s3_lease.Lease.Mutations.{
  phase_end_of, confirm, abandon, apply_readback, reconcile_conflict, sent, send_within,
  send_pending, clear_and_raise, reconcile_pending, renew_fresh, release_fresh, resume, mutate,
  identity_of, of_this_core, renew_lease, release_lease,
}
use s3_lease.Lease.Safety.Steps.Rules.{
  Steps, stay, one, Moves, Returned, Always, Stable-Always, Moves-section, Moves-clock, Moves-pure,
  Moves-raise, Moves-lift, Moves-request, Moves-attempt, Moves-if, Moves-bind, exclusively-Steps,
  begins_renew, begins_release, freezes_renewal, freezes_release, abandons, loses, clears, renews,
  releases,
}
use s3_lease.Lease.Safety.Steps.Reading.{request_context-Moves, read_current-Moves, read_only}

-- A call that starts anywhere and promises nothing of its value.
abbrev pub Free : {S A : Type 0} → Exec S A → Type 0
Free m = Moves Always Always m (λ a. Always)

pub anything : {A : Type 0} (r : Result A) (c : Core) → Returned Always (λ a. Always) r c
anything (ok a) c = tt
anything (err e) c = tt

pub or_raise-Steps : {c : Core} (r : Option Error × Core) → Steps c r.1 → Steps c (or_raise r).1
or_raise-Steps (none, d) s = s
or_raise-Steps (some e, d) s = s

module _ {S : Type 0} where
  phase_end_of-Free : (p : Proposal) → Free (phase_end_of {S = S} p)
  unfolding phase_end_of
  phase_end_of-Free p = record { run = λ w h. (stay, tt) }

  identity_of-Free : (backend : Backend S) → Free (identity_of backend)
  identity_of-Free backend = record { run = λ w h. (stay, tt) }

module _ {S : Type 0} (backend : Backend S) where
  read_current-Free : (ctx : Context) (phase_end : ℕ) → Free (read_current backend ctx phase_end)
  read_current-Free = read_current-Moves backend Stable-Always (λ c s r y h. h)

  confirm-Free : (p : Proposal) (version : String) → Free (confirm backend p version)
  unfolding confirm
  confirm-Free p version =
      Moves-if _
        (Moves-section Stable-Always _
          λ c now h. (or_raise-Steps _ (one (renews p version now)), anything _ _))
        (Moves-section Stable-Always _
          λ c now h. (or_raise-Steps _ (one (releases p version)), anything _ _))

  abandon-Free : (p : Proposal) → Free (abandon backend p)
  unfolding abandon abandon_expired
  abandon-Free p = Moves-section Stable-Always _ λ c now h. (one (abandons p), tt)

  apply_readback-Free :
      (p : Proposal) (current : Observed) → Free (apply_readback backend p current)
  unfolding apply_readback
  apply_readback-Free p current =
      Moves-if _ (Moves-bind (confirm-Free p _) λ u. Moves-pure _)
        (Moves-if _ (Moves-section Stable-Always _ λ c now h. (one (loses p), tt)) (Moves-pure _))

  reconcile_conflict-Free : (ctx : Context) (p : Proposal) → Free (reconcile_conflict backend ctx p)
  unfolding reconcile_conflict
  reconcile_conflict-Free ctx p = Moves-bind (phase_end_of-Free p) λ phase_end.
      Moves-bind (Moves-clock Stable-Always) λ now. Moves-if _ (abandon-Free p) (
        Moves-bind (read_current-Free ctx phase_end) λ current.
          Moves-bind (apply_readback-Free p current)
            λ resolved. Moves-if _ (Moves-pure _) (Moves-raise _))

  clearing : (p : Proposal) (e : Error) → Free (clear_and_raise backend p e)
  unfolding clear_and_raise
  clearing p e =
      Moves-bind (Moves-section Stable-Always _ λ c now h. (one (clears p), tt)) λ u. Moves-raise e

  sent-Free :
      (ctx : Context) (p : Proposal) (reply : Result String) → Free (sent backend ctx p reply)
  sent-Free ctx p (ok version) = Moves-if _ (Moves-raise _) (confirm-Free p version)
  sent-Free ctx p (err e) =
      Moves-if _ (Moves-raise _) (Moves-if _ (reconcile_conflict-Free ctx p) (clearing p e))

  send_within-Free :
      (ctx : Context) (p : Proposal) (phase_end : ℕ) (budget : Result ℕ)
      → Free (send_within backend ctx p phase_end budget)
  send_within-Free ctx p phase_end (ok budget) =
      Moves-bind (Moves-attempt (Moves-request _)) λ reply. sent-Free ctx p reply
  send_within-Free ctx p phase_end (err e) =
      Moves-bind (Moves-clock Stable-Always) λ now. Moves-if _ (abandon-Free p) (clearing p e)

  send_pending-Free : (ctx : Context) (p : Proposal) → Free (send_pending backend ctx p)
  unfolding send_pending
  send_pending-Free ctx p = Moves-bind (phase_end_of-Free p) λ phase_end.
      Moves-bind (Moves-attempt (request_context-Moves Stable-Always ctx phase_end))
        λ budget. send_within-Free ctx p phase_end budget

  reconcile_pending-Free : (ctx : Context) (p : Proposal) → Free (reconcile_pending backend ctx p)
  unfolding reconcile_pending
  reconcile_pending-Free ctx p = Moves-bind (phase_end_of-Free p) λ phase_end.
      Moves-bind (Moves-clock Stable-Always) λ now. Moves-if _ (abandon-Free p) (
        Moves-bind (read_current-Free ctx phase_end) λ current.
          Moves-bind (apply_readback-Free p current)
            λ resolved. Moves-if _ (Moves-pure _) (send_pending-Free ctx p))

  renew_fresh-Free : (ctx : Context) (i : ℕ) → Free (renew_fresh backend ctx i)
  unfolding renew_fresh
  renew_fresh-Free ctx i =
      Moves-bind (Moves-section Stable-Always _ λ c now h. (one (begins_renew i now), anything _ _))
        λ basis. Moves-bind (Moves-clock Stable-Always) λ now. Moves-bind (Moves-lift _) λ next.
          Moves-bind (Moves-lift _) λ body. Moves-bind (Moves-clock Stable-Always) λ first_send_at.
            Moves-bind
              (Moves-section Stable-Always _ λ c now h. (one (freezes_renewal _ now), anything _ _))
              λ p. send_pending-Free ctx p

  release_fresh-Free : (ctx : Context) (i : ℕ) → Free (release_fresh backend ctx i)
  unfolding release_fresh
  release_fresh-Free ctx i =
      Moves-bind
        (Moves-section Stable-Always _ λ c now h. (one (begins_release i now), anything _ _))
        λ basis. Moves-bind (Moves-clock Stable-Always) λ now. Moves-bind (Moves-lift _) λ next.
          Moves-bind (Moves-lift _) λ body. Moves-bind (Moves-clock Stable-Always) λ first_send_at.
            Moves-bind
              (Moves-section Stable-Always _ λ c now h. (one (freezes_release _), anything _ _))
              λ p. send_pending-Free ctx p

  resume-Free :
      (ctx : Context) {old : Proposal → Exec S (Unit {0})} {new : Exec S (Unit {0})}
      → ((p : Proposal) → Free (old p))
      → Free new
      → (pending : Option Proposal) → Free (resume backend ctx old new pending)
  resume-Free ctx ko kn none = kn
  resume-Free ctx ko kn (some p) = ko p

  mutate-Free :
      (ctx : Context) (kind : ProposalKind) {fresh : ℕ → Exec S (Unit {0})}
      → ((i : ℕ) → Free (fresh i))
      → (i : ℕ) → Free (mutate backend ctx kind fresh i)
  unfolding mutate
  mutate-Free ctx kind k i =
      Moves-bind (Moves-section Stable-Always _ λ c now h. read_only Always _ c tt)
        λ pending. resume-Free ctx (reconcile_pending-Free ctx) (k i) pending

  of_this_core-Free :
      (acquired : Option Handle) {run : ℕ → Exec S (Unit {0})}
      → ((i : ℕ) → Free (run i))
      → Free (of_this_core backend acquired run)
  of_this_core-Free none k = Moves-raise _
  of_this_core-Free (some h) k =
      Moves-bind (identity_of-Free backend) λ mine. Moves-if _ (k h.lease) (Moves-raise _)

  -- `Renew` is a sequence of steps.
  pub renew_lease-Steps :
      (ctx : Context) (acquired : Option Handle) (w : World S)
      → Steps w.core (renew_lease backend ctx acquired w).1.core
  unfolding renew_lease
  renew_lease-Steps ctx acquired w =
      exclusively-Steps (of_this_core-Free acquired (mutate-Free ctx renew (renew_fresh-Free ctx)))
        w

  -- `Release` is a sequence of steps.
  pub release_lease-Steps :
      (ctx : Context) (acquired : Option Handle) (w : World S)
      → Steps w.core (release_lease backend ctx acquired w).1.core
  unfolding release_lease
  release_lease-Steps ctx acquired w =
      exclusively-Steps
        (of_this_core-Free acquired (mutate-Free ctx release (release_fresh-Free ctx))) w
