-- ===== src/Lease/Safety/Steps/Acquiring.antt =====
-- `Require` as a sequence of steps. No lease is active from its first section to its last.
use s3_lease.Prelude.{ℕ, ◌≡◌, refl, String, Bool, Option, none, some, arith}
use s3_lease.Lease.Errors.{Error, Result, ok, err}
use s3_lease.Lease.State.{Core, Observed, Proposal}
use s3_lease.Lease.Proposals.{prepare_require, confirm_acquisition}
use s3_lease.Lease.World.{Backend, Context, World, or_raise}
use s3_lease.Lease.Mutations.{
  Draft, draft_initial, draft_takeover, draft_acquisition, classified, send_acquisition,
  require_body, require,
}
use s3_lease.Lease.Safety.Quiet.{Quiet-active, act-Quiet, install_read-Quiet}
use s3_lease.Lease.Safety.Steps.Rules.{
  Steps, one, Moves, Returned, Always, Stable, Stable-Always, Moves-section, Moves-clock,
  Moves-settings, Moves-pure, Moves-raise, Moves-lift, Moves-request, Moves-attempt, Moves-if,
  Moves-weaken, Moves-bind, exclusively-Steps, prepares, grants,
}
use s3_lease.Lease.Safety.Steps.Reading.{Observable, request_context-Moves, read_current-Moves}

abbrev pub Idle : Core → Type 0
Idle c = c.active ≡ none

Stable-Idle : Stable Idle
Stable-Idle c now o h = Quiet-active (act-Quiet c now o) h

Observable-Idle : Observable Idle
Observable-Idle c started read_at reply h =
    Quiet-active (install_read-Quiet c started read_at reply) h

or_raise-core : (r : Option Error × Core) → (or_raise r).1 ≡ r.1
or_raise-core (none, c) = refl
or_raise-core (some e, c) = refl

prepare_require-Idle :
    (c : Core) (now : ℕ)
    → Returned Always
        (λ u. Idle)
        (or_raise (prepare_require c now)).0
        (or_raise (prepare_require c now)).1
unfolding prepare_require
prepare_require-Idle c now = ground arith

confirm_acquisition-Idle :
    (c : Core) (p : Proposal) (version : String) (canceled : Bool) (now : ℕ)
    → Idle c
    → Returned Idle
        (λ i. Always)
        (confirm_acquisition c p version canceled now).0
        (confirm_acquisition c p version canceled now).1
unfolding confirm_acquisition
confirm_acquisition-Idle c p version canceled now h = ground arith

module _ {S : Type 0} (backend : Backend S) where
  draft_acquisition-Moves :
      (current : Result Observed) → Moves Idle Idle (draft_acquisition backend current) (λ d. Idle)
  unfolding draft_acquisition draft_initial draft_takeover
  draft_acquisition-Moves (ok current) = Moves-bind (Moves-clock Stable-Idle) λ now.
      Moves-bind Moves-settings
        λ config. Moves-if _ (Moves-raise _) (Moves-bind (Moves-lift _) λ r. Moves-pure _)
  draft_acquisition-Moves (err e) =
      Moves-if _
        (Moves-bind (Moves-clock Stable-Idle) λ now.
          Moves-bind Moves-settings λ config. Moves-bind (Moves-request _) λ bytes. Moves-pure _)
        (Moves-raise _)

  classified-Moves :
      (reply : Result String) → Moves Idle Idle (classified backend reply) (λ v. Idle)
  classified-Moves (err e) = Moves-raise _
  classified-Moves (ok version) = Moves-if _ (Moves-raise _) (Moves-pure _)

  send_acquisition-Moves :
      (ctx : Context) (draft : Draft)
      → Moves Idle Idle (send_acquisition backend ctx draft) (λ i. Always)
  unfolding send_acquisition
  send_acquisition-Moves ctx draft = Moves-bind (Moves-lift _) λ body.
      Moves-bind (Moves-clock Stable-Idle) λ first_send_at. Moves-bind Moves-settings λ config.
        Moves-bind (request_context-Moves Stable-Idle ctx _) λ budget.
          Moves-bind (Moves-attempt (Moves-request _)) λ reply.
            Moves-bind (classified-Moves reply) λ version. Moves-section Stable-Idle _ λ c now h.
              (one (grants _ version _ now h), confirm_acquisition-Idle c _ version _ now h)

  require_body-Moves :
      (ctx : Context) → Moves Always Always (require_body backend ctx) (λ i. Always)
  unfolding require_body
  require_body-Moves ctx =
      Moves-bind
        (Moves-section Stable-Always _
          λ c now h. (rw or_raise-core (one (prepares now)), prepare_require-Idle c now))
        λ u.
          Moves-bind (Moves-attempt (read_current-Moves backend Stable-Idle Observable-Idle ctx 0))
            λ current. Moves-weaken (
              Moves-bind (draft_acquisition-Moves current)
                λ draft. send_acquisition-Moves ctx draft)

  -- `Require` is a sequence of steps.
  pub require-Steps : (ctx : Context) (w : World S) → Steps w.core (require backend ctx w).1.core
  unfolding require
  require-Steps ctx w = exclusively-Steps (require_body-Moves ctx) w
