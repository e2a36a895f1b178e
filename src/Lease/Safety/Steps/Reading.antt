-- ===== src/Lease/Safety/Steps/Reading.antt =====
-- `requestContext`, `readCurrent` and `Observe` as sequences of steps.
use s3_lease.Prelude.{ℕ, ◌≡◌, Option, none, some, arith}
use s3_lease.Lease.Errors.{Error, Result}
use s3_lease.Lease.State.{Core}
use s3_lease.Lease.Reads.{Reply, install_read}
use s3_lease.Lease.World.{Backend, Context, World}
use s3_lease.Lease.Operations.{
  begin_read, within, within_phase, within_deadline, raise_if, request_context, read_current,
  observe,
}
use s3_lease.Lease.Safety.Steps.Rules.{
  Steps, stay, one, Moves, Returned, Always, Stable, Stable-Always, Moves-section, Moves-clock,
  Moves-settings, Moves-pure, Moves-raise, Moves-request, Moves-attempt, Moves-if, Moves-bind,
  lift-Returned, installs,
}

module _ {S : Type 0} {F : Core → Type 0} (stable : Stable F) where
  within-Moves : (limit budget : ℕ) → Moves {S = S} F F (within limit budget) (λ n. F)
  unfolding within
  within-Moves limit budget =
      Moves-bind (Moves-clock stable) (λ now. Moves-if _ (Moves-raise _) (Moves-pure _))

  within_phase-Moves :
      (phase_end budget : ℕ) → Moves {S = S} F F (within_phase phase_end budget) (λ n. F)
  unfolding within_phase
  within_phase-Moves phase_end budget = Moves-if _ (Moves-pure _) (within-Moves phase_end budget)

  within_deadline-Moves :
      (limit : Option ℕ) (budget : ℕ) → Moves {S = S} F F (within_deadline limit budget) (λ n. F)
  unfolding within_deadline
  within_deadline-Moves none budget = Moves-pure _
  within_deadline-Moves (some limit) budget = within-Moves limit budget

  raise_if-Moves : (e : Option Error) → Moves {S = S} F F (raise_if e) (λ u. F)
  raise_if-Moves none = Moves-pure _
  raise_if-Moves (some e) = Moves-raise _

  pub request_context-Moves :
      (ctx : Context) (phase_end : ℕ) → Moves {S = S} F F (request_context ctx phase_end) (λ n. F)
  unfolding request_context
  request_context-Moves ctx phase_end = Moves-bind (Moves-clock stable) λ now.
      Moves-bind (raise_if-Moves _) λ _. Moves-bind Moves-settings λ config.
        Moves-bind (within_phase-Moves phase_end _)
          λ budget. within_deadline-Moves ctx.deadline budget

-- A section that leaves the core alone.
pub read_only :
    {A : Type 0} (F : Core → Type 0) (r : Result A) (c : Core)
    → F c
    → Steps c c × Returned F (λ a. F) r c
read_only F r c h = (stay, lift-Returned F r c h)

begin_read-core : (c : Core) (now : ℕ) → (begin_read c now).1 ≡ c
unfolding begin_read
begin_read-core c now = ground arith

begin_read-Moves :
    (F : Core → Type 0) (c : Core) (now : ℕ)
    → F c
    → Steps c (begin_read c now).1 × Returned F (λ g. F) (begin_read c now).0 (begin_read c now).1
begin_read-Moves F c now h = rw (begin_read-core c now) (read_only F (begin_read c now).0 c h)

-- What an observation keeps.
abbrev pub Observable : (Core → Type 0) → Type 0
Observable F =
    (c : Core) (started : Option ℕ) (read_at : ℕ) (reply : Reply)
    → F c
    → F (install_read c started read_at reply).1

module _ {S : Type 0} (backend : Backend S) {F : Core → Type 0} (stable : Stable F)
    (observable : Observable F) where
  pub read_current-Moves :
      (ctx : Context) (phase_end : ℕ) → Moves F F (read_current backend ctx phase_end) (λ o. F)
  unfolding read_current
  read_current-Moves ctx phase_end =
      Moves-bind (Moves-section stable _ (begin_read-Moves F)) λ started.
        Moves-bind (request_context-Moves stable ctx phase_end) λ budget.
          Moves-bind (Moves-attempt (Moves-request _)) λ object.
            Moves-bind (Moves-clock stable) λ read_at. Moves-section stable _ λ c now h. (
              one (installs started read_at _),
              lift-Returned F _ _ (observable c started read_at _ h),
            )

module _ {S : Type 0} (backend : Backend S) where
  -- `Observe` is a sequence of steps.
  pub observe-Steps : (ctx : Context) (w : World S) → Steps w.core (observe backend ctx w).1.core
  unfolding observe
  observe-Steps ctx w =
      ((Moves-bind {F = Always} (read_current-Moves backend Stable-Always (λ c s r y h. h) ctx 0)
          λ state. Moves-pure _).run
        w tt).0
