-- ===== src/Lease/Progress/Rules.antt =====
-- Calls of lease/operations.go in a world that nothing disturbs: what they give, and the world that
-- they leave.
use s3_lease.Prelude.{
  ℕ, ◌-◌, ◌<◌, ◌≡◌, refl, ap, ◌∙◌, arith, false, none, [], ltb, leb, ◌==◌, if◌then◌else◌,
}
use s3_lease.Lease.Errors.{Result, ok}
use s3_lease.Lease.State.{Core}
use s3_lease.Lease.World.{
  Context, World, Exec, continue, ◌>>=◌, pure, lift, section, request, attempt, clock, settings,
  pass,
}
use s3_lease.Lease.Operations.{request_context, within, within_phase, within_deadline}

-- A world in which no time passes and nobody else acts.
abbrev pub still : {S : Type 0} → Core → S → ℕ → World S
still c s t = record { core = c; store = s; now = t; turns = [] }

-- A context without a deadline that is not cancelled at a time.
pub record Calm (ctx : Context) (t : ℕ) : Type 0 where
  pub lasts : ctx.error_at t ≡ none
  pub unlimited : ctx.deadline ≡ none

-- A call gives a value in a world.
pub record Gives {S A : Type 0} (m : Exec S A) (w : World S) (a : A) : Type 0 where
  pub value : (m w).0 ≡ ok a

-- A call gives a value and leaves a world.
pub record Goes {S A : Type 0} (m : Exec S A) (w : World S) (a : A) (v : World S) : Type 0 where
  pub goes : m w ≡ (ok a, v)

module _ {S A B : Type 0} {m : Exec S A} (f : A → Exec S B) {w v : World S} {a : A} where
  pub Gives-then : {b : B} → Goes m w a v → Gives (f a) v b → Gives (m >>= f) w b
  unfolding ◌>>=◌
  Gives-then e k = record { value = ap (λ x. (continue x.0 f x.1).0) e.goes ∙ k.value }

  pub Goes-then : {b : B} {u : World S} → Goes m w a v → Goes (f a) v b u → Goes (m >>= f) w b u
  unfolding ◌>>=◌
  Goes-then e k = record { goes = ap (λ x. continue x.0 f x.1) e.goes ∙ k.goes }

module _ {S A : Type 0} (c : Core) (s : S) (t : ℕ) where
  pub lift-Goes : {a : A} (r : Result A) → r ≡ ok a → Goes (lift r) (still c s t) a (still c s t)
  unfolding lift
  lift-Goes r e = record { goes = ap (λ x. (x, still c s t)) e }

  pub pure-Goes : (a : A) → Goes (pure a) (still c s t) a (still c s t)
  unfolding pure
  pure-Goes a = record { goes = refl }

  pub asked-Goes :
      {r : Result A} {s' : S} (f : S → Result A × S)
      → f s ≡ (r, s')
      → Goes (attempt (request f)) (still c s t) r (still c s' t)
  unfolding attempt request
  asked-Goes f e = record { goes = ap (λ x. (ok x.0, still c x.1 t)) e }

  pub section-Goes :
      {a : A} {d : Core} (f : Core → ℕ → Result A × Core)
      → f c t ≡ (ok a, d)
      → Goes (section f) (still c s t) a (still d s t)
  unfolding section pass
  section-Goes f e = record { goes = ap (λ x. (x.0, still x.1 s t)) e }

  pub section-Gives :
      {a : A} (f : Core → ℕ → Result A × Core)
      → (f c t).0 ≡ ok a
      → Gives (section f) (still c s t) a
  unfolding section pass
  section-Gives f e = record { value = e }

module _ {S : Type 0} (c : Core) (s : S) (t : ℕ) where
  pub clock-Goes : Goes clock (still c s t) t (still c s t)
  unfolding clock pass
  clock-Goes = record { goes = refl }

  pub settings-Goes : Goes settings (still c s t) c.config (still c s t)
  unfolding settings
  settings-Goes = record { goes = refl }

module _ {S : Type 0} (c : Core) (s : S) (t : ℕ) (ctx : Context) (calm : Calm ctx t) where
  -- The budget of a request before `phase_end`.
  abbrev pub budget_before : ℕ → ℕ
  budget_before phase_end =
      if ltb (phase_end - t) c.config.request_timeout
      then phase_end - t
      else c.config.request_timeout

  pub request_context-unphased :
      Goes (request_context ctx 0) (still c s t) c.config.request_timeout (still c s t)
  unfolding request_context within_phase within_deadline ◌>>=◌ clock pass settings pure
  request_context-unphased = record { goes = rw calm.lasts (rw calm.unlimited refl) }

  pub request_context-phased :
      (phase_end : ℕ)
      → t < phase_end
      → Goes (request_context ctx phase_end) (still c s t) (budget_before phase_end) (still c s t)
  unfolding request_context within_phase within within_deadline ◌>>=◌ clock pass settings pure
  request_context-phased phase_end h =
      let some_end : (phase_end == 0) ≡ false = ground (arith, h) in
      let early : leb phase_end t ≡ false = ground (arith, h) in
      record { goes = rw calm.lasts (rw calm.unlimited (rw some_end (rw early refl))) }
