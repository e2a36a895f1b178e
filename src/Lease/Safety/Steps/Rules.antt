-- ===== src/Lease/Safety/Steps/Rules.antt =====
-- The atomic steps of a core, and how the calls are put together from them.
use s3_lease.Prelude.{
  ℕ, ◌+◌, ◌≡◌, String, Bool, true, false, Option, none, List, [], ◌∷◌, if◌then◌else◌,
}
use s3_lease.Lease.Errors.{Error, Result, ok, err}
use s3_lease.Lease.State.{Proposal, Core}
use s3_lease.Lease.Reads.{Reply, install_read}
use s3_lease.Lease.Proposals.{
  prepare_require, begin_renew, begin_release, freeze_renewal, freeze_release, abandon_pending,
  lose_pending, clear_pending, confirm_acquisition, confirm_renewal, confirm_release,
}
use s3_lease.Lease.World.{
  Other, World, Exec, act, run_others, pass, pass_turn, pure, raise, lift, section, request,
  attempt, exclusively, run_exclusively, clock, settings, continue, ◌>>=◌,
}

-- A grant is confirmed only while no lease of the core is active.
pub data Step (c : Core) : Core → Type 0 where
  acts : (now : ℕ) (o : Other) → Step c (act c now o)
  locks : (b : Bool) → Step c (record c { mutating = b })
  installs :
      (started : Option ℕ) (read_at : ℕ) (reply : Reply)
      → Step c (install_read c started read_at reply).1
  prepares : (now : ℕ) → Step c (prepare_require c now).1
  begins_renew : (i now : ℕ) → Step c (begin_renew c i now).1
  begins_release : (i now : ℕ) → Step c (begin_release c i now).1
  freezes_renewal : (p : Proposal) (now : ℕ) → Step c (freeze_renewal c p now).1
  freezes_release : (p : Proposal) → Step c (freeze_release c p).1
  abandons : (p : Proposal) → Step c (abandon_pending c p)
  loses : (p : Proposal) → Step c (lose_pending c p).1
  clears : (p : Proposal) → Step c (clear_pending c p)
  grants :
      (p : Proposal) (version : String) (canceled : Bool) (now : ℕ)
      → c.active ≡ none
      → Step c (confirm_acquisition c p version canceled now).1
  renews : (p : Proposal) (version : String) (now : ℕ) → Step c (confirm_renewal c p version now).1
  releases : (p : Proposal) (version : String) → Step c (confirm_release c p version).1

pub data Steps (c : Core) : Core → Type 0 where
  stay : Steps c c
  go_on : {d e : Core} → Steps c d → Step d e → Steps c e

pub Steps-trans : {c d e : Core} → Steps c d → Steps d e → Steps c e
Steps-trans p stay = p
Steps-trans p (go_on q s) = go_on (Steps-trans p q) s

pub one : {c d : Core} → Step c d → Steps c d
one s = go_on stay s

-- What a call leaves behind: `G` of a value that it returns, `R` where it fails.
abbrev pub Returned :
    {A : Type 0} → (Core → Type 0) → (A → Core → Type 0) → Result A → Core → Type 0
Returned R G (ok a) c = G a c
Returned R G (err e) c = R c

-- From a core with `F`, `m` takes only steps, and ends in `G` or, with an error, in `R`.
pub record Moves {S A : Type 0} (R F : Core → Type 0) (m : Exec S A) (G : A → Core → Type 0)
    : Type 0 where
  pub run : (w : World S) → F w.core → Steps w.core (m w).1.core × Returned R G (m w).0 (m w).1.core

abbrev pub Always : Core → Type 0
Always c = Unit {0}

-- The other goroutines keep `F`.
abbrev pub Stable : (Core → Type 0) → Type 0
Stable F = (c : Core) (now : ℕ) (o : Other) → F c → F (act c now o)

pub Stable-Always : Stable Always
Stable-Always c now o h = tt

-- `F` of the core serves an error and a value alike.
pub lift-Returned :
    {A : Type 0} (F : Core → Type 0) (r : Result A) (c : Core) → F c → Returned F (λ a. F) r c
lift-Returned F (ok a) c h = h
lift-Returned F (err e) c h = h

attempt-Returned :
    {A : Type 0} (R F : Core → Type 0) (r : Result A) (c : Core)
    → Returned F (λ a. F) r c
    → Returned R (λ (b : Result A). F) (ok r) c
attempt-Returned R F (ok a) c h = h
attempt-Returned R F (err e) c h = h

weaken-Returned :
    {A : Type 0} (R : Core → Type 0) (G : A → Core → Type 0) (r : Result A) (c : Core)
    → Returned R G r c
    → Returned Always G r c
weaken-Returned R G (ok a) c h = h
weaken-Returned R G (err e) c h = tt

module _ {F : Core → Type 0} (stable : Stable F) where
  run_others-Steps :
      (c : Core) (now : ℕ) (turn : List (ℕ × Other))
      → F c
      → Steps c (run_others c now turn).0 × F (run_others c now turn).0
  unfolding run_others
  run_others-Steps c now [] h = (stay, h)
  run_others-Steps c now ((delay, o) ∷ rest) h =
      let (s, h') =
        run_others-Steps (act c (now + delay) o) (now + delay) rest (stable c (now + delay) o h) in
      (Steps-trans (one (acts (now + delay) o)) s, h')

  pass_turn-Steps :
      {S : Type 0} (w : World S) (turns : List (List (ℕ × Other)))
      → F w.core
      → Steps w.core (pass_turn w turns).core × F (pass_turn w turns).core
  unfolding run_others
  pass_turn-Steps w [] h = (stay, h)
  pass_turn-Steps w (turn ∷ turns) h = run_others-Steps w.core w.now turn h

  pub pass-Steps :
      {S : Type 0} (w : World S) → F w.core → Steps w.core (pass w).core × F (pass w).core
  unfolding pass
  pass-Steps w h = pass_turn-Steps w w.turns h

  pub Moves-section :
      {S A : Type 0} {R : Core → Type 0} {G : A → Core → Type 0} (f : Core → ℕ → Result A × Core)
      → ((c : Core) (now : ℕ) → F c → Steps c (f c now).1 × Returned R G (f c now).0 (f c now).1)
      → Moves {S = S} R F (section f) G
  unfolding section
  Moves-section f h = record {
    run = λ w hw.
        let (s, hw') = pass-Steps w hw in
        let (s', r) = h (pass w).core (pass w).now hw' in (Steps-trans s s', r);
  }

  pub Moves-clock : {S : Type 0} {R : Core → Type 0} → Moves {S = S} R F clock (λ now. F)
  unfolding clock
  Moves-clock = record { run = pass-Steps }

module _ {S : Type 0} {R F : Core → Type 0} where
  pub Moves-settings : Moves {S = S} R F settings (λ config. F)
  unfolding settings
  Moves-settings = record { run = λ w h. (stay, h) }

module _ {S A : Type 0} {F : Core → Type 0} where
  pub Moves-pure : {R : Core → Type 0} (a : A) → Moves {S = S} R F (pure a) (λ b. F)
  unfolding pure
  Moves-pure a = record { run = λ w hw. (stay, hw) }

  pub Moves-raise : {G : A → Core → Type 0} (e : Error) → Moves {S = S} F F (raise e) G
  unfolding raise
  Moves-raise e = record { run = λ w hw. (stay, hw) }

  pub Moves-lift : (r : Result A) → Moves {S = S} F F (lift r) (λ a. F)
  unfolding lift
  Moves-lift r = record { run = λ w h. (stay, lift-Returned F r w.core h) }

  pub Moves-request : (f : S → Result A × S) → Moves F F (request f) (λ a. F)
  unfolding request
  Moves-request f = record { run = λ w h. (stay, lift-Returned F (f w.store).0 w.core h) }

  pub Moves-attempt :
      {R : Core → Type 0} {m : Exec S A} → Moves F F m (λ a. F) → Moves R F (attempt m) (λ r. F)
  unfolding attempt
  Moves-attempt {R} {m} k = record {
    run = λ w h. let (s, h') = k.run w h in (s, attempt-Returned R F (m w).0 (m w).1.core h');
  }

module _ {S A : Type 0} {R F : Core → Type 0} {G : A → Core → Type 0} where
  pub Moves-if :
      {m n : Exec S A} (b : Bool) → Moves R F m G → Moves R F n G → Moves R F (if b then m else n) G
  Moves-if true km kn = km
  Moves-if false km kn = kn

  pub Moves-weaken : {m : Exec S A} → Moves R F m G → Moves Always F m G
  Moves-weaken {m} k = record {
    run = λ w h. let (s, h') = k.run w h in (s, weaken-Returned R G (m w).0 (m w).1.core h');
  }

continue-Moves :
    {S A B : Type 0} {R : Core → Type 0} (G : A → Core → Type 0) {H : B → Core → Type 0}
    (r : Result A) (f : A → Exec S B) (w : World S)
    → ((a : A) → Moves R (G a) (f a) H)
    → Returned R G r w.core
    → Steps w.core (continue r f w).1.core × Returned R H (continue r f w).0 (continue r f w).1.core
continue-Moves G (ok a) f w k h = (k a).run w h
continue-Moves G (err e) f w k h = (stay, h)

module _ {S A B : Type 0} {R F : Core → Type 0} {G : A → Core → Type 0}
    {H : B → Core → Type 0} where
  pub Moves-bind :
      {m : Exec S A} {f : A → Exec S B}
      → Moves R F m G
      → ((a : A) → Moves R (G a) (f a) H)
      → Moves R F (m >>= f) H
  unfolding ◌>>=◌
  Moves-bind {m} {f} km kf = record {
    run = λ w h.
        let (s, r) = km.run w h in
        let (s', r') = continue-Moves G (m w).0 f (m w).1 kf r in (Steps-trans s s', r');
  }

run_exclusively-Steps :
    {S A : Type 0} {m : Exec S A} (held : Bool)
    → Moves Always Always m (λ a. Always)
    → (w : World S) → Steps w.core (run_exclusively held m w).1.core
run_exclusively-Steps true k w = stay
run_exclusively-Steps false k w =
    let locked = record w { core = record w.core { mutating = true } } in
    go_on (Steps-trans (one (locks true)) (k.run locked tt).0) (locks false)

-- A call under `mutationMu` moves the core as its body does.
pub exclusively-Steps :
    {S A : Type 0} {m : Exec S A}
    → Moves Always Always m (λ a. Always)
    → (w : World S) → Steps w.core (exclusively m w).1.core
unfolding exclusively
exclusively-Steps k w = run_exclusively-Steps w.core.mutating k w
