-- ===== src/Lease/Safety/Ends.antt =====
-- What a call promises of the value that it returns, whatever went before: facts of the value alone,
-- and facts of the world that its last section leaves.
use s3_lease.Prelude.{ℕ, true, ◌+◌, ◌≤◌, ◌≡◌, refl, subst, arith, List, [], ◌∷◌}
use s3_lease.Lease.Config.{Settings}
use s3_lease.Lease.Errors.{Error, Result, ok, err}
use s3_lease.Lease.State.{Core}
use s3_lease.Lease.World.{
  World, Exec, pure, raise, lift, section, request, attempt, continue, pass, ◌>>=◌, Other, act,
  run_others, pass_turn, clock, settings,
}

-- The world with the mutation lock taken.
abbrev pub locked : {S : Type 0} → World S → World S
locked w = record w { core = record w.core { mutating = true } }

abbrev pub Ended : {S A : Type 0} → (A → World S → Type 0) → Result A → World S → Type 0
Ended Q (ok a) w = Q a w
Ended Q (err e) w = Unit {0}

pub record Ends {S A : Type 0} (m : Exec S A) (Q : A → World S → Type 0) : Type 0 where
  pub run : (w : World S) → Ended Q (m w).0 (m w).1

-- A fact about the value alone.
abbrev pub Yielded : {A : Type 0} → (A → Type 0) → Result A → Type 0
Yielded P (ok a) = P a
Yielded P (err e) = Unit {0}

pub record Yields {S A : Type 0} (m : Exec S A) (P : A → Type 0) : Type 0 where
  pub value : (w : World S) → Yielded P (m w).0

yields_any : {A : Type 0} (r : Result A) → Yielded (λ a. Unit {0}) r
yields_any (ok a) = tt
yields_any (err e) = tt

pub Yields-any : {S A : Type 0} (m : Exec S A) → Yields m (λ a. Unit {0})
Yields-any m = record { value = λ w. yields_any (m w).0 }

continue-Ends :
    {S A B : Type 0} (P : A → Type 0) {f : A → Exec S B} {Q : B → World S → Type 0} (r : Result A)
    (w : World S)
    → Yielded P r
    → ((a : A) → P a → Ends (f a) Q)
    → Ended Q (continue r f w).0 (continue r f w).1
continue-Ends P (ok a) w p k = (k a p).run w
continue-Ends P (err e) w p k = tt

continue-Yields :
    {S A B : Type 0} (P : A → Type 0) {f : A → Exec S B} {Q : B → Type 0} (r : Result A)
    (w : World S)
    → Yielded P r
    → ((a : A) → P a → Yields (f a) Q)
    → Yielded Q (continue r f w).0
continue-Yields P (ok a) w p k = (k a p).value w
continue-Yields P (err e) w p k = tt

module _ {S A B : Type 0} {m : Exec S A} {P : A → Type 0} {f : A → Exec S B} where
  pub Ends-bind :
      {Q : B → World S → Type 0} → Yields m P → ((a : A) → P a → Ends (f a) Q) → Ends (m >>= f) Q
  unfolding ◌>>=◌
  Ends-bind km k = record { run = λ w. continue-Ends P (m w).0 (m w).1 (km.value w) k }

  pub Yields-bind :
      {Q : B → Type 0} → Yields m P → ((a : A) → P a → Yields (f a) Q) → Yields (m >>= f) Q
  unfolding ◌>>=◌
  Yields-bind km k = record { value = λ w. continue-Yields P (m w).0 (m w).1 (km.value w) k }

-- The same of a call that starts in one world.
pub record EndsFrom {S A : Type 0} (m : Exec S A) (Q : A → World S → Type 0) (w : World S)
    : Type 0 where
  pub from : Ended Q (m w).0 (m w).1

continue-then :
    {S A B : Type 0} (P : A → World S → Type 0) {f : A → Exec S B} {Q : B → World S → Type 0}
    (r : Result A) (w : World S)
    → Ended P r w
    → ((a : A) (w : World S) → P a w → EndsFrom (f a) Q w)
    → Ended Q (continue r f w).0 (continue r f w).1
continue-then P (ok a) w p k = (k a w p).from
continue-then P (err e) w p k = tt

-- The rest of a call starts in the world that its first part left.
pub Ends-then :
    {S A B : Type 0} {m : Exec S A} {P : A → World S → Type 0} {f : A → Exec S B}
    {Q : B → World S → Type 0}
    → Ends m P
    → ((a : A) (w : World S) → P a w → EndsFrom (f a) Q w)
    → Ends (m >>= f) Q
unfolding ◌>>=◌
Ends-then {P} h k = record { run = λ w. continue-then P _ _ (h.run w) k }

pub From-any :
    {S A : Type 0} {m : Exec S A} {Q : A → World S → Type 0} (w : World S)
    → Ends m Q
    → EndsFrom m Q w
From-any w h = record { from = h.run w }

pub From-pure :
    {S A : Type 0} {Q : A → World S → Type 0} (a : A) (w : World S) → Q a w → EndsFrom (pure a) Q w
unfolding pure
From-pure a w q = record { from = q }

pub From-ends :
    {S A : Type 0} {m : Exec S A} {Q : A → World S → Type 0}
    → ((w : World S) → EndsFrom m Q w)
    → Ends m Q
From-ends h = record { run = λ w. (h w).from }

-- The clock does not go back.
run_others-later : (c : Core) (now : ℕ) (turn : List (ℕ × Other)) → now ≤ (run_others c now turn).1
unfolding run_others
run_others-later c now [] = omega arith
run_others-later c now ((delay, o) ∷ rest) =
    let k = run_others-later (act c (now + delay) o) (now + delay) rest in omega (arith, k)

pass_turn-later :
    {S : Type 0} (w : World S) (turns : List (List (ℕ × Other))) → w.now ≤ (pass_turn w turns).now
unfolding run_others
pass_turn-later w [] = omega arith
pass_turn-later w (turn ∷ turns) = run_others-later w.core w.now turn

pub From-clock :
    {S B : Type 0} {f : ℕ → Exec S B} {Q : B → World S → Type 0} (w : World S)
    → ((t : ℕ) → w.now ≤ t → Ends (f t) Q)
    → EndsFrom (clock >>= f) Q w
unfolding ◌>>=◌ clock pass
From-clock w h = record { from = (h (pass w).now (pass_turn-later w w.turns)).run (pass w) }

pub Ends-clock : {S : Type 0} → Ends {S = S} clock (λ t w. t ≤ w.now)
unfolding clock
Ends-clock = record { run = λ w. omega arith }

continue-lifted :
    {S A B : Type 0} {f : A → Exec S B} {Q : B → World S → Type 0} (r : Result A) (w : World S)
    → ((a : A) → r ≡ ok a → EndsFrom (f a) Q w)
    → Ended Q (continue r f w).0 (continue r f w).1
continue-lifted (ok a) w h = (h a refl).from
continue-lifted (err e) w h = tt

pub From-lift :
    {S A B : Type 0} {f : A → Exec S B} {Q : B → World S → Type 0} (r : Result A) (w : World S)
    → ((a : A) → r ≡ ok a → EndsFrom (f a) Q w)
    → EndsFrom (lift r >>= f) Q w
unfolding ◌>>=◌ lift
From-lift r w h = record { from = continue-lifted r w h }

pub From-settings :
    {S B : Type 0} {Q : B → World S → Type 0} (f : Settings → Exec S B) (w : World S)
    → EndsFrom (f w.core.config) Q w
    → EndsFrom (settings >>= f) Q w
unfolding ◌>>=◌ settings
From-settings f w h = record { from = h.from }

pub From-raise :
    {S A : Type 0} {Q : A → World S → Type 0} (e : Error) (w : World S) → EndsFrom (raise e) Q w
unfolding raise
From-raise e w = record { from = tt }

lift-Yielded : {A : Type 0} (r : Result A) → Yielded (λ a. r ≡ ok a) r
lift-Yielded (ok a) = refl
lift-Yielded (err e) = tt

pub yielded :
    {A : Type 0} (P : A → Type 0) (r : Result A) → ((a : A) → r ≡ ok a → P a) → Yielded P r
yielded P (ok a) h = h a refl
yielded P (err e) h = tt

-- A fact of a value from the equation that says that it is returned.
pub ended :
    {S A : Type 0} (Q : A → World S → Type 0) (r : Result A) (w : World S)
    → ((a : A) → r ≡ ok a → Q a w)
    → Ended Q r w
ended Q (ok a) w h = h a refl
ended Q (err e) w h = tt

pub returned :
    {S A : Type 0} (Q : A → World S → Type 0) {r : Result A} {w : World S} {a : A}
    → Ended Q r w
    → r ≡ ok a
    → Q a w
returned Q {w} {a} h e = subst (λ x. Ended Q x w) e h

module _ {S A : Type 0} where
  pub Yields-pure : {P : A → Type 0} (a : A) → P a → Yields {S = S} (pure a) P
  unfolding pure
  Yields-pure a h = record { value = λ w. h }

  pub Yields-raise : {P : A → Type 0} (e : Error) → Yields {S = S} (raise e) P
  unfolding raise
  Yields-raise e = record { value = λ w. tt }

  pub Yields-lift : (r : Result A) → Yields {S = S} (lift r) (λ a. r ≡ ok a)
  unfolding lift
  Yields-lift r = record { value = λ w. lift-Yielded r }

  -- The reply is that of some state of the store.
  pub Yields-request :
      (f : S → Result A × S) → Yields (attempt (request f)) (λ reply. (s : S) × (reply ≡ (f s).0))
  unfolding attempt request
  Yields-request f = record { value = λ w. (w.store, refl) }

  pub Ends-section :
      {Q : A → World S → Type 0} (f : Core → ℕ → Result A × Core)
      → ((w : World S) → Ended Q (f w.core w.now).0 (record w { core = (f w.core w.now).1 }))
      → Ends (section f) Q
  unfolding section
  Ends-section f h = record { run = λ w. h (pass w) }

  pub Ends-raise : {Q : A → World S → Type 0} (e : Error) → Ends (raise e) Q
  unfolding raise
  Ends-raise e = record { run = λ w. tt }

  pub Yields-section :
      {P : A → Type 0} (f : Core → ℕ → Result A × Core)
      → ((c : Core) (now : ℕ) → Yielded P (f c now).0)
      → Yields {S = S} (section f) P
  unfolding section
  Yields-section f h = record { value = λ w. h (pass w).core (pass w).now }

-- The rest of a call, from the very world that its first part leaves.
pub From-run :
    {S A B : Type 0} (m : Exec S A) (f : A → Exec S B) {Q : B → World S → Type 0} (w : World S)
    → ((a : A) → (m w).0 ≡ ok a → EndsFrom (f a) Q (m w).1)
    → EndsFrom (m >>= f) Q w
unfolding ◌>>=◌
From-run m f w h = record { from = continue-lifted (m w).0 (m w).1 h }

pub From-time :
    {S B : Type 0} (f : ℕ → Exec S B) {Q : B → World S → Type 0} (w : World S)
    → EndsFrom (f (pass w).now) Q (pass w)
    → EndsFrom (clock >>= f) Q w
unfolding ◌>>=◌ clock
From-time f w h = record { from = h.from }

ended-weaker :
    {S A : Type 0} (P Q : A → World S → Type 0) (r : Result A) (w : World S)
    → Ended P r w
    → ((a : A) → P a w → Q a w)
    → Ended Q r w
ended-weaker P Q (ok a) w p k = k a p
ended-weaker P Q (err e) w p k = tt

pub From-weaker :
    {S A : Type 0} {m : Exec S A} {P Q : A → World S → Type 0} (w : World S)
    → Ends m P
    → ((a : A) (v : World S) → P a v → Q a v)
    → EndsFrom m Q w
From-weaker {m} {P} {Q} w h k = record {
  from = ended-weaker P Q (m w).0 (m w).1 (h.run w) λ a. k a (m w).1;
}

pub From-attempt :
    {S A B : Type 0} (m : Exec S A) (f : Result A → Exec S B) {Q : B → World S → Type 0}
    (w : World S)
    → EndsFrom (f (m w).0) Q (m w).1
    → EndsFrom (attempt m >>= f) Q w
unfolding ◌>>=◌ attempt
From-attempt m f w h = record { from = h.from }
