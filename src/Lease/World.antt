-- ===== src/Lease/World.antt =====
-- One client at work: the core, the store behind it, the clock, and what the other goroutines do.
-- A call is a function of this world that returns its result or error and the new world. Between
-- two sections under `stateMu`, and between two readings of the clock, time passes and others run:
-- the next entry of `turns` says what.
use s3_lease.Prelude.{
  Bool, true, false, ℕ, ◌+◌, ◌-◌, true, false, String, Option, none, some, List, [], ◌∷◌,
}
use s3_lease.Lease.Errors.{Error, sentinel, concurrent_mutation, Result, ok, err}
use s3_lease.Lease.Config.{Settings}
use s3_lease.Lease.Record.{Record}
use s3_lease.Lease.State.{Bytes, Core, timer_fired, check}
use s3_lease.Lease.Reads.{Reply, install_read}

-- `StoredObject` of lease/api.go
pub record StoredObject : Type 0 where
  pub body : Bytes
  pub version : String

-- What a decoder makes of a body: no JSON of the record's shape, a value with data behind it, or
-- a value alone.
pub data Decoded : Type 0 where
  undecodable trailing : Decoded
  decoded : Record → Decoded

-- `LeaseStore` of lease/api.go with the JSON package and the random source, over the state `S` of
-- the world outside. A request is given the time that its context leaves it.
pub record Backend (S : Type 0) : Type 0 where
  pub fetch : ℕ → S → Result StoredObject × S
  pub create : ℕ → Bytes → S → Result String × S
  pub swap : ℕ → String → Bytes → S → Result String × S
  pub random : S → Result Bytes × S
  pub marshal : Record → Result Bytes
  pub unmarshal : Bytes → Decoded

-- `context.Context`: its error at a time, and its deadline.
pub record Context : Type 0 where
  pub error_at : ℕ → Option Error
  pub deadline : Option ℕ

-- What another goroutine does under `stateMu`: a timer's callback, a `Check`, or the last section
-- of an `Observe` whose GET returned `age` ago. Under `idle` only time passes.
pub data Other : Type 0 where
  idle : Other
  timer : (i : ℕ) → Other
  checks : (i : ℕ) → Other
  reads : (started : Option ℕ) (age : ℕ) (reply : Reply) → Other

unfoldable pub act : Core → ℕ → Other → Core
act c now idle = c
act c now (timer i) = timer_fired c i now
act c now (checks i) = (check c i now).1
act c now (reads started age reply) = (install_read c started (now - age) reply).1

-- The others' turns, and the time at their end.
unfoldable pub run_others : Core → ℕ → List (ℕ × Other) → Core × ℕ
run_others c now [] = (c, now)
run_others c now ((delay, o) ∷ rest) = run_others (act c (now + delay) o) (now + delay) rest

pub record World (S : Type 0) : Type 0 where
  pub core : Core
  pub store : S
  pub now : ℕ
  pub turns : List (List (ℕ × Other))

abbrev pub Exec : Type 0 → Type 0 → Type 0
Exec S A = World S → Result A × World S

module _ {S : Type 0} where
  abbrev pub pass_turn : World S → List (List (ℕ × Other)) → World S
  pass_turn w [] = w
  pass_turn w (turn ∷ turns) =
      let (c, now) = run_others w.core w.now turn in record w { core = c; now = now; turns = turns }

  unfoldable pub pass : World S → World S
  unfolding run_others
  pass w = pass_turn w w.turns

module _ {S A : Type 0} where
  unfoldable pub pure : A → Exec S A
  pure a w = (ok a, w)

  unfoldable pub raise : Error → Exec S A
  raise e w = (err e, w)

  unfoldable pub lift : Result A → Exec S A
  lift r w = (r, w)

  -- `stateMu.Lock()`, the section, `stateMu.Unlock()`.
  unfoldable pub section : (Core → ℕ → Result A × Core) → Exec S A
  unfolding pass
  section f w = let w' = pass w in let (r, c) = f w'.core w'.now in (r, record w' { core = c })

  -- A request to the world outside.
  unfoldable pub request : (S → Result A × S) → Exec S A
  request f w = let (r, s) = f w.store in (r, record w { store = s })

  -- The error of a call as a value, where the code goes on with it.
  unfoldable pub attempt : Exec S A → Exec S (Result A)
  attempt m w = let (r, w') = m w in (ok r, w')

  -- `mutationMu.TryLock()` and the deferred unlock. The calls that find it held change nothing.
  abbrev pub run_exclusively : (held : Bool) → Exec S A → Exec S A
  run_exclusively true m w = (err (sentinel concurrent_mutation), w)
  run_exclusively false m w =
      let (r, w') = m (record w { core = record w.core { mutating = true } }) in
      (r, record w' { core = record w'.core { mutating = false } })

  unfoldable pub exclusively : Exec S A → Exec S A
  exclusively m w = run_exclusively w.core.mutating m w

module _ {S A B : Type 0} where
  abbrev pub continue : Result A → (A → Exec S B) → Exec S B
  continue (ok a) f w = f a w
  continue (err e) f w = (err e, w)

  infixl 5 ◌>>=◌ ◌>>◌
  unfoldable pub ◌>>=◌ : Exec S A → (A → Exec S B) → Exec S B
  ◌>>=◌ m f w = let (r, w') = m w in continue r f w'

  abbrev pub ◌>>◌ : Exec S A → Exec S B → Exec S B
  m >> n = m >>= λ _. n

module _ {S : Type 0} where
  -- `c.config.Clock.Now()` outside the lock.
  unfoldable pub clock : Exec S ℕ
  unfolding pass
  clock w = let w' = pass w in (ok w'.now, w')

  -- The configuration never changes, so it is read without the lock.
  unfoldable pub settings : Exec S Settings
  settings w = (ok w.core.config, w)

abbrev pub or_raise : Option Error × Core → Result (Unit {0}) × Core
or_raise (none, c) = (ok tt, c)
or_raise (some e, c) = (err e, c)
