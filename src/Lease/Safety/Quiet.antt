-- ===== src/Lease/Safety/Quiet.antt =====
-- Changes of a core that only retire leases, latch an error or replace the observation: all that
-- other goroutines do, and most of what a call does.
use s3_lease.Prelude.{ℕ, ◌≡◌, String, Option, none, some, inl, inr, arith, Option-cases, Bool-cases}
use s3_lease.Lease.Errors.{
  Error, sentinel, annotated, error_is, not_found, lease_expired, ownership_lost, lease_disappeared,
  protocol_violation,
}
use s3_lease.Lease.Record.{Record, records_compatible}
use s3_lease.Lease.State.{
  Bytes, Observed, Core, retire_lease, retire_active, timer_fired, check, set_terminal,
}
use s3_lease.Lease.Reads.{
  Reply, failed, unversioned, malformed, found, observe_record, retire_if_observation_lost,
  accept_read, compare_read, missing_read, by_reply, install_read,
}
use s3_lease.Lease.World.{Other, idle, timer, checks, reads, act}

-- Leases retire, an observation is replaced, or a first terminal error is latched.
pub data Quiet (c : Core) : Core → Type 0 where
  rest : Quiet c c
  retires : {d : Core} (i : ℕ) (cause : Error) → Quiet c d → Quiet c (retire_lease d i cause)
  observes :
      {d : Core} (r : Record) (body : Bytes) (version : String) (since at : ℕ)
      → Quiet c d
      → Quiet c (observe_record d r body version since at)
  latches :
      {d : Core} (e : Error)
      → d.terminal ≡ none
      → Quiet c d
      → Quiet c (retire_active (record d { terminal = some e }) d.active (sentinel ownership_lost))

pub Quiet-trans : {c d e : Core} → Quiet c d → Quiet d e → Quiet c e
Quiet-trans p rest = p
Quiet-trans p (retires i cause q) = retires i cause (Quiet-trans p q)
Quiet-trans p (observes r body version since at q) =
    observes r body version since at (Quiet-trans p q)
Quiet-trans p (latches e h q) = latches e h (Quiet-trans p q)

pub resting : (c : Core) → Quiet c c
resting c = rest

-- To retire a lease, as a step of its own.
pub retiring : (c : Core) (i : ℕ) (cause : Error) → Quiet c (retire_lease c i cause)
retiring c i cause = retires i cause rest

pub timer_fired-Quiet : (c : Core) (i now : ℕ) → Quiet c (timer_fired c i now)
unfolding timer_fired
timer_fired-Quiet c i now = ground (arith, resting c, retiring c i (sentinel lease_expired))

pub check-Quiet : (c : Core) (i now : ℕ) → Quiet c (check c i now).1
unfolding check
check-Quiet c i now = ground (arith, resting c, retiring c i (sentinel lease_expired))

pub set_terminal-Quiet : (c : Core) (e : Error) → Quiet c (set_terminal c e).1
unfolding set_terminal
set_terminal-Quiet c e = elim (Option-cases c.terminal) [
  | inl h ↦ ground (arith, latches e h (resting c))
  | inr (e', h) ↦ ground (arith, resting c)
]

pub retire_if_observation_lost-Quiet :
    (c : Core) (r : Record) → Quiet c (retire_if_observation_lost c r)
unfolding retire_if_observation_lost
retire_if_observation_lost-Quiet c r = elim (Option-cases c.active) [
  | inl a ↦ ground (arith, resting c)
  | inr (i, a) ↦ ground (arith, resting c, retiring c i (sentinel ownership_lost))
]

pub accept_read-Quiet :
    (c : Core) (read_at : ℕ) (version : String) (body : Bytes) (r : Record) (since : ℕ)
    → Quiet c (accept_read c read_at version body r since).1
unfolding accept_read
accept_read-Quiet c read_at version body r since =
    Quiet-trans (observes r body version since read_at rest) (retire_if_observation_lost-Quiet _ r)

pub compare_read-Quiet :
    (c : Core) (o : Option Observed) (read_at : ℕ) (version : String) (body : Bytes) (r : Record)
    → Quiet c (compare_read c o read_at version body r).1
compare_read-Quiet c none read_at version body r =
    accept_read-Quiet c read_at version body r read_at
compare_read-Quiet c (some o) read_at version body r =
    elim (Option-cases (records_compatible o.current r)) [
      | inl h ↦ ground (
        arith,
        h,
        accept_read-Quiet c read_at version body r read_at,
        accept_read-Quiet c read_at version body r o.unchanged_since,
        set_terminal-Quiet c (annotated (sentinel protocol_violation)),
      )
      | inr (e, h) ↦ ground (arith, h, set_terminal-Quiet c e)
    ]

missing_read-Quiet : (c : Core) (o : Option Observed) → Quiet c (missing_read c o).1
missing_read-Quiet c none = rest
missing_read-Quiet c (some o) = set_terminal-Quiet c (annotated (sentinel lease_disappeared))

pub by_reply-Quiet : (c : Core) (read_at : ℕ) (reply : Reply) → Quiet c (by_reply c read_at reply).1
by_reply-Quiet c read_at (failed e) = elim (Bool-cases (error_is e not_found)) [
  | inl h ↦ rw h (missing_read-Quiet c c.observed)
  | inr h ↦ rw h rest
]
by_reply-Quiet c read_at unversioned =
    set_terminal-Quiet c (annotated (sentinel protocol_violation))
by_reply-Quiet c read_at (malformed e) = set_terminal-Quiet c e
by_reply-Quiet c read_at (found version body r) =
    compare_read-Quiet c c.observed read_at version body r

pub install_read-Quiet :
    (c : Core) (started : Option ℕ) (read_at : ℕ) (reply : Reply)
    → Quiet c (install_read c started read_at reply).1
unfolding install_read
install_read-Quiet c started read_at reply =
    ground (arith, by_reply-Quiet c read_at reply, resting c)

-- Whatever another goroutine does is quiet.
pub act-Quiet : (c : Core) (now : ℕ) (o : Other) → Quiet c (act c now o)
unfolding act
act-Quiet c now idle = rest
act-Quiet c now (timer i) = timer_fired-Quiet c i now
act-Quiet c now (checks i) = check-Quiet c i now
act-Quiet c now (reads started age reply) = install_read-Quiet c started _ reply

-- No quiet change makes a lease active.
pub Quiet-active : {c d : Core} → Quiet c d → c.active ≡ none → d.active ≡ none
unfolding retire_lease observe_record
Quiet-active rest h = h
Quiet-active (retires i cause q) h = ground (arith, Quiet-active q h)
Quiet-active (observes r body version since at q) h = Quiet-active q h
Quiet-active (latches {d} e t q) h = ground (arith, Quiet-active q h)
