-- ===== src/Lease/Reads/Observations.antt =====
-- What `readCurrent` of lease/operations.go makes of a record that it read while it had observed
-- another.
use s3_lease.Prelude.{
  ℕ, ◌≡◌, ◌⊎◌, inl, inr, true, false, String, none, some, arith, str_eq, Bool-cases, Option-cases,
  refl, sym, ==_iff,
}
use s3_lease.Lease.Errors.{Error}
use s3_lease.Lease.Record.{Record, same_record, records_compatible}
use s3_lease.Lease.Record.Order.{Follows, compatible_iff, same_record_eq}
use s3_lease.Lease.State.{Bytes, Core, Observed, retire_lease, set_terminal}
use s3_lease.Lease.Reads.{
  compare_read, found, observe_record, retire_if_observation_lost, accept_read, install_read,
}

-- The reply became the observation: its record follows the one before, and the time since which it
-- is unchanged is kept exactly for the same version.
pub record Accepted (o : Observed) (version : String) (body : Bytes) (r : Record) (read_at : ℕ)
    (after : Core) : Type 0 where
  pub latest : Observed
  pub observed : after.observed ≡ some latest
  pub current : latest.current ≡ r
  pub same_version : latest.version ≡ version
  pub read : latest.last_read_at ≡ read_at
  pub follows : Follows o.current r
  pub since :
      ((str_eq version o.version ≡ true)
        × (r ≡ o.current)
        × (latest.unchanged_since ≡ o.unchanged_since))
      ⊎ ((str_eq version o.version ≡ false) × (latest.unchanged_since ≡ read_at))

-- The reply was refused for good, and the observation stays.
pub record Refused (o : Observed) (after : Core) : Type 0 where
  pub cause : Error
  pub latched : after.terminal ≡ some cause
  pub kept : after.observed ≡ some o

-- The observation itself, whatever the retirement of the active lease.
retire-observed :
    (c : Core) (i : ℕ) (cause : Error) → (retire_lease c i cause).observed ≡ c.observed
unfolding retire_lease
retire-observed c i cause = ground arith

lost-observed : (c : Core) (r : Record) → (retire_if_observation_lost c r).observed ≡ c.observed
unfolding retire_if_observation_lost retire_lease
lost-observed c r = ground arith

accept_read-observed :
    (c : Core) (read_at : ℕ) (version : String) (body : Bytes) (r : Record) (since : ℕ)
    → (accept_read c read_at version body r since).1.observed
      ≡ some (record {
        generation = c.next_generation;
        current = r;
        body = body;
        version = version;
        unchanged_since = since;
        last_read_at = read_at;
      })
unfolding accept_read retire_if_observation_lost retire_lease observe_record
accept_read-observed c read_at version body r since = ground arith

pub accepted :
    (c : Core) (o : Observed) (read_at : ℕ) (version : String) (body : Bytes) (r : Record)
    (since : ℕ)
    → Follows o.current r
    → ((str_eq version o.version ≡ true) × (r ≡ o.current) × (since ≡ o.unchanged_since))
      ⊎ ((str_eq version o.version ≡ false) × (since ≡ read_at))
    → Accepted o version body r read_at (accept_read c read_at version body r since).1
accepted c o read_at version body r since f s = record {
  latest = record {
    generation = c.next_generation;
    current = r;
    body = body;
    version = version;
    unchanged_since = since;
    last_read_at = read_at;
  };
  observed = accept_read-observed c read_at version body r since;
  current = refl;
  same_version = refl;
  read = refl;
  follows = f;
  since = s;
}

refused :
    (c : Core) (o : Observed) (e : Error)
    → c.terminal ≡ none
    → c.observed ≡ some o
    → Refused o (set_terminal c e).1
unfolding set_terminal retire_lease
refused c o e t s = record { cause = e; latched = ground arith; kept = ground arith }

compared :
    (c : Core) (o : Observed) (read_at : ℕ) (version : String) (body : Bytes) (r : Record)
    → c.terminal ≡ none
    → c.observed ≡ some o
    → let after = (compare_read c (some o) read_at version body r).1 in
      Accepted o version body r read_at after ⊎ Refused o after
compared c o read_at version body r t s = elim (Option-cases (records_compatible o.current r)) [
  | inl fits ↦ rw fits (
      let follows = (compatible_iff o.current r).0 fits in
      elim (Bool-cases (str_eq version o.version)) [
        | inl kept ↦ rw kept (elim (Bool-cases (same_record o.current r)) [
          | inl same ↦ rw same (
              inl (
                accepted c o read_at version body r o.unchanged_since follows
                  (inl (kept, sym (same_record_eq o.current r same), refl))))
          | inr other ↦ rw other (inr (refused c o _ t s))
        ])
        | inr moved ↦
            rw moved (inl (accepted c o read_at version body r read_at follows (inr (moved, refl))))
      ])
  | inr (e, back) ↦ rw back (inr (refused c o e t s))
]

-- A read that nothing has overtaken compares its reply with the observation.
compares :
    (c : Core) (o : Observed) (read_at : ℕ) (version : String) (body : Bytes) (r : Record)
    → c.terminal ≡ none
    → c.observed ≡ some o
    → install_read c (some o.generation) read_at (found version body r)
      ≡ compare_read c (some o) read_at version body r
unfolding install_read
compares c o read_at version body r t s = simp (t, s, (==_iff o.generation o.generation).1 refl)

-- A record that is read while `o` is the observation that the read started from either becomes the
-- observation, and then it follows the record of `o`, and counts as unchanged since the time of
-- `o` exactly when its version is that of `o`; or it ends the core for good and `o` stays.
pub install_read_lem :
    (c : Core) (o : Observed) (read_at : ℕ) (version : String) (body : Bytes) (r : Record)
    → c.terminal ≡ none
    → c.observed ≡ some o
    → let after = (install_read c (some o.generation) read_at (found version body r)).1 in
      Accepted o version body r read_at after ⊎ Refused o after
install_read_lem c o read_at version body r t s =
    rw (compares c o read_at version body r t s) (compared c o read_at version body r t s)
