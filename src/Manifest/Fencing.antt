-- ===== src/Manifest/Fencing.antt =====
-- The fence of examples/fencedmanifest/manifest.go: against a store whose writes are conditional, no
-- call of any writer takes the manifest back to an earlier epoch.
pub mod Outcomes
pub mod Resolving
pub mod Rounds
pub mod Histories
use s3_lease.Prelude.{
  ℕ, ◌≤◌, ◌≡◌, refl, sym, ◌⊎◌, inl, inr, Bool, true, false, not, String, Option, none, some, List,
  [], ◌∷◌, arith, ltb, str_eq, if◌then◌else◌, Bool-cases, Option-cases,
}
use s3_lease.Lease.Errors.{Error, Result, ok, err, error_is, not_found}
use s3_lease.Lease.State.{Bytes}
use s3_lease.Lease.World.{StoredObject}
use s3_lease.Manifest.{
  ManifestRecord, MutationRequest, Attempt, WriterState, DecodedManifest, undecodable, trailing,
  decoded, Format, Snapshot,
}
use s3_lease.Manifest.Records.{
  decode, encode, snapshot, prepare_existing, result_record, initial_record, valid_manifest,
  history_status, unseen, matched, conflicting, HistoryStatus, Prepared, already, refuses, writes,
}
use s3_lease.Manifest.Writer.{
  ManifestStore, Context, Site, with_pending, fetched, noted, read, sent, write_attempt, send,
  remember, ambiguous_or_conflict,
}
use s3_lease.Manifest.Rounds.{
  Resolution, Round, done, again, resolve, resolve_read, give_up, as_resolution, after_send,
  attempt_of, send_encoded, propose, propose_initial, start, fresh_read, fresh, after_resolve,
  round_of, round, exhausted, attempts, mutate,
}

abbrev pub accepted_in : DecodedManifest → ℕ
accepted_in undecodable = 0
accepted_in trailing = 0
accepted_in (decoded r) = r.accepted_epoch_id

-- The epoch that a body has accepted.
abbrev pub body_epoch : Format → Bytes → ℕ
body_epoch format body = accepted_in (format.unmarshal body)

-- An object that is not there has accepted none.
abbrev pub object_epoch : Format → Option Bytes → ℕ
object_epoch format none = 0
object_epoch format (some body) = body_epoch format body

module _ {S : Type 0} (format : Format) (outside : ManifestStore S) (current : S → Option Bytes)
    (Denotes : S → String → Bytes → Type 0) where
  abbrev pub epoch : S → ℕ
  epoch s = object_epoch format (current s)

  -- The accepted epoch does not go back, and a version denotes the body that it did.
  pub record Grows (s t : S) : Type 0 where
    pub epoch_grows : epoch s ≤ epoch t
    pub denotes :
        (version : String) (body : Bytes) → Denotes s version body → Denotes t version body

  -- What the store promises, other clients' turns included: a GET returns a version with the body
  -- that it denotes; a creation replaces no object; a swap replaces only the body that the expected
  -- version denotes. And the JSON package reads back the accepted epoch that it wrote.
  pub record Conditional : Type 0 where
    pub fetch_keeps : (s : S) → Grows s (outside.fetch s).1
    pub fetch_denotes :
        (s : S) (object : StoredObject)
        → (outside.fetch s).0 ≡ ok object
        → Denotes (outside.fetch s).1 object.version object.body
    pub random_keeps : (s : S) → Grows s (outside.random s).1
    pub create_keeps :
        (body : Bytes) (s : S) → (epoch s ≤ epoch (outside.create body s).1) ⊎ (epoch s ≡ 0)
    pub create_denotes :
        (body : Bytes) (s : S) (version : String) (old : Bytes)
        → Denotes s version old
        → Denotes (outside.create body s).1 version old
    pub swap_replaces :
        (expected : String) (body : Bytes) (s : S) (old : Bytes)
        → Denotes s expected old
        → (epoch s ≤ epoch (outside.swap expected body s).1)
          ⊎ ((epoch s ≤ body_epoch format old)
              × (body_epoch format body ≤ epoch (outside.swap expected body s).1))
    pub swap_denotes :
        (expected : String) (body : Bytes) (s : S) (version : String) (old : Bytes)
        → Denotes s version old
        → Denotes (outside.swap expected body s).1 version old
    pub reads_epoch_back :
        (r : ManifestRecord) (body : Bytes)
        → format.marshal r ≡ ok body
        → body_epoch format body ≡ r.accepted_epoch_id

  -- An attempt that may be sent: a creation, or a swap of a body with no later epoch.
  abbrev pub Sendable : S → Attempt → Type 0
  Sendable s p =
      (p.create ≡ true)
      ⊎ ((p.create ≡ false)
          × ((old : Bytes) × Denotes s p.expected old
              × (body_epoch format old ≤ body_epoch format p.body)))

  abbrev pub PendingOk : S → Option Attempt → Type 0
  PendingOk s none = Unit {0}
  PendingOk s (some p) = Sendable s p

  -- From one site to another the epoch has not gone back, and what is pending may be sent.
  pub record Kept (site site' : Site S) : Type 0 where
    pub grows : Grows site.store site'.store
    pub pending_ok : PendingOk site'.store site'.writer.pending

  Grows-refl : (s : S) → Grows s s
  Grows-refl s = record { epoch_grows = omega arith; denotes = λ v b d. d }

  Grows-trans : {s t u : S} → Grows s t → Grows t u → Grows s u
  Grows-trans g h = record {
    epoch_grows = omega (arith, g.epoch_grows, h.epoch_grows);
    denotes = λ v b d. h.denotes v b (g.denotes v b d);
  }

  Sendable-Grows : {s t : S} (p : Attempt) → Grows s t → Sendable s p → Sendable t p
  Sendable-Grows p g (inl c) = inl c
  Sendable-Grows p g (inr (c, (old, d, e))) = inr (c, (old, g.denotes _ _ d, e))

  PendingOk-Grows : {s t : S} (o : Option Attempt) → Grows s t → PendingOk s o → PendingOk t o
  PendingOk-Grows none g h = tt
  PendingOk-Grows (some p) g h = Sendable-Grows p g h

  module _ (law : Conditional) where
    create-Grows : (body : Bytes) (s : S) → Grows s (outside.create body s).1
    create-Grows body s = record {
      epoch_grows = ground (arith, law.create_keeps body s);
      denotes = λ v b d. law.create_denotes body s v b d;
    }

    swap-Grows :
        (expected : String) (body : Bytes) (s : S) (old : Bytes)
        → Denotes s expected old
        → body_epoch format old ≤ body_epoch format body
        → Grows s (outside.swap expected body s).1
    swap-Grows expected body s old d h = record {
      epoch_grows = ground (arith, law.swap_replaces expected body s old d);
      denotes = λ v b e. law.swap_denotes expected body s v b e;
    }

    write_attempt-Grows :
        (p : Attempt) (s : S) → Sendable s p → Grows s (write_attempt format outside p s).1
    write_attempt-Grows p s (inl c) = rw c (create-Grows p.body s)
    write_attempt-Grows p s (inr (c, (old, d, e))) = rw c (swap-Grows p.expected p.body s old d e)

    sent-Kept :
        (p : Attempt) (reply : Result String) (site : Site S)
        → Sendable site.store p
        → Kept site (sent format outside p reply site).1
    sent-Kept p (ok version) site h = record { grows = Grows-refl _; pending_ok = tt }
    sent-Kept p (err e) site h = record { grows = Grows-refl _; pending_ok = h }

    send-Kept :
        (p : Attempt) (site : Site S)
        → Sendable site.store p
        → Kept site (send format outside p site).1
    unfolding send
    send-Kept p site h =
        let g = write_attempt-Grows p site.store h in
        let t = (write_attempt format outside p site.store).1 in
        let k =
          sent-Kept p (write_attempt format outside p site.store).0 (record site { store = t })
            (Sendable-Grows p g h) in
        record { grows = Grows-trans g k.grows; pending_ok = k.pending_ok }
