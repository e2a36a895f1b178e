-- ===== src/Lease/Safety/Takeover.antt =====
-- The draft of a takeover in `Require` of lease/operations.go, against the holder before it.
use s3_lease.Prelude.{ℕ, ◌+◌, ◌≤◌, ◌≡◌, ◌≢◌, inl, inr, none, arith, true, Bool-cases}
use s3_lease.Lease.Errors.{ok}
use s3_lease.Lease.Config.{Config, validate_config}
use s3_lease.Lease.Record.{acquisition_record, renewal_record, release_record}
use s3_lease.Lease.State.{Core, Observed, check}
use s3_lease.Lease.Reads.{eligible}
use s3_lease.Lease.World.{World, Backend, ◌>>=◌, settings, lift, pure, raise}
use s3_lease.Lease.Mutations.{Draft, draft_takeover}
use s3_lease.Lease.Safety.Exclusion.{
  Version, Succeeds, takes, renews, releases, History, starts, continues, Released, StandsFor,
  exclusion,
}

-- No write takes the epoch back.
Succeeds-epoch : (e f : Version) → Succeeds e f → e.current.spec.epoch_id ≤ f.current.spec.epoch_id
unfolding acquisition_record renewal_record release_record
Succeeds-epoch e f (takes config o at same since can made order later) = ground (arith, made, same)
Succeeds-epoch e f (renews at made later) = ground (arith, made)
Succeeds-epoch e f (releases at made later) = ground (arith, made)

History-epoch : (e f : Version) → History e f → e.current.spec.epoch_id ≤ f.current.spec.epoch_id
History-epoch e f starts = omega arith
History-epoch e g (continues {f} h s) =
    let k = History-epoch e f h in omega (arith, k, Succeeds-epoch f g s)

-- What is drafted was eligible, and is the next record.
pub record Drafted {S : Type 0} (w : World S) (o : Observed) (at : ℕ) (draft : Draft) : Type 0 where
  pub was_eligible : eligible o at ≡ true
  pub next : acquisition_record o.current w.core.config at ≡ ok draft.proposed

-- The next epoch is that of no version before.
epochs :
    {S : Type 0} (e f : Version) (h : History e f) (o : Observed) (at : ℕ) (draft : Draft)
    (w : World S)
    → o.current ≡ f.current
    → acquisition_record o.current w.core.config at ≡ ok draft.proposed
    → draft.proposed.spec.epoch_id ≢ e.current.spec.epoch_id
unfolding acquisition_record
epochs e f h o at draft w same next equal =
    let k = History-epoch e f h in
    let n : draft.proposed.spec.epoch_id ≡ f.current.spec.epoch_id + 1 =
      ground (arith, next, same) in
    omega (arith, k, n, equal)

module _ {S : Type 0} (backend : Backend S) where
  draft_takeover-Drafted :
      (w : World S) (o : Observed) (at : ℕ) (draft : Draft)
      → (draft_takeover backend o at w).0 ≡ ok draft
      → Drafted w o at draft
  unfolding draft_takeover ◌>>=◌ settings lift pure raise
  draft_takeover-Drafted w o at draft e = elim (Bool-cases (eligible o at)) [
    | inl can ↦ record { was_eligible = can; next = ground (arith, e, can) }
    | inr cannot ↦ absurd (ground (arith, e, cannot))
  ]

  -- The version that a client sends, which it drafted to replace the end of a history.
  abbrev pub sends : Draft → ℕ → Version
  sends draft sent = record { current = draft.proposed; sent = sent }

  -- Once a client has sent a record that it drafted to replace the end of a history, from an
  -- observation of that version, no Check passes of the lease of the holder from whose version the
  -- history starts, where that lease was not released in the history. The clocks agree, and the
  -- holder's configuration is accepted.
  pub takeover_excludes :
      (config : Config) (holder : Core) (i now : ℕ) (e f : Version) (h : History e f) (w : World S)
      (o : Observed) (at : ℕ) (draft : Draft) (sent : ℕ)
      → validate_config config ≡ none
      → StandsFor config holder i e
      → o.current ≡ f.current
      → f.sent ≤ o.unchanged_since
      → f.sent ≤ at
      → (draft_takeover backend o at w).0 ≡ ok draft
      → at ≤ sent
      → sent ≤ now
      → (¬ Released h)
      → (check holder i now).0 ≢ none
  takeover_excludes config holder i now e f h w o at draft sent valid stands same since order
        drafted later past unreleased passed =
      let d = draft_takeover-Drafted w o at draft drafted in
      let s = takes w.core.config o at same since d.was_eligible d.next order later in
      elim (exclusion config holder i now e (sends draft sent) (continues h s) valid stands past
        passed) [
          | inl k ↦ epochs e f h o at draft w same d.next k.same_epoch
          | inr (inl r) ↦ unreleased r
          | inr (inr (r, q)) ↦ r
        ]
