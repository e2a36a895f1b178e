-- ===== src/Lease/Safety/Exclusion.antt =====
-- The records that all clients of one object write, one after the other: the transitions of
-- lease/record.go under the conditions of lease/operations.go, seen from one holder.
use s3_lease.Prelude.{
  ℕ, ◌+◌, ◌-◌, ◌*◌, ◌/◌, ◌≤◌, ◌<◌, ◌≡◌, refl, ap, ◌⊎◌, inl, inr, none, arith, true, false, str_eq,
}
use s3_lease.Lease.Errors.{ok}
use s3_lease.Lease.Config.{Config, Settings, second, settings_of, validate_config}
use s3_lease.Lease.Config.Valid.{validate_iff}
use s3_lease.Lease.Record.{Record, acquisition_record, renewal_record, release_record}
use s3_lease.Lease.State.{Core, Observed, check}
use s3_lease.Lease.Reads.{eligible}
use s3_lease.Lease.Safety.Checks.{check_iff}
use s3_lease.Lease.Safety.Handover.{whole_duration}

-- A version of the object: its record, and when its writer first sent it.
pub record Version : Type 0 where
  pub current : Record
  pub sent : ℕ

-- One conditional write after another: a client that found its observation of the version eligible,
-- or a renewal or a release of the version by its holder. A version is neither observed nor replaced
-- before it was sent, and a client drafts a record before it sends it.
pub data Succeeds (e f : Version) : Type 0 where
  takes :
      (config : Settings) (o : Observed) (at : ℕ)
      → o.current ≡ e.current
      → e.sent ≤ o.unchanged_since
      → eligible o at ≡ true
      → acquisition_record o.current config at ≡ ok f.current
      → e.sent ≤ at
      → at ≤ f.sent
      → Succeeds e f
  renews : (at : ℕ) → renewal_record e.current at ≡ ok f.current → e.sent ≤ f.sent → Succeeds e f
  releases : (at : ℕ) → release_record e.current at ≡ ok f.current → e.sent ≤ f.sent → Succeeds e f

pub data History (e : Version) : Version → Type 0 where
  starts : History e e
  continues : {f g : Version} → History e f → Succeeds f g → History e g

abbrev pub IsRelease : {e f : Version} → Succeeds e f → Type 0
IsRelease (releases at made later) = Unit {0}
IsRelease (renews at made later) = ⊥
IsRelease (takes config o at same since can made order later) = ⊥

-- Some release of the lease of `e` is in the history.
abbrev pub Released : {e f : Version} → History e f → Type 0
Released starts = ⊥
Released {e} (continues {f} h s) =
    Released h ⊎ (IsRelease s × (f.current.spec.epoch_id ≡ e.current.spec.epoch_id))

-- A lease of a core, whose configuration is `config`, stands for a version: its own record, which
-- gives it one renew deadline from when it was first sent.
pub record StandsFor (config : Config) (c : Core) (i : ℕ) (e : Version) : Type 0 where
  pub settings : c.config ≡ settings_of config
  pub deadline : (c.leases i).valid_until ≤ e.sent + c.config.renew_deadline
  pub is_held : str_eq e.current.spec.client_id "" ≡ false
  pub duration :
      e.current.spec.lease_duration_seconds ≡ (settings_of config).lease_duration / second

-- The term of `e` goes on at `f`.
pub record SameHolder (e f : Version) : Type 0 where
  pub same_epoch : f.current.spec.epoch_id ≡ e.current.spec.epoch_id
  pub same_client : f.current.spec.client_id ≡ e.current.spec.client_id
  pub same_duration : f.current.spec.lease_duration_seconds ≡ e.current.spec.lease_duration_seconds
  pub later : e.sent ≤ f.sent

renewed-SameHolder :
    (f g : Version) (at : ℕ)
    → renewal_record f.current at ≡ ok g.current
    → f.sent ≤ g.sent
    → SameHolder f g
unfolding renewal_record
renewed-SameHolder f g at made later = record {
  same_epoch = ground (arith, made);
  same_client = ground (arith, made);
  same_duration = ground (arith, made);
  later = later;
}

-- A held record is taken over one whole duration after it was sent, at the earliest.
taken_late :
    (f : Version) (o : Observed) (at length : ℕ)
    → o.current ≡ f.current
    → f.sent ≤ o.unchanged_since
    → eligible o at ≡ true
    → str_eq f.current.spec.client_id "" ≡ false
    → f.current.spec.lease_duration_seconds * second ≡ length
    → 0 < length
    → f.sent + length ≤ at
unfolding eligible
taken_late f o at length same since can held whole positive =
    let waited : o.current.spec.lease_duration_seconds * second ≤ at - o.unchanged_since =
      ground (arith, can, held, same) in
    let d = ap (λ r. r.spec.lease_duration_seconds * second) same in
    omega (arith, waited, d, whole, positive, since)

-- What has become of the term of `e` at `f`: it goes on, or as much time has passed as one duration,
-- or it was released.
abbrev Become : {e f : Version} → ℕ → History e f → Type 0
Become {e} {f} length h = SameHolder e f ⊎ (e.sent + length ≤ f.sent) ⊎ Released h

module _ (e : Version) (length : ℕ) (held : str_eq e.current.spec.client_id "" ≡ false)
    (whole : e.current.spec.lease_duration_seconds * second ≡ length) (positive : 0 < length) where
  SameHolder-trans : (f g : Version) → SameHolder e f → SameHolder f g → SameHolder e g
  SameHolder-trans f g k l = record {
    same_epoch = cc (k.same_epoch, l.same_epoch);
    same_client = cc (k.same_client, l.same_client);
    same_duration = cc (k.same_duration, l.same_duration);
    later = omega (arith, k.later, l.later);
  }

  going :
      (f g : Version) (h : History e f) (s : Succeeds f g)
      → SameHolder e f
      → Become length (continues h s)
  going f g h (renews at made later) k =
      inl (SameHolder-trans f g k (renewed-SameHolder f g at made later))
  going f g h (releases at made later) k = inr (inr (inr (tt, k.same_epoch)))
  going f g h (takes config o at same since can made order later) k =
      let l =
        taken_late f o at length same since can (rw k.same_client held) (rw k.same_duration whole)
          positive in
      inr (inl (omega (arith, l, later, k.later)))

  later_still : (f g : Version) → Succeeds f g → f.sent ≤ g.sent
  later_still f g (renews at made later) = later
  later_still f g (releases at made later) = later
  later_still f g (takes config o at same since can made order later) =
      omega (arith, since, order, later)

  become : (f : Version) (h : History e f) → Become length h
  become f starts =
      inl (record {
        same_epoch = refl;
        same_client = refl;
        same_duration = refl;
        later = omega arith;
      })
  become g (continues {f} h s) = elim (become f h) [
    | inl k ↦ going f g h s k
    | inr (inl k) ↦ inr (inl (omega (arith, k, later_still f g s)))
    | inr (inr k) ↦ inr (inr (inl k))
  ]

-- While a Check of a holder's lease passes, every record that was sent by then after the one for
-- which the lease stands still has its epoch and its client, unless the lease was released: no
-- history of renewals and takeovers by any number of clients, each on the version that it had
-- observed, gives the object to another client. The clocks agree, and the holder's configuration
-- is accepted.
pub exclusion :
    (config : Config) (holder : Core) (i now : ℕ) (e f : Version) (h : History e f)
    → validate_config config ≡ none
    → StandsFor config holder i e
    → f.sent ≤ now
    → (check holder i now).0 ≡ none
    → SameHolder e f ⊎ Released h
exclusion config holder i now e f h valid stands sent passed =
    let v = (validate_iff config).0 valid in
    let live = (check_iff holder i now).0 passed in
    let d = ap (λ s. s.renew_deadline) stands.settings in
    let length = (settings_of config).lease_duration in
    let whole : e.current.spec.lease_duration_seconds * second ≡ length =
      rw stands.duration (whole_duration config v) in
    elim (become e length stands.is_held whole
      (omega (arith, v.renew_first, v.positive, v.request_first)) f h) [
        | inl k ↦ inl k
        | inr (inl k) ↦ absurd (
            omega (
              arith, k, live.in_time, stands.deadline, d, v.renew_first, sent, v.positive,
              v.request_first,
            ))
        | inr (inr k) ↦ inr k
      ]
