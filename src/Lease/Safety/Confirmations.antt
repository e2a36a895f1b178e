-- ===== src/Lease/Safety/Confirmations.antt =====
-- What sending and reconciling a proposal of `Renew` has done when it succeeds.
use s3_lease.Prelude.{
  ℕ, ◌+◌, ◌<◌, ◌≡◌, refl, inl, inr, true, false, String, Option, none, some, ltb, arith, str_eq,
  Bool-cases, if◌then◌else◌,
}
use s3_lease.Lease.Errors.{Error, Result, ok, err, is_unknown_write, is_definitive_conflict}
use s3_lease.Lease.Record.{same_record}
use s3_lease.Lease.State.{Core, Observed, Proposal, is_renew, install_timer}
use s3_lease.Lease.Reads.{observe_record}
use s3_lease.Lease.Proposals.{confirm_renewal, extend_lease}
use s3_lease.Lease.World.{◌>>=◌, Backend, Context, World, Exec, pure, or_raise}
use s3_lease.Lease.Mutations.{
  confirm, abandon, apply_readback, reconcile_conflict, clear_and_raise, sent, send_within,
  send_pending, reconcile_pending,
}
use s3_lease.Lease.Safety.Ends.{
  From-ends, From-any, From-pure, Ends, Ended, Yields-any, Ends-bind, Ends-section, Ends-then,
  Ends-raise,
}

-- The lease of a proposal is the active one, unretired, and before its deadline, which lies one renew
-- deadline after the first send of the proposal; its record is observed, unchanged since that send.
pub record Renewed (c : Core) (now : ℕ) (p : Proposal) : Type 0 where
  pub latest : Observed
  pub observed : c.observed ≡ some latest
  pub as_proposed : latest.current ≡ p.proposed
  pub unchanged_since : latest.unchanged_since ≡ p.first_send_at
  pub is_active : c.active ≡ some p.acquired
  pub unretired : (c.leases p.acquired).retired ≡ none
  pub in_time : now < (c.leases p.acquired).valid_until
  pub deadline : (c.leases p.acquired).valid_until ≡ p.first_send_at + c.config.renew_deadline
  pub same_sequence : (c.leases p.acquired).sequence_id ≡ p.proposed.spec.sequence_id
  pub resolved : c.pending ≡ none

abbrev pub Renews : {S : Type 0} → Proposal → World S → Type 0
Renews p w = Renewed w.core w.now p

confirm_renewal-Renewed :
    (c : Core) (p : Proposal) (version : String) (now : ℕ)
    → (confirm_renewal c p version now).0 ≡ none
    → Renewed (confirm_renewal c p version now).1 now p
unfolding confirm_renewal extend_lease install_timer observe_record
confirm_renewal-Renewed c p version now e = record {
  latest = record {
    generation = c.next_generation;
    current = p.proposed;
    body = p.body;
    version = version;
    unchanged_since = p.first_send_at;
    last_read_at = elim c.observed [ none ↦ 0 | some o ↦ o.last_read_at ];
  };
  observed = ground arith;
  as_proposed = refl;
  unchanged_since = refl;
  is_active = ground arith;
  unretired = ground arith;
  in_time = ground arith;
  deadline = ground arith;
  same_sequence = ground arith;
  resolved = ground arith;
}

-- The world after a section that ended so.
or_raise-Renews :
    {S : Type 0} (w : World S) (p : Proposal) (r : Option Error × Core)
    → (r.0 ≡ none → Renewed r.1 w.now p)
    → Ended (λ _. Renews p) (or_raise r).0 (record w { core = (or_raise r).1 })
or_raise-Renews w p (none, c) h = h refl
or_raise-Renews w p (some e, c) h = tt

module _ {S : Type 0} (backend : Backend S) where
  module _ (ctx : Context) (p : Proposal) (renews : is_renew p.kind ≡ true) where
    confirm-Renews : (version : String) → Ends (confirm backend p version) (λ _. Renews p)
    unfolding confirm
    confirm-Renews version =
        rw renews (
          Ends-section _
            λ w. or_raise-Renews w p _ (confirm_renewal-Renewed w.core p version w.now))

    apply_readback-Renews :
        (current : Observed)
        → Ends (apply_readback backend p current) (λ done w. done ≡ true → Renews p w)
    unfolding apply_readback
    apply_readback-Renews current = elim (Bool-cases (same_record current.current p.proposed)) [
      | inl same ↦
          rw same (Ends-then (confirm-Renews current.version) λ _ w h. From-pure true w λ _. h)
      | inr other ↦ rw other (elim (Bool-cases (str_eq current.version p.expected)) [
        | inl kept ↦ rw kept (From-ends λ w. From-pure false w λ e. cc)
        | inr lost ↦ rw lost (Ends-section _ λ w. tt)
      ])
    ]

    abandon-Renews : Ends {S = S} (abandon backend p) (λ _. Renews p)
    unfolding abandon
    abandon-Renews = Ends-section _ λ w. tt

    clear_and_raise-Renews :
        (e : Error) → Ends {S = S} (clear_and_raise backend p e) (λ _. Renews p)
    unfolding clear_and_raise
    clear_and_raise-Renews e = Ends-bind (Yields-any _) λ _ _. Ends-raise e

    resolve-Renews :
        (rest : Exec S (Unit {0})) (current : Observed)
        → Ends rest (λ _. Renews p)
        → Ends
            (apply_readback backend p current >>= λ resolved. if resolved then pure tt else rest)
            (λ _. Renews p)
    resolve-Renews rest current k = Ends-then (apply_readback-Renews current) λ resolved w h.
        elim (Bool-cases resolved) [
          | inl done ↦ rw done (From-pure tt w (h done))
          | inr unknown ↦ rw unknown (From-any w k)
        ]

    reconcile_conflict-Renews : Ends (reconcile_conflict backend ctx p) (λ _. Renews p)
    unfolding reconcile_conflict
    reconcile_conflict-Renews = Ends-bind (Yields-any _) λ phase_end _.
        Ends-bind (Yields-any _) λ now _. elim (Bool-cases (ltb now phase_end)) [
          | inl early ↦
              rw early
                (Ends-bind (Yields-any _) λ current _. resolve-Renews _ current (Ends-raise _))
          | inr late ↦ rw late abandon-Renews
        ]

    sent-Renews : (reply : Result String) → Ends (sent backend ctx p reply) (λ _. Renews p)
    sent-Renews (ok version) = elim (Bool-cases (str_eq version "")) [
      | inl omitted ↦ rw omitted (Ends-raise _)
      | inr given ↦ rw given (confirm-Renews version)
    ]
    sent-Renews (err e) = elim (Bool-cases (is_unknown_write e)) [
      | inl unknown ↦ rw unknown (Ends-raise _)
      | inr known ↦ rw known (elim (Bool-cases (is_definitive_conflict e)) [
        | inl conflicts ↦ rw conflicts reconcile_conflict-Renews
        | inr failed ↦ rw failed (clear_and_raise-Renews e)
      ])
    ]

    send_within-Renews :
        (phase_end : ℕ) (budget : Result ℕ)
        → Ends (send_within backend ctx p phase_end budget) (λ _. Renews p)
    send_within-Renews phase_end (ok budget) = Ends-bind (Yields-any _) λ reply _. sent-Renews reply
    send_within-Renews phase_end (err e) = Ends-bind (Yields-any _) λ now _.
        elim (Bool-cases (ltb now phase_end)) [
          | inl early ↦ rw early (clear_and_raise-Renews e)
          | inr late ↦ rw late abandon-Renews
        ]

    pub send_pending-Renews : Ends (send_pending backend ctx p) (λ _. Renews p)
    unfolding send_pending
    send_pending-Renews =
        Ends-bind (Yields-any _)
          λ phase_end _. Ends-bind (Yields-any _) λ budget _. send_within-Renews phase_end budget

    pub reconcile_pending-Renews : Ends (reconcile_pending backend ctx p) (λ _. Renews p)
    unfolding reconcile_pending
    reconcile_pending-Renews = Ends-bind (Yields-any _) λ phase_end _.
        Ends-bind (Yields-any _) λ now _. elim (Bool-cases (ltb now phase_end)) [
          | inl early ↦
              rw early
                (Ends-bind (Yields-any _) λ current _. resolve-Renews _ current send_pending-Renews)
          | inr late ↦ rw late abandon-Renews
        ]
