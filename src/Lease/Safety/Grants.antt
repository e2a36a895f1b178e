-- ===== src/Lease/Safety/Grants.antt =====
-- What `Require` has done when it returns a lease.
use s3_lease.Prelude.{
  ℕ, ◌+◌, ◌<◌, ◌≡◌, refl, ◌⊎◌, inl, inr, Bool, true, false, String, none, some, arith, str_eq,
  Bool-cases, if◌then◌else◌,
}
use s3_lease.Lease.Errors.{
  Error, annotated, sentinel, unknown_outcome, Result, ok, err, error_is, not_found,
}
use s3_lease.Lease.Record.{initial_record, acquisition_record}
use s3_lease.Lease.State.{Bytes, Core, Observed, Proposal, proposal_phase_end, install_timer}
use s3_lease.Lease.Operations.{encode_record, request_context, read_current}
use s3_lease.Lease.Reads.{observe_record, eligible}
use s3_lease.Lease.Proposals.{last_read, grant, prepare_require, confirm_acquisition}
use s3_lease.Lease.World.{
  Backend, Context, World, request, exclusively, run_exclusively, clock, settings, section, pass,
  or_raise, raise, pure,
}
use s3_lease.Lease.Safety.Ends.{
  locked, Yields-any, Ends-bind, Ends-raise, EndsFrom, From-lift, From-pure, From-ends,
  From-settings, From-raise, Ends-section, ended, returned, From-run, From-time, From-any,
  From-attempt,
}
use s3_lease.Lease.Mutations.{
  Draft, draft_initial, draft_takeover, draft_acquisition, write_acquisition, classified,
  acquisition, send_acquisition, require_body, require,
}

-- The steps of a `Require` that begins in a world, one after the other: what each returns, and the
-- world that it leaves.
module _ {S : Type 0} (backend : Backend S) (ctx : Context) where
  abbrev pub prepared : World S → Result (Unit {0}) × World S
  prepared w = section (λ c now. or_raise (prepare_require c now)) w

  abbrev pub reading : World S → Result Observed × World S
  reading w = read_current backend ctx 0 (prepared w).1

  abbrev pub drafting : World S → Result Draft × World S
  drafting w = draft_acquisition backend (reading w).0 (reading w).1

  -- The world when the clock is read for the first send, and when the request is sent.
  abbrev pub at_first_send : World S → World S
  at_first_send w = pass (drafting w).1

  abbrev pub budgeted : World S → Result ℕ × World S
  budgeted w =
      let v = at_first_send w in request_context ctx (v.now + v.core.config.renew_deadline) v

  -- A creation at epoch 1, as the read found no record.
  pub record Creation (w : World S) (draft : Draft) : Type 0 where
    pub creates : draft.creates ≡ true
    pub cause : Error
    pub read : (reading w).0 ≡ err cause
    pub missing : error_is cause not_found ≡ true
    pub first_epoch : draft.proposed.spec.epoch_id ≡ 1

  -- A takeover of the very observation that the read gave, eligible at the next reading of the clock,
  -- under its version.
  pub record Takeover (w : World S) (draft : Draft) : Type 0 where
    pub swaps : draft.creates ≡ false
    pub current : Observed
    pub read : (reading w).0 ≡ ok current
    pub was_eligible : eligible current (pass (reading w).1).now ≡ true
    pub same_version : draft.expected ≡ current.version
    pub next :
        acquisition_record current.current (pass (reading w).1).core.config (pass (reading w).1).now
        ≡ ok draft.proposed

  -- The body of the draft was sent with its condition, and the store answered with this version.
  pub record Written (w : World S) (draft : Draft) (version : String) : Type 0 where
    pub body : Bytes
    pub encoded : encode_record (backend.marshal draft.proposed) ≡ ok body
    pub budget : ℕ
    pub in_budget : (budgeted w).0 ≡ ok budget
    pub answer : (write_acquisition backend draft body budget (budgeted w).1.store).0 ≡ ok version

  -- The lease `i` is the active one, unretired and within its deadline, which is one renew deadline
  -- after the first send; it stands for the record that the store confirmed.
  pub record Granted (w : World S) (c : Core) (now i : ℕ) : Type 0 where
    pub draft : Draft
    pub drafted : (drafting w).0 ≡ ok draft
    pub origin : Creation w draft ⊎ Takeover w draft
    pub latest : Observed
    pub confirmed : c.observed ≡ some latest
    pub as_proposed : latest.current ≡ draft.proposed
    pub written : Written w draft latest.version
    pub first_send : latest.unchanged_since ≡ (at_first_send w).now
    pub is_active : c.active ≡ some i
    pub unretired : (c.leases i).retired ≡ none
    pub in_time : now < (c.leases i).valid_until
    pub deadline : (c.leases i).valid_until ≡ (at_first_send w).now + c.config.renew_deadline
    pub same_uid : (c.leases i).lease_uid ≡ draft.proposed.metadata.uid
    pub same_epoch : (c.leases i).epoch_id ≡ draft.proposed.spec.epoch_id
    pub same_sequence : (c.leases i).sequence_id ≡ draft.proposed.spec.sequence_id
    pub own_client : (c.leases i).client_id ≡ c.config.client_id

abbrev observation_of : Core → Proposal → String → Observed
observation_of c p version = record {
  generation = c.next_generation;
  current = p.proposed;
  body = p.body;
  version = version;
  unchanged_since = p.first_send_at;
  last_read_at = last_read c.observed;
}

-- The core after a confirmed acquisition.
module _ (c : Core) (p : Proposal) (version : String) (canceled : Bool) (now i : ℕ)
    (unbounded : p.authority_ends ≡ 0)
    (confirmed : (confirm_acquisition c p version canceled now).0 ≡ ok i) where
  abbrev after : Core
  after = (confirm_acquisition c p version canceled now).1

  record Confirmed : Type 0 where
    observed : after.observed ≡ some (observation_of c p version)
    is_active : after.active ≡ some i
    unretired : (after.leases i).retired ≡ none
    in_time : now < (after.leases i).valid_until
    deadline : (after.leases i).valid_until ≡ p.first_send_at + after.config.renew_deadline
    same_uid : (after.leases i).lease_uid ≡ p.proposed.metadata.uid
    same_epoch : (after.leases i).epoch_id ≡ p.proposed.spec.epoch_id
    same_sequence : (after.leases i).sequence_id ≡ p.proposed.spec.sequence_id
    own_client : (after.leases i).client_id ≡ after.config.client_id

  confirm_acquisition-Confirmed : Confirmed
  unfolding confirm_acquisition proposal_phase_end grant install_timer observe_record
  confirm_acquisition-Confirmed = record {
    observed = ground arith;
    is_active = ground arith;
    unretired = ground arith;
    in_time = ground arith;
    deadline = ground arith;
    same_uid = ground arith;
    same_epoch = ground arith;
    same_sequence = ground arith;
    own_client = ground arith;
  }

module _ {S : Type 0} (backend : Backend S) (ctx : Context) (start : World S) where
  Origin : Draft → World S → Type 0
  Origin draft w = Creation backend ctx start draft ⊎ Takeover backend ctx start draft

  draft_takeover-Origin :
      (current : Observed)
      → (reading backend ctx start).0 ≡ ok current
      → EndsFrom
          (draft_takeover backend current (pass (reading backend ctx start).1).now)
          Origin
          (pass (reading backend ctx start).1)
  unfolding draft_takeover Origin
  draft_takeover-Origin current read =
      let w = pass (reading backend ctx start).1 in
      From-settings _ w (elim (Bool-cases (eligible current w.now)) [
        | inl can ↦ rw can (
            From-lift (acquisition_record current.current w.core.config w.now) w λ r e.
              From-pure _ w (
                inr (record {
                  swaps = refl;
                  current = current;
                  read = read;
                  was_eligible = can;
                  same_version = refl;
                  next = e;
                })))
        | inr cannot ↦ rw cannot (From-raise _ w)
      ])

  draft_acquisition-Origin :
      (current : Result Observed)
      → (reading backend ctx start).0 ≡ current
      → EndsFrom (draft_acquisition backend current) Origin (reading backend ctx start).1
  unfolding draft_acquisition draft_initial initial_record Origin
  draft_acquisition-Origin (ok current) read = From-time _ _ (draft_takeover-Origin current read)
  draft_acquisition-Origin (err e) read = elim (Bool-cases (error_is e not_found)) [
    | inl missing ↦ rw missing (
        From-any _ (
          Ends-bind (Yields-any clock) λ now _. Ends-bind (Yields-any settings) λ config _.
            Ends-bind (Yields-any (request backend.random)) λ bytes _. From-ends λ w.
              From-pure _ w (
                inl (record {
                  creates = refl;
                  cause = e;
                  read = read;
                  missing = missing;
                  first_epoch = refl;
                }))))
    | inr other ↦ rw other (From-any _ (Ends-raise _))
  ]

  -- A version that passes `classified` is the store's own answer.
  classified-answer :
      (reply : Result String) (w : World S) (version : String)
      → (classified backend reply w).0 ≡ ok version
      → reply ≡ ok version
  unfolding raise pure
  classified-answer (err e) w version k = cc
  classified-answer (ok v) w version k = given (str_eq v "") k
    where
      given :
          (b : Bool)
          → ((if b then raise (annotated (sentinel unknown_outcome)) else pure v) w).0 ≡ ok version
          → ok v ≡ ok version
      given true k = cc
      given false k = k

  Grants : ℕ → World S → Type 0
  Grants i w = Granted backend ctx start w.core w.now i

  send_acquisition-Grants :
      (draft : Draft)
      → (drafting backend ctx start).0 ≡ ok draft
      → Origin draft start
      → EndsFrom (send_acquisition backend ctx draft) Grants (drafting backend ctx start).1
  unfolding send_acquisition Grants Origin request
  send_acquisition-Grants draft drafted origin = From-lift _ _ λ body encoded. From-time _ _ (
      From-settings _ _ (
        From-run _ _ _ λ budget in_budget. From-attempt _ _ _ (
          From-run _ _ _ λ version answered. From-any _ (
            Ends-section _ λ w.
              ended (λ i v. Granted backend ctx start v.core v.now i) _ _
                λ i e.
                  let first_send_at = (at_first_send backend ctx start).now in
                  let p = acquisition backend draft body first_send_at in
                  let k = confirm_acquisition-Confirmed w.core p version _ w.now i refl e in
                  record {
                    draft = draft;
                    drafted = drafted;
                    origin = origin;
                    latest = observation_of w.core p version;
                    confirmed = k.observed;
                    as_proposed = refl;
                    written = record {
                      body = body;
                      encoded = encoded;
                      budget = budget;
                      in_budget = in_budget;
                      answer = classified-answer _ _ version answered;
                    };
                    first_send = refl;
                    is_active = k.is_active;
                    unretired = k.unretired;
                    in_time = k.in_time;
                    deadline = k.deadline;
                    same_uid = k.same_uid;
                    same_epoch = k.same_epoch;
                    same_sequence = k.same_sequence;
                    own_client = k.own_client;
                  }))))

  require_body-Grants : EndsFrom (require_body backend ctx) Grants start
  unfolding require_body Origin
  require_body-Grants = From-run _ _ _ λ u _. From-attempt _ _ _ (
      From-run _ _ _ λ draft drafted. send_acquisition-Grants draft drafted (
        returned Origin (draft_acquisition-Origin (reading backend ctx start).0 refl).from drafted))

  unlocked :
      (c : Core) (now i : ℕ)
      → Granted backend ctx start c now i
      → Granted backend ctx start (record c { mutating = false }) now i
  unlocked c now i g = record {
    draft = g.draft;
    drafted = g.drafted;
    origin = g.origin;
    latest = g.latest;
    confirmed = g.confirmed;
    as_proposed = g.as_proposed;
    written = g.written;
    first_send = g.first_send;
    is_active = g.is_active;
    unretired = g.unretired;
    in_time = g.in_time;
    deadline = g.deadline;
    same_uid = g.same_uid;
    same_epoch = g.same_epoch;
    same_sequence = g.same_sequence;
    own_client = g.own_client;
  }

module _ {S : Type 0} (backend : Backend S) (ctx : Context) where
  run_exclusively-Granted :
      (held : Bool) (w : World S) (i : ℕ)
      → (run_exclusively held (require_body backend ctx) w).0 ≡ ok i
      → let w' = (run_exclusively held (require_body backend ctx) w).1 in
        Granted backend ctx (locked w) w'.core w'.now i
  unfolding Grants
  run_exclusively-Granted true w i e = cc
  run_exclusively-Granted false w i e =
      let v = (require_body backend ctx (locked w)).1 in
      unlocked backend ctx (locked w) v.core v.now i (
        returned (Grants backend ctx (locked w)) (require_body-Grants backend ctx (locked w)).from
          e)

  -- A lease that `Require` returns is the active one and unretired; its deadline is not over and
  -- lies one renew deadline after the time that the clock showed for the first send. It stands for
  -- the record that the store confirmed when that record was sent: epoch 1, where the read found
  -- nothing, or the acquisition of the observation that the read gave, which was eligible when the
  -- clock was read next, under the version that it had.
  pub require-Granted :
      (w : World S) (i : ℕ)
      → (require backend ctx w).0 ≡ ok i
      → let w' = (require backend ctx w).1 in Granted backend ctx (locked w) w'.core w'.now i
  unfolding require exclusively
  require-Granted w i e = run_exclusively-Granted w.core.mutating w i e
