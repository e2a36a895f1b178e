-- ===== src/Lease/Progress/Taking.antt =====
-- That `Require` of lease/operations.go gets the lease when it may, on a client that nothing disturbs.
use s3_lease.Prelude.{
  ℕ, ◌+◌, ◌<◌, ◌≡◌, refl, sym, ap, subst, eq_iff, arith, true, false, String, none, some, str_eq,
}
use s3_lease.Lease.Errors.{ok}
use s3_lease.Lease.Config.{Settings}
use s3_lease.Lease.Record.{Record, acquisition_record, same_record, records_compatible}
use s3_lease.Lease.Record.Order.{compatible-order, same_record_refl}
use s3_lease.Lease.Reads.{
  observe_record, install_read, accept_read, retire_if_observation_lost, found, eligible,
}
use s3_lease.Lease.State.{Bytes, Core, Observed, Proposal, proposal_phase_end}
use s3_lease.Lease.Proposals.{superseded, grant, confirm_acquisition, prepare_require}
use s3_lease.Lease.Mutations.{
  Draft, draft_takeover, draft_acquisition, write_acquisition, acquisition, classified,
  send_acquisition, require_body, require,
}
use s3_lease.Lease.World.{
  StoredObject, Backend, Context, World, Exec, pure, attempt, exclusively, run_exclusively,
  or_raise,
}
use s3_lease.Lease.Operations.{begin_read, read_current, interpret, encode_record}
use s3_lease.Lease.Progress.Rules.{
  still, Calm, Gives, Goes, Gives-then, Goes-then, lift-Goes, pure-Goes, asked-Goes, section-Goes,
  section-Gives, clock-Goes, settings-Goes, request_context-unphased, request_context-phased,
}

-- The last section grants the lease in time, where the proposal is not behind the observation.
confirm-gives :
    (c : Core) (p : Proposal) (version : String) (t : ℕ)
    → c.terminal ≡ none
    → superseded c.observed p version ≡ false
    → t < proposal_phase_end c p
    → (confirm_acquisition c p version false t).0 ≡ ok c.next_lease
unfolding confirm_acquisition grant
confirm-gives c p version t running fresh early = ground (arith, running, fresh, early)

module _ {S : Type 0} (backend : Backend S) (s : S) where
  -- What the store makes of the write of a draft: a version, whatever time it is given.
  pub record Accepts (draft : Draft) : Type 0 where
    pub body : Bytes
    pub encoded : backend.marshal draft.proposed ≡ ok body
    pub version : String
    pub later : S
    pub written : (b : ℕ) → write_acquisition backend draft body b s ≡ (ok version, later)
    pub named : str_eq version "" ≡ false

module _ {S : Type 0} (backend : Backend S) (c : Core) (s : S) (t : ℕ) (ctx : Context)
    (calm : Calm ctx t) where
  classified-Goes :
      (d : Core) (u : S) (now : ℕ) (version : String)
      → str_eq version "" ≡ false
      → Goes (classified backend (ok version)) (still d u now) version (still d u now)
  unfolding pure
  classified-Goes d u now version named = record { goes = rw named refl }

  send_acquisition-Gives :
      (draft : Draft) (a : Accepts backend s draft)
      → c.terminal ≡ none
      → 0 < c.config.renew_deadline
      → superseded c.observed (acquisition backend draft a.body t) a.version ≡ false
      → Gives (send_acquisition backend ctx draft) (still c s t) c.next_lease
  unfolding send_acquisition proposal_phase_end encode_record
  send_acquisition-Gives draft a running positive fresh =
      Gives-then _ (lift-Goes c s t _ (rw a.encoded refl)) (
        Gives-then _ (clock-Goes c s t) (
          Gives-then _ (settings-Goes c s t) (
            Gives-then _ (request_context-phased c s t ctx calm _ (omega (arith, positive))) (
              Gives-then _ (asked-Goes c s t _ (a.written _)) (
                Gives-then _ (classified-Goes c a.later t a.version a.named) (
                  section-Gives c a.later t _ (
                    rw calm.lasts (
                      confirm-gives c (acquisition backend draft a.body t) a.version t running fresh
                        (ground (arith, positive))))))))))

-- The next record is not behind the one that it was made from.
next-fresh :
    (config : Settings) (o : Observed) (next : Record) (p : Proposal) (version : String) (at : ℕ)
    → acquisition_record o.current config at ≡ ok next
    → p.proposed ≡ next
    → superseded (some o) p version ≡ false
unfolding acquisition_record
next-fresh config o next p version at made same =
    let uid : p.proposed.metadata.uid ≡ o.current.metadata.uid = ground (arith, made, same) in
    let epoch : p.proposed.spec.epoch_id ≡ o.current.spec.epoch_id + 1 =
      ground (arith, made, same) in
    let equal : str_eq o.current.metadata.uid p.proposed.metadata.uid ≡ true =
      (eq_iff _ _).1 (sym uid) in
    ground (arith, equal, epoch)

abbrev taken_mutex : Core → Core
taken_mutex c = record c { mutating = true }

module _ {S : Type 0} where
  attempt-Goes :
      {A : Type 0} {m : Exec S A} {w v : World S} {a : A}
      → Goes m w a v
      → Goes (attempt m) w (ok a) v
  unfolding attempt
  attempt-Goes g = record { goes = ap (λ x. (ok x.0, x.1)) g.goes }

  exclusively-Gives :
      {A : Type 0} {m : Exec S A} {a : A} (c : Core) (s : S) (t : ℕ)
      → c.mutating ≡ false
      → Gives m (still (taken_mutex c) s t) a
      → Gives (exclusively m) (still c s t) a
  unfolding exclusively
  exclusively-Gives {m} {a} c s t idle g = record {
    value = subst (λ held. (run_exclusively held m (still c s t)).0 ≡ ok a) (sym idle) g.value;
  }

-- A client that holds nothing, and has nothing in flight.
pub record AtRest (c : Core) (o : Observed) : Type 0 where
  pub unlocked : c.mutating ≡ false
  pub running : c.terminal ≡ none
  pub inactive : c.active ≡ none
  pub resolved : c.pending ≡ none
  pub seen : c.observed ≡ some o

-- The observation that a read of the unchanged record leaves.
abbrev read_again : Core → Observed → Bytes → ℕ → Observed
read_again c o body t = record {
  generation = c.next_generation;
  current = o.current;
  body = body;
  version = o.version;
  unchanged_since = o.unchanged_since;
  last_read_at = t;
}

abbrev after_read : Core → Observed → Bytes → ℕ → Core
after_read c o body t = observe_record c o.current body o.version o.unchanged_since t

module _ (c : Core) (o : Observed) (rest : AtRest c o) where
  prepare-goes : (t : ℕ) → or_raise (prepare_require (taken_mutex c) t) ≡ (ok tt, taken_mutex c)
  unfolding prepare_require
  prepare-goes t =
      let e : prepare_require (taken_mutex c) t ≡ (none, taken_mutex c) =
        ground (arith, rest.running, rest.inactive, rest.resolved) in
      ap or_raise e

  begin-goes : (t : ℕ) → begin_read (taken_mutex c) t ≡ (ok (some o.generation), taken_mutex c)
  unfolding begin_read
  begin-goes t = ground (arith, rest.running, rest.seen)

  install-goes :
      (body : Bytes) (t : ℕ)
      → install_read (taken_mutex c) (some o.generation) t (found o.version body o.current)
        ≡ (ok (read_again (taken_mutex c) o body t), after_read (taken_mutex c) o body t)
  unfolding install_read accept_read retire_if_observation_lost observe_record
  install-goes body t =
      let follows : records_compatible o.current o.current ≡ none =
        (compatible-order o.current o.current o.current).0 in
      let same : same_record o.current o.current ≡ true = same_record_refl o.current in
      let version : str_eq o.version o.version ≡ true = (eq_iff _ _).1 refl in
      ground (arith, rest.running, rest.seen, rest.inactive, follows, same, version)

abbrev pub draft_of : Observed → Record → Draft
draft_of o next = record { creates = false; expected = o.version; proposed = next }

module _ {S : Type 0} (backend : Backend S) (s : S) (o : Observed) where
  -- The store still has the record that was observed, whatever time the read is given.
  pub record Unchanged : Type 0 where
    pub object : StoredObject
    pub later : S
    pub fetched : (b : ℕ) → backend.fetch b s ≡ (ok object, later)
    pub same : interpret backend (ok object) ≡ found o.version object.body o.current

module _ {S : Type 0} (backend : Backend S) (c : Core) (s : S) (t : ℕ) (ctx : Context)
    (calm : Calm ctx t) (o : Observed) (rest : AtRest c o) where
  module _ (u : Unchanged backend s o) where
    abbrev reread : Observed
    reread = read_again (taken_mutex c) o u.object.body t

    abbrev reread_core : Core
    reread_core = after_read (taken_mutex c) o u.object.body t

    read_current-Goes :
        Goes
          (read_current backend ctx 0)
          (still (taken_mutex c) s t)
          reread
          (still reread_core u.later t)
    unfolding read_current
    read_current-Goes = Goes-then _ (section-Goes (taken_mutex c) s t _ (begin-goes c o rest t)) (
        Goes-then _ (request_context-unphased (taken_mutex c) s t ctx calm) (
          Goes-then _ (asked-Goes (taken_mutex c) s t _ (u.fetched _)) (
            Goes-then _ (clock-Goes (taken_mutex c) u.later t) (
              section-Goes (taken_mutex c) u.later t _
                (rw u.same (install-goes c o rest u.object.body t))))))

    draft-Goes :
        (next : Record)
        → eligible o t ≡ true
        → acquisition_record o.current c.config t ≡ ok next
        → Goes
            (draft_acquisition backend (ok reread))
            (still reread_core u.later t)
            (draft_of o next)
            (still reread_core u.later t)
    unfolding draft_acquisition draft_takeover eligible observe_record
    draft-Goes next can made = Goes-then _ (clock-Goes reread_core u.later t) (
        Goes-then _ (settings-Goes reread_core u.later t) (
          rw can (
            Goes-then _ (lift-Goes reread_core u.later t _ made)
              (pure-Goes reread_core u.later t _))))

    -- A client that holds nothing and that finds the record which it had observed unchanged and
    -- eligible gets the lease, where no time passes and nobody else acts on it, its context lasts,
    -- the epoch can advance, and the store answers the read and accepts the write.
    pub require-Gives :
        (next : Record)
        → 0 < c.config.renew_deadline
        → eligible o t ≡ true
        → acquisition_record o.current c.config t ≡ ok next
        → Accepts backend u.later (draft_of o next)
        → Gives (require backend ctx) (still c s t) c.next_lease
    unfolding require require_body observe_record
    require-Gives next positive can made accepts = exclusively-Gives c s t rest.unlocked (
        Gives-then _ (section-Goes (taken_mutex c) s t _ (prepare-goes c o rest t)) (
          Gives-then _ (attempt-Goes read_current-Goes) (
            Gives-then _ (draft-Goes next can made) (
              send_acquisition-Gives backend reread_core u.later t ctx calm (draft_of o next)
                accepts rest.running positive
                (next-fresh c.config reread next
                  (acquisition backend (draft_of o next) accepts.body t) accepts.version t made
                  refl)))))
