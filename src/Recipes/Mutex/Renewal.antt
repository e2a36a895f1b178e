-- ===== src/Recipes/Mutex/Renewal.antt =====
-- The automatic renewal of a manual lock in recipes/mutex/manual.go: `renewLoop`, `maintain`.
use s3_lease.Prelude.{
  ℕ, ◌≡◌, refl, arith, Bool, true, false, ◌||◌, Option, none, some, List, [], ◌∷◌, if◌then◌else◌,
}
use s3_lease.Lease.Errors.{Error, sentinel, joined, lease_lost, unknown_outcome, error_is}
use s3_lease.Recipes.Client.{RecipeClient, renewal_retryable, is_lease_loss}
use s3_lease.Recipes.Mutex.{MutexState, set_lock, retire, mark_abandoned, clear_manual}

-- `manualRenewalResult`
pub record ManualResult : Type 0 where
  pub pending : Bool
  pub suppress_release : Bool
  pub authority_was_lost : Bool
  pub error : Option Error

abbrev pub result_of : Bool → ManualResult
result_of pending = record {
  pending = pending;
  suppress_release = false;
  authority_was_lost = false;
  error = none;
}

abbrev pub lost_with : Error → ManualResult
lost_with e = record (result_of false) { authority_was_lost = true; error = some e }

abbrev pub suppressed_with : Error → ManualResult
suppressed_with e = record (result_of false) { suppress_release = true; error = some e }

-- What follows a `Renew` of the loop: another round, with what is pending, or its result.
pub data RenewNext : Type 0 where
  renews_again : Bool → RenewNext
  renewal_ends : ManualResult → RenewNext

-- The `switch` of `renewLoop`.
unfoldable pub after_renew : Bool → Option Error → RenewNext
unfolding error_is is_lease_loss renewal_retryable
after_renew resolving none = renews_again false
after_renew resolving (some e) =
    if error_is e unknown_outcome
    then renews_again true
    else if is_lease_loss e
    then renewal_ends (lost_with (joined (sentinel lease_lost) e))
    else if resolving
    then renewal_ends (suppressed_with e)
    else if renewal_retryable e
    then renews_again false
    else renewal_ends (record (result_of false) { error = some e })

-- `stoppedManualRenewalState`
unfoldable pub stopped_state : Bool → Option Error → ManualResult
unfolding error_is is_lease_loss
stopped_state resolving none = result_of false
stopped_state resolving (some e) =
    if error_is e unknown_outcome
    then result_of true
    else if is_lease_loss e
    then lost_with (joined (sentinel lease_lost) e)
    else if resolving
    then suppressed_with e
    else result_of false

-- What the loop finds at its `select`; after a renewal it is told whether its context has ended.
pub data RenewWake : Type 0 where
  stop_asked : RenewWake
  lease_ended : RenewWake
  renew_due : (ended_meanwhile : Bool) → RenewWake

abbrev pub ended_with : Option Error → ManualResult
ended_with none = lost_with (sentinel lease_lost)
ended_with (some e) = lost_with (joined (sentinel lease_lost) e)

module _ {S : Type 0} (client : RecipeClient S) where
  -- One round.
  unfoldable pub renew_round : ℕ → Bool → RenewWake → S → RenewNext × S
  unfolding after_renew stopped_state
  renew_round acquired pending stop_asked s = (renewal_ends (result_of pending), s)
  renew_round acquired pending lease_ended s =
      let (e, s') = client.check_lease acquired s in (renewal_ends (ended_with e), s')
  renew_round acquired pending (renew_due ended) s =
      let (e, s') = client.renew_lease none acquired s in
      (if ended then renewal_ends (stopped_state pending e) else after_renew pending e, s')

  abbrev pub renew_more : RenewNext → S → (Bool → Option ManualResult × S) → Option ManualResult × S
  renew_more (renewal_ends r) s more = (some r, s)
  renew_more (renews_again pending) s more = more pending

  -- `renewLoop` through the rounds that are given; `none` where it is still waiting.
  unfoldable pub renew_loop : ℕ → Bool → List RenewWake → S → Option ManualResult × S
  unfolding renew_round
  renew_loop acquired pending [] s = (none, s)
  renew_loop acquired pending (w ∷ wakes) s =
      let (next, s') = renew_round acquired pending w s in
      renew_more next s' (λ p. renew_loop acquired p wakes s')

-- The first section of `maintain` after the loop.
unfoldable pub note_stopped : ℕ → ManualResult → MutexState → MutexState
note_stopped i r m =
    set_lock i
      (record (m.locks i) {
        stopped = true;
        pending = r.pending;
        suppress_release = r.suppress_release;
        authority_was_lost = r.authority_was_lost;
      })
      m

-- `abandonManual` up to the goroutine that waits for the lease to retire, which then clears the lock.
unfoldable pub abandon_manual : ℕ → Option Error → MutexState → MutexState
unfolding retire mark_abandoned
abandon_manual i e m = mark_abandoned i (retire i e m)

abbrev settle_error : Option Error → Bool → ℕ → MutexState → MutexState
settle_error none lost i m = m
settle_error (some e) lost i m =
    if lost then retire i (some e) (clear_manual i m) else abandon_manual i (some e) m

-- `maintain` from the end of its loop on.
unfoldable pub maintain_ends : ℕ → ManualResult → MutexState → MutexState
unfolding note_stopped retire clear_manual abandon_manual
maintain_ends i r m = settle_error r.error r.authority_was_lost i (note_stopped i r m)

-- A result that says that a renewal is unresolved, that the lease is lost, or that no release is to
-- be sent.
abbrev pub Owned : ManualResult → Type 0
Owned r = (r.pending || r.suppress_release || r.authority_was_lost) ≡ true

module _ {S : Type 0} (client : RecipeClient S) where
  abbrev pub OwnedEnd : Option ManualResult × S → Type 0
  OwnedEnd (none, s) = Unit {0}
  OwnedEnd (some r, s) = Owned r

  -- What a round may do that does not resolve the renewal.
  abbrev Kept : RenewNext → Type 0
  Kept (renews_again pending) = pending ≡ true
  Kept (renewal_ends r) = Owned r

  if_Kept : (b : Bool) (x y : RenewNext) → Kept x → Kept y → Kept (if b then x else y)
  if_Kept true x y k l = k
  if_Kept false x y k l = l

  if_Owned : (b : Bool) (x y : ManualResult) → Owned x → Owned y → Owned (if b then x else y)
  if_Owned true x y k l = k
  if_Owned false x y k l = l

  after_renew-Kept : (e : Error) → Kept (after_renew true (some e))
  unfolding after_renew
  after_renew-Kept e =
      if_Kept (error_is e unknown_outcome) _ _ refl (if_Kept (is_lease_loss e) _ _ refl refl)

  stopped_state-Owned : (e : Error) → Owned (stopped_state true (some e))
  unfolding stopped_state
  stopped_state-Owned e =
      if_Owned (error_is e unknown_outcome) _ _ refl (if_Owned (is_lease_loss e) _ _ refl refl)

  ended_with-Owned : (e : Option Error) → Owned (ended_with e)
  ended_with-Owned none = refl
  ended_with-Owned (some e) = refl

  renewed-Kept :
      (ended : Bool) (e : Option Error) (failed : Error)
      → e ≡ some failed
      → Kept (if ended then renewal_ends (stopped_state true e) else after_renew true e)
  renewed-Kept ended none failed q = absurd (ground (arith, q))
  renewed-Kept ended (some e) failed q =
      if_Kept ended _ _ (stopped_state-Owned e) (after_renew-Kept e)

  module _ (acquired : ℕ)
      (unresolved : (s : S) → (e : Error) × ((client.renew_lease none acquired s).0 ≡ some e)) where
    renew_round-Kept : (w : RenewWake) (s : S) → Kept (renew_round client acquired true w s).0
    unfolding renew_round
    renew_round-Kept stop_asked s = refl
    renew_round-Kept lease_ended s = ended_with-Owned (client.check_lease acquired s).0
    renew_round-Kept (renew_due ended) s =
        let (e, q) = unresolved s in renewed-Kept ended (client.renew_lease none acquired s).0 e q

    more-Owned :
        (next : RenewNext) (s : S) (more : Bool → Option ManualResult × S)
        → Kept next
        → OwnedEnd (more true)
        → OwnedEnd (renew_more client next s more)
    more-Owned (renewal_ends r) s more k l = k
    more-Owned (renews_again true) s more k l = l
    more-Owned (renews_again false) s more k l = absurd (ground (arith, k))

    -- Against a client that confirms no renewal, the renewal loop of a manual lock that has one
    -- unresolved ends, if at all, with a result that says so: it is pending, the release is
    -- suppressed, or the authority was lost.
    pub renew_loop-OwnedEnd :
        (wakes : List RenewWake) (s : S) → OwnedEnd (renew_loop client acquired true wakes s)
    unfolding renew_loop
    renew_loop-OwnedEnd [] s = tt
    renew_loop-OwnedEnd (w ∷ wakes) s =
        more-Owned (renew_round client acquired true w s).0 (renew_round client acquired true w s).1
          _ (renew_round-Kept w s)
          (renew_loop-OwnedEnd wakes (renew_round client acquired true w s).1)
