-- ===== src/Recipes/Client.antt =====
-- What the recipes call of `lease.Client` and `lease.Lease` (lease/api.go, lease/core.go), over a state
-- of the world outside; the handle of a lease is a number.
use s3_lease.Prelude.{ℕ, Bool, Option, ◌||◌}
use s3_lease.Lease.Errors.{
  Error, Result, error_is, unavailable, deadline_exceeded, lease_expired, lease_retired,
  ownership_lost, invalid_lease,
}

-- Each call is made under a context that ends at a deadline, where it has one.
pub record RecipeClient (S : Type 0) : Type 0 where
  pub require_lease : S → Result ℕ × S
  pub renew_lease : Option ℕ → ℕ → S → Option Error × S
  pub release_lease : Option ℕ → ℕ → S → Option Error × S
  pub check_lease : ℕ → S → Option Error × S
  pub valid_until : ℕ → S → ℕ
  pub now : S → ℕ

-- `retryable` of the holder, and `manualRenewalRetryable`
unfoldable pub renewal_retryable : Error → Bool
unfolding error_is
renewal_retryable e = error_is e unavailable || error_is e deadline_exceeded

-- `isLeaseLoss`, and `isManualLeaseLoss`
unfoldable pub is_lease_loss : Error → Bool
unfolding error_is
is_lease_loss e =
    error_is e lease_expired
    || error_is e lease_retired
    || error_is e ownership_lost
    || error_is e invalid_lease
