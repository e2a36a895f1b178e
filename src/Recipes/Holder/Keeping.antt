-- ===== src/Recipes/Holder/Keeping.antt =====
-- What the end of `Run` of recipes/internal/holder/holder.go keeps of the world outside: all that the
-- calls of the client and the waits keep.
use s3_lease.Prelude.{
  not, ◌||◌, Bool-cases, inl, inr, ℕ, zero, suc, Bool, true, false, Option, none, some,
  if◌then◌else◌,
}
use s3_lease.Lease.Errors.{Error, Sentinel}
use s3_lease.Recipes.Client.{RecipeClient}
use s3_lease.Recipes.Acquire.Keeping.{Kept}
use s3_lease.Recipes.Holder.{Policy, StopCause, Holding}
use s3_lease.Recipes.Holder.Shutdown.{
  Waits, may_release, with_work, RenewalEnd, expired, release_tries, checked_end, checking_end,
  reconciled_end, renewal_ended, work_ended, shutdown,
}

-- The client's calls keep `P`.
pub record ClientKeeps {S : Type 0} (client : RecipeClient S) (P : S → Type 0) : Type 0 where
  pub renews : (limit : Option ℕ) (h : ℕ) (s : S) → P s → Kept P (client.renew_lease limit h s)
  pub releases : (limit : Option ℕ) (h : ℕ) (s : S) → P s → Kept P (client.release_lease limit h s)
  pub checks : (h : ℕ) (s : S) → P s → Kept P (client.check_lease h s)

if-Kept :
    {S A : Type 0} (P : S → Type 0) (b : Bool) (x y : A × S)
    → Kept P x
    → Kept P y
    → Kept P (if b then x else y)
if-Kept P true x y k l = k
if-Kept P false x y k l = l

module _ {S : Type 0} (client : RecipeClient S) (policy : Policy) (acquired deadline : ℕ)
    (P : S → Type 0) (keeps : ClientKeeps client P) where
  release_tries-Kept :
      (left : ℕ) (x : Option Error × S)
      → Kept P x
      → Kept P (release_tries client policy acquired deadline left x)
  unfolding release_tries
  release_tries-Kept zero (e, s) k = k
  release_tries-Kept (suc left) (e, s) k =
      if-Kept P _ _ (e, s) (release_tries-Kept left _ (keeps.releases (some deadline) acquired s k))
        k

  checked_end-Kept :
      (primary renewal_error e : Option Error) (s : S)
      → P s
      → Kept P (checked_end client policy acquired deadline primary renewal_error e s)
  checked_end-Kept primary renewal_error (some e) s k = k
  checked_end-Kept primary renewal_error none s k =
      release_tries-Kept 2 _ (keeps.releases (some deadline) acquired s k)

  checking_end-Kept :
      (primary renewal_error : Option Error) (s : S)
      → P s
      → Kept P (checking_end client policy acquired deadline primary renewal_error s)
  checking_end-Kept primary renewal_error s k =
      checked_end-Kept primary renewal_error _ _ (keeps.checks acquired s k)

  reconciled_end-Kept :
      (primary renewal_error : Option Error) (x : Option Error × S)
      → Kept P x
      → Kept P (reconciled_end client policy acquired deadline primary renewal_error x)
  reconciled_end-Kept primary renewal_error (some e, s) k = k
  reconciled_end-Kept primary renewal_error (none, s) k = checking_end-Kept primary none s k

  renewal_ended-Kept :
      (cause : StopCause) (primary : Option Error) (r : RenewalEnd) (s : S)
      → P s
      → Kept P (renewal_ended client policy acquired deadline cause primary r s)
  renewal_ended-Kept cause primary r s k =
      elim (Bool-cases (not (may_release policy cause) || r.suppressed)) [
        | inl barred ↦ rw barred k
        | inr wanted ↦ elim (Bool-cases (expired client policy acquired deadline s)) [
          | inl late ↦ rw wanted (rw late k)
          | inr early ↦ elim (Bool-cases r.pending) [
            | inl p ↦ rw wanted (
                rw early (
                  rw p (
                    reconciled_end-Kept primary r.error _
                      (keeps.renews (some deadline) acquired s k))))
            | inr p ↦ rw wanted (rw early (rw p (checking_end-Kept primary r.error s k)))
          ]
        ]
      ]

  work_ended-Kept :
      (context : Option Sentinel) (cause : StopCause) (primary : Option Error)
      (work : Option (Option Error)) (waits : Waits S) (h : Holding) (s : S)
      → P s
      → P (waits.meanwhile s)
      → Kept P (work_ended client policy acquired deadline context cause primary work waits h s)
  work_ended-Kept context cause primary none waits h s k l = k
  work_ended-Kept context cause primary (some e) waits h s k l =
      renewal_ended-Kept cause (with_work context cause e primary) _ (waits.meanwhile s) l

  pub shutdown-Kept :
      (context : Option Sentinel) (cause : StopCause) (primary : Option Error) (waits : Waits S)
      (h : Holding) (s : S)
      → P s
      → P (waits.meanwhile s)
      → Kept P (shutdown client policy acquired deadline context cause primary waits h s)
  unfolding shutdown
  shutdown-Kept context cause primary waits h s k l =
      work_ended-Kept context cause primary _ waits h s k l
