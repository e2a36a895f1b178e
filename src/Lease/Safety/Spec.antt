-- ===== src/Lease/Safety/Spec.antt =====
-- What a client of lease/api.go promises of its leases, without records, proposals or requests: who
-- holds the authority, until when, and how that may change.
use s3_lease.Prelude.{
  ℕ, suc, ◌<◌, ◌≡◌, String, Bool, true, false, ◌&&◌, Option, none, some, ltb, ◌==◌,
}

-- A lease that has authority: the how-manieth it is, for whom, and its deadline.
pub record Tenure : Type 0 where
  pub number : ℕ
  pub lease_uid : String
  pub client_id : String
  pub epoch_id : ℕ
  pub deadline : ℕ

-- How many leases were granted, which has authority, and whether the client has failed for good.
pub record Mandate : Type 0 where
  pub granted : ℕ
  pub holder : Option Tenure
  pub closed : Bool

-- How a mandate may change: it begins with the next number while nobody holds it, its deadline moves
-- to a later time than the present, it ends, or a client that fails for good has none.
pub data Turn (a b : Mandate) : Type 0 where
  stays : b.granted ≡ a.granted → b.holder ≡ a.holder → b.closed ≡ a.closed → Turn a b
  begins :
      (t : Tenure)
      → a.holder ≡ none
      → a.closed ≡ false
      → t.number ≡ a.granted
      → b.granted ≡ suc a.granted
      → b.holder ≡ some t
      → b.closed ≡ false
      → Turn a b
  extends :
      (t : Tenure) (now deadline : ℕ)
      → now < deadline
      → a.holder ≡ some t
      → b.granted ≡ a.granted
      → b.holder ≡ some (record t { deadline = deadline })
      → b.closed ≡ a.closed
      → Turn a b
  ends : b.granted ≡ a.granted → b.holder ≡ none → b.closed ≡ a.closed → Turn a b
  closes : b.granted ≡ a.granted → b.holder ≡ none → b.closed ≡ true → Turn a b

pub data Turns (a : Mandate) : Mandate → Type 0 where
  no_turn : Turns a a
  then_turn : {b c : Mandate} → Turns a b → Turn b c → Turns a c

pub Turns-trans : {a b c : Mandate} → Turns a b → Turns b c → Turns a c
Turns-trans p no_turn = p
Turns-trans p (then_turn q t) = then_turn (Turns-trans p q) t

abbrev pub in_time : Option Tenure → ℕ → ℕ → Bool
in_time none i now = false
in_time (some t) i now = t.number == i && ltb now t.deadline

-- Whether the lease with a number may act at a time.
unfoldable pub may_act : Mandate → ℕ → ℕ → Bool
may_act a i now = in_time a.holder i now
