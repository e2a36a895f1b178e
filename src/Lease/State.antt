-- ===== src/Lease/State.antt =====
-- The state of one `core` of lease/core.go, and the functions that retire a lease. What stands
-- under `stateMu` is a function of the core and of the clock's reading. A `*Lease` is an index into
-- the core's leases; the pointers to an observation and to a proposal, which the code compares, are
-- the numbers `generation` and `serial`.
use s3_lease.Prelude.{
  ℕ, ◌+◌, Bool, true, false, ◌&&◌, ◌||◌, not, String, Option, none, some, List, ltb, ◌==◌, is_some,
  or_else, if◌then◌else◌,
}
use s3_lease.Lease.Errors.{Error, sentinel, invalid_lease, lease_expired, ownership_lost}
use s3_lease.Lease.Config.{Settings}
use s3_lease.Lease.Record.{Record}

abbrev pub Bytes : Type 0
Bytes = List ℕ

pub data ProposalKind : Type 0 where
  acquire renew release : ProposalKind

abbrev pub is_renew : ProposalKind → Bool
is_renew renew = true
is_renew _ = false

abbrev pub same_kind : ProposalKind → ProposalKind → Bool
same_kind acquire acquire = true
same_kind renew renew = true
same_kind release release = true
same_kind _ _ = false

-- `stopTimer` is the reading of the clock at which the timer is due, while it is armed.
pub record Lease : Type 0 where
  pub lease_uid : String
  pub client_id : String
  pub epoch_id : ℕ
  pub sequence_id : ℕ
  pub valid_until : ℕ
  pub done_closed : Bool
  pub retired : Option Error
  pub timer : Option ℕ

pub record Observed : Type 0 where
  pub generation : ℕ
  pub current : Record
  pub body : Bytes
  pub version : String
  pub unchanged_since : ℕ
  pub last_read_at : ℕ

-- The `acquired` of an acquisition is nil in the source, and never read.
pub record Proposal : Type 0 where
  pub serial : ℕ
  pub kind : ProposalKind
  pub acquired : ℕ
  pub proposed : Record
  pub body : Bytes
  pub expected : String
  pub first_send_at : ℕ
  pub authority_ends : ℕ

pub record Core : Type 0 where
  pub config : Settings
  pub identity : ℕ
  pub mutating : Bool  -- `mutationMu` is held
  pub observed : Option Observed
  pub active : Option ℕ
  pub pending : Option Proposal
  pub terminal : Option Error
  pub leases : ℕ → Lease
  pub next_lease : ℕ
  pub next_generation : ℕ
  pub next_serial : ℕ

abbrev no_lease : Lease
no_lease = record {
  lease_uid = "";
  client_id = "";
  epoch_id = 0;
  sequence_id = 0;
  valid_until = 0;
  done_closed = false;
  retired = none;
  timer = none;
}

-- The core that `New` returns for a valid configuration.
unfoldable pub new_core : Settings → ℕ → Core
new_core config identity = record {
  config = config;
  identity = identity;
  mutating = false;
  observed = none;
  active = none;
  pending = none;
  terminal = none;
  leases = λ _. no_lease;
  next_lease = 0;
  next_generation = 0;
  next_serial = 0;
}

abbrev pub update {ℓ} : {A : Type ℓ} → (ℕ → A) → ℕ → A → ℕ → A
update f i a j = if i == j then a else f j

-- `c.active == acquired`
abbrev pub active_is : Option ℕ → ℕ → Bool
active_is none i = false
active_is (some j) i = j == i

-- `c.pending == pending`
abbrev pub pending_is : Option Proposal → Proposal → Bool
pending_is none p = false
pending_is (some q) p = q.serial == p.serial

unfoldable pub retire_lease : Core → ℕ → Error → Core
retire_lease c i cause = if is_some (c.leases i).retired then c else record c {
  leases =
      update c.leases i
        (record (c.leases i) { done_closed = true; retired = some cause; timer = none });
  active = if active_is c.active i then none else c.active;
}

-- `installTimerLocked`; the timer is due at the lease's deadline.
unfoldable pub install_timer : Core → ℕ → Core
install_timer c i = record c {
  leases = update c.leases i (record (c.leases i) { timer = some (c.leases i).valid_until });
}

-- The callback that `installTimerLocked` schedules. A timer that was stopped may still have begun
-- its callback, so this may run at any time.
unfoldable pub timer_fired : Core → ℕ → ℕ → Core
timer_fired c i now =
    if active_is c.active i
      && not (is_some (c.leases i).retired)
      && not (ltb now (c.leases i).valid_until)
    then retire_lease c i (sentinel lease_expired)
    else c

-- `(*Lease).Check` of a lease of this core; the first component is the error, or nil.
unfoldable pub check : Core → ℕ → ℕ → Option Error × Core
check c i now =
    or_else (c.leases i).retired
      (if not (active_is c.active i)
        then (some (sentinel invalid_lease), c)
        else if not (ltb now (c.leases i).valid_until)
        then (some (sentinel lease_expired), retire_lease c i (sentinel lease_expired))
        else (none, c))
      (λ cause. (some cause, c))

abbrev pub retire_active : Core → Option ℕ → Error → Core
retire_active c none cause = c
retire_active c (some i) cause = retire_lease c i cause

-- `setTerminalLocked`
unfoldable pub set_terminal : Core → Error → Error × Core
set_terminal c e =
    or_else c.terminal
      (e, retire_active (record c { terminal = some e }) c.active (sentinel ownership_lost))
      (λ latched. (latched, c))

unfoldable pub proposal_phase_end : Core → Proposal → ℕ
proposal_phase_end c p =
    let proposal_end = p.first_send_at + c.config.renew_deadline in
    if p.authority_ends == 0 || ltb proposal_end p.authority_ends
    then proposal_end
    else p.authority_ends
