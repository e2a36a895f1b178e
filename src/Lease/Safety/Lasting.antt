-- ===== src/Lease/Safety/Lasting.antt =====
-- What outlasts every change of a core: the end of a lease, its identity, and a terminal error.
use s3_lease.Prelude.{ℕ, ◌<◌, ◌≡◌, refl, String, some, arith}
use s3_lease.Lease.Errors.{Error}
use s3_lease.Lease.State.{Lease, Core, retire_lease, install_timer}
use s3_lease.Lease.Reads.{observe_record}
use s3_lease.Lease.Proposals.{grant, set_pending, extend_lease}
use s3_lease.Lease.Safety.Quiet.{Quiet, rest, retires, observes, latches}
use s3_lease.Lease.Safety.Changes.{
  Change, same, quietly, locked, dropped, frozen, granted, extended,
}

-- Which grant a lease stands for.
abbrev pub grant_of : Lease → String × String × ℕ
grant_of l = (l.lease_uid, l.client_id, l.epoch_id)

Quiet-retired :
    {c d : Core}
    → Quiet c d
    → (i : ℕ) (e : Error) → (c.leases i).retired ≡ some e
    → (d.leases i).retired ≡ some e
unfolding retire_lease observe_record
Quiet-retired rest i e h = h
Quiet-retired (retires j cause q) i e h = ground (arith, Quiet-retired q i e h)
Quiet-retired (observes r body version since at q) i e h = Quiet-retired q i e h
Quiet-retired (latches t k q) i e h = ground (arith, Quiet-retired q i e h)

Quiet-terminal : {c d : Core} → Quiet c d → (e : Error) → c.terminal ≡ some e → d.terminal ≡ some e
unfolding retire_lease observe_record
Quiet-terminal rest e h = h
Quiet-terminal (retires j cause q) e h = ground (arith, Quiet-terminal q e h)
Quiet-terminal (observes r body version since at q) e h = Quiet-terminal q e h
Quiet-terminal (latches t k q) e h = ground (arith, Quiet-terminal q e h)

Quiet-leases :
    {c d : Core}
    → Quiet c d
    → (i : ℕ) → (d.next_lease ≡ c.next_lease) × (grant_of (d.leases i) ≡ grant_of (c.leases i))
unfolding retire_lease observe_record
Quiet-leases rest i = (refl, refl)
Quiet-leases (retires j cause q) i = ground (arith, Quiet-leases q i)
Quiet-leases (observes r body version since at q) i = Quiet-leases q i
Quiet-leases (latches t k q) i = ground (arith, Quiet-leases q i)

-- A lease that was granted keeps its identity.
pub Change-leases :
    {c d : Core}
    → Change c d
    → (i : ℕ) → i < c.next_lease
    → (i < d.next_lease) × (grant_of (d.leases i) ≡ grant_of (c.leases i))
unfolding set_pending grant extend_lease install_timer observe_record
Change-leases same i h = (h, refl)
Change-leases (quietly q k) i h = ground (arith, Change-leases k i h, Quiet-leases q i)
Change-leases (locked b k) i h = Change-leases k i h
Change-leases (dropped k) i h = Change-leases k i h
Change-leases (frozen p k) i h = Change-leases k i h
Change-leases (granted p v t a b k) i h = ground (arith, Change-leases k i h)
Change-leases (extended p v n s k) i h = ground (arith, Change-leases k i h)

-- A retired lease stays retired, with the cause that it retired for.
pub Change-retired :
    {c d : Core}
    → Change c d
    → (i : ℕ) (e : Error) → i < c.next_lease
    → (c.leases i).retired ≡ some e
    → (d.leases i).retired ≡ some e
unfolding set_pending grant extend_lease install_timer observe_record
Change-retired same i e h r = r
Change-retired (quietly q k) i e h r = Quiet-retired q i e (Change-retired k i e h r)
Change-retired (locked b k) i e h r = Change-retired k i e h r
Change-retired (dropped k) i e h r = Change-retired k i e h r
Change-retired (frozen p k) i e h r = Change-retired k i e h r
Change-retired (granted p v t a b k) i e h r =
    ground (arith, Change-retired k i e h r, Change-leases k i h)
Change-retired (extended p v n s k) i e h r = ground (arith, Change-retired k i e h r)

-- The first terminal error is the last.
pub Change-terminal :
    {c d : Core} → Change c d → (e : Error) → c.terminal ≡ some e → d.terminal ≡ some e
unfolding set_pending grant extend_lease install_timer observe_record
Change-terminal same e h = h
Change-terminal (quietly q k) e h = Quiet-terminal q e (Change-terminal k e h)
Change-terminal (locked b k) e h = Change-terminal k e h
Change-terminal (dropped k) e h = Change-terminal k e h
Change-terminal (frozen p k) e h = Change-terminal k e h
Change-terminal (granted p v t a b k) e h = Change-terminal k e h
Change-terminal (extended p v n s k) e h = Change-terminal k e h
