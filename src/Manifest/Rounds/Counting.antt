-- ===== src/Manifest/Rounds/Counting.antt =====
-- The requests that `resolvePending` of examples/fencedmanifest/manifest.go sends, counted.
use s3_lease.Prelude.{
  ℕ, suc, ◌≡◌, ◌≤◌, inl, inr, refl, sym, subst, ap, ◌∙◌, arith, false, String, ltb, str_eq,
  Bool-cases,
}
use s3_lease.Lease.Errors.{Error, Result, ok, err, error_is, not_found}
use s3_lease.Manifest.{ManifestRecord, Attempt, Format, Snapshot}
use s3_lease.Manifest.Records.{HistoryStatus, unseen, matched, conflicting}
use s3_lease.Manifest.Writer.{ManifestStore, Site, sent, write_attempt, send}
use s3_lease.Manifest.Rounds.{Resolution, resolve_read, resolve_status, give_up, as_resolution}
use s3_lease.Manifest.Rounds.Resolving.{either}

-- A store that counts the writes sent to it and the reads, beside the state of another.
pub record Count : Type 0 where
  pub writes_sent : ℕ
  pub reads_sent : ℕ

abbrev pub counted : {S : Type 0} → ManifestStore S → ManifestStore (Count × S)
counted outside = record {
  fetch = λ (c, s).
      let (reply, t) = outside.fetch s in (reply, (record c { reads_sent = suc c.reads_sent }, t));
  create = λ body (c, s).
      let (reply, t) = outside.create body s in
      (reply, (record c { writes_sent = suc c.writes_sent }, t));
  swap = λ version body (c, s).
      let (reply, t) = outside.swap version body s in
      (reply, (record c { writes_sent = suc c.writes_sent }, t));
  random = λ (c, s). let (reply, t) = outside.random s in (reply, (c, t));
}

abbrev pub one_write : Count → Count
one_write c = record c { writes_sent = suc c.writes_sent }

abbrev pub one_read : Count → Count
one_read c = record c { reads_sent = suc c.reads_sent }

-- At most so many writes and reads were sent.
pub record Within (w r : ℕ) (c : Count) : Type 0 where
  pub few_writes : c.writes_sent ≤ w
  pub few_reads : c.reads_sent ≤ r

pub looser : {w r v q : ℕ} {c : Count} → w ≤ v → r ≤ q → Within w r c → Within v q c
looser a b k = record {
  few_writes = (let h = k.few_writes in omega (arith, h, a));
  few_reads = (let h = k.few_reads in omega (arith, h, b));
}

pub written : {w r : ℕ} {c : Count} → Within w r c → Within (suc w) r (one_write c)
written k = record {
  few_writes = (let h = k.few_writes in omega (arith, h));
  few_reads = k.few_reads;
}

pub a_read : {w r : ℕ} {c : Count} → Within w r c → Within w (suc r) (one_read c)
a_read k = record {
  few_writes = k.few_writes;
  few_reads = (let h = k.few_reads in omega (arith, h));
}

-- After `x` the site is within the bounds.
pub record Upto (w r : ℕ) {S A : Type 0} (x : A × Site (Count × S)) : Type 0 where
  pub within : Within w r x.1.store.0

module _ {S : Type 0} (format : Format) (outside : ManifestStore S) (w r : ℕ) where
  -- What resolving has sent: at most one write, and none where more of the round follows.
  pub record Settled (x : Result Resolution × Site (Count × S)) : Type 0 where
    pub bound : Within (suc w) r x.1.store.0
    pub free : (y : Resolution) → x.0 ≡ ok y → y.resolved ≡ false → Within w r x.1.store.0

  stays : (x : Result Resolution × Site (Count × S)) → Within w r x.1.store.0 → Settled x
  stays x k = record { bound = looser (omega arith) (omega arith) k; free = λ y e u. k }

  sent-count :
      (p : Attempt) (reply : Result String) (site : Site (Count × S))
      → (sent format (counted outside) p reply site).1.store ≡ site.store
  sent-count p (ok version) site = refl
  sent-count p (err e) site = refl

  write-count :
      (p : Attempt) (store : Count × S)
      → (write_attempt format (counted outside) p store).1.0 ≡ one_write store.0
  write-count p store = elim (Bool-cases p.create) [ inl q ↦ rw q refl | inr q ↦ rw q refl ]

  pub send-Within :
      (p : Attempt) (site : Site (Count × S))
      → Within w r site.store.0
      → Within (suc w) r (send format (counted outside) p site).1.store.0
  unfolding send
  send-Within p site k =
      let x = write_attempt format (counted outside) p site.store in
      subst (Within (suc w) r)
        (sym (
          ap (λ s. s.0) (sent-count p x.0 (record site { store = x.1 }))
          ∙ write-count p site.store))
        (written k)

  resent-Settled :
      (x : Result Snapshot × Site (Count × S))
      → Within (suc w) r x.1.store.0
      → Settled (as_resolution format (counted outside) x)
  resent-Settled (ok m, site) k = record { bound = k; free = λ y e u. ground (arith, e, u) }
  resent-Settled (err e, site) k = record { bound = k; free = λ y q u. ground (arith, q) }

  resend-Settled :
      (p : Attempt) (site : Site (Count × S))
      → Within w r site.store.0
      → Settled (as_resolution format (counted outside) (send format (counted outside) p site))
  resend-Settled p site k = resent-Settled _ (send-Within p site k)

  give_up-Settled :
      (p : Attempt) (e : Error) (site : Site (Count × S))
      → Within w r site.store.0
      → Settled (give_up format (counted outside) p e site)
  give_up-Settled p e site k = either Settled p.ambiguous (stays _ k) (stays _ k)

  resolve_status-Settled :
      (p : Attempt) (m : ManifestRecord) (version : String) (status : HistoryStatus)
      (site : Site (Count × S))
      → Within w r site.store.0
      → Settled (resolve_status format (counted outside) p m version status site)
  resolve_status-Settled p m version matched site k = stays _ k
  resolve_status-Settled p m version conflicting site k = give_up-Settled p _ site k
  resolve_status-Settled p m version unseen site k =
      either Settled (ltb p.request.epoch_id m.accepted_epoch_id) (give_up-Settled p _ site k) (
        either Settled (str_eq version p.expected) (resend-Settled p site k)
          (either Settled p.ambiguous (stays _ k) (stays _ k)))

  pub resolve_read-Settled :
      (p : Attempt) (reply : Result (ManifestRecord × String)) (site : Site (Count × S))
      → Within w r site.store.0
      → Settled (resolve_read format (counted outside) p reply site)
  resolve_read-Settled p (ok (m, version)) site k = resolve_status-Settled p m version _ site k
  resolve_read-Settled p (err e) site k =
      either Settled (error_is e not_found)
        (either Settled p.create (resend-Settled p site k) (give_up-Settled p _ site k))
        (either Settled p.ambiguous (stays _ k) (stays _ k))
