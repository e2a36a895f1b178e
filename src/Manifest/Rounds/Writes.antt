-- ===== src/Manifest/Rounds/Writes.antt =====
-- How many requests a call of `mutate` of examples/fencedmanifest/manifest.go sends.
use s3_lease.Prelude.{
  ℕ, zero, suc, ◌≤◌, ◌+◌, ◌*◌, inl, inr, refl, arith, true, not, String, Option, none, some, str_eq,
  Bool-cases,
}
use s3_lease.Lease.Errors.{Error, Result, ok, err, error_is, not_found, sentinel, unknown_outcome}
use s3_lease.Lease.State.{Bytes}
use s3_lease.Manifest.{
  activate, same_operation, ManifestRecord, MutationRequest, Attempt, Format, Snapshot,
  max_mutation_attempts,
}
use s3_lease.Manifest.Records.{Prepared, already, refuses, writes, prepare_existing, encode}
use s3_lease.Manifest.Writer.{
  ManifestStore, Context, Site, with_pending, ambiguous_or_conflict, read,
}
use s3_lease.Manifest.Rounds.{
  Resolution, Round, done, again, resolve, after_send, attempt_of, send_encoded, propose,
  propose_initial, start, prepared_round, fresh_read, fresh, after_resolve, round_of, round_unless,
  round, exhausted, next_round, attempts, mutate, different_pending, with_busy, unlocked,
  ambiguous_pending,
}
use s3_lease.Manifest.Rounds.Resolving.{either}
use s3_lease.Manifest.Rounds.Counting.{
  Count, counted, Within, looser, a_read, Upto, Settled, send-Within, resolve_read-Settled,
}

module _ {S : Type 0} (format : Format) (outside : ManifestStore S) (w r : ℕ) where
  after_send-Upto :
      (x : Result Snapshot × Site (Count × S))
      → Within (suc w) r x.1.store.0
      → Upto (suc w) r (after_send format (counted outside) x)
  after_send-Upto (ok m, site) k = record { within = k }
  after_send-Upto (err e, site) k =
      either (Upto (suc w) r) (ambiguous_or_conflict e) (record { within = k })
        (record { within = k })

  ends : (x : Round × Site (Count × S)) → Within w r x.1.store.0 → Upto (suc w) r x
  ends x k = record { within = looser (omega arith) (omega arith) k }

  send_encoded-Upto :
      (request : MutationRequest) (m : ManifestRecord) (version : String) (body : Result Bytes)
      (site : Site (Count × S))
      → Within w r site.store.0
      → Upto (suc w) r (send_encoded format (counted outside) request m version body site)
  send_encoded-Upto request m version (err e) site k = ends _ k
  send_encoded-Upto request m version (ok body) site k =
      let p = attempt_of format (counted outside) request m version body in
      after_send-Upto _ (send-Within format outside w r p (with_pending site (some p)) k)

  propose-Upto :
      (request : MutationRequest) (m : ManifestRecord) (version : String) (site : Site (Count × S))
      → Within w r site.store.0
      → Upto (suc w) r (propose format (counted outside) request m version site)
  unfolding propose
  propose-Upto request m version site k =
      send_encoded-Upto request m version (encode format m) site k

  propose_initial-Upto :
      (request : MutationRequest) (bytes : Result Bytes) (site : Site (Count × S))
      → Within w r site.store.0
      → Upto (suc w) r (propose_initial format (counted outside) request bytes site)
  propose_initial-Upto request (err e) site k = ends _ k
  propose_initial-Upto request (ok bytes) site k = propose-Upto request _ "" site k

  start-Upto :
      (request : MutationRequest) (site : Site (Count × S))
      → Within w r site.store.0
      → Upto (suc w) r (start format (counted outside) request site)
  start-Upto request site k =
      let x = (counted outside).random site.store in
      either (Upto (suc w) r) (not (str_eq site.writer.resource_uid "")) (ends _ k) (
        either (Upto (suc w) r) (not (same_operation request.operation activate)) (ends _ k)
          (propose_initial-Upto request x.0 (record site { store = x.1 }) k))

  prepared_round-Upto :
      (request : MutationRequest) (m : ManifestRecord) (version : String) (prepared : Prepared)
      (site : Site (Count × S))
      → Within w r site.store.0
      → Upto (suc w) r (prepared_round format (counted outside) request m version prepared site)
  prepared_round-Upto request m version already site k = ends _ k
  prepared_round-Upto request m version (refuses e) site k = ends _ k
  prepared_round-Upto request m version writes site k = propose-Upto request _ version site k

  fresh_read-Upto :
      (request : MutationRequest) (reply : Result (ManifestRecord × String))
      (site : Site (Count × S))
      → Within w r site.store.0
      → Upto (suc w) r (fresh_read format (counted outside) request reply site)
  fresh_read-Upto request (err e) site k =
      either (Upto (suc w) r) (error_is e not_found) (start-Upto request site k) (ends _ k)
  fresh_read-Upto request (ok (m, version)) site k =
      prepared_round-Upto request m version (prepare_existing m request) site k

module _ {S : Type 0} (format : Format) (outside : ManifestStore S) (w r : ℕ) where
  fresh-Upto :
      (request : MutationRequest) (site : Site (Count × S))
      → Within w r site.store.0
      → Upto (suc w) (suc r) (fresh format (counted outside) request site)
  unfolding fresh read
  fresh-Upto request site k =
      fresh_read-Upto format outside w (suc r) request (read format (counted outside) site).0
        (read format (counted outside) site).1 (a_read k)

  resolve-Settled :
      (p : Attempt) (site : Site (Count × S))
      → Within w r site.store.0
      → Settled format outside w (suc r) (resolve format (counted outside) p site)
  unfolding resolve read
  resolve-Settled p site k =
      resolve_read-Settled format outside w (suc r) p _ (read format (counted outside) site).1
        (a_read k)

  -- One round: at most a write and two reads.
  abbrev OneRound : Round × Site (Count × S) → Type 0
  OneRound x = Upto (suc w) (suc (suc r)) x

  wider : (x : Round × Site (Count × S)) → Within (suc w) (suc r) x.1.store.0 → OneRound x
  wider x k = record { within = looser (omega arith) (omega arith) k }

  after_resolve-OneRound :
      (request : MutationRequest) (x : Result Resolution × Site (Count × S))
      → Settled format outside w (suc r) x
      → (Within w (suc r) x.1.store.0 → OneRound (fresh format (counted outside) request x.1))
      → OneRound (after_resolve format (counted outside) request x.0 x.1)
  after_resolve-OneRound request (err e, site) k l = wider _ k.bound
  after_resolve-OneRound request (ok x, site) k l = elim (Bool-cases x.resolved) [
    | inl q ↦ rw q (wider (done (ok x.result), site) k.bound)
    | inr u ↦ rw u (
        either (Upto (suc w) (suc (suc r))) (not x.rebase)
          (wider (again (sentinel unknown_outcome), site) k.bound) (l (k.free x refl u)))
  ]

module _ {S : Type 0} (format : Format) (outside : ManifestStore S)
    (request : MutationRequest) where
  round_of-Upto :
      (w r : ℕ) (pending : Option Attempt) (site : Site (Count × S))
      → Within w r site.store.0
      → Upto (suc w) (suc (suc r)) (round_of format (counted outside) request pending site)
  round_of-Upto w r none site k =
      wider format outside w r _ (fresh-Upto format outside w r request site k).within
  round_of-Upto w r (some p) site k =
      after_resolve-OneRound format outside w r request (resolve format (counted outside) p site)
        (resolve-Settled format outside w r p site k)
        (fresh-Upto format outside w (suc r) request _)

  round_unless-Upto :
      (w r : ℕ) (e : Option Error) (site : Site (Count × S))
      → Within w r site.store.0
      → Upto (suc w) (suc (suc r)) (round_unless format (counted outside) e request site)
  round_unless-Upto w r (some e) site k = record { within = looser (omega arith) (omega arith) k }
  round_unless-Upto w r none site k = round_of-Upto w r site.writer.pending site k

  next_round-Upto :
      (w r v q : ℕ) (x : Round × Site (Count × S)) (more : Result Snapshot × Site (Count × S))
      → w ≤ v
      → r ≤ q
      → Upto w r x
      → (Within w r x.1.store.0 → Upto v q more)
      → Upto v q (next_round format (counted outside) x.0 x.1 more)
  next_round-Upto w r v q (done y, site) more a b k l = record { within = looser a b k.within }
  next_round-Upto w r v q (again e, site) more a b k l = l k.within

  exhausted-Upto :
      (w r : ℕ) (site : Site (Count × S))
      → Within w r site.store.0
      → Upto w r (exhausted format (counted outside) site)
  unfolding exhausted
  exhausted-Upto w r site k =
      either (Upto w r) (ambiguous_pending site.writer.pending) (record { within = k })
        (record { within = k })

  attempts-Upto :
      (left w r v q : ℕ) (ctx : Context (Count × S)) (site : Site (Count × S))
      → w + left ≤ v
      → r + 2 * left ≤ q
      → Within w r site.store.0
      → Upto v q (attempts format (counted outside) left ctx request site)
  unfolding attempts round
  attempts-Upto zero w r v q ctx site a b k =
      exhausted-Upto v q site (looser (omega (arith, a)) (omega (arith, b)) k)
  attempts-Upto (suc left) w r v q ctx site a b k =
      let x = round format (counted outside) ctx request site in
      next_round-Upto (suc w) (suc (suc r)) v q x _ (omega (arith, a)) (omega (arith, b))
        (round_unless-Upto w r (ctx site.store) site k)
        (λ l.
          attempts-Upto left (suc w) (suc (suc r)) v q ctx x.1 (omega (arith, a)) (omega (arith, b))
            l)

  unlocked-Upto :
      (w r : ℕ) (x : Result Snapshot × Site (Count × S))
      → Upto w r x
      → Upto w r (unlocked format (counted outside) x)
  unlocked-Upto w r (y, site) k = record { within = k.within }

  -- Whatever the store replies, a mutation ends after at most eight writes and sixteen reads.
  pub mutate-Upto :
      (ctx : Context (Count × S)) (site : Site (Count × S))
      → Upto
          (site.store.0.writes_sent + 8)
          (site.store.0.reads_sent + 16)
          (mutate format (counted outside) (some ctx) request site)
  unfolding mutate
  mutate-Upto ctx site =
      let w = site.store.0.writes_sent in
      let r = site.store.0.reads_sent in
      let started = with_busy format (counted outside) true site in
      let nothing_sent : Within w r site.store.0 = record {
        few_writes = omega arith;
        few_reads = omega arith;
      } in
      let unsent : Within (w + 8) (r + 16) site.store.0 =
        looser (omega arith) (omega arith) nothing_sent in
      either (Upto (w + 8) (r + 16)) site.writer.busy (record { within = unsent })
        (either (Upto (w + 8) (r + 16))
          (different_pending format (counted outside) site.writer.pending request)
          (record { within = unsent })
          (unlocked-Upto (w + 8) (r + 16)
            (attempts format (counted outside) max_mutation_attempts ctx request started)
            (attempts-Upto max_mutation_attempts w r (w + 8) (r + 16) ctx started (omega arith)
              (omega arith) nothing_sent)))
