-- ===== src/Lease/Operations/ReadBack.antt =====
-- What one client writes, read by another: the records of lease/record.go through `encodeRecord`, the
-- store, `decodeRecord` and the end of `readCurrent` of lease/operations.go.
use s3_lease.Prelude.{
  ℕ, ◌<◌, ◌≡◌, refl, true, false, String, none, some, arith, inl, inr, str_eq, ◌==◌, subst, sym,
  ◌∙◌, ap,
}
use s3_lease.Lease.Errors.{Result, ok, err}
use s3_lease.Lease.Config.{Settings}
use s3_lease.Lease.Record.{
  Record, records_compatible, validate_record, acquisition_record, renewal_record, release_record,
}
use s3_lease.Lease.Record.Order.{compatible_iff}
use s3_lease.Lease.Reads.Observations.{Accepted, accepted}
use s3_lease.Lease.Record.Transitions.{
  Good, GoodSettings, Next, Outcome, acquisition_record_lem, renewal_record_lem, release_record_lem,
}
use s3_lease.Lease.State.{Bytes, Core, Observed}
use s3_lease.Lease.Reads.{found, install_read, accept_read}
use s3_lease.Lease.World.{StoredObject, Backend, decoded}
use s3_lease.Lease.Operations.{interpret, encode_record, decode_record}

-- The record that a client makes of the one before it.
pub data Written (previous next : Record) : Type 0 where
  acquires :
      (config : Settings) (now : ℕ)
      → GoodSettings config
      → 0 < now
      → acquisition_record previous config now ≡ ok next
      → Written previous next
  renews : (now : ℕ) → 0 < now → renewal_record previous now ≡ ok next → Written previous next
  releases : (now : ℕ) → 0 < now → release_record previous now ≡ ok next → Written previous next

abbrev record_or : Record → Result Record → Record
record_or r (ok s) = s
record_or r (err e) = r

encode-marshal :
    (result : Result Bytes) (body : Bytes) → encode_record result ≡ ok body → result ≡ ok body
unfolding encode_record
encode-marshal (ok b) body e = e
encode-marshal (err e) body k = cc

-- What is promised of the outcome of a transition holds of the record that it gives.
outcome-Next :
    {counter : ℕ} {result : Result Record} {P : Record → Type 0} {next : Record}
    → Outcome counter result P
    → result ≡ ok next
    → P next
outcome-Next {P} (inl (full, refused)) made = cc
outcome-Next {P} (inr (b, room, given, p)) made = subst P (ap (record_or b) (sym given ∙ made)) p

written-Next : (previous next : Record) → Good previous → Written previous next → Next previous next
written-Next previous next g (acquires config now s t made) =
    (outcome-Next (acquisition_record_lem config previous now s t g) made).0
written-Next previous next g (renews now t made) =
    (outcome-Next (renewal_record_lem previous now t g) made).0
written-Next previous next g (releases now t made) =
    (outcome-Next (release_record_lem previous now t g) made).0

same_number : (n : ℕ) → (n == n) ≡ true
same_number n = ground arith

-- What the store hands out of a write: its body, under the version that the write was given.
abbrev pub stored : Bytes → String → StoredObject
stored body version = record { body = body; version = version }

-- The end of `readCurrent` accepts a compatible record under a new version.
install-accepts :
    (c : Core) (o : Observed) (next : Record) (body : Bytes) (version : String) (read_at : ℕ)
    → c.terminal ≡ none
    → c.observed ≡ some o
    → records_compatible o.current next ≡ none
    → str_eq version o.version ≡ false
    → install_read c (some o.generation) read_at (found version body next)
      ≡ accept_read c read_at version body next read_at
unfolding install_read
install-accepts c o next body version read_at running seen follows new =
    ground (arith, running, seen, follows, new)

module _ {S : Type 0} (backend : Backend S) where
  interpret-written :
      (r : Record) (body : Bytes) (version : String)
      → validate_record r ≡ none
      → backend.unmarshal body ≡ decoded r
      → str_eq version "" ≡ false
      → interpret backend (ok (stored body version)) ≡ found version body r
  unfolding interpret decode_record
  interpret-written r body version valid back named = rw named (rw back (rw valid refl))

  -- A record that one client makes of a good one, encoded and written under a new version, is read
  -- back by every client that had observed the one before it: the same record becomes its
  -- observation, unchanged since that read. The JSON package reads back what it wrote.
  pub written-Accepted :
      (c : Core) (o : Observed) (next : Record) (body : Bytes) (version : String) (read_at : ℕ)
      → c.terminal ≡ none
      → c.observed ≡ some o
      → Good o.current
      → Written o.current next
      → encode_record (backend.marshal next) ≡ ok body
      → (backend.marshal next ≡ ok body → backend.unmarshal body ≡ decoded next)
      → str_eq version "" ≡ false
      → str_eq version o.version ≡ false
      → Accepted o version body next read_at
          (install_read c
            (some o.generation)
            read_at
            (interpret backend (ok (stored body version)))).1
  written-Accepted c o next body version read_at running seen g made encoded back named new =
      let k = written-Next o.current next g made in
      let reply =
        interpret-written next body version k.good.valid
          (back (encode-marshal (backend.marshal next) body encoded)) named in
      let f = (compatible_iff o.current next).0 k.follows in
      rw reply (
        subst (λ x. Accepted o version body next read_at x.1)
          (sym (install-accepts c o next body version read_at running seen k.follows new))
          (accepted c o read_at version body next read_at f (inr (new, refl))))
