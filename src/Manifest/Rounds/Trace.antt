-- ===== src/Manifest/Rounds/Trace.antt =====
-- The requests of the writer of examples/fencedmanifest/manifest.go, and the reply of each.
use s3_lease.Prelude.{
  ◌≡◌, ◌⊎◌, inl, inr, refl, ap, arith, String, Option, none, some, List, ◌∷◌, Bool-cases,
}
use s3_lease.Lease.Errors.{Result, ok, err}
use s3_lease.Lease.State.{Bytes}
use s3_lease.Lease.World.{StoredObject}
use s3_lease.Manifest.{ManifestRecord, Attempt, Format, Snapshot, WriterState}
use s3_lease.Manifest.Records.{snapshot, encode, decode}
use s3_lease.Manifest.Writer.{ManifestStore, Site, noted, fetched, read, write_attempt}

-- A read, or a write of a body: a creation, or a swap of the version that is expected.
pub data Event : Type 0 where
  got : Result StoredObject → Event
  wrote : (expected : Option String) → Bytes → Result String → Event

abbrev pub Traced : Type 0 → Type 0
Traced S = List Event × S

-- A store with the requests so far, the newest first.
abbrev pub traced : {S : Type 0} → ManifestStore S → ManifestStore (Traced S)
traced outside = record {
  fetch = λ (log, s). let (reply, t) = outside.fetch s in (reply, (got reply ∷ log, t));
  create = λ body (log, s).
      let (reply, t) = outside.create body s in (reply, (wrote none body reply ∷ log, t));
  swap = λ version body (log, s).
      let (reply, t) = outside.swap version body s in
      (reply, (wrote (some version) body reply ∷ log, t));
  random = λ (log, s). let (reply, t) = outside.random s in (reply, (log, t));
}

-- The newest request read an object whose manifest this is.
pub record ReadLast (format : Format) (m : Snapshot) (log : List Event) : Type 0 where
  pub object : StoredObject
  pub older : List Event
  pub newest : log ≡ got (ok object) ∷ older
  pub manifest : ManifestRecord
  pub is_body : decode format object.body ≡ ok manifest
  pub is_result : snapshot manifest ≡ m

-- The newest request wrote a body that encodes this manifest, and the store accepted it.
pub record WrittenLast (format : Format) (m : Snapshot) (log : List Event) : Type 0 where
  pub expected : Option String
  pub body : Bytes
  pub version : String
  pub older : List Event
  pub newest : log ≡ wrote expected body (ok version) ∷ older
  pub manifest : ManifestRecord
  pub is_body : encode format manifest ≡ ok body
  pub is_result : snapshot manifest ≡ m

abbrev pub Confirmed : Format → Snapshot → List Event → Type 0
Confirmed format m log = ReadLast format m log ⊎ WrittenLast format m log

-- The body of an attempt is its result, encoded.
pub record Encoded (format : Format) (p : Attempt) : Type 0 where
  pub manifest : ManifestRecord
  pub is_body : encode format manifest ≡ ok p.body
  pub is_result : snapshot manifest ≡ p.result

-- What a read that gave a record has shown.
abbrev pub Shown : Format → Result (ManifestRecord × String) → List Event → Type 0
Shown format (ok (r, version)) log = Confirmed format (snapshot r) log
Shown format (err e) log = Unit {0}

module _ {S : Type 0} (format : Format) (outside : ManifestStore S) where
  noted-Shown :
      (w : WriterState) (object : StoredObject) (d : Result ManifestRecord) (older : List Event)
      → decode format object.body ≡ d
      → Shown format (noted format (traced outside) w object d).0 (got (ok object) ∷ older)
  noted-Shown w object (err e) older k = tt
  noted-Shown w object (ok r) older k =
      let shown : Confirmed format (snapshot r) (got (ok object) ∷ older) = inl (record {
        object = object;
        older = older;
        newest = refl;
        manifest = r;
        is_body = k;
        is_result = refl;
      }) in
      ground (arith, shown)

  fetched-Shown :
      (w : WriterState) (reply : Result StoredObject) (older : List Event)
      → Shown format (fetched format (traced outside) w reply).0 (got reply ∷ older)
  fetched-Shown w (err e) older = tt
  fetched-Shown w (ok object) older = noted-Shown w object (decode format object.body) older refl

  pub read-Shown :
      (site : Site (Traced S))
      → Shown format
          (read format (traced outside) site).0
          (read format (traced outside) site).1.store.0
  unfolding read
  read-Shown site = fetched-Shown site.writer (outside.fetch site.store.1).0 site.store.0

  -- The reply of a write that was accepted, as the newest in the log.
  pub write-Confirmed :
      (p : Attempt) (s : Traced S) (version : String)
      → Encoded format p
      → (write_attempt format (traced outside) p s).0 ≡ ok version
      → Confirmed format p.result (write_attempt format (traced outside) p s).1.0
  write-Confirmed p s version k e = elim (Bool-cases p.create) [
    | inl creates ↦
        let reply : (outside.create p.body s.1).0 ≡ ok version = ground (arith, creates, e) in
        inr (record {
          expected = none;
          body = p.body;
          version = version;
          older = s.0;
          newest = rw creates (ap (λ r. wrote none p.body r ∷ s.0) reply);
          manifest = k.manifest;
          is_body = k.is_body;
          is_result = k.is_result;
        })
    | inr swaps ↦
        let reply : (outside.swap p.expected p.body s.1).0 ≡ ok version =
          ground (arith, swaps, e) in
        inr (record {
          expected = some p.expected;
          body = p.body;
          version = version;
          older = s.0;
          newest = rw swaps (ap (λ r. wrote (some p.expected) p.body r ∷ s.0) reply);
          manifest = k.manifest;
          is_body = k.is_body;
          is_result = k.is_result;
        })
  ]
