-- ===== src/Manifest/Fencing/Outcomes.antt =====
-- What a call of examples/fencedmanifest/manifest.go leaves behind, and how such facts are put together.
use s3_lease.Prelude.{◌≡◌, refl, Bool, true, false, String, Option, none, arith, if◌then◌else◌}
use s3_lease.Lease.Errors.{Result, ok, err}
use s3_lease.Lease.State.{Bytes}
use s3_lease.Lease.World.{StoredObject}
use s3_lease.Manifest.{ManifestRecord, WriterState, Format}
use s3_lease.Manifest.Records.{decode}
use s3_lease.Manifest.Writer.{ManifestStore, Site, with_pending, fetched, noted}
use s3_lease.Manifest.Fencing.{body_epoch, PendingOk, Kept, Grows-refl, Grows-trans}

-- The part of a result that is there.
abbrev pub Given : {A : Type 0} → (A → Type 0) → Result A → Type 0
Given P (ok a) = P a
Given P (err e) = Unit {0}

pub noted-pending :
    {S : Type 0} (format : Format) (outside : ManifestStore S) (w : WriterState)
    (object : StoredObject) (d : Result ManifestRecord)
    → (noted format outside w object d).1.pending ≡ w.pending
noted-pending format outside w object (err e) = refl
noted-pending format outside w object (ok r) = ground arith

pub fetched-pending :
    {S : Type 0} (format : Format) (outside : ManifestStore S) (w : WriterState)
    (reply : Result StoredObject)
    → (fetched format outside w reply).1.pending ≡ w.pending
fetched-pending format outside w (err e) = refl
fetched-pending format outside w (ok object) =
    noted-pending format outside w object (decode format object.body)

-- A record that is decoded has the epoch of its body.
pub decode-epoch :
    (format : Format) (body : Bytes) (r : ManifestRecord)
    → decode format body ≡ ok r
    → body_epoch format body ≡ r.accepted_epoch_id
unfolding decode
decode-epoch format body r e = ground arith

module _ {S : Type 0} (format : Format) (outside : ManifestStore S) (current : S → Option Bytes)
    (Denotes : S → String → Bytes → Type 0) where
  -- What a call leaves, whatever it returns.
  pub record Outcome {A : Type 0} (site : Site S) (r : A × Site S) : Type 0 where
    pub keeps : Kept format outside current Denotes site r.1

module _ {S : Type 0} {format : Format} {outside : ManifestStore S} {current : S → Option Bytes}
    {Denotes : S → String → Bytes → Type 0} where
  pub stays :
      (site : Site S)
      → PendingOk format outside current Denotes site.store site.writer.pending
      → Kept format outside current Denotes site site
  stays site h = record { grows = Grows-refl format outside current Denotes _; pending_ok = h }

  pub clears : (site : Site S) → Kept format outside current Denotes site (with_pending site none)
  clears site = record { grows = Grows-refl format outside current Denotes _; pending_ok = tt }

  pub followed :
      {a b c : Site S}
      → Kept format outside current Denotes a b
      → Kept format outside current Denotes b c
      → Kept format outside current Denotes a c
  followed k l = record {
    grows = Grows-trans format outside current Denotes k.grows l.grows;
    pending_ok = l.pending_ok;
  }

  pub leads :
      {A : Type 0} {site : Site S} (a : A) {site' : Site S}
      → Kept format outside current Denotes site site'
      → Outcome format outside current Denotes site (a, site')
  leads a k = record { keeps = k }

  -- Either way of a test.
  pub either :
      {A : Type 0} {site : Site S} (b : Bool) {x y : A × Site S}
      → Outcome format outside current Denotes site x
      → Outcome format outside current Denotes site y
      → Outcome format outside current Denotes site (if b then x else y)
  either true k l = k
  either false k l = l

  pub after :
      {A : Type 0} {a b : Site S} {r : A × Site S}
      → Kept format outside current Denotes a b
      → Outcome format outside current Denotes b r
      → Outcome format outside current Denotes a r
  after k l = record { keeps = followed k l.keeps }
