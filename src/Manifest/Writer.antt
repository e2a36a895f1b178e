-- ===== src/Manifest/Writer.antt =====
-- The `Writer` of examples/fencedmanifest/manifest.go: its state, how it reads and how it sends.
-- Each function is one of the writer and of the world outside; of a call that fails the source also
-- returns an empty manifest or the current one, which is left out.
use s3_lease.Prelude.{
  Bool, true, false, ◌&&◌, ◌||◌, not, String, Option, none, some, List, [], ltb, ◌==◌, str_eq,
  if◌then◌else◌,
}
use s3_lease.Lease.Errors.{
  Error, sentinel, annotated, conflict, invalid_config, resource_changed, resource_rolled_back,
  error_is, is_unknown_write, Result, ok, err,
}
use s3_lease.Lease.Config.{Interface, Key, is_nil_interface, is_blank}
use s3_lease.Lease.State.{Bytes}
use s3_lease.Lease.World.{StoredObject}
use s3_lease.Manifest.{Snapshot, ManifestRecord, Attempt, WriterState, Format}
use s3_lease.Manifest.Records.{decode}

-- The lease store and the random source over the state `S` of the world outside. The error of the
-- context depends on the time, which is part of that state.
pub record ManifestStore (S : Type 0) : Type 0 where
  pub fetch : S → Result StoredObject × S
  pub create : Bytes → S → Result String × S
  pub swap : String → Bytes → S → Result String × S
  pub random : S → Result Bytes × S

abbrev pub Context : Type 0 → Type 0
Context S = S → Option Error

pub record Site (S : Type 0) : Type 0 where
  pub writer : WriterState
  pub store : S

abbrev pub zero_state : WriterState
zero_state = record {
  busy = false;
  resource_uid = "";
  last_epoch = 0;
  last_revision = 0;
  last_digest = [];
  pending = none;
}

-- `NewWriter`
unfoldable pub new_writer : Interface → Key → Result WriterState
unfolding is_nil_interface
new_writer store key =
    if is_nil_interface store
    then err (annotated (sentinel invalid_config))
    else if is_blank key.bucket || str_eq key.object_key ""
    then err (annotated (sentinel invalid_config))
    else ok zero_state

abbrev pub with_pending : {S : Type 0} → Site S → Option Attempt → Site S
with_pending site pending = record site { writer = record site.writer { pending = pending } }

abbrev pub same_bytes : Bytes → Bytes → Bool
same_bytes [] [] = true
same_bytes (List.◌∷◌ a xs) (List.◌∷◌ b ys) = a == b && same_bytes xs ys
same_bytes _ _ = false

-- `ambiguousOrConflict`
unfoldable pub ambiguous_or_conflict : Error → Bool
ambiguous_or_conflict e = is_unknown_write e || error_is e conflict

module _ {S : Type 0} (format : Format) (outside : ManifestStore S) where
  -- ------------------------------------------------------------------ reading

  abbrev pub rolled_back : WriterState → ManifestRecord → Bytes → Bool
  rolled_back w r digest =
      ltb r.accepted_epoch_id w.last_epoch
      || ltb r.revision w.last_revision
      || r.revision == w.last_revision
        && not (w.last_revision == 0)
        && not (same_bytes digest w.last_digest)

  abbrev pub noted :
      WriterState
      → StoredObject
      → Result ManifestRecord
      → Result (ManifestRecord × String) × WriterState
  noted w object (err e) = (err e, w)
  noted w object (ok r) =
      if not (str_eq w.resource_uid "") && not (str_eq w.resource_uid r.resource_uid)
      then (err (sentinel resource_changed), w)
      else if rolled_back w r (format.sha256 object.body)
      then (err (sentinel resource_rolled_back), w)
      else (
        ok (r, object.version),
        record w {
          resource_uid = r.resource_uid;
          last_epoch = r.accepted_epoch_id;
          last_revision = r.revision;
          last_digest = format.sha256 object.body;
        },
      )

  abbrev pub fetched :
      WriterState → Result StoredObject → Result (ManifestRecord × String) × WriterState
  fetched w (err e) = (err e, w)
  fetched w (ok object) = noted w object (decode format object.body)

  -- `read`
  unfoldable pub read : Site S → Result (ManifestRecord × String) × Site S
  read site =
      let (reply, s) = outside.fetch site.store in
      let (r, w) = fetched site.writer reply in (r, record { writer = w; store = s })

  -- ------------------------------------------------------------------ sending

  unfoldable pub remember : WriterState → Snapshot → Bytes → WriterState
  remember w manifest body = record w {
    resource_uid = manifest.resource_uid;
    last_epoch = manifest.accepted_epoch_id;
    last_revision = manifest.revision;
    last_digest = format.sha256 body;
  }

  abbrev pub sent : Attempt → Result String → Site S → Result Snapshot × Site S
  sent p (ok version) site = (
    ok p.result,
    record site { writer = record (remember site.writer p.result p.body) { pending = none } },
  )
  sent p (err e) site =
      (err e, with_pending site (some (record p { ambiguous = p.ambiguous || is_unknown_write e })))

  abbrev pub write_attempt : Attempt → S → Result String × S
  write_attempt p s = if p.create then outside.create p.body s else outside.swap p.expected p.body s

  -- `sendPending`, of the attempt that is pending.
  unfoldable pub send : Attempt → Site S → Result Snapshot × Site S
  send p site =
      let (reply, s) = write_attempt p site.store in sent p reply (record site { store = s })
