-- ===== src/Lease/Operations.antt =====
-- The calls of lease/operations.go that both `Require` and the mutations use: the request's budget
-- (lease/core.go), `readCurrent`, and `Observe`.
pub mod ReadBack
use s3_lease.Prelude.{
  or_else, ℕ, ◌-◌, String, Option, none, some, ltb, leb, ◌==◌, str_eq, if◌then◌else◌,
}
use s3_lease.Lease.Errors.{
  Error, sentinel, annotated, deadline_exceeded, protocol_violation, Result, ok, err,
}
use s3_lease.Lease.Record.{Record, validate_record}
use s3_lease.Lease.State.{Bytes, Core, Observed}
use s3_lease.Lease.Reads.{Reply, failed, unversioned, malformed, found, generation_of, install_read}
use s3_lease.Lease.World.{
  StoredObject, Decoded, undecodable, trailing, decoded, Backend, Context, Exec, ◌>>=◌, ◌>>◌, pure,
  raise, section, request, attempt, clock, settings,
}

-- `encodeRecord` on what the JSON package gives.
unfoldable pub encode_record : Result Bytes → Result Bytes
encode_record (ok body) = ok body
encode_record (err e) = err (annotated e)

-- `decodeRecord` on what the decoder found.
unfoldable pub decode_record : Decoded → Result Record
unfolding validate_record
decode_record undecodable = err (annotated (sentinel protocol_violation))
decode_record trailing = err (annotated (sentinel protocol_violation))
decode_record (decoded r) = or_else (validate_record r) (ok r) (λ e. err e)

abbrev pub Observation : Type 0
Observation = record {
  lease_uid : String;
  client_id : String;
  epoch_id : ℕ;
  sequence_id : ℕ;
  read_at : ℕ;
}

abbrev pub decoded_reply : StoredObject → Result Record → Reply
decoded_reply object (ok r) = found object.version object.body r
decoded_reply object (err e) = malformed e

abbrev pub object_reply : StoredObject → Result Record → Reply
object_reply object r = if str_eq object.version "" then unversioned else decoded_reply object r

module _ {S : Type 0} where
  -- The rest of a budget before `limit`.
  unfoldable pub within : ℕ → ℕ → Exec S ℕ
  within limit budget = do
    now ← clock
    if leb limit now
        then raise (sentinel deadline_exceeded)
        else pure (if ltb (limit - now) budget then limit - now else budget)

  unfoldable pub within_phase : ℕ → ℕ → Exec S ℕ
  within_phase phase_end budget = if phase_end == 0 then pure budget else within phase_end budget

  unfoldable pub within_deadline : Option ℕ → ℕ → Exec S ℕ
  within_deadline none budget = pure budget
  within_deadline (some limit) budget = within limit budget

  abbrev pub raise_if : Option Error → Exec S (Unit {0})
  raise_if none = pure tt
  raise_if (some e) = raise e

  -- `requestContext`: the time that the request is given. `time.Until` reads the same clock.
  unfoldable pub request_context : Context → ℕ → Exec S ℕ
  request_context ctx phase_end = do
    now ← clock
    raise_if (ctx.error_at now)
    config ← settings
    budget ← within_phase phase_end config.request_timeout
    within_deadline ctx.deadline budget

-- The first section of `readCurrent`: which observation the read starts from.
unfoldable pub begin_read : Core → ℕ → Result (Option ℕ) × Core
begin_read c now =
    or_else c.terminal (ok (generation_of c.observed), c) (λ latched. (err latched, c))

module _ {S : Type 0} (backend : Backend S) where
  -- The reply to a GET, its body decoded.
  unfoldable pub interpret : Result StoredObject → Reply
  interpret (err e) = failed e
  interpret (ok object) = object_reply object (decode_record (backend.unmarshal object.body))

  -- `readCurrent`
  unfoldable pub read_current : Context → ℕ → Exec S Observed
  read_current ctx phase_end = do
    started ← section begin_read
    budget ← request_context ctx phase_end
    object ← attempt (request (backend.fetch budget))
    read_at ← clock
    section (λ c now. install_read c started read_at (interpret object))

  -- `Observe`
  unfoldable pub observe : Context → Exec S Observation
  observe ctx = do
    state ← read_current ctx 0
    pure (record {
      lease_uid = state.current.metadata.uid;
      client_id = state.current.spec.client_id;
      epoch_id = state.current.spec.epoch_id;
      sequence_id = state.current.spec.sequence_id;
      read_at = state.last_read_at;
    })
