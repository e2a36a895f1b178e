-- ===== src/Manifest/Requests.antt =====
-- The requests of examples/fencedmanifest/manifest.go: `newRequest`, `requestDigest`, `sameRequest`.
use s3_lease.Prelude.{
  ℕ, ◌/◌, ◌%◌, ◌^◌, Bool, ◌&&◌, ◌||◌, not, String, [], ◌∷◌, ◌++◌, ltb, ◌==◌, length, str_eq,
  if◌then◌else◌,
}
use s3_lease.Lease.Errors.{sentinel, annotated, invalid_config, Result, ok, err}
use s3_lease.Lease.State.{Bytes}
use s3_lease.Lease.Record.Uuid.{hex}
use s3_lease.Manifest.{
  Operation, activate, publish, operation_index, same_operation, MutationRequest, Format,
  max_payload_bytes, max_mutation_id_bytes,
}
use s3_lease.Manifest.Text.{trim_space, utf8, byte_length}

-- `binary.BigEndian.PutUint64`
abbrev big_endian : ℕ → Bytes
big_endian n =
    n / 2 ^ 56 % 256
    ∷ n / 2 ^ 48 % 256
    ∷ n / 2 ^ 40 % 256
    ∷ n / 2 ^ 32 % 256
    ∷ n / 2 ^ 24 % 256
    ∷ n / 2 ^ 16 % 256
    ∷ n / 2 ^ 8 % 256
    ∷ n % 256
    ∷ []

module _ (format : Format) where
  unfoldable pub request_digest : Operation → ℕ → String → Bytes → String
  unfolding hex utf8
  request_digest operation epoch_id mutation_id payload = hex (
      format.sha256
        (operation_index operation ∷ (big_endian epoch_id ++ (utf8 mutation_id ++ (0 ∷ payload)))))

  abbrev requested : Operation → ℕ → String → Result Bytes → Result MutationRequest
  requested operation epoch_id mutation_id (err e) = err (annotated (sentinel invalid_config))
  requested operation epoch_id mutation_id (ok payload) = ok (record {
    operation = operation;
    epoch_id = epoch_id;
    mutation_id = mutation_id;
    payload = payload;
    digest = request_digest operation epoch_id mutation_id payload;
  })

  -- The payload that a request keeps: as it is, or checked and compacted for a publication.
  abbrev request_payload : Operation → Bytes → Result Bytes
  request_payload activate payload = ok payload
  request_payload publish payload =
      if length payload == 0
        || ltb max_payload_bytes (length payload)
        || not (format.is_json payload)
      then err (sentinel invalid_config)
      else format.compact payload

  unfoldable pub new_request : Operation → ℕ → String → Bytes → Result MutationRequest
  unfolding trim_space byte_length request_digest
  new_request operation epoch_id mutation_id payload =
      let trimmed = trim_space mutation_id in
      if epoch_id == 0
      then err (annotated (sentinel invalid_config))
      else if str_eq trimmed "" || ltb max_mutation_id_bytes (byte_length trimmed)
      then err (annotated (sentinel invalid_config))
      else requested operation epoch_id trimmed (request_payload operation payload)

unfoldable pub same_request : MutationRequest → MutationRequest → Bool
same_request left right =
    same_operation left.operation right.operation
    && left.epoch_id == right.epoch_id
    && str_eq left.mutation_id right.mutation_id
    && str_eq left.digest right.digest
