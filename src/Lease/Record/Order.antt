-- ===== src/Lease/Record/Order.antt =====
-- The order that `recordsCompatible` of lease/record.go puts on the records.
use s3_lease.Prelude.{◌≤◌, ◌≡◌, refl, sym, ◌∙◌, ◌↔◌, true, String, none, arith, str_eq, eq_iff}
use s3_lease.Lease.Record.{Record, same_record, records_compatible}

-- What `recordsCompatible` accepts, in words: the same UID, counters that do not go back, and no
-- two records with the same counters.
pub record Follows (previous next : Record) : Type 0 where
  pub same_uid : previous.metadata.uid ≡ next.metadata.uid
  pub epoch_grows : previous.spec.epoch_id ≤ next.spec.epoch_id
  pub sequence_grows :
      previous.spec.epoch_id ≡ next.spec.epoch_id
      → previous.spec.sequence_id ≤ next.spec.sequence_id
  pub unique :
      previous.spec.epoch_id ≡ next.spec.epoch_id
      → previous.spec.sequence_id ≡ next.spec.sequence_id
      → previous ≡ next

str_eq-true : (a b : String) → str_eq a b ≡ true → a ≡ b
str_eq-true a b = (eq_iff a b).0

str_eq_refl : (a : String) → str_eq a a ≡ true
str_eq_refl a = (eq_iff a a).1 refl

-- Two equal strings, of two records that `sameRecord` accepts.
module _ (a b : Record) (same : same_record a b ≡ true) where
  same_api_version : a.api_version ≡ b.api_version
  unfolding same_record
  same_api_version = str_eq-true _ _ (ground arith)

  same_kind : a.kind ≡ b.kind
  unfolding same_record
  same_kind = str_eq-true _ _ (ground arith)

  same_metadata : a.metadata ≡ b.metadata
  unfolding same_record
  same_metadata =
      let name = str_eq-true a.metadata.name b.metadata.name (ground arith) in
      let uid = str_eq-true a.metadata.uid b.metadata.uid (ground arith) in
      let created_at : a.metadata.created_at ≡ b.metadata.created_at = ground arith in
      λ i. record { name = name i; uid = uid i; created_at = created_at i }

  same_spec : a.spec ≡ b.spec
  unfolding same_record
  same_spec =
      let client_id = str_eq-true a.spec.client_id b.spec.client_id (ground arith) in
      let duration : a.spec.lease_duration_seconds ≡ b.spec.lease_duration_seconds = ground arith in
      let acquire_time : a.spec.acquire_time ≡ b.spec.acquire_time = ground arith in
      let renew_time : a.spec.renew_time ≡ b.spec.renew_time = ground arith in
      let epoch_id : a.spec.epoch_id ≡ b.spec.epoch_id = ground arith in
      let sequence_id : a.spec.sequence_id ≡ b.spec.sequence_id = ground arith in
      λ i. record {
        client_id = client_id i;
        lease_duration_seconds = duration i;
        acquire_time = acquire_time i;
        renew_time = renew_time i;
        epoch_id = epoch_id i;
        sequence_id = sequence_id i;
      }

  pub same_record_eq : a ≡ b
  same_record_eq = λ i. record {
    api_version = same_api_version i;
    kind = same_kind i;
    metadata = same_metadata i;
    spec = same_spec i;
  }

pub same_record_refl : (a : Record) → same_record a a ≡ true
unfolding same_record
same_record_refl a = ground (
  arith,
  str_eq_refl a.api_version,
  str_eq_refl a.kind,
  str_eq_refl a.metadata.name,
  str_eq_refl a.metadata.uid,
  str_eq_refl a.spec.client_id,
)

same_record_of : (a b : Record) → a ≡ b → same_record a b ≡ true
same_record_of a b e = rw e (same_record_refl b)

compatible-Follows : (a b : Record) → records_compatible a b ≡ none → Follows a b
unfolding records_compatible
compatible-Follows a b h = record {
  same_uid = str_eq-true _ _ (ground arith);
  epoch_grows = ground arith;
  sequence_grows = λ e. ground arith;
  unique = λ e f. same_record_eq a b (ground arith);
}

Follows-compatible : (a b : Record) → Follows a b → records_compatible a b ≡ none
unfolding records_compatible
Follows-compatible a b f =
    let uid : str_eq a.metadata.uid b.metadata.uid ≡ true = (eq_iff _ _).1 f.same_uid in
    let unique =
      λ (e : a.spec.epoch_id ≡ b.spec.epoch_id) (g : a.spec.sequence_id ≡ b.spec.sequence_id).
        same_record_of a b (f.unique e g) in
    ground (arith, uid, f.epoch_grows, f.sequence_grows, unique)

-- `recordsCompatible` accepts exactly the records that have the same UID, counters that do not go
-- back, and no other contents at the same counters.
pub compatible_iff : (a b : Record) → (records_compatible a b ≡ none) ↔ Follows a b
compatible_iff a b = (compatible-Follows a b, Follows-compatible a b)

Follows-refl : (a : Record) → Follows a a
Follows-refl a = record {
  same_uid = refl;
  epoch_grows = omega arith;
  sequence_grows = λ e. omega arith;
  unique = λ e f. refl;
}

Follows-trans : (a b c : Record) → Follows a b → Follows b c → Follows a c
Follows-trans a b c f g = record {
  same_uid = f.same_uid ∙ g.same_uid;
  epoch_grows = omega (arith, f.epoch_grows, g.epoch_grows);
  sequence_grows =
      λ e. ground (arith, f.epoch_grows, g.epoch_grows, f.sequence_grows, g.sequence_grows);
  unique = λ e h.
      let same_epoch : a.spec.epoch_id ≡ b.spec.epoch_id =
        omega (arith, f.epoch_grows, g.epoch_grows) in
      let same_epoch' : b.spec.epoch_id ≡ c.spec.epoch_id =
        omega (arith, f.epoch_grows, g.epoch_grows) in
      let s = f.sequence_grows same_epoch in
      let s' = g.sequence_grows same_epoch' in
      f.unique same_epoch (omega arith) ∙ g.unique same_epoch' (omega arith);
}

Follows-antisym : (a b : Record) → Follows a b → Follows b a → a ≡ b
Follows-antisym a b f g =
    let same_epoch : a.spec.epoch_id ≡ b.spec.epoch_id =
      omega (arith, f.epoch_grows, g.epoch_grows) in
    let s = f.sequence_grows same_epoch in
    let s' = g.sequence_grows (sym same_epoch) in f.unique same_epoch (omega arith)

-- `recordsCompatible` is a partial order on the records: every record follows itself, to follow is
-- transitive, and of two records that follow each other there is one only.
pub compatible-order :
    (a b c : Record)
    → (records_compatible a a ≡ none)
      × (records_compatible a b ≡ none
          → records_compatible b c ≡ none
          → records_compatible a c ≡ none)
      × (records_compatible a b ≡ none → records_compatible b a ≡ none → a ≡ b)
compatible-order a b c = (
  Follows-compatible a a (Follows-refl a),
  λ e f.
      Follows-compatible a c
        (Follows-trans a b c (compatible-Follows a b e) (compatible-Follows b c f)),
  λ e f. Follows-antisym a b (compatible-Follows a b e) (compatible-Follows b a f),
)
