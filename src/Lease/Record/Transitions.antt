-- ===== src/Lease/Record/Transitions.antt =====
-- The transitions of lease/record.go: each gives a valid record that follows the one it was made from,
-- its counters within 64 bits.
use s3_lease.Prelude.{
  ℕ, ◌+◌, ◌/◌, ◌≤◌, ◌<◌, ◌≡◌, refl, ◌⊎◌, inl, inr, false, String, none, arith, str_eq, Bool-cases,
  ◌==◌,
}
use s3_lease.Lease.Config.Valid.{validate_iff}
use s3_lease.Lease.Record.Order.{Follows, compatible_iff}
use s3_lease.Lease.Errors.{Result, ok, err, sentinel, counter_overflow}
use s3_lease.Lease.Config.{second, Settings, Config, settings_of, validate_config}
use s3_lease.Lease.Record.{
  Record, max_uint64, max_duration_seconds, validate_record, records_compatible, initial_record,
  acquisition_record, renewal_record, release_record,
}

-- The range of the source's `uint64` counters.
pub record InRange (r : Record) : Type 0 where
  pub epoch : r.spec.epoch_id ≤ max_uint64
  pub sequence : r.spec.sequence_id ≤ max_uint64

-- A valid record whose counters are in range.
pub record Good (r : Record) : Type 0 where
  pub valid : validate_record r ≡ none
  pub in_range : InRange r

-- What a configuration passes on to the records that it makes.
pub record GoodSettings (config : Settings) : Type 0 where
  pub some_seconds : 0 < config.lease_duration / second
  pub bounded : config.lease_duration / second ≤ max_duration_seconds

-- What a transition gives: a good record that follows the one before it.
pub record Next (previous next : Record) : Type 0 where
  pub good : Good next
  pub follows : records_compatible previous next ≡ none

following : (a b : Record) → Good b → Follows a b → Next a b
following a b good f = record { good = good; follows = (compatible_iff a b).1 f }

-- A transition refuses exactly a counter at its maximum, and else gives what is promised of it.
abbrev pub Outcome : ℕ → Result Record → (Record → Type 0) → Type 0
Outcome counter result P =
    ((counter ≡ max_uint64) × (result ≡ err (sentinel counter_overflow)))
    ⊎ ((b : Record) × (counter < max_uint64) × (result ≡ ok b) × P b)

-- Acquiring a good record gives a good record that follows it, at the next epoch and sequence 1,
-- held by the client of the configuration; at the maximal epoch it is refused, so the epoch never
-- wraps around.
pub acquisition_record_lem :
    (config : Settings) (a : Record) (now : ℕ)
    → GoodSettings config
    → 0 < now
    → Good a
    → Outcome a.spec.epoch_id (acquisition_record a config now) (λ b.
      Next a b
      × (b.spec.epoch_id ≡ a.spec.epoch_id + 1)
      × (b.spec.sequence_id ≡ 1)
      × (b.spec.client_id ≡ config.client_id))
unfolding validate_record acquisition_record
acquisition_record_lem config a now good started g =
    elim (Bool-cases (a.spec.epoch_id == max_uint64)) [
      | inl full ↦ rw full (inl (ground arith, refl))
      | inr room ↦ rw room (
          inr (
            _,
            ground (arith, g.in_range.epoch),
            refl,
            (
              following _ _
                  (record {
                    valid = ground (arith, g.valid, good.some_seconds, good.bounded);
                    in_range = record {
                      epoch = ground (arith, g.in_range.epoch);
                      sequence = omega arith;
                    };
                  })
                  (record {
                    same_uid = refl;
                    epoch_grows = omega arith;
                    sequence_grows = λ e. absurd (omega arith);
                    unique = λ e f. absurd (omega arith);
                  }),
              refl,
              refl,
              refl,
            ),
          ))
    ]

abbrev pub SameTerm : Record → Record → Type 0
SameTerm a b =
    (b.metadata ≡ a.metadata)
    × (b.spec.epoch_id ≡ a.spec.epoch_id)
    × (b.spec.sequence_id ≡ a.spec.sequence_id + 1)

-- Renewing a good record gives a good record that follows it, with the same UID, epoch and client
-- and the next sequence number; at the maximal sequence the renewal is refused.
pub renewal_record_lem :
    (a : Record) (now : ℕ)
    → 0 < now
    → Good a
    → Outcome a.spec.sequence_id
        (renewal_record a now)
        (λ b. Next a b × SameTerm a b × (b.spec.client_id ≡ a.spec.client_id))
unfolding validate_record renewal_record
renewal_record_lem a now started g = elim (Bool-cases (a.spec.sequence_id == max_uint64)) [
  | inl full ↦ rw full (inl (ground arith, refl))
  | inr room ↦ rw room (
      inr (
        _,
        ground (arith, g.in_range.sequence),
        refl,
        (
          following _ _
              (record {
                valid = ground (arith, g.valid);
                in_range = record {
                  epoch = g.in_range.epoch;
                  sequence = ground (arith, g.in_range.sequence);
                };
              })
              (record {
                same_uid = refl;
                epoch_grows = omega arith;
                sequence_grows = λ e. omega arith;
                unique = λ e f. absurd (omega arith);
              }),
          (refl, refl, refl),
          refl,
        ),
      ))
]

-- Releasing a good record gives a good record that follows it, with the same UID and epoch, the
-- next sequence number and no client; at the maximal sequence the release is refused.
pub release_record_lem :
    (a : Record) (now : ℕ)
    → 0 < now
    → Good a
    → Outcome a.spec.sequence_id
        (release_record a now)
        (λ b. Next a b × SameTerm a b × (b.spec.client_id ≡ ""))
unfolding validate_record renewal_record release_record
release_record_lem a now started g = elim (Bool-cases (a.spec.sequence_id == max_uint64)) [
  | inl full ↦ rw full (inl (ground arith, refl))
  | inr room ↦ rw room (
      inr (
        _,
        ground (arith, g.in_range.sequence),
        refl,
        (
          following _ _
              (record {
                valid = ground (arith, g.valid);
                in_range = record {
                  epoch = g.in_range.epoch;
                  sequence = ground (arith, g.in_range.sequence);
                };
              })
              (record {
                same_uid = refl;
                epoch_grows = omega arith;
                sequence_grows = λ e. omega arith;
                unique = λ e f. absurd (omega arith);
              }),
          (refl, refl, refl),
          refl,
        ),
      ))
]

-- The first record of a valid configuration, with a UID that is not empty and a time after the
-- zero time, is valid and has its counters in range.
pub initial_record-Good :
    (config : Settings) (uid : String) (now : ℕ)
    → GoodSettings config
    → str_eq uid "" ≡ false
    → 0 < now
    → Good (initial_record config uid now)
unfolding validate_record initial_record
initial_record-Good config uid now good some_uid started = record {
  valid = ground (arith, good.some_seconds, good.bounded, some_uid);
  in_range = record { epoch = omega arith; sequence = omega arith };
}

-- A configuration that `validateConfig` accepts, its lease duration an `int64`, gives the records
-- a positive number of seconds that does not overflow.
pub settings_of-Good :
    (config : Config)
    → validate_config config ≡ none
    → (settings_of config).lease_duration ≤ 9_223_372_036_854_775_807
    → GoodSettings (settings_of config)
settings_of-Good config v bound =
    let k = (validate_iff config).0 v in
    record {
      some_seconds = omega (arith, k.whole_seconds, k.renew_first);
      bounded = omega (arith, bound);
    }
