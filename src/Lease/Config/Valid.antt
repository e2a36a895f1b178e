-- ===== src/Lease/Config/Valid.antt =====
-- What `validateConfig` of lease/core.go accepts.
use s3_lease.Prelude.{◌<◌, ◌≡◌, ◌↔◌, ◌%◌, false, none, arith, str_eq, refl}
use s3_lease.Prelude.Int.{ℤ, pos, negsuc, pos_part, leb_ℤ}
use s3_lease.Lease.Config.{
  clock_is_nil, second, is_nil_interface, is_blank, Config, validate_config, settings_of,
}

-- What `validateConfig` checks, in words: a store, a clock that is not a nil pointer, names that are
-- not blank (not empty, for the object's key), and positive durations, each below the next, of which
-- the lease duration is in whole seconds.
pub record Valid (config : Config) : Type 0 where
  pub store : is_nil_interface config.store ≡ false
  pub clock : clock_is_nil config.clock ≡ false
  pub bucket : is_blank config.key.bucket ≡ false
  pub object_key : str_eq config.key.object_key "" ≡ false
  pub client_id : is_blank config.client_id ≡ false
  pub lease_duration : config.lease_duration ≡ pos (settings_of config).lease_duration
  pub renew_deadline : config.renew_deadline ≡ pos (settings_of config).renew_deadline
  pub request_timeout : config.request_timeout ≡ pos (settings_of config).request_timeout
  pub positive : 0 < (settings_of config).request_timeout
  pub request_first : (settings_of config).request_timeout < (settings_of config).renew_deadline
  pub renew_first : (settings_of config).renew_deadline < (settings_of config).lease_duration
  pub whole_seconds : (settings_of config).lease_duration % second ≡ 0

is_positive : (z : ℤ) → leb_ℤ z (pos 0) ≡ false → z ≡ pos (pos_part z)
is_positive (pos n) h = refl
is_positive (negsuc n) h = absurd (ground arith)

validate_config-Valid : (config : Config) → validate_config config ≡ none → Valid config
unfolding validate_config is_nil_interface
validate_config-Valid config v =
    let l = is_positive config.lease_duration (ground arith) in
    let r = is_positive config.renew_deadline (ground arith) in
    let q = is_positive config.request_timeout (ground arith) in
    record {
      store = ground arith;
      clock = ground arith;
      bucket = ground arith;
      object_key = ground arith;
      client_id = ground arith;
      lease_duration = l;
      renew_deadline = r;
      request_timeout = q;
      positive = ground arith;
      request_first = ground (arith, l, r, q);
      renew_first = ground (arith, l, r, q);
      whole_seconds = ground (arith, l);
    }

Valid-validate_config : (config : Config) → Valid config → validate_config config ≡ none
unfolding validate_config is_nil_interface
Valid-validate_config config v = ground (
  arith, v.store, v.clock, v.bucket, v.object_key, v.client_id, v.lease_duration, v.renew_deadline,
  v.request_timeout, v.positive, v.request_first, v.renew_first, v.whole_seconds,
)

-- `validateConfig` accepts exactly the valid configurations: a store, a clock that is no nil
-- pointer, names that are not blank (not empty, for the key of the object), and positive
-- durations, each below the next, of which the lease duration is in whole seconds.
pub validate_iff : (config : Config) → (validate_config config ≡ none) ↔ Valid config
validate_iff config = (validate_config-Valid config, Valid-validate_config config)
