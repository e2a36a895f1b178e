-- ===== src/Lease/Config.antt =====
-- lease/api.go and the construction part of lease/core.go: `Config`, `validateConfig`, `New` and
-- `Timing`. Durations are nanoseconds. Logging and metrics are left out.
pub mod Valid
use Prim.Native.Char.{code}
use s3_lease.Prelude.{
  ℕ, ◌%◌, Bool, true, false, ◌&&◌, ◌||◌, String, Option, none, some, ◌==◌, leb, str_eq,
  if◌then◌else◌,
}
use s3_lease.Prelude.Int.{ℤ, pos, negsuc, pos_part, neg_part, leb_ℤ}
use s3_lease.Lease.Errors.{Error, sentinel, annotated, invalid_config}

abbrev pub second : ℕ
second = 1_000_000_000

-- An interface value: nil, a nil pointer (or map, …) of some type, or a value.
pub data Interface : Type 0 where
  nil_interface typed_nil present : Interface

unfoldable pub is_nil_interface : Interface → Bool
is_nil_interface nil_interface = true
is_nil_interface typed_nil = true
is_nil_interface present = false

-- `unicode.IsSpace`
abbrev pub is_space : ℕ → Bool
is_space c =
    leb 9 c && leb c 13
    || c == 32
    || c == 0x85
    || c == 0xa0
    || c == 0x1680
    || leb 0x2000 c && leb c 0x200a
    || leb 0x2028 c && leb c 0x2029
    || c == 0x202f
    || c == 0x205f
    || c == 0x3000

-- `strings.TrimSpace(s) == ""`
unfoldable pub is_blank : String → Bool
is_blank String.[] = true
is_blank (String.◌∷◌ c s) = is_space (code c) && is_blank s

pub record Key : Type 0 where
  pub bucket : String
  pub object_key : String

pub record Config : Type 0 where
  pub store : Interface
  pub key : Key
  pub client_id : String
  pub metadata_name : String
  pub lease_duration : ℤ
  pub renew_deadline : ℤ
  pub request_timeout : ℤ
  pub clock : Interface

abbrev pub clock_is_nil : Interface → Bool
clock_is_nil typed_nil = true
clock_is_nil _ = false

abbrev invalid : Option Error
invalid = some (annotated (sentinel invalid_config))

-- `d % time.Second != 0`; Go's remainder of a negative number is zero exactly when its magnitude's is.
abbrev is_whole_seconds : ℤ → Bool
is_whole_seconds (pos n) = n % second == 0
is_whole_seconds (negsuc n) = (neg_part (negsuc n)) % second == 0

-- `none` is the nil error.
unfoldable pub validate_config : Config → Option Error
unfolding is_nil_interface
validate_config config =
    if is_nil_interface config.store
    then invalid
    else if clock_is_nil config.clock
    then invalid
    else if is_blank config.key.bucket
    then invalid
    else if str_eq config.key.object_key ""
    then invalid
    else if is_blank config.client_id
    then invalid
    else if leb_ℤ config.lease_duration (pos 0)
        || leb_ℤ config.renew_deadline (pos 0)
        || leb_ℤ config.request_timeout (pos 0)
    then invalid
    else if is_whole_seconds config.lease_duration
    then (if leb_ℤ config.lease_duration config.renew_deadline
        then invalid
        else if leb_ℤ config.renew_deadline config.request_timeout
        then invalid
        else none)
    else invalid

-- The part of a valid `Config` that the core reads, its positive durations as numbers.
pub record Settings : Type 0 where
  pub client_id : String
  pub metadata_name : String
  pub lease_duration : ℕ
  pub renew_deadline : ℕ
  pub request_timeout : ℕ

abbrev pub settings_of : Config → Settings
settings_of config = record {
  client_id = config.client_id;
  metadata_name = config.metadata_name;
  lease_duration = pos_part config.lease_duration;
  renew_deadline = pos_part config.renew_deadline;
  request_timeout = pos_part config.request_timeout;
}

pub record Timing : Type 0 where
  pub lease_duration : ℕ
  pub renew_deadline : ℕ
  pub request_timeout : ℕ

unfoldable pub timing : Settings → Timing
timing config = record {
  lease_duration = config.lease_duration;
  renew_deadline = config.renew_deadline;
  request_timeout = config.request_timeout;
}
