-- ===== src/Manifest.antt =====
-- examples/fencedmanifest/manifest.go: a protected manifest whose writers an epoch fences. The JSON
-- package and SHA-256 are parameters, `Format`; what they are given and give is written out.
pub mod Text
pub mod Requests
pub mod Records
pub mod Writer
pub mod Rounds
pub mod Fencing
use s3_lease.Prelude.{◌==◌, ℕ, Bool, String, Option, List}
use s3_lease.Lease.Errors.{Result}
use s3_lease.Lease.State.{Bytes}

pub data Operation : Type 0 where
  activate publish : Operation

-- `HistoryEntry`
pub record HistoryEntry : Type 0 where
  pub epoch_id : ℕ
  pub mutation_id : String
  pub activation : Bool

-- `Manifest`
pub record Snapshot : Type 0 where
  pub resource_uid : String
  pub accepted_epoch_id : ℕ
  pub revision : ℕ
  pub last_mutation_id : String
  pub payload : Bytes
  pub history : List HistoryEntry

pub record HistoryRecord : Type 0 where
  pub epoch_id : ℕ
  pub mutation_id : String
  pub mutation_digest : String
  pub activation : Bool

pub record ManifestRecord : Type 0 where
  pub api_version : String
  pub kind : String
  pub resource_uid : String
  pub accepted_epoch_id : ℕ
  pub revision : ℕ
  pub payload : Bytes
  pub history : List HistoryRecord

pub record MutationRequest : Type 0 where
  pub operation : Operation
  pub epoch_id : ℕ
  pub mutation_id : String
  pub payload : Bytes
  pub digest : String

-- `proposal`
pub record Attempt : Type 0 where
  pub request : MutationRequest
  pub expected : String
  pub body : Bytes
  pub result : Snapshot
  pub create : Bool
  pub ambiguous : Bool

-- The state of a `Writer`. The digest of a new writer is all zeros, and never compared.
pub record WriterState : Type 0 where
  pub busy : Bool  -- `mu` is held
  pub resource_uid : String
  pub last_epoch : ℕ
  pub last_revision : ℕ
  pub last_digest : Bytes
  pub pending : Option Attempt

-- What a strict decoder makes of a body: no manifest, a manifest with data behind it, or one alone.
pub data DecodedManifest : Type 0 where
  undecodable trailing : DecodedManifest
  decoded : ManifestRecord → DecodedManifest

-- The JSON package and SHA-256.
pub record Format : Type 0 where
  pub marshal : ManifestRecord → Result Bytes
  pub unmarshal : Bytes → DecodedManifest
  pub is_json : Bytes → Bool
  pub compact : Bytes → Result Bytes
  pub sha256 : Bytes → Bytes

abbrev pub api_version_name : String
api_version_name = "coordination.pactdata.io/v1alpha1"

abbrev pub kind_name : String
kind_name = "FencedManifest"

-- `64 << 10` and `40 << 10`
abbrev pub max_manifest_body_bytes : ℕ
max_manifest_body_bytes = 65_536

abbrev pub max_payload_bytes : ℕ
max_payload_bytes = 40_960

abbrev pub max_mutation_id_bytes : ℕ
max_mutation_id_bytes = 256

abbrev pub max_mutation_attempts : ℕ
max_mutation_attempts = 8

abbrev pub max_history_entries : ℕ
max_history_entries = 8

abbrev pub operation_index : Operation → ℕ
operation_index activate = 1
operation_index publish = 2

abbrev pub same_operation : Operation → Operation → Bool
same_operation a b = operation_index a == operation_index b
