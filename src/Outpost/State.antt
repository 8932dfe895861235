-- ===== src/Outpost/State.antt =====
-- The data types of crates/outpost/src/lib.rs. What it takes from the crates serde_json, flate2, url
-- and time is the record `Platform`; a Prometheus counter is a number, and a gauge an `i64`.
use mongodb_dam.Common.{ℕ, ◌^◌, Bool, Option, Bytes, List}
use mongodb_dam.Common.Int.{ℤ, pos, signed}
use mongodb_dam.Common.Maps.{Entries}
use mongodb_dam.Schema.Types.{DamBatch, DamEvent, KubernetesMetadata}
use mongodb_dam.Schema.Validate.{BatchError}
use mongodb_dam.Spool.Store.{DurableSpool, SpoolError}

pub record IdentityMappingEntry : Type 0 where
  pub mongodb_principal_hash : Bytes
  pub provider : Bytes
  pub principal_type : Bytes
  pub principal_arn : Bytes
  pub account_id : Bytes
  pub credential_source : Bytes
  pub credential_resource : Bytes

pub record IdentityMappingDocument : Type 0 where
  pub schema_version : ℕ
  pub mappings : List IdentityMappingEntry

-- The parts of a parsed `Url` that are asked for.
pub record Url : Type 0 where
  pub scheme : Bytes
  pub host_str : Option Bytes
  pub username : Bytes
  pub password : Option Bytes

pub record Platform : Type 1 where
  -- `time::OffsetDateTime` and its parts
  pub Time : Type 0
  pub year : Time → ℤ
  pub month : Time → ℕ
  pub day : Time → ℕ
  pub hour : Time → ℕ
  -- `serde_json::Value`
  pub Value : Type 0
  -- `serde_json::from_slice` and `to_vec` of a batch, and `from_slice` of a mapping document
  pub batch_from_slice : Bytes → Option (DamBatch Time Value)
  pub batch_to_vec : DamBatch Time Value → Option Bytes
  pub mappings_from_slice : Bytes → Option IdentityMappingDocument
  -- `serde_json::to_writer` of an `S3NdjsonRecord`
  pub record_text : ℕ → Bytes → Time → DamEvent Time Value → Option Bytes
  -- what `GzEncoder` makes of the bytes written to it
  pub gzip : Bytes → Option Bytes
  -- `Url::parse`
  pub parse_url : Bytes → Option Url

pub record HttpDestinationConfig : Type 0 where
  pub endpoint : Bytes
  pub bearer_token : Bytes
  pub ca_file : Option Bytes

pub record S3DestinationConfig : Type 0 where
  pub bucket : Bytes
  pub prefix : Bytes
  pub endpoint_url : Option Bytes
  pub force_path_style : Bool

pub data DestinationConfig : Type 0 where
  http : HttpDestinationConfig → DestinationConfig
  s3 : S3DestinationConfig → DestinationConfig

-- The durations are numbers, and the paths texts.
pub record OutpostConfig : Type 0 where
  pub customer_id : Bytes
  pub tenant_id : Bytes
  pub source_id : Bytes
  pub regional_cell_id : Bytes
  pub cluster_name : Bytes
  pub internal_token : Option Bytes
  pub destination : DestinationConfig
  pub spool_dir : Bytes
  pub spool_max_bytes : ℕ
  pub max_request_bytes : ℕ
  pub export_interval : ℕ
  pub kubernetes_api_url : Option Bytes
  pub kubernetes_token_path : Bytes
  pub kubernetes_ca_path : Bytes
  pub kubernetes_refresh_interval : ℕ
  pub identity_mapping_file : Option Bytes

pub record Metrics : Type 0 where
  pub accepted_batches : ℕ
  pub rejected_batches : ℕ
  pub delivered_batches : ℕ
  pub delivery_failures : ℕ
  pub quarantined_batches : ℕ
  pub spool_items : ℤ
  pub spool_bytes : ℤ
  pub quarantine_items : ℤ
  pub quarantine_bytes : ℤ
  pub kubernetes_cache_entries : ℤ

-- `value as i64`
abbrev pub gauge : ℕ → ℤ
gauge = signed (2 ^ 63)

-- `Metrics::new`
abbrev pub new_metrics : Metrics
new_metrics = record {
  accepted_batches = 0;
  rejected_batches = 0;
  delivered_batches = 0;
  delivery_failures = 0;
  quarantined_batches = 0;
  spool_items = pos 0;
  spool_bytes = pos 0;
  quarantine_items = pos 0;
  quarantine_bytes = pos 0;
  kubernetes_cache_entries = pos 0;
}

-- `notified` is the permit of `Notify`.
pub record AppState : Type 0 where
  pub config : OutpostConfig
  pub spool : DurableSpool
  pub metrics : Metrics
  pub notified : Bool
  pub kubernetes : Entries Bytes KubernetesMetadata

-- The texts of the errors that a response carries.
pub data Refusal : Type 0 where
  missing_credential : Refusal
  invalid_json : Refusal
  invalid_batch : BatchError → Refusal
  other_assignment : Refusal
  not_serialized : Refusal
  not_stored : SpoolError → Refusal

-- A response has its status, and the text of an error or the batch and the receipt.
pub data Response : Type 0 where
  refused : (status : ℕ) → Refusal → Response
  accepted : (batch_id receipt_id : Bytes) → Response
  -- a panic of the handler
  aborted : Response
