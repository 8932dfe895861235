-- ===== src/Schema/Types.antt =====
-- The data types of crates/schema/src/lib.rs. A time of the crate time and a value of serde_json are
-- parameters; a map is the list of its entries in order.
use mongodb_dam.Common.{ℕ, Bool, Option, Bytes, List}
use mongodb_dam.Common.Int.{ℤ}

abbrev pub event_schema_version : ℕ
event_schema_version = 1

abbrev pub batch_schema_version : ℕ
batch_schema_version = 1

pub record ExternalIdentity : Type 0 where
  pub provider : Bytes
  pub principal_type : Bytes
  pub principal_arn : Bytes
  pub account_id : Bytes
  pub credential_source : Bytes
  pub credential_resource : Bytes

pub data CaptureSource : Type 0 where
  cleartext_syscall : CaptureSource
  open_ssl_uprobe : CaptureSource
  user_uprobe : CaptureSource
  kernel_tracepoint : CaptureSource
  perf_event : CaptureSource
  sensor : CaptureSource

pub data CaptureConfidence : Type 0 where
  complete : CaptureConfidence
  partial : CaptureConfidence
  inferred : CaptureConfidence
  unknown : CaptureConfidence

pub record CaptureMetadata : Type 0 where
  pub sensor_id : Bytes
  pub node_name : Bytes
  pub source : CaptureSource
  pub confidence : CaptureConfidence
  pub metadata_only : Bool
  pub truncated : Bool

pub record KubernetesMetadata : Type 0 where
  pub cluster_name : Option Bytes
  pub namespace : Option Bytes
  pub pod_name : Option Bytes
  pub pod_uid : Option Bytes
  pub container_name : Option Bytes
  pub workload_kind : Option Bytes
  pub workload_name : Option Bytes
  pub labels : Option (List (Bytes × Bytes))

pub record ProcessMetadata : Type 0 where
  pub pid : ℕ
  pub tgid : ℕ
  pub uid : Option ℕ
  pub gid : Option ℕ
  pub cgroup_id : Option ℕ
  pub command : Bytes
  pub executable : Option Bytes

pub record NetworkEndpoint : Type 0 where
  pub address : Option Bytes
  pub port : Option ℕ

pub record ConnectionMetadata : Type 0 where
  pub connection_id : Bytes
  pub fd : ℤ
  pub local : Option NetworkEndpoint
  pub remote : Option NetworkEndpoint
  pub tcp_srtt_us : Option ℕ
  pub retransmits : Option ℕ
  pub tls : Option Bool

pub record MongodbActivity (Value : Type 0) : Type 0 where
  pub command : Bytes
  pub database : Option Bytes
  pub collection : Option Bytes
  pub principal : Option Bytes
  pub principal_hashed : Bool
  pub delete_scope : Option Bytes
  pub delete_statements : Option ℕ
  pub affected_documents : Option ℕ
  pub query : Option Value
  pub request_id : ℤ
  pub response_id : Option ℤ
  pub request_bytes : ℕ
  pub response_bytes : Option ℕ
  pub duration_us : Option ℕ
  pub succeeded : Option Bool
  pub error_code : Option ℤ
  pub error_name : Option Bytes
  pub expects_response : Bool
  pub compressed : Bool
  pub connection : ConnectionMetadata

pub record MongodbConnection : Type 0 where
  pub state : Bytes
  pub connection : ConnectionMetadata
  pub duration_us : Option ℕ
  pub reason : Option Bytes

pub record MongodbAuth : Type 0 where
  pub mechanism : Bytes
  pub principal : Option Bytes
  pub principal_hashed : Bool
  pub succeeded : Option Bool
  pub connection_id : Bytes

pub record DnsActivity : Type 0 where
  pub operation : Bytes
  pub transport : Bytes
  pub query_id : ℕ
  pub name : Option Bytes
  pub record_type : Option Bytes
  pub response_code : Option ℕ
  pub answer_count : Option ℕ
  pub duration_us : Option ℕ
  pub connection : ConnectionMetadata

pub record HostIo : Type 0 where
  pub operation : Bytes
  pub duration_us : ℕ
  pub bytes : Option ℕ
  pub fd : Option ℤ
  pub result : ℤ

pub record ProfileSample : Type 0 where
  pub profile_type : Bytes
  pub period_hz : ℕ
  pub count : ℕ
  pub user_stack_id : ℤ
  pub kernel_stack_id : ℤ
  pub duration_us : Option ℕ
  pub user_stack_addresses : List ℕ
  pub kernel_stack_addresses : List ℕ

pub record ProcessLifecycle : Type 0 where
  pub state : Bytes
  pub executable : Option Bytes

pub record SensorHealth : Type 0 where
  pub status : Bytes
  pub component : Bytes
  pub reason : Bytes
  pub dropped_events : ℕ
  pub parse_errors : ℕ
  pub spool_bytes : ℕ

pub data EventPayload (Value : Type 0) : Type 0 where
  mongodb_activity : MongodbActivity Value → EventPayload Value
  mongodb_connection : MongodbConnection → EventPayload Value
  mongodb_auth : MongodbAuth → EventPayload Value
  dns_activity : DnsActivity → EventPayload Value
  host_io : HostIo → EventPayload Value
  profile : ProfileSample → EventPayload Value
  process_lifecycle : ProcessLifecycle → EventPayload Value
  sensor_health : SensorHealth → EventPayload Value

pub record DamEvent (Time : Type 0) (Value : Type 0) : Type 0 where
  pub schema_version : ℕ
  pub event_id : Bytes
  pub observed_at : Time
  pub monotonic_timestamp_ns : ℕ
  pub customer_id : Bytes
  pub tenant_id : Bytes
  pub source_id : Bytes
  pub regional_cell_id : Bytes
  pub capture : CaptureMetadata
  pub kubernetes : Option KubernetesMetadata
  pub process : Option ProcessMetadata
  pub identity : Option ExternalIdentity
  pub payload : EventPayload Value

pub record DamBatch (Time : Type 0) (Value : Type 0) : Type 0 where
  pub schema_version : ℕ
  pub batch_id : Bytes
  pub customer_id : Bytes
  pub tenant_id : Bytes
  pub source_id : Bytes
  pub regional_cell_id : Bytes
  pub created_at : Time
  pub events : List (DamEvent Time Value)
