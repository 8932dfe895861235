-- ===== src/Observer/State.antt =====
-- The data types and constants of the event processor of crates/observer/src/lib.rs: the events of
-- the kernel, the configuration and the state. What the processor asks of the host, of the crates
-- sha2 and hex, and of the order of a hash map is the record `Host`.
use mongodb_dam.Common.{ℕ, Bool, Option, Bytes, List, []}
use mongodb_dam.Common.Int.{ℤ}
use mongodb_dam.Common.Maps.{Entries}
use mongodb_dam.Protocol.Types.{MongoCommand, DecodeError}
use mongodb_dam.Protocol.Stream.{StreamDecoder}
use mongodb_dam.Schema.Types.{
  CaptureMetadata, KubernetesMetadata, ProcessMetadata, ConnectionMetadata, NetworkEndpoint,
}
use mongodb_dam.Observer.Dns.{DnsError}

abbrev pub max_capture_bytes : ℕ
max_capture_bytes = 1024

abbrev pub max_pending_requests : ℕ
max_pending_requests = 32768

abbrev pub pending_request_ttl_ns : ℕ
pending_request_ttl_ns = 300000000000

-- `KernelEvent`: `comm` has 16 bytes and `data`, which is `data_bytes` here, has 1024.
pub record KernelEvent : Type 0 where
  pub timestamp_ns : ℕ
  pub connection_key : ℕ
  pub cgroup_id : ℕ
  pub duration_ns : ℕ
  pub bytes : ℕ
  pub result : ℤ
  pub pid : ℕ
  pub tgid : ℕ
  pub uid : ℕ
  pub gid : ℕ
  pub fd : ℤ
  pub original_len : ℕ
  pub captured_len : ℕ
  pub event_type : ℕ
  pub direction : ℕ
  pub source : ℕ
  pub operation : ℕ
  pub comm : Bytes
  pub data_bytes : Bytes

pub record CapturedKernelEvent : Type 0 where
  pub raw : KernelEvent
  pub user_stack_addresses : List ℕ
  pub kernel_stack_addresses : List ℕ

pub record ProcessorConfig : Type 0 where
  pub customer_id : Bytes
  pub tenant_id : Bytes
  pub source_id : Bytes
  pub regional_cell_id : Bytes
  pub sensor_id : Bytes
  pub node_name : Bytes
  pub cluster_name : Bytes
  pub host_proc : Bytes
  pub max_message_bytes : ℕ
  pub cpu_profile_hz : ℕ
  pub principal_hash_salt : Option Bytes
  pub capture_query_content : Bool

-- A key of `pending`: the process, the connection and the request.
abbrev pub RequestKey : Type 0
RequestKey = ℕ × ℕ × ℤ

-- What the processor sees of its surroundings during one call of `process`.
pub record Host (Time : Type 0) : Type 0 where
  -- `fs::read_link` and `fs::read_to_string` of the path below a directory, without the reason of a
  -- failure; the bytes of a link are the text of `to_string_lossy`
  pub read_link : Bytes → List Bytes → Option Bytes
  pub read_to_string : Bytes → List Bytes → Option Bytes
  -- `OffsetDateTime::now_utc`, and `Instant::now` in nanoseconds
  pub now_utc : Time
  pub instant : ℕ
  -- the place of a key in the order in which `pending` is iterated
  pub rank : RequestKey → ℕ

pub record EventSeed (Time : Type 0) : Type 0 where
  pub observed_at : Time
  pub monotonic_timestamp_ns : ℕ
  pub capture : CaptureMetadata
  pub kubernetes : Option KubernetesMetadata
  pub process : Option ProcessMetadata

pub record PendingRequest (Time : Type 0) (Value : Type 0) : Type 0 where
  pub command : MongoCommand Value
  pub target_principal_hash : Option Bytes
  pub actor_principal_hash : Option Bytes
  pub connection_state_key : ℕ × ℕ
  pub request_id : ℤ
  pub request_bytes : ℕ
  pub compressed : Bool
  pub expects_response : Bool
  pub seed : EventSeed Time
  pub connection : ConnectionMetadata

pub record PendingDnsQuery : Type 0 where
  pub timestamp_ns : ℕ
  pub name : Option Bytes
  pub record_type : Option Bytes

pub record ConnectionState : Type 0 where
  pub tcp_srtt_us : Option ℕ
  pub retransmits : ℕ
  pub authenticated_principal_hash : Option Bytes
  pub pending_auth_principal_hash : Option Bytes

pub record EndpointCacheEntry : Type 0 where
  pub inserted_at : ℕ
  pub local : NetworkEndpoint
  pub remote : NetworkEndpoint

pub record EventProcessor (Time : Type 0) (Value : Type 0) : Type 0 where
  pub config : ProcessorConfig
  pub streams : Entries (ℕ × ℕ × ℕ) StreamDecoder
  pub pending : Entries RequestKey (PendingRequest Time Value)
  pub pending_dns : Entries (ℕ × ℕ × ℕ) PendingDnsQuery
  pub connections : Entries (ℕ × ℕ) ConnectionState
  pub endpoint_cache : Entries (ℕ × ℤ) EndpointCacheEntry
  pub sequence : ℕ

-- `EventProcessor::new`
abbrev pub new_processor : {Time Value : Type 0} → ProcessorConfig → EventProcessor Time Value
new_processor config = record {
  config = config;
  streams = [];
  pending = [];
  pending_dns = [];
  connections = [];
  endpoint_cache = [];
  sequence = 0;
}

-- The texts of the errors of `process`.
pub data ProcessError : Type 0 where
  undecodable : DecodeError → ProcessError
  invalid_dns : DnsError → ProcessError
  unsupported_event_type : ℕ → ProcessError
