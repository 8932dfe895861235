-- ===== src/Observer/Events.antt =====
-- How the event processor of crates/observer/src/lib.rs makes an event: `seed`, `event` and
-- `event_from_seed`, and the metadata of a connection with its cache of endpoints.
use mongodb_dam.Common.{
  ℕ, ◌+◌, ◌-◌, ◌%◌, ◌^◌, ◌==◌, Bool, true, false, not, ◌&&◌, ◌||◌, Option, none, some, Bytes, List,
  [], ◌∷◌, ◌++◌, ltb, if◌then◌else◌, take, codes, to_decimal,
}
use mongodb_dam.Common.Int.{ℤ, is_below, int_eq}
use mongodb_dam.Common.Maps.{lookup, insert}
use mongodb_dam.Common.Numerals.{hex_digits, le_bytes}
use mongodb_dam.Protocol.Libraries.{Libraries}
use mongodb_dam.Schema.Types.{
  DamEvent, EventPayload, CaptureConfidence, complete, partial, inferred, ConnectionMetadata,
  NetworkEndpoint, event_schema_version,
}
use mongodb_dam.Observer.State.{
  KernelEvent, Host, EventSeed, ConnectionState, EndpointCacheEntry, EventProcessor,
}
use mongodb_dam.Observer.Codes.{event_io_chunk, event_syscall_latency, event_connection, op_offcpu}
use mongodb_dam.Observer.Kernel.{command}
use mongodb_dam.Observer.Commands.{capture_source}
use mongodb_dam.Observer.Proc.{
  process_executable, process_credentials, process_command, pod_metadata, resolve_socket_endpoints,
}

abbrev pub same_connection : ℕ × ℕ → ℕ × ℕ → Bool
same_connection (a, b) (c, d) = a == c && b == d

abbrev pub same_fd : ℕ × ℤ → ℕ × ℤ → Bool
same_fd (a, b) (c, d) = a == c && int_eq b d

-- `raw.bytes > raw.captured_len as u64`
abbrev pub is_truncated : KernelEvent → Bool
is_truncated raw = ltb raw.captured_len raw.bytes

-- `condition.then_some(value)`
abbrev pub then_some {ℓ} : {A : Type ℓ} → Bool → A → Option A
then_some true a = some a
then_some false a = none

abbrev pub default_connection : ConnectionState
default_connection = record {
  tcp_srtt_us = none;
  retransmits = 0;
  authenticated_principal_hash = none;
  pending_auth_principal_hash = none;
}

-- Whether the thread that runs in the kernel is not the one that the event is about.
abbrev pub foreign_kernel_context : KernelEvent → Bool
foreign_kernel_context raw =
    (raw.event_type == event_syscall_latency && raw.operation == op_offcpu)
    || raw.event_type == event_connection

abbrev pub confidence_of : KernelEvent → Bool → CaptureConfidence
confidence_of raw truncated =
    if truncated then partial else if raw.event_type == event_io_chunk then complete else inferred

abbrev pub tls_of : ℕ → Option Bool
tls_of source = if source == 2 then some true else if source == 1 then some false else none

abbrev or_command : Option Bytes → Bytes → Bytes
or_command (some name) fallback = name
or_command none fallback = fallback

abbrev pub first {ℓ} : {A B : Type ℓ} → Option (A × B) → Option A
first none = none
first (some (a, b)) = some a

abbrev pub second {ℓ} : {A B : Type ℓ} → Option (A × B) → Option B
second none = none
second (some (a, b)) = some b

module _ {Time : Type 0} (L : Libraries) (host : Host Time) where
  abbrev pub Event : Type 0
  Event = DamEvent Time L.Value

  abbrev pub Processor : Type 0
  Processor = EventProcessor Time L.Value

  unfoldable pub seed : Processor → KernelEvent → Bool → EventSeed Time
  unfolding command
  seed p raw truncated =
      let proc = p.config.host_proc in
      let credentials =
        if foreign_kernel_context raw
        then process_credentials host proc raw.tgid
        else some (raw.uid, raw.gid) in
      record {
        observed_at = host.now_utc;
        monotonic_timestamp_ns = raw.timestamp_ns;
        capture = record {
          sensor_id = p.config.sensor_id;
          node_name = p.config.node_name;
          source = capture_source raw.source;
          confidence = confidence_of raw truncated;
          metadata_only = true;
          truncated = truncated;
        };
        kubernetes = pod_metadata host proc raw.tgid p.config.cluster_name;
        process = some (record {
          pid = raw.pid;
          tgid = raw.tgid;
          uid = first credentials;
          gid = second credentials;
          cgroup_id = then_some (not (foreign_kernel_context raw)) raw.cgroup_id;
          command =
              if foreign_kernel_context raw
              then or_command (process_command host proc raw.tgid) (command raw)
              else command raw;
          executable = process_executable host proc raw.tgid;
        });
      }

  -- The identifier of the event with a sequence number.
  abbrev pub event_id_of : Bytes → ℕ → ℕ → Bytes
  event_id_of sensor_id timestamp_ns sequence =
      codes "evt-"
      ++ L.hex_encode
          (take 16 (L.sha256 (sensor_id ++ (le_bytes 8 timestamp_ns ++ le_bytes 8 sequence))))

  -- The sequence number wraps around.
  unfoldable pub event_from_seed :
      Processor → EventSeed Time → EventPayload L.Value → Event × Processor
  unfolding le_bytes
  event_from_seed p s payload =
      let sequence = (p.sequence + 1) % 2 ^ 64 in
      (
        record {
          schema_version = event_schema_version;
          event_id = event_id_of p.config.sensor_id s.monotonic_timestamp_ns sequence;
          observed_at = s.observed_at;
          monotonic_timestamp_ns = s.monotonic_timestamp_ns;
          customer_id = p.config.customer_id;
          tenant_id = p.config.tenant_id;
          source_id = p.config.source_id;
          regional_cell_id = p.config.regional_cell_id;
          capture = s.capture;
          kubernetes = s.kubernetes;
          process = s.process;
          identity = none;
          payload = payload;
        },
        record p { sequence = sequence },
      )

  abbrev pub event : Processor → KernelEvent → Bool → EventPayload L.Value → Event × Processor
  event p raw truncated payload = event_from_seed p (seed p raw truncated) payload

  -- `vec![self.event(…)]`
  abbrev pub one_event :
      Processor → KernelEvent → Bool → EventPayload L.Value → List Event × Processor
  one_event p raw truncated payload =
      let (made, p') = event p raw truncated payload in (made ∷ [], p')

  -- A resolved pair of endpoints goes into the cache.
  unfoldable pub cache_endpoints :
      Processor
      → ℕ × ℤ
      → Option (NetworkEndpoint × NetworkEndpoint)
      → Option (NetworkEndpoint × NetworkEndpoint) × Processor
  unfolding insert
  cache_endpoints p key none = (none, p)
  cache_endpoints p key (some (local, remote)) = (
    some (local, remote),
    record p {
      endpoint_cache =
          insert same_fd key (record { inserted_at = host.instant; local = local; remote = remote })
            p.endpoint_cache;
    },
  )

  -- `elapsed` is 0 for an instant that lies ahead.
  unfoldable pub cached_endpoints :
      Option EndpointCacheEntry → Option (NetworkEndpoint × NetworkEndpoint)
  cached_endpoints none = none
  cached_endpoints (some cached) =
      then_some (ltb (host.instant - cached.inserted_at) 5000000000) (cached.local, cached.remote)

  unfoldable pub use_cached :
      Processor
      → ℕ
      → ℤ
      → Option (NetworkEndpoint × NetworkEndpoint)
      → Option (NetworkEndpoint × NetworkEndpoint) × Processor
  unfolding cache_endpoints
  use_cached p tgid fd (some found) = (some found, p)
  use_cached p tgid fd none =
      cache_endpoints p (tgid, fd) (resolve_socket_endpoints host p.config.host_proc tgid fd)

  unfoldable pub socket_endpoints :
      Processor → ℕ → ℤ → Option (NetworkEndpoint × NetworkEndpoint) × Processor
  unfolding use_cached cached_endpoints lookup
  socket_endpoints p tgid fd =
      use_cached p tgid fd (cached_endpoints (lookup same_fd (tgid, fd) p.endpoint_cache))

  abbrev or_default : Option ConnectionState → ConnectionState
  or_default none = default_connection
  or_default (some state) = state

  -- The state of a connection, and `entry(key)` with a new state.
  unfoldable pub connection_state : Processor → ℕ × ℕ → ConnectionState
  unfolding lookup
  connection_state p key = or_default (lookup same_connection key p.connections)

  unfoldable pub with_connection : Processor → ℕ × ℕ → ConnectionState → Processor
  unfolding insert
  with_connection p key state = record p {
    connections = insert same_connection key state p.connections;
  }

  -- `(raw.fd >= 0).then(|| …).flatten()`
  unfoldable pub endpoints_of_fd :
      Processor → KernelEvent → Option (NetworkEndpoint × NetworkEndpoint) × Processor
  unfolding socket_endpoints
  endpoints_of_fd p raw =
      if is_below raw.fd 0 then (none, p) else socket_endpoints p raw.tgid raw.fd

  unfoldable pub connection_metadata : Processor → KernelEvent → ConnectionMetadata × Processor
  unfolding endpoints_of_fd with_connection connection_state hex_digits to_decimal
  connection_metadata p raw =
      let key : ℕ × ℕ = (raw.tgid, raw.connection_key) in
      let state = connection_state p key in
      let (endpoints, p') = endpoints_of_fd (with_connection p key state) raw in
      (
        record {
          connection_id =
              p.config.node_name
              ++ (b':' ∷ to_decimal raw.tgid ++ (b':' ∷ hex_digits 16 raw.connection_key));
          fd = raw.fd;
          local = first endpoints;
          remote = second endpoints;
          tcp_srtt_us = state.tcp_srtt_us;
          retransmits = then_some (ltb 0 state.retransmits) state.retransmits;
          tls = tls_of raw.source;
        },
        p',
      )
