-- ===== src/Observer/Sound/Handlers.antt =====
-- The handlers of crates/observer/src/lib.rs that make one event keep the processor valid.
use mongodb_dam.Common.{
  ℕ, refl, arith, false, not, Option, none, some, Bytes, List, [], ◌==◌, if_both,
}
use mongodb_dam.Common.Maps.{length-retain, retain-AllEntries, remove-AllEntries}
use mongodb_dam.Common.Int.{ℤ}
use mongodb_dam.Protocol.Libraries.{Libraries}
use mongodb_dam.Observer.State.{
  ProcessorConfig, Host, KernelEvent, CapturedKernelEvent, ConnectionState, PendingDnsQuery,
}
use mongodb_dam.Observer.Codes.{
  op_tcp_rtt, op_tcp_retransmit, op_tcp_close, op_offcpu, op_cpu_sample, op_lock_wait,
  op_process_exec, op_process_exit,
}
use mongodb_dam.Observer.Events.{
  Event, Processor, same_connection, connection_state, connection_metadata,
}
use mongodb_dam.Observer.Requests.{Request}
use mongodb_dam.Observer.ConnectionEvents.{
  Change, changed, connection_change, closed, connection_event, process_connection,
}
use mongodb_dam.Observer.Kinds.{
  latency_operation, host_io_event, process_latency, process_profile, exited, process_exec_or_exit,
}
use mongodb_dam.Observer.Sound.{IsRequest, IsConnection, IsValid, Emits}
use mongodb_dam.Observer.Sound.Metadata.{
  with_connection-IsValid, connection_state-IsConnection, connection_metadata-IsValid,
  one_event-Emits,
}

module _ {Time : Type 0} (L : Libraries) (host : Host Time) (config : ProcessorConfig) where
  abbrev Valid : ℕ → Processor L host → Type 0
  Valid = IsValid L config

  abbrev Emitting : ℕ → List (Event L host) × Processor L host → Type 0
  Emitting = Emits L config

  -- A handler that does nothing.
  nothing : (n : ℕ) (p : Processor L host) → Valid n p → Emitting n ([], p)
  nothing n p v = record { events = tt; after = v }

  changed-IsConnection :
      (raw : KernelEvent) (state : ConnectionState)
      → IsConnection L config state
      → IsConnection L config (changed raw state)
  unfolding changed
  changed-IsConnection raw state c =
      let same : (srtt : Option ℕ) (count : ℕ)
          → IsConnection L config (record state { tcp_srtt_us = srtt; retransmits = count }) =
        λ _ _. record { authenticated = c.authenticated; pending = c.pending } in
      if_both (IsConnection L config) (raw.operation == op_tcp_rtt) _ _ (same _ _)
        (if_both (IsConnection L config) (raw.operation == op_tcp_retransmit) _ _ (same _ _) c)

  closed-IsValid :
      (n : ℕ) (p : Processor L host) (key : ℕ × ℕ) → Valid n p → Valid n (closed L host p key)
  unfolding closed
  closed-IsValid n p key v = record {
    configured = v.configured;
    sequence = v.sequence;
    streams = retain-AllEntries _ _ p.streams v.streams;
    pending = retain-AllEntries (λ _ r. IsRequest L config r) _ p.pending v.pending;
    pending_bound = omega (
      arith,
      v.pending_bound,
      length-retain (λ (k : ℕ × ℕ × ℤ) (_ : Request L host). not (same_connection (k.0, k.1) key))
          p.pending,
    );
    pending_dns_bound = omega (
      arith,
      v.pending_dns_bound,
      length-retain (λ (k : ℕ × ℕ × ℕ) (_ : PendingDnsQuery). not (same_connection (k.0, k.1) key))
          p.pending_dns,
    );
    connections =
        remove-AllEntries same_connection (λ _ s. IsConnection L config s) key p.connections
          v.connections;
  }

  exited-IsValid :
      (n : ℕ) (p : Processor L host) (tgid : ℕ) → Valid n p → Valid n (exited L host p tgid)
  unfolding exited
  exited-IsValid n p tgid v = record {
    configured = v.configured;
    sequence = v.sequence;
    streams = retain-AllEntries _ _ p.streams v.streams;
    pending = retain-AllEntries (λ _ r. IsRequest L config r) _ p.pending v.pending;
    pending_bound = omega (
      arith,
      v.pending_bound,
      length-retain (λ (k : ℕ × ℕ × ℤ) (_ : Request L host). not (k.0 == tgid)) p.pending,
    );
    pending_dns_bound = omega (
      arith,
      v.pending_dns_bound,
      length-retain (λ (k : ℕ × ℕ × ℕ) (_ : PendingDnsQuery). not (k.0 == tgid)) p.pending_dns,
    );
    connections = retain-AllEntries (λ _ s. IsConnection L config s) _ p.connections v.connections;
  }

  connection_event-Emits :
      (n : ℕ) (p : Processor L host) (raw : KernelEvent) (change : Option Change)
      → Valid n p
      → Emitting n (connection_event L host p raw change)
  unfolding connection_event
  connection_event-Emits n p raw none v = nothing n p v
  connection_event-Emits n p raw (some (name, duration_us, reason)) v =
      let w = connection_metadata-IsValid L host config n p raw v in
      let p1 = (connection_metadata L host p raw).1 in
      one_event-Emits L host config n _ raw false _
        (if_both (Valid n) (raw.operation == op_tcp_close) _ p1
          (closed-IsValid n p1 (raw.tgid, raw.connection_key) w) w)
        refl tt

  pub process_connection-Emits :
      (n : ℕ) (p : Processor L host) (raw : KernelEvent)
      → Valid n p
      → Emitting n (process_connection L host p raw)
  unfolding process_connection
  process_connection-Emits n p raw v =
      let key : ℕ × ℕ = (raw.tgid, raw.connection_key) in
      connection_event-Emits n _ raw (connection_change raw) (
        with_connection-IsValid L host config n p key _ v (
          changed-IsConnection raw (connection_state L host p key)
            (connection_state-IsConnection L host config n p key v)))

  host_io_event-Emits :
      (n : ℕ) (p : Processor L host) (raw : KernelEvent) (operation : Option Bytes)
      → Valid n p
      → Emitting n (host_io_event L host p raw operation)
  unfolding host_io_event
  host_io_event-Emits n p raw none v = nothing n p v
  host_io_event-Emits n p raw (some operation) v =
      one_event-Emits L host config n p raw false _ v refl tt

  pub process_latency-Emits :
      (n : ℕ) (p : Processor L host) (raw : KernelEvent)
      → Valid n p
      → Emitting n (process_latency L host p raw)
  unfolding process_latency
  process_latency-Emits n p raw v =
      if_both (Emitting n) (raw.operation == op_offcpu) _ _
        (one_event-Emits L host config n p raw false _ v refl tt)
        (host_io_event-Emits n p raw (latency_operation raw.operation) v)

  pub process_profile-Emits :
      (n : ℕ) (p : Processor L host) (captured : CapturedKernelEvent)
      → Valid n p
      → Emitting n (process_profile L host p captured)
  unfolding process_profile
  process_profile-Emits n p captured v =
      if_both (Emitting n) (captured.raw.operation == op_cpu_sample) _ _
        (one_event-Emits L host config n p captured.raw false _ v refl tt)
        (if_both (Emitting n) (captured.raw.operation == op_lock_wait) _ _
          (one_event-Emits L host config n p captured.raw false _ v refl tt) (nothing n p v))

  pub process_exec_or_exit-Emits :
      (n : ℕ) (p : Processor L host) (raw : KernelEvent)
      → Valid n p
      → Emitting n (process_exec_or_exit L host p raw)
  unfolding process_exec_or_exit
  process_exec_or_exit-Emits n p raw v =
      if_both (Emitting n) (raw.operation == op_process_exec) _ _
        (one_event-Emits L host config n p raw false _ v refl tt)
        (if_both (Emitting n) (raw.operation == op_process_exit) _ _
          (one_event-Emits L host config n (exited L host p raw.tgid) raw false _
            (exited-IsValid n p raw.tgid v) refl tt)
          (nothing n p v))
