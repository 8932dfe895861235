-- ===== src/Observer/Kinds.antt =====
-- The handlers of crates/observer/src/lib.rs that only make an event: `process_latency`,
-- `process_profile`, and `process_lifecycle`, which also drops the state of a process that ends.
use mongodb_dam.Common.{
  ℕ, ◌/◌, ◌^◌, ◌==◌, false, not, Option, none, some, Bytes, List, [], if◌then◌else◌, ltb, codes,
}
use mongodb_dam.Common.Int.{ℤ, pos, negsuc, is_below}
use mongodb_dam.Common.Maps.{retain}
use mongodb_dam.Protocol.Libraries.{Libraries}
use mongodb_dam.Schema.Types.{host_io, profile, process_lifecycle}
use mongodb_dam.Observer.State.{KernelEvent, CapturedKernelEvent, Host}
use mongodb_dam.Observer.Codes.{
  op_pread, op_pwrite, op_fsync, op_openat, op_offcpu, op_cpu_sample, op_fdatasync, op_lock_wait,
  op_page_fault, op_process_exec, op_process_exit,
}
use mongodb_dam.Observer.Proc.{process_executable}
use mongodb_dam.Observer.Events.{Event, Processor, one_event, then_some}

-- The name of an operation on files, if there is one.
abbrev pub latency_operation : ℕ → Option Bytes
latency_operation op =
    if op == op_pread
    then some (codes "pread")
    else if op == op_pwrite
    then some (codes "pwrite")
    else if op == op_fsync
    then some (codes "fsync")
    else if op == op_fdatasync
    then some (codes "fdatasync")
    else if op == op_openat
    then some (codes "openat")
    else if op == op_page_fault
    then some (codes "page_fault")
    else none

-- `i32::try_from(value).unwrap_or(-1)`
abbrev i32_or_minus_one : ℤ → ℤ
i32_or_minus_one (pos n) = if ltb n (2 ^ 31) then pos n else negsuc 0
i32_or_minus_one (negsuc n) = if ltb n (2 ^ 31) then negsuc n else negsuc 0

module _ {Time : Type 0} (L : Libraries) (host : Host Time) where
  unfoldable pub host_io_event :
      Processor L host → KernelEvent → Option Bytes → List (Event L host) × Processor L host
  host_io_event p raw none = ([], p)
  host_io_event p raw (some operation) = one_event L host p raw false (
      host_io (record {
        operation = operation;
        duration_us = raw.duration_ns / 1000;
        bytes = then_some (ltb 0 raw.bytes) raw.bytes;
        fd = then_some (not (is_below raw.fd 0)) raw.fd;
        result = raw.result;
      }))

  unfoldable pub process_latency :
      Processor L host → KernelEvent → List (Event L host) × Processor L host
  unfolding host_io_event
  process_latency p raw =
      if raw.operation == op_offcpu
      then one_event L host p raw false (
          profile (record {
            profile_type = codes "off_cpu";
            period_hz = 0;
            count = 1;
            user_stack_id = negsuc 0;
            kernel_stack_id = negsuc 0;
            duration_us = some (raw.duration_ns / 1000);
            user_stack_addresses = [];
            kernel_stack_addresses = [];
          }))
      else host_io_event p raw (latency_operation raw.operation)

  unfoldable pub process_profile :
      Processor L host → CapturedKernelEvent → List (Event L host) × Processor L host
  process_profile p captured =
      let raw = captured.raw in
      if raw.operation == op_cpu_sample
      then one_event L host p raw false (
          profile (record {
            profile_type = codes "on_cpu";
            period_hz = p.config.cpu_profile_hz;
            count = 1;
            user_stack_id = i32_or_minus_one raw.result;
            kernel_stack_id = raw.fd;
            duration_us = none;
            user_stack_addresses = captured.user_stack_addresses;
            kernel_stack_addresses = captured.kernel_stack_addresses;
          }))
      else if raw.operation == op_lock_wait
      then one_event L host p raw false (
          profile (record {
            profile_type = codes "pthread_mutex_wait";
            period_hz = 0;
            count = 1;
            user_stack_id = negsuc 0;
            kernel_stack_id = negsuc 0;
            duration_us = some (raw.duration_ns / 1000);
            user_stack_addresses = captured.user_stack_addresses;
            kernel_stack_addresses = captured.kernel_stack_addresses;
          }))
      else ([], p)

  -- A process that ends takes all of its state along.
  unfoldable pub exited : Processor L host → ℕ → Processor L host
  unfolding retain
  exited p tgid = record p {
    streams = retain (λ (k : ℕ × ℕ × ℕ) _. not (k.0 == tgid)) p.streams;
    pending = retain (λ (k : ℕ × ℕ × ℤ) _. not (k.0 == tgid)) p.pending;
    pending_dns = retain (λ (k : ℕ × ℕ × ℕ) _. not (k.0 == tgid)) p.pending_dns;
    connections = retain (λ (k : ℕ × ℕ) _. not (k.0 == tgid)) p.connections;
    endpoint_cache = retain (λ (k : ℕ × ℤ) _. not (k.0 == tgid)) p.endpoint_cache;
  }

  abbrev lifecycle_event :
      Processor L host → KernelEvent → Bytes → List (Event L host) × Processor L host
  lifecycle_event p raw state = one_event L host p raw false (
      process_lifecycle (record {
        state = state;
        executable = process_executable host p.config.host_proc raw.tgid;
      }))

  unfoldable pub process_exec_or_exit :
      Processor L host → KernelEvent → List (Event L host) × Processor L host
  unfolding exited
  process_exec_or_exit p raw =
      if raw.operation == op_process_exec
      then lifecycle_event p raw (codes "exec")
      else if raw.operation == op_process_exit
      then lifecycle_event (exited p raw.tgid) raw (codes "exit")
      else ([], p)
