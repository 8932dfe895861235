-- ===== src/Observer/Processor.antt =====
-- `EventProcessor::process` of crates/observer/src/lib.rs, and the calls one after the other: each
-- call has its own view of the host.
use mongodb_dam.Common.{◌==◌, List, if◌then◌else◌}
use mongodb_dam.Common.Outcome.{ok, err}
use mongodb_dam.Protocol.Libraries.{Libraries}
use mongodb_dam.Observer.State.{CapturedKernelEvent, Host, unsupported_event_type}
use mongodb_dam.Observer.Codes.{
  event_io_chunk, event_syscall_latency, event_connection, event_profile, event_process,
  event_dns_chunk,
}
use mongodb_dam.Observer.Events.{Event, Processor}
use mongodb_dam.Observer.Messages.{Processed, process_io_chunk}
use mongodb_dam.Observer.DnsQueries.{process_dns}
use mongodb_dam.Observer.ConnectionEvents.{process_connection}
use mongodb_dam.Observer.Kinds.{process_latency, process_profile, process_exec_or_exit}

module _ {Time : Type 0} (L : Libraries) (host : Host Time) where
  -- `Ok(…)`
  abbrev pub processed : List (Event L host) × Processor L host → Processed L host
  processed (events, p) = (ok events, p)

  unfoldable pub process : Processor L host → CapturedKernelEvent → Processed L host
  unfolding process_io_chunk process_dns process_latency process_connection process_profile
      process_exec_or_exit
  process p captured =
      let raw = captured.raw in
      if raw.event_type == event_io_chunk
      then process_io_chunk L host p raw
      else if raw.event_type == event_syscall_latency
      then processed (process_latency L host p raw)
      else if raw.event_type == event_connection
      then processed (process_connection L host p raw)
      else if raw.event_type == event_profile
      then processed (process_profile L host p captured)
      else if raw.event_type == event_process
      then processed (process_exec_or_exit L host p raw)
      else if raw.event_type == event_dns_chunk
      then process_dns L host p raw
      else (err (unsupported_event_type raw.event_type), p)
