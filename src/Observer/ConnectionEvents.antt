-- ===== src/Observer/ConnectionEvents.antt =====
-- `process_connection` of crates/observer/src/lib.rs.
use mongodb_dam.Common.{
  ℕ, ◌+◌, ◌-◌, ◌/◌, ◌^◌, ◌==◌, false, not, Option, none, some, Bytes, List, [], if◌then◌else◌, min,
  ltb, codes,
}
use mongodb_dam.Common.Int.{ℤ}
use mongodb_dam.Common.Maps.{remove, retain}
use mongodb_dam.Protocol.Libraries.{Libraries}
use mongodb_dam.Schema.Types.{mongodb_connection}
use mongodb_dam.Observer.State.{KernelEvent, Host, ConnectionState}
use mongodb_dam.Observer.Codes.{
  op_tcp_connect, op_tcp_accept, op_tcp_close, op_tcp_rtt, op_tcp_retransmit, op_tcp_handshake,
  op_tcp_reset_received, op_tcp_reset_sent, op_tcp_zero_window, op_tcp_timeout,
}
use mongodb_dam.Observer.Events.{
  Event, Processor, one_event, then_some, connection_state, with_connection, connection_metadata,
  same_connection,
}

-- What a connection event does to the state of its connection.
unfoldable pub changed : KernelEvent → ConnectionState → ConnectionState
changed raw state =
    if raw.operation == op_tcp_rtt
    then record state { tcp_srtt_us = some (min (raw.duration_ns / 1000) (2 ^ 32 - 1)) }
    else if raw.operation == op_tcp_retransmit
    then record state { retransmits = min (state.retransmits + 1) (2 ^ 32 - 1) }
    else state

abbrev pub Change : Type 0
Change = Bytes × Option ℕ × Option Bytes

-- The name, the duration and the reason of a connection event, if its operation is known.
abbrev pub connection_change : KernelEvent → Option Change
connection_change raw =
    let waited = then_some (ltb 0 raw.duration_ns) (raw.duration_ns / 1000) in
    if raw.operation == op_tcp_connect
    then some (codes "connect_started", none, none)
    else if raw.operation == op_tcp_accept
    then some (codes "accepted", none, none)
    else if raw.operation == op_tcp_close
    then some (codes "closed", none, none)
    else if raw.operation == op_tcp_rtt
    then some (codes "rtt_sample", some (raw.duration_ns / 1000), none)
    else if raw.operation == op_tcp_retransmit
    then some (codes "retransmit", none, none)
    else if raw.operation == op_tcp_handshake
    then some (codes "handshake_established", waited, none)
    else if raw.operation == op_tcp_reset_received
    then some (codes "reset", none, some (codes "peer_reset"))
    else if raw.operation == op_tcp_reset_sent
    then some (codes "reset", none, some (codes "active_reset"))
    else if raw.operation == op_tcp_zero_window
    then some (codes "zero_window", none, some (codes "peer_advertised_zero_window"))
    else if raw.operation == op_tcp_timeout
    then some (codes "timeout", waited, some (codes "connect_or_retransmission_timeout"))
    else none

module _ {Time : Type 0} (L : Libraries) (host : Host Time) where
  -- A closed connection takes all of its state along.
  unfoldable pub closed : Processor L host → ℕ × ℕ → Processor L host
  unfolding remove retain
  closed p key = record p {
    connections = remove same_connection key p.connections;
    streams = retain (λ (k : ℕ × ℕ × ℕ) _. not (same_connection (k.0, k.1) key)) p.streams;
    pending = retain (λ (k : ℕ × ℕ × ℤ) _. not (same_connection (k.0, k.1) key)) p.pending;
    pending_dns = retain (λ (k : ℕ × ℕ × ℕ) _. not (same_connection (k.0, k.1) key)) p.pending_dns;
  }

  unfoldable pub connection_event :
      Processor L host → KernelEvent → Option Change → List (Event L host) × Processor L host
  unfolding closed connection_metadata
  connection_event p raw none = ([], p)
  connection_event p raw (some (name, duration_us, reason)) =
      let (connection, p1) = connection_metadata L host p raw in
      let p2 =
        if raw.operation == op_tcp_close then closed p1 (raw.tgid, raw.connection_key) else p1 in
      one_event L host p2 raw false (
        mongodb_connection (record {
          state = name;
          connection = connection;
          duration_us = duration_us;
          reason = reason;
        }))

  -- An unknown operation leaves an entry for the connection too.
  unfoldable pub process_connection :
      Processor L host → KernelEvent → List (Event L host) × Processor L host
  unfolding connection_event changed connection_state with_connection
  process_connection p raw =
      let key : ℕ × ℕ = (raw.tgid, raw.connection_key) in
      connection_event (with_connection L host p key (changed raw (connection_state L host p key)))
        raw (connection_change raw)
