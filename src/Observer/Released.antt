-- ===== src/Observer/Released.antt =====
-- What a closed connection and an ended process leave behind in the event processor of
-- crates/observer/src/lib.rs.
use mongodb_dam.Common.{ℕ, ◌≡◌, refl, arith, Bool, true, false, not, none, some, ◌==◌, List, codes}
use mongodb_dam.Common.Int.{ℤ}
use mongodb_dam.Common.Maps.{
  AllEntries, AllEntries-mono, lookup, retain, retain-kept, lookup-remove,
}
use mongodb_dam.Protocol.Libraries.{Libraries}
use mongodb_dam.Schema.Types.{EventPayload}
use mongodb_dam.Observer.State.{Host, KernelEvent}
use mongodb_dam.Observer.Codes.{op_tcp_close, op_process_exec, op_process_exit}
use mongodb_dam.Observer.Events.{
  Processor, event_from_seed, one_event, same_connection, connection_state, with_connection,
}
use mongodb_dam.Observer.ConnectionEvents.{
  Change, changed, connection_change, closed, connection_event, process_connection,
}
use mongodb_dam.Observer.Kinds.{exited, process_exec_or_exit}

module _ {Time : Type 0} (L : Libraries) (host : Host Time) where
  -- Nothing is left of a connection.
  pub record IsReleased (key : ℕ × ℕ) (p : Processor L host) : Type 0 where
    pub connections : lookup same_connection key p.connections ≡ none
    pub streams : AllEntries (λ (k : ℕ × ℕ × ℕ) _. same_connection (k.0, k.1) key ≡ false) p.streams
    pub pending : AllEntries (λ (k : ℕ × ℕ × ℤ) _. same_connection (k.0, k.1) key ≡ false) p.pending
    pub pending_dns :
        AllEntries (λ (k : ℕ × ℕ × ℕ) _. same_connection (k.0, k.1) key ≡ false) p.pending_dns

  not-false : (b : Bool) → not b ≡ true → b ≡ false
  not-false b h = ground arith

  retain-AllFalse :
      {K V : Type 0} (test : K → Bool) (entries : List (K × V))
      → AllEntries (λ k _. test k ≡ false) (retain (λ k _. not (test k)) entries)
  retain-AllFalse test entries =
      AllEntries-mono (λ k _. not (test k) ≡ true) (λ k _. test k ≡ false)
        (retain (λ k _. not (test k)) entries) (λ k _ h. not-false (test k) h)
        (retain-kept (λ k _. not (test k)) entries)

  closed-IsReleased : (p : Processor L host) (key : ℕ × ℕ) → IsReleased key (closed L host p key)
  unfolding closed
  closed-IsReleased p key = record {
    connections = lookup-remove same_connection key p.connections;
    streams = retain-AllFalse (λ (k : ℕ × ℕ × ℕ). same_connection (k.0, k.1) key) p.streams;
    pending = retain-AllFalse (λ (k : ℕ × ℕ × ℤ). same_connection (k.0, k.1) key) p.pending;
    pending_dns = retain-AllFalse (λ (k : ℕ × ℕ × ℕ). same_connection (k.0, k.1) key) p.pending_dns;
  }

  one_event-IsReleased :
      (key : ℕ × ℕ) (p : Processor L host) (raw : KernelEvent) (payload : EventPayload L.Value)
      → IsReleased key p
      → IsReleased key (one_event L host p raw false payload).1
  unfolding event_from_seed
  one_event-IsReleased key p raw payload r = record {
    connections = r.connections;
    streams = r.streams;
    pending = r.pending;
    pending_dns = r.pending_dns;
  }

  connection_event-IsReleased :
      (p : Processor L host) (raw : KernelEvent) (change : Change)
      → (raw.operation == op_tcp_close) ≡ true
      → IsReleased (raw.tgid, raw.connection_key) (connection_event L host p raw (some change)).1
  unfolding connection_event
  connection_event-IsReleased p raw (name, duration_us, reason) h =
      one_event-IsReleased (raw.tgid, raw.connection_key) _ raw _
        (rw h (closed-IsReleased _ (raw.tgid, raw.connection_key)))

  closing :
      (raw : KernelEvent)
      → raw.operation ≡ op_tcp_close
      → connection_change raw ≡ some (codes "closed", none, none)
  closing raw h = rw h refl

  -- Behind the event that a connection is closed, nothing of it is left: no state, no stream, no
  -- request that waits and no DNS query.
  pub process_connection-IsReleased :
      (p : Processor L host) (raw : KernelEvent)
      → raw.operation ≡ op_tcp_close
      → IsReleased (raw.tgid, raw.connection_key) (process_connection L host p raw).1
  unfolding process_connection
  process_connection-IsReleased p raw h =
      let key : ℕ × ℕ = (raw.tgid, raw.connection_key) in
      rw (closing raw h) (
        connection_event-IsReleased
          (with_connection L host p key (changed raw (connection_state L host p key))) raw
          (codes "closed", none, none) (rw h refl))

  -- Nothing is left of a process.
  pub record IsForgotten (tgid : ℕ) (p : Processor L host) : Type 0 where
    pub streams : AllEntries (λ (k : ℕ × ℕ × ℕ) _. (k.0 == tgid) ≡ false) p.streams
    pub pending : AllEntries (λ (k : ℕ × ℕ × ℤ) _. (k.0 == tgid) ≡ false) p.pending
    pub pending_dns : AllEntries (λ (k : ℕ × ℕ × ℕ) _. (k.0 == tgid) ≡ false) p.pending_dns
    pub connections : AllEntries (λ (k : ℕ × ℕ) _. (k.0 == tgid) ≡ false) p.connections
    pub endpoint_cache : AllEntries (λ (k : ℕ × ℤ) _. (k.0 == tgid) ≡ false) p.endpoint_cache

  exited-IsForgotten : (p : Processor L host) (tgid : ℕ) → IsForgotten tgid (exited L host p tgid)
  unfolding exited
  exited-IsForgotten p tgid = record {
    streams = retain-AllFalse (λ (k : ℕ × ℕ × ℕ). k.0 == tgid) p.streams;
    pending = retain-AllFalse (λ (k : ℕ × ℕ × ℤ). k.0 == tgid) p.pending;
    pending_dns = retain-AllFalse (λ (k : ℕ × ℕ × ℕ). k.0 == tgid) p.pending_dns;
    connections = retain-AllFalse (λ (k : ℕ × ℕ). k.0 == tgid) p.connections;
    endpoint_cache = retain-AllFalse (λ (k : ℕ × ℤ). k.0 == tgid) p.endpoint_cache;
  }

  one_event-IsForgotten :
      (tgid : ℕ) (p : Processor L host) (raw : KernelEvent) (payload : EventPayload L.Value)
      → IsForgotten tgid p
      → IsForgotten tgid (one_event L host p raw false payload).1
  unfolding event_from_seed
  one_event-IsForgotten tgid p raw payload f = record {
    streams = f.streams;
    pending = f.pending;
    pending_dns = f.pending_dns;
    connections = f.connections;
    endpoint_cache = f.endpoint_cache;
  }

  -- Behind the event that a process ended, no map has an entry of it.
  pub process_exec_or_exit-IsForgotten :
      (p : Processor L host) (raw : KernelEvent)
      → raw.operation ≡ op_process_exit
      → IsForgotten raw.tgid (process_exec_or_exit L host p raw).1
  unfolding process_exec_or_exit
  process_exec_or_exit-IsForgotten p raw h =
      let not_exec : (raw.operation == op_process_exec) ≡ false = rw h refl in
      let exit : (raw.operation == op_process_exit) ≡ true = rw h refl in
      rw (not_exec, exit) (one_event-IsForgotten raw.tgid _ raw _ (exited-IsForgotten p raw.tgid))
