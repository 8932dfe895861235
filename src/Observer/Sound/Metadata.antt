-- ===== src/Observer/Sound/Metadata.antt =====
-- `event_from_seed`, `connection_metadata` and the like of crates/observer/src/lib.rs keep the
-- processor valid.
use mongodb_dam.Common.{
  ℕ, ◌+◌, ◌%◌, ◌^◌, refl, Bool, true, Option, none, some, Option-cases, Bool-cases, inl, inr, subst,
  sym,
}
use mongodb_dam.Common.Int.{is_below, ℤ}
use mongodb_dam.Common.Maps.{lookup, lookup-AllEntries, insert-AllEntries, Entries}
use mongodb_dam.Common.Space.{is_blank}
use mongodb_dam.Protocol.Libraries.{Libraries}
use mongodb_dam.Schema.Types.{EventPayload, NetworkEndpoint}
use mongodb_dam.Schema.Validate.Accepts.{IsCaptured}
use mongodb_dam.Observer.State.{
  ProcessorConfig, Host, KernelEvent, EventSeed, ConnectionState, EndpointCacheEntry,
}
use mongodb_dam.Observer.Events.{
  Processor, seed, event_from_seed, event, one_event, cache_endpoints, use_cached, socket_endpoints,
  connection_state, with_connection, endpoints_of_fd, connection_metadata, same_connection,
  default_connection,
}
use mongodb_dam.Observer.Sound.{
  next, IsCapture, IsSeed, IsPrivate, IsConnection, IsEventOf, IsValid, Emits,
}

module _ {Time : Type 0} (L : Libraries) (host : Host Time) (config : ProcessorConfig) where
  abbrev Valid : ℕ → Processor L host → Type 0
  Valid = IsValid L config

  -- The cache of the endpoints is free.
  pub with_cache-IsValid :
      (n : ℕ) (p : Processor L host) (cache : Entries (ℕ × ℤ) EndpointCacheEntry)
      → Valid n p
      → Valid n (record p { endpoint_cache = cache })
  with_cache-IsValid n p cache v = record {
    configured = v.configured;
    sequence = v.sequence;
    streams = v.streams;
    pending = v.pending;
    pending_bound = v.pending_bound;
    pending_dns_bound = v.pending_dns_bound;
    connections = v.connections;
  }

  pub with_connection-IsValid :
      (n : ℕ) (p : Processor L host) (key : ℕ × ℕ) (state : ConnectionState)
      → Valid n p
      → IsConnection L config state
      → Valid n (with_connection L host p key state)
  unfolding with_connection
  with_connection-IsValid n p key state v c = record {
    configured = v.configured;
    sequence = v.sequence;
    streams = v.streams;
    pending = v.pending;
    pending_bound = v.pending_bound;
    pending_dns_bound = v.pending_dns_bound;
    connections =
        insert-AllEntries same_connection (λ _ s. IsConnection L config s) key state p.connections c
          v.connections;
  }

  pub default-IsConnection : IsConnection L config default_connection
  default-IsConnection = record { authenticated = tt; pending = tt }

  pub connection_state-IsConnection :
      (n : ℕ) (p : Processor L host) (key : ℕ × ℕ)
      → Valid n p
      → IsConnection L config (connection_state L host p key)
  unfolding connection_state
  connection_state-IsConnection n p key v =
      elim (Option-cases (lookup same_connection key p.connections)) [
        | inl missing ↦ rw missing default-IsConnection
        | inr (state, found) ↦
            rw found
              (lookup-AllEntries same_connection (λ _ s. IsConnection L config s) key p.connections
                state v.connections found).2
      ]

  cache_endpoints-IsValid :
      (n : ℕ) (p : Processor L host) (key : ℕ × ℤ)
      (found : Option (NetworkEndpoint × NetworkEndpoint))
      → Valid n p
      → Valid n (cache_endpoints L host p key found).1
  unfolding cache_endpoints
  cache_endpoints-IsValid n p key none v = v
  cache_endpoints-IsValid n p key (some (l, r)) v = with_cache-IsValid n p _ v

  use_cached-IsValid :
      (n : ℕ) (p : Processor L host) (tgid : ℕ) (fd : ℤ)
      (found : Option (NetworkEndpoint × NetworkEndpoint))
      → Valid n p
      → Valid n (use_cached L host p tgid fd found).1
  unfolding use_cached
  use_cached-IsValid n p tgid fd (some found) v = v
  use_cached-IsValid n p tgid fd none v = cache_endpoints-IsValid n p (tgid, fd) _ v

  endpoints_of_fd-IsValid :
      (n : ℕ) (p : Processor L host) (raw : KernelEvent)
      → Valid n p
      → Valid n (endpoints_of_fd L host p raw).1
  unfolding endpoints_of_fd socket_endpoints
  endpoints_of_fd-IsValid n p raw v = elim (Bool-cases (is_below raw.fd 0)) [
    | inl below ↦ rw below v
    | inr fd ↦ rw fd (use_cached-IsValid n p raw.tgid raw.fd _ v)
  ]

  pub connection_metadata-IsValid :
      (n : ℕ) (p : Processor L host) (raw : KernelEvent)
      → Valid n p
      → Valid n (connection_metadata L host p raw).1
  unfolding connection_metadata
  connection_metadata-IsValid n p raw v =
      let key : ℕ × ℕ = (raw.tgid, raw.connection_key) in
      endpoints_of_fd-IsValid n (with_connection L host p key (connection_state L host p key)) raw (
        with_connection-IsValid n p key (connection_state L host p key) v
          (connection_state-IsConnection n p key v))

  pub seed-IsSeed :
      (n : ℕ) (p : Processor L host) (raw : KernelEvent) (truncated : Bool)
      → Valid n p
      → IsSeed L config (seed L host p raw truncated)
  unfolding seed
  seed-IsSeed n p raw truncated v = record {
    capture = record { sensor = rw v.configured refl; node = rw v.configured refl };
    metadata_only = refl;
  }

  pub event_from_seed-Emits :
      (n : ℕ) (p : Processor L host) (s : EventSeed Time) (payload : EventPayload L.Value)
      → Valid n p
      → IsCapture L config s.capture
      → IsCaptured s.capture.metadata_only payload
      → IsPrivate L config payload
      → IsEventOf L config (next n) (event_from_seed L host p s payload).0
        × Valid ((n + 1) % 2 ^ 64) (event_from_seed L host p s payload).1
  unfolding event_from_seed is_blank
  event_from_seed-Emits n p s payload v capture captured private = (
    record {
      version = refl;
      numbered = rw v.configured (rw v.sequence refl);
      event_id = refl;
      customer = rw v.configured refl;
      tenant = rw v.configured refl;
      source = rw v.configured refl;
      cell = rw v.configured refl;
      capture = capture;
      captured = captured;
      private = private;
      no_identity = refl;
    },
    record {
      configured = v.configured;
      sequence = rw v.sequence refl;
      streams = v.streams;
      pending = v.pending;
      pending_bound = v.pending_bound;
      pending_dns_bound = v.pending_dns_bound;
      connections = v.connections;
    },
  )

  -- The event of a handler that makes one.
  pub one_event-Emits :
      (n : ℕ) (p : Processor L host) (raw : KernelEvent) (truncated : Bool)
      (payload : EventPayload L.Value)
      → Valid n p
      → IsCaptured true payload
      → IsPrivate L config payload
      → Emits L config n (one_event L host p raw truncated payload)
  one_event-Emits n p raw truncated payload v captured private =
      let s = seed-IsSeed n p raw truncated v in
      let (event, after) =
        event_from_seed-Emits n p (seed L host p raw truncated) payload v s.capture
          (subst (λ b. IsCaptured b payload) (sym s.metadata_only) captured) private in
      record { events = (event, tt); after = after }
