-- ===== src/Observer/Sound/Requests.antt =====
-- The events of `events_for_completed_request` and `process_message`, crates/observer/src/lib.rs.
use mongodb_dam.Common.{
  ap, sym, ℕ, ◌+◌, ◌-◌, ◌/◌, ◌%◌, ◌^◌, ◌≡◌, refl, subst, arith, Bool, true, false, not, ◌||◌, ◌&&◌,
  Option, none, some, Bytes, Bool-cases, Option-cases, inl, inr, if◌then◌else◌, if_both,
}
use mongodb_dam.Common.Int.{ℤ, is_int}
use mongodb_dam.Common.Maps.{lookup, lookup-AllEntries, remove-AllEntries, length-remove}
use mongodb_dam.Common.Outcome.{OnSome}
use mongodb_dam.Protocol.Types.{MongoCommand}
use mongodb_dam.Protocol.Libraries.{Libraries}
use mongodb_dam.Protocol.Message.{Message}
use mongodb_dam.Schema.Types.{mongodb_activity, mongodb_auth}
use mongodb_dam.Schema.Validate.{is_some}
use mongodb_dam.Observer.State.{ProcessorConfig, Host, KernelEvent, EventSeed, ConnectionState}
use mongodb_dam.Observer.Commands.{
  hashed, is_bool, is_auth_command, command_carries_authentication,
  authentication_exchange_completed, take_hashed_principal,
}
use mongodb_dam.Observer.Events.{Processor, event_from_seed, connection_state}
use mongodb_dam.Observer.Requests.{
  Request, Response, same_request, or_else, succeeded_of, auth_done_of, settled_state,
  settle_session, query_of, activity_seed, activity_of, auth_of, auth_events,
  events_for_completed_request,
}
use mongodb_dam.Observer.Messages.{
  announced, announce, request_of, accept_request, process_command_message, answer, process_message,
}
use mongodb_dam.Observer.Sound.{
  IsHashed, IsCapture, IsSeed, IsRequest, IsConnection, IsValid, Emits,
}
use mongodb_dam.Observer.Sound.Metadata.{
  with_connection-IsValid, connection_state-IsConnection, connection_metadata-IsValid, seed-IsSeed,
  event_from_seed-Emits,
}
use mongodb_dam.Observer.Sound.Pending.{add_pending-IsValid}

OnSome-or_else :
    {A : Type 0} (P : A → Type 0) (a b : Option A)
    → OnSome P a
    → OnSome P b
    → OnSome P (or_else a b)
OnSome-or_else P none b p q = q
OnSome-or_else P (some a) b p q = p

-- A query that is captured on a condition.
captured_if :
    {A : Type 0} (b : Bool) (query : Option A)
    → is_some (if b then query else none) ≡ true
    → b ≡ true
captured_if true query h = refl
captured_if false query h = h

module _ {Time : Type 0} (L : Libraries) (host : Host Time) (config : ProcessorConfig) where
  hashed-IsHashed :
      (principal salt : Option Bytes)
      → config.principal_hash_salt ≡ salt
      → OnSome (IsHashed L config) (hashed L principal salt)
  hashed-IsHashed (some principal) (some salt) e = record {
    salt = salt;
    principal = principal;
    configured = e;
    made = refl;
  }
  hashed-IsHashed none salt e = tt
  hashed-IsHashed (some principal) none e = tt

  settled_state-IsConnection :
      (request : Request L host) (response : Option (Response L host)) (state : ConnectionState)
      → OnSome (IsHashed L config) request.target_principal_hash
      → IsConnection L config state
      → IsConnection L config (settled_state L host request response state)
  unfolding settled_state
  settled_state-IsConnection request response state t c =
      let failed = is_bool false (succeeded_of L host response) in
      let done =
        is_bool true (succeeded_of L host response)
        && authentication_exchange_completed request.command (auth_done_of L host response) in
      elim (Bool-cases failed) [
        | inl f ↦ rw f (record { authenticated = c.authenticated; pending = tt })
        | inr f ↦ elim (Bool-cases done) [
          | inl d ↦
              rw (f, d)
                (record {
                  authenticated = OnSome-or_else (IsHashed L config) _ _ t c.pending;
                  pending = tt;
                })
          | inr d ↦ rw (f, d) c
        ]
      ]

  announced-IsConnection :
      (carries : Bool) (hash : Option Bytes) (state : ConnectionState)
      → OnSome (IsHashed L config) hash
      → IsConnection L config state
      → IsConnection L config (announced carries hash state)
  unfolding announced
  announced-IsConnection true (some h) state p c = record {
    authenticated = c.authenticated;
    pending = p;
  }
  announced-IsConnection true none state p c = c
  announced-IsConnection false hash state p c = c

  abbrev Valid : ℕ → Processor L host → Type 0
  Valid = IsValid L config

  -- The principal of the session is hashed, and the processor stays valid.
  settle_session-IsValid :
      (n : ℕ) (p : Processor L host) (request : Request L host)
      (response : Option (Response L host))
      → Valid n p
      → IsRequest L config request
      → OnSome (IsHashed L config) (settle_session L host p request response).0
        × Valid n (settle_session L host p request response).1
  unfolding settle_session
  settle_session-IsValid n p request response v r =
      let key = request.connection_state_key in
      let c = connection_state-IsConnection L host config n p key v in
      elim (Bool-cases (command_carries_authentication request.command)) [
        | inl carries ↦ rw carries (
          OnSome-or_else (IsHashed L config) _ _ r.target c.pending,
          with_connection-IsValid L host config n p key _ v (
              settled_state-IsConnection request response (connection_state L host p key) r.target
                c),
        )
        | inr other ↦ rw other (tt, v)
      ]

  -- A query is there exactly when the seed says that there is more than metadata.
  activity_seed-IsCapture :
      (s : EventSeed Time) (with_query : Bool)
      → IsSeed L config s
      → IsCapture L config (activity_seed L host s with_query).capture
        × (with_query ≡ not (activity_seed L host s with_query).capture.metadata_only)
  activity_seed-IsCapture s true i =
      (record { sensor = i.capture.sensor; node = i.capture.node }, refl)
  activity_seed-IsCapture s false i = (i.capture, rw i.metadata_only refl)

  query_of-allowed :
      (p : Processor L host) (request : Request L host)
      → p.config ≡ config
      → is_some (query_of L host p request) ≡ true
      → config.capture_query_content ≡ true
  query_of-allowed p request c h =
      subst (λ (used : ProcessorConfig). used.capture_query_content ≡ true) c
        (captured_if p.config.capture_query_content request.command.query h)

  auth_events-Emits :
      (n : ℕ) (p : Processor L host) (request : Request L host) (session : Option Bytes)
      (response : Option (Response L host))
      → Valid n p
      → IsRequest L config request
      → OnSome (IsHashed L config) session
      → Emits L config n (auth_events L host p request session response)
  unfolding auth_events
  auth_events-Emits n p request session response v r h =
      elim (Bool-cases (is_auth_command request.command.name || request.command.speculative_auth)) [
        | inl auth ↦
            let (event, after) =
              event_from_seed-Emits L host config n p request.seed
                (mongodb_auth (auth_of L host request session response)) v r.seed.capture
                r.seed.metadata_only
                (if_both (OnSome (IsHashed L config))
                  (command_carries_authentication request.command) session
                  request.target_principal_hash h r.target) in
            rw auth (record { events = (event, tt); after = after })
        | inr other ↦ rw other (record { events = tt; after = v })
      ]

  -- The events of a request that is answered, or of one that no response follows.
  pub events_for_completed_request-Emits :
      (n : ℕ) (p : Processor L host) (request : Request L host)
      (response : Option (Response L host)) (response_id : Option ℤ) (response_bytes : Option ℕ)
      → Valid n p
      → IsRequest L config request
      → Emits L config n
          (events_for_completed_request L host p request response response_id response_bytes)
  unfolding events_for_completed_request
  events_for_completed_request-Emits n p request response response_id response_bytes v r =
      let (session, v1) = settle_session-IsValid n p request response v r in
      let p1 = (settle_session L host p request response).1 in
      let query = query_of L host p1 request in
      let (capture, captured) = activity_seed-IsCapture request.seed (is_some query) r.seed in
      let (activity, v2) =
        event_from_seed-Emits L host config n p1 (activity_seed L host request.seed (is_some query))
          (mongodb_activity (activity_of L host request query response response_id response_bytes))
          v1 capture captured (query_of-allowed p1 request v1.configured, r.actor) in
      let rest =
        auth_events-Emits ((n + 1) % 2 ^ 64)
          (event_from_seed L host p1 (activity_seed L host request.seed (is_some query)) (
            mongodb_activity
              (activity_of L host request query response response_id response_bytes))).1
          request (settle_session L host p request response).0 response v2 r session in
      record { events = (activity, rest.events); after = rest.after }

  request_of-IsRequest :
      (n : ℕ) (p : Processor L host) (raw : KernelEvent) (truncated : Bool) (message : Message L)
      (clear : MongoCommand L.Value)
      → Valid n p
      → IsRequest L config (request_of L host p raw truncated message clear).0
        × Valid n (request_of L host p raw truncated message clear).1
  unfolding request_of
  request_of-IsRequest n p raw truncated message clear v =
      let key : ℕ × ℕ = (raw.tgid, raw.connection_key) in
      let (hash, command) = take_hashed_principal L clear p.config.principal_hash_salt in
      let h =
        hashed-IsHashed clear.principal p.config.principal_hash_salt
          (ap (λ (used : ProcessorConfig). used.principal_hash_salt) (sym v.configured)) in
      let p1 = announce L host p key command hash in
      let v1 = with_connection-IsValid L host config n p key _ v (
        announced-IsConnection (command_carries_authentication command) hash
          (connection_state L host p key) h
          (connection_state-IsConnection L host config n p key v)) in
      (
        record {
          no_principal = refl;
          target = h;
          actor = (connection_state-IsConnection L host config n p1 key v1).authenticated;
          seed = seed-IsSeed L host config n p1 raw truncated v1;
        },
        connection_metadata-IsValid L host config n p1 raw v1,
      )

  accept_request-Emits :
      (n : ℕ) (p : Processor L host) (raw : KernelEvent) (request : Request L host)
      → Valid n p
      → IsRequest L config request
      → Emits L config n (accept_request L host p raw request)
  unfolding accept_request
  accept_request-Emits n p raw request v r =
      if_both (Emits L config n) request.expects_response _ _
        (record {
          events = tt;
          after = add_pending-IsValid L host config n p raw.timestamp_ns request v r;
        })
        (events_for_completed_request-Emits n p request none none none v r)

  process_command_message-Emits :
      (n : ℕ) (p : Processor L host) (raw : KernelEvent) (truncated : Bool) (message : Message L)
      (command : Option (MongoCommand L.Value))
      → Valid n p
      → Emits L config n (process_command_message L host p raw truncated message command)
  unfolding process_command_message
  process_command_message-Emits n p raw truncated message none v = record { events = tt; after = v }
  process_command_message-Emits n p raw truncated message (some command) v =
      let (r, v1) = request_of-IsRequest n p raw truncated message command v in
      accept_request-Emits n _ raw _ v1 r

  answer-Emits :
      (n : ℕ) (p : Processor L host) (raw : KernelEvent) (message : Message L)
      (found : Option (Request L host))
      → Valid n p
      → OnSome (λ r. IsRequest L config r) found
      → Emits L config n (answer L host p raw message found)
  unfolding answer
  answer-Emits n p raw message none v r = record { events = tt; after = v }
  answer-Emits n p raw message (some request) v r =
      events_for_completed_request-Emits n _ request
        (some (message, (raw.timestamp_ns - request.seed.monotonic_timestamp_ns) / 1000))
        (some message.request_id) (some message.wire_bytes)
        (record {
          configured = v.configured;
          sequence = v.sequence;
          streams = v.streams;
          pending =
              remove-AllEntries same_request (λ _ s. IsRequest L config s) _ p.pending v.pending;
          pending_bound = omega (
            arith,
            v.pending_bound,
            length-remove same_request (raw.tgid, raw.connection_key, message.response_to)
                p.pending,
          );
          pending_dns_bound = v.pending_dns_bound;
          connections = v.connections;
        })
        r

  found-IsRequest :
      (n : ℕ) (p : Processor L host) (key : ℕ × ℕ × ℤ)
      → Valid n p
      → OnSome (λ r. IsRequest L config r) (lookup same_request key p.pending)
  found-IsRequest n p key v = elim (Option-cases (lookup same_request key p.pending)) [
    | inl missing ↦ rw missing tt
    | inr (request, found) ↦
        rw found
          (lookup-AllEntries same_request (λ _ s. IsRequest L config s) key p.pending request
            v.pending found).2
  ]

  -- Whatever a message is, the events are right and the processor stays valid.
  pub process_message-Emits :
      (n : ℕ) (p : Processor L host) (raw : KernelEvent) (truncated : Bool) (message : Message L)
      → Valid n p
      → Emits L config n (process_message L host p raw truncated message)
  unfolding process_message
  process_message-Emits n p raw truncated message v =
      let key : ℕ × ℕ × ℤ = (raw.tgid, raw.connection_key, message.response_to) in
      elim (Bool-cases (is_int message.response_to 0)) [
        | inl request ↦
            rw request (process_command_message-Emits n p raw truncated message message.command v)
        | inr response ↦ rw response (answer-Emits n p raw message _ v (found-IsRequest n p key v))
      ]
