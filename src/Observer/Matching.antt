-- ===== src/Observer/Matching.antt =====
-- How `process_message` of crates/observer/src/lib.rs matches responses with requests.
use mongodb_dam.Common.{
  ℕ, ◌-◌, ◌/◌, ◌≡◌, refl, sym, subst, ◌∙◌, arith, Bool, true, false, not, ◌||◌, Option, none, some,
  List, [], ◌∷◌, Bool-cases, Option-cases, inl, inr, if◌then◌else◌, if_both,
}
use mongodb_dam.Common.Int.{ℤ, is_int}
use mongodb_dam.Common.Maps.{lookup, insert, lookup-remove}
use mongodb_dam.Protocol.Types.{MongoCommand}
use mongodb_dam.Protocol.Libraries.{Libraries}
use mongodb_dam.Protocol.Message.{Message}
use mongodb_dam.Schema.Types.{EventPayload, mongodb_activity}
use mongodb_dam.Observer.State.{Host, KernelEvent, EventSeed}
use mongodb_dam.Observer.Commands.{is_auth_command, command_carries_authentication}
use mongodb_dam.Observer.Events.{Event, Processor, event_from_seed, seed, with_connection}
use mongodb_dam.Observer.Requests.{
  Request, Response, same_request, settle_session, auth_events, events_for_completed_request,
  activity_seed,
}
use mongodb_dam.Observer.Messages.{
  request_of, add_pending, accept_request, process_command_message, answer, process_message,
}
use mongodb_dam.Observer.Sound.Pending.{same_request_refl}

module _ {Time : Type 0} (L : Libraries) (host : Host Time) where
  settle_session-pending :
      (p : Processor L host) (request : Request L host) (response : Option (Response L host))
      → (settle_session L host p request response).1.pending ≡ p.pending
  unfolding settle_session with_connection
  settle_session-pending p request response =
      if_both (λ (r : Option mongodb_dam.Common.Bytes × Processor L host). r.1.pending ≡ p.pending)
        (command_carries_authentication request.command) _ _ refl refl

  auth_events-pending :
      (p : Processor L host) (request : Request L host) (session : Option mongodb_dam.Common.Bytes)
      (response : Option (Response L host))
      → (auth_events L host p request session response).1.pending ≡ p.pending
  unfolding auth_events event_from_seed
  auth_events-pending p request session response =
      if_both (λ (r : List (Event L host) × Processor L host). r.1.pending ≡ p.pending)
        (is_auth_command request.command.name || request.command.speculative_auth) _ _ refl refl

  -- The events of a request leave the other requests alone.
  completed-pending :
      (p : Processor L host) (request : Request L host) (response : Option (Response L host))
      (response_id : Option ℤ) (response_bytes : Option ℕ)
      → (events_for_completed_request L host p request response response_id
          response_bytes).1.pending
        ≡ p.pending
  unfolding events_for_completed_request event_from_seed
  completed-pending p request response response_id response_bytes =
      rw (auth_events-pending, settle_session-pending) refl

  answer-taken :
      (p : Processor L host) (raw : KernelEvent) (message : Message L)
      → lookup same_request
          (raw.tgid, raw.connection_key, message.response_to)
          (answer L host p raw message (
            lookup same_request
              (raw.tgid, raw.connection_key, message.response_to)
              p.pending)).1.pending
        ≡ none
  unfolding answer
  answer-taken p raw message =
      let key : ℕ × ℕ × ℤ = (raw.tgid, raw.connection_key, message.response_to) in
      elim (Option-cases (lookup same_request key p.pending)) [
        | inl missing ↦ rw missing missing
        | inr (request, found) ↦
            rw found (rw completed-pending (lookup-remove same_request key p.pending))
      ]

  -- A request is answered once: behind a response, another one to the same request of the same
  -- connection emits no event and changes nothing.
  pub process_message-answered_once :
      (p : Processor L host) (raw : KernelEvent) (truncated : Bool) (message : Message L)
      (later : KernelEvent) (later_truncated : Bool) (again : Message L)
      → is_int message.response_to 0 ≡ false
      → again.response_to ≡ message.response_to
      → later.tgid ≡ raw.tgid
      → later.connection_key ≡ raw.connection_key
      → process_message L host
          (process_message L host p raw truncated message).1
          later
          later_truncated
          again
        ≡ ([], (process_message L host p raw truncated message).1)
  unfolding process_message answer
  process_message-answered_once p raw truncated message later later_truncated again reply same t c =
      rw (same, reply, t, c, answer-taken) refl

  -- What the first event says of a request and its response.
  abbrev pub IsAnswer :
      KernelEvent
      → KernelEvent
      → Message L
      → MongoCommand L.Value
      → Message L
      → EventPayload L.Value
      → Type 0
  IsAnswer sent received request command response (mongodb_activity activity) =
      (activity.command ≡ command.name)
      × (activity.request_id ≡ request.request_id)
      × (activity.request_bytes ≡ request.wire_bytes)
      × (activity.response_id ≡ some response.request_id)
      × (activity.response_bytes ≡ some response.wire_bytes)
      × (activity.duration_us ≡ some ((received.timestamp_ns - sent.timestamp_ns) / 1000))
  IsAnswer sent received request command response _ = ⊥

  abbrev pub Answers : (EventPayload L.Value → Type 0) → ℕ → List (Event L host) → Type 0
  Answers P timestamp_ns [] = ⊥
  Answers P timestamp_ns (e ∷ events) = (e.monotonic_timestamp_ns ≡ timestamp_ns) × P e.payload

  -- A request that expects a response.
  waiting :
      (p : Processor L host) (sent : KernelEvent) (truncated : Bool) (request : Message L)
      (command : MongoCommand L.Value)
      → is_int request.response_to 0 ≡ true
      → request.command ≡ some command
      → request.more_to_come ≡ false
      → process_message L host p sent truncated request ≡ (
        [],
        add_pending L host
            (request_of L host p sent truncated request command).1
            sent.timestamp_ns
            (request_of L host p sent truncated request command).0,
      )
  unfolding process_message process_command_message accept_request request_of
  waiting p sent truncated request command q c m = rw (q, c, m) refl

  lookup-add_pending :
      (p : Processor L host) (timestamp_ns : ℕ) (request : Request L host)
      → lookup same_request
          (request.connection_state_key.0, request.connection_state_key.1, request.request_id)
          (add_pending L host p timestamp_ns request).pending
        ≡ some request
  unfolding add_pending lookup insert
  lookup-add_pending p timestamp_ns request =
      rw
        (same_request_refl
          (request.connection_state_key.0, request.connection_state_key.1, request.request_id))
        refl

  responding :
      (p : Processor L host) (raw : KernelEvent) (truncated : Bool) (response : Message L)
      (r : Request L host)
      → is_int response.response_to 0 ≡ false
      → lookup same_request (raw.tgid, raw.connection_key, response.response_to) p.pending ≡ some r
      → process_message L host p raw truncated response ≡ answer L host p raw response (some r)
  unfolding process_message
  responding p raw truncated response r reply found = rw (reply, found) refl

  time_of-activity_seed :
      (s : EventSeed Time) (with_query : Bool)
      → (activity_seed L host s with_query).monotonic_timestamp_ns ≡ s.monotonic_timestamp_ns
  time_of-activity_seed s true = refl
  time_of-activity_seed s false = refl

  answer-Answers :
      (p : Processor L host) (sent received : KernelEvent) (request response : Message L)
      (command : MongoCommand L.Value) (r : Request L host)
      → r.seed.monotonic_timestamp_ns ≡ sent.timestamp_ns
      → r.command.name ≡ command.name
      → r.request_id ≡ request.request_id
      → r.request_bytes ≡ request.wire_bytes
      → Answers
          (IsAnswer sent received request command response)
          sent.timestamp_ns
          (answer L host p received response (some r)).0
  unfolding answer events_for_completed_request event_from_seed
  answer-Answers p sent received request response command r t n i b = (
    time_of-activity_seed r.seed _ ∙ t,
    (n, i, b, refl, refl, λ j. some ((received.timestamp_ns - t j) / 1000)),
  )

  -- A request that expects a response waits for it without an event; the response, if it comes
  -- next, gives an event of the time of the request that has the identifiers and sizes of both and
  -- the time between them.
  pub process_message-Answers :
      (p : Processor L host) (sent received : KernelEvent) (truncated later_truncated : Bool)
      (request response : Message L) (command : MongoCommand L.Value)
      → is_int request.response_to 0 ≡ true
      → request.command ≡ some command
      → request.more_to_come ≡ false
      → is_int request.request_id 0 ≡ false
      → response.response_to ≡ request.request_id
      → received.tgid ≡ sent.tgid
      → received.connection_key ≡ sent.connection_key
      → ((process_message L host p sent truncated request).0 ≡ [])
        × Answers
            (IsAnswer sent received request command response)
            sent.timestamp_ns
            (process_message L host
              (process_message L host p sent truncated request).1
              received
              later_truncated
              response).0
  process_message-Answers p sent received truncated later_truncated request response command q c m
        nonzero same t k =
      let (r, p') = request_of L host p sent truncated request command in
      let p1 = add_pending L host p' sent.timestamp_ns r in
      rw (waiting p sent truncated request command q c m) (
        refl,
        rw
            (responding p1 received later_truncated response r (rw same nonzero)
              (unfold request_of in rw (same, t, k) (lookup-add_pending p' sent.timestamp_ns r)))
            (unfold request_of in
              answer-Answers p1 sent received request response command r (unfold seed in refl) refl
                refl refl),
      )
