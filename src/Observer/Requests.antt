-- ===== src/Observer/Requests.antt =====
-- The MongoDB messages of the event processor of crates/observer/src/lib.rs:
-- `prune_pending_requests`, `process_message` and `events_for_completed_request`.
use mongodb_dam.Common.{
  ℕ, ◌-◌, ◌==◌, Bool, true, false, ◌&&◌, ◌||◌, Option, none, some, Bytes, List, [], ◌∷◌, ltb, leb,
  if◌then◌else◌, length, codes,
}
use mongodb_dam.Common.Int.{ℤ, int_eq}
use mongodb_dam.Common.Maps.{Entries, remove, retain}
use mongodb_dam.Protocol.Types.{ResponseStatus}
use mongodb_dam.Protocol.Libraries.{Libraries}
use mongodb_dam.Protocol.Message.{Message}
use mongodb_dam.Schema.Types.{MongodbActivity, MongodbAuth, mongodb_activity, mongodb_auth}
use mongodb_dam.Schema.Validate.{is_some}
use mongodb_dam.Observer.State.{
  Host, RequestKey, EventSeed, PendingRequest, ConnectionState, max_pending_requests,
  pending_request_ttl_ns,
}
use mongodb_dam.Observer.Commands.{
  is_bool, is_auth_command, is_user_management_command, command_carries_authentication,
  authentication_exchange_completed, delete_scope_name,
}
use mongodb_dam.Observer.Events.{
  Event, Processor, event_from_seed, connection_state, with_connection,
}

abbrev pub same_request : RequestKey → RequestKey → Bool
same_request (a, b, c) (d, e, f) = a == d && b == e && int_eq c f

-- `first.or_else(|| second)`
abbrev pub or_else {ℓ} : {A : Type ℓ} → Option A → Option A → Option A
or_else (some a) second = some a
or_else none second = second

abbrev map_option {ℓ κ} : {A : Type ℓ} {B : Type κ} → (A → B) → Option A → Option B
map_option f none = none
map_option f (some a) = some (f a)

abbrev unwrap_text : Option Bytes → Bytes → Bytes
unwrap_text none fallback = fallback
unwrap_text (some text) fallback = text

module _ {Time : Type 0} (L : Libraries) (host : Host Time) where
  abbrev pub Request : Type 0
  Request = PendingRequest Time L.Value

  abbrev pub Pending : Type 0
  Pending = Entries RequestKey Request

  abbrev time_of : Request → ℕ
  time_of request = request.seed.monotonic_timestamp_ns

  -- Of two keys with their times the one that `min_by_key` finds: the earlier one, or the one that
  -- is iterated first.
  abbrev pub earlier : RequestKey × ℕ → RequestKey × ℕ → RequestKey × ℕ
  earlier (k, t) (j, u) =
      if ltb t u || (t == u && leb (host.rank k) (host.rank j)) then (k, t) else (j, u)

  unfoldable pub oldest_of : RequestKey × ℕ → Pending → RequestKey × ℕ
  oldest_of best [] = best
  oldest_of best ((k, request) ∷ entries) = oldest_of (earlier best (k, time_of request)) entries

  -- Without the oldest entry, if there is an entry.
  unfoldable pub remove_oldest : Pending → Pending
  unfolding oldest_of remove
  remove_oldest [] = []
  remove_oldest ((k, request) ∷ entries) =
      remove same_request (oldest_of (k, time_of request) entries).0 ((k, request) ∷ entries)

  unfoldable pub pruned : Pending → ℕ → Pending
  unfolding remove_oldest retain
  pruned pending now_ns =
      let recent =
        retain (λ _ request. leb (now_ns - pending_request_ttl_ns) (time_of request)) pending in
      if ltb (length pending) max_pending_requests
      then pending
      else if leb max_pending_requests (length recent)
      then remove_oldest recent
      else recent

  unfoldable pub prune_pending_requests : Processor L host → ℕ → Processor L host
  unfolding pruned
  prune_pending_requests p now_ns = record p { pending = pruned p.pending now_ns }

  -- The response of a request and the time it took.
  abbrev pub Response : Type 0
  Response = Message L × ℕ

  -- `message.status.as_ref().and_then(…)` of the response
  abbrev from_status {ℓ} : {A : Type ℓ} → (ResponseStatus → Option A) → Option Response → Option A
  from_status field none = none
  from_status field (some (message, duration)) = elim message.status [
    | none ↦ none
    | some status ↦ field status
  ]

  abbrev pub succeeded_of : Option Response → Option Bool
  succeeded_of response = from_status (λ status. status.ok) response

  abbrev pub auth_done_of : Option Response → Option Bool
  auth_done_of response = from_status (λ status. status.auth_done) response

  -- The principal of an authentication command, which its connection may have announced before.
  abbrev pub exchange_principal : Request → ConnectionState → Option Bytes
  exchange_principal request state =
      or_else request.target_principal_hash state.pending_auth_principal_hash

  -- The state of the connection behind the response of an authentication command.
  unfoldable pub settled_state : Request → Option Response → ConnectionState → ConnectionState
  unfolding authentication_exchange_completed
  settled_state request response state =
      if is_bool false (succeeded_of response)
      then record state { pending_auth_principal_hash = none }
      else if is_bool true (succeeded_of response)
          && authentication_exchange_completed request.command (auth_done_of response)
      then record state {
        authenticated_principal_hash = exchange_principal request state;
        pending_auth_principal_hash = none;
      }
      else state

  unfoldable pub settle_session :
      Processor L host → Request → Option Response → Option Bytes × Processor L host
  unfolding settled_state
  settle_session p request response =
      let key = request.connection_state_key in
      let state = connection_state L host p key in
      if command_carries_authentication request.command
      then (
        exchange_principal request state,
        with_connection L host p key (settled_state request response state),
      )
      else (none, p)

  -- `capture_query_content.then(|| query.clone()).flatten()`
  abbrev pub query_of : Processor L host → Request → Option L.Value
  query_of p request = if p.config.capture_query_content then request.command.query else none

  abbrev pub activity_seed : EventSeed Time → Bool → EventSeed Time
  activity_seed s with_query =
      if with_query then record s { capture = record s.capture { metadata_only = false } } else s

  abbrev pub activity_of :
      Request → Option L.Value → Option Response → Option ℤ → Option ℕ → MongodbActivity L.Value
  activity_of request query response response_id response_bytes = record {
    command = request.command.name;
    database = request.command.database;
    collection = request.command.collection;
    principal = request.actor_principal_hash;
    principal_hashed = is_some request.actor_principal_hash;
    delete_scope = map_option delete_scope_name request.command.delete_scope;
    delete_statements = request.command.delete_statements;
    affected_documents = from_status (λ status. status.affected_count) response;
    query = query;
    request_id = request.request_id;
    response_id = response_id;
    request_bytes = request.request_bytes;
    response_bytes = response_bytes;
    duration_us = map_option (λ (r : Response). r.1) response;
    succeeded = succeeded_of response;
    error_code = from_status (λ status. status.code) response;
    error_name = from_status (λ status. status.code_name) response;
    expects_response = request.expects_response;
    compressed = request.compressed;
    connection = request.connection;
  }

  abbrev pub auth_of : Request → Option Bytes → Option Response → MongodbAuth
  auth_of request session_principal response = record {
    mechanism = unwrap_text request.command.auth_mechanism (
        if is_user_management_command request.command.name
        then codes "user_management"
        else codes "unknown");
    principal =
        if command_carries_authentication request.command
        then session_principal
        else request.target_principal_hash;
    principal_hashed = true;
    succeeded = succeeded_of response;
    connection_id = request.connection.connection_id;
  }

  -- The second event, of a command that manages users or authenticates.
  unfoldable pub auth_events :
      Processor L host
      → Request
      → Option Bytes
      → Option Response
      → List (Event L host) × Processor L host
  unfolding event_from_seed
  auth_events p request session_principal response =
      if is_auth_command request.command.name || request.command.speculative_auth
      then (let (made, p') =
            event_from_seed L host p request.seed
              (mongodb_auth (auth_of request session_principal response)) in
          (made ∷ [], p'))
      else ([], p)

  unfoldable pub events_for_completed_request :
      Processor L host
      → Request
      → Option Response
      → Option ℤ
      → Option ℕ
      → List (Event L host) × Processor L host
  unfolding settle_session auth_events event_from_seed
  events_for_completed_request p request response response_id response_bytes =
      let (session_principal, p1) = settle_session p request response in
      let query = query_of p1 request in
      let (activity, p2) =
        event_from_seed L host p1 (activity_seed request.seed (is_some query))
          (mongodb_activity (activity_of request query response response_id response_bytes)) in
      let (auth, p3) = auth_events p2 request session_principal response in (activity ∷ auth, p3)
