-- ===== src/Observer/Messages.antt =====
-- `process_message` and `process_io_chunk` of crates/observer/src/lib.rs.
use mongodb_dam.Common.{
  ℕ, ◌-◌, ◌*◌, ◌/◌, ◌==◌, Bool, true, false, not, ◌&&◌, Option, none, some, Bytes, List, [], ◌∷◌,
  ◌++◌, if◌then◌else◌, take, min,
}
use mongodb_dam.Common.Int.{is_int}
use mongodb_dam.Common.Maps.{lookup, insert, remove}
use mongodb_dam.Common.Outcome.{Outcome, ok, err, panic, spent}
use mongodb_dam.Protocol.Types.{DecoderConfig, Decode, MongoCommand}
use mongodb_dam.Protocol.Libraries.{Libraries}
use mongodb_dam.Protocol.Message.{Message}
use mongodb_dam.Protocol.Stream.{StreamDecoder, buffered_bytes, push_truncated, push_bounded_prefix}
use mongodb_dam.Observer.State.{
  KernelEvent, Host, ConnectionState, ProcessError, undecodable, max_capture_bytes,
}
use mongodb_dam.Observer.Commands.{command_carries_authentication, take_hashed_principal}
use mongodb_dam.Observer.Events.{
  Event, Processor, seed, is_truncated, connection_state, with_connection, connection_metadata,
}
use mongodb_dam.Observer.Requests.{
  Request, same_request, prune_pending_requests, events_for_completed_request,
}

abbrev pub same_stream : ℕ × ℕ × ℕ → ℕ × ℕ × ℕ → Bool
same_stream (a, b, c) (d, e, f) = a == d && b == e && c == f

-- `min(MAX_CAPTURE_BYTES)` of the captured length
abbrev pub captured_len_of : KernelEvent → ℕ
captured_len_of raw = min raw.captured_len max_capture_bytes

-- A command of an authentication announces its principal to the connection.
unfoldable pub announced : Bool → Option Bytes → ConnectionState → ConnectionState
announced true (some principal) state = record state {
  pending_auth_principal_hash = some principal;
}
announced _ _ state = state

module _ {Time : Type 0} (L : Libraries) (host : Host Time) where
  -- What a call returns, and the processor that it leaves.
  abbrev pub Processed : Type 0
  Processed = Outcome ProcessError (List (Event L host)) × Processor L host

  -- The connection's state, at the command with the hash of its principal, goes back into the map.
  abbrev pub announce :
      Processor L host → ℕ × ℕ → MongoCommand L.Value → Option Bytes → Processor L host
  announce p key command hash =
      with_connection L host p key
        (announced (command_carries_authentication command) hash (connection_state L host p key))

  unfoldable pub request_of :
      Processor L host
      → KernelEvent
      → Bool
      → Message L
      → MongoCommand L.Value
      → Request L host × Processor L host
  unfolding announced
  request_of p raw truncated message clear =
      let key : ℕ × ℕ = (raw.tgid, raw.connection_key) in
      let (hash, command) = take_hashed_principal L clear p.config.principal_hash_salt in
      let p1 = announce p key command hash in
      let (connection, p2) = connection_metadata L host p1 raw in
      (
        record {
          command = command;
          target_principal_hash = hash;
          actor_principal_hash = (connection_state L host p1 key).authenticated_principal_hash;
          connection_state_key = key;
          request_id = message.request_id;
          request_bytes = message.wire_bytes;
          compressed = message.compressed;
          expects_response = not message.more_to_come;
          seed = seed L host p1 raw truncated;
          connection = connection;
        },
        p2,
      )

  unfoldable pub add_pending : Processor L host → ℕ → Request L host → Processor L host
  unfolding prune_pending_requests insert
  add_pending p timestamp_ns request =
      let p' = prune_pending_requests L host p timestamp_ns in
      record p' {
        pending =
            insert same_request
              (request.connection_state_key.0, request.connection_state_key.1, request.request_id)
              request p'.pending;
      }

  unfoldable pub accept_request :
      Processor L host → KernelEvent → Request L host → List (Event L host) × Processor L host
  unfolding add_pending events_for_completed_request
  accept_request p raw request =
      if request.expects_response
      then ([], add_pending p raw.timestamp_ns request)
      else events_for_completed_request L host p request none none none

  unfoldable pub process_command_message :
      Processor L host
      → KernelEvent
      → Bool
      → Message L
      → Option (MongoCommand L.Value)
      → List (Event L host) × Processor L host
  unfolding request_of accept_request
  process_command_message p raw truncated message none = ([], p)
  process_command_message p raw truncated message (some command) =
      let (request, p') = request_of p raw truncated message command in
      accept_request p' raw request

  unfoldable pub answer :
      Processor L host
      → KernelEvent
      → Message L
      → Option (Request L host)
      → List (Event L host) × Processor L host
  unfolding events_for_completed_request remove
  answer p raw message none = ([], p)
  answer p raw message (some request) =
      let duration_us = (raw.timestamp_ns - request.seed.monotonic_timestamp_ns) / 1000 in
      events_for_completed_request L host
        (record p {
          pending =
              remove same_request (raw.tgid, raw.connection_key, message.response_to) p.pending;
        })
        request (some (message, duration_us)) (some message.request_id) (some message.wire_bytes)

  unfoldable pub process_message :
      Processor L host → KernelEvent → Bool → Message L → List (Event L host) × Processor L host
  unfolding process_command_message answer lookup
  process_message p raw truncated message =
      if is_int message.response_to 0
      then process_command_message p raw truncated message message.command
      else answer p raw message
          (lookup same_request (raw.tgid, raw.connection_key, message.response_to) p.pending)

  -- The loop over the decoded messages.
  unfoldable pub process_messages :
      Processor L host
      → KernelEvent
      → Bool
      → List (Message L)
      → List (Event L host)
      → List (Event L host) × Processor L host
  unfolding process_message
  process_messages p raw truncated [] events = (events, p)
  process_messages p raw truncated (message ∷ messages) events =
      let (more, p') = process_message p raw truncated message in
      process_messages p' raw truncated messages (events ++ more)

  abbrev pub decoder_config : Processor L host → DecoderConfig
  decoder_config p = record {
    max_message_bytes = p.config.max_message_bytes;
    max_buffer_bytes = max_capture_bytes * 2;
  }

  abbrev or_new : Processor L host → Option StreamDecoder → StreamDecoder
  or_new p none = record { config = decoder_config p; buffer = [] }
  or_new p (some decoder) = decoder

  unfoldable pub decoder_of : Processor L host → ℕ × ℕ × ℕ → StreamDecoder
  unfolding lookup
  decoder_of p key = or_new p (lookup same_stream key p.streams)

  abbrev pub without_stream : Processor L host → ℕ × ℕ × ℕ → Processor L host
  without_stream p key = record p { streams = remove same_stream key p.streams }

  -- Behind `push_truncated`, which ends the stream.
  unfoldable pub process_truncated : Processor L host → KernelEvent → Decode (Message L) → Processed
  unfolding process_messages
  process_truncated p raw (ok message) =
      let (events, p') = process_messages p raw true (message ∷ []) [] in (ok events, p')
  process_truncated p raw (err e) = (err (undecodable e), p)
  process_truncated p raw panic = (panic, p)
  process_truncated p raw spent = (spent, p)

  -- Behind `push_bounded_prefix`, with the decoder that it leaves.
  unfoldable pub process_pushed :
      Processor L host
      → KernelEvent
      → ℕ × ℕ × ℕ
      → Decode (List (Message L))
      → StreamDecoder
      → Processed
  unfolding process_messages insert remove
  process_pushed p raw key (ok messages) decoder =
      let p1 : Processor L host = record p { streams = insert same_stream key decoder p.streams } in
      let (events, p') = process_messages p1 raw false messages [] in (ok events, p')
  process_pushed p raw key (err e) decoder = (err (undecodable e), without_stream p key)
  process_pushed p raw key panic decoder = (panic, p)
  process_pushed p raw key spent decoder = (spent, p)

  unfoldable pub process_io_chunk : Processor L host → KernelEvent → Processed
  unfolding process_truncated process_pushed decoder_of remove
  process_io_chunk p raw =
      let captured_len = captured_len_of raw in
      let key : ℕ × ℕ × ℕ = (raw.tgid, raw.connection_key, raw.direction) in
      let decoder = decoder_of p key in
      let remaining = max_capture_bytes - buffered_bytes decoder in
      let pushed =
        push_bounded_prefix L decoder (take captured_len raw.data_bytes) max_capture_bytes in
      if captured_len == 0
      then (ok [], p)
      else if is_truncated raw
      then process_truncated (without_stream p key) raw
          (push_truncated L decoder (take (min captured_len remaining) raw.data_bytes)).0
      else process_pushed p raw key pushed.0 pushed.1
