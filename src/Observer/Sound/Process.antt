-- ===== src/Observer/Sound/Process.antt =====
-- What `EventProcessor::process` of crates/observer/src/lib.rs keeps and emits.
use mongodb_dam.Common.{
  ℕ, zero, suc, ◌+◌, ◌-◌, ◌≤◌, ◌≡◌, refl, sym, subst, arith, Bool, true, false, Option, none, some,
  Bytes, List, [], ◌∷◌, ◌++◌, length, length-take, take, min, Option-cases, inl, inr, ◌==◌,
  if◌then◌else◌, if_both,
}
use mongodb_dam.Common.Maps.{
  AllEntries, lookup, lookup-AllEntries, insert-AllEntries, remove-AllEntries,
}
use mongodb_dam.Common.Outcome.{ok, err, panic, spent}
use mongodb_dam.Protocol.Types.{Decode}
use mongodb_dam.Protocol.Libraries.{Libraries}
use mongodb_dam.Protocol.Bson.Bounds.{Returns}
use mongodb_dam.Protocol.Message.{Message}
use mongodb_dam.Protocol.Stream.{StreamDecoder, head_of}
use mongodb_dam.Protocol.Stream.Bounds.{push_truncated-Returns, push_bounded_prefix-Returns}
use mongodb_dam.Protocol.Stream.Retention.{Retains, Kept, push_bounded_prefix-Kept}
use mongodb_dam.Observer.State.{
  ProcessorConfig, Host, KernelEvent, CapturedKernelEvent, max_capture_bytes,
}
use mongodb_dam.Observer.Codes.{
  event_io_chunk, event_syscall_latency, event_connection, event_profile, event_process,
  event_dns_chunk,
}
use mongodb_dam.Observer.Events.{Event, Processor, is_truncated}
use mongodb_dam.Observer.Messages.{
  same_stream, captured_len_of, process_message, process_messages, process_truncated,
  process_pushed, decoder_of, without_stream, process_io_chunk,
}
use mongodb_dam.Observer.Processor.{process}
use mongodb_dam.Observer.Sound.{next, IsValid, AllEvents, Emits, Sound, advance, advance-length}
use mongodb_dam.Observer.Sound.Requests.{process_message-Emits}
use mongodb_dam.Observer.Sound.DnsQueries.{process_dns-Sound}
use mongodb_dam.Observer.Sound.Handlers.{
  process_connection-Emits, process_latency-Emits, process_profile-Emits,
  process_exec_or_exit-Emits,
}

module _ {Time : Type 0} (L : Libraries) (host : Host Time) (config : ProcessorConfig) where
  abbrev Valid : ℕ → Processor L host → Type 0
  Valid = IsValid L config

  pub AllEvents-append :
      (n : ℕ) (xs ys : List (Event L host))
      → AllEvents L config n xs
      → AllEvents L config (advance (length xs) n) ys
      → AllEvents L config n (xs ++ ys)
  AllEvents-append n [] ys all more = more
  AllEvents-append n (x ∷ xs) ys (p, all) more = (p, AllEvents-append (next n) xs ys all more)

  process_messages-Emits :
      (n : ℕ) (p : Processor L host) (raw : KernelEvent) (truncated : Bool)
      (messages : List (Message L)) (events : List (Event L host))
      → AllEvents L config n events
      → Valid (advance (length events) n) p
      → Emits L config n (process_messages L host p raw truncated messages events)
  unfolding process_messages
  process_messages-Emits n p raw truncated [] events all v = record { events = all; after = v }
  process_messages-Emits n p raw truncated (message ∷ messages) events all v =
      let made =
        process_message-Emits L host config (advance (length events) n) p raw truncated message v in
      let (more, p') = process_message L host p raw truncated message in
      process_messages-Emits n p' raw truncated messages (events ++ more)
        (AllEvents-append n events more all made.events)
        (subst (λ k. Valid k p') (sym (advance-length events more n)) made.after)

  with_streams-IsValid :
      (n : ℕ) (p : Processor L host)
      (streams : mongodb_dam.Common.Maps.Entries (ℕ × ℕ × ℕ) StreamDecoder)
      → Valid n p
      → AllEntries (λ _ d. Retains L max_capture_bytes d) streams
      → Valid n (record p { streams = streams })
  with_streams-IsValid n p streams v all = record {
    configured = v.configured;
    sequence = v.sequence;
    streams = all;
    pending = v.pending;
    pending_bound = v.pending_bound;
    pending_dns_bound = v.pending_dns_bound;
    connections = v.connections;
  }

  without_stream-IsValid :
      (n : ℕ) (p : Processor L host) (key : ℕ × ℕ × ℕ)
      → Valid n p
      → Valid n (without_stream L host p key)
  without_stream-IsValid n p key v =
      with_streams-IsValid n p _ v (
        remove-AllEntries same_stream (λ _ d. Retains L max_capture_bytes d) key p.streams
          v.streams)

  decoder_of-Retains :
      (n : ℕ) (p : Processor L host) (key : ℕ × ℕ × ℕ)
      → Valid n p
      → Retains L max_capture_bytes (decoder_of L host p key)
  unfolding decoder_of head_of
  decoder_of-Retains n p key v = elim (Option-cases (lookup same_stream key p.streams)) [
    | inl missing ↦ rw missing (record { below = omega arith; waits = refl })
    | inr (decoder, found) ↦
        rw found
          (lookup-AllEntries same_stream (λ _ d. Retains L max_capture_bytes d) key p.streams
            decoder v.streams found).2
  ]

  process_truncated-Sound :
      (n : ℕ) (p : Processor L host) (raw : KernelEvent) (o : Decode (Message L))
      → Valid n p
      → Returns o
      → Sound L config n (process_truncated L host p raw o)
  unfolding process_truncated
  process_truncated-Sound n p raw (ok message) v h =
      process_messages-Emits n p raw true (message ∷ []) [] tt v
  process_truncated-Sound n p raw (err e) v h = v
  process_truncated-Sound n p raw panic v h = h
  process_truncated-Sound n p raw spent v h = h

  process_pushed-Sound :
      (n : ℕ) (p : Processor L host) (raw : KernelEvent) (key : ℕ × ℕ × ℕ)
      (o : Decode (List (Message L))) (decoder : StreamDecoder)
      → Valid n p
      → Returns o
      → Kept L max_capture_bytes (o, decoder)
      → Sound L config n (process_pushed L host p raw key o decoder)
  unfolding process_pushed
  process_pushed-Sound n p raw key (ok messages) decoder v h k =
      process_messages-Emits n _ raw false messages [] tt (
        with_streams-IsValid n p _ v (
          insert-AllEntries same_stream (λ _ d. Retains L max_capture_bytes d) key decoder p.streams
            (k.retains messages refl) v.streams))
  process_pushed-Sound n p raw key (err e) decoder v h k = without_stream-IsValid n p key v
  process_pushed-Sound n p raw key panic decoder v h k = h
  process_pushed-Sound n p raw key spent decoder v h k = h

  process_io_chunk-Sound :
      (n : ℕ) (p : Processor L host) (raw : KernelEvent)
      → Valid n p
      → Sound L config n (process_io_chunk L host p raw)
  unfolding process_io_chunk
  process_io_chunk-Sound n p raw v =
      let key : ℕ × ℕ × ℕ = (raw.tgid, raw.connection_key, raw.direction) in
      let decoder = decoder_of L host p key in
      let piece = take (captured_len_of raw) raw.data_bytes in
      if_both (Sound L config n) (captured_len_of raw == 0) _ _ (record { events = tt; after = v })
        (if_both (Sound L config n) (is_truncated raw) _ _
          (process_truncated-Sound n _ raw _ (without_stream-IsValid n p key v)
            (push_truncated-Returns L decoder _))
          (process_pushed-Sound n p raw key _ _ v
            (push_bounded_prefix-Returns L decoder piece max_capture_bytes)
            (push_bounded_prefix-Kept L max_capture_bytes decoder piece (omega arith)
              (decoder_of-Retains n p key v)
              (omega (arith, length-take (captured_len_of raw) raw.data_bytes)))))

  -- On every event of the kernel, `process` returns, without a panic. Where the processor was in
  -- order, it is so again, behind an error too: its maps of pending requests and queries are within
  -- 32768 and 4096 entries, its stream decoders hold less than 1024 bytes, and no request that
  -- waits has a clear principal. Each event that is emitted has the identity and the sensor of the
  -- configuration, is named by the digest of the sensor, its time and the next number of the
  -- sequence, carries a query only if the configuration allows it, and then is not marked as metadata
  -- only, and names a principal only by the digest of the configured salt, a zero byte and it.
  pub process-Sound :
      (n : ℕ) (p : Processor L host) (captured : CapturedKernelEvent)
      → IsValid L config n p
      → Sound L config n (process L host p captured)
  unfolding process
  process-Sound n p captured v =
      let raw = captured.raw in
      let S = Sound L config n in
      if_both S (raw.event_type == event_io_chunk) _ _ (process_io_chunk-Sound n p raw v) (
        if_both S (raw.event_type == event_syscall_latency) _ _
          (process_latency-Emits L host config n p raw v)
          (if_both S (raw.event_type == event_connection) _ _
            (process_connection-Emits L host config n p raw v)
            (if_both S (raw.event_type == event_profile) _ _
              (process_profile-Emits L host config n p captured v)
              (if_both S (raw.event_type == event_process) _ _
                (process_exec_or_exit-Emits L host config n p raw v)
                (if_both S (raw.event_type == event_dns_chunk) _ _
                  (process_dns-Sound L host config n p raw v) v)))))
