-- ===== src/Observer/Sound/DnsQueries.antt =====
-- `process_dns` of crates/observer/src/lib.rs keeps the processor valid.
use mongodb_dam.Common.{
  ℕ, suc, ◌-◌, ◌≤◌, refl, arith, Bool, List, [], length, Bool-cases, inl, inr, ltb, leb, take,
}
use mongodb_dam.Common.Maps.{Entries, retain, remove, length-retain, length-remove, length-insert}
use mongodb_dam.Common.Outcome.{ok, err, panic, spent, Ensures}
use mongodb_dam.Protocol.Libraries.{Libraries}
use mongodb_dam.Observer.State.{ProcessorConfig, Host, KernelEvent, PendingDnsQuery}
use mongodb_dam.Observer.Dns.{Dns, DecodedDnsMessage}
use mongodb_dam.Observer.Dns.Bounds.{IsMessage, decode_dns_message-IsMessage}
use mongodb_dam.Observer.Events.{Event, Processor}
use mongodb_dam.Observer.Messages.{same_stream, captured_len_of}
use mongodb_dam.Observer.DnsQueries.{
  max_pending_dns, pending_query, with_room, match_dns, dns_event, process_decoded, process_dns,
}
use mongodb_dam.Observer.Sound.{IsValid, Emits, Sound}
use mongodb_dam.Observer.Sound.Metadata.{connection_metadata-IsValid, one_event-Emits}

module _ {Time : Type 0} (L : Libraries) (host : Host Time) (config : ProcessorConfig) where
  abbrev Valid : ℕ → Processor L host → Type 0
  Valid = IsValid L config

  abbrev Emitting : ℕ → List (Event L host) × Processor L host → Type 0
  Emitting = Emits L config

  abbrev with_dns : Processor L host → Entries (ℕ × ℕ × ℕ) PendingDnsQuery → Processor L host
  with_dns p queries = record p { pending_dns = queries }

  with_dns-IsValid :
      (n : ℕ) (p : Processor L host) (queries : Entries (ℕ × ℕ × ℕ) PendingDnsQuery)
      → Valid n p
      → length queries ≤ max_pending_dns
      → Valid n (with_dns p queries)
  with_dns-IsValid n p queries v h = record {
    configured = v.configured;
    sequence = v.sequence;
    streams = v.streams;
    pending = v.pending;
    pending_bound = v.pending_bound;
    pending_dns_bound = h;
    connections = v.connections;
  }

  with_room-IsValid :
      (n : ℕ) (p : Processor L host) (timestamp_ns : ℕ)
      → Valid n p
      → Valid n (with_room L host p timestamp_ns)
        × (suc (length (with_room L host p timestamp_ns).pending_dns) ≤ max_pending_dns)
  unfolding with_room
  with_room-IsValid n p timestamp_ns v =
      let keep : ℕ × ℕ × ℕ → PendingDnsQuery → Bool =
        λ _ pending. leb (timestamp_ns - 30000000000) pending.timestamp_ns in
      let fewer = length-retain keep p.pending_dns in
      elim (Bool-cases (ltb (length p.pending_dns) max_pending_dns)) [
        | inl room ↦ rw room (v, ground arith)
        | inr full ↦ elim (Bool-cases (leb max_pending_dns (length (retain keep p.pending_dns)))) [
          | inl crowded ↦ rw (full, crowded) (with_dns-IsValid n p [] v (omega arith), omega arith)
          | inr aged ↦
              rw (full, aged)
                (
                  with_dns-IsValid n p (retain keep p.pending_dns) v
                      (omega (arith, v.pending_dns_bound)),
                  ground arith,
                )
        ]
      ]

  match_dns-IsValid :
      (n : ℕ) (p : Processor L host) (raw : KernelEvent) (message : DecodedDnsMessage)
      → Valid n p
      → Valid n (match_dns L host p raw message).1
  unfolding match_dns
  match_dns-IsValid n p raw message v =
      let key : ℕ × ℕ × ℕ = (raw.tgid, raw.connection_key, message.query_id) in
      let (w, room) = with_room-IsValid n p raw.timestamp_ns v in
      elim (Bool-cases message.response) [
        | inl response ↦ rw response (
            with_dns-IsValid n p (remove same_stream key p.pending_dns) v
              (omega (arith, v.pending_dns_bound, length-remove same_stream key p.pending_dns)))
        | inr query ↦ rw query (
            with_dns-IsValid n (with_room L host p raw.timestamp_ns) _ w (
              omega (
                arith,
                room,
                length-insert same_stream key (pending_query raw message)
                    (with_room L host p raw.timestamp_ns).pending_dns,
              )))
      ]

  dns_event-Emits :
      (n : ℕ) (p : Processor L host) (raw : KernelEvent) (message : DecodedDnsMessage)
      → Valid n p
      → Emitting n (dns_event L host p raw message)
  unfolding dns_event
  dns_event-Emits n p raw message v =
      one_event-Emits L host config n _ raw _ _
        (connection_metadata-IsValid L host config n (match_dns L host p raw message).1 raw
          (match_dns-IsValid n p raw message v))
        refl tt

  process_decoded-Sound :
      (n : ℕ) (p : Processor L host) (raw : KernelEvent) (o : Dns DecodedDnsMessage)
      → Valid n p
      → Ensures IsMessage o
      → Sound L config n (process_decoded L host p raw o)
  unfolding process_decoded
  process_decoded-Sound n p raw (ok message) v h = dns_event-Emits n p raw message v
  process_decoded-Sound n p raw (err e) v h = v
  process_decoded-Sound n p raw panic v h = h
  process_decoded-Sound n p raw spent v h = h

  pub process_dns-Sound :
      (n : ℕ) (p : Processor L host) (raw : KernelEvent)
      → Valid n p
      → Sound L config n (process_dns L host p raw)
  unfolding process_dns
  process_dns-Sound n p raw v =
      process_decoded-Sound n p raw _ v
        (decode_dns_message-IsMessage (take (captured_len_of raw) raw.data_bytes))
