-- ===== src/Observer/DnsQueries.antt =====
-- `process_dns` of crates/observer/src/lib.rs, which matches responses with pending queries.
use mongodb_dam.Common.{
  ℕ, ◌-◌, ◌/◌, Option, none, some, Bytes, List, [], if◌then◌else◌, length, take, ltb, leb, codes,
}
use mongodb_dam.Common.Maps.{lookup, insert, remove, retain}
use mongodb_dam.Common.Outcome.{ok, err, panic, spent}
use mongodb_dam.Protocol.Libraries.{Libraries}
use mongodb_dam.Schema.Types.{dns_activity}
use mongodb_dam.Observer.State.{KernelEvent, Host, PendingDnsQuery, invalid_dns}
use mongodb_dam.Observer.Dns.{Dns, DecodedDnsMessage, decode_dns_message}
use mongodb_dam.Observer.Events.{
  Event, Processor, one_event, is_truncated, then_some, connection_metadata,
}
use mongodb_dam.Observer.Requests.{or_else}
use mongodb_dam.Observer.Messages.{Processed, captured_len_of, same_stream}

abbrev pub max_pending_dns : ℕ
max_pending_dns = 4096

-- What a DNS message says in its event, and the query that a response answers.
pub record DnsParts : Type 0 where
  pub operation : Bytes
  pub name : Option Bytes
  pub record_type : Option Bytes
  pub duration_us : Option ℕ

unfoldable pub response_parts : KernelEvent → DecodedDnsMessage → Option PendingDnsQuery → DnsParts
response_parts raw message none = record {
  operation = codes "response";
  name = message.name;
  record_type = message.record_type;
  duration_us = none;
}
response_parts raw message (some pending) = record {
  operation = codes "response";
  name = or_else message.name pending.name;
  record_type = or_else message.record_type pending.record_type;
  duration_us = some ((raw.timestamp_ns - pending.timestamp_ns) / 1000);
}

abbrev pub query_parts : DecodedDnsMessage → DnsParts
query_parts message = record {
  operation = codes "query";
  name = message.name;
  record_type = message.record_type;
  duration_us = none;
}

abbrev pub pending_query : KernelEvent → DecodedDnsMessage → PendingDnsQuery
pending_query raw message = record {
  timestamp_ns = raw.timestamp_ns;
  name = message.name;
  record_type = message.record_type;
}

module _ {Time : Type 0} (L : Libraries) (host : Host Time) where
  -- The queries that stay when one more is to be kept.
  unfoldable pub with_room : Processor L host → ℕ → Processor L host
  unfolding retain
  with_room p timestamp_ns =
      let recent =
        retain
          (λ _ (pending : PendingDnsQuery). leb (timestamp_ns - 30000000000) pending.timestamp_ns)
          p.pending_dns in
      if ltb (length p.pending_dns) max_pending_dns
      then p
      else if leb max_pending_dns (length recent)
      then record p { pending_dns = [] }
      else record p { pending_dns = recent }

  -- The parts of the event, and the processor without the answered query or with the new one.
  unfoldable pub match_dns :
      Processor L host → KernelEvent → DecodedDnsMessage → DnsParts × Processor L host
  unfolding with_room response_parts lookup insert remove
  match_dns p raw message =
      let key : ℕ × ℕ × ℕ = (raw.tgid, raw.connection_key, message.query_id) in
      let room = with_room p raw.timestamp_ns in
      if message.response
      then (
        response_parts raw message (lookup same_stream key p.pending_dns),
        record p { pending_dns = remove same_stream key p.pending_dns },
      )
      else (
        query_parts message,
        record room {
          pending_dns = insert same_stream key (pending_query raw message) room.pending_dns;
        },
      )

  unfoldable pub dns_event :
      Processor L host → KernelEvent → DecodedDnsMessage → List (Event L host) × Processor L host
  unfolding match_dns connection_metadata
  dns_event p raw message =
      let (parts, p1) = match_dns p raw message in
      let (connection, p2) = connection_metadata L host p1 raw in
      one_event L host p2 raw (is_truncated raw) (
        dns_activity (record {
          operation = parts.operation;
          transport = codes "udp";
          query_id = message.query_id;
          name = parts.name;
          record_type = parts.record_type;
          response_code = then_some message.response message.response_code;
          answer_count = then_some message.response message.answer_count;
          duration_us = parts.duration_us;
          connection = connection;
        }))

  unfoldable pub process_decoded :
      Processor L host → KernelEvent → Dns DecodedDnsMessage → Processed L host
  unfolding dns_event
  process_decoded p raw (ok message) = let (events, p') = dns_event p raw message in (ok events, p')
  process_decoded p raw (err e) = (err (invalid_dns e), p)
  process_decoded p raw panic = (panic, p)
  process_decoded p raw spent = (spent, p)

  unfoldable pub process_dns : Processor L host → KernelEvent → Processed L host
  unfolding process_decoded
  process_dns p raw =
      process_decoded p raw (decode_dns_message (take (captured_len_of raw) raw.data_bytes))
