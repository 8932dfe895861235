-- ===== src/Lib.antt =====
-- MongoDB DAM: a database activity monitor for MongoDB.
--
-- The eBPF program bpf/observer.bpf.c hands pieces of socket traffic to the Observer
-- (crates/observer). The Observer feeds each direction of a connection to a `StreamDecoder` of
-- crates/mongo-protocol, turns the decoded messages into events (crates/schema), and stores them in
-- batches in a `DurableSpool` (crates/spool). The Outpost (crates/outpost) takes batches over HTTP,
-- stores them in a spool of its own, and delivers them to S3. Modelled are the libraries on which the
-- others rely: the decoder, whose input is hostile, the spool, which must not lose or mix up batches,
-- the validation of batches, the Observer's processor of kernel events, and the Outpost's service.
--
-- Common: the shared names. Outcome is the result of a Rust function that returns `Result`: `ok`,
--   `err`, `panic` for an index or a range out of bounds, and `spent` for a loop whose fuel is gone.
--   Int has the machine integers; Text, Space, Numerals and Lossy the operations on texts, which are
--   their UTF-8 bytes; Maps a hash map as the list of its entries.
--
-- Protocol: crates/mongo-protocol/src/lib.rs, one function for each of the source.
--   Types: the constants and data types. Libraries: what serde_json, snap, flate2 and zstd supply,
--   and to the Observer sha2 and hex, a parameter of all that uses it. Read: read_i32 to read_u64,
--   read_cstring, and the reads of an element. Bson: skip_value and the value readers; Bson/Float:
--   the conversions of a double, by its bit pattern. Deletes: the delete statements. Json: the
--   conversion of documents to JSON. Scram: parse_scram_principal. Summary: BsonSummary and the
--   command lists. Document: summarize_bson_inner and summarize_bson_prefix. Message: OP_MSG,
--   OP_QUERY and OP_REPLY; Message/Sections: the sections of an OP_MSG. Frame: decode_frame,
--   decode_frame_prefix and decode_compressed. Stream: StreamDecoder, whose methods return the
--   decoder that they leave beside the result.
--   The modules called Bounds are about the ends of reads and loops, those called Header about the
--   header of a frame, those called RoundTrip about written forms. Stream/Framing, Stream/Chunks and
--   Stream/Retention are about the stream: its frames, its pieces, and what is kept of it.
--
-- Spool: crates/spool/src/lib.rs.
--   Files: the two directories as lists of named files, and directory_stats. Digest: the name of a
--   batch, from sha2 and hex, a parameter. Store: enqueue, pending, read, acknowledge, quarantine and
--   the statistics. Recovery: open and recover_temporary_files. Steps: all of these as a step
--   relation. Ledger: the abstract view, what each identifier is to the clients, and the turns that it
--   takes. A call that fails on the disk is a value: `Disk` says how far the writes of enqueue get.
--
-- Observer: crates/observer/src/lib.rs. State: the data types, and `Host`, what a call sees of its
--   surroundings. Kernel: KernelEvent::from_ring_bytes and command. Codes: the EVENT and OP constants.
--   Dns: decode_dns_message and parse_dns_name. Commands: the classification of commands and
--   hash_principal. PodUid, Endpoint, Proc: extract_pod_uid, parse_endpoint, parse_proc_net_tcp and the
--   readers of /proc. Events: seed, event, event_from_seed, connection_metadata, socket_endpoints.
--   Requests: prune_pending_requests and events_for_completed_request. Messages: process_message and
--   process_io_chunk. DnsQueries, ConnectionEvents, Kinds: the other handlers, where process_lifecycle
--   is process_exec_or_exit. Processor: EventProcessor::process. A handler takes the processor and
--   returns its events and the new processor. Sound and the modules in it: the invariant of the state;
--   Runs: calls one after the other; Matching: requests and responses; Released: what is dropped.
--
-- Schema: crates/schema/src/lib.rs. Types: the contract of events and batches; Validate:
--   DamBatch::validate.
--
-- Outpost: crates/outpost/src/lib.rs. State: the service's state, and `Platform`, which stands for the
--   parts of a time, the JSON of batches and mapping documents, gzip and the parsing of URLs. Identity:
--   the mapping of principals to external identities. ObjectKey: s3_object_key and its parts. Config:
--   validate_config. Accept: enrich_batch and accept_batch, from the request to its response. Deliver:
--   deliver_pending over the items of the spool, where what the receiver answers in one pass is an
--   argument. Kubernetes: refresh_kubernetes_cache on the answer of the API server, and read_secret.
--   Service: build_state, health and a turn of run_exporter. Accept/Outcomes, Enriched and Attributed
--   are about requests, Accept/Observed about those with an Observer's batches, the modules in Deliver
--   about what a pass does to the spool and to the receiver, those in ObjectKey about the names of
--   objects, Identity/Mapped, Fields, Arns and Forms about the mappings.
--
-- Fuel: the walk over a document, an array or the sections of a message moves on by a byte at least in
-- each turn, so the number of bytes is enough; nested documents are shorter than what holds them, so
-- their depth is below the number of bytes; a frame takes sixteen bytes at least, so push needs no
-- more turns than buffered bytes and one. None of the bounds is a hypothesis: that the fuel is enough
-- is part of each theorem about a call that returns.
--
-- Not modelled: the values of floating-point numbers beyond the conversions that the decoder makes of
-- them, and the depth of the call stack; the file system beyond the names and contents of files, so
-- that a sync is a point at which a write may stop, and its failures outside the writes of enqueue;
-- the poisoning of the gate. A file of /proc that changes during one call of the processor is taken to
-- read the same each time. The JSON form of events and batches is that of serde. The programs
-- crates/observer/src/main.rs, crates/outpost/src/main.rs and crates/mock-endpoint are input and
-- output in the main, and so are the Outpost's router, its metrics endpoint, the building of its clients and the
-- loops of its tasks: a request, and a turn of a task, is one call of its handler.
pub mod Common
pub mod Protocol
pub mod Observer
pub mod Schema
pub mod Outpost
pub mod Spool
pub mod Tests
