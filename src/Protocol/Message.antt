-- ===== src/Protocol/Message.antt =====
-- The payloads of OP_MSG, OP_QUERY and OP_REPLY messages, whole and cut off:
-- crates/mongo-protocol/src/lib.rs.
pub mod Sections
pub mod Bounds
pub mod Header
use Sections.{SectionState, read_sections}
use mongodb_dam.Common.{
  ℕ, suc, ◌+◌, ◌-◌, ◌/◌, ◌%◌, ◌^◌, ◌==◌, Bool, true, false, not, ◌&&◌, ◌||◌, Option, none, some,
  Bytes, List, [], ◌∷◌, codes, ltb, min, if◌then◌else◌, length, slice_from, bytes_eq, split_once,
  starts_with,
}
use mongodb_dam.Common.Int.{ℤ, is_below, is_int}
use mongodb_dam.Common.Outcome.{Outcome, ok, err, ◌>>=◌, ok_or, index, range}
use mongodb_dam.Protocol.Types.{
  Decode, MongoCommand, ResponseStatus, DecodedMessage, truncated, unsupported_section,
  invalid_bson,
}
use mongodb_dam.Protocol.Libraries.{Libraries}
use mongodb_dam.Protocol.Read.{read_i32, read_u32, read_cstring, checked_add}
use mongodb_dam.Protocol.Deletes.{document_end}
use mongodb_dam.Protocol.Summary.{
  BsonSummary, command_from_summary, captures_query, status_of, or_else,
}
use mongodb_dam.Protocol.Document.{Summary, summarize_bson, summarize_bson_prefix}

-- `u32::try_from(n).unwrap_or(u32::MAX)`
abbrev pub saturate32 : ℕ → ℕ
saturate32 n = min n (2 ^ 32 - 1)

-- `split_legacy_namespace`: database, collection, and whether the collection is the command one.
record LegacyNamespace : Type 0 where
  database : Option Bytes
  collection : Option Bytes
  is_command : Bool

namespace_of : Option (Bytes × Bytes) → LegacyNamespace
namespace_of none = record { database = none; collection = none; is_command = false }
namespace_of (some (database, collection)) =
    if bytes_eq collection (codes "$cmd") || starts_with (codes "$cmd.") collection
    then record { database = some database; collection = none; is_command = true }
    else record { database = some database; collection = some collection; is_command = false }

split_legacy_namespace : Bytes → LegacyNamespace
unfolding namespace_of split_once starts_with bytes_eq
split_legacy_namespace namespace = namespace_of (split_once b'.' namespace)

module _ (L : Libraries) where
  abbrev pub Message : Type 0
  Message = DecodedMessage L.Value

  -- `command` and `status` of an OP_MSG: a request has no `response_to`.
  op_msg_message : ℤ → ℤ → ℕ → ℕ → Bool → Summary L → Message
  op_msg_message request_id response_to wire_bytes flags compressed summary =
      let request = is_int response_to 0 in
      record {
        request_id = request_id;
        response_to = response_to;
        wire_bytes = saturate32 wire_bytes;
        flags = flags;
        more_to_come = flags / 2 % 2 == 1;
        compressed = compressed;
        command = if request then command_from_summary summary else none;
        status = if request then none else some (status_of summary);
      }

  -- Behind the loop of `decode_op_msg`: the delete sequence, and the captured sequences.
  insert_sequences : L.Map → List (Bytes × List L.Value) → L.Map
  insert_sequences query [] = query
  insert_sequences query ((identifier, documents) ∷ rest) =
      insert_sequences (L.insert query identifier (L.array documents)) rest

  with_sequences : Option L.Value → List (Bytes × List L.Value) → Option L.Value
  with_sequences none sequences = none
  with_sequences (some value) sequences = elim (L.as_object value) [
    | none ↦ some value
    | some query ↦ some (L.object (insert_sequences query sequences))
  ]

  with_deletes : SectionState L → Summary L → Summary L
  with_deletes s summary = elim s.delete_sequence [
    | none ↦ summary
    | some (scope, statements) ↦ record summary {
      delete_scope = scope;
      delete_statements = some statements;
    }
  ]

  merge_sections : SectionState L → Summary L → Summary L
  merge_sections s summary =
      let merged = with_deletes s summary in
      if captures_query merged.first_key
      then record merged { query = with_sequences merged.query s.document_sequences }
      else merged

  finish_op_msg : ℤ → ℤ → ℕ → ℕ → Bool → SectionState L → Decode Message
  finish_op_msg request_id response_to wire_bytes flags compressed s = do
    summary ← ok_or s.summary invalid_bson
    ok (
        op_msg_message request_id response_to wire_bytes flags compressed
          (merge_sections s summary))

  unfoldable pub decode_op_msg : ℤ → ℤ → ℕ → Bytes → Bool → Decode Message
  unfolding op_msg_message insert_sequences with_sequences with_deletes merge_sections finish_op_msg
      read_sections read_u32 command_from_summary captures_query
  decode_op_msg request_id response_to wire_bytes payload compressed =
      if ltb (length payload) 5 then err truncated else do
        flags ← read_u32 payload 0
        let checksum_bytes : ℕ = if flags % 2 == 1 then 4 else 0
        if ltb (length payload) (4 + checksum_bytes) then err truncated else do
          s ← read_sections L payload (length payload - checksum_bytes)
          finish_op_msg request_id response_to wire_bytes flags compressed s

  unfoldable pub decode_op_msg_prefix : ℤ → ℤ → ℕ → Bytes → Decode Message
  unfolding op_msg_message read_u32 index range summarize_bson_prefix command_from_summary
  decode_op_msg_prefix request_id response_to declared payload =
      if ltb (length payload) 6 then err truncated else do
        flags ← read_u32 payload 0
        kind ← index payload 4
        if not (kind == 0) then err (unsupported_section kind) else do
          document ← range payload 5 (length payload)
          summary ← summarize_bson_prefix L document
          ok (op_msg_message request_id response_to declared flags false summary)

  -- `decoded_op_query`
  with_database : Option Bytes → MongoCommand L.Value → MongoCommand L.Value
  with_database database command = record command { database = or_else command.database database }

  query_command : LegacyNamespace → Summary L → Option (MongoCommand L.Value)
  query_command namespace summary =
      if namespace.is_command
      then (elim (command_from_summary summary) [
        | none ↦ none
        | some command ↦ some (with_database namespace.database command)
      ])
      else some (record {
        name = codes "find";
        database = namespace.database;
        collection = namespace.collection;
        auth_mechanism = none;
        principal = none;
        speculative_auth = false;
        delete_scope = none;
        delete_statements = none;
        query = summary.query;
      })

  decoded_op_query : ℤ → ℤ → ℕ → ℕ → Bytes → Summary L → Bool → Message
  unfolding split_legacy_namespace with_database query_command command_from_summary
  decoded_op_query request_id response_to wire_bytes flags namespace summary compressed = record {
    request_id = request_id;
    response_to = response_to;
    wire_bytes = saturate32 wire_bytes;
    flags = flags;
    more_to_come = false;
    compressed = compressed;
    command =
        if is_int response_to 0
        then query_command (split_legacy_namespace namespace) summary
        else none;
    status = none;
  }

  unfoldable pub decode_op_query : ℤ → ℤ → ℕ → Bytes → Bool → Decode Message
  unfolding decoded_op_query read_u32 read_cstring document_end range summarize_bson
  decode_op_query request_id response_to wire_bytes payload compressed =
      if ltb (length payload) 13 then err truncated else do
        flags ← read_u32 payload 0
        (namespace, after_namespace) ← read_cstring payload 4
        document_offset ← ok_or (checked_add after_namespace 8) invalid_bson
        end ← document_end payload document_offset
        document ← range payload document_offset end
        summary ← summarize_bson L document
        ok (decoded_op_query request_id response_to wire_bytes flags namespace summary compressed)

  unfoldable pub decode_op_query_prefix : ℤ → ℤ → ℕ → Bytes → Decode Message
  unfolding decoded_op_query read_u32 read_cstring slice_from summarize_bson_prefix
  decode_op_query_prefix request_id response_to wire_bytes payload =
      if ltb (length payload) 13 then err truncated else do
        flags ← read_u32 payload 0
        (namespace, after_namespace) ← read_cstring payload 4
        document_offset ← ok_or (checked_add after_namespace 8) invalid_bson
        document ← ok_or (slice_from payload document_offset) truncated
        summary ← summarize_bson_prefix L document
        ok (decoded_op_query request_id response_to wire_bytes flags namespace summary false)

  -- `decoded_op_reply`: the reply's `ok` is the document's, or that no failure flag is set.
  reply_status : Bool → Option (Summary L) → ResponseStatus
  reply_status failed none = record {
    ok = some (not failed);
    code = none;
    code_name = none;
    affected_count = none;
    auth_done = none;
  }
  reply_status failed (some summary) = record (status_of summary) {
    ok = or_else summary.ok (some (not failed));
  }

  decoded_op_reply : ℤ → ℤ → ℕ → ℕ → Option (Summary L) → Bool → Message
  unfolding reply_status
  decoded_op_reply request_id response_to wire_bytes flags summary compressed = record {
    request_id = request_id;
    response_to = response_to;
    wire_bytes = saturate32 wire_bytes;
    flags = flags;
    more_to_come = false;
    compressed = compressed;
    command = none;
    status = some (reply_status (not (flags % 4 == 0)) summary);
  }

  -- The first document of a reply, where the reply says that it has one.
  reply_summary : Bytes → ℤ → Decode (Option (Summary L))
  reply_summary payload returned =
      if not (is_below returned 1) && ltb 20 (length payload)
      then (do
        end ← document_end payload 20
        document ← range payload 20 end
        summary ← summarize_bson L document
        ok (some summary))
      else ok none

  unfoldable pub decode_op_reply : ℤ → ℤ → ℕ → Bytes → Bool → Decode Message
  unfolding reply_summary decoded_op_reply read_u32 read_i32 document_end range summarize_bson
  decode_op_reply request_id response_to wire_bytes payload compressed =
      if ltb (length payload) 20 then err truncated else do
        flags ← read_u32 payload 0
        returned ← read_i32 payload 16
        summary ← reply_summary payload returned
        ok (decoded_op_reply request_id response_to wire_bytes flags summary compressed)

  reply_prefix_summary : Bytes → ℤ → Decode (Option (Summary L))
  reply_prefix_summary payload returned =
      if not (is_below returned 1) && ltb 20 (length payload)
      then (do
        document ← range payload 20 (length payload)
        summary ← summarize_bson_prefix L document
        ok (some summary))
      else ok none

  unfoldable pub decode_op_reply_prefix : ℤ → ℤ → ℕ → Bytes → Decode Message
  unfolding reply_prefix_summary decoded_op_reply read_u32 read_i32 range summarize_bson_prefix
  decode_op_reply_prefix request_id response_to wire_bytes payload =
      if ltb (length payload) 20 then err truncated else do
        flags ← read_u32 payload 0
        returned ← read_i32 payload 16
        summary ← reply_prefix_summary payload returned
        ok (decoded_op_reply request_id response_to wire_bytes flags summary false)
