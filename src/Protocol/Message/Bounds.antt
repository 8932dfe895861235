-- ===== src/Protocol/Message/Bounds.antt =====
-- The payload decoders return on every input: no index is out of bounds, and the fuel is enough.
use mongodb_dam.Common.{
  ℕ, ◌+◌, ◌-◌, ◌%◌, ◌≤◌, ◌==◌, ◌&&◌, not, arith, Bool, Bytes, length, ltb, slice_from,
  if◌then◌else◌,
}
use mongodb_dam.Common.Int.{ℤ, is_below}
use mongodb_dam.Common.Outcome.{
  ok, range, ok_or, ◌>>=◌, Ensures-bind, Ensures-if, Ensures-index, Ensures-range,
}
use mongodb_dam.Protocol.Types.{invalid_bson, truncated}
use mongodb_dam.Protocol.Libraries.{Libraries}
use mongodb_dam.Protocol.Read.{read_i32, read_u32, read_cstring, checked_add}
use mongodb_dam.Protocol.Read.Bounds.{Ensures-ok_or, read_cstring-Ensures}
use mongodb_dam.Protocol.Bson.Bounds.{Returns, then_Returns, read_u32-Returns, read_i32-Returns}
use mongodb_dam.Protocol.Deletes.{document_end}
use mongodb_dam.Protocol.Deletes.Bounds.{DocumentEnd, document_end-Ensures}
use mongodb_dam.Protocol.Document.{Summary, summarize_bson, summarize_bson_prefix}
use mongodb_dam.Protocol.Document.Bounds.{summarize_bson-Returns, summarize_bson_prefix-Returns}
use mongodb_dam.Protocol.Message.Sections.{SectionState, read_sections}
use mongodb_dam.Protocol.Message.Sections.Bounds.{read_sections-Returns}
use mongodb_dam.Protocol.Message.{
  decode_op_msg, finish_op_msg, decode_op_msg_prefix, decode_op_query, decode_op_query_prefix,
  reply_summary, decode_op_reply, reply_prefix_summary, decode_op_reply_prefix,
}

module _ (L : Libraries) where
  finish_op_msg-Returns :
      (request_id response_to : ℤ) (wire_bytes flags : ℕ) (compressed : Bool) (s : SectionState L)
      → Returns (finish_op_msg L request_id response_to wire_bytes flags compressed s)
  unfolding finish_op_msg
  finish_op_msg-Returns request_id response_to wire_bytes flags compressed s =
      then_Returns (ok_or s.summary invalid_bson) _
        (Ensures-ok_or _ s.summary invalid_bson (λ _ _. tt)) (λ _. tt)

  pub decode_op_msg-Returns :
      (request_id response_to : ℤ) (wire_bytes : ℕ) (payload : Bytes) (compressed : Bool)
      → Returns (decode_op_msg L request_id response_to wire_bytes payload compressed)
  unfolding decode_op_msg
  decode_op_msg-Returns request_id response_to wire_bytes payload compressed =
      Ensures-if (λ _. Unit {0}) (ltb (length payload) 5) _ _ (λ _. tt)
        λ _. then_Returns (read_u32 payload 0) _ (read_u32-Returns payload 0) λ flags.
          let checksum : ℕ = if flags % 2 == 1 then 4 else 0 in
          Ensures-if (λ _. Unit {0}) (ltb (length payload) (4 + checksum)) _ _ (λ _. tt)
            λ _.
              then_Returns (read_sections L payload (length payload - checksum)) _
                (read_sections-Returns L payload (length payload - checksum) (omega arith))
                (λ s. finish_op_msg-Returns request_id response_to wire_bytes flags compressed s)

  pub decode_op_msg_prefix-Returns :
      (request_id response_to : ℤ) (declared : ℕ) (payload : Bytes)
      → Returns (decode_op_msg_prefix L request_id response_to declared payload)
  unfolding decode_op_msg_prefix
  decode_op_msg_prefix-Returns request_id response_to declared payload =
      Ensures-if (λ _. Unit {0}) (ltb (length payload) 6) _ _ (λ _. tt)
        λ long.
          let six : 6 ≤ length payload = ground arith in
          then_Returns (read_u32 payload 0) _ (read_u32-Returns payload 0) λ flags.
            Ensures-index (λ _. Unit {0}) payload 4 _ (omega arith)
              λ kind.
                Ensures-if (λ _. Unit {0}) (not (kind == 0)) _ _ (λ _. tt)
                  λ _.
                    Ensures-range (λ _. Unit {0}) payload 5 (length payload) _ (omega arith)
                      (omega arith)
                      λ document _.
                        then_Returns (summarize_bson_prefix L document) _
                          (summarize_bson_prefix-Returns L document) (λ _. tt)

  -- A document that stands in a payload is summarised.
  summarize_range-Returns {ℓ} :
      {A : Type ℓ} (payload : Bytes) (offset : ℕ) (f : Summary L → A)
      → Returns (
          document_end payload offset >>= λ end.
          (range payload offset end >>= λ document. (summarize_bson L document >>= λ s. ok (f s))))
  summarize_range-Returns payload offset f =
      Ensures-bind (DocumentEnd payload offset) (λ _. Unit {0}) (document_end payload offset) _
        (document_end-Ensures payload offset)
        λ end h.
          Ensures-range (λ _. Unit {0}) payload offset end _ (omega arith) (omega arith)
            λ document _.
              then_Returns (summarize_bson L document) _ (summarize_bson-Returns L document)
                (λ _. tt)

  pub decode_op_query-Returns :
      (request_id response_to : ℤ) (wire_bytes : ℕ) (payload : Bytes) (compressed : Bool)
      → Returns (decode_op_query L request_id response_to wire_bytes payload compressed)
  unfolding decode_op_query
  decode_op_query-Returns request_id response_to wire_bytes payload compressed =
      Ensures-if (λ _. Unit {0}) (ltb (length payload) 13) _ _ (λ _. tt)
        λ _. then_Returns (read_u32 payload 0) _ (read_u32-Returns payload 0) λ flags.
          Ensures-bind _ _ (read_cstring payload 4) _ (read_cstring-Ensures payload 4) λ r _.
            Ensures-bind (λ _. Unit {0}) _ (ok_or (checked_add r.1 8) invalid_bson) _
              (Ensures-ok_or _ (checked_add r.1 8) invalid_bson (λ _ _. tt))
              (λ offset _. summarize_range-Returns payload offset _)

  pub decode_op_query_prefix-Returns :
      (request_id response_to : ℤ) (wire_bytes : ℕ) (payload : Bytes)
      → Returns (decode_op_query_prefix L request_id response_to wire_bytes payload)
  unfolding decode_op_query_prefix
  decode_op_query_prefix-Returns request_id response_to wire_bytes payload =
      Ensures-if (λ _. Unit {0}) (ltb (length payload) 13) _ _ (λ _. tt)
        λ _. then_Returns (read_u32 payload 0) _ (read_u32-Returns payload 0) λ flags.
          Ensures-bind _ _ (read_cstring payload 4) _ (read_cstring-Ensures payload 4) λ r _.
            Ensures-bind (λ _. Unit {0}) _ (ok_or (checked_add r.1 8) invalid_bson) _
              (Ensures-ok_or _ (checked_add r.1 8) invalid_bson (λ _ _. tt))
              λ offset _.
                Ensures-bind (λ _. Unit {0}) _ (ok_or (slice_from payload offset) truncated) _
                  (Ensures-ok_or _ (slice_from payload offset) truncated (λ _ _. tt))
                  λ document _.
                    then_Returns (summarize_bson_prefix L document) _
                      (summarize_bson_prefix-Returns L document) (λ _. tt)

  reply_summary-Returns :
      (payload : Bytes) (returned : ℤ) → Returns (reply_summary L payload returned)
  unfolding reply_summary
  reply_summary-Returns payload returned =
      Ensures-if (λ _. Unit {0}) (not (is_below returned 1) && ltb 20 (length payload)) _ _
        (λ _. summarize_range-Returns payload 20 _) (λ _. tt)

  pub decode_op_reply-Returns :
      (request_id response_to : ℤ) (wire_bytes : ℕ) (payload : Bytes) (compressed : Bool)
      → Returns (decode_op_reply L request_id response_to wire_bytes payload compressed)
  unfolding decode_op_reply
  decode_op_reply-Returns request_id response_to wire_bytes payload compressed =
      Ensures-if (λ _. Unit {0}) (ltb (length payload) 20) _ _ (λ _. tt)
        λ _. then_Returns (read_u32 payload 0) _ (read_u32-Returns payload 0) λ flags.
          then_Returns (read_i32 payload 16) _ (read_i32-Returns payload 16) λ returned.
            then_Returns (reply_summary L payload returned) _
              (reply_summary-Returns payload returned) (λ _. tt)

  reply_prefix_summary-Returns :
      (payload : Bytes) (returned : ℤ) → Returns (reply_prefix_summary L payload returned)
  unfolding reply_prefix_summary
  reply_prefix_summary-Returns payload returned =
      Ensures-if (λ _. Unit {0}) (not (is_below returned 1) && ltb 20 (length payload)) _ _
        (λ more.
          Ensures-range (λ _. Unit {0}) payload 20 (length payload) _ (ground arith) (omega arith)
            λ document _.
              then_Returns (summarize_bson_prefix L document) _
                (summarize_bson_prefix-Returns L document) (λ _. tt))
        (λ _. tt)

  pub decode_op_reply_prefix-Returns :
      (request_id response_to : ℤ) (wire_bytes : ℕ) (payload : Bytes)
      → Returns (decode_op_reply_prefix L request_id response_to wire_bytes payload)
  unfolding decode_op_reply_prefix
  decode_op_reply_prefix-Returns request_id response_to wire_bytes payload =
      Ensures-if (λ _. Unit {0}) (ltb (length payload) 20) _ _ (λ _. tt)
        λ _. then_Returns (read_u32 payload 0) _ (read_u32-Returns payload 0) λ flags.
          then_Returns (read_i32 payload 16) _ (read_i32-Returns payload 16) λ returned.
            then_Returns (reply_prefix_summary L payload returned) _
              (reply_prefix_summary-Returns payload returned) (λ _. tt)
