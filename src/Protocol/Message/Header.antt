-- ===== src/Protocol/Message/Header.antt =====
-- What the payload decoders of crates/mongo-protocol/src/lib.rs carry over from the header.
use mongodb_dam.Common.{
  ℕ, ◌+◌, ◌-◌, ◌%◌, ◌==◌, ltb, length, ◌≡◌, refl, Bool, true, none, Bytes, Bool-cases, inl, inr,
  ◌⊎◌, if◌then◌else◌,
}
use mongodb_dam.Common.Int.{ℤ, is_int}
use mongodb_dam.Common.Outcome.{ok_or, range, Yields, Yields-bind, Yields-if}
use mongodb_dam.Protocol.Libraries.{Libraries}
use mongodb_dam.Protocol.Message.{
  Message, saturate32, op_msg_message, merge_sections, finish_op_msg, decode_op_msg,
  decoded_op_query, decode_op_query, decoded_op_reply, decode_op_reply, reply_summary,
}
use mongodb_dam.Protocol.Types.{invalid_bson}
use mongodb_dam.Protocol.Read.{read_u32, read_i32, read_cstring, checked_add}
use mongodb_dam.Protocol.Deletes.{document_end}
use mongodb_dam.Protocol.Document.{Summary, summarize_bson}
use mongodb_dam.Protocol.Message.Sections.{read_sections}

module _ (L : Libraries) (request_id response_to : ℤ) (wire_bytes : ℕ) where
  -- The identifiers and the size are those of the header, and only a message that answers none has
  -- a command.
  pub record HasHeader (message : Message L) : Type 0 where
    pub same_request : message.request_id ≡ request_id
    pub same_response : message.response_to ≡ response_to
    pub same_size : message.wire_bytes ≡ saturate32 wire_bytes
    pub requests : (message.command ≡ none) ⊎ (is_int response_to 0 ≡ true)

  op_msg_message-HasHeader :
      (flags : ℕ) (compressed : Bool) (summary : Summary L)
      → HasHeader (op_msg_message L request_id response_to wire_bytes flags compressed summary)
  unfolding op_msg_message
  op_msg_message-HasHeader flags compressed summary = record {
    same_request = refl;
    same_response = refl;
    same_size = refl;
    requests = elim (Bool-cases (is_int response_to 0)) [
      | inl request ↦ inr request
      | inr answer ↦ inl (rw answer refl)
    ];
  }

  decoded_op_query-HasHeader :
      (flags : ℕ) (namespace : Bytes) (summary : Summary L) (compressed : Bool)
      → HasHeader
          (decoded_op_query L request_id response_to wire_bytes flags namespace summary compressed)
  unfolding decoded_op_query
  decoded_op_query-HasHeader flags namespace summary compressed = record {
    same_request = refl;
    same_response = refl;
    same_size = refl;
    requests = elim (Bool-cases (is_int response_to 0)) [
      | inl request ↦ inr request
      | inr answer ↦ inl (rw answer refl)
    ];
  }

  pub decode_op_msg-HasHeader :
      (payload : Bytes) (compressed : Bool)
      → Yields HasHeader (decode_op_msg L request_id response_to wire_bytes payload compressed)
  unfolding decode_op_msg finish_op_msg
  decode_op_msg-HasHeader payload compressed =
      Yields-if HasHeader (ltb (length payload) 5) _ _ (λ _. tt)
        λ _. Yields-bind HasHeader (read_u32 payload 0) _ λ flags _.
          let checksum : ℕ = if flags % 2 == 1 then 4 else 0 in
          Yields-if HasHeader (ltb (length payload) (4 + checksum)) _ _ (λ _. tt)
            λ _.
              Yields-bind HasHeader (read_sections L payload (length payload - checksum)) _ λ s _.
                Yields-bind HasHeader (ok_or s.summary invalid_bson) _ λ summary _.
                  op_msg_message-HasHeader flags compressed (merge_sections L s summary)

  pub decode_op_query-HasHeader :
      (payload : Bytes) (compressed : Bool)
      → Yields HasHeader (decode_op_query L request_id response_to wire_bytes payload compressed)
  unfolding decode_op_query
  decode_op_query-HasHeader payload compressed =
      Yields-if HasHeader (ltb (length payload) 13) _ _ (λ _. tt)
        λ _. Yields-bind HasHeader (read_u32 payload 0) _ λ flags _.
          Yields-bind HasHeader (read_cstring payload 4) _ λ name _.
            Yields-bind HasHeader (ok_or (checked_add name.1 8) invalid_bson) _ λ offset _.
              Yields-bind HasHeader (document_end payload offset) _ λ end _.
                Yields-bind HasHeader (range payload offset end) _ λ document _.
                  Yields-bind HasHeader (summarize_bson L document) _
                    λ summary _. decoded_op_query-HasHeader flags name.0 summary compressed

  pub decode_op_reply-HasHeader :
      (payload : Bytes) (compressed : Bool)
      → Yields HasHeader (decode_op_reply L request_id response_to wire_bytes payload compressed)
  unfolding decode_op_reply decoded_op_reply
  decode_op_reply-HasHeader payload compressed =
      Yields-if HasHeader (ltb (length payload) 20) _ _ (λ _. tt)
        λ _. Yields-bind HasHeader (read_u32 payload 0) _ λ flags _.
          Yields-bind HasHeader (read_i32 payload 16) _ λ returned _.
            Yields-bind HasHeader (reply_summary L payload returned) _ λ summary _. record {
              same_request = refl;
              same_response = refl;
              same_size = refl;
              requests = inl refl;
            }
