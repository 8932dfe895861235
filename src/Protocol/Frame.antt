-- ===== src/Protocol/Frame.antt =====
-- Whole frames and prefixes of frames: `decode_frame`, `decode_frame_prefix` and
-- `decode_compressed`, crates/mongo-protocol/src/lib.rs.
pub mod Bounds
pub mod Header
use mongodb_dam.Common.{
  ℕ, ◌+◌, ◌-◌, ◌==◌, Bool, true, false, not, ◌||◌, Bytes, ltb, leb, if◌then◌else◌, length, ◌⊎◌, inl,
  inr,
}
use mongodb_dam.Common.Int.{ℤ, as_usize, is_below, is_int}
use mongodb_dam.Common.Outcome.{Outcome, ok, err, ◌>>=◌, index, range}
use mongodb_dam.Protocol.Types.{
  op_reply, op_query, op_compressed, op_msg, Decode, invalid_frame_length, frame_too_large,
  truncated, unsupported_opcode, invalid_compressed, unsupported_compressor, decompression,
}
use mongodb_dam.Protocol.Libraries.{Libraries}
use mongodb_dam.Protocol.Read.{read_i32}
use mongodb_dam.Protocol.Message.{
  Message, decode_op_msg, decode_op_msg_prefix, decode_op_query, decode_op_query_prefix,
  decode_op_reply, decode_op_reply_prefix,
}

-- `.map_err(|error| DecodeError::Decompression(error.to_string()))?`
abbrev from_library {ℓ} : {A : Type ℓ} → Bytes ⊎ A → Decode A
from_library (inl message) = err (decompression message)
from_library (inr a) = ok a

module _ (L : Libraries) where
  snappy_payload : Bytes → ℕ → Decode Bytes
  snappy_payload compressed size = do
    decoded_size ← from_library (L.snappy_len compressed)
    if not (decoded_size == size)
        then err invalid_compressed
        else from_library (L.snappy compressed)

  -- The readers of zlib and zstd are asked for one byte more than was announced.
  decompress : ℕ → Bytes → ℕ → Decode Bytes
  decompress compressor compressed size =
      if compressor == 0
      then ok compressed
      else if compressor == 1
      then snappy_payload compressed size
      else if compressor == 2
      then from_library (L.zlib_take compressed (size + 1))
      else if compressor == 3
      then from_library (L.zstd_take compressed (size + 1))
      else err (unsupported_compressor compressor)

  decode_original : ℤ → ℤ → ℤ → ℕ → Bytes → Decode (Message L)
  decode_original opcode request_id response_to wire_bytes payload =
      if is_int opcode op_msg
      then decode_op_msg L request_id response_to wire_bytes payload true
      else if is_int opcode op_query
      then decode_op_query L request_id response_to wire_bytes payload true
      else if is_int opcode op_reply
      then decode_op_reply L request_id response_to wire_bytes payload true
      else err (unsupported_opcode opcode)

  unfoldable pub decode_compressed : ℤ → ℤ → ℕ → Bytes → ℕ → Decode (Message L)
  unfolding snappy_payload decompress decode_original read_i32 index range decode_op_msg
      decode_op_query decode_op_reply
  decode_compressed request_id response_to wire_bytes payload max_message_bytes =
      if ltb (length payload) 9 then err invalid_compressed else do
        original_opcode ← read_i32 payload 0
        uncompressed_size ← read_i32 payload 4
        if is_below uncompressed_size 0 || ltb (max_message_bytes - 16) (as_usize uncompressed_size)
            then err frame_too_large
            else do
              compressor ← index payload 8
              compressed ← range payload 9 (length payload)
              uncompressed ← decompress compressor compressed (as_usize uncompressed_size)
              if not (length uncompressed == as_usize uncompressed_size)
                  then err invalid_compressed
                  else decode_original original_opcode request_id response_to wire_bytes
                      uncompressed

  -- `match opcode` of `decode_frame`
  decode_payload : ℤ → ℤ → ℤ → ℕ → Bytes → ℕ → Decode (Message L)
  decode_payload opcode request_id response_to wire_bytes payload max_message_bytes =
      if is_int opcode op_msg
      then decode_op_msg L request_id response_to wire_bytes payload false
      else if is_int opcode op_query
      then decode_op_query L request_id response_to wire_bytes payload false
      else if is_int opcode op_reply
      then decode_op_reply L request_id response_to wire_bytes payload false
      else if is_int opcode op_compressed
      then decode_compressed request_id response_to wire_bytes payload max_message_bytes
      else err (unsupported_opcode opcode)

  unfoldable pub decode_frame : Bytes → ℕ → Decode (Message L)
  unfolding decode_payload decode_compressed read_i32 range decode_op_msg decode_op_query
      decode_op_reply
  decode_frame frame max_message_bytes = if ltb (length frame) 16 then err truncated else do
    declared ← read_i32 frame 0
    if is_below declared 16 || not (as_usize declared == length frame)
        then err (invalid_frame_length declared)
        else if ltb max_message_bytes (length frame)
        then err frame_too_large
        else do
          request_id ← read_i32 frame 4
          response_to ← read_i32 frame 8
          opcode ← read_i32 frame 12
          payload ← range frame 16 (length frame)
          decode_payload opcode request_id response_to (length frame) payload max_message_bytes

  decode_payload_prefix : ℤ → ℤ → ℤ → ℕ → Bytes → Decode (Message L)
  decode_payload_prefix opcode request_id response_to declared payload =
      if is_int opcode op_msg
      then decode_op_msg_prefix L request_id response_to declared payload
      else if is_int opcode op_query
      then decode_op_query_prefix L request_id response_to declared payload
      else if is_int opcode op_reply
      then decode_op_reply_prefix L request_id response_to declared payload
      else err (unsupported_opcode opcode)

  -- Behind the header of a frame that is cut off.
  decode_cut_frame : Bytes → ℕ → Decode (Message L)
  decode_cut_frame prefix declared = do
    request_id ← read_i32 prefix 4
    response_to ← read_i32 prefix 8
    opcode ← read_i32 prefix 12
    if is_int opcode op_compressed then err truncated else do
      payload ← range prefix 16 (length prefix)
      decode_payload_prefix opcode request_id response_to declared payload

  unfoldable pub decode_frame_prefix : Bytes → ℕ → Decode (Message L)
  unfolding decode_frame decode_payload_prefix decode_cut_frame read_i32 range decode_op_msg_prefix
      decode_op_query_prefix decode_op_reply_prefix
  decode_frame_prefix prefix max_message_bytes =
      if ltb (length prefix) 16 then err truncated else do
        declared ← read_i32 prefix 0
        if is_below declared 16
            then err (invalid_frame_length declared)
            else if ltb max_message_bytes (as_usize declared)
            then err frame_too_large
            else if leb (as_usize declared) (length prefix)
            then (do
              frame ← range prefix 0 (as_usize declared)
              decode_frame frame max_message_bytes)
            else decode_cut_frame prefix (as_usize declared)
