-- ===== src/Protocol/Frame/Bounds.antt =====
-- Decoding a frame or a prefix of one returns on every input.
use mongodb_dam.Common.{
  ℕ, ◌+◌, ◌-◌, ◌≤◌, ◌==◌, ◌||◌, not, arith, true, false, Bytes, length, ltb, leb, leb→le, ◌⊎◌, inl,
  inr,
}
use mongodb_dam.Common.Int.{ℤ, is_below, as_usize, is_int}
use mongodb_dam.Common.Outcome.{Ensures-if, Ensures-index, Ensures-range}
use mongodb_dam.Protocol.Types.{op_compressed}
use mongodb_dam.Protocol.Libraries.{Libraries}
use mongodb_dam.Protocol.Read.{read_i32}
use mongodb_dam.Protocol.Bson.Bounds.{Returns, then_Returns, read_i32-Returns}
use mongodb_dam.Protocol.Message.Bounds.{
  decode_op_msg-Returns, decode_op_msg_prefix-Returns, decode_op_query-Returns,
  decode_op_query_prefix-Returns, decode_op_reply-Returns, decode_op_reply_prefix-Returns,
}
use mongodb_dam.Protocol.Frame.{
  from_library, snappy_payload, decompress, decode_original, decode_compressed, decode_payload,
  decode_frame, decode_payload_prefix, decode_cut_frame, decode_frame_prefix,
}

from_library-Returns {ℓ} : {A : Type ℓ} (r : Bytes ⊎ A) → Returns (from_library r)
from_library-Returns (inl message) = tt
from_library-Returns (inr a) = tt

module _ (L : Libraries) where
  decompress-Returns :
      (compressor : ℕ) (compressed : Bytes) (size : ℕ)
      → Returns (decompress L compressor compressed size)
  unfolding decompress snappy_payload
  decompress-Returns compressor compressed size = ground (
    arith,
    from_library-Returns (L.snappy_len compressed),
    from_library-Returns (L.snappy compressed),
    from_library-Returns (L.zlib_take compressed (size + 1)),
    from_library-Returns (L.zstd_take compressed (size + 1)),
  )

  decode_original-Returns :
      (opcode request_id response_to : ℤ) (wire_bytes : ℕ) (payload : Bytes)
      → Returns (decode_original L opcode request_id response_to wire_bytes payload)
  unfolding decode_original
  decode_original-Returns opcode request_id response_to wire_bytes payload = ground (
    arith,
    decode_op_msg-Returns L request_id response_to wire_bytes payload true,
    decode_op_query-Returns L request_id response_to wire_bytes payload true,
    decode_op_reply-Returns L request_id response_to wire_bytes payload true,
  )

  decode_compressed-Returns :
      (request_id response_to : ℤ) (wire_bytes : ℕ) (payload : Bytes) (limit : ℕ)
      → Returns (decode_compressed L request_id response_to wire_bytes payload limit)
  unfolding decode_compressed
  decode_compressed-Returns request_id response_to wire_bytes payload limit =
      Ensures-if (λ _. Unit {0}) (ltb (length payload) 9) _ _ (λ _. tt)
        λ long.
          let nine : 9 ≤ length payload = ground arith in
          then_Returns (read_i32 payload 0) _ (read_i32-Returns payload 0) λ opcode.
            then_Returns (read_i32 payload 4) _ (read_i32-Returns payload 4) λ size.
              Ensures-if (λ _. Unit {0}) (is_below size 0 || ltb (limit - 16) (as_usize size)) _ _
                (λ _. tt)
                λ _.
                  Ensures-index (λ _. Unit {0}) payload 8 _ (omega arith)
                    λ compressor.
                      Ensures-range (λ _. Unit {0}) payload 9 (length payload) _ (omega arith)
                        (omega arith)
                        λ compressed _.
                          then_Returns (decompress L compressor compressed (as_usize size)) _
                            (decompress-Returns compressor compressed (as_usize size))
                            λ output.
                              Ensures-if (λ _. Unit {0}) (not (length output == as_usize size)) _ _
                                (λ _. tt)
                                (λ _.
                                  decode_original-Returns opcode request_id response_to wire_bytes
                                    output)

  decode_payload-Returns :
      (opcode request_id response_to : ℤ) (wire_bytes : ℕ) (payload : Bytes) (limit : ℕ)
      → Returns (decode_payload L opcode request_id response_to wire_bytes payload limit)
  unfolding decode_payload
  decode_payload-Returns opcode request_id response_to wire_bytes payload limit = ground (
    arith,
    decode_op_msg-Returns L request_id response_to wire_bytes payload false,
    decode_op_query-Returns L request_id response_to wire_bytes payload false,
    decode_op_reply-Returns L request_id response_to wire_bytes payload false,
    decode_compressed-Returns request_id response_to wire_bytes payload limit,
  )

  -- `decode_frame` ends with `Ok` or `Err` on every frame and limit: no index or range that it takes
  -- is out of bounds, and no loop of it, nested documents included, runs on.
  pub decode_frame-Returns : (frame : Bytes) (limit : ℕ) → Returns (decode_frame L frame limit)
  unfolding decode_frame
  decode_frame-Returns frame limit =
      Ensures-if (λ _. Unit {0}) (ltb (length frame) 16) _ _ (λ _. tt)
        λ long.
          let sixteen : 16 ≤ length frame = ground arith in
          then_Returns (read_i32 frame 0) _ (read_i32-Returns frame 0) λ declared.
            Ensures-if (λ _. Unit {0})
              (is_below declared 16 || not (as_usize declared == length frame)) _ _ (λ _. tt)
              λ _.
                Ensures-if (λ _. Unit {0}) (ltb limit (length frame)) _ _ (λ _. tt)
                  λ _. then_Returns (read_i32 frame 4) _ (read_i32-Returns frame 4) λ request_id.
                    then_Returns (read_i32 frame 8) _ (read_i32-Returns frame 8) λ response_to.
                      then_Returns (read_i32 frame 12) _ (read_i32-Returns frame 12) λ opcode.
                        Ensures-range (λ _. Unit {0}) frame 16 (length frame) _ sixteen
                          (omega arith)
                          (λ payload _.
                            decode_payload-Returns opcode request_id response_to (length frame)
                              payload limit)

  decode_payload_prefix-Returns :
      (opcode request_id response_to : ℤ) (declared : ℕ) (payload : Bytes)
      → Returns (decode_payload_prefix L opcode request_id response_to declared payload)
  unfolding decode_payload_prefix
  decode_payload_prefix-Returns opcode request_id response_to declared payload = ground (
    arith,
    decode_op_msg_prefix-Returns L request_id response_to declared payload,
    decode_op_query_prefix-Returns L request_id response_to declared payload,
    decode_op_reply_prefix-Returns L request_id response_to declared payload,
  )

  decode_cut_frame-Returns :
      (prefix : Bytes) (declared : ℕ)
      → 16 ≤ length prefix
      → Returns (decode_cut_frame L prefix declared)
  unfolding decode_cut_frame
  decode_cut_frame-Returns prefix declared sixteen =
      then_Returns (read_i32 prefix 4) _ (read_i32-Returns prefix 4) λ request_id.
        then_Returns (read_i32 prefix 8) _ (read_i32-Returns prefix 8) λ response_to.
          then_Returns (read_i32 prefix 12) _ (read_i32-Returns prefix 12) λ opcode.
            Ensures-if (λ _. Unit {0}) (is_int opcode op_compressed) _ _ (λ _. tt)
              λ _.
                Ensures-range (λ _. Unit {0}) prefix 16 (length prefix) _ sixteen (omega arith)
                  (λ payload _.
                    decode_payload_prefix-Returns opcode request_id response_to declared payload)

  -- `decode_frame_prefix` ends with `Ok` or `Err` on every prefix and limit, without a panic.
  pub decode_frame_prefix-Returns :
      (prefix : Bytes) (limit : ℕ) → Returns (decode_frame_prefix L prefix limit)
  unfolding decode_frame_prefix
  decode_frame_prefix-Returns prefix limit =
      Ensures-if (λ _. Unit {0}) (ltb (length prefix) 16) _ _ (λ _. tt)
        λ long.
          let sixteen : 16 ≤ length prefix = ground arith in
          then_Returns (read_i32 prefix 0) _ (read_i32-Returns prefix 0) λ declared.
            Ensures-if (λ _. Unit {0}) (is_below declared 16) _ _ (λ _. tt)
              λ _.
                Ensures-if (λ _. Unit {0}) (ltb limit (as_usize declared)) _ _ (λ _. tt)
                  λ _.
                    Ensures-if (λ _. Unit {0}) (leb (as_usize declared) (length prefix)) _ _
                      (λ whole.
                        Ensures-range (λ _. Unit {0}) prefix 0 (as_usize declared) _ (omega arith)
                          (leb→le _ _ whole) (λ frame _. decode_frame-Returns frame limit))
                      (λ _. decode_cut_frame-Returns prefix (as_usize declared) sixteen)
