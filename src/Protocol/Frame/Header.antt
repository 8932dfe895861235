-- ===== src/Protocol/Frame/Header.antt =====
-- What `decode_frame` of crates/mongo-protocol/src/lib.rs takes from the header of a frame.
use mongodb_dam.Common.{
  ℕ, ◌+◌, ◌-◌, ◌^◌, ◌≡◌, ◌≤◌, refl, sym, ap, ◌∙◌, Option, some, slice-is_some, length-slice, subst,
  arith, ◌==◌, ◌||◌, not, true, false, Bytes, length, ltb, take, drop, slice, none,
}
use mongodb_dam.Common.Int.{ℤ, signed, is_int, is_below, as_usize}
use mongodb_dam.Common.Outcome.{
  ok, ◌>>=◌, Yields-mono, ok_or, index, range, Ensures, Ensures-Yields, Yields, Yields-bind,
  Yields-if,
}
use mongodb_dam.Protocol.Types.{truncated, op_msg, op_query, op_reply, op_compressed}
use mongodb_dam.Protocol.Libraries.{Libraries}
use mongodb_dam.Protocol.Read.{from_le, read_i32}
use mongodb_dam.Protocol.Message.{Message}
use mongodb_dam.Protocol.Message.Header.{
  HasHeader, decode_op_msg-HasHeader, decode_op_query-HasHeader, decode_op_reply-HasHeader,
}
use mongodb_dam.Protocol.Frame.{
  decompress, decode_original, decode_compressed, decode_payload, decode_frame,
}
use mongodb_dam.Protocol.Frame.Bounds.{decode_frame-Returns}

-- The 32-bit field at an offset of the header.
abbrev pub header_field : Bytes → ℕ → ℤ
header_field frame offset = signed (2 ^ 31) (from_le (take 4 (drop offset frame)))

read_i32_slice :
    (frame : Bytes) (offset : ℕ) (value : ℤ) (found : Option Bytes)
    → slice frame offset (offset + 4) ≡ found
    → (ok_or found truncated >>= λ four. ok (signed (2 ^ 31) (from_le four))) ≡ ok value
    → value ≡ header_field frame offset
read_i32_slice frame offset value none e h = let bad : ⊥ = ground arith in absurd bad
read_i32_slice frame offset value (some four) e h =
    let (low, high, _) = length-slice frame offset (offset + 4) e in
    let width : offset + 4 - offset ≡ 4 = omega arith in
    let same : some four ≡ some (take 4 (drop offset frame)) =
      sym e
      ∙ slice-is_some frame offset (offset + 4) low high
      ∙ ap (λ n. some (take n (drop offset frame))) width in
    let four_same : four ≡ take 4 (drop offset frame) = cc in
    let read : signed (2 ^ 31) (from_le four) ≡ value = cc in
    sym read ∙ ap (λ bs. signed (2 ^ 31) (from_le bs)) four_same

read_i32-header_field :
    (frame : Bytes) (offset : ℕ) (value : ℤ)
    → read_i32 frame offset ≡ ok value
    → value ≡ header_field frame offset
unfolding read_i32
read_i32-header_field frame offset value h =
    read_i32_slice frame offset value (slice frame offset (offset + 4)) refl h

not_below : (a b : ℕ) → ltb a b ≡ false → b ≤ a
not_below a b h = ground arith

declared_length :
    (declared : ℤ) (n : ℕ)
    → (is_below declared 16 || not (as_usize declared == n)) ≡ false
    → as_usize declared ≡ n
declared_length declared n h = ground arith

module _ (L : Libraries) where
  decode_original-HasHeader :
      (opcode request_id response_to : ℤ) (wire_bytes : ℕ) (payload : Bytes)
      → Yields
          (HasHeader L request_id response_to wire_bytes)
          (decode_original L opcode request_id response_to wire_bytes payload)
  unfolding decode_original
  decode_original-HasHeader opcode request_id response_to wire_bytes payload =
      let P = HasHeader L request_id response_to wire_bytes in
      Yields-if P (is_int opcode op_msg) _ _
        (λ _. decode_op_msg-HasHeader L request_id response_to wire_bytes payload true)
        λ _.
          Yields-if P (is_int opcode op_query) _ _
            (λ _. decode_op_query-HasHeader L request_id response_to wire_bytes payload true)
            λ _.
              Yields-if P (is_int opcode op_reply) _ _
                (λ _. decode_op_reply-HasHeader L request_id response_to wire_bytes payload true)
                (λ _. tt)

  decode_compressed-HasHeader :
      (request_id response_to : ℤ) (wire_bytes : ℕ) (payload : Bytes) (limit : ℕ)
      → Yields
          (HasHeader L request_id response_to wire_bytes)
          (decode_compressed L request_id response_to wire_bytes payload limit)
  unfolding decode_compressed
  decode_compressed-HasHeader request_id response_to wire_bytes payload limit =
      let P = HasHeader L request_id response_to wire_bytes in
      Yields-if P (ltb (length payload) 9) _ _ (λ _. tt)
        λ _. Yields-bind P (read_i32 payload 0) _ λ opcode _.
          Yields-bind P (read_i32 payload 4) _ λ size _.
            Yields-if P (is_below size 0 || ltb (limit - 16) (as_usize size)) _ _ (λ _. tt)
              λ _. Yields-bind P (index payload 8) _ λ compressor _.
                Yields-bind P (range payload 9 (length payload)) _ λ compressed _.
                  Yields-bind P (decompress L compressor compressed (as_usize size)) _ λ output _.
                    Yields-if P (not (length output == as_usize size)) _ _ (λ _. tt)
                      (λ _.
                        decode_original-HasHeader opcode request_id response_to wire_bytes output)

  decode_payload-HasHeader :
      (opcode request_id response_to : ℤ) (wire_bytes : ℕ) (payload : Bytes) (limit : ℕ)
      → Yields
          (HasHeader L request_id response_to wire_bytes)
          (decode_payload L opcode request_id response_to wire_bytes payload limit)
  unfolding decode_payload
  decode_payload-HasHeader opcode request_id response_to wire_bytes payload limit =
      let P = HasHeader L request_id response_to wire_bytes in
      Yields-if P (is_int opcode op_msg) _ _
        (λ _. decode_op_msg-HasHeader L request_id response_to wire_bytes payload false)
        λ _.
          Yields-if P (is_int opcode op_query) _ _
            (λ _. decode_op_query-HasHeader L request_id response_to wire_bytes payload false)
            λ _.
              Yields-if P (is_int opcode op_reply) _ _
                (λ _. decode_op_reply-HasHeader L request_id response_to wire_bytes payload false)
                λ _.
                  Yields-if P (is_int opcode op_compressed) _ _
                    (λ _.
                      decode_compressed-HasHeader request_id response_to wire_bytes payload limit)
                    (λ _. tt)

  -- The frame that a message comes from: of the length that its header says, within the limit, and
  -- with the identifiers and the size of the message.
  pub record IsDecodedFrom (frame : Bytes) (limit : ℕ) (message : Message L) : Type 0 where
    pub long : 16 ≤ length frame
    pub short : length frame ≤ limit
    pub declared : as_usize (header_field frame 0) ≡ length frame
    pub header : HasHeader L (header_field frame 4) (header_field frame 8) (length frame) message

  decode_frame-IsDecodedFrom_ok :
      (frame : Bytes) (limit : ℕ) → Yields (IsDecodedFrom frame limit) (decode_frame L frame limit)
  unfolding decode_frame
  decode_frame-IsDecodedFrom_ok frame limit =
      let P = IsDecodedFrom frame limit in
      Yields-if P (ltb (length frame) 16) _ _ (λ _. tt)
        λ long. Yields-bind P (read_i32 frame 0) _ λ declared e0.
          Yields-if P (is_below declared 16 || not (as_usize declared == length frame)) _ _
            (λ _. tt)
            λ matches.
              Yields-if P (ltb limit (length frame)) _ _ (λ _. tt)
                λ short. Yields-bind P (read_i32 frame 4) _ λ request_id e4.
                  Yields-bind P (read_i32 frame 8) _ λ response_to e8.
                    Yields-bind P (read_i32 frame 12) _ λ opcode _.
                      Yields-bind P (range frame 16 (length frame)) _ λ payload _.
                        let header =
                          decode_payload-HasHeader opcode request_id response_to (length frame)
                            payload limit in
                        Yields-mono (HasHeader L request_id response_to (length frame)) P _
                          (λ message h. record {
                            long = not_below (length frame) 16 long;
                            short = not_below limit (length frame) short;
                            declared =
                                subst (λ v. as_usize v ≡ length frame)
                                  (read_i32-header_field frame 0 declared e0)
                                  (declared_length declared (length frame) matches);
                            header =
                                subst
                                  (λ v. HasHeader L v (header_field frame 8) (length frame) message)
                                  (read_i32-header_field frame 4 request_id e4)
                                  (subst (λ v. HasHeader L request_id v (length frame) message)
                                    (read_i32-header_field frame 8 response_to e8) h);
                          })
                          header

  -- `decode_frame` ends with `Ok` or `Err`, and a message that it returns comes from a frame of at
  -- least sixteen bytes, within the limit, whose length field is its length. The message has the
  -- identifiers of the header and the size of the frame, and a command only where it answers none.
  pub decode_frame-IsDecodedFrom :
      (frame : Bytes) (limit : ℕ) → Ensures (IsDecodedFrom frame limit) (decode_frame L frame limit)
  decode_frame-IsDecodedFrom frame limit =
      Ensures-Yields (IsDecodedFrom frame limit) (λ _. Unit {0}) (decode_frame L frame limit)
        (decode_frame-Returns L frame limit) (decode_frame-IsDecodedFrom_ok frame limit)
