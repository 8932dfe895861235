-- ===== src/Protocol/Stream.antt =====
-- `StreamDecoder` of crates/mongo-protocol/src/lib.rs: the frames of a byte stream that arrives in
-- pieces. A method returns its result and the decoder that it leaves, beside an error too. Each
-- frame takes sixteen bytes at least, so the number of the buffered bytes is enough fuel.
pub mod Framing
pub mod Chunks
pub mod Retention
pub mod Bounds
use mongodb_dam.Common.{
  ℕ, zero, suc, ◌+◌, ◌-◌, ◌^◌, Bool, true, false, ◌||◌, ◌&&◌, Option, none, some, Bytes, List, [],
  ◌∷◌, ◌++◌, ltb, leb, min, if◌then◌else◌, length, take, drop, slice,
}
use mongodb_dam.Common.Int.{ℤ, signed, as_usize, is_below}
use mongodb_dam.Common.Outcome.{Outcome, ok, err, panic, spent}
use mongodb_dam.Protocol.Types.{
  DecoderConfig, Decode, DecodeError, invalid_frame_length, frame_too_large, buffer_too_large,
}
use mongodb_dam.Protocol.Libraries.{Libraries}
use mongodb_dam.Protocol.Read.{from_le}
use mongodb_dam.Protocol.Message.{Message}
use mongodb_dam.Protocol.Frame.{decode_frame, decode_frame_prefix}

pub record StreamDecoder : Type 0 where
  pub config : DecoderConfig
  pub buffer : Bytes

-- `StreamDecoder::new`
abbrev pub new : DecoderConfig → StreamDecoder
new config = record { config = config; buffer = [] }

abbrev pub buffered_bytes : StreamDecoder → ℕ
buffered_bytes d = length d.buffer

abbrev pub clear : StreamDecoder → StreamDecoder
clear d = record d { buffer = [] }

-- `i32::from_le_bytes` of four bytes, or of the first four
unfoldable pub header_length : Bytes → ℤ
unfolding from_le
header_length bytes = signed (2 ^ 31) (from_le (take 4 bytes))

-- What the head of the buffer says: it waits for more bytes, is refused, or holds a frame.
pub data Head : Type 0 where
  wait : Head
  refuse : DecodeError → Head
  frame : ℕ → Head
  -- a range that is not in the buffer, which panics
  out_of_bounds : Head

-- The tests of a length field, with `self.buffer[0..4]`.
unfoldable pub head_at : ℕ → Bytes → Option Bytes → Head
head_at max_message_bytes buffer none = out_of_bounds
head_at max_message_bytes buffer (some header) =
    let length_field = header_length header in
    if is_below length_field 16
    then refuse (invalid_frame_length length_field)
    else if ltb max_message_bytes (as_usize length_field)
    then refuse frame_too_large
    else if ltb (length buffer) (as_usize length_field)
    then wait
    else frame (as_usize length_field)

unfoldable pub head_of : ℕ → Bytes → Head
unfolding head_at slice
head_of max_message_bytes buffer =
    if ltb (length buffer) 4 then wait else head_at max_message_bytes buffer (slice buffer 0 4)

module _ (L : Libraries) where
  -- What `push` and its like return, and the decoder that they leave.
  abbrev pub Pushed {ℓ} : Type ℓ → Type ℓ
  Pushed A = Decode A × StreamDecoder

  abbrev pub Messages : Type 0
  Messages = List (Message L)

  -- `decoded.push(decode_frame(…)?)` on the decoder that the frame has been drained from.
  unfoldable pub push_frame :
      (StreamDecoder → Messages → Pushed Messages)
      → StreamDecoder
      → Messages
      → Decode (Message L)
      → Pushed Messages
  push_frame again d decoded (ok message) = again d (decoded ++ (message ∷ []))
  push_frame again d decoded (err e) = (err e, d)
  push_frame again d decoded panic = (panic, d)
  push_frame again d decoded spent = (spent, d)

  -- `self.buffer[..length]`, which panics where the buffer is shorter, and the frame drained.
  unfoldable pub push_slice :
      (StreamDecoder → Messages → Pushed Messages)
      → StreamDecoder
      → Messages
      → ℕ
      → Option Bytes
      → Pushed Messages
  unfolding push_frame
  push_slice again d decoded n none = (panic, d)
  push_slice again d decoded n (some bytes) =
      push_frame again (record d { buffer = drop n d.buffer }) decoded
        (decode_frame L bytes d.config.max_message_bytes)

  unfoldable pub push_turn :
      (StreamDecoder → Messages → Pushed Messages)
      → StreamDecoder
      → Messages
      → Head
      → Pushed Messages
  unfolding push_slice slice
  push_turn again d decoded wait = (ok decoded, d)
  push_turn again d decoded (refuse e) = (err e, clear d)
  push_turn again d decoded (frame n) = push_slice again d decoded n (slice d.buffer 0 n)
  push_turn again d decoded out_of_bounds = (panic, d)

  -- The loop of `push`.
  unfoldable pub push_loop : ℕ → StreamDecoder → Messages → Pushed Messages
  push_loop zero d decoded = (spent, d)
  push_loop (suc fuel) d decoded =
      push_turn (λ d' decoded'. push_loop fuel d' decoded') d decoded
        (head_of d.config.max_message_bytes d.buffer)

  -- `extend_from_slice`
  abbrev pub extend : StreamDecoder → Bytes → StreamDecoder
  extend d bytes = record d { buffer = d.buffer ++ bytes }

  -- The test that opens `push` and `push_truncated`. Two vectors have fewer than `2 ^ 64` bytes, so
  -- that `saturating_add` of their lengths is the sum.
  abbrev pub overflows : StreamDecoder → Bytes → Bool
  overflows d bytes = ltb d.config.max_buffer_bytes (length d.buffer + length bytes)

  unfoldable pub push : StreamDecoder → Bytes → Pushed Messages
  push d bytes =
      if overflows d bytes
      then (err buffer_too_large, clear d)
      else push_loop (suc (length (extend d bytes).buffer)) (extend d bytes) []

  pub push_truncated : StreamDecoder → Bytes → Pushed (Message L)
  push_truncated d bytes =
      if overflows d bytes
      then (err buffer_too_large, clear d)
      else (decode_frame_prefix L (d.buffer ++ bytes) d.config.max_message_bytes, clear d)

  checked_length : StreamDecoder → ℤ → Decode (Option ℕ)
  checked_length d length_field =
      if is_below length_field 16
      then err (invalid_frame_length length_field)
      else if ltb d.config.max_message_bytes (as_usize length_field)
      then err frame_too_large
      else ok (some (as_usize length_field))

  -- The four bytes of the header, from the two slices that are copied into it.
  known_length : StreamDecoder → Option Bytes → Option Bytes → Decode (Option ℕ)
  known_length d (some kept) (some more) = checked_length d (header_length (kept ++ more))
  known_length d _ _ = panic

  -- The length of the frame at the head of the buffer and the new bytes, once four are there. The
  -- first slice is never longer than the buffer.
  pub next_frame_length : StreamDecoder → Bytes → Decode (Option ℕ)
  unfolding slice
  next_frame_length d bytes =
      let buffered = min (length d.buffer) 4 in
      let needed = 4 - buffered in
      if ltb (length bytes) needed
      then ok none
      else known_length d (slice d.buffer 0 buffered) (slice bytes 0 needed)

  -- `Ok(vec![message])`
  one_message : Pushed (Message L) → Pushed Messages
  one_message (ok message, d) = (ok (message ∷ []), d)
  one_message (err e, d) = (err e, d)
  one_message (panic, d) = (panic, d)
  one_message (spent, d) = (spent, d)

  -- `push_truncated` of a slice.
  push_part : StreamDecoder → Option Bytes → Pushed Messages
  push_part d none = (panic, d)
  push_part d (some piece) = one_message (push_truncated d piece)

  -- Behind `next_frame_length`.
  push_known : StreamDecoder → Bytes → ℕ → Decode (Option ℕ) → Pushed Messages
  unfolding slice
  push_known d bytes prefix_limit (ok none) = push d bytes
  push_known d bytes prefix_limit (ok (some frame_length)) =
      if leb frame_length prefix_limit || ltb (length d.buffer + length bytes) prefix_limit
      then push d bytes
      else push_part d (slice bytes 0 (min (prefix_limit - length d.buffer) (length bytes)))
  push_known d bytes prefix_limit (err e) = (err e, d)
  push_known d bytes prefix_limit panic = (panic, d)
  push_known d bytes prefix_limit spent = (spent, d)

  pub push_bounded_prefix : StreamDecoder → Bytes → ℕ → Pushed Messages
  push_bounded_prefix d bytes prefix_limit =
      if ltb prefix_limit 16 || ltb d.config.max_buffer_bytes prefix_limit
      then (err buffer_too_large, clear d)
      else push_known d bytes prefix_limit (next_frame_length d bytes)
