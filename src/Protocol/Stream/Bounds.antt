-- ===== src/Protocol/Stream/Bounds.antt =====
-- The methods of `StreamDecoder`, crates/mongo-protocol/src/lib.rs, return on every input.
use mongodb_dam.Common.{
  ℕ, zero, suc, slice, min, ◌-◌, ◌≤◌, ◌+◌, ◌<◌, ◌≡◌, refl, arith, Bytes, [], ◌∷◌, ◌++◌, length,
  take, drop, length-drop, Bool-cases, inl, inr, Option, none, some, ltb, leb, ◌||◌,
}
use mongodb_dam.Common.Outcome.{ok, err, panic, spent}
use mongodb_dam.Protocol.Types.{Decode}
use mongodb_dam.Protocol.Libraries.{Libraries}
use mongodb_dam.Protocol.Bson.Bounds.{Returns}
use mongodb_dam.Protocol.Message.{Message}
use mongodb_dam.Protocol.Frame.Bounds.{decode_frame-Returns, decode_frame_prefix-Returns}
use mongodb_dam.Protocol.Stream.{
  StreamDecoder, Head, wait, refuse, frame, out_of_bounds, head_of, push_slice, known_length,
  push_part, Messages, push_frame, push_turn, push_loop, extend, overflows, push, push_truncated,
  checked_length, next_frame_length, one_message, push_known, push_bounded_prefix,
}
use mongodb_dam.Protocol.Stream.Framing.{tested_head, head_of-tested, head_of-frame, slice-prefix}

-- The test of the length stands before the slice.
pub head_of_in_bounds : (limit : ℕ) (buffer : Bytes) → head_of limit buffer ≡ out_of_bounds → ⊥
unfolding tested_head
head_of_in_bounds limit buffer h = ground (arith, head_of-tested limit buffer)

module _ (L : Libraries) where
  module _ (fuel : ℕ)
      (again : (d : StreamDecoder) (seen : Messages L)
        → length d.buffer < fuel
        → Returns (push_loop L fuel d seen).0) where
    push_frame-Returns :
        (d : StreamDecoder) (seen : Messages L) (o : Decode (Message L))
        → length d.buffer < fuel
        → Returns o
        → Returns (push_frame L (λ d' decoded'. push_loop L fuel d' decoded') d seen o).0
    unfolding push_frame
    push_frame-Returns d seen (ok m) h r = again d (seen ++ (m ∷ [])) h
    push_frame-Returns d seen (err e) h r = tt
    push_frame-Returns d seen panic h r = absurd r
    push_frame-Returns d seen spent h r = absurd r

    push_turn-Returns :
        (d : StreamDecoder) (seen : Messages L) (head : Head)
        → head_of d.config.max_message_bytes d.buffer ≡ head
        → length d.buffer < suc fuel
        → Returns (push_turn L (λ d' decoded'. push_loop L fuel d' decoded') d seen head).0
    unfolding push_turn push_slice
    push_turn-Returns d seen wait w h = tt
    push_turn-Returns d seen (refuse e) w h = tt
    push_turn-Returns d seen (frame n) w h =
        let (low, _, high) = head_of-frame d.config.max_message_bytes d.buffer n w in
        rw (slice-prefix n d.buffer high) (
          push_frame-Returns (record d { buffer = drop n d.buffer }) seen _
            (omega (arith, length-drop n d.buffer))
            (decode_frame-Returns L (take n d.buffer) d.config.max_message_bytes))
    push_turn-Returns d seen out_of_bounds w h =
        absurd (head_of_in_bounds d.config.max_message_bytes d.buffer w)

  push_loop-Returns :
      (fuel : ℕ) (d : StreamDecoder) (seen : Messages L)
      → length d.buffer < fuel
      → Returns (push_loop L fuel d seen).0
  unfolding push_loop
  push_loop-Returns zero d seen h = absurd (omega arith)
  push_loop-Returns (suc fuel) d seen h =
      push_turn-Returns fuel (push_loop-Returns fuel) d seen
        (head_of d.config.max_message_bytes d.buffer) refl h

  -- `push` ends with `Ok` or `Err` on every decoder and piece: no frame makes it panic, and its loop
  -- ends.
  pub push-Returns : (d : StreamDecoder) (bytes : Bytes) → Returns (push L d bytes).0
  unfolding push
  push-Returns d bytes = elim (Bool-cases (overflows L d bytes)) [
    | inl full ↦ rw full tt
    | inr fits ↦ rw fits (
        push_loop-Returns (suc (length (extend L d bytes).buffer)) (extend L d bytes) []
          (omega arith))
  ]

  one_message-Returns :
      (o : Decode (Message L)) (d : StreamDecoder) → Returns o → Returns (one_message L (o, d)).0
  unfolding one_message
  one_message-Returns (ok m) d h = tt
  one_message-Returns (err e) d h = tt
  one_message-Returns panic d h = absurd h
  one_message-Returns spent d h = absurd h

  pub push_truncated-Returns :
      (d : StreamDecoder) (bytes : Bytes) → Returns (push_truncated L d bytes).0
  unfolding push_truncated
  push_truncated-Returns d bytes = elim (Bool-cases (overflows L d bytes)) [
    | inl full ↦ rw full tt
    | inr fits ↦
        rw fits (decode_frame_prefix-Returns L (d.buffer ++ bytes) d.config.max_message_bytes)
  ]

  next_frame_length-Returns :
      (d : StreamDecoder) (bytes : Bytes) → Returns (next_frame_length L d bytes)
  unfolding next_frame_length known_length checked_length
  next_frame_length-Returns d bytes =
      let buffered = min (length d.buffer) 4 in
      ground
        (arith, slice-prefix buffered d.buffer (omega arith), slice-prefix (4 - buffered) bytes)

  push_part-Returns :
      (d : StreamDecoder) (bytes : Bytes) (n : ℕ)
      → n ≤ length bytes
      → Returns (push_part L d (slice bytes 0 n)).0
  unfolding push_part
  push_part-Returns d bytes n h =
      rw (slice-prefix n bytes h)
        (one_message-Returns _ _ (push_truncated-Returns d (take n bytes)))

  push_known-Returns :
      (d : StreamDecoder) (bytes : Bytes) (limit : ℕ) (o : Decode (Option ℕ))
      → Returns o
      → Returns (push_known L d bytes limit o).0
  unfolding push_known
  push_known-Returns d bytes limit (ok none) h = push-Returns d bytes
  push_known-Returns d bytes limit (ok (some n)) h =
      elim (Bool-cases (leb n limit || ltb (length d.buffer + length bytes) limit)) [
        | inl small ↦ rw small (push-Returns d bytes)
        | inr large ↦
            rw large (
              push_part-Returns d bytes (min (limit - length d.buffer) (length bytes))
                (omega arith))
      ]
  push_known-Returns d bytes limit (err e) h = tt
  push_known-Returns d bytes limit panic h = absurd h
  push_known-Returns d bytes limit spent h = absurd h

  -- `push_bounded_prefix` ends with `Ok` or `Err` on every decoder, piece and limit: it does not
  -- panic, and each of its loops ends.
  pub push_bounded_prefix-Returns :
      (d : StreamDecoder) (bytes : Bytes) (limit : ℕ)
      → Returns (push_bounded_prefix L d bytes limit).0
  unfolding push_bounded_prefix
  push_bounded_prefix-Returns d bytes limit =
      elim (Bool-cases (ltb limit 16 || ltb d.config.max_buffer_bytes limit)) [
        | inl refused ↦ rw refused tt
        | inr fits ↦
            rw fits (push_known-Returns d bytes limit _ (next_frame_length-Returns d bytes))
      ]
