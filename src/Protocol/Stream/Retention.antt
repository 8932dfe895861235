-- ===== src/Protocol/Stream/Retention.antt =====
-- What the decoder of crates/mongo-protocol/src/lib.rs keeps of a stream between two calls.
use mongodb_dam.Common.{
  ℕ, zero, suc, slice, ◌+◌, ◌-◌, ◌≤◌, ◌<◌, ◌≡◌, refl, arith, true, Bytes, List, [], ◌∷◌, ◌++◌,
  length, ltb, leb, take, drop, take-take, take-append_split, length-append, length-drop,
  Bool-cases, inl, inr, ◌||◌, Option, none, some, min,
}
use mongodb_dam.Common.Int.{as_usize, as_usize-le}
use mongodb_dam.Common.Outcome.{ok, err, panic, spent}
use mongodb_dam.Protocol.Types.{Decode, buffer_too_large}
use mongodb_dam.Protocol.Libraries.{Libraries}
use mongodb_dam.Protocol.Message.{Message}
use mongodb_dam.Protocol.Frame.{decode_frame, decode_frame_prefix}
use mongodb_dam.Protocol.Stream.{
  StreamDecoder, Head, wait, refuse, frame, out_of_bounds, push_slice, known_length, push_part,
  header_length, head_of, Messages, Pushed, push_frame, push_turn, push_loop, extend, overflows,
  push, push_truncated, checked_length, next_frame_length, one_message, push_known,
  push_bounded_prefix,
}
use mongodb_dam.Protocol.Stream.Bounds.{head_of_in_bounds}
use mongodb_dam.Protocol.Stream.Chunks.{header_length-append}
use mongodb_dam.Protocol.Stream.Framing.{
  tested_head, head_of-tested, head_of-frame, slice-prefix, Framed, rest, next, push_iff,
}

module _ (L : Libraries) where
  -- The number of bytes that a call leaves in the buffer.
  abbrev kept {ℓ} : {A : Type ℓ} → Pushed L A → ℕ
  kept r = length r.1.buffer

  module _ (fuel : ℕ)
      (shrinks : (d : StreamDecoder) (seen : Messages L)
        → kept (push_loop L fuel d seen) ≤ length d.buffer) where
    push_frame-kept :
        (d : StreamDecoder) (seen : Messages L) (o : Decode (Message L))
        → kept (push_frame L (λ d' decoded'. push_loop L fuel d' decoded') d seen o)
          ≤ length d.buffer
    unfolding push_frame
    push_frame-kept d seen (ok m) = shrinks d (seen ++ (m ∷ []))
    push_frame-kept d seen (err e) = omega arith
    push_frame-kept d seen panic = omega arith
    push_frame-kept d seen spent = omega arith

    -- A frame at the head is gone from the buffer, whatever comes of it.
    push_turn-kept :
        (d : StreamDecoder) (seen : Messages L) (n : ℕ)
        → n ≤ length d.buffer
        → kept (push_turn L (λ d' decoded'. push_loop L fuel d' decoded') d seen (frame n))
          ≤ length d.buffer - n
    unfolding push_turn push_slice
    push_turn-kept d seen n h = rw (slice-prefix n d.buffer h) (
        omega (
          arith,
          length-drop n d.buffer,
          push_frame-kept (record d { buffer = drop n d.buffer }) seen
              (decode_frame L (take n d.buffer) d.config.max_message_bytes),
        ))

    push_slice-shrinks :
        (d : StreamDecoder) (seen : Messages L) (n : ℕ) (found : Option Bytes)
        → kept (push_slice L (λ d' decoded'. push_loop L fuel d' decoded') d seen n found)
          ≤ length d.buffer
    unfolding push_slice
    push_slice-shrinks d seen n none = omega arith
    push_slice-shrinks d seen n (some bytes) = omega (
      arith,
      length-drop n d.buffer,
      push_frame-kept (record d { buffer = drop n d.buffer }) seen
          (decode_frame L bytes d.config.max_message_bytes),
    )

    push_turn-shrinks :
        (d : StreamDecoder) (seen : Messages L) (head : Head)
        → kept (push_turn L (λ d' decoded'. push_loop L fuel d' decoded') d seen head)
          ≤ length d.buffer
    unfolding push_turn
    push_turn-shrinks d seen wait = omega arith
    push_turn-shrinks d seen (refuse e) = omega arith
    push_turn-shrinks d seen (frame n) = push_slice-shrinks d seen n (slice d.buffer 0 n)
    push_turn-shrinks d seen out_of_bounds = omega arith

  push_loop-kept :
      (fuel : ℕ) (d : StreamDecoder) (seen : Messages L)
      → kept (push_loop L fuel d seen) ≤ length d.buffer
  unfolding push_loop
  push_loop-kept zero d seen = omega arith
  push_loop-kept (suc fuel) d seen =
      push_turn-shrinks fuel (push_loop-kept fuel) d seen
        (head_of d.config.max_message_bytes d.buffer)

  -- After `push`, failed or not, the buffer is within the configured limit.
  pub kept-push :
      (d : StreamDecoder) (bytes : Bytes) → kept (push L d bytes) ≤ d.config.max_buffer_bytes
  unfolding push
  kept-push d bytes = ground (
    arith,
    length-append d.buffer bytes,
    push_loop-kept (suc (length (extend L d bytes).buffer)) (extend L d bytes) [],
  )

  -- What is buffered lies below the prefix limit and does not begin with a whole frame.
  pub record Retains (limit : ℕ) (d : StreamDecoder) : Type 0 where
    pub below : length d.buffer < limit
    pub waits : head_of d.config.max_message_bytes d.buffer ≡ wait

  -- A whole frame that the new bytes complete is longer than what was buffered.
  head_of-wait :
      (limit : ℕ) (buffer more : Bytes) (n : ℕ)
      → head_of limit buffer ≡ wait
      → head_of limit (buffer ++ more) ≡ frame n
      → length buffer < n
  unfolding tested_head
  head_of-wait limit buffer more n w h = ground (
    arith,
    head_of-tested limit buffer,
    head_of-tested limit (buffer ++ more),
    header_length-append buffer more,
    as_usize-le 16 (header_length (buffer ++ more)),
    length-append buffer more,
  )

  push_known_head :
      (limit : ℕ) (d : StreamDecoder) (bytes : Bytes) (head : Head)
      → Retains limit d
      → length bytes ≤ limit
      → head_of d.config.max_message_bytes (d.buffer ++ bytes) ≡ head
      → (head ≡ wait → length d.buffer + length bytes < limit)
      → kept (
          push_turn L
            (λ d' decoded'. push_loop L (length (extend L d bytes).buffer) d' decoded')
            (extend L d bytes)
            []
            head)
        < limit
  push_known_head limit d bytes wait r h w small =
      unfold push_turn in omega (arith, small refl, length-append d.buffer bytes)
  push_known_head limit d bytes (refuse e) r h w small = unfold push_turn in omega (arith, r.below)
  push_known_head limit d bytes out_of_bounds r h w small =
      absurd (head_of_in_bounds d.config.max_message_bytes (d.buffer ++ bytes) w)
  push_known_head limit d bytes (frame n) r h w small = omega (
    arith,
    head_of-wait d.config.max_message_bytes d.buffer bytes n r.waits w,
    length-append d.buffer bytes,
    r.below,
    push_turn-kept (length (extend L d bytes).buffer)
        (push_loop-kept (length (extend L d bytes).buffer)) (extend L d bytes) [] n
        (head_of-frame d.config.max_message_bytes (d.buffer ++ bytes) n w).2,
  )

  -- `push` of no more bytes than the limit, behind a buffer that is below it.
  kept-push_below :
      (limit : ℕ) (d : StreamDecoder) (bytes : Bytes)
      → Retains limit d
      → length bytes ≤ limit
      → (head_of d.config.max_message_bytes (d.buffer ++ bytes) ≡ wait
          → length d.buffer + length bytes < limit)
      → kept (push L d bytes) < limit
  unfolding push push_loop
  kept-push_below limit d bytes r h small = ground (
    arith,
    r.below,
    push_known_head limit d bytes (head_of d.config.max_message_bytes (d.buffer ++ bytes)) r h refl
        small,
  )

  -- The header that `next_frame_length` gathers is that of the buffer with the new bytes behind it.
  gathered_header :
      (buffer bytes : Bytes)
      → header_length
          (take (min (length buffer) 4) buffer ++ take (4 - min (length buffer) 4) bytes)
        ≡ header_length (buffer ++ bytes)
  unfolding header_length
  gathered_header buffer bytes = rw (take-append_split 4 buffer bytes, take-take)

  -- Behind a frame length that is at most the limit, a stream that waits has fewer bytes than that.
  waiting_below :
      (limit most : ℕ) (buffer bytes : Bytes)
      → as_usize (header_length (buffer ++ bytes)) ≤ most
      → 4 ≤ most
      → head_of limit (buffer ++ bytes) ≡ wait
      → length buffer + length bytes < most
  unfolding tested_head
  waiting_below limit most buffer bytes h four w =
      ground (arith, head_of-tested limit (buffer ++ bytes), length-append buffer bytes)

  -- The bytes that a call leaves, and that a successful one leaves no whole frame at their head.
  pub record Kept (limit : ℕ) (r : Pushed L (Messages L)) : Type 0 where
    pub below : kept r < limit
    pub retains : (messages : Messages L) → r.0 ≡ ok messages → Retains limit r.1

  Framed-waits :
      {limit : ℕ} {buffer tail : Bytes} {frames : List Bytes}
      → Framed limit buffer frames tail
      → head_of limit tail ≡ wait
  Framed-waits (rest h) = h
  Framed-waits (next n h f) = Framed-waits f

  push-Kept :
      (limit : ℕ) (d : StreamDecoder) (bytes : Bytes)
      → Retains limit d
      → length bytes ≤ limit
      → (head_of d.config.max_message_bytes (d.buffer ++ bytes) ≡ wait
          → length d.buffer + length bytes < limit)
      → Kept limit (push L d bytes)
  push-Kept limit d bytes r h small = record {
    below = kept-push_below limit d bytes r h small;
    retains = λ messages e.
        let d' = (push L d bytes).1 in
        let (_, c) = (push_iff L d bytes messages d').0 (λ i. (e i, d')) in
        record {
          below = kept-push_below limit d bytes r h small;
          waits = rw c.same_config (Framed-waits c.framed);
        };
  }

  cleared-Kept :
      (limit : ℕ) (d : StreamDecoder) (o : Decode (Message L))
      → 0 < limit
      → Kept limit (one_message L (o, record d { buffer = [] }))
  unfolding one_message head_of
  cleared-Kept limit d (ok m) h = record {
    below = h;
    retains = λ _ _. record { below = h; waits = refl };
  }
  cleared-Kept limit d (err e) h = record {
    below = h;
    retains = λ _ _. record { below = h; waits = refl };
  }
  cleared-Kept limit d panic h = record {
    below = h;
    retains = λ _ _. record { below = h; waits = refl };
  }
  cleared-Kept limit d spent h = record {
    below = h;
    retains = λ _ _. record { below = h; waits = refl };
  }

  push_truncated-Kept :
      (limit : ℕ) (d : StreamDecoder) (bytes : Bytes)
      → 0 < limit
      → Kept limit (one_message L (push_truncated L d bytes))
  unfolding push_truncated
  push_truncated-Kept limit d bytes h = elim (Bool-cases (overflows L d bytes)) [
    | inl full ↦ rw full (cleared-Kept limit d (err buffer_too_large) h)
    | inr fits ↦ rw fits (
        cleared-Kept limit d (decode_frame_prefix L (d.buffer ++ bytes) d.config.max_message_bytes)
          h)
  ]

  push_part-Kept :
      (limit : ℕ) (d : StreamDecoder) (bytes : Bytes) (n : ℕ)
      → 0 < limit
      → n ≤ length bytes
      → Kept limit (push_part L d (slice bytes 0 n))
  unfolding push_part
  push_part-Kept limit d bytes n h within =
      rw (slice-prefix n bytes within) (push_truncated-Kept limit d (take n bytes) h)

  -- What `next_frame_length` says of the bytes.
  abbrev Known : StreamDecoder → Bytes → Decode (Option ℕ) → Type 0
  Known d bytes (ok none) = length d.buffer + length bytes < 4
  Known d bytes (ok (some n)) = n ≡ as_usize (header_length (d.buffer ++ bytes))
  Known d bytes _ = Unit

  next_frame_length-Known :
      (d : StreamDecoder) (bytes : Bytes) → Known d bytes (next_frame_length L d bytes)
  unfolding next_frame_length known_length checked_length
  next_frame_length-Known d bytes =
      let buffered = min (length d.buffer) 4 in
      rw (slice-prefix buffered d.buffer (omega arith))
        (elim (Bool-cases (ltb (length bytes) (4 - buffered))) [
          | inl short ↦ rw short (ground arith)
          | inr long ↦
              rw (long, slice-prefix (4 - buffered) bytes (ground arith), gathered_header)
                (ground arith)
        ])

  small_head :
      (limit : ℕ) (d : StreamDecoder) (bytes : Bytes) (n : ℕ)
      → 16 ≤ limit
      → n ≡ as_usize (header_length (d.buffer ++ bytes))
      → (leb n limit || ltb (length d.buffer + length bytes) limit) ≡ true
      → head_of d.config.max_message_bytes (d.buffer ++ bytes) ≡ wait
      → length d.buffer + length bytes < limit
  small_head limit d bytes n l k small w =
      ground (arith, waiting_below d.config.max_message_bytes limit d.buffer bytes)

  push_known-Kept :
      (limit : ℕ) (d : StreamDecoder) (bytes : Bytes) (o : Decode (Option ℕ))
      → 16 ≤ limit
      → Retains limit d
      → length bytes ≤ limit
      → Known d bytes o
      → Kept limit (push_known L d bytes limit o)
  unfolding push_known
  push_known-Kept limit d bytes (ok none) l r h k = push-Kept limit d bytes r h (λ _. omega arith)
  push_known-Kept limit d bytes (ok (some n)) l r h k =
      elim (Bool-cases (leb n limit || ltb (length d.buffer + length bytes) limit)) [
        | inl small ↦ rw small (push-Kept limit d bytes r h (small_head limit d bytes n l k small))
        | inr large ↦ rw large (
            push_part-Kept limit d bytes (min (limit - length d.buffer) (length bytes))
              (omega arith) (omega arith))
      ]
  push_known-Kept limit d bytes (err e) l r h k = record { below = r.below; retains = λ _ _. r }
  push_known-Kept limit d bytes panic l r h k = record { below = r.below; retains = λ _ _. r }
  push_known-Kept limit d bytes spent l r h k = record { below = r.below; retains = λ _ _. r }

  -- Take a prefix limit of sixteen bytes at least, a decoder whose buffer is below it and does not
  -- begin with a whole frame, and a piece of no more bytes than the limit. Whatever
  -- `push_bounded_prefix` returns, the buffer that it leaves is below the limit again, and after a
  -- successful call it does not begin with a whole frame.
  pub push_bounded_prefix-Kept :
      (limit : ℕ) (d : StreamDecoder) (bytes : Bytes)
      → 16 ≤ limit
      → Retains limit d
      → length bytes ≤ limit
      → Kept limit (push_bounded_prefix L d bytes limit)
  unfolding push_bounded_prefix one_message
  push_bounded_prefix-Kept limit d bytes l r h =
      elim (Bool-cases (ltb limit 16 || ltb d.config.max_buffer_bytes limit)) [
        | inl refused ↦ rw refused (cleared-Kept limit d (err buffer_too_large) (omega arith))
        | inr fits ↦ rw fits (
            push_known-Kept limit d bytes (next_frame_length L d bytes) l r h
              (next_frame_length-Known d bytes))
      ]
