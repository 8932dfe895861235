-- ===== src/Protocol/Stream/Framing.antt =====
-- What `push` of crates/mongo-protocol/src/lib.rs does to a stream: it cuts the longest run of whole
-- frames off the buffered bytes and decodes each.
use mongodb_dam.Common.{
  slice, some, ltb, if◌then◌else◌, take-take, ℕ, zero, suc, ◌≤◌, ◌<◌, ◌≡◌, refl, ap, sym, subst,
  ◌∙◌, arith, false, Bytes, List, [], ◌∷◌, ◌++◌, length, take, drop, length-drop, take-append-drop,
  Bool-cases, inl, inr, ◌↔◌,
}
use mathlib.Core.List.{append_assoc, append-nil}
use mongodb_dam.Common.Int.{as_usize, as_usize-le, is_below}
use mongodb_dam.Common.Outcome.{ok, err, panic, spent}
use mongodb_dam.Protocol.Types.{Decode, invalid_frame_length, frame_too_large}
use mongodb_dam.Protocol.Libraries.{Libraries}
use mongodb_dam.Protocol.Message.{Message}
use mongodb_dam.Protocol.Frame.{decode_frame}
use mongodb_dam.Protocol.Stream.{
  StreamDecoder, Head, wait, refuse, frame, out_of_bounds, header_length, head_at, head_of,
  push_slice, Messages, push_frame, push_turn, push_loop, extend, overflows, push,
}

-- The bytes are these frames, one behind the other, and a rest that does not begin with a whole one.
pub data Framed (limit : ℕ) : Bytes → List Bytes → Bytes → Type 0 where
  rest : {buffer : Bytes} → head_of limit buffer ≡ wait → Framed limit buffer [] buffer
  next :
      {buffer tail : Bytes} {frames : List Bytes} (n : ℕ)
      → head_of limit buffer ≡ frame n
      → Framed limit (drop n buffer) frames tail
      → Framed limit buffer (take n buffer ∷ frames) tail

-- The frames decode to the messages.
pub data Decoded (L : Libraries) (limit : ℕ) : List Bytes → Messages L → Type 0 where
  none : Decoded L limit [] []
  one :
      {bytes : Bytes} {frames : List Bytes} {message : Message L} {messages : Messages L}
      → decode_frame L bytes limit ≡ ok message
      → Decoded L limit frames messages
      → Decoded L limit (bytes ∷ frames) (message ∷ messages)

pub join : List Bytes → Bytes
join [] = []
join (f ∷ fs) = f ++ join fs

-- A slice from the start that is within the bytes.
pub slice-prefix :
    (n : ℕ) (bytes : Bytes) → n ≤ length bytes → slice bytes 0 n ≡ some (take n bytes)
unfolding slice
slice-prefix n bytes h = ground arith

-- The tests of the head without the slice, which is there where it is taken.
unfoldable pub tested_head : ℕ → Bytes → Head
tested_head max_message_bytes buffer =
    let length_field = header_length buffer in
    if ltb (length buffer) 4
    then wait
    else if is_below length_field 16
    then refuse (invalid_frame_length length_field)
    else if ltb max_message_bytes (as_usize length_field)
    then refuse frame_too_large
    else if ltb (length buffer) (as_usize length_field)
    then wait
    else frame (as_usize length_field)

header_length-take : (buffer : Bytes) → header_length (take 4 buffer) ≡ header_length buffer
unfolding header_length
header_length-take buffer = rw take-take refl

pub head_of-tested : (limit : ℕ) (buffer : Bytes) → head_of limit buffer ≡ tested_head limit buffer
unfolding head_of head_at tested_head
head_of-tested limit buffer = elim (Bool-cases (ltb (length buffer) 4)) [
  | inl short ↦ rw short refl
  | inr long ↦ rw (long, slice-prefix 4 buffer (ground arith), header_length-take buffer) refl
]

-- A frame has sixteen bytes at least, and all of them are there.
pub head_of-frame :
    (limit : ℕ) (buffer : Bytes) (n : ℕ)
    → head_of limit buffer ≡ frame n
    → (16 ≤ n) × (n ≤ limit) × (n ≤ length buffer)
unfolding tested_head
head_of-frame limit buffer n h =
    ground (arith, head_of-tested limit buffer, as_usize-le 16 (header_length buffer))

pub Framed-join :
    {limit : ℕ} {buffer tail : Bytes} {frames : List Bytes}
    → Framed limit buffer frames tail
    → buffer ≡ join frames ++ tail
unfolding join
Framed-join (rest h) = refl
Framed-join (next {buffer} {tail} {frames} n h f) =
    sym (take-append-drop n buffer)
    ∙ ap (λ b. take n buffer ++ b) (Framed-join f)
    ∙ sym (append_assoc (take n buffer) (join frames) tail)

module _ (L : Libraries) where
  abbrev with_buffer : StreamDecoder → Bytes → StreamDecoder
  with_buffer d b = record d { buffer = b }

  -- What a run of the loop that ends with `Ok` has done.
  pub record Cut (d : StreamDecoder) (messages : Messages L) (d' : StreamDecoder) : Type 0 where
    pub frames : List Bytes
    pub framed : Framed d.config.max_message_bytes d.buffer frames d'.buffer
    pub decoded : Decoded L d.config.max_message_bytes frames messages
    pub same_config : d'.config ≡ d.config

  -- Enough fuel runs the loop over the frames to the rest.
  push_loop-Framed :
      (fuel : ℕ) (d : StreamDecoder) (seen messages : Messages L) {frames : List Bytes}
      {tail : Bytes}
      → Framed d.config.max_message_bytes d.buffer frames tail
      → Decoded L d.config.max_message_bytes frames messages
      → length d.buffer < fuel
      → push_loop L fuel d seen ≡ (ok (seen ++ messages), with_buffer d tail)
  unfolding push_loop push_turn push_slice push_frame
  push_loop-Framed zero d seen messages f m h = absurd (omega arith)
  push_loop-Framed (suc fuel) d seen messages (rest w) none h = rw (w, append-nil)
  push_loop-Framed (suc fuel) d seen messages (next {tail = tail} n w f)
        (one {message = m} {messages = ms} e r) h =
      let (low, _, high) = head_of-frame d.config.max_message_bytes d.buffer n w in
      rw (w, slice-prefix n d.buffer high, e)
        (push_loop-Framed fuel (with_buffer d (drop n d.buffer)) (seen ++ (m ∷ [])) ms f r
            (omega (arith, length-drop n d.buffer))
          ∙ ap (λ x. (ok x, with_buffer d tail)) (append_assoc seen (m ∷ []) ms))

  -- What a call that accepts has appended to the messages, and cut off the buffer.
  abbrev Accepts : StreamDecoder → Messages L → Messages L → StreamDecoder → Type 0
  Accepts d seen messages d' = (new : Messages L) × (messages ≡ seen ++ new) × Cut d new d'

  module _ (fuel : ℕ)
      (again : (d : StreamDecoder) (seen : Messages L) (messages : Messages L) (d' : StreamDecoder)
        → push_loop L fuel d seen ≡ (ok messages, d')
        → Accepts d seen messages d') where
    push_frame-Accepts :
        (d : StreamDecoder) (seen messages : Messages L) (d' : StreamDecoder) (n : ℕ)
        (o : Decode (Message L))
        → head_of d.config.max_message_bytes d.buffer ≡ frame n
        → decode_frame L (take n d.buffer) d.config.max_message_bytes ≡ o
        → push_frame L
            (λ d' decoded'. push_loop L fuel d' decoded')
            (with_buffer d (drop n d.buffer))
            seen
            o
          ≡ (ok messages, d')
        → Accepts d seen messages d'
    unfolding push_frame
    push_frame-Accepts d seen messages d' n (ok m) w e h =
        let (new, q, c) =
          again (with_buffer d (drop n d.buffer)) (seen ++ (m ∷ [])) messages d' h in
        (
          m ∷ new,
          q ∙ append_assoc seen (m ∷ []) new,
          record {
            frames = take n d.buffer ∷ c.frames;
            framed = next n w c.framed;
            decoded = one e c.decoded;
            same_config = c.same_config;
          },
        )
    push_frame-Accepts d seen messages d' n (err x) w e h = cc
    push_frame-Accepts d seen messages d' n panic w e h = cc
    push_frame-Accepts d seen messages d' n spent w e h = cc

    push_turn-Accepts :
        (d : StreamDecoder) (seen messages : Messages L) (d' : StreamDecoder) (head : Head)
        → head_of d.config.max_message_bytes d.buffer ≡ head
        → push_turn L (λ d' decoded'. push_loop L fuel d' decoded') d seen head ≡ (ok messages, d')
        → Accepts d seen messages d'
    unfolding push_turn push_slice
    push_turn-Accepts d seen messages d' wait w h =
        let same : d ≡ d' = ap (λ p. p.1) h in
        (
          [],
          rw append-nil (cc),
          subst (λ x. Cut d [] x) same
              (record { frames = []; framed = rest w; decoded = none; same_config = refl }),
        )
    push_turn-Accepts d seen messages d' (refuse x) w h = cc
    push_turn-Accepts d seen messages d' (frame n) w h =
        let (_, _, high) = head_of-frame d.config.max_message_bytes d.buffer n w in
        push_frame-Accepts d seen messages d' n
          (decode_frame L (take n d.buffer) d.config.max_message_bytes) w refl
          (rw (slice-prefix n d.buffer high) at h)
    push_turn-Accepts d seen messages d' out_of_bounds w h = cc

  -- What the loop accepts has been cut into frames.
  push_loop-Accepts :
      (fuel : ℕ) (d : StreamDecoder) (seen messages : Messages L) (d' : StreamDecoder)
      → push_loop L fuel d seen ≡ (ok messages, d')
      → Accepts d seen messages d'
  unfolding push_loop
  push_loop-Accepts zero d seen messages d' h = cc
  push_loop-Accepts (suc fuel) d seen messages d' h =
      push_turn-Accepts fuel (push_loop-Accepts fuel) d seen messages d'
        (head_of d.config.max_message_bytes d.buffer) refl h

  push_loop-Cut :
      (d d' : StreamDecoder) (messages : Messages L)
      → Cut d messages d'
      → push_loop L (suc (length d.buffer)) d [] ≡ (ok messages, d')
  push_loop-Cut d d' messages c =
      push_loop-Framed (suc (length d.buffer)) d [] messages c.framed c.decoded (omega arith) ∙ λ i.
      (ok messages, record { config = sym c.same_config i; buffer = d'.buffer })

  accepted :
      (d : StreamDecoder) (bytes : Bytes) (messages : Messages L) (d' : StreamDecoder)
      → push L d bytes ≡ (ok messages, d')
      → (overflows L d bytes ≡ false) × Cut (extend L d bytes) messages d'
  unfolding push
  accepted d bytes messages d' h = elim (Bool-cases (overflows L d bytes)) [
    | inl full ↦ cc (rw full at h)
    | inr fits ↦
        let (new, e, c) =
          push_loop-Accepts (suc (length (extend L d bytes).buffer)) (extend L d bytes) [] messages
            d' (rw fits at h) in
        (fits, subst (λ x. Cut (extend L d bytes) x d') (sym e) c)
  ]

  accepts :
      (d : StreamDecoder) (bytes : Bytes) (messages : Messages L) (d' : StreamDecoder)
      → (overflows L d bytes ≡ false) × Cut (extend L d bytes) messages d'
      → push L d bytes ≡ (ok messages, d')
  unfolding push
  accepts d bytes messages d' (fits, c) = rw fits (push_loop-Cut (extend L d bytes) d' messages c)

  -- `push` returns these messages and leaves this decoder exactly when the buffer limit admits the
  -- bytes, and the buffered and the new bytes are a run of whole frames, which decode to the messages,
  -- and then the bytes that are left behind, which do not begin with a whole frame. The configuration
  -- stays.
  pub push_iff :
      (d : StreamDecoder) (bytes : Bytes) (messages : Messages L) (d' : StreamDecoder)
      → (push L d bytes ≡ (ok messages, d'))
        ↔ ((overflows L d bytes ≡ false) × Cut (extend L d bytes) messages d')
  push_iff d bytes messages d' = (accepted d bytes messages d', accepts d bytes messages d')
