-- ===== src/Protocol/Stream/Chunks.antt =====
-- How a stream is cut into pieces does not change what `push` of crates/mongo-protocol/src/lib.rs
-- makes of it.
use mongodb_dam.Common.{
  ℕ, ◌+◌, ◌≤◌, ◌≡◌, sym, subst, ◌∙◌, arith, Bytes, List, ◌++◌, ◌∷◌, length, length-append,
  take-append, drop-append,
}
use mathlib.Core.List.{append_assoc}
use mongodb_dam.Common.Outcome.{ok}
use mongodb_dam.Protocol.Libraries.{Libraries}
use mongodb_dam.Protocol.Stream.{StreamDecoder, frame, header_length, head_of, Messages, push}
use mongodb_dam.Protocol.Stream.Framing.{
  tested_head, head_of-tested, Framed, rest, next, Decoded, none, one, head_of-frame, push_iff,
}

pub header_length-append :
    (buffer more : Bytes)
    → 4 ≤ length buffer
    → header_length (buffer ++ more) ≡ header_length buffer
unfolding header_length
header_length-append buffer more h = rw (take-append 4 buffer more h)

head_of-append :
    (limit : ℕ) (buffer more : Bytes) (n : ℕ)
    → head_of limit buffer ≡ frame n
    → head_of limit (buffer ++ more) ≡ frame n
unfolding tested_head
head_of-append limit buffer more n h = ground (
  arith,
  head_of-tested limit buffer,
  head_of-tested limit (buffer ++ more),
  header_length-append buffer more,
  length-append buffer more,
)

Framed-append :
    {limit : ℕ} {buffer tail end : Bytes} {frames later : List Bytes} (more : Bytes)
    → Framed limit buffer frames tail
    → Framed limit (tail ++ more) later end
    → Framed limit (buffer ++ more) (frames ++ later) end
Framed-append more (rest h) g = g
Framed-append {limit} {end = end} {later = later} more (next {buffer} {tail} {frames} n h f) g =
    let (_, _, fits) = head_of-frame limit buffer n h in
    subst (λ t. Framed limit (buffer ++ more) (t ∷ (frames ++ later)) end)
      (take-append n buffer more fits)
      (next n (head_of-append limit buffer more n h) (
        subst (λ b. Framed limit b (frames ++ later) end) (sym (drop-append n buffer more fits))
          (Framed-append more f g)))

module _ (L : Libraries) where
  Decoded-append :
      {limit : ℕ} {frames later : List Bytes} {messages more : Messages L}
      → Decoded L limit frames messages
      → Decoded L limit later more
      → Decoded L limit (frames ++ later) (messages ++ more)
  Decoded-append none g = g
  Decoded-append (one e d) g = one e (Decoded-append d g)

  -- Two pushes that both succeed have the messages, in order, and the final decoder of one push of
  -- the joined bytes, where the buffer limit admits these.
  pub push-push :
      (d d1 d2 : StreamDecoder) (a b : Bytes) (messages more : Messages L)
      → push L d a ≡ (ok messages, d1)
      → push L d1 b ≡ (ok more, d2)
      → length d.buffer + length (a ++ b) ≤ d.config.max_buffer_bytes
      → push L d (a ++ b) ≡ (ok (messages ++ more), d2)
  push-push d d1 d2 a b messages more p q fits =
      let (_, c) = (push_iff L d a messages d1).0 p in
      let (_, c') = (push_iff L d1 b more d2).0 q in
      (push_iff L d (a ++ b) (messages ++ more) d2).1 (
        ground (arith, length-append a b),
        record {
          frames = c.frames ++ c'.frames;
          framed =
              subst (λ x. Framed d.config.max_message_bytes x (c.frames ++ c'.frames) d2.buffer)
                (append_assoc d.buffer a b)
                (Framed-append b c.framed (
                  subst (λ k. Framed k.max_message_bytes (d1.buffer ++ b) c'.frames d2.buffer)
                    c.same_config c'.framed));
          decoded =
              Decoded-append c.decoded (
                subst (λ k. Decoded L k.max_message_bytes c'.frames more) c.same_config c'.decoded);
          same_config = c'.same_config ∙ c.same_config;
        },
      )
