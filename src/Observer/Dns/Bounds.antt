-- ===== src/Observer/Dns/Bounds.antt =====
-- The parser of DNS names in crates/observer/src/lib.rs returns on every input, within the limits
-- of names.
use mongodb_dam.Common.{
  ℕ, zero, suc, ◌+◌, ◌-◌, ◌/◌, ◌%◌, ◌==◌, ◌≤◌, ◌<◌, ◌≡◌, refl, ap, ◌∙◌, arith, Bool, true, not,
  ◌||◌, Option, none, some, Bytes, List, [], ◌∷◌, ◌++◌, inl, inr, ltb, length, get_elem?, slice,
  all_bytes, length-append, is_ascii_digit, within, to_ascii_lowercase,
}
use mongodb_dam.Common.Outcome.{◌>>=◌, ok_or, Ensures, Ensures-bind, Ensures-if}
use mongodb_dam.Observer.Dns.{
  DnsError, Dns, NameState, join_labels, is_label_byte, unwrap_or, Turn, follow_pointer, take_label,
  name_turn_at, name_turn, name_next, name_loop, name_start, parse_dns_name, read_network_u16,
  DecodedDnsMessage, question, decode_dns_message,
}

-- The bytes of a name that is returned.
abbrev pub is_name_byte : ℕ → Bool
is_name_byte c = is_ascii_digit c || within b'a' b'z' c || c == b'-' || c == b'_' || c == b'.'

-- The bytes of a name before it is put in lower case.
abbrev is_joined_byte : ℕ → Bool
is_joined_byte c = is_label_byte c || c == b'.'

abbrev wire_length : List Bytes → ℕ
wire_length [] = 0
wire_length (label ∷ labels) = length label + 1 + wire_length labels

abbrev AreLabels : List Bytes → Type 0
AreLabels [] = Unit
AreLabels (label ∷ labels) = (all_bytes is_label_byte label ≡ true) × AreLabels labels

wire_length-append :
    (labels : List Bytes) (label : Bytes)
    → wire_length (labels ++ (label ∷ [])) ≡ wire_length labels + (length label + 1)
wire_length-append [] label = omega arith
wire_length-append (first ∷ labels) label = omega (arith, wire_length-append labels label)

AreLabels-append :
    (labels : List Bytes) (label : Bytes)
    → AreLabels labels
    → all_bytes is_label_byte label ≡ true
    → AreLabels (labels ++ (label ∷ []))
AreLabels-append [] label h k = (k, tt)
AreLabels-append (first ∷ labels) label (h, hs) k = (h, AreLabels-append labels label hs k)

length-join_labels : (labels : List Bytes) → length (join_labels labels) ≤ wire_length labels - 1
length-join_labels [] = omega arith
length-join_labels (label ∷ []) = omega arith
length-join_labels (label ∷ next ∷ labels) = omega (
  arith,
  length-join_labels (next ∷ labels),
  length-append label (b'.' ∷ join_labels (next ∷ labels)),
)

joined_label :
    (label rest : Bytes)
    → all_bytes is_label_byte label ≡ true
    → all_bytes is_joined_byte rest ≡ true
    → all_bytes is_joined_byte (label ++ rest) ≡ true
unfolding all_bytes
joined_label [] rest h k = k
joined_label (c ∷ label) rest h k = ground (arith, joined_label label rest)

joined_alone :
    (label : Bytes) → all_bytes is_label_byte label ≡ true → all_bytes is_joined_byte label ≡ true
unfolding all_bytes
joined_alone [] h = refl
joined_alone (c ∷ label) h = ground (arith, joined_alone label)

all-join_labels :
    (labels : List Bytes) → AreLabels labels → all_bytes is_joined_byte (join_labels labels) ≡ true
unfolding all_bytes
all-join_labels [] h = refl
all-join_labels (label ∷ []) (h, _) = joined_alone label h
all-join_labels (label ∷ next ∷ labels) (h, hs) =
    joined_label label (b'.' ∷ join_labels (next ∷ labels)) h (all-join_labels (next ∷ labels) hs)

all-to_ascii_lowercase :
    (name : Bytes)
    → all_bytes is_joined_byte name ≡ true
    → all_bytes is_name_byte (to_ascii_lowercase name) ≡ true
unfolding all_bytes
all-to_ascii_lowercase [] h = refl
all-to_ascii_lowercase (c ∷ name) h = ground (arith, all-to_ascii_lowercase name)

length-to_ascii_lowercase : (name : Bytes) → length (to_ascii_lowercase name) ≡ length name
length-to_ascii_lowercase [] = refl
length-to_ascii_lowercase (c ∷ name) = ap suc (length-to_ascii_lowercase name)

-- The offset behind the name, where a pointer has fixed it, else the cursor that it will come from.
abbrev EndsWithin : Bytes → ℕ → ℕ → Option ℕ → Type 0
EndsWithin bytes offset cursor none = offset ≤ cursor
EndsWithin bytes offset cursor (some end) = (offset < end) × (end ≤ length bytes)

-- What each turn of the loop keeps.
record InLimits (bytes : Bytes) (offset : ℕ) (s : NameState) : Type 0 where
  few_jumps : s.jumps ≤ 16
  short : s.decoded_bytes ≤ 254
  counted : wire_length s.labels ≡ s.decoded_bytes
  labelled : AreLabels s.labels
  ends : EndsWithin bytes offset s.cursor s.after_name

-- The jumps and the bytes that are left.
abbrev turns_left : NameState → ℕ
turns_left s = (16 - s.jumps) + (254 - s.decoded_bytes)

-- A name that is returned: at most 253 bytes, all of them allowed, and an end within the bytes.
abbrev pub IsName : Bytes → ℕ → Bytes × ℕ → Type 0
IsName bytes offset (name, end) =
    (length name ≤ 253)
    × (all_bytes is_name_byte name ≡ true)
    × (offset < end)
    × (end ≤ length bytes)

abbrev Turned : Bytes → ℕ → NameState → Turn → Type 0
Turned bytes offset s (inl next) = InLimits bytes offset next × (turns_left next < turns_left s)
Turned bytes offset s (inr found) = IsName bytes offset found

get_elem?-some : (xs : Bytes) (i : ℕ) {x : ℕ} → get_elem? xs i ≡ some x → i < length xs
get_elem?-some [] i h = cc
get_elem?-some (y ∷ ys) zero h = omega arith
get_elem?-some (y ∷ ys) (suc i) h = omega (arith, get_elem?-some ys i h)

-- A read that is there or is an error.
Ensures-read :
    {A B : Type 0} (Q : B → Type 0) (o : Option A) (e : DnsError) (f : A → Dns B)
    → ((a : A) → o ≡ some a → Ensures Q (f a))
    → Ensures Q (ok_or o e >>= f)
Ensures-read Q none e f h = tt
Ensures-read Q (some a) e f h = h a refl

EndsWithin-unwrap :
    (bytes : Bytes) (offset cursor next : ℕ) (after_name : Option ℕ)
    → EndsWithin bytes offset cursor after_name
    → cursor < next
    → next ≤ length bytes
    → (offset < unwrap_or after_name next) × (unwrap_or after_name next ≤ length bytes)
EndsWithin-unwrap bytes offset cursor next none h low high = (omega arith, high)
EndsWithin-unwrap bytes offset cursor next (some end) h low high = h

EndsWithin-later :
    (bytes : Bytes) (offset cursor next : ℕ) (after_name : Option ℕ)
    → EndsWithin bytes offset cursor after_name
    → cursor ≤ next
    → EndsWithin bytes offset next after_name
EndsWithin-later bytes offset cursor next none h low = omega arith
EndsWithin-later bytes offset cursor next (some end) h low = h

follow_pointer-Turned :
    (bytes : Bytes) (offset : ℕ) (s : NameState) (first : ℕ)
    → InLimits bytes offset s
    → Ensures (Turned bytes offset s) (follow_pointer bytes s first)
unfolding follow_pointer
follow_pointer-Turned bytes offset s first h =
    Ensures-read (Turned bytes offset s) (get_elem? bytes (s.cursor + 1)) _ _ λ second found.
      Ensures-if (Turned bytes offset s) (ltb 16 (s.jumps + 1)) _ _ (λ _. tt)
        λ few.
          let inside = get_elem?-some bytes (s.cursor + 1) found in
          (
            record {
              few_jumps = ground arith;
              short = h.short;
              counted = h.counted;
              labelled = h.labelled;
              ends =
                  EndsWithin-unwrap bytes offset s.cursor (s.cursor + 2) s.after_name h.ends
                    (omega arith) (omega arith);
            },
            ground arith,
          )

take_label-Turned :
    (bytes : Bytes) (offset : ℕ) (s : NameState) (n : ℕ)
    → InLimits bytes offset s
    → Ensures (Turned bytes offset s) (take_label bytes s n)
unfolding take_label
take_label-Turned bytes offset s n h =
    Ensures-read (Turned bytes offset s) (slice bytes (s.cursor + 1) (s.cursor + 1 + n)) _ _
      λ label found.
        Ensures-if (Turned bytes offset s) (not (all_bytes is_label_byte label)) _ _ (λ _. tt)
          λ allowed.
            Ensures-if (Turned bytes offset s) (ltb 254 (s.decoded_bytes + (length label + 1))) _ _
              (λ _. tt)
              λ short. (
                record {
                  few_jumps = h.few_jumps;
                  short = ground arith;
                  counted =
                      wire_length-append s.labels label
                      ∙ ap (λ k. k + (length label + 1)) h.counted;
                  labelled = AreLabels-append s.labels label h.labelled (ground arith);
                  ends =
                      EndsWithin-later bytes offset s.cursor (s.cursor + 1 + n) s.after_name h.ends
                        (omega arith);
                },
                ground arith,
              )

found-IsName :
    (bytes : Bytes) (offset : ℕ) (s : NameState)
    → InLimits bytes offset s
    → s.cursor < length bytes
    → IsName bytes offset
        (to_ascii_lowercase (join_labels s.labels), unwrap_or s.after_name (s.cursor + 1))
found-IsName bytes offset s h inside =
    let name = join_labels s.labels in
    let (low, high) =
      EndsWithin-unwrap bytes offset s.cursor (s.cursor + 1) s.after_name h.ends (omega arith)
        (omega arith) in
    (
      let same = length-to_ascii_lowercase name in
          let short = h.short in
          let counted = h.counted in omega (arith, length-join_labels s.labels),
      all-to_ascii_lowercase name (all-join_labels s.labels h.labelled),
      low,
      high,
    )

name_turn_at-Turned :
    (bytes : Bytes) (offset : ℕ) (s : NameState) (first : ℕ)
    → InLimits bytes offset s
    → s.cursor < length bytes
    → Ensures (Turned bytes offset s) (name_turn_at bytes s first)
unfolding name_turn_at
name_turn_at-Turned bytes offset s first h inside =
    let Q = Turned bytes offset s in
    Ensures-if Q (first / 64 % 4 == 3) _ _ (λ _. follow_pointer-Turned bytes offset s first h)
      λ _.
        Ensures-if Q (not (first / 64 % 4 == 0)) _ _ (λ _. tt)
          λ _.
            Ensures-if Q (first == 0) _ _ (λ _. found-IsName bytes offset s h inside)
              λ _.
                Ensures-if Q (ltb 63 first) _ _ (λ _. tt)
                  λ _. take_label-Turned bytes offset s first h

name_turn-Turned :
    (bytes : Bytes) (offset : ℕ) (s : NameState)
    → InLimits bytes offset s
    → Ensures (Turned bytes offset s) (name_turn bytes s)
unfolding name_turn
name_turn-Turned bytes offset s h =
    Ensures-read (Turned bytes offset s) (get_elem? bytes s.cursor) _ _ λ first found.
      name_turn_at-Turned bytes offset s first h (get_elem?-some bytes s.cursor found)

name_next-IsName :
    (bytes : Bytes) (offset : ℕ) (s : NameState) (again : NameState → Dns (Bytes × ℕ))
    → ((next : NameState)
        → InLimits bytes offset next
        → turns_left next < turns_left s
        → Ensures (IsName bytes offset) (again next))
    → (turn : Turn) → Turned bytes offset s turn
    → Ensures (IsName bytes offset) (name_next again turn)
unfolding name_next
name_next-IsName bytes offset s again rest (inl next) (limits, fewer) = rest next limits fewer
name_next-IsName bytes offset s again rest (inr found) named = named

name_loop-IsName :
    (fuel : ℕ) (bytes : Bytes) (offset : ℕ) (s : NameState)
    → InLimits bytes offset s
    → turns_left s < fuel
    → Ensures (IsName bytes offset) (name_loop fuel bytes s)
unfolding name_loop
name_loop-IsName zero bytes offset s h enough = absurd (omega arith)
name_loop-IsName (suc fuel) bytes offset s h enough =
    Ensures-bind (Turned bytes offset s) (IsName bytes offset) (name_turn bytes s) _
      (name_turn-Turned bytes offset s h)
      (name_next-IsName bytes offset s (λ s'. name_loop fuel bytes s')
        (λ next limits fewer. name_loop-IsName fuel bytes offset next limits (omega arith)))

-- `parse_dns_name` ends with `Ok` or `Err` on all bytes, a cycle of pointers included. A name that it
-- returns has at most 253 bytes, all of them lower-case letters, digits, hyphens, underscores or dots,
-- and the offset behind it lies behind its start and within the bytes.
pub parse_dns_name-IsName :
    (bytes : Bytes) (offset : ℕ) → Ensures (IsName bytes offset) (parse_dns_name bytes offset)
unfolding parse_dns_name
parse_dns_name-IsName bytes offset =
    name_loop-IsName 273 bytes offset (name_start offset)
      (record {
        few_jumps = omega arith;
        short = omega arith;
        counted = refl;
        labelled = tt;
        ends = omega arith;
      })
      (omega arith)

-- The name of a message, where it has a question: within the limits of names.
abbrev pub NameFits : Option Bytes → Type 0
NameFits none = Unit
NameFits (some name) = (length name ≤ 253) × (all_bytes is_name_byte name ≡ true)

abbrev pub IsMessage : DecodedDnsMessage → Type 0
IsMessage message = NameFits message.name × (message.response_code < 16)

read_network_u16-Returns :
    (bytes : Bytes) (offset : ℕ) → Ensures (λ _. Unit {0}) (read_network_u16 bytes offset)
unfolding read_network_u16
read_network_u16-Returns bytes offset =
    Ensures-read (λ _. Unit {0}) (slice bytes offset (offset + 2)) _ _ (λ _ _. tt)

-- A read of two bytes in front of what follows.
then_read :
    {B : Type 0} (Q : B → Type 0) (bytes : Bytes) (offset : ℕ) (f : ℕ → Dns B)
    → ((value : ℕ) → Ensures Q (f value))
    → Ensures Q (read_network_u16 bytes offset >>= f)
then_read Q bytes offset f h =
    Ensures-bind (λ _. Unit {0}) Q (read_network_u16 bytes offset) f
      (read_network_u16-Returns bytes offset) (λ value _. h value)

question-NameFits :
    (bytes : Bytes) (count : ℕ)
    → Ensures (λ (found : Option Bytes × Option Bytes). NameFits found.0) (question bytes count)
unfolding question
question-NameFits bytes zero = tt
question-NameFits bytes (suc more) =
    Ensures-bind (IsName bytes 12) _ (parse_dns_name bytes 12) _ (parse_dns_name-IsName bytes 12)
      λ (name, after_name) (short, allowed, _, _).
        then_read _ bytes after_name _
          λ _. then_read _ bytes (after_name + 2) _ λ _. (short, allowed)

-- `decode_dns_message` ends with `Ok` or `Err` on all bytes; a message that it returns has a response
-- code below 16 and, where it has a question, a name of at most 253 lower-case letters, digits,
-- hyphens, underscores and dots.
pub decode_dns_message-IsMessage : (bytes : Bytes) → Ensures IsMessage (decode_dns_message bytes)
unfolding decode_dns_message
decode_dns_message-IsMessage bytes =
    Ensures-if IsMessage (ltb (length bytes) 12) _ _ (λ _. tt)
      λ _. then_read IsMessage bytes 0 _ λ _. then_read IsMessage bytes 2 _ λ flags.
        then_read IsMessage bytes 4 _ λ count. then_read IsMessage bytes 6 _ λ _.
          Ensures-bind (λ (found : Option Bytes × Option Bytes). NameFits found.0) IsMessage
            (question bytes count) _ (question-NameFits bytes count)
            λ found fits. (fits, omega arith)
