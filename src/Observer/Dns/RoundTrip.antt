-- ===== src/Observer/Dns/RoundTrip.antt =====
-- Names in the wire form of DNS, and what `parse_dns_name` of crates/observer/src/lib.rs reads there.
use mongodb_dam.Common.{
  ℕ, zero, suc, ◌+◌, ◌-◌, ◌/◌, ◌%◌, ◌==◌, ◌≤◌, ◌<◌, ◌≡◌, refl, sym, ap, subst, ◌∙◌, arith, true,
  false, none, some, Bytes, List, [], ◌∷◌, ◌++◌, inl, inr, ltb, length, get_elem?, slice,
  slice-is_some, all_bytes, length-append, drop-length_append, take-length_append,
  to_ascii_lowercase,
}
use mathlib.Core.List.{append_assoc, append-nil}
use mongodb_dam.Common.Outcome.{ok}
use mongodb_dam.Observer.Dns.{
  NameState, join_labels, is_label_byte, take_label, name_turn_at, name_turn, name_next, name_loop,
  name_start, parse_dns_name,
}

-- The labels of a name, each behind its length, and a zero behind the last.
pub encode_name : List Bytes → Bytes
encode_name [] = 0 ∷ []
encode_name (label ∷ labels) = length label ∷ (label ++ encode_name labels)

-- A label that the wire form can hold, and that the parser allows.
abbrev pub IsLabel : Bytes → Type 0
IsLabel label = (1 ≤ length label) × (length label ≤ 63) × (all_bytes is_label_byte label ≡ true)

abbrev pub AllLabels : List Bytes → Type 0
AllLabels [] = Unit
AllLabels (label ∷ labels) = IsLabel label × AllLabels labels

-- The bytes that the labels count against the limit of 254.
abbrev pub name_bytes : List Bytes → ℕ
name_bytes [] = 0
name_bytes (label ∷ labels) = length label + 1 + name_bytes labels

get_elem?_behind :
    (before rest : Bytes) (x : ℕ) → get_elem? (before ++ (x ∷ rest)) (length before) ≡ some x
get_elem?_behind [] rest x = refl
get_elem?_behind (b ∷ before) rest x = get_elem?_behind before rest x

slice_between :
    (before middle rest : Bytes) (a b : ℕ)
    → a ≡ length before
    → b ≡ length before + length middle
    → slice (before ++ (middle ++ rest)) a b ≡ some middle
slice_between before middle rest a b ha hb =
    slice-is_some (before ++ (middle ++ rest)) a b (omega arith)
      (omega (arith, length-append before (middle ++ rest), length-append middle rest))
    ∙ ap some (
        let width : b - a ≡ length middle = omega arith in
        rw (width, ha, drop-length_append before (middle ++ rest), take-length_append middle rest))

take_label-behind :
    (before label rest : Bytes) (s : NameState)
    → IsLabel label
    → s.cursor ≡ length before
    → s.decoded_bytes + (length label + 1) ≤ 254
    → name_turn (before ++ (length label ∷ (label ++ rest))) s
      ≡ ok (
          inl (record {
            labels = s.labels ++ (label ∷ []);
            cursor = s.cursor + 1 + length label;
            after_name = s.after_name;
            jumps = s.jumps;
            decoded_bytes = s.decoded_bytes + (length label + 1);
          }))
unfolding name_turn name_turn_at take_label
take_label-behind before label rest s (long, short, allowed) here fits =
    let bytes = before ++ (length label ∷ (label ++ rest)) in
    let first : get_elem? bytes s.cursor ≡ some (length label) =
      ap (get_elem? bytes) here ∙ get_elem?_behind before (label ++ rest) (length label) in
    let found : slice bytes (s.cursor + 1) (s.cursor + 1 + length label) ≡ some label =
      subst (λ (bs : Bytes). slice bs (s.cursor + 1) (s.cursor + 1 + length label) ≡ some label)
        (append_assoc before (length label ∷ []) (label ++ rest))
        (slice_between (before ++ (length label ∷ [])) label rest (s.cursor + 1)
          (s.cursor + 1 + length label) (omega (arith, length-append before (length label ∷ [])))
          (omega (arith, length-append before (length label ∷ [])))) in
    let a : (length label / 64 % 4 == 3) ≡ false = ground arith in
    let b : (length label / 64 % 4 == 0) ≡ true = ground arith in
    let c : (length label == 0) ≡ false = ground arith in
    let d : ltb 63 (length label) ≡ false = ground arith in
    let e : ltb 254 (s.decoded_bytes + (length label + 1)) ≡ false = ground arith in
    simp (first, a, b, c, d, found, allowed, e)

name_turn-end :
    (before rest : Bytes) (s : NameState)
    → s.cursor ≡ length before
    → s.after_name ≡ none
    → name_turn (before ++ (0 ∷ rest)) s
      ≡ ok (inr (to_ascii_lowercase (join_labels s.labels), s.cursor + 1))
unfolding name_turn name_turn_at
name_turn-end before rest s here plain =
    let first : get_elem? (before ++ (0 ∷ rest)) s.cursor ≡ some 0 =
      ap (get_elem? (before ++ (0 ∷ rest))) here ∙ get_elem?_behind before rest 0 in
    simp (first, plain)

-- The loop at the labels that are left, behind those that are read.
name_loop-encode :
    (fuel : ℕ) (labels : List Bytes) (bytes before rest : Bytes) (s : NameState)
    → AllLabels labels
    → bytes ≡ before ++ (encode_name labels ++ rest)
    → s.cursor ≡ length before
    → s.decoded_bytes + name_bytes labels ≤ 254
    → length labels < fuel
    → s.after_name ≡ none
    → name_loop fuel bytes s
      ≡ ok (
        to_ascii_lowercase (join_labels (s.labels ++ labels)),
        s.cursor + length (encode_name labels),
      )
unfolding name_loop name_next encode_name
name_loop-encode zero labels bytes before rest s h same here fits enough plain =
    absurd (omega arith)
name_loop-encode (suc fuel) [] bytes before rest s h same here fits enough plain =
    let turn = ap (λ bs. name_turn bs s) same ∙ name_turn-end before rest s here plain in
    simp (turn, append-nil)
name_loop-encode (suc fuel) (label ∷ labels) bytes before rest s (l, h) same here fits enough
      plain =
    let behind = encode_name labels ++ rest in
    let unfolded : bytes ≡ before ++ (length label ∷ (label ++ behind)) =
      same
      ∙ ap (λ bs. before ++ (length label ∷ bs)) (append_assoc label (encode_name labels) rest) in
    let turn =
      ap (λ bs. name_turn bs s) unfolded
      ∙ take_label-behind before label behind s l here (omega arith) in
    let next : NameState = record {
      labels = s.labels ++ (label ∷ []);
      cursor = s.cursor + 1 + length label;
      after_name = s.after_name;
      jumps = s.jumps;
      decoded_bytes = s.decoded_bytes + (length label + 1);
    } in
    let later =
      name_loop-encode fuel labels bytes (before ++ (length label ∷ label)) rest next h
        (unfolded ∙ sym (append_assoc before (length label ∷ label) behind))
        (omega (arith, length-append before (length label ∷ label))) (omega arith) (omega arith)
        plain in
    let end : next.cursor + length (encode_name labels)
        ≡ s.cursor + suc (length (label ++ encode_name labels)) =
      omega (arith, length-append label (encode_name labels)) in
    simp (turn) (
      later ∙ λ i.
      ok (to_ascii_lowercase (join_labels (append_assoc s.labels (label ∷ []) labels i)), end i))

length-AllLabels :
    (labels : List Bytes) → AllLabels labels → length labels + length labels ≤ name_bytes labels
length-AllLabels [] h = omega arith
length-AllLabels (label ∷ labels) ((long, _, _), h) = omega (arith, length-AllLabels labels h)

-- `parse_dns_name` at the wire form of a name, wherever it stands in a message, returns the labels,
-- joined by dots and in lower case, and the offset behind it; the labels have 1 to 63 allowed bytes
-- each, and with their lengths 254 bytes at most.
pub parse_dns_name-encode_name :
    (labels : List Bytes) (before rest : Bytes)
    → AllLabels labels
    → name_bytes labels ≤ 254
    → parse_dns_name (before ++ (encode_name labels ++ rest)) (length before)
      ≡ ok (to_ascii_lowercase (join_labels labels), length before + length (encode_name labels))
unfolding parse_dns_name
parse_dns_name-encode_name labels before rest h fits =
    name_loop-encode 273 labels (before ++ (encode_name labels ++ rest)) before rest
      (name_start (length before)) h refl refl (omega arith)
      (omega (arith, length-AllLabels labels h)) refl
