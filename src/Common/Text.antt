-- ===== src/Common/Text.antt =====
-- Rust's `&str` and `&[u8]` as lists of byte values, and the standard library's functions on them.
use Prim.Native.Nat.{ℕ, zero, suc, ◌+◌, ◌-◌, ◌/◌, ◌%◌, ◌<◌}
use Prim.Native.Char.{code}
use Prim.Native.String.{String}
use mathlib.Core.Path.{◌≡◌}
use mathlib.Core.Logic.{◌↔◌}
use mathlib.Core.Bool.{Bool, true, false, ◌&&◌, ◌||◌}
use mathlib.Core.List.{List, [], ◌∷◌, map}
use mathlib.Core.Option.{Option, none, some}
use native.Mathlib.Omega.{arith}
use mongodb_dam.Common.Tests.{ltb, leb, ◌==◌, if◌then◌else◌}
use mongodb_dam.Common.Lists.{length}

abbrev pub Bytes : Type 0
Bytes = List ℕ

-- The code points of a text: its bytes, if it is ASCII, as every literal here is.
abbrev pub codes : String → Bytes
codes String.[] = []
codes (String.◌∷◌ c s) = code c ∷ codes s

abbrev pub within : ℕ → ℕ → ℕ → Bool
within lo hi c = leb lo c && leb c hi

unfoldable pub bytes_eq : Bytes → Bytes → Bool
bytes_eq [] [] = true
bytes_eq (x ∷ xs) (y ∷ ys) = x == y && bytes_eq xs ys
bytes_eq _ _ = false

pub bytes_eq_iff : (a b : Bytes) → (bytes_eq a b ≡ true) ↔ (a ≡ b)
unfolding bytes_eq
bytes_eq_iff (x ∷ a) (y ∷ b) = ground (arith, bytes_eq_iff a b)
bytes_eq_iff _ _ = ground arith

-- `matches!(text, a | b | …)`
unfoldable pub one_of : List String → Bytes → Bool
unfolding bytes_eq
one_of [] text = false
one_of (word ∷ words) text = bytes_eq text (codes word) || one_of words text

-- `u8::to_ascii_lowercase`
abbrev pub lower : ℕ → ℕ
lower c = if within b'A' b'Z' c then c + 32 else c

abbrev pub to_ascii_lowercase : Bytes → Bytes
to_ascii_lowercase = map lower

abbrev pub is_ascii_digit : ℕ → Bool
is_ascii_digit c = within b'0' b'9' c

abbrev pub is_ascii_alphanumeric : ℕ → Bool
is_ascii_alphanumeric c = is_ascii_digit c || within b'A' b'Z' c || within b'a' b'z' c

abbrev pub is_ascii_hexdigit : ℕ → Bool
is_ascii_hexdigit c = is_ascii_digit c || within b'A' b'F' c || within b'a' b'f' c

-- `iter().all(p)`
unfoldable pub all_bytes : (ℕ → Bool) → Bytes → Bool
all_bytes p [] = true
all_bytes p (c ∷ cs) = p c && all_bytes p cs

-- `position(|byte| *byte == 0)`
unfoldable pub position_nul : Bytes → Option ℕ
position_nul [] = none
position_nul (c ∷ cs) =
    if c == 0 then some 0 else (elim (position_nul cs) [ none ↦ none | some n ↦ some (suc n) ])

pub position_nul-lt : (bs : Bytes) (n : ℕ) → position_nul bs ≡ some n → n < length bs
unfolding position_nul
position_nul-lt [] n h = cc
position_nul-lt (c ∷ cs) zero h = omega arith
position_nul-lt (c ∷ cs) (suc n) h = ground (arith, position_nul-lt cs n)

-- `strip_prefix`
unfoldable pub strip_prefix : Bytes → Bytes → Option Bytes
strip_prefix [] text = some text
strip_prefix (p ∷ ps) [] = none
strip_prefix (p ∷ ps) (c ∷ cs) = if p == c then strip_prefix ps cs else none

-- A continuation byte of UTF-8.
abbrev pub tail_byte : ℕ → Bool
tail_byte = within 0x80 0xbf

-- The second byte that may follow `first` in a well-formed sequence of three or four bytes.
unfoldable pub second_byte : ℕ → ℕ → Bool
second_byte first c =
    if first == 0xe0
    then within 0xa0 0xbf c
    else if first == 0xed
    then within 0x80 0x9f c
    else if first == 0xf0
    then within 0x90 0xbf c
    else if first == 0xf4
    then within 0x80 0x8f c
    else tail_byte c

-- What a byte at the start of a character leaves to be read: the number of tail bytes.
unfoldable pub tail_count : ℕ → Option ℕ
tail_count c =
    if ltb c 0x80
    then some 0
    else if within 0xc2 0xdf c
    then some 1
    else if within 0xe0 0xef c
    then some 2
    else if within 0xf0 0xf4 c
    then some 3
    else none

-- `pending` tail bytes are still to come; `first` is the leading byte while the next is the second.
utf8_from : Option ℕ → ℕ → Bytes → Bool
utf8_from first pending [] = pending == 0
utf8_from (some first) pending (c ∷ cs) = second_byte first c && utf8_from none (pending - 1) cs
utf8_from none (suc pending) (c ∷ cs) = tail_byte c && utf8_from none pending cs
utf8_from none zero (c ∷ cs) = elim (tail_count c) [
  | none ↦ false
  | some zero ↦ utf8_from none zero cs
  | some (suc n) ↦ utf8_from (some c) (suc n) cs
]

-- `std::str::from_utf8(..).is_ok()`
unfoldable pub is_utf8 : Bytes → Bool
unfolding utf8_from second_byte tail_count
is_utf8 = utf8_from none zero

-- `char::is_control` of some character: the ranges U+0000..U+001F and U+007F..U+009F.
unfoldable pub any_control : Bytes → Bool
any_control [] = false
any_control (c ∷ []) = ltb c 0x20 || c == 0x7f
any_control (c ∷ d ∷ cs) =
    ltb c 0x20 || c == 0x7f || (c == 0xc2 && within 0x80 0x9f d) || any_control (d ∷ cs)

-- `to_string` of an unsigned integer below 10 ^ fuel, in front of what is written already.
decimal_onto : ℕ → ℕ → Bytes → Bytes
decimal_onto zero n rest = rest
decimal_onto (suc fuel) n rest =
    let digit = b'0' + n % 10 in
    let more = decimal_onto fuel (n / 10) (digit ∷ rest) in if ltb n 10 then digit ∷ rest else more

-- `u64::to_string`: twenty digits are enough below 2 ^ 64.
unfoldable pub to_decimal : ℕ → Bytes
unfolding decimal_onto
to_decimal n = decimal_onto 20 n []

-- Put a byte in front of the first piece.
abbrev pub in_first : ℕ → List Bytes → List Bytes
in_first c [] = (c ∷ []) ∷ []
in_first c (piece ∷ pieces) = (c ∷ piece) ∷ pieces

-- `split(separator)`
unfoldable pub split_on : ℕ → Bytes → List Bytes
split_on separator [] = [] ∷ []
split_on separator (c ∷ cs) =
    let pieces = split_on separator cs in if c == separator then [] ∷ pieces else in_first c pieces

-- `split_once(separator)`
unfoldable pub split_once : ℕ → Bytes → Option (Bytes × Bytes)
split_once separator [] = none
split_once separator (c ∷ cs) =
    let rest : Option (Bytes × Bytes) = elim (split_once separator cs) [
      | none ↦ none
      | some (a, b) ↦ some (c ∷ a, b)
    ] in
    if c == separator then some ([], cs) else rest

-- `starts_with`
unfoldable pub starts_with : Bytes → Bytes → Bool
starts_with [] text = true
starts_with (p ∷ ps) [] = false
starts_with (p ∷ ps) (c ∷ cs) = p == c && starts_with ps cs
