-- ===== src/Common/Numerals.antt =====
-- Rust's parsers and printers of numbers in a radix, on texts as bytes.
use Prim.Native.Nat.{ℕ, zero, suc, ◌+◌, ◌-◌, ◌*◌, ◌/◌, ◌%◌}
use mathlib.Core.Bool.{true, false}
use mathlib.Core.Option.{Option, none, some}
use mathlib.Core.List.{[], ◌∷◌, ◌++◌}
use mongodb_dam.Common.Tests.{ltb, ◌==◌, if◌then◌else◌}
use mongodb_dam.Common.Text.{Bytes, within}

-- `char::to_digit(16)`, or `none`
unfoldable pub digit_value : ℕ → Option ℕ
digit_value c =
    if within b'0' b'9' c
    then some (c - b'0')
    else if within b'a' b'f' c
    then some (c - b'a' + 10)
    else if within b'A' b'F' c
    then some (c - b'A' + 10)
    else none

-- The value of the digits behind those that have the value `seen`.
unfoldable pub digits_from : ℕ → ℕ → Bytes → Option ℕ
unfolding digit_value
digits_from radix seen [] = some seen
digits_from radix seen (c ∷ cs) = elim (digit_value c) [
  | none ↦ none
  | some d ↦ elim (ltb d radix) [ true ↦ digits_from radix (seen * radix + d) cs | false ↦ none ]
]

-- A value that is not below `bound` overflows, whatever digits follow.
abbrev in_bound : ℕ → Option ℕ → Option ℕ
in_bound bound none = none
in_bound bound (some n) = if ltb n bound then some n else none

-- `from_str_radix(text, radix).ok()` of the unsigned type with the values below `bound`: a plus sign
-- may stand in front, and a digit has to.
unfoldable pub from_str_radix : ℕ → ℕ → Bytes → Option ℕ
unfolding digits_from
from_str_radix bound radix [] = none
from_str_radix bound radix (c ∷ []) = in_bound bound (digits_from radix 0 (c ∷ []))
from_str_radix bound radix (c ∷ d ∷ cs) =
    in_bound bound (digits_from radix 0 (if c == b'+' then d ∷ cs else c ∷ d ∷ cs))

-- A digit in lower case.
abbrev pub hex_digit : ℕ → ℕ
hex_digit d = if ltb d 10 then b'0' + d else b'a' + (d - 10)

-- The last `width` hexadecimal digits of a number: `{:016x}` at 16 for a `u64`.
unfoldable pub hex_digits : ℕ → ℕ → Bytes
hex_digits zero n = []
hex_digits (suc width) n = hex_digits width (n / 16) ++ (hex_digit (n % 16) ∷ [])

-- `{:x}` of a `u16`
unfoldable pub to_hex : ℕ → Bytes
unfolding hex_digits
to_hex n =
    hex_digits (if ltb n 16 then 1 else if ltb n 256 then 2 else if ltb n 4096 then 3 else 4) n

-- The lowest `count` bytes of a number, in the order of `to_le_bytes`.
unfoldable pub le_bytes : ℕ → ℕ → Bytes
le_bytes zero n = []
le_bytes (suc count) n = n % 256 ∷ le_bytes count (n / 256)
