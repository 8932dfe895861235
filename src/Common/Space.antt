-- ===== src/Common/Space.antt =====
-- Rust's `char::is_whitespace` and the functions of `str` that split and trim at white space, on the
-- bytes of UTF-8 texts.
use Prim.Native.Nat.{ℕ, zero, suc, ◌-◌}
use mathlib.Core.Bool.{Bool, true, false, ◌&&◌, ◌||◌}
use mathlib.Core.Option.{Option, none, some}
use mathlib.Core.List.{List, [], ◌∷◌, ◌++◌}
use mongodb_dam.Common.Tests.{◌==◌, if◌then◌else◌}
use mongodb_dam.Common.Lists.{length, drop, take}
use mongodb_dam.Common.Text.{Bytes, within, starts_with, in_first}

-- A white space character of one byte, of two, and of three.
abbrev one_space : ℕ → Bool
one_space c = within 0x09 0x0d c || c == 0x20

abbrev two_space : ℕ → ℕ → Bool
two_space c d = c == 0xc2 && (d == 0x85 || d == 0xa0)

abbrev three_space : ℕ → ℕ → ℕ → Bool
three_space c d e =
    (c == 0xe1 && d == 0x9a && e == 0x80)
    || (c == 0xe2 && d == 0x80 && (within 0x80 0x8a e || e == 0xa8 || e == 0xa9 || e == 0xaf))
    || (c == 0xe2 && d == 0x81 && e == 0x9f)
    || (c == 0xe3 && d == 0x80 && e == 0x80)

-- `text.trim().is_empty()`
unfoldable pub is_blank : Bytes → Bool
is_blank [] = true
is_blank (c ∷ []) = one_space c
is_blank (c ∷ d ∷ []) = (one_space c && one_space d) || two_space c d
is_blank (c ∷ d ∷ e ∷ cs) =
    (one_space c && is_blank (d ∷ e ∷ cs))
    || (two_space c d && is_blank (e ∷ cs))
    || (three_space c d e && is_blank cs)

-- `trim_end`
pub trim_end : Bytes → Bytes
unfolding is_blank
trim_end [] = []
trim_end (c ∷ cs) = let rest = trim_end cs in if is_blank (c ∷ cs) then [] else c ∷ rest

-- The number of the bytes of the white space character that a text begins with, or 0.
space_width : Bytes → ℕ
space_width [] = 0
space_width (c ∷ []) = if one_space c then 1 else 0
space_width (c ∷ d ∷ []) = if one_space c then 1 else if two_space c d then 2 else 0
space_width (c ∷ d ∷ e ∷ cs) =
    if one_space c then 1 else if two_space c d then 2 else if three_space c d e then 3 else 0

-- `trim_start`: `skip` bytes of a white space character are still to be passed.
trim_start_from : ℕ → Bytes → Bytes
trim_start_from skip [] = []
trim_start_from (suc skip) (c ∷ cs) = trim_start_from skip cs
trim_start_from zero (c ∷ cs) = elim (space_width (c ∷ cs)) [
  | zero ↦ c ∷ cs
  | suc more ↦ trim_start_from more cs
]

-- `trim`
unfoldable pub trim : Bytes → Bytes
unfolding trim_end trim_start_from space_width
trim text = trim_end (trim_start_from 0 text)

-- The pieces between white space characters, the empty ones too.
pieces_from : ℕ → Bytes → List Bytes
pieces_from skip [] = [] ∷ []
pieces_from (suc skip) (c ∷ cs) = pieces_from skip cs
pieces_from zero (c ∷ cs) = elim (space_width (c ∷ cs)) [
  | zero ↦ in_first c (pieces_from zero cs)
  | suc more ↦ [] ∷ pieces_from more cs
]

abbrev drop_empty : List Bytes → List Bytes
drop_empty [] = []
drop_empty ([] ∷ pieces) = drop_empty pieces
drop_empty ((c ∷ cs) ∷ pieces) = (c ∷ cs) ∷ drop_empty pieces

-- `split_whitespace().collect()`
pub split_whitespace : Bytes → List Bytes
unfolding pieces_from space_width
split_whitespace text = drop_empty (pieces_from 0 text)

-- A line without the carriage return that may end it.
without_return : Bytes → Bytes
without_return [] = []
without_return (c ∷ cs) =
    let rest = without_return cs in
    elim cs [ [] ↦ if c == 0x0d then [] else c ∷ [] | d ∷ ds ↦ c ∷ rest ]

-- `lines().collect()`: each line ends behind a line feed, or with the text.
lines_from : Bytes → Bytes → List Bytes
lines_from [] [] = []
lines_from (c ∷ cs) [] = (c ∷ cs) ∷ []
lines_from line (c ∷ cs) = elim (c == 0x0a) [
  | true ↦ without_return line ∷ lines_from [] cs
  | false ↦ lines_from (line ++ (c ∷ [])) cs
]

pub lines : Bytes → List Bytes
unfolding lines_from without_return
lines text = lines_from [] text

-- `strip_suffix`
pub strip_suffix : Bytes → Bytes → Option Bytes
unfolding starts_with
strip_suffix suffix text =
    if starts_with suffix (drop (length text - length suffix) text)
    then some (take (length text - length suffix) text)
    else none

-- `trim_end_matches`: each match of a suffix that is not empty takes a byte at least.
trim_matches : ℕ → Bytes → Bytes → Bytes
trim_matches zero suffix text = text
trim_matches (suc fuel) suffix text = elim (strip_suffix suffix text) [
  | none ↦ text
  | some rest ↦ trim_matches fuel suffix rest
]

pub trim_end_matches : Bytes → Bytes → Bytes
unfolding trim_matches strip_suffix
trim_end_matches suffix text = trim_matches (length text) suffix text
