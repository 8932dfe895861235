-- ===== src/Common/Lossy.antt =====
-- `String::from_utf8_lossy`: each maximal part of the bytes that is no text gives one U+FFFD.
use Prim.Native.Nat.{ℕ, zero, suc}
use mathlib.Core.Bool.{Bool}
use mathlib.Core.Option.{Option, none, some}
use mathlib.Core.List.{[], ◌∷◌, ◌++◌}
use mongodb_dam.Common.Tests.{if◌then◌else◌}
use mongodb_dam.Common.Text.{Bytes, tail_byte, second_byte, tail_count}

-- A character that has begun: its first byte while the next one is the second, the number of tail
-- bytes behind the next one, and the bytes so far. `none` is the start of a character.
abbrev Begun : Type 0
Begun = Option (Option ℕ × ℕ × Bytes)

abbrev replacement : Bytes
replacement = 0xef ∷ 0xbf ∷ 0xbd ∷ []

-- What a byte at the start of a character puts out, and what it begins.
begin : ℕ → Bytes × Begun
begin c = elim (tail_count c) [
  | none ↦ (replacement, none)
  | some zero ↦ (c ∷ [], none)
  | some (suc more) ↦ ([], some (some c, more, c ∷ []))
]

fits : Option ℕ → ℕ → Bool
fits (some first) c = second_byte first c
fits none c = tail_byte c

carry_on : ℕ → Bytes → ℕ → Bytes × Begun
carry_on zero held c = (held ++ (c ∷ []), none)
carry_on (suc more) held c = ([], some (none, more, held ++ (c ∷ [])))

take_byte : Begun → ℕ → Bytes × Begun
take_byte none c = begin c
take_byte (some (first, more, held)) c =
    let (out, begun) = begin c in
    if fits first c then carry_on more held c else (replacement ++ out, begun)

lossy_from : Begun → Bytes → Bytes
lossy_from none [] = []
lossy_from (some begun) [] = replacement
lossy_from begun (c ∷ cs) = let (out, next) = take_byte begun c in out ++ lossy_from next cs

unfoldable pub from_utf8_lossy : Bytes → Bytes
unfolding lossy_from take_byte second_byte tail_count carry_on fits begin
from_utf8_lossy = lossy_from none
