-- ===== src/Protocol/Bson/Float.antt =====
-- The tests and casts on `f64` values that `read_boolish`, `read_i32ish` and `read_u64ish` of
-- crates/mongo-protocol/src/lib.rs make, on the IEEE 754 bit pattern. A finite magnitude is
-- `significand * 2 ^ (exponent - 1075)`.
use mongodb_dam.Common.{
  ℕ, ◌+◌, ◌-◌, ◌*◌, ◌/◌, ◌%◌, ◌^◌, ◌==◌, Bool, true, false, not, ◌&&◌, ◌||◌, Option, none, some,
  ltb, leb, min, max, if◌then◌else◌,
}
use mongodb_dam.Common.Int.{ℤ, pos, negsuc}

biased : ℕ → ℕ
biased w = w / 2 ^ 52 % 2 ^ 11

is_finite : ℕ → Bool
is_finite w = not (biased w == 2047)

is_negative : ℕ → Bool
is_negative w = w / 2 ^ 63 == 1

-- The exponent of a subnormal number is that of the smallest normal one.
exponent : ℕ → ℕ
exponent w = max (biased w) 1

significand : ℕ → ℕ
significand w = if biased w == 0 then w % 2 ^ 52 else w % 2 ^ 52 + 2 ^ 52

-- The magnitude rounded towards zero, and whether something was cut off.
magnitude : ℕ → ℕ
magnitude w =
    if leb 1075 (exponent w)
    then significand w * 2 ^ (exponent w - 1075)
    else significand w / 2 ^ (1075 - exponent w)

has_fraction : ℕ → Bool
has_fraction w =
    if leb 1075 (exponent w) then false else not (significand w % 2 ^ (1075 - exponent w) == 0)

-- |value| <= n
at_most : ℕ → ℕ → Bool
at_most w n = ltb (magnitude w) n || (magnitude w == n && not (has_fraction w))

-- `value != 0.0`; a NaN is not equal to zero.
unfoldable pub f64_is_nonzero : ℕ → Bool
f64_is_nonzero w = not (w % 2 ^ 63 == 0)

-- The integer of a sign and a magnitude.
of_sign : Bool → ℕ → ℤ
of_sign false m = pos m
of_sign true m = if m == 0 then pos 0 else negsuc (m - 1)

-- `value >= i32::MIN as f64 && value <= i32::MAX as f64`, then `value as i32`
unfoldable pub f64_to_i32 : ℕ → Option ℤ
unfolding biased is_finite is_negative exponent significand magnitude has_fraction at_most of_sign
f64_to_i32 w =
    if is_finite w && at_most w (if is_negative w then 2 ^ 31 else 2 ^ 31 - 1)
    then some (of_sign (is_negative w) (magnitude w))
    else none

-- Finite, not below zero, integral and at most `u64::MAX as f64`, which is 2 ^ 64; the cast saturates.
unfoldable pub f64_to_u64 : ℕ → Option ℕ
unfolding biased is_finite is_negative exponent significand magnitude has_fraction at_most
f64_to_u64 w =
    if is_finite w
      && (not (is_negative w) || w % 2 ^ 63 == 0)
      && not (has_fraction w)
      && at_most w (2 ^ 64)
    then some (min (magnitude w) (2 ^ 64 - 1))
    else none
