-- ===== src/Protocol/Bson.antt =====
-- BSON values of crates/mongo-protocol/src/lib.rs: where each ends, and what is read from it.
pub mod Bounds
pub mod Float
use Float.{f64_is_nonzero, f64_to_i32, f64_to_u64}
use mongodb_dam.Common.{
  ℕ, ◌+◌, ◌-◌, ◌^◌, ◌≤◌, ◌==◌, Bool, true, false, not, ◌&&◌, ◌||◌, Option, none, some, Bytes, ltb,
  leb, if◌then◌else◌, length, get_elem?, slice, is_utf8,
}
use mongodb_dam.Common.Int.{ℤ, pos, negsuc, signed, as_usize, is_below, is_int}
use mongodb_dam.Common.Outcome.{Outcome, ok, err, ◌>>=◌, ok_or, ok?, index, range}
use mongodb_dam.Protocol.Types.{Decode, truncated, invalid_bson}
use mongodb_dam.Protocol.Read.{from_le, checked_add, read_i32, read_cstring, end_within}

-- The element types whose values have a fixed length.
fixed_length : ℕ → Option ℕ
fixed_length t =
    if t == 0x01 || t == 0x09 || t == 0x11 || t == 0x12
    then some 8
    else if t == 0x07
    then some 12
    else if t == 0x08
    then some 1
    else if t == 0x0a || t == 0x06 || t == 0x7f || t == 0xff
    then some 0
    else if t == 0x10
    then some 4
    else if t == 0x13
    then some 16
    else none

-- A value that begins with its length: at least `minimum`, and `extra` bytes are not counted in it.
skip_counted : Bytes → ℕ → ℕ → ℕ → Decode ℕ
skip_counted bytes offset minimum extra = do
  length ← read_i32 bytes offset
  if is_below length minimum
      then err invalid_bson
      else end_within bytes offset (extra + as_usize length)

skip_regex : Bytes → ℕ → Decode ℕ
skip_regex bytes offset = do
  (_, after_pattern) ← read_cstring bytes offset
  (_, after_options) ← read_cstring bytes after_pattern
  ok after_options

skip_variable : Bytes → ℕ → ℕ → Decode ℕ
skip_variable bytes offset t =
    if t == 0x02 || t == 0x0d || t == 0x0e
    then skip_counted bytes offset 1 4
    else if t == 0x03 || t == 0x04 || t == 0x0f
    then skip_counted bytes offset 5 0
    else if t == 0x05
    then skip_counted bytes offset 0 5
    else if t == 0x0b
    then skip_regex bytes offset
    else if t == 0x0c
    then skip_counted bytes offset 1 16
    else err invalid_bson

skip_fixed_or : Bytes → ℕ → ℕ → Option ℕ → Decode ℕ
skip_fixed_or bytes offset element_type (some length) = end_within bytes offset length
skip_fixed_or bytes offset element_type none = skip_variable bytes offset element_type

unfoldable pub skip_value : Bytes → ℕ → ℕ → Decode ℕ
unfolding fixed_length skip_counted skip_regex skip_variable skip_fixed_or read_i32 read_cstring
    end_within
skip_value bytes offset element_type =
    skip_fixed_or bytes offset element_type (fixed_length element_type)

unfoldable pub read_bson_string : Bytes → ℕ → Decode Bytes
unfolding read_i32 index range is_utf8
read_bson_string bytes offset = do
  length_field ← read_i32 bytes offset
  if is_below length_field 1 then err invalid_bson else do
    end ← ok_or (checked_add (offset + 4) (as_usize length_field)) invalid_bson
    if ltb (length bytes) end then err invalid_bson else do
      last ← index bytes (end - 1)
      if not (last == 0) then err invalid_bson else do
        value ← range bytes (offset + 4) (end - 1)
        if is_utf8 value then ok value else err invalid_bson

unfoldable pub read_bson_binary : Bytes → ℕ → Decode Bytes
unfolding read_i32 slice
read_bson_binary bytes offset = do
  length_field ← read_i32 bytes offset
  if is_below length_field 0 then err invalid_bson else do
    start ← ok_or (checked_add offset 5) invalid_bson
    end ← ok_or (checked_add start (as_usize length_field)) invalid_bson
    ok_or (slice bytes start end) invalid_bson

-- The eight bytes of a 64-bit value, as a bit pattern.
pattern64 : Bytes → ℕ → Option ℕ
pattern64 bytes offset = elim (slice bytes offset (offset + 8)) [
  | none ↦ none
  | some eight ↦ some (from_le eight)
]

bind_option {ℓ κ} : {A : Type ℓ} {B : Type κ} → Option A → (A → Option B) → Option B
bind_option none f = none
bind_option (some a) f = f a

-- `i32::try_from` and `u64::try_from` of a signed integer
to_i32 : ℤ → Option ℤ
to_i32 (pos n) = if ltb n (2 ^ 31) then some (pos n) else none
to_i32 (negsuc n) = if ltb n (2 ^ 31) then some (negsuc n) else none

to_u64 : ℤ → Option ℕ
to_u64 (pos n) = some n
to_u64 (negsuc n) = none

unfoldable pub read_boolish : Bytes → ℕ → ℕ → Decode (Option Bool)
unfolding pattern64 bind_option read_i32 f64_is_nonzero slice from_le
read_boolish bytes offset t =
    if t == 0x01
    then ok (bind_option (pattern64 bytes offset) (λ w. some (f64_is_nonzero w)))
    else if t == 0x08
    then ok (bind_option (get_elem? bytes offset) (λ b. some (not (b == 0))))
    else if t == 0x10
    then (do v ← ok? (read_i32 bytes offset); ok (bind_option v (λ n. some (not (is_int n 0)))))
    else if t == 0x12
    then ok (bind_option (pattern64 bytes offset) (λ w. some (not (w == 0))))
    else ok none

unfoldable pub read_i32ish : Bytes → ℕ → ℕ → Decode (Option ℤ)
unfolding pattern64 bind_option to_i32 read_i32 f64_to_i32 slice from_le
read_i32ish bytes offset t =
    if t == 0x10
    then ok? (read_i32 bytes offset)
    else if t == 0x12
    then ok (bind_option (pattern64 bytes offset) (λ w. to_i32 (signed (2 ^ 63) w)))
    else if t == 0x01
    then ok (bind_option (pattern64 bytes offset) f64_to_i32)
    else ok none

unfoldable pub read_u64ish : Bytes → ℕ → ℕ → Decode (Option ℕ)
unfolding pattern64 bind_option to_u64 read_i32 f64_to_u64 slice from_le
read_u64ish bytes offset t =
    if t == 0x10
    then (do v ← ok? (read_i32 bytes offset); ok (bind_option v to_u64))
    else if t == 0x12
    then ok (bind_option (pattern64 bytes offset) (λ w. to_u64 (signed (2 ^ 63) w)))
    else if t == 0x01
    then ok (bind_option (pattern64 bytes offset) f64_to_u64)
    else ok none
