-- ===== src/Protocol/Read.antt =====
-- The bounded readers at the end of crates/mongo-protocol/src/lib.rs. A `usize` is a natural number:
-- every offset is at most the length of a slice in memory plus a 32-bit length, below 2 ^ 64.
pub mod Bounds
use mongodb_dam.Common.{
  ℕ, ◌+◌, ◌*◌, ◌-◌, ◌^◌, ◌==◌, Bool, true, false, not, ◌&&◌, ◌||◌, Option, none, some, List, [],
  ◌∷◌, Bytes, ltb, leb, if◌then◌else◌, length, slice, slice_from, position_nul, is_utf8,
}
use mongodb_dam.Common.Int.{ℤ, signed, as_usize, is_below}
use mongodb_dam.Common.Outcome.{Outcome, ok, err, ◌>>=◌, ok_or, index, range}
use mongodb_dam.Protocol.Types.{Decode, truncated, invalid_bson}

-- `from_le_bytes`
unfoldable pub from_le : Bytes → ℕ
from_le [] = 0
from_le (b ∷ bs) = b + 256 * from_le bs

-- `checked_add`
abbrev pub checked_add : ℕ → ℕ → Option ℕ
checked_add a b = if ltb (a + b) (2 ^ 64) then some (a + b) else none

unfoldable pub read_u32 : Bytes → ℕ → Decode ℕ
unfolding from_le slice
read_u32 bytes offset = do
  four ← ok_or (slice bytes offset (offset + 4)) truncated
  ok (from_le four)

unfoldable pub read_i32 : Bytes → ℕ → Decode ℤ
unfolding from_le slice
read_i32 bytes offset = do
  four ← ok_or (slice bytes offset (offset + 4)) truncated
  ok (signed (2 ^ 31) (from_le four))

unfoldable pub read_u64 : Bytes → ℕ → Decode ℕ
unfolding from_le slice
read_u64 bytes offset = do
  eight ← ok_or (slice bytes offset (offset + 8)) truncated
  ok (from_le eight)

unfoldable pub read_i64 : Bytes → ℕ → Decode ℤ
unfolding from_le slice
read_i64 bytes offset = do
  eight ← ok_or (slice bytes offset (offset + 8)) truncated
  ok (signed (2 ^ 63) (from_le eight))

-- `str::from_utf8` of a value, with what is returned beside it
checked_text : Bytes → ℕ → Decode (Bytes × ℕ)
checked_text value next = if is_utf8 value then ok (value, next) else err invalid_bson

-- The text up to the next NUL byte, and the offset behind that byte.
unfoldable pub read_cstring : Bytes → ℕ → Decode (Bytes × ℕ)
unfolding slice_from range slice position_nul is_utf8 checked_text
read_cstring bytes offset = do
  rest ← ok_or (slice_from bytes offset) invalid_bson
  relative_end ← ok_or (position_nul rest) invalid_bson
  value ← range bytes offset (offset + relative_end)
  checked_text value (offset + relative_end + 1)

-- The head of the loops over a document's elements: the type byte and the key.
pub record Element : Type 0 where
  pub kind : ℕ
  pub key : Bytes
  pub value_start : ℕ

unfoldable pub read_element : Bytes → ℕ → Decode Element
unfolding index read_cstring
read_element bytes offset = do
  kind ← index bytes offset
  (key, after_key) ← read_cstring bytes (offset + 1)
  ok (record { kind = kind; key = key; value_start = after_key })

ends_with_nul : Bytes → Bool
ends_with_nul [] = false
ends_with_nul (c ∷ []) = c == 0
ends_with_nul (c ∷ cs) = ends_with_nul cs

-- The test on a document's length prefix and last byte that each document walk begins with.
unfoldable pub check_document : Bytes → Decode (Unit {0})
unfolding read_i32 ends_with_nul
check_document document = if ltb (length document) 5 then err invalid_bson else do
  declared ← read_i32 document 0
  if not (as_usize declared == length document) || not (ends_with_nul document)
      then err invalid_bson
      else ok tt

-- The end of a value: `offset.checked_add(n).filter(|end| *end <= bytes.len())`.
unfoldable pub end_within : Bytes → ℕ → ℕ → Decode ℕ
end_within bytes offset n = do
  end ← ok_or (checked_add offset n) invalid_bson
  if leb end (length bytes) then ok end else err invalid_bson
