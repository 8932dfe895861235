-- ===== src/Protocol/Bson/Bounds.antt =====
-- A value that is skipped ends within the bytes, and the readers of values never panic.
use mongodb_dam.Common.{
  ℕ, ◌≤◌, ◌<◌, ◌+◌, ◌-◌, Bytes, length, ltb, arith, ◌==◌, not, is_utf8, if◌then◌else◌, Option, none,
  some,
}
use mongodb_dam.Common.Int.{as_usize, is_below}
use mongodb_dam.Common.Outcome.{
  ok, err, index, range, ◌>>=◌, ok_or, Ensures, Ensures-bind, Ensures-if, Ensures-index,
  Ensures-range, Ensures-mono,
}
use mongodb_dam.Protocol.Types.{Decode, invalid_bson}
use mongodb_dam.Protocol.Read.{read_i32, read_u32, read_cstring, end_within, checked_add}
use mongodb_dam.Protocol.Read.Bounds.{
  Ensures-ok_or, read_i32-Ensures, read_u32-Ensures, read_cstring-Ensures, end_within-Ensures, Ends,
}
use mongodb_dam.Protocol.Bson.{
  fixed_length, skip_counted, skip_regex, skip_variable, skip_fixed_or, skip_value,
  read_bson_string, read_bson_binary, read_boolish, read_i32ish, read_u64ish,
}

-- The end of a value that begins at `offset`.
abbrev pub ValueEnd : Bytes → ℕ → ℕ → Type 0
ValueEnd bytes offset end = (offset ≤ end) × (end ≤ length bytes)

end_within-ValueEnd :
    (bytes : Bytes) (offset n : ℕ) → Ensures (ValueEnd bytes offset) (end_within bytes offset n)
end_within-ValueEnd bytes offset n =
    Ensures-mono _ (ValueEnd bytes offset) (end_within bytes offset n) (λ end h. omega arith)
      (end_within-Ensures bytes offset n)

skip_counted-ValueEnd :
    (bytes : Bytes) (offset minimum extra : ℕ)
    → Ensures (ValueEnd bytes offset) (skip_counted bytes offset minimum extra)
unfolding skip_counted
skip_counted-ValueEnd bytes offset minimum extra =
    Ensures-bind _ (ValueEnd bytes offset) (read_i32 bytes offset) _ (read_i32-Ensures bytes offset)
      λ v h.
        Ensures-if (ValueEnd bytes offset) (is_below v minimum) _ _ (λ _. tt)
          (λ _. end_within-ValueEnd bytes offset (extra + as_usize v))

skip_regex-ValueEnd :
    (bytes : Bytes) (offset : ℕ) → Ensures (ValueEnd bytes offset) (skip_regex bytes offset)
unfolding skip_regex
skip_regex-ValueEnd bytes offset =
    Ensures-bind (Ends bytes offset) (ValueEnd bytes offset) (read_cstring bytes offset) _
      (read_cstring-Ensures bytes offset)
      λ r h.
        Ensures-bind (Ends bytes r.1) (ValueEnd bytes offset) (read_cstring bytes r.1) _
          (read_cstring-Ensures bytes r.1) (λ s k. omega arith)

skip_variable-ValueEnd :
    (bytes : Bytes) (offset t : ℕ) → Ensures (ValueEnd bytes offset) (skip_variable bytes offset t)
unfolding skip_variable
skip_variable-ValueEnd bytes offset t = ground (
  arith,
  skip_counted-ValueEnd bytes offset 1 4,
  skip_counted-ValueEnd bytes offset 5 0,
  skip_counted-ValueEnd bytes offset 0 5,
  skip_counted-ValueEnd bytes offset 1 16,
  skip_regex-ValueEnd bytes offset,
)

skip_fixed_or-ValueEnd :
    (bytes : Bytes) (offset t : ℕ) (fixed : Option ℕ)
    → Ensures (ValueEnd bytes offset) (skip_fixed_or bytes offset t fixed)
unfolding skip_fixed_or
skip_fixed_or-ValueEnd bytes offset t (some n) = end_within-ValueEnd bytes offset n
skip_fixed_or-ValueEnd bytes offset t none = skip_variable-ValueEnd bytes offset t

-- A value that is skipped ends between its start and the end of the bytes, on every element type.
pub skip_value-ValueEnd :
    (bytes : Bytes) (offset t : ℕ) → Ensures (ValueEnd bytes offset) (skip_value bytes offset t)
unfolding skip_value
skip_value-ValueEnd bytes offset t = skip_fixed_or-ValueEnd bytes offset t (fixed_length t)

-- The call returns: it does not panic and does not run out of fuel.
abbrev pub Returns {ℓ} : {A : Type ℓ} → Decode A → Type 0
Returns m = Ensures (λ _. Unit {0}) m

-- A call that returns, in the form that a bind wants.
pub then_Returns {ℓ κ} :
    {A : Type ℓ} {B : Type κ} (m : Decode A) (f : A → Decode B)
    → Returns m
    → ((a : A) → Returns (f a))
    → Returns (m >>= f)
then_Returns m f h k = Ensures-bind (λ _. Unit {0}) (λ _. Unit {0}) m f h (λ a _. k a)

pub read_u32-Returns : (bytes : Bytes) (offset : ℕ) → Returns (read_u32 bytes offset)
read_u32-Returns bytes offset =
    Ensures-mono _ _ (read_u32 bytes offset) (λ _ _. tt) (read_u32-Ensures bytes offset)

pub read_i32-Returns : (bytes : Bytes) (offset : ℕ) → Returns (read_i32 bytes offset)
read_i32-Returns bytes offset =
    Ensures-mono _ _ (read_i32 bytes offset) (λ _ _. tt) (read_i32-Ensures bytes offset)

-- The last two reads of `read_bson_string`: the terminator, and the text in front of it.
read_terminated-Returns :
    (bytes : Bytes) (start end : ℕ)
    → start < end
    → end ≤ length bytes
    → Returns (
        index bytes (end - 1) >>= λ last.
        if not (last == 0)
        then err invalid_bson
        else (range bytes start (end - 1) >>= λ value.
            if is_utf8 value then ok value else err invalid_bson))
read_terminated-Returns bytes start end h k =
    Ensures-index (λ _. Unit {0}) bytes (end - 1) _ (omega arith)
      λ last.
        Ensures-if (λ _. Unit {0}) (not (last == 0)) _ _ (λ _. tt)
          λ _.
            Ensures-range (λ _. Unit {0}) bytes start (end - 1) _ (omega arith) (omega arith)
              λ value e. Ensures-if (λ _. Unit {0}) (is_utf8 value) _ _ (λ _. tt) (λ _. tt)

pub read_bson_string-Returns :
    (bytes : Bytes) (offset : ℕ) → Returns (read_bson_string bytes offset)
unfolding read_bson_string
read_bson_string-Returns bytes offset =
    Ensures-bind _ _ (read_i32 bytes offset) _ (read_i32-Ensures bytes offset) λ v h.
      Ensures-if (λ _. Unit {0}) (is_below v 1) _ _ (λ _. tt)
        λ positive.
          Ensures-bind (λ end. offset + 4 < end) _
            (ok_or (checked_add (offset + 4) (as_usize v)) invalid_bson) _
            (Ensures-ok_or _ (checked_add (offset + 4) (as_usize v)) invalid_bson
              (λ end e. ground arith))
            λ end k.
              Ensures-if (λ _. Unit {0}) (ltb (length bytes) end) _ _ (λ _. tt)
                (λ fits. read_terminated-Returns bytes (offset + 4) end k (ground arith))

pub read_bson_binary-Returns :
    (bytes : Bytes) (offset : ℕ) → Returns (read_bson_binary bytes offset)
unfolding read_bson_binary
read_bson_binary-Returns bytes offset = ground (arith, read_i32-Ensures bytes offset)

pub read_boolish-Returns : (bytes : Bytes) (offset t : ℕ) → Returns (read_boolish bytes offset t)
unfolding read_boolish
read_boolish-Returns bytes offset t = ground (arith, read_i32-Ensures bytes offset)

pub read_i32ish-Returns : (bytes : Bytes) (offset t : ℕ) → Returns (read_i32ish bytes offset t)
unfolding read_i32ish
read_i32ish-Returns bytes offset t = ground (arith, read_i32-Ensures bytes offset)

pub read_u64ish-Returns : (bytes : Bytes) (offset t : ℕ) → Returns (read_u64ish bytes offset t)
unfolding read_u64ish
read_u64ish-Returns bytes offset t = ground (arith, read_i32-Ensures bytes offset)
