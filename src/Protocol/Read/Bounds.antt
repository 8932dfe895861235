-- ===== src/Protocol/Read/Bounds.antt =====
-- What the readers return lies within the bytes that they are given, and they never panic.
use mongodb_dam.Common.{
  not, ◌||◌, ◌==◌, ℕ, ◌+◌, ◌-◌, ◌≤◌, ◌<◌, ◌≡◌, arith, Option, none, some, Bytes, ltb, length, slice,
  slice_from, length-slice, length-drop, position_nul, position_nul-lt, is_utf8, refl,
}
use mongodb_dam.Common.Int.{as_usize}
use mongodb_dam.Common.Outcome.{
  ok, err, ◌>>=◌, ok_or, Ensures, Ensures-bind, Ensures-if, Ensures-index, Ensures-range,
}
use mongodb_dam.Protocol.Types.{DecodeError, invalid_bson}
use mongodb_dam.Protocol.Read.{
  read_i32, read_u32, read_i64, read_u64, read_cstring, Element, read_element, check_document,
  end_within, ends_with_nul,
}

pub Ensures-ok_or {ℓ} :
    {A : Type ℓ} (P : A → Type 0) (o : Option A) (e : DecodeError)
    → ((a : A) → o ≡ some a → P a)
    → Ensures P (ok_or o e)
Ensures-ok_or P (some a) e h = h a refl
Ensures-ok_or P none e h = tt

-- The four integer readers share this: a slice of fixed width, and a function of its bytes.
read_fixed-Ensures {ℓ} :
    {A : Type ℓ} (width : ℕ) (bytes : Bytes) (offset : ℕ) (e : DecodeError) (f : Bytes → A)
    → Ensures
        (λ _. offset + width ≤ length bytes)
        (ok_or (slice bytes offset (offset + width)) e >>= λ b. ok (f b))
read_fixed-Ensures width bytes offset e f =
    Ensures-bind (λ _. offset + width ≤ length bytes) (λ _. offset + width ≤ length bytes)
      (ok_or (slice bytes offset (offset + width)) e) _
      (Ensures-ok_or _ (slice bytes offset (offset + width)) e
        (λ a p. (length-slice bytes offset (offset + width) p).1))
      (λ a h. h)

pub read_u32-Ensures :
    (bytes : Bytes) (offset : ℕ) → Ensures (λ _. offset + 4 ≤ length bytes) (read_u32 bytes offset)
unfolding read_u32
read_u32-Ensures bytes offset = read_fixed-Ensures 4 bytes offset _ _

pub read_i32-Ensures :
    (bytes : Bytes) (offset : ℕ) → Ensures (λ _. offset + 4 ≤ length bytes) (read_i32 bytes offset)
unfolding read_i32
read_i32-Ensures bytes offset = read_fixed-Ensures 4 bytes offset _ _

pub read_u64-Ensures :
    (bytes : Bytes) (offset : ℕ) → Ensures (λ _. offset + 8 ≤ length bytes) (read_u64 bytes offset)
unfolding read_u64
read_u64-Ensures bytes offset = read_fixed-Ensures 8 bytes offset _ _

pub read_i64-Ensures :
    (bytes : Bytes) (offset : ℕ) → Ensures (λ _. offset + 8 ≤ length bytes) (read_i64 bytes offset)
unfolding read_i64
read_i64-Ensures bytes offset = read_fixed-Ensures 8 bytes offset _ _

abbrev pub Ends : Bytes → ℕ → Bytes × ℕ → Type 0
Ends bytes offset r = (offset < r.1) × (r.1 ≤ length bytes)

pub read_cstring-Ensures :
    (bytes : Bytes) (offset : ℕ) → Ensures (Ends bytes offset) (read_cstring bytes offset)
unfolding read_cstring
read_cstring-Ensures bytes offset =
    Ensures-bind (λ rest. (offset ≤ length bytes) × (length rest ≡ length bytes - offset)) _
      (ok_or (slice_from bytes offset) invalid_bson) _
      (Ensures-ok_or _ (slice_from bytes offset) invalid_bson
        (λ rest e. ground (arith, length-drop offset bytes)))
      λ rest h.
        Ensures-bind (λ n. n < length rest) _ (ok_or (position_nul rest) invalid_bson) _
          (Ensures-ok_or _ (position_nul rest) invalid_bson (position_nul-lt rest))
          λ n hn.
            Ensures-range (Ends bytes offset) bytes offset (offset + n) _ (omega arith)
              (omega arith)
              λ value e.
                Ensures-if (Ends bytes offset) (is_utf8 value) _ _ (λ _. omega arith) (λ _. tt)

abbrev pub ElementEnds : Bytes → ℕ → Element → Type 0
ElementEnds bytes offset e = (offset + 1 < e.value_start) × (e.value_start ≤ length bytes)

pub read_element-Ensures :
    (bytes : Bytes) (offset : ℕ)
    → offset < length bytes
    → Ensures (ElementEnds bytes offset) (read_element bytes offset)
unfolding read_element
read_element-Ensures bytes offset h =
    Ensures-index (ElementEnds bytes offset) bytes offset _ h λ kind.
      Ensures-bind (Ends bytes (offset + 1)) (ElementEnds bytes offset)
        (read_cstring bytes (offset + 1)) _ (read_cstring-Ensures bytes (offset + 1)) (λ r e. e)

pub check_document-Ensures :
    (document : Bytes) → Ensures (λ _. 5 ≤ length document) (check_document document)
unfolding check_document
check_document-Ensures document =
    Ensures-if (λ _. 5 ≤ length document) (ltb (length document) 5) _ _ (λ _. tt)
      λ long.
        let five : 5 ≤ length document = ground arith in
        Ensures-bind (λ _. 0 + 4 ≤ length document) (λ _. 5 ≤ length document) (read_i32 document 0)
          _ (read_i32-Ensures document 0)
          (λ declared h.
            Ensures-if {E = DecodeError} {A = Unit {0}} (λ _. 5 ≤ length document)
              (not (as_usize declared == length document) || not (ends_with_nul document))
              (err invalid_bson) (ok tt) (λ _. tt) (λ _. five))

pub end_within-Ensures :
    (bytes : Bytes) (offset n : ℕ)
    → Ensures (λ end. (end ≡ offset + n) × (end ≤ length bytes)) (end_within bytes offset n)
unfolding end_within
end_within-Ensures bytes offset n = ground arith
