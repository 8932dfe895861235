-- ===== src/Protocol/Deletes/Bounds.antt =====
-- The delete walks return on every input: no index is out of bounds and the fuel is enough.
use mongodb_dam.Common.{
  ℕ, zero, suc, ◌≤◌, ◌<◌, ◌+◌, ◌-◌, ◌==◌, Bytes, length, ltb, arith, bytes_eq, codes, slice,
}
use mongodb_dam.Common.Int.{as_usize, is_below, as_usize-le}
use mongodb_dam.Common.Outcome.{
  ok_or, Ensures, Ensures-bind, Ensures-if, Ensures-range, Ensures-mono,
}
use mongodb_dam.Protocol.Types.{invalid_bson}
use mongodb_dam.Protocol.Read.{read_i32, read_element, check_document, end_within}
use mongodb_dam.Protocol.Read.Bounds.{
  Ensures-ok_or, read_i32-Ensures, read_element-Ensures, check_document-Ensures, end_within-Ensures,
  ElementEnds,
}
use mongodb_dam.Protocol.Bson.{skip_value}
use mongodb_dam.Protocol.Bson.Bounds.{ValueEnd, skip_value-ValueEnd, Returns, read_i32ish-Returns}
use mongodb_dam.Protocol.Deletes.{
  find_limit, delete_statement_limit, Tally, no_deletes, add_statement, tally_array,
  summarize_delete_statements, document_end, tally_sequence, summarize_delete_document_sequence,
}

find_limit-Returns :
    (fuel : ℕ) (statement : Bytes) (offset : ℕ)
    → length statement ≤ fuel + offset
    → 0 < fuel
    → Returns (find_limit fuel statement offset)
unfolding find_limit
find_limit-Returns zero statement offset h p = absurd (omega arith)
find_limit-Returns (suc fuel) statement offset h p =
    Ensures-if (λ _. Unit {0}) (ltb offset (length statement - 1)) _ _
      (λ inside.
        let below : offset < length statement - 1 = ground arith in
        Ensures-bind (ElementEnds statement offset) _ (read_element statement offset) _
          (read_element-Ensures statement offset (omega arith))
          λ e he.
            Ensures-bind (ValueEnd statement e.value_start) _
              (skip_value statement e.value_start e.kind) _
              (skip_value-ValueEnd statement e.value_start e.kind)
              λ next hn.
                Ensures-if (λ _. Unit {0}) (bytes_eq e.key (codes "limit")) _ _
                  (λ _. read_i32ish-Returns statement e.value_start e.kind)
                  (λ _. find_limit-Returns fuel statement next (omega arith) (omega arith)))
      (λ _. tt)

pub delete_statement_limit-Returns :
    (statement : Bytes) → Returns (delete_statement_limit statement)
unfolding delete_statement_limit
delete_statement_limit-Returns statement =
    Ensures-bind (λ _. 5 ≤ length statement) _ (check_document statement) _
      (check_document-Ensures statement)
      (λ _ h. find_limit-Returns (length statement) statement 4 (omega arith) (omega arith))

tally_array-Returns :
    (fuel : ℕ) (array : Bytes) (tally : Tally) (offset : ℕ)
    → length array ≤ fuel + offset
    → 0 < fuel
    → Returns (tally_array fuel array tally offset)
unfolding tally_array
tally_array-Returns zero array tally offset h p = absurd (omega arith)
tally_array-Returns (suc fuel) array tally offset h p =
    Ensures-if (λ _. Unit {0}) (ltb offset (length array - 1)) _ _
      (λ inside.
        let below : offset < length array - 1 = ground arith in
        Ensures-bind (ElementEnds array offset) _ (read_element array offset) _
          (read_element-Ensures array offset (omega arith))
          λ e he.
            Ensures-bind (ValueEnd array e.value_start) _ (skip_value array e.value_start e.kind) _
              (skip_value-ValueEnd array e.value_start e.kind)
              λ next hn.
                Ensures-if (λ _. Unit {0}) (e.kind == 0x03) _ _
                  (λ _.
                    Ensures-bind (λ _. Unit {0}) _
                      (ok_or (slice array e.value_start next) invalid_bson) _
                      (Ensures-ok_or _ (slice array e.value_start next) invalid_bson (λ _ _. tt))
                      λ statement _.
                        Ensures-bind (λ _. Unit {0}) _ (delete_statement_limit statement) _
                          (delete_statement_limit-Returns statement)
                          (λ limit _.
                            tally_array-Returns fuel array (add_statement tally limit) next
                              (omega arith) (omega arith)))
                  (λ _. tally_array-Returns fuel array tally next (omega arith) (omega arith)))
      (λ _. tt)

-- The walk over an array of delete statements ends with `Ok` or `Err`, whatever its bytes are.
pub summarize_delete_statements-Returns :
    (array : Bytes) → Returns (summarize_delete_statements array)
unfolding summarize_delete_statements
summarize_delete_statements-Returns array =
    Ensures-bind (λ _. 5 ≤ length array) _ (check_document array) _ (check_document-Ensures array)
      λ _ h.
        Ensures-bind (λ _. Unit {0}) _ (tally_array (length array) array no_deletes 4) _
          (tally_array-Returns (length array) array no_deletes 4 (omega arith) (omega arith))
          (λ _ _. tt)

abbrev pub DocumentEnd : Bytes → ℕ → ℕ → Type 0
DocumentEnd documents offset end = (offset + 5 ≤ end) × (end ≤ length documents)

pub document_end-Ensures :
    (documents : Bytes) (offset : ℕ)
    → Ensures (DocumentEnd documents offset) (document_end documents offset)
unfolding document_end
document_end-Ensures documents offset =
    Ensures-bind _ (DocumentEnd documents offset) (read_i32 documents offset) _
      (read_i32-Ensures documents offset)
      λ v h.
        Ensures-if (DocumentEnd documents offset) (is_below v 5) _ _ (λ _. tt)
          λ long.
            Ensures-mono _ (DocumentEnd documents offset) (end_within documents offset (as_usize v))
              (λ end k. omega (arith, as_usize-le 5 v long))
              (end_within-Ensures documents offset (as_usize v))

tally_sequence-Returns :
    (fuel : ℕ) (documents : Bytes) (tally : Tally) (offset : ℕ)
    → length documents < fuel + offset
    → offset ≤ length documents
    → Returns (tally_sequence fuel documents tally offset)
unfolding tally_sequence
tally_sequence-Returns zero documents tally offset h p = absurd (omega arith)
tally_sequence-Returns (suc fuel) documents tally offset h p =
    Ensures-if (λ _. Unit {0}) (ltb offset (length documents)) _ _
      (λ _.
        Ensures-bind (DocumentEnd documents offset) _ (document_end documents offset) _
          (document_end-Ensures documents offset)
          λ end he.
            Ensures-range (λ _. Unit {0}) documents offset end _ (omega arith) (omega arith)
              λ statement _.
                Ensures-bind (λ _. Unit {0}) _ (delete_statement_limit statement) _
                  (delete_statement_limit-Returns statement)
                  (λ limit _.
                    tally_sequence-Returns fuel documents (add_statement tally limit) end
                      (omega arith) (omega arith)))
      (λ _. tt)

pub summarize_delete_document_sequence-Returns :
    (documents : Bytes) → Returns (summarize_delete_document_sequence documents)
unfolding summarize_delete_document_sequence
summarize_delete_document_sequence-Returns documents =
    Ensures-bind (λ _. Unit {0}) _ (tally_sequence (suc (length documents)) documents no_deletes 0)
      _
      (tally_sequence-Returns (suc (length documents)) documents no_deletes 0 (omega arith)
        (omega arith))
      (λ _ _. tt)
