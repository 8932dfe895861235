-- ===== src/Protocol/Json/Bounds.antt =====
-- The conversion to JSON returns on every input: no index is out of bounds, and the fuel is enough.
use mongodb_dam.Common.{
  ℕ, zero, suc, ◌+◌, ◌-◌, ◌≤◌, ◌<◌, arith, Bool, true, false, List, [], Bytes, length, ltb, slice,
  length-slice,
}
use mongodb_dam.Common.Outcome.{ok_or, ◌>>=◌, Ensures, Ensures-bind, Ensures-if, Ensures-range}
use mongodb_dam.Protocol.Types.{Decode, invalid_bson}
use mongodb_dam.Protocol.Libraries.{Libraries}
use mongodb_dam.Protocol.Read.{read_cstring, read_element, check_document}
use mongodb_dam.Protocol.Read.Bounds.{
  Ensures-ok_or, read_i32-Ensures, read_i64-Ensures, read_u64-Ensures, read_cstring-Ensures,
  read_element-Ensures, check_document-Ensures, ElementEnds,
}
use mongodb_dam.Protocol.Bson.{skip_value}
use mongodb_dam.Protocol.Bson.Bounds.{
  ValueEnd, skip_value-ValueEnd, Returns, read_bson_string-Returns, read_bson_binary-Returns,
}
use mongodb_dam.Protocol.Deletes.{document_end}
use mongodb_dam.Protocol.Deletes.Bounds.{DocumentEnd, document_end-Ensures}
use mongodb_dam.Protocol.Json.{
  binary_to_json, regex_to_json, pointer_to_json, value_to_json, bson_value_to_json,
  collect_elements, bson_container_to_json, bson_document_to_json, sequence_to_json,
  bson_document_sequence_to_json,
}

module _ (L : Libraries) where
  binary_to_json-Returns : (bytes : Bytes) (offset : ℕ) → Returns (binary_to_json L bytes offset)
  unfolding binary_to_json
  binary_to_json-Returns bytes offset = ground (arith, read_bson_binary-Returns bytes offset)

  regex_to_json-Returns : (bytes : Bytes) (offset : ℕ) → Returns (regex_to_json L bytes offset)
  unfolding regex_to_json
  regex_to_json-Returns bytes offset =
      Ensures-bind _ _ (read_cstring bytes offset) _ (read_cstring-Ensures bytes offset) λ r _.
        Ensures-bind _ _ (read_cstring bytes r.1) _ (read_cstring-Ensures bytes r.1) (λ _ _. tt)

  pointer_to_json-Returns :
      (bytes : Bytes) (offset end : ℕ) → Returns (pointer_to_json L bytes offset end)
  unfolding pointer_to_json
  pointer_to_json-Returns bytes offset end =
      ground (arith, read_bson_string-Returns bytes offset, read_i32-Ensures bytes offset)

  module _ (nested : Bytes → Bool → Decode L.Value) (bytes : Bytes)
      (shorter : (inner : Bytes) (a : Bool)
        → length inner < length bytes
        → Returns (nested inner a)) where
    nested-Returns :
        (offset end : ℕ) (a : Bool)
        → 0 < offset
        → Returns (ok_or (slice bytes offset end) invalid_bson >>= λ inner. nested inner a)
    nested-Returns offset end a h =
        Ensures-bind (λ inner. length inner < length bytes) _
          (ok_or (slice bytes offset end) invalid_bson) _
          (Ensures-ok_or _ (slice bytes offset end) invalid_bson
            (λ inner e. let (p, q, r) = length-slice bytes offset end e in omega arith))
          (λ inner k. shorter inner a k)

    value_to_json-Returns :
        (offset t end : ℕ) → 0 < offset → Returns (value_to_json L nested bytes offset t end)
    unfolding value_to_json
    value_to_json-Returns offset t end h = ground (
      arith,
      nested-Returns offset end false,
      nested-Returns offset end true,
      binary_to_json-Returns bytes offset,
      regex_to_json-Returns bytes offset,
      pointer_to_json-Returns bytes offset end,
      read_bson_string-Returns bytes offset,
      read_i32-Ensures bytes offset,
      read_i64-Ensures bytes offset,
      read_u64-Ensures bytes offset,
    )

    bson_value_to_json-Ensures :
        (offset t : ℕ)
        → 0 < offset
        → Ensures (λ r. ValueEnd bytes offset r.1) (bson_value_to_json L nested bytes offset t)
    unfolding bson_value_to_json
    bson_value_to_json-Ensures offset t h =
        Ensures-bind (ValueEnd bytes offset) _ (skip_value bytes offset t) _
          (skip_value-ValueEnd bytes offset t)
          λ end k.
            Ensures-bind (λ _. Unit {0}) _ (value_to_json L nested bytes offset t end) _
              (value_to_json-Returns offset t end h) (λ _ _. k)

    collect_elements-Returns :
        (fuel : ℕ) (is_array : Bool) (fields : L.Map) (values : List L.Value) (offset : ℕ)
        → length bytes ≤ fuel + offset
        → 0 < fuel
        → Returns (collect_elements L nested fuel bytes is_array fields values offset)
    unfolding collect_elements
    collect_elements-Returns zero is_array fields values offset h p = absurd (omega arith)
    collect_elements-Returns (suc fuel) is_array fields values offset h p =
        Ensures-if (λ _. Unit {0}) (ltb offset (length bytes - 1)) _ _
          (λ inside.
            let below : offset < length bytes - 1 = ground arith in
            Ensures-bind (ElementEnds bytes offset) _ (read_element bytes offset) _
              (read_element-Ensures bytes offset (omega arith))
              λ e he.
                Ensures-bind (λ r. ValueEnd bytes e.value_start r.1) _
                  (bson_value_to_json L nested bytes e.value_start e.kind) _
                  (bson_value_to_json-Ensures e.value_start e.kind (omega arith))
                  λ r hr.
                    Ensures-if (λ _. Unit {0}) (ltb (length bytes - 1) r.1) _ _ (λ _. tt)
                      (λ _.
                        collect_elements-Returns fuel is_array _ _ r.1 (omega arith) (omega arith)))
          (λ _. tt)

  bson_container_to_json-Returns :
      (fuel : ℕ) (document : Bytes) (is_array : Bool)
      → length document < fuel
      → Returns (bson_container_to_json L fuel document is_array)
  unfolding bson_container_to_json
  bson_container_to_json-Returns zero document is_array h = absurd (omega arith)
  bson_container_to_json-Returns (suc fuel) document is_array h =
      Ensures-bind (λ _. 5 ≤ length document) _ (check_document document) _
        (check_document-Ensures document)
        λ _ long.
          collect_elements-Returns (λ inner a. bson_container_to_json L fuel inner a) document
            (λ inner a k. bson_container_to_json-Returns fuel inner a (omega arith))
            (length document) is_array L.empty_map [] 4 (omega arith) (omega arith)

  -- The conversion of a document to JSON ends with `Ok` or `Err`, whatever its bytes are: it does not
  -- panic, and the documents and arrays in it are walked to their end.
  pub bson_document_to_json-Returns :
      (document : Bytes) → Returns (bson_document_to_json L document)
  unfolding bson_document_to_json
  bson_document_to_json-Returns document =
      bson_container_to_json-Returns (suc (length document)) document false (omega arith)

  sequence_to_json-Returns :
      (fuel : ℕ) (documents : Bytes) (result : List L.Value) (offset : ℕ)
      → length documents < fuel + offset
      → offset ≤ length documents
      → Returns (sequence_to_json L fuel documents result offset)
  unfolding sequence_to_json
  sequence_to_json-Returns zero documents result offset h p = absurd (omega arith)
  sequence_to_json-Returns (suc fuel) documents result offset h p =
      Ensures-if (λ _. Unit {0}) (ltb offset (length documents)) _ _
        (λ _.
          Ensures-bind (DocumentEnd documents offset) _ (document_end documents offset) _
            (document_end-Ensures documents offset)
            λ end he.
              Ensures-range (λ _. Unit {0}) documents offset end _ (omega arith) (omega arith)
                λ document _.
                  Ensures-bind (λ _. Unit {0}) _ (bson_document_to_json L document) _
                    (bson_document_to_json-Returns document)
                    (λ value _.
                      sequence_to_json-Returns fuel documents _ end (omega arith) (omega arith)))
        (λ _. tt)

  pub bson_document_sequence_to_json-Returns :
      (documents : Bytes) → Returns (bson_document_sequence_to_json L documents)
  unfolding bson_document_sequence_to_json
  bson_document_sequence_to_json-Returns documents =
      sequence_to_json-Returns (suc (length documents)) documents [] 0 (omega arith) (omega arith)
