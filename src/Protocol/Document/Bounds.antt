-- ===== src/Protocol/Document/Bounds.antt =====
-- The summary walks return on every input: no index is out of bounds, and the fuel is enough.
use mongodb_dam.Common.{
  ℕ, zero, suc, ◌+◌, ◌-◌, ◌≤◌, ◌<◌, ◌≡◌, ◌==◌, ◌&&◌, arith, Bool, true, false, Option, none, some,
  Bytes, codes, length, ltb, leb, min, slice, bytes_eq, Option-cases, inl, inr, leb→le,
}
use mongodb_dam.Common.Int.{as_usize, is_below}
use mongodb_dam.Common.Outcome.{
  ok, ok?, ok_or, ◌>>=◌, Ensures-bind, Ensures-if, Ensures-range, Ensures-ok?, Ensures-ok?_some,
  Ensures-mono, OnSome,
}
use mongodb_dam.Protocol.Types.{Decode, invalid_bson}
use mongodb_dam.Protocol.Libraries.{Libraries}
use mongodb_dam.Protocol.Read.{Element, read_i32, read_element, check_document}
use mongodb_dam.Protocol.Read.Bounds.{
  Ensures-ok_or, read_i32-Ensures, read_element-Ensures, check_document-Ensures, ElementEnds,
}
use mongodb_dam.Protocol.Bson.{
  skip_value, read_bson_string, read_bson_binary, read_boolish, read_i32ish, read_u64ish,
}
use mongodb_dam.Protocol.Bson.Bounds.{
  ValueEnd, skip_value-ValueEnd, Returns, read_bson_string-Returns, read_bson_binary-Returns,
  read_boolish-Returns, read_i32ish-Returns, read_u64ish-Returns,
}
use mongodb_dam.Protocol.Deletes.{summarize_delete_statements}
use mongodb_dam.Protocol.Deletes.Bounds.{summarize_delete_statements-Returns}
use mongodb_dam.Protocol.Json.{bson_document_to_json}
use mongodb_dam.Protocol.Json.Bounds.{bson_document_to_json-Returns}
use mongodb_dam.Protocol.Summary.{BsonSummary, default_summary, captures_query}
use mongodb_dam.Protocol.Summary.Fields.{note_first, note_field}
use mongodb_dam.Protocol.Document.{
  Summary, Nested, nested_summary, speculative_arm, deletes_arm, note_element, scan_document,
  add_query, summarize_with, summarize_bson_inner, summarize_bson, prefix_value, prefix_deletes,
  note_prefix_element, continue_at, walk_on, note_cut, scan_prefix, require_first, summarize_cut,
  summarize_bson_prefix,
}

note_first-Returns :
    {V : Type 0} (document : Bytes) (ordinal : ℕ) (e : Element) (s : BsonSummary V)
    → Returns (note_first document ordinal e s)
unfolding note_first
note_first-Returns document ordinal e s =
    ground (arith, read_bson_string-Returns document e.value_start)

-- A field that is read and stored.
stored {ℓ κ} :
    {A : Type ℓ} {B : Type κ} (m : Decode A) (f : A → B) → Returns m → Returns (m >>= λ a. ok (f a))
stored m f h = Ensures-bind (λ _. Unit {0}) (λ _. Unit {0}) m _ h (λ _ _. tt)

note_field-Returns :
    {V : Type 0} (document : Bytes) (e : Element) (s : BsonSummary V)
    → Returns (note_field document e s)
unfolding note_field
note_field-Returns document e s =
    let text_read =
      Ensures-ok? (λ _. Unit {0}) (read_bson_string document e.value_start)
        (read_bson_string-Returns document e.value_start) in
    Ensures-if (λ _. Unit {0}) (bytes_eq e.key (codes "$db") && e.kind == 0x02) _ _
      (λ _. stored (ok? (read_bson_string document e.value_start)) _ text_read)
      (λ _.
        Ensures-if (λ _. Unit {0}) (bytes_eq e.key (codes "collection") && e.kind == 0x02) _ _
          (λ _. stored (ok? (read_bson_string document e.value_start)) _ text_read)
          (λ _.
            Ensures-if (λ _. Unit {0}) (bytes_eq e.key (codes "ok")) _ _
              (λ _.
                stored (read_boolish document e.value_start e.kind) _
                  (read_boolish-Returns document e.value_start e.kind))
              (λ _.
                Ensures-if (λ _. Unit {0}) (bytes_eq e.key (codes "code")) _ _
                  (λ _.
                    stored (read_i32ish document e.value_start e.kind) _
                      (read_i32ish-Returns document e.value_start e.kind))
                  (λ _.
                    Ensures-if (λ _. Unit {0}) (bytes_eq e.key (codes "n")) _ _
                      (λ _.
                        stored (read_u64ish document e.value_start e.kind) _
                          (read_u64ish-Returns document e.value_start e.kind))
                      (λ _.
                        Ensures-if (λ _. Unit {0}) (bytes_eq e.key (codes "done")) _ _
                          (λ _.
                            stored (read_boolish document e.value_start e.kind) _
                              (read_boolish-Returns document e.value_start e.kind))
                          (λ _.
                            Ensures-if (λ _. Unit {0})
                              (bytes_eq e.key (codes "codeName") && e.kind == 0x02) _ _
                              (λ _.
                                stored (ok? (read_bson_string document e.value_start)) _ text_read)
                              (λ _.
                                Ensures-if (λ _. Unit {0})
                                  (bytes_eq e.key (codes "mechanism") && e.kind == 0x02) _ _
                                  (λ _.
                                    stored (ok? (read_bson_string document e.value_start)) _
                                      text_read)
                                  (λ _.
                                    Ensures-if (λ _. Unit {0})
                                      (bytes_eq e.key (codes "user") && e.kind == 0x02) _ _
                                      (λ _.
                                        stored (ok? (read_bson_string document e.value_start)) _
                                          text_read)
                                      (λ _.
                                        Ensures-if (λ _. Unit {0})
                                          (bytes_eq e.key (codes "payload") && e.kind == 0x05) _ _
                                          (λ _.
                                            stored (ok? (read_bson_binary document e.value_start)) _
                                              (Ensures-ok? (λ _. Unit {0})
                                                (read_bson_binary document e.value_start)
                                                (read_bson_binary-Returns document e.value_start)))
                                          (λ _. tt))))))))))

module _ (L : Libraries) where
  NestedReturns : Nested L → Type 0
  NestedReturns none = Unit
  NestedReturns (some f) = (document : Bytes) → Returns (f document)

  nested_summary-Returns :
      (f : Bytes → Decode (Summary L))
      → ((document : Bytes) → Returns (f document))
      → (value : Option Bytes) → Returns (nested_summary L f value)
  unfolding nested_summary
  nested_summary-Returns f h none = tt
  nested_summary-Returns f h (some value) = Ensures-ok? (λ _. Unit {0}) (f value) (h value)

  speculative_arm-Returns :
      (nested : Nested L) (document : Bytes) (start next : ℕ) (s : Summary L)
      → NestedReturns nested
      → Returns (speculative_arm L nested document start next s)
  unfolding speculative_arm NestedReturns
  speculative_arm-Returns none document start next s h = tt
  speculative_arm-Returns (some f) document start next s h =
      Ensures-bind (λ _. Unit {0}) _ (nested_summary L f (slice document start next)) _
        (nested_summary-Returns f h (slice document start next)) (λ _ _. tt)

  deletes_arm-Returns : (value : Bytes) (s : Summary L) → Returns (deletes_arm L value s)
  unfolding deletes_arm
  deletes_arm-Returns value s =
      Ensures-bind (λ _. Unit {0}) _ (ok? (summarize_delete_statements value)) _
        (Ensures-ok? (λ _. Unit {0}) (summarize_delete_statements value)
          (summarize_delete_statements-Returns value))
        (λ _ _. tt)

  note_element-Returns :
      (nested : Nested L) (document : Bytes) (e : Element) (next : ℕ) (s : Summary L)
      → NestedReturns nested
      → Returns (note_element L nested document e next s)
  unfolding note_element
  note_element-Returns nested document e next s h =
      Ensures-if (λ _. Unit {0})
        (bytes_eq e.key (codes "speculativeAuthenticate") && e.kind == 0x03) _ _
        (λ _. speculative_arm-Returns nested document e.value_start next s h)
        (λ _.
          Ensures-if (λ _. Unit {0}) (bytes_eq e.key (codes "deletes") && e.kind == 0x04) _ _
            (λ _.
              Ensures-bind (λ _. Unit {0}) _
                (ok_or (slice document e.value_start next) invalid_bson) _
                (Ensures-ok_or _ (slice document e.value_start next) invalid_bson (λ _ _. tt))
                (λ value _. deletes_arm-Returns value s))
            (λ _. note_field-Returns document e s))

  scan_document-Returns :
      (nested : Nested L) (fuel : ℕ) (document : Bytes) (offset ordinal : ℕ) (s : Summary L)
      → NestedReturns nested
      → length document ≤ fuel + offset
      → 0 < fuel
      → Returns (scan_document L nested fuel document offset ordinal s)
  unfolding scan_document
  scan_document-Returns nested zero document offset ordinal s n h p = absurd (omega arith)
  scan_document-Returns nested (suc fuel) document offset ordinal s n h p =
      Ensures-if (λ _. Unit {0}) (ltb offset (length document - 1)) _ _
        (λ inside.
          let below : offset < length document - 1 = ground arith in
          Ensures-bind (ElementEnds document offset) _ (read_element document offset) _
            (read_element-Ensures document offset (omega arith))
            λ e he.
              Ensures-bind (ValueEnd document e.value_start) _
                (skip_value document e.value_start e.kind) _
                (skip_value-ValueEnd document e.value_start e.kind)
                λ next hn.
                  Ensures-if (λ _. Unit {0}) (ltb (length document - 1) next) _ _ (λ _. tt)
                    λ _.
                      Ensures-bind (λ _. Unit {0}) _ (note_first document ordinal e s) _
                        (note_first-Returns document ordinal e s)
                        λ first _.
                          Ensures-bind (λ _. Unit {0}) _
                            (note_element L nested document e next first) _
                            (note_element-Returns nested document e next first n)
                            (λ noted _.
                              scan_document-Returns nested fuel document next (ordinal + 1) noted n
                                (omega arith) (omega arith)))
        (λ _. tt)

  add_query-Returns : (document : Bytes) (s : Summary L) → Returns (add_query L document s)
  unfolding add_query
  add_query-Returns document s =
      Ensures-if (λ _. Unit {0}) (captures_query s.first_key) _ _
        (λ _.
          Ensures-bind (λ _. Unit {0}) _ (ok? (bson_document_to_json L document)) _
            (Ensures-ok? (λ _. Unit {0}) (bson_document_to_json L document)
              (bson_document_to_json-Returns L document))
            (λ _ _. tt))
        (λ _. tt)

  summarize_with-Returns :
      (nested : Nested L) (document : Bytes)
      → NestedReturns nested
      → Returns (summarize_with L nested document)
  unfolding summarize_with
  summarize_with-Returns nested document n =
      Ensures-bind (λ _. 5 ≤ length document) _ (check_document document) _
        (check_document-Ensures document)
        λ _ long.
          Ensures-bind (λ _. Unit {0}) _
            (scan_document L nested (length document) document 4 0 default_summary) _
            (scan_document-Returns nested (length document) document 4 0 default_summary n
              (omega arith) (omega arith))
            (λ s _. add_query-Returns document s)

  pub summarize_bson_inner-Returns :
      (document : Bytes) (allow : Bool) → Returns (summarize_bson_inner L document allow)
  unfolding summarize_bson_inner NestedReturns
  summarize_bson_inner-Returns document false = summarize_with-Returns none document tt
  summarize_bson_inner-Returns document true =
      summarize_with-Returns (some (summarize_with L none)) document
        (λ inner. summarize_with-Returns none inner tt)

  -- Summarising a document ends with `Ok` or `Err`, whatever its bytes are.
  pub summarize_bson-Returns : (document : Bytes) → Returns (summarize_bson L document)
  unfolding summarize_bson
  summarize_bson-Returns document = summarize_bson_inner-Returns document true

  prefix_deletes-Returns :
      (value : Option Bytes) (s : Summary L) → Returns (prefix_deletes L value s)
  unfolding prefix_deletes
  prefix_deletes-Returns none s = tt
  prefix_deletes-Returns (some value) s = deletes_arm-Returns value s

  note_prefix_element-Returns :
      (document : Bytes) (e : Element) (next : Option ℕ) (s : Summary L)
      → Returns (note_prefix_element L document e next s)
  unfolding note_prefix_element NestedReturns
  note_prefix_element-Returns document e next s =
      Ensures-if (λ _. Unit {0})
        (bytes_eq e.key (codes "speculativeAuthenticate") && e.kind == 0x03) _ _
        (λ _.
          Ensures-bind (λ _. Unit {0}) _
            (nested_summary L (summarize_with L none) (prefix_value L document e.value_start next))
            _
            (nested_summary-Returns (summarize_with L none)
              (λ inner. summarize_with-Returns none inner tt)
              (prefix_value L document e.value_start next))
            (λ _ _. tt))
        (λ _.
          Ensures-if (λ _. Unit {0}) (bytes_eq e.key (codes "deletes") && e.kind == 0x04) _ _
            (λ _. prefix_deletes-Returns (prefix_value L document e.value_start next) s)
            (λ _. note_field-Returns document e s))

  continue_at-lt :
      (start end : ℕ) (o : Option ℕ) (next : ℕ)
      → continue_at L start end o ≡ some next
      → (start < next) × (next ≤ end)
  unfolding continue_at
  continue_at-lt start end o next h = ground arith

  module _ (document : Bytes) (end : ℕ) (within : end ≤ length document) where
    walk_on-Returns :
        (again : ℕ → Summary L → Decode (Summary L)) (start : ℕ) (noted : Summary L)
        (next : Option ℕ)
        → ((n : ℕ) (s : Summary L) → start < n → n ≤ end → Returns (again n s))
        → Returns (walk_on L again noted (continue_at L start end next))
    unfolding walk_on
    walk_on-Returns again start noted next h = elim (Option-cases (continue_at L start end next)) [
      | inl e ↦ rw e tt
      | inr (n, e) ↦ let (p, q) = continue_at-lt start end next n e in rw e (h n noted p q)
    ]

    note_cut-Returns :
        (again : ℕ → Summary L → Decode (Summary L)) (offset ordinal : ℕ) (s : Summary L)
        (e : Option Element)
        → OnSome (ElementEnds document offset) e
        → ((n : ℕ) (t : Summary L) → offset + 2 < n → n ≤ end → Returns (again n t))
        → Returns (note_cut L again document end ordinal s e)
    unfolding note_cut
    note_cut-Returns again offset ordinal s none k h = tt
    note_cut-Returns again offset ordinal s (some e) k h =
        Ensures-bind (λ _. Unit {0}) _ (ok? (skip_value document e.value_start e.kind)) _
          (Ensures-ok? _ (skip_value document e.value_start e.kind)
            (skip_value-ValueEnd document e.value_start e.kind))
          λ next _.
            Ensures-bind (λ _. Unit {0}) _ (note_first document ordinal e s) _
              (note_first-Returns document ordinal e s)
              λ first _.
                Ensures-bind (λ _. Unit {0}) _ (note_prefix_element L document e next first) _
                  (note_prefix_element-Returns document e next first)
                  (λ noted _.
                    walk_on-Returns again e.value_start noted next
                      (λ n t p q. h n t (omega arith) q))

    scan_prefix-Returns :
        (fuel offset ordinal : ℕ) (s : Summary L)
        → length document ≤ fuel + offset
        → 0 < fuel
        → Returns (scan_prefix L fuel document end offset ordinal s)
    unfolding scan_prefix
    scan_prefix-Returns zero offset ordinal s h p = absurd (omega arith)
    scan_prefix-Returns (suc fuel) offset ordinal s h p =
        Ensures-if (λ _. Unit {0}) (ltb offset end) _ _
          (λ inside.
            let below : offset < end = ground arith in
            Ensures-bind (OnSome (ElementEnds document offset)) _
              (ok? (read_element document offset)) _
              (Ensures-ok?_some _ (read_element document offset)
                (read_element-Ensures document offset (omega arith)))
              (λ e he. note_cut-Returns _ offset ordinal s e he (λ n t p q.
                scan_prefix-Returns fuel n (ordinal + 1) t (omega arith) (omega arith))))
          (λ _. tt)

  require_first-Returns : (s : Summary L) → Returns (require_first L s)
  unfolding require_first
  require_first-Returns s = ground arith

  summarize_cut-Returns :
      (document : Bytes) (declared : ℕ)
      → 5 ≤ length document
      → Returns (summarize_cut L document declared)
  unfolding summarize_cut
  summarize_cut-Returns document declared h =
      let end = min (length document) (declared - 1) in
      Ensures-bind (λ _. Unit {0}) _
        (scan_prefix L (length document) document end 4 0 default_summary) _
        (scan_prefix-Returns document end (omega arith) (length document) 4 0 default_summary
          (omega arith) (omega arith))
        (λ s _. require_first-Returns s)

  -- Summarising the first bytes of a document ends with `Ok` or `Err`, whatever the bytes are.
  pub summarize_bson_prefix-Returns :
      (document : Bytes) → Returns (summarize_bson_prefix L document)
  unfolding summarize_bson_prefix
  summarize_bson_prefix-Returns document =
      Ensures-if (λ _. Unit {0}) (ltb (length document) 5) _ _ (λ _. tt)
        λ long.
          let five : 5 ≤ length document = ground arith in
          Ensures-bind (λ _. Unit {0}) _ (read_i32 document 0) _
            (Ensures-mono _ _ (read_i32 document 0) (λ _ _. tt) (read_i32-Ensures document 0))
            λ declared _.
              Ensures-if (λ _. Unit {0}) (is_below declared 5) _ _ (λ _. tt)
                λ _.
                  Ensures-if (λ _. Unit {0}) (leb (as_usize declared) (length document)) _ _
                    (λ all_there.
                      Ensures-range (λ _. Unit {0}) document 0 (as_usize declared) _ (omega arith)
                        (leb→le _ _ all_there) (λ whole _. summarize_bson_inner-Returns whole true))
                    (λ _. summarize_cut-Returns document (as_usize declared) five)
