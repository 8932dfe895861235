-- ===== src/Protocol/Message/Sections/Bounds.antt =====
-- The walk over the sections of an OP_MSG returns on every input, within the fuel.
use mongodb_dam.Common.{
  ℕ, zero, suc, ◌+◌, ◌≤◌, ◌<◌, ◌==◌, arith, Option, none, some, Bytes, codes, length, ltb, slice,
  bytes_eq,
}
use mongodb_dam.Common.Int.{is_below, as_usize-le}
use mongodb_dam.Common.Outcome.{
  ok?, ok_or, Ensures, Ensures-bind, Ensures-if, Ensures-index, Ensures-range, Ensures-ok?,
}
use mongodb_dam.Protocol.Types.{invalid_bson}
use mongodb_dam.Protocol.Libraries.{Libraries}
use mongodb_dam.Protocol.Read.{read_i32, read_cstring}
use mongodb_dam.Protocol.Read.Bounds.{Ensures-ok_or, read_i32-Ensures, read_cstring-Ensures}
use mongodb_dam.Protocol.Bson.Bounds.{Returns, then_Returns}
use mongodb_dam.Protocol.Deletes.{summarize_delete_document_sequence}
use mongodb_dam.Protocol.Deletes.Bounds.{summarize_delete_document_sequence-Returns}
use mongodb_dam.Protocol.Json.{bson_document_sequence_to_json}
use mongodb_dam.Protocol.Json.Bounds.{bson_document_sequence_to_json-Returns}
use mongodb_dam.Protocol.Document.{Summary, summarize_bson}
use mongodb_dam.Protocol.Document.Bounds.{summarize_bson-Returns}
use mongodb_dam.Protocol.Message.Sections.{
  SectionState, no_sections, section_end, keep_summary, document_section, keep_deletes,
  sequence_section, section_body, section_loop, read_sections,
}

abbrev SectionEnd : ℕ → ℕ → ℕ → Type 0
SectionEnd offset end finish = (offset + 5 ≤ finish) × (finish ≤ end)

section_end-Ensures :
    (payload : Bytes) (offset end : ℕ)
    → Ensures (SectionEnd offset end) (section_end payload offset end)
unfolding section_end
section_end-Ensures payload offset end =
    Ensures-bind _ _ (read_i32 payload offset) _ (read_i32-Ensures payload offset) λ size _.
      Ensures-if (SectionEnd offset end) (is_below size 5) _ _ (λ _. tt)
        (λ long. ground (arith, as_usize-le 5 size long))

module _ (L : Libraries) (payload : Bytes) (end : ℕ) (within : end ≤ length payload) where
  -- A section ends behind its start, and within the sections.
  abbrev Advances : ℕ → SectionState L × ℕ → Type 0
  Advances offset r = (offset < r.1) × (r.1 ≤ end)

  keep_summary-Returns :
      (s : SectionState L) (document : Bytes) (o : Option (Summary L))
      → Returns (keep_summary L s document o)
  unfolding keep_summary
  keep_summary-Returns s document none =
      then_Returns (summarize_bson L document) _ (summarize_bson-Returns L document) (λ _. tt)
  keep_summary-Returns s document (some x) = tt

  document_section-Ensures :
      (offset : ℕ) (s : SectionState L)
      → Ensures (Advances offset) (document_section L payload end offset s)
  unfolding document_section
  document_section-Ensures offset s =
      Ensures-bind (SectionEnd offset end) (Advances offset) (section_end payload offset end) _
        (section_end-Ensures payload offset end)
        λ finish h.
          Ensures-range (Advances offset) payload offset finish _ (omega arith) (omega arith)
            λ document _.
              Ensures-bind (λ _. Unit {0}) (Advances offset) (keep_summary L s document s.summary) _
                (keep_summary-Returns s document s.summary) (λ _ _. omega arith)

  keep_deletes-Returns :
      (identifier documents : Bytes) (s : SectionState L)
      → Returns (keep_deletes L identifier documents s)
  unfolding keep_deletes
  keep_deletes-Returns identifier documents s =
      Ensures-if (λ _. Unit {0}) (bytes_eq identifier (codes "deletes")) _ _
        (λ _.
          then_Returns (summarize_delete_document_sequence documents) _
            (summarize_delete_document_sequence-Returns documents) (λ _. tt))
        (λ _. tt)

  sequence_section-Ensures :
      (offset : ℕ) (s : SectionState L)
      → Ensures (Advances offset) (sequence_section L payload end offset s)
  unfolding sequence_section
  sequence_section-Ensures offset s =
      Ensures-bind (SectionEnd offset end) (Advances offset) (section_end payload offset end) _
        (section_end-Ensures payload offset end)
        λ finish h.
          Ensures-bind _ (Advances offset) (read_cstring payload (offset + 4)) _
            (read_cstring-Ensures payload (offset + 4))
            λ r _.
              Ensures-if (Advances offset) (ltb finish r.1) _ _ (λ _. tt)
                λ _.
                  Ensures-bind (λ _. Unit {0}) (Advances offset)
                    (ok_or (slice payload r.1 finish) invalid_bson) _
                    (Ensures-ok_or _ (slice payload r.1 finish) invalid_bson (λ _ _. tt))
                    λ documents _.
                      Ensures-bind (λ _. Unit {0}) (Advances offset)
                        (keep_deletes L r.0 documents s) _ (keep_deletes-Returns r.0 documents s)
                        λ counted _.
                          Ensures-bind (λ _. Unit {0}) (Advances offset)
                            (ok? (bson_document_sequence_to_json L documents)) _
                            (Ensures-ok? _ (bson_document_sequence_to_json L documents)
                              (bson_document_sequence_to_json-Returns L documents))
                            (λ _ _. omega arith)

  section_body-Ensures :
      (kind offset : ℕ) (s : SectionState L)
      → Ensures (Advances offset) (section_body L kind payload end offset s)
  unfolding section_body
  section_body-Ensures kind offset s =
      Ensures-if (Advances offset) (kind == 0) _ _ (λ _. document_section-Ensures offset s)
        (λ _.
          Ensures-if (Advances offset) (kind == 1) _ _ (λ _. sequence_section-Ensures offset s)
            (λ _. tt))

  section_loop-Returns :
      (fuel offset : ℕ) (s : SectionState L)
      → end < fuel + offset
      → 0 < fuel
      → Returns (section_loop L fuel payload end offset s)
  unfolding section_loop
  section_loop-Returns zero offset s h p = absurd (omega arith)
  section_loop-Returns (suc fuel) offset s h p =
      Ensures-if (λ _. Unit {0}) (ltb offset end) _ _
        (λ inside.
          let below : offset < end = ground arith in
          Ensures-index (λ _. Unit {0}) payload offset _ (omega arith)
            λ kind.
              Ensures-bind (Advances (offset + 1)) _
                (section_body L kind payload end (offset + 1) s) _
                (section_body-Ensures kind (offset + 1) s)
                (λ r k. section_loop-Returns fuel r.1 r.0 (omega arith) (omega arith)))
        (λ _. tt)

  pub read_sections-Returns : Returns (read_sections L payload end)
  unfolding read_sections
  read_sections-Returns =
      section_loop-Returns (suc (length payload)) 4 (no_sections L) (omega arith) (omega arith)
