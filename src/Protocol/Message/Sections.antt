-- ===== src/Protocol/Message/Sections.antt =====
-- The sections of an OP_MSG: the `while` loop of `decode_op_msg`, crates/mongo-protocol/src/lib.rs.
-- Each turn consumes a byte at least, so fuel above the number of the bytes is enough.
pub mod Bounds
use mongodb_dam.Common.{
  ℕ, zero, suc, ◌+◌, ◌==◌, Bool, true, false, Option, none, some, Bytes, List, [], ◌∷◌, ◌++◌, codes,
  ltb, leb, if◌then◌else◌, length, slice, bytes_eq,
}
use mongodb_dam.Common.Int.{as_usize, is_below}
use mongodb_dam.Common.Outcome.{Outcome, ok, err, spent, ◌>>=◌, ok_or, ok?, index, range}
use mongodb_dam.Protocol.Types.{Decode, DeleteScope, unsupported_section, invalid_bson}
use mongodb_dam.Protocol.Libraries.{Libraries}
use mongodb_dam.Protocol.Read.{read_i32, read_cstring, checked_add}
use mongodb_dam.Protocol.Deletes.{summarize_delete_document_sequence}
use mongodb_dam.Protocol.Json.{bson_document_sequence_to_json}
use mongodb_dam.Protocol.Document.{Summary, summarize_bson}

-- The length prefix of a section's body, which must end at or before `end`.
unfoldable pub section_end : Bytes → ℕ → ℕ → Decode ℕ
unfolding read_i32
section_end payload offset end = do
  size ← read_i32 payload offset
  if is_below size 5 then err invalid_bson else do
    finish ← ok_or (checked_add offset (as_usize size)) invalid_bson
    if leb finish end then ok finish else err invalid_bson

module _ (L : Libraries) where
  pub record SectionState : Type 0 where
    pub summary : Option (Summary L)
    pub delete_sequence : Option (Option DeleteScope × ℕ)
    pub document_sequences : List (Bytes × List L.Value)

  abbrev pub no_sections : SectionState
  no_sections = record { summary = none; delete_sequence = none; document_sequences = [] }

  -- Only the first document is summarised.
  keep_summary : SectionState → Bytes → Option (Summary L) → Decode SectionState
  keep_summary s document (some summary) = ok s
  keep_summary s document none = do
    summary ← summarize_bson L document
    ok (record s { summary = some summary })

  -- kind 0
  document_section : Bytes → ℕ → ℕ → SectionState → Decode (SectionState × ℕ)
  document_section payload end offset s = do
    document_end ← section_end payload offset end
    document ← range payload offset document_end
    kept ← keep_summary s document s.summary
    ok (kept, document_end)

  keep_deletes : Bytes → Bytes → SectionState → Decode SectionState
  keep_deletes identifier documents s =
      if bytes_eq identifier (codes "deletes")
      then (do
        deletes ← summarize_delete_document_sequence documents
        ok (record s { delete_sequence = some deletes }))
      else ok s

  push_sequence : Bytes → SectionState → Option (List L.Value) → SectionState
  push_sequence identifier s none = s
  push_sequence identifier s (some documents) = record s {
    document_sequences = s.document_sequences ++ ((identifier, documents) ∷ []);
  }

  -- kind 1
  sequence_section : Bytes → ℕ → ℕ → SectionState → Decode (SectionState × ℕ)
  sequence_section payload end offset s = do
    finish ← section_end payload offset end
    (identifier, documents_start) ← read_cstring payload (offset + 4)
    if ltb finish documents_start then err invalid_bson else do
      documents ← ok_or (slice payload documents_start finish) invalid_bson
      counted ← keep_deletes identifier documents s
      values ← ok? (bson_document_sequence_to_json L documents)
      ok (push_sequence identifier counted values, finish)

  section_body : ℕ → Bytes → ℕ → ℕ → SectionState → Decode (SectionState × ℕ)
  section_body kind payload end offset s =
      if kind == 0
      then document_section payload end offset s
      else if kind == 1
      then sequence_section payload end offset s
      else err (unsupported_section kind)

  section_loop : ℕ → Bytes → ℕ → ℕ → SectionState → Decode SectionState
  section_loop zero payload end offset s = spent
  section_loop (suc fuel) payload end offset s =
      if ltb offset end
      then (do
        kind ← index payload offset
        (s', next) ← section_body kind payload end (offset + 1) s
        section_loop fuel payload end next s')
      else ok s

  unfoldable pub read_sections : Bytes → ℕ → Decode SectionState
  unfolding section_end keep_summary document_section keep_deletes push_sequence sequence_section
      section_body section_loop index range summarize_bson summarize_delete_document_sequence
      bson_document_sequence_to_json
  read_sections payload end = section_loop (suc (length payload)) payload end 4 no_sections
