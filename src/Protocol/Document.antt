-- ===== src/Protocol/Document.antt =====
-- The walks over a document that gather its summary: `summarize_bson_inner` on a whole document and
-- `summarize_bson_prefix` on the first bytes of one, crates/mongo-protocol/src/lib.rs. Each turn
-- consumes two bytes at least, so the number of the bytes is enough fuel.
pub mod Bounds
use mongodb_dam.Common.{
  ℕ, zero, suc, ◌+◌, ◌-◌, ◌==◌, Bool, true, false, not, ◌&&◌, ◌||◌, Option, none, some, Bytes,
  codes, ltb, leb, min, if◌then◌else◌, length, slice, bytes_eq, get_elem?,
}
use mongodb_dam.Common.Int.{as_usize, is_below}
use mongodb_dam.Common.Outcome.{Outcome, ok, err, spent, ◌>>=◌, ok_or, ok?, index, range}
use mongodb_dam.Protocol.Types.{Decode, DeleteScope, truncated, invalid_bson}
use mongodb_dam.Protocol.Libraries.{Libraries}
use mongodb_dam.Protocol.Read.{Element, read_i32, read_cstring, read_element, check_document}
use mongodb_dam.Protocol.Bson.{skip_value}
use mongodb_dam.Protocol.Deletes.{summarize_delete_statements}
use mongodb_dam.Protocol.Json.{bson_document_to_json}
use mongodb_dam.Protocol.Summary.{BsonSummary, default_summary, captures_query}
use mongodb_dam.Protocol.Summary.Fields.{note_first, note_field, note_speculative}

module _ (L : Libraries) where
  abbrev pub Summary : Type 0
  Summary = BsonSummary L.Value

  -- How a nested document is summarised: `none` where `allow_speculative_auth` is false.
  abbrev Nested : Type 0
  Nested = Option (Bytes → Decode Summary)

  abbrev set_speculative : Option Summary → Summary → Summary
  set_speculative none summary = summary
  set_speculative (some nested) summary = note_speculative nested summary

  abbrev set_deletes : Option (Option DeleteScope × ℕ) → Summary → Summary
  set_deletes none summary = summary
  set_deletes (some (scope, statements)) summary = record summary {
    delete_scope = scope;
    delete_statements = some statements;
  }

  -- The nested summary of the bytes of a value, where both can be had.
  nested_summary : (Bytes → Decode Summary) → Option Bytes → Decode (Option Summary)
  nested_summary summarize none = ok none
  nested_summary summarize (some value) = ok? (summarize value)

  speculative_arm : Nested → Bytes → ℕ → ℕ → Summary → Decode Summary
  speculative_arm none document start next summary = ok summary
  speculative_arm (some summarize) document start next summary = do
    nested ← nested_summary summarize (slice document start next)
    ok (set_speculative nested summary)

  deletes_arm : Bytes → Summary → Decode Summary
  deletes_arm value summary = do
    deletes ← ok? (summarize_delete_statements value)
    ok (set_deletes deletes summary)

  -- `match key { … }`, on an element whose value ends at `next`.
  note_element : Nested → Bytes → Element → ℕ → Summary → Decode Summary
  note_element nested document element next summary =
      if bytes_eq element.key (codes "speculativeAuthenticate") && element.kind == 0x03
      then speculative_arm nested document element.value_start next summary
      else if bytes_eq element.key (codes "deletes") && element.kind == 0x04
      then (do
        value ← ok_or (slice document element.value_start next) invalid_bson
        deletes_arm value summary)
      else note_field document element summary

  -- The loop of `summarize_bson_inner`.
  scan_document : Nested → ℕ → Bytes → ℕ → ℕ → Summary → Decode Summary
  scan_document nested zero document offset ordinal summary = spent
  scan_document nested (suc fuel) document offset ordinal summary =
      if ltb offset (length document - 1)
      then (do
        element ← read_element document offset
        next ← skip_value document element.value_start element.kind
        if ltb (length document - 1) next then err invalid_bson else do
          first ← note_first document ordinal element summary
          noted ← note_element nested document element next first
          scan_document nested fuel document next (ordinal + 1) noted)
      else ok summary

  -- `summary.query = bson_document_to_json(document).ok()` for a command whose query is captured.
  add_query : Bytes → Summary → Decode Summary
  add_query document summary =
      if captures_query summary.first_key
      then (do
        query ← ok? (bson_document_to_json L document)
        ok (record summary { query = query }))
      else ok summary

  summarize_with : Nested → Bytes → Decode Summary
  summarize_with nested document = do
    _ ← check_document document
    summary ← scan_document nested (length document) document 4 0 default_summary
    add_query document summary

  -- A nested document is summarised with `allow_speculative_auth` false, so the recursion ends there.
  unfoldable pub summarize_bson_inner : Bytes → Bool → Decode Summary
  unfolding nested_summary speculative_arm deletes_arm note_element scan_document add_query
      summarize_with check_document read_element skip_value note_first note_field note_speculative
      summarize_delete_statements bson_document_to_json captures_query bytes_eq
  summarize_bson_inner document false = summarize_with none document
  summarize_bson_inner document true = summarize_with (some (summarize_with none)) document

  unfoldable pub summarize_bson : Bytes → Decode Summary
  unfolding summarize_bson_inner
  summarize_bson document = summarize_bson_inner document true

  -- `if let Ok(next) = next { … }` of the two arms of the prefix walk that read the whole value.
  prefix_value : Bytes → ℕ → Option ℕ → Option Bytes
  prefix_value document start none = none
  prefix_value document start (some next) = slice document start next

  prefix_deletes : Option Bytes → Summary → Decode Summary
  prefix_deletes none summary = ok summary
  prefix_deletes (some value) summary = deletes_arm value summary

  note_prefix_element : Bytes → Element → Option ℕ → Summary → Decode Summary
  note_prefix_element document element next summary =
      if bytes_eq element.key (codes "speculativeAuthenticate") && element.kind == 0x03
      then (do
        nested ←
            nested_summary (summarize_with none) (prefix_value document element.value_start next)
        ok (set_speculative nested summary))
      else if bytes_eq element.key (codes "deletes") && element.kind == 0x04
      then prefix_deletes (prefix_value document element.value_start next) summary
      else note_field document element summary

  -- Where the prefix walk goes on: behind a value that is not empty and lies within the prefix.
  continue_at : ℕ → ℕ → Option ℕ → Option ℕ
  continue_at start available_end none = none
  continue_at start available_end (some next) =
      if ltb start next && leb next available_end then some next else none

  -- The next turn of the prefix walk, or its end.
  walk_on : (ℕ → Summary → Decode Summary) → Summary → Option ℕ → Decode Summary
  walk_on again noted none = ok noted
  walk_on again noted (some end) = again end noted

  -- The body of the prefix walk on an element; one whose key is cut off ends the walk.
  note_cut :
      (ℕ → Summary → Decode Summary) → Bytes → ℕ → ℕ → Summary → Option Element → Decode Summary
  note_cut again document available_end ordinal summary none = ok summary
  note_cut again document available_end ordinal summary (some e) = do
    next ← ok? (skip_value document e.value_start e.kind)
    first ← note_first document ordinal e summary
    noted ← note_prefix_element document e next first
    walk_on again noted (continue_at e.value_start available_end next)

  -- The loop of `summarize_bson_prefix`.
  scan_prefix : ℕ → Bytes → ℕ → ℕ → ℕ → Summary → Decode Summary
  scan_prefix zero document available_end offset ordinal summary = spent
  scan_prefix (suc fuel) document available_end offset ordinal summary =
      if ltb offset available_end
      then (do
        element ← ok? (read_element document offset)
        note_cut (λ end noted. scan_prefix fuel document available_end end (ordinal + 1) noted)
            document available_end ordinal summary element)
      else ok summary

  require_first : Summary → Decode Summary
  require_first summary = elim summary.first_key [ none ↦ err truncated | some _ ↦ ok summary ]

  -- The document's declared length is above what is there.
  summarize_cut : Bytes → ℕ → Decode Summary
  summarize_cut document declared = do
    summary ←
        scan_prefix (length document) document (min (length document) (declared - 1)) 4 0
          default_summary
    require_first summary

  unfoldable pub summarize_bson_prefix : Bytes → Decode Summary
  unfolding summarize_bson_inner prefix_value prefix_deletes note_prefix_element continue_at walk_on
      note_cut scan_prefix require_first summarize_cut read_i32 range
  summarize_bson_prefix document = if ltb (length document) 5 then err truncated else do
    declared ← read_i32 document 0
    if is_below declared 5
        then err invalid_bson
        else if leb (as_usize declared) (length document)
        then (do whole ← range document 0 (as_usize declared); summarize_bson_inner whole true)
        else summarize_cut document (as_usize declared)
