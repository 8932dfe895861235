-- ===== src/Protocol/Deletes.antt =====
-- How many delete statements a command holds, and of which scope:
-- crates/mongo-protocol/src/lib.rs. Each turn of these loops consumes two bytes at least, so the
-- number of the bytes is enough fuel.
pub mod Bounds
use mongodb_dam.Common.{
  ℕ, zero, suc, ◌+◌, ◌-◌, ◌^◌, ◌==◌, Bool, true, false, Option, none, some, Bytes, codes, ltb, min,
  if◌then◌else◌, length, slice, bytes_eq,
}
use mongodb_dam.Common.Int.{ℤ, as_usize, is_below, is_int}
use mongodb_dam.Common.Outcome.{Outcome, ok, err, spent, ◌>>=◌, ok_or, range}
use mongodb_dam.Protocol.Types.{Decode, DeleteScope, single, multi, mixed, invalid_bson}
use mongodb_dam.Protocol.Read.{Element, read_i32, read_element, check_document, end_within}
use mongodb_dam.Protocol.Bson.{skip_value, read_i32ish}

-- The loop of `delete_statement_limit`, from `offset` on.
find_limit : ℕ → Bytes → ℕ → Decode (Option ℤ)
find_limit zero statement offset = spent
find_limit (suc fuel) statement offset =
    if ltb offset (length statement - 1)
    then (do
      element ← read_element statement offset
      next ← skip_value statement element.value_start element.kind
      let rest = find_limit fuel statement next
      if bytes_eq element.key (codes "limit")
          then read_i32ish statement element.value_start element.kind
          else rest)
    else ok none

unfoldable pub delete_statement_limit : Bytes → Decode (Option ℤ)
unfolding find_limit check_document read_element skip_value read_i32ish bytes_eq
delete_statement_limit statement = do
  _ ← check_document statement
  find_limit (length statement) statement 4

-- `statements`, `has_single` and `has_multi` of the two loops below
pub record Tally : Type 0 where
  pub statements : ℕ
  pub has_single : Bool
  pub has_multi : Bool

abbrev pub no_deletes : Tally
no_deletes = record { statements = 0; has_single = false; has_multi = false }

is_limit : Option ℤ → ℕ → Bool
is_limit none n = false
is_limit (some v) n = is_int v n

-- One more statement, with its limit: 0 deletes every match, 1 the first.
unfoldable pub add_statement : Tally → Option ℤ → Tally
unfolding is_limit
add_statement tally limit = record {
  statements = min (tally.statements + 1) (2 ^ 32 - 1);
  has_single = if is_limit limit 1 then true else tally.has_single;
  has_multi = if is_limit limit 0 then true else tally.has_multi;
}

unfoldable pub delete_scope : Bool → Bool → Option DeleteScope
delete_scope true true = some mixed
delete_scope true false = some single
delete_scope false true = some multi
delete_scope false false = none

abbrev summary_of : Tally → Option DeleteScope × ℕ
summary_of tally = (delete_scope tally.has_single tally.has_multi, tally.statements)

-- The loop of `summarize_delete_statements`, over the elements of an array.
tally_array : ℕ → Bytes → Tally → ℕ → Decode Tally
tally_array zero array tally offset = spent
tally_array (suc fuel) array tally offset =
    if ltb offset (length array - 1)
    then (do
      element ← read_element array offset
      next ← skip_value array element.value_start element.kind
      let skipped = tally_array fuel array tally next
      if element.kind == 0x03
          then (do
            statement ← ok_or (slice array element.value_start next) invalid_bson
            limit ← delete_statement_limit statement
            tally_array fuel array (add_statement tally limit) next)
          else skipped)
    else ok tally

unfoldable pub summarize_delete_statements : Bytes → Decode (Option DeleteScope × ℕ)
unfolding tally_array check_document read_element skip_value slice delete_statement_limit
    add_statement delete_scope
summarize_delete_statements array = do
  _ ← check_document array
  tally ← tally_array (length array) array no_deletes 4
  ok (summary_of tally)

-- The length prefix of a document within a sequence of documents, and where it ends.
unfoldable pub document_end : Bytes → ℕ → Decode ℕ
unfolding read_i32 end_within
document_end documents offset = do
  length_field ← read_i32 documents offset
  if is_below length_field 5
      then err invalid_bson
      else end_within documents offset (as_usize length_field)

-- The loop of `summarize_delete_document_sequence`, over documents that stand behind one another.
tally_sequence : ℕ → Bytes → Tally → ℕ → Decode Tally
tally_sequence zero documents tally offset = spent
tally_sequence (suc fuel) documents tally offset =
    if ltb offset (length documents)
    then (do
      end ← document_end documents offset
      statement ← range documents offset end
      limit ← delete_statement_limit statement
      tally_sequence fuel documents (add_statement tally limit) end)
    else ok tally

unfoldable pub summarize_delete_document_sequence : Bytes → Decode (Option DeleteScope × ℕ)
unfolding tally_sequence document_end range delete_statement_limit add_statement delete_scope
summarize_delete_document_sequence documents = do
  tally ← tally_sequence (suc (length documents)) documents no_deletes 0
  ok (summary_of tally)
