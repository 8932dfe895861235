-- ===== src/Protocol/Scram.antt =====
-- `parse_scram_principal` of crates/mongo-protocol/src/lib.rs: the user name in a SCRAM
-- client-first message.
pub mod RoundTrip
use mongodb_dam.Common.{
  ℕ, ◌==◌, not, ◌&&◌, Option, none, some, Bytes, List, [], ◌∷◌, codes, ltb, if◌then◌else◌, length,
  is_utf8, any_control, strip_prefix, split_on,
}

-- `field.strip_prefix("n=").filter(|value| !value.is_empty())`
name_field : Bytes → Option Bytes
unfolding strip_prefix
name_field field = elim (strip_prefix (codes "n=") field) [
  | none ↦ none
  | some [] ↦ none
  | some (c ∷ cs) ↦ some (c ∷ cs)
]

-- `find_map`
find_name : List Bytes → Option Bytes
find_name [] = none
find_name (field ∷ fields) =
    let later = find_name fields in elim (name_field field) [ none ↦ later | some name ↦ some name ]

-- `replace` of the three bytes `=`, `high`, `low` by one byte.
replace_escape : ℕ → ℕ → ℕ → Bytes → Bytes
replace_escape high low by (a ∷ b ∷ c ∷ rest) =
    let replaced = replace_escape high low by rest in
    let kept = replace_escape high low by (b ∷ c ∷ rest) in
    if a == b'=' && b == high && c == low then by ∷ replaced else a ∷ kept
replace_escape high low by text = text

unescape : Bytes → Bytes
unescape text = replace_escape b'3' b'D' b'=' (replace_escape b'2' b'C' b',' text)

-- The checks on the decoded name.
accept_name : Bytes → Option Bytes
accept_name decoded =
    if ltb 0 (length decoded) && not (ltb 256 (length decoded)) && not (any_control decoded)
    then some decoded
    else none

decode_name : Option Bytes → Option Bytes
decode_name none = none
decode_name (some encoded) =
    if ltb 768 (length encoded) then none else accept_name (unescape encoded)

unfoldable pub parse_scram_principal : Bytes → Option Bytes
unfolding name_field find_name replace_escape unescape accept_name decode_name is_utf8 split_on
    any_control
parse_scram_principal payload =
    if is_utf8 payload then decode_name (find_name (split_on b',' payload)) else none
