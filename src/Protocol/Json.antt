-- ===== src/Protocol/Json.antt =====
-- BSON to JSON: `bson_document_to_json` and its helpers, crates/mongo-protocol/src/lib.rs. The
-- source's recursion follows the nesting of documents; a nested document is at least four bytes
-- shorter than the one that holds it, so fuel above the number of bytes is enough.
pub mod Bounds
use mongodb_dam.Common.{
  ℕ, zero, suc, ◌+◌, ◌-◌, ◌^◌, ◌/◌, ◌%◌, ◌==◌, Bool, true, false, not, Option, none, some, Bytes,
  List, [], ◌∷◌, ◌++◌, codes, ltb, if◌then◌else◌, length, slice, get_elem?, to_decimal,
}
use mongodb_dam.Common.Int.{ℤ, pos, negsuc, as_usize}
use mongodb_dam.Common.Outcome.{Outcome, ok, err, spent, ◌>>=◌, ok_or, index, range}
use mongodb_dam.Protocol.Types.{Decode, invalid_bson}
use mongodb_dam.Protocol.Libraries.{Libraries}
use mongodb_dam.Protocol.Read.{
  Element, from_le, read_i32, read_i64, read_u64, read_cstring, read_element, check_document,
}
use mongodb_dam.Protocol.Bson.{skip_value, read_bson_string, read_bson_binary}
use mongodb_dam.Protocol.Deletes.{document_end}

-- `DIGITS[digit]`
abbrev hex_digit : ℕ → ℕ
hex_digit digit = if ltb digit 10 then b'0' + digit else b'a' + (digit - 10)

unfoldable pub encode_hex : Bytes → Bytes
encode_hex [] = []
encode_hex (byte ∷ bytes) = hex_digit (byte / 16) ∷ hex_digit (byte % 16) ∷ encode_hex bytes

-- `i64::to_string`
int_to_string : ℤ → Bytes
int_to_string (pos n) = to_decimal n
int_to_string (negsuc n) = b'-' ∷ to_decimal (suc n)

module _ (L : Libraries) where
  open L use {
    Value, Map, empty_map, insert, object, array, text, boolean, null, integer, from_f64,
    f64_to_string,
  }

  -- `json!({key: value})`
  abbrev tagged : Bytes → Value → Value
  tagged key value = object (insert empty_map key value)

  -- `json!({key: value, other: more})`
  abbrev tagged_twice : Bytes → Value → Bytes → Value → Value
  tagged_twice key value other more = object (insert (insert empty_map key value) other more)

  double_to_json : Bytes → Value
  double_to_json eight =
      let bits = from_le eight in
      elim (from_f64 bits) [
        | some number ↦ number
        | none ↦ tagged (codes "$numberDouble") (text (f64_to_string bits))
      ]

  binary_to_json : Bytes → ℕ → Decode Value
  binary_to_json bytes offset = do
    subtype ← ok_or (get_elem? bytes (offset + 4)) invalid_bson
    content ← read_bson_binary bytes offset
    ok (
        tagged (codes "$binary") (
          tagged_twice (codes "hex") (text (encode_hex content)) (codes "subType")
            (text (encode_hex (subtype ∷ [])))))

  regex_to_json : Bytes → ℕ → Decode Value
  regex_to_json bytes offset = do
    (pattern_text, after_pattern) ← read_cstring bytes offset
    (options, _) ← read_cstring bytes after_pattern
    ok (
        tagged (codes "$regularExpression")
          (tagged_twice (codes "pattern") (text pattern_text) (codes "options") (text options)))

  pointer_to_json : Bytes → ℕ → ℕ → Decode Value
  pointer_to_json bytes offset end = do
    namespace ← read_bson_string bytes offset
    namespace_length ← read_i32 bytes offset
    id ← ok_or (slice bytes (offset + 4 + as_usize namespace_length) end) invalid_bson
    ok (
        tagged (codes "$dbPointer")
          (tagged_twice (codes "$ref") (text namespace) (codes "$id") (text (encode_hex id))))

  timestamp_to_json : ℕ → Value
  timestamp_to_json value = tagged (codes "$timestamp") (
      tagged_twice (codes "t") (integer (pos (value / 2 ^ 32))) (codes "i")
        (integer (pos (value % 2 ^ 32))))

  -- The `match` of `bson_value_to_json`; `nested` converts an embedded document or array.
  value_to_json : (Bytes → Bool → Decode Value) → Bytes → ℕ → ℕ → ℕ → Decode Value
  value_to_json nested bytes offset t end =
      let body = ok_or (slice bytes offset end) invalid_bson in
      let nested_value = λ (is_array : Bool). body >>= λ inner. nested inner is_array in
      if t == 0x01
      then (do
        eight ← body
        if length eight == 8 then ok (double_to_json eight) else err invalid_bson)
      else if t == 0x02
      then (do s ← read_bson_string bytes offset; ok (text s))
      else if t == 0x03
      then nested_value false
      else if t == 0x04
      then nested_value true
      else if t == 0x05
      then binary_to_json bytes offset
      else if t == 0x06
      then ok (tagged (codes "$undefined") (boolean true))
      else if t == 0x07
      then (do id ← body; ok (tagged (codes "$oid") (text (encode_hex id))))
      else if t == 0x08
      then (do b ← ok_or (get_elem? bytes offset) invalid_bson; ok (boolean (not (b == 0))))
      else if t == 0x09
      then (do
        millis ← read_i64 bytes offset
        ok (tagged (codes "$date") (tagged (codes "$numberLong") (text (int_to_string millis)))))
      else if t == 0x0a
      then ok null
      else if t == 0x0b
      then regex_to_json bytes offset
      else if t == 0x0c
      then pointer_to_json bytes offset end
      else if t == 0x0d
      then (do s ← read_bson_string bytes offset; ok (tagged (codes "$code") (text s)))
      else if t == 0x0e
      then (do s ← read_bson_string bytes offset; ok (tagged (codes "$symbol") (text s)))
      else if t == 0x10
      then (do n ← read_i32 bytes offset; ok (integer n))
      else if t == 0x11
      then (do n ← read_u64 bytes offset; ok (timestamp_to_json n))
      else if t == 0x12
      then (do n ← read_i64 bytes offset; ok (integer n))
      else if t == 0x13
      then (do b ← body; ok (tagged (codes "$numberDecimalBytes") (text (encode_hex b))))
      else if t == 0x7f
      then ok (tagged (codes "$maxKey") (integer (pos 1)))
      else if t == 0xff
      then ok (tagged (codes "$minKey") (integer (pos 1)))
      else err invalid_bson

  bson_value_to_json : (Bytes → Bool → Decode Value) → Bytes → ℕ → ℕ → Decode (Value × ℕ)
  bson_value_to_json nested bytes offset t = do
    end ← skip_value bytes offset t
    value ← value_to_json nested bytes offset t end
    ok (value, end)

  -- The loop of `bson_container_to_json`, over `object` and `values`.
  collect_elements :
      (Bytes → Bool → Decode Value) → ℕ → Bytes → Bool → Map → List Value → ℕ → Decode Value
  collect_elements nested zero document is_array fields values offset = spent
  collect_elements nested (suc fuel) document is_array fields values offset =
      if ltb offset (length document - 1)
      then (do
        element ← read_element document offset
        (value, next) ← bson_value_to_json nested document element.value_start element.kind
        let rest =
            collect_elements nested fuel document is_array
              (if is_array then fields else insert fields element.key value)
              (if is_array then values ++ (value ∷ []) else values) next
        if ltb (length document - 1) next then err invalid_bson else rest)
      else ok (if is_array then array values else object fields)

  bson_container_to_json : ℕ → Bytes → Bool → Decode Value
  bson_container_to_json zero document is_array = spent
  bson_container_to_json (suc fuel) document is_array = do
    _ ← check_document document
    collect_elements (λ inner nested_array. bson_container_to_json fuel inner nested_array)
        (length document) document is_array empty_map [] 4

  unfoldable pub bson_document_to_json : Bytes → Decode Value
  unfolding bson_container_to_json collect_elements bson_value_to_json value_to_json double_to_json
      binary_to_json regex_to_json pointer_to_json timestamp_to_json encode_hex int_to_string
      to_decimal check_document read_element skip_value read_bson_string read_bson_binary read_i64
      read_u64
  bson_document_to_json document = bson_container_to_json (suc (length document)) document false

  -- The loop of `bson_document_sequence_to_json`.
  sequence_to_json : ℕ → Bytes → List Value → ℕ → Decode (List Value)
  sequence_to_json zero documents result offset = spent
  sequence_to_json (suc fuel) documents result offset =
      if ltb offset (length documents)
      then (do
        end ← document_end documents offset
        document ← range documents offset end
        value ← bson_document_to_json document
        sequence_to_json fuel documents (result ++ (value ∷ [])) end)
      else ok result

  unfoldable pub bson_document_sequence_to_json : Bytes → Decode (List Value)
  unfolding sequence_to_json document_end range bson_document_to_json
  bson_document_sequence_to_json documents =
      sequence_to_json (suc (length documents)) documents [] 0
