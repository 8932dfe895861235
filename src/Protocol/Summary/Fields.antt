-- ===== src/Protocol/Summary/Fields.antt =====
-- What one element of a document adds to the summary: the arms that the loops of
-- `summarize_bson_inner` and `summarize_bson_prefix` have in common.
use mongodb_dam.Common.{
  ℕ, ◌==◌, Bool, false, ◌&&◌, Option, none, some, Bytes, codes, bytes_eq, to_ascii_lowercase,
  if◌then◌else◌,
}
use mongodb_dam.Common.Outcome.{ok, ◌>>=◌, ok?}
use mongodb_dam.Protocol.Types.{Decode}
use mongodb_dam.Protocol.Read.{Element}
use mongodb_dam.Protocol.Bson.{
  read_bson_string, read_bson_binary, read_boolish, read_i32ish, read_u64ish,
}
use mongodb_dam.Protocol.Scram.{parse_scram_principal}
use mongodb_dam.Protocol.Summary.{BsonSummary, or_else}

-- The name in a SCRAM payload, where there is one.
principal_of : Option Bytes → Option Bytes
principal_of none = none
principal_of (some payload) = parse_scram_principal payload

-- `name.eq_ignore_ascii_case("saslStart")` of a key that is there
abbrev is_sasl_start : Option Bytes → Bool
is_sasl_start none = false
is_sasl_start (some name) = bytes_eq (to_ascii_lowercase name) (codes "saslstart")

module _ {Value : Type 0} where
  -- `if ordinal == 0 { … }`
  unfoldable pub note_first : Bytes → ℕ → Element → BsonSummary Value → Decode (BsonSummary Value)
  unfolding read_bson_string
  note_first document ordinal element summary =
      let named = record summary { first_key = some element.key } in
      if ordinal == 0
      then if element.kind == 0x02
        then (do
          value ← ok? (read_bson_string document element.value_start)
          ok (record named { first_string = value }))
        else ok named
      else ok summary

  -- The arms of `match key` up to `payload`.
  unfoldable pub note_field : Bytes → Element → BsonSummary Value → Decode (BsonSummary Value)
  unfolding read_bson_string read_bson_binary read_boolish read_i32ish read_u64ish
      parse_scram_principal principal_of bytes_eq
  note_field document element summary =
      let key_is = λ (name : Bytes). bytes_eq element.key name in
      let at = element.value_start in
      let t = element.kind in
      if key_is (codes "$db") && t == 0x02
      then (do v ← ok? (read_bson_string document at); ok (record summary { database = v }))
      else if key_is (codes "collection") && t == 0x02
      then (do v ← ok? (read_bson_string document at); ok (record summary { collection = v }))
      else if key_is (codes "ok")
      then (do v ← read_boolish document at t; ok (record summary { ok = v }))
      else if key_is (codes "code")
      then (do v ← read_i32ish document at t; ok (record summary { code = v }))
      else if key_is (codes "n")
      then (do v ← read_u64ish document at t; ok (record summary { affected_count = v }))
      else if key_is (codes "done")
      then (do v ← read_boolish document at t; ok (record summary { auth_done = v }))
      else if key_is (codes "codeName") && t == 0x02
      then (do v ← ok? (read_bson_string document at); ok (record summary { code_name = v }))
      else if key_is (codes "mechanism") && t == 0x02
      then (do v ← ok? (read_bson_string document at); ok (record summary { auth_mechanism = v }))
      else if key_is (codes "user") && t == 0x02
      then (do v ← ok? (read_bson_string document at); ok (record summary { principal = v }))
      else if key_is (codes "payload") && t == 0x05
      then (do
        payload ← ok? (read_bson_binary document at)
        ok (record summary { principal = or_else (principal_of payload) summary.principal }))
      else ok summary

  -- What a nested `speculativeAuthenticate` document that could be read adds.
  unfoldable pub note_speculative : BsonSummary Value → BsonSummary Value → BsonSummary Value
  unfolding bytes_eq
  note_speculative nested summary = record summary {
    speculative_auth = is_sasl_start nested.first_key;
    auth_mechanism = or_else nested.auth_mechanism summary.auth_mechanism;
    principal = or_else nested.principal summary.principal;
    auth_done = or_else nested.auth_done summary.auth_done;
  }
