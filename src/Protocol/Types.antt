-- ===== src/Protocol/Types.antt =====
-- The data types and constants of crates/mongo-protocol/src/lib.rs. Texts are their UTF-8 bytes,
-- and the type of a JSON value, which serde_json supplies, is a parameter.
use mongodb_dam.Common.{ℕ, ◌*◌, Bool, Option, Bytes}
use mongodb_dam.Common.Int.{ℤ}
use mongodb_dam.Common.Outcome.{Outcome}

abbrev pub op_reply : ℕ
op_reply = 1

abbrev pub op_query : ℕ
op_query = 2004

abbrev pub op_compressed : ℕ
op_compressed = 2012

abbrev pub op_msg : ℕ
op_msg = 2013

abbrev pub default_max_message_bytes : ℕ
default_max_message_bytes = 48 * 1024 * 1024

pub record DecoderConfig : Type 0 where
  pub max_message_bytes : ℕ
  pub max_buffer_bytes : ℕ

-- `DecoderConfig::default`
abbrev pub default_config : DecoderConfig
default_config = record {
  max_message_bytes = default_max_message_bytes;
  max_buffer_bytes = default_max_message_bytes * 2;
}

pub data DeleteScope : Type 0 where
  single multi mixed : DeleteScope

pub record MongoCommand (Value : Type 0) : Type 0 where
  pub name : Bytes
  pub database : Option Bytes
  pub collection : Option Bytes
  pub auth_mechanism : Option Bytes
  pub principal : Option Bytes
  pub speculative_auth : Bool
  pub delete_scope : Option DeleteScope
  pub delete_statements : Option ℕ
  pub query : Option Value

pub record ResponseStatus : Type 0 where
  pub ok : Option Bool
  pub code : Option ℤ
  pub code_name : Option Bytes
  pub affected_count : Option ℕ
  pub auth_done : Option Bool

pub record DecodedMessage (Value : Type 0) : Type 0 where
  pub request_id : ℤ
  pub response_to : ℤ
  pub wire_bytes : ℕ
  pub flags : ℕ
  pub more_to_come : Bool
  pub compressed : Bool
  pub command : Option (MongoCommand Value)
  pub status : Option ResponseStatus

pub data DecodeError : Type 0 where
  invalid_frame_length : ℤ → DecodeError
  frame_too_large buffer_too_large truncated : DecodeError
  unsupported_opcode : ℤ → DecodeError
  unsupported_section : ℕ → DecodeError
  invalid_bson invalid_compressed : DecodeError
  unsupported_compressor : ℕ → DecodeError
  decompression : Bytes → DecodeError

-- `Result<A, DecodeError>`
abbrev pub Decode {ℓ} : Type ℓ → Type ℓ
Decode = Outcome DecodeError
