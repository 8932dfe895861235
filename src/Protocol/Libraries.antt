-- ===== src/Protocol/Libraries.antt =====
-- What the decoder and the Observer take from crates outside the repository: the JSON values and maps
-- of serde_json, the decompressors of snap, flate2 and zstd, and the functions of sha2 and hex.
use mongodb_dam.Common.{ℕ, Bool, Option, List, Bytes, ◌⊎◌}
use mongodb_dam.Common.Int.{ℤ}

pub record Libraries : Type 1 where
  -- `serde_json::Value` and `serde_json::Map`
  pub Value : Type 0
  pub Map : Type 0
  pub empty_map : Map
  pub insert : Map → Bytes → Value → Map
  pub object : Map → Value
  pub array : List Value → Value
  pub text : Bytes → Value
  pub boolean : Bool → Value
  pub null : Value
  -- `Number::from` of an integer type
  pub integer : ℤ → Value
  -- `Number::from_f64`, of the bit pattern
  pub from_f64 : ℕ → Option Value
  -- `f64::to_string`, of the bit pattern
  pub f64_to_string : ℕ → Bytes
  -- the map of a `Value::Object`
  pub as_object : Value → Option Map
  -- `snap::raw::decompress_len` and `decompress_vec`; the left side is the error's text
  pub snappy_len : Bytes → Bytes ⊎ ℕ
  pub snappy : Bytes → Bytes ⊎ Bytes
  -- what the reader yields of the decompressed bytes, at most as many as the number says
  pub zlib_take : Bytes → ℕ → Bytes ⊎ Bytes
  pub zstd_take : Bytes → ℕ → Bytes ⊎ Bytes
  -- the digest of SHA-256 and `hex::encode`
  pub sha256 : Bytes → Bytes
  pub hex_encode : Bytes → Bytes
