-- ===== src/Spool/Digest.antt =====
-- `hex::encode(Sha256::digest(body))` of crates/spool/src/lib.rs, from the crates sha2 and hex: a
-- name of 64 hexadecimal digits for each body.
use mongodb_dam.Common.{◌≡◌, true, Bytes, length, all_bytes, is_ascii_hexdigit}

pub record Digest : Type 0 where
  pub id_of : Bytes → Bytes
  pub length-id_of : (body : Bytes) → length (id_of body) ≡ 64
  pub hex-id_of : (body : Bytes) → all_bytes is_ascii_hexdigit (id_of body) ≡ true
