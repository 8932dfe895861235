-- ===== src/Outpost/ObjectKey.antt =====
-- The key of an S3 object in crates/outpost/src/lib.rs.
pub mod Injective
pub mod Parts
use mongodb_dam.Common.{
  ℕ, zero, suc, ◌+◌, ◌-◌, ◌/◌, ◌%◌, ◌==◌, Bool, true, false, ◌||◌, Option, none, some, Bytes, List,
  [], ◌∷◌, ◌++◌, ltb, if◌then◌else◌, is_ascii_alphanumeric, codes, to_decimal,
}
use mongodb_dam.Common.Int.{ℤ, pos, negsuc}
use mongodb_dam.Common.Space.{trim}
use mongodb_dam.Schema.Types.{DamBatch}
use mongodb_dam.Outpost.State.{Platform, S3DestinationConfig}

-- A byte that stands for itself.
abbrev pub is_plain : ℕ → Bool
is_plain c = is_ascii_alphanumeric c || c == b'-' || c == b'_' || c == b'.'

-- A digit of `{:02X}`
abbrev pub upper_digit : ℕ → ℕ
upper_digit d = if ltb d 10 then b'0' + d else b'A' + (d - 10)

unfoldable pub encode_byte : ℕ → Bytes
encode_byte c =
    if is_plain c then c ∷ [] else b'%' ∷ upper_digit (c / 16) ∷ upper_digit (c % 16) ∷ []

unfoldable pub encode_s3_key_segment : Bytes → Bytes
unfolding encode_byte
encode_s3_key_segment [] = []
encode_s3_key_segment (c ∷ cs) = encode_byte c ++ encode_s3_key_segment cs

-- `trim_start_matches('/')` and `trim_end_matches('/')`
abbrev trim_left : Bytes → Bytes
trim_left [] = []
trim_left (c ∷ cs) = let rest = trim_left cs in if c == b'/' then rest else c ∷ cs

abbrev all_slashes : Bytes → Bool
all_slashes [] = true
all_slashes (c ∷ cs) = let rest = all_slashes cs in if c == b'/' then rest else false

abbrev trim_right : Bytes → Bytes
trim_right [] = []
trim_right (c ∷ cs) = let rest = trim_right cs in if all_slashes (c ∷ cs) then [] else c ∷ rest

unfoldable pub normalized_s3_prefix : Bytes → Bytes
normalized_s3_prefix prefix = trim_right (trim_left (trim prefix))

-- The last two decimal digits, `{:02}` below 100
abbrev pub two_digits : ℕ → Bytes
two_digits n = (b'0' + n / 10 % 10) ∷ (b'0' + n % 10) ∷ []

-- `{:04}` of a year, with its sign in the width
unfoldable pub year_text : ℤ → Bytes
unfolding to_decimal
year_text (pos n) =
    if ltb n 10000 then two_digits (n / 100) ++ two_digits (n % 100) else to_decimal n
year_text (negsuc n) =
    if ltb n 999
    then b'-' ∷ (b'0' + (n + 1) / 100) ∷ two_digits ((n + 1) % 100)
    else b'-' ∷ to_decimal (n + 1)

module _ (S : Platform) where
  unfoldable pub date_part : S.Time → Bytes
  unfolding year_text
  date_part time =
      codes "/date="
      ++ (year_text (S.year time)
          ++ (b'-' ∷ two_digits (S.month time)
              ++ (b'-' ∷ two_digits (S.day time) ++ (codes "/hour=" ++ two_digits (S.hour time)))))

  unfoldable pub s3_object_key : S3DestinationConfig → DamBatch S.Time S.Value → Bytes
  unfolding normalized_s3_prefix encode_s3_key_segment date_part
  s3_object_key destination batch =
      normalized_s3_prefix destination.prefix
      ++ (codes "/customer_id="
          ++ (encode_s3_key_segment batch.customer_id
              ++ (codes "/tenant_id="
                  ++ (encode_s3_key_segment batch.tenant_id
                      ++ (codes "/regional_cell_id="
                          ++ (encode_s3_key_segment batch.regional_cell_id
                              ++ (codes "/source_id="
                                  ++ (encode_s3_key_segment batch.source_id
                                      ++ (date_part batch.created_at
                                          ++ (b'/' ∷ encode_s3_key_segment batch.batch_id
                                              ++ codes ".ndjson.gz"))))))))))
