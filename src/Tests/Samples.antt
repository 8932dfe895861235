-- ===== src/Tests/Samples.antt =====
-- The data of the tests: JSON values, stand-ins for the libraries' calls, and frames.
use mongodb_dam.Common.{Bool, Option, none, some, Bytes, List, [], ◌∷◌, ◌++◌, take, inr, ◌⊎◌}
use mongodb_dam.Common.Int.{ℤ}
use mongodb_dam.Protocol.Libraries.{Libraries}

mutual
  pub data Json : Type 0 where
    null : Json
    boolean : Bool → Json
    integer : ℤ → Json
    text : Bytes → Json
    array : Fields → Json
    object : Fields → Json

  -- The elements of an array have no name.
  pub data Fields : Type 0 where
    end : Fields
    field : Bytes → Json → Fields → Fields

abbrev insert_field : Fields → Bytes → Json → Fields
insert_field end name value = field name value end
insert_field (field n v fields) name value = field n v (insert_field fields name value)

abbrev fields_of : Json → Option Fields
fields_of (object fields) = some fields
fields_of _ = none

abbrev elements : List Json → Fields
elements [] = end
elements (value ∷ values) = field [] value (elements values)

-- Texts that are stored uncompressed stand for compressed ones.
abbrev stored : Bytes → Bytes ⊎ Bytes
stored bytes = inr bytes

abbrev pub plain : Libraries
plain = record {
  Value = Json;
  Map = Fields;
  empty_map = end;
  insert = insert_field;
  object = object;
  array = λ values. array (elements values);
  text = text;
  boolean = boolean;
  null = null;
  integer = integer;
  from_f64 = λ bits. none;
  f64_to_string = λ bits. [];
  as_object = fields_of;
  snappy_len = λ bytes. inr 0;
  snappy = stored;
  zlib_take = λ bytes n. inr (take n bytes);
  zstd_take = λ bytes n. inr (take n bytes);
  sha256 = λ bytes. bytes;
  hex_encode = λ bytes. bytes;
}

-- `{ping: 1, $db: "a"}`
abbrev pub ping : Bytes
ping =
    26 ∷ 0 ∷ 0 ∷ 0 ∷ 16 ∷ 112 ∷ 105 ∷ 110 ∷ 103 ∷ 0 ∷ 1 ∷ 0 ∷ 0 ∷ 0 ∷ 2 ∷ 36 ∷ 100 ∷ 98 ∷ 0 ∷ 2 ∷ 0
    ∷ 0 ∷ 0 ∷ 97 ∷ 0 ∷ 0 ∷ []

-- An OP_MSG frame of it
abbrev pub ping_frame : Bytes
ping_frame =
    (47 ∷ 0 ∷ 0 ∷ 0 ∷ 7 ∷ 0 ∷ 0 ∷ 0 ∷ 0 ∷ 0 ∷ 0 ∷ 0 ∷ 221 ∷ 7 ∷ 0 ∷ 0 ∷ 0 ∷ 0 ∷ 0 ∷ 0 ∷ 0 ∷ [])
    ++ ping
