-- ===== src/Tests/ObserverWitnesses.antt =====
-- The theorems of the DNS parser and of the validation at concrete inputs.
use mongodb_dam.Common.{
  ◌+◌, ◌≡◌, ◌↔◌, refl, arith, true, false, none, Bytes, List, [], ◌∷◌, ◌++◌, length, all_bytes,
  to_ascii_lowercase, codes,
}
use mongodb_dam.Common.Outcome.{ok, err, Ensures}
use mongodb_dam.Observer.Dns.{pointer_loop, parse_dns_name, decode_dns_message, join_labels}
use mongodb_dam.Observer.Dns.Bounds.{
  IsName, IsMessage, parse_dns_name-IsName, decode_dns_message-IsMessage,
}
use mongodb_dam.Observer.Dns.RoundTrip.{AllLabels, encode_name, parse_dns_name-encode_name}
use mongodb_dam.Schema.Types.{DamBatch, DamEvent, sensor_health, sensor, complete}
use mongodb_dam.Schema.Validate.{validate}
use mongodb_dam.Schema.Validate.Accepts.{IsBatch, validate_iff}

abbrev labels : List Bytes
labels = codes "Db-0" ∷ codes "local" ∷ []

labels-AllLabels : AllLabels labels
unfolding all_bytes
labels-AllLabels = ((omega arith, omega arith, refl), ((omega arith, omega arith, refl), tt))

abbrev header : Bytes
header = 0 ∷ 9 ∷ 1 ∷ 0 ∷ 0 ∷ 1 ∷ 0 ∷ 0 ∷ 0 ∷ 0 ∷ 0 ∷ 0 ∷ []

abbrev tail : Bytes
tail = 0 ∷ 1 ∷ 0 ∷ 1 ∷ []

parse_dns_name-encode_name_example :
    parse_dns_name (header ++ (encode_name labels ++ tail)) (length header)
    ≡ ok (to_ascii_lowercase (join_labels labels), length header + length (encode_name labels))
parse_dns_name-encode_name_example =
    parse_dns_name-encode_name labels header tail labels-AllLabels (omega arith)

-- A name that points at itself
abbrev cycle : Bytes
cycle = header ++ (192 ∷ 12 ∷ tail)

cycle_fails : parse_dns_name cycle 12 ≡ err pointer_loop
unfolding parse_dns_name
cycle_fails = refl

parse_dns_name-IsName_example : Ensures (IsName cycle 12) (parse_dns_name cycle 12)
parse_dns_name-IsName_example = parse_dns_name-IsName cycle 12

decode_dns_message-IsMessage_example :
    Ensures IsMessage (decode_dns_message (header ++ (encode_name labels ++ tail)))
decode_dns_message-IsMessage_example =
    decode_dns_message-IsMessage (header ++ (encode_name labels ++ tail))

abbrev event : DamEvent (Unit {0}) (Unit {0})
event = record {
  schema_version = 1;
  event_id = codes "e";
  observed_at = tt;
  monotonic_timestamp_ns = 5;
  customer_id = codes "c";
  tenant_id = codes "t";
  source_id = codes "s";
  regional_cell_id = codes "r";
  capture = record {
    sensor_id = codes "x";
    node_name = codes "n";
    source = sensor;
    confidence = complete;
    metadata_only = true;
    truncated = false;
  };
  kubernetes = none;
  process = none;
  identity = none;
  payload = sensor_health (record {
    status = codes "ok";
    component = codes "p";
    reason = codes "q";
    dropped_events = 0;
    parse_errors = 0;
    spool_bytes = 0;
  });
}

abbrev pub batch_of_one : DamBatch (Unit {0}) (Unit {0})
batch_of_one = record {
  schema_version = 1;
  batch_id = codes "b";
  customer_id = codes "c";
  tenant_id = codes "t";
  source_id = codes "s";
  regional_cell_id = codes "r";
  created_at = tt;
  events = event ∷ [];
}

validate_iff_example : (validate batch_of_one ≡ ok tt) ↔ IsBatch batch_of_one
validate_iff_example = validate_iff batch_of_one
