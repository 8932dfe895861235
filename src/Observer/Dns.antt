-- ===== src/Observer/Dns.antt =====
-- `decode_dns_message` and `parse_dns_name` of crates/observer/src/lib.rs. The error texts are the
-- constructors of `DnsError`. The loop of `parse_dns_name` takes at most sixteen jumps and 254
-- decoded bytes, so 273 turns are enough.
pub mod Bounds
pub mod RoundTrip
use mongodb_dam.Common.{
  ℕ, zero, suc, ◌+◌, ◌*◌, ◌-◌, ◌/◌, ◌%◌, ◌^◌, ◌==◌, Bool, true, false, not, ◌||◌, Option, none,
  some, Bytes, List, [], ◌∷◌, ◌++◌, ◌⊎◌, inl, inr, ltb, if◌then◌else◌, length, get_elem?, slice,
  all_bytes, is_ascii_alphanumeric, to_ascii_lowercase, codes, to_decimal,
}
use mongodb_dam.Common.Outcome.{Outcome, ok, err, spent, ◌>>=◌, ok_or}

pub data DnsError : Type 0 where
  truncated_header truncated_name truncated_pointer truncated_label truncated_integer : DnsError
  pointer_loop invalid_label_type invalid_label_length unsupported_bytes name_too_long : DnsError

abbrev pub Dns {ℓ} : Type ℓ → Type ℓ
Dns = Outcome DnsError

-- `u16::from_be_bytes`
abbrev from_be : Bytes → ℕ
from_be (high ∷ low ∷ _) = high * 256 + low
from_be _ = 0

pub read_network_u16 : Bytes → ℕ → Dns ℕ
read_network_u16 bytes offset = do
  two ← ok_or (slice bytes offset (offset + 2)) truncated_integer
  ok (from_be two)

dns_record_type : ℕ → Bytes
dns_record_type value =
    if value == 1
    then codes "A"
    else if value == 2
    then codes "NS"
    else if value == 5
    then codes "CNAME"
    else if value == 6
    then codes "SOA"
    else if value == 12
    then codes "PTR"
    else if value == 15
    then codes "MX"
    else if value == 16
    then codes "TXT"
    else if value == 28
    then codes "AAAA"
    else if value == 33
    then codes "SRV"
    else if value == 41
    then codes "OPT"
    else if value == 255
    then codes "ANY"
    else to_decimal value

-- The variables of `parse_dns_name`.
pub record NameState : Type 0 where
  pub labels : List Bytes
  pub cursor : ℕ
  pub after_name : Option ℕ
  pub jumps : ℕ
  pub decoded_bytes : ℕ

-- `labels.join(".")`
abbrev pub join_labels : List Bytes → Bytes
join_labels [] = []
join_labels (label ∷ []) = label
join_labels (label ∷ next ∷ labels) = label ++ (b'.' ∷ join_labels (next ∷ labels))

abbrev pub is_label_byte : ℕ → Bool
is_label_byte c = is_ascii_alphanumeric c || c == b'-' || c == b'_'

abbrev pub unwrap_or : Option ℕ → ℕ → ℕ
unwrap_or none n = n
unwrap_or (some m) n = m

-- A turn of the loop goes on with the variables, or returns the name and the offset behind it.
abbrev pub Turn : Type 0
Turn = NameState ⊎ (Bytes × ℕ)

-- A compression pointer, whose first byte is `first`: 256 times its low six bits, and the second.
follow_pointer : Bytes → NameState → ℕ → Dns Turn
follow_pointer bytes s first = do
  second ← ok_or (get_elem? bytes (s.cursor + 1)) truncated_pointer
  if ltb 16 (s.jumps + 1)
      then err pointer_loop
      else ok (
          inl (record {
            labels = s.labels;
            cursor = first % 64 * 256 + second;
            after_name = some (unwrap_or s.after_name (s.cursor + 2));
            jumps = s.jumps + 1;
            decoded_bytes = s.decoded_bytes;
          }))

-- A label of `n` bytes behind its length byte.
take_label : Bytes → NameState → ℕ → Dns Turn
take_label bytes s n = do
  label ← ok_or (slice bytes (s.cursor + 1) (s.cursor + 1 + n)) truncated_label
  if not (all_bytes is_label_byte label)
      then err unsupported_bytes
      else if ltb 254 (s.decoded_bytes + (length label + 1))
      then err name_too_long
      else ok (
          inl (record {
            labels = s.labels ++ (label ∷ []);
            cursor = s.cursor + 1 + n;
            after_name = s.after_name;
            jumps = s.jumps;
            decoded_bytes = s.decoded_bytes + (length label + 1);
          }))

-- The two high bits of the byte `first` decide: 3 is a pointer, 0 a label or the end.
name_turn_at : Bytes → NameState → ℕ → Dns Turn
name_turn_at bytes s first =
    if first / 64 % 4 == 3
    then follow_pointer bytes s first
    else if not (first / 64 % 4 == 0)
    then err invalid_label_type
    else if first == 0
    then ok (inr (to_ascii_lowercase (join_labels s.labels), unwrap_or s.after_name (s.cursor + 1)))
    else if ltb 63 first
    then err invalid_label_length
    else take_label bytes s first

name_turn : Bytes → NameState → Dns Turn
name_turn bytes s = do
  first ← ok_or (get_elem? bytes s.cursor) truncated_name
  name_turn_at bytes s first

name_next : (NameState → Dns (Bytes × ℕ)) → Turn → Dns (Bytes × ℕ)
name_next again (inl s) = again s
name_next again (inr found) = ok found

name_loop : ℕ → Bytes → NameState → Dns (Bytes × ℕ)
name_loop zero bytes s = spent
name_loop (suc fuel) bytes s = name_turn bytes s >>= name_next (λ s'. name_loop fuel bytes s')

abbrev pub name_start : ℕ → NameState
name_start offset = record {
  labels = [];
  cursor = offset;
  after_name = none;
  jumps = 0;
  decoded_bytes = 0;
}

unfoldable pub parse_dns_name : Bytes → ℕ → Dns (Bytes × ℕ)
unfolding name_loop name_next name_turn name_turn_at take_label follow_pointer
parse_dns_name bytes offset = name_loop 273 bytes (name_start offset)

pub record DecodedDnsMessage : Type 0 where
  pub query_id : ℕ
  pub response : Bool
  pub response_code : ℕ
  pub answer_count : ℕ
  pub name : Option Bytes
  pub record_type : Option Bytes

-- The question of a message that has one.
question : Bytes → ℕ → Dns (Option Bytes × Option Bytes)
question bytes zero = ok (none, none)
question bytes (suc more) = do
  (name, after_name) ← parse_dns_name bytes 12
  record_type ← read_network_u16 bytes after_name
  record_class ← read_network_u16 bytes (after_name + 2)
  ok (some name, some (dns_record_type record_type))

pub decode_dns_message : Bytes → Dns DecodedDnsMessage
unfolding question parse_dns_name read_network_u16
decode_dns_message bytes = if ltb (length bytes) 12 then err truncated_header else do
  query_id ← read_network_u16 bytes 0
  flags ← read_network_u16 bytes 2
  question_count ← read_network_u16 bytes 4
  answer_count ← read_network_u16 bytes 6
  (name, record_type) ← question bytes question_count
  ok (record {
    query_id = query_id;
    response = flags / 2 ^ 15 % 2 == 1;
    response_code = flags % 16;
    answer_count = answer_count;
    name = name;
    record_type = record_type;
  })
