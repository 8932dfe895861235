-- ===== src/Observer/Endpoint.antt =====
-- `parse_endpoint` and `parse_proc_net_tcp` of crates/observer/src/lib.rs, with the standard
-- library's texts of IP addresses.
use mongodb_dam.Common.{
  ℕ, zero, suc, ◌+◌, ◌*◌, ◌^◌, ◌==◌, Bool, true, false, not, Option, none, some, Bytes, List, [],
  ◌∷◌, ◌++◌, ltb, if◌then◌else◌, length, take, drop, bytes_eq, split_once, to_decimal,
}
use mongodb_dam.Common.Numerals.{from_str_radix, le_bytes, to_hex}
use mongodb_dam.Common.Space.{lines, split_whitespace}
use mongodb_dam.Common.{is_utf8}
use mongodb_dam.Schema.Types.{NetworkEndpoint}

-- `Ipv4Addr::to_string`, of the bytes of the address
unfoldable pub ipv4_text : Bytes → Bytes
unfolding to_decimal
ipv4_text [] = []
ipv4_text (b ∷ []) = to_decimal b
ipv4_text (b ∷ c ∷ bs) = to_decimal b ++ (b'.' ∷ ipv4_text (c ∷ bs))

-- The segments of an IPv6 address, of its bytes.
abbrev segments : Bytes → List ℕ
segments (high ∷ low ∷ bs) = (high * 256 + low) ∷ segments bs
segments _ = []

-- A run of zeros: its start and its length.
abbrev Run : Type 0
Run = ℕ × ℕ

-- The longest run of zeros, the first of them, behind `longest` and the run `current` that may go on
-- at the segment `index`.
longest_zeros : Run → Run → ℕ → List ℕ → Run
longest_zeros longest current index [] = longest
longest_zeros longest (start, n) index (segment ∷ more) =
    let grown : Run = if n == 0 then (index, 1) else (start, n + 1) in
    let (now, next) : Run × Run =
      if segment == 0
      then (if ltb longest.1 grown.1 then grown else longest, grown)
      else (longest, (0, 0)) in
    longest_zeros now next (suc index) more

-- Segments with colons between them.
segments_text : List ℕ → Bytes
unfolding to_hex
segments_text [] = []
segments_text (s ∷ []) = to_hex s
segments_text (s ∷ t ∷ more) = to_hex s ++ (b':' ∷ segments_text (t ∷ more))

compressed : List ℕ → Run → Bytes
unfolding segments_text
compressed parts (start, n) =
    if ltb 1 n
    then segments_text (take start parts) ++ (b':' ∷ b':' ∷ segments_text (drop (start + n) parts))
    else segments_text parts

-- `::ffff:0:0/96`
abbrev is_mapped : Bytes → Bool
is_mapped bytes =
    bytes_eq (take 12 bytes) (0 ∷ 0 ∷ 0 ∷ 0 ∷ 0 ∷ 0 ∷ 0 ∷ 0 ∷ 0 ∷ 0 ∷ 0xff ∷ 0xff ∷ [])

-- `Ipv6Addr::to_string`, of the bytes of the address
unfoldable pub ipv6_text : Bytes → Bytes
unfolding compressed longest_zeros ipv4_text bytes_eq
ipv6_text bytes =
    if is_mapped bytes
    then b':' ∷ b':' ∷ b'f' ∷ b'f' ∷ b'f' ∷ b'f' ∷ b':' ∷ ipv4_text (drop 12 bytes)
    else compressed (segments bytes) (longest_zeros (0, 0) (0, 0) 0 (segments bytes))

-- The bytes of `words` words of eight digits each.
unfoldable pub words_bytes : ℕ → Bytes → Option Bytes
unfolding is_utf8 from_str_radix le_bytes
words_bytes zero text = some []
words_bytes (suc words) text =
    let rest = words_bytes words (drop 8 text) in
    if not (is_utf8 (take 8 text)) then none else elim (from_str_radix (2 ^ 32) 16 (take 8 text)) [
      | none ↦ none
      | some decoded ↦ elim rest [ none ↦ none | some bytes ↦ some (le_bytes 4 decoded ++ bytes) ]
    ]

unfoldable pub parse_address : Bytes → Bool → Option Bytes
unfolding words_bytes ipv6_text
parse_address address true =
    if not (length address == 32)
    then none
    else elim (words_bytes 4 address) [ none ↦ none | some bytes ↦ some (ipv6_text bytes) ]
parse_address address false = elim (from_str_radix (2 ^ 32) 16 address) [
  | none ↦ none
  | some encoded ↦ some (ipv4_text (le_bytes 4 encoded))
]

unfoldable pub parse_endpoint : Bytes → Bool → Option NetworkEndpoint
unfolding parse_address split_once from_str_radix
parse_endpoint value ipv6 = elim (split_once b':' value) [
  | none ↦ none
  | some (address, port) ↦ elim (from_str_radix (2 ^ 16) 16 port) [
    | none ↦ none
    | some number ↦ elim (parse_address address ipv6) [
      | none ↦ none
      | some text ↦ some (record { address = some text; port = some number })
    ]
  ]
]

-- The fields of a line with the wanted inode, which the tenth field holds.
wanted_fields : Bytes → List Bytes → Option (Bytes × Bytes)
unfolding bytes_eq
wanted_fields inode (f0 ∷ f1 ∷ f2 ∷ f3 ∷ f4 ∷ f5 ∷ f6 ∷ f7 ∷ f8 ∷ f9 ∷ more) =
    if bytes_eq f9 inode then some (f1, f2) else none
wanted_fields inode _ = none

endpoints_of : Bool → Bytes × Bytes → Option (NetworkEndpoint × NetworkEndpoint)
unfolding parse_endpoint
endpoints_of ipv6 (local, remote) = elim (parse_endpoint local ipv6) [
  | none ↦ none
  | some l ↦ elim (parse_endpoint remote ipv6) [ none ↦ none | some r ↦ some (l, r) ]
]

-- The first line with the inode decides, whether its addresses can be read or not.
find_inode : Bytes → Bool → List Bytes → Option (NetworkEndpoint × NetworkEndpoint)
unfolding wanted_fields endpoints_of
find_inode inode ipv6 [] = none
find_inode inode ipv6 (line ∷ more) =
    let rest = find_inode inode ipv6 more in
    elim (wanted_fields inode (split_whitespace line)) [
      | none ↦ rest
      | some fields ↦ endpoints_of ipv6 fields
    ]

unfoldable pub parse_proc_net_tcp :
    Bytes → Bytes → Bool → Option (NetworkEndpoint × NetworkEndpoint)
unfolding find_inode
parse_proc_net_tcp table wanted_inode ipv6 = find_inode wanted_inode ipv6 (drop 1 (lines table))
