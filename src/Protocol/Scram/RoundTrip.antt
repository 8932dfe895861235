-- ===== src/Protocol/Scram/RoundTrip.antt =====
-- The escapes of RFC 5802 in a user name, and what `parse_scram_principal` of
-- crates/mongo-protocol/src/lib.rs reads of an escaped name.
use mongodb_dam.Common.{
  ℕ, ◌*◌, ◌==◌, ◌≡◌, ◌≤◌, refl, ap, ◌∙◌, arith, true, false, some, Bytes, List, [], ◌∷◌, ◌++◌, ltb,
  if◌then◌else◌, length, is_utf8, any_control, strip_prefix, split_on, Bool-cases, inl, inr,
}
use mongodb_dam.Protocol.Scram.{
  name_field, find_name, replace_escape, unescape, accept_name, decode_name, parse_scram_principal,
}

-- `saslname`: a comma is written `=2C`, an equals sign `=3D`.
unfoldable pub escape : Bytes → Bytes
escape [] = []
escape (c ∷ cs) =
    let rest = escape cs in
    if c == b','
    then b'=' ∷ b'2' ∷ b'C' ∷ rest
    else if c == b'='
    then b'=' ∷ b'3' ∷ b'D' ∷ rest
    else c ∷ rest

-- The escapes of equals signs alone.
escape_equals : Bytes → Bytes
escape_equals [] = []
escape_equals (c ∷ cs) =
    let rest = escape_equals cs in if c == b'=' then b'=' ∷ b'3' ∷ b'D' ∷ rest else c ∷ rest

replace_escape-nil : (high low by : ℕ) → replace_escape high low by [] ≡ []
unfolding replace_escape
replace_escape-nil high low by = refl

replace_escape-plain :
    (high low by c : ℕ) (text : Bytes)
    → (c == b'=') ≡ false
    → replace_escape high low by (c ∷ text) ≡ c ∷ replace_escape high low by text
unfolding replace_escape
replace_escape-plain high low by c [] h = refl
replace_escape-plain high low by c (d ∷ []) h = refl
replace_escape-plain high low by c (d ∷ e ∷ text) h = rw h refl

replace_escape-other :
    (high low by d : ℕ) (text : Bytes)
    → (d == high) ≡ false
    → replace_escape high low by (b'=' ∷ d ∷ text) ≡ b'=' ∷ replace_escape high low by (d ∷ text)
unfolding replace_escape
replace_escape-other high low by d [] h = refl
replace_escape-other high low by d (e ∷ text) h = rw h refl

replace_escape-match :
    (high low by : ℕ) (text : Bytes)
    → (high == high) ≡ true
    → (low == low) ≡ true
    → replace_escape high low by (b'=' ∷ high ∷ low ∷ text) ≡ by ∷ replace_escape high low by text
unfolding replace_escape
replace_escape-match high low by text h k = simp (h, k)

replace_commas : (name : Bytes) → replace_escape b'2' b'C' b',' (escape name) ≡ escape_equals name
unfolding escape escape_equals
replace_commas [] = replace_escape-nil b'2' b'C' b','
replace_commas (c ∷ cs) =
    let later = replace_commas cs in
    elim (Bool-cases (c == b',')) [
      | inl comma ↦
          let same : c ≡ b',' = ground arith in
          rw same
            (replace_escape-match b'2' b'C' b',' (escape cs) refl refl ∙ ap (λ x. b',' ∷ x) later)
      | inr plain ↦ elim (Bool-cases (c == b'=')) [
        | inl equals ↦
            let same : c ≡ b'=' = ground arith in
            rw same (
              replace_escape-other b'2' b'C' b',' b'3' (b'D' ∷ escape cs) refl
              ∙ ap (λ x. b'=' ∷ x)
                  (replace_escape-plain b'2' b'C' b',' b'3' (b'D' ∷ escape cs) refl)
              ∙ ap (λ x. b'=' ∷ b'3' ∷ x)
                  (replace_escape-plain b'2' b'C' b',' b'D' (escape cs) refl)
              ∙ ap (λ x. b'=' ∷ b'3' ∷ b'D' ∷ x) later)
        | inr letter ↦
            simp (plain, letter)
              (replace_escape-plain b'2' b'C' b',' c (escape cs) letter ∙ ap (λ x. c ∷ x) later)
      ]
    ]

replace_equals : (name : Bytes) → replace_escape b'3' b'D' b'=' (escape_equals name) ≡ name
unfolding escape_equals
replace_equals [] = replace_escape-nil b'3' b'D' b'='
replace_equals (c ∷ cs) =
    let later = replace_equals cs in
    elim (Bool-cases (c == b'=')) [
      | inl equals ↦
          let same : c ≡ b'=' = ground arith in
          rw same (
            replace_escape-match b'3' b'D' b'=' (escape_equals cs) refl refl
            ∙ ap (λ x. b'=' ∷ x) later)
      | inr letter ↦
          simp (letter) (
            replace_escape-plain b'3' b'D' b'=' c (escape_equals cs) letter ∙ ap (λ x. c ∷ x) later)
    ]

unescape-escape : (name : Bytes) → unescape (escape name) ≡ name
unfolding unescape
unescape-escape name =
    ap (replace_escape b'3' b'D' b'=') (replace_commas name) ∙ replace_equals name

length-escape : (name : Bytes) → length (escape name) ≤ 3 * length name
unfolding escape
length-escape [] = omega arith
length-escape (c ∷ cs) = ground (arith, length-escape cs)

-- A piece that holds no separator ends at the first one.
split_on-escape :
    (name rest : Bytes)
    → split_on b',' (escape name ++ (b',' ∷ rest)) ≡ escape name ∷ split_on b',' rest
unfolding escape split_on
split_on-escape [] rest = refl
split_on-escape (c ∷ cs) rest =
    let later = split_on-escape cs rest in
    elim (Bool-cases (c == b',')) [
      | inl comma ↦ simp (comma, later)
      | inr plain ↦ elim (Bool-cases (c == b'=')) [
        | inl equals ↦ simp (plain, equals, later)
        | inr letter ↦ simp (plain, letter, later)
      ]
    ]

-- A name that a principal may have.
abbrev pub IsPrincipal : Bytes → Type 0
IsPrincipal name = (1 ≤ length name) × (length name ≤ 256) × (any_control name ≡ false)

name_field-escape :
    (name : Bytes) → 1 ≤ length name → name_field (b'n' ∷ b'=' ∷ escape name) ≡ some (escape name)
unfolding name_field escape strip_prefix
name_field-escape [] h = absurd (omega arith)
name_field-escape (c ∷ cs) h = ground arith

-- The first two fields of the message are no names.
find_name-third :
    (field found : Bytes) (fields : List Bytes)
    → name_field field ≡ some found
    → find_name ((b'n' ∷ []) ∷ [] ∷ field ∷ fields) ≡ some found
unfolding find_name name_field strip_prefix
find_name-third field found fields h = rw h refl

find_name-escape :
    (name rest : Bytes)
    → 1 ≤ length name
    → find_name (split_on b',' (b'n' ∷ b',' ∷ b',' ∷ b'n' ∷ b'=' ∷ (escape name ++ (b',' ∷ rest))))
      ≡ some (escape name)
unfolding split_on
find_name-escape name rest h = simp (split_on-escape name rest) (
    find_name-third (b'n' ∷ b'=' ∷ escape name) (escape name) (split_on b',' rest)
      (name_field-escape name h))

decode_name-escape :
    (name : Bytes) → IsPrincipal name → decode_name (some (escape name)) ≡ some name
unfolding decode_name accept_name
decode_name-escape name (long, short, plain) =
    let fits : ltb 768 (length (escape name)) ≡ false = ground (arith, length-escape name) in
    let some_bytes : ltb 0 (length name) ≡ true = ground arith in
    let few : ltb 256 (length name) ≡ false = ground arith in
    simp (fits, unescape-escape name, some_bytes, few, plain)

-- In a SCRAM client-first message of valid UTF-8, `n,,n=` and the escaped name up to a comma,
-- `parse_scram_principal` finds the name, where it has 1 to 256 bytes and no control character.
pub parse_scram_principal-escape :
    (name rest : Bytes)
    → IsPrincipal name
    → is_utf8 (b'n' ∷ b',' ∷ b',' ∷ b'n' ∷ b'=' ∷ (escape name ++ (b',' ∷ rest))) ≡ true
    → parse_scram_principal (b'n' ∷ b',' ∷ b',' ∷ b'n' ∷ b'=' ∷ (escape name ++ (b',' ∷ rest)))
      ≡ some name
unfolding parse_scram_principal
parse_scram_principal-escape name rest p text =
    let (long, _, _) = p in simp (text, find_name-escape name rest long, decode_name-escape name p)
