-- ===== src/Observer/PodUid/Form.antt =====
-- The identifiers that `extract_pod_uid` of crates/observer/src/lib.rs finds.
use mongodb_dam.Common.{
  ℕ, suc, ◌≡◌, ◌⊎◌, ◌∙◌, refl, sym, subst, arith, Bool, true, false, ◌&&◌, ◌||◌, ◌==◌, Option, none,
  some, Bytes, [], ◌∷◌, ◌++◌, length, length-take, length-append, take, take-length_append, leb,
  le→leb, leb→le, lower, to_ascii_lowercase, is_ascii_hexdigit, codes, strip_prefix, if◌then◌else◌,
  inl, inr,
}
use mongodb_dam.Observer.PodUid.{
  candidate, normalized, is_uid_byte, is_uid_from, uid_of, uid_here, extract_pod_uid,
}

-- The text of an identifier: hexadecimal digits in lower case, and dashes at 8, 13, 18 and 23.
pub record IsUid (uid : Bytes) : Type 0 where
  pub size : length uid ≡ 36
  pub form : is_uid_from 0 uid ≡ true
  pub lower_case : to_ascii_lowercase uid ≡ uid

lower-lower : (c : ℕ) → lower (lower c) ≡ lower c
lower-lower c = ground arith

lowered : (bs : Bytes) → to_ascii_lowercase (to_ascii_lowercase bs) ≡ to_ascii_lowercase bs
lowered [] = refl
lowered (c ∷ bs) = λ i. lower-lower c i ∷ lowered bs i

length-lowered : (bs : Bytes) → length (to_ascii_lowercase bs) ≡ length bs
length-lowered [] = refl
length-lowered (c ∷ bs) = λ i. suc (length-lowered bs i)

is_uid_byte-lower : (index c : ℕ) → is_uid_byte index c ≡ true → is_uid_byte index (lower c) ≡ true
is_uid_byte-lower index c h = ground arith

is_uid_from-lowered :
    (index : ℕ) (bs : Bytes)
    → is_uid_from index bs ≡ true
    → is_uid_from index (to_ascii_lowercase bs) ≡ true
unfolding is_uid_from
is_uid_from-lowered index [] h = refl
is_uid_from-lowered index (c ∷ bs) h =
    ground (arith, is_uid_byte-lower index c, is_uid_from-lowered (suc index) bs)

accepted :
    (b : Bool) (x uid : Bytes) → (if b then some x else none) ≡ some uid → (b ≡ true) × (x ≡ uid)
accepted b x uid h = ground arith

both : (a b : Bool) → (a && b) ≡ true → (a ≡ true) × (b ≡ true)
both a b h = ground arith

uid_of-IsUid : (suffix uid : Bytes) → uid_of suffix ≡ some uid → IsUid uid
unfolding uid_of
uid_of-IsUid suffix uid h =
    let text = normalized (candidate suffix) in
    let (fits, e) =
      accepted (leb 36 (length text) && is_uid_from 0 (take 36 text))
        (to_ascii_lowercase (take 36 text)) uid h in
    let (long, form) = both (leb 36 (length text)) (is_uid_from 0 (take 36 text)) fits in
    subst IsUid e (record {
      size =
          omega (
            arith,
            length-lowered (take 36 text),
            length-take 36 text,
            leb→le 36 (length text) long,
          );
      form = is_uid_from-lowered 0 (take 36 text) form;
      lower_case = lowered (take 36 text);
    })

uid_here-IsUid : (suffix : Option Bytes) (uid : Bytes) → uid_here suffix ≡ some uid → IsUid uid
unfolding uid_here
uid_here-IsUid none uid h = cc
uid_here-IsUid (some suffix) uid h = uid_of-IsUid suffix uid h

first_found :
    (here later : Option Bytes) (uid : Bytes)
    → (elim here [ none ↦ later | some found ↦ some found ]) ≡ some uid
    → (later ≡ some uid) ⊎ (here ≡ some uid)
first_found none later uid h = inl h
first_found (some found) later uid h = inr h

-- What `extract_pod_uid` finds in any text has 36 bytes: hexadecimal digits in lower case, with
-- dashes at the places 8, 13, 18 and 23.
pub extract_pod_uid-IsUid : (cgroup uid : Bytes) → extract_pod_uid cgroup ≡ some uid → IsUid uid
unfolding extract_pod_uid uid_here
extract_pod_uid-IsUid [] uid h = cc
extract_pod_uid-IsUid (c ∷ cs) uid h =
    elim (first_found (uid_here (strip_prefix (codes "pod") (c ∷ cs))) (extract_pod_uid cs) uid h) [
      | inl later ↦ extract_pod_uid-IsUid cs uid later
      | inr here ↦ uid_here-IsUid (strip_prefix (codes "pod") (c ∷ cs)) uid here
    ]

is_candidate : ℕ → Bool
is_candidate c = is_ascii_hexdigit c || c == b'-' || c == b'_'

-- A byte of an identifier, which may be written with `_` for `-`.
uid_byte_taken :
    (index c : ℕ) → is_uid_byte index (if c == b'_' then b'-' else c) ≡ true → is_candidate c ≡ true
unfolding is_candidate
uid_byte_taken index c h = ground arith

candidate-append :
    (index : ℕ) (uid rest : Bytes)
    → is_uid_from index (normalized uid) ≡ true
    → normalized (candidate (uid ++ rest)) ≡ normalized uid ++ normalized (candidate rest)
unfolding candidate is_uid_from is_candidate
candidate-append index [] rest h = refl
candidate-append index (c ∷ uid) rest h =
    let (byte, more) = both _ _ h in
    rw (uid_byte_taken index c byte, candidate-append (suc index) uid rest more) refl

length-normalized : (bs : Bytes) → length (normalized bs) ≡ length bs
length-normalized [] = refl
length-normalized (c ∷ cs) = ground (arith, length-normalized cs)

uid_of-append :
    (uid rest : Bytes)
    → length uid ≡ 36
    → is_uid_from 0 (normalized uid) ≡ true
    → uid_of (uid ++ rest) ≡ some (to_ascii_lowercase (normalized uid))
unfolding uid_of
uid_of-append uid rest h form =
    let more = normalized (candidate rest) in
    let dashed = normalized uid in
    let same : length dashed ≡ 36 = length-normalized uid ∙ h in
    let first : take 36 (dashed ++ more) ≡ dashed =
      subst (λ n. take n (dashed ++ more) ≡ dashed) same (take-length_append dashed more) in
    let long : leb 36 (length (dashed ++ more)) ≡ true =
      le→leb 36 (length (dashed ++ more)) (omega (arith, length-append dashed more)) in
    rw (candidate-append 0 uid rest form, first, long, form) refl

found_here :
    (uid rest : Bytes)
    → length uid ≡ 36
    → is_uid_from 0 (normalized uid) ≡ true
    → extract_pod_uid (codes "pod" ++ (uid ++ rest)) ≡ some (to_ascii_lowercase (normalized uid))
unfolding extract_pod_uid uid_here strip_prefix
found_here uid rest h form =
    subst
      (λ (here : Option Bytes).
        (elim here as (λ _. Option Bytes) [
          | none ↦ extract_pod_uid (codes "od" ++ (uid ++ rest))
          | some found ↦ some found
        ])
        ≡ some (to_ascii_lowercase (normalized uid)))
      (sym (uid_of-append uid rest h form)) refl

is_none : Option Bytes → Bool
is_none none = true
is_none (some uid) = false

-- No marker that begins in `before` has an identifier behind it.
unfoldable pub none_before : Bytes → Bytes → Bool
unfolding uid_here strip_prefix is_none
none_before [] text = true
none_before (c ∷ cs) text =
    is_none (uid_here (strip_prefix (codes "pod") (c ∷ (cs ++ text)))) && none_before cs text

found_later :
    (here later : Option Bytes)
    → is_none here ≡ true
    → (elim here as (λ _. Option Bytes) [ none ↦ later | some found ↦ some found ]) ≡ later
unfolding is_none
found_later none later h = refl
found_later (some uid) later h = ground arith

-- The first identifier behind a marker, wherever it stands in the text, in either case and with
-- dashes or underscores, is found, and returned in lower case with dashes.
pub extract_pod_uid-append :
    (before uid rest : Bytes)
    → length uid ≡ 36
    → is_uid_from 0 (normalized uid) ≡ true
    → none_before before (codes "pod" ++ (uid ++ rest)) ≡ true
    → extract_pod_uid (before ++ (codes "pod" ++ (uid ++ rest)))
      ≡ some (to_ascii_lowercase (normalized uid))
unfolding extract_pod_uid none_before
extract_pod_uid-append [] uid rest h form first = found_here uid rest h form
extract_pod_uid-append (c ∷ before) uid rest h form first =
    let (none_here, none_later) = both _ _ first in
    found_later _ (extract_pod_uid (before ++ (codes "pod" ++ (uid ++ rest)))) none_here
    ∙ extract_pod_uid-append before uid rest h form none_later
