-- ===== src/Outpost/ObjectKey/Injective.antt =====
-- The keys of crates/outpost/src/lib.rs do not mix up batches.
use mongodb_dam.Common.{
  ℕ, ◌/◌, ◌%◌, ◌<◌, ◌≡◌, refl, sym, ◌∙◌, arith, Bool, true, false, not, ◌&&◌, ◌==◌, Bytes, [], ◌∷◌,
  ◌++◌, all_bytes, Bool-cases, inl, inr,
}
use mongodb_dam.Outpost.ObjectKey.{is_plain, upper_digit, encode_byte, encode_s3_key_segment}

abbrev pub AreBytes : Bytes → Type 0
AreBytes [] = Unit
AreBytes (c ∷ cs) = (c < 256) × AreBytes cs

abbrev pub not_slash : ℕ → Bool
not_slash c = not (c == b'/')

pub both_hold : (a b : Bool) → a ≡ true → b ≡ true → (a && b) ≡ true
both_hold a b h k = ground arith

encode_byte-plain : (c : ℕ) (x : Bytes) → is_plain c ≡ true → encode_byte c ++ x ≡ c ∷ x
unfolding encode_byte
encode_byte-plain c x h = rw h refl

encode_byte-escaped :
    (c : ℕ) (x : Bytes)
    → is_plain c ≡ false
    → encode_byte c ++ x ≡ b'%' ∷ upper_digit (c / 16) ∷ upper_digit (c % 16) ∷ x
unfolding encode_byte
encode_byte-escaped c x h = rw h refl

upper_digit-slash : (d : ℕ) → not_slash (upper_digit d) ≡ true
upper_digit-slash d = ground arith

plain-not_slash : (c : ℕ) → is_plain c ≡ true → not_slash c ≡ true
plain-not_slash c h = ground arith

-- An encoded text has no slash.
pub encode-no_slash : (text : Bytes) → all_bytes not_slash (encode_s3_key_segment text) ≡ true
unfolding all_bytes encode_s3_key_segment
encode-no_slash [] = refl
encode-no_slash (c ∷ cs) = elim (Bool-cases (is_plain c)) [
  | inl p ↦ rw (encode_byte-plain c _ p) (both_hold _ _ (plain-not_slash c p) (encode-no_slash cs))
  | inr e ↦ rw (encode_byte-escaped c _ e) (
      both_hold _ _ (upper_digit-slash (c / 16))
        (both_hold _ _ (upper_digit-slash (c % 16)) (encode-no_slash cs)))
]

upper_digit-injective : (c d : ℕ) → c < 16 → d < 16 → upper_digit c ≡ upper_digit d → c ≡ d
upper_digit-injective c d h k e = ground arith

byte_of_digits : (c d : ℕ) → c / 16 ≡ d / 16 → c % 16 ≡ d % 16 → c ≡ d
byte_of_digits c d h k = omega arith

pub head-∷ : (c d : ℕ) (x y : Bytes) → c ∷ x ≡ d ∷ y → (c ≡ d) × (x ≡ y)
head-∷ c d x y h = (cc, cc)

plain-not_percent : (c : ℕ) → is_plain c ≡ true → c ≡ b'%' → ⊥
plain-not_percent c h e = ground arith

encode_byte-injective :
    (c d : ℕ) (x y : Bytes)
    → c < 256
    → d < 256
    → encode_byte c ++ x ≡ encode_byte d ++ y
    → (c ≡ d) × (x ≡ y)
encode_byte-injective c d x y h k e = elim (Bool-cases (is_plain c)) [
  | inl p ↦
      let left = sym (encode_byte-plain c x p) in
      elim (Bool-cases (is_plain d)) [
        | inl q ↦ head-∷ c d x y (left ∙ (e ∙ encode_byte-plain d y q))
        | inr q ↦
            absurd
              (plain-not_percent c p (head-∷ _ _ _ _ (left ∙ (e ∙ encode_byte-escaped d y q))).0)
      ]
  | inr p ↦
      let left = sym (encode_byte-escaped c x p) in
      elim (Bool-cases (is_plain d)) [
        | inl q ↦
            absurd (
              plain-not_percent d q (sym (head-∷ _ _ _ _ (left ∙ (e ∙ encode_byte-plain d y q))).0))
        | inr q ↦
            let (_, digits) = head-∷ _ _ _ _ (left ∙ (e ∙ encode_byte-escaped d y q)) in
            let (high, more) = head-∷ _ _ _ _ digits in
            let (low, same) = head-∷ _ _ _ _ more in
            (
              byte_of_digits c d
                  (upper_digit-injective (c / 16) (d / 16) (omega arith) (omega arith) high)
                  (upper_digit-injective (c % 16) (d % 16) (omega arith) (omega arith) low),
              same,
            )
      ]
]

encode_byte-not_empty : (c : ℕ) (x : Bytes) → encode_byte c ++ x ≡ [] → ⊥
encode_byte-not_empty c x h = elim (Bool-cases (is_plain c)) [
  | inl p ↦ (let e : c ∷ x ≡ [] = sym (encode_byte-plain c x p) ∙ h in cc)
  | inr p ↦ (let e = sym (encode_byte-escaped c x p) ∙ h in cc)
]

-- Two texts with the same encoded form are the same.
pub encode_s3_key_segment-injective :
    (a b : Bytes)
    → AreBytes a
    → AreBytes b
    → encode_s3_key_segment a ≡ encode_s3_key_segment b
    → a ≡ b
unfolding encode_s3_key_segment
encode_s3_key_segment-injective [] [] h k e = refl
encode_s3_key_segment-injective [] (d ∷ b) h k e = absurd (encode_byte-not_empty d _ (sym e))
encode_s3_key_segment-injective (c ∷ a) [] h k e = absurd (encode_byte-not_empty c _ e)
encode_s3_key_segment-injective (c ∷ a) (d ∷ b) (h, hs) (k, ks) e =
    let (same, rest) = encode_byte-injective c d _ _ h k e in
    let more = encode_s3_key_segment-injective a b hs ks rest in λ i. same i ∷ more i
