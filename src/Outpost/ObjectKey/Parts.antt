-- ===== src/Outpost/ObjectKey/Parts.antt =====
-- The keys of crates/outpost/src/lib.rs name the parts of a batch.
use mongodb_dam.Common.{
  ℕ, ◌≡◌, refl, sym, ap, subst, ◌∙◌, arith, Bool, true, false, ◌&&◌, ◌||◌, ◌==◌, Bytes, [], ◌∷◌,
  ◌++◌, length, length-append, take, drop, take-length_append, drop-length_append, all_bytes,
  if◌then◌else◌, codes,
}
use mongodb_dam.Schema.Types.{DamBatch}
use mongodb_dam.Outpost.State.{Platform, S3DestinationConfig}
use mongodb_dam.Outpost.ObjectKey.{
  encode_s3_key_segment, normalized_s3_prefix, date_part, s3_object_key,
}
use mongodb_dam.Outpost.ObjectKey.Injective.{
  AreBytes, not_slash, both_hold, head-∷, encode-no_slash, encode_s3_key_segment-injective,
}

NoSlash : Bytes → Type 0
NoSlash text = all_bytes not_slash text ≡ true

both_false : (a b : Bool) → (a && b) ≡ true → (a ≡ true) × (b ≡ true)
both_false a b h = ground arith

slash-not_slash : (c : ℕ) → c ≡ b'/' → not_slash c ≡ true → ⊥
slash-not_slash c e h = ground arith

-- Texts are cut at their first slash in one way.
cut :
    (a b x y : Bytes)
    → NoSlash a
    → NoSlash b
    → a ++ (b'/' ∷ x) ≡ b ++ (b'/' ∷ y)
    → (a ≡ b) × (x ≡ y)
unfolding NoSlash all_bytes
cut [] [] x y h k e = (refl, (head-∷ _ _ x y e).1)
cut [] (d ∷ b) x y h k e =
    absurd (slash-not_slash d (sym (head-∷ _ _ _ _ e).0) (both_false _ _ k).0)
cut (c ∷ a) [] x y h k e = absurd (slash-not_slash c (head-∷ _ _ _ _ e).0 (both_false _ _ h).0)
cut (c ∷ a) (d ∷ b) x y h k e =
    let (first, rest) = head-∷ _ _ _ _ e in
    let (more, same) = cut a b x y (both_false _ _ h).1 (both_false _ _ k).1 rest in
    (λ i. first i ∷ more i, same)

has_slash : Bytes → Bool
has_slash [] = false
has_slash (c ∷ cs) = let rest = has_slash cs in c == b'/' || rest

-- What stands behind the last slash.
last_segment : Bytes → Bytes
unfolding has_slash
last_segment [] = []
last_segment (c ∷ cs) =
    let rest = last_segment cs in if has_slash cs then rest else if c == b'/' then cs else c ∷ cs

NoSlash-has_slash : (s : Bytes) → NoSlash s → has_slash s ≡ false
unfolding NoSlash all_bytes has_slash
NoSlash-has_slash [] h = refl
NoSlash-has_slash (c ∷ cs) h =
    let (here, later) = both_false _ _ h in ground (arith, NoSlash-has_slash cs later)

has_slash-append : (x s : Bytes) → has_slash (x ++ (b'/' ∷ s)) ≡ true
unfolding has_slash
has_slash-append [] s = refl
has_slash-append (c ∷ x) s = ground (arith, has_slash-append x s)

last_segment-append : (x s : Bytes) → NoSlash s → last_segment (x ++ (b'/' ∷ s)) ≡ s
unfolding last_segment
last_segment-append [] s h = rw (NoSlash-has_slash s h) refl
last_segment-append (c ∷ x) s h = rw (has_slash-append x s) (last_segment-append x s h)

NoSlash-append : (a b : Bytes) → NoSlash a → NoSlash b → NoSlash (a ++ b)
unfolding NoSlash all_bytes
NoSlash-append [] b h k = k
NoSlash-append (c ∷ a) b h k =
    let (here, later) = both_false _ _ h in both_hold _ _ here (NoSlash-append a b later k)

append_cancel : (a b s : Bytes) → a ++ s ≡ b ++ s → a ≡ b
append_cancel a b s e =
    let n : length a ≡ length b =
      omega (arith, length-append a s, length-append b s, ap (λ t. length t) e) in
    sym (take-length_append a s)
    ∙ (ap (λ t. take (length a) t) e
        ∙ subst (λ m. take m (b ++ s) ≡ b) (sym n) (take-length_append b s))

-- The parts of a batch that its key names are texts.
pub record AreTexts {Time Value : Type 0} (batch : DamBatch Time Value) : Type 0 where
  pub customer : AreBytes batch.customer_id
  pub tenant : AreBytes batch.tenant_id
  pub cell : AreBytes batch.regional_cell_id
  pub source : AreBytes batch.source_id
  pub id : AreBytes batch.batch_id

segment_cut :
    (a b x y : Bytes)
    → encode_s3_key_segment a ++ (b'/' ∷ x) ≡ encode_s3_key_segment b ++ (b'/' ∷ y)
    → (encode_s3_key_segment a ≡ encode_s3_key_segment b) × (x ≡ y)
unfolding NoSlash
segment_cut a b x y e =
    cut (encode_s3_key_segment a) (encode_s3_key_segment b) x y (encode-no_slash a)
      (encode-no_slash b) e

-- What follows the last slash of a key.
file_name : Bytes → Bytes
file_name batch_id = encode_s3_key_segment batch_id ++ codes ".ndjson.gz"

file_name-injective :
    (a b x y : Bytes)
    → AreBytes a
    → AreBytes b
    → x ++ (b'/' ∷ file_name a) ≡ y ++ (b'/' ∷ file_name b)
    → a ≡ b
unfolding file_name NoSlash all_bytes
file_name-injective a b x y h k e =
    let whole : (t : Bytes) → NoSlash (file_name t) =
      λ t. NoSlash-append (encode_s3_key_segment t) (codes ".ndjson.gz") (encode-no_slash t) refl in
    encode_s3_key_segment-injective a b h k (
      append_cancel _ _ (codes ".ndjson.gz") (
        sym (last_segment-append x (file_name a) (whole a))
        ∙ (ap last_segment e ∙ last_segment-append y (file_name b) (whole b))))

module _ (S : Platform) where
  -- Two batches with the same key at a destination have the same customer, tenant, cell, source and
  -- identifier: no batch overwrites the object of another one.
  pub s3_object_key-injective :
      (destination : S3DestinationConfig) (a b : DamBatch S.Time S.Value)
      → AreTexts a
      → AreTexts b
      → s3_object_key S destination a ≡ s3_object_key S destination b
      → (a.customer_id ≡ b.customer_id)
        × (a.tenant_id ≡ b.tenant_id)
        × (a.regional_cell_id ≡ b.regional_cell_id)
        × (a.source_id ≡ b.source_id)
        × (a.batch_id ≡ b.batch_id)
  unfolding s3_object_key date_part file_name
  s3_object_key-injective destination a b h k e =
      let prefix = normalized_s3_prefix destination.prefix in
      let behind =
        sym (drop-length_append prefix _)
        ∙ (ap (λ t. drop (length prefix) t) e ∙ drop-length_append prefix _) in
      let (c, e1) = segment_cut a.customer_id b.customer_id _ _ (ap (λ t. drop 13 t) behind) in
      let (t, e2) = segment_cut a.tenant_id b.tenant_id _ _ (ap (λ t. drop 10 t) e1) in
      let (r, e3) =
        segment_cut a.regional_cell_id b.regional_cell_id _ _ (ap (λ t. drop 17 t) e2) in
      let (s, e4) = segment_cut a.source_id b.source_id _ _ (ap (λ t. drop 10 t) e3) in
      (
        encode_s3_key_segment-injective _ _ h.customer k.customer c,
        encode_s3_key_segment-injective _ _ h.tenant k.tenant t,
        encode_s3_key_segment-injective _ _ h.cell k.cell r,
        encode_s3_key_segment-injective _ _ h.source k.source s,
        file_name-injective a.batch_id b.batch_id (drop 1 (date_part S a.created_at))
            (drop 1 (date_part S b.created_at)) h.id k.id e4,
      )
