-- ===== src/Outpost/Identity/Arns.antt =====
-- The ARNs that `valid_iam_principal_arn` and `valid_secrets_manager_arn` of crates/outpost/src/lib.rs
-- accept, by their written form.
use mongodb_dam.Common.{
  ◌≡◌, refl, ap, ◌∙◌, arith, true, false, Option, none, some, Bytes, [], ◌∷◌, ◌++◌, bytes_eq,
  bytes_eq_iff, length, length-append, drop, ltb, codes, all_bytes, is_ascii_digit,
}
use mongodb_dam.Outpost.Identity.{
  Parts, six_parts, is_empty, extends_text, is_iam_arn, is_secret_arn,
}
use mongodb_dam.Outpost.Identity.Fields.{
  NoColon, joined, starts_with-splits, starts_with-append, six_parts-joined, six_parts_fields,
}

-- A resource of the service in the region and the account, whose name follows the kind of it.
pub record IsArn (service region account kind arn : Bytes) : Type 0 where
  pub partition : Bytes
  pub name : Bytes
  pub partition_given : is_empty partition ≡ false
  pub partition_free : NoColon partition
  pub name_given : is_empty name ≡ false
  pub form : arn ≡ joined (codes "arn", partition, service, region, account, kind ++ name)

not_empty : (text : Bytes) → ltb 0 (length text) ≡ true → is_empty text ≡ false
not_empty [] h = ground arith
not_empty (c ∷ cs) h = refl

extends_text-splits :
    (prefix part : Bytes)
    → extends_text prefix part ≡ true
    → (name : Bytes) × (part ≡ prefix ++ name) × (is_empty name ≡ false)
extends_text-splits prefix part h =
    let name = drop (length prefix) part in
    let split = starts_with-splits prefix part (ground arith) in
    let sizes = ap (λ (t : Bytes). length t) split ∙ length-append prefix name in
    (name, split, not_empty name (ground arith))

extends_text-append :
    (prefix name : Bytes) → is_empty name ≡ false → extends_text prefix (prefix ++ name) ≡ true
extends_text-append prefix [] h = ground arith
extends_text-append prefix (c ∷ cs) h =
    ground (arith, starts_with-append prefix (c ∷ cs), length-append prefix (c ∷ cs))

pub digits-NoColon : (text : Bytes) → all_bytes is_ascii_digit text ≡ true → NoColon text
unfolding all_bytes
digits-NoColon [] h = refl
digits-NoColon (c ∷ cs) h = ground (arith, digits-NoColon cs)

pub is_iam_arn-IsArn :
    (account kind value : Bytes) (o : Option Parts)
    → six_parts value ≡ o
    → is_iam_arn account kind o ≡ true
    → IsArn (codes "iam") [] account kind value
unfolding is_iam_arn
is_iam_arn-IsArn account kind value none e h = ground arith
is_iam_arn-IsArn account kind value (some (p0, p1, p2, [], p4, p5)) e h =
    let (split, (_, free, _, _, _)) = six_parts-joined value (p0, p1, p2, [], p4, p5) e in
    let first = (bytes_eq_iff p0 (codes "arn")).0 (ground arith) in
    let service = (bytes_eq_iff p2 (codes "iam")).0 (ground arith) in
    let owner = (bytes_eq_iff p4 account).0 (ground arith) in
    let (name, rest, given) = extends_text-splits kind p5 (ground arith) in
    record {
      partition = p1;
      name = name;
      partition_given = ground arith;
      partition_free = free;
      name_given = given;
      form = split ∙ (λ i. joined (first i, p1, service i, [], owner i, rest i));
    }
is_iam_arn-IsArn account kind value (some (p0, p1, p2, c ∷ p3, p4, p5)) e h = ground arith

pub iam_arn_accepted :
    (account kind value : Bytes)
    → NoColon account
    → IsArn (codes "iam") [] account kind value
    → is_iam_arn account kind (six_parts value) ≡ true
unfolding is_iam_arn all_bytes
iam_arn_accepted account kind value free a =
    rw
      (
        a.form,
        six_parts_fields (codes "arn", a.partition, codes "iam", [], account, kind ++ a.name)
            (refl, a.partition_free, refl, refl, free),
        a.partition_given,
        (bytes_eq_iff account account).1 refl,
        extends_text-append kind a.name a.name_given,
      )
      (unfold bytes_eq in refl)

-- A secret of Secrets Manager in a region.
pub record IsSecretArn (account arn : Bytes) : Type 0 where
  pub region : Bytes
  pub region_given : is_empty region ≡ false
  pub region_free : NoColon region
  pub named : IsArn (codes "secretsmanager") region account (codes "secret:") arn

pub is_secret_arn-IsSecretArn :
    (account value : Bytes) (o : Option Parts)
    → six_parts value ≡ o
    → is_secret_arn account o ≡ true
    → IsSecretArn account value
unfolding is_secret_arn
is_secret_arn-IsSecretArn account value none e h = ground arith
is_secret_arn-IsSecretArn account value (some (p0, p1, p2, p3, p4, p5)) e h =
    let (split, (_, free, _, region, _)) = six_parts-joined value (p0, p1, p2, p3, p4, p5) e in
    let first = (bytes_eq_iff p0 (codes "arn")).0 (ground arith) in
    let service = (bytes_eq_iff p2 (codes "secretsmanager")).0 (ground arith) in
    let owner = (bytes_eq_iff p4 account).0 (ground arith) in
    let (name, rest, given) = extends_text-splits (codes "secret:") p5 (ground arith) in
    record {
      region = p3;
      region_given = ground arith;
      region_free = region;
      named = record {
        partition = p1;
        name = name;
        partition_given = ground arith;
        partition_free = free;
        name_given = given;
        form = split ∙ (λ i. joined (first i, p1, service i, p3, owner i, rest i));
      };
    }

pub secret_arn_accepted :
    (account value : Bytes)
    → NoColon account
    → IsSecretArn account value
    → is_secret_arn account (six_parts value) ≡ true
unfolding is_secret_arn all_bytes
secret_arn_accepted account value free s =
    let a = s.named in
    rw
      (
        a.form,
        six_parts_fields
            (
              codes "arn",
              a.partition,
              codes "secretsmanager",
              s.region,
              account,
              codes "secret:" ++ a.name,
            )
            (refl, a.partition_free, refl, s.region_free, free),
        a.partition_given,
        s.region_given,
        (bytes_eq_iff account account).1 refl,
        extends_text-append (codes "secret:") a.name a.name_given,
      )
      (unfold bytes_eq in refl)
