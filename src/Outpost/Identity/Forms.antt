-- ===== src/Outpost/Identity/Forms.antt =====
-- The written forms that `validate_identity_mapping` of crates/outpost/src/lib.rs accepts.
use mongodb_dam.Common.{
  ◌≡◌, ◌↔◌, ◌⊎◌, inl, inr, refl, sym, subst, ap, ◌∙◌, arith, true, Bool-cases, Bytes, [], ◌∷◌, ◌++◌,
  bytes_eq, bytes_eq_iff, one_of, length, length-append, drop, codes, starts_with, all_bytes,
  is_ascii_digit, is_ascii_hexdigit,
}
use mongodb_dam.Outpost.State.{IdentityMappingEntry}
use mongodb_dam.Outpost.Identity.Mapped.{IsIdentity, validate_identity_mapping_iff}
use mongodb_dam.Common.Outcome.{ok}
use mongodb_dam.Outpost.Identity.{
  is_principal_hash, identity_of, valid_iam_principal_arn, valid_secrets_manager_arn,
  validate_identity_mapping, six_parts,
}
use mongodb_dam.Outpost.Identity.Fields.{NoColon, starts_with-splits}
use mongodb_dam.Outpost.Identity.Arns.{
  IsArn, IsSecretArn, digits-NoColon, is_iam_arn-IsArn, iam_arn_accepted, is_secret_arn-IsSecretArn,
  secret_arn_accepted,
}

-- A user or a role of the account.
abbrev pub IsPrincipal : (account kind arn : Bytes) → Type 0
IsPrincipal account kind arn =
    ((kind ≡ codes "iam_user") × IsArn (codes "iam") [] account (codes "user/") arn)
    ⊎ ((kind ≡ codes "iam_role") × IsArn (codes "iam") [] account (codes "role/") arn)

accepted-IsPrincipal :
    (account kind arn : Bytes)
    → one_of ("iam_user" ∷ "iam_role" ∷ []) kind ≡ true
    → valid_iam_principal_arn arn account kind ≡ true
    → IsPrincipal account kind arn
unfolding one_of valid_iam_principal_arn
accepted-IsPrincipal account kind arn named valid =
    elim (Bool-cases (bytes_eq kind (codes "iam_user"))) [
      | inl user ↦ inl (
        (bytes_eq_iff kind (codes "iam_user")).0 user,
        is_iam_arn-IsArn account (codes "user/") arn (six_parts arn) refl (rw user at valid),
      )
      | inr other ↦ inr (
        (bytes_eq_iff kind (codes "iam_role")).0 (ground arith),
        is_iam_arn-IsArn account (codes "role/") arn (six_parts arn) refl (rw other at valid),
      )
    ]

principal_accepted :
    (account kind arn : Bytes)
    → NoColon account
    → IsPrincipal account kind arn
    → (one_of ("iam_user" ∷ "iam_role" ∷ []) kind ≡ true)
      × (valid_iam_principal_arn arn account kind ≡ true)
unfolding one_of valid_iam_principal_arn bytes_eq
principal_accepted account kind arn free (inl (user, a)) =
    rw user (refl, iam_arn_accepted account (codes "user/") arn free a)
principal_accepted account kind arn free (inr (role, a)) =
    rw role (refl, iam_arn_accepted account (codes "role/") arn free a)

length-digits :
    (text : Bytes)
    → is_principal_hash text ≡ true
    → (text ≡ codes "sha256:" ++ drop 7 text) × (length (drop 7 text) ≡ 64)
length-digits text h =
    let split = starts_with-splits (codes "sha256:") text (ground arith) in
    let sizes =
      ap (λ (t : Bytes). length t) split ∙ length-append (codes "sha256:") (drop 7 text) in
    let all : length text ≡ 71 = ground arith in (split, omega (arith, sizes, all))

hash_accepted :
    (digits : Bytes)
    → length digits ≡ 64
    → all_bytes is_ascii_hexdigit digits ≡ true
    → is_principal_hash (codes "sha256:" ++ digits) ≡ true
unfolding starts_with
hash_accepted digits size form = ground (arith)

-- What a mapping has to say: the hash of a principal, and a user or a role and a secret of one account
-- at AWS.
pub record IsAwsMapping (mapping : IdentityMappingEntry) : Type 0 where
  pub digits : Bytes
  pub hash : mapping.mongodb_principal_hash ≡ codes "sha256:" ++ digits
  pub hash_size : length digits ≡ 64
  pub hash_form : all_bytes is_ascii_hexdigit digits ≡ true
  pub provider : mapping.provider ≡ codes "aws"
  pub account_size : length mapping.account_id ≡ 12
  pub account_form : all_bytes is_ascii_digit mapping.account_id ≡ true
  pub principal : IsPrincipal mapping.account_id mapping.principal_type mapping.principal_arn
  pub source : mapping.credential_source ≡ codes "aws_secrets_manager"
  pub resource : IsSecretArn mapping.account_id mapping.credential_resource

accepted-IsAwsMapping :
    (mapping : IdentityMappingEntry)
    → is_principal_hash mapping.mongodb_principal_hash ≡ true
    → IsIdentity (identity_of mapping)
    → IsAwsMapping mapping
unfolding valid_secrets_manager_arn
accepted-IsAwsMapping mapping hash i =
    let (split, size) = length-digits mapping.mongodb_principal_hash hash in
    record {
      digits = drop 7 mapping.mongodb_principal_hash;
      hash = split;
      hash_size = size;
      hash_form = ground arith;
      provider = i.provider;
      account_size = ground arith;
      account_form = ground arith;
      principal =
          accepted-IsPrincipal mapping.account_id mapping.principal_type mapping.principal_arn
            i.principal_type i.arn;
      source = i.source;
      resource =
          is_secret_arn-IsSecretArn mapping.account_id mapping.credential_resource _ refl
            i.resource;
    }

IsAwsMapping-IsIdentity :
    (mapping : IdentityMappingEntry)
    → IsAwsMapping mapping
    → (is_principal_hash mapping.mongodb_principal_hash ≡ true) × IsIdentity (identity_of mapping)
unfolding valid_secrets_manager_arn
IsAwsMapping-IsIdentity mapping m =
    let free = digits-NoColon mapping.account_id m.account_form in
    let (named, valid) =
      principal_accepted mapping.account_id mapping.principal_type mapping.principal_arn free
        m.principal in
    (
      subst (λ text. is_principal_hash text ≡ true) (sym m.hash)
          (hash_accepted m.digits m.hash_size m.hash_form),
      record {
        provider = m.provider;
        principal_type = named;
        account = ground (arith, m.account_size, m.account_form);
        arn = valid;
        source = m.source;
        resource =
            secret_arn_accepted mapping.account_id mapping.credential_resource free m.resource;
      },
    )

-- `validate_identity_mapping` accepts an entry exactly when its principal is `sha256:` and 64
-- hexadecimal digits, its provider `aws`, its account 12 digits, its principal a user or a role with
-- an ARN of that kind in the account, `arn:<partition>:iam::<account>:user/<name>` or `role/`, and its
-- credential from `aws_secrets_manager`, `arn:<partition>:secretsmanager:<region>:<account>:secret:`
-- and a name; the partition, the region and the names are not empty.
pub validate_identity_mapping-IsAwsMapping :
    (mapping : IdentityMappingEntry)
    → (validate_identity_mapping mapping ≡ ok tt) ↔ IsAwsMapping mapping
validate_identity_mapping-IsAwsMapping mapping =
    let (tests, accepts) = validate_identity_mapping_iff mapping in
    (
      λ h. let (hash, identity) = tests h in accepted-IsAwsMapping mapping hash identity,
      λ m. accepts (IsAwsMapping-IsIdentity mapping m),
    )
