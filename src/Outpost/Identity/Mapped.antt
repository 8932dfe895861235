-- ===== src/Outpost/Identity/Mapped.antt =====
-- The mappings that `parse_identity_mappings` of crates/outpost/src/lib.rs accepts.
use mongodb_dam.Common.{
  ◌≡◌, ◌↔◌, refl, arith, Bool, true, not, ◌==◌, Option, none, some, List, [], ◌∷◌, bytes_eq,
  bytes_eq_iff, one_of, length, leb, codes,
}
use mongodb_dam.Common.Maps.{AllEntries, insert-AllEntries, lookup}
use mongodb_dam.Common.Outcome.{ok, ◌>>◌, Yields, Yields-bind}
use mongodb_dam.Schema.Types.{ExternalIdentity}
use mongodb_dam.Schema.Validate.{is_some}
use mongodb_dam.Outpost.State.{IdentityMappingEntry, IdentityMappingDocument}
use mongodb_dam.Outpost.Identity.{
  MappingError, bad_hash, bad_provider, bad_principal_type, bad_account, bad_arn, bad_source,
  bad_resource, duplicate_hash, too_many_entries, unsupported_version, ensure, is_principal_hash,
  is_account, valid_iam_principal_arn, valid_secrets_manager_arn, validate_identity_mapping,
  identity_of, Identities, collect_mappings, identities_of,
}

-- An identity of an account at AWS: a user or a role of the account, and a secret of the account.
pub record IsIdentity (identity : ExternalIdentity) : Type 0 where
  pub provider : identity.provider ≡ codes "aws"
  pub principal_type : one_of ("iam_user" ∷ "iam_role" ∷ []) identity.principal_type ≡ true
  pub account : is_account identity.account_id ≡ true
  pub arn :
      valid_iam_principal_arn identity.principal_arn identity.account_id identity.principal_type
      ≡ true
  pub source : identity.credential_source ≡ codes "aws_secrets_manager"
  pub resource : valid_secrets_manager_arn identity.credential_resource identity.account_id ≡ true

-- Seven tests, one behind the other.
all_hold :
    (b1 b2 b3 b4 b5 b6 b7 : Bool) (e1 e2 e3 e4 e5 e6 e7 : MappingError)
    → ((ensure b1 e1
          >> (ensure b2 e2
              >> (ensure b3 e3
                  >> (ensure b4 e4 >> (ensure b5 e5 >> (ensure b6 e6 >> ensure b7 e7))))))
        ≡ ok tt)
    → (b1 ≡ true)
      × (b2 ≡ true)
      × (b3 ≡ true)
      × (b4 ≡ true)
      × (b5 ≡ true)
      × (b6 ≡ true)
      × (b7 ≡ true)
all_hold b1 b2 b3 b4 b5 b6 b7 e1 e2 e3 e4 e5 e6 e7 h = ground arith

-- `validate_identity_mapping` accepts an entry exactly when its principal is `sha256:` and 64
-- hexadecimal digits and its identity is one of an account at AWS.
pub validate_identity_mapping_iff :
    (mapping : IdentityMappingEntry)
    → (validate_identity_mapping mapping ≡ ok tt) ↔ (
        (is_principal_hash mapping.mongodb_principal_hash ≡ true)
        × IsIdentity (identity_of mapping))
unfolding validate_identity_mapping
validate_identity_mapping_iff mapping = (
  λ h.
      let (hash, provider, kind, account, arn, source, resource) =
        all_hold (is_principal_hash mapping.mongodb_principal_hash)
          (bytes_eq mapping.provider (codes "aws"))
          (one_of ("iam_user" ∷ "iam_role" ∷ []) mapping.principal_type)
          (is_account mapping.account_id)
          (valid_iam_principal_arn mapping.principal_arn mapping.account_id mapping.principal_type)
          (bytes_eq mapping.credential_source (codes "aws_secrets_manager"))
          (valid_secrets_manager_arn mapping.credential_resource mapping.account_id) bad_hash
          bad_provider bad_principal_type bad_account bad_arn bad_source bad_resource h in
      (
        hash,
        record {
          provider = (bytes_eq_iff mapping.provider (codes "aws")).0 provider;
          principal_type = kind;
          account = account;
          arn = arn;
          source = (bytes_eq_iff mapping.credential_source (codes "aws_secrets_manager")).0 source;
          resource = resource;
        },
      ),
  λ (hash, i).
      rw
        (
          hash,
          (bytes_eq_iff mapping.provider (codes "aws")).1 i.provider,
          i.principal_type,
          i.account,
          i.arn,
          (bytes_eq_iff mapping.credential_source (codes "aws_secrets_manager")).1 i.source,
          i.resource,
        )
        refl,
)

-- Every entry of the map stands under a principal hash and has an identity at AWS.
abbrev pub AreMapped : Identities → Type 0
AreMapped identities =
    AllEntries (λ hash identity. (is_principal_hash hash ≡ true) × IsIdentity identity) identities

collect_mappings-AreMapped :
    (mappings : List IdentityMappingEntry) (identities : Identities)
    → AreMapped identities
    → Yields AreMapped (collect_mappings mappings identities)
unfolding collect_mappings
collect_mappings-AreMapped [] identities all = all
collect_mappings-AreMapped (mapping ∷ mappings) identities all =
    Yields-bind AreMapped (validate_identity_mapping mapping) _ (λ _ valid.
      Yields-bind AreMapped
        (ensure (not (is_some (lookup bytes_eq mapping.mongodb_principal_hash identities)))
          duplicate_hash)
        _
        (λ _ _. collect_mappings-AreMapped mappings _ (
          insert-AllEntries bytes_eq
            (λ hash identity. (is_principal_hash hash ≡ true) × IsIdentity identity)
            mapping.mongodb_principal_hash (identity_of mapping) identities
            ((validate_identity_mapping_iff mapping).0 valid) all)))

pub identities_of-AreMapped :
    (document : Option IdentityMappingDocument) → Yields AreMapped (identities_of document)
unfolding identities_of
identities_of-AreMapped none = tt
identities_of-AreMapped (some document) =
    Yields-bind AreMapped (ensure (document.schema_version == 1) unsupported_version) _ (λ _ _.
      Yields-bind AreMapped (ensure (leb (length document.mappings) 1000) too_many_entries) _
        (λ _ _. collect_mappings-AreMapped document.mappings [] tt))
