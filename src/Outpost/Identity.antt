-- ===== src/Outpost/Identity.antt =====
-- The mapping of MongoDB principals to external identities in crates/outpost/src/lib.rs.
pub mod Mapped
pub mod Fields
pub mod Arns
pub mod Forms
use mongodb_dam.Common.{
  ℕ, zero, suc, ◌+◌, ◌==◌, Bool, true, false, not, ◌&&◌, ◌||◌, Option, none, some, Bytes, List, [],
  ◌∷◌, ltb, leb, if◌then◌else◌, length, drop, bytes_eq, one_of, starts_with, all_bytes, split_once,
  is_ascii_digit, is_ascii_hexdigit, codes,
}
use mongodb_dam.Common.Maps.{Entries, lookup, insert}
use mongodb_dam.Common.Outcome.{Outcome, ok, err, ◌>>=◌, ◌>>◌}
use mongodb_dam.Schema.Types.{
  DamBatch, DamEvent, EventPayload, ExternalIdentity, mongodb_activity, mongodb_auth,
}
use mongodb_dam.Schema.Validate.{is_some}
use mongodb_dam.Outpost.State.{IdentityMappingEntry, IdentityMappingDocument, Platform}

-- The texts of the errors.
pub data MappingError : Type 0 where
  unreadable unsupported_version too_many_entries duplicate_hash : MappingError
  bad_hash bad_provider bad_principal_type bad_account bad_arn bad_source bad_resource :
      MappingError

-- `anyhow::ensure!`
abbrev pub ensure : Bool → MappingError → Outcome MappingError (Unit {0})
ensure holds e = if holds then ok tt else err e

-- `splitn(6, ':')` where it has six parts
abbrev pub Parts : Type 0
Parts = Bytes × Bytes × Bytes × Bytes × Bytes × Bytes

-- One part, and what is behind it.
abbrev pub behind_colon : Option (Bytes × Bytes) → (Bytes → Bytes → Option Parts) → Option Parts
behind_colon none rest = none
behind_colon (some (part, text)) rest = rest part text

unfoldable pub six_parts : Bytes → Option Parts
unfolding split_once
six_parts value = behind_colon (split_once b':' value) (λ p0 r0.
    behind_colon (split_once b':' r0) (λ p1 r1. behind_colon (split_once b':' r1) (λ p2 r2.
      behind_colon (split_once b':' r2)
        (λ p3 r3. behind_colon (split_once b':' r3) (λ p4 p5. some (p0, p1, p2, p3, p4, p5))))))

abbrev pub is_empty : Bytes → Bool
is_empty [] = true
is_empty (c ∷ cs) = false

-- `part.starts_with(prefix) && part.len() > prefix.len()`
abbrev pub extends_text : Bytes → Bytes → Bool
extends_text prefix part = starts_with prefix part && ltb (length prefix) (length part)

abbrev pub expected_resource : Bytes → Bytes
expected_resource principal_type =
    if bytes_eq principal_type (codes "iam_user") then codes "user/" else codes "role/"

unfoldable pub is_iam_arn : Bytes → Bytes → Option Parts → Bool
unfolding bytes_eq starts_with
is_iam_arn account_id resource none = false
is_iam_arn account_id resource (some (p0, p1, p2, p3, p4, p5)) =
    bytes_eq p0 (codes "arn")
    && not (is_empty p1)
    && bytes_eq p2 (codes "iam")
    && is_empty p3
    && bytes_eq p4 account_id
    && extends_text resource p5

unfoldable pub valid_iam_principal_arn : Bytes → Bytes → Bytes → Bool
unfolding is_iam_arn six_parts
valid_iam_principal_arn value account_id principal_type =
    is_iam_arn account_id (expected_resource principal_type) (six_parts value)

unfoldable pub is_secret_arn : Bytes → Option Parts → Bool
unfolding bytes_eq starts_with
is_secret_arn account_id none = false
is_secret_arn account_id (some (p0, p1, p2, p3, p4, p5)) =
    bytes_eq p0 (codes "arn")
    && not (is_empty p1)
    && bytes_eq p2 (codes "secretsmanager")
    && not (is_empty p3)
    && bytes_eq p4 account_id
    && extends_text (codes "secret:") p5

unfoldable pub valid_secrets_manager_arn : Bytes → Bytes → Bool
unfolding is_secret_arn six_parts
valid_secrets_manager_arn value account_id = is_secret_arn account_id (six_parts value)

-- `sha256:` and 64 hexadecimal digits
abbrev pub is_principal_hash : Bytes → Bool
is_principal_hash text =
    starts_with (codes "sha256:") text
    && length text == 71
    && all_bytes is_ascii_hexdigit (drop 7 text)

abbrev pub is_account : Bytes → Bool
is_account account_id = length account_id == 12 && all_bytes is_ascii_digit account_id

unfoldable pub validate_identity_mapping : IdentityMappingEntry → Outcome MappingError (Unit {0})
unfolding starts_with all_bytes bytes_eq one_of valid_iam_principal_arn valid_secrets_manager_arn
validate_identity_mapping mapping = do
  ensure (is_principal_hash mapping.mongodb_principal_hash) bad_hash
  ensure (bytes_eq mapping.provider (codes "aws")) bad_provider
  ensure (one_of ("iam_user" ∷ "iam_role" ∷ []) mapping.principal_type) bad_principal_type
  ensure (is_account mapping.account_id) bad_account
  ensure (valid_iam_principal_arn mapping.principal_arn mapping.account_id mapping.principal_type)
      bad_arn
  ensure (bytes_eq mapping.credential_source (codes "aws_secrets_manager")) bad_source
  ensure (valid_secrets_manager_arn mapping.credential_resource mapping.account_id) bad_resource

abbrev pub identity_of : IdentityMappingEntry → ExternalIdentity
identity_of mapping = record {
  provider = mapping.provider;
  principal_type = mapping.principal_type;
  principal_arn = mapping.principal_arn;
  account_id = mapping.account_id;
  credential_source = mapping.credential_source;
  credential_resource = mapping.credential_resource;
}

abbrev pub Identities : Type 0
Identities = Entries Bytes ExternalIdentity

-- The loop over the mappings, behind those that are in the map.
unfoldable pub collect_mappings :
    List IdentityMappingEntry → Identities → Outcome MappingError Identities
unfolding validate_identity_mapping lookup insert
collect_mappings [] identities = ok identities
collect_mappings (mapping ∷ mappings) identities = do
  validate_identity_mapping mapping
  ensure (not (is_some (lookup bytes_eq mapping.mongodb_principal_hash identities))) duplicate_hash
  collect_mappings mappings
      (insert bytes_eq mapping.mongodb_principal_hash (identity_of mapping) identities)

unfoldable pub identities_of : Option IdentityMappingDocument → Outcome MappingError Identities
unfolding collect_mappings
identities_of none = err unreadable
identities_of (some document) = do
  ensure (document.schema_version == 1) unsupported_version
  ensure (leb (length document.mappings) 1000) too_many_entries
  collect_mappings document.mappings []

-- What reading the mapping file gives: its bytes, that it does not exist, or another failure.
pub data FileRead : Type 0 where
  found : Bytes → FileRead
  not_found failed : FileRead

-- The principal of an event, where it is a hashed one.
abbrev pub hashed_if : Bool → Option Bytes → Option Bytes
hashed_if hashed principal = if hashed then principal else none

abbrev pub hashed_principal : {Value : Type 0} → EventPayload Value → Option Bytes
hashed_principal (mongodb_activity activity) =
    hashed_if activity.principal_hashed activity.principal
hashed_principal (mongodb_auth auth) = hashed_if auth.principal_hashed auth.principal
hashed_principal _ = none

-- `principal.behind_colon(|value| identities.get(value)).cloned()`
unfoldable pub identity_for : Identities → Option Bytes → Option ExternalIdentity
unfolding lookup
identity_for identities none = none
identity_for identities (some principal) = lookup bytes_eq principal identities

module _ (S : Platform) where
  abbrev pub parse_identity_mappings : Bytes → Outcome MappingError Identities
  parse_identity_mappings encoded = identities_of (S.mappings_from_slice encoded)

  unfoldable pub load_identity_mappings : FileRead → Outcome MappingError Identities
  unfolding identities_of
  load_identity_mappings (found encoded) = parse_identity_mappings encoded
  load_identity_mappings not_found = ok []
  load_identity_mappings failed = err unreadable

  abbrev pub with_identity : Identities → DamEvent S.Time S.Value → DamEvent S.Time S.Value
  with_identity identities event = record event {
    identity = identity_for identities (hashed_principal event.payload);
  }

  unfoldable pub enrich_external_identities :
      Identities → List (DamEvent S.Time S.Value) → List (DamEvent S.Time S.Value)
  unfolding identity_for
  enrich_external_identities identities [] = []
  enrich_external_identities identities (event ∷ events) =
      with_identity identities event ∷ enrich_external_identities identities events
