-- ===== src/Outpost/Accept/Attributed.antt =====
-- The identities that `enrich_batch` of crates/outpost/src/lib.rs gives to events.
use mongodb_dam.Common.{◌≡◌, true, Option, none, some, Bytes, List, [], ◌∷◌, bytes_eq, bytes_eq_iff}
use mongodb_dam.Common.Maps.{lookup-AllEntries}
use mongodb_dam.Common.Outcome.{Outcome, ok, err, panic, spent, Yields}
use mongodb_dam.Schema.Types.{DamEvent, ExternalIdentity}
use mongodb_dam.Outpost.State.{Platform, AppState}
use mongodb_dam.Outpost.Identity.{
  MappingError, is_principal_hash, Identities, FileRead, found, not_found, failed,
  load_identity_mappings, hashed_principal, identity_for, enrich_external_identities,
}
use mongodb_dam.Outpost.Accept.{
  PodCache, Batch, enrich_events, identities_for, or_none, enrich_batch,
}
use mongodb_dam.Outpost.Identity.Mapped.{IsIdentity, AreMapped, identities_of-AreMapped}

module _ (S : Platform) where
  load_identity_mappings-AreMapped :
      (file : FileRead) → Yields AreMapped (load_identity_mappings S file)
  unfolding load_identity_mappings
  load_identity_mappings-AreMapped (found encoded) =
      identities_of-AreMapped (S.mappings_from_slice encoded)
  load_identity_mappings-AreMapped not_found = tt
  load_identity_mappings-AreMapped failed = tt

  or_none-AreMapped :
      (o : Outcome MappingError Identities) → Yields AreMapped o → AreMapped (or_none S o)
  or_none-AreMapped (ok identities) all = all
  or_none-AreMapped (err e) all = tt
  or_none-AreMapped panic all = tt
  or_none-AreMapped spent all = tt

  identities_for-AreMapped :
      (read_file : Bytes → FileRead) (path : Option Bytes)
      → AreMapped (identities_for S read_file path)
  unfolding identities_for
  identities_for-AreMapped read_file none = tt
  identities_for-AreMapped read_file (some path) =
      or_none-AreMapped _ (load_identity_mappings-AreMapped (read_file path))

  -- An identity that an event has is one at AWS, and the principal of the event is hashed.
  abbrev pub IsAttributed : DamEvent S.Time S.Value → Type 0
  IsAttributed event =
      (identity : ExternalIdentity)
      → event.identity ≡ some identity
      → IsIdentity identity
        × ((hash : Bytes) × (hashed_principal event.payload ≡ some hash)
            × (is_principal_hash hash ≡ true))

  identity_for-mapped :
      (identities : Identities) (principal : Option Bytes) (identity : ExternalIdentity)
      → AreMapped identities
      → identity_for identities principal ≡ some identity
      → IsIdentity identity
        × ((hash : Bytes) × (principal ≡ some hash) × (is_principal_hash hash ≡ true))
  unfolding identity_for
  identity_for-mapped identities none identity all h = cc
  identity_for-mapped identities (some principal) identity all h =
      let (hash, same, (is_hash, i)) =
        lookup-AllEntries bytes_eq
          (λ hash identity. (is_principal_hash hash ≡ true) × IsIdentity identity) principal
          identities identity all h in
      (i, (hash, (λ j. some ((bytes_eq_iff principal hash).0 same j)), is_hash))

  abbrev pub AreAttributed : List (DamEvent S.Time S.Value) → Type 0
  AreAttributed [] = Unit
  AreAttributed (event ∷ events) = IsAttributed event × AreAttributed events

  enriched-AreAttributed :
      (cluster_name : Bytes) (cache : PodCache) (identities : Identities)
      (events : List (DamEvent S.Time S.Value))
      → AreMapped identities
      → AreAttributed
          (enrich_events S cluster_name cache (enrich_external_identities S identities events))
  unfolding enrich_events enrich_external_identities
  enriched-AreAttributed cluster_name cache identities [] all = tt
  enriched-AreAttributed cluster_name cache identities (event ∷ events) all = (
    λ identity h. identity_for-mapped identities (hashed_principal event.payload) identity all h,
    enriched-AreAttributed cluster_name cache identities events all,
  )

  -- Whatever identities the events of a batch claim and whatever the mapping file is, an identity
  -- that an event has behind `enrich_batch` is an AWS user or role of an account with a secret of
  -- the same account, and the event names the hash of a principal.
  pub enrich_batch-AreAttributed :
      (state : AppState) (read_file : Bytes → FileRead) (batch : Batch S)
      → AreAttributed (enrich_batch S state read_file batch).events
  unfolding enrich_batch
  enrich_batch-AreAttributed state read_file batch =
      enriched-AreAttributed state.config.cluster_name state.kubernetes
        (identities_for S read_file state.config.identity_mapping_file) batch.events
        (identities_for-AreMapped read_file state.config.identity_mapping_file)
