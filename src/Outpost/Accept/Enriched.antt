-- ===== src/Outpost/Accept/Enriched.antt =====
-- What `enrich_batch` of crates/outpost/src/lib.rs makes of a batch.
use mongodb_dam.Common.{◌≡◌, refl, false, Bytes, List, [], ◌∷◌}
use mongodb_dam.Common.Outcome.{ok}
use mongodb_dam.Schema.Types.{DamEvent}
use mongodb_dam.Schema.Validate.{validate, is_empty}
use mongodb_dam.Schema.Validate.Accepts.{AreEvents, validate_iff}
use mongodb_dam.Outpost.State.{Platform, AppState}
use mongodb_dam.Outpost.Identity.{FileRead, Identities, enrich_external_identities}
use mongodb_dam.Outpost.Accept.{PodCache, Batch, enrich_events, identities_for, enrich_batch}

module _ (S : Platform) where
  abbrev Event : Type 0
  Event = DamEvent S.Time S.Value

  enriched-AreEvents :
      (cluster_name : Bytes) (cache : PodCache) (identities : Identities) (batch : Batch S)
      (events : List Event)
      → AreEvents batch events
      → AreEvents batch
          (enrich_events S cluster_name cache (enrich_external_identities S identities events))
  unfolding enrich_events enrich_external_identities
  enriched-AreEvents cluster_name cache identities batch [] all = tt
  enriched-AreEvents cluster_name cache identities batch (event ∷ events) (e, all) = (
    record {
      version = e.version;
      event_named = e.event_named;
      sensor_named = e.sensor_named;
      node_named = e.node_named;
      same_customer = e.same_customer;
      same_tenant = e.same_tenant;
      same_source = e.same_source;
      same_cell = e.same_cell;
      captured = e.captured;
    },
    enriched-AreEvents cluster_name cache identities batch events all,
  )

  -- The events of another batch with the same identity.
  AreEvents-same :
      (batch : Batch S) (changed : List Event) (events : List Event)
      → AreEvents batch events
      → AreEvents (record batch { events = changed }) events
  AreEvents-same batch changed [] all = tt
  AreEvents-same batch changed (event ∷ events) (e, all) = (
    record {
      version = e.version;
      event_named = e.event_named;
      sensor_named = e.sensor_named;
      node_named = e.node_named;
      same_customer = e.same_customer;
      same_tenant = e.same_tenant;
      same_source = e.same_source;
      same_cell = e.same_cell;
      captured = e.captured;
    },
    AreEvents-same batch changed events all,
  )

  enriched-has_events :
      (cluster_name : Bytes) (cache : PodCache) (identities : Identities) (events : List Event)
      → is_empty events ≡ false
      → is_empty
          (enrich_events S cluster_name cache (enrich_external_identities S identities events))
        ≡ false
  unfolding enrich_events enrich_external_identities
  enriched-has_events cluster_name cache identities [] h = h
  enriched-has_events cluster_name cache identities (event ∷ events) h = refl

  -- The enrichment of a batch that `validate` accepts gives a batch that `validate` accepts, whatever
  -- the identity mapping and the cache of pods hold.
  pub validate-enrich_batch :
      (state : AppState) (read_file : Bytes → FileRead) (batch : Batch S)
      → validate batch ≡ ok tt
      → validate (enrich_batch S state read_file batch) ≡ ok tt
  unfolding enrich_batch
  validate-enrich_batch state read_file batch h =
      let b = (validate_iff batch).0 h in
      let identities = identities_for S read_file state.config.identity_mapping_file in
      (validate_iff (enrich_batch S state read_file batch)).1 (record {
        version = b.version;
        batch_named = b.batch_named;
        customer_named = b.customer_named;
        tenant_named = b.tenant_named;
        source_named = b.source_named;
        cell_named = b.cell_named;
        has_events =
            enriched-has_events state.config.cluster_name state.kubernetes identities batch.events
              b.has_events;
        events = AreEvents-same batch _ _ (
            enriched-AreEvents state.config.cluster_name state.kubernetes identities batch
              batch.events b.events);
      })
