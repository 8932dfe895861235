-- ===== src/Schema/Validate/Accepts.antt =====
-- What a batch that `DamBatch::validate` of crates/schema/src/lib.rs accepts is like.
use mongodb_dam.Common.{
  ◌==◌, ◌≡◌, ◌↔◌, refl, arith, Bool, true, false, not, ◌||◌, List, [], ◌∷◌, bytes_eq_iff,
  if◌then◌else◌,
}
use mongodb_dam.Common.Outcome.{ok, err, Ensures}
use mongodb_dam.Common.Space.{is_blank}
use mongodb_dam.Schema.Types.{
  DamBatch, DamEvent, EventPayload, mongodb_activity, batch_schema_version,
}
use mongodb_dam.Schema.Validate.{
  BatchError, unsupported_batch_version, empty_batch_identity, no_events, unsupported_event_version,
  empty_event_identity, identity_mismatch, query_content_mismatch, is_some, wrong_capture, is_empty,
  any_event, wrong_version, lacks_identity, other_identity, query_mismatch, validate,
}

-- A MongoDB activity carries a query exactly when it is not metadata only; any other event is
-- metadata only.
abbrev pub IsCaptured : {Value : Type 0} → Bool → EventPayload Value → Type 0
IsCaptured metadata_only (mongodb_activity activity) = is_some activity.query ≡ not metadata_only
IsCaptured metadata_only _ = metadata_only ≡ true

or_left : (a b : Bool) → (a || b) ≡ false → a ≡ false
or_left a b h = ground arith

or_right : (a b : Bool) → (a || b) ≡ false → b ≡ false
or_right a b h = ground arith

or_both : (a b : Bool) → a ≡ false → b ≡ false → (a || b) ≡ false
or_both a b h k = ground arith

-- The seven tests of the validation, all of which an accepted batch passes.
passes :
    (b1 b2 b3 b4 b5 b6 b7 : Bool) (e1 e2 e3 e4 e5 e6 e7 : BatchError)
    → (if b1
        then err e1
        else if b2
        then err e2
        else if b3
        then err e3
        else if b4
        then err e4
        else if b5
        then err e5
        else if b6
        then err e6
        else if b7
        then err e7
        else ok (tt {0}))
      ≡ ok tt
    → (b1 ≡ false)
      × (b2 ≡ false)
      × (b3 ≡ false)
      × (b4 ≡ false)
      × (b5 ≡ false)
      × (b6 ≡ false)
      × (b7 ≡ false)
passes b1 b2 b3 b4 b5 b6 b7 e1 e2 e3 e4 e5 e6 e7 h = ground arith

IsCaptured-iff :
    {Value : Type 0} (metadata_only : Bool) (payload : EventPayload Value)
    → (wrong_capture metadata_only payload ≡ false) ↔ IsCaptured metadata_only payload
IsCaptured-iff true (mongodb_activity a) = ground arith
IsCaptured-iff false (mongodb_activity a) = ground arith
IsCaptured-iff true _ = ground arith
IsCaptured-iff false _ = ground arith

module _ {Time Value : Type 0} where
  -- An event that may stand in the batch.
  pub record IsEvent (batch : DamBatch Time Value) (event : DamEvent Time Value) : Type 0 where
    pub version : event.schema_version ≡ 1
    pub event_named : is_blank event.event_id ≡ false
    pub sensor_named : is_blank event.capture.sensor_id ≡ false
    pub node_named : is_blank event.capture.node_name ≡ false
    pub same_customer : event.customer_id ≡ batch.customer_id
    pub same_tenant : event.tenant_id ≡ batch.tenant_id
    pub same_source : event.source_id ≡ batch.source_id
    pub same_cell : event.regional_cell_id ≡ batch.regional_cell_id
    pub captured : IsCaptured event.capture.metadata_only event.payload

  abbrev pub AreEvents : DamBatch Time Value → List (DamEvent Time Value) → Type 0
  AreEvents batch [] = Unit
  AreEvents batch (event ∷ events) = IsEvent batch event × AreEvents batch events

  pub record IsBatch (batch : DamBatch Time Value) : Type 0 where
    pub version : batch.schema_version ≡ 1
    pub batch_named : is_blank batch.batch_id ≡ false
    pub customer_named : is_blank batch.customer_id ≡ false
    pub tenant_named : is_blank batch.tenant_id ≡ false
    pub source_named : is_blank batch.source_id ≡ false
    pub cell_named : is_blank batch.regional_cell_id ≡ false
    pub has_events : is_empty batch.events ≡ false
    pub events : AreEvents batch batch.events

  IsEvent-iff :
      (batch : DamBatch Time Value) (event : DamEvent Time Value)
      → ((wrong_version event ≡ false)
          × (lacks_identity event ≡ false)
          × (other_identity batch event ≡ false)
          × (query_mismatch event ≡ false))
        ↔ IsEvent batch event
  IsEvent-iff batch event = ground (
    arith,
    IsCaptured-iff event.capture.metadata_only event.payload,
    bytes_eq_iff event.customer_id batch.customer_id,
    bytes_eq_iff event.tenant_id batch.tenant_id,
    bytes_eq_iff event.source_id batch.source_id,
    bytes_eq_iff event.regional_cell_id batch.regional_cell_id,
  )

  events_iff :
      (batch : DamBatch Time Value) (events : List (DamEvent Time Value))
      → ((any_event wrong_version events ≡ false)
          × (any_event lacks_identity events ≡ false)
          × (any_event (other_identity batch) events ≡ false)
          × (any_event query_mismatch events ≡ false))
        ↔ AreEvents batch events
  events_iff batch [] = (λ _. tt, λ _. (refl, refl, refl, refl))
  events_iff batch (event ∷ events) = (
    λ (v, l, o, q). (
      (IsEvent-iff batch event).0 (or_left _ _ v, or_left _ _ l, or_left _ _ o, or_left _ _ q),
      (events_iff batch events).0 (or_right _ _ v, or_right _ _ l, or_right _ _ o, or_right _ _ q),
    ),
    λ (e, es).
        let (v, l, o, q) = (IsEvent-iff batch event).1 e in
        let (vs, ls, os, qs) = (events_iff batch events).1 es in
        (or_both _ _ v vs, or_both _ _ l ls, or_both _ _ o os, or_both _ _ q qs),
  )

  -- `validate` accepts a batch exactly when the versions are right, no identity is blank, there is an
  -- event, every event has the identity of the batch, a MongoDB activity carries a query exactly when
  -- it is not metadata only, and every other event is metadata only.
  pub validate_iff : (batch : DamBatch Time Value) → (validate batch ≡ ok tt) ↔ IsBatch batch
  unfolding validate
  validate_iff batch = (
    λ h.
        let (version, named, some_events, v, l, o, q) =
          passes (not (batch.schema_version == batch_schema_version))
            (is_blank batch.batch_id
              || is_blank batch.customer_id
              || is_blank batch.tenant_id
              || is_blank batch.source_id
              || is_blank batch.regional_cell_id)
            (is_empty batch.events) (any_event wrong_version batch.events)
            (any_event lacks_identity batch.events) (any_event (other_identity batch) batch.events)
            (any_event query_mismatch batch.events) unsupported_batch_version empty_batch_identity
            no_events unsupported_event_version empty_event_identity identity_mismatch
            query_content_mismatch h in
        record {
          version = ground arith;
          batch_named = ground arith;
          customer_named = ground arith;
          tenant_named = ground arith;
          source_named = ground arith;
          cell_named = ground arith;
          has_events = some_events;
          events = (events_iff batch batch.events).0 (v, l, o, q);
        },
    λ b.
        let (v, l, o, q) = (events_iff batch batch.events).1 b.events in
        let version = b.version in
        let first : not (batch.schema_version == batch_schema_version) ≡ false = ground arith in
        simp (
          first, b.batch_named, b.customer_named, b.tenant_named, b.source_named, b.cell_named,
          b.has_events, v, l, o, q,
        ),
  )

  -- `validate` is a chain of tests, which returns.
  pub validate-Ensures : (batch : DamBatch Time Value) → Ensures (λ _. Unit {0}) (validate batch)
  unfolding validate
  validate-Ensures batch = ground arith
