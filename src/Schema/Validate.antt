-- ===== src/Schema/Validate.antt =====
-- `DamBatch::validate` of crates/schema/src/lib.rs. The error texts are the constructors of
-- `BatchError`.
pub mod Accepts
use mongodb_dam.Common.{
  ℕ, ◌==◌, Bool, true, false, not, ◌&&◌, ◌||◌, Option, none, some, Bytes, List, [], ◌∷◌, within,
  bytes_eq, if◌then◌else◌,
}
use mongodb_dam.Common.Outcome.{Outcome, ok, err}
use mongodb_dam.Common.Space.{is_blank}
use mongodb_dam.Schema.Types.{
  DamBatch, DamEvent, EventPayload, mongodb_activity, event_schema_version, batch_schema_version,
}

pub data BatchError : Type 0 where
  unsupported_batch_version empty_batch_identity no_events unsupported_event_version : BatchError
  empty_event_identity identity_mismatch query_content_mismatch : BatchError

abbrev pub is_some : {A : Type 0} → Option A → Bool
is_some none = false
is_some (some a) = true

abbrev pub bool_eq : Bool → Bool → Bool
bool_eq true b = b
bool_eq false b = not b

-- What the last test asks of an event: a MongoDB activity carries a query exactly when it is not
-- declared as metadata only, and nothing else carries more than metadata.
abbrev pub wrong_capture : {Value : Type 0} → Bool → EventPayload Value → Bool
wrong_capture metadata_only (mongodb_activity activity) =
    bool_eq (is_some activity.query) metadata_only
wrong_capture metadata_only _ = not metadata_only

module _ {Time Value : Type 0} where
  -- `events.is_empty()`
  abbrev pub is_empty : List (DamEvent Time Value) → Bool
  is_empty [] = true
  is_empty (event ∷ events) = false

  -- `events.iter().any(p)`
  abbrev pub any_event : (DamEvent Time Value → Bool) → List (DamEvent Time Value) → Bool
  any_event p [] = false
  any_event p (event ∷ events) = p event || any_event p events

  abbrev pub wrong_version : DamEvent Time Value → Bool
  wrong_version event = not (event.schema_version == event_schema_version)

  abbrev pub lacks_identity : DamEvent Time Value → Bool
  lacks_identity event =
      is_blank event.event_id
      || is_blank event.capture.sensor_id
      || is_blank event.capture.node_name

  abbrev pub other_identity : DamBatch Time Value → DamEvent Time Value → Bool
  other_identity batch event =
      not (bytes_eq event.customer_id batch.customer_id)
      || not (bytes_eq event.tenant_id batch.tenant_id)
      || not (bytes_eq event.source_id batch.source_id)
      || not (bytes_eq event.regional_cell_id batch.regional_cell_id)

  abbrev pub query_mismatch : DamEvent Time Value → Bool
  query_mismatch event = wrong_capture event.capture.metadata_only event.payload

  unfoldable pub validate : DamBatch Time Value → Outcome BatchError (Unit {0})
  unfolding is_blank
  validate batch =
      if not (batch.schema_version == batch_schema_version)
      then err unsupported_batch_version
      else if is_blank batch.batch_id
          || is_blank batch.customer_id
          || is_blank batch.tenant_id
          || is_blank batch.source_id
          || is_blank batch.regional_cell_id
      then err empty_batch_identity
      else if is_empty batch.events
      then err no_events
      else if any_event wrong_version batch.events
      then err unsupported_event_version
      else if any_event lacks_identity batch.events
      then err empty_event_identity
      else if any_event (other_identity batch) batch.events
      then err identity_mismatch
      else if any_event query_mismatch batch.events
      then err query_content_mismatch
      else ok tt
