-- ===== src/Outpost/Accept.antt =====
-- `accept_batch`, `enrich_batch` and `refresh_spool_metrics` of crates/outpost/src/lib.rs. A request
-- is handled in one step; what the disk does to the writes of the spool is an argument.
pub mod Outcomes
pub mod Enriched
pub mod Attributed
pub mod Observed
use mongodb_dam.Common.{
  ℕ, ◌+◌, ◌==◌, Bool, true, false, not, ◌&&◌, ◌||◌, Option, none, some, Bytes, List, [], ◌∷◌,
  if◌then◌else◌, length, bytes_eq, strip_prefix, codes,
}
use mongodb_dam.Common.Maps.{Entries, lookup}
use mongodb_dam.Common.Outcome.{Outcome, ok, err, panic, spent}
use mongodb_dam.Schema.Types.{DamBatch, DamEvent, KubernetesMetadata}
use mongodb_dam.Schema.Validate.{BatchError, validate, is_some}
use mongodb_dam.Spool.Digest.{Digest}
use mongodb_dam.Spool.Files.{SpoolStats}
use mongodb_dam.Spool.Store.{DurableSpool, Disk, SpoolError, enqueue, stats, quarantine_stats}
use mongodb_dam.Outpost.State.{
  Platform, OutpostConfig, AppState, Metrics, gauge, Response, Refusal, refused, accepted, aborted,
  missing_credential, invalid_json, invalid_batch, other_assignment, not_serialized, not_stored,
}
use mongodb_dam.Outpost.Identity.{
  FileRead, Identities, MappingError, load_identity_mappings, enrich_external_identities,
}

abbrev pub default_metadata : KubernetesMetadata
default_metadata = record {
  cluster_name = none;
  namespace = none;
  pod_name = none;
  pod_uid = none;
  container_name = none;
  workload_kind = none;
  workload_name = none;
  labels = none;
}

abbrev or_default : Option KubernetesMetadata → KubernetesMetadata
or_default none = default_metadata
or_default (some metadata) = metadata

-- `first.or(second)`
abbrev pub or_text : Option Bytes → Option Bytes → Option Bytes
or_text (some text) other = some text
or_text none other = other

-- The metadata of the pod in the cache, with the pod and the container of the event.
abbrev pub merged : KubernetesMetadata → KubernetesMetadata → KubernetesMetadata
merged existing enriched = record enriched {
  pod_uid = existing.pod_uid;
  container_name = or_text existing.container_name enriched.container_name;
}

abbrev pub merge_cached : KubernetesMetadata → Option KubernetesMetadata → KubernetesMetadata
merge_cached existing none = existing
merge_cached existing (some enriched) = merged existing enriched

abbrev pub PodCache : Type 0
PodCache = Entries Bytes KubernetesMetadata

unfoldable pub from_cache : PodCache → KubernetesMetadata → Option Bytes → KubernetesMetadata
unfolding lookup
from_cache cache existing none = existing
from_cache cache existing (some uid) = merge_cached existing (lookup bytes_eq uid cache)

unfoldable pub enriched_metadata : Bytes → PodCache → Option KubernetesMetadata → KubernetesMetadata
unfolding from_cache
enriched_metadata cluster_name cache metadata =
    let existing = or_default metadata in
    from_cache cache
      (record existing { cluster_name = or_text existing.cluster_name (some cluster_name) })
      existing.pod_uid

-- `inc()` and `set(…)`
abbrev pub count_rejected : AppState → AppState
count_rejected state = record state {
  metrics = record state.metrics { rejected_batches = state.metrics.rejected_batches + 1 };
}

abbrev pub count_accepted : AppState → AppState
count_accepted state = record state {
  metrics = record state.metrics { accepted_batches = state.metrics.accepted_batches + 1 };
}

unfoldable pub refresh_spool_metrics : AppState → AppState
unfolding stats quarantine_stats
refresh_spool_metrics state =
    let kept = stats state.spool in
    let set_aside = quarantine_stats state.spool in
    record state {
      metrics = record state.metrics {
        spool_items = gauge kept.items;
        spool_bytes = gauge kept.bytes;
        quarantine_items = gauge set_aside.items;
        quarantine_bytes = gauge set_aside.bytes;
      };
    }

-- `provided == Some(expected)`, where a credential is configured
abbrev pub bearer : Option Bytes → Option Bytes
bearer none = none
bearer (some header) = strip_prefix (codes "Bearer ") header

abbrev same_text : Bytes → Option Bytes → Bool
same_text expected none = false
same_text expected (some provided) = bytes_eq provided expected

unfoldable pub is_authorized : Option Bytes → Option Bytes → Bool
unfolding strip_prefix bytes_eq
is_authorized none authorization = true
is_authorized (some expected) authorization = same_text expected (bearer authorization)

module _ (S : Platform) where
  abbrev pub Batch : Type 0
  Batch = DamBatch S.Time S.Value

  abbrev pub with_metadata : Bytes → PodCache → DamEvent S.Time S.Value → DamEvent S.Time S.Value
  with_metadata cluster_name cache event = record event {
    kubernetes = some (enriched_metadata cluster_name cache event.kubernetes);
  }

  unfoldable pub enrich_events :
      Bytes → PodCache → List (DamEvent S.Time S.Value) → List (DamEvent S.Time S.Value)
  unfolding enriched_metadata
  enrich_events cluster_name cache [] = []
  enrich_events cluster_name cache (event ∷ events) =
      with_metadata cluster_name cache event ∷ enrich_events cluster_name cache events

  -- A mapping that cannot be loaded maps nothing.
  abbrev pub or_none : Outcome MappingError Identities → Identities
  or_none (ok identities) = identities
  or_none _ = []

  unfoldable pub identities_for : (Bytes → FileRead) → Option Bytes → Identities
  unfolding load_identity_mappings
  identities_for read_file none = []
  identities_for read_file (some path) = or_none (load_identity_mappings S (read_file path))

  unfoldable pub enrich_batch : AppState → (Bytes → FileRead) → Batch → Batch
  unfolding enrich_events identities_for enrich_external_identities
  enrich_batch state read_file batch = record batch {
    events = enrich_events state.config.cluster_name state.kubernetes (
        enrich_external_identities S (identities_for read_file state.config.identity_mapping_file)
          batch.events);
  }

  unfoldable pub is_assigned : OutpostConfig → Batch → Bool
  unfolding bytes_eq
  is_assigned config batch =
      bytes_eq batch.customer_id config.customer_id
      && bytes_eq batch.tenant_id config.tenant_id
      && bytes_eq batch.source_id config.source_id
      && bytes_eq batch.regional_cell_id config.regional_cell_id

  abbrev pub reject : AppState → ℕ → Refusal → Response × AppState
  reject state status refusal = (refused status refusal, count_rejected state)

  -- Behind `enqueue`, with the spool that it leaves.
  unfoldable pub answer_stored :
      AppState → Batch → Outcome SpoolError Bytes × DurableSpool → Response × AppState
  unfolding refresh_spool_metrics
  answer_stored state batch (ok receipt_id, spool) = (
    accepted batch.batch_id receipt_id,
    record (refresh_spool_metrics (count_accepted (record state { spool = spool }))) {
      notified = true;
    },
  )
  answer_stored state batch (err e, spool) = (
    refused 507 (not_stored e),
    refresh_spool_metrics (count_rejected (record state { spool = spool })),
  )
  answer_stored state batch (panic, spool) = (aborted, record state { spool = spool })
  answer_stored state batch (spent, spool) = (aborted, record state { spool = spool })

  module _ (D : Digest) (disk : Disk) where
    unfoldable pub store : AppState → Batch → Option Bytes → Response × AppState
    unfolding answer_stored enqueue
    store state batch none = reject state 500 not_serialized
    store state batch (some encoded) =
        answer_stored state batch (enqueue D disk state.spool encoded)

    unfoldable pub accept_valid : AppState → (Bytes → FileRead) → Batch → Response × AppState
    unfolding store is_assigned enrich_batch
    accept_valid state read_file batch =
        let enriched = enrich_batch state read_file batch in
        if not (is_assigned state.config batch)
        then reject state 403 other_assignment
        else store state enriched (S.batch_to_vec enriched)

    unfoldable pub accept_validated :
        AppState → (Bytes → FileRead) → Batch → Outcome BatchError (Unit {0}) → Response × AppState
    unfolding accept_valid
    accept_validated state read_file batch (ok _) = accept_valid state read_file batch
    accept_validated state read_file batch (err e) = reject state 400 (invalid_batch e)
    accept_validated state read_file batch panic = (aborted, state)
    accept_validated state read_file batch spent = (aborted, state)

    unfoldable pub accept_parsed :
        AppState → (Bytes → FileRead) → Option Batch → Response × AppState
    unfolding accept_validated
    accept_parsed state read_file none = reject state 400 invalid_json
    accept_parsed state read_file (some batch) =
        accept_validated state read_file batch (validate batch)

    -- `authorization` is the text of the header, if it has one.
    unfoldable pub accept_batch :
        AppState → (Bytes → FileRead) → Option Bytes → Bytes → Response × AppState
    unfolding accept_parsed is_authorized
    accept_batch state read_file authorization body =
        if not (is_authorized state.config.internal_token authorization)
        then reject state 401 missing_credential
        else accept_parsed state read_file (S.batch_from_slice body)
