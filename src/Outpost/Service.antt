-- ===== src/Outpost/Service.antt =====
-- `build_state`, `health` and the turns of `run_exporter` in crates/outpost/src/lib.rs.
use mongodb_dam.Common.{ℕ, ◌+◌, false, Bytes, []}
use mongodb_dam.Common.Outcome.{Outcome, ok, err, panic, spent}
use mongodb_dam.Spool.Digest.{Digest}
use mongodb_dam.Spool.Files.{Directory}
use mongodb_dam.Spool.Store.{DurableSpool, SpoolError, stats, quarantine_stats}
use mongodb_dam.Spool.Recovery.{open_spool}
use mongodb_dam.Outpost.State.{Platform, OutpostConfig, AppState, new_metrics}
use mongodb_dam.Outpost.Config.{ConfigError, validate_config}
use mongodb_dam.Outpost.Accept.{refresh_spool_metrics}
use mongodb_dam.Outpost.Deliver.{DestinationClient, Delivered, deliver_pending}

-- The errors of `build_state`.
pub data BuildError : Type 0 where
  invalid_config : ConfigError → BuildError
  not_opened : SpoolError → BuildError

pub record HealthResponse : Type 0 where
  pub regional_cell_id : Bytes
  pub spool_items : ℕ
  pub spool_bytes : ℕ
  pub quarantine_items : ℕ
  pub quarantine_bytes : ℕ

-- The answer where the statistics can be read.
unfoldable pub health : AppState → HealthResponse
unfolding stats quarantine_stats
health state =
    let kept = stats state.spool in
    let set_aside = quarantine_stats state.spool in
    record {
      regional_cell_id = state.config.regional_cell_id;
      spool_items = kept.items;
      spool_bytes = kept.bytes;
      quarantine_items = set_aside.items;
      quarantine_bytes = set_aside.bytes;
    }

abbrev pub initial_state : OutpostConfig → DurableSpool → AppState
initial_state config spool = record {
  config = config;
  spool = spool;
  metrics = new_metrics;
  notified = false;
  kubernetes = [];
}

unfoldable pub state_of :
    OutpostConfig → Outcome SpoolError DurableSpool → Outcome BuildError AppState
unfolding refresh_spool_metrics
state_of config (ok spool) = ok (refresh_spool_metrics (initial_state config spool))
state_of config (err e) = err (not_opened e)
state_of config panic = panic
state_of config spent = spent

unfoldable pub build_checked :
    Digest
    → OutpostConfig
    → Directory
    → Directory
    → Outcome ConfigError (Unit {0})
    → Outcome BuildError AppState
unfolding state_of open_spool
build_checked D config root quarantine (ok _) =
    state_of config (open_spool D root quarantine config.spool_max_bytes)
build_checked D config root quarantine (err e) = err (invalid_config e)
build_checked D config root quarantine panic = panic
build_checked D config root quarantine spent = spent

-- `root` and `quarantine` are what the directory of the spool holds.
unfoldable pub build_state :
    Platform → Digest → OutpostConfig → Directory → Directory → Outcome BuildError AppState
unfolding build_checked validate_config
build_state S D config root quarantine =
    build_checked D config root quarantine (validate_config S config)

-- A turn of the exporter: a pass, its failure counted, and the gauges.
unfoldable pub counted_pass : Delivered → AppState
counted_pass (err e, state) = record state {
  metrics = record state.metrics { delivery_failures = state.metrics.delivery_failures + 1 };
}
counted_pass (_, state) = state

unfoldable pub export_turn : Platform → DestinationClient → AppState → AppState
unfolding counted_pass deliver_pending refresh_spool_metrics
export_turn S client state = refresh_spool_metrics (counted_pass (deliver_pending S client state))
