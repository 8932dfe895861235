-- ===== src/Tests/ObservedWitnesses.antt =====
-- A batch of the Observer of one event, which the Outpost takes.
use mongodb_dam.Common.{◌≡◌, refl, false, none, some, Bytes, [], ◌∷◌, codes, true}
use mongodb_dam.Common.Int.{pos}
use mongodb_dam.Spool.Store.{sound}
use mongodb_dam.Schema.Types.{DamBatch}
use mongodb_dam.Observer.Runs.Accepted.{batch_of}
use mongodb_dam.Outpost.State.{OutpostConfig, AppState, http, new_metrics}
use mongodb_dam.Outpost.Identity.{FileRead, failed}
use mongodb_dam.Outpost.Accept.{is_authorized, accept_batch}
use mongodb_dam.Outpost.Accept.Observed.{
  Formats, platform_of, IsOutpostOf, IsStored, accept_batch-Run,
}
use mongodb_dam.Tests.Batches.{digest, batch, empty}
use mongodb_dam.Tests.Samples.{Json, plain}
use mongodb_dam.Tests.SpoolWitnesses.{accepted}
use mongodb_dam.Tests.ProcessorWitnesses.{
  config, exit_event, emitted, exit_run, config-IsNamed, batch_named,
}

abbrev sent : DamBatch (Unit {0}) Json
sent = batch_of plain config (codes "batch") tt (exit_event ∷ [])

abbrev formats : Formats Json
formats = record {
  Time = Unit {0};
  year = λ _. pos 2026;
  month = λ _. 7;
  day = λ _. 4;
  hour = λ _. 12;
  batch_from_slice = λ body. some sent;
  batch_to_vec = λ _. some batch;
  mappings_from_slice = λ _. none;
  record_text = λ _ _ _ _. some [];
  gzip = λ text. some text;
  parse_url = λ _. none;
}

abbrev settings : OutpostConfig
settings = record {
  customer_id = config.customer_id;
  tenant_id = config.tenant_id;
  source_id = config.source_id;
  regional_cell_id = config.regional_cell_id;
  cluster_name = codes "k";
  internal_token = some (codes "secret");
  destination =
      http (record { endpoint = codes "https://a"; bearer_token = codes "b"; ca_file = none });
  spool_dir = codes "/spool";
  spool_max_bytes = 100;
  max_request_bytes = 1000;
  export_interval = 1;
  kubernetes_api_url = none;
  kubernetes_token_path = [];
  kubernetes_ca_path = [];
  kubernetes_refresh_interval = 60;
  identity_mapping_file = none;
}

abbrev state : AppState
state = record {
  config = settings;
  spool = empty;
  metrics = new_metrics;
  notified = false;
  kubernetes = [];
}

abbrev no_files : Bytes → FileRead
no_files path = failed

credential : is_authorized (some (codes "secret")) (some (codes "Bearer secret")) ≡ true
unfolding is_authorized
credential = refl

same_source : IsOutpostOf config settings
same_source = record { customer = refl; tenant = refl; source = refl; cell = refl }

accept_batch-Run_example : IsStored digest (codes "batch") batch (
    accept_batch
      (platform_of Json formats)
      digest
      sound
      state
      no_files
      (some (codes "Bearer secret"))
      (codes "{}"))
accept_batch-Run_example =
    accept_batch-Run plain formats digest config state no_files emitted.1 exit_event []
      (codes "batch") tt (some (codes "Bearer secret")) (codes "{}") batch config-IsNamed
      batch_named exit_run same_source credential refl refl accepted
