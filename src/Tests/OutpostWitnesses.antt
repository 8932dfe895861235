-- ===== src/Tests/OutpostWitnesses.antt =====
-- The theorems of the Outpost at concrete inputs.
use mongodb_dam.Common.{
  ◌≡◌, ◌↔◌, inl, refl, arith, false, none, some, Bytes, [], codes, length, bytes_eq,
}
use mongodb_dam.Common.Int.{pos}
use mongodb_dam.Common.Outcome.{ok}
use mongodb_dam.Common.Space.{trim}
use mongodb_dam.Schema.Validate.{validate}
use mongodb_dam.Spool.Store.{DurableSpool, sound, enqueue, pending}
use mongodb_dam.Spool.Store.Invariant.{IsValid, enqueue-IsValid}
use mongodb_dam.Outpost.State.{
  Platform, S3DestinationConfig, DestinationConfig, http, OutpostConfig, AppState,
  IdentityMappingEntry, new_metrics,
}
use mongodb_dam.Outpost.Identity.{FileRead, failed, validate_identity_mapping}
use mongodb_dam.Outpost.Identity.Forms.{IsAwsMapping, validate_identity_mapping-IsAwsMapping}
use mongodb_dam.Outpost.ObjectKey.{s3_object_key}
use mongodb_dam.Outpost.ObjectKey.Parts.{AreTexts, s3_object_key-injective}
use mongodb_dam.Outpost.Accept.{accept_batch, enrich_batch}
use mongodb_dam.Outpost.Accept.Outcomes.{IsAnswered, accept_batch-IsAnswered}
use mongodb_dam.Outpost.Accept.Enriched.{validate-enrich_batch}
use mongodb_dam.Outpost.Accept.Attributed.{AreAttributed, enrich_batch-AreAttributed}
use mongodb_dam.Outpost.Deliver.{DestinationClient, http_client, deliver_pending}
use mongodb_dam.Outpost.Deliver.Safe.{Safe, deliver_pending-Safe}
use mongodb_dam.Outpost.Deliver.Emptied.{IsEmptied, TakesAll, deliver_pending-IsEmptied}
use mongodb_dam.Tests.Batches.{digest, batch, empty, empty-IsValid}
use mongodb_dam.Tests.ObserverWitnesses.{batch_of_one}

-- Every text parses as one batch.
abbrev platform : Platform
platform = record {
  Time = Unit {0};
  year = λ _. pos 2026;
  month = λ _. 7;
  day = λ _. 4;
  hour = λ _. 12;
  Value = Unit {0};
  batch_from_slice = λ body. some batch_of_one;
  batch_to_vec = λ _. some batch;
  mappings_from_slice = λ _. none;
  record_text = λ _ _ _ _. some [];
  gzip = λ text. some text;
  parse_url = λ _. none;
}

abbrev destination : DestinationConfig
destination =
    http (record { endpoint = codes "https://a"; bearer_token = codes "b"; ca_file = none })

abbrev config : OutpostConfig
config = record {
  customer_id = codes "c";
  tenant_id = codes "t";
  source_id = codes "s";
  regional_cell_id = codes "r";
  cluster_name = codes "k";
  internal_token = some (codes "secret");
  destination = destination;
  spool_dir = codes "/spool";
  spool_max_bytes = 100;
  max_request_bytes = 1000;
  export_interval = 1;
  kubernetes_api_url = none;
  kubernetes_token_path = [];
  kubernetes_ca_path = [];
  kubernetes_refresh_interval = 60;
  identity_mapping_file = some (codes "/map");
}

abbrev state_with : DurableSpool → AppState
state_with spool = record {
  config = config;
  spool = spool;
  metrics = new_metrics;
  notified = false;
  kubernetes = [];
}

abbrev no_files : Bytes → FileRead
no_files path = failed

accept_batch-IsAnswered_example :
    IsAnswered platform digest sound
      (state_with empty)
      no_files
      (some (codes "Bearer secret"))
      (codes "{}")
      (accept_batch platform digest sound
        (state_with empty)
        no_files
        (some (codes "Bearer secret"))
        (codes "{}"))
accept_batch-IsAnswered_example =
    accept_batch-IsAnswered platform digest sound (state_with empty) no_files
      (some (codes "Bearer secret")) (codes "{}")

one-accepted : validate batch_of_one ≡ ok tt
unfolding validate bytes_eq
one-accepted = refl

validate-enrich_batch_example :
    validate (enrich_batch platform (state_with empty) no_files batch_of_one) ≡ ok tt
validate-enrich_batch_example =
    validate-enrich_batch platform (state_with empty) no_files batch_of_one one-accepted

enrich_batch-AreAttributed_example :
    AreAttributed platform (enrich_batch platform (state_with empty) no_files batch_of_one).events
enrich_batch-AreAttributed_example =
    enrich_batch-AreAttributed platform (state_with empty) no_files batch_of_one

abbrev mapping : IdentityMappingEntry
mapping = record {
  mongodb_principal_hash =
      codes "sha256:0123456789abcdef0123456789abcdef0123456789abcdef0123456789abcdef";
  provider = codes "aws";
  principal_type = codes "iam_user";
  principal_arn = codes "arn:aws:iam::123456789012:user/a";
  account_id = codes "123456789012";
  credential_source = codes "aws_secrets_manager";
  credential_resource = codes "arn:aws:secretsmanager:eu-west-1:123456789012:secret:a";
}

validate_identity_mapping-IsAwsMapping_example :
    (validate_identity_mapping mapping ≡ ok tt) ↔ IsAwsMapping mapping
validate_identity_mapping-IsAwsMapping_example = validate_identity_mapping-IsAwsMapping mapping

abbrev bucket : S3DestinationConfig
bucket = record {
  bucket = codes "b";
  prefix = codes "/raw/";
  endpoint_url = none;
  force_path_style = false;
}

one-AreTexts : AreTexts batch_of_one
one-AreTexts = record {
  customer = (omega arith, tt);
  tenant = (omega arith, tt);
  cell = (omega arith, tt);
  source = (omega arith, tt);
  id = (omega arith, tt);
}

s3_object_key-injective_example :
    (batch_of_one.customer_id ≡ batch_of_one.customer_id)
    × (batch_of_one.tenant_id ≡ batch_of_one.tenant_id)
    × (batch_of_one.regional_cell_id ≡ batch_of_one.regional_cell_id)
    × (batch_of_one.source_id ≡ batch_of_one.source_id)
    × (batch_of_one.batch_id ≡ batch_of_one.batch_id)
s3_object_key-injective_example =
    s3_object_key-injective platform bucket batch_of_one batch_of_one one-AreTexts one-AreTexts refl

-- A key, with an escaped byte in the customer
key_text :
    s3_object_key platform bucket (record batch_of_one { customer_id = codes "a/b" })
    ≡ codes
        "raw/customer_id=a%2Fb/tenant_id=t/regional_cell_id=r/source_id=s/date=2026-07-04/hour=12/b.ndjson.gz"
unfolding s3_object_key trim
key_text = refl

abbrev filled : DurableSpool
unfolding enqueue
filled = (enqueue digest sound empty batch).1

filled-IsValid : IsValid digest filled
unfolding enqueue
filled-IsValid = enqueue-IsValid digest sound empty batch empty-IsValid

abbrev client : DestinationClient
client = http_client (λ _. some 200)

deliver_pending-Safe_example :
    Safe platform destination client digest filled
      (deliver_pending platform client (state_with filled)).1.spool
deliver_pending-Safe_example =
    deliver_pending-Safe platform destination client digest (state_with filled) refl filled-IsValid

takes : TakesAll platform destination client filled.root
takes = λ id body h. record {
  batch = batch_of_one;
  parsed = refl;
  taken = (200, refl, inl (omega arith, omega arith));
}

deliver_pending-IsEmptied_example :
    IsEmptied platform destination client
      (length (pending filled))
      (state_with filled)
      (deliver_pending platform client (state_with filled))
deliver_pending-IsEmptied_example =
    deliver_pending-IsEmptied platform destination client (state_with filled) refl
      filled-IsValid.unique_root takes
