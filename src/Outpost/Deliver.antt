-- ===== src/Outpost/Deliver.antt =====
-- `deliver_pending`, `deliver_http_batch`, `deliver_s3_batch` and `encode_s3_ndjson` of
-- crates/outpost/src/lib.rs. What the receiver answers in one pass is an argument.
pub mod Receiver
pub mod Kept
pub mod Items
pub mod Safe
pub mod Listed
pub mod Sorted
pub mod Pending
pub mod Emptied
use mongodb_dam.Common.{
  ℕ, ◌+◌, ◌==◌, Bool, true, false, not, ◌&&◌, ◌||◌, Option, none, some, Bytes, List, [], ◌∷◌, ◌++◌,
  if◌then◌else◌, within,
}
use mongodb_dam.Common.Outcome.{Outcome, ok, err, panic, spent, ◌>>=◌, ok_or}
use mongodb_dam.Schema.Types.{DamBatch, DamEvent}
use mongodb_dam.Spool.Store.{
  DurableSpool, PendingItem, SpoolError, pending, read, acknowledge, quarantine,
}
use mongodb_dam.Outpost.State.{
  Platform, AppState, Metrics, DestinationConfig, http, s3, HttpDestinationConfig,
  S3DestinationConfig,
}
use mongodb_dam.Outpost.ObjectKey.{s3_object_key}

-- The texts of the errors.
pub data DeliveryError : Type 0 where
  spool_failed : SpoolError → DeliveryError
  invalid_item : (id : Bytes) → DeliveryError
  request_failed put_failed not_encoded mismatch : DeliveryError
  retryable : (status : ℕ) → DeliveryError

-- What is sent in an HTTP request.
pub record HttpRequest : Type 0 where
  pub endpoint : Bytes
  pub bearer_token : Bytes
  pub idempotency_key : Bytes
  pub body : Bytes

-- The client of a destination: the status of the response to a request, if there is one; and whether
-- an object is put into a bucket under a key.
pub data DestinationClient : Type 0 where
  http_client : (HttpRequest → Option ℕ) → DestinationClient
  s3_client : (Bytes → Bytes → Bytes → Bool) → DestinationClient

-- `true` acknowledges, `false` is for the quarantine.
unfoldable pub judge : Option ℕ → Outcome DeliveryError Bool
judge none = err request_failed
judge (some status) =
    if within 200 299 status || status == 409
    then ok true
    else if within 400 499 status && not (status == 429)
    then ok false
    else err (retryable status)

abbrev pub count_delivered : AppState → AppState
count_delivered state = record state {
  metrics = record state.metrics { delivered_batches = state.metrics.delivered_batches + 1 };
}

abbrev pub count_quarantined : AppState → AppState
count_quarantined state = record state {
  metrics = record state.metrics { quarantined_batches = state.metrics.quarantined_batches + 1 };
}

-- The result of a step of the pass, with the state that it leaves.
abbrev pub Delivered : Type 0
Delivered = Outcome DeliveryError (Unit {0}) × AppState

-- `self.spool.…(&item)?` with what counts it.
unfoldable pub spool_step :
    (AppState → AppState) → AppState → Outcome SpoolError (Unit {0}) × DurableSpool → Delivered
spool_step count state (ok _, spool) = (ok tt, count (record state { spool = spool }))
spool_step count state (err e, spool) = (err (spool_failed e), record state { spool = spool })
spool_step count state (panic, spool) = (panic, record state { spool = spool })
spool_step count state (spent, spool) = (spent, record state { spool = spool })

-- Behind the answer of the receiver.
unfoldable pub settle_item : AppState → PendingItem → Outcome DeliveryError Bool → Delivered
unfolding spool_step acknowledge quarantine
settle_item state item (ok true) = spool_step count_delivered state (acknowledge state.spool item)
settle_item state item (ok false) = spool_step count_quarantined state (quarantine state.spool item)
settle_item state item (err e) = (err e, state)
settle_item state item panic = (panic, state)
settle_item state item spent = (spent, state)

module _ (S : Platform) where
  abbrev Batch : Type 0
  Batch = DamBatch S.Time S.Value

  abbrev pub deliver_http_batch :
      (HttpRequest → Option ℕ) → HttpDestinationConfig → Batch → Bytes → Outcome DeliveryError Bool
  deliver_http_batch post destination batch body = judge (
      post (record {
        endpoint = destination.endpoint;
        bearer_token = destination.bearer_token;
        idempotency_key = batch.batch_id;
        body = body;
      }))

  -- The lines of the object, each with its delimiter.
  unfoldable pub ndjson : Batch → List (DamEvent S.Time S.Value) → Option Bytes
  ndjson batch [] = some []
  ndjson batch (event ∷ events) =
      let rest = ndjson batch events in
      elim (S.record_text batch.schema_version batch.batch_id batch.created_at event) [
        | none ↦ none
        | some line ↦ elim rest [ none ↦ none | some lines ↦ some (line ++ (0x0a ∷ lines)) ]
      ]

  abbrev compress : Option Bytes → Option Bytes
  compress none = none
  compress (some text) = S.gzip text

  unfoldable pub encode_s3_ndjson : Batch → Option Bytes
  unfolding ndjson
  encode_s3_ndjson batch = compress (ndjson batch batch.events)

  unfoldable pub put_object :
      (Bytes → Bytes → Bytes → Bool) → Bytes → Bytes → Option Bytes → Outcome DeliveryError Bool
  put_object put bucket key none = err not_encoded
  put_object put bucket key (some body) = if put bucket key body then ok true else err put_failed

  abbrev pub deliver_s3_batch :
      (Bytes → Bytes → Bytes → Bool) → S3DestinationConfig → Batch → Outcome DeliveryError Bool
  deliver_s3_batch put destination batch =
      put_object put destination.bucket (s3_object_key S destination batch) (encode_s3_ndjson batch)

  -- The answer of the destination to a batch and the bytes that hold it.
  unfoldable pub deliver :
      DestinationConfig → DestinationClient → Batch → Bytes → Outcome DeliveryError Bool
  unfolding judge put_object encode_s3_ndjson s3_object_key
  deliver (http destination) (http_client post) batch body =
      deliver_http_batch post destination batch body
  deliver (s3 destination) (s3_client put) batch body = deliver_s3_batch put destination batch
  deliver _ _ batch body = err mismatch

  -- `read` and `from_slice`, with the errors of the pass
  unfoldable pub parse_body :
      PendingItem → Bytes → Option Batch → Outcome DeliveryError (Batch × Bytes)
  parse_body item body none = err (invalid_item item.id)
  parse_body item body (some batch) = ok (batch, body)

  unfoldable pub parse_read :
      PendingItem → Outcome SpoolError Bytes → Outcome DeliveryError (Batch × Bytes)
  unfolding parse_body
  parse_read item (ok body) = parse_body item body (S.batch_from_slice body)
  parse_read item (err e) = err (spool_failed e)
  parse_read item panic = panic
  parse_read item spent = spent

  unfoldable pub load : DurableSpool → PendingItem → Outcome DeliveryError (Batch × Bytes)
  unfolding parse_read read
  load spool item = parse_read item (read spool item)

  abbrev pub answer_for :
      DestinationConfig → DestinationClient → Batch × Bytes → Outcome DeliveryError Bool
  answer_for destination client (batch, body) = deliver destination client batch body

  unfoldable pub deliver_item : DestinationClient → AppState → PendingItem → Delivered
  unfolding settle_item deliver load
  deliver_item client state item =
      settle_item state item (load state.spool item >>= answer_for state.config.destination client)

  -- An error ends the pass.
  unfoldable pub go_on : (AppState → Delivered) → Delivered → Delivered
  go_on rest (ok _, state) = rest state
  go_on rest (err e, state) = (err e, state)
  go_on rest (panic, state) = (panic, state)
  go_on rest (spent, state) = (spent, state)

  unfoldable pub deliver_items : DestinationClient → AppState → List PendingItem → Delivered
  unfolding deliver_item go_on
  deliver_items client state [] = (ok tt, state)
  deliver_items client state (item ∷ items) =
      go_on (λ state'. deliver_items client state' items) (deliver_item client state item)

  unfoldable pub deliver_pending : DestinationClient → AppState → Delivered
  unfolding deliver_items pending
  deliver_pending client state = deliver_items client state (pending state.spool)
