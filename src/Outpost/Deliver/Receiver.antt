-- ===== src/Outpost/Deliver/Receiver.antt =====
-- When a receiver has taken a batch that crates/outpost/src/lib.rs sends it, by its contract: what it
-- was sent, and what it answered.
use mongodb_dam.Common.{
  ℕ, ◌≡◌, ◌≤◌, ◌⊎◌, inl, inr, refl, arith, Bool, true, Option, none, some, Bytes, Bool-cases,
}
use mongodb_dam.Common.Outcome.{ok}
use mongodb_dam.Schema.Types.{DamBatch}
use mongodb_dam.Outpost.State.{Platform, DestinationConfig, http, s3}
use mongodb_dam.Outpost.ObjectKey.{s3_object_key}
use mongodb_dam.Outpost.Deliver.{
  DestinationClient, http_client, s3_client, judge, encode_s3_ndjson, put_object, deliver,
}

-- A success, or that the batch is there already.
abbrev pub IsAcknowledgement : ℕ → Type 0
IsAcknowledgement status = ((200 ≤ status) × (status ≤ 299)) ⊎ (status ≡ 409)

judge-IsAcknowledgement :
    (answer : Option ℕ)
    → judge answer ≡ ok true
    → (status : ℕ) × (answer ≡ some status) × IsAcknowledgement status
unfolding judge
judge-IsAcknowledgement none h = cc
judge-IsAcknowledgement (some status) h = (status, refl, ground arith)

judge_acknowledged : (status : ℕ) → IsAcknowledgement status → judge (some status) ≡ ok true
unfolding judge
judge_acknowledged status (inl (low, high)) = ground arith
judge_acknowledged status (inr conflict) = ground arith

module _ (S : Platform) where
  -- The receiver answered the request with the batch by an acknowledgement, or the object of the batch
  -- was put into the bucket.
  abbrev pub Accepts :
      DestinationConfig → DestinationClient → DamBatch S.Time S.Value → Bytes → Type 0
  Accepts (http destination) (http_client post) batch body =
      (status : ℕ) × (post (record {
        endpoint = destination.endpoint;
        bearer_token = destination.bearer_token;
        idempotency_key = batch.batch_id;
        body = body;
      })
        ≡ some status)
      × IsAcknowledgement status
  Accepts (s3 destination) (s3_client put) batch body =
      (object : Bytes) × (encode_s3_ndjson S batch ≡ some object)
      × (put destination.bucket (s3_object_key S destination batch) object ≡ true)
  Accepts _ _ batch body = ⊥

  put_object-true :
      (put : Bytes → Bytes → Bytes → Bool) (bucket key : Bytes) (encoded : Option Bytes)
      → put_object S put bucket key encoded ≡ ok true
      → (object : Bytes) × (encoded ≡ some object) × (put bucket key object ≡ true)
  unfolding put_object
  put_object-true put bucket key none h = cc
  put_object-true put bucket key (some object) h = elim (Bool-cases (put bucket key object)) [
    | inl done ↦ (object, refl, done)
    | inr failed ↦ let refused = rw failed at h in cc
  ]

  pub deliver-Accepts :
      (destination : DestinationConfig) (client : DestinationClient)
      (batch : DamBatch S.Time S.Value) (body : Bytes)
      → deliver S destination client batch body ≡ ok true
      → Accepts destination client batch body
  unfolding deliver
  deliver-Accepts (http destination) (http_client post) batch body h = judge-IsAcknowledgement _ h
  deliver-Accepts (s3 destination) (s3_client put) batch body h = put_object-true put _ _ _ h
  deliver-Accepts (http destination) (s3_client put) batch body h = cc
  deliver-Accepts (s3 destination) (http_client post) batch body h = cc

  pub deliver_accepted :
      (destination : DestinationConfig) (client : DestinationClient)
      (batch : DamBatch S.Time S.Value) (body : Bytes)
      → Accepts destination client batch body
      → deliver S destination client batch body ≡ ok true
  unfolding deliver put_object
  deliver_accepted (http destination) (http_client post) batch body (status, answered, a) =
      rw answered (judge_acknowledged status a)
  deliver_accepted (s3 destination) (s3_client put) batch body (object, encoded, done) =
      rw encoded (rw done refl)
  deliver_accepted (http destination) (s3_client put) batch body never = absurd never
  deliver_accepted (s3 destination) (http_client post) batch body never = absurd never
