-- ===== src/Outpost/Accept/Outcomes.antt =====
-- What each response of `accept_batch`, crates/outpost/src/lib.rs, says, and what it leaves.
use mongodb_dam.Common.{
  ℕ, ◌+◌, ◌≡◌, ◌⊎◌, inl, inr, refl, sym, subst, true, false, Option, none, some, Bytes, Bool-cases,
}
use mongodb_dam.Common.Outcome.{Outcome, ok, err, panic, spent, Ensures}
use mongodb_dam.Schema.Validate.{BatchError, validate}
use mongodb_dam.Schema.Validate.Accepts.{validate-Ensures}
use mongodb_dam.Spool.Digest.{Digest}
use mongodb_dam.Spool.Store.{
  DurableSpool, SpoolError, Disk, sound, create_fails, write_fails, sync_fails, rename_fails,
  root_sync_fails, holds, enqueue, store_batch,
}
use mongodb_dam.Spool.Store.Cases.{enqueue-cases}
use mongodb_dam.Spool.Store.Retry.{enqueue-holds}
use mongodb_dam.Outpost.State.{
  Platform, AppState, Response, Refusal, refused, accepted, aborted, missing_credential,
  invalid_json, invalid_batch, other_assignment, not_serialized, not_stored,
}
use mongodb_dam.Outpost.Identity.{FileRead}
use mongodb_dam.Outpost.Accept.{
  is_authorized, refresh_spool_metrics, Batch, enrich_batch, is_assigned, reject, answer_stored,
  store, accept_valid, accept_validated, accept_parsed, accept_batch,
}

store_batch-Ensures :
    (disk : Disk) (spool : DurableSpool) (id body : Bytes)
    → Ensures (λ _. Unit {0}) (store_batch disk spool id body).0
store_batch-Ensures sound spool id body = tt
store_batch-Ensures create_fails spool id body = tt
store_batch-Ensures (write_fails n) spool id body = tt
store_batch-Ensures sync_fails spool id body = tt
store_batch-Ensures rename_fails spool id body = tt
store_batch-Ensures root_sync_fails spool id body = tt

module _ (S : Platform) (D : Digest) (disk : Disk) where
  module _ (state : AppState) (read_file : Bytes → FileRead) (authorization : Option Bytes)
      (body : Bytes) where
    -- The bytes that the spool is given for a batch.
    abbrev encoded_of : Batch S → Option Bytes
    encoded_of batch = S.batch_to_vec (enrich_batch S state read_file batch)

    -- How far a request got: past the credential, to a batch, past `validate`, past the assignment.
    abbrev pub IsAuthorized : Type 0
    IsAuthorized = is_authorized state.config.internal_token authorization ≡ true

    abbrev pub IsRead : Batch S → Type 0
    IsRead batch = IsAuthorized × (S.batch_from_slice body ≡ some batch)

    abbrev pub IsValidated : Batch S → Type 0
    IsValidated batch = IsRead batch × (validate batch ≡ ok tt)

    abbrev pub IsAssigned : Batch S → Type 0
    IsAssigned batch = IsValidated batch × (is_assigned S state.config batch ≡ true)

    -- The status of a refusal, the test that the request failed, and the tests before it, which it
    -- passed.
    abbrev pub IsReason : ℕ → Refusal → Type 0
    IsReason status missing_credential =
        (status ≡ 401) × (is_authorized state.config.internal_token authorization ≡ false)
    IsReason status invalid_json = (status ≡ 400) × IsAuthorized × (S.batch_from_slice body ≡ none)
    IsReason status (invalid_batch e) =
        (status ≡ 400) × ((batch : Batch S) × IsRead batch × (validate batch ≡ err e))
    IsReason status other_assignment =
        (status ≡ 403)
        × ((batch : Batch S) × IsValidated batch × (is_assigned S state.config batch ≡ false))
    IsReason status not_serialized =
        (status ≡ 500) × ((batch : Batch S) × IsAssigned batch × (encoded_of batch ≡ none))
    IsReason status (not_stored e) =
        (status ≡ 507)
        × ((batch : Batch S) × (encoded : Bytes) × IsAssigned batch
            × (encoded_of batch ≡ some encoded)
            × ((enqueue D disk state.spool encoded).0 ≡ err e))

    -- The request was in order, and the spool holds the enriched batch under the receipt.
    pub record IsTaken (batch_id receipt_id : Bytes) (after : AppState) : Type 0 where
      pub batch : Batch S
      pub encoded : Bytes
      pub authorized : is_authorized state.config.internal_token authorization ≡ true
      pub parsed : S.batch_from_slice body ≡ some batch
      pub valid : validate batch ≡ ok tt
      pub assigned : is_assigned S state.config batch ≡ true
      pub serialized : encoded_of batch ≡ some encoded
      pub named : batch_id ≡ batch.batch_id
      pub receipt : receipt_id ≡ D.id_of encoded
      pub held : holds receipt_id after.spool ≡ true
      pub counted : after.metrics.accepted_batches ≡ state.metrics.accepted_batches + 1
      pub not_counted : after.metrics.rejected_batches ≡ state.metrics.rejected_batches
      pub notified : after.notified ≡ true

    pub record IsRefused (status : ℕ) (refusal : Refusal) (after : AppState) : Type 0 where
      pub reason : IsReason status refusal
      pub counted : after.metrics.rejected_batches ≡ state.metrics.rejected_batches + 1
      pub not_counted : after.metrics.accepted_batches ≡ state.metrics.accepted_batches
      pub same_notified : after.notified ≡ state.notified
      pub same_spool : (status ≡ 507) ⊎ (after.spool ≡ state.spool)

    abbrev pub IsAnswered : Response × AppState → Type 0
    IsAnswered (accepted batch_id receipt_id, after) = IsTaken batch_id receipt_id after
    IsAnswered (refused status refusal, after) = IsRefused status refusal after
    IsAnswered (aborted, after) = ⊥

    rejected-IsAnswered :
        (status : ℕ) (refusal : Refusal)
        → IsReason status refusal
        → IsAnswered (reject S state status refusal)
    rejected-IsAnswered status refusal reason = record {
      reason = reason;
      counted = refl;
      not_counted = refl;
      same_notified = refl;
      same_spool = inr refl;
    }

    answer_stored-IsAnswered :
        (batch : Batch S) (encoded : Bytes) (o : Outcome SpoolError Bytes) (spool : DurableSpool)
        → enqueue D disk state.spool encoded ≡ (o, spool)
        → Ensures (λ _. Unit {0}) o
        → is_authorized state.config.internal_token authorization ≡ true
        → S.batch_from_slice body ≡ some batch
        → validate batch ≡ ok tt
        → is_assigned S state.config batch ≡ true
        → encoded_of batch ≡ some encoded
        → IsAnswered (answer_stored S state (enrich_batch S state read_file batch) (o, spool))
    unfolding answer_stored refresh_spool_metrics enrich_batch
    answer_stored-IsAnswered batch encoded (ok id) spool e r a p v s c =
        let (held, named) = enqueue-holds D disk state.spool encoded id (λ i. (e i).0) in
        record {
          batch = batch;
          encoded = encoded;
          authorized = a;
          parsed = p;
          valid = v;
          assigned = s;
          serialized = c;
          named = refl;
          receipt = named;
          held =
              subst (λ name. holds name spool ≡ true) (sym named)
                (subst (λ kept. holds (D.id_of encoded) kept ≡ true) (λ i. (e i).1) held);
          counted = refl;
          not_counted = refl;
          notified = refl;
        }
    answer_stored-IsAnswered batch encoded (err x) spool e r a p v s c = record {
      reason = (refl, (batch, encoded, (((a, p), v), s), c, λ i. (e i).0));
      counted = refl;
      not_counted = refl;
      same_notified = refl;
      same_spool = inl refl;
    }
    answer_stored-IsAnswered batch encoded panic spool e r a p v s c = r
    answer_stored-IsAnswered batch encoded spent spool e r a p v s c = r

    enqueue-Ensures :
        (encoded : Bytes) → Ensures (λ _. Unit {0}) (enqueue D disk state.spool encoded).0
    enqueue-Ensures encoded =
        enqueue-cases D (λ r. Ensures (λ _. Unit {0}) r.0) disk state.spool encoded (λ _. tt)
          (λ _ _. tt) (λ _ _ _. tt)
          (λ _. store_batch-Ensures disk state.spool (D.id_of encoded) encoded)

    store-IsAnswered :
        (batch : Batch S) (o : Option Bytes)
        → is_authorized state.config.internal_token authorization ≡ true
        → S.batch_from_slice body ≡ some batch
        → validate batch ≡ ok tt
        → is_assigned S state.config batch ≡ true
        → encoded_of batch ≡ o
        → IsAnswered (store S D disk state (enrich_batch S state read_file batch) o)
    unfolding store
    store-IsAnswered batch none a p v s c =
        rejected-IsAnswered 500 not_serialized (refl, (batch, (((a, p), v), s), c))
    store-IsAnswered batch (some encoded) a p v s c =
        answer_stored-IsAnswered batch encoded _ _ refl (enqueue-Ensures encoded) a p v s c

    accept_valid-IsAnswered :
        (batch : Batch S)
        → is_authorized state.config.internal_token authorization ≡ true
        → S.batch_from_slice body ≡ some batch
        → validate batch ≡ ok tt
        → IsAnswered (accept_valid S D disk state read_file batch)
    unfolding accept_valid
    accept_valid-IsAnswered batch a p v = elim (Bool-cases (is_assigned S state.config batch)) [
      | inl s ↦ rw s (store-IsAnswered batch _ a p v s refl)
      | inr s ↦ rw s (rejected-IsAnswered 403 other_assignment (refl, (batch, ((a, p), v), s)))
    ]

    accept_validated-IsAnswered :
        (batch : Batch S) (o : Outcome BatchError (Unit {0}))
        → is_authorized state.config.internal_token authorization ≡ true
        → S.batch_from_slice body ≡ some batch
        → validate batch ≡ o
        → Ensures (λ _. Unit {0}) o
        → IsAnswered (accept_validated S D disk state read_file batch o)
    unfolding accept_validated
    accept_validated-IsAnswered batch (ok _) a p v r = accept_valid-IsAnswered batch a p v
    accept_validated-IsAnswered batch (err e) a p v r =
        rejected-IsAnswered 400 (invalid_batch e) (refl, (batch, (a, p), v))
    accept_validated-IsAnswered batch panic a p v r = r
    accept_validated-IsAnswered batch spent a p v r = r

    accept_parsed-IsAnswered :
        (o : Option (Batch S))
        → is_authorized state.config.internal_token authorization ≡ true
        → S.batch_from_slice body ≡ o
        → IsAnswered (accept_parsed S D disk state read_file o)
    unfolding accept_parsed
    accept_parsed-IsAnswered none a p = rejected-IsAnswered 400 invalid_json (refl, a, p)
    accept_parsed-IsAnswered (some batch) a p =
        accept_validated-IsAnswered batch (validate batch) a p refl (validate-Ensures batch)

    -- Every request is answered, and by the first of the tests that it fails: without the configured
    -- credential with 401, without a batch in JSON or with one that `validate` refuses with 400, for
    -- another assignment with 403, where the enriched batch cannot be serialized with 500, and where
    -- the spool does not take it with 507; it is then counted as rejected, and short of 507 the spool
    -- stays as it is. A request that passes all is counted as accepted, the spool holds the enriched
    -- batch under the receipt, and the exporter is notified.
    pub accept_batch-IsAnswered :
        IsAnswered (accept_batch S D disk state read_file authorization body)
    unfolding accept_batch
    accept_batch-IsAnswered =
        elim (Bool-cases (is_authorized state.config.internal_token authorization)) [
          | inl a ↦ rw a (accept_parsed-IsAnswered (S.batch_from_slice body) a refl)
          | inr a ↦ rw a (rejected-IsAnswered 401 missing_credential (refl, a))
        ]
