-- ===== src/Outpost/Accept/Observed.antt =====
-- The way of a batch from the Observer (crates/observer/src/lib.rs) into the spool of the Outpost
-- (crates/outpost/src/lib.rs), where both use the same packages.
use mongodb_dam.Common.{
  ℕ, ◌≡◌, refl, arith, true, false, Option, some, Bytes, List, ◌∷◌, bytes_eq, bytes_eq_iff,
}
use mongodb_dam.Common.Int.{ℤ}
use mongodb_dam.Common.Outcome.{ok}
use mongodb_dam.Common.Space.{is_blank}
use mongodb_dam.Protocol.Libraries.{Libraries}
use mongodb_dam.Schema.Types.{DamEvent, DamBatch}
use mongodb_dam.Schema.Validate.{validate}
use mongodb_dam.Spool.Digest.{Digest}
use mongodb_dam.Spool.Files.{json, tmp, lookup, remove, write}
use mongodb_dam.Spool.Files.Laws.{lookup-write, name_eq_iff}
use mongodb_dam.Spool.Store.{sound}
use mongodb_dam.Spool.Store.Cases.{IsAccepted, enqueue_accepted}
use mongodb_dam.Observer.State.{EventProcessor, ProcessorConfig, new_processor}
use mongodb_dam.Observer.Runs.{Run}
use mongodb_dam.Observer.Runs.Accepted.{IsNamed, batch_of, validate-Run}
use mongodb_dam.Outpost.State.{
  Platform, Url, IdentityMappingDocument, AppState, OutpostConfig, Response, accepted,
}
use mongodb_dam.Outpost.Identity.{FileRead}
use mongodb_dam.Outpost.Accept.{
  is_authorized, refresh_spool_metrics, enrich_batch, is_assigned, answer_stored, store,
  accept_valid, accept_validated, accept_parsed, accept_batch,
}

-- What the platform has beside the values of the protocol's libraries.
pub record Formats (Value : Type 0) : Type 1 where
  pub Time : Type 0
  pub year : Time → ℤ
  pub month : Time → ℕ
  pub day : Time → ℕ
  pub hour : Time → ℕ
  pub batch_from_slice : Bytes → Option (DamBatch Time Value)
  pub batch_to_vec : DamBatch Time Value → Option Bytes
  pub mappings_from_slice : Bytes → Option IdentityMappingDocument
  pub record_text : ℕ → Bytes → Time → DamEvent Time Value → Option Bytes
  pub gzip : Bytes → Option Bytes
  pub parse_url : Bytes → Option Url

abbrev pub platform_of : (Value : Type 0) → Formats Value → Platform
platform_of Value F = record {
  Time = F.Time;
  year = F.year;
  month = F.month;
  day = F.day;
  hour = F.hour;
  Value = Value;
  batch_from_slice = F.batch_from_slice;
  batch_to_vec = F.batch_to_vec;
  mappings_from_slice = F.mappings_from_slice;
  record_text = F.record_text;
  gzip = F.gzip;
  parse_url = F.parse_url;
}

-- The Outpost is the one of the Observer's source.
pub record IsOutpostOf (observer : ProcessorConfig) (outpost : OutpostConfig) : Type 0 where
  pub customer : observer.customer_id ≡ outpost.customer_id
  pub tenant : observer.tenant_id ≡ outpost.tenant_id
  pub source : observer.source_id ≡ outpost.source_id
  pub cell : observer.regional_cell_id ≡ outpost.regional_cell_id

-- The batch is accepted, and what encodes it lies in the spool under the receipt.
abbrev pub IsStored : Digest → Bytes → Bytes → Response × AppState → Type 0
IsStored D batch_id encoded (response, after) =
    (response ≡ accepted batch_id (D.id_of encoded))
    × (lookup (json (D.id_of encoded)) after.spool.root ≡ some encoded)

module _ (S : Platform) (D : Digest) (state : AppState) (read_file : Bytes → FileRead) where
  store-IsStored :
      (batch : DamBatch S.Time S.Value) (encoded : Bytes)
      → IsAccepted D state.spool encoded
      → IsStored D batch.batch_id encoded (store S D sound state batch (some encoded))
  unfolding store answer_stored refresh_spool_metrics
  store-IsStored batch encoded fits =
      let id = D.id_of encoded in
      rw (enqueue_accepted D sound state.spool encoded fits) (
        (
          refl,
          ground (
            arith,
            lookup-write (json id) (json id) encoded
                (remove (tmp id) (write (tmp id) encoded state.spool.root)),
            name_eq_iff (json id) (json id),
          ),
        ))

  accept_valid-IsStored :
      (batch : DamBatch S.Time S.Value) (encoded : Bytes)
      → is_assigned S state.config batch ≡ true
      → S.batch_to_vec (enrich_batch S state read_file batch) ≡ some encoded
      → IsAccepted D state.spool encoded
      → IsStored D batch.batch_id encoded (accept_valid S D sound state read_file batch)
  unfolding accept_valid enrich_batch
  accept_valid-IsStored batch encoded assigned serialized fits =
      rw (assigned, serialized) (store-IsStored (enrich_batch S state read_file batch) encoded fits)

  accept_batch-IsStored :
      (authorization : Option Bytes) (body : Bytes) (batch : DamBatch S.Time S.Value)
      (encoded : Bytes)
      → is_authorized state.config.internal_token authorization ≡ true
      → S.batch_from_slice body ≡ some batch
      → validate batch ≡ ok tt
      → is_assigned S state.config batch ≡ true
      → S.batch_to_vec (enrich_batch S state read_file batch) ≡ some encoded
      → IsAccepted D state.spool encoded
      → IsStored D batch.batch_id encoded
          (accept_batch S D sound state read_file authorization body)
  unfolding accept_batch accept_parsed accept_validated
  accept_batch-IsStored authorization body batch encoded a p v assigned serialized fits =
      rw (a, p, v) (accept_valid-IsStored batch encoded assigned serialized fits)

bytes_eq_same : (a b : Bytes) → a ≡ b → bytes_eq a b ≡ true
bytes_eq_same a b = (bytes_eq_iff a b).1

module _ (L : Libraries) (F : Formats L.Value) (D : Digest) (observer : ProcessorConfig)
    (state : AppState) (read_file : Bytes → FileRead) where
  abbrev S : Platform
  S = platform_of L.Value F

  -- A batch of the events of a run of the processor, one at least, under an identifier that is not
  -- blank and with the names of the Observer's configuration, none of them blank, is accepted by the
  -- Outpost with these names and the credential of the request, where its body is read as the batch;
  -- the enriched batch lies in the spool under the receipt, where it can be serialized, is new and
  -- fits, no temporary file of it is left, and the disk is sound.
  pub accept_batch-Run :
      (q : EventProcessor F.Time L.Value) (event : DamEvent F.Time L.Value)
      (events : List (DamEvent F.Time L.Value)) (batch_id : Bytes) (created_at : F.Time)
      (authorization : Option Bytes) (body encoded : Bytes)
      → IsNamed observer
      → is_blank batch_id ≡ false
      → Run L (new_processor observer) (event ∷ events) q
      → IsOutpostOf observer state.config
      → is_authorized state.config.internal_token authorization ≡ true
      → F.batch_from_slice body ≡ some (batch_of L observer batch_id created_at (event ∷ events))
      → F.batch_to_vec (
          enrich_batch S state read_file (batch_of L observer batch_id created_at (event ∷ events)))
        ≡ some encoded
      → IsAccepted D state.spool encoded
      → IsStored D batch_id encoded (accept_batch S D sound state read_file authorization body)
  unfolding is_assigned
  accept_batch-Run q event events batch_id created_at authorization body encoded named id run of a p
        serialized fits =
      accept_batch-IsStored S D state read_file authorization body
        (batch_of L observer batch_id created_at (event ∷ events)) encoded a p
        (validate-Run L observer q event events batch_id created_at named id run)
        (rw
          (
            bytes_eq_same _ _ of.customer,
            bytes_eq_same _ _ of.tenant,
            bytes_eq_same _ _ of.source,
            bytes_eq_same _ _ of.cell,
          )
          refl)
        serialized fits
