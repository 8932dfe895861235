-- ===== src/Spool/Ledger.antt =====
-- The abstract view of the spool of crates/spool/src/lib.rs: a ledger of the batches by their
-- identifiers, which forgets files, directories and order, and the turns that it may take.
pub mod Stored
pub mod Removed
pub mod Runs
use mongodb_dam.Common.{
  ◌≡◌, refl, sym, ap, subst, ◌∙◌, arith, true, false, Option, none, some, Bytes, ◌∷◌, [], ◌⊎◌,
  Bool-cases, inl, inr, bytes_eq, bytes_eq_iff, take,
}
use mongodb_dam.Common.Outcome.{Outcome, ok, err}
use mongodb_dam.Spool.Digest.{Digest}
use mongodb_dam.Spool.Files.{
  FileName, json, tmp, other, Directory, lookup, exists, remove, write, name_eq,
}
use mongodb_dam.Spool.Files.Laws.{lookup-remove, lookup-write, name_eq_iff}
use mongodb_dam.Spool.Store.{
  DurableSpool, PendingItem, Disk, sound, create_fails, write_fails, sync_fails, rename_fails,
  root_sync_fails, with_root, promote, holds, store_batch, enqueue, acknowledge, remove_found,
  quarantine, move_found,
}
use mongodb_dam.Spool.Store.Cases.{enqueue-cases}
use mongodb_dam.Spool.Store.Invariant.{IsValid}
use mongodb_dam.Spool.Recovery.{is_batch_id, settle, settle_found, recover_entry}
use mongodb_dam.Spool.Steps.{
  Step, enqueues, acknowledges, quarantines, recovers, Steps, stay, then_step, Steps-IsValid,
}

-- What a batch is to the clients of a spool.
pub data Status : Type 0 where
  absent : Status
  waits : Bytes → Status
  set_aside : Bytes → Status

abbrev pub status : Option Bytes → Option Bytes → Status
status (some body) in_quarantine = waits body
status none (some body) = set_aside body
status none none = absent

abbrev pub Ledger : Type 0
Ledger = Bytes → Status

unfoldable pub ledger : DurableSpool → Ledger
unfolding lookup
ledger spool id = status (lookup (json id) spool.root) (lookup (json id) spool.quarantine)

module _ (D : Digest) where
  -- The life of a batch: it comes under the digest of its body, and leaves or is set aside for good.
  pub data Move (id : Bytes) (before after : Status) : Type 0 where
    arrives :
        (body : Bytes)
        → D.id_of body ≡ id
        → before ≡ absent
        → after ≡ waits body
        → Move id before after
    leaves : (body : Bytes) → before ≡ waits body → after ≡ absent → Move id before after
    goes_aside :
        (body : Bytes) → before ≡ waits body → after ≡ set_aside body → Move id before after

  pub data Turn (before after : Ledger) : Type 0 where
    stays : ((id : Bytes) → after id ≡ before id) → Turn before after
    moves :
        (id : Bytes)
        → Move id (before id) (after id)
        → ((j : Bytes) → bytes_eq id j ≡ false → after j ≡ before j)
        → Turn before after

  -- The files of the root other than batches are not in the ledger.
  pub with_root-Turn :
      (spool : DurableSpool) (files : Directory)
      → ((id : Bytes) → lookup (json id) files ≡ lookup (json id) spool.root)
      → Turn (ledger spool) (ledger (with_root spool files))
  unfolding ledger
  with_root-Turn spool files same =
      stays (λ id. ap (λ found. status found (lookup (json id) spool.quarantine)) (same id))

  pub same-Turn : (spool : DurableSpool) → Turn (ledger spool) (ledger spool)
  same-Turn spool = stays (λ id. refl)
