-- ===== src/Spool/Ledger/Runs.antt =====
-- The steps of a spool of crates/spool/src/lib.rs as turns of the ledger.
use mongodb_dam.Spool.Digest.{Digest}
use mongodb_dam.Spool.Store.{DurableSpool}
use mongodb_dam.Spool.Store.Invariant.{IsValid}
use mongodb_dam.Spool.Steps.{
  Step, enqueues, acknowledges, quarantines, recovers, Steps, Steps-IsValid,
}
use mongodb_dam.Spool.Ledger.{ledger, Turn}
use mongodb_dam.Spool.Ledger.Stored.{enqueue-Turn, recover_entry-Turn}
use mongodb_dam.Spool.Ledger.Removed.{acknowledge-Turn, quarantine-Turn}

module _ (D : Digest) where
  Step-Turn : (s s' : DurableSpool) → Step D s s' → IsValid D s → Turn D (ledger s) (ledger s')
  Step-Turn _ _ (enqueues disk s body) v = enqueue-Turn D disk s body
  Step-Turn _ _ (acknowledges s item) v = acknowledge-Turn D s item v
  Step-Turn _ _ (quarantines s item named) v = quarantine-Turn D s item v named
  Step-Turn _ _ (recovers s s' name h) v = recover_entry-Turn D s s' name h

  -- Each step that a spool takes, behind any run from a spool in good order, leaves the ledger as it
  -- is, or moves one batch and no other: from absent to waiting under the digest of its body, from
  -- waiting to absent, or from waiting to the quarantine with the same body. Writes that fail and
  -- restarts that stop are steps; an item that is set aside has the path of its identifier.
  pub Steps-Turn :
      (s t u : DurableSpool) → Steps D s t → Step D t u → IsValid D s → Turn D (ledger t) (ledger u)
  Steps-Turn s t u run step v = Step-Turn t u step (Steps-IsValid D s t run v)
