-- ===== src/Tests/SpoolWitnesses.antt =====
-- The theorems of the spool at concrete directories.
use mongodb_dam.Common.{
  ℕ, zero, suc, ap, take, min, ◌+◌, ◌-◌, ◌^◌, ◌≡◌, ◌≤◌, ◌<◌, ◌↔◌, refl, arith, none, Bytes, [], ◌∷◌,
  length,
}
use mongodb_dam.Common.Outcome.{ok, err}
use mongodb_dam.Spool.Files.{json, tmp, lookup, exists, stats_from, directory_stats, Directory}
use mongodb_dam.Spool.Files.Laws.{IsUnique}
use mongodb_dam.Spool.Store.{
  io, DurableSpool, capacity_exceeded, sound, write_fails, root_sync_fails, enqueue, read,
  quarantine, pending,
}
use mongodb_dam.Spool.Store.Cases.{IsAccepted}
use mongodb_dam.Spool.Store.Blocked.{enqueue-enqueue_blocked}
use mongodb_dam.Spool.Store.Retry.{enqueue-enqueue, read-enqueue}
use mongodb_dam.Spool.Store.Capacity.{bytes_held, enqueue-refuses_iff, enqueue-bytes}
use mongodb_dam.Spool.Store.Order.{IsSorted}
use mongodb_dam.Outpost.Deliver.Listed.{Lists}
use mongodb_dam.Outpost.Deliver.Pending.{pending-IsListing}
use mongodb_dam.Spool.Store.Invariant.{IsValid, enqueue-IsValid}
use mongodb_dam.Spool.Recovery.{recover_temporary_files, open_spool}
use mongodb_dam.Spool.Recovery.Settled.{settled, Leaves, open_spool-settled}
use mongodb_dam.Spool.Recovery.Crash.{whole_or_none, IsIncluded, enqueue-crash}
use mongodb_dam.Spool.Steps.{Steps, stay, then_step, enqueues, quarantines, Steps-IsValid}
use mongodb_dam.Spool.Ledger.{ledger, Turn}
use mongodb_dam.Spool.Ledger.Runs.{Steps-Turn}
use mongodb_dam.Tests.Batches.{digest, id_of, batch, item, empty, full, empty-IsValid}

pub accepted : IsAccepted digest empty batch
unfolding exists lookup directory_stats stats_from
accepted = (refl, omega arith, refl)

abbrev short : Bytes
short = 7 ∷ []

short-IsAccepted : IsAccepted digest empty short
unfolding exists lookup directory_stats stats_from
short-IsAccepted = (refl, omega arith, refl)

abbrev none_left : Bytes
none_left = []

take-nil : (n : ℕ) → take n none_left ≡ none_left
take-nil zero = refl
take-nil (suc n) = refl

short_whole : (n : ℕ) → id_of (take n short) ≡ id_of short → take n short ≡ short
short_whole zero h = absurd (ground arith)
short_whole (suc n) h = ap (λ (rest : Bytes). 7 ∷ rest) (take-nil n)

enqueue-crash_example :
    (after : DurableSpool) × (recover_temporary_files digest
        ((enqueue digest (write_fails 0) empty short).1)
      ≡ ok after)
    × (lookup (json (id_of short)) after.root ≡ whole_or_none digest (write_fails 0) short)
    × (lookup (tmp (id_of short)) after.root ≡ none)
    × IsIncluded empty.root after.root
enqueue-crash_example =
    enqueue-crash digest (write_fails 0) empty short empty-IsValid short-IsAccepted short_whole

abbrev filled : DurableSpool
filled = (enqueue digest sound empty batch).1

run : Steps digest empty ((quarantine filled item).1)
run =
    then_step empty filled ((quarantine filled item).1)
      (then_step empty empty filled (stay empty) (enqueues sound empty batch))
      (quarantines filled item refl)

Steps-IsValid_example : IsValid digest ((quarantine filled item).1)
Steps-IsValid_example = Steps-IsValid digest empty ((quarantine filled item).1) run empty-IsValid

first_step : Steps digest empty filled
first_step = then_step empty empty filled (stay empty) (enqueues sound empty batch)

Steps-Turn_example : Turn digest (ledger filled) (ledger ((quarantine filled item).1))
Steps-Turn_example =
    Steps-Turn digest empty filled ((quarantine filled item).1) first_step
      (quarantines filled item refl) empty-IsValid

enqueued : (enqueue digest sound empty batch).0 ≡ ok (id_of batch)
unfolding enqueue exists lookup directory_stats stats_from
enqueued = refl

enqueue-enqueue_example : enqueue digest root_sync_fails filled batch ≡ (ok (id_of batch), filled)
enqueue-enqueue_example =
    enqueue-enqueue digest sound root_sync_fails empty batch (id_of batch) enqueued

read-enqueue_example : read filled item ≡ ok batch
read-enqueue_example =
    read-enqueue digest sound empty item batch (id_of batch) accepted enqueued refl

abbrev other_batch : Bytes
other_batch = 0 ∷ []

enqueue-refuses_iff_example :
    ((enqueue digest sound full other_batch).0
      ≡ err (
          capacity_exceeded
            (min (bytes_held full) (2 ^ 64 - 1))
            (length other_batch)
            full.max_bytes))
    ↔ ((lookup (json (id_of other_batch)) full.root ≡ none)
        × (lookup (json (id_of other_batch)) full.quarantine ≡ none)
        × (full.max_bytes < bytes_held full + length other_batch))
enqueue-refuses_iff_example = enqueue-refuses_iff digest sound full other_batch (omega arith)

enqueue-bytes_example : (filled.max_bytes ≡ empty.max_bytes) × (bytes_held filled ≤ empty.max_bytes)
enqueue-bytes_example =
    enqueue-bytes digest sound empty batch empty-IsValid (omega arith) (omega arith)

filled-IsValid : IsValid digest filled
filled-IsValid = enqueue-IsValid digest sound empty batch empty-IsValid

full-IsUnique : IsUnique full.root
unfolding lookup
full-IsUnique = (refl, tt)

pending-IsListing_example : IsSorted (pending full) × Lists full.root (pending full)
pending-IsListing_example = pending-IsListing full full-IsUnique

abbrev torn : Directory
torn = (tmp (id_of batch), batch) ∷ (json (id_of []), []) ∷ []

abbrev before : DurableSpool
before = record { root = torn; quarantine = []; max_bytes = 100 }

torn-IsUnique : IsUnique torn
unfolding lookup
torn-IsUnique = (refl, (refl, tt))

open_spool-settled_example :
    (after : DurableSpool) × (open_spool digest torn [] 100 ≡ ok after)
    × Leaves digest before (settled digest before torn) after
open_spool-settled_example = open_spool-settled digest torn [] 100 torn-IsUnique

abbrev half_written : DurableSpool
half_written = (enqueue digest (write_fails 2) empty batch).1

enqueue-enqueue_blocked_example : enqueue digest sound half_written batch ≡ (err io, half_written)
enqueue-enqueue_blocked_example =
    enqueue-enqueue_blocked digest sound 2 empty batch empty-IsValid accepted
