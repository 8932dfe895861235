-- ===== src/Spool/Store.antt =====
-- The operations of `DurableSpool` in crates/spool/src/lib.rs. Every operation runs under the
-- gate, so it is one step on the two directories. What the file system can do to the writes of
-- `enqueue` is its argument `Disk`; reading a directory is taken to succeed. The path of an item
-- is its name in the root.
pub mod Cases
pub mod Retry
pub mod Invariant
pub mod Capacity
pub mod Order
pub mod Blocked
use Prim.Native.Nat.{compare, Ordering}
use mongodb_dam.Common.{
  ℕ, Bool, true, false, Option, none, some, Bytes, List, [], ◌∷◌, length, take, ltb, ◌||◌,
  if◌then◌else◌,
}
use mongodb_dam.Common.Outcome.{Outcome, ok, err, ok_or}
use mongodb_dam.Spool.Digest.{Digest}
use mongodb_dam.Spool.Files.{
  FileName, json, tmp, other, Directory, lookup, exists, remove, write, SpoolStats, saturating_add,
  directory_stats,
}

pub data SpoolError : Type 0 where
  capacity_exceeded : (current_bytes incoming_bytes max_bytes : ℕ) → SpoolError
  io : SpoolError

pub record DurableSpool : Type 0 where
  pub root : Directory
  pub quarantine : Directory
  pub max_bytes : ℕ

pub record PendingItem : Type 0 where
  pub id : Bytes
  pub path : FileName
  pub bytes : ℕ

-- How far the writes of a batch get: all the way, or to the call that fails.
pub data Disk : Type 0 where
  sound : Disk
  create_fails : Disk
  write_fails : (written : ℕ) → Disk
  sync_fails : Disk
  rename_fails : Disk
  root_sync_fails : Disk

-- The spool with another root.
abbrev pub with_root : DurableSpool → Directory → DurableSpool
with_root spool files = record {
  root = files;
  quarantine = spool.quarantine;
  max_bytes = spool.max_bytes;
}

-- `fs::rename` of the temporary file of a batch, whose content is known
abbrev pub promote : Bytes → Bytes → Directory → Directory
promote id body files = write (json id) body (remove (tmp id) files)

-- From the creation of the temporary file to the end of `enqueue`.
abbrev pub store_batch :
    Disk → DurableSpool → Bytes → Bytes → Outcome SpoolError Bytes × DurableSpool
store_batch sound spool id body =
    (ok id, with_root spool (promote id body (write (tmp id) body spool.root)))
store_batch create_fails spool id body = (err io, spool)
store_batch (write_fails written) spool id body =
    (err io, with_root spool (write (tmp id) (take written body) spool.root))
store_batch sync_fails spool id body = (err io, with_root spool (write (tmp id) body spool.root))
store_batch rename_fails spool id body = (err io, with_root spool (write (tmp id) body spool.root))
store_batch root_sync_fails spool id body =
    (err io, with_root spool (promote id body (write (tmp id) body spool.root)))

-- The bytes that count against the capacity.
abbrev pub current_bytes : DurableSpool → ℕ
current_bytes spool =
    saturating_add (directory_stats spool.root).bytes (directory_stats spool.quarantine).bytes

abbrev pub holds : Bytes → DurableSpool → Bool
holds id spool = exists (json id) spool.root || exists (json id) spool.quarantine

unfoldable pub enqueue :
    Digest → Disk → DurableSpool → Bytes → Outcome SpoolError Bytes × DurableSpool
enqueue D disk spool body =
    let id = D.id_of body in
    let current = current_bytes spool in
    let incoming = length body in
    if holds id spool
    then (ok id, spool)
    else if ltb spool.max_bytes (saturating_add current incoming)
    then (err (capacity_exceeded current incoming spool.max_bytes), spool)
    else if exists (tmp id) spool.root
    then (err io, spool)
    else store_batch disk spool id body

-- `left.id.cmp(&right.id)` is not `Greater`
abbrev pub bytes_le : Bytes → Bytes → Bool
bytes_le [] ys = true
bytes_le (x ∷ xs) [] = false
bytes_le (x ∷ xs) (y ∷ ys) =
    let rest = bytes_le xs ys in
    elim (compare x y) [ Ordering.lt ↦ true | Ordering.eq ↦ rest | Ordering.gt ↦ false ]

-- `sort_by`, which is stable
abbrev pub insert_item : PendingItem → List PendingItem → List PendingItem
insert_item item [] = item ∷ []
insert_item item (next ∷ items) =
    let rest = insert_item item items in
    if bytes_le item.id next.id then item ∷ next ∷ items else next ∷ rest

abbrev pub sort_items : List PendingItem → List PendingItem
sort_items [] = []
sort_items (item ∷ items) = insert_item item (sort_items items)

-- The loop of `pending`.
abbrev pub list_items : Directory → List PendingItem
list_items [] = []
list_items ((json id, body) ∷ files) =
    record { id = id; path = json id; bytes = length body } ∷ list_items files
list_items ((tmp id, body) ∷ files) = list_items files
list_items ((other name, body) ∷ files) = list_items files

unfoldable pub pending : DurableSpool → List PendingItem
pending spool = sort_items (list_items spool.root)

unfoldable pub read : DurableSpool → PendingItem → Outcome SpoolError Bytes
read spool item = ok_or (lookup item.path spool.root) io

-- `acknowledge_unlocked`, by what is at the path.
abbrev pub remove_found :
    DurableSpool → PendingItem → Option Bytes → Outcome SpoolError (Unit {0}) × DurableSpool
remove_found spool item (some body) = (ok tt, with_root spool (remove item.path spool.root))
remove_found spool item none = (ok tt, spool)

unfoldable pub acknowledge :
    DurableSpool → PendingItem → Outcome SpoolError (Unit {0}) × DurableSpool
acknowledge spool item = remove_found spool item (lookup item.path spool.root)

-- The `fs::rename` of `quarantine`, by what is at the path.
abbrev pub move_found :
    DurableSpool → PendingItem → Option Bytes → Outcome SpoolError (Unit {0}) × DurableSpool
move_found spool item (some body) = (
  ok tt,
  record {
    root = remove item.path spool.root;
    quarantine = write (json item.id) body spool.quarantine;
    max_bytes = spool.max_bytes;
  },
)
move_found spool item none =
    (if exists (json item.id) spool.quarantine then ok tt else err io, spool)

unfoldable pub quarantine :
    DurableSpool → PendingItem → Outcome SpoolError (Unit {0}) × DurableSpool
unfolding acknowledge
quarantine spool item =
    if exists (json item.id) spool.quarantine
    then acknowledge spool item
    else move_found spool item (lookup item.path spool.root)

unfoldable pub stats : DurableSpool → SpoolStats
stats spool = directory_stats spool.root

unfoldable pub quarantine_stats : DurableSpool → SpoolStats
quarantine_stats spool = directory_stats spool.quarantine
