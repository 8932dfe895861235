-- ===== src/Spool/Store/Capacity.antt =====
-- What the operations of crates/spool/src/lib.rs do to the bytes that count against the capacity.
use mongodb_dam.Common.{
  ℕ, ◌+◌, ◌-◌, ◌^◌, ◌≡◌, ◌≤◌, ◌<◌, ◌↔◌, refl, sym, subst, arith, true, false, Option, none, some,
  Bytes, length, take, min, inl, inr, Bool-cases,
}
use mongodb_dam.Common.Outcome.{ok, err}
use mongodb_dam.Spool.Digest.{Digest}
use mongodb_dam.Spool.Files.{FileName, json, tmp, other, Directory, lookup, exists, remove, write}
use mongodb_dam.Spool.Files.Laws.{
  lookup-remove, lookup-write, name_eq_iff, IsUnique, remove-IsUnique, write-IsUnique, total,
  weight, weight_of, total-remove, bytes-directory_stats,
}
use mongodb_dam.Spool.Store.{
  capacity_exceeded, DurableSpool, PendingItem, Disk, sound, create_fails, write_fails, sync_fails,
  rename_fails, root_sync_fails, promote, store_batch, holds, enqueue, acknowledge, remove_found,
  move_found, quarantine, current_bytes,
}
use mongodb_dam.Spool.Store.Cases.{enqueue-cases}
use mongodb_dam.Spool.Store.Retry.{enqueue-refused_iff}
use mongodb_dam.Spool.Store.Invariant.{IsValid}

-- The bytes of all batches, with no limit to the sum.
abbrev pub bytes_held : DurableSpool → ℕ
bytes_held spool = total spool.root + total spool.quarantine

total-write :
    (k : FileName) (body : Bytes) (files : Directory)
    → total (write k body files) ≡ weight k (length body) + total (remove k files)
unfolding write
total-write (json id) body files = refl
total-write (tmp id) body files = omega arith
total-write (other name) body files = omega arith

weight_of-tmp : (id : Bytes) (found : Option Bytes) → weight_of (tmp id) found ≡ 0
weight_of-tmp id none = refl
weight_of-tmp id (some body) = refl

pub total-write_tmp :
    (id body : Bytes) (files : Directory)
    → IsUnique files
    → total (write (tmp id) body files) ≡ total files
total-write_tmp id body files u =
    let written = total-write (tmp id) body files in
    let removed = total-remove (tmp id) files u in
    let nothing = weight_of-tmp id (lookup (tmp id) files) in omega arith

total-promote :
    (id body : Bytes) (files : Directory)
    → IsUnique files
    → lookup (json id) files ≡ none
    → total (promote id body files) ≡ length body + total files
total-promote id body files u fresh =
    let written = total-write (json id) body (remove (tmp id) files) in
    ground (
      arith,
      total-remove (tmp id) files u,
      total-remove (json id) (remove (tmp id) files) (remove-IsUnique (tmp id) files u),
      lookup-remove (tmp id) (json id) files,
      name_eq_iff (tmp id) (json id),
    )

total-promote_written :
    (id body : Bytes) (files : Directory)
    → IsUnique files
    → lookup (json id) files ≡ none
    → total (promote id body (write (tmp id) body files)) ≡ length body + total files
total-promote_written id body files u fresh =
    let written = write (tmp id) body files in
    let free : lookup (json id) written ≡ none =
      ground (arith, lookup-write (tmp id) (json id) body files, name_eq_iff (tmp id) (json id)) in
    let promoted = total-promote id body written (write-IsUnique (tmp id) body files u) free in
    let same = total-write_tmp id body files u in omega arith

exists_none : (k : FileName) (files : Directory) → exists k files ≡ false → lookup k files ≡ none
unfolding exists
exists_none k files h = ground arith

-- The files that a write leaves take the bytes of the batch at most.
store_batch-bytes :
    (disk : Disk) (spool : DurableSpool) (id body : Bytes)
    → IsUnique spool.root
    → holds id spool ≡ false
    → let after = (store_batch disk spool id body).1 in
      (after.max_bytes ≡ spool.max_bytes) × (bytes_held after ≤ bytes_held spool + length body)
store_batch-bytes sound spool id body u free =
    let fresh = exists_none (json id) spool.root (ground arith) in
    let promoted = total-promote_written id body spool.root u fresh in (refl, omega arith)
store_batch-bytes create_fails spool id body u free = (refl, omega arith)
store_batch-bytes (write_fails n) spool id body u free =
    let same = total-write_tmp id (take n body) spool.root u in (refl, omega arith)
store_batch-bytes sync_fails spool id body u free =
    let same = total-write_tmp id body spool.root u in (refl, omega arith)
store_batch-bytes rename_fails spool id body u free =
    let same = total-write_tmp id body spool.root u in (refl, omega arith)
store_batch-bytes root_sync_fails spool id body u free =
    let fresh = exists_none (json id) spool.root (ground arith) in
    let promoted = total-promote_written id body spool.root u fresh in (refl, omega arith)

pub current_bytes_eq :
    (spool : DurableSpool) → current_bytes spool ≡ min (bytes_held spool) (2 ^ 64 - 1)
current_bytes_eq spool =
    let pending = bytes-directory_stats spool.root in
    let quarantined = bytes-directory_stats spool.quarantine in omega arith

-- With a maximum below the largest `u64`, a spool that is within its maximum stays within it in
-- `enqueue`, whatever the disk does.
pub enqueue-bytes :
    (D : Digest) (disk : Disk) (spool : DurableSpool) (body : Bytes)
    → IsValid D spool
    → spool.max_bytes < 2 ^ 64 - 1
    → bytes_held spool ≤ spool.max_bytes
    → let after = (enqueue D disk spool body).1 in
      (after.max_bytes ≡ spool.max_bytes) × (bytes_held after ≤ spool.max_bytes)
enqueue-bytes D disk spool body v bounded fits =
    enqueue-cases D (λ r. (r.1.max_bytes ≡ spool.max_bytes) × (bytes_held r.1 ≤ spool.max_bytes))
      disk spool body (λ _. (refl, fits)) (λ _ _. (refl, fits)) (λ _ _ _. (refl, fits))
      (λ (free, room, _).
        let (same, more) = store_batch-bytes disk spool (D.id_of body) body v.unique_root free in
        let current = current_bytes_eq spool in (same, omega arith))

-- Where the maximum is below the largest `u64`, `enqueue` refuses a batch for the capacity exactly
-- when neither the root nor the quarantine has it and the bytes of all batches in both, and its own,
-- exceed the maximum; the error names the held bytes, those of the batch and the maximum.
pub enqueue-refuses_iff :
    (D : Digest) (disk : Disk) (spool : DurableSpool) (body : Bytes)
    → spool.max_bytes < 2 ^ 64 - 1
    → ((enqueue D disk spool body).0
        ≡ err
            (capacity_exceeded (min (bytes_held spool) (2 ^ 64 - 1)) (length body) spool.max_bytes))
      ↔ ((lookup (json (D.id_of body)) spool.root ≡ none)
          × (lookup (json (D.id_of body)) spool.quarantine ≡ none)
          × (spool.max_bytes < bytes_held spool + length body))
unfolding exists
enqueue-refuses_iff D disk spool body bounded =
    let (refused, full) = enqueue-refused_iff D disk spool body in
    let current = current_bytes_eq spool in
    (
      λ h.
          let (free, more) = refused (
            subst
              (λ (n : ℕ).
                (enqueue D disk spool body).0
                ≡ err (capacity_exceeded n (length body) spool.max_bytes))
              (sym current) h) in
          (ground arith, ground arith, omega arith),
      λ (not_waiting, not_aside, more).
          subst
            (λ (n : ℕ).
              (enqueue D disk spool body).0
              ≡ err (capacity_exceeded n (length body) spool.max_bytes))
            current (full (ground arith, omega arith)),
    )

move_found-bytes :
    (D : Digest) (spool : DurableSpool) (item : PendingItem) (found : Option Bytes)
    → IsValid D spool
    → lookup item.path spool.root ≡ found
    → item.path ≡ json item.id
    → exists (json item.id) spool.quarantine ≡ false
    → bytes_held ((move_found spool item found).1) ≡ bytes_held spool
move_found-bytes D spool item none v here named free = refl
move_found-bytes D spool item (some body) v here named free =
    let fresh = exists_none (json item.id) spool.quarantine free in
    ground (
      arith,
      total-write (json item.id) body spool.quarantine,
      total-remove (json item.id) spool.quarantine v.unique_quarantine,
      total-remove (json item.id) spool.root v.unique_root,
    )

remove_found-bytes :
    (spool : DurableSpool) (item : PendingItem) (found : Option Bytes)
    → IsUnique spool.root
    → lookup item.path spool.root ≡ found
    → bytes_held ((remove_found spool item found).1) + weight_of item.path found ≡ bytes_held spool
remove_found-bytes spool item none u here = omega arith
remove_found-bytes spool item (some body) u here =
    ground (arith, total-remove item.path spool.root u)

-- `acknowledge` frees the bytes of the batch at the path, and nothing where there is none.
pub acknowledge-bytes :
    (D : Digest) (spool : DurableSpool) (item : PendingItem)
    → IsValid D spool
    → bytes_held ((acknowledge spool item).1) + weight_of item.path (lookup item.path spool.root)
      ≡ bytes_held spool
unfolding acknowledge
acknowledge-bytes D spool item v =
    remove_found-bytes spool item (lookup item.path spool.root) v.unique_root refl

acknowledge_quarantined :
    (D : Digest) (spool : DurableSpool) (item : PendingItem)
    → IsValid D spool
    → item.path ≡ json item.id
    → exists (json item.id) spool.quarantine ≡ true
    → acknowledge spool item ≡ (ok tt, spool)
unfolding acknowledge exists
acknowledge_quarantined D spool item v named there =
    let apart = v.disjoint item.id in
    let gone : lookup item.path spool.root ≡ none = ground arith in simp (gone)

-- `quarantine` of an item under its own name moves bytes and frees none, whatever the branch.
pub quarantine-bytes :
    (D : Digest) (spool : DurableSpool) (item : PendingItem)
    → IsValid D spool
    → item.path ≡ json item.id
    → bytes_held ((quarantine spool item).1) ≡ bytes_held spool
unfolding quarantine
quarantine-bytes D spool item v named = elim (Bool-cases (exists (json item.id) spool.quarantine)) [
  | inl there ↦ simp (there, acknowledge_quarantined D spool item v named there)
  | inr free ↦
      simp (free) (move_found-bytes D spool item (lookup item.path spool.root) v refl named free)
]
