-- ===== src/Spool/Store/Invariant.antt =====
-- The invariant of a spool: a name stands once in its directory, a batch is stored under the
-- digest of its body, and no batch is both pending and in quarantine.
use mongodb_dam.Common.{
  ◌≡◌, refl, arith, false, Option, none, some, Bytes, take, ◌⊎◌, inl, inr, Bool-cases,
}
use mongodb_dam.Spool.Digest.{Digest}
use mongodb_dam.Spool.Files.{FileName, json, tmp, Directory, lookup, exists, remove, write}
use mongodb_dam.Spool.Files.Laws.{
  lookup-remove, lookup-write, name_eq_iff, IsUnique, remove-IsUnique, write-IsUnique,
}
use mongodb_dam.Spool.Store.Cases.{enqueue-cases}
use mongodb_dam.Spool.Store.{
  DurableSpool, PendingItem, Disk, sound, create_fails, write_fails, sync_fails, rename_fails,
  root_sync_fails, with_root, promote, store_batch, holds, enqueue, acknowledge, remove_found,
  move_found, quarantine,
}

module _ (D : Digest) where
  abbrev pub IsAddressed : Directory → Type 0
  IsAddressed files = (id body : Bytes) → lookup (json id) files ≡ some body → D.id_of body ≡ id

  pub remove-IsAddressed :
      (k : FileName) (files : Directory) → IsAddressed files → IsAddressed (remove k files)
  remove-IsAddressed k files a id body h =
      ground (arith, lookup-remove k (json id) files, a id body)

  pub write_tmp-IsAddressed :
      (t content : Bytes) (files : Directory)
      → IsAddressed files
      → IsAddressed (write (tmp t) content files)
  write_tmp-IsAddressed t content files a id body h = ground (
    arith,
    lookup-write (tmp t) (json id) content files,
    a id body,
    name_eq_iff (tmp t) (json id),
  )

  pub write_json-IsAddressed :
      (t content : Bytes) (files : Directory)
      → D.id_of content ≡ t
      → IsAddressed files
      → IsAddressed (write (json t) content files)
  write_json-IsAddressed t content files e a id body h = ground (
    arith,
    lookup-write (json t) (json id) content files,
    a id body,
    name_eq_iff (json t) (json id),
  )

  abbrev pub IsDisjoint : DurableSpool → Type 0
  IsDisjoint spool =
      (id : Bytes)
      → (lookup (json id) spool.root ≡ none) ⊎ (lookup (json id) spool.quarantine ≡ none)

  pub record IsValid (spool : DurableSpool) : Type 0 where
    pub unique_root : IsUnique spool.root
    pub unique_quarantine : IsUnique spool.quarantine
    pub addressed_root : IsAddressed spool.root
    pub addressed_quarantine : IsAddressed spool.quarantine
    pub disjoint : IsDisjoint spool

  -- A new root that holds no batch that is not held, or one under its digest.
  pub with_root-IsValid :
      (spool : DurableSpool) (files : Directory)
      → IsValid spool
      → IsUnique files
      → IsAddressed files
      → ((id : Bytes)
          → (lookup (json id) spool.quarantine ≡ none)
            ⊎ (lookup (json id) files ≡ lookup (json id) spool.root))
      → IsValid (with_root spool files)
  with_root-IsValid spool files v u a d = record {
    unique_root = u;
    unique_quarantine = v.unique_quarantine;
    addressed_root = a;
    addressed_quarantine = v.addressed_quarantine;
    disjoint = λ id. let old = v.disjoint id in let new = d id in ground arith;
  }

  pub write_tmp-IsValid :
      (spool : DurableSpool) (t content : Bytes)
      → IsValid spool
      → IsValid (with_root spool (write (tmp t) content spool.root))
  write_tmp-IsValid spool t content v =
      with_root-IsValid spool (write (tmp t) content spool.root) v
        (write-IsUnique (tmp t) content spool.root v.unique_root)
        (write_tmp-IsAddressed t content spool.root v.addressed_root)
        (λ id. inr (
          ground (
            arith,
            lookup-write (tmp t) (json id) content spool.root,
            name_eq_iff (tmp t) (json id),
          )))

  pub remove_tmp-IsValid :
      (spool : DurableSpool) (t : Bytes)
      → IsValid spool
      → IsValid (with_root spool (remove (tmp t) spool.root))
  remove_tmp-IsValid spool t v =
      with_root-IsValid spool (remove (tmp t) spool.root) v
        (remove-IsUnique (tmp t) spool.root v.unique_root)
        (remove-IsAddressed (tmp t) spool.root v.addressed_root)
        (λ id. inr (
          ground
            (arith, lookup-remove (tmp t) (json id) spool.root, name_eq_iff (tmp t) (json id))))

  -- A batch that no directory holds comes into the root under its digest.
  pub promote-IsValid :
      (spool : DurableSpool) (id body : Bytes)
      → IsValid spool
      → D.id_of body ≡ id
      → holds id spool ≡ false
      → IsValid (with_root spool (promote id body spool.root))
  unfolding exists
  promote-IsValid spool id body v e h =
      let files = remove (tmp id) spool.root in
      with_root-IsValid spool (write (json id) body files) v
        (write-IsUnique (json id) body files (remove-IsUnique (tmp id) spool.root v.unique_root))
        (write_json-IsAddressed id body files e
          (remove-IsAddressed (tmp id) spool.root v.addressed_root))
        (λ j. ground (
          arith,
          lookup-write (json id) (json j) body files,
          lookup-remove (tmp id) (json j) spool.root,
          name_eq_iff (tmp id) (json j),
          name_eq_iff (json id) (json j),
        ))

  pub remove-IsValid :
      (spool : DurableSpool) (k : FileName)
      → IsValid spool
      → IsValid (with_root spool (remove k spool.root))
  remove-IsValid spool k v = record {
    unique_root = remove-IsUnique k spool.root v.unique_root;
    unique_quarantine = v.unique_quarantine;
    addressed_root = remove-IsAddressed k spool.root v.addressed_root;
    addressed_quarantine = v.addressed_quarantine;
    disjoint =
        λ id. let old = v.disjoint id in ground (arith, lookup-remove k (json id) spool.root);
  }

  pub written-IsValid :
      (spool : DurableSpool) (id body : Bytes)
      → IsValid spool
      → D.id_of body ≡ id
      → holds id spool ≡ false
      → IsValid (with_root spool (promote id body (write (tmp id) body spool.root)))
  unfolding exists
  written-IsValid spool id body v e h =
      promote-IsValid (with_root spool (write (tmp id) body spool.root)) id body
        (write_tmp-IsValid spool id body v) e
        (ground
          (arith, lookup-write (tmp id) (json id) body spool.root, name_eq_iff (tmp id) (json id)))

  store_batch-IsValid :
      (disk : Disk) (spool : DurableSpool) (id body : Bytes)
      → IsValid spool
      → D.id_of body ≡ id
      → holds id spool ≡ false
      → IsValid ((store_batch disk spool id body).1)
  store_batch-IsValid sound spool id body v e h = written-IsValid spool id body v e h
  store_batch-IsValid create_fails spool id body v e h = v
  store_batch-IsValid (write_fails n) spool id body v e h =
      write_tmp-IsValid spool id (take n body) v
  store_batch-IsValid sync_fails spool id body v e h = write_tmp-IsValid spool id body v
  store_batch-IsValid rename_fails spool id body v e h = write_tmp-IsValid spool id body v
  store_batch-IsValid root_sync_fails spool id body v e h = written-IsValid spool id body v e h

  pub enqueue-IsValid :
      (disk : Disk) (spool : DurableSpool) (body : Bytes)
      → IsValid spool
      → IsValid ((enqueue D disk spool body).1)
  enqueue-IsValid disk spool body v =
      enqueue-cases D (λ r. IsValid r.1) disk spool body (λ _. v) (λ _ _. v) (λ _ _ _. v)
        (λ (free, _, _). store_batch-IsValid disk spool (D.id_of body) body v refl free)

  remove_found-IsValid :
      (spool : DurableSpool) (item : PendingItem) (found : Option Bytes)
      → IsValid spool
      → IsValid ((remove_found spool item found).1)
  remove_found-IsValid spool item none v = v
  remove_found-IsValid spool item (some body) v = remove-IsValid spool item.path v

  pub acknowledge-IsValid :
      (spool : DurableSpool) (item : PendingItem)
      → IsValid spool
      → IsValid ((acknowledge spool item).1)
  unfolding acknowledge
  acknowledge-IsValid spool item v = remove_found-IsValid spool item (lookup item.path spool.root) v

  move_found-IsValid :
      (spool : DurableSpool) (item : PendingItem) (found : Option Bytes)
      → lookup item.path spool.root ≡ found
      → item.path ≡ json item.id
      → IsValid spool
      → IsValid ((move_found spool item found).1)
  move_found-IsValid spool item none here named v = v
  move_found-IsValid spool item (some body) here named v = record {
    unique_root = remove-IsUnique item.path spool.root v.unique_root;
    unique_quarantine = write-IsUnique (json item.id) body spool.quarantine v.unique_quarantine;
    addressed_root = remove-IsAddressed item.path spool.root v.addressed_root;
    addressed_quarantine =
        write_json-IsAddressed item.id body spool.quarantine (v.addressed_root item.id body (cc))
          v.addressed_quarantine;
    disjoint = λ id.
        let old = v.disjoint id in
        ground (
          arith,
          lookup-remove item.path (json id) spool.root,
          name_eq_iff item.path (json id),
          lookup-write (json item.id) (json id) body spool.quarantine,
          name_eq_iff (json item.id) (json id),
        );
  }

  pub quarantine-IsValid :
      (spool : DurableSpool) (item : PendingItem)
      → item.path ≡ json item.id
      → IsValid spool
      → IsValid ((quarantine spool item).1)
  unfolding quarantine
  quarantine-IsValid spool item named v =
      elim (Bool-cases (exists (json item.id) spool.quarantine)) [
        | inl there ↦ simp (there) (acknowledge-IsValid spool item v)
        | inr free ↦
            simp (free) (move_found-IsValid spool item (lookup item.path spool.root) refl named v)
      ]
