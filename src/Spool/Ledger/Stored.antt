-- ===== src/Spool/Ledger/Stored.antt =====
-- `enqueue` and the recovery of crates/spool/src/lib.rs as turns of the ledger.
use mongodb_dam.Common.{
  ◌≡◌, refl, ap, subst, arith, false, Option, none, some, Bytes, Bool-cases, inl, inr, bytes_eq,
  bytes_eq_iff, take,
}
use mongodb_dam.Common.Outcome.{ok}
use mongodb_dam.Spool.Digest.{Digest}
use mongodb_dam.Spool.Files.{
  FileName, json, tmp, other, Directory, lookup, exists, remove, write, name_eq,
}
use mongodb_dam.Spool.Files.Laws.{lookup-remove, lookup-write, name_eq_iff}
use mongodb_dam.Spool.Store.{
  DurableSpool, Disk, sound, create_fails, write_fails, sync_fails, rename_fails, root_sync_fails,
  with_root, holds, store_batch, enqueue,
}
use mongodb_dam.Spool.Store.Cases.{enqueue-cases}
use mongodb_dam.Spool.Recovery.{is_batch_id, settle, settle_found, recover_entry}
use mongodb_dam.Spool.Ledger.{status, ledger, Turn, moves, arrives, with_root-Turn, same-Turn}

module _ (D : Digest) where
  write_tmp-Turn :
      (spool : DurableSpool) (id body : Bytes)
      → Turn D (ledger spool) (ledger (with_root spool (write (tmp id) body spool.root)))
  write_tmp-Turn spool id body = with_root-Turn D spool (write (tmp id) body spool.root) (λ j.
      ground (arith, lookup-write (tmp id) (json j) body spool.root, name_eq_iff (tmp id) (json j)))

  pub remove_tmp-Turn :
      (spool : DurableSpool) (id : Bytes)
      → Turn D (ledger spool) (ledger (with_root spool (remove (tmp id) spool.root)))
  remove_tmp-Turn spool id = with_root-Turn D spool (remove (tmp id) spool.root) (λ j.
      ground (arith, lookup-remove (tmp id) (json j) spool.root, name_eq_iff (tmp id) (json j)))

  exists_false : (k : FileName) (files : Directory) → exists k files ≡ false → lookup k files ≡ none
  unfolding exists
  exists_false k files h = ground arith

  -- A file of a batch that is nowhere is put in place.
  arrival-Turn :
      (spool : DurableSpool) (files : Directory) (id body : Bytes)
      → ((j : Bytes) → lookup (json j) files ≡ lookup (json j) spool.root)
      → D.id_of body ≡ id
      → holds id spool ≡ false
      → Turn D (ledger spool) (ledger (with_root spool (write (json id) body files)))
  unfolding ledger name_eq
  arrival-Turn spool files id body same named free =
      let not_waiting : lookup (json id) spool.root ≡ none =
        exists_false (json id) spool.root (ground arith) in
      let not_aside : lookup (json id) spool.quarantine ≡ none =
        exists_false (json id) spool.quarantine (ground arith) in
      let written : lookup (json id) (write (json id) body files) ≡ some body =
        ground
          (arith, lookup-write (json id) (json id) body files, name_eq_iff (json id) (json id)) in
      moves id (arrives body named (rw (not_waiting, not_aside) refl) (rw written refl)) (λ j apart.
        ap (λ found. status found (lookup (json j) spool.quarantine))
          (ground (arith, lookup-write (json id) (json j) body files, same j)))

  -- The files that `promote` starts from differ in the temporary file alone.
  cleared_tmp :
      (id : Bytes) (files : Directory) (j : Bytes)
      → lookup (json j) (remove (tmp id) files) ≡ lookup (json j) files
  cleared_tmp id files j =
      ground (arith, lookup-remove (tmp id) (json j) files, name_eq_iff (tmp id) (json j))

  written_tmp :
      (id body : Bytes) (files : Directory) (j : Bytes)
      → lookup (json j) (remove (tmp id) (write (tmp id) body files)) ≡ lookup (json j) files
  written_tmp id body files j = ground (
    arith,
    cleared_tmp id (write (tmp id) body files) j,
    lookup-write (tmp id) (json j) body files,
    name_eq_iff (tmp id) (json j),
  )

  store_batch-Turn :
      (disk : Disk) (spool : DurableSpool) (body : Bytes)
      → holds (D.id_of body) spool ≡ false
      → Turn D (ledger spool) (ledger (store_batch disk spool (D.id_of body) body).1)
  store_batch-Turn sound spool body free =
      arrival-Turn spool (remove (tmp (D.id_of body)) (write (tmp (D.id_of body)) body spool.root))
        (D.id_of body) body (written_tmp (D.id_of body) body spool.root) refl free
  store_batch-Turn create_fails spool body free = same-Turn D spool
  store_batch-Turn (write_fails written) spool body free =
      write_tmp-Turn spool (D.id_of body) (take written body)
  store_batch-Turn sync_fails spool body free = write_tmp-Turn spool (D.id_of body) body
  store_batch-Turn rename_fails spool body free = write_tmp-Turn spool (D.id_of body) body
  store_batch-Turn root_sync_fails spool body free =
      arrival-Turn spool (remove (tmp (D.id_of body)) (write (tmp (D.id_of body)) body spool.root))
        (D.id_of body) body (written_tmp (D.id_of body) body spool.root) refl free

  pub enqueue-Turn :
      (disk : Disk) (spool : DurableSpool) (body : Bytes)
      → Turn D (ledger spool) (ledger (enqueue D disk spool body).1)
  enqueue-Turn disk spool body =
      enqueue-cases D (λ r. Turn D (ledger spool) (ledger r.1)) disk spool body
        (λ _. same-Turn D spool) (λ _ _. same-Turn D spool) (λ _ _ _. same-Turn D spool)
        (λ accepted. store_batch-Turn disk spool body accepted.0)

  settle-Turn :
      (spool : DurableSpool) (id body : Bytes)
      → Turn D (ledger spool) (ledger (settle D spool id body))
  unfolding settle
  settle-Turn spool id body = elim (Bool-cases (holds id spool)) [
    | inl held ↦ simp (held) (remove_tmp-Turn spool id)
    | inr free ↦ elim (Bool-cases (bytes_eq (D.id_of body) id)) [
      | inl whole ↦
          simp (free, whole)
            (arrival-Turn spool (remove (tmp id) spool.root) id body (cleared_tmp id spool.root)
              ((bytes_eq_iff (D.id_of body) id).0 whole) free)
      | inr torn ↦ simp (free, torn) (remove_tmp-Turn spool id)
    ]
  ]

  settle_found-Turn :
      (s s' : DurableSpool) (id : Bytes) (found : Option Bytes)
      → settle_found D s id found ≡ ok s'
      → Turn D (ledger s) (ledger s')
  unfolding settle
  settle_found-Turn s s' id none h = cc
  settle_found-Turn s s' id (some body) h =
      let same : settle D s id body ≡ s' = cc in
      subst (λ next. Turn D (ledger s) (ledger next)) same (settle-Turn s id body)

  pub recover_entry-Turn :
      (s s' : DurableSpool) (name : FileName)
      → recover_entry D s name ≡ ok s'
      → Turn D (ledger s) (ledger s')
  unfolding recover_entry
  recover_entry-Turn s s' (json id) h =
      let same : s ≡ s' = cc in subst (λ next. Turn D (ledger s) (ledger next)) same (same-Turn D s)
  recover_entry-Turn s s' (other name) h =
      let same : s ≡ s' = cc in subst (λ next. Turn D (ledger s) (ledger next)) same (same-Turn D s)
  recover_entry-Turn s s' (tmp id) h = elim (Bool-cases (is_batch_id id)) [
    | inl batch ↦ settle_found-Turn s s' id (lookup (tmp id) s.root) (rw batch at h)
    | inr odd ↦
        let kept = rw odd at h in
        let same : s ≡ s' = cc in
        subst (λ next. Turn D (ledger s) (ledger next)) same (same-Turn D s)
  ]
