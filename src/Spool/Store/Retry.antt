-- ===== src/Spool/Store/Retry.antt =====
-- A batch that is enqueued again, and one that is read back (crates/spool/src/lib.rs).
use mongodb_dam.Common.{
  ap, sym, ◌∙◌, ℕ, ◌≡◌, ◌<◌, refl, arith, true, false, some, Bytes, length, ◌↔◌,
}
use mongodb_dam.Common.Outcome.{Outcome, ok, err}
use mongodb_dam.Spool.Digest.{Digest}
use mongodb_dam.Spool.Files.{json, tmp, Directory, lookup, exists, remove, write, saturating_add}
use mongodb_dam.Spool.Files.Laws.{lookup-write, name_eq_iff}
use mongodb_dam.Spool.Store.Cases.{IsAccepted, enqueue-cases, enqueue_accepted}
use mongodb_dam.Spool.Store.{
  SpoolError, capacity_exceeded, io, DurableSpool, PendingItem, Disk, sound, create_fails,
  write_fails, sync_fails, rename_fails, root_sync_fails, with_root, promote, store_batch, holds,
  enqueue, read, current_bytes,
}

module _ (D : Digest) where
  enqueue_held :
      (disk : Disk) (spool : DurableSpool) (body : Bytes)
      → holds (D.id_of body) spool ≡ true
      → enqueue D disk spool body ≡ (ok (D.id_of body), spool)
  unfolding enqueue
  enqueue_held disk spool body held = simp (held)

  holds-promote :
      (spool : DurableSpool) (id body : Bytes) (files : Directory)
      → holds id (with_root spool (promote id body files)) ≡ true
  unfolding exists
  holds-promote spool id body files = ground (
    arith,
    lookup-write (json id) (json id) body (remove (tmp id) files),
    name_eq_iff (json id) (json id),
  )

  store_batch-holds :
      (disk : Disk) (spool : DurableSpool) (id body : Bytes) (name : Bytes)
      → (store_batch disk spool id body).0 ≡ ok name
      → (holds id ((store_batch disk spool id body).1) ≡ true) × (name ≡ id)
  store_batch-holds sound spool id body name h =
      (holds-promote spool id body (write (tmp id) body spool.root), cc)
  store_batch-holds create_fails spool id body name h = ground arith
  store_batch-holds (write_fails n) spool id body name h = ground arith
  store_batch-holds sync_fails spool id body name h = ground arith
  store_batch-holds rename_fails spool id body name h = ground arith
  store_batch-holds root_sync_fails spool id body name h = ground arith

  pub enqueue-holds :
      (disk : Disk) (spool : DurableSpool) (body : Bytes) (name : Bytes)
      → (enqueue D disk spool body).0 ≡ ok name
      → (holds (D.id_of body) ((enqueue D disk spool body).1) ≡ true) × (name ≡ D.id_of body)
  enqueue-holds disk spool body name =
      let id = D.id_of body in
      enqueue-cases D (λ r. r.0 ≡ ok name → (holds id r.1 ≡ true) × (name ≡ id)) disk spool body
        (λ held h. (held, cc)) (λ _ _ h. ground arith) (λ _ _ _ h. ground arith)
        (λ _. store_batch-holds disk spool id body name)

  -- Once `enqueue` has returned `Ok`, the same body again is accepted under the same name and changes
  -- nothing, whatever the disk would do.
  pub enqueue-enqueue :
      (disk disk' : Disk) (spool : DurableSpool) (body name : Bytes)
      → (enqueue D disk spool body).0 ≡ ok name
      → enqueue D disk' ((enqueue D disk spool body).1) body
        ≡ (ok name, (enqueue D disk spool body).1)
  enqueue-enqueue disk disk' spool body name h =
      let (held, same) = enqueue-holds disk spool body name h in
      simp (enqueue_held disk' ((enqueue D disk spool body).1) body held, same)

  store_batch-lookup :
      (disk : Disk) (spool : DurableSpool) (id body name : Bytes)
      → (store_batch disk spool id body).0 ≡ ok name
      → lookup (json name) ((store_batch disk spool id body).1).root ≡ some body
  store_batch-lookup sound spool id body name h =
      let same : id ≡ name = cc in
      ground (
        arith,
        lookup-write (json id) (json name) body (remove (tmp id) (write (tmp id) body spool.root)),
        name_eq_iff (json id) (json name),
      )
  store_batch-lookup create_fails spool id body name h = ground arith
  store_batch-lookup (write_fails n) spool id body name h = ground arith
  store_batch-lookup sync_fails spool id body name h = ground arith
  store_batch-lookup rename_fails spool id body name h = ground arith
  store_batch-lookup root_sync_fails spool id body name h = ground arith

  -- A batch that `enqueue` accepted as a new one is read back from the root byte for byte.
  pub read-enqueue :
      (disk : Disk) (spool : DurableSpool) (item : PendingItem) (body name : Bytes)
      → IsAccepted D spool body
      → (enqueue D disk spool body).0 ≡ ok name
      → item.path ≡ json name
      → read ((enqueue D disk spool body).1) item ≡ ok body
  unfolding read
  read-enqueue disk spool item body name accepted h path =
      let way = enqueue_accepted D disk spool body accepted in
      let first : (store_batch disk spool (D.id_of body) body).0 ≡ ok name =
        ap (λ r. r.0) (sym way) ∙ h in
      simp (way, path, store_batch-lookup disk spool (D.id_of body) body name first)

  ok≢err : {id : Bytes} {e : SpoolError} → ◌≡◌ {A = Outcome SpoolError Bytes} (ok id) (err e) → ⊥
  ok≢err h = ground arith

  io≢refusal :
      {c i m : ℕ} → ◌≡◌ {A = Outcome SpoolError Bytes} (err io) (err (capacity_exceeded c i m)) → ⊥
  io≢refusal h = ground arith

  store_batch≢refusal :
      (disk : Disk) (spool : DurableSpool) (id body : Bytes) {c i m : ℕ}
      → (store_batch disk spool id body).0 ≡ err (capacity_exceeded c i m)
      → ⊥
  store_batch≢refusal sound spool id body h = ground arith
  store_batch≢refusal create_fails spool id body h = ground arith
  store_batch≢refusal (write_fails n) spool id body h = ground arith
  store_batch≢refusal sync_fails spool id body h = ground arith
  store_batch≢refusal rename_fails spool id body h = ground arith
  store_batch≢refusal root_sync_fails spool id body h = ground arith

  -- `enqueue` refuses a batch for the capacity exactly when it is new and the held bytes with it exceed
  -- the maximum, and the error carries the three numbers.
  pub enqueue-refused_iff :
      (disk : Disk) (spool : DurableSpool) (body : Bytes)
      → ((enqueue D disk spool body).0
          ≡ err (capacity_exceeded (current_bytes spool) (length body) spool.max_bytes))
        ↔ ((holds (D.id_of body) spool ≡ false)
            × (spool.max_bytes < saturating_add (current_bytes spool) (length body)))
  enqueue-refused_iff disk spool body =
      let id = D.id_of body in
      let sum = saturating_add (current_bytes spool) (length body) in
      let refusal = capacity_exceeded (current_bytes spool) (length body) spool.max_bytes in
      enqueue-cases D
        (λ r. (r.0 ≡ err refusal) ↔ ((holds id spool ≡ false) × (spool.max_bytes < sum))) disk spool
        body (λ held. (λ h. absurd (ok≢err h), λ (free, _). ground arith))
        (λ free full. (λ _. (free, full), λ _. refl))
        (λ free fits _. (λ h. absurd (io≢refusal h), λ (_, full). ground arith))
        (λ (free, fits, _).
          (λ h. absurd (store_batch≢refusal disk spool id body h), λ (_, full). ground arith))
