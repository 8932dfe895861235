-- ===== src/Spool/Recovery/Crash.antt =====
-- A write of crates/spool/src/lib.rs that stops anywhere, and the restart after it.
use mongodb_dam.Common.{
  ℕ, ◌≡◌, refl, subst, sym, ap, Bool-cases, inl, inr, ◌∙◌, arith, true, Option, none, some, Bytes,
  bytes_eq, bytes_eq_iff, if◌then◌else◌, take,
}
use mongodb_dam.Common.Outcome.{Outcome, ok}
use mongodb_dam.Spool.Digest.{Digest}
use mongodb_dam.Spool.Files.{json, tmp, Directory, lookup, exists, remove, write}
use mongodb_dam.Spool.Files.Laws.{lookup-remove, lookup-write, name_eq_iff}
use mongodb_dam.Spool.Store.{
  DurableSpool, SpoolError, with_root, promote, Disk, sound, create_fails, write_fails, sync_fails,
  rename_fails, root_sync_fails, store_batch, enqueue,
}
use mongodb_dam.Spool.Store.Cases.{IsAccepted, enqueue_accepted}
use mongodb_dam.Spool.Store.Invariant.{IsValid, enqueue-IsValid}
use mongodb_dam.Spool.Recovery.{is_batch_id, recover_temporary_files}
use mongodb_dam.Spool.Recovery.Settled.{settled, recover_temporary_files-settled}

-- Each batch of the first directory is in the second, with its content.
abbrev pub IsIncluded : Directory → Directory → Type 0
IsIncluded files files' =
    (id body : Bytes) → lookup (json id) files ≡ some body → lookup (json id) files' ≡ some body

module _ (D : Digest) where
  id_of-batch_id : (body : Bytes) → is_batch_id (D.id_of body) ≡ true
  id_of-batch_id body = simp (D.length-id_of body, D.hex-id_of body)

  -- What is stored of a batch after the restart.
  abbrev survives : Disk → Bytes → Option Bytes
  survives create_fails body = none
  survives (write_fails written) body =
      if bytes_eq (D.id_of (take written body)) (D.id_of body)
      then some (take written body)
      else none
  survives _ body = some body

  -- The state that a restart brings about from `after`, as a client of `spool` sees it.
  abbrev pub Restored : DurableSpool → Bytes → Option Bytes → DurableSpool → Type 0
  Restored spool id stored after =
      (settled D after after.root (json id) ≡ stored)
      × (settled D after after.root (tmp id) ≡ none)
      × ((j body : Bytes)
          → lookup (json j) spool.root ≡ some body
          → settled D after after.root (json j) ≡ some body)

  left-Restored :
      (spool : DurableSpool) (body content : Bytes)
      → IsAccepted D spool body
      → let id = D.id_of body in
        Restored spool id
          (if bytes_eq (D.id_of content) id then some content else none)
          (with_root spool (write (tmp id) content spool.root))
  unfolding exists
  left-Restored spool body content (free, fits, clean) =
      let id = D.id_of body in
      (
        ground (
          arith,
          id_of-batch_id body,
          lookup-write (tmp id) (json id) content spool.root,
          lookup-write (tmp id) (tmp id) content spool.root,
          name_eq_iff (tmp id) (json id),
          name_eq_iff (tmp id) (tmp id),
        ),
        ground (
          arith,
          id_of-batch_id body,
          lookup-write (tmp id) (tmp id) content spool.root,
          name_eq_iff (tmp id) (tmp id),
        ),
        λ j stored h. ground (
          arith,
          lookup-write (tmp id) (json j) content spool.root,
          name_eq_iff (tmp id) (json j),
        ),
      )

  promoted-Restored :
      (spool : DurableSpool) (body : Bytes)
      → IsAccepted D spool body
      → let id = D.id_of body in
        Restored spool id
          (some body)
          (with_root spool (promote id body (write (tmp id) body spool.root)))
  unfolding exists
  promoted-Restored spool body (free, fits, clean) =
      let id = D.id_of body in
      let written = write (tmp id) body spool.root in
      let moved = remove (tmp id) written in
      (
        ground
            (arith, lookup-write (json id) (json id) body moved, name_eq_iff (json id) (json id)),
        ground (
          arith,
          lookup-write (json id) (tmp id) body moved,
          lookup-remove (tmp id) (tmp id) written,
          name_eq_iff (json id) (tmp id),
          name_eq_iff (tmp id) (tmp id),
        ),
        λ j stored h. ground (
          arith,
          lookup-write (json id) (json j) body moved,
          lookup-remove (tmp id) (json j) written,
          lookup-write (tmp id) (json j) body spool.root,
          name_eq_iff (tmp id) (json j),
          name_eq_iff (json id) (json j),
        ),
      )

  whole-Restored :
      (spool : DurableSpool) (body : Bytes)
      → IsAccepted D spool body
      → let id = D.id_of body in
        Restored spool id (some body) (with_root spool (write (tmp id) body spool.root))
  whole-Restored spool body h =
      let id = D.id_of body in
      subst
        (λ (stored : Option Bytes).
          Restored spool id stored (with_root spool (write (tmp id) body spool.root)))
        (simp ((bytes_eq_iff id id).1 refl)) (left-Restored spool body body h)

  untouched-Restored :
      (spool : DurableSpool) (body : Bytes)
      → IsAccepted D spool body
      → Restored spool (D.id_of body) none spool
  unfolding exists
  untouched-Restored spool body (free, fits, clean) =
      (ground arith, ground arith, λ j stored h. ground arith)

  store_batch-Restored :
      (disk : Disk) (spool : DurableSpool) (body : Bytes)
      → IsAccepted D spool body
      → Restored spool
          (D.id_of body)
          (survives disk body)
          ((store_batch disk spool (D.id_of body) body).1)
  store_batch-Restored sound spool body h = promoted-Restored spool body h
  store_batch-Restored create_fails spool body h = untouched-Restored spool body h
  store_batch-Restored (write_fails n) spool body h = left-Restored spool body (take n body) h
  store_batch-Restored sync_fails spool body h = whole-Restored spool body h
  store_batch-Restored rename_fails spool body h = whole-Restored spool body h
  store_batch-Restored root_sync_fails spool body h = promoted-Restored spool body h

  enqueue-survives :
      (disk : Disk) (spool : DurableSpool) (body : Bytes)
      → IsValid D spool
      → IsAccepted D spool body
      → (after : DurableSpool) × (recover_temporary_files D ((enqueue D disk spool body).1)
          ≡ ok after)
        × (lookup (json (D.id_of body)) after.root ≡ survives disk body)
        × (lookup (tmp (D.id_of body)) after.root ≡ none)
        × IsIncluded spool.root after.root
  enqueue-survives disk spool body v h =
      let id = D.id_of body in
      let crashed = enqueue D disk spool body in
      let (stored, gone, others) =
        subst
          (λ (r : Outcome SpoolError Bytes × DurableSpool).
            Restored spool id (survives disk body) r.1)
          (sym (enqueue_accepted D disk spool body h)) (store_batch-Restored disk spool body h) in
      let (after, run, (_, _, look)) =
        recover_temporary_files-settled D crashed.1
          (enqueue-IsValid D disk spool body v).unique_root in
      (
        after,
        run,
        look (json id) ∙ stored,
        look (tmp id) ∙ gone,
        λ j kept here. look (json j) ∙ others j kept here,
      )

  -- The batch, or nothing where its file was not made or not filled.
  abbrev pub whole_or_none : Disk → Bytes → Option Bytes
  whole_or_none create_fails body = none
  whole_or_none (write_fails written) body =
      if bytes_eq (take written body) body then some body else none
  whole_or_none _ body = some body

  survives-whole :
      (disk : Disk) (body : Bytes)
      → ((n : ℕ) → D.id_of (take n body) ≡ D.id_of body → take n body ≡ body)
      → survives disk body ≡ whole_or_none disk body
  survives-whole sound body apart = refl
  survives-whole create_fails body apart = refl
  survives-whole (write_fails n) body apart =
      elim (Bool-cases (bytes_eq (D.id_of (take n body)) (D.id_of body))) [
        | inl same ↦
            let whole = apart n ((bytes_eq_iff (D.id_of (take n body)) (D.id_of body)).0 same) in
            simp (same, (bytes_eq_iff (take n body) body).1 whole) (ap some whole)
        | inr torn ↦ elim (Bool-cases (bytes_eq (take n body) body)) [
          | inl whole ↦ absurd (
              let e = ap D.id_of ((bytes_eq_iff (take n body) body).0 whole) in
              let same = (bytes_eq_iff (D.id_of (take n body)) (D.id_of body)).1 e in ground arith)
          | inr part ↦ simp (torn, part) refl
        ]
      ]
  survives-whole sync_fails body apart = refl
  survives-whole rename_fails body apart = refl
  survives-whole root_sync_fails body apart = refl

  -- Take a spool in good order and a batch that is new, fits, has no temporary file, and of which no
  -- proper beginning has the same digest. However far its writes get, the restart succeeds: the batch
  -- is stored whole, or, where its file was not made or a torn write left a part of it, not at all;
  -- its temporary file is gone, and every batch of the root is still there.
  pub enqueue-crash :
      (disk : Disk) (spool : DurableSpool) (body : Bytes)
      → IsValid D spool
      → IsAccepted D spool body
      → ((n : ℕ) → D.id_of (take n body) ≡ D.id_of body → take n body ≡ body)
      → (after : DurableSpool) × (recover_temporary_files D ((enqueue D disk spool body).1)
          ≡ ok after)
        × (lookup (json (D.id_of body)) after.root ≡ whole_or_none disk body)
        × (lookup (tmp (D.id_of body)) after.root ≡ none)
        × IsIncluded spool.root after.root
  enqueue-crash disk spool body v h apart =
      let (after, run, stored, gone, others) = enqueue-survives disk spool body v h in
      (after, run, stored ∙ survives-whole disk body apart, gone, others)
