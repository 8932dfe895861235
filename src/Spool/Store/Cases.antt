-- ===== src/Spool/Store/Cases.antt =====
-- The four ways of `enqueue` in crates/spool/src/lib.rs.
use mongodb_dam.Common.{
  ◌≡◌, ◌≤◌, ◌<◌, refl, arith, true, false, Bytes, length, ltb, ltb→lt, inl, inr, Bool-cases,
}
use mongodb_dam.Common.Outcome.{Outcome, ok, err}
use mongodb_dam.Spool.Digest.{Digest}
use mongodb_dam.Spool.Files.{tmp, exists, saturating_add}
use mongodb_dam.Spool.Store.{
  SpoolError, capacity_exceeded, io, DurableSpool, Disk, store_batch, holds, enqueue, current_bytes,
}

module _ (D : Digest) where
  -- `enqueue` accepts the batch: it is new, it fits, and no temporary file of it is left.
  abbrev pub IsAccepted : DurableSpool → Bytes → Type 0
  IsAccepted spool body =
      (holds (D.id_of body) spool ≡ false)
      × (saturating_add (current_bytes spool) (length body) ≤ spool.max_bytes)
      × (exists (tmp (D.id_of body)) spool.root ≡ false)

  pub enqueue-cases :
      (Q : Outcome SpoolError Bytes × DurableSpool → Type 0) (disk : Disk) (spool : DurableSpool)
      (body : Bytes)
      → (holds (D.id_of body) spool ≡ true → Q (ok (D.id_of body), spool))
      → (holds (D.id_of body) spool ≡ false
          → spool.max_bytes < saturating_add (current_bytes spool) (length body)
          → Q (err (capacity_exceeded (current_bytes spool) (length body) spool.max_bytes), spool))
      → (holds (D.id_of body) spool ≡ false
          → saturating_add (current_bytes spool) (length body) ≤ spool.max_bytes
          → exists (tmp (D.id_of body)) spool.root ≡ true
          → Q (err io, spool))
      → (IsAccepted spool body → Q (store_batch disk spool (D.id_of body) body))
      → Q (enqueue D disk spool body)
  unfolding enqueue
  enqueue-cases Q disk spool body held_case full_case left_case accepted_case =
      let id = D.id_of body in
      let sum = saturating_add (current_bytes spool) (length body) in
      elim (Bool-cases (holds id spool)) [
        | inl held ↦ simp (held) (held_case held)
        | inr free ↦ elim (Bool-cases (ltb spool.max_bytes sum)) [
          | inl full ↦ simp (free, full) (full_case free (ltb→lt spool.max_bytes sum full))
          | inr under ↦
              let fits : sum ≤ spool.max_bytes = ground arith in
              elim (Bool-cases (exists (tmp id) spool.root)) [
                | inl left_over ↦ simp (free, under, left_over) (left_case free fits left_over)
                | inr clean ↦ simp (free, under, clean) (accepted_case (free, fits, clean))
              ]
        ]
      ]

  pub enqueue_accepted :
      (disk : Disk) (spool : DurableSpool) (body : Bytes)
      → IsAccepted spool body
      → enqueue D disk spool body ≡ store_batch disk spool (D.id_of body) body
  enqueue_accepted disk spool body (free, fits, clean) =
      enqueue-cases (λ r. r ≡ store_batch disk spool (D.id_of body) body) disk spool body
        (λ held. ground arith) (λ _ full. ground arith) (λ _ _ left_over. ground arith) (λ _. refl)
