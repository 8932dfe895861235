-- ===== src/Spool/Store/Blocked.antt =====
-- A batch of crates/spool/src/lib.rs whose temporary file a failed write has left behind.
use mongodb_dam.Common.{
  ℕ, ◌≡◌, refl, ap, sym, ◌∙◌, arith, true, false, Bytes, take, min, ◌+◌, ◌-◌, ◌^◌,
}
use mongodb_dam.Common.Outcome.{err}
use mongodb_dam.Spool.Digest.{Digest}
use mongodb_dam.Spool.Files.{json, tmp, exists, write}
use mongodb_dam.Spool.Files.Laws.{total, lookup-write, name_eq_iff}
use mongodb_dam.Spool.Store.{
  io, DurableSpool, Disk, write_fails, with_root, holds, enqueue, current_bytes,
}
use mongodb_dam.Spool.Store.Cases.{IsAccepted, enqueue-cases, enqueue_accepted}
use mongodb_dam.Spool.Store.Capacity.{total-write_tmp, current_bytes_eq}
use mongodb_dam.Spool.Store.Invariant.{IsValid}

module _ (D : Digest) where
  left_over-blocked :
      (disk : Disk) (spool : DurableSpool) (body content : Bytes)
      → IsValid D spool
      → IsAccepted D spool body
      → let left = with_root spool (write (tmp (D.id_of body)) content spool.root) in
        enqueue D disk left body ≡ (err io, left)
  unfolding exists
  left_over-blocked disk spool body content v (free, fits, clean) =
      let id = D.id_of body in
      let left = with_root spool (write (tmp id) content spool.root) in
      let still_free : holds id left ≡ false = ground (
        arith,
        lookup-write (tmp id) (json id) content spool.root,
        name_eq_iff (tmp id) (json id),
      ) in
      let there : exists (tmp id) left.root ≡ true =
        ground (
          arith,
          lookup-write (tmp id) (tmp id) content spool.root,
          name_eq_iff (tmp id) (tmp id),
        ) in
      let same_bytes : current_bytes left ≡ current_bytes spool =
        current_bytes_eq left
        ∙ ap (λ n. min (n + total spool.quarantine) (2 ^ 64 - 1))
            (total-write_tmp id content spool.root v.unique_root)
        ∙ sym (current_bytes_eq spool) in
      enqueue-cases D (λ r. r ≡ (err io, left)) disk left body (λ held. ground arith)
        (λ _ full. absurd (omega arith)) (λ _ _ _. refl) (λ (_, _, absent). ground arith)

  -- After a write that failed in a spool in good order, the same new batch is refused with an I/O
  -- error, on a sound disk too, and the spool stays as it is.
  pub enqueue-enqueue_blocked :
      (disk : Disk) (written : ℕ) (spool : DurableSpool) (body : Bytes)
      → IsValid D spool
      → IsAccepted D spool body
      → enqueue D disk ((enqueue D (write_fails written) spool body).1) body
        ≡ (err io, (enqueue D (write_fails written) spool body).1)
  enqueue-enqueue_blocked disk written spool body v h =
      let first = enqueue_accepted D (write_fails written) spool body h in
      simp (first) (left_over-blocked disk spool body (take written body) v h)
