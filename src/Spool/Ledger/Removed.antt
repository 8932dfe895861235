-- ===== src/Spool/Ledger/Removed.antt =====
-- `acknowledge` and `quarantine` of crates/spool/src/lib.rs as turns of the ledger.
use mongodb_dam.Common.{
  ◌≡◌, refl, ap, subst, arith, Option, none, some, Bytes, Bool-cases, inl, inr,
}
use mongodb_dam.Spool.Digest.{Digest}
use mongodb_dam.Spool.Files.{FileName, json, tmp, other, lookup, exists, remove, write, name_eq}
use mongodb_dam.Spool.Files.Laws.{lookup-remove, lookup-write, name_eq_iff}
use mongodb_dam.Spool.Store.{
  DurableSpool, PendingItem, with_root, acknowledge, remove_found, quarantine, move_found,
}
use mongodb_dam.Spool.Store.Invariant.{IsValid}
use mongodb_dam.Spool.Ledger.{
  status, ledger, Turn, moves, leaves, goes_aside, with_root-Turn, same-Turn,
}
use mongodb_dam.Spool.Ledger.Stored.{remove_tmp-Turn}

module _ (D : Digest) where
  -- A file is removed, which may be a batch.
  remove-Turn :
      (spool : DurableSpool) (path : FileName) (body : Bytes)
      → IsValid D spool
      → lookup path spool.root ≡ some body
      → Turn D (ledger spool) (ledger (with_root spool (remove path spool.root)))
  unfolding ledger name_eq
  remove-Turn spool (json id) body v here =
      let not_aside : lookup (json id) spool.quarantine ≡ none = elim (v.disjoint id) [
        | inl gone ↦ cc
        | inr free ↦ free
      ] in
      let removed : lookup (json id) (remove (json id) spool.root) ≡ none =
        ground
          (arith, lookup-remove (json id) (json id) spool.root, name_eq_iff (json id) (json id)) in
      moves id (leaves body (rw here refl) (rw (removed, not_aside) refl)) (λ j apart.
        ap (λ left. status left (lookup (json j) spool.quarantine))
          (ground (arith, lookup-remove (json id) (json j) spool.root)))
  remove-Turn spool (tmp id) body v here = remove_tmp-Turn D spool id
  remove-Turn spool (other name) body v here =
      with_root-Turn D spool (remove (other name) spool.root) (λ j.
        ground (
          arith,
          lookup-remove (other name) (json j) spool.root,
          name_eq_iff (other name) (json j),
        ))

  remove_found-Turn :
      (spool : DurableSpool) (item : PendingItem) (found : Option Bytes)
      → IsValid D spool
      → lookup item.path spool.root ≡ found
      → Turn D (ledger spool) (ledger (remove_found spool item found).1)
  remove_found-Turn spool item none v here = same-Turn D spool
  remove_found-Turn spool item (some body) v here = remove-Turn spool item.path body v here

  pub acknowledge-Turn :
      (spool : DurableSpool) (item : PendingItem)
      → IsValid D spool
      → Turn D (ledger spool) (ledger (acknowledge spool item).1)
  unfolding acknowledge
  acknowledge-Turn spool item v = remove_found-Turn spool item (lookup item.path spool.root) v refl

  move_found-Turn :
      (spool : DurableSpool) (item : PendingItem) (found : Option Bytes)
      → lookup item.path spool.root ≡ found
      → item.path ≡ json item.id
      → Turn D (ledger spool) (ledger (move_found spool item found).1)
  unfolding ledger name_eq
  move_found-Turn spool item none here named = same-Turn D spool
  move_found-Turn spool item (some body) here named =
      let id = item.id in
      let waiting : lookup (json id) spool.root ≡ some body =
        subst (λ k. lookup k spool.root ≡ some body) named here in
      let removed : lookup (json id) (remove item.path spool.root) ≡ none =
        ground
          (arith, lookup-remove item.path (json id) spool.root, name_eq_iff item.path (json id)) in
      let written : lookup (json id) (write (json id) body spool.quarantine) ≡ some body = ground (
        arith,
        lookup-write (json id) (json id) body spool.quarantine,
        name_eq_iff (json id) (json id),
      ) in
      moves id (goes_aside body (rw waiting refl) (rw (removed, written) refl)) (λ j apart.
        let left : lookup (json j) (remove item.path spool.root) ≡ lookup (json j) spool.root =
          rw named (ground (arith, lookup-remove (json id) (json j) spool.root)) in
        let kept : lookup (json j) (write (json id) body spool.quarantine)
            ≡ lookup (json j) spool.quarantine =
          ground (arith, lookup-write (json id) (json j) body spool.quarantine) in
        rw (left, kept) refl)

  pub quarantine-Turn :
      (spool : DurableSpool) (item : PendingItem)
      → IsValid D spool
      → item.path ≡ json item.id
      → Turn D (ledger spool) (ledger (quarantine spool item).1)
  unfolding quarantine
  quarantine-Turn spool item v named = elim (Bool-cases (exists (json item.id) spool.quarantine)) [
    | inl there ↦ rw there (acknowledge-Turn spool item v)
    | inr free ↦ rw free (move_found-Turn spool item (lookup item.path spool.root) refl named)
  ]
