-- ===== src/Spool/Steps.antt =====
-- The steps of a spool (crates/spool/src/lib.rs), in any order: the operations of the clients, and
-- the entries that a restart recovers, each one alone, so that a run may stop between two.
use mongodb_dam.Common.{
  ◌≡◌, subst, Option, none, some, Bytes, ◌∷◌, [], Bool-cases, inl, inr, bytes_eq, bytes_eq_iff,
}
use mongodb_dam.Common.Outcome.{ok, >>=-ok}
use mongodb_dam.Spool.Digest.{Digest}
use mongodb_dam.Spool.Files.{FileName, json, tmp, other, Directory, lookup}
use mongodb_dam.Spool.Store.{
  DurableSpool, PendingItem, Disk, holds, enqueue, acknowledge, quarantine,
}
use mongodb_dam.Spool.Store.Invariant.{
  IsValid, remove_tmp-IsValid, promote-IsValid, enqueue-IsValid, acknowledge-IsValid,
  quarantine-IsValid,
}
use mongodb_dam.Spool.Recovery.{is_batch_id, settle, settle_found, recover_entry, recover_entries}

module _ (D : Digest) where
  pub data Step : DurableSpool → DurableSpool → Type 0 where
    enqueues : (disk : Disk) (s : DurableSpool) (body : Bytes) → Step s ((enqueue D disk s body).1)
    acknowledges : (s : DurableSpool) (item : PendingItem) → Step s ((acknowledge s item).1)
    quarantines :
        (s : DurableSpool) (item : PendingItem)
        → item.path ≡ json item.id
        → Step s ((quarantine s item).1)
    recovers : (s s' : DurableSpool) (name : FileName) → recover_entry D s name ≡ ok s' → Step s s'

  pub data Steps : DurableSpool → DurableSpool → Type 0 where
    stay : (s : DurableSpool) → Steps s s
    then_step : (s t u : DurableSpool) → Steps s t → Step t u → Steps s u

  settle-IsValid :
      (s : DurableSpool) (id body : Bytes) → IsValid D s → IsValid D (settle D s id body)
  unfolding settle
  settle-IsValid s id body v = elim (Bool-cases (holds id s)) [
    | inl held ↦ simp (held) (remove_tmp-IsValid D s id v)
    | inr free ↦ elim (Bool-cases (bytes_eq (D.id_of body) id)) [
      | inl whole ↦
          simp (free, whole)
            (promote-IsValid D s id body v ((bytes_eq_iff (D.id_of body) id).0 whole) free)
      | inr torn ↦ simp (free, torn) (remove_tmp-IsValid D s id v)
    ]
  ]

  settle_found-IsValid :
      (s s' : DurableSpool) (id : Bytes) (found : Option Bytes)
      → settle_found D s id found ≡ ok s'
      → IsValid D s
      → IsValid D s'
  unfolding settle
  settle_found-IsValid s s' id none h v = cc
  settle_found-IsValid s s' id (some body) h v =
      let same : settle D s id body ≡ s' = cc in subst (IsValid D) same (settle-IsValid s id body v)

  recover_entry-IsValid :
      (s s' : DurableSpool) (name : FileName)
      → recover_entry D s name ≡ ok s'
      → IsValid D s
      → IsValid D s'
  unfolding recover_entry
  recover_entry-IsValid s s' (json id) h v = let same : s ≡ s' = cc in subst (IsValid D) same v
  recover_entry-IsValid s s' (other name) h v = let same : s ≡ s' = cc in subst (IsValid D) same v
  recover_entry-IsValid s s' (tmp id) h v = elim (Bool-cases (is_batch_id id)) [
    | inl batch ↦ settle_found-IsValid s s' id (lookup (tmp id) s.root) (rw batch at h) v
    | inr odd ↦ let kept = rw odd at h in let same : s ≡ s' = cc in subst (IsValid D) same v
  ]

  Step-IsValid : (s s' : DurableSpool) → Step s s' → IsValid D s → IsValid D s'
  Step-IsValid _ _ (enqueues disk s body) v = enqueue-IsValid D disk s body v
  Step-IsValid _ _ (acknowledges s item) v = acknowledge-IsValid D s item v
  Step-IsValid _ _ (quarantines s item named) v = quarantine-IsValid D s item named v
  Step-IsValid _ _ (recovers s s' name h) v = recover_entry-IsValid s s' name h v

  -- The invariant holds after any number of steps, in any order, from a spool where it holds: writes
  -- that fail at any point, and restarts that stop between two entries, are steps too.
  pub Steps-IsValid : (s s' : DurableSpool) → Steps s s' → IsValid D s → IsValid D s'
  Steps-IsValid _ _ (stay s) v = v
  Steps-IsValid _ _ (then_step s t u run step) v = Step-IsValid t u step (Steps-IsValid s t run v)

  recover_entries-IsValid :
      (s s' : DurableSpool) (files : Directory)
      → recover_entries D s files ≡ ok s'
      → IsValid D s
      → IsValid D s'
  unfolding recover_entries
  recover_entries-IsValid s s' [] h v = let same : s ≡ s' = cc in subst (IsValid D) same v
  recover_entries-IsValid s s' ((name, body) ∷ files) h v =
      let (next, first, rest) =
        >>=-ok (λ next. recover_entries D next files) s' (recover_entry D s name) h in
      recover_entries-IsValid next s' files rest (recover_entry-IsValid s next name first v)
