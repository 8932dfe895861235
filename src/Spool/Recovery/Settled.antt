-- ===== src/Spool/Recovery/Settled.antt =====
-- What `recover_temporary_files` of crates/spool/src/lib.rs leaves behind, file by file.
use mongodb_dam.Common.{
  ℕ, ◌≡◌, refl, ap, sym, ◌∙◌, arith, true, false, Option, none, some, Bytes, [], ◌∷◌, ◌&&◌,
  bytes_eq, if◌then◌else◌, Bool-cases, inl, inr,
}
use mongodb_dam.Common.Outcome.{ok}
use mongodb_dam.Spool.Digest.{Digest}
use mongodb_dam.Spool.Files.{FileName, json, tmp, other, Directory, lookup, exists, remove, name_eq}
use mongodb_dam.Spool.Files.Laws.{lookup-remove, lookup-write, name_eq_iff, IsUnique}
use mongodb_dam.Spool.Store.{DurableSpool}
use mongodb_dam.Spool.Recovery.{
  is_batch_id, settle, recover_entry, recover_entries, recover_temporary_files, open_spool,
}

module _ (D : Digest) where
  -- The batch that a temporary file becomes: the one of a whole body that is not stored yet.
  abbrev pub salvaged : DurableSpool → Bytes → Option Bytes → Option Bytes
  salvaged spool id none = none
  salvaged spool id (some body) =
      if is_batch_id id && bytes_eq (D.id_of body) id then some body else none

  -- A batch of the root after the recovery of the temporary files in `files`.
  abbrev pub batch_after : DurableSpool → Bytes → Option Bytes → Option Bytes → Option Bytes
  batch_after spool id (some stored) found = some stored
  batch_after spool id none found =
      if exists (json id) spool.quarantine then none else salvaged spool id found

  abbrev pub settled : DurableSpool → Directory → FileName → Option Bytes
  settled spool files (json id) =
      batch_after spool id (lookup (json id) spool.root) (lookup (tmp id) files)
  settled spool files (tmp id) =
      if is_batch_id id && exists (tmp id) files then none else lookup (tmp id) spool.root
  settled spool files (other name) = lookup (other name) spool.root

  -- The other fields stay, and each file of the root is as `view` says.
  abbrev pub Leaves : DurableSpool → (FileName → Option Bytes) → DurableSpool → Type 0
  Leaves spool view after =
      (after.quarantine ≡ spool.quarantine)
      × (after.max_bytes ≡ spool.max_bytes)
      × ((name : FileName) → lookup name after.root ≡ view name)

  lookup-settle :
      (spool : DurableSpool) (id body : Bytes) (name : FileName)
      → lookup (tmp id) spool.root ≡ some body
      → is_batch_id id ≡ true
      → lookup name (settle D spool id body).root ≡ settled spool ((tmp id, body) ∷ []) name
  unfolding settle exists lookup
  lookup-settle spool id body (json j) h b = ground (
    arith,
    lookup-write (json id) (json j) body (remove (tmp id) spool.root),
    lookup-remove (tmp id) (json j) spool.root,
    name_eq_iff (tmp id) (json j),
    name_eq_iff (tmp id) (tmp j),
    name_eq_iff (json id) (json j),
  )
  lookup-settle spool id body (tmp j) h b = ground (
    arith,
    lookup-write (json id) (tmp j) body (remove (tmp id) spool.root),
    lookup-remove (tmp id) (tmp j) spool.root,
    name_eq_iff (tmp id) (tmp j),
    name_eq_iff (json id) (tmp j),
  )
  lookup-settle spool id body (other j) h b = ground (
    arith,
    lookup-write (json id) (other j) body (remove (tmp id) spool.root),
    lookup-remove (tmp id) (other j) spool.root,
    name_eq_iff (tmp id) (other j),
    name_eq_iff (json id) (other j),
  )

  -- The temporary files among the entries still stand in the root.
  abbrev pub IsListed : DurableSpool → Directory → Type 0
  IsListed spool files =
      (id body : Bytes) → lookup (tmp id) files ≡ some body → lookup (tmp id) spool.root ≡ some body

  settle-kept :
      (spool : DurableSpool) (id body : Bytes)
      → ((settle D spool id body).quarantine ≡ spool.quarantine)
        × ((settle D spool id body).max_bytes ≡ spool.max_bytes)
  unfolding settle
  settle-kept spool id body = ground arith

  salvaged_odd :
      (spool : DurableSpool) (id : Bytes) (found : Option Bytes)
      → is_batch_id id ≡ false
      → salvaged spool id found ≡ none
  salvaged_odd spool id none odd = refl
  salvaged_odd spool id (some body) odd = simp (odd)

  batch_after_same :
      (spool : DurableSpool) (id : Bytes) (stored found found' : Option Bytes)
      → salvaged spool id found ≡ salvaged spool id found'
      → batch_after spool id stored found ≡ batch_after spool id stored found'
  batch_after_same spool id (some body) found found' same = refl
  batch_after_same spool id none found found' same = simp (same)

  settled-skip :
      (spool : DurableSpool) (skipped name : FileName) (body : Bytes) (files : Directory)
      → ((id : Bytes) → is_batch_id id ≡ true → name_eq skipped (tmp id) ≡ false)
      → settled spool ((skipped, body) ∷ files) name ≡ settled spool files name
  unfolding lookup exists
  settled-skip spool skipped (json id) body files apart =
      let distinct = apart id in
      let found = lookup (tmp id) ((skipped, body) ∷ files) in
      let rest = lookup (tmp id) files in
      batch_after_same spool id (lookup (json id) spool.root) found rest
        (elim (Bool-cases (is_batch_id id)) [
          | inl batch ↦
              let same : found ≡ rest = simp (distinct batch) in ap (salvaged spool id) same
          | inr odd ↦ salvaged_odd spool id found odd ∙ sym (salvaged_odd spool id rest odd)
        ])
  settled-skip spool skipped (tmp id) body files apart = let distinct = apart id in ground arith
  settled-skip spool skipped (other other_name) body files apart = refl

  settled-next :
      (spool : DurableSpool) (id body : Bytes) (files : Directory) (name : FileName)
      → lookup (tmp id) spool.root ≡ some body
      → is_batch_id id ≡ true
      → lookup (tmp id) files ≡ none
      → settled (settle D spool id body) files name ≡ settled spool ((tmp id, body) ∷ files) name
  unfolding lookup exists
  settled-next spool id body files (json j) h b fresh =
      let (q, m) = settle-kept spool id body in
      ground (arith, lookup-settle spool id body (json j) h b, name_eq_iff (tmp id) (tmp j))
  settled-next spool id body files (tmp j) h b fresh =
      ground (arith, lookup-settle spool id body (tmp j) h b, name_eq_iff (tmp id) (tmp j))
  settled-next spool id body files (other j) h b fresh =
      ground (arith, lookup-settle spool id body (other j) h b)

  Leaves-trans :
      (spool next : DurableSpool) (view view' : FileName → Option Bytes) (after : DurableSpool)
      → next.quarantine ≡ spool.quarantine
      → next.max_bytes ≡ spool.max_bytes
      → ((name : FileName) → view name ≡ view' name)
      → Leaves next view after
      → Leaves spool view' after
  Leaves-trans spool next view view' after q m same (q', m', look) =
      (q' ∙ q, m' ∙ m, λ name. look name ∙ same name)

  lookup_first :
      (name : FileName) (body : Bytes) (files : Directory)
      → lookup name ((name, body) ∷ files) ≡ some body
  unfolding lookup
  lookup_first name body files = simp ((name_eq_iff name name).1 refl)

  IsListed-tail :
      (spool : DurableSpool) (name : FileName) (body : Bytes) (files : Directory)
      → lookup name files ≡ none
      → IsListed spool ((name, body) ∷ files)
      → IsListed spool files
  unfolding lookup
  IsListed-tail spool name body files fresh listed id content h =
      ground (arith, listed id content, name_eq_iff name (tmp id))

  settle-IsListed :
      (spool : DurableSpool) (id body : Bytes) (files : Directory)
      → is_batch_id id ≡ true
      → lookup (tmp id) files ≡ none
      → IsListed spool ((tmp id, body) ∷ files)
      → IsListed (settle D spool id body) files
  unfolding lookup exists
  settle-IsListed spool id body files batch fresh listed j content h = ground (
    arith,
    lookup-settle spool id body (tmp j) (listed id body (lookup_first (tmp id) body files)) batch,
    listed j content,
    name_eq_iff (tmp id) (tmp j),
    name_eq_iff (tmp id) (tmp id),
  )

  Recovers : DurableSpool → Directory → Type 0
  Recovers spool files =
      (after : DurableSpool) × (recover_entries D spool files ≡ ok after)
      × Leaves spool (settled spool files) after

  Recovers-skip :
      (spool : DurableSpool) (skipped : FileName) (body : Bytes) (files : Directory)
      → ((id : Bytes) → is_batch_id id ≡ true → name_eq skipped (tmp id) ≡ false)
      → recover_entry D spool skipped ≡ ok spool
      → Recovers spool files
      → Recovers spool ((skipped, body) ∷ files)
  unfolding Recovers recover_entries
  Recovers-skip spool skipped body files apart same (after, run, leaves) = (
    after,
    simp (same, run),
    Leaves-trans spool spool (settled spool files) (settled spool ((skipped, body) ∷ files)) after
        refl refl (λ name. sym (settled-skip spool skipped name body files apart)) leaves,
  )

  settled_none :
      (spool : DurableSpool) (name : FileName) → lookup name spool.root ≡ settled spool [] name
  unfolding lookup exists
  settled_none spool (json id) = first_none (lookup (json id) spool.root)
    where
      first_none : (o : Option Bytes) → o ≡ batch_after spool id o none
      first_none none = ground arith
      first_none (some body) = refl
  settled_none spool (tmp id) = ground arith
  settled_none spool (other name) = refl

  apart_odd :
      (id : Bytes)
      → is_batch_id id ≡ false
      → (j : Bytes) → is_batch_id j ≡ true
      → name_eq (tmp id) (tmp j) ≡ false
  apart_odd id odd j batch = elim (Bool-cases (name_eq (tmp id) (tmp j))) [
    | inr apart ↦ apart
    | inl same ↦ let one = (name_eq_iff (tmp id) (tmp j)).0 same in ground arith
  ]

  recover_entry_found :
      (spool : DurableSpool) (id body : Bytes)
      → is_batch_id id ≡ true
      → lookup (tmp id) spool.root ≡ some body
      → recover_entry D spool (tmp id) ≡ ok (settle D spool id body)
  unfolding recover_entry settle
  recover_entry_found spool id body batch here = simp (batch, here)

  recover_entries-Recovers :
      (spool : DurableSpool) (files : Directory)
      → IsUnique files
      → IsListed spool files
      → Recovers spool files
  unfolding recover_entries recover_entry Recovers lookup
  recover_entries-Recovers spool [] u listed = (spool, refl, (refl, refl, settled_none spool))
  recover_entries-Recovers spool ((json id, body) ∷ files) (fresh, u) listed =
      Recovers-skip spool (json id) body files (λ j b. refl) refl
        (recover_entries-Recovers spool files u
          (IsListed-tail spool (json id) body files fresh listed))
  recover_entries-Recovers spool ((other name, body) ∷ files) (fresh, u) listed =
      Recovers-skip spool (other name) body files (λ j b. refl) refl
        (recover_entries-Recovers spool files u
          (IsListed-tail spool (other name) body files fresh listed))
  recover_entries-Recovers spool ((tmp id, body) ∷ files) (fresh, u) listed =
      elim (Bool-cases (is_batch_id id)) [
        | inl batch ↦
            let next = settle D spool id body in
            let (q, m) = settle-kept spool id body in
            let here = listed id body (lookup_first (tmp id) body files) in
            let (after, run, leaves) =
              recover_entries-Recovers next files u
                (settle-IsListed spool id body files batch fresh listed) in
            (
              after,
              simp (recover_entry_found spool id body batch here, run),
              Leaves-trans spool next (settled next files) (settled spool ((tmp id, body) ∷ files))
                  after q m (λ name. settled-next spool id body files name here batch fresh) leaves,
            )
        | inr odd ↦ Recovers-skip spool (tmp id) body files (apart_odd id odd) (simp (odd)) (
            recover_entries-Recovers spool files u
              (IsListed-tail spool (tmp id) body files fresh listed))
      ]

  pub recover_temporary_files-settled :
      (spool : DurableSpool)
      → IsUnique spool.root
      → (after : DurableSpool) × (recover_temporary_files D spool ≡ ok after)
        × Leaves spool (settled spool spool.root) after
  unfolding recover_temporary_files Recovers
  recover_temporary_files-settled spool u =
      recover_entries-Recovers spool spool.root u (λ id body h. h)

  -- `open` succeeds on a root where each name stands once. It leaves the quarantine as it is. A batch
  -- of the root stays; a temporary file of a batch that is stored nowhere and whose bytes have the
  -- digest of its name becomes that batch; no temporary file of a batch is left, and every other file
  -- stays.
  pub open_spool-settled :
      (root quarantine : Directory) (max_bytes : ℕ)
      → IsUnique root
      → (after : DurableSpool) × (open_spool D root quarantine max_bytes ≡ ok after)
        × Leaves
            (record { root = root; quarantine = quarantine; max_bytes = max_bytes })
            (settled (record { root = root; quarantine = quarantine; max_bytes = max_bytes }) root)
            after
  unfolding open_spool
  open_spool-settled root quarantine max_bytes u =
      recover_temporary_files-settled
        (record { root = root; quarantine = quarantine; max_bytes = max_bytes }) u
