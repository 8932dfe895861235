-- ===== src/Outpost/Deliver/Kept.antt =====
-- No batch is lost in a delivery pass of crates/outpost/src/lib.rs.
use mongodb_dam.Common.{
  ◌≡◌, ◌⊎◌, inl, inr, refl, sym, subst, arith, true, false, Option, none, some, Bytes, Bool-cases,
}
use mongodb_dam.Schema.Types.{DamBatch}
use mongodb_dam.Spool.Digest.{Digest}
use mongodb_dam.Spool.Files.{FileName, json, name_eq, Directory, lookup, exists}
use mongodb_dam.Spool.Files.Laws.{lookup-remove, lookup-write, name_eq_iff}
use mongodb_dam.Spool.Store.{
  DurableSpool, PendingItem, remove_found, move_found, acknowledge, quarantine,
}
use mongodb_dam.Spool.Store.Invariant.{IsValid}
use mongodb_dam.Outpost.State.{Platform, DestinationConfig}
use mongodb_dam.Outpost.Deliver.{DestinationClient}
use mongodb_dam.Outpost.Deliver.Receiver.{Accepts}

module _ (S : Platform) (destination : DestinationConfig) (client : DestinationClient) where
  -- The destination takes the batch that the bytes hold.
  pub record IsTaken (body : Bytes) : Type 0 where
    pub batch : DamBatch S.Time S.Value
    pub parsed : S.batch_from_slice body ≡ some batch
    pub taken : Accepts S destination client batch body

  -- Each batch that waits still waits, is set aside, or was taken; what is set aside stays there.
  pub record IsKept (before after : DurableSpool) : Type 0 where
    pub waiting :
        (id body : Bytes)
        → lookup (json id) before.root ≡ some body
        → (lookup (json id) after.root ≡ some body)
          ⊎ (lookup (json id) after.quarantine ≡ some body)
          ⊎ IsTaken body
    pub set_aside :
        (id body : Bytes)
        → lookup (json id) before.quarantine ≡ some body
        → lookup (json id) after.quarantine ≡ some body

  pub IsKept-refl : (spool : DurableSpool) → IsKept spool spool
  IsKept-refl spool = record { waiting = λ id body h. inl h; set_aside = λ id body h. h }

  pub IsKept-trans : (a b c : DurableSpool) → IsKept a b → IsKept b c → IsKept a c
  IsKept-trans a b c k l = record {
    waiting = λ id body h. elim (k.waiting id body h) [
      | inl still ↦ l.waiting id body still
      | inr (inl aside) ↦ inr (inl (l.set_aside id body aside))
      | inr (inr taken) ↦ inr (inr taken)
    ];
    set_aside = λ id body h. l.set_aside id body (k.set_aside id body h);
  }

  -- The batch at the path of the item is taken, if there is one.
  remove_found-IsKept :
      (spool : DurableSpool) (item : PendingItem) (found : Option Bytes)
      → ((body : Bytes) → lookup item.path spool.root ≡ some body → IsTaken body)
      → IsKept spool (remove_found spool item found).1
  remove_found-IsKept spool item none t = IsKept-refl spool
  remove_found-IsKept spool item (some _) t = record {
    waiting = λ id body h. elim (Bool-cases (name_eq item.path (json id))) [
      | inl same ↦
          let e = (name_eq_iff item.path (json id)).0 same in
          inr (inr (t body (subst (λ k. lookup k spool.root ≡ some body) (sym e) h)))
      | inr apart ↦ inl (ground (arith, lookup-remove item.path (json id) spool.root))
    ];
    set_aside = λ id body h. h;
  }

  pub acknowledge-IsKept :
      (spool : DurableSpool) (item : PendingItem)
      → ((body : Bytes) → lookup item.path spool.root ≡ some body → IsTaken body)
      → IsKept spool (acknowledge spool item).1
  unfolding acknowledge
  acknowledge-IsKept spool item t = remove_found-IsKept spool item (lookup item.path spool.root) t

  move_found-IsKept :
      (spool : DurableSpool) (item : PendingItem) (found : Option Bytes)
      → item.path ≡ json item.id
      → lookup item.path spool.root ≡ found
      → lookup (json item.id) spool.quarantine ≡ none
      → IsKept spool (move_found spool item found).1
  move_found-IsKept spool item none named here free = IsKept-refl spool
  move_found-IsKept spool item (some content) named here free = record {
    waiting = λ id body h. elim (Bool-cases (name_eq item.path (json id))) [
      | inl same ↦ inr (
          inl (
            ground (
              arith,
              lookup-write (json item.id) (json id) content spool.quarantine,
              name_eq_iff item.path (json id),
              name_eq_iff (json item.id) (json id),
            )))
      | inr apart ↦ inl (ground (arith, lookup-remove item.path (json id) spool.root))
    ];
    set_aside = λ id body h. ground (
      arith,
      lookup-write (json item.id) (json id) content spool.quarantine,
      name_eq_iff (json item.id) (json id),
    );
  }

  module _ (D : Digest) where
    exists_false :
        (k : FileName) (files : Directory) → exists k files ≡ false → lookup k files ≡ none
    unfolding exists
    exists_false k files h = ground arith

    exists_true :
        (k : FileName) (files : Directory) → exists k files ≡ true → lookup k files ≡ none → ⊥
    unfolding exists
    exists_true k files h n = ground arith

    not_both :
        (spool : DurableSpool) (id body : Bytes)
        → IsValid D spool
        → exists (json id) spool.quarantine ≡ true
        → lookup (json id) spool.root ≡ some body
        → ⊥
    not_both spool id body v there h = elim (v.disjoint id) [
      | inl gone ↦ cc
      | inr free ↦ exists_true (json id) spool.quarantine there free
    ]

    pub quarantine-IsKept :
        (spool : DurableSpool) (item : PendingItem)
        → IsValid D spool
        → item.path ≡ json item.id
        → IsKept spool (quarantine spool item).1
    unfolding quarantine
    quarantine-IsKept spool item v named =
        elim (Bool-cases (exists (json item.id) spool.quarantine)) [
          | inl there ↦ rw there (
              acknowledge-IsKept spool item (λ content h. absurd (
                not_both spool item.id content v there
                  (subst (λ k. lookup k spool.root ≡ some content) named h))))
          | inr free ↦ rw free (
              move_found-IsKept spool item (lookup item.path spool.root) named refl
                (exists_false (json item.id) spool.quarantine free))
        ]
