-- ===== src/Spool/Store/Order.antt =====
-- What `pending` of crates/spool/src/lib.rs lists, and in which order.
use mongodb_dam.Common.{◌≡◌, refl, arith, inl, inr, true, false, Bytes, List, [], ◌∷◌, Bool-cases}
use mathlib.Core.List.{Perm}
use mathlib.Core.List.Perm
use mongodb_dam.Spool.Store.{
  DurableSpool, PendingItem, bytes_le, insert_item, sort_items, list_items, pending,
}

bytes_le_total : (xs ys : Bytes) → bytes_le xs ys ≡ false → bytes_le ys xs ≡ true
bytes_le_total [] ys h = ground arith
bytes_le_total (x ∷ xs) [] h = refl
bytes_le_total (x ∷ xs) (y ∷ ys) h = ground (arith, bytes_le_total xs ys)

bytes_le_trans :
    (xs ys zs : Bytes) → bytes_le xs ys ≡ true → bytes_le ys zs ≡ true → bytes_le xs zs ≡ true
bytes_le_trans [] ys zs h k = refl
bytes_le_trans (x ∷ xs) [] zs h k = ground arith
bytes_le_trans (x ∷ xs) (y ∷ ys) [] h k = ground arith
bytes_le_trans (x ∷ xs) (y ∷ ys) (z ∷ zs) h k = ground (arith, bytes_le_trans xs ys zs)

-- Every item of the list comes after `item`, or beside it.
abbrev pub IsBefore : PendingItem → List PendingItem → Type 0
IsBefore item [] = Unit
IsBefore item (next ∷ items) = (bytes_le item.id next.id ≡ true) × IsBefore item items

abbrev pub IsSorted : List PendingItem → Type 0
IsSorted [] = Unit
IsSorted (item ∷ items) = IsBefore item items × IsSorted items

IsBefore-trans :
    (item next : PendingItem) (items : List PendingItem)
    → bytes_le item.id next.id ≡ true
    → IsBefore next items
    → IsBefore item items
IsBefore-trans item next [] h b = tt
IsBefore-trans item next (other_item ∷ items) h (first, b) =
    (bytes_le_trans item.id next.id other_item.id h first, IsBefore-trans item next items h b)

insert_item-IsBefore :
    (item first : PendingItem) (items : List PendingItem)
    → bytes_le first.id item.id ≡ true
    → IsBefore first items
    → IsBefore first (insert_item item items)
insert_item-IsBefore item first [] h b = (h, tt)
insert_item-IsBefore item first (next ∷ items) h (f, b) =
    ground (arith, insert_item-IsBefore item first items h b)

insert_item-IsSorted :
    (item : PendingItem) (items : List PendingItem)
    → IsSorted items
    → IsSorted (insert_item item items)
insert_item-IsSorted item [] s = (tt, tt)
insert_item-IsSorted item (next ∷ items) (b, s) = elim (Bool-cases (bytes_le item.id next.id)) [
  | inl le ↦ simp (le) ((refl, IsBefore-trans item next items le b), (b, s))
  | inr gt ↦ simp (gt) (
    insert_item-IsBefore item next items (bytes_le_total item.id next.id gt) b,
    insert_item-IsSorted item items s,
  )
]

sort_items-IsSorted : (items : List PendingItem) → IsSorted (sort_items items)
sort_items-IsSorted [] = tt
sort_items-IsSorted (item ∷ items) =
    insert_item-IsSorted item (sort_items items) (sort_items-IsSorted items)

insert_item-Perm :
    (item : PendingItem) (items : List PendingItem) → Perm (insert_item item items) (item ∷ items)
insert_item-Perm item [] = Perm.refl (item ∷ [])
insert_item-Perm item (next ∷ items) = elim (Bool-cases (bytes_le item.id next.id)) [
  | inl le ↦ simp (le) (Perm.refl (item ∷ next ∷ items))
  | inr gt ↦
      simp (gt)
        (Perm.trans (Perm.cons next (insert_item-Perm item items)) (Perm.swap item next items))
]

sort_items-Perm : (items : List PendingItem) → Perm (sort_items items) items
sort_items-Perm [] = Perm.refl []
sort_items-Perm (item ∷ items) =
    Perm.trans (insert_item-Perm item (sort_items items)) (Perm.cons item (sort_items-Perm items))

-- `pending` lists the batches of the root, each as often as it is there, in the order of their names,
-- whatever the order in which the directory is read.
pub pending-IsSorted :
    (spool : DurableSpool) → IsSorted (pending spool) × Perm (pending spool) (list_items spool.root)
unfolding pending
pending-IsSorted spool =
    (sort_items-IsSorted (list_items spool.root), sort_items-Perm (list_items spool.root))
