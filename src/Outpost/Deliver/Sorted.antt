-- ===== src/Outpost/Deliver/Sorted.antt =====
-- The sorting of the items in `pending`, crates/spool/src/lib.rs.
use mongodb_dam.Common.{◌≡◌, ◌⊎◌, inl, inr, sym, if_both, some, Bytes, List, [], ◌∷◌}
use mongodb_dam.Spool.Files.{json, Directory, lookup}
use mongodb_dam.Spool.Store.{PendingItem, insert_item, sort_items, bytes_le}
use mongodb_dam.Outpost.Deliver.Listed.{IsFresh, IsListed, AreDistinct, ArePresent}

IsFresh-insert_item :
    (id : Bytes) (item : PendingItem) (items : List PendingItem)
    → (item.id ≡ id → ⊥)
    → IsFresh id items
    → IsFresh id (insert_item item items)
IsFresh-insert_item id item [] a f = (a, tt)
IsFresh-insert_item id item (next ∷ items) a (b, f) =
    if_both (IsFresh id) (bytes_le item.id next.id) _ _ (a, (b, f))
      (b, IsFresh-insert_item id item items a f)

insert_item-AreDistinct :
    (item : PendingItem) (items : List PendingItem)
    → IsFresh item.id items
    → AreDistinct items
    → AreDistinct (insert_item item items)
insert_item-AreDistinct item [] f d = (tt, tt)
insert_item-AreDistinct item (next ∷ items) (a, f) (g, d) =
    if_both AreDistinct (bytes_le item.id next.id) _ _ ((a, f), (g, d))
      (
        IsFresh-insert_item next.id item items (λ e. a (sym e)) g,
        insert_item-AreDistinct item items f d,
      )

pub sort_items-IsFresh :
    (id : Bytes) (items : List PendingItem) → IsFresh id items → IsFresh id (sort_items items)
sort_items-IsFresh id [] f = tt
sort_items-IsFresh id (item ∷ items) (a, f) =
    IsFresh-insert_item id item (sort_items items) a (sort_items-IsFresh id items f)

pub sort_items-AreDistinct :
    (items : List PendingItem) → AreDistinct items → AreDistinct (sort_items items)
sort_items-AreDistinct [] d = tt
sort_items-AreDistinct (item ∷ items) (f, d) =
    insert_item-AreDistinct item (sort_items items) (sort_items-IsFresh item.id items f)
      (sort_items-AreDistinct items d)

insert_item-ArePresent :
    (root : Directory) (item : PendingItem) (items : List PendingItem)
    → ((body : Bytes) × (lookup (json item.id) root ≡ some body))
    → ArePresent root items
    → ArePresent root (insert_item item items)
insert_item-ArePresent root item [] h p = (h, tt)
insert_item-ArePresent root item (next ∷ items) h (k, p) =
    if_both (ArePresent root) (bytes_le item.id next.id) _ _ (h, (k, p))
      (k, insert_item-ArePresent root item items h p)

pub sort_items-ArePresent :
    (root : Directory) (items : List PendingItem)
    → ArePresent root items
    → ArePresent root (sort_items items)
sort_items-ArePresent root [] p = tt
sort_items-ArePresent root (item ∷ items) (h, p) =
    insert_item-ArePresent root item (sort_items items) h (sort_items-ArePresent root items p)

insert_item-IsListed :
    (id : Bytes) (item : PendingItem) (items : List PendingItem)
    → (item.id ≡ id) ⊎ IsListed id items
    → IsListed id (insert_item item items)
insert_item-IsListed id item [] l = l
insert_item-IsListed id item (next ∷ items) (inl e) =
    if_both (IsListed id) (bytes_le item.id next.id) _ _ (inl e)
      (inr (insert_item-IsListed id item items (inl e)))
insert_item-IsListed id item (next ∷ items) (inr (inl e)) =
    if_both (IsListed id) (bytes_le item.id next.id) _ _ (inr (inl e)) (inl e)
insert_item-IsListed id item (next ∷ items) (inr (inr l)) =
    if_both (IsListed id) (bytes_le item.id next.id) _ _ (inr (inr l))
      (inr (insert_item-IsListed id item items (inr l)))

pub sort_items-IsListed :
    (id : Bytes) (items : List PendingItem) → IsListed id items → IsListed id (sort_items items)
sort_items-IsListed id [] l = l
sort_items-IsListed id (item ∷ items) (inl e) =
    insert_item-IsListed id item (sort_items items) (inl e)
sort_items-IsListed id (item ∷ items) (inr l) =
    insert_item-IsListed id item (sort_items items) (inr (sort_items-IsListed id items l))
