-- ===== src/Outpost/Deliver/Listed.antt =====
-- What `pending` of crates/spool/src/lib.rs lists: each batch of the root once, and no other.
use mongodb_dam.Common.{
  ◌≡◌, ◌⊎◌, inl, inr, sym, arith, true, false, none, some, Bytes, List, [], ◌∷◌, Bool-cases,
}
use mongodb_dam.Spool.Files.{json, name_eq, Directory, lookup, remove}
use mongodb_dam.Spool.Files.Laws.{lookup-remove, name_eq_iff}
use mongodb_dam.Spool.Store.{PendingItem}
use mongodb_dam.Outpost.Deliver.Items.{AreNamed}

-- The name of a batch is not among the items, or is.
abbrev pub IsFresh : Bytes → List PendingItem → Type 0
IsFresh id [] = Unit
IsFresh id (item ∷ items) = (item.id ≡ id → ⊥) × IsFresh id items

abbrev pub IsListed : Bytes → List PendingItem → Type 0
IsListed id [] = ⊥
IsListed id (item ∷ items) = (item.id ≡ id) ⊎ IsListed id items

-- The items are the batches of the directory, each once.
abbrev pub AreDistinct : List PendingItem → Type 0
AreDistinct [] = Unit
AreDistinct (item ∷ items) = IsFresh item.id items × AreDistinct items

abbrev pub ArePresent : Directory → List PendingItem → Type 0
ArePresent root [] = Unit
ArePresent root (item ∷ items) =
    ((body : Bytes) × (lookup (json item.id) root ≡ some body)) × ArePresent root items

pub record Lists (root : Directory) (items : List PendingItem) : Type 0 where
  pub named : AreNamed items
  pub distinct : AreDistinct items
  pub present : ArePresent root items
  pub complete : (id : Bytes) → (lookup (json id) root ≡ none) ⊎ IsListed id items

pub same_id : (a b : Bytes) → name_eq (json a) (json b) ≡ true → a ≡ b
same_id a b h = ground (arith, name_eq_iff (json a) (json b))

pub other_id : (a b : Bytes) → name_eq (json a) (json b) ≡ false → a ≡ b → ⊥
other_id a b h e = ground (arith, name_eq_iff (json a) (json b))

ArePresent-remove :
    (root : Directory) (id : Bytes) (items : List PendingItem)
    → IsFresh id items
    → ArePresent root items
    → ArePresent (remove (json id) root) items
ArePresent-remove root id [] f p = tt
ArePresent-remove root id (item ∷ items) (apart, f) ((body, here), p) = (
  (
    body,
    elim (Bool-cases (name_eq (json id) (json item.id))) [
      | inl same ↦ absurd (apart (sym (same_id id item.id same)))
      | inr differ ↦ ground (arith, lookup-remove (json id) (json item.id) root)
    ],
  ),
  ArePresent-remove root id items f p,
)

-- Behind the removal of the first item, the others are listed.
pub Lists-remove :
    (root : Directory) (item : PendingItem) (items : List PendingItem)
    → Lists root (item ∷ items)
    → Lists (remove (json item.id) root) items
Lists-remove root item items l = record {
  named = l.named.1;
  distinct = l.distinct.1;
  present = ArePresent-remove root item.id items l.distinct.0 l.present.1;
  complete = λ id. elim (Bool-cases (name_eq (json item.id) (json id))) [
    | inl same ↦ inl (ground (arith, lookup-remove (json item.id) (json id) root))
    | inr differ ↦ elim (l.complete id) [
      | inl gone ↦ inl (ground (arith, lookup-remove (json item.id) (json id) root))
      | inr (inl e) ↦ absurd (other_id item.id id differ e)
      | inr (inr later) ↦ inr later
    ]
  ];
}
