-- ===== src/Outpost/Deliver/Pending.antt =====
-- What `pending` of crates/spool/src/lib.rs lists: each batch of the root once, and no other.
use mongodb_dam.Common.{
  ◌≡◌, ◌⊎◌, inl, inr, refl, if_both, arith, Option, none, some, Bytes, List, [], ◌∷◌, Bool-cases,
}
use mongodb_dam.Spool.Files.{FileName, json, tmp, other, name_eq, Directory, lookup}
use mongodb_dam.Spool.Files.Laws.{IsUnique, name_eq_iff}
use mongodb_dam.Spool.Store.{DurableSpool, PendingItem, pending, list_items}
use mongodb_dam.Spool.Store.Order.{IsSorted, pending-IsSorted}
use mongodb_dam.Outpost.Deliver.Items.{sort_items-AreNamed, list_items-AreNamed}
use mongodb_dam.Outpost.Deliver.Listed.{
  IsFresh, IsListed, AreDistinct, ArePresent, Lists, same_id, other_id,
}
use mongodb_dam.Outpost.Deliver.Sorted.{
  sort_items-AreDistinct, sort_items-ArePresent, sort_items-IsListed,
}

-- What is not a batch of the directory is not among its items.
list_items-IsFresh :
    (id : Bytes) (files : Directory) → lookup (json id) files ≡ none → IsFresh id (list_items files)
unfolding lookup
list_items-IsFresh id [] h = tt
list_items-IsFresh id ((json name, body) ∷ files) h =
    elim (Bool-cases (name_eq (json name) (json id))) [
      | inl same ↦ absurd (ground arith)
      | inr differ ↦ (other_id name id differ, list_items-IsFresh id files (ground arith))
    ]
list_items-IsFresh id ((tmp name, body) ∷ files) h = list_items-IsFresh id files (ground arith)
list_items-IsFresh id ((other name, body) ∷ files) h = list_items-IsFresh id files (ground arith)

list_items-AreDistinct : (files : Directory) → IsUnique files → AreDistinct (list_items files)
list_items-AreDistinct [] u = tt
list_items-AreDistinct ((json id, body) ∷ files) (f, u) =
    (list_items-IsFresh id files f, list_items-AreDistinct files u)
list_items-AreDistinct ((tmp id, body) ∷ files) (f, u) = list_items-AreDistinct files u
list_items-AreDistinct ((other name, body) ∷ files) (f, u) = list_items-AreDistinct files u

ArePresent-∷ :
    (k : FileName) (content : Bytes) (files : Directory) (items : List PendingItem)
    → ArePresent files items
    → ArePresent ((k, content) ∷ files) items
unfolding lookup
ArePresent-∷ k content files [] p = tt
ArePresent-∷ k content files (item ∷ items) ((body, here), p) = (
  if_both (λ (found : Option Bytes). (b : Bytes) × (found ≡ some b)) (name_eq k (json item.id)) _ _
      (content, refl) (body, here),
  ArePresent-∷ k content files items p,
)

list_items-ArePresent : (files : Directory) → ArePresent files (list_items files)
unfolding lookup
list_items-ArePresent [] = tt
list_items-ArePresent ((json id, body) ∷ files) = (
  (body, ground (arith, name_eq_iff (json id) (json id))),
  ArePresent-∷ (json id) body files (list_items files) (list_items-ArePresent files),
)
list_items-ArePresent ((tmp id, body) ∷ files) =
    ArePresent-∷ (tmp id) body files (list_items files) (list_items-ArePresent files)
list_items-ArePresent ((other name, body) ∷ files) =
    ArePresent-∷ (other name) body files (list_items files) (list_items-ArePresent files)

list_items-IsListed :
    (id : Bytes) (files : Directory)
    → (lookup (json id) files ≡ none) ⊎ IsListed id (list_items files)
unfolding lookup
list_items-IsListed id [] = inl refl
list_items-IsListed id ((json name, body) ∷ files) =
    elim (Bool-cases (name_eq (json name) (json id))) [
      | inl same ↦ inr (inl (same_id name id same))
      | inr differ ↦ elim (list_items-IsListed id files) [
        | inl gone ↦ inl (ground arith)
        | inr listed ↦ inr (inr listed)
      ]
    ]
list_items-IsListed id ((tmp name, body) ∷ files) = elim (list_items-IsListed id files) [
  | inl gone ↦ inl (ground arith)
  | inr listed ↦ inr listed
]
list_items-IsListed id ((other name, body) ∷ files) = elim (list_items-IsListed id files) [
  | inl gone ↦ inl (ground arith)
  | inr listed ↦ inr listed
]

pub pending-Lists : (spool : DurableSpool) → IsUnique spool.root → Lists spool.root (pending spool)
unfolding pending
pending-Lists spool u =
    let items = list_items spool.root in
    record {
      named = sort_items-AreNamed items (list_items-AreNamed spool.root);
      distinct = sort_items-AreDistinct items (list_items-AreDistinct spool.root u);
      present = sort_items-ArePresent spool.root items (list_items-ArePresent spool.root);
      complete = λ id. elim (list_items-IsListed id spool.root) [
        | inl gone ↦ inl gone
        | inr listed ↦ inr (sort_items-IsListed id items listed)
      ];
    }

-- Where each name stands once in the root, `pending` lists each batch there once, under its name and
-- path, lists nothing else, and lists them in the order of their names.
pub pending-IsListing :
    (spool : DurableSpool)
    → IsUnique spool.root
    → IsSorted (pending spool) × Lists spool.root (pending spool)
pending-IsListing spool u = ((pending-IsSorted spool).0, pending-Lists spool u)
