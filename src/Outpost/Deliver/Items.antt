-- ===== src/Outpost/Deliver/Items.antt =====
-- The items that `pending` of crates/spool/src/lib.rs lists for a delivery pass, and what is loaded for
-- one of them.
use mongodb_dam.Common.{
  ◌≡◌, refl, sym, subst, if_both, true, Option, none, some, Bytes, List, [], ◌∷◌,
}
use mongodb_dam.Common.Outcome.{ok, ◌>>=◌, >>=-ok, ok_or}
use mongodb_dam.Schema.Types.{DamBatch}
use mongodb_dam.Spool.Files.{json, tmp, other, Directory, lookup}
use mongodb_dam.Spool.Store.{
  DurableSpool, PendingItem, io, read, insert_item, sort_items, list_items, bytes_le,
}
use mongodb_dam.Outpost.State.{Platform, DestinationConfig}
use mongodb_dam.Outpost.Deliver.{
  DestinationClient, deliver, parse_body, parse_read, load, answer_for,
}
use mongodb_dam.Outpost.Deliver.Receiver.{deliver-Accepts}
use mongodb_dam.Outpost.Deliver.Kept.{IsTaken}

module _ (S : Platform) (destination : DestinationConfig) (client : DestinationClient) where
  parse_body-IsParsed :
      (item : PendingItem) (content : Bytes) (o : Option (DamBatch S.Time S.Value))
      (batch : DamBatch S.Time S.Value) (body : Bytes)
      → parse_body S item content o ≡ ok (batch, body)
      → (content ≡ body) × (o ≡ some batch)
  unfolding parse_body
  parse_body-IsParsed item content none batch body h = cc
  parse_body-IsParsed item content (some b) batch body h = (cc, cc)

  -- What `load` returns was read at the path, and parses.
  pub load-IsRead :
      (spool : DurableSpool) (item : PendingItem) (batch : DamBatch S.Time S.Value)
      (body content : Bytes)
      → load S spool item ≡ ok (batch, body)
      → lookup item.path spool.root ≡ some content
      → (content ≡ body) × (S.batch_from_slice content ≡ some batch)
  unfolding load read parse_read
  load-IsRead spool item batch body content h found =
      parse_body-IsParsed item content (S.batch_from_slice content) batch body
        (subst (λ (o : Option Bytes). parse_read S item (ok_or o io) ≡ ok (batch, body)) found h)

  pub delivered-IsTaken :
      (spool : DurableSpool) (item : PendingItem)
      → (load S spool item >>= answer_for S destination client) ≡ ok true
      → (body : Bytes) → lookup item.path spool.root ≡ some body
      → IsTaken S destination client body
  delivered-IsTaken spool item answered body found =
      let ((batch, content), loaded, taken) =
        >>=-ok (answer_for S destination client) true (load S spool item) answered in
      let (same, parsed) = load-IsRead spool item batch content body loaded found in
      record {
        batch = batch;
        parsed = parsed;
        taken =
            deliver-Accepts S destination client batch body
              (subst (λ b. deliver S destination client batch b ≡ ok true) (sym same) taken);
      }

-- Every item of the list is one of the root.
abbrev pub AreNamed : List PendingItem → Type 0
AreNamed [] = Unit
AreNamed (item ∷ items) = (item.path ≡ json item.id) × AreNamed items

insert_item-AreNamed :
    (item : PendingItem) (items : List PendingItem)
    → item.path ≡ json item.id
    → AreNamed items
    → AreNamed (insert_item item items)
insert_item-AreNamed item [] n named = (n, tt)
insert_item-AreNamed item (next ∷ items) n (m, named) =
    if_both AreNamed (bytes_le item.id next.id) _ _ (n, (m, named))
      (m, insert_item-AreNamed item items n named)

pub sort_items-AreNamed : (items : List PendingItem) → AreNamed items → AreNamed (sort_items items)
sort_items-AreNamed [] named = tt
sort_items-AreNamed (item ∷ items) (n, named) =
    insert_item-AreNamed item (sort_items items) n (sort_items-AreNamed items named)

pub list_items-AreNamed : (files : Directory) → AreNamed (list_items files)
list_items-AreNamed [] = tt
list_items-AreNamed ((json id, body) ∷ files) = (refl, list_items-AreNamed files)
list_items-AreNamed ((tmp id, body) ∷ files) = list_items-AreNamed files
list_items-AreNamed ((other name, body) ∷ files) = list_items-AreNamed files
