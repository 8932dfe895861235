-- ===== src/Outpost/Deliver/Emptied.antt =====
-- A delivery pass of crates/outpost/src/lib.rs to a destination that takes every batch.
use mongodb_dam.Common.{
  ℕ, ◌+◌, ◌≡◌, inl, inr, refl, sym, subst, ap, ◌∙◌, arith, true, none, some, Bytes, List, [], ◌∷◌,
  length,
}
use mongodb_dam.Common.Outcome.{ok, ◌>>=◌, ok_or}
use mongodb_dam.Spool.Files.{FileName, json, Directory, lookup, remove}
use mongodb_dam.Spool.Files.Laws.{IsUnique, lookup-remove}
use mongodb_dam.Spool.Store.{
  DurableSpool, PendingItem, io, remove_found, with_root, acknowledge, read, pending,
}
use mongodb_dam.Outpost.State.{Platform, AppState, DestinationConfig}
use mongodb_dam.Outpost.Deliver.{
  DestinationClient, Delivered, spool_step, settle_item, count_delivered, deliver, parse_body,
  parse_read, load, answer_for, deliver_item, go_on, deliver_items, deliver_pending,
}
use mongodb_dam.Outpost.Deliver.Receiver.{deliver_accepted}
use mongodb_dam.Outpost.Deliver.Kept.{IsTaken}
use mongodb_dam.Outpost.Deliver.Listed.{Lists, Lists-remove}
use mongodb_dam.Outpost.Deliver.Pending.{pending-Lists}

module _ (S : Platform) (destination : DestinationConfig) (client : DestinationClient) where
  acknowledge_present :
      (spool : DurableSpool) (item : PendingItem) (body : Bytes)
      → item.path ≡ json item.id
      → lookup (json item.id) spool.root ≡ some body
      → acknowledge spool item ≡ (ok tt, with_root spool (remove (json item.id) spool.root))
  unfolding acknowledge
  acknowledge_present spool item body named here =
      subst
        (λ (path : FileName).
          remove_found spool (record item { path = path }) (lookup path spool.root)
          ≡ (ok tt, with_root spool (remove (json item.id) spool.root)))
        (sym named) (rw here refl)

  load_present :
      (spool : DurableSpool) (item : PendingItem) (body : Bytes)
      → item.path ≡ json item.id
      → lookup (json item.id) spool.root ≡ some body
      → (t : IsTaken S destination client body) → load S spool item ≡ ok (t.batch, body)
  unfolding load read parse_read parse_body
  load_present spool item body named here t =
      subst
        (λ (path : FileName).
          parse_read S item (ok_or (lookup path spool.root) io) ≡ ok (t.batch, body))
        (sym named) (rw (here, t.parsed) refl)

  -- An item whose batch is taken leaves the spool, and counts.
  deliver_item-taken :
      (state : AppState) (item : PendingItem) (body : Bytes)
      → state.config.destination ≡ destination
      → item.path ≡ json item.id
      → lookup (json item.id) state.spool.root ≡ some body
      → IsTaken S destination client body
      → deliver_item S client state item ≡ (
        ok tt,
        count_delivered (record state {
          spool = with_root state.spool (remove (json item.id) state.spool.root);
        }),
      )
  unfolding deliver_item settle_item spool_step
  deliver_item-taken state item body same named here t =
      let answered : (load S state.spool item >>= answer_for S state.config.destination client)
          ≡ ok true =
        subst (λ o. (o >>= answer_for S state.config.destination client) ≡ ok true)
          (sym (load_present state.spool item body named here t))
          (subst (λ d. deliver S d client t.batch body ≡ ok true) (sym same)
            (deliver_accepted S destination client t.batch body t.taken)) in
      ap (λ o. settle_item state item o) answered
      ∙ ap (λ r. spool_step count_delivered state r)
          (acknowledge_present state.spool item body named here)

  -- The pass returns, the root is empty of batches, and each of them is counted as delivered.
  pub record IsEmptied (count : ℕ) (state : AppState) (r : Delivered) : Type 0 where
    pub returned : r.0 ≡ ok tt
    pub emptied : (id : Bytes) → lookup (json id) r.1.spool.root ≡ none
    pub counted : r.1.metrics.delivered_batches ≡ state.metrics.delivered_batches + count

  abbrev pub TakesAll : Directory → Type 0
  TakesAll root =
      (id body : Bytes) → lookup (json id) root ≡ some body → IsTaken S destination client body

  TakesAll-remove :
      (id : Bytes) (root : Directory) → TakesAll root → TakesAll (remove (json id) root)
  TakesAll-remove id root takes name body h =
      takes name body (ground (arith, lookup-remove (json id) (json name) root))

  deliver_items-IsEmptied :
      (state : AppState) (items : List PendingItem)
      → state.config.destination ≡ destination
      → Lists state.spool.root items
      → TakesAll state.spool.root
      → IsEmptied (length items) state (deliver_items S client state items)
  unfolding deliver_items
  deliver_items-IsEmptied state [] same l takes = record {
    returned = refl;
    emptied = λ id. elim (l.complete id) [ inl gone ↦ gone | inr never ↦ absurd never ];
    counted = omega arith;
  }
  deliver_items-IsEmptied state (item ∷ items) same l takes =
      let (body, here) = l.present.0 in
      let next : AppState =
        count_delivered (record state {
          spool = with_root state.spool (remove (json item.id) state.spool.root);
        }) in
      let rest =
        deliver_items-IsEmptied next items same (Lists-remove state.spool.root item items l)
          (TakesAll-remove item.id state.spool.root takes) in
      subst
        (λ r.
          IsEmptied (length (item ∷ items)) state (go_on S (λ s. deliver_items S client s items) r))
        (sym (deliver_item-taken state item body same l.named.0 here (takes item.id body here)))
        (unfold go_on in
          record {
            returned = rest.returned;
            emptied = rest.emptied;
            counted = omega (arith, rest.counted);
          })

  -- Where the destination takes each batch that waits, a pass over a root with one file for each name
  -- returns `Ok` and leaves no batch waiting, and each is counted as delivered.
  pub deliver_pending-IsEmptied :
      (state : AppState)
      → state.config.destination ≡ destination
      → IsUnique state.spool.root
      → TakesAll state.spool.root
      → IsEmptied (length (pending state.spool)) state (deliver_pending S client state)
  unfolding deliver_pending
  deliver_pending-IsEmptied state same u takes =
      deliver_items-IsEmptied state (pending state.spool) same (pending-Lists state.spool u) takes
