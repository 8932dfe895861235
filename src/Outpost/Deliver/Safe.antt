-- ===== src/Outpost/Deliver/Safe.antt =====
-- A delivery pass of crates/outpost/src/lib.rs loses no batch.
use mongodb_dam.Common.{
  ◌≡◌, refl, sym, subst, ap, ◌∙◌, Bool, true, false, some, Bytes, List, [], ◌∷◌,
}
use mongodb_dam.Common.Outcome.{Outcome, ok, err, panic, spent, ◌>>=◌}
use mongodb_dam.Spool.Digest.{Digest}
use mongodb_dam.Spool.Files.{json, lookup}
use mongodb_dam.Spool.Store.{
  DurableSpool, PendingItem, SpoolError, acknowledge, quarantine, pending, sort_items, list_items,
}
use mongodb_dam.Spool.Store.Invariant.{IsValid, acknowledge-IsValid, quarantine-IsValid}
use mongodb_dam.Outpost.State.{Platform, AppState, DestinationConfig}
use mongodb_dam.Outpost.Deliver.{
  DeliveryError, DestinationClient, Delivered, spool_step, settle_item, count_delivered,
  count_quarantined, load, answer_for, deliver_item, go_on, deliver_items, deliver_pending,
}
use mongodb_dam.Outpost.Deliver.Kept.{
  IsTaken, IsKept, IsKept-refl, IsKept-trans, acknowledge-IsKept, quarantine-IsKept,
}
use mongodb_dam.Outpost.Deliver.Items.{
  delivered-IsTaken, AreNamed, sort_items-AreNamed, list_items-AreNamed,
}

module _ (S : Platform) (destination : DestinationConfig) (client : DestinationClient)
    (D : Digest) where
  -- The spool behind a step is in order, and nothing is lost.
  pub record Safe (before after : DurableSpool) : Type 0 where
    pub kept : IsKept S destination client before after
    pub valid : IsValid D after

  spool_step-spool :
      (count : AppState → AppState) (state : AppState)
      (r : Outcome SpoolError (Unit {0}) × DurableSpool)
      → ((s : AppState) → (count s).spool ≡ s.spool)
      → (spool_step count state r).1.spool ≡ r.1
  unfolding spool_step
  spool_step-spool count state (ok _, spool) same = same (record state { spool = spool })
  spool_step-spool count state (err e, spool) same = refl
  spool_step-spool count state (panic, spool) same = refl
  spool_step-spool count state (spent, spool) same = refl

  settle_item-Safe :
      (state : AppState) (item : PendingItem) (o : Outcome DeliveryError Bool)
      → IsValid D state.spool
      → item.path ≡ json item.id
      → (o ≡ ok true
          → (body : Bytes) → lookup item.path state.spool.root ≡ some body
          → IsTaken S destination client body)
      → Safe state.spool (settle_item state item o).1.spool
  unfolding settle_item
  settle_item-Safe state item (ok true) v named t =
      rw (spool_step-spool count_delivered state (acknowledge state.spool item) (λ _. refl))
        (record {
          kept = acknowledge-IsKept S destination client state.spool item (t refl);
          valid = acknowledge-IsValid D state.spool item v;
        })
  settle_item-Safe state item (ok false) v named t =
      rw (spool_step-spool count_quarantined state (quarantine state.spool item) (λ _. refl))
        (record {
          kept = quarantine-IsKept S destination client D state.spool item v named;
          valid = quarantine-IsValid D state.spool item named v;
        })
  settle_item-Safe state item (err e) v named t = record {
    kept = IsKept-refl S destination client state.spool;
    valid = v;
  }
  settle_item-Safe state item panic v named t = record {
    kept = IsKept-refl S destination client state.spool;
    valid = v;
  }
  settle_item-Safe state item spent v named t = record {
    kept = IsKept-refl S destination client state.spool;
    valid = v;
  }

  deliver_item-Safe :
      (state : AppState) (item : PendingItem)
      → state.config.destination ≡ destination
      → IsValid D state.spool
      → item.path ≡ json item.id
      → Safe state.spool (deliver_item S client state item).1.spool
  unfolding deliver_item
  deliver_item-Safe state item same v named =
      subst
        (λ target.
          Safe state.spool
            (settle_item state item
              (load S state.spool item >>= answer_for S target client)).1.spool)
        (sym same)
        (settle_item-Safe state item (load S state.spool item >>= answer_for S destination client) v
          named (delivered-IsTaken S destination client state.spool item))

  spool_step-config :
      (count : AppState → AppState) (state : AppState)
      (r : Outcome SpoolError (Unit {0}) × DurableSpool)
      → ((s : AppState) → (count s).config ≡ s.config)
      → (spool_step count state r).1.config ≡ state.config
  unfolding spool_step
  spool_step-config count state (ok _, spool) same = same (record state { spool = spool })
  spool_step-config count state (err e, spool) same = refl
  spool_step-config count state (panic, spool) same = refl
  spool_step-config count state (spent, spool) same = refl

  settle_item-config :
      (state : AppState) (item : PendingItem) (o : Outcome DeliveryError Bool)
      → (settle_item state item o).1.config ≡ state.config
  unfolding settle_item
  settle_item-config state item (ok true) = spool_step-config count_delivered state _ (λ _. refl)
  settle_item-config state item (ok false) = spool_step-config count_quarantined state _ (λ _. refl)
  settle_item-config state item (err e) = refl
  settle_item-config state item panic = refl
  settle_item-config state item spent = refl

  -- The rest of a pass is safe, where a step was.
  go_on-Safe :
      (before : DurableSpool) (rest : AppState → Delivered) (r : Delivered)
      → Safe before r.1.spool
      → (IsValid D r.1.spool → Safe r.1.spool (rest r.1).1.spool)
      → Safe before (go_on S rest r).1.spool
  unfolding go_on
  go_on-Safe before rest (ok _, state) s k =
      let more = k s.valid in
      record {
        kept =
            IsKept-trans S destination client before state.spool (rest state).1.spool s.kept
              more.kept;
        valid = more.valid;
      }
  go_on-Safe before rest (err e, state) s k = s
  go_on-Safe before rest (panic, state) s k = s
  go_on-Safe before rest (spent, state) s k = s

  deliver_items-Safe :
      (state : AppState) (items : List PendingItem)
      → state.config.destination ≡ destination
      → IsValid D state.spool
      → AreNamed items
      → Safe state.spool (deliver_items S client state items).1.spool
  unfolding deliver_items
  deliver_items-Safe state [] same v named = record {
    kept = IsKept-refl S destination client state.spool;
    valid = v;
  }
  deliver_items-Safe state (item ∷ items) same v (n, named) =
      let r = deliver_item S client state item in
      let configured : r.1.config ≡ state.config =
        unfold deliver_item in settle_item-config state item _ in
      go_on-Safe state.spool (λ state'. deliver_items S client state' items) r
        (deliver_item-Safe state item same v n)
        (λ w. deliver_items-Safe r.1 items (ap (λ c. c.destination) configured ∙ same) w named)

  -- In a pass over a spool in good order, each batch that waits still waits afterwards, is set
  -- aside in the quarantine, or was taken: the receiver answered the request with it by a status from
  -- 200 to 299 or by 409, or its object was put into the bucket. What was in the quarantine stays
  -- there, and the spool is in good order. This holds of a pass that an error ends, too.
  pub deliver_pending-Safe :
      (state : AppState)
      → state.config.destination ≡ destination
      → IsValid D state.spool
      → Safe state.spool (deliver_pending S client state).1.spool
  unfolding deliver_pending pending
  deliver_pending-Safe state same v =
      deliver_items-Safe state (sort_items (list_items state.spool.root)) same v
        (sort_items-AreNamed (list_items state.spool.root) (list_items-AreNamed state.spool.root))
