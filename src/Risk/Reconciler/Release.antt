-- ===== src/Risk/Reconciler/Release.antt =====
-- What a pass of the reconciler does about an order that the exchange does not have.
use opensqt_market_maker.Common.{
  ℕ, ◌≡◌, refl, ap, true, false, some, List, [], ◌∷◌, String, arith, inl, inr, In,
}
use opensqt_market_maker.Common.Int.{ℤ}
use opensqt_market_maker.Common.Assoc.{lookup, int_eq, string_eq}
use opensqt_market_maker.Num.{Num}
use opensqt_market_maker.Pb.{InventorySlot, Order, Position}
use opensqt_market_maker.Pb.Convert.{to_go_decimal}
use opensqt_market_maker.Pb.Enums.{canceled, is_free, is_locked}
use opensqt_market_maker.Position.State.{SuperPositionManager, Store}
use opensqt_market_maker.Position.Slots.{view_slots, create_reconciliation_snapshot}
use opensqt_market_maker.Position.Updates.{seen_recently}
use opensqt_market_maker.Position.Sync.Status.{force_sync-status}
use opensqt_market_maker.Risk.Reconciler.{
  Reconciler, is_ghost, find_position, reconcile_orders, reconcile_positions, reconcile_state,
  reconcile, started, ended,
}
use opensqt_market_maker.Risk.Reconciler.Manager.{super_position_manager}
use opensqt_market_maker.Risk.Reconciler.Ghosts.{IsWaiting, report-frees}

In-view :
    (store : Store) (slots : List (String × ℕ)) (k : String) (a : ℕ)
    → In (k, a) slots
    → In (k, store a) (view_slots store slots)
In-view store [] k a h = absurd h
In-view store ((j, b) ∷ slots) k a (inl e) = inl (ap (λ x. (x.0, store x.1)) e)
In-view store ((j, b) ∷ slots) k a (inr h) = inr (In-view store slots k a h)

module _ (n : Num) where
  open n use {D}

  positions-status :
      (now : ℤ) (slots : List (String × InventorySlot)) (p : Position)
      (r : Reconciler D (SuperPositionManager D)) (a : ℕ)
      → ((reconcile_positions n (super_position_manager n) now slots p r).after.manager.store
          a).slot_status
        ≡ (r.manager.store a).slot_status
  unfolding reconcile_positions
  positions-status now slots p r a =
      ground (arith, force_sync-status n a (to_go_decimal n p.size) r.manager)

  ghost-locked :
      (orders : List Order) (s : InventorySlot)
      → is_ghost orders s ≡ true
      → is_locked s.slot_status ≡ true
  unfolding is_ghost
  ghost-locked orders s h = ground arith

  -- A pass that gets the exchange's state frees a slot that is locked for an order which is not
  -- open on the exchange, if the manager's index takes the order's number to the slot and no
  -- cancellation of the order was processed in the last five minutes.
  pub ghost_freed :
      (now done : ℤ) (orders : List Order) (positions : List Position)
      (r : Reconciler D (SuperPositionManager D)) (k : String) (a : ℕ)
      → In (k, a) r.manager.slots
      → is_ghost orders (r.manager.store a) ≡ true
      → lookup (r.manager.store a).order_id r.manager.order_map ≡ some a
      → seen_recently now ((r.manager.store a).order_id, canceled) r.manager.processed_updates
        ≡ false
      → let r' =
          (reconcile n
            (super_position_manager n)
            false
            now
            done
            (some orders)
            (some positions)
            r).0 in
        is_free (r'.manager.store a).slot_status ≡ true
  unfolding reconcile reconcile_state reconcile_orders create_reconciliation_snapshot started ended
  ghost_freed now done orders positions r k a i g l u =
      let slots = view_slots r.manager.store r.manager.slots in
      let waiting : IsWaiting n now (r.manager.store a).order_id a r.manager = record {
        indexed = l;
        slot_locked = ghost-locked orders (r.manager.store a) g;
        unseen = u;
      } in
      let freed =
        report-frees n now (r.manager.store a).order_id a r.symbol orders slots r.manager k
          (r.manager.store a) refl g (In-view r.manager.store r.manager.slots k a i)
          (inr waiting) in
      rw (positions-status now slots (find_position n r.symbol positions) _ a) freed
