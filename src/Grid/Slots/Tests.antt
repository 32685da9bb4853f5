-- ===== src/Grid/Slots/Tests.antt =====
-- The slot manager on decimals that count tenths.
use opensqt_market_maker.Common.{◌≡◌, ◌≢◌, refl, none, some, List, [], ◌∷◌, String, arith}
use opensqt_market_maker.Common.Int.{pos}
use opensqt_market_maker.Common.Assoc.{lookup, insert, string_eq, int_eq}
use opensqt_market_maker.Num.Fixed.{fixed, fixed-HasText, show_ℤ, read_ℤ, marks, count_marks}
use opensqt_market_maker.Pb.{InventorySlot, Order, OrderUpdate}
use opensqt_market_maker.Pb.Enums.{buy, new, filled, free, locked, limit}
use opensqt_market_maker.Pb.Convert.{to_go_decimal}
use opensqt_market_maker.Grid.Slots.{
  SlotManager, new_slot_manager, created_slot, on_order_update, sync_orders, restore_state,
  restore_slots, restore_slot, find_slot, dispatch_update, handle_filled, reset_slot_locked,
  notify_update,
}
use opensqt_market_maker.Position.State.{insert_client}
use opensqt_market_maker.Grid.Slots.Orders.{sync_orders_strands}
use opensqt_market_maker.Grid.Slots.Invariant.{IsConsistent}
use opensqt_market_maker.Grid.Slots.Reach.{
  Reach, here, next, updates, restores, IsKeyed, Reach_new-IsConsistent,
}

-- The order 7 is open at 0.5.
abbrev slot : InventorySlot
slot = record (created_slot fixed (pos 5)) {
  price = some "+11111";
  order_id = pos 7;
  client_oid = "c7";
  order_side = buy;
  slot_status = locked;
}

abbrev start : SlotManager
start = new_slot_manager "BTCUSDT" (pos 1) (λ _. slot)

abbrev manager : SlotManager
manager = record start {
  fresh = 1;
  slots = ("+11111", 0) ∷ [];
  order_map = (pos 7, 0) ∷ [];
  client_omap = ("c7", 0) ∷ [];
  total_slots = 1;
}

-- An order that is open at 0.1, where there is no slot.
abbrev other_order : Order
other_order = record {
  order_id = pos 8;
  client_order_id = "c8";
  symbol = "BTCUSDT";
  side = buy;
  type = limit;
  price = some "+1";
  quantity = some "+1";
  executed_qty = none;
  status = new;
  created_at = pos 0;
}

sync_orders_strands_example :
    let m' = sync_orders fixed (other_order ∷ []) manager in
    (m'.store 0 ≡ slot) × (lookup (pos 7) m'.order_map ≢ some 0)
unfolding lookup new_slot_manager to_go_decimal show_ℤ read_ℤ marks count_marks
sync_orders_strands_example =
    sync_orders_strands fixed (other_order ∷ []) 0 (pos 7) manager (ground arith, tt)

-- The order is filled after its slot has been restored into a new manager.
abbrev fill : OrderUpdate
fill = record {
  order_id = pos 7;
  client_order_id = "c7";
  symbol = "BTCUSDT";
  side = buy;
  status = filled;
  price = some "+11111";
  executed_qty = some "+11";
}

abbrev snapshot : List (String × InventorySlot)
snapshot = ("+11111", slot) ∷ []

snapshot-IsKeyed : IsKeyed fixed snapshot
unfolding to_go_decimal show_ℤ read_ℤ marks count_marks
snapshot-IsKeyed = (refl, tt)

abbrev history : Reach fixed start (on_order_update fixed fill (restore_state snapshot start)).0
history =
    next (next here (restores snapshot start snapshot-IsKeyed (tt, tt)))
      (updates fill (restore_state snapshot start))

Reach_new-IsConsistent_example :
    IsConsistent fixed (on_order_update fixed fill (restore_state snapshot start)).0
Reach_new-IsConsistent_example =
    Reach_new-IsConsistent fixed fixed-HasText "BTCUSDT" (pos 1) (λ _. slot) history

-- The restored slot holds what was bought, and is free.
restored_and_filled :
    let m' = (on_order_update fixed fill (restore_state snapshot start)).0 in
    (((m'.store 0).slot_status) ≡ free) × ((m'.store 0).position_qty ≡ some "+11")
unfolding on_order_update find_slot dispatch_update handle_filled reset_slot_locked notify_update
    restore_state restore_slots restore_slot new_slot_manager lookup insert insert_client
restored_and_filled = (refl, refl)
