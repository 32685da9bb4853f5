-- ===== src/Position/Updates.antt =====
-- market_maker/internal/trading/position/manager.go: order updates. OnOrderUpdate with its handlers,
-- and cleanupProcessedUpdates. `now` is the clock in nanoseconds.
pub mod Replay
pub mod LateAck
pub mod Partial
use opensqt_market_maker.Common.{
  ℕ, Bool, true, false, ◌&&◌, Option, none, some, List, [], ◌∷◌, if◌then◌else◌,
}
use opensqt_market_maker.Common.Int.{ℤ, pos, ◌-ℤ◌, ltb_ℤ, eqb_ℤ}
use opensqt_market_maker.Common.Assoc.{lookup, insert, delete, string_eq, int_eq}
use opensqt_market_maker.Num.{Num, equal, less_than}
use opensqt_market_maker.Pb.{InventorySlot, OrderUpdate}
use opensqt_market_maker.Pb.Enums.{
  OrderStatus, side_unspecified, is_buy, is_sell, side_name, new, filled, partially_filled,
  canceled, is_new, free, is_free, empty, position_filled, is_empty, is_position_filled,
}
use opensqt_market_maker.Pb.Convert.{to_go_decimal, from_go_decimal}
use opensqt_market_maker.Position.State.{
  SuperPositionManager, SpmError, slot_not_found, Fill, PositionSnapshotData, PositionUpdate,
  UpdateKey, key_eq, write, push_history, five_minutes, is_blank, notify_update, delete_client,
}

-- time.Since(lastSeen) < 5*time.Minute
abbrev pub seen_recently : ℤ → UpdateKey → List (UpdateKey × ℤ) → Bool
seen_recently now key processed = elim (lookup key processed) [
  | none ↦ false
  | some seen ↦ ltb_ℤ (now -ℤ seen) (pos five_minutes)
]

abbrev pub update_key : OrderUpdate → UpdateKey
update_key u = (u.order_id, u.status)

module _ (n : Num) where
  open n use {D, zero}

  -- spm.orderMap[update.OrderId], else spm.clientOMap[update.ClientOrderId].
  unfoldable pub find_slot : OrderUpdate → SuperPositionManager D → Option ℕ
  find_slot u m = elim (lookup u.order_id m.order_map) [
    | some r ↦ some r
    | none ↦ if is_blank u.client_order_id then none else lookup u.client_order_id m.client_omap
  ]

  -- A slot whose order is gone.
  abbrev pub released : InventorySlot → InventorySlot
  released s = record s {
    order_id = pos 0;
    order_status = new;
    order_price = from_go_decimal n zero;
    client_oid = "";
    order_side = side_unspecified;
    slot_status = free;
  }

  abbrev pub filled_slot : InventorySlot → OrderUpdate → InventorySlot
  filled_slot s u = record (released s) {
    position_status = if is_buy s.order_side then position_filled else empty;
    position_qty = if is_buy s.order_side then u.executed_qty else from_go_decimal n zero;
    order_filled_qty = u.executed_qty;
    post_only_fail_count = pos 0;
  }

  -- Both handlers take the update's identifiers out of the indexes, and remember the update.
  abbrev pub release_order :
      ℤ → OrderUpdate → ℕ → InventorySlot → SuperPositionManager D → SuperPositionManager D
  release_order now u r s m = record m {
    store = write r s m.store;
    order_map = delete u.order_id m.order_map;
    client_omap = delete_client u.client_order_id m.client_omap;
    processed_updates = insert (update_key u) now m.processed_updates;
  }

  fill_of : ℤ → OrderUpdate → SuperPositionManager D → Fill
  fill_of now u m = record {
    fill_id = (u.order_id, now);
    order_id = u.order_id;
    symbol = m.config.symbol;
    side = side_name u.side;
    quantity = u.executed_qty;
    price = u.price;
    filled_at = now;
  }

  snapshot_of : ℤ → InventorySlot → SuperPositionManager D → PositionSnapshotData
  snapshot_of now s m = record {
    symbol = m.config.symbol;
    quantity = s.position_qty;
    entry_price = s.price;
    market_price = from_go_decimal n m.anchor_price;
    unrealized_pnl = from_go_decimal n zero;
    timestamp = now;
  }

  position_update_of : OrderUpdate → InventorySlot → SuperPositionManager D → PositionUpdate
  position_update_of u s m = record {
    symbol = m.config.symbol;
    exchange = m.config.exchange_name;
    quantity = from_go_decimal n (to_go_decimal n s.position_qty);
    current_price = from_go_decimal n m.anchor_price;
    trigger_order_id = u.order_id;
    trigger_status = u.status;
  }

  -- What handleOrderFilledLocked does with a fill that is no duplicate.
  unfoldable pub process_fill :
      ℤ → OrderUpdate → ℕ → SuperPositionManager D → SuperPositionManager D
  unfolding fill_of snapshot_of position_update_of notify_update
  process_fill now u r m =
      let s = filled_slot (m.store r) u in
      let m' = release_order now u r s m in
      notify_update n (position_update_of u s m) (record m' {
        fills = push_history (fill_of now u m) m.fills;
        position_history = push_history (snapshot_of now s m) m.position_history;
      })

  -- The first check for duplicates: the slot shows this fill already.
  unfoldable pub fill_applied : InventorySlot → OrderUpdate → Bool
  fill_applied s u =
      eqb_ℤ s.order_id (pos 0)
      && is_free s.slot_status
      && equal n (to_go_decimal n s.order_filled_qty) (to_go_decimal n u.executed_qty)
      && (if is_sell u.side
          then is_empty s.position_status
          else is_position_filled s.position_status)

  unfoldable pub handle_order_filled :
      ℤ → OrderUpdate → ℕ → SuperPositionManager D → SuperPositionManager D
  unfolding fill_applied
  handle_order_filled now u r m =
      if fill_applied (m.store r) u
      then m
      else if seen_recently now (update_key u) m.processed_updates
      then m
      else process_fill now u r m

  unfoldable pub handle_order_partial_fill :
      OrderUpdate → ℕ → SuperPositionManager D → SuperPositionManager D
  handle_order_partial_fill u r m =
      let current = to_go_decimal n (m.store r).order_filled_qty in
      let update = to_go_decimal n u.executed_qty in
      if equal n current update then m else if less_than n update current then m else record m {
        store = write r (record (m.store r) { order_filled_qty = u.executed_qty }) m.store;
      }

  unfoldable pub already_free : InventorySlot → Bool
  already_free s = eqb_ℤ s.order_id (pos 0) && is_free s.slot_status && is_new s.order_status

  unfoldable pub handle_order_canceled :
      ℤ → OrderUpdate → ℕ → SuperPositionManager D → SuperPositionManager D
  unfolding already_free
  handle_order_canceled now u r m =
      if already_free (m.store r)
      then m
      else if seen_recently now (update_key u) m.processed_updates
      then m
      else release_order now u r (released (m.store r)) m

  -- The switch of OnOrderUpdate; handleOrderRejected is empty.
  unfoldable pub dispatch_update :
      OrderStatus → ℤ → OrderUpdate → ℕ → SuperPositionManager D → SuperPositionManager D
  unfolding handle_order_filled handle_order_partial_fill handle_order_canceled
  dispatch_update filled now u r m = handle_order_filled now u r m
  dispatch_update partially_filled now u r m = handle_order_partial_fill u r m
  dispatch_update canceled now u r m = handle_order_canceled now u r m
  dispatch_update _ now u r m = m

  unfoldable pub on_order_update :
      ℤ → OrderUpdate → SuperPositionManager D → SuperPositionManager D × Option SpmError
  unfolding find_slot
  on_order_update now u m = elim (find_slot u m) [
    | none ↦ (m, some slot_not_found)
    | some r ↦ (dispatch_update u.status now u r m, none)
  ]

  -- One round of cleanupProcessedUpdates: entries older than five minutes go.
  unfoldable pub keep_recent : ℤ → List (UpdateKey × ℤ) → List (UpdateKey × ℤ)
  keep_recent now [] = []
  keep_recent now ((key, seen) ∷ l) =
      let rest = keep_recent now l in
      if ltb_ℤ (pos five_minutes) (now -ℤ seen) then rest else (key, seen) ∷ rest

  unfoldable pub cleanup_processed_updates : ℤ → SuperPositionManager D → SuperPositionManager D
  unfolding keep_recent
  cleanup_processed_updates now m = record m {
    processed_updates = keep_recent now m.processed_updates;
  }
