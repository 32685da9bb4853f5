-- ===== src/Position/Slots.antt =====
-- market_maker/internal/trading/position/manager.go: the slots. Initialize, RestoreState,
-- getOrCreateSlotLocked, GetSnapshot, CancelAllBuyOrders, CancelAllSellOrders, UpdateOrderIndex.
pub mod Count
pub mod RoundTrip
use opensqt_market_maker.Common.{
  ℕ, suc, ◌+◌, Bool, true, false, not, ◌&&◌, Option, none, some, List, [], ◌∷◌, String, map,
  if◌then◌else◌, length,
}
use opensqt_market_maker.Common.Int.{ℤ, pos, ltb_ℤ, eqb_ℤ}
use opensqt_market_maker.Common.Assoc.{lookup, insert, string_eq, int_eq}
use opensqt_market_maker.Num.{Num}
use opensqt_market_maker.Pb.{InventorySlot, OrderAction, PbDecimal}
use opensqt_market_maker.Pb.Enums.{
  OrderSide, side_unspecified, buy, sell, is_buy, is_sell, new, free, empty, cancel,
}
use opensqt_market_maker.Pb.Convert.{to_go_decimal, from_go_decimal}
use opensqt_market_maker.TradingUtils.{round_price, calculate_price_levels}
use opensqt_market_maker.Position.State.{
  SuperPositionManager, SpmError, empty_state, Store, write, insert_client, is_margin_locked,
}

-- pb.PositionManagerSnapshot
pub record PositionManagerSnapshot : Type 0 where
  pub symbol : String
  pub slots : List (String × InventorySlot)
  pub anchor_price : PbDecimal
  pub total_slots : ℕ
  pub active_slots : ℕ
  pub margin_locked : Bool
  pub last_update_time : ℤ

-- The slots as GetSnapshot copies them.
abbrev pub view_slots : Store → List (String × ℕ) → List (String × InventorySlot)
view_slots store = map (λ e. (e.0, store e.1))

module _ (n : Num) where
  open n use {D, zero, neg, show}

  -- The slot that Initialize puts at a level.
  abbrev pub grid_slot : OrderSide → D → InventorySlot
  grid_slot side price = record {
    price = from_go_decimal n price;
    position_status = empty;
    position_qty = from_go_decimal n zero;
    order_id = pos 0;
    client_oid = "";
    order_side = side;
    order_status = new;
    order_price = from_go_decimal n zero;
    order_filled_qty = from_go_decimal n zero;
    slot_status = free;
    post_only_fail_count = pos 0;
  }

  -- The slot that getOrCreateSlotLocked makes; the fields that it does not name are nil.
  abbrev pub created_slot : D → InventorySlot
  created_slot price = record (grid_slot side_unspecified price) {
    order_price = none;
    order_filled_qty = none;
  }

  -- spm.slots[key] = slot, for a slot that has just been allocated.
  abbrev pub allocate : String → InventorySlot → SuperPositionManager D → SuperPositionManager D
  allocate key s m = record m {
    store = write m.fresh s m.store;
    fresh = suc m.fresh;
    slots = insert key m.fresh m.slots;
  }

  unfoldable pub place_level : OrderSide → D → SuperPositionManager D → SuperPositionManager D
  place_level side price m =
      let s = grid_slot side (round_price n price m.config.price_decimals) in
      let m' = allocate (show (to_go_decimal n s.price)) s m in
      record m' { total_slots = suc m.total_slots }

  unfoldable pub place_levels : OrderSide → List D → SuperPositionManager D → SuperPositionManager D
  place_levels side [] m = m
  place_levels side (price ∷ prices) m = place_levels side prices (place_level side price m)

  unfoldable pub initialize : D → SuperPositionManager D → SuperPositionManager D
  unfolding place_levels
  initialize anchor m =
      place_levels sell
        (calculate_price_levels n anchor m.config.price_interval m.config.sell_window_size)
        (place_levels buy
          (calculate_price_levels n anchor (neg m.config.price_interval) m.config.buy_window_size)
          (record m { anchor_price = anchor; slots = []; order_map = []; client_omap = [] }))

  unfoldable pub restore_slot :
      String → InventorySlot → SuperPositionManager D → SuperPositionManager D
  restore_slot key s m =
      let m' = allocate key s m in
      record m' {
        order_map =
            if eqb_ℤ s.order_id (pos 0) then m.order_map else insert s.order_id m.fresh m.order_map;
        client_omap = insert_client s.client_oid m.fresh m.client_omap;
      }

  unfoldable pub restore_slots :
      List (String × InventorySlot) → SuperPositionManager D → SuperPositionManager D
  restore_slots [] m = m
  restore_slots ((key, s) ∷ entries) m = restore_slots entries (restore_slot key s m)

  abbrev pub cleared : SuperPositionManager D → SuperPositionManager D
  cleared m = record m { slots = []; order_map = []; client_omap = [] }

  -- The entries of a Go map have distinct keys.
  unfoldable pub restore_state :
      List (String × InventorySlot)
      → SuperPositionManager D
      → SuperPositionManager D × Option SpmError
  unfolding restore_slots
  restore_state [] m = (m, some empty_state)
  restore_state (e ∷ entries) m =
      let m' = restore_slots (e ∷ entries) (cleared m) in
      (record m' { total_slots = length (e ∷ entries) }, none)

  unfoldable pub get_or_create_slot : D → SuperPositionManager D → ℕ × SuperPositionManager D
  get_or_create_slot price m =
      let rounded = round_price n price m.config.price_decimals in
      elim (lookup (show rounded) m.slots) [
        | some r ↦ (r, m)
        | none ↦
            let m' = allocate (show rounded) (created_slot rounded) m in
            (m.fresh, record m' { total_slots = suc m.total_slots })
      ]

  unfoldable pub get_snapshot : ℤ → SuperPositionManager D → PositionManagerSnapshot
  get_snapshot now m = record {
    symbol = m.config.symbol;
    slots = view_slots m.store m.slots;
    anchor_price = from_go_decimal n m.anchor_price;
    total_slots = m.total_slots;
    active_slots = m.active_slots;
    margin_locked = is_margin_locked n now m;
    last_update_time = now;
  }

  unfoldable pub create_reconciliation_snapshot :
      SuperPositionManager D → List (String × InventorySlot)
  create_reconciliation_snapshot m = view_slots m.store m.slots

  cancel_action : String → InventorySlot → OrderAction
  cancel_action symbol s = record {
    type = cancel;
    symbol = symbol;
    order_id = s.order_id;
    price = s.price;
    request = none;
  }

  -- The loop of CancelAllBuyOrders and CancelAllSellOrders.
  unfoldable pub cancel_orders :
      (OrderSide → Bool) → String → List (String × InventorySlot) → List OrderAction
  unfolding cancel_action
  cancel_orders side symbol [] = []
  cancel_orders side symbol ((k, s) ∷ entries) =
      let rest = cancel_orders side symbol entries in
      if side s.order_side && ltb_ℤ (pos 0) s.order_id then cancel_action symbol s ∷ rest else rest

  unfoldable pub cancel_all_buy_orders : SuperPositionManager D → List OrderAction
  unfolding cancel_orders
  cancel_all_buy_orders m = cancel_orders is_buy m.config.symbol (view_slots m.store m.slots)

  unfoldable pub cancel_all_sell_orders : SuperPositionManager D → List OrderAction
  unfolding cancel_orders
  cancel_all_sell_orders m = cancel_orders is_sell m.config.symbol (view_slots m.store m.slots)

  -- UpdateOrderIndex, of a slot that is given by its address.
  unfoldable pub update_order_index :
      ℤ → String → ℕ → SuperPositionManager D → SuperPositionManager D
  update_order_index order_id client_oid r m = record m {
    order_map = if eqb_ℤ order_id (pos 0) then m.order_map else insert order_id r m.order_map;
    client_omap = insert_client client_oid r m.client_omap;
  }
