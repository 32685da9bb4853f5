-- ===== src/Grid/Slots.antt =====
-- market_maker/internal/trading/grid/slot_manager.go: SlotManager. The maps hold the addresses of the
-- slots, as those of SuperPositionManager do. The methods that only return nil or do nothing
-- (Initialize, CalculateAdjustments, ForceSync, GetFills and the like) are left out.
pub mod Orders
pub mod Invariant
pub mod Preserved
pub mod Reach
mod Tests
use opensqt_market_maker.Common.{
  ℕ, suc, ◌+◌, Bool, true, false, not, ◌&&◌, Option, none, some, List, [], ◌∷◌, ◌++◌, String, map,
  if◌then◌else◌, length,
}
use opensqt_market_maker.Common.Int.{ℤ, pos, eqb_ℤ}
use opensqt_market_maker.Common.Assoc.{lookup, insert, delete, string_eq, int_eq}
use opensqt_market_maker.Num.{Num}
use opensqt_market_maker.Pb.{InventorySlot, Order, OrderAction, OrderUpdate, PbDecimal}
use opensqt_market_maker.Pb.Enums.{
  OrderSide, side_unspecified, is_buy, is_sell, OrderStatus, status_unspecified, new,
  partially_filled, filled, canceled, rejected, expired, free, locked, empty, position_filled,
  cancel, is_place,
}
use opensqt_market_maker.Pb.Convert.{to_go_decimal, from_go_decimal}
use opensqt_market_maker.Position.State.{Store, write, is_blank, insert_client, delete_client}
use opensqt_market_maker.Position.Results.{OrderActionResult}

pub record SlotManager : Type 0 where
  pub symbol : String
  pub price_decimals : ℤ
  pub store : Store
  pub fresh : ℕ  -- the first address that is not in use
  pub slots : List (String × ℕ)
  pub order_map : List (ℤ × ℕ)
  pub client_omap : List (String × ℕ)
  pub total_slots : ℕ
  pub update_callbacks : List ℕ
  pub published : List (ℕ × (String × PbDecimal))  -- the listener, the symbol and the quantity

pub data SlotError : Type 0 where
  slot_not_found : SlotError

-- NewSlotManager
unfoldable pub new_slot_manager : String → ℤ → Store → SlotManager
new_slot_manager symbol price_decimals store = record {
  symbol = symbol;
  price_decimals = price_decimals;
  store = store;
  fresh = 0;
  slots = [];
  order_map = [];
  client_omap = [];
  total_slots = 0;
  update_callbacks = [];
  published = [];
}

-- Both are the pointers, not copies: GetSlots and CreateReconciliationSnapshot, and the slots of
-- GetSnapshot.
abbrev pub get_slots : SlotManager → List (String × ℕ)
get_slots m = m.slots

abbrev pub get_slot_count : SlotManager → ℕ
get_slot_count m = m.total_slots

-- The slot of an order that is open on the exchange.
abbrev pub synced_slot : InventorySlot → Order → InventorySlot
synced_slot s o = record s {
  order_id = o.order_id;
  client_oid = o.client_order_id;
  slot_status = locked;
  order_status = o.status;
}

-- The slot whose order is gone.
abbrev pub reset_slot : InventorySlot → InventorySlot
reset_slot s = record s { order_id = pos 0; client_oid = ""; slot_status = free }

-- resetSlotLocked
unfoldable pub reset_slot_locked : ℕ → SlotManager → SlotManager
reset_slot_locked r m = record m {
  store = write r (reset_slot (m.store r)) m.store;
  order_map = delete (m.store r).order_id m.order_map;
  client_omap = delete_client (m.store r).client_oid m.client_omap;
}

-- notifyUpdate
unfoldable pub notify_update : PbDecimal → SlotManager → SlotManager
notify_update qty m = record m {
  published = m.published ++ map (λ cb. (cb, (m.symbol, qty))) m.update_callbacks;
}

unfoldable pub on_update : ℕ → SlotManager → SlotManager
on_update callback m = record m { update_callbacks = m.update_callbacks ++ callback ∷ [] }

unfoldable pub find_slot : OrderUpdate → SlotManager → Option ℕ
find_slot u m = elim (lookup u.order_id m.order_map) [
  | some r ↦ some r
  | none ↦ if is_blank u.client_order_id then none else lookup u.client_order_id m.client_omap
]

-- The body of RestoreState's loop: a new slot at an address of its own.
unfoldable pub restore_slot : String → InventorySlot → SlotManager → SlotManager
restore_slot k s m = record m {
  store = write m.fresh s m.store;
  fresh = suc m.fresh;
  slots = insert k m.fresh m.slots;
  order_map =
      if eqb_ℤ s.order_id (pos 0) then m.order_map else insert s.order_id m.fresh m.order_map;
  client_omap = insert_client s.client_oid m.fresh m.client_omap;
}

unfoldable pub restore_slots : List (String × InventorySlot) → SlotManager → SlotManager
restore_slots [] m = m
restore_slots ((k, s) ∷ slots) m = restore_slots slots (restore_slot k s m)

unfoldable pub restore_state : List (String × InventorySlot) → SlotManager → SlotManager
unfolding restore_slots
restore_state slots m =
    let m' = restore_slots slots (record m { slots = []; order_map = []; client_omap = [] }) in
    record m' { total_slots = length slots }

unfoldable pub update_order_index : ℤ → String → ℕ → SlotManager → SlotManager
update_order_index order_id client_oid r m = record m {
  order_map = if eqb_ℤ order_id (pos 0) then m.order_map else insert order_id r m.order_map;
  client_omap = insert_client client_oid r m.client_omap;
}

cancel_action : String → InventorySlot → OrderAction
cancel_action symbol s = record {
  type = cancel;
  symbol = symbol;
  order_id = s.order_id;
  price = s.price;
  request = none;
}

-- The loop of CancelAllBuyOrders and CancelAllSellOrders.
unfoldable pub cancel_orders :
    (OrderSide → Bool) → String → Store → List (String × ℕ) → List OrderAction
unfolding cancel_action
cancel_orders side symbol store [] = []
cancel_orders side symbol store ((k, r) ∷ slots) =
    let rest = cancel_orders side symbol store slots in
    if side (store r).order_side && not (eqb_ℤ (store r).order_id (pos 0))
    then cancel_action symbol (store r) ∷ rest
    else rest

unfoldable pub cancel_all_buy_orders : SlotManager → List OrderAction
unfolding cancel_orders
cancel_all_buy_orders m = cancel_orders is_buy m.symbol m.store m.slots

unfoldable pub cancel_all_sell_orders : SlotManager → List OrderAction
unfolding cancel_orders
cancel_all_sell_orders m = cancel_orders is_sell m.symbol m.store m.slots

module _ (n : Num) where
  open n use {D, zero, show}

  -- The body of SyncOrders' loop.
  unfoldable pub sync_order : Order → SlotManager → SlotManager
  sync_order o m = elim (lookup (show (to_go_decimal n o.price)) m.slots) [
    | none ↦ m
    | some r ↦ record m {
      store = write r (synced_slot (m.store r) o) m.store;
      order_map = insert o.order_id r m.order_map;
      client_omap = insert_client o.client_order_id r m.client_omap;
    }
  ]

  unfoldable pub sync_all : List Order → SlotManager → SlotManager
  sync_all [] m = m
  sync_all (o ∷ orders) m = sync_all orders (sync_order o m)

  unfoldable pub sync_orders : List Order → SlotManager → SlotManager
  sync_orders orders m = sync_all orders (record m { order_map = []; client_omap = [] })

  -- The position of a slot whose order is filled.
  abbrev pub position_of : InventorySlot → OrderUpdate → InventorySlot
  position_of s u = record s {
    position_status = if is_buy s.order_side then position_filled else empty;
    position_qty = if is_buy s.order_side then u.executed_qty else from_go_decimal n zero;
  }

  unfoldable pub handle_filled : OrderUpdate → ℕ → SlotManager → SlotManager
  unfolding reset_slot_locked notify_update
  handle_filled u r m =
      let s = position_of (m.store r) u in
      notify_update s.position_qty (reset_slot_locked r (record m { store = write r s m.store }))

  -- The switch on the status.
  unfoldable pub dispatch_update : OrderStatus → OrderUpdate → ℕ → SlotManager → SlotManager
  unfolding handle_filled reset_slot_locked
  dispatch_update filled u r m = handle_filled u r m
  dispatch_update canceled u r m = reset_slot_locked r m
  dispatch_update status_unspecified u r m = m
  dispatch_update new u r m = m
  dispatch_update partially_filled u r m = m
  dispatch_update rejected u r m = m
  dispatch_update expired u r m = m

  unfoldable pub on_order_update : OrderUpdate → SlotManager → SlotManager × Option SlotError
  on_order_update u m = elim (find_slot u m) [
    | none ↦ (m, some slot_not_found)
    | some r ↦ (dispatch_update u.status u r m, none)
  ]

  abbrev pub created_slot : D → InventorySlot
  created_slot price = record {
    price = from_go_decimal n price;
    position_status = empty;
    position_qty = from_go_decimal n zero;
    order_id = pos 0;
    client_oid = "";
    order_side = side_unspecified;
    order_status = status_unspecified;
    order_price = none;
    order_filled_qty = none;
    slot_status = free;
    post_only_fail_count = pos 0;
  }

  abbrev pub allocate : String → InventorySlot → SlotManager → SlotManager
  allocate key s m = record m {
    store = write m.fresh s m.store;
    fresh = suc m.fresh;
    slots = insert key m.fresh m.slots;
    total_slots = suc m.total_slots;
  }

  unfoldable pub get_or_create_slot : D → SlotManager → ℕ × SlotManager
  get_or_create_slot price m = elim (lookup (show price) m.slots) [
    | some r ↦ (r, m)
    | none ↦ (m.fresh, allocate (show price) (created_slot price) m)
  ]

  -- GetOrderIDForPrice
  unfoldable pub get_order_id_for_price : D → SlotManager → ℤ
  get_order_id_for_price price m = elim (lookup (show price) m.slots) [
    | some r ↦ (m.store r).order_id
    | none ↦ pos 0
  ]

  abbrev pub placed_slot : InventorySlot → Order → InventorySlot
  placed_slot s o = record s {
    order_id = o.order_id;
    client_oid = o.client_order_id;
    slot_status = locked;
    order_side = o.side;
    order_price = o.price;
    order_status = o.status;
  }

  -- The answer for the slot at `r`: an error frees it, whatever the action was.
  unfoldable pub apply_result : OrderActionResult → ℕ → SlotManager → SlotManager
  apply_result res r m = elim res.error [
    | some e ↦ record m { store = write r (record (m.store r) { slot_status = free }) m.store }
    | none ↦ elim res.order [
      | none ↦ m
      | some o ↦
          if is_place res.action.type
          then record m {
            store = write r (placed_slot (m.store r) o) m.store;
            order_map = insert o.order_id r m.order_map;
            client_omap = insert_client o.client_order_id r m.client_omap;
          }
          else m
    ]
  ]

  unfoldable pub apply_one : OrderActionResult → SlotManager → SlotManager
  apply_one res m =
      let c = get_or_create_slot (to_go_decimal n res.action.price) m in apply_result res c.0 c.1

  unfoldable pub apply_action_results : List OrderActionResult → SlotManager → SlotManager
  apply_action_results [] m = m
  apply_action_results (res ∷ results) m = apply_action_results results (apply_one res m)
