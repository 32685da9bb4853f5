-- ===== src/Position/Results.antt =====
-- market_maker/internal/trading/position/manager.go: CalculateAdjustments and ApplyActionResults.
use opensqt_market_maker.Common.{ℕ, Option, none, some, List, [], ◌∷◌, String, if◌then◌else◌}
use opensqt_market_maker.Common.Int.{ℤ}
use opensqt_market_maker.Common.Assoc.{lookup, insert, delete, string_eq, int_eq}
use opensqt_market_maker.Num.{Num}
use opensqt_market_maker.Pb.{InventorySlot, Order, OrderAction, PlaceOrderRequest, PbDecimal}
use opensqt_market_maker.Pb.Enums.{
  side_unspecified, is_side_unspecified, OrderStatus, status_unspecified, new, free, pending,
  locked, is_place, is_cancel,
}
use opensqt_market_maker.Pb.Convert.{to_go_decimal, from_go_decimal}
use opensqt_market_maker.Position.State.{
  SuperPositionManager, SpmError, strategy_not_set, strategy_failed, write, push_history, is_blank,
  insert_client, delete_client, is_margin_locked,
}
use opensqt_market_maker.Position.Slots.{get_or_create_slot, view_slots}
use opensqt_market_maker.Position.Updates.{released}

-- core.OrderActionResult; an error is its text.
pub record OrderActionResult : Type 0 where
  pub action : OrderAction
  pub order : Option Order
  pub error : Option String

-- What CalculateAdjustments returns.
pub data Adjustments : Type 0 where
  adjust : List OrderAction → Adjustments
  failed : SpmError → Adjustments

module _ (n : Num) where
  open n use {D, zero, show}

  -- core.IStrategy.CalculateActions over the slots, the anchor and the price; an error is `none`.
  abbrev pub IStrategy : Type 0
  IStrategy = List (String × InventorySlot) → D → D → Option (List OrderAction)

  abbrev pub pending_slot : InventorySlot → PlaceOrderRequest → InventorySlot
  pending_slot s q = record s {
    slot_status = pending;
    order_price = q.price;
    order_side = q.side;
    client_oid = q.client_order_id;
  }

  -- The slot of a PLACE action waits for its order.
  unfoldable pub mark_request :
      Option PlaceOrderRequest → ℕ → SuperPositionManager D → SuperPositionManager D
  mark_request none r m = m
  mark_request (some q) r m = record m {
    store = write r (pending_slot (m.store r) q) m.store;
    client_omap = insert q.client_order_id r m.client_omap;
  }

  unfoldable pub mark_pending : OrderAction → SuperPositionManager D → SuperPositionManager D
  unfolding mark_request
  mark_pending a m =
      if is_place a.type
      then (let c = get_or_create_slot n (to_go_decimal n a.price) m in
          mark_request a.request c.0 c.1)
      else m

  unfoldable pub mark_all : List OrderAction → SuperPositionManager D → SuperPositionManager D
  mark_all [] m = m
  mark_all (a ∷ actions) m = mark_all actions (mark_pending a m)

  unfoldable pub adjust_by :
      Option (List OrderAction) → SuperPositionManager D → SuperPositionManager D × Adjustments
  unfolding mark_all
  adjust_by none m = (m, failed strategy_failed)
  adjust_by (some actions) m = (mark_all actions m, adjust actions)

  unfoldable pub calculate_adjustments :
      ℤ → Option IStrategy → D → SuperPositionManager D → SuperPositionManager D × Adjustments
  unfolding adjust_by
  calculate_adjustments now strategy new_price m =
      if is_margin_locked n now m then (m, adjust []) else elim strategy [
        | none ↦ (m, failed strategy_not_set)
        | some calculate_actions ↦
            adjust_by (calculate_actions (view_slots m.store m.slots) m.anchor_price new_price) m
      ]

  -- Phase 1 of ApplyActionResults: the slots that the results are for.
  unfoldable pub collect_updates :
      List OrderActionResult → List (String × ℕ) → List (ℕ × OrderActionResult)
  collect_updates [] slots = []
  collect_updates (res ∷ results) slots =
      let rest = collect_updates results slots in
      elim (lookup (show (to_go_decimal n res.action.price)) slots) [
        | none ↦ rest
        | some r ↦ (r, res) ∷ rest
      ]

  -- A PLACE that failed frees the slot that still waits for it.
  abbrev pub failed_slot : InventorySlot → InventorySlot
  failed_slot s = record s {
    slot_status = free;
    order_price = from_go_decimal n zero;
    client_oid = "";
    order_side = side_unspecified;
  }

  unfoldable pub apply_error :
      Option PlaceOrderRequest → ℕ → SuperPositionManager D → SuperPositionManager D
  apply_error none r m = m
  apply_error (some q) r m =
      if string_eq.beq (m.store r).client_oid q.client_order_id
      then record m {
        store = write r (failed_slot (m.store r)) m.store;
        client_omap = delete (m.store r).client_oid m.client_omap;
      }
      else m

  abbrev or_status : OrderStatus → OrderStatus
  or_status status_unspecified = new
  or_status s = s

  abbrev or_price : PbDecimal → PbDecimal → PbDecimal
  or_price none old = old
  or_price (some p) old = some p

  -- The order's fields, where it has them.
  abbrev pub locked_slot : InventorySlot → Order → InventorySlot
  locked_slot s o = record s {
    order_id = o.order_id;
    order_status = or_status o.status;
    slot_status = locked;
    order_price = or_price o.price s.order_price;
    order_side = if is_side_unspecified o.side then s.order_side else o.side;
    client_oid = if is_blank o.client_order_id then s.client_oid else o.client_order_id;
  }

  unfoldable pub apply_placed : Order → ℕ → SuperPositionManager D → SuperPositionManager D
  apply_placed o r m =
      let s = locked_slot (m.store r) o in
      record m {
        store = write r s m.store;
        order_map = insert o.order_id r m.order_map;
        client_omap = insert_client s.client_oid r m.client_omap;
        order_history = push_history o m.order_history;
      }

  unfoldable pub apply_canceled : ℤ → ℕ → SuperPositionManager D → SuperPositionManager D
  apply_canceled order_id r m = record m {
    store = write r (released n (m.store r)) m.store;
    order_map = delete order_id m.order_map;
    client_omap = delete_client (m.store r).client_oid m.client_omap;
  }

  -- A PLACE with no order falls through to the test for a CANCEL.
  unfoldable pub apply_success :
      OrderAction → Option Order → ℕ → SuperPositionManager D → SuperPositionManager D
  unfolding apply_placed apply_canceled
  apply_success a order r m =
      let other = if is_cancel a.type then apply_canceled a.order_id r m else m in
      if is_place a.type then elim order [ none ↦ other | some o ↦ apply_placed o r m ] else other

  -- Phase 2, for one slot.
  unfoldable pub apply_result :
      ℕ → OrderActionResult → SuperPositionManager D → SuperPositionManager D
  unfolding apply_error apply_success
  apply_result r res m = elim res.error [
    | some e ↦ if is_place res.action.type then apply_error res.action.request r m else m
    | none ↦ apply_success res.action res.order r m
  ]

  unfoldable pub apply_updates :
      List (ℕ × OrderActionResult) → SuperPositionManager D → SuperPositionManager D
  apply_updates [] m = m
  apply_updates ((r, res) ∷ updates) m = apply_updates updates (apply_result r res m)

  unfoldable pub apply_action_results :
      List OrderActionResult → SuperPositionManager D → SuperPositionManager D
  unfolding apply_updates collect_updates
  apply_action_results results m = apply_updates (collect_updates results m.slots) m
