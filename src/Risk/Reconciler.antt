-- ===== src/Risk/Reconciler.antt =====
-- market_maker/internal/risk/reconciler.go. The answers of the exchange, the state of the risk
-- monitor and the clock are arguments; the position manager is an interface, which Manager fills
-- with SuperPositionManager.
pub mod Manager
pub mod Ghosts
pub mod Release
pub mod Sizes
mod Tests
use opensqt_market_maker.Common.{
  ℕ, ◌/◌, Bool, true, false, not, ◌&&◌, ◌||◌, Option, none, some, List, [], ◌∷◌, ◌++◌, String,
  if◌then◌else◌,
}
use opensqt_market_maker.Common.Int.{ℤ, pos, negsuc, eqb_ℤ}
use opensqt_market_maker.Common.Assoc.{string_eq}
use opensqt_market_maker.Num.{Num, less_than, equal, is_zero}
use opensqt_market_maker.Pb.{InventorySlot, Order, OrderUpdate, Position, ReconciliationResult}
use opensqt_market_maker.Pb.Enums.{side_unspecified, canceled, is_locked, is_position_filled}
use opensqt_market_maker.Pb.Convert.{to_go_decimal, from_go_decimal}
use opensqt_market_maker.Risk.CircuitBreaker.{CircuitBreaker, open_circuit}

-- What the reconciler calls of core.IPositionManager.
pub record IPositionManager (n : Num) : Type 1 where
  pub Manager : Type 0
  pub create_snapshot : Manager → List (String × InventorySlot)
  -- OnOrderUpdate, whose error is not looked at.
  pub apply_update : ℤ → OrderUpdate → Manager → Manager
  -- ForceSync, with whether it returns an error.
  pub sync_to : String → n.D → Manager → Manager × Bool

-- pb.GetReconciliationStatusResponse. The identifier is the text of a time in nanoseconds.
pub record ReconciliationStatus : Type 0 where
  pub reconciliation_id : ℤ
  pub status : String
  pub started_at : ℤ
  pub completed_at : ℤ
  pub results : List ReconciliationResult

-- The reconciler with the components that it changes: the manager, the breaker if it is set, and
-- the exchange, of which the CancelOrder calls are kept.
pub record Reconciler (D : Type 0) (M : Type 0) : Type 0 where
  pub symbol : String
  pub manager : M
  pub breaker : Option (CircuitBreaker D)
  pub cancel_calls : List ℤ
  pub last_result : ReconciliationStatus

-- t.Unix() of nanoseconds.
unfoldable pub unix : ℤ → ℤ
unix (pos a) = pos (a / 1000000000)
unix (negsuc a) = negsuc (a / 1000000000)

-- localOrderMap and exchangeOrderMap are asked for their keys only.
unfoldable pub has_local_order : ℤ → List (String × InventorySlot) → Bool
has_local_order id [] = false
has_local_order id ((k, s) ∷ slots) =
    not (eqb_ℤ s.order_id (pos 0)) && eqb_ℤ s.order_id id || has_local_order id slots

unfoldable pub has_exchange_order : ℤ → List Order → Bool
has_exchange_order id [] = false
has_exchange_order id (o ∷ orders) = eqb_ℤ o.order_id id || has_exchange_order id orders

-- A slot that waits for an order that the exchange does not have.
unfoldable pub is_ghost : List Order → InventorySlot → Bool
unfolding has_exchange_order
is_ghost orders s =
    is_locked s.slot_status
    && not (eqb_ℤ s.order_id (pos 0))
    && not (has_exchange_order s.order_id orders)

-- The update that reports a missing order as cancelled.
abbrev pub missing_update : String → InventorySlot → OrderUpdate
missing_update symbol s = record {
  order_id = s.order_id;
  client_order_id = "";
  symbol = symbol;
  side = side_unspecified;
  status = canceled;
  price = none;
  executed_qty = none;
}

-- The position of the symbol among those of the exchange, or an empty one.
unfoldable pub find_position : (n : Num) → String → List Position → Position
find_position n symbol [] = record {
  symbol = symbol;
  size = from_go_decimal n n.zero;
  mark_price = none;
  liquidation_price = none;
}
find_position n symbol (p ∷ positions) =
    if string_eq.beq p.symbol symbol then p else find_position n symbol positions

-- What reconcilePositions returns, with the components that it changes.
pub record Reconciled (D : Type 0) (M : Type 0) : Type 0 where
  pub after : Reconciler D M
  pub match : Bool
  pub local_size : D
  pub exchange_size : D
  pub corrected : Bool

-- The second loop: the orders for which CancelOrder is called. An error is only logged.
unfoldable pub unknown_orders : List (String × InventorySlot) → List Order → List ℤ
unfolding has_local_order
unknown_orders slots [] = []
unknown_orders slots (o ∷ orders) =
    if has_local_order o.order_id slots
    then unknown_orders slots orders
    else o.order_id ∷ unknown_orders slots orders

module _ {D M : Type 0} where
  -- The status at the start of a pass, and at its end.
  unfoldable pub started : ℤ → Reconciler D M → Reconciler D M
  started now r = record r {
    last_result = record r.last_result {
      reconciliation_id = now;
      status = "running";
      started_at = unix now;
      results = [];
    };
  }

  unfoldable pub ended : String → ℤ → List ReconciliationResult → Reconciler D M → Reconciler D M
  ended status now results r = record r {
    last_result = record r.last_result {
      status = status;
      completed_at = unix now;
      results = results;
    };
  }

module _ (n : Num) where
  open n use {D, zero, from_int, add, sub, mul, div, abs, literal, from_float}

  unfoldable pub sum_local : List (String × InventorySlot) → D → D
  sum_local [] acc = acc
  sum_local ((k, s) ∷ slots) acc = sum_local slots (
      if is_position_filled s.position_status
      then add acc (to_go_decimal n s.position_qty)
      else acc)

  -- The divergence in percent of the exchange's size, or of 0.0001 if that is zero.
  unfoldable pub divergence_pct : D → D → D
  divergence_pct exchange_size divergence =
      let size = abs exchange_size in
      let denominator = if is_zero n size then from_float (literal 1 4) else size in
      abs (mul (div divergence denominator) (from_int (pos 100)))

  unfoldable pub open_breaker : ℤ → Option (CircuitBreaker D) → Option (CircuitBreaker D)
  open_breaker now none = none
  open_breaker now (some cb) = some (open_circuit n now cb)

module _ (n : Num) (pm : IPositionManager n) where
  open n use {D, zero, from_int, sub}
  open pm use {Manager, create_snapshot, apply_update, sync_to}

  -- The first loop of reconcileOrders.
  unfoldable pub report_missing :
      ℤ → String → List Order → List (String × InventorySlot) → Manager → Manager
  unfolding is_ghost
  report_missing now symbol orders [] m = m
  report_missing now symbol orders ((k, s) ∷ slots) m =
      report_missing now symbol orders slots
        (if is_ghost orders s then apply_update now (missing_update symbol s) m else m)

  unfoldable pub reconcile_orders :
      ℤ → List (String × InventorySlot) → List Order → Reconciler D Manager → Reconciler D Manager
  unfolding report_missing unknown_orders
  reconcile_orders now slots orders r = record r {
    manager = report_missing now r.symbol orders slots r.manager;
    cancel_calls = r.cancel_calls ++ unknown_orders slots orders;
  }

  unfoldable pub reconcile_positions :
      ℤ → List (String × InventorySlot) → Position → Reconciler D Manager → Reconciled D Manager
  unfolding divergence_pct
  reconcile_positions now slots position r =
      let local_size = sum_local n slots zero in
      let exchange_size = to_go_decimal n position.size in
      let pct = divergence_pct n exchange_size (sub exchange_size local_size) in
      let synced = sync_to r.symbol exchange_size r.manager in
      let result : Reconciler D Manager → Bool → Bool → Reconciled D Manager =
        λ after match corrected. record {
          after = after;
          match = match;
          local_size = local_size;
          exchange_size = exchange_size;
          corrected = corrected;
        } in
      if equal n local_size exchange_size
      then result r true false
      else if less_than n pct (from_int (pos 5))
      then result (record r { manager = synced.0 }) false (not synced.1)
      else result (record r { breaker = open_breaker n now r.breaker }) false false

  unfoldable pub result_of : String → Reconciled D Manager → ReconciliationResult
  result_of symbol d = record {
    symbol = symbol;
    position_match = d.match;
    local_position = from_go_decimal n d.local_size;
    exchange_position = from_go_decimal n d.exchange_size;
    divergence = from_go_decimal n (sub d.exchange_size d.local_size);
    corrected = d.corrected;
  }

  -- What a pass does once it has the exchange's state. The snapshot is taken before the orders are
  -- reconciled, and the positions are reconciled with it.
  unfoldable pub reconcile_state :
      ℤ → ℤ → List Order → List Position → Reconciler D Manager → Reconciler D Manager
  unfolding reconcile_orders reconcile_positions result_of ended
  reconcile_state now done orders positions r =
      let slots = create_snapshot r.manager in
      let d =
        reconcile_positions now slots (find_position n r.symbol positions)
          (reconcile_orders now slots orders r) in
      ended "completed" done (result_of r.symbol d ∷ []) d.after

  -- Reconcile, which starts at `now` and ends at `done`, with the answers of GetOpenOrders and
  -- GetPositions, `none` being an error. It returns whether it failed.
  unfoldable pub reconcile :
      Bool
      → ℤ
      → ℤ
      → Option (List Order)
      → Option (List Position)
      → Reconciler D Manager
      → Reconciler D Manager × Bool
  unfolding started ended
  reconcile true now done orders positions r =
      (ended "skipped_risk_triggered" done [] (started now r), false)
  reconcile false now done none positions r = (ended "failed" done [] (started now r), true)
  reconcile false now done (some orders) none r = (ended "failed" done [] (started now r), true)
  reconcile false now done (some orders) (some positions) r =
      (reconcile_state now done orders positions (started now r), false)
