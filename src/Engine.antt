-- ===== src/Engine.antt =====
-- market_maker/internal/engine/gridengine/engine.go: the strategy, the slot manager, the executor and
-- the risk monitor at work together. What the executor answers to each action is an argument, and so
-- is the state that the store loads. The engine's mutex is a flag for a price update that holds it for
-- ever.
pub mod Events
pub mod Restart
pub mod Consistent
pub mod AtRisk
mod Tests
use opensqt_market_maker.Common.{
  ℕ, zero, suc, Bool, true, false, Option, none, some, List, [], ◌∷◌, String, map, if◌then◌else◌,
  ◌&&◌,
}
use opensqt_market_maker.Common.Int.{ℤ}
use opensqt_market_maker.Num.{Num, is_zero}
use opensqt_market_maker.Pb.{
  InventorySlot, Order, OrderAction, OrderUpdate, PbDecimal, PlaceOrderRequest,
}
use opensqt_market_maker.Pb.Enums.{is_place}
use opensqt_market_maker.Pb.Convert.{to_go_decimal, from_go_decimal}
use opensqt_market_maker.Pb.OrderId.{IdGen}
use opensqt_market_maker.Position.State.{Store}
use opensqt_market_maker.Position.Results.{OrderActionResult}
use opensqt_market_maker.Grid.{Slot, StrategyConfig, calculate_actions}
use opensqt_market_maker.Grid.Slots.{
  SlotManager, restore_state, apply_action_results, on_order_update,
}

-- pb.State, which the store saves and loads.
pub record State : Type 0 where
  pub slots : List (String × InventorySlot)
  pub last_price : PbDecimal
  pub last_update_time : ℤ

pub record GridEngine (D F : Type 0) : Type 0 where
  pub config : StrategyConfig D F
  pub manager : SlotManager
  pub anchor_price : D
  pub saved : Option State  -- what the store holds
  pub waiting : Bool  -- a price update waits for a task that never runs, and holds the mutex

-- What the risk monitor answers for the symbol.
pub record MonitorView (D F : Type 0) : Type 0 where
  pub atr : D
  pub volatility_factor : F
  pub triggered : Bool

-- What the executor answers to the calls for an action, which has a place in the list of the actions.
pub record Executor : Type 0 where
  -- The task of the action runs: without a pool it does, and a pool's Submit may fail.
  pub submits : ℕ → Bool
  pub place_order : ℕ → Option PlaceOrderRequest → Option Order × Option String
  pub batch_cancel_orders : ℕ → String → List ℤ → Bool → Option String

unfoldable pub call : Executor → ℕ → OrderAction → Option Order × Option String
call ex i act =
    if is_place act.type
    then ex.place_order i act.request
    else (none, ex.batch_cancel_orders i act.symbol (act.order_id ∷ []) false)

unfoldable pub perform : Executor → ℕ → List OrderAction → List OrderActionResult
unfolding call
perform ex i [] = []
perform ex i (act ∷ actions) =
    let answer = call ex i act in
    record { action = act; order = answer.0; error = answer.1 } ∷ perform ex (suc i) actions

unfoldable pub all_submitted : Executor → ℕ → List OrderAction → Bool
all_submitted ex i [] = true
all_submitted ex i (act ∷ actions) = ex.submits i && all_submitted ex (suc i) actions

-- execute. No action gives no result, and applying none changes nothing. The error of Submit is
-- ignored: the WaitGroup then waits for ever for the task that does not run, which is `none`.
unfoldable pub execute : (n : Num) → Executor → List OrderAction → SlotManager → Option SlotManager
unfolding perform all_submitted
execute n ex actions m =
    if all_submitted ex 0 actions
    then some (apply_action_results n (perform ex 0 actions) m)
    else none

unfoldable pub snapshot_slots : Store → List (String × ℕ) → List (String × InventorySlot)
snapshot_slots store = map (λ e. (e.0, store e.1))

module _ (n : Num) where
  open n use {D, F, literal}

  unfoldable pub slot_of : InventorySlot → Slot D
  slot_of s = record {
    price = to_go_decimal n s.price;
    position_status = s.position_status;
    position_qty = to_go_decimal n s.position_qty;
    slot_status = s.slot_status;
    order_side = s.order_side;
    order_price = to_go_decimal n s.order_price;
    order_id = s.order_id;
  }

  unfoldable pub get_grid_slots : Store → List (String × ℕ) → List (Slot D)
  unfolding slot_of
  get_grid_slots store [] = []
  get_grid_slots store ((k, a) ∷ slots) = slot_of (store a) ∷ get_grid_slots store slots

  -- Without a monitor there is no volatility and no risk.
  unfoldable pub view_of : Option (MonitorView D F) → MonitorView D F
  view_of none = record { atr = n.zero; volatility_factor = literal 0 0; triggered = false }
  view_of (some view) = view

  -- The anchor is the first price that the engine sees.
  unfoldable pub anchor_at : D → GridEngine D F → D
  anchor_at price e = if is_zero n e.anchor_price then price else e.anchor_price

  -- The actions that a price asks for.
  unfoldable pub actions_for :
      Option (MonitorView D F) → D → GridEngine D F → IdGen → List OrderAction × IdGen
  unfolding view_of anchor_at get_grid_slots
  actions_for monitor price e g =
      let view = view_of monitor in
      calculate_actions n e.config price (anchor_at price e) view.atr view.volatility_factor
        view.triggered (get_grid_slots e.manager.store e.manager.slots) g

  unfoldable pub save_state : ℤ → D → GridEngine D F → GridEngine D F
  unfolding snapshot_slots
  save_state now last_price e = record e {
    saved = some (record {
      slots = snapshot_slots e.manager.store e.manager.slots;
      last_price = from_go_decimal n last_price;
      last_update_time = now;
    });
  }

  -- The end of OnPriceUpdate, when execute has returned or waits.
  unfoldable pub after_execute : Option SlotManager → ℤ → D → GridEngine D F → GridEngine D F
  unfolding save_state
  after_execute none now price e = record e { waiting = true }
  after_execute (some m) now price e = save_state now price (record e { manager = m })

  unfoldable pub on_price_update :
      Executor
      → Option (MonitorView D F)
      → ℤ
      → PbDecimal
      → GridEngine D F
      → IdGen
      → GridEngine D F × IdGen
  unfolding actions_for anchor_at execute after_execute
  on_price_update ex monitor now price e g =
      let p = to_go_decimal n price in
      let asked = actions_for monitor p e g in
      let e' : GridEngine D F = record e { anchor_price = anchor_at p e } in
      if e.waiting
      then (e, g)
      else (after_execute (execute n ex asked.0 e.manager) now p e', asked.1)

  -- Start, with what the store loads: `none` is an error, or no state.
  unfoldable pub start : Option State → GridEngine D F → GridEngine D F
  start none e = e
  start (some state) e = record e {
    manager = restore_state state.slots e.manager;
    anchor_price = to_go_decimal n state.last_price;
  }

  unfoldable pub on_engine_order_update : OrderUpdate → GridEngine D F → GridEngine D F
  on_engine_order_update u e = record e { manager = (on_order_update n u e.manager).0 }
