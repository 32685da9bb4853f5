-- ===== src/Position/Tests.antt =====
-- The manager on decimals that count tenths.
use opensqt_market_maker.Common.{◌≡◌, ◌⊎◌, refl, true, false, none, some, [], ◌∷◌, All, inl, ℕ}
use opensqt_market_maker.Common.Int.{ℤ, pos, ◌+ℤ◌, ◌-ℤ◌, ◌*ℤ◌}
use opensqt_market_maker.Common.Words.{to_i32}
use opensqt_market_maker.TradingUtils.{round_quantity}
use opensqt_market_maker.Common.Assoc.{lookup, string_eq, int_eq}
use opensqt_market_maker.Num.{is_positive, less_than}
use opensqt_market_maker.Num.Fixed.{
  fixed, fixed-IsOrdered, fixed-IsGroup, fixed-IsOrderedGroup, fixed-HasText, show_ℤ, read_ℤ, marks,
  count_marks, divide, round_tenths, unit,
}
use opensqt_market_maker.Pb.{InventorySlot, Order, OrderUpdate}
use opensqt_market_maker.Pb.Enums.{
  buy, new, filled, partially_filled, pending, locked, place, limit,
}
use opensqt_market_maker.Pb.Convert.{to_go_decimal}
use opensqt_market_maker.Position.State.{
  SuperPositionManager, slot_not_found, new_super_position_manager,
}
use opensqt_market_maker.Position.Slots.{created_slot, initialize, restore_state, get_snapshot}
use opensqt_market_maker.Position.Slots.RoundTrip.{restore-snapshot}
use opensqt_market_maker.Position.Updates.{
  on_order_update, handle_order_partial_fill, find_slot, fill_applied,
}
use opensqt_market_maker.Position.Updates.Replay.{replay_not_found}
use opensqt_market_maker.Position.Updates.LateAck.{late_ack_locks}
use opensqt_market_maker.Position.Updates.Partial.{partial_fills_commute, filled_qty}
use opensqt_market_maker.Position.Results.{OrderActionResult, apply_action_results}
use opensqt_market_maker.Position.Sync.{
  current_total, force_sync, sync_by, fill_slots, fill_one, restore_plan, distribute, slot_qty,
  sum_qtys, has_zero,
}
use opensqt_market_maker.Position.Sync.Sum.{total_position}
use opensqt_market_maker.Position.Sync.Fill.{NoneFillable}
use opensqt_market_maker.Position.Sync.Drain.{NoneFilled}
use opensqt_market_maker.Position.Sync.Exact.{force_sync_exact}
use opensqt_market_maker.Position.Sync.Plan.{restore_plan-total, plan_total}
use opensqt_market_maker.Position.Samples.{config, open_slot, manager, manager-IsWellFormed}
use opensqt_market_maker.Position.Sync.Forgets.{Synced, force_sync_forgets_order}
use opensqt_market_maker.Position.WellFormed.Defs.{IsWellFormed}
use opensqt_market_maker.Position.WellFormed.Reach.{
  Reach, initializes, updates, here, next, Reach_new-IsWellFormed,
}

abbrev waiting_slot : InventorySlot
waiting_slot = record (created_slot fixed (pos 5)) {
  price = some "+11111";
  client_oid = "c7";
  order_side = buy;
  slot_status = pending;
}

abbrev fill : OrderUpdate
fill = record {
  order_id = pos 7;
  client_order_id = "c7";
  symbol = "BTCUSDT";
  side = buy;
  status = filled;
  executed_qty = some "+11";
  price = some "+11111";
}

replay_not_found_example :
    let m' = (on_order_update fixed (pos 1) fill (manager open_slot)).0 in
    on_order_update fixed (pos 2) fill m' ≡ (m', some slot_not_found)
unfolding find_slot fill_applied lookup new_super_position_manager to_go_decimal show_ℤ read_ℤ marks
    count_marks
replay_not_found_example =
    replay_not_found fixed (pos 1) (pos 2) fill 0 (manager open_slot) refl (inl (refl, refl)) refl

-- The exchange's answer to the PLACE request of order 7.
abbrev placed : Order
placed = record {
  order_id = pos 7;
  client_order_id = "c7";
  symbol = "BTCUSDT";
  side = buy;
  type = limit;
  price = some "+11111";
  quantity = some "+11";
  executed_qty = none;
  status = new;
  created_at = pos 0;
}

abbrev ack : OrderActionResult
ack = record {
  action = record {
    type = place;
    symbol = "BTCUSDT";
    order_id = pos 0;
    price = some "+11111";
    request = none;
  };
  order = some placed;
  error = none;
}

late_ack_locks_example :
    let m' =
      apply_action_results fixed
        (ack ∷ [])
        (on_order_update fixed (pos 1) fill (manager waiting_slot)).0 in
    ((m'.store 0).slot_status ≡ locked)
    × ((m'.store 0).order_id ≡ pos 7)
    × (on_order_update fixed (pos 2) fill m' ≡ (m', none))
unfolding find_slot show_ℤ read_ℤ marks count_marks ◌-ℤ◌ lookup new_super_position_manager
    to_go_decimal
late_ack_locks_example =
    late_ack_locks fixed (pos 1) (pos 2) fill ack placed 0 (manager waiting_slot) refl refl refl
      refl refl refl (refl, refl, refl) refl

abbrev partial_fill : OrderUpdate
partial_fill = record fill { status = partially_filled; executed_qty = some "+1" }

partial_fills_commute_example :
    let after = λ (x y : OrderUpdate). filled_qty fixed 0 (
      handle_order_partial_fill fixed y 0
        (handle_order_partial_fill fixed x 0 (manager open_slot))) in
    after fill partial_fill ≡ after partial_fill fill
partial_fills_commute_example =
    (partial_fills_commute fixed fixed-IsOrdered fill partial_fill 0 (manager open_slot)).0

force_sync_exact_example :
    let store = (force_sync fixed (pos 10) (manager open_slot)).store in
    let slots = (manager open_slot).slots in
    let diff = pos 10 -ℤ total_position fixed (manager open_slot).store slots in
    (total_position fixed store slots ≡ pos 10)
    ⊎ ((is_positive fixed diff ≡ true) × NoneFillable fixed store slots)
    ⊎ ((is_positive fixed diff ≡ false) × NoneFilled fixed store slots)
force_sync_exact_example =
    force_sync_exact fixed fixed-IsOrdered fixed-IsGroup fixed-IsOrderedGroup fixed-HasText (pos 10)
      (manager open_slot) manager-IsWellFormed

force_sync_forgets_order_example :
    let m' = force_sync fixed (pos 10) (manager open_slot) in
    ((a : ℕ) → Synced fixed ((manager open_slot).store a) (m'.store a))
    × (m'.order_map ≡ (pos 7, 0) ∷ [])
    × (m'.client_omap ≡ ("c7", 0) ∷ [])
    × (m'.slots ≡ ("+11111", 0) ∷ [])
force_sync_forgets_order_example = force_sync_forgets_order fixed (pos 10) (manager open_slot)

-- The slot whose order 7 is open is filled.
forgotten :
    let m' = force_sync fixed (pos 10) (manager open_slot) in
    ((m'.store 0).order_id ≡ pos 0) × ((m'.store 0).slot_status ≡ locked)
unfolding force_sync sync_by fill_slots fill_one current_total show_ℤ read_ℤ marks count_marks ◌-ℤ◌
    ◌+ℤ◌ new_super_position_manager to_go_decimal divide
forgotten = (refl, refl)

-- 2.5 over the levels 0.5 and 1: in theory 2 and 1, so 1.7 and the rest.
restore_plan-total_example :
    (plan_total fixed ((pos 5, pos 16) ∷ (pos 10, pos 9) ∷ []) ≡ pos 25)
    × All
        (λ (l : ℤ × ℤ). less_than fixed (pos 0) l.1 ≡ true)
        ((pos 5, pos 16) ∷ (pos 10, pos 9) ∷ [])
unfolding restore_plan distribute slot_qty sum_qtys has_zero divide round_tenths unit ◌+ℤ◌ ◌-ℤ◌ ◌*ℤ◌
    to_i32 round_quantity new_super_position_manager
restore_plan-total_example =
    restore_plan-total fixed fixed-IsOrdered fixed-IsGroup fixed-IsOrderedGroup (pos 25) (pos 5)
      (pos 10 ∷ []) (manager open_slot) ((pos 5, pos 16) ∷ (pos 10, pos 9) ∷ []) refl refl

restore-snapshot_example :
    let (m', error) = restore_state fixed (("+11111", open_slot) ∷ []) (manager waiting_slot) in
    (error ≡ none) × ((get_snapshot fixed (pos 3) m').slots ≡ ("+11111", open_slot) ∷ [])
restore-snapshot_example =
    restore-snapshot fixed (pos 3) ("+11111", open_slot) [] (manager waiting_slot) (tt, tt)

abbrev start : SuperPositionManager ℤ
start = new_super_position_manager fixed config (λ _. open_slot)

-- A manager that is initialized, and gets an update of an order that it does not know.
abbrev history :
    Reach fixed start (on_order_update fixed (pos 1) fill (initialize fixed (pos 5) start)).0
history =
    next (next here (initializes (pos 5) start))
      (updates (pos 1) fill (initialize fixed (pos 5) start))

Reach_new-IsWellFormed_example :
    IsWellFormed fixed (on_order_update fixed (pos 1) fill (initialize fixed (pos 5) start)).0
Reach_new-IsWellFormed_example =
    Reach_new-IsWellFormed fixed fixed-HasText config (λ _. open_slot) history
