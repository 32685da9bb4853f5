-- ===== src/Position/Sync.antt =====
-- market_maker/internal/trading/position/manager.go: ForceSync and RestoreFromExchangePosition.
-- `range` over the slots goes through the entries in their order.
pub mod Sum
pub mod Fill
pub mod Drain
pub mod Exact
pub mod Plan
pub mod Forgets
pub mod Status
use Prim.Native.Nat.{Ordering}
use opensqt_market_maker.Common.{
  ℕ, zero, suc, Bool, true, false, not, ◌&&◌, ◌||◌, Option, none, some, List, [], ◌∷◌, String, map,
  if◌then◌else◌, length,
}
use mathlib.Core.Option
use opensqt_market_maker.Common.Int.{ℤ, pos, negsuc}
use opensqt_market_maker.Num.{Num, less_than, less_eq, greater_than, is_zero, is_positive}
use opensqt_market_maker.Pb.{InventorySlot}
use opensqt_market_maker.Pb.Enums.{
  buy, sell, new, free, empty, position_filled, is_empty, is_position_filled,
}
use opensqt_market_maker.Pb.Convert.{to_go_decimal, from_go_decimal}
use opensqt_market_maker.TradingUtils.{round_quantity, calculate_price_levels}
use opensqt_market_maker.Position.State.{SuperPositionManager, Store, write}
use opensqt_market_maker.Position.Slots.{get_or_create_slot}

module _ (n : Num) where
  open n use {D, add, sub, mul, div}

  -- The filled quantity of a slot.
  abbrev pub add_filled : InventorySlot → D → D
  add_filled s total =
      if is_position_filled s.position_status
      then add total (to_go_decimal n s.position_qty)
      else total

  -- The sum over the slots whose position is filled.
  unfoldable pub current_total : Store → List (String × ℕ) → D → D
  current_total store [] total = total
  current_total store ((k, r) ∷ slots) total =
      current_total store slots (add_filled (store r) total)

  abbrev pub min_decimal : D → D → D
  min_decimal slot_qty remaining = if less_than n remaining slot_qty then remaining else slot_qty

  abbrev pub synthetic_slot : InventorySlot → D → InventorySlot
  synthetic_slot s qty = record s {
    position_status = position_filled;
    position_qty = from_go_decimal n qty;
    order_filled_qty = from_go_decimal n qty;
    order_side = sell;
    order_id = pos 0;
  }

  abbrev pub can_fill : InventorySlot → Bool
  can_fill s = is_empty s.position_status && not (is_zero n (to_go_decimal n s.price))

  -- How much of what remains goes into an empty slot: orderQuantity / price at most.
  abbrev pub fill_qty : D → InventorySlot → D → D
  fill_qty order_quantity s remaining =
      min_decimal (div order_quantity (to_go_decimal n s.price)) remaining

  -- The body of the loop that increases the position.
  unfoldable pub fill_one : D → ℕ → Store × D → Store × D
  fill_one order_quantity r (store, remaining) =
      let qty = fill_qty order_quantity (store r) remaining in
      if can_fill (store r)
      then (write r (synthetic_slot (store r) qty) store, sub remaining qty)
      else (store, remaining)

  unfoldable pub fill_slots : D → List (String × ℕ) → Store × D → Store × D
  fill_slots order_quantity [] st = st
  fill_slots order_quantity ((k, r) ∷ slots) st =
      if less_eq n st.1 n.zero
      then st
      else fill_slots order_quantity slots (fill_one order_quantity r st)

  abbrev pub cleared_slot : InventorySlot → InventorySlot
  cleared_slot s = record s {
    position_status = empty;
    position_qty = from_go_decimal n n.zero;
    order_filled_qty = from_go_decimal n n.zero;
    order_side = buy;
  }

  abbrev pub reduced_slot : InventorySlot → D → InventorySlot
  reduced_slot s qty = record s {
    position_qty = from_go_decimal n qty;
    order_filled_qty = from_go_decimal n qty;
  }

  -- The body of the loop that decreases it.
  unfoldable pub drain_one : ℕ → Store × D → Store × D
  drain_one r (store, to_remove) =
      let qty = to_go_decimal n (store r).position_qty in
      if is_position_filled (store r).position_status
      then (if less_eq n qty to_remove
          then (write r (cleared_slot (store r)) store, sub to_remove qty)
          else (write r (reduced_slot (store r) (sub qty to_remove)) store, n.zero))
      else (store, to_remove)

  unfoldable pub drain_slots : List (String × ℕ) → Store × D → Store × D
  drain_slots [] st = st
  drain_slots ((k, r) ∷ slots) st =
      if less_eq n st.1 n.zero then st else drain_slots slots (drain_one r st)

  -- Steps 2 and 3 of ForceSync, for the difference that it found.
  unfoldable pub sync_by : D → SuperPositionManager D → SuperPositionManager D
  unfolding fill_slots fill_one drain_slots drain_one
  sync_by diff m =
      if is_zero n diff
      then m
      else if is_positive n diff
      then record m { store = (fill_slots m.config.order_quantity m.slots (m.store, diff)).0 }
      else record m { store = (drain_slots m.slots (m.store, n.abs diff)).0 }

  unfoldable pub force_sync : D → SuperPositionManager D → SuperPositionManager D
  unfolding current_total sync_by
  force_sync exchange_size m = sync_by (sub exchange_size (current_total m.store m.slots n.zero)) m

  -- The quantity that a level takes in theory.
  abbrev pub theory_qty : SuperPositionManager D → D → D
  theory_qty m price = round_quantity n (div m.config.order_quantity price) m.config.qty_decimals

  unfoldable pub sum_qtys : List D → D → D
  sum_qtys [] total = total
  sum_qtys (q ∷ qtys) total = sum_qtys qtys (add total q)

  -- The quantity of the level whose theoretical quantity is `qty`, with `allocated` given out
  -- before it: the last level takes what is left.
  unfoldable pub slot_qty : D → D → ℤ → D → D → List D → D
  slot_qty total total_theory qty_decimals allocated qty [] = sub total allocated
  slot_qty total total_theory qty_decimals allocated qty (_ ∷ _) =
      let share = round_quantity n (mul qty (div total total_theory)) qty_decimals in
      let remaining = sub total allocated in
      if greater_than n share remaining then remaining else share

  -- The distribution: what each level gets. A level whose quantity is not positive is skipped.
  unfoldable pub distribute : D → D → ℤ → (D → D) → D → List D → List (D × D)
  unfolding slot_qty
  distribute total total_theory qty_decimals theory allocated [] = []
  distribute total total_theory qty_decimals theory allocated (price ∷ prices) =
      let qty = slot_qty total total_theory qty_decimals allocated (theory price) prices in
      let skip = less_eq n qty n.zero in
      let rest =
        distribute total total_theory qty_decimals theory
          (if skip then allocated else add allocated qty) prices in
      if skip then rest else (price, qty) ∷ rest

  abbrev pub restored_slot : InventorySlot → D → InventorySlot
  restored_slot s qty = record s {
    position_status = position_filled;
    position_qty = from_go_decimal n qty;
    order_id = pos 0;
    order_status = new;
    order_side = sell;
    client_oid = "";
    order_filled_qty = from_go_decimal n n.zero;
    slot_status = free;
  }

  unfoldable pub fill_level : D × D → SuperPositionManager D → SuperPositionManager D
  fill_level (price, qty) m =
      let c = get_or_create_slot n price m in
      record (c.1) { store = write c.0 (restored_slot (c.1.store c.0) qty) c.1.store }

  unfoldable pub fill_levels : List (D × D) → SuperPositionManager D → SuperPositionManager D
  fill_levels [] m = m
  fill_levels (l ∷ levels) m = fill_levels levels (fill_level l m)

  unfoldable pub has_zero : List D → Bool
  has_zero [] = false
  has_zero (price ∷ prices) = is_zero n price || has_zero prices

  -- With one level only, the ratio to the theoretical total is not computed.
  abbrev pub several : List D → Bool
  several [] = false
  several (_ ∷ []) = false
  several (_ ∷ _ ∷ _) = true

  -- The levels and their quantities for a total, unless a division by zero panics: by a level's
  -- price, or by the theoretical total.
  unfoldable pub restore_plan : D → List D → SuperPositionManager D → Option (List (D × D))
  unfolding distribute sum_qtys has_zero
  restore_plan total prices m =
      let total_theory = sum_qtys (map (theory_qty m) prices) n.zero in
      if has_zero prices || (several prices && is_zero n total_theory)
      then none
      else some (distribute total total_theory m.config.qty_decimals (theory_qty m) n.zero prices)

  abbrev pub slots_needed : D → SuperPositionManager D → ℤ
  slots_needed total m = n.int_part (n.ceil (div total (theory_qty m m.anchor_price)))

  -- A negative number of slots is a panic as well: CalculatePriceLevels cannot make the list.
  unfoldable pub restore_count : D → ℤ → SuperPositionManager D → Option (SuperPositionManager D)
  unfolding restore_plan fill_levels fill_level
  restore_count total (pos count) m =
      let prices = calculate_price_levels n m.anchor_price m.config.price_interval count in
      Option.map (λ levels. fill_levels levels m) (restore_plan total prices m)
  restore_count total (negsuc _) m = none

  -- `none` is a panic.
  unfoldable pub restore_from_exchange_position :
      D → SuperPositionManager D → Option (SuperPositionManager D)
  unfolding restore_count
  restore_from_exchange_position total m =
      if less_eq n total n.zero
      then some m
      else if is_zero n m.anchor_price
      then none
      else if is_zero n (theory_qty m m.anchor_price)
      then some m
      else restore_count total (slots_needed total m) m
