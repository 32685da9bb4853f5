-- ===== src/Strategy.antt =====
-- market_maker/internal/trading/strategy/grid.go: GridStrategy, the strategy that SuperPositionManager
-- asks for its actions. The risk monitor and the circuit breaker are interfaces: what they answer
-- is an argument, and none stands for a nil interface.
pub mod Orders
pub mod Actions
pub mod Kinds
mod Tests
use opensqt_market_maker.Common.{
  ℕ, Bool, true, false, not, ◌&&◌, ◌||◌, Option, none, some, List, [], ◌∷◌, ◌++◌, String, map,
  if◌then◌else◌,
}
use mathlib.Core.Option
use opensqt_market_maker.Common.Int.{ℤ, pos}
use opensqt_market_maker.Common.Assoc.{lookup, string_eq}
use opensqt_market_maker.Num.{Num, less_than, less_eq, greater_than, is_zero, is_positive}
use opensqt_market_maker.Pb.{InventorySlot, OrderAction, PlaceOrderRequest, PbDecimal}
use opensqt_market_maker.Pb.Enums.{
  OrderSide, buy, sell, is_buy, limit, gtc, free, pending, locked, slot_unspecified, empty,
  position_filled, position_unspecified, is_position_filled, place, cancel, side_name,
}
use opensqt_market_maker.Pb.Convert.{to_go_decimal, from_go_decimal}
use opensqt_market_maker.Pb.OrderId.{IdGen, generate_compact_order_id, add_broker_prefix}
use opensqt_market_maker.TradingUtils.{
  round_price, round_quantity, calculate_price_levels, find_nearest_grid_price,
  calculate_skewed_price,
}
use opensqt_market_maker.Grid.{has_key, append_some}
use opensqt_market_maker.Strategy.Orders.{
  Slots, set_dynamic_interval, set_trend_following, calculate_current_inventory, above_zero,
  effective_interval, skewed_current_price, get_dynamic_quantity, generate_client_order_id,
  limit_request, place_action, opening_qty, opening_action, request_opening, request_buy_order,
  request_sell_order_opening, request_buy_order_for_price, request_sell_order_for_price,
  closing_action, request_sell_order_closing, request_closing_order, cancel_action, RiskMonitor,
  GridStrategy,
}

module _ (n : Num) where
  open n use {D, F, add, sub, mul, f_lt, f_le, literal, from_float, from_int}

  module _ (strat : GridStrategy D F) where
    abbrev pub safety_buffer : D → D
    safety_buffer interval = mul interval (from_float (literal 1 1))

    unfoldable pub open_slot :
        InventorySlot → D → D → Bool → Bool → IdGen → Option OrderAction × IdGen
    open_slot s current interval buy_candidate sell_candidate g =
        let price = to_go_decimal n s.price in
        if buy_candidate && less_than n price (sub current (safety_buffer interval))
        then request_buy_order n strat s g
        else if sell_candidate && greater_than n price (add current (safety_buffer interval))
        then request_sell_order_opening n strat s g
        else (none, g)

    -- The closing order of a neutral grid. slot.PositionQty.Value of a nil quantity panics.
    unfoldable pub close_neutral :
        PbDecimal → InventorySlot → D → IdGen → Option (Option OrderAction × IdGen)
    close_neutral none s interval g = none
    close_neutral (some v) s interval g = some (
        if not (string_eq.beq v "") && not (is_zero n (to_go_decimal n (some v)))
        then request_closing_order n strat s interval g
        else (none, g))

    unfoldable pub close_slot : InventorySlot → D → D → IdGen → Option (Option OrderAction × IdGen)
    unfolding close_neutral
    close_slot s current interval g =
        let sell_window_max = add current (mul (from_int (pos strat.sell_window_size)) interval) in
        if not strat.is_neutral
        then some (
            if less_eq n (to_go_decimal n s.price) sell_window_max
            then request_sell_order_closing n strat s interval g
            else (none, g))
        else close_neutral s.position_qty s interval g

    unfoldable pub trail_slot : InventorySlot → D → D → Option OrderAction
    trail_slot s current interval =
        let order_price = to_go_decimal n s.order_price in
        let min_price = sub current (mul interval (from_int (pos strat.buy_window_size))) in
        let max_price = add current (mul interval (from_int (pos strat.sell_window_size))) in
        if is_buy s.order_side
        then (if less_than n order_price min_price || greater_than n order_price current
            then some (cancel_action n strat s)
            else none)
        else if greater_than n order_price max_price || less_than n order_price current
        then some (cancel_action n strat s)
        else none

    -- calculateSlotAdjustment; `none` is a panic.
    unfoldable pub calculate_slot_adjustment :
        InventorySlot → D → Bool → Bool → D → IdGen → Option (Option OrderAction × IdGen)
    calculate_slot_adjustment s current buy_candidate sell_candidate interval g =
        elim s.slot_status [
          | free ↦ elim s.position_status [
            | empty ↦ some (open_slot s current interval buy_candidate sell_candidate g)
            | position_filled ↦ close_slot s current interval g
            | position_unspecified ↦ some (none, g)
          ]
          | locked ↦ some (trail_slot s current interval, g)
          | pending ↦ some (none, g)
          | slot_unspecified ↦ some (none, g)
        ]

    -- The rest of a loop after an action, unless there is a panic.
    unfoldable pub with_action :
        Option OrderAction → Option (List OrderAction × IdGen) → Option (List OrderAction × IdGen)
    with_action a none = none
    with_action a (some (actions, g)) = some (append_some a actions, g)

    unfoldable pub after_slot :
        Option (Option OrderAction × IdGen)
        → (IdGen → Option (List OrderAction × IdGen))
        → Option (List OrderAction × IdGen)
    unfolding with_action
    after_slot none rest = none
    after_slot (some (a, g)) rest = with_action a (rest g)

    -- The loop over the slots.
    unfoldable pub process_slots :
        Slots n → D → D → List String → List String → IdGen → Option (List OrderAction × IdGen)
    unfolding after_slot
    process_slots [] current interval buys sells g = some ([], g)
    process_slots ((k, s) ∷ slots) current interval buys sells g =
        let key = n.show (to_go_decimal n s.price) in
        after_slot
          (calculate_slot_adjustment s current (has_key key buys) (has_key key sells) interval g)
          (λ g1. process_slots slots current interval buys sells g1)

    -- No slot stands under the key.
    abbrev pub missing : String → Slots n → Bool
    missing key slots = elim (lookup key slots) [ none ↦ true | some s ↦ false ]

    -- The loops over the levels that are not in the map. `may_open` is the test of the price.
    unfoldable pub open_missing :
        OrderSide → (D → Bool) → List D → Slots n → IdGen → List OrderAction × IdGen
    open_missing side may_open [] slots g = ([], g)
    open_missing side may_open (price ∷ prices) slots g =
        let rounded = round_price n price strat.price_decimals in
        let opens = missing (n.show rounded) slots && may_open rounded in
        let (a, g1) =
          if opens
          then request_opening n strat side rounded (from_go_decimal n rounded) g
          else (none, g) in
        let (actions, g2) = open_missing side may_open prices slots g1 in
        (append_some a actions, g2)

    abbrev pub keys_of : List D → List String
    keys_of prices = map (λ p. n.show (round_price n p strat.price_decimals)) prices

    -- The loops over the levels, after the actions for the slots.
    unfoldable pub open_levels :
        List OrderAction → Slots n → D → D → List D → List D → IdGen → List OrderAction × IdGen
    unfolding open_missing
    open_levels kept slots skewed interval buys sells g =
        let buffer = safety_buffer interval in
        let (bought, g2) = open_missing buy (λ p. less_than n p (sub skewed buffer)) buys slots g in
        let (sold, g3) =
          open_missing sell (λ p. greater_than n p (add skewed buffer)) sells slots g2 in
        (kept ++ bought ++ sold, g3)

    -- What CalculateActions does for a reference price and an interval.
    unfoldable pub actions_at : Slots n → D → D → D → IdGen → Option (List OrderAction × IdGen)
    unfolding process_slots open_levels
    actions_at slots anchor skewed interval g =
        let center = find_nearest_grid_price n skewed anchor interval in
        let buys = calculate_price_levels n center (n.neg interval) strat.buy_window_size in
        let levels = calculate_price_levels n center interval strat.sell_window_size in
        let sells = if strat.is_neutral then levels else [] in
        Option.map
          (λ (r : List OrderAction × IdGen). open_levels r.0 slots skewed interval buys sells r.1)
          (process_slots slots skewed interval (keys_of buys) (keys_of sells) g)

    abbrev pub is_tripped : Option Bool → Bool
    is_tripped none = false
    is_tripped (some tripped) = tripped

    -- CalculateActions; `none` is a panic.
    unfoldable pub calculate_actions : Slots n → D → D → IdGen → Option (List OrderAction × IdGen)
    calculate_actions slots anchor current g =
        let actions =
          actions_at slots anchor (skewed_current_price n strat current slots)
            (effective_interval n strat) g in
        if is_tripped strat.circuit_breaker then some ([], g) else actions
