-- ===== src/Strategy/Tests.antt =====
-- GridStrategy on decimals that count tenths.
use opensqt_market_maker.Common.{◌≡◌, refl, true, false, none, some, List, [], ◌∷◌, All, map}
use mathlib.Core.Option
use opensqt_market_maker.Common.Int.{ℤ, pos, ◌+ℤ◌, ◌-ℤ◌, ◌*ℤ◌}
use opensqt_market_maker.Common.Words.{to_i32}
use opensqt_market_maker.Common.Assoc.{lookup}
use opensqt_market_maker.Num.Fixed.{
  fixed, show_ℤ, read_ℤ, marks, count_marks, divide, round_tenths, unit,
}
use opensqt_market_maker.Pb.{OrderAction}
use opensqt_market_maker.Pb.Enums.{
  place, cancel, buy, side_unspecified, new, free, locked, empty, position_filled,
}
use opensqt_market_maker.Pb.Convert.{to_go_decimal, from_go_decimal}
use opensqt_market_maker.Pb.OrderId.{IdGen}
use opensqt_market_maker.TradingUtils.{
  round_price, round_quantity, find_nearest_grid_price, calculate_price_levels, levels_from,
}
use opensqt_market_maker.Grid.{has_key}
use opensqt_market_maker.Strategy.Orders.{
  GridStrategy, Slots, effective_interval, skewed_current_price, get_dynamic_quantity,
  request_opening, request_closing_order,
}
use opensqt_market_maker.Strategy.{
  open_slot, close_slot, close_neutral, after_slot, with_action, open_levels, trail_slot,
  calculate_slot_adjustment, process_slots, open_missing, actions_at, calculate_actions,
}
use opensqt_market_maker.Strategy.Actions.{grid_strategy_actions}
use opensqt_market_maker.Strategy.Kinds.{IsGridAction, HasPanic, ReturnsOr}

-- A neutral grid with an interval of 1.
abbrev strat : GridStrategy ℤ ℤ
strat = record {
  symbol = "BTCUSDT";
  exchange_name = "Binance";
  price_interval = pos 10;
  order_quantity = pos 10;
  min_order_value = pos 1;
  buy_window_size = 2;
  sell_window_size = 1;
  price_decimals = pos 1;
  qty_decimals = pos 1;
  is_neutral = true;
  risk_monitor = none;
  circuit_breaker = some false;
  dynamic_interval = false;
  volatility_scale = pos 0;
  inventory_skew_factor = pos 0;
}

-- A position of 1 at 0.5, and a buy that is open at 9.
abbrev slots : Slots fixed
slots =
    (
      "+11111",
      record {
        price = some "+11111";
        position_status = position_filled;
        position_qty = some "+1111111111";
        order_id = pos 0;
        client_oid = "";
        order_side = side_unspecified;
        order_status = new;
        order_price = none;
        order_filled_qty = none;
        slot_status = free;
        post_only_fail_count = pos 0;
      },
    )
    ∷ (
      "+1",
      record {
        price = some "+1";
        position_status = empty;
        position_qty = none;
        order_id = pos 7;
        client_oid = "c7";
        order_side = buy;
        order_status = new;
        order_price = some "+1";
        order_filled_qty = none;
        slot_status = locked;
        post_only_fail_count = pos 0;
      },
    )
    ∷ []

abbrev gen : IdGen
gen = record { last_sec = pos 0; id_seq = 0; clock = λ _. pos 7; readings = 0 }

-- At 3.5 the position is closed, the order that is too low goes, and orders open at the two levels
-- below and at the one above.
run :
    Option.map
      (λ (r : List OrderAction × IdGen). map (λ (a : OrderAction). a.type) r.0)
      (calculate_actions fixed strat slots (pos 35) (pos 35) gen)
    ≡ some (place ∷ cancel ∷ place ∷ place ∷ place ∷ [])
unfolding calculate_actions actions_at process_slots after_slot with_action open_levels
    close_neutral open_missing calculate_slot_adjustment open_slot close_slot trail_slot
    request_opening request_closing_order effective_interval skewed_current_price
    get_dynamic_quantity calculate_price_levels levels_from find_nearest_grid_price round_price
    round_quantity has_key lookup to_go_decimal from_go_decimal show_ℤ read_ℤ marks count_marks
    round_tenths unit to_i32 divide ◌+ℤ◌ ◌-ℤ◌ ◌*ℤ◌
run = refl

grid_strategy_actions_example :
    ReturnsOr
      (HasPanic fixed strat slots)
      (All
        (IsGridAction fixed strat (skewed_current_price fixed strat (pos 35) slots) (pos 10) slots))
      (calculate_actions fixed strat slots (pos 35) (pos 35) gen)
unfolding effective_interval
grid_strategy_actions_example = grid_strategy_actions fixed strat slots (pos 35) (pos 35) gen
