-- ===== src/Grid/Tests.antt =====
-- The strategy on decimals that count tenths.
use opensqt_market_maker.Common.{◌≡◌, refl, true, false, List, [], ◌∷◌, All, map}
use opensqt_market_maker.Common.Int.{ℤ, pos, ◌+ℤ◌, ◌-ℤ◌, ◌*ℤ◌}
use opensqt_market_maker.Common.Words.{to_i32}
use opensqt_market_maker.Num.Fixed.{fixed, show_ℤ, marks, divide, round_tenths, unit, power}
use opensqt_market_maker.Pb.{OrderAction}
use opensqt_market_maker.Pb.Enums.{
  OrderActionType, place, cancel, buy, sell, free, locked, empty, position_filled, side_unspecified,
}
use opensqt_market_maker.Pb.OrderId.{IdGen, generate_compact_order_id, print_ℤ, digits}
use opensqt_market_maker.TradingUtils.{
  round_price, find_nearest_grid_price, calculate_price_levels, levels_from,
}
use opensqt_market_maker.Grid.{
  Slot, StrategyConfig, has_key, cancel_action, calculate_actions, actions_at, process_slots,
  open_missing, decide_action_for_slot, open_slot, close_slot, trail_slot, create_place_action,
  calculate_buy_prices, calculate_sell_prices, calculate_dynamic_quantity,
  calculate_effective_interval, skewed_price, calculate_inventory, generate_client_order_id,
}
use opensqt_market_maker.Grid.Actions.{calculate_actions-IsSound}
use opensqt_market_maker.Grid.Kinds.{IsSound}
use opensqt_market_maker.Grid.Risk.{Holds, risk_cancels_buys}

-- A neutral grid with an interval of 1, and two levels on each side.
abbrev config : StrategyConfig ℤ ℤ
config = record {
  symbol = "BTCUSDT";
  price_interval = pos 10;
  order_quantity = pos 10;
  min_order_value = pos 1;
  buy_window_size = 2;
  sell_window_size = 1;
  price_decimals = pos 1;
  qty_decimals = pos 1;
  is_neutral = true;
  volatility_scale = pos 0;
  inventory_skew_factor = pos 0;
}

abbrev gen : IdGen
gen = record { last_sec = pos 0; id_seq = 0; clock = λ _. pos 7; readings = 0 }

-- A buy is open at 2.
abbrev buying : Slot ℤ
buying = record {
  price = pos 20;
  position_status = empty;
  position_qty = pos 0;
  slot_status = locked;
  order_side = buy;
  order_price = pos 20;
  order_id = pos 7;
}

-- A position of 1 at 1.
abbrev holding : Slot ℤ
holding = record {
  price = pos 10;
  position_status = position_filled;
  position_qty = pos 10;
  slot_status = free;
  order_side = side_unspecified;
  order_price = pos 0;
  order_id = pos 0;
}

-- What the actions do.
abbrev types : List OrderAction → List OrderActionType
types actions = map (λ a. a.type) actions

-- At 3 the position gets a sell at 2, and a sell opens at 4; at risk the buy goes first.
quiet :
    types
      (calculate_actions fixed config
        (pos 30)
        (pos 30)
        (pos 0)
        (pos 0)
        false
        (buying ∷ holding ∷ [])
        gen).0
    ≡ place ∷ place ∷ []
unfolding calculate_actions actions_at process_slots open_missing decide_action_for_slot open_slot
    close_slot trail_slot create_place_action calculate_effective_interval skewed_price
    calculate_inventory calculate_buy_prices calculate_sell_prices calculate_dynamic_quantity
    calculate_price_levels levels_from find_nearest_grid_price round_price has_key show_ℤ marks
    round_tenths unit to_i32 divide ◌+ℤ◌ ◌-ℤ◌ ◌*ℤ◌
quiet = refl

risky :
    types
      (calculate_actions fixed config
        (pos 30)
        (pos 30)
        (pos 0)
        (pos 0)
        true
        (buying ∷ holding ∷ [])
        gen).0
    ≡ cancel ∷ place ∷ place ∷ []
unfolding calculate_actions actions_at process_slots open_missing decide_action_for_slot open_slot
    close_slot trail_slot create_place_action calculate_effective_interval skewed_price
    calculate_inventory calculate_buy_prices calculate_sell_prices calculate_dynamic_quantity
    calculate_price_levels levels_from find_nearest_grid_price round_price has_key show_ℤ marks
    round_tenths unit to_i32 divide ◌+ℤ◌ ◌-ℤ◌ ◌*ℤ◌
risky = refl

calculate_actions-IsSound_example :
    All
      (IsSound fixed config
        (skewed_price fixed config
          (pos 30)
          (calculate_inventory fixed config (buying ∷ []) (pos 0)))
        (calculate_effective_interval fixed config (pos 0))
        (pos 0)
        true
        (buying ∷ []))
      (calculate_actions fixed config (pos 30) (pos 30) (pos 0) (pos 0) true (buying ∷ []) gen).0
calculate_actions-IsSound_example =
    calculate_actions-IsSound fixed config (pos 30) (pos 30) (pos 0) (pos 0) true (buying ∷ []) gen

risk_cancels_buys_example :
    Holds
      (cancel_action fixed config buying)
      (calculate_actions fixed config
        (pos 30)
        (pos 30)
        (pos 0)
        (pos 0)
        true
        (holding ∷ buying ∷ [])
        gen).0
risk_cancels_buys_example =
    risk_cancels_buys fixed config (pos 30) (pos 30) (pos 0) (pos 0) (holding ∷ buying ∷ []) gen 1
      buying refl refl refl

-- A sell at 2.0 in second 7.
sell_id : (generate_client_order_id fixed config (pos 20) sell gen).0 ≡ "20_B_7001"
unfolding generate_client_order_id generate_compact_order_id print_ℤ digits round_tenths unit ◌*ℤ◌
    power
sell_id = refl
