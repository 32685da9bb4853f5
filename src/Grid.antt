-- ===== src/Grid.antt =====
-- market_maker/internal/trading/grid: strategy.go here, slot_manager.go in Slots.
pub mod Actions
pub mod Append
pub mod Kinds
pub mod Risk
pub mod Slots
mod Tests
use opensqt_market_maker.Common.{
  ℕ, Bool, true, false, not, ◌&&◌, ◌||◌, Option, none, some, List, [], ◌∷◌, ◌++◌, String, map,
  if◌then◌else◌,
}
use opensqt_market_maker.Common.Int.{ℤ, pos}
use opensqt_market_maker.Common.Assoc.{string_eq}
use opensqt_market_maker.Num.{
  Num, less_than, less_eq, greater_than, is_zero, is_positive, is_negative,
}
use opensqt_market_maker.Pb.{OrderAction, PlaceOrderRequest}
use opensqt_market_maker.Pb.Enums.{
  OrderSide, buy, sell, is_buy, limit, tif_unspecified, SlotStatus, free, pending, locked,
  slot_unspecified, PositionStatus, empty, position_filled, position_unspecified, is_empty,
  is_position_filled, place, cancel, side_name,
}
use opensqt_market_maker.Pb.Convert.{from_go_decimal}
use opensqt_market_maker.Pb.OrderId.{IdGen, generate_compact_order_id}
use opensqt_market_maker.TradingUtils.{
  round_price, round_quantity, calculate_price_levels, find_nearest_grid_price,
  calculate_skewed_price,
}

-- Slot
pub record Slot (D : Type 0) : Type 0 where
  pub price : D
  pub position_status : PositionStatus
  pub position_qty : D
  pub slot_status : SlotStatus
  pub order_side : OrderSide
  pub order_price : D
  pub order_id : ℤ

pub record StrategyConfig (D F : Type 0) : Type 0 where
  pub symbol : String
  pub price_interval : D
  pub order_quantity : D
  pub min_order_value : D
  pub buy_window_size : ℕ
  pub sell_window_size : ℕ
  pub price_decimals : ℤ
  pub qty_decimals : ℤ
  pub is_neutral : Bool
  pub volatility_scale : F
  pub inventory_skew_factor : F

-- A map[string]bool whose values are all true, as the list of its keys.
unfoldable pub has_key : String → List String → Bool
has_key k [] = false
has_key k (j ∷ keys) = string_eq.beq j k || has_key k keys

-- `append`, of an action that is not nil.
abbrev pub append_some : Option OrderAction → List OrderAction → List OrderAction
append_some none actions = actions
append_some (some a) actions = a ∷ actions

module _ (n : Num) where
  open n use {D, F, add, sub, mul, f_le, literal, from_float, from_int}

  -- 0.0, and what is not above it.
  abbrev pub not_above_zero : F → Bool
  not_above_zero f = f_le f (literal 0 0)

  module _ (cfg : StrategyConfig D F) where
    unfoldable pub calculate_effective_interval : D → D
    calculate_effective_interval atr =
        let dynamic = mul atr (from_float cfg.volatility_scale) in
        if is_zero n atr || not_above_zero cfg.volatility_scale
        then cfg.price_interval
        else if greater_than n dynamic cfg.price_interval
        then dynamic
        else cfg.price_interval

    -- CalculateSkewedPrice
    unfoldable pub skewed_price : D → D → D
    skewed_price current inventory =
        if not_above_zero cfg.inventory_skew_factor
        then current
        else calculate_skewed_price n current inventory n.zero
            (from_float cfg.inventory_skew_factor)

    unfoldable pub calculate_inventory : List (Slot D) → D → D
    calculate_inventory [] total = total
    calculate_inventory (s ∷ slots) total =
        calculate_inventory slots
          (if is_position_filled s.position_status then add total s.position_qty else total)

    unfoldable pub calculate_buy_prices : D → D → List D
    calculate_buy_prices center interval =
        calculate_price_levels n center (n.neg interval) cfg.buy_window_size

    unfoldable pub calculate_sell_prices : D → D → List D
    calculate_sell_prices center interval =
        if cfg.is_neutral then calculate_price_levels n center interval cfg.sell_window_size else []

    -- The key of a price in the maps.
    abbrev pub price_key : D → String
    price_key price = n.show (round_price n price cfg.price_decimals)

    -- toMap
    abbrev pub to_map : List D → List String
    to_map prices = map price_key prices

    unfoldable pub calculate_dynamic_quantity : F → D
    calculate_dynamic_quantity vol =
        let multiplier = n.f_sub (literal 10 1) (n.f_mul (literal 500 1) vol) in
        let least = literal 1 1 in
        if not_above_zero vol
        then cfg.order_quantity
        else mul cfg.order_quantity
            (from_float (if n.f_lt multiplier least then least else multiplier))

    -- generateClientOrderID
    unfoldable pub generate_client_order_id : D → OrderSide → IdGen → String × IdGen
    generate_client_order_id price side g =
        generate_compact_order_id n price (side_name side) cfg.price_decimals g

    -- The action that createPlaceAction makes, under an identifier.
    abbrev pub place_action : D → OrderSide → Bool → D → String → OrderAction
    place_action price side reduce_only qty oid = record {
      type = place;
      symbol = "";
      order_id = pos 0;
      price = from_go_decimal n price;
      request = some record {
        symbol = cfg.symbol;
        side = side;
        type = limit;
        time_in_force = tif_unspecified;
        quantity = from_go_decimal n (round_quantity n qty cfg.qty_decimals);
        price = from_go_decimal n (round_price n price cfg.price_decimals);
        reduce_only = reduce_only;
        post_only = not reduce_only;
        client_order_id = oid;
        use_margin = false;
      };
    }

    unfoldable pub create_place_action :
        D → OrderSide → Bool → F → IdGen → Option OrderAction × IdGen
    create_place_action price side reduce_only vol g =
        let qty = calculate_dynamic_quantity vol in
        let (oid, g') = generate_client_order_id price side g in
        if less_than n (mul price qty) cfg.min_order_value
        then (none, g)
        else (some (place_action price side reduce_only qty oid), g')

    abbrev pub cancel_action : Slot D → OrderAction
    cancel_action s = record {
      type = cancel;
      symbol = cfg.symbol;
      order_id = s.order_id;
      price = from_go_decimal n s.price;
      request = none;
    }

    -- A tenth of the interval.
    abbrev pub safety_buffer : D → D
    safety_buffer interval = mul interval (from_float (literal 1 1))

    -- A free slot without a position: it opens.
    unfoldable pub open_slot :
        Slot D → D → D → F → Bool → Bool → Bool → IdGen → Option OrderAction × IdGen
    open_slot s current interval vol risk buy_candidate sell_candidate g =
        if not risk && buy_candidate && less_than n s.price (sub current (safety_buffer interval))
        then create_place_action s.price buy false vol g
        else if sell_candidate && greater_than n s.price (add current (safety_buffer interval))
        then create_place_action s.price sell false vol g
        else (none, g)

    -- A free slot with a position: it closes.
    unfoldable pub close_slot : Slot D → D → D → F → IdGen → Option OrderAction × IdGen
    close_slot s current interval vol g =
        let sell_window_max = add current (mul (from_int (pos cfg.sell_window_size)) interval) in
        if not cfg.is_neutral
        then (if less_eq n s.price sell_window_max
            then create_place_action (add s.price interval) sell true vol g
            else (none, g))
        else if is_positive n s.position_qty
        then create_place_action (add s.price interval) sell true vol g
        else if is_negative n s.position_qty
        then create_place_action (sub s.price interval) buy true vol g
        else (none, g)

    -- A slot with an open order: the order goes when it is outside the window, or at risk.
    unfoldable pub trail_slot : Slot D → D → D → Bool → Option OrderAction
    trail_slot s current interval risk =
        let min_price = sub current (mul interval (from_int (pos cfg.buy_window_size))) in
        let max_price = add current (mul interval (from_int (pos cfg.sell_window_size))) in
        if is_buy s.order_side
        then (if risk || less_than n s.order_price min_price || greater_than n s.order_price current
            then some (cancel_action s)
            else none)
        else if greater_than n s.order_price max_price || less_than n s.order_price current
        then some (cancel_action s)
        else none

    unfoldable pub decide_action_for_slot :
        Slot D → D → D → F → Bool → List String → List String → IdGen → Option OrderAction × IdGen
    decide_action_for_slot s current interval vol risk active_buys active_sells g =
        let key = price_key s.price in
        elim s.slot_status [
          | free ↦ elim s.position_status [
            | empty ↦
                open_slot s current interval vol risk (has_key key active_buys)
                  (has_key key active_sells) g
            | position_filled ↦ close_slot s current interval vol g
            | position_unspecified ↦ (none, g)
          ]
          | locked ↦ (trail_slot s current interval risk, g)
          | pending ↦ (none, g)
          | slot_unspecified ↦ (none, g)
        ]

    -- The loop over the slots.
    unfoldable pub process_slots :
        List (Slot D)
        → D
        → D
        → F
        → Bool
        → List String
        → List String
        → IdGen
        → List OrderAction × IdGen
    process_slots [] current interval vol risk buys sells g = ([], g)
    process_slots (s ∷ slots) current interval vol risk buys sells g =
        let (a, g1) = decide_action_for_slot s current interval vol risk buys sells g in
        let (actions, g2) = process_slots slots current interval vol risk buys sells g1 in
        (append_some a actions, g2)

    -- The loops over the levels that no slot stands for. `may_open` is the test of the price.
    unfoldable pub open_missing :
        OrderSide → (D → Bool) → List D → List String → F → IdGen → List OrderAction × IdGen
    open_missing side may_open [] processed vol g = ([], g)
    open_missing side may_open (price ∷ prices) processed vol g =
        let opens = not (has_key (price_key price) processed) && may_open price in
        let (a, g1) = if opens then create_place_action price side false vol g else (none, g) in
        let (actions, g2) = open_missing side may_open prices processed vol g1 in
        (append_some a actions, g2)

    -- What CalculateActions does for a reference price and an interval.
    unfoldable pub actions_at :
        D → D → D → F → Bool → List (Slot D) → IdGen → List OrderAction × IdGen
    actions_at anchor skewed interval vol risk slots g =
        let center = find_nearest_grid_price n skewed anchor interval in
        let buys = calculate_buy_prices center interval in
        let sells = calculate_sell_prices center interval in
        let processed = map (λ s. price_key s.price) slots in
        let buffer = safety_buffer interval in
        let (kept, g1) =
          process_slots slots skewed interval vol risk (to_map buys) (to_map sells) g in
        let (bought, g2) =
          open_missing buy (λ p. not risk && less_than n p (sub skewed buffer)) buys processed vol
            g1 in
        let (sold, g3) =
          open_missing sell (λ p. greater_than n p (add skewed buffer)) sells processed vol g2 in
        (kept ++ bought ++ sold, g3)

    unfoldable pub calculate_actions :
        D → D → D → F → Bool → List (Slot D) → IdGen → List OrderAction × IdGen
    calculate_actions current anchor atr vol risk slots g =
        let interval = calculate_effective_interval atr in
        let skewed = skewed_price current (calculate_inventory slots n.zero) in
        actions_at anchor skewed interval vol risk slots g
