-- ===== src/Strategy/Orders.antt =====
-- market_maker/internal/trading/strategy/grid.go: the strategy's parameters, and the orders that it
-- asks for.
use opensqt_market_maker.Common.{
  ℕ, Bool, true, false, not, ◌&&◌, Option, none, some, List, [], ◌∷◌, String, if◌then◌else◌,
}
use opensqt_market_maker.Common.Int.{ℤ, pos}
use opensqt_market_maker.Common.Assoc.{string_eq}
use opensqt_market_maker.Num.{Num, less_than, greater_than, is_zero, is_positive}
use opensqt_market_maker.Pb.{InventorySlot, OrderAction, PlaceOrderRequest, PbDecimal}
use opensqt_market_maker.Pb.Enums.{
  OrderSide, buy, sell, limit, gtc, is_position_filled, place, cancel, side_name,
}
use opensqt_market_maker.Pb.Convert.{to_go_decimal, from_go_decimal}
use opensqt_market_maker.Pb.OrderId.{IdGen, generate_compact_order_id, add_broker_prefix}
use opensqt_market_maker.TradingUtils.{round_quantity, calculate_skewed_price}

-- What core.IRiskMonitor answers for the strategy's symbol: GetATR and GetVolatilityFactor.
pub record RiskMonitor (D F : Type 0) : Type 0 where
  pub atr : D
  pub volatility_factor : F

pub record GridStrategy (D F : Type 0) : Type 0 where
  pub symbol : String
  pub exchange_name : String
  pub price_interval : D
  pub order_quantity : D
  pub min_order_value : D
  pub buy_window_size : ℕ
  pub sell_window_size : ℕ
  pub price_decimals : ℤ
  pub qty_decimals : ℤ
  pub is_neutral : Bool
  pub risk_monitor : Option (RiskMonitor D F)
  pub circuit_breaker : Option Bool  -- whether it is tripped
  pub dynamic_interval : Bool
  pub volatility_scale : F
  pub inventory_skew_factor : F

module _ (n : Num) where
  open n use {D, F, add, sub, mul, f_lt, f_le, literal, from_float, from_int}

  abbrev pub Slots : Type 0
  Slots = List (String × InventorySlot)

  -- SetDynamicInterval
  unfoldable pub set_dynamic_interval : Bool → F → GridStrategy D F → GridStrategy D F
  set_dynamic_interval enabled scale s = record s {
    dynamic_interval = enabled;
    volatility_scale = scale;
  }

  -- SetTrendFollowing
  unfoldable pub set_trend_following : F → GridStrategy D F → GridStrategy D F
  set_trend_following skew_factor s = record s { inventory_skew_factor = skew_factor }

  unfoldable pub calculate_current_inventory : Slots → D → D
  calculate_current_inventory [] total = total
  calculate_current_inventory ((k, s) ∷ slots) total = calculate_current_inventory slots (
      if is_position_filled s.position_status
      then add total (to_go_decimal n s.position_qty)
      else total)

  module _ (strat : GridStrategy D F) where
    abbrev pub above_zero : F → Bool
    above_zero f = f_lt (literal 0 0) f

    -- Step 1 of CalculateActions.
    unfoldable pub effective_interval : D
    effective_interval = elim strat.risk_monitor [
      | none ↦ strat.price_interval
      | some monitor ↦
          let dynamic = mul monitor.atr (from_float strat.volatility_scale) in
          if strat.dynamic_interval
            && (not (is_zero n monitor.atr) && above_zero strat.volatility_scale)
            && greater_than n dynamic strat.price_interval
          then dynamic
          else strat.price_interval
    ]

    unfoldable pub skewed_current_price : D → Slots → D
    skewed_current_price current slots =
        if above_zero strat.inventory_skew_factor
        then calculate_skewed_price n current (calculate_current_inventory slots n.zero) n.zero
            (from_float strat.inventory_skew_factor)
        else current

    unfoldable pub get_dynamic_quantity : D
    get_dynamic_quantity = elim strat.risk_monitor [
      | none ↦ strat.order_quantity
      | some monitor ↦
          let vol = monitor.volatility_factor in
          let multiplier = n.f_sub (literal 10 1) (n.f_mul (literal 500 1) vol) in
          let least = literal 1 1 in
          if f_le vol (literal 0 0)
          then strat.order_quantity
          else mul strat.order_quantity
              (from_float (if f_lt multiplier least then least else multiplier))
    ]

    -- generateClientOrderID
    unfoldable pub generate_client_order_id : D → OrderSide → IdGen → String × IdGen
    generate_client_order_id price side g =
        let (oid, g') = generate_compact_order_id n price (side_name side) strat.price_decimals g in
        (add_broker_prefix strat.exchange_name oid, g')

    -- The request that all the orders share.
    abbrev pub limit_request :
        OrderSide → PbDecimal → PbDecimal → Bool → Bool → String → PlaceOrderRequest
    limit_request side quantity price reduce_only post_only oid = record {
      symbol = strat.symbol;
      side = side;
      type = limit;
      time_in_force = gtc;
      quantity = quantity;
      price = price;
      reduce_only = reduce_only;
      post_only = post_only;
      client_order_id = oid;
      use_margin = false;
    }

    abbrev pub place_action : PbDecimal → PlaceOrderRequest → OrderAction
    place_action price request = record {
      type = place;
      symbol = "";
      order_id = pos 0;
      price = price;
      request = some request;
    }

    abbrev pub opening_qty : D
    opening_qty = round_quantity n get_dynamic_quantity strat.qty_decimals

    abbrev pub opening_action : OrderSide → PbDecimal → String → OrderAction
    opening_action side price oid =
        place_action price (limit_request side (from_go_decimal n opening_qty) price false true oid)

    -- requestBuyOrder and requestSellOrderOpening take the price from a slot,
    -- requestBuyOrderForPrice and requestSellOrderForPrice from a level.
    unfoldable pub request_opening : OrderSide → D → PbDecimal → IdGen → Option OrderAction × IdGen
    request_opening side price pb_price g =
        let (oid, g') = generate_client_order_id price side g in
        if less_than n (mul price opening_qty) strat.min_order_value
        then (none, g)
        else (some (opening_action side pb_price oid), g')

    abbrev pub request_buy_order : InventorySlot → IdGen → Option OrderAction × IdGen
    request_buy_order s g = request_opening buy (to_go_decimal n s.price) s.price g

    abbrev pub request_sell_order_opening : InventorySlot → IdGen → Option OrderAction × IdGen
    request_sell_order_opening s g = request_opening sell (to_go_decimal n s.price) s.price g

    abbrev pub request_buy_order_for_price : D → IdGen → Option OrderAction × IdGen
    request_buy_order_for_price price g = request_opening buy price (from_go_decimal n price) g

    abbrev pub request_sell_order_for_price : D → IdGen → Option OrderAction × IdGen
    request_sell_order_for_price price g = request_opening sell price (from_go_decimal n price) g

    abbrev pub closing_action : InventorySlot → OrderSide → PbDecimal → D → String → OrderAction
    closing_action s side quantity price oid =
        place_action s.price (limit_request side quantity (from_go_decimal n price) true false oid)

    unfoldable pub request_sell_order_closing :
        InventorySlot → D → IdGen → Option OrderAction × IdGen
    request_sell_order_closing s interval g =
        let price = to_go_decimal n s.price in
        let (oid, g') = generate_client_order_id price sell g in
        (some (closing_action s sell s.position_qty (add price interval) oid), g')

    unfoldable pub request_closing_order : InventorySlot → D → IdGen → Option OrderAction × IdGen
    request_closing_order s interval g =
        let price = to_go_decimal n s.price in
        let qty = to_go_decimal n s.position_qty in
        let side = if is_positive n qty then sell else buy in
        let target = if is_positive n qty then add price interval else sub price interval in
        let (oid, g') = generate_client_order_id price side g in
        (some (closing_action s side (from_go_decimal n (n.abs qty)) target oid), g')

    abbrev pub cancel_action : InventorySlot → OrderAction
    cancel_action s = record {
      type = cancel;
      symbol = strat.symbol;
      order_id = s.order_id;
      price = s.price;
      request = none;
    }
