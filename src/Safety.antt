-- ===== src/Safety.antt =====
-- market_maker/internal/safety/checker.go. The answers of the exchange are arguments, `none` being an
-- error; what is logged is left out.
pub mod Passes
mod Tests
use opensqt_market_maker.Common.{
  Bool, true, false, ◌&&◌, ◌||◌, Option, none, some, List, [], ◌∷◌, String, if◌then◌else◌,
}
use opensqt_market_maker.Common.Int.{ℤ, pos, ltb_ℤ, leb_ℤ}
use opensqt_market_maker.Common.Assoc.{string_eq}
use opensqt_market_maker.Num.{Num, less_than, less_eq, is_zero}
use opensqt_market_maker.Pb.{Account, Position}
use opensqt_market_maker.Pb.Convert.{to_go_decimal}

pub data SafetyError : Type 0 where
  positions_failed account_failed insufficient_balance leverage_too_high too_many_positions
        no_profit invalid_decimals empty_symbol invalid_interval invalid_quantity
        invalid_order_value invalid_buy_window invalid_sell_window price_failed invalid_price :
      SafetyError

-- What CheckAccountSafety is called with.
pub record Check (D : Type 0) : Type 0 where
  pub symbol : String
  pub current_price : D
  pub order_amount : D
  pub price_interval : D
  pub fee_rate : D
  pub required_positions : ℤ
  pub price_decimals : ℤ

-- At least 1, and at most 1000.
unfoldable pub clamp_positions : ℤ → ℤ
clamp_positions k = if ltb_ℤ k (pos 1) then pos 1 else if ltb_ℤ (pos 1000) k then pos 1000 else k

module _ (n : Num) where
  open n use {
    D, zero, from_int, add, sub, mul, div, abs, int_part, literal, f_mul, to_float, f_trunc,
  }

  -- The sizes of the symbol's positions, without their signs.
  unfoldable pub existing_size : String → List Position → D → D
  existing_size symbol [] total = total
  existing_size symbol (p ∷ positions) total =
      existing_size symbol positions
        (if string_eq.beq p.symbol symbol then add total (abs (to_go_decimal n p.size)) else total)

  -- 80 percent of the positions that the margin pays for.
  unfoldable pub safe_max_positions : D → ℤ → D → ℤ
  safe_max_positions available_balance leverage order_amount =
      let max_margin = mul available_balance (from_int leverage) in
      let max_positions = int_part (div max_margin order_amount) in
      f_trunc (f_mul (to_float (from_int max_positions)) (literal 8 1))

  unfoldable pub calculate_max_positions : D → ℤ → D → ℤ
  unfolding clamp_positions safe_max_positions
  calculate_max_positions available_balance leverage order_amount =
      if is_zero n order_amount
      then pos 1
      else clamp_positions (safe_max_positions available_balance leverage order_amount)

  -- The profit of a trade after the fees of its two orders.
  unfoldable pub net_profit : D → D → D → D
  net_profit current_price price_interval fee_rate =
      sub price_interval (mul (add current_price (add current_price price_interval)) fee_rate)

  -- The checks on the account, from step 3 on.
  unfoldable pub check_account : Check D → Account → Option SafetyError
  unfolding calculate_max_positions net_profit
  check_account c account =
      let available = to_go_decimal n account.available_balance in
      let max_allowed = calculate_max_positions available account.account_leverage c.order_amount in
      if less_eq n available zero
      then some insufficient_balance
      else if ltb_ℤ (pos 10) account.account_leverage
      then some leverage_too_high
      else if ltb_ℤ max_allowed c.required_positions
      then some too_many_positions
      else if less_eq n (net_profit c.current_price c.price_interval c.fee_rate) zero
      then some no_profit
      else if ltb_ℤ c.price_decimals (pos 0) || ltb_ℤ (pos 8) c.price_decimals
      then some invalid_decimals
      else none

  unfoldable pub with_account : Check D → Option Account → Option SafetyError
  unfolding check_account
  with_account c none = some account_failed
  with_account c (some account) = check_account c account

  -- CheckAccountSafety, whose answer `none` is that there is no error.
  unfoldable pub check_account_safety :
      Check D → Option (List Position) → Option Account → Option SafetyError
  unfolding existing_size with_account
  check_account_safety c none account = some positions_failed
  check_account_safety c (some positions) account =
      if is_zero n (existing_size c.symbol positions zero) then with_account c account else none

  -- estimateTradingFees; the 2.0 is the number of trades for a position.
  unfoldable pub estimate_trading_fees : D → ℤ → n.F → D
  estimate_trading_fees order_amount num_positions fee_rate =
      mul (mul (mul order_amount (from_int num_positions)) (n.from_float (literal 2 0)))
        (n.from_float fee_rate)

  -- ValidateTradingParameters
  unfoldable pub validate_trading_parameters : String → D → D → D → ℤ → ℤ → Option SafetyError
  validate_trading_parameters symbol price_interval order_quantity min_order_value buy_window
        sell_window =
      if string_eq.beq symbol ""
      then some empty_symbol
      else if less_eq n price_interval zero
      then some invalid_interval
      else if less_eq n order_quantity zero
      then some invalid_quantity
      else if less_than n min_order_value zero
      then some invalid_order_value
      else if leb_ℤ buy_window (pos 0) || ltb_ℤ (pos 200) buy_window
      then some invalid_buy_window
      else if leb_ℤ sell_window (pos 0) || ltb_ℤ (pos 200) sell_window
      then some invalid_sell_window
      else none

  -- CheckExchangeConnectivity, with the answers of GetAccount and GetLatestPrice; an error of
  -- GetOpenOrders is only logged.
  unfoldable pub check_exchange_connectivity : Option Account → Option D → Option SafetyError
  check_exchange_connectivity none price = some account_failed
  check_exchange_connectivity (some account) none = some price_failed
  check_exchange_connectivity (some account) (some price) =
      if less_eq n price zero then some invalid_price else none
