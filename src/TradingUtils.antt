-- ===== src/TradingUtils.antt =====
-- market_maker/pkg/tradingutils. A window size is an int that is not negative: CalculatePriceLevels
-- panics on a negative one (its `make` has it for a capacity).
pub mod Grid
mod Tests
use opensqt_market_maker.Common.{ℕ, zero, suc, List, [], ◌∷◌, if◌then◌else◌}
use opensqt_market_maker.Common.Int.{ℤ, pos}
use opensqt_market_maker.Common.Words.{to_i32}
use opensqt_market_maker.Num.{Num, is_zero}

module _ (n : Num) where
  open n use {D, from_int, add, sub, mul, div}

  unfoldable pub round_price : D → ℤ → D
  round_price price price_decimals = n.round price (to_i32 price_decimals)

  unfoldable pub round_quantity : D → ℤ → D
  round_quantity qty qty_decimals = n.round qty (to_i32 qty_decimals)

  -- The loop of CalculatePriceLevels from `i` on, with `count` rounds left.
  unfoldable pub levels_from : ℕ → D → D → ℕ → List D
  levels_from i anchor interval zero = []
  levels_from i anchor interval (suc count) =
      add anchor (mul interval (from_int (pos i))) ∷ levels_from (suc i) anchor interval count

  unfoldable pub calculate_price_levels : D → D → ℕ → List D
  unfolding levels_from
  calculate_price_levels anchor interval count = levels_from 1 anchor interval count

  unfoldable pub find_nearest_grid_price : D → D → D → D
  find_nearest_grid_price current anchor interval =
      if is_zero n interval
      then current
      else add anchor (mul (n.round (div (sub current anchor) interval) (pos 0)) interval)

  unfoldable pub calculate_net_profit : D → D → D → D → D
  calculate_net_profit buy sell buy_fee_rate sell_fee_rate =
      sub (sub (sub sell buy) (mul buy buy_fee_rate)) (mul sell sell_fee_rate)

  unfoldable pub calculate_skewed_price : D → D → D → D → D
  calculate_skewed_price base inventory target skew_factor =
      mul base (sub (from_int (pos 1)) (mul (sub inventory target) skew_factor))
