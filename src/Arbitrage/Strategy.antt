-- ===== src/Arbitrage/Strategy.antt =====
-- market_maker/internal/trading/arbitrage/strategy.go, and spread.go, which computes its spread.
pub mod Once
mod Tests
use opensqt_market_maker.Common.{
  Bool, true, false, not, Option, none, some, ◌||◌, ◌&&◌, if◌then◌else◌,
}
use opensqt_market_maker.Common.Int.{ℤ, pos}
use opensqt_market_maker.Num.{Num, less_than, greater_than, less_eq, is_zero, is_positive}
use opensqt_market_maker.Pb.{Account, Position, PbDecimal}
use opensqt_market_maker.Pb.Convert.{to_go_decimal}

pub record StrategyConfig (D : Type 0) : Type 0 where
  pub min_spread_apr : D
  pub exit_spread_apr : D
  pub liquidation_threshold : D
  pub um_warning_threshold : D
  pub um_emergency_threshold : D
  pub toxic_basis_threshold : D

pub data ArbitrageAction : Type 0 where
  action_none entry_positive entry_negative exit reduce_exposure toxic_exit : ArbitrageAction

abbrev has_score : PbDecimal → Bool
has_score none = false
has_score (some text) = true

module _ (n : Num) where
  open n use {D, from_int, sub, mul, div, neg, abs, literal, from_float}

  unfoldable pub new_strategy : StrategyConfig D → StrategyConfig D
  new_strategy c = record c {
    um_warning_threshold =
        if is_zero n c.um_warning_threshold
        then from_float (literal 7 1)
        else c.um_warning_threshold;
    um_emergency_threshold =
        if is_zero n c.um_emergency_threshold
        then from_float (literal 5 1)
        else c.um_emergency_threshold;
  }

  unfoldable pub calculate_action : StrategyConfig D → D → Bool → ArbitrageAction
  calculate_action c spread_apr is_position_open =
      if not is_position_open && greater_than n spread_apr c.min_spread_apr
      then entry_positive
      else if not is_position_open && less_than n spread_apr (neg c.min_spread_apr)
      then entry_negative
      else if is_position_open && less_than n (abs spread_apr) c.exit_spread_apr
      then exit
      else action_none

  unfoldable pub should_emergency_exit : StrategyConfig D → Position → Bool
  should_emergency_exit c p =
      let mark_price = to_go_decimal n p.mark_price in
      let liq_price = to_go_decimal n p.liquidation_price in
      let size = to_go_decimal n p.size in
      let distance =
        if is_positive n size
        then abs (div (sub mark_price liq_price) mark_price)
        else abs (div (sub liq_price mark_price) mark_price) in
      if is_zero n liq_price || is_zero n size
      then false
      else less_than n distance c.liquidation_threshold

  unfoldable pub evaluate_um_account_health : StrategyConfig D → Option Account → ArbitrageAction
  evaluate_um_account_health c none = action_none
  evaluate_um_account_health c (some account) =
      let health = to_go_decimal n account.health_score in
      if not account.is_unified
      then action_none
      else if is_zero n health && has_score account.health_score
      then exit
      else if less_than n health c.um_emergency_threshold
      then exit
      else if less_than n health c.um_warning_threshold
      then reduce_exposure
      else action_none

  unfoldable pub evaluate_basis : StrategyConfig D → D → D → ArbitrageAction
  evaluate_basis c spot_price perp_price =
      let basis = div (sub perp_price spot_price) spot_price in
      if is_zero n spot_price || is_zero n perp_price || is_zero n c.toxic_basis_threshold
      then action_none
      else if less_than n basis c.toxic_basis_threshold
      then toxic_exit
      else action_none

  unfoldable pub compute_spread : D → D → D
  compute_spread long_rate short_rate = sub short_rate long_rate

  unfoldable pub annualize_spread : D → D → D
  annualize_spread spread interval_hours =
      if less_eq n interval_hours n.zero
      then n.zero
      else mul spread (div (from_int (pos 8760)) interval_hours)
