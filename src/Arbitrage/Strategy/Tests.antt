-- ===== src/Arbitrage/Strategy/Tests.antt =====
-- The arbitrage strategy on decimals that count tenths.
use opensqt_market_maker.Common.{◌≡◌, refl, ◌⊎◌, true, false, none, some}
use opensqt_market_maker.Common.Int.{ℤ, pos, negsuc}
use opensqt_market_maker.Num.Fixed.{
  fixed, fixed-IsOrdered, fixed-IsGroup, fixed-IsOrderedGroup, read_ℤ, count_marks,
}
use opensqt_market_maker.Pb.{Account}
use opensqt_market_maker.Pb.Convert.{to_go_decimal}
use opensqt_market_maker.Arbitrage.Strategy.{
  StrategyConfig, action_none, entry_negative, exit, reduce_exposure, calculate_action,
  evaluate_um_account_health,
}
use opensqt_market_maker.Arbitrage.Strategy.Once.{enters_or_exits}

abbrev config : StrategyConfig ℤ
config = record {
  min_spread_apr = pos 10;
  exit_spread_apr = pos 2;
  liquidation_threshold = pos 1;
  um_warning_threshold = pos 7;
  um_emergency_threshold = pos 5;
  toxic_basis_threshold = negsuc 0;
}

abbrev account : Account
account = record {
  available_balance = none;
  account_leverage = pos 1;
  is_unified = true;
  health_score = none;
}

enters : calculate_action fixed config (negsuc 10) false ≡ entry_negative
unfolding calculate_action
enters = refl

-- Without a health score the account is left at once.
no_score : evaluate_um_account_health fixed config (some account) ≡ exit
unfolding evaluate_um_account_health to_go_decimal read_ℤ count_marks
no_score = refl

warned :
    evaluate_um_account_health fixed config
      (some (record account { health_score = some "+111111" }))
    ≡ reduce_exposure
unfolding evaluate_um_account_health to_go_decimal read_ℤ count_marks
warned = refl

enters_or_exits_example :
    (calculate_action fixed config (negsuc 10) false ≡ action_none)
    ⊎ (calculate_action fixed config (negsuc 10) true ≡ action_none)
enters_or_exits_example =
    enters_or_exits fixed fixed-IsOrdered fixed-IsGroup fixed-IsOrderedGroup config (negsuc 10) refl
      refl
