-- ===== src/Safety/Tests.antt =====
-- The checks on decimals that count tenths: a balance of 1, a leverage of 5, orders of 0.5.
use opensqt_market_maker.Common.{◌≡◌, ◌⊎◌, refl, List, [], none, some, false}
use opensqt_market_maker.Common.Int.{ℤ, pos, ◌+ℤ◌, ◌-ℤ◌, ◌*ℤ◌}
use opensqt_market_maker.Common.Assoc.{string_eq}
use opensqt_market_maker.Num.{is_zero}
use opensqt_market_maker.Num.Fixed.{fixed, read_ℤ, count_marks, divide}
use opensqt_market_maker.Pb.{Account, Position}
use opensqt_market_maker.Pb.Convert.{to_go_decimal}
use opensqt_market_maker.Safety.{
  Check, existing_size, clamp_positions, safe_max_positions, calculate_max_positions, net_profit,
  check_account, with_account, check_account_safety,
}
use opensqt_market_maker.Safety.Passes.{IsSafe, check_account_safety-IsSafe}

abbrev check : Check ℤ
check = record {
  symbol = "BTC";
  current_price = pos 10;
  order_amount = pos 5;
  price_interval = pos 10;
  fee_rate = pos 1;
  required_positions = pos 8;
  price_decimals = pos 2;
}

abbrev account : Account
account = record {
  available_balance = some "+1111111111";
  account_leverage = pos 5;
  is_unified = false;
  health_score = none;
}

-- Ten positions are paid for, of which eight are allowed.
check_passes : check_account_safety fixed check (some []) (some account) ≡ none
unfolding check_account_safety existing_size with_account check_account calculate_max_positions
    safe_max_positions clamp_positions net_profit to_go_decimal read_ℤ count_marks divide ◌+ℤ◌ ◌-ℤ◌
    ◌*ℤ◌
check_passes = refl

check_account_safety-IsSafe_example :
    (ps : List Position) × (some [] ≡ some ps)
    × ((is_zero fixed (existing_size fixed "BTC" ps (pos 0)) ≡ false)
        ⊎ ((a : Account) × (some account ≡ some a) × IsSafe fixed check a))
check_account_safety-IsSafe_example =
    check_account_safety-IsSafe fixed check (some []) (some account) check_passes
