-- ===== src/TradingUtils/Tests.antt =====
-- Grids on decimals that count tenths.
use opensqt_market_maker.Common.{◌≡◌, refl, [], ◌∷◌}
use opensqt_market_maker.Common.Int.{pos, negsuc, ◌+ℤ◌, ◌-ℤ◌, ◌*ℤ◌}
use opensqt_market_maker.Num.Fixed.{fixed, divide, round_tenths}
use opensqt_market_maker.TradingUtils.{
  calculate_price_levels, find_nearest_grid_price, calculate_net_profit,
}

-- Buy levels below 100 at an interval of 1.5.
buy_levels :
    calculate_price_levels fixed (pos 1000) (negsuc 14) 3 ≡ pos 985 ∷ pos 970 ∷ pos 955 ∷ []
unfolding calculate_price_levels ◌+ℤ◌ ◌*ℤ◌
buy_levels = refl

-- 101 lies nearest to the level 101.5.
nearest : find_nearest_grid_price fixed (pos 1010) (pos 1000) (pos 15) ≡ pos 1015
unfolding find_nearest_grid_price divide round_tenths ◌+ℤ◌ ◌-ℤ◌ ◌*ℤ◌
nearest = refl

-- A round trip from 100 to 101 at a fee of 0.1 on each side.
net_profit : calculate_net_profit fixed (pos 1000) (pos 1010) (pos 1) (pos 1) ≡ negsuc 190
unfolding calculate_net_profit ◌-ℤ◌ ◌*ℤ◌
net_profit = refl
