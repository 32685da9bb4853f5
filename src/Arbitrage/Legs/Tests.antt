-- ===== src/Arbitrage/Legs/Tests.antt =====
-- Legs on decimals that count tenths.
use opensqt_market_maker.Common.{◌≡◌, refl, List, [], ◌∷◌, none, some}
use opensqt_market_maker.Common.Int.{ℤ, pos, negsuc, ◌+ℤ◌}
use opensqt_market_maker.Common.Assoc.{lookup, insert, delete, string_eq}
use opensqt_market_maker.Num.Fixed.{fixed, fixed-IsGroup, fixed-IsOrderedGroup, read_ℤ, count_marks}
use opensqt_market_maker.Pb.{Position}
use opensqt_market_maker.Pb.Convert.{to_go_decimal}
use opensqt_market_maker.Arbitrage.Legs.{
  LegManager, is_known, leg_key, leg_of, sync_position, sync_positions, sync_answer, sync_state,
  signed, total_delta, get_signed_size,
}
use opensqt_market_maker.Arbitrage.Legs.Signed.{last_size, signed_size-sync_state}

abbrev manager : LegManager ℤ
manager = record { exchanges = "spot" ∷ "perp" ∷ []; legs = [] }

-- A text of k tenths, with its sign.
abbrev position : List Position
position =
    record { symbol = "BTC"; size = some "-1"; mark_price = none; liquidation_price = none } ∷ []

abbrev long_position : List Position
long_position =
    record { symbol = "BTC"; size = some "+11"; mark_price = none; liquidation_price = none } ∷ []

signed_size-sync_state_example :
    get_signed_size fixed "perp" "BTC" (sync_state fixed "perp" "BTC" (some position) manager).0
    ≡ negsuc 1
unfolding is_known last_size to_go_decimal read_ℤ count_marks
signed_size-sync_state_example =
    signed_size-sync_state fixed fixed-IsGroup fixed-IsOrderedGroup "perp" "BTC" position manager
      refl

-- A short of 0.2 and a long of 0.2 add up to nothing.
hedged :
    let m = (sync_state fixed "perp" "BTC" (some position) manager).0 in
    let m' = (sync_state fixed "spot" "BTC" (some long_position) m).0 in
    total_delta fixed "BTC" m'.legs (pos 0) 0 ≡ (pos 0, 2)
unfolding total_delta signed sync_state is_known sync_answer sync_positions sync_position leg_key
    leg_of lookup insert delete to_go_decimal read_ℤ count_marks ◌+ℤ◌
hedged = refl
