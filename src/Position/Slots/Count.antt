-- ===== src/Position/Slots/Count.antt =====
-- The counter of the slots.
use opensqt_market_maker.Common.{◌+◌, ◌≤◌, ◌≡◌, refl, List, [], ◌∷◌, arith, length}
use opensqt_market_maker.Common.Assoc.{Eq, insert}
use opensqt_market_maker.Num.{Num}
use opensqt_market_maker.Pb.Enums.{OrderSide, buy, sell}
use opensqt_market_maker.Pb.Convert.{to_go_decimal, from_go_decimal}
use opensqt_market_maker.TradingUtils.{round_price, calculate_price_levels}
use opensqt_market_maker.TradingUtils.Grid.{length-price_levels}
use opensqt_market_maker.Position.State.{SuperPositionManager}
use opensqt_market_maker.Position.Slots.{place_level, place_levels, initialize}

length-insert {ℓ κ} :
    {K : Type ℓ} {V : Type κ} ⦃e : Eq K⦄ (k : K) (v : V) (m : List (K × V))
    → length (insert k v m) ≤ length m + 1
unfolding insert
length-insert k v [] = omega arith
length-insert k v ((j, w) ∷ m) = ground (arith, length-insert k v m)

module _ (n : Num) where
  open n use {D, neg}

  place_levels-counts :
      (side : OrderSide) (prices : List D) (m : SuperPositionManager D)
      → let m' = place_levels n side prices m in
        (m'.total_slots ≡ m.total_slots + length prices)
        × (length m'.slots ≤ length m.slots + length prices)
        × (m'.config ≡ m.config)
  unfolding place_levels place_level
  place_levels-counts side [] m = (omega arith, omega arith, refl)
  place_levels-counts side (price ∷ prices) m =
      let (count, size, config) = place_levels-counts side prices (place_level n side price m) in
      let rounded = round_price n price m.config.price_decimals in
      let key = n.show (to_go_decimal n (from_go_decimal n rounded)) in
      (omega (arith, count), omega (arith, size, length-insert key m.fresh m.slots), config)

  -- Initialize empties the slot map and not the counter: whatever the manager counted before, it
  -- adds the sizes of the two windows, while the map holds at most that many slots.
  pub initialize-total_slots :
      (anchor : D) (m : SuperPositionManager D)
      → let m' = initialize n anchor m in
        let windows = m.config.buy_window_size + m.config.sell_window_size in
        (m'.total_slots ≡ m.total_slots + windows) × (length m'.slots ≤ windows)
  unfolding initialize
  initialize-total_slots anchor m =
      let start = record m {
        anchor_price = anchor;
        slots = [];
        order_map = [];
        client_omap = [];
      } in
      let interval = m.config.price_interval in
      let buys = calculate_price_levels n anchor (neg interval) m.config.buy_window_size in
      let sells = calculate_price_levels n anchor interval m.config.sell_window_size in
      let (count, size, _) = place_levels-counts buy buys start in
      let (count', size', _) = place_levels-counts sell sells (place_levels n buy buys start) in
      let b = length-price_levels n anchor (neg interval) m.config.buy_window_size in
      let s = length-price_levels n anchor interval m.config.sell_window_size in
      (omega (arith, count, count', b, s), omega (arith, size, size', b, s))
