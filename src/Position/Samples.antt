-- ===== src/Position/Samples.antt =====
-- A manager with one slot, on decimals that count tenths.
use opensqt_market_maker.Common.{refl, some, [], ◌∷◌, arith}
use opensqt_market_maker.Common.Int.{ℤ, pos}
use opensqt_market_maker.Common.Assoc.{string_eq, int_eq}
use opensqt_market_maker.Num.Fixed.{fixed, show_ℤ, read_ℤ, marks, count_marks}
use opensqt_market_maker.Pb.{InventorySlot}
use opensqt_market_maker.Pb.Enums.{buy, locked}
use opensqt_market_maker.Pb.Convert.{to_go_decimal}
use opensqt_market_maker.Position.State.{
  SpmConfig, SuperPositionManager, new_super_position_manager,
}
use opensqt_market_maker.Position.Slots.{created_slot}
use opensqt_market_maker.Position.WellFormed.Defs.{IsWellFormed, Keyed, Below, Avoids, Distinct}

abbrev pub config : SpmConfig ℤ
config = record {
  symbol = "BTCUSDT";
  exchange_name = "binance";
  price_interval = pos 1;
  order_quantity = pos 10;
  min_order_value = pos 1;
  buy_window_size = 1;
  sell_window_size = 1;
  price_decimals = pos 1;
  qty_decimals = pos 1;
}

-- A slot at a price of 0.5, whose order 7 is open.
abbrev pub open_slot : InventorySlot
open_slot = record (created_slot fixed (pos 5)) {
  price = some "+11111";
  order_id = pos 7;
  client_oid = "c7";
  order_side = buy;
  slot_status = locked;
}

-- A manager whose only slot is the given one.
abbrev pub manager : InventorySlot → SuperPositionManager ℤ
manager s = record (new_super_position_manager fixed config (λ _. s)) {
  fresh = 1;
  slots = ("+11111", 0) ∷ [];
  order_map = (pos 7, 0) ∷ [];
  client_omap = ("c7", 0) ∷ [];
  anchor_price = pos 5;
}

pub manager-IsWellFormed : IsWellFormed fixed (manager open_slot)
unfolding Keyed Below Avoids Distinct show_ℤ read_ℤ marks count_marks new_super_position_manager
    to_go_decimal
manager-IsWellFormed = record {
  keyed = (refl, tt);
  distinct = (tt, tt);
  known_slots = (omega arith, tt);
  known_orders = (omega arith, tt);
  known_clients = (omega arith, tt);
}
