-- ===== src/Pb/Enums.antt =====
-- market_maker/internal/pb/types.pb.go: the enumerations, and the comparisons made with them.
use opensqt_market_maker.Common.{ℕ, Bool, true, false, String, ◌≡◌, arith}

pub data OrderSide : Type 0 where
  side_unspecified buy sell : OrderSide

pub data OrderType : Type 0 where
  type_unspecified limit market : OrderType

pub data OrderStatus : Type 0 where
  status_unspecified new partially_filled filled canceled rejected expired : OrderStatus

pub data TimeInForce : Type 0 where
  tif_unspecified gtc ioc fok gtx : TimeInForce

pub data PositionStatus : Type 0 where
  position_unspecified empty position_filled : PositionStatus

pub data SlotStatus : Type 0 where
  slot_unspecified free pending locked : SlotStatus

pub data OrderActionType : Type 0 where
  action_unspecified place cancel : OrderActionType

abbrev pub is_buy : OrderSide → Bool
is_buy buy = true
is_buy _ = false

abbrev pub is_sell : OrderSide → Bool
is_sell sell = true
is_sell _ = false

abbrev pub is_side_unspecified : OrderSide → Bool
is_side_unspecified side_unspecified = true
is_side_unspecified _ = false

abbrev pub is_free : SlotStatus → Bool
is_free free = true
is_free _ = false

abbrev pub is_locked : SlotStatus → Bool
is_locked locked = true
is_locked _ = false

abbrev pub is_empty : PositionStatus → Bool
is_empty empty = true
is_empty _ = false

abbrev pub is_position_filled : PositionStatus → Bool
is_position_filled position_filled = true
is_position_filled _ = false

abbrev pub is_new : OrderStatus → Bool
is_new new = true
is_new _ = false

abbrev pub is_partially_filled : OrderStatus → Bool
is_partially_filled partially_filled = true
is_partially_filled _ = false

abbrev pub is_place : OrderActionType → Bool
is_place place = true
is_place _ = false

abbrev pub is_cancel : OrderActionType → Bool
is_cancel cancel = true
is_cancel _ = false

-- The number of a status on the wire, which tells the statuses apart.
abbrev pub status_number : OrderStatus → ℕ
status_number status_unspecified = 0
status_number new = 1
status_number partially_filled = 2
status_number filled = 3
status_number canceled = 4
status_number rejected = 5
status_number expired = 6

-- OrderSide.String(): the generated name of the value (OrderSide_name).
abbrev pub side_name : OrderSide → String
side_name side_unspecified = "ORDER_SIDE_UNSPECIFIED"
side_name buy = "ORDER_SIDE_BUY"
side_name sell = "ORDER_SIDE_SELL"

pub status_number-inj : (s t : OrderStatus) → status_number s ≡ status_number t → s ≡ t
status_number-inj s t h = ground arith
