-- ===== src/Pb.antt =====
-- market_maker/internal/pb (types.pb.go, state.pb.go, resources.pb.go, events.pb.go): the messages
-- that the components exchange, with the fields that the modelled code reads or writes. A pointer to
-- google.type.Decimal is `Option String`, `none` being nil; an int64 identifier is an integer.
pub mod Convert
pub mod Enums
pub mod OrderId
use opensqt_market_maker.Common.{ℕ, Option, none, some, String, Bool, List}
use opensqt_market_maker.Common.Int.{ℤ}
use Enums.{
  OrderSide, OrderStatus, OrderType, TimeInForce, SlotStatus, PositionStatus, OrderActionType,
}

abbrev pub PbDecimal : Type 0
PbDecimal = Option String

pub record InventorySlot : Type 0 where
  pub price : PbDecimal
  pub position_status : PositionStatus
  pub position_qty : PbDecimal
  pub order_id : ℤ
  pub client_oid : String
  pub order_side : OrderSide
  pub order_status : OrderStatus
  pub order_price : PbDecimal
  pub order_filled_qty : PbDecimal
  pub slot_status : SlotStatus
  pub post_only_fail_count : ℤ

pub record PlaceOrderRequest : Type 0 where
  pub symbol : String
  pub side : OrderSide
  pub type : OrderType
  pub time_in_force : TimeInForce
  pub quantity : PbDecimal
  pub price : PbDecimal
  pub reduce_only : Bool
  pub post_only : Bool
  pub client_order_id : String
  pub use_margin : Bool

pub record OrderAction : Type 0 where
  pub type : OrderActionType
  pub symbol : String
  pub order_id : ℤ
  pub price : PbDecimal
  pub request : Option PlaceOrderRequest

pub record Order : Type 0 where
  pub order_id : ℤ
  pub client_order_id : String
  pub symbol : String
  pub side : OrderSide
  pub type : OrderType
  pub price : PbDecimal
  pub quantity : PbDecimal
  pub executed_qty : PbDecimal
  pub status : OrderStatus
  pub created_at : ℤ  -- in nanoseconds of the epoch, which nil stands for

pub record OrderUpdate : Type 0 where
  pub order_id : ℤ
  pub client_order_id : String
  pub symbol : String
  pub side : OrderSide
  pub status : OrderStatus
  pub price : PbDecimal
  pub executed_qty : PbDecimal

-- A position as the exchange reports it.
pub record Position : Type 0 where
  pub symbol : String
  pub size : PbDecimal
  pub mark_price : PbDecimal
  pub liquidation_price : PbDecimal

pub record ReconciliationResult : Type 0 where
  pub symbol : String
  pub position_match : Bool
  pub local_position : PbDecimal
  pub exchange_position : PbDecimal
  pub divergence : PbDecimal
  pub corrected : Bool

-- A candle of a symbol's price.
pub record Candle : Type 0 where
  pub symbol : String
  pub high : PbDecimal
  pub low : PbDecimal
  pub close : PbDecimal
  pub volume : PbDecimal
  pub is_closed : Bool

pub record RiskAlert : Type 0 where
  pub symbol : String
  pub alert_type : String
  pub severity : String
  pub timestamp : ℤ

pub record Account : Type 0 where
  pub available_balance : PbDecimal
  pub account_leverage : ℤ
  pub is_unified : Bool
  pub health_score : PbDecimal
