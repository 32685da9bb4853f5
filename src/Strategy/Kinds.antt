-- ===== src/Strategy/Kinds.antt =====
-- The kinds of actions that GridStrategy can ask for.
use opensqt_market_maker.Common.{
  ℕ, suc, ◌≡◌, true, false, Option, none, some, ◌∷◌, String, if◌then◌else◌, get_elem?,
}
use opensqt_market_maker.Num.{Num, less_than, greater_than, is_positive}
use opensqt_market_maker.Pb.{InventorySlot, OrderAction}
use opensqt_market_maker.Pb.Enums.{
  OrderSide, side_unspecified, buy, sell, free, locked, empty, position_filled,
}
use opensqt_market_maker.Pb.Convert.{to_go_decimal, from_go_decimal}
use opensqt_market_maker.Pb.OrderId.{IdGen}
use opensqt_market_maker.Strategy.Orders.{
  GridStrategy, Slots, opening_qty, opening_action, closing_action, cancel_action,
}
use opensqt_market_maker.Strategy.{safety_buffer, missing}

-- The code returns with what it should, or panics for a reason.
abbrev pub ReturnsOr : {X : Type 0} → Type 0 → (X → Type 0) → Option (X × IdGen) → Type 0
ReturnsOr Reason P none = Reason
ReturnsOr Reason P (some r) = P r.0

module _ (n : Num) (strat : GridStrategy n.D n.F) where
  open n use {D, F, add, sub, mul}

  -- The price is on the side's own half of the grid, outside the buffer.
  abbrev pub IsOutside : D → D → OrderSide → D → Type 0
  IsOutside skewed interval buy price =
      less_than n price (sub skewed (safety_buffer n strat interval)) ≡ true
  IsOutside skewed interval sell price =
      greater_than n price (add skewed (safety_buffer n strat interval)) ≡ true
  IsOutside skewed interval side_unspecified price = ⊥

  -- An order of the opening quantity at the price is worth the minimum.
  abbrev pub IsWorth : D → Type 0
  IsWorth price = less_than n (mul price (opening_qty n strat)) strat.min_order_value ≡ false

  -- The side and the price of the order that closes a position.
  abbrev pub closing_side : D → OrderSide
  closing_side qty = if is_positive n qty then sell else buy

  abbrev pub closing_price : D → D → D → D
  closing_price interval price qty =
      if is_positive n qty then add price interval else sub price interval

  -- The kinds of actions for a slot: the cancellation of the order of a locked slot; the opening
  -- order of a free slot without a position; and the closing order of a free slot with one, which
  -- is a sell of the slot's quantity at the next level, or, in the neutral mode, an order of its
  -- amount against its sign.
  pub data IsSlotAction (skewed interval : D) (slots : Slots n) : OrderAction → Type 0 where
    cancels :
        (i : ℕ) (k : String) (s : InventorySlot)
        → get_elem? slots i ≡ some (k, s)
        → s.slot_status ≡ locked
        → IsSlotAction skewed interval slots (cancel_action n strat s)
    opens_slot :
        (i : ℕ) (k : String) (s : InventorySlot) (side : OrderSide) (oid : String)
        → get_elem? slots i ≡ some (k, s)
        → s.slot_status ≡ free
        → s.position_status ≡ empty
        → IsOutside skewed interval side (to_go_decimal n s.price)
        → IsWorth (to_go_decimal n s.price)
        → IsSlotAction skewed interval slots (opening_action n strat side s.price oid)
    closes_long :
        (i : ℕ) (k : String) (s : InventorySlot) (oid : String)
        → get_elem? slots i ≡ some (k, s)
        → s.slot_status ≡ free
        → s.position_status ≡ position_filled
        → IsSlotAction skewed interval slots (
            closing_action n strat s sell s.position_qty
              (add (to_go_decimal n s.price) interval)
              oid)
    closes_neutral :
        (i : ℕ) (k : String) (s : InventorySlot) (oid : String)
        → get_elem? slots i ≡ some (k, s)
        → s.slot_status ≡ free
        → s.position_status ≡ position_filled
        → strat.is_neutral ≡ true
        → IsSlotAction skewed interval slots (
            closing_action n strat s
              (closing_side (to_go_decimal n s.position_qty))
              (from_go_decimal n (n.abs (to_go_decimal n s.position_qty)))
              (closing_price interval (to_go_decimal n s.price) (to_go_decimal n s.position_qty))
              oid)

  -- An action for a slot, or the opening order of a level that has no slot.
  pub data IsGridAction (skewed interval : D) (slots : Slots n) : OrderAction → Type 0 where
    for_slot :
        (a : OrderAction)
        → IsSlotAction skewed interval slots a
        → IsGridAction skewed interval slots a
    opens_level :
        (price : D) (side : OrderSide) (oid : String)
        → missing n strat (n.show price) slots ≡ true
        → IsOutside skewed interval side price
        → IsWorth price
        → IsGridAction skewed interval slots
            (opening_action n strat side (from_go_decimal n price) oid)

  module _ (skewed interval : D) where
    -- An action of the slots is one of more slots.
    pub one_more :
        (x : String × InventorySlot) (slots : Slots n) (a : OrderAction)
        → IsSlotAction skewed interval slots a
        → IsSlotAction skewed interval (x ∷ slots) a
    one_more x slots a (cancels i k s e l) = cancels (suc i) k s e l
    one_more x slots a (opens_slot i k s side oid e f p b w) =
        opens_slot (suc i) k s side oid e f p b w
    one_more x slots a (closes_long i k s oid e f p) = closes_long (suc i) k s oid e f p
    one_more x slots a (closes_neutral i k s oid e f p u) = closes_neutral (suc i) k s oid e f p u

  -- A slot on which the neutral strategy panics: it is free, and has a position without a quantity.
  pub record PanicsAt (s : InventorySlot) : Type 0 where
    pub is_neutral : strat.is_neutral ≡ true
    pub is_free : s.slot_status ≡ free
    pub is_held : s.position_status ≡ position_filled
    pub no_quantity : s.position_qty ≡ none

  -- One of the slots is such a slot.
  abbrev pub HasPanic : Slots n → Type 0
  HasPanic slots =
      (i : ℕ) × (k : String) × (s : InventorySlot) × (get_elem? slots i ≡ some (k, s)) × PanicsAt s
