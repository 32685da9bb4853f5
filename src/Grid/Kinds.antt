-- ===== src/Grid/Kinds.antt =====
-- The kinds of actions that CalculateActions can ask for.
use opensqt_market_maker.Common.{ℕ, suc, ◌≡◌, Bool, true, false, some, List, ◌∷◌, String, get_elem?}
use opensqt_market_maker.Num.{Num, less_than, greater_than}
use opensqt_market_maker.Pb.{OrderAction}
use opensqt_market_maker.Pb.Enums.{buy, sell, locked, position_filled}
use opensqt_market_maker.Grid.{
  Slot, StrategyConfig, place_action, cancel_action, safety_buffer, calculate_dynamic_quantity,
}

module _ (n : Num) (cfg : StrategyConfig n.D n.F) where
  open n use {D, F, add, sub, mul}

  -- The order's value is not below the minimum.
  abbrev pub EnoughValue : F → D → Type 0
  EnoughValue vol price =
      less_than n (mul price (calculate_dynamic_quantity n cfg vol)) cfg.min_order_value ≡ false

  -- The kinds of actions for a reference price, an interval and the slots: the cancellation of an
  -- order that a slot has open; the opening of a buy, which needs that no risk is triggered and a
  -- price below the reference by more than the buffer; the opening of a sell above it; and the
  -- closing of a position, which is a sell unless the strategy is neutral.
  pub data IsSound (skewed interval : D) (vol : F) (risk : Bool) (slots : List (Slot D))
      : OrderAction → Type 0 where
    cancels :
        (i : ℕ) (s : Slot D)
        → get_elem? slots i ≡ some s
        → s.slot_status ≡ locked
        → IsSound skewed interval vol risk slots (cancel_action n cfg s)
    opens_buy :
        (price : D) (oid : String)
        → risk ≡ false
        → less_than n price (sub skewed (safety_buffer n cfg interval)) ≡ true
        → EnoughValue vol price
        → IsSound skewed interval vol risk slots
            (place_action n cfg price buy false (calculate_dynamic_quantity n cfg vol) oid)
    opens_sell :
        (price : D) (oid : String)
        → greater_than n price (add skewed (safety_buffer n cfg interval)) ≡ true
        → EnoughValue vol price
        → IsSound skewed interval vol risk slots
            (place_action n cfg price sell false (calculate_dynamic_quantity n cfg vol) oid)
    closes_long :
        (i : ℕ) (s : Slot D) (oid : String)
        → get_elem? slots i ≡ some s
        → s.position_status ≡ position_filled
        → EnoughValue vol (add s.price interval)
        → IsSound skewed interval vol risk slots (
            place_action n cfg
              (add s.price interval)
              sell
              true
              (calculate_dynamic_quantity n cfg vol)
              oid)
    closes_short :
        (i : ℕ) (s : Slot D) (oid : String)
        → get_elem? slots i ≡ some s
        → s.position_status ≡ position_filled
        → cfg.is_neutral ≡ true
        → EnoughValue vol (sub s.price interval)
        → IsSound skewed interval vol risk slots (
            place_action n cfg
              (sub s.price interval)
              buy
              true
              (calculate_dynamic_quantity n cfg vol)
              oid)

  module _ (skewed interval : D) (vol : F) (risk : Bool) where
    -- An action of the slots is one of more slots.
    pub one_more :
        (x : Slot D) (slots : List (Slot D)) (a : OrderAction)
        → IsSound skewed interval vol risk slots a
        → IsSound skewed interval vol risk (x ∷ slots) a
    one_more x slots a (cancels i s e l) = cancels (suc i) s e l
    one_more x slots a (opens_buy p oid r b v) = opens_buy p oid r b v
    one_more x slots a (opens_sell p oid b v) = opens_sell p oid b v
    one_more x slots a (closes_long i s oid e f v) = closes_long (suc i) s oid e f v
    one_more x slots a (closes_short i s oid e f u v) = closes_short (suc i) s oid e f u v
