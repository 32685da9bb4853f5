-- ===== src/Strategy/Actions.antt =====
-- Which actions GridStrategy can ask for.
use opensqt_market_maker.Common.{
  suc, ◌≡◌, refl, Option, Option-cases, none, some, Bool, true, ◌&&◌, List, [], ◌∷◌, String,
  if◌then◌else◌, arith, All, All-append, All-map, Bool-cases, inl, inr,
}
use mathlib.Core.Option
use opensqt_market_maker.Num.{Num, less_than, greater_than}
use opensqt_market_maker.Pb.{InventorySlot, OrderAction, PbDecimal}
use opensqt_market_maker.Pb.Enums.{OrderSide, buy, sell, free, locked, empty, position_filled}
use opensqt_market_maker.Pb.Convert.{to_go_decimal, from_go_decimal}
use opensqt_market_maker.Pb.OrderId.{IdGen}
use opensqt_market_maker.TradingUtils.{round_price, calculate_price_levels, find_nearest_grid_price}
use opensqt_market_maker.Strategy.Orders.{
  GridStrategy, Slots, effective_interval, skewed_current_price, opening_qty, opening_action,
  request_opening, request_sell_order_closing, request_closing_order, cancel_action,
}
use opensqt_market_maker.Strategy.{
  safety_buffer, open_slot, close_slot, close_neutral, with_action, after_slot, open_levels,
  trail_slot, calculate_slot_adjustment, process_slots, missing, open_missing, keys_of, actions_at,
  is_tripped, calculate_actions,
}
use opensqt_market_maker.Grid.Append.{IfSome, append_some-All}
use opensqt_market_maker.Strategy.Kinds.{
  IsOutside, IsWorth, IsSlotAction, cancels, opens_slot, closes_long, closes_neutral, IsGridAction,
  for_slot, opens_level, one_more, PanicsAt, HasPanic, ReturnsOr,
}

module _ (n : Num) (strat : GridStrategy n.D n.F) where
  open n use {D, F, add, sub, mul}

  request_opening-holds :
      (P : OrderAction → Type 0) (side : OrderSide) (price : D) (pb_price : PbDecimal) (g : IdGen)
      → ((oid : String) → IsWorth n strat price → P (opening_action n strat side pb_price oid))
      → IfSome P (request_opening n strat side price pb_price g).0
  unfolding request_opening
  request_opening-holds P side price pb_price g h =
      elim (Bool-cases (less_than n (mul price (opening_qty n strat)) strat.min_order_value)) [
        | inl e ↦ rw e tt
        | inr e ↦ rw e (h _ e)
      ]

  module _ (skewed interval : D) where
    -- The first of the slots.
    module _ (k : String) (s : InventorySlot) (slots : Slots n) where
      abbrev Sound : OrderAction → Type 0
      Sound = IsSlotAction n strat skewed interval ((k, s) ∷ slots)

      open_slot-Sound :
          (b c : Bool) (g : IdGen)
          → s.slot_status ≡ free
          → s.position_status ≡ empty
          → IfSome Sound (open_slot n strat s skewed interval b c g).0
      unfolding open_slot
      open_slot-Sound b c g f p =
          let price = to_go_decimal n s.price in
          let below = less_than n price (sub skewed (safety_buffer n strat interval)) in
          let above = greater_than n price (add skewed (safety_buffer n strat interval)) in
          elim (Bool-cases (b && below)) [
            | inl e ↦ rw e (
                request_opening-holds Sound buy price s.price g
                  (λ oid w. opens_slot 0 k s buy oid refl f p (ground arith) w))
            | inr e ↦ elim (Bool-cases (c && above)) [
              | inl d ↦
                  rw (e, d)
                    (request_opening-holds Sound sell price s.price g
                      (λ oid w. opens_slot 0 k s sell oid refl f p (ground arith) w))
              | inr d ↦ rw (e, d) tt
            ]
          ]

      closing-Sound :
          (g : IdGen)
          → s.slot_status ≡ free
          → s.position_status ≡ position_filled
          → IfSome Sound (request_sell_order_closing n strat s interval g).0
      unfolding request_sell_order_closing
      closing-Sound g f p = closes_long 0 k s _ refl f p

      neutral_closing-Sound :
          (g : IdGen)
          → s.slot_status ≡ free
          → s.position_status ≡ position_filled
          → strat.is_neutral ≡ true
          → IfSome Sound (request_closing_order n strat s interval g).0
      unfolding request_closing_order
      neutral_closing-Sound g f p e = closes_neutral 0 k s _ refl f p e

      close_slot-Sound :
          (g : IdGen)
          → s.slot_status ≡ free
          → s.position_status ≡ position_filled
          → ReturnsOr (PanicsAt n strat s) (IfSome Sound) (close_slot n strat s skewed interval g)
      unfolding close_slot close_neutral
      close_slot-Sound g f p = elim (Bool-cases strat.is_neutral) [
        | inr e ↦ ground (arith, closing-Sound g f p)
        | inl e ↦ elim (Option-cases s.position_qty) [
          | inl q ↦
              let panic : PanicsAt n strat s = record {
                is_neutral = e;
                is_free = f;
                is_held = p;
                no_quantity = q;
              } in
              ground (arith, panic, e, q)
          | inr (v, q) ↦ ground (arith, neutral_closing-Sound g f p e, q)
        ]
      ]

      trail_slot-Sound :
          s.slot_status ≡ locked → IfSome Sound (trail_slot n strat s skewed interval)
      unfolding trail_slot
      trail_slot-Sound l =
          let held : Sound (cancel_action n strat s) = cancels 0 k s refl l in ground (arith, held)

      adjustment-Sound :
          (b c : Bool) (g : IdGen)
          → ReturnsOr
              (PanicsAt n strat s)
              (IfSome Sound)
              (calculate_slot_adjustment n strat s skewed b c interval g)
      unfolding calculate_slot_adjustment
      adjustment-Sound b c g =
          ground (arith, open_slot-Sound b c g, close_slot-Sound g, trail_slot-Sound)

    with_action-Sound :
        (k : String) (s : InventorySlot) (slots : Slots n) (a : Option OrderAction)
        (r : Option (List OrderAction × IdGen))
        → IfSome (IsSlotAction n strat skewed interval ((k, s) ∷ slots)) a
        → ReturnsOr (HasPanic n strat slots) (All (IsSlotAction n strat skewed interval slots)) r
        → ReturnsOr
            (HasPanic n strat ((k, s) ∷ slots))
            (All (IsSlotAction n strat skewed interval ((k, s) ∷ slots)))
            (with_action n strat a r)
    unfolding with_action
    with_action-Sound k s slots a none h (i, l, t, found, panic) = (suc i, l, t, found, panic)
    with_action-Sound k s slots a (some (actions, g)) h rest =
        append_some-All (IsSlotAction n strat skewed interval ((k, s) ∷ slots)) a actions h (
          All-map (IsSlotAction n strat skewed interval slots)
            (IsSlotAction n strat skewed interval ((k, s) ∷ slots))
            (one_more n strat skewed interval (k, s) slots) actions rest)

    after_slot-Sound :
        (k : String) (s : InventorySlot) (slots : Slots n) (r : Option (Option OrderAction × IdGen))
        (rest : IdGen → Option (List OrderAction × IdGen))
        → ReturnsOr
            (PanicsAt n strat s)
            (IfSome (IsSlotAction n strat skewed interval ((k, s) ∷ slots)))
            r
        → ((g : IdGen)
            → ReturnsOr
                (HasPanic n strat slots)
                (All (IsSlotAction n strat skewed interval slots))
                (rest g))
        → ReturnsOr
            (HasPanic n strat ((k, s) ∷ slots))
            (All (IsSlotAction n strat skewed interval ((k, s) ∷ slots)))
            (after_slot n strat r rest)
    unfolding after_slot
    after_slot-Sound k s slots none rest h t = (0, k, s, refl, h)
    after_slot-Sound k s slots (some (a, g)) rest h t =
        with_action-Sound k s slots a (rest g) h (t g)

    process_slots_sound :
        (slots : Slots n) (buys sells : List String) (g : IdGen)
        → ReturnsOr
            (HasPanic n strat slots)
            (All (IsSlotAction n strat skewed interval slots))
            (process_slots n strat slots skewed interval buys sells g)
    unfolding process_slots
    process_slots_sound [] buys sells g = tt
    process_slots_sound ((k, s) ∷ slots) buys sells g =
        after_slot-Sound k s slots _ _ (adjustment-Sound k s slots _ _ g)
          (λ g1. process_slots_sound slots buys sells g1)

    open_missing_sound :
        (side : OrderSide) (may_open : D → Bool) (prices : List D) (slots : Slots n) (g : IdGen)
        → ((price : D) → may_open price ≡ true → IsOutside n strat skewed interval side price)
        → All
            (IsGridAction n strat skewed interval slots)
            (open_missing n strat side may_open prices slots g).0
    unfolding open_missing
    open_missing_sound side may_open [] slots g h = tt
    open_missing_sound side may_open (p ∷ prices) slots g h =
        let rounded = round_price n p strat.price_decimals in
        let Sound = IsGridAction n strat skewed interval slots in
        append_some-All Sound _ _
          (elim (Bool-cases (missing n strat (n.show rounded) slots && may_open rounded)) [
            | inl e ↦ rw e (
                request_opening-holds Sound side rounded (from_go_decimal n rounded) g (λ oid w.
                  opens_level rounded side oid (ground arith) (h rounded (ground arith)) w))
            | inr e ↦ rw e tt
          ])
          (open_missing_sound side may_open prices slots _ h)

    open_levels-Sound :
        (kept : List OrderAction) (slots : Slots n) (buys sells : List D) (g : IdGen)
        → All (IsSlotAction n strat skewed interval slots) kept
        → All
            (IsGridAction n strat skewed interval slots)
            (open_levels n strat kept slots skewed interval buys sells g).0
    unfolding open_levels
    open_levels-Sound kept slots buys sells g h =
        let buffer = safety_buffer n strat interval in
        let below : D → Bool = λ p. less_than n p (sub skewed buffer) in
        let above : D → Bool = λ p. greater_than n p (add skewed buffer) in
        let bought = open_missing n strat buy below buys slots g in
        let Sound = IsGridAction n strat skewed interval slots in
        All-append Sound _ _
          (All-append Sound _ _
            (All-map (IsSlotAction n strat skewed interval slots) Sound for_slot kept h)
            (open_missing_sound buy below buys slots g (λ p e. e)))
          (open_missing_sound sell above sells slots bought.1 (λ p e. e))

    levels_after :
        (slots : Slots n) (buys sells : List D) (r : Option (List OrderAction × IdGen))
        → ReturnsOr (HasPanic n strat slots) (All (IsSlotAction n strat skewed interval slots)) r
        → ReturnsOr (HasPanic n strat slots) (All (IsGridAction n strat skewed interval slots)) (
            Option.map
              (λ (x : List OrderAction × IdGen).
                open_levels n strat x.0 slots skewed interval buys sells x.1)
              r)
    levels_after slots buys sells none h = h
    levels_after slots buys sells (some (kept, g)) h = open_levels-Sound kept slots buys sells g h

    actions_at_sound :
        (slots : Slots n) (anchor : D) (g : IdGen)
        → ReturnsOr
            (HasPanic n strat slots)
            (All (IsGridAction n strat skewed interval slots))
            (actions_at n strat slots anchor skewed interval g)
    unfolding actions_at
    actions_at_sound slots anchor g =
        let center = find_nearest_grid_price n skewed anchor interval in
        let buys = calculate_price_levels n center (n.neg interval) strat.buy_window_size in
        let levels = calculate_price_levels n center interval strat.sell_window_size in
        let sells = if strat.is_neutral then levels else [] in
        levels_after slots buys sells _
          (process_slots_sound slots (keys_of n strat buys) (keys_of n strat sells) g)

  -- Every action that GridStrategy asks for cancels the order of a locked slot, closes the position
  -- of a free slot with a reduce-only order, or opens with a post-only order that is worth the
  -- minimum: for a free slot without a position, or for a level that has no slot, and below the
  -- skewed price by more than a tenth of the interval if it is a buy, as far above it if it is a
  -- sell. CalculateActions returns with such actions, unless a neutral grid has a free slot with a
  -- position that has no quantity: then it may panic.
  pub grid_strategy_actions :
      (slots : Slots n) (anchor current : D) (g : IdGen)
      → ReturnsOr
          (HasPanic n strat slots)
          (All (
            IsGridAction n strat
              (skewed_current_price n strat current slots)
              (effective_interval n strat)
              slots))
          (calculate_actions n strat slots anchor current g)
  unfolding calculate_actions
  grid_strategy_actions slots anchor current g =
      let sound =
        actions_at_sound (skewed_current_price n strat current slots) (effective_interval n strat)
          slots anchor g in
      elim (Bool-cases (is_tripped n strat strat.circuit_breaker)) [
        | inl e ↦ rw e tt
        | inr e ↦ rw e sound
      ]
