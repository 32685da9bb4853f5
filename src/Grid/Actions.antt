-- ===== src/Grid/Actions.antt =====
-- Which actions CalculateActions can ask for.
use opensqt_market_maker.Common.{
  ◌≡◌, refl, Bool, true, false, not, ◌&&◌, List, [], ◌∷◌, String, map, arith, All, All-append,
  All-map, Bool-cases, inl, inr,
}
use opensqt_market_maker.Num.{Num, less_than, greater_than}
use opensqt_market_maker.Pb.{OrderAction}
use opensqt_market_maker.Pb.Enums.{OrderSide, buy, sell, locked, position_filled}
use opensqt_market_maker.Pb.OrderId.{IdGen}
use opensqt_market_maker.TradingUtils.{find_nearest_grid_price}
use opensqt_market_maker.Grid.{
  Slot, StrategyConfig, to_map, calculate_buy_prices, calculate_sell_prices, place_action,
  cancel_action, safety_buffer, calculate_dynamic_quantity, create_place_action, open_slot,
  close_slot, trail_slot, has_key, price_key, decide_action_for_slot, process_slots, open_missing,
  actions_at, calculate_actions, calculate_effective_interval, skewed_price, calculate_inventory,
}
use opensqt_market_maker.Grid.Append.{IfSome, append_some-All}
use opensqt_market_maker.Grid.Kinds.{
  EnoughValue, IsSound, cancels, opens_buy, opens_sell, closes_long, closes_short, one_more,
}

module _ (n : Num) (cfg : StrategyConfig n.D n.F) where
  open n use {D, F, add, sub, mul}

  create_place_action-holds :
      (P : OrderAction → Type 0) (price : D) (side : OrderSide) (reduce_only : Bool) (vol : F)
      (g : IdGen)
      → ((oid : String)
          → EnoughValue n cfg vol price
          → P (
              place_action n cfg price side reduce_only (calculate_dynamic_quantity n cfg vol) oid))
      → IfSome P (create_place_action n cfg price side reduce_only vol g).0
  unfolding create_place_action
  create_place_action-holds P price side reduce_only vol g h =
      elim (Bool-cases
        (less_than n (mul price (calculate_dynamic_quantity n cfg vol)) cfg.min_order_value)) [
          | inl e ↦ rw e tt
          | inr e ↦ rw e (h _ e)
        ]

  module _ (skewed interval : D) (vol : F) (risk : Bool) where
    abbrev Sound : List (Slot D) → OrderAction → Type 0
    Sound slots = IsSound n cfg skewed interval vol risk slots

    open_slot-Sound :
        (slots : List (Slot D)) (s : Slot D) (b c : Bool) (g : IdGen)
        → IfSome (Sound slots) (open_slot n cfg s skewed interval vol risk b c g).0
    unfolding open_slot
    open_slot-Sound slots s b c g =
        let below = less_than n s.price (sub skewed (safety_buffer n cfg interval)) in
        let above = greater_than n s.price (add skewed (safety_buffer n cfg interval)) in
        elim (Bool-cases (not risk && b && below)) [
          | inl e ↦ rw e (
              create_place_action-holds (Sound slots) s.price buy false vol g
                (λ oid v. opens_buy s.price oid (ground arith) (ground arith) v))
          | inr e ↦ elim (Bool-cases (c && above)) [
            | inl f ↦
                rw (e, f)
                  (create_place_action-holds (Sound slots) s.price sell false vol g
                    (λ oid v. opens_sell s.price oid (ground arith) v))
            | inr f ↦ rw (e, f) tt
          ]
        ]

    close_slot-Sound :
        (slots : List (Slot D)) (s : Slot D) (g : IdGen)
        → s.position_status ≡ position_filled
        → IfSome (Sound (s ∷ slots)) (close_slot n cfg s skewed interval vol g).0
    unfolding close_slot
    close_slot-Sound slots s g f =
        let long =
          create_place_action-holds (Sound (s ∷ slots)) (add s.price interval) sell true vol g
            (λ oid v. closes_long 0 s oid refl f v) in
        elim (Bool-cases cfg.is_neutral) [
          | inl e ↦
              let short =
                create_place_action-holds (Sound (s ∷ slots)) (sub s.price interval) buy true vol g
                  (λ oid v. closes_short 0 s oid refl f e v) in
              ground (arith, long, short)
          | inr e ↦ ground (arith, long)
        ]

    trail_slot-Sound :
        (slots : List (Slot D)) (s : Slot D)
        → s.slot_status ≡ locked
        → IfSome (Sound (s ∷ slots)) (trail_slot n cfg s skewed interval risk)
    unfolding trail_slot
    trail_slot-Sound slots s l =
        let held : Sound (s ∷ slots) (cancel_action n cfg s) = cancels 0 s refl l in
        ground (arith, held)

    decide-Sound :
        (slots : List (Slot D)) (s : Slot D) (buys sells : List String) (g : IdGen)
        → IfSome
            (Sound (s ∷ slots))
            (decide_action_for_slot n cfg s skewed interval vol risk buys sells g).0
    unfolding decide_action_for_slot
    decide-Sound slots s buys sells g = ground (
      arith,
      open_slot-Sound (s ∷ slots) s (has_key (price_key n cfg s.price) buys)
          (has_key (price_key n cfg s.price) sells) g,
      close_slot-Sound slots s g,
      trail_slot-Sound slots s,
    )

    process_slots-Sound :
        (slots : List (Slot D)) (buys sells : List String) (g : IdGen)
        → All (Sound slots) (process_slots n cfg slots skewed interval vol risk buys sells g).0
    unfolding process_slots
    process_slots-Sound [] buys sells g = tt
    process_slots-Sound (s ∷ slots) buys sells g =
        append_some-All (Sound (s ∷ slots)) _ _ (decide-Sound slots s buys sells g) (
          All-map (Sound slots) (Sound (s ∷ slots))
            (one_more n cfg skewed interval vol risk s slots) _
            (process_slots-Sound slots buys sells _))

    open_missing-Sound :
        (slots : List (Slot D)) (side : OrderSide) (may_open : D → Bool) (prices : List D)
        (processed : List String) (g : IdGen)
        → ((price : D) (oid : String)
            → may_open price ≡ true
            → EnoughValue n cfg vol price
            → Sound slots
                (place_action n cfg price side false (calculate_dynamic_quantity n cfg vol) oid))
        → All (Sound slots) (open_missing n cfg side may_open prices processed vol g).0
    unfolding open_missing
    open_missing-Sound slots side may_open [] processed g h = tt
    open_missing-Sound slots side may_open (p ∷ prices) processed g h =
        append_some-All (Sound slots) _ _
          (elim (Bool-cases (not (has_key (price_key n cfg p) processed) && may_open p)) [
            | inl e ↦ rw e (
                create_place_action-holds (Sound slots) p side false vol g
                  (λ oid v. h p oid (ground arith) v))
            | inr e ↦ rw e tt
          ])
          (open_missing-Sound slots side may_open prices processed _ h)

    actions_at-Sound :
        (anchor : D) (slots : List (Slot D)) (g : IdGen)
        → All (Sound slots) (actions_at n cfg anchor skewed interval vol risk slots g).0
    unfolding actions_at
    actions_at-Sound anchor slots g =
        let center = find_nearest_grid_price n skewed anchor interval in
        let buys = calculate_buy_prices n cfg center interval in
        let sells = calculate_sell_prices n cfg center interval in
        let processed = map (λ s. price_key n cfg s.price) slots in
        let buffer = safety_buffer n cfg interval in
        let below : D → Bool = λ p. not risk && less_than n p (sub skewed buffer) in
        let above : D → Bool = λ p. greater_than n p (add skewed buffer) in
        let g1 =
          (process_slots n cfg slots skewed interval vol risk (to_map n cfg buys)
            (to_map n cfg sells) g).1 in
        let g2 = (open_missing n cfg buy below buys processed vol g1).1 in
        All-append (Sound slots) _ _
          (All-append (Sound slots) _ _
            (process_slots-Sound slots (to_map n cfg buys) (to_map n cfg sells) g)
            (open_missing-Sound slots buy below buys processed g1
              (λ p oid e v. opens_buy p oid (ground arith) (ground arith) v)))
          (open_missing-Sound slots sell above sells processed g2
            (λ p oid e v. opens_sell p oid e v))

  -- Every action that CalculateActions asks for cancels an order that one of the slots has open,
  -- opens a buy while no risk is triggered and below the skewed price by more than a tenth of the
  -- interval, opens a sell as far above it, or closes the position of one of the slots with a
  -- reduce-only order, which is a buy in the neutral mode only. A PLACE has at least
  -- the minimum value, before its quantity is rounded, and is post-only unless it closes.
  pub calculate_actions-IsSound :
      (current anchor atr : D) (vol : F) (risk : Bool) (slots : List (Slot D)) (g : IdGen)
      → All
          (IsSound n cfg
            (skewed_price n cfg current (calculate_inventory n cfg slots n.zero))
            (calculate_effective_interval n cfg atr)
            vol
            risk
            slots)
          (calculate_actions n cfg current anchor atr vol risk slots g).0
  unfolding calculate_actions
  calculate_actions-IsSound current anchor atr vol risk slots g =
      actions_at-Sound _ _ vol risk anchor slots g
