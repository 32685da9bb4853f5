-- ===== src/Grid/Risk.antt =====
-- The orders of the strategy while a risk is triggered, how many actions it asks for, and the
-- identifiers that it gives them.
use opensqt_market_maker.Common.{
  ℕ, zero, suc, ◌+◌, ◌≤◌, ◌≡◌, refl, sym, subst, ◌⊎◌, inl, inr, Bool, true, false, not, ◌&&◌,
  Option, none, some, List, [], ◌∷◌, ◌++◌, String, map, if◌then◌else◌, arith, length, length-append,
  get_elem?,
}
use opensqt_market_maker.Num.{Num, less_than, greater_than}
use opensqt_market_maker.Pb.{OrderAction}
use opensqt_market_maker.Pb.Enums.{OrderSide, side_unspecified, buy, sell, locked}
use opensqt_market_maker.Pb.OrderId.{IdGen, generate_compact_order_id}
use opensqt_market_maker.TradingUtils.{find_nearest_grid_price}
use opensqt_market_maker.TradingUtils.Grid.{length-price_levels}
use opensqt_market_maker.Grid.{
  Slot, StrategyConfig, append_some, to_map, price_key, calculate_buy_prices, calculate_sell_prices,
  safety_buffer, cancel_action, has_key, create_place_action, trail_slot, decide_action_for_slot,
  process_slots, open_missing, actions_at, calculate_actions, generate_client_order_id,
}

-- The action is one of the list's.
unfoldable pub Holds : OrderAction → List OrderAction → Type 0
Holds a [] = ⊥
Holds a (b ∷ actions) = (b ≡ a) ⊎ Holds a actions

Holds-append : (a : OrderAction) (xs ys : List OrderAction) → Holds a xs → Holds a (xs ++ ys)
unfolding Holds
Holds-append a [] ys h = elim h [ ]
Holds-append a (b ∷ xs) ys (inl e) = inl e
Holds-append a (b ∷ xs) ys (inr h) = inr (Holds-append a xs ys h)

Holds-append_some :
    (a : OrderAction) (o : Option OrderAction) (xs : List OrderAction)
    → Holds a xs
    → Holds a (append_some o xs)
unfolding Holds
Holds-append_some a none xs h = h
Holds-append_some a (some b) xs h = inr h

length-append_some :
    (o : Option OrderAction) (xs : List OrderAction) → length (append_some o xs) ≤ suc (length xs)
length-append_some none xs = omega arith
length-append_some (some b) xs = omega arith

Holds-first :
    (a : OrderAction) (o : Option OrderAction) (xs : List OrderAction)
    → o ≡ some a
    → Holds a (append_some o xs)
unfolding Holds
Holds-first a none xs e = ground arith
Holds-first a (some b) xs e = inl (ground arith)

module _ (n : Num) (cfg : StrategyConfig n.D n.F) where
  open n use {D, F, add, sub}

  cancels_at_risk :
      (s : Slot D) (current interval : D) (vol : F) (buys sells : List String) (g : IdGen)
      → s.slot_status ≡ locked
      → s.order_side ≡ buy
      → (decide_action_for_slot n cfg s current interval vol true buys sells g).0
        ≡ some (cancel_action n cfg s)
  unfolding decide_action_for_slot trail_slot
  cancels_at_risk s current interval vol buys sells g l b = rw (l, b) refl

  process_slots-cancels :
      (slots : List (Slot D)) (i : ℕ) (s : Slot D) (current interval : D) (vol : F)
      (buys sells : List String) (g : IdGen)
      → get_elem? slots i ≡ some s
      → s.slot_status ≡ locked
      → s.order_side ≡ buy
      → Holds
          (cancel_action n cfg s)
          (process_slots n cfg slots current interval vol true buys sells g).0
  unfolding process_slots Holds
  process_slots-cancels [] i s current interval vol buys sells g e l b = ground arith
  process_slots-cancels (x ∷ slots) zero s current interval vol buys sells g e l b =
      let same : s ≡ x = ground arith in
      Holds-first _ _ _ (
        subst
          (λ t.
            (decide_action_for_slot n cfg x current interval vol true buys sells g).0
            ≡ some (cancel_action n cfg t))
          (sym same)
          (cancels_at_risk x current interval vol buys sells g
            (subst (λ t. t.slot_status ≡ locked) same l) (subst (λ t. t.order_side ≡ buy) same b)))
  process_slots-cancels (x ∷ slots) (suc i) s current interval vol buys sells g e l b =
      Holds-append_some _ _ _
        (process_slots-cancels slots i s current interval vol buys sells _ e l b)

  -- While a risk is triggered, the order of every slot that has a buy open is cancelled.
  pub risk_cancels_buys :
      (current anchor atr : D) (vol : F) (slots : List (Slot D)) (g : IdGen) (i : ℕ) (s : Slot D)
      → get_elem? slots i ≡ some s
      → s.slot_status ≡ locked
      → s.order_side ≡ buy
      → Holds
          (cancel_action n cfg s)
          (calculate_actions n cfg current anchor atr vol true slots g).0
  unfolding calculate_actions actions_at
  risk_cancels_buys current anchor atr vol slots g i s e l b =
      Holds-append _ _ _ (Holds-append _ _ _ (process_slots-cancels slots i s _ _ vol _ _ g e l b))

  length-process_slots :
      (slots : List (Slot D)) (current interval : D) (vol : F) (risk : Bool)
      (buys sells : List String) (g : IdGen)
      → length (process_slots n cfg slots current interval vol risk buys sells g).0 ≤ length slots
  unfolding process_slots
  length-process_slots [] current interval vol risk buys sells g = omega arith
  length-process_slots (s ∷ slots) current interval vol risk buys sells g =
      let d = decide_action_for_slot n cfg s current interval vol risk buys sells g in
      omega (
        arith,
        length-append_some d.0
            (process_slots n cfg slots current interval vol risk buys sells d.1).0,
        length-process_slots slots current interval vol risk buys sells d.1,
      )

  length-open_missing :
      (side : OrderSide) (may_open : D → Bool) (prices : List D) (processed : List String) (vol : F)
      (g : IdGen)
      → length (open_missing n cfg side may_open prices processed vol g).0 ≤ length prices
  unfolding open_missing
  length-open_missing side may_open [] processed vol g = omega arith
  length-open_missing side may_open (p ∷ prices) processed vol g =
      let opens = not (has_key (price_key n cfg p) processed) && may_open p in
      let first : Option OrderAction × IdGen =
        if opens then create_place_action n cfg p side false vol g else (none, g) in
      omega (
        arith,
        length-append_some first.0
            (open_missing n cfg side may_open prices processed vol first.1).0,
        length-open_missing side may_open prices processed vol first.1,
      )

  length-sell_prices :
      (center interval : D)
      → length (calculate_sell_prices n cfg center interval) ≤ cfg.sell_window_size
  unfolding calculate_sell_prices
  length-sell_prices center interval =
      let l = length-price_levels n center interval cfg.sell_window_size in ground (arith, l)

  length-buy_prices :
      (center interval : D)
      → length (calculate_buy_prices n cfg center interval) ≡ cfg.buy_window_size
  unfolding calculate_buy_prices
  length-buy_prices center interval =
      length-price_levels n center (n.neg interval) cfg.buy_window_size

  length-actions_at :
      (anchor skewed interval : D) (vol : F) (risk : Bool) (slots : List (Slot D)) (g : IdGen)
      → length (actions_at n cfg anchor skewed interval vol risk slots g).0
        ≤ length slots + cfg.buy_window_size + cfg.sell_window_size
  unfolding actions_at
  length-actions_at anchor skewed interval vol risk slots g =
      let center = find_nearest_grid_price n skewed anchor interval in
      let buys = calculate_buy_prices n cfg center interval in
      let sells = calculate_sell_prices n cfg center interval in
      let processed = map (λ s. price_key n cfg s.price) slots in
      let buffer = safety_buffer n cfg interval in
      let below : D → Bool = λ p. not risk && less_than n p (sub skewed buffer) in
      let above : D → Bool = λ p. greater_than n p (add skewed buffer) in
      let kept =
        process_slots n cfg slots skewed interval vol risk (to_map n cfg buys) (to_map n cfg sells)
          g in
      let bought = open_missing n cfg buy below buys processed vol kept.1 in
      let sold = open_missing n cfg sell above sells processed vol bought.1 in
      omega (
        arith,
        length-append (kept.0 ++ bought.0) sold.0,
        length-append kept.0 bought.0,
        length-process_slots slots skewed interval vol risk (to_map n cfg buys) (to_map n cfg sells)
            g,
        length-open_missing buy below buys processed vol kept.1,
        length-open_missing sell above sells processed vol bought.1,
        length-buy_prices center interval,
        length-sell_prices center interval,
      )

  -- A call asks for at most one action for each slot, and one for each level of the two windows.
  pub length-calculate_actions :
      (current anchor atr : D) (vol : F) (risk : Bool) (slots : List (Slot D)) (g : IdGen)
      → length (calculate_actions n cfg current anchor atr vol risk slots g).0
        ≤ length slots + cfg.buy_window_size + cfg.sell_window_size
  unfolding calculate_actions
  length-calculate_actions current anchor atr vol risk slots g =
      length-actions_at anchor _ _ vol risk slots g

  -- The identifier of an order does not depend on its side, since the side is given by the name of
  -- the enumeration's value, which is never "SELL": a sell gets the code of a buy.
  pub client_order_id_sideless :
      (price : D) (side : OrderSide) (g : IdGen)
      → generate_client_order_id n cfg price side g
        ≡ generate_compact_order_id n price "BUY" cfg.price_decimals g
  unfolding generate_client_order_id generate_compact_order_id
  client_order_id_sideless price side_unspecified g = refl
  client_order_id_sideless price buy g = refl
  client_order_id_sideless price sell g = refl
