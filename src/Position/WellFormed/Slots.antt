-- ===== src/Position/WellFormed/Slots.antt =====
-- Initialize, RestoreState and getOrCreateSlotLocked keep the maps well-formed.
use opensqt_market_maker.Common.{
  ℕ, suc, ◌<◌, ◌≡◌, refl, ap, List, [], ◌∷◌, String, All, arith, Option-cases, inl, inr,
}
use opensqt_market_maker.Common.Int.{ℤ}
use opensqt_market_maker.Common.Assoc.{lookup, string_eq, int_eq}
use opensqt_market_maker.Num.{Num}
use opensqt_market_maker.Num.Laws.{HasText}
use opensqt_market_maker.Pb.{InventorySlot}
use opensqt_market_maker.Pb.Enums.{OrderSide, buy, sell}
use opensqt_market_maker.Pb.Convert.{to_go_decimal, to-from_go_decimal}
use opensqt_market_maker.TradingUtils.{round_price, calculate_price_levels}
use opensqt_market_maker.Position.State.{SuperPositionManager, insert_client}
use opensqt_market_maker.Position.Slots.{
  allocate, grid_slot, created_slot, place_level, place_levels, initialize, restore_slot,
  restore_slots, restore_state, get_or_create_slot, update_order_index, cleared,
}
use opensqt_market_maker.Position.WellFormed.Defs.{
  Below, IsWellFormed, Below-nil, Distinct-nil, Keyed-nil, Below-suc, Below-insert, Distinct-insert,
  Keyed-allocate, lt_of_lookup,
}

module _ (n : Num) where
  open n use {D, show}

  pub insert_client-Below :
      (fresh : ℕ) (k : String) (r : ℕ) (m : List (String × ℕ))
      → r < fresh
      → Below fresh m
      → Below fresh (insert_client k r m)
  unfolding insert_client
  insert_client-Below fresh k r m lt h = ground (arith, Below-insert fresh k r m lt h)

  pub allocate-IsWellFormed :
      (key : String) (s : InventorySlot) (m : SuperPositionManager D)
      → show (to_go_decimal n s.price) ≡ key
      → IsWellFormed n m
      → IsWellFormed n (allocate n key s m)
  allocate-IsWellFormed key s m e w = record {
    keyed = Keyed-allocate n m.fresh key s m.store m.slots e w.known_slots w.keyed;
    distinct = Distinct-insert key m.fresh m.slots w.known_slots w.distinct;
    known_slots =
        Below-insert (suc m.fresh) key m.fresh m.slots (omega arith)
          (Below-suc m.fresh m.slots w.known_slots);
    known_orders = Below-suc m.fresh m.order_map w.known_orders;
    known_clients = Below-suc m.fresh m.client_omap w.known_clients;
  }

  cleared-IsWellFormed :
      (anchor : D) (m : SuperPositionManager D)
      → IsWellFormed n
          (record m { anchor_price = anchor; slots = []; order_map = []; client_omap = [] })
  cleared-IsWellFormed anchor m = record {
    keyed = Keyed-nil n m.store;
    distinct = Distinct-nil String;
    known_slots = Below-nil String m.fresh;
    known_orders = Below-nil ℤ m.fresh;
    known_clients = Below-nil String m.fresh;
  }

  place_levels-IsWellFormed :
      (side : OrderSide) (prices : List D) (m : SuperPositionManager D)
      → IsWellFormed n m
      → IsWellFormed n (place_levels n side prices m)
  unfolding place_levels place_level
  place_levels-IsWellFormed side [] m w = w
  place_levels-IsWellFormed side (price ∷ prices) m w =
      let a =
        allocate-IsWellFormed _ (grid_slot n side (round_price n price m.config.price_decimals)) m
          refl w in
      place_levels-IsWellFormed side prices (place_level n side price m) (record {
        keyed = a.keyed;
        distinct = a.distinct;
        known_slots = a.known_slots;
        known_orders = a.known_orders;
        known_clients = a.known_clients;
      })

  pub initialize-IsWellFormed :
      (anchor : D) (m : SuperPositionManager D) → IsWellFormed n (initialize n anchor m)
  unfolding initialize
  initialize-IsWellFormed anchor m =
      let interval = m.config.price_interval in
      place_levels-IsWellFormed sell
        (calculate_price_levels n anchor interval m.config.sell_window_size) _
        (place_levels-IsWellFormed buy
          (calculate_price_levels n anchor (n.neg interval) m.config.buy_window_size) _
          (cleared-IsWellFormed anchor m))

  pub get_or_create_slot-IsWellFormed :
      HasText n
      → (price : D) (m : SuperPositionManager D) → IsWellFormed n m
      → IsWellFormed n (get_or_create_slot n price m).1
  unfolding get_or_create_slot
  get_or_create_slot-IsWellFormed t price m w =
      let rounded = round_price n price m.config.price_decimals in
      ground (
        arith,
        allocate-IsWellFormed (show rounded) (created_slot n rounded) m
            (ap show (to-from_go_decimal n t rounded)) w,
      )

  -- The address of the slot is in use.
  pub get_or_create_slot-lt :
      (price : D) (m : SuperPositionManager D)
      → IsWellFormed n m
      → (get_or_create_slot n price m).0 < (get_or_create_slot n price m).1.fresh
  unfolding get_or_create_slot
  get_or_create_slot-lt price m w =
      let key = show (round_price n price m.config.price_decimals) in
      elim (Option-cases (lookup key m.slots)) [
        | inl e ↦ rw (e, get_or_create_slot) (omega arith)
        | inr (r, e) ↦
            rw (e, get_or_create_slot) (lt_of_lookup m.fresh key r m.slots w.known_slots e)
      ]

  pub restore_slots-IsWellFormed :
      (entries : List (String × InventorySlot)) (m : SuperPositionManager D)
      → All (λ e. show (to_go_decimal n e.1.price) ≡ e.0) entries
      → IsWellFormed n m
      → IsWellFormed n (restore_slots n entries m)
  unfolding restore_slots restore_slot
  restore_slots-IsWellFormed [] m keys w = w
  restore_slots-IsWellFormed ((key, s) ∷ entries) m keys w =
      let a = allocate-IsWellFormed key s m keys.0 w in
      restore_slots-IsWellFormed entries (restore_slot n key s m) keys.1 (record {
        keyed = a.keyed;
        distinct = a.distinct;
        known_slots = a.known_slots;
        known_orders = ground (
          arith,
          a.known_orders,
          Below-insert (suc m.fresh) s.order_id m.fresh m.order_map (omega arith) a.known_orders,
        );
        known_clients =
            insert_client-Below (suc m.fresh) s.client_oid m.fresh m.client_omap (omega arith)
              a.known_clients;
      })

  pub restore_state-IsWellFormed :
      (entries : List (String × InventorySlot)) (m : SuperPositionManager D)
      → All (λ e. show (to_go_decimal n e.1.price) ≡ e.0) entries
      → IsWellFormed n m
      → IsWellFormed n (restore_state n entries m).0
  unfolding restore_state
  restore_state-IsWellFormed [] m keys w = w
  restore_state-IsWellFormed (e ∷ entries) m keys w =
      let a =
        restore_slots-IsWellFormed (e ∷ entries) (cleared n m) keys
          (cleared-IsWellFormed m.anchor_price m) in
      record {
        keyed = a.keyed;
        distinct = a.distinct;
        known_slots = a.known_slots;
        known_orders = a.known_orders;
        known_clients = a.known_clients;
      }

  pub update_order_index-IsWellFormed :
      (order_id : ℤ) (client_oid : String) (r : ℕ) (m : SuperPositionManager D)
      → r < m.fresh
      → IsWellFormed n m
      → IsWellFormed n (update_order_index n order_id client_oid r m)
  unfolding update_order_index
  update_order_index-IsWellFormed order_id client_oid r m lt w = record {
    keyed = w.keyed;
    distinct = w.distinct;
    known_slots = w.known_slots;
    known_orders =
        ground
          (arith, w.known_orders, Below-insert m.fresh order_id r m.order_map lt w.known_orders);
    known_clients = insert_client-Below m.fresh client_oid r m.client_omap lt w.known_clients;
  }
