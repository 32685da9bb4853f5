-- ===== src/Position/WellFormed/Reach.antt =====
-- Every method that changes the manager, and the states that they reach.
use opensqt_market_maker.Common.{ℕ, ◌<◌, ◌≡◌, subst, Option, some, List, String, All}
use opensqt_market_maker.Common.Int.{ℤ}
use opensqt_market_maker.Num.{Num}
use opensqt_market_maker.Num.Laws.{HasText}
use opensqt_market_maker.Pb.{InventorySlot, OrderUpdate}
use opensqt_market_maker.Pb.Convert.{to_go_decimal}
use opensqt_market_maker.Position.State.{
  SuperPositionManager, SpmConfig, Store, new_super_position_manager, on_update,
}
use opensqt_market_maker.Position.Slots.{initialize, restore_state, update_order_index}
use opensqt_market_maker.Position.Updates.{on_order_update, cleanup_processed_updates}
use opensqt_market_maker.Position.Results.{
  OrderActionResult, IStrategy, calculate_adjustments, apply_action_results,
}
use opensqt_market_maker.Position.Sync.{force_sync, restore_from_exchange_position}
use opensqt_market_maker.Position.WellFormed.Defs.{IsWellFormed, Keyed-nil, Distinct-nil, Below-nil}
use opensqt_market_maker.Position.WellFormed.Slots.{
  initialize-IsWellFormed, restore_state-IsWellFormed, update_order_index-IsWellFormed,
}
use opensqt_market_maker.Position.WellFormed.Updates.{
  on_order_update-IsWellFormed, cleanup-IsWellFormed,
}
use opensqt_market_maker.Position.WellFormed.Results.{
  calculate_adjustments-IsWellFormed, apply_action_results-IsWellFormed,
}
use opensqt_market_maker.Position.WellFormed.Sync.{
  SafeOrPanic, force_sync-IsWellFormed, restore-SafeOrPanic,
}

module _ (n : Num) where
  open n use {D}

  -- A method call that changes the manager. A snapshot's keys are the texts of its prices, and
  -- a slot that is indexed from outside is one of the manager's.
  pub data Step : SuperPositionManager D → SuperPositionManager D → Type 0 where
    initializes : (anchor : D) (m : SuperPositionManager D) → Step m (initialize n anchor m)
    restores :
        (entries : List (String × InventorySlot)) (m : SuperPositionManager D)
        → All (λ e. n.show (to_go_decimal n e.1.price) ≡ e.0) entries
        → Step m (restore_state n entries m).0
    places :
        (total : D) (m m' : SuperPositionManager D)
        → restore_from_exchange_position n total m ≡ some m'
        → Step m m'
    adjusts :
        (now : ℤ) (strategy : Option (IStrategy n)) (price : D) (m : SuperPositionManager D)
        → Step m (calculate_adjustments n now strategy price m).0
    applies :
        (results : List OrderActionResult) (m : SuperPositionManager D)
        → Step m (apply_action_results n results m)
    updates :
        (now : ℤ) (u : OrderUpdate) (m : SuperPositionManager D)
        → Step m (on_order_update n now u m).0
    indexes :
        (order_id : ℤ) (client_oid : String) (r : ℕ) (m : SuperPositionManager D)
        → r < m.fresh
        → Step m (update_order_index n order_id client_oid r m)
    syncs : (size : D) (m : SuperPositionManager D) → Step m (force_sync n size m)
    cleans : (now : ℤ) (m : SuperPositionManager D) → Step m (cleanup_processed_updates n now m)
    listens : (callback : ℕ) (m : SuperPositionManager D) → Step m (on_update n callback m)

  pub data Reach (s : SuperPositionManager D) : SuperPositionManager D → Type 0 where
    here : Reach s s
    next : {t u : SuperPositionManager D} → Reach s t → Step t u → Reach s u

  Step-IsWellFormed :
      HasText n → {m m' : SuperPositionManager D} → Step m m' → IsWellFormed n m → IsWellFormed n m'
  unfolding on_update
  Step-IsWellFormed t (initializes anchor m) w = initialize-IsWellFormed n anchor m
  Step-IsWellFormed t (restores entries m keys) w = restore_state-IsWellFormed n entries m keys w
  Step-IsWellFormed t (places total m m' e) w =
      subst (SafeOrPanic n) e (restore-SafeOrPanic n t total m w)
  Step-IsWellFormed t (adjusts now strategy price m) w =
      calculate_adjustments-IsWellFormed n t now strategy price m w
  Step-IsWellFormed t (applies results m) w = apply_action_results-IsWellFormed n results m w
  Step-IsWellFormed t (updates now u m) w = on_order_update-IsWellFormed n now u m w
  Step-IsWellFormed t (indexes order_id client_oid r m lt) w =
      update_order_index-IsWellFormed n order_id client_oid r m lt w
  Step-IsWellFormed t (syncs size m) w = force_sync-IsWellFormed n size m w
  Step-IsWellFormed t (cleans now m) w = cleanup-IsWellFormed n now m w
  Step-IsWellFormed t (listens callback m) w = record {
    keyed = w.keyed;
    distinct = w.distinct;
    known_slots = w.known_slots;
    known_orders = w.known_orders;
    known_clients = w.known_clients;
  }

  Reach-IsWellFormed :
      HasText n → {s m : SuperPositionManager D} → IsWellFormed n s → Reach s m → IsWellFormed n m
  Reach-IsWellFormed t w here = w
  Reach-IsWellFormed t w (next r st) = Step-IsWellFormed t st (Reach-IsWellFormed t w r)

  new-IsWellFormed :
      (c : SpmConfig D) (store : Store) → IsWellFormed n (new_super_position_manager n c store)
  unfolding new_super_position_manager
  new-IsWellFormed c store = record {
    keyed = Keyed-nil n store;
    distinct = Distinct-nil String;
    known_slots = Below-nil String 0;
    known_orders = Below-nil ℤ 0;
    known_clients = Below-nil String 0;
  }

  -- Whatever calls a new manager has had, in any order, every slot stands under the text of its
  -- price at an address of its own that is in use, and both order indexes point to addresses in
  -- use. A snapshot that is restored has its slots under the texts of their prices, and a slot
  -- that is indexed from outside is one of the manager's.
  pub Reach_new-IsWellFormed :
      HasText n
      → (c : SpmConfig D) (store : Store) {m : SuperPositionManager D}
      → Reach (new_super_position_manager n c store) m
      → IsWellFormed n m
  Reach_new-IsWellFormed t c store r = Reach-IsWellFormed t (new-IsWellFormed c store) r
