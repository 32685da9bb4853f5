-- ===== src/Grid/Slots/Reach.antt =====
-- RestoreState, and the states that the methods of SlotManager reach.
use opensqt_market_maker.Common.{
  ℕ, suc, ◌+◌, ◌<◌, ◌≡◌, refl, sym, ap, subst, List, [], ◌∷◌, ◌++◌, String, arith, Bool-cases, inl,
  inr, All, length, length-append,
}
use opensqt_market_maker.Common.Int.{ℤ, pos, eqb_ℤ}
use opensqt_market_maker.Common.Assoc.{insert, string_eq, int_eq}
use opensqt_market_maker.Num.{Num}
use opensqt_market_maker.Num.Laws.{HasText}
use opensqt_market_maker.Pb.{InventorySlot, Order, OrderUpdate}
use opensqt_market_maker.Pb.Convert.{to_go_decimal}
use opensqt_market_maker.Position.State.{Store}
use opensqt_market_maker.Position.Results.{OrderActionResult}
use opensqt_market_maker.Position.Slots.RoundTrip.{
  Absent, DistinctKeys, Apart, Apart-append, Apart-nil, insert_new,
}
use opensqt_market_maker.Position.WellFormed.Defs.{
  Below-nil, Distinct-nil, Keyed-nil, Below-insert, Below-suc, Distinct-insert, Keyed-allocate,
}
use opensqt_market_maker.Position.WellFormed.Slots.{insert_client-Below}
use opensqt_market_maker.Grid.Slots.{
  SlotManager, new_slot_manager, on_update, on_order_update, sync_orders, restore_slot,
  restore_slots, restore_state, update_order_index, get_or_create_slot, apply_action_results,
}
use opensqt_market_maker.Grid.Slots.Invariant.{
  IsConsistent, listeners-IsConsistent, index-IsConsistent,
}
use opensqt_market_maker.Grid.Slots.Preserved.{
  on_order_update-IsConsistent, sync_orders-IsConsistent, get_or_create-IsConsistent,
  apply_action_results-IsConsistent,
}

module _ (n : Num) where
  open n use {D, show}

  -- What a restored slot stands under: the text of its price.
  abbrev pub IsKeyed : List (String × InventorySlot) → Type 0
  IsKeyed = All (λ e. show (to_go_decimal n e.1.price) ≡ e.0)

  -- While the slots are restored, the counter is left for the end.
  counted-IsConsistent :
      (k : ℕ) (m : SlotManager)
      → IsConsistent n m
      → k ≡ length m.slots
      → IsConsistent n (record m { total_slots = k })
  counted-IsConsistent k m w e = record {
    keyed = w.keyed;
    distinct = w.distinct;
    known_slots = w.known_slots;
    known_orders = w.known_orders;
    known_clients = w.known_clients;
    counted = e;
  }

  restore_slot-IsConsistent :
      (k : String) (s : InventorySlot) (m : SlotManager)
      → show (to_go_decimal n s.price) ≡ k
      → Absent k m.slots
      → IsConsistent n (record m { total_slots = length m.slots })
      → let m' = restore_slot k s m in IsConsistent n (record m' { total_slots = length m'.slots })
  unfolding restore_slot
  restore_slot-IsConsistent k s m e a w = record {
    keyed = Keyed-allocate n m.fresh k s m.store m.slots e w.known_slots w.keyed;
    distinct = Distinct-insert k m.fresh m.slots w.known_slots w.distinct;
    known_slots =
        Below-insert (suc m.fresh) k m.fresh m.slots (omega arith)
          (Below-suc m.fresh m.slots w.known_slots);
    known_orders =
        let kept = Below-suc m.fresh m.order_map w.known_orders in
        ground (
          arith,
          kept,
          Below-insert (suc m.fresh) s.order_id m.fresh m.order_map (omega arith) kept,
        );
    known_clients =
        insert_client-Below n (suc m.fresh) s.client_oid m.fresh m.client_omap (omega arith)
          (Below-suc m.fresh m.client_omap w.known_clients);
    counted = refl;
  }

  restore_slots-IsConsistent :
      (entries : List (String × InventorySlot)) (m : SlotManager)
      → IsKeyed entries
      → DistinctKeys entries
      → Apart entries m.slots
      → IsConsistent n (record m { total_slots = length m.slots })
      → let m' = restore_slots entries m in
        IsConsistent n (record m' { total_slots = length m'.slots })
        × (length m'.slots ≡ length m.slots + length entries)
  unfolding restore_slots restore_slot Apart
  restore_slots-IsConsistent [] m keyed d a w = (w, omega arith)
  restore_slots-IsConsistent ((k, s) ∷ entries) m keyed d a w =
      let placed : insert k m.fresh m.slots ≡ m.slots ++ (k, m.fresh) ∷ [] =
        insert_new k m.fresh m.slots a.0 in
      let apart : Apart entries (insert k m.fresh m.slots) =
        subst (Apart entries) (sym placed) (Apart-append entries k m.fresh m.slots a.1 d.0) in
      let one = restore_slot-IsConsistent k s m keyed.0 a.0 w in
      let (rest, count) =
        restore_slots-IsConsistent entries (restore_slot k s m) keyed.1 d.1 apart one in
      (rest, omega (arith, count, ap length placed, length-append m.slots ((k, m.fresh) ∷ [])))

  -- Whatever the manager was, its slots are then those of the snapshot.
  pub restore-IsConsistent :
      (entries : List (String × InventorySlot)) (m : SlotManager)
      → IsKeyed entries
      → DistinctKeys entries
      → IsConsistent n (restore_state entries m)
  unfolding restore_state
  restore-IsConsistent entries m keyed d =
      let start = record m { slots = []; order_map = []; client_omap = [] } in
      let (restored, count) =
        restore_slots-IsConsistent entries start keyed d (Apart-nil ℕ entries) (record {
          keyed = Keyed-nil n m.store;
          distinct = Distinct-nil String;
          known_slots = Below-nil String m.fresh;
          known_orders = Below-nil ℤ m.fresh;
          known_clients = Below-nil String m.fresh;
          counted = refl;
        }) in
      counted-IsConsistent (length entries) _ restored (omega (arith, count))

  -- A method call that changes the manager.
  pub data Step : SlotManager → SlotManager → Type 0 where
    syncs : (orders : List Order) (m : SlotManager) → Step m (sync_orders n orders m)
    updates : (u : OrderUpdate) (m : SlotManager) → Step m (on_order_update n u m).0
    creates : (price : D) (m : SlotManager) → Step m (get_or_create_slot n price m).1
    restores :
        (entries : List (String × InventorySlot)) (m : SlotManager)
        → IsKeyed entries
        → DistinctKeys entries
        → Step m (restore_state entries m)
    applies :
        (results : List OrderActionResult) (m : SlotManager)
        → Step m (apply_action_results n results m)
    indexes :
        (order_id : ℤ) (client_oid : String) (r : ℕ) (m : SlotManager)
        → r < m.fresh
        → Step m (update_order_index order_id client_oid r m)
    listens : (callback : ℕ) (m : SlotManager) → Step m (on_update callback m)

  pub data Reach (s : SlotManager) : SlotManager → Type 0 where
    here : Reach s s
    next : {t u : SlotManager} → Reach s t → Step t u → Reach s u

  Step-IsConsistent :
      HasText n → {m m' : SlotManager} → Step m m' → IsConsistent n m → IsConsistent n m'
  unfolding on_update update_order_index
  Step-IsConsistent t (syncs orders m) w = sync_orders-IsConsistent n orders m w
  Step-IsConsistent t (updates u m) w = on_order_update-IsConsistent n u m w
  Step-IsConsistent t (creates price m) w = (get_or_create-IsConsistent n t price m w).0
  Step-IsConsistent t (restores entries m keyed d) w = restore-IsConsistent entries m keyed d
  Step-IsConsistent t (applies results m) w = apply_action_results-IsConsistent n t results m w
  Step-IsConsistent t (indexes order_id client_oid r m lt) w =
      elim (Bool-cases (eqb_ℤ order_id (pos 0))) [
        | inl e ↦ rw e (record {
          keyed = w.keyed;
          distinct = w.distinct;
          known_slots = w.known_slots;
          known_orders = w.known_orders;
          known_clients =
              insert_client-Below n m.fresh client_oid r m.client_omap lt w.known_clients;
          counted = w.counted;
        })
        | inr e ↦ rw e (index-IsConsistent n order_id client_oid r m lt w)
      ]
  Step-IsConsistent t (listens callback m) w =
      listeners-IsConsistent n (m.update_callbacks ++ callback ∷ []) m.published m w

  -- Whatever calls a new slot manager has had, in any order, every slot stands under the text of its
  -- price at an address of its own that is in use, both order indexes point to addresses in use, and
  -- the counter of the slots is their number. A snapshot that is restored has distinct keys,
  -- the texts of its prices; a slot that is indexed from outside is in use.
  pub Reach_new-IsConsistent :
      HasText n
      → (symbol : String) (price_decimals : ℤ) (store : Store) {m : SlotManager}
      → Reach (new_slot_manager symbol price_decimals store) m
      → IsConsistent n m
  unfolding new_slot_manager
  Reach_new-IsConsistent t symbol price_decimals store here = record {
    keyed = Keyed-nil n store;
    distinct = Distinct-nil String;
    known_slots = Below-nil String 0;
    known_orders = Below-nil ℤ 0;
    known_clients = Below-nil String 0;
    counted = refl;
  }
  Reach_new-IsConsistent t symbol price_decimals store (next r s) =
      Step-IsConsistent t s (Reach_new-IsConsistent t symbol price_decimals store r)
