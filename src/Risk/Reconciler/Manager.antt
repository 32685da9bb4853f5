-- ===== src/Risk/Reconciler/Manager.antt =====
-- The reconciler on SuperPositionManager.
use opensqt_market_maker.Common.{
  ℕ, ◌≡◌, sym, ap, ◌∙◌, false, List, [], ◌∷◌, String, if◌then◌else◌, arith,
}
use opensqt_market_maker.Num.{Num}
use opensqt_market_maker.Num.Laws.{IsGroup}
use opensqt_market_maker.Num.Group.{zero-add}
use opensqt_market_maker.Pb.{InventorySlot}
use opensqt_market_maker.Pb.Enums.{is_position_filled}
use opensqt_market_maker.Pb.Convert.{to_go_decimal}
use opensqt_market_maker.Position.State.{SuperPositionManager, Store}
use opensqt_market_maker.Position.Slots.{view_slots, create_reconciliation_snapshot}
use opensqt_market_maker.Position.Updates.{on_order_update}
use opensqt_market_maker.Position.Sync.{force_sync}
use opensqt_market_maker.Position.Sync.Sum.{filled_of, total_position}
use opensqt_market_maker.Risk.Reconciler.{IPositionManager, sum_local}

-- Its ForceSync never fails, and its OnOrderUpdate's error is not looked at.
abbrev pub super_position_manager : (n : Num) → IPositionManager n
super_position_manager n = record {
  Manager = SuperPositionManager n.D;
  create_snapshot = create_reconciliation_snapshot n;
  apply_update = λ now u m. (on_order_update n now u m).0;
  sync_to = λ symbol size m. (force_sync n size m, false);
}

module _ (n : Num) (g : IsGroup n) where
  open n use {D, zero, add}

  sum_local-add :
      (store : Store) (slots : List (String × ℕ)) (acc : D)
      → sum_local n (view_slots store slots) acc ≡ add acc (total_position n store slots)
  unfolding sum_local total_position
  sum_local-add store [] acc = sym (g.add_zero acc)
  sum_local-add store ((k, r) ∷ slots) acc =
      sum_local-add store slots (add_one (store r))
      ∙ ap (λ t. add t (total_position n store slots)) (added (store r))
      ∙ g.add_assoc acc (filled_of n (store r)) (total_position n store slots)
    where
      add_one : InventorySlot → D
      add_one s =
          if is_position_filled s.position_status
          then add acc (to_go_decimal n s.position_qty)
          else acc

      added : (s : InventorySlot) → add_one s ≡ add acc (filled_of n s)
      added s = ground (arith, g.add_zero acc)

  -- The size that the reconciler sums up is the total position of the slots.
  pub sum_local-eq :
      (store : Store) (slots : List (String × ℕ))
      → sum_local n (view_slots store slots) zero ≡ total_position n store slots
  sum_local-eq store slots = sum_local-add store slots zero ∙ zero-add n g _
