-- ===== src/Position/Sync/Sum.antt =====
-- The filled quantity of the slots, as a sum.
use opensqt_market_maker.Common.{
  ℕ, ◌≡◌, refl, sym, ap, ap₂, ◌∙◌, List, [], ◌∷◌, String, arith, if◌then◌else◌,
}
use opensqt_market_maker.Num.{Num}
use opensqt_market_maker.Num.Laws.{IsGroup}
use opensqt_market_maker.Num.Group.{zero-add}
use opensqt_market_maker.Pb.{InventorySlot}
use opensqt_market_maker.Pb.Enums.{is_position_filled}
use opensqt_market_maker.Pb.Convert.{to_go_decimal}
use opensqt_market_maker.Position.State.{Store, write}
use opensqt_market_maker.Position.Sync.{add_filled, current_total}
use opensqt_market_maker.Position.WellFormed.Defs.{Avoids}

module _ (n : Num) where
  open n use {D, zero, add}

  -- What a slot counts for.
  abbrev pub filled_of : InventorySlot → D
  filled_of s =
      if is_position_filled s.position_status then to_go_decimal n s.position_qty else zero

  -- The total position that the slots stand for.
  unfoldable pub total_position : Store → List (String × ℕ) → D
  total_position store [] = zero
  total_position store ((k, r) ∷ slots) = add (filled_of (store r)) (total_position store slots)

  current_total-add :
      IsGroup n
      → (store : Store) (slots : List (String × ℕ)) (acc : D)
      → current_total n store slots acc ≡ add acc (total_position store slots)
  unfolding current_total total_position
  current_total-add g store [] acc = sym (g.add_zero acc)
  current_total-add g store ((k, r) ∷ slots) acc =
      current_total-add g store slots (add_filled n (store r) acc)
      ∙ ap (λ t. add t (total_position store slots)) (added (store r))
      ∙ g.add_assoc acc (filled_of (store r)) (total_position store slots)
    where
      added : (s : InventorySlot) → add_filled n s acc ≡ add acc (filled_of s)
      added s = ground (arith, g.add_zero acc)

  -- The loop that ForceSync sums by finds the total position.
  pub current_total-eq :
      IsGroup n
      → (store : Store) (slots : List (String × ℕ))
      → current_total n store slots zero ≡ total_position store slots
  current_total-eq g store slots = current_total-add g store slots zero ∙ zero-add n g _

  pub total_position-write :
      (r : ℕ) (s : InventorySlot) (store : Store) (slots : List (String × ℕ))
      → Avoids r slots
      → total_position (write r s store) slots ≡ total_position store slots
  unfolding total_position Avoids
  total_position-write r s store [] a = refl
  total_position-write r s store ((k, t) ∷ slots) a =
      ap₂ add (ap filled_of {x = write r s store t} {y = store t} (ground arith))
        (total_position-write r s store slots a.1)
