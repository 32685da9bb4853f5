-- ===== src/Risk/Reconciler/Sizes.antt =====
-- The sizes of the positions after a pass of the reconciler.
use opensqt_market_maker.Common.{
  ℕ, ◌≡◌, refl, sym, ap, ap₂, subst, ◌∙◌, ◌⊎◌, true, false, some, List, [], ◌∷◌, String, ◌==◌,
  ==_iff, arith, Bool-cases, inl, inr,
}
use opensqt_market_maker.Common.Int.{ℤ, pos}
use opensqt_market_maker.Num.{Num, less_than, equal, is_positive}
use opensqt_market_maker.Num.Laws.{IsOrdered, IsGroup, IsOrderedGroup, HasText}
use opensqt_market_maker.Num.Order.{eq_of_equal}
use opensqt_market_maker.Pb.{InventorySlot, Order, OrderUpdate, Position}
use opensqt_market_maker.Pb.Convert.{to_go_decimal}
use opensqt_market_maker.Position.State.{SuperPositionManager, Store, write}
use opensqt_market_maker.Position.Slots.{view_slots, create_reconciliation_snapshot}
use opensqt_market_maker.Position.Updates.{handle_order_canceled, released, on_order_update}
use opensqt_market_maker.Position.Sync.{force_sync}
use opensqt_market_maker.Position.Sync.Sum.{filled_of, total_position}
use opensqt_market_maker.Position.Sync.Fill.{NoneFillable}
use opensqt_market_maker.Position.Sync.Drain.{NoneFilled}
use opensqt_market_maker.Position.Sync.Exact.{force_sync_exact}
use opensqt_market_maker.Position.WellFormed.Defs.{IsWellFormed}
use opensqt_market_maker.Position.WellFormed.Updates.{on_order_update-IsWellFormed}
use opensqt_market_maker.Risk.Reconciler.{
  Reconciler, missing_update, divergence_pct, open_breaker, sum_local, find_position,
  report_missing, reconcile_orders, reconcile_positions, reconcile_state, reconcile, started, ended,
}
use opensqt_market_maker.Risk.Reconciler.Manager.{super_position_manager, sum_local-eq}
use opensqt_market_maker.Risk.Reconciler.Ghosts.{missing_cases}

module _ (n : Num) where
  open n use {D, zero, from_int, sub, add}

  -- A slot is overwritten by one that counts the same.
  total_position-same :
      (r : ℕ) (s : InventorySlot) (store : Store) (slots : List (String × ℕ))
      → filled_of n s ≡ filled_of n (store r)
      → total_position n (write r s store) slots ≡ total_position n store slots
  unfolding total_position
  total_position-same r s store [] e = refl
  total_position-same r s store ((k, t) ∷ slots) e =
      ap₂ add (one (Bool-cases (r == t))) (total_position-same r s store slots e)
    where
      one :
          ((r == t) ≡ true) ⊎ ((r == t) ≡ false)
          → filled_of n (write r s store t) ≡ filled_of n (store t)
      one (inl same) = rw same (e ∙ ap (λ x. filled_of n (store x)) ((==_iff r t).0 same))
      one (inr other) = rw other refl

  -- What the orders' part of a pass keeps of the manager it starts with.
  record Kept (m m' : SuperPositionManager D) : Type 0 where
    well_formed : IsWellFormed n m'
    same_slots : m'.slots ≡ m.slots
    same_total : total_position n m'.store m.slots ≡ total_position n m.store m.slots

  canceled-Kept :
      (now : ℤ) (u : OrderUpdate) (r : ℕ) (m : SuperPositionManager D)
      → let m' = handle_order_canceled n now u r m in
        (m'.slots ≡ m.slots)
        × ((slots : List (String × ℕ))
            → total_position n m'.store slots ≡ total_position n m.store slots)
  unfolding handle_order_canceled
  canceled-Kept now u r m = (
    ground arith,
    λ slots. ground (arith, total_position-same r (released n (m.store r)) m.store slots refl),
  )

  missing-Kept :
      (now : ℤ) (symbol : String) (s : InventorySlot) (m₀ m : SuperPositionManager D)
      → Kept m₀ m
      → Kept m₀ (on_order_update n now (missing_update symbol s) m).0
  missing-Kept now symbol s m₀ m k = record {
    well_formed = on_order_update-IsWellFormed n now (missing_update symbol s) m k.well_formed;
    same_slots =
        missing_cases n now (λ x. x.slots ≡ m₀.slots) symbol s m k.same_slots
          λ a found. (canceled-Kept now (missing_update symbol s) a m).0 ∙ k.same_slots;
    same_total =
        missing_cases n now
          (λ x. total_position n x.store m₀.slots ≡ total_position n m₀.store m₀.slots) symbol s m
          k.same_total
          λ a found. (canceled-Kept now (missing_update symbol s) a m).1 m₀.slots ∙ k.same_total;
  }

  report-Kept :
      (now : ℤ) (symbol : String) (orders : List Order) (slots : List (String × InventorySlot))
      (m₀ m : SuperPositionManager D)
      → Kept m₀ m
      → Kept m₀ (report_missing n (super_position_manager n) now symbol orders slots m)
  unfolding report_missing
  report-Kept now symbol orders [] m₀ m k = k
  report-Kept now symbol orders ((j, s) ∷ slots) m₀ m k =
      report-Kept now symbol orders slots m₀ _ (ground (arith, k, missing-Kept now symbol s m₀ m k))

  -- The sizes agreed, and nothing changes; or the divergence is below 5 percent, the breaker is left
  -- alone, and the sizes agree now unless the slots ran out; or the divergence is 5 percent or more,
  -- the breaker, if there is one, is opened, and the total is as it was.
  abbrev pub IsSettled :
      ℤ → D → Reconciler D (SuperPositionManager D) → Reconciler D (SuperPositionManager D) → Type 0
  IsSettled now size r r' =
      let total = total_position n r.manager.store r.manager.slots in
      let total' = total_position n r'.manager.store r.manager.slots in
      ((total ≡ size) × (r'.breaker ≡ r.breaker) × (total' ≡ total))
      ⊎ ((less_than n (divergence_pct n size (sub size total)) (from_int (pos 5)) ≡ true)
          × (r'.breaker ≡ r.breaker)
          × ((total' ≡ size)
              ⊎ ((is_positive n (sub size total) ≡ true)
                  × NoneFillable n r'.manager.store r.manager.slots)
              ⊎ ((is_positive n (sub size total) ≡ false)
                  × NoneFilled n r'.manager.store r.manager.slots)))
      ⊎ ((less_than n (divergence_pct n size (sub size total)) (from_int (pos 5)) ≡ false)
          × (r'.breaker ≡ open_breaker n now r.breaker)
          × (total' ≡ total))

  module _ (o : IsOrdered n) (g : IsGroup n) (og : IsOrderedGroup n) (t : HasText n) where
    -- ForceSync after the orders' part of a pass.
    synced_size :
        (size : D) (m₀ m : SuperPositionManager D)
        → Kept m₀ m
        → let store = (force_sync n size m).store in
          let total = total_position n m₀.store m₀.slots in
          (total_position n store m₀.slots ≡ size)
          ⊎ ((is_positive n (sub size total) ≡ true) × NoneFillable n store m₀.slots)
          ⊎ ((is_positive n (sub size total) ≡ false) × NoneFilled n store m₀.slots)
    synced_size size m₀ m k =
        let exact = force_sync_exact n o g og t size m k.well_formed in
        let store = (force_sync n size m).store in
        let total : total_position n m.store m.slots ≡ total_position n m₀.store m₀.slots =
          ap (total_position n m.store) k.same_slots ∙ k.same_total in
        elim exact [
          | inl e ↦ inl (ap (total_position n store) (sym k.same_slots) ∙ e)
          | inr (inl (p, f)) ↦ inr (
              inl (
                subst (λ x. is_positive n (sub size x) ≡ true) total p,
                subst (NoneFillable n store) k.same_slots f,
              ))
          | inr (inr (p, f)) ↦ inr (
              inr (
                subst (λ x. is_positive n (sub size x) ≡ false) total p,
                subst (NoneFilled n store) k.same_slots f,
              ))
        ]

    positions-IsSettled :
        (now : ℤ) (p : Position) (r r₁ : Reconciler D (SuperPositionManager D))
        → Kept r.manager r₁.manager
        → r₁.breaker ≡ r.breaker
        → IsSettled now
            (to_go_decimal n p.size)
            r
            (reconcile_positions n
              (super_position_manager n)
              now
              (view_slots r.manager.store r.manager.slots)
              p
              r₁).after
    unfolding reconcile_positions
    positions-IsSettled now p r r₁ k b =
        let slots = view_slots r.manager.store r.manager.slots in
        let size = to_go_decimal n p.size in
        let total = total_position n r.manager.store r.manager.slots in
        let summed : sum_local n slots zero ≡ total =
          sum_local-eq n g r.manager.store r.manager.slots in
        elim (Bool-cases (equal n (sum_local n slots zero) size)) [
          | inl e ↦ rw e (inl (sym summed ∙ eq_of_equal n o _ size e, b, k.same_total))
          | inr e ↦
              elim (Bool-cases (
                less_than n (divergence_pct n size (sub size (sum_local n slots zero)))
                  (from_int (pos 5)))) [
                    | inl small ↦
                        rw (e, small)
                          (inr (
                            inl (
                              subst
                                  (λ x.
                                    less_than n (divergence_pct n size (sub size x))
                                      (from_int (pos 5))
                                    ≡ true)
                                  summed small,
                              b,
                              synced_size size r.manager r₁.manager k,
                            )))
                    | inr large ↦
                        rw (e, large)
                          (inr (
                            inr (
                              subst
                                  (λ x.
                                    less_than n (divergence_pct n size (sub size x))
                                      (from_int (pos 5))
                                    ≡ false)
                                  summed large,
                              ap (open_breaker n now) b,
                              k.same_total,
                            )))
                  ]
        ]

    -- A pass that gets the exchange's state compares the total position of the slots with the
    -- exchange's size. If they agree, total and breaker stay. If they diverge by less than 5 percent,
    -- the total becomes the exchange's size, unless the slots run out, and the breaker stays. If they
    -- diverge by 5 percent or more, the breaker, where there is one, is opened, and the total stays.
    -- Cancelled orders change no total.
    pub reconcile-IsSettled :
        (now done : ℤ) (orders : List Order) (positions : List Position)
        (r : Reconciler D (SuperPositionManager D))
        → IsWellFormed n r.manager
        → IsSettled now
            (to_go_decimal n (find_position n r.symbol positions).size)
            r
            (reconcile n
              (super_position_manager n)
              false
              now
              done
              (some orders)
              (some positions)
              r).0
    unfolding reconcile reconcile_state reconcile_orders create_reconciliation_snapshot started
        ended
    reconcile-IsSettled now done orders positions r w =
        let slots = view_slots r.manager.store r.manager.slots in
        let start : Kept r.manager r.manager = record {
          well_formed = w;
          same_slots = refl;
          same_total = refl;
        } in
        positions-IsSettled now (find_position n r.symbol positions) r
          (reconcile_orders n (super_position_manager n) now slots orders (started now r))
          (report-Kept now r.symbol orders slots r.manager r.manager start) refl
