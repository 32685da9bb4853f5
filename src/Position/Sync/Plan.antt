-- ===== src/Position/Sync/Plan.antt =====
-- How RestoreFromExchangePosition distributes a position over the levels.
use opensqt_market_maker.Common.{
  ◌≡◌, sym, ap, ◌∙◌, inl, inr, Bool, true, false, none, some, List, [], ◌∷◌, arith, if◌then◌else◌,
  Bool-cases, All, map,
}
use opensqt_market_maker.Common.Int.{ℤ}
use opensqt_market_maker.Num.{Num, less_than, less_eq, greater_than}
use opensqt_market_maker.Num.Laws.{IsOrdered, IsGroup, IsOrderedGroup}
use opensqt_market_maker.Num.Group.{zero-add, sub-add_cancel}
use opensqt_market_maker.Num.Order.{eq_of_less_eq, sub_nonneg, less_eq_self, less_of_not_less_eq}
use opensqt_market_maker.Position.State.{SuperPositionManager}
use opensqt_market_maker.Position.Sync.{distribute, slot_qty, restore_plan, theory_qty, sum_qtys}

of_guard {ℓ} : {A : Type ℓ} (b : Bool) (x y : A) → (if b then none else some x) ≡ some y → y ≡ x
of_guard true x y e = cc
of_guard false x y e = cc

module _ (n : Num) where
  open n use {D, zero, add, sub, cmp}

  -- The sum of the quantities of a plan.
  pub plan_total : List (D × D) → D
  plan_total [] = zero
  plan_total ((price, qty) ∷ levels) = add qty (plan_total levels)

  module _ (o : IsOrdered n) (g : IsGroup n) (og : IsOrderedGroup n) where
    -- A quantity that fits what is left does not overshoot.
    fits :
        (total allocated qty : D)
        → less_eq n qty (sub total allocated) ≡ true
        → less_eq n (add allocated qty) total ≡ true
    fits total allocated qty h =
        let e : cmp (add allocated qty) total ≡ cmp qty (sub total allocated) =
          ap (λ x. cmp x total) (g.add_comm allocated qty)
          ∙ ap (cmp (add qty allocated)) (sym (sub-add_cancel n g total allocated))
          ∙ og.cmp_add qty (sub total allocated) allocated in
        ground (arith, e)

    clip-le : (a b : D) → less_eq n (if greater_than n a b then b else a) b ≡ true
    clip-le a b = elim (Bool-cases (greater_than n a b)) [
      | inl e ↦ rw e (less_eq_self n o b)
      | inr e ↦ rw e (ground arith)
    ]

    rest_fills : (total allocated : D) → add allocated (sub total allocated) ≡ total
    rest_fills total allocated = g.add_comm _ _ ∙ sub-add_cancel n g total allocated

    distribute-total :
        (total total_theory : D) (places : ℤ) (theory : D → D) (allocated price : D)
        (prices : List D)
        → less_eq n allocated total ≡ true
        → add allocated
            (plan_total (distribute n total total_theory places theory allocated (price ∷ prices)))
          ≡ total
    unfolding distribute plan_total
    distribute-total total total_theory places theory allocated price [] h =
        elim (Bool-cases (less_eq n (sub total allocated) zero)) [
          | inl e ↦
              let none_left : sub total allocated ≡ zero =
                eq_of_less_eq n o _ zero e (sub_nonneg n g og allocated total h) in
              rw e (ap (add allocated) (sym none_left) ∙ rest_fills total allocated)
          | inr e ↦ rw e (ap (add allocated) (g.add_zero _) ∙ rest_fills total allocated)
        ]
    distribute-total total total_theory places theory allocated price (p ∷ prices) h =
        let qty = slot_qty n total total_theory places allocated (theory price) (p ∷ prices) in
        elim (Bool-cases (less_eq n qty zero)) [
          | inl e ↦ rw e (distribute-total total total_theory places theory allocated p prices h)
          | inr e ↦ rw e (
              sym (g.add_assoc allocated qty _)
              ∙ distribute-total total total_theory places theory (add allocated qty) p prices
                  (fits total allocated qty (clip-le _ _)))
        ]

    distribute-positive :
        (total total_theory : D) (places : ℤ) (theory : D → D) (allocated : D) (prices : List D)
        → All
            (λ l. less_than n zero l.1 ≡ true)
            (distribute n total total_theory places theory allocated prices)
    unfolding distribute
    distribute-positive total total_theory places theory allocated [] = tt
    distribute-positive total total_theory places theory allocated (price ∷ prices) =
        let qty = slot_qty n total total_theory places allocated (theory price) prices in
        elim (Bool-cases (less_eq n qty zero)) [
          | inl e ↦ rw e (distribute-positive total total_theory places theory allocated prices)
          | inr e ↦ rw e (
            less_of_not_less_eq n o qty zero e,
            distribute-positive total total_theory places theory (add allocated qty) prices,
          )
        ]

    plan_of_restore :
        (total price : D) (prices : List D) (m : SuperPositionManager D) (levels : List (D × D))
        → restore_plan n total (price ∷ prices) m ≡ some levels
        → (theory_total : D) × (levels
            ≡ distribute n total theory_total m.config.qty_decimals
                (theory_qty n m)
                zero
                (price ∷ prices))
    unfolding restore_plan
    plan_of_restore total price prices m levels e =
        (sum_qtys n (map (theory_qty n m) (price ∷ prices)) zero, of_guard _ _ levels e)

    -- A position that is not negative is distributed over one or more levels without a loss: the
    -- quantities of the levels add up to it, and each of them is positive.
    pub restore_plan-total :
        (total price : D) (prices : List D) (m : SuperPositionManager D) (levels : List (D × D))
        → less_eq n zero total ≡ true
        → restore_plan n total (price ∷ prices) m ≡ some levels
        → (plan_total levels ≡ total) × All (λ l. less_than n zero l.1 ≡ true) levels
    restore_plan-total total price prices m levels h e =
        let (theory_total, f) = plan_of_restore total price prices m levels e in
        let places = m.config.qty_decimals in
        rw f (
          sym (zero-add n g _)
              ∙ distribute-total total theory_total places (theory_qty n m) zero price prices h,
          distribute-positive total theory_total places (theory_qty n m) zero (price ∷ prices),
        )
