-- ===== src/Arbitrage/Strategy/Once.antt =====
-- Entry and exit at the same spread.
use opensqt_market_maker.Common.{
  ◌≡◌, sym, ap, subst, ◌∙◌, ◌⊎◌, inl, inr, true, false, Bool-cases, arith,
}
use opensqt_market_maker.Num.{Num, less_than, greater_than, less_eq}
use opensqt_market_maker.Num.Laws.{IsOrdered, IsGroup, IsOrderedGroup}
use opensqt_market_maker.Num.Group.{neg-neg}
use opensqt_market_maker.Num.Order.{less_of_less_eq_of_less}
use opensqt_market_maker.Arbitrage.Strategy.{StrategyConfig, action_none, calculate_action}

module _ (n : Num) (o : IsOrdered n) (g : IsGroup n) (og : IsOrderedGroup n) where
  open n use {D, neg, abs, cmp}

  -- A spread above the entry threshold is not below the exit threshold.
  above_stays :
      (spread low exit : D)
      → less_eq n n.zero low ≡ true
      → less_eq n exit low ≡ true
      → less_than n low spread ≡ true
      → (less_than n n.zero spread ≡ true) × (less_than n spread exit ≡ false)
  above_stays spread low exit z h k =
      let positive : less_than n n.zero spread ≡ true =
        less_of_less_eq_of_less n o n.zero low spread z k in
      let beyond : less_than n exit spread ≡ true =
        less_of_less_eq_of_less n o exit low spread h k in
      (positive, ground (arith, o.cmp_gt exit spread))

  -- The same for a spread below the negated threshold, whose absolute value is its negation.
  below_stays :
      (spread low exit : D)
      → less_eq n n.zero low ≡ true
      → less_eq n exit low ≡ true
      → less_than n spread (neg low) ≡ true
      → less_than n (abs spread) exit ≡ false
  below_stays spread low exit z h k =
      let turned : cmp (neg low) spread ≡ cmp (neg spread) low =
        ap (cmp (neg low)) (sym (neg-neg n g spread)) ∙ og.cmp_neg low (neg spread) in
      let beyond : less_than n low (neg spread) ≡ true =
        ground (arith, turned, o.cmp_gt spread (neg low), o.cmp_lt (neg spread) low) in
      let (positive, kept) = above_stays (neg spread) low exit z h beyond in
      let mirrored : cmp spread n.zero ≡ cmp n.zero (neg spread) =
        ap (λ x. cmp x n.zero) (sym (neg-neg n g spread))
        ∙ ap (cmp (neg (neg spread))) (sym og.neg_zero)
        ∙ og.cmp_neg (neg spread) n.zero in
      let size : abs spread ≡ neg spread = og.abs_neg spread (ground (arith, mirrored)) in
      subst (λ x. less_than n x exit ≡ false) (sym size) kept

  -- With an exit threshold that is not above the entry threshold, and an entry threshold that is not
  -- negative, no spread asks for both: either CalculateAction does not enter at it, or it does not
  -- exit at it.
  pub enters_or_exits :
      (c : StrategyConfig D) (spread : D)
      → less_eq n n.zero c.min_spread_apr ≡ true
      → less_eq n c.exit_spread_apr c.min_spread_apr ≡ true
      → (calculate_action n c spread false ≡ action_none)
        ⊎ (calculate_action n c spread true ≡ action_none)
  unfolding calculate_action
  enters_or_exits c spread z h = elim (Bool-cases (greater_than n spread c.min_spread_apr)) [
    | inl above ↦
        let k : less_than n c.min_spread_apr spread ≡ true =
          ground (arith, o.cmp_lt spread c.min_spread_apr) in
        let (positive, kept) = above_stays spread c.min_spread_apr c.exit_spread_apr z h k in
        let size : abs spread ≡ spread =
          og.abs_pos spread (ground (arith, o.cmp_gt n.zero spread)) in
        let stays : less_than n (abs spread) c.exit_spread_apr ≡ false =
          subst (λ x. less_than n x c.exit_spread_apr ≡ false) (sym size) kept in
        inr (ground (arith, stays))
    | inr e ↦ elim (Bool-cases (less_than n spread (neg c.min_spread_apr))) [
      | inl below ↦
          let stays = below_stays spread c.min_spread_apr c.exit_spread_apr z h below in
          inr (ground (arith, stays))
      | inr d ↦ inl (ground (arith, e, d))
    ]
  ]
