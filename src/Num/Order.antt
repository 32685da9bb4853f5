-- ===== src/Num/Order.antt =====
-- The tests on decimals, from the laws of Cmp.
use opensqt_market_maker.Common.{
  ◌≡◌, ◌≢◌, sym, ap, subst, ◌∙◌, true, false, Bool-cases, inl, inr, arith,
}
use opensqt_market_maker.Num.{Num, less_than, less_eq, equal, is_zero}
use opensqt_market_maker.Num.Laws.{IsOrdered, IsGroup, IsOrderedGroup}

module _ (n : Num) (o : IsOrdered n) where
  open n use {D, zero, cmp}

  pub is_zero_of_ne : (a : D) → a ≢ zero → is_zero n a ≡ false
  is_zero_of_ne a h = ground (arith, o.cmp_eq a zero, h)

  pub eq_of_equal : (a b : D) → equal n a b ≡ true → a ≡ b
  eq_of_equal a b h = ground (arith, o.cmp_eq a b)

  pub equal_self : (a : D) → equal n a a ≡ true
  equal_self a = ground (arith, o.cmp_self a)

  -- a <= b, b <= a
  pub eq_of_less_eq : (a b : D) → less_eq n a b ≡ true → less_eq n b a ≡ true → a ≡ b
  eq_of_less_eq a b h k = ground (arith, o.cmp_gt a b, o.cmp_eq a b)

module _ (n : Num) (g : IsGroup n) (og : IsOrderedGroup n) where
  open n use {D, zero, add, sub, neg, cmp}

  -- a <= b gives 0 <= b - a.
  pub sub_nonneg : (a b : D) → less_eq n a b ≡ true → less_eq n zero (sub b a) ≡ true
  sub_nonneg a b h =
      let e : cmp zero (sub b a) ≡ cmp a b =
        ap (λ t. cmp t (sub b a)) (sym (g.add_neg a))
        ∙ ap (cmp (add a (neg a))) (g.sub_neg b a)
        ∙ og.cmp_add a b (neg a) in
      ground (arith, e)

module _ (n : Num) (o : IsOrdered n) where
  open n use {D, cmp}

  pub less_eq_self : (a : D) → less_eq n a a ≡ true
  less_eq_self a = ground (arith, o.cmp_self a)

  -- What is not below is at least.
  pub less_eq_of_not_less : (a b : D) → less_than n a b ≡ false → less_eq n b a ≡ true
  less_eq_of_not_less a b h = ground (arith, o.cmp_lt a b, o.cmp_eq a b, o.cmp_self a)

  pub less_eq_of_less : (a b : D) → less_than n a b ≡ true → less_eq n a b ≡ true
  less_eq_of_less a b h = ground arith

  pub less_of_not_less_eq : (a b : D) → less_eq n a b ≡ false → less_than n b a ≡ true
  less_of_not_less_eq a b h = ground (arith, o.cmp_lt a b)

  -- a <= b < c
  pub less_of_less_eq_of_less :
      (a b c : D) → less_eq n a b ≡ true → less_than n b c ≡ true → less_than n a c ≡ true
  less_of_less_eq_of_less a b c h k = elim (Bool-cases (equal n a b)) [
    | inl e ↦ subst (λ x. less_than n x c ≡ true) (sym (o.cmp_eq a b (ground arith))) k
    | inr e ↦ ground (arith, o.cmp_trans a b c)
  ]
