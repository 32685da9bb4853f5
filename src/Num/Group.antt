-- ===== src/Num/Group.antt =====
-- Sums and differences, from the group laws.
use opensqt_market_maker.Common.{◌≡◌, sym, ap, ◌∙◌}
use opensqt_market_maker.Num.{Num}
use opensqt_market_maker.Num.Laws.{IsGroup}

module _ (n : Num) (g : IsGroup n) where
  open n use {D, zero, add, sub, neg}
  open g use {add_comm, add_assoc, add_zero, add_neg, sub_neg}

  pub zero-add : (a : D) → add zero a ≡ a
  zero-add a = add_comm zero a ∙ add_zero a

  pub add-sub_cancel : (a b : D) → sub (add a b) b ≡ a
  add-sub_cancel a b = rw (sub_neg, add_assoc, add_neg) (add_zero a)

  pub add-sub_left : (a b : D) → sub (add a b) a ≡ b
  add-sub_left a b = ap (λ t. sub t a) (add_comm a b) ∙ add-sub_cancel b a

  pub sub-add_cancel : (a b : D) → add (sub a b) b ≡ a
  sub-add_cancel a b =
      rw (sub_neg, add_assoc) (ap (add a) (add_comm (neg b) b ∙ add_neg b) ∙ add_zero a)

  pub add_left_comm : (a b c : D) → add a (add b c) ≡ add b (add a c)
  add_left_comm a b c = sym (add_assoc a b c) ∙ ap (λ t. add t c) (add_comm a b) ∙ add_assoc b a c

  pub sub_self : (a : D) → sub a a ≡ zero
  sub_self a = sub_neg a a ∙ add_neg a

  -- a + b = c is a = c - b.
  pub eq-sub_of_add : (a b c : D) → add a b ≡ c → a ≡ sub c b
  eq-sub_of_add a b c e = sym (add-sub_cancel a b) ∙ ap (λ t. sub t b) e

  pub neg-neg : (a : D) → neg (neg a) ≡ a
  neg-neg a =
      sym (zero-add (neg (neg a)))
      ∙ ap (λ t. add t (neg (neg a))) (sym (add_neg a))
      ∙ add_assoc a (neg a) (neg (neg a))
      ∙ ap (add a) (add_neg (neg a))
      ∙ add_zero a

  -- a + b = 0 makes b the negative of a.
  eq-neg_of_add : (a b : D) → add a b ≡ zero → b ≡ neg a
  eq-neg_of_add a b e =
      sym (add-sub_left a b) ∙ ap (λ t. sub t a) e ∙ sub_neg zero a ∙ zero-add (neg a)

  pub neg-sub : (a b : D) → neg (sub a b) ≡ sub b a
  neg-sub a b = sym (eq-neg_of_add (sub a b) (sub b a) cancels)
    where
      cancels : add (sub a b) (sub b a) ≡ zero
      cancels =
          ap (add (sub a b)) (sub_neg b a)
          ∙ sym (add_assoc (sub a b) b (neg a))
          ∙ ap (λ t. add t (neg a)) (sub-add_cancel a b)
          ∙ add_neg a

  -- A head and a remainder trade; the rest and the remainder trade.
  pub regroup :
      (h h' r r' t t' u : D)
      → add h' r' ≡ add h r
      → add t' u ≡ add t r'
      → add (add h' t') u ≡ add (add h t) r
  regroup h h' r r' t t' u e f =
      add_assoc h' t' u
      ∙ ap (add h') f
      ∙ add_left_comm h' t r'
      ∙ ap (add t) e
      ∙ add_left_comm t h r
      ∙ sym (add_assoc h t r)
