-- ===== src/Position/Updates/Partial.antt =====
-- Partial fills in any order.
use opensqt_market_maker.Common.{ℕ, ◌≡◌, sym, ap, ◌∙◌, arith, if◌then◌else◌}
use opensqt_market_maker.Num.{Num, less_than}
use opensqt_market_maker.Num.Laws.{IsOrdered}
use opensqt_market_maker.Pb.{OrderUpdate}
use opensqt_market_maker.Pb.Convert.{to_go_decimal}
use opensqt_market_maker.Position.State.{SuperPositionManager}
use opensqt_market_maker.Position.Updates.{handle_order_partial_fill}

module _ (n : Num) where
  open n use {D, cmp}

  abbrev pub max_decimal : D → D → D
  max_decimal a b = if less_than n a b then b else a

  -- The filled quantity of the order in slot `r`.
  abbrev pub filled_qty : ℕ → SuperPositionManager D → D
  filled_qty r m = to_go_decimal n (m.store r).order_filled_qty

  -- A partial fill raises the quantity, and never lowers it.
  partial_fill-max :
      (o : IsOrdered n) (u : OrderUpdate) (r : ℕ) (m : SuperPositionManager D)
      → filled_qty r (handle_order_partial_fill n u r m)
        ≡ max_decimal (filled_qty r m) (to_go_decimal n u.executed_qty)
  unfolding handle_order_partial_fill
  partial_fill-max o u r m =
      let a = filled_qty r m in
      let b = to_go_decimal n u.executed_qty in
      ground (arith, o.cmp_eq a b, o.cmp_gt a b, o.cmp_lt a b, o.cmp_gt b a, o.cmp_lt b a)

  max_comm3 :
      (o : IsOrdered n) (a b c : D)
      → max_decimal (max_decimal a b) c ≡ max_decimal (max_decimal a c) b
  max_comm3 o a b c = ground (
    arith,
    o.cmp_gt a b,
    o.cmp_gt a c,
    o.cmp_gt b c,
    o.cmp_lt a b,
    o.cmp_lt a c,
    o.cmp_lt b c,
    o.cmp_lt c b,
    o.cmp_gt c b,
    o.cmp_eq a b,
    o.cmp_eq a c,
    o.cmp_eq b c,
    o.cmp_eq c b,
    o.cmp_trans a b c,
    o.cmp_trans a c b,
    o.cmp_trans b a c,
    o.cmp_trans c a b,
  )

  -- Two partial fills of an order leave the same filled quantity in either order of arrival, the
  -- largest of theirs and the one before.
  pub partial_fills_commute :
      (o : IsOrdered n) (u v : OrderUpdate) (r : ℕ) (m : SuperPositionManager D)
      → let after = λ (x y : OrderUpdate).
        filled_qty r (handle_order_partial_fill n y r (handle_order_partial_fill n x r m)) in
        (after u v ≡ after v u)
        × (after u v
            ≡ max_decimal
                (max_decimal (filled_qty r m) (to_go_decimal n u.executed_qty))
                (to_go_decimal n v.executed_qty))
  partial_fills_commute o u v r m =
      let m_u = handle_order_partial_fill n u r m in
      let m_v = handle_order_partial_fill n v r m in
      let qty = λ (x : OrderUpdate). to_go_decimal n x.executed_qty in
      let uv : filled_qty r (handle_order_partial_fill n v r m_u)
          ≡ max_decimal (max_decimal (filled_qty r m) (qty u)) (qty v) =
        partial_fill-max o v r m_u ∙ ap (λ t. max_decimal t (qty v)) (partial_fill-max o u r m) in
      let vu : filled_qty r (handle_order_partial_fill n u r m_v)
          ≡ max_decimal (max_decimal (filled_qty r m) (qty v)) (qty u) =
        partial_fill-max o u r m_v ∙ ap (λ t. max_decimal t (qty u)) (partial_fill-max o v r m) in
      (uv ∙ max_comm3 o (filled_qty r m) (qty u) (qty v) ∙ sym vu, uv)
