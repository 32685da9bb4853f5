-- ===== src/Position/Sync/Exact.antt =====
-- What ForceSync achieves.
use Prim.Native.Nat.{Ordering}
use opensqt_market_maker.Common.{
  ◌≡◌, sym, ap, subst, ◌∙◌, ◌⊎◌, inl, inr, true, false, arith, Bool-cases,
}
use opensqt_market_maker.Num.{Num, less_eq, is_zero, is_positive}
use opensqt_market_maker.Num.Laws.{IsOrdered, IsGroup, IsOrderedGroup, HasText}
use opensqt_market_maker.Num.Group.{neg-neg, sub-add_cancel}
use opensqt_market_maker.Num.Order.{eq_of_equal}
use opensqt_market_maker.Position.State.{SuperPositionManager, Store}
use opensqt_market_maker.Position.Sync.{fill_slots, drain_slots, sync_by, force_sync}
use opensqt_market_maker.Position.Sync.Sum.{total_position, current_total-eq}
use opensqt_market_maker.Position.Sync.Fill.{NoneFillable, fill_slots-total, fill_slots_ends}
use opensqt_market_maker.Position.Sync.Drain.{NoneFilled, drain_slots-total, drain_slots_ends}
use opensqt_market_maker.Position.WellFormed.Defs.{IsWellFormed}

module _ (n : Num) (o : IsOrdered n) (g : IsGroup n) (og : IsOrderedGroup n) (t : HasText n)
    (size : n.D) (m : SuperPositionManager n.D) (w : IsWellFormed n m) where
  open n use {D, zero, add, sub, neg, cmp, abs}

  abbrev difference : D
  difference = sub size (total_position n m.store m.slots)

  -- The store after the call.
  abbrev synced : Store
  synced = (force_sync n size m).store

  abbrev end_fill : Store × D
  end_fill = fill_slots n m.config.order_quantity m.slots (m.store, difference)

  abbrev end_drain : Store × D
  end_drain = drain_slots n m.slots (m.store, abs difference)

  measured : force_sync n size m ≡ sync_by n difference m
  unfolding force_sync
  measured = ap (λ d. sync_by n (sub size d) m) (current_total-eq n g m.store m.slots)

  adds_up : add (total_position n m.store m.slots) difference ≡ size
  adds_up = g.add_comm _ _ ∙ sub-add_cancel n g size _

  synced_equal : is_zero n difference ≡ true → synced ≡ m.store
  synced_equal e = ap (λ x. x.store) measured ∙ (unfold sync_by in rw (e, sync_by))

  synced_up : is_zero n difference ≡ false → is_positive n difference ≡ true → synced ≡ end_fill.0
  synced_up e f = ap (λ x. x.store) measured ∙ (unfold sync_by in rw (e, f, sync_by))

  synced_down :
      is_zero n difference ≡ false → is_positive n difference ≡ false → synced ≡ end_drain.0
  synced_down e f = ap (λ x. x.store) measured ∙ (unfold sync_by in rw (e, f, sync_by))

  fill_keeps : add (total_position n end_fill.0 m.slots) end_fill.1 ≡ size
  fill_keeps =
      fill_slots-total n g t m.config.order_quantity m.slots (m.store, difference) w.distinct
      ∙ adds_up

  below :
      is_zero n difference ≡ false
      → is_positive n difference ≡ false
      → cmp difference zero ≡ Ordering.lt
  below e f = ground arith

  drain_keeps :
      cmp difference zero ≡ Ordering.lt
      → add (total_position n end_drain.0 m.slots) (neg end_drain.1) ≡ size
  drain_keeps e =
      drain_slots-total n g og t m.slots (m.store, abs difference) w.distinct
      ∙ ap (λ x. add (total_position n m.store m.slots) (neg x)) (og.abs_neg difference e)
      ∙ ap (add (total_position n m.store m.slots)) (neg-neg n g difference)
      ∙ adds_up

  -- The difference that is to be removed is not negative.
  abs_nonneg : cmp difference zero ≡ Ordering.lt → less_eq n zero (abs difference) ≡ true
  abs_nonneg e =
      let f : cmp zero (abs difference) ≡ cmp difference zero =
        ap (cmp zero) (og.abs_neg difference e)
        ∙ ap (λ x. cmp x (neg difference)) (sym og.neg_zero)
        ∙ og.cmp_neg zero difference in
      ground (arith, f)

  Outcome : Store → Type 0
  Outcome store =
      (total_position n store m.slots ≡ size)
      ⊎ ((is_positive n difference ≡ true) × NoneFillable n store m.slots)
      ⊎ ((is_positive n difference ≡ false) × NoneFilled n store m.slots)

  equal_outcome : is_zero n difference ≡ true → Outcome m.store
  unfolding Outcome
  equal_outcome e = inl (
      sym (g.add_zero _)
      ∙ ap (add (total_position n m.store m.slots)) (sym (eq_of_equal n o difference zero e))
      ∙ adds_up)

  up_outcome : is_positive n difference ≡ true → Outcome end_fill.0
  unfolding Outcome
  up_outcome f =
      elim (fill_slots_ends n o g og m.config.order_quantity m.slots (m.store, difference)
        w.distinct (ground (arith, o.cmp_lt difference zero))) [
          | inl z ↦ inl (sym (g.add_zero _) ∙ ap (add _) (sym z) ∙ fill_keeps)
          | inr all ↦ inr (inl (f, all))
        ]

  down_outcome :
      is_zero n difference ≡ false → is_positive n difference ≡ false → Outcome end_drain.0
  unfolding Outcome
  down_outcome e f =
      let d = below e f in
      elim (drain_slots_ends n o g og m.slots (m.store, abs difference) w.distinct (abs_nonneg d)) [
        | inl z ↦
            inl (sym (g.add_zero _) ∙ ap (add _) (sym og.neg_zero ∙ ap neg (sym z)) ∙ drain_keeps d)
        | inr all ↦ inr (inr (f, all))
      ]

  outcome : Outcome synced
  outcome = elim (Bool-cases (is_zero n difference)) [
    | inl e ↦ subst Outcome (sym (synced_equal e)) (equal_outcome e)
    | inr e ↦ elim (Bool-cases (is_positive n difference)) [
      | inl f ↦ subst Outcome (sym (synced_up e f)) (up_outcome f)
      | inr f ↦ subst Outcome (sym (synced_down e f)) (down_outcome e f)
    ]
  ]

  -- ForceSync brings the total position of the slots to the exchange's size, unless it runs out of
  -- slots: then, if the total had to grow, no slot is left that is empty and has a price, and
  -- otherwise no slot is left with a position.
  pub force_sync_exact :
      (total_position n synced m.slots ≡ size)
      ⊎ ((is_positive n difference ≡ true) × NoneFillable n synced m.slots)
      ⊎ ((is_positive n difference ≡ false) × NoneFilled n synced m.slots)
  unfolding Outcome
  force_sync_exact = outcome
