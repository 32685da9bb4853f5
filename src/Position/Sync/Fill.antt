-- ===== src/Position/Sync/Fill.antt =====
-- The loop of ForceSync that increases the position.
use opensqt_market_maker.Common.{
  ℕ, ◌≡◌, ◌≢◌, refl, sym, ap, subst, ◌∙◌, ◌⊎◌, inl, inr, true, false, List, [], ◌∷◌, String, arith,
  Bool-cases,
}
use opensqt_market_maker.Num.{Num, less_than, less_eq}
use opensqt_market_maker.Num.Laws.{IsOrdered, IsGroup, IsOrderedGroup, HasText}
use opensqt_market_maker.Num.Group.{zero-add, sub-add_cancel, regroup}
use opensqt_market_maker.Num.Order.{eq_of_less_eq, sub_nonneg, less_eq_self, less_eq_of_not_less}
use opensqt_market_maker.Pb.{InventorySlot}
use opensqt_market_maker.Pb.Convert.{to_go_decimal, to-from_go_decimal}
use opensqt_market_maker.Position.State.{Store, write}
use opensqt_market_maker.Position.Sync.{
  fill_one, fill_slots, can_fill, synthetic_slot, fill_qty, min_decimal,
}
use opensqt_market_maker.Position.Sync.Sum.{filled_of, total_position, total_position-write}
use opensqt_market_maker.Position.WellFormed.Defs.{Avoids, Distinct}

module _ (n : Num) where
  open n use {D, zero, add, sub}

  fill_one-frame : (q : D) (r s : ℕ) (st : Store × D) → s ≢ r → (fill_one n q s st).0 r ≡ st.0 r
  unfolding fill_one
  fill_one-frame q r s (store, remaining) ne = ground arith

  -- The loop writes to the slots of its entries only.
  pub fill_slots-frame :
      (q : D) (r : ℕ) (slots : List (String × ℕ)) (st : Store × D)
      → Avoids r slots
      → (fill_slots n q slots st).0 r ≡ st.0 r
  unfolding fill_slots Avoids
  fill_slots-frame q r [] st a = refl
  fill_slots-frame q r ((k, s) ∷ slots) st a =
      ground
        (arith, fill_slots-frame q r slots (fill_one n q s st) a.1, fill_one-frame q r s st a.0)

  fill_one_yes :
      (q : D) (r : ℕ) (store : Store) (remaining : D)
      → can_fill n (store r) ≡ true
      → let qty = fill_qty n q (store r) remaining in
        fill_one n q r (store, remaining)
        ≡ (write r (synthetic_slot n (store r) qty) store, sub remaining qty)
  unfolding fill_one
  fill_one_yes q r store remaining e = rw e

  fill_one_no :
      (q : D) (r : ℕ) (store : Store) (remaining : D)
      → can_fill n (store r) ≡ false
      → fill_one n q r (store, remaining) ≡ (store, remaining)
  unfolding fill_one
  fill_one_no q r store remaining e = rw e

  counts :
      HasText n
      → (r : ℕ) (s : InventorySlot) (store : Store) (qty : D)
      → filled_of n (write r (synthetic_slot n s qty) store r) ≡ qty
  counts t r s store qty = ground (arith, to-from_go_decimal n t qty)

  -- What goes into a slot comes off the remainder.
  fill_one-total :
      IsGroup n
      → HasText n
      → (q : D) (r : ℕ) (st : Store × D)
      → add (filled_of n ((fill_one n q r st).0 r)) (fill_one n q r st).1
        ≡ add (filled_of n (st.0 r)) st.1
  fill_one-total g t q r (store, remaining) = elim (Bool-cases (can_fill n (store r))) [
    | inl e ↦
        let qty = fill_qty n q (store r) remaining in
        let none_yet : filled_of n (store r) ≡ zero = ground arith in
        rw (fill_one_yes q r store remaining e, counts t r (store r) store qty, none_yet)
          (g.add_comm qty (sub remaining qty)
            ∙ sub-add_cancel n g remaining qty
            ∙ sym (zero-add n g remaining))
    | inr e ↦ rw (fill_one_no q r store remaining e)
  ]

  -- The other entries count for what they did.
  fill_one-rest :
      (q : D) (r : ℕ) (slots : List (String × ℕ)) (st : Store × D)
      → Avoids r slots
      → total_position n (fill_one n q r st).0 slots ≡ total_position n st.0 slots
  fill_one-rest q r slots (store, remaining) a = elim (Bool-cases (can_fill n (store r))) [
    | inl e ↦ rw (fill_one_yes q r store remaining e) (total_position-write n r _ store slots a)
    | inr e ↦ rw (fill_one_no q r store remaining e)
  ]

  -- The total and the remainder keep their sum.
  pub fill_slots-total :
      IsGroup n
      → HasText n
      → (q : D) (slots : List (String × ℕ)) (st : Store × D) → Distinct slots
      → add (total_position n (fill_slots n q slots st).0 slots) (fill_slots n q slots st).1
        ≡ add (total_position n st.0 slots) st.1
  unfolding fill_slots total_position Distinct
  fill_slots-total g t q [] st d = refl
  fill_slots-total g t q ((k, r) ∷ slots) st d =
      let mid = fill_one n q r st in
      let end = fill_slots n q slots mid in
      let head : filled_of n (end.0 r) ≡ filled_of n (mid.0 r) =
        ap (filled_of n) (fill_slots-frame q r slots mid d.0) in
      elim (Bool-cases (less_eq n st.1 zero)) [
        | inl e ↦ rw e
        | inr e ↦ rw e (
            regroup n g (filled_of n (st.0 r)) (filled_of n (end.0 r)) st.1 mid.1
              (total_position n st.0 slots) (total_position n end.0 slots) end.1
              (ap (λ x. add x mid.1) head ∙ fill_one-total g t q r st)
              (fill_slots-total g t q slots mid d.1
                ∙ ap (λ x. add x mid.1) (fill_one-rest q r slots st d.0)))
      ]

  pub fill_slots_goes :
      (q : D) (k : String) (r : ℕ) (slots : List (String × ℕ)) (st : Store × D)
      → less_eq n st.1 zero ≡ false
      → fill_slots n q ((k, r) ∷ slots) st ≡ fill_slots n q slots (fill_one n q r st)
  unfolding fill_slots
  fill_slots_goes q k r slots st e = rw e

  -- No slot of the entries can take more.
  unfoldable pub NoneFillable : Store → List (String × ℕ) → Type 0
  NoneFillable store [] = Unit
  NoneFillable store ((k, r) ∷ slots) = (can_fill n (store r) ≡ false) × NoneFillable store slots

  module _ (o : IsOrdered n) (g : IsGroup n) (og : IsOrderedGroup n) where
    min_decimal-le : (a b : D) → less_eq n (min_decimal n a b) b ≡ true
    min_decimal-le a b = elim (Bool-cases (less_than n b a)) [
      | inl e ↦ rw e (less_eq_self n o b)
      | inr e ↦ rw e (less_eq_of_not_less n o b a e)
    ]

    fill_one-nonneg :
        (q : D) (r : ℕ) (st : Store × D)
        → less_eq n zero st.1 ≡ true
        → less_eq n zero (fill_one n q r st).1 ≡ true
    fill_one-nonneg q r (store, remaining) h = elim (Bool-cases (can_fill n (store r))) [
      | inl e ↦ rw (fill_one_yes q r store remaining e) (
          sub_nonneg n g og (fill_qty n q (store r) remaining) remaining
            (min_decimal-le (n.div q (to_go_decimal n (store r).price)) remaining))
      | inr e ↦ rw (fill_one_no q r store remaining e) h
    ]

    -- A slot that was given a quantity takes no more.
    fill_one-done : (q : D) (r : ℕ) (st : Store × D) → can_fill n ((fill_one n q r st).0 r) ≡ false
    unfolding fill_one
    fill_one-done q r (store, remaining) = elim (Bool-cases (can_fill n (store r))) [
      | inl e ↦ rw (fill_one_yes q r store remaining e) (ground arith)
      | inr e ↦ rw (fill_one_no q r store remaining e) e
    ]

    -- The loop ends with nothing left to give, or with no slot to give it to.
    pub fill_slots_ends :
        (q : D) (slots : List (String × ℕ)) (st : Store × D)
        → Distinct slots
        → less_eq n zero st.1 ≡ true
        → ((fill_slots n q slots st).1 ≡ zero) ⊎ NoneFillable (fill_slots n q slots st).0 slots
    unfolding fill_slots Distinct NoneFillable
    fill_slots_ends q [] st d h = inr tt
    fill_slots_ends q ((k, r) ∷ slots) st d h =
        let mid = fill_one n q r st in
        let end = fill_slots n q slots mid in
        let head : can_fill n (end.0 r) ≡ false =
          rw (fill_slots-frame q r slots mid d.0) (fill_one-done q r st) in
        elim (Bool-cases (less_eq n st.1 zero)) [
          | inl e ↦ rw e (inl (eq_of_less_eq n o st.1 zero e h))
          | inr e ↦
              subst (λ x. (x.1 ≡ zero) ⊎ NoneFillable x.0 ((k, r) ∷ slots))
                (sym (fill_slots_goes q k r slots st e))
                (elim (fill_slots_ends q slots mid d.1 (fill_one-nonneg q r st h)) [
                  | inl z ↦ inl z
                  | inr f ↦ inr (head, f)
                ])
        ]
