-- ===== src/Position/Sync/Drain.antt =====
-- The loop of ForceSync that decreases the position.
use opensqt_market_maker.Common.{
  ℕ, ◌≡◌, ◌≢◌, refl, sym, ap, subst, ◌∙◌, ◌⊎◌, inl, inr, true, false, List, [], ◌∷◌, String, arith,
  Bool-cases,
}
use opensqt_market_maker.Num.{Num, less_eq}
use opensqt_market_maker.Num.Laws.{IsOrdered, IsGroup, IsOrderedGroup, HasText}
use opensqt_market_maker.Num.Group.{zero-add, regroup, neg-sub}
use opensqt_market_maker.Num.Order.{eq_of_less_eq, sub_nonneg, less_eq_self}
use opensqt_market_maker.Pb.{InventorySlot}
use opensqt_market_maker.Pb.Enums.{is_position_filled}
use opensqt_market_maker.Pb.Convert.{to_go_decimal, to-from_go_decimal}
use opensqt_market_maker.Position.State.{Store, write}
use opensqt_market_maker.Position.Sync.{drain_one, drain_slots, cleared_slot, reduced_slot}
use opensqt_market_maker.Position.Sync.Sum.{filled_of, total_position, total_position-write}
use opensqt_market_maker.Position.WellFormed.Defs.{Avoids, Distinct}

module _ (n : Num) where
  open n use {D, zero, add, sub, neg}

  -- The quantity of a slot, as the loop reads it.
  abbrev qty_of : InventorySlot → D
  qty_of s = to_go_decimal n s.position_qty

  drain_one-frame : (r s : ℕ) (st : Store × D) → s ≢ r → (drain_one n s st).0 r ≡ st.0 r
  unfolding drain_one
  drain_one-frame r s (store, remaining) ne = ground arith

  drain_slots-frame :
      (r : ℕ) (slots : List (String × ℕ)) (st : Store × D)
      → Avoids r slots
      → (drain_slots n slots st).0 r ≡ st.0 r
  unfolding drain_slots Avoids
  drain_slots-frame r [] st a = refl
  drain_slots-frame r ((k, s) ∷ slots) st a =
      ground (arith, drain_slots-frame r slots (drain_one n s st) a.1, drain_one-frame r s st a.0)

  -- The three ways through the body: a slot that is cleared, one that is reduced, one left alone.
  drain_clears :
      (r : ℕ) (store : Store) (remaining : D)
      → is_position_filled (store r).position_status ≡ true
      → less_eq n (qty_of (store r)) remaining ≡ true
      → drain_one n r (store, remaining)
        ≡ (write r (cleared_slot n (store r)) store, sub remaining (qty_of (store r)))
  unfolding drain_one
  drain_clears r store remaining e f = rw (e, f)

  drain_reduces :
      (r : ℕ) (store : Store) (remaining : D)
      → is_position_filled (store r).position_status ≡ true
      → less_eq n (qty_of (store r)) remaining ≡ false
      → drain_one n r (store, remaining)
        ≡ (write r (reduced_slot n (store r) (sub (qty_of (store r)) remaining)) store, zero)
  unfolding drain_one
  drain_reduces r store remaining e f = rw (e, f)

  drain_passes :
      (r : ℕ) (store : Store) (remaining : D)
      → is_position_filled (store r).position_status ≡ false
      → drain_one n r (store, remaining) ≡ (store, remaining)
  unfolding drain_one
  drain_passes r store remaining e = rw e

  -- To prove something of the body's result, prove it of the three.
  drain_cases {ℓ} :
      (P : Store × D → Type ℓ) (r : ℕ) (store : Store) (remaining : D)
      → (is_position_filled (store r).position_status ≡ true
          → less_eq n (qty_of (store r)) remaining ≡ true
          → P (write r (cleared_slot n (store r)) store, sub remaining (qty_of (store r))))
      → (is_position_filled (store r).position_status ≡ true
          → less_eq n (qty_of (store r)) remaining ≡ false
          → P (write r (reduced_slot n (store r) (sub (qty_of (store r)) remaining)) store, zero))
      → (is_position_filled (store r).position_status ≡ false → P (store, remaining))
      → P (drain_one n r (store, remaining))
  drain_cases P r store remaining a b c =
      elim (Bool-cases (is_position_filled (store r).position_status)) [
        | inl e ↦ elim (Bool-cases (less_eq n (qty_of (store r)) remaining)) [
          | inl f ↦ subst P (sym (drain_clears r store remaining e f)) (a e f)
          | inr f ↦ subst P (sym (drain_reduces r store remaining e f)) (b e f)
        ]
        | inr e ↦ subst P (sym (drain_passes r store remaining e)) (c e)
      ]

  drain_one-total :
      IsGroup n
      → IsOrderedGroup n
      → HasText n
      → (r : ℕ) (st : Store × D)
      → add (filled_of n ((drain_one n r st).0 r)) (neg (drain_one n r st).1)
        ≡ add (filled_of n (st.0 r)) (neg st.1)
  drain_one-total g og t r (store, remaining) =
      drain_cases
        (λ x. add (filled_of n (x.0 r)) (neg x.1) ≡ add (filled_of n (store r)) (neg remaining)) r
        store remaining
        (λ e f.
          let q = qty_of (store r) in
          let now : filled_of n (write r (cleared_slot n (store r)) store r) ≡ zero =
            ground arith in
          let was : filled_of n (store r) ≡ q = rw e in
          rw (now, was) (zero-add n g _ ∙ neg-sub n g remaining q ∙ g.sub_neg q remaining))
        (λ e f.
          let q = qty_of (store r) in
          let s = reduced_slot n (store r) (sub q remaining) in
          let now : filled_of n (write r s store r) ≡ sub q remaining =
            ground (arith, to-from_go_decimal n t (sub q remaining)) in
          let was : filled_of n (store r) ≡ q = rw e in
          rw (now, was, og.neg_zero) (g.add_zero (sub q remaining) ∙ g.sub_neg q remaining))
        (λ e. refl)

  drain_one-rest :
      (r : ℕ) (slots : List (String × ℕ)) (st : Store × D)
      → Avoids r slots
      → total_position n (drain_one n r st).0 slots ≡ total_position n st.0 slots
  drain_one-rest r slots (store, remaining) a =
      drain_cases (λ x. total_position n x.0 slots ≡ total_position n store slots) r store remaining
        (λ e f. total_position-write n r _ store slots a)
        (λ e f. total_position-write n r _ store slots a) (λ e. refl)

  -- The total less the remainder stays what it was.
  pub drain_slots-total :
      IsGroup n
      → IsOrderedGroup n
      → HasText n
      → (slots : List (String × ℕ)) (st : Store × D) → Distinct slots
      → add (total_position n (drain_slots n slots st).0 slots) (neg (drain_slots n slots st).1)
        ≡ add (total_position n st.0 slots) (neg st.1)
  unfolding drain_slots total_position Distinct
  drain_slots-total g og t [] st d = refl
  drain_slots-total g og t ((k, r) ∷ slots) st d =
      let mid = drain_one n r st in
      let end = drain_slots n slots mid in
      let head : filled_of n (end.0 r) ≡ filled_of n (mid.0 r) =
        ap (filled_of n) (drain_slots-frame r slots mid d.0) in
      elim (Bool-cases (less_eq n st.1 zero)) [
        | inl e ↦ rw e
        | inr e ↦ rw e (
            regroup n g (filled_of n (st.0 r)) (filled_of n (end.0 r)) (neg st.1) (neg mid.1)
              (total_position n st.0 slots) (total_position n end.0 slots) (neg end.1)
              (ap (λ x. add x (neg mid.1)) head ∙ drain_one-total g og t r st)
              (drain_slots-total g og t slots mid d.1
                ∙ ap (λ x. add x (neg mid.1)) (drain_one-rest r slots st d.0)))
      ]

  -- No slot of the entries holds a position.
  unfoldable pub NoneFilled : Store → List (String × ℕ) → Type 0
  NoneFilled store [] = Unit
  NoneFilled store ((k, r) ∷ slots) =
      (is_position_filled (store r).position_status ≡ false) × NoneFilled store slots

  drain_slots_goes :
      (k : String) (r : ℕ) (slots : List (String × ℕ)) (st : Store × D)
      → less_eq n st.1 zero ≡ false
      → drain_slots n ((k, r) ∷ slots) st ≡ drain_slots n slots (drain_one n r st)
  unfolding drain_slots
  drain_slots_goes k r slots st e = rw e

  drain_slots_stops :
      (slots : List (String × ℕ)) (st : Store × D)
      → less_eq n st.1 zero ≡ true
      → drain_slots n slots st ≡ st
  unfolding drain_slots
  drain_slots_stops [] st e = refl
  drain_slots_stops ((k, r) ∷ slots) st e = rw e

  module _ (o : IsOrdered n) (g : IsGroup n) (og : IsOrderedGroup n) where
    -- After the body the remainder is not negative, and zero or the slot is empty.
    drain_one_done :
        (r : ℕ) (st : Store × D)
        → less_eq n zero st.1 ≡ true
        → (less_eq n zero (drain_one n r st).1 ≡ true)
          × (((drain_one n r st).1 ≡ zero)
              ⊎ (is_position_filled ((drain_one n r st).0 r).position_status ≡ false))
    drain_one_done r (store, remaining) h =
        drain_cases
          (λ x.
            (less_eq n zero x.1 ≡ true)
            × ((x.1 ≡ zero) ⊎ (is_position_filled (x.0 r).position_status ≡ false)))
          r store remaining
          (λ e f. (sub_nonneg n g og (qty_of (store r)) remaining f, inr (ground arith)))
          (λ e f. (less_eq_self n o zero, inl refl)) (λ e. (h, inr e))

    -- The loop ends with nothing left to take, or with no position left to take it from.
    pub drain_slots_ends :
        (slots : List (String × ℕ)) (st : Store × D)
        → Distinct slots
        → less_eq n zero st.1 ≡ true
        → ((drain_slots n slots st).1 ≡ zero) ⊎ NoneFilled (drain_slots n slots st).0 slots
    unfolding Distinct NoneFilled
    drain_slots_ends [] st d h = inr tt
    drain_slots_ends ((k, r) ∷ slots) st d h =
        let mid = drain_one n r st in
        let end = drain_slots n slots mid in
        let step = drain_one_done r st h in
        let Goal = λ (x : Store × D). (x.1 ≡ zero) ⊎ NoneFilled x.0 ((k, r) ∷ slots) in
        elim (Bool-cases (less_eq n st.1 zero)) [
          | inl e ↦
              subst Goal (sym (drain_slots_stops ((k, r) ∷ slots) st e))
                (inl (eq_of_less_eq n o st.1 zero e h))
          | inr e ↦ subst Goal (sym (drain_slots_goes k r slots st e)) (elim step.1 [
            | inl z ↦
                inl (ap (λ x. x.1) (drain_slots_stops slots mid (rw z (less_eq_self n o zero))) ∙ z)
            | inr f ↦ elim (drain_slots_ends slots mid d.1 step.0) [
              | inl z ↦ inl z
              | inr all ↦ inr (rw (drain_slots-frame r slots mid d.0) f, all)
            ]
          ])
        ]
